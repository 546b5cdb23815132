-- ===== src/Yencverify/Tallied.antt =====
-- What a pass of internal/yencverify/yencverify.go stores and counts.
use nzb_indexer.Base.{
  Bool, true, false, not, ◌&&◌, none, if◌then◌else◌, lebℤ, pos, ℕ, ◌+◌, ◌≡◌, some, List, [], ◌∷◌,
  length,
}
use nzb_indexer.Base.Bytes.{Bytes}
use nzb_indexer.YencHeader.{Header, parse_header}
use nzb_indexer.Yencverify.{Fetched, line, no_header, fetch_failed, Shape, World, Result, blanks}

-- How many satisfy a test.
abbrev pub count_of : {A : Type 0} → (A → Bool) → List A → ℕ
count_of test [] = 0
count_of test (x ∷ xs) = (if test x then 1 else 0) + count_of test xs

abbrev pub is_failed : Shape → Bool
is_failed shape = not shape.ok

abbrev pub is_standalone : Shape → Bool
is_standalone shape = shape.ok && lebℤ shape.total (pos 1)

abbrev pub is_fragment : Shape → Bool
is_fragment shape = shape.ok && not (lebℤ shape.total (pos 1))

-- The counts of a pass over these shapes.
pub record IsTallied (shapes : List Shape) (res : Result) : Type 0 where
  pub checked : res.checked ≡ length shapes
  pub failed : res.failed ≡ count_of is_failed shapes
  pub standalone : res.standalone ≡ count_of is_standalone shapes
  pub fragments : res.fragments ≡ count_of is_fragment shapes

module _ {S : Type 0} (w : World S) where
  -- The body has no yEnc line: the fetcher says so, or the parser finds none in what it returned.
  abbrev pub HasNoHeader : Fetched → Type 0
  HasNoHeader (line text) = parse_header (w.scan_lines text) ≡ none
  HasNoHeader no_header = Unit
  HasNoHeader fetch_failed = ⊥

  -- What the articles with these message ids turn out to be, one after another.
  pub data Fetches : List Bytes → S → List Shape → S → Type 0 where
    all_fetched : {s : S} → Fetches [] s [] s
    context_ended :
        {id : Bytes} {ids : List Bytes} {s : S}
        → w.ended s ≡ true
        → Fetches (id ∷ ids) s (blanks (id ∷ ids)) s
    with_header :
        {id : Bytes} {ids : List Bytes} {s t u : S} {text : Bytes} {h : Header} {rest : List Shape}
        → w.ended s ≡ false
        → w.body_header id s ≡ (line text, t)
        → parse_header (w.scan_lines text) ≡ some h
        → Fetches ids t rest u
        → Fetches
            (id ∷ ids)
            s
            (record { ok = true; part = h.part; total = h.total; name = h.name } ∷ rest)
            u
    without_header :
        {id : Bytes} {ids : List Bytes} {s t u : S} {answer : Fetched} {rest : List Shape}
        → w.ended s ≡ false
        → w.body_header id s ≡ (answer, t)
        → HasNoHeader answer
        → Fetches ids t rest u
        → Fetches
            (id ∷ ids)
            s
            (record { ok = true; part = pos 1; total = pos 1; name = [] } ∷ rest)
            u
    not_fetched :
        {id : Bytes} {ids : List Bytes} {s t u : S} {rest : List Shape}
        → w.ended s ≡ false
        → w.body_header id s ≡ (fetch_failed, t)
        → Fetches ids t rest u
        → Fetches
            (id ∷ ids)
            s
            (record { ok = false; part = pos 0; total = pos 0; name = [] } ∷ rest)
            u
