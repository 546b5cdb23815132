-- ===== src/Search/Rebuild.antt =====
-- What the rebuild of internal/search/search.go puts into the index, over a store that answers pages of
-- one listing.
use nzb_indexer.Base.{
  ℕ, zero, suc, ◌+◌, ◌-◌, ◌≤◌, ◌<◌, ◌≡◌, ◌∙◌, refl, sym, ap, Option, none, some, List, [], ◌∷◌,
  ◌++◌, length, take, drop, arith, Bool-cases, inl, inr, leb, ℤ, positive_or, take-append-drop,
  append_assoc, append-nil, length-take, length-drop, drop-all, take-all,
}
use mathlib.Core.Path.{subst}
use nzb_indexer.Base.History.{drop-drop}
use nzb_indexer.Search.{
  found, Page, Source, finished, Reindexed, index_all, pages, reindex, continue,
}

abbrev pub position : Option ℕ → ℕ
position none = 0
position (some c) = c

abbrev pub cursor_after : {R : Type 0} → ℕ → List R → Option ℕ
cursor_after start [] = none
cursor_after start (x ∷ xs) = some (start + length (x ∷ xs))

-- The page of a size at a position of a listing: there is more if it is full.
abbrev pub page_at : {R : Type 0} → List R → ℕ → ℕ → Page R ℕ
page_at rs size start =
    let xs = take size (drop start rs) in
    record { releases = xs; next_cursor = cursor_after start xs; has_more = leb size (length xs) }

module _ {R S : Type 0} (src : Source R ℕ S) (rs : List R) (log : S → List R) where
  -- The store answers these pages, the index takes every release, and the context does not end.
  pub record Serves : Type 0 where
    pub page :
        (size : ℕ) (cursor : Option ℕ) (s : S)
        → (t : S) × (src.search_page size cursor s ≡ (found (page_at rs size (position cursor)), t))
          × (log t ≡ log s)
    pub upsert :
        (r : R) (s : S) → (t : S) × (src.index r s ≡ (none, t)) × (log t ≡ log s ++ (r ∷ []))
    pub alive : (s : S) → src.ended s ≡ none

  abbrev pub IsComplete : List R → Reindexed S → Type 0
  IsComplete base r = (r.ending ≡ finished) × (r.indexed ≡ length rs) × (log r.world ≡ base ++ rs)

  index_all_lem :
      (serves : Serves) (xs : List R) (n : ℕ) (s : S) (next : ℕ → S → Reindexed S)
      → (t : S) × (index_all src xs n s next ≡ next (n + length xs) t) × (log t ≡ log s ++ xs)
  unfolding index_all
  index_all_lem serves [] n s next = (s, ap (λ k. next k s) (omega arith), sym (append-nil (log s)))
  index_all_lem serves (x ∷ xs) n s next =
      let (t, indexed, logged) = serves.upsert x s in
      let (u, rest, all) = index_all_lem serves xs (n + 1) t next in
      (
        u,
        rw indexed (rest ∙ ap (λ k. next k u) (omega arith)),
        all ∙ rw logged (append_assoc (log s) (x ∷ []) xs),
      )

  pages-step :
      (size fuel i : ℕ) (cursor : Option ℕ) (s t : S) (page : Page R ℕ)
      → src.ended s ≡ none
      → src.search_page size cursor s ≡ (found page, t)
      → pages src size (suc fuel) cursor i s
        ≡ index_all src page.releases i t
            (continue src page (page.next_cursor) (pages src size fuel))
  unfolding pages
  pages-step size fuel i cursor s t page alive answered = rw (alive, pages) (rw answered refl)

  -- The end of a page, of which `ys` are the releases.
  continue-IsComplete :
      (base : List R) (n start : ℕ) (ys : List R) (s u : S) (next : Option ℕ → ℕ → S → Reindexed S)
      → ys ≡ take (suc n) (drop start rs)
      → start ≤ length rs
      → log u ≡ log s ++ ys
      → log s ++ drop start rs ≡ base ++ rs
      → (length ys ≡ suc n
          → log u ++ drop (start + length ys) rs ≡ base ++ rs
          → IsComplete base (next (some (start + length ys)) (start + length ys) u))
      → IsComplete base (
          continue src
            (record {
              releases = ys;
              next_cursor = cursor_after start ys;
              has_more = leb (suc n) (length ys);
            })
            (cursor_after start ys)
            next
            (start + length ys)
            u)
  continue-IsComplete base n start [] s u next page le logged before more =
      let size = length-take (suc n) (drop start rs) in
      let rest = length-drop start rs in
      let none_left : length rs ≤ start = omega (arith, size, rest, ap length page) in
      (
        refl,
        omega arith,
        logged ∙ ap (λ l. log s ++ l) (sym (drop-all start rs none_left)) ∙ before,
      )
  continue-IsComplete base n start (y ∷ ys) s u next page le logged before more =
      let rest = drop start rs in
      let size = length-take (suc n) rest in
      let left = length-drop start rs in
      let same = ap length page in
      elim (Bool-cases (leb (suc n) (length (y ∷ ys)))) [
        | inr short ↦
            let all : take (suc n) rest ≡ rest =
              take-all (suc n) rest (ground (arith, size, same)) in
            rw short (
              refl,
              ground (arith, size, left, same),
              logged ∙ ap (λ l. log s ++ l) (page ∙ all) ∙ before,
            )
        | inl full ↦
            let count : length (y ∷ ys) ≡ suc n = ground (arith, size, same) in
            rw full (
              more count (
                ap (λ l. l ++ drop (start + length (y ∷ ys)) rs) logged
                ∙ append_assoc (log s) (y ∷ ys) (drop (start + length (y ∷ ys)) rs)
                ∙ ap (λ l. log s ++ l)
                    (ap (λ l. (y ∷ ys) ++ l)
                        (sym (drop-drop (length (y ∷ ys)) start rs) ∙ ap (λ k. drop k rest) count)
                      ∙ ap (λ l. l ++ drop (suc n) rest) page
                      ∙ take-append-drop (suc n) rest)
                ∙ before))
      ]

  -- The loop at a position, when what is before it has been indexed.
  pages-IsComplete :
      (serves : Serves) (base : List R) (n fuel : ℕ) (cursor : Option ℕ) (s : S)
      → position cursor ≤ length rs
      → length rs - position cursor < fuel
      → log s ++ drop (position cursor) rs ≡ base ++ rs
      → IsComplete base (pages src (suc n) fuel cursor (position cursor) s)
  pages-IsComplete serves base n zero cursor s le f before = absurd (omega arith)
  pages-IsComplete serves base n (suc fuel) cursor s le f before =
      let start = position cursor in
      let xs = take (suc n) (drop start rs) in
      let page = page_at rs (suc n) start in
      let next = pages src (suc n) fuel in
      let (t, answered, same) = serves.page (suc n) cursor s in
      let (u, indexed, logged) =
        index_all_lem serves xs start t (continue src page (page.next_cursor) next) in
      let step = pages-step (suc n) fuel start cursor s t page (serves.alive s) answered in
      let size = length-take (suc n) (drop start rs) in
      let left = length-drop start rs in
      subst (IsComplete base) (sym (step ∙ indexed)) (
        continue-IsComplete base n start xs s u next refl le (logged ∙ ap (λ l. l ++ xs) same)
          before
          (λ count after.
            pages-IsComplete serves base n fuel (some (start + length xs)) u
              (omega (arith, size, left, count)) (omega (arith, size, left, count)) after))

  sized-IsComplete :
      (serves : Serves) (size fuel : ℕ) (s : S)
      → 0 < size
      → length rs < fuel
      → IsComplete (log s) (pages src size fuel none 0 s)
  sized-IsComplete serves zero fuel s positive lt = absurd (omega arith)
  sized-IsComplete serves (suc n) fuel s positive lt =
      pages-IsComplete serves (log s) n fuel none s (omega arith) (omega arith) refl

  -- Over a store that answers the pages of a listing, and an index that takes every release, a rebuild
  -- ends after all of the listing has been indexed, each release once and in order, and reports how
  -- many, whatever page size is asked for, the default for zero or less included; one round for each
  -- release and one more are enough.
  pub reindex_lem :
      (serves : Serves) (page_size : ℤ) (fuel : ℕ) (s : S)
      → length rs < fuel
      → IsComplete (log s) (reindex src page_size fuel s)
  unfolding reindex
  reindex_lem serves page_size fuel s lt =
      sized-IsComplete serves (positive_or 500 page_size) fuel s (ground arith) lt
