-- ===== src/Yencverify.antt =====
-- internal/yencverify/yencverify.go: the shape of articles whose subject has no counter, from their
-- yEnc line. The articles are fetched in turn; the source fetches them by several workers, each of which
-- fills its own places of the result. The store and the fetcher step through a world.
mod Tallied
mod Tests
use nzb_indexer.Base.{
  ℕ, ◌+◌, Bool, true, false, Option, none, some, List, [], ◌∷◌, if◌then◌else◌, ℤ, pos, lebℤ,
  positive_or, map,
}
use nzb_indexer.Base.Bytes.{Bytes}
use nzb_indexer.Nntp.Errors.{Error}
use nzb_indexer.YencHeader.{Header, parse_header}

pub record YencCandidate : Type 0 where
  pub id : ℕ
  pub message_id : Bytes

pub record YencRepairCandidate : Type 0 where
  pub release_id : ℕ
  pub binary_id : ℕ
  pub part_id : ℕ
  pub message_id : Bytes

-- One article's shape.
pub record Shape : Type 0 where
  pub ok : Bool
  pub part : ℤ
  pub total : ℤ
  pub name : Bytes

pub record YencResult : Type 0 where
  pub id : ℕ
  pub shape : Shape

pub record YencRepairResult : Type 0 where
  pub release_id : ℕ
  pub binary_id : ℕ
  pub part_id : ℕ
  pub shape : Shape

pub data Listed (A : Type 0) : Type 0 where
  listed : List A → Listed A
  list_failed : Error → Listed A

-- The line of a body, the error that it has none, or another.
pub data Fetched : Type 0 where
  line : Bytes → Fetched
  no_header fetch_failed : Fetched

-- `scan_lines` is bufio.Scanner.
pub record World (S : Type 0) : Type 0 where
  pub list_parts : ℕ → S → Listed YencCandidate × S
  pub apply_verification : List YencResult → S → Option Error × S
  pub list_releases : ℕ → S → Listed YencRepairCandidate × S
  pub apply_repair : List YencRepairResult → S → Option Error × S
  pub body_header : Bytes → S → Fetched × S
  pub scan_lines : Bytes → List Bytes
  pub ended : S → Bool

pub record Result : Type 0 where
  pub checked : ℕ
  pub standalone : ℕ
  pub fragments : ℕ
  pub failed : ℕ

pub data Ending : Type 0 where
  finished : Ending
  list_stopped apply_stopped : Error → Ending

pub record Pass (S : Type 0) : Type 0 where
  pub result : Result
  pub ending : Ending
  pub world : S

abbrev pub no_result : Result
no_result = record { checked = 0; standalone = 0; fragments = 0; failed = 0 }

abbrev pub no_shape : Shape
no_shape = record { ok = false; part = pos 0; total = pos 0; name = [] }

abbrev pub alone : Shape
alone = record { ok = true; part = pos 1; total = pos 1; name = [] }

abbrev parsed_shape : Option Header → Shape
parsed_shape none = alone
parsed_shape (some h) = record { ok = true; part = h.part; total = h.total; name = h.name }

abbrev pub count : Shape → Result → Result
count shape res =
    let next = record res { checked = res.checked + 1 } in
    if shape.ok
    then if lebℤ shape.total (pos 1)
      then record next { standalone = res.standalone + 1 }
      else record next { fragments = res.fragments + 1 }
    else record next { failed = res.failed + 1 }

unfoldable pub tally : List Shape → Result → Result
tally [] res = res
tally (shape ∷ shapes) res = tally shapes (count shape res)

abbrev pub result_of : YencCandidate → Shape → YencResult
result_of c shape = record { id = c.id; shape = shape }

abbrev pub repair_result_of : YencRepairCandidate → Shape → YencRepairResult
repair_result_of c shape = record {
  release_id = c.release_id;
  binary_id = c.binary_id;
  part_id = c.part_id;
  shape = shape;
}

-- A result for each candidate, by position.
unfoldable pub pair_up : {A B : Type 0} → (A → Shape → B) → List A → List Shape → List B
pair_up f [] shapes = []
pair_up f (c ∷ cs) [] = []
pair_up f (c ∷ cs) (shape ∷ shapes) = f c shape ∷ pair_up f cs shapes

abbrev pub blanks : List Bytes → List Shape
blanks [] = []
blanks (id ∷ ids) = no_shape ∷ blanks ids

module _ {S : Type 0} (w : World S) where
  unfoldable pub shape_of : Fetched → Shape
  unfolding parse_header
  shape_of (line text) = parsed_shape (parse_header (w.scan_lines text))
  shape_of no_header = alone
  shape_of fetch_failed = no_shape

  unfoldable pub fetch_headers : List Bytes → S → List Shape × S
  unfolding shape_of
  fetch_headers [] s = ([], s)
  fetch_headers (id ∷ ids) s =
      let fetched = w.body_header id s in
      let others = fetch_headers ids (fetched.1) in
      if w.ended s then (no_shape ∷ blanks ids, s) else (shape_of (fetched.0) ∷ others.0, others.1)

  abbrev pub after_apply : Result → Option Error × S → Pass S
  after_apply res (none, s) = record { result = res; ending = finished; world = s }
  after_apply res (some err, s) = record { result = res; ending = apply_stopped err; world = s }

  abbrev pub verify : List YencCandidate → List Shape × S → Pass S
  verify cs (shapes, s) =
      after_apply (tally shapes no_result) (w.apply_verification (pair_up result_of cs shapes) s)

  abbrev pub after_list : Listed YencCandidate × S → Pass S
  after_list (list_failed err, s) = record {
    result = no_result;
    ending = list_stopped err;
    world = s;
  }
  after_list (listed [], s) = record { result = no_result; ending = finished; world = s }
  after_list (listed (c ∷ cs), s) =
      verify (c ∷ cs) (fetch_headers (map (λ c. c.message_id) (c ∷ cs)) s)

  unfoldable pub run : ℤ → S → Pass S
  unfolding fetch_headers tally pair_up
  run batch_limit s = after_list (w.list_parts (positive_or 100 batch_limit) s)

  abbrev pub repair : List YencRepairCandidate → List Shape × S → Pass S
  repair cs (shapes, s) =
      after_apply (tally shapes no_result) (w.apply_repair (pair_up repair_result_of cs shapes) s)

  abbrev pub after_repair_list : Listed YencRepairCandidate × S → Pass S
  after_repair_list (list_failed err, s) = record {
    result = no_result;
    ending = list_stopped err;
    world = s;
  }
  after_repair_list (listed [], s) = record { result = no_result; ending = finished; world = s }
  after_repair_list (listed (c ∷ cs), s) =
      repair (c ∷ cs) (fetch_headers (map (λ c. c.message_id) (c ∷ cs)) s)

  unfoldable pub run_repair : ℤ → S → Pass S
  unfolding fetch_headers tally pair_up
  run_repair batch_limit s = after_repair_list (w.list_releases (positive_or 100 batch_limit) s)
