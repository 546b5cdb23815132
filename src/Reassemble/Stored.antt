-- ===== src/Reassemble/Stored.antt =====
-- What storing a plan of internal/reassemble/reassemble.go, by internal/store/reassemble.go, makes of
-- the parts.
use Prim.Native.String.{String}
use nzb_indexer.Base.{
  ℕ, ◌≡◌, Bool, false, not, ◌&&◌, Option, none, some, List, [], ◌∷◌, ◌==◌, if◌then◌else◌,
}
use nzb_indexer.Scanner.Ingest.{ParsedSubject}
use nzb_indexer.Reassemble.{PartForReparse, PartReparse, unchanged, update_of}
use nzb_indexer.Reassemble.Plan.{touches}
use nzb_indexer.Reassemble.Apply.{find, is_among}

abbrev pub HasNoId : List PartForReparse → ℕ → Type 0
HasNoId [] id = Unit
HasNoId (p ∷ ps) id = ((p.id == id) ≡ false) × HasNoId ps id

-- The parts have different ids.
abbrev pub HasDistinctIds : List PartForReparse → Type 0
HasDistinctIds [] = Unit
HasDistinctIds (p ∷ ps) = HasNoId ps p.id × HasDistinctIds ps

-- The part with the grouping that its subject gives.
abbrev pub regrouped : ParsedSubject → PartForReparse → PartForReparse
regrouped parsed p = record p {
  collection_key = parsed.collection_key;
  file_number = parsed.file_number;
  collection_files = parsed.collection_files;
  norm_subject = parsed.normalized;
}

module _ (parse : String → ParsedSubject) (done : ℕ → Bool) where
  -- The part once a batch `all` is settled: it stays if its binary is touched and done; otherwise it is
  -- grouped by its subject, and leaves its binary if that is touched.
  abbrev pub settled : List PartForReparse → PartForReparse → PartForReparse
  settled all p =
      if is_among (λ b. touches parse all b && done b) p.binary_id
      then p
      else record (regrouped (parse p.subject) p) {
        binary_id =
            if is_among (λ b. touches parse all b && not (done b)) p.binary_id
            then none
            else p.binary_id;
      }

  -- The update of each part, if it needs one.
  planned : PartForReparse → Option PartReparse
  planned p = if unchanged (parse p.subject) p then none else some (update_of (parse p.subject) p)

  abbrev AllPlanned : List PartReparse → List PartForReparse → Type 0
  AllPlanned us [] = Unit
  AllPlanned us (p ∷ ps) = (find us p.id ≡ planned p) × AllPlanned us ps

  -- The two updates of a row, and what becomes of it, by the binary alone.
  abbrev applied : Bool → Bool → PartForReparse → PartForReparse → PartForReparse
  applied protected torn q p =
      let kept = if protected then p else q in
      if torn then record kept { binary_id = none } else kept

  abbrev settled_in : List PartForReparse → PartForReparse → Option ℕ → PartForReparse
  settled_in all p o =
      if is_among (λ b. touches parse all b && done b) o
      then p
      else record (regrouped (parse p.subject) p) {
        binary_id = if is_among (λ b. touches parse all b && not (done b)) o then none else o;
      }
