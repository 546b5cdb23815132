-- ===== src/Reassemble/Apply.antt =====
-- ApplyReparse of internal/store/reassemble.go: what a batch leaves of the parts. `done` tells the
-- binaries that back a release which has been post-processed. The releases and binaries that it deletes,
-- the counts, the errors of the database and the narrowing of file numbers to 32 bits are left out. A batch
-- without protected binaries is taken to send the database an empty list of them, and not a null.
use nzb_indexer.Base.{
  ℕ, Bool, false, ◌&&◌, not, Option, none, some, List, [], ◌∷◌, ◌==◌, if◌then◌else◌,
}
use nzb_indexer.Reassemble.{PartForReparse, PartReparse, has_id}

-- The row of the updates for a part.
abbrev pub find : List PartReparse → ℕ → Option PartReparse
find [] id = none
find (u ∷ us) id = if u.id == id then some u else find us id

abbrev pub regroup : Option PartReparse → PartForReparse → PartForReparse
regroup none p = p
regroup (some u) p = record p {
  collection_key = u.collection_key;
  file_number = u.file_number;
  collection_files = u.collection_files;
  norm_subject = u.norm_subject;
}

-- `binary_id = ANY(...)` for a set of binaries.
abbrev pub is_among : (ℕ → Bool) → Option ℕ → Bool
is_among among none = false
is_among among (some b) = among b

abbrev pub is_protected : (ℕ → Bool) → List ℕ → ℕ → Bool
is_protected done dirty b = has_id dirty b && done b

abbrev pub is_torn_down : (ℕ → Bool) → List ℕ → ℕ → Bool
is_torn_down done dirty b = has_id dirty b && not (done b)

-- The two updates of a row: its grouping, and its binary.
abbrev pub apply_one : (ℕ → Bool) → List PartReparse → List ℕ → PartForReparse → PartForReparse
apply_one done updates dirty p =
    let regrouped =
      if is_among (is_protected done dirty) p.binary_id then p else regroup (find updates p.id) p in
    if is_among (is_torn_down done dirty) p.binary_id
    then record regrouped { binary_id = none }
    else regrouped

unfoldable pub apply_reparse :
    (ℕ → Bool) → List PartReparse → List ℕ → List PartForReparse → List PartForReparse
apply_reparse done updates dirty [] = []
apply_reparse done updates dirty (p ∷ ps) =
    apply_one done updates dirty p ∷ apply_reparse done updates dirty ps
