-- ===== src/Reassemble.antt =====
-- internal/reassemble/reassemble.go: stored parts, what is planned for a batch of them, and (in Run)
-- the pass over the batches. The subject parser is a parameter.
mod Run
mod Plan
mod Apply
mod Stored
mod Retry
mod Cursor
mod Tests
use Prim.Native.String.{String}
use text.Mathlib.Text.{◌==◌ as str_eq}
use nzb_indexer.Base.{
  ℕ, zero, suc, ◌+◌, Bool, true, false, ◌&&◌, Option, none, some, List, [], ◌∷◌, ◌==◌, ltb, leb,
  length, if◌then◌else◌, ℤ, pos, positive_or,
}
use nzb_indexer.Nntp.Errors.{Error, other, wrap}
use nzb_indexer.Scanner.Ingest.{ParsedSubject}

pub record PartForReparse : Type 0 where
  pub id : ℕ
  pub subject : String
  pub collection_key : String
  pub file_number : ℕ
  pub collection_files : ℕ
  pub norm_subject : String
  pub binary_id : Option ℕ

pub record PartReparse : Type 0 where
  pub id : ℕ
  pub collection_key : String
  pub file_number : ℕ
  pub collection_files : ℕ
  pub norm_subject : String

-- What the store counted for one batch.
pub record ReassembleStats : Type 0 where
  pub parts_updated : ℕ
  pub parts_detached : ℕ
  pub binaries_deleted : ℕ
  pub releases_deleted : ℕ
  pub binaries_protected : ℕ

abbrev pub no_stats : ReassembleStats
no_stats = record {
  parts_updated = 0;
  parts_detached = 0;
  binaries_deleted = 0;
  releases_deleted = 0;
  binaries_protected = 0;
}

-- Whether the part already has the grouping that its subject gives.
abbrev pub unchanged : ParsedSubject → PartForReparse → Bool
unchanged ps p =
    str_eq ps.collection_key p.collection_key
    && (ps.file_number == p.file_number)
    && (ps.collection_files == p.collection_files)
    && str_eq ps.normalized p.norm_subject

abbrev pub update_of : ParsedSubject → PartForReparse → PartReparse
update_of ps p = record {
  id = p.id;
  collection_key = ps.collection_key;
  file_number = ps.file_number;
  collection_files = ps.collection_files;
  norm_subject = ps.normalized;
}

abbrev pub has_id : List ℕ → ℕ → Bool
has_id [] b = false
has_id (x ∷ xs) b = if x == b then true else has_id xs b

-- A binary that was not seen before is dirty.
abbrev pub mark : List ℕ → Option ℕ → List ℕ
mark seen none = []
mark seen (some b) = if has_id seen b then [] else b ∷ []

abbrev pub also : List ℕ → List ℕ → List ℕ
also [] ys = ys
also (x ∷ xs) ys = x ∷ also xs ys

-- The loop over the parts, with the binaries seen so far: updates and dirty binaries.
unfoldable pub plan_from :
    (String → ParsedSubject) → List ℕ → List PartForReparse → List PartReparse × List ℕ
plan_from parse seen [] = ([], [])
plan_from parse seen (p ∷ ps) =
    let new = mark seen p.binary_id in
    let skipped = plan_from parse seen ps in
    let (updates, dirty) = plan_from parse (also new seen) ps in
    if unchanged (parse p.subject) p
    then skipped
    else (update_of (parse p.subject) p ∷ updates, also new dirty)

unfoldable pub plan : (String → ParsedSubject) → List PartForReparse → List PartReparse × List ℕ
plan parse parts = plan_from parse [] parts
