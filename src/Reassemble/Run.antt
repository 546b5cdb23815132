-- ===== src/Reassemble/Run.antt =====
-- Run of internal/reassemble/reassemble.go: batch by batch from a persisted cursor, with the retries of a
-- batch. The store is a world that the calls step through; the parser of the cursor's text and the test
-- for a deadlock are parameters.
use Prim.Native.String.{String}
use nzb_indexer.Base.{
  ℕ, zero, suc, ◌+◌, Bool, true, false, Option, none, some, List, [], ◌∷◌, length, if◌then◌else◌, ℤ,
  positive_or,
}
use nzb_indexer.Nntp.Errors.{Error, other, wrap}
use nzb_indexer.Scanner.Ingest.{ParsedSubject}
use nzb_indexer.Reassemble.{PartForReparse, PartReparse, ReassembleStats, no_stats, plan}

pub data Answer {ℓ} (A : Type ℓ) : Type ℓ where
  ok : A → Answer A
  failed : Error → Answer A

-- The store, the clock and the context, over a world `S`: the calls, in the order of the source's uses.
-- `ended` is the context's error, `overdue` whether the deadline has passed, and `sleep` the wait before
-- a retry, which gives the context's error if it ends first.
pub record Repo (S : Type 0) : Type 0 where
  pub list_parts : ℕ → ℕ → S → Answer (List PartForReparse) × S
  pub apply_reparse : List PartReparse → List ℕ → S → Answer ReassembleStats × S
  pub get_cursor : S → Answer (Option String) × S
  pub set_cursor : ℕ → S → Option Error × S
  pub ended : S → Option Error
  pub overdue : S → Bool
  pub sleep : ℕ → S → Option Error × S
  pub is_deadlock : Error → Bool
  pub parse_cursor : String → Option ℕ
  pub parse_subject : String → ParsedSubject

pub record Options : Type 0 where
  pub batch_size : ℤ
  pub max_batches_per_run : ℤ

pub record Result : Type 0 where
  pub batches_run : ℕ
  pub parts_scanned : ℕ
  pub counted : ReassembleStats
  pub cursor : ℕ
  pub done : Bool

-- A result, the error if there is one, and the world after.
pub record Pass (S : Type 0) : Type 0 where
  pub result : Result
  pub failure : Option Error
  pub world : S

abbrev pub add_stats : ReassembleStats → ReassembleStats → ReassembleStats
add_stats a b = record {
  parts_updated = a.parts_updated + b.parts_updated;
  parts_detached = a.parts_detached + b.parts_detached;
  binaries_deleted = a.binaries_deleted + b.binaries_deleted;
  releases_deleted = a.releases_deleted + b.releases_deleted;
  binaries_protected = a.binaries_protected + b.binaries_protected;
}

-- `parts[len(parts)-1].ID`
abbrev pub last_id : PartForReparse → List PartForReparse → ℕ
last_id p [] = p.id
last_id p (q ∷ ps) = last_id q ps

module _ {S : Type 0} (repo : Repo S) where
  abbrev pub after_sleep :
      Option Error × S → (S → Answer ReassembleStats × S) → Answer ReassembleStats × S
  after_sleep (some err, s) again = (failed err, s)
  after_sleep (none, s) again = again s

  abbrev pub after_apply :
      ℕ
      → Answer ReassembleStats × S
      → (Error → S → Answer ReassembleStats × S)
      → Answer ReassembleStats × S
  after_apply attempt (ok stats, s) again = (ok stats, s)
  after_apply attempt (failed err, s) again =
      if repo.is_deadlock err
      then elim (repo.ended s) [
        | some ended ↦ (failed ended, s)
        | none ↦ after_sleep (repo.sleep (attempt + 1) s) (again err)
      ]
      else (failed err, s)

  -- The attempts from number `attempt` on, `left` of them, with the last error.
  unfoldable pub attempts :
      ℕ → ℕ → Error → List PartReparse → List ℕ → S → Answer ReassembleStats × S
  attempts zero attempt err updates dirty s = (failed (wrap err), s)
  attempts (suc left) attempt err updates dirty s =
      after_apply attempt (repo.apply_reparse updates dirty s)
        (λ deadlock now. attempts left (attempt + 1) deadlock updates dirty now)

  -- `maxDeadlockRetries` is 3. The error to start from is never reported.
  unfoldable pub apply_with_retry : List PartReparse → List ℕ → S → Answer ReassembleStats × S
  apply_with_retry updates dirty s = attempts 4 0 (other 0) updates dirty s

  abbrev pub after_cursor : Result → Option Error × S → (S → Pass S) → Pass S
  after_cursor res (some err, s) next = record { result = res; failure = some err; world = s }
  after_cursor res (none, s) next = next s

  abbrev pub after_batch :
      Result → ℕ → ℕ → Answer ReassembleStats × S → (Result → S → Pass S) → Pass S
  after_batch res scanned cursor (failed err, s) next = record {
    result = res;
    failure = some err;
    world = s;
  }
  after_batch res scanned cursor (ok stats, s) next = after_cursor res (repo.set_cursor cursor s) (
      next (record {
        batches_run = res.batches_run + 1;
        parts_scanned = res.parts_scanned + scanned;
        counted = add_stats res.counted stats;
        cursor = cursor;
        done = res.done;
      }))

  abbrev pub after_list : Result → Answer (List PartForReparse) × S → (Result → S → Pass S) → Pass S
  after_list res (failed err, s) next = record { result = res; failure = some err; world = s }
  after_list res (ok [], s) next = record {
    result = record res { done = true };
    failure = none;
    world = s;
  }
  after_list res (ok (p ∷ ps), s) next =
      let (updates, dirty) = plan repo.parse_subject (p ∷ ps) in
      after_batch res (length (p ∷ ps)) (last_id p ps) (apply_with_retry updates dirty s) next

  -- The loop, with `left` batches allowed, from the cursor of the result.
  unfoldable pub batches : ℕ → ℕ → Result → S → Pass S
  batches size zero res s = record { result = res; failure = none; world = s }
  batches size (suc left) res s = elim (repo.ended s) [
    | some err ↦ record { result = res; failure = some err; world = s }
    | none ↦
        if repo.overdue s
        then record { result = res; failure = none; world = s }
        else after_list res (repo.list_parts res.cursor size s) (batches size left)
  ]

  abbrev pub no_result : Result
  no_result = record {
    batches_run = 0;
    parts_scanned = 0;
    counted = no_stats;
    cursor = 0;
    done = false;
  }

  abbrev pub from_cursor : Options → Answer (Option String) × S → Pass S
  from_cursor opts (failed err, s) = record { result = no_result; failure = some err; world = s }
  from_cursor opts (ok none, s) =
      batches (positive_or 5000 opts.batch_size) (positive_or 20 opts.max_batches_per_run) no_result
        s
  from_cursor opts (ok (some raw), s) = elim (repo.parse_cursor raw) [
    | none ↦ record { result = no_result; failure = some (wrap (other 1)); world = s }
    | some n ↦
        batches (positive_or 5000 opts.batch_size) (positive_or 20 opts.max_batches_per_run)
          (record no_result { cursor = n }) s
  ]

  unfoldable pub run : Options → S → Pass S
  run opts s = from_cursor opts (repo.get_cursor s)
