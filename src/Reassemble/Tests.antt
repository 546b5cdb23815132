-- ===== src/Reassemble/Tests.antt =====
-- A store of three parts, the second already grouped, whose first write loses a deadlock.
use Prim.Native.String.{String}
use nzb_indexer.Base.{
  ℕ, Bool, zero, suc, ◌≡◌, refl, true, false, Option, none, some, List, [], ◌∷◌, ◌==◌,
  if◌then◌else◌, pos,
}
use nzb_indexer.Nntp.Errors.{other}
use nzb_indexer.Scanner.Ingest.{ParsedSubject}
use nzb_indexer.Reassemble.{PartForReparse, ReassembleStats, no_stats, plan_from, plan, has_id}
use nzb_indexer.Reassemble.Run.{
  Answer, ok, failed, Repo, Options, no_result, attempts, apply_with_retry, batches, run,
}
use nzb_indexer.Reassemble.Plan.{touches, IsUnique, plan_dirty}
use nzb_indexer.Reassemble.Apply.{apply_reparse}
use nzb_indexer.Reassemble.Cursor.{IsSound, run-IsSound, size_of, limit_of, start_of}

abbrev parser : String → ParsedSubject
parser s = record {
  part_number = 1;
  total_parts = 1;
  normalized = s;
  collection_key = "key";
  file_number = 0;
  collection_files = 0;
}

abbrev part : ℕ → String → Option ℕ → PartForReparse
part n key b = record {
  id = n;
  subject = "subject";
  collection_key = key;
  file_number = 0;
  collection_files = 0;
  norm_subject = "subject";
  binary_id = b;
}

abbrev parts : List PartForReparse
parts = part 1 "" (some 9) ∷ part 2 "key" (some 8) ∷ part 3 "" (some 9) ∷ []

-- The world counts the writes.
abbrev write : ℕ → Answer ReassembleStats × ℕ
write zero = (failed (other 7), 1)
write (suc n) = (ok no_stats, suc (suc n))

abbrev repo : Repo ℕ
repo = record {
  list_parts = λ after size s. (ok (if after == 0 then parts else []), s);
  apply_reparse = λ updates dirty s. write s;
  get_cursor = λ s. (ok none, s);
  set_cursor = λ n s. (none, s);
  ended = λ s. none;
  overdue = λ s. false;
  sleep = λ n s. (none, s);
  is_deadlock = λ e. true;
  parse_cursor = λ raw. none;
  parse_subject = parser;
}

-- A store that never gets a write through.
abbrev stuck : Repo ℕ
stuck = record repo { apply_reparse = λ updates dirty s. (failed (other 7), s) }

abbrev options : Options
options = record { batch_size = pos 0; max_batches_per_run = pos 0 }

program : Unit {0}
unfolding plan_from plan apply_reparse attempts apply_with_retry batches run
program = tt

dirty_once : (plan parser parts).1 ≡ 9 ∷ []
unfolding program
dirty_once = refl

whole_pass :
    (run repo options 0).result
    ≡ record { batches_run = 1; parts_scanned = 3; counted = no_stats; cursor = 3; done = true }
unfolding program
whole_pass = refl

plan_dirty_example :
    IsUnique (plan parser parts).1
    × ((b : ℕ) → has_id (plan parser parts).1 b ≡ touches parser parts b)
plan_dirty_example = plan_dirty parser parts

-- Binary 9 backs a release that is done.
abbrev done : ℕ → Bool
done b = b == 9

all_kept : apply_reparse done (plan parser parts).0 (plan parser parts).1 parts ≡ parts
unfolding program
all_kept = refl

regrouped_first :
    apply_reparse (λ b. false) (plan parser parts).0 (plan parser parts).1 parts
    ≡ part 1 "key" none ∷ part 2 "key" (some 8) ∷ part 3 "key" none ∷ []
unfolding program
regrouped_first = refl

run-IsSound_example :
    IsSound repo
      (size_of repo options)
      (limit_of repo options)
      (record (no_result repo) { cursor = start_of repo (repo.get_cursor 0).0 })
      (run repo options 0)
run-IsSound_example = run-IsSound repo options 0
