-- ===== src/Worker/Jobs/Tests.antt =====
-- Jobs over a table of one row.
use nzb_indexer.Base.{ℕ, ◌≡◌, refl, true, false, Option, none, some, [], ◌∷◌}
use nzb_indexer.Base.Dict.{lookup, insert}
use nzb_indexer.Store.Jobs.{
  Job, Table, queued, failed, cancelled, create_job, start_job, finish_job, request_job_cancel,
}
use nzb_indexer.Worker.Jobs.{Tracked, has_id, drop_id, with_job, cancel_job}
use nzb_indexer.Worker.Jobs.Terminal.{table_store, with_job_ends}

abbrev waiting : Job ℕ
waiting = record {
  job_type = "scan";
  target = "";
  state = queued;
  failure = none;
  cancel_requested = false;
  started_at = none;
  finished_at = none;
}

abbrev start : Tracked (Table ℕ)
start = record { world = ("j", waiting) ∷ []; job_cancels = []; stopped = [] }

-- The operation reports the error 5.
abbrev fails : Tracked (Table ℕ) → Option ℕ × Tracked (Table ℕ)
fails st = (some 5, st)

-- Meanwhile the job is cancelled.
abbrev is_cancelled : Tracked (Table ℕ) → Option ℕ × Tracked (Table ℕ)
is_cancelled st = (none, (cancel_job (some (table_store 1 2 9)) (λ t. false) "j" st).1)

abbrev state_after : (Tracked (Table ℕ) → Option ℕ × Tracked (Table ℕ)) → Option (Job ℕ)
state_after run = lookup "j" (with_job (some (table_store 1 2 9)) (λ t. false) "j" run start).world

program : Unit {0}
unfolding lookup insert create_job start_job finish_job request_job_cancel has_id drop_id with_job
    cancel_job
program = tt

failed_job :
    state_after fails
    ≡ some (record waiting {
      state = failed;
      failure = some 5;
      started_at = some 9;
      finished_at = some 9;
    })
unfolding program
failed_job = refl

cancelled_job :
    state_after is_cancelled
    ≡ some (record waiting {
      state = cancelled;
      cancel_requested = true;
      started_at = some 9;
      finished_at = some 9;
    })
unfolding program
cancelled_job = refl

with_job_ends_example :
    has_id "j" (with_job (some (table_store 1 2 9)) (λ t. false) "j" fails start).job_cancels
    ≡ false
unfolding lookup
with_job_ends_example =
    (with_job_ends 1 2 9 (λ t. false) "j" fails start waiting refl refl (λ t row. row)).0
