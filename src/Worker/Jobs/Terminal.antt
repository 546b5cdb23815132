-- ===== src/Worker/Jobs/Terminal.antt =====
-- The end of a tracked job of internal/worker/worker.go, over the table of internal/store/jobs.go.
use Prim.Native.String.{String}
use text.Mathlib.Text.{◌==◌ as str_eq}
use nzb_indexer.Base.{
  ℕ, ◌≡◌, ◌∙◌, refl, Bool, true, false, ◌||◌, Option, none, some, List, [], ◌∷◌, arith, Bool-cases,
  inl, inr,
}
use nzb_indexer.Base.Dict.{lookup}
use nzb_indexer.Store.Jobs.{
  JobState, completed, failed, cancelled, Job, Table, is_open, create_job as insert_job, start_job,
  finish_job, finished, request_job_cancel,
}
use nzb_indexer.Store.Jobs.Lifecycle.{lookup-finish_job, lookup-start_job}
use nzb_indexer.Worker.Jobs.{
  JobStore, Tracked, has_id, drop_id, with_job, settle, resolve, job_ended, register,
}

module _ {M : Type 0} where
  abbrev pub unless_taken : Table M → Option (Table M) → Bool × Table M
  unless_taken table none = (false, table)
  unless_taken table (some made) = (true, made)

  abbrev pub unless_missing : M → Table M → Option (Table M) → Option M × Table M
  unless_missing not_found table none = (some not_found, table)
  unless_missing not_found table (some made) = (none, made)

  abbrev pub asked_for : Option (Job M) → Bool
  asked_for none = false
  asked_for (some job) = job.cancel_requested

  abbrev pub HasRow : String → Tracked (Table M) → Type 0
  HasRow id st = (job : Job M) × (lookup id st.world ≡ some job)

  -- How a job ends whose operation reported `err`, if `stop` is whether it was to be cancelled.
  abbrev pub final_state : Option M → Bool → JobState
  final_state err true = cancelled
  final_state none false = completed
  final_state (some m) false = failed

  abbrev pub final_failure : Option M → Bool → Option M
  final_failure err true = none
  final_failure err false = err

module _ {M : Type 0} (not_found queue_full : M) (now : ℕ) where
  -- The calls of JobStore on the table, at an instant.
  abbrev pub table_store : JobStore M (Table M)
  table_store = record {
    create_job =
        λ id job_type target table. unless_taken table (insert_job table id job_type target);
    start_job = λ id table. start_job table id now;
    finish_job = λ id state failure table. finish_job table id state failure now;
    is_job_cancel_requested = λ id table. (asked_for (lookup id table), table);
    request_job_cancel = λ id table. unless_missing not_found table (request_job_cancel table id);
    emit_failed = λ id m table. table;
    emit_completed = λ id table. table;
    queue_full = queue_full;
  }

  module _ (ended : Table M → Bool) where
    -- The state that a job's operation runs in.
    abbrev pub opened : String → Tracked (Table M) → Tracked (Table M)
    opened id st = record (register table_store ended id st) { world = start_job st.world id now }

    resolve-row :
        (id : String) (err : Option M) (stop : Bool) (st : Tracked (Table M)) (job : Job M)
        → lookup id st.world ≡ some job
        → lookup id (resolve table_store ended id err stop st).world
          ≡ some (finished (final_state err stop) (final_failure err stop) now job)
    resolve-row id err true st job h = lookup-finish_job st.world id _ _ now job h
    resolve-row id none false st job h = lookup-finish_job st.world id _ _ now job h
    resolve-row id (some m) false st job h = lookup-finish_job st.world id _ _ now job h

    settle-row :
        (id : String) (err : Option M) (st : Tracked (Table M)) (left : Job M)
        → lookup id st.world ≡ some left
        → let stop = left.cancel_requested || job_ended table_store ended id st in
          lookup id (settle table_store ended id (err, st)).world
          ≡ some (finished (final_state err stop) (final_failure err stop) now left)
    settle-row id err st left h =
        resolve-row id err (asked_for (lookup id st.world) || job_ended table_store ended id st) st
          left h
        ∙ rw h refl

    final-closed : (err : Option M) (stop : Bool) → is_open (final_state err stop) ≡ false
    final-closed err true = refl
    final-closed none false = refl
    final-closed (some m) false = refl

    has_id-drop_id : (id : String) (ids : List String) → has_id id (drop_id id ids) ≡ false
    unfolding has_id drop_id
    has_id-drop_id id [] = refl
    has_id-drop_id id (k ∷ ks) = elim (Bool-cases (str_eq k id)) [
      | inl e ↦ rw e (has_id-drop_id id ks)
      | inr e ↦ rw e (rw e (has_id-drop_id id ks))
    ]

    -- A tracked job that has a row, and whose operation does not delete it, ends in a terminal state and
    -- leaves no cancel function behind. If cancellation was requested before, nothing but the end of its
    -- row as cancelled happens to the table, so it has not run; otherwise it ends as its operation's result says, unless the row that this left, or the context,
    -- asks for cancellation.
    pub with_job_ends :
        (id : String) (run : Tracked (Table M) → Option M × Tracked (Table M))
        (st : Tracked (Table M)) (job : Job M)
        → str_eq id "" ≡ false
        → lookup id st.world ≡ some job
        → ((t : Tracked (Table M)) → HasRow id t → HasRow id (run t).1)
        → let final = with_job (some table_store) ended id run st in
          let ran = run (opened id st) in
          (has_id id final.job_cancels ≡ false)
          × ((last : Job M) × (lookup id final.world ≡ some last)
              × (is_open last.state ≡ false)
              × (job.cancel_requested ≡ true
                  → (last.state ≡ cancelled)
                    × (final.world ≡ finish_job st.world id cancelled none now))
              × (job.cancel_requested ≡ false
                  → (left : Job M) × (lookup id (ran.1).world ≡ some left)
                    × (let stop = left.cancel_requested || job_ended table_store ended id (ran.1) in
                        last
                        ≡ finished
                            (final_state (ran.0) stop)
                            (final_failure (ran.0) stop)
                            now
                            left)))
    unfolding with_job
    with_job_ends id run st job named row keeps = elim (Bool-cases (job.cancel_requested)) [
      | inl asked ↦
          let last = finished cancelled none now job in
          rw (named, row, asked)
            (
              has_id-drop_id id (id ∷ drop_id id st.job_cancels),
              (
                last,
                lookup-finish_job st.world id cancelled none now job row,
                refl,
                (λ h. (refl, refl)),
                (λ h. absurd (ground arith)),
              ),
            )
      | inr free ↦
          let (left, kept) = keeps (opened id st) (_, lookup-start_job st.world id now job row) in
          let ran = run (opened id st) in
          rw (named, row, free)
            (
              has_id-drop_id id _,
              (
                _,
                settle-row id (ran.0) (ran.1) left kept,
                final-closed (ran.0) _,
                (λ h. absurd (ground arith)),
                (λ h. (left, kept, refl)),
              ),
            )
    ]
