-- ===== src/Worker/Jobs.antt =====
-- internal/worker/worker.go: jobs with an id, their lifecycle and their cancellation. The job store is
-- a world that the calls step through; an operation under way is a function of the whole state, for
-- others may cancel it meanwhile.
pub mod Terminal
mod Tests
use Prim.Native.String.{String}
use text.Mathlib.Text.{◌==◌ as str_eq}
use nzb_indexer.Base.{
  ℕ, Bool, true, false, not, ◌&&◌, ◌||◌, Option, none, some, List, [], ◌∷◌, if◌then◌else◌,
}
use nzb_indexer.Store.Jobs.{JobState, completed, failed, cancelled}

-- The calls of JobStore whose errors count: creating, which may fail, and the request for
-- cancellation; a check that fails reads as not requested. `emit` publishes an event.
pub record JobStore (M S : Type 0) : Type 0 where
  pub create_job : String → String → String → S → Bool × S
  pub start_job : String → S → S
  pub finish_job : String → JobState → Option M → S → S
  pub is_job_cancel_requested : String → S → Bool × S
  pub request_job_cancel : String → S → Option M × S
  pub emit_failed : String → M → S → S
  pub emit_completed : String → S → S
  pub queue_full : M

-- `job_cancels` are the ids with a cancel function; `stopped` those whose function was called.
pub record Tracked (S : Type 0) : Type 0 where
  pub world : S
  pub job_cancels : List String
  pub stopped : List String

unfoldable pub has_id : String → List String → Bool
has_id id [] = false
has_id id (k ∷ ks) = str_eq k id || has_id id ks

unfoldable pub drop_id : String → List String → List String
drop_id id [] = []
drop_id id (k ∷ ks) = let rest = drop_id id ks in if str_eq k id then rest else k ∷ rest

module _ {M S : Type 0} (jobs : Option (JobStore M S)) where
  abbrev id_if : String → Bool × S → String × S
  id_if id (true, s) = (id, s)
  id_if id (false, s) = ("", s)

  -- `id` is the fresh one.
  unfoldable pub create_job : String → String → String → S → String × S
  create_job id job_type target s = elim jobs [
    | none ↦ ("", s)
    | some store ↦ id_if id (store.create_job id job_type target s)
  ]

  unfoldable pub fail_job_queued : String → S → S
  fail_job_queued id s = elim jobs [
    | none ↦ s
    | some store ↦ if str_eq id "" then s else store.finish_job id failed (some store.queue_full) s
  ]

module _ {M S : Type 0} (store : JobStore M S) (parent_ended : S → Bool) where
  abbrev on_world : (S → S) → Tracked S → Tracked S
  on_world f st = record st { world = f st.world }

  -- `jobCtx.Err() != nil`
  abbrev pub job_ended : String → Tracked S → Bool
  job_ended id st = parent_ended st.world || has_id id st.stopped

  abbrev resolve : String → Option M → Bool → Tracked S → Tracked S
  resolve id err true st = on_world (store.finish_job id cancelled none) st
  resolve id none false st =
      on_world (λ s. store.emit_completed id (store.finish_job id completed none s)) st
  resolve id (some m) false st =
      on_world (λ s. store.emit_failed id m (store.finish_job id failed (some m) s)) st

  -- From the end of the operation on.
  abbrev pub settle : String → Option M × Tracked S → Tracked S
  settle id (err, st) =
      let (asked, s) = store.is_job_cancel_requested id st.world in
      let seen = record st { world = s } in resolve id err (asked || job_ended id seen) seen

  abbrev pub run_unless : String → Bool → (Tracked S → Option M × Tracked S) → Tracked S → Tracked S
  run_unless id true run st = on_world (store.finish_job id cancelled none) st
  run_unless id false run st = settle id (run (on_world (store.start_job id) st))

  -- The cancel function is registered anew, so an earlier call of it does not count.
  abbrev register : String → Tracked S → Tracked S
  register id st = record st {
    job_cancels = id ∷ drop_id id st.job_cancels;
    stopped = drop_id id st.stopped;
  }

  abbrev unregister : String → Tracked S → Tracked S
  unregister id st = record st { job_cancels = drop_id id st.job_cancels }

  abbrev tracked : String → (Tracked S → Option M × Tracked S) → Tracked S → Tracked S
  tracked id run st =
      let opened = register id st in
      let (asked, s) = store.is_job_cancel_requested id opened.world in
      unregister id (run_unless id asked run (record opened { world = s }))

-- What CancelJob answers: nothing wrong, no store, or the store's error.
pub data Cancelled (M : Type 0) : Type 0 where
  requested no_store : Cancelled M
  refused : M → Cancelled M

module _ {M S : Type 0} (jobs : Option (JobStore M S)) (parent_ended : S → Bool) where
  unfoldable pub with_job : String → (Tracked S → Option M × Tracked S) → Tracked S → Tracked S
  unfolding has_id drop_id
  with_job id run st = elim jobs [
    | none ↦ (run st).1
    | some store ↦ if str_eq id "" then (run st).1 else tracked store parent_ended id run st
  ]

  abbrev stop_if_running : String → Option M × S → Tracked S → Cancelled M × Tracked S
  stop_if_running id (some err, s) st = (refused err, record st { world = s })
  stop_if_running id (none, s) st = (
    requested,
    record st {
      world = s;
      stopped = if has_id id st.job_cancels then id ∷ st.stopped else st.stopped;
    },
  )

  unfoldable pub cancel_job : String → Tracked S → Cancelled M × Tracked S
  cancel_job id st = elim jobs [
    | none ↦ (no_store, st)
    | some store ↦ stop_if_running id (store.request_job_cancel id st.world) st
  ]
