-- ===== src/Worker/Triggers/Lost.antt =====
-- Which jobs the queues of internal/worker/worker.go keep.
use Prim.Native.String.{String}
use text.Mathlib.Text.{◌==◌ as str_eq}
use nzb_indexer.Base.{
  ℕ, ap, ◌≤◌, ◌<◌, ◌≡◌, refl, true, false, Option, none, some, List, [], ◌∷◌, ◌++◌, length, ltb,
  arith, append-nil, lt→ltb,
}
use nzb_indexer.Base.Dict.{lookup, lookup-insert_self}
use nzb_indexer.Store.Jobs.{JobState, queued, failed, Job, Table, create_job as insert_job}
use nzb_indexer.Store.Jobs.Lifecycle.{lookup-finish_job}
use nzb_indexer.Worker.Jobs.Terminal.{table_store}
use nzb_indexer.Worker.Triggers.{
  ScanTrigger, Queues, trigger_scan, is_global_forward, forward_became_due,
}

module _ {M : Type 0} (not_found queue_full : M) (now : ℕ) where
  -- The state of a job's row.
  abbrev pub state_of : Option (Job M) → Option JobState
  state_of none = none
  state_of (some job) = some job.state

  -- A request for a scan under a fresh id is queued together with its job when the channel has a place;
  -- when it has none, the caller gets an error and the job's row says that it failed.
  pub trigger_scan_lem :
      (id group : String) (q : Queues) (table : Table M)
      → str_eq id "" ≡ false
      → lookup id table ≡ none
      → let call = trigger_scan (some (table_store not_found queue_full now)) id group q table in
        (length q.scan_triggers < 16
          → (call.answer ≡ some id)
            × (call.queues.scan_triggers
                ≡ q.scan_triggers ++ (record { group = group; backfill = false; job_id = id } ∷ []))
            × (state_of (lookup id call.world) ≡ some queued))
        × (16 ≤ length q.scan_triggers
            → (call.answer ≡ none)
              × (call.queues ≡ q)
              × (state_of (lookup id call.world) ≡ some failed))
  unfolding trigger_scan insert_job
  trigger_scan_lem id group q table named fresh = (
    (λ h.
        let place : ltb (length q.scan_triggers) 16 ≡ true = lt→ltb _ _ h in
        rw (fresh, place) (refl, refl, ap state_of (lookup-insert_self id _ table))),
    (λ h.
        let place : ltb (length q.scan_triggers) 16 ≡ false = ground arith in
        rw (fresh, place)
          (rw named (
            refl,
            refl,
            ap state_of (
                lookup-finish_job _ id failed (some queue_full) now _
                  (lookup-insert_self id _ table)),
          ))),
  )

-- No waiting request carries the job.
abbrev pub IsForgotten : String → List ScanTrigger → Type 0
IsForgotten id [] = Unit
IsForgotten id (t ∷ ts) = (str_eq (t.job_id) id ≡ false) × IsForgotten id ts

-- The poll between two groups of a backfill takes a request for a forward pass of all groups off its
-- channel and keeps no more of it than the flag: the request's job is then in no channel.
pub forward_became_due_forgets :
    (t : ScanTrigger) (ts between : List ScanTrigger) (ids : List String)
    → is_global_forward t ≡ true
    → IsForgotten (t.job_id) ts
    → let polled =
        forward_became_due false between
          (record { scan_triggers = t ∷ ts; pp_triggers = ids; forward_due_flag = false }) in
      (polled.0 ≡ true)
      × IsForgotten (t.job_id) polled.1.scan_triggers
      × (polled.1.forward_due_flag ≡ true)
unfolding forward_became_due
forward_became_due_forgets t ts between ids h f = rw h (refl, f, refl)

-- The poll puts any other request back behind those that waited after it, and loses none if no more
-- are sent in between.
pub forward_became_due_rotates :
    (t : ScanTrigger) (ts : List ScanTrigger) (ids : List String)
    → is_global_forward t ≡ false
    → length (t ∷ ts) ≤ 16
    → forward_became_due false []
        (record { scan_triggers = t ∷ ts; pp_triggers = ids; forward_due_flag = false })
      ≡ (
        false,
        record { scan_triggers = ts ++ (t ∷ []); pp_triggers = ids; forward_due_flag = false },
      )
unfolding forward_became_due
forward_became_due_rotates t ts ids h fits =
    let place : ltb (length ts) 16 ≡ true = lt→ltb (length ts) 16 (omega arith) in
    rw h (rw (append-nil ts) (rw place refl))
