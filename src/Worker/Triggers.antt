-- ===== src/Worker/Triggers.antt =====
-- internal/worker/worker.go and scanscheduler.go: the queues of manual requests, the poll that lets a
-- due forward pass interrupt a backfill, and the drain of the backfill. What else happens in the
-- meantime is a world; scans step through it.
mod Lost
mod Drain
mod Tests
use Prim.Native.String.{String}
use text.Mathlib.Text.{◌==◌ as str_eq}
use nzb_indexer.Base.{
  ℕ, zero, suc, ◌+◌, Bool, true, false, not, ◌&&◌, ◌||◌, Option, none, some, List, [], ◌∷◌, ◌++◌,
  length, ltb, if◌then◌else◌,
}
use nzb_indexer.Worker.Jobs.{JobStore, create_job, fail_job_queued}

pub record ScanTrigger : Type 0 where
  pub group : String
  pub backfill : Bool
  pub job_id : String

-- The channels' contents, oldest first, and the flag of a forward pass that is due.
pub record Queues : Type 0 where
  pub scan_triggers : List ScanTrigger
  pub pp_triggers : List String
  pub forward_due_flag : Bool

abbrev pub no_requests : Queues
no_requests = record { scan_triggers = []; pp_triggers = []; forward_due_flag = false }

-- A non-blocking send on a channel with 16 places: what it holds then, or none.
abbrev pub send {ℓ} : {A : Type ℓ} → List A → A → Option (List A)
send queue x = if ltb (length queue) 16 then some (queue ++ (x ∷ [])) else none

-- A trigger's answer, `none` for the error of a full queue.
pub record Triggered (S : Type 0) : Type 0 where
  pub queues : Queues
  pub world : S
  pub answer : Option String

module _ {M S : Type 0} (jobs : Option (JobStore M S)) where
  abbrev after_send : Option Queues → Queues → String × S → Triggered S
  after_send none q (id, s) = record {
    queues = q;
    world = fail_job_queued jobs id s;
    answer = none;
  }
  after_send (some next) q (id, s) = record { queues = next; world = s; answer = some id }

  abbrev sent_scan : Queues → Option (List ScanTrigger) → Option Queues
  sent_scan q none = none
  sent_scan q (some ts) = some (record q { scan_triggers = ts })

  abbrev sent_pp : Queues → Option (List String) → Option Queues
  sent_pp q none = none
  sent_pp q (some ids) = some (record q { pp_triggers = ids })

  abbrev enqueue_scan : Queues → String → Bool → String × S → Triggered S
  enqueue_scan q group backfill (id, s) =
      after_send
        (sent_scan q
          (send q.scan_triggers (record { group = group; backfill = backfill; job_id = id })))
        q (id, s)

  -- `id` is the fresh id of a job.
  unfoldable pub trigger_scan : String → String → Queues → S → Triggered S
  unfolding create_job fail_job_queued
  trigger_scan id group q s = enqueue_scan q group false (create_job jobs id "scan" group s)

  unfoldable pub trigger_backfill : String → String → Queues → S → Triggered S
  unfolding create_job fail_job_queued
  trigger_backfill id group q s = enqueue_scan q group true (create_job jobs id "backfill" group s)

  abbrev enqueue_pp : Queues → String × S → Triggered S
  enqueue_pp q (id, s) = after_send (sent_pp q (send q.pp_triggers id)) q (id, s)

  unfoldable pub trigger_post_process : String → Queues → S → Triggered S
  unfolding create_job fail_job_queued
  trigger_post_process id q s = enqueue_pp q (create_job jobs id "postprocess" "" s)

-- Whether the trigger asks for a forward pass of all groups.
abbrev pub is_global_forward : ScanTrigger → Bool
is_global_forward t = not t.backfill && str_eq t.group ""

-- The trigger goes back to the end of the channel, or nowhere if that is full: `between` are those
-- that others sent after it was taken.
abbrev put_back : Queues → Option (List ScanTrigger) → Queues
put_back q none = q
put_back q (some ts) = record q { scan_triggers = ts }

abbrev poll_queue : List ScanTrigger → Queues → List ScanTrigger → Bool × Queues
poll_queue [] q between = (false, q)
poll_queue (t ∷ ts) q between =
    if is_global_forward t
    then (true, record q { scan_triggers = ts; forward_due_flag = true })
    else (false, put_back (record q { scan_triggers = ts ++ between }) (send (ts ++ between) t))

-- `ticked` is whether the ticker has fired.
unfoldable pub forward_became_due : Bool → List ScanTrigger → Queues → Bool × Queues
forward_became_due ticked between q =
    if q.forward_due_flag
    then (true, q)
    else if ticked
    then (true, record q { forward_due_flag = true })
    else poll_queue q.scan_triggers q between

-- The scheduler's runner over a world, with the context and the test for a due forward pass.
pub record Runner (S : Type 0) : Type 0 where
  pub run_forward : String → S → S
  pub list_backfill_groups : S → List String × S
  pub scan_backfill_group : String → S → S
  pub forward_due : S → Bool × S
  pub clear_due : S → S
  pub backfill_enabled : S → Bool
  pub ended : S → Bool

module _ {S : Type 0} (runner : Runner S) where
  abbrev checked : String → S → S
  checked group s = if runner.ended s then s else runner.scan_backfill_group group s

  abbrev unless_due : Bool × S → (S → Bool × S) → Bool × S
  unless_due (true, s) next = (true, s)
  unless_due (false, s) next = next s

  -- The loop over the groups: whether it yielded.
  unfoldable pub drain_groups : List String → S → Bool × S
  drain_groups [] s = (false, s)
  drain_groups (g ∷ gs) s =
      if runner.ended s
      then (false, s)
      else unless_due (runner.forward_due s) (λ t. drain_groups gs (checked g t))

  abbrev drain_listed : List String × S → Bool × S
  drain_listed (groups, s) = drain_groups groups s

  unfoldable pub drain_backfill : S → Bool × S
  drain_backfill s =
      if runner.backfill_enabled s then drain_listed (runner.list_backfill_groups s) else (false, s)

  abbrev after_drain : Bool × S → (S → Option S) → Option S
  after_drain (false, s) again = some s
  after_drain (true, s) again = again (runner.run_forward "" (runner.clear_due s))

  -- The loop, for as many rounds as there is fuel; none if it would go on.
  unfoldable pub drain_yielding : ℕ → S → Option S
  drain_yielding zero s = none
  drain_yielding (suc fuel) s =
      if runner.ended s then some s else after_drain (drain_backfill s) (drain_yielding fuel)
