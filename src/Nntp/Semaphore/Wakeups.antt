-- ===== src/Nntp/Semaphore/Wakeups.antt =====
-- Grants and wake-ups of internal/nntp/semaphore.go.
use nzb_indexer.Base.{ℕ, ◌+◌, ◌≤◌, ◌<◌, ◌≡◌, ◌↔◌, Option, none, some, arith, ℤ, max}
use nzb_indexer.Nntp.Errors.{Error}
use nzb_indexer.Nntp.Semaphore.{
  ResizableSem, acquired, attempt, resume, release, resize, broadcast, Watched, unwatched, Step,
  enter, context_ends, broadcast_inside, broadcast_after, look_again, give_up_before, give_up_after,
  give_up_stopped, leave, change, Reach, here, next, new_resizable_sem,
}

-- A look at the counters grants a slot exactly when the context is live and a slot is free under
-- the limit of that moment; a grant takes one slot and stays within the limit.
pub attempt_grants :
    (s : ResizableSem) (ctx_err : Option Error)
    → (((attempt s ctx_err).1 ≡ acquired) ↔ ((ctx_err ≡ none) × (s.in_use < s.limit)))
      × ((attempt s ctx_err).1 ≡ acquired
          → ((attempt s ctx_err).0.in_use ≡ s.in_use + 1)
            × ((attempt s ctx_err).0.in_use ≤ s.limit))
unfolding attempt
attempt_grants s none = ground arith
attempt_grants s (some err) = ground arith

-- Callers sleep only while the slots are all taken, or spoken for by woken callers that will look for
-- them, but for a signal lost by a caller that gave up unwatched, or while a broadcast is to come.
pub record NoLostWakeup (w : Watched) : Type 0 where
  pub positive : 0 < w.sem.limit
  pub fired_woken : w.fired ≤ w.sem.woken
  pub inside : w.firing + w.fired ≤ w.sem.waiting + w.sem.woken
  pub served :
      0 < w.sem.waiting
      → w.firing + w.late ≡ 0
      → w.sem.limit + w.fired ≤ w.sem.in_use + w.sem.woken + w.lost

new-NoLostWakeup : (limit : ℤ) → NoLostWakeup (unwatched (new_resizable_sem limit))
unfolding new_resizable_sem
new-NoLostWakeup limit = ground arith

Step-NoLostWakeup : {w v : Watched} → Step w v → NoLostWakeup w → NoLostWakeup v
unfolding attempt resume release resize broadcast
Step-NoLostWakeup (enter none) v = ground arith
Step-NoLostWakeup (enter (some err)) v = v
Step-NoLostWakeup (context_ends h) v = ground arith
Step-NoLostWakeup (broadcast_inside h) v = ground arith
Step-NoLostWakeup (broadcast_after h) v = ground arith
Step-NoLostWakeup (look_again h live) v = ground arith
Step-NoLostWakeup (give_up_before h woken err) v = ground arith
Step-NoLostWakeup (give_up_after h err) v = ground arith
Step-NoLostWakeup (give_up_stopped h live err) v = ground arith
Step-NoLostWakeup (leave p) v = ground arith
Step-NoLostWakeup (change n) v = ground arith

-- From a new semaphore, through every interleaving of callers, contexts that end, watchers, releases and
-- resizes: while a caller sleeps and no watcher is yet to broadcast, the slots in use, the woken callers
-- that will look for one, and the signals lost by callers that gave up after stopping their watcher are
-- together at least the limit. So where no signal was lost in that way, nobody sleeps beside a free slot
-- unless a woken caller is on its way to it or a broadcast is to come.
pub Reach-NoLostWakeup :
    (limit : ℤ) {w : Watched} → Reach (unwatched (new_resizable_sem limit)) w → NoLostWakeup w
Reach-NoLostWakeup limit here = new-NoLostWakeup limit
Reach-NoLostWakeup limit (next r st) = Step-NoLostWakeup st (Reach-NoLostWakeup limit r)

-- If a woken caller gives up and its watcher was stopped before the context ended, the Signal it
-- consumed is lost: where that caller was the only one woken for the one free slot, the others
-- sleep on beside it.
pub give_up_loses_signal :
    (s : ResizableSem) (err : Error)
    → s.woken ≡ 1
    → 0 < s.waiting
    → s.in_use < s.limit
    → let t = (resume s (some err)).0 in (t.woken ≡ 0) × (0 < t.waiting) × (t.in_use < t.limit)
unfolding resume
give_up_loses_signal s err w p q = ground arith

-- The largest limit in force so far, beside the semaphore.
pub data ReachPeak (w : Watched) : ℕ → Watched → Type 0 where
  start : ReachPeak w w.sem.limit w
  step :
      {t u : Watched} {peak : ℕ}
      → ReachPeak w peak t
      → Step t u
      → ReachPeak w (max peak u.sem.limit) u

Step-in_use : {w v : Watched} → Step w v → (v.sem.in_use ≤ max w.sem.in_use v.sem.limit)
unfolding attempt resume release resize broadcast
Step-in_use (enter none) = ground arith
Step-in_use (enter (some err)) = ground arith
Step-in_use (context_ends h) = ground arith
Step-in_use (broadcast_inside h) = ground arith
Step-in_use (broadcast_after h) = ground arith
Step-in_use (look_again h live) = ground arith
Step-in_use (give_up_before h woken err) = ground arith
Step-in_use (give_up_after h err) = ground arith
Step-in_use (give_up_stopped h live err) = ground arith
Step-in_use (leave p) = ground arith
Step-in_use (change n) = ground arith

-- The slots in use never pass the largest limit that has been in force, whatever the resizes.
pub ReachPeak-in_use :
    (limit : ℤ) {peak : ℕ} {w : Watched}
    → ReachPeak (unwatched (new_resizable_sem limit)) peak w
    → w.sem.in_use ≤ peak
unfolding new_resizable_sem
ReachPeak-in_use limit start = omega arith
ReachPeak-in_use limit (step r st) = omega (arith, ReachPeak-in_use limit r, Step-in_use st)

-- Above the limit after a shrink, a step without a resize never raises the count.
pub shrink_converges :
    {w v : Watched}
    → Step w v
    → v.sem.limit ≡ w.sem.limit
    → w.sem.limit ≤ w.sem.in_use
    → v.sem.in_use ≤ w.sem.in_use
unfolding attempt resume release resize broadcast
shrink_converges (enter none) e h = ground arith
shrink_converges (enter (some err)) e h = ground arith
shrink_converges (context_ends g) e h = ground arith
shrink_converges (broadcast_inside g) e h = ground arith
shrink_converges (broadcast_after g) e h = ground arith
shrink_converges (look_again g live) e h = ground arith
shrink_converges (give_up_before g woken err) e h = ground arith
shrink_converges (give_up_after g err) e h = ground arith
shrink_converges (give_up_stopped g live err) e h = ground arith
shrink_converges (leave p) e h = ground arith
shrink_converges (change n) e h = ground arith
