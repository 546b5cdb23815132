-- ===== src/Nntp/Semaphore.antt =====
-- internal/nntp/semaphore.go: the counting semaphore whose limit can change. The mutex makes each
-- stretch between lock and unlock (or `cond.Wait`) one step. `waiting` counts the callers asleep in
-- `cond.Wait`, `woken` those that a Signal or Broadcast has released and that have yet to look
-- again; sync.Cond wakes one sleeper on Signal, if there is one, and all of them on Broadcast.
mod Wakeups
mod Tests
use nzb_indexer.Base.{
  ℕ, zero, suc, ◌+◌, ◌-◌, Bool, true, false, Option, none, some, ◌<◌, ltb, leb, ◌==◌, if◌then◌else◌,
  ℤ, positive_or, List, [], ◌∷◌,
}
use nzb_indexer.Nntp.Errors.{Error}

pub record ResizableSem : Type 0 where
  pub limit : ℕ
  pub in_use : ℕ
  pub waiting : ℕ
  pub woken : ℕ

-- What one look at the counters gives the caller of `acquire`.
pub data Attempt : Type 0 where
  acquired sleeping : Attempt
  refused : Error → Attempt

-- `n < 1` becomes 1, in the constructor and in resize.
abbrev at_least_one : ℤ → ℕ
at_least_one = positive_or 1

unfoldable pub new_resizable_sem : ℤ → ResizableSem
new_resizable_sem limit = record { limit = at_least_one limit; in_use = 0; waiting = 0; woken = 0 }

-- `cond.Signal()`
signal : ResizableSem → ResizableSem
signal s = if s.waiting == 0 then s else record s { waiting = s.waiting - 1; woken = s.woken + 1 }

-- `cond.Broadcast()`, of `resize` and of the watcher that runs when a waiter's context ends.
unfoldable pub broadcast : ResizableSem → ResizableSem
broadcast s = record s { waiting = 0; woken = s.woken + s.waiting }

-- The test of the loop of `acquire`, with what follows it: `ctx_err` is `ctx.Err()`.
unfoldable pub attempt : ResizableSem → Option Error → ResizableSem × Attempt
attempt s (some err) = (s, refused err)
attempt s none =
    if leb s.limit s.in_use
    then (record s { waiting = s.waiting + 1 }, sleeping)
    else (record s { in_use = s.in_use + 1 }, acquired)

-- A caller back from `cond.Wait` looks again.
unfoldable pub resume : ResizableSem → Option Error → ResizableSem × Attempt
unfolding attempt
resume s ctx_err = attempt (record s { woken = s.woken - 1 }) ctx_err

unfoldable pub release : ResizableSem → ResizableSem
unfolding signal
release s = signal (record s { in_use = s.in_use - 1 })

unfoldable pub resize : ResizableSem → ℤ → ResizableSem
unfolding broadcast
resize s n =
    let n' = at_least_one n in
    let t = record s { limit = n' } in if ltb s.limit n' then broadcast t else t

pub stats : ResizableSem → ℕ × ℕ
stats s = (s.limit, s.in_use)

-- The semaphore with the watchers of its callers, the functions that `context.AfterFunc` runs once a
-- caller's context has ended: `firing` are those of callers in `acquire` that have yet to broadcast,
-- `fired` those of woken callers that have broadcast, and `late` those yet to broadcast whose caller has
-- returned. `lost` counts the callers that have given up with their watcher stopped: their context ended
-- after they were woken and had stopped it, so that no broadcast follows.
pub record Watched : Type 0 where
  pub sem : ResizableSem
  pub firing : ℕ
  pub fired : ℕ
  pub late : ℕ
  pub lost : ℕ

abbrev pub unwatched : ResizableSem → Watched
unwatched sem = record { sem = sem; firing = 0; fired = 0; late = 0; lost = 0 }

-- A step of the semaphore, its callers and their watchers. Every stretch under the lock is a step of its
-- own, and the broadcast of a watcher comes at any time after its context has ended.
pub data Step (w : Watched) : Watched → Type 0 where
  enter : (ctx_err : Option Error) → Step w (record w { sem = (attempt w.sem ctx_err).0 })
  context_ends :
      w.firing + w.fired < w.sem.waiting + w.sem.woken → Step w (record w { firing = w.firing + 1 })
  broadcast_inside :
      0 < w.firing
      → Step w (record w { sem = broadcast w.sem; firing = w.firing - 1; fired = w.fired + 1 })
  broadcast_after : 0 < w.late → Step w (record w { sem = broadcast w.sem; late = w.late - 1 })
  look_again :
      w.fired < w.sem.woken
      → w.firing + w.fired < w.sem.waiting + w.sem.woken
      → Step w (record w { sem = (resume w.sem none).0 })
  give_up_before :
      0 < w.firing
      → w.fired < w.sem.woken
      → (err : Error)
      → Step w
          (record w { sem = (resume w.sem (some err)).0; firing = w.firing - 1; late = w.late + 1 })
  give_up_after :
      0 < w.fired
      → (err : Error) → Step w (record w { sem = (resume w.sem (some err)).0; fired = w.fired - 1 })
  give_up_stopped :
      w.fired < w.sem.woken
      → w.firing + w.fired < w.sem.waiting + w.sem.woken
      → (err : Error) → Step w (record w { sem = (resume w.sem (some err)).0; lost = w.lost + 1 })
  leave : 0 < w.sem.in_use → Step w (record w { sem = release w.sem })
  change : (n : ℤ) → Step w (record w { sem = resize w.sem n })

pub data Reach (w : Watched) : Watched → Type 0 where
  here : Reach w w
  next : {t u : Watched} → Reach w t → Step t u → Reach w u
