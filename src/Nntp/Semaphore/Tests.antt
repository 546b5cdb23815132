-- ===== src/Nntp/Semaphore/Tests.antt =====
-- Runs of the semaphore, and the theorems at a limit of one with two callers waiting.
use nzb_indexer.Base.{◌≡◌, refl, Option, none, pos, arith}
use nzb_indexer.Nntp.Errors.{Error}
use nzb_indexer.Nntp.Semaphore.{
  ResizableSem, new_resizable_sem, attempt, sleeping, release, resize, resume, broadcast, Reach,
  here, next, enter, context_ends, broadcast_inside, Watched, unwatched,
}
use nzb_indexer.Nntp.Semaphore.Wakeups.{NoLostWakeup, Reach-NoLostWakeup}

abbrev one : ResizableSem
one = new_resizable_sem (pos 1)

abbrev busy : ResizableSem
busy = (attempt (attempt (attempt one none).0 none).0 none).0

program : Unit {0}
unfolding new_resizable_sem attempt release resize resume broadcast
program = tt

third_sleeps : (attempt busy none).1 ≡ sleeping
unfolding program
third_sleeps = refl

-- The context of a sleeping caller ends, and its watcher broadcasts.
abbrev ended : Watched
ended = record (unwatched (broadcast busy)) { fired = 1 }

ended-Reach : Reach (unwatched one) ended
unfolding program
ended-Reach =
    next
      (next (next (next (next here (enter none)) (enter none)) (enter none))
        (context_ends (omega arith)))
      (broadcast_inside (omega arith))

Reach-NoLostWakeup_example : NoLostWakeup ended
Reach-NoLostWakeup_example = Reach-NoLostWakeup (pos 1) ended-Reach

abbrev live : Option Error
live = none

abbrev shrunk : ResizableSem
shrunk = resize (attempt (attempt (new_resizable_sem (pos 2)) none).0 none).0 (pos 1)
