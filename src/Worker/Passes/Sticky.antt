-- ===== src/Worker/Passes/Sticky.antt =====
-- The error that a tracked post-process job of internal/worker/worker.go reports.
use nzb_indexer.Base.{Bool, true, false, Option, none, some}
use nzb_indexer.Worker.Passes.{
  Failure, Ran, ran, failed, post_process_failed, PostProcessed, Worker,
}

-- The failure of the pass itself, if the context lets it run.
abbrev pub own_failure : Bool → Ran PostProcessed → Option Failure
own_failure true answer = none
own_failure false (ran res) = none
own_failure false (failed err) = some (post_process_failed err)

abbrev pub or_older : Option Failure → Option Failure → Option Failure
or_older (some own) older = some own
or_older none older = older
