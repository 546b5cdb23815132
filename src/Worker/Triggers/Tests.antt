-- ===== src/Worker/Triggers/Tests.antt =====
-- Requests, polls and drains on small queues; a runner whose forward pass becomes due once.
use Prim.Native.String.{String}
use nzb_indexer.Base.{
  ℕ, zero, suc, ◌≤◌, ◌<◌, ◌≡◌, refl, Bool, true, false, some, List, [], ◌∷◌, arith,
}
use mathlib.Core.Path.{subst, ap}
use nzb_indexer.Base.Dict.{lookup}
use nzb_indexer.Store.Jobs.{Table}
use nzb_indexer.Worker.Jobs.Terminal.{table_store}
use nzb_indexer.Worker.Triggers.{
  ScanTrigger, no_requests, trigger_scan, Runner, drain_groups, drain_backfill, drain_yielding,
}
use nzb_indexer.Worker.Triggers.Lost.{trigger_scan_lem}
use nzb_indexer.Worker.Triggers.Drain.{IsFair, drain_groups-IsFair, drain_yielding-ends, Calms}

abbrev empty : Table ℕ
empty = []

trigger_scan_lem_example :
    (trigger_scan (some (table_store 1 2 9)) "j" "" no_requests empty).answer ≡ some "j"
unfolding lookup
trigger_scan_lem_example =
    ((trigger_scan_lem 1 2 9 "j" "" no_requests empty refl refl).0 (omega arith)).0

abbrev global : ScanTrigger
global = record { group = ""; backfill = false; job_id = "j" }

abbrev backfill_of_a : ScanTrigger
backfill_of_a = record { group = "a"; backfill = true; job_id = "k" }

-- How often a forward pass still becomes due, and what has been scanned, the last first.
abbrev World : Type 0
World = ℕ × List String

abbrev poll : World → Bool × World
poll (zero, log) = (false, (0, log))
poll (suc n, log) = (true, (suc n, log))

abbrev clear : World → World
clear (zero, log) = (0, log)
clear (suc n, log) = (n, log)

abbrev runner : Runner World
runner = record {
  run_forward = λ group (n, log). (n, "forward" ∷ log);
  list_backfill_groups = λ s. ("a" ∷ "b" ∷ [], s);
  scan_backfill_group = λ group (n, log). (n, group ∷ log);
  forward_due = poll;
  clear_due = clear;
  backfill_enabled = λ s. true;
  ended = λ s. false;
}

program : Unit {0}
unfolding drain_groups drain_backfill drain_yielding
program = tt

forward_first : drain_yielding runner 2 (1, []) ≡ some (0, "b" ∷ "a" ∷ "forward" ∷ [])
unfolding program
forward_first = refl

drain_groups-IsFair_example :
    IsFair runner ("a" ∷ []) (1, []) (drain_groups runner ("a" ∷ []) (1, []))
drain_groups-IsFair_example = drain_groups-IsFair runner ("a" ∷ []) (1, [])

runner-Calms : Calms runner (λ s. s.0)
runner-Calms = record {
  due = due_again;
  not_due = not_due_again;
  scan = λ g s. omega arith;
  list = λ s. omega arith;
}
  where
    due_again : (s u : World) → poll s ≡ (true, u) → (runner.run_forward "" (clear u)).0 < s.0
    due_again (zero, log) u h = absurd (ground arith)
    due_again (suc n, log) u h = subst (λ v. (clear v).0 < suc n) (ap (λ p. p.1) h) (omega arith)

    not_due_again : (s u : World) → poll s ≡ (false, u) → u.0 ≤ s.0
    not_due_again (zero, log) u h = subst (λ v. v.0 ≤ 0) (ap (λ p. p.1) h) (omega arith)
    not_due_again (suc n, log) u h = absurd (ground arith)

drain_yielding-ends_example : (t : World) × (drain_yielding runner 2 (1, []) ≡ some t)
drain_yielding-ends_example =
    drain_yielding-ends runner (λ s. s.0) runner-Calms 2 (1, []) (omega arith)
