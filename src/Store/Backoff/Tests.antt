-- ===== src/Store/Backoff/Tests.antt =====
-- Waits before a release is tried again.
use nzb_indexer.Base.{◌≡◌, refl, pos, min, ◌*◌, ◌^◌, int64}
use nzb_indexer.Store.Backoff.{pp_backoff, pp_base_backoff, pp_max_backoff}
use nzb_indexer.Store.Backoff.Formula.{pp_backoff_lem}

program : Unit {0}
unfolding pp_backoff int64
program = tt

third_wait : pp_backoff (pos 3) ≡ pos 1200000000000
unfolding program
third_wait = refl

pp_backoff_lem_example : pp_backoff (pos 3) ≡ pos (min (pp_base_backoff * 2 ^ 2) pp_max_backoff)
pp_backoff_lem_example = pp_backoff_lem 2
