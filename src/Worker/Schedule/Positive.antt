-- ===== src/Worker/Schedule/Positive.antt =====
-- The tickers of internal/worker/worker.go never get an interval that is not positive.
use nzb_indexer.Base.{◌≡◌, true, Bool, List, [], ◌∷◌, arith, ℤ, pos, lebℤ, ltbℤ}
use nzb_indexer.Worker.Schedule.{Options, Schedule, new_options, reconfigure, next_interval}

pub record IsValid (opts : Options) : Type 0 where
  pub scan : ltbℤ (pos 0) (opts.scan_interval) ≡ true
  pub downstream : ltbℤ (pos 0) (opts.downstream_interval) ≡ true
  pub build : ltbℤ (pos 0) (opts.build_interval) ≡ true
  pub post_process : ltbℤ (pos 0) (opts.post_process_interval) ≡ true
  pub enrich : ltbℤ (pos 0) (opts.enrich_interval) ≡ true

-- The options after a sequence of reconfigurations.
unfoldable pub reconfigured : Options → List Schedule → Options
reconfigured opts [] = opts
reconfigured opts (s ∷ ss) = reconfigured (reconfigure opts s) ss

new_options-IsValid : (opts : Options) → IsValid (new_options opts)
unfolding new_options
new_options-IsValid opts = record {
  scan = ground arith;
  downstream = ground arith;
  build = ground arith;
  post_process = ground arith;
  enrich = ground arith;
}

reconfigure-IsValid : (opts : Options) (s : Schedule) → IsValid opts → IsValid (reconfigure opts s)
unfolding reconfigure
reconfigure-IsValid opts s v = record {
  scan = ground (arith, v.scan);
  downstream = ground (arith, v.downstream);
  build = ground (arith, v.build);
  post_process = ground (arith, v.post_process);
  enrich = v.enrich;
}

reconfigured-IsValid :
    (opts : Options) (ss : List Schedule) → IsValid opts → IsValid (reconfigured opts ss)
unfolding reconfigured
reconfigured-IsValid opts [] v = v
reconfigured-IsValid opts (s ∷ ss) v =
    reconfigured-IsValid (reconfigure opts s) ss (reconfigure-IsValid opts s v)

-- The next pass of a loop comes after a positive wait, which a backlog can only shorten.
next_interval_bounds :
    (opts : Options) (configured : ℤ) (busy : Bool)
    → ltbℤ (pos 0) configured ≡ true
    → (ltbℤ (pos 0) (next_interval opts configured busy) ≡ true)
      × (lebℤ (next_interval opts configured busy) configured ≡ true)
unfolding next_interval
next_interval_bounds opts configured busy h = (ground arith, ground arith)

-- The wait is positive and no longer than the interval.
abbrev pub Waits : Options → ℤ → Bool → Type 0
Waits opts configured busy =
    (ltbℤ (pos 0) (next_interval opts configured busy) ≡ true)
    × (lebℤ (next_interval opts configured busy) configured ≡ true)

-- Whatever the options given to New and the schedules given later, the loops of assembly, building and
-- post-processing wait a positive time between two passes, busy or not, no longer than their
-- intervals, and the tickers of scanning and enrichment have positive intervals.
pub reconfigured-Waits :
    (opts : Options) (ss : List Schedule) (busy : Bool)
    → let now = reconfigured (new_options opts) ss in
      IsValid now
      × Waits now (now.downstream_interval) busy
      × Waits now (now.build_interval) busy
      × Waits now (now.post_process_interval) busy
reconfigured-Waits opts ss busy =
    let now = reconfigured (new_options opts) ss in
    let v = reconfigured-IsValid (new_options opts) ss (new_options-IsValid opts) in
    (
      v,
      next_interval_bounds now (now.downstream_interval) busy v.downstream,
      next_interval_bounds now (now.build_interval) busy v.build,
      next_interval_bounds now (now.post_process_interval) busy v.post_process,
    )
