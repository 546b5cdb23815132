-- ===== src/Assembler/Tests.antt =====
-- A backlog of three groupings folded two at a time, with one lost deadlock.
use nzb_indexer.Base.{ℕ, zero, suc, ◌≡◌, refl, true, none, arith, ltb, if◌then◌else◌, pos}
use nzb_indexer.Nntp.Errors.{other}
use nzb_indexer.Assembler.{
  Options, defaulted, Counted, counted, failed, Repo, attempts, assemble_batch_with_retry,
  fold_batches, assemble,
}
use nzb_indexer.Assembler.Drained.{IsSound, assemble-IsSound}

-- The world counts down the calls: the first of them loses a deadlock.
abbrev fold : ℕ → Counted × ℕ
fold zero = (counted 0, 0)
fold (suc n) = if ltb 2 n then (failed (other 7), n) else (counted n, n)

abbrev repo : Repo ℕ
repo = record {
  assemble_binaries = λ limit s. fold s;
  settle_quiet_collections = λ period s. (counted 3, s);
  age_out_stale_binaries = λ age limit s. (counted 4, s);
  ended = λ s. none;
  sleep = λ n s. (none, s);
  is_deadlock = λ e. true;
}

abbrev options : Options
options = defaulted (record {
  batch_limit = pos 0;
  max_batches_per_run = pos 0;
  settle_quiet_after = pos 1;
  stale_after = pos 1;
  stale_batch_limit = pos 0;
})

program : Unit {0}
unfolding attempts assemble_batch_with_retry fold_batches assemble
program = tt

whole_pass :
    (assemble repo options 0 4).result
    ≡ record { binaries_touched = 3; batches = 2; drained = true; stale_removed = 4; settled = 3 }
unfolding program
whole_pass = refl

assemble-IsSound_example : IsSound repo (options.batch_limit) 200 (assemble repo options 0 4)
assemble-IsSound_example = assemble-IsSound repo options 200 0 4 refl (omega arith)
