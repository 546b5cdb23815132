-- ===== src/Assembler.antt =====
-- internal/assembler/assembler.go: parts are folded into binaries, batch by batch up to a cap. The store
-- is a world that the calls step through; the test for a deadlock is a parameter.
mod Drained
mod Tests
use nzb_indexer.Base.{
  ℕ, zero, suc, ◌+◌, ◌-◌, Bool, true, false, ◌&&◌, Option, none, some, ◌==◌, ltb, leb,
  if◌then◌else◌, ℤ, pos, negsuc, lebℤ, ltbℤ, positive_or,
}
use nzb_indexer.Nntp.Errors.{Error, other, wrap}

pub record Options : Type 0 where
  pub batch_limit : ℤ
  pub max_batches_per_run : ℤ
  pub settle_quiet_after : ℤ
  pub stale_after : ℤ
  pub stale_batch_limit : ℤ

-- The options as `New` leaves them.
abbrev pub defaulted : Options → Options
defaulted opts = record opts {
  batch_limit = if lebℤ (opts.batch_limit) (pos 0) then pos 500 else opts.batch_limit;
  max_batches_per_run = elim (opts.max_batches_per_run) [ pos zero ↦ pos 200 | n ↦ n ];
}

pub record Result : Type 0 where
  pub binaries_touched : ℕ
  pub batches : ℕ
  pub drained : Bool
  pub stale_removed : ℕ
  pub settled : ℕ

pub data Counted : Type 0 where
  counted : ℕ → Counted
  failed : Error → Counted

-- The store's three calls, the context's error, and the wait before a retry, which gives the
-- context's error if it ends first.
pub record Repo (S : Type 0) : Type 0 where
  pub assemble_binaries : ℤ → S → Counted × S
  pub settle_quiet_collections : ℤ → S → Counted × S
  pub age_out_stale_binaries : ℤ → ℤ → S → Counted × S
  pub ended : S → Option Error
  pub sleep : ℕ → S → Option Error × S
  pub is_deadlock : Error → Bool

pub data Ending : Type 0 where
  finished out_of_fuel : Ending
  stopped : Error → Ending

pub record Pass (S : Type 0) : Type 0 where
  pub result : Result
  pub ending : Ending
  pub world : S

-- Whether a binary of which `collected` parts are there is complete.
abbrev pub is_complete : ℕ → ℕ → Bool
is_complete collected declared_total =
    if ltb 0 declared_total then leb declared_total collected else leb 1 collected

module _ {S : Type 0} (repo : Repo S) where
  abbrev pub after_sleep : Option Error × S → (S → Counted × S) → Counted × S
  after_sleep (some err, s) again = (failed err, s)
  after_sleep (none, s) again = again s

  abbrev pub after_attempt : ℕ → Counted × S → (Error → S → Counted × S) → Counted × S
  after_attempt attempt (counted n, s) again = (counted n, s)
  after_attempt attempt (failed err, s) again =
      if repo.is_deadlock err
      then after_sleep (repo.sleep (attempt + 1) s) (again err)
      else (failed err, s)

  -- The attempts from number `attempt` on, `left` of them, with the last error.
  unfoldable pub attempts : ℤ → ℕ → ℕ → Error → S → Counted × S
  attempts limit zero attempt last s = (failed last, s)
  attempts limit (suc left) attempt last s =
      after_attempt attempt (repo.assemble_binaries limit s)
        (λ err now. attempts limit left (attempt + 1) err now)

  -- `maxDeadlockRetries` is 3. The error to start from is never reported.
  unfoldable pub assemble_batch_with_retry : ℤ → S → Counted × S
  assemble_batch_with_retry limit s = attempts limit 4 0 (other 0) s

  -- Whether round `i` stands at the cap, and whether it is the last one below it.
  abbrev pub at_cap : Option ℕ → ℕ → Bool
  at_cap none i = false
  at_cap (some n) i = leb n i

  abbrev pub is_last : Option ℕ → ℕ → Bool
  is_last none i = false
  is_last (some n) i = i + 1 == n

  abbrev pub after_batch : Option ℕ → ℕ → Result → Counted × S → (Result → S → Pass S) → Pass S
  after_batch max i res (failed err, s) next = record {
    result = res;
    ending = stopped (wrap err);
    world = s;
  }
  after_batch max i res (counted zero, s) next = record {
    result = res;
    ending = finished;
    world = s;
  }
  after_batch max i res (counted (suc n), s) next =
      next
        (record res {
          binaries_touched = res.binaries_touched + suc n;
          batches = res.batches + 1;
          drained = if is_last max i then false else res.drained;
        })
        s

  -- The loop, in round `i`; without a cap it goes on for as long as there is fuel.
  unfoldable pub fold_batches : ℤ → Option ℕ → ℕ → ℕ → Result → S → Pass S
  fold_batches limit max zero i res s = record { result = res; ending = out_of_fuel; world = s }
  fold_batches limit max (suc fuel) i res s =
      if at_cap max i
      then record { result = res; ending = finished; world = s }
      else elim (repo.ended s) [
        | some err ↦ record { result = res; ending = stopped err; world = s }
        | none ↦
            after_batch max i res (assemble_batch_with_retry limit s)
              (fold_batches limit max fuel (suc i))
      ]

  abbrev pub after_age_out : Result → Counted × S → Pass S
  after_age_out res (failed err, s) = record {
    result = res;
    ending = stopped (wrap err);
    world = s;
  }
  after_age_out res (counted n, s) = record {
    result = record res { stale_removed = n };
    ending = finished;
    world = s;
  }

  abbrev pub age_out : Options → Result → S → Pass S
  age_out opts res s =
      if ltbℤ (pos 0) (opts.stale_after)
      then after_age_out res
          (repo.age_out_stale_binaries (opts.stale_after) (opts.stale_batch_limit) s)
      else record { result = res; ending = finished; world = s }

  abbrev pub after_settle : Options → Result → Counted × S → Pass S
  after_settle opts res (failed err, s) = record {
    result = res;
    ending = stopped (wrap err);
    world = s;
  }
  after_settle opts res (counted n, s) = age_out opts (record res { settled = n }) s

  abbrev pub settle : Options → Result → S → Pass S
  settle opts res s =
      if ltbℤ (pos 0) (opts.settle_quiet_after)
      then after_settle opts res (repo.settle_quiet_collections (opts.settle_quiet_after) s)
      else age_out opts res s

  abbrev pub after_folding : Options → Ending → Pass S → Pass S
  after_folding opts finished p = settle opts p.result p.world
  after_folding opts ending p = p

  abbrev pub no_result : Result
  no_result = record {
    binaries_touched = 0;
    batches = 0;
    drained = true;
    stale_removed = 0;
    settled = 0;
  }

  -- A negative cap is none.
  abbrev pub cap_of : ℤ → Option ℕ
  cap_of (pos n) = some n
  cap_of (negsuc n) = none

  -- A capped loop has the fuel for all its rounds; `fuel` is for the others.
  abbrev pub fuel_of : Option ℕ → ℕ → ℕ
  fuel_of none fuel = fuel
  fuel_of (some n) fuel = suc n

  unfoldable pub assemble : Options → ℕ → S → Pass S
  assemble opts fuel s =
      let max = cap_of (opts.max_batches_per_run) in
      let p = fold_batches (opts.batch_limit) max (fuel_of max fuel) 0 no_result s in
      after_folding opts p.ending p
