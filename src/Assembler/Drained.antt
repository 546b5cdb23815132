-- ===== src/Assembler/Drained.antt =====
-- What Assemble of internal/assembler/assembler.go reports of the backlog.
use nzb_indexer.Base.{
  ℕ, zero, suc, ◌+◌, ◌≤◌, ◌<◌, ◌≡◌, ◌≢◌, ◌↔◌, refl, sym, ◌∙◌, true, false, some, arith, Bool-cases,
  Option-cases, inl, inr, leb, ℤ, pos, ltbℤ,
}
use nzb_indexer.Assembler.{
  Options, Result, Counted, counted, failed, Repo, Ending, finished, out_of_fuel, stopped, Pass,
  after_batch, fold_batches, assemble_batch_with_retry, after_age_out, age_out, after_settle,
  settle, after_folding, assemble, no_result,
}

module _ {S : Type 0} (repo : Repo S) where
  -- A pass capped at `n` batches runs no more than those and ends; it reports a drained backlog only
  -- after a batch that found nothing to fold, and one that is not drained only after `n` batches.
  pub record IsSound (limit : ℤ) (n : ℕ) (p : Pass S) : Type 0 where
    pub fuelled : p.ending ≢ out_of_fuel
    pub bounded : p.result.batches ≤ n
    pub emptied :
        p.ending ≡ finished
        → p.result.drained ≡ true
        → (t : S) × (u : S) × (assemble_batch_with_retry repo limit t ≡ (counted 0, u))
    pub capped : p.result.drained ≡ false → p.result.batches ≡ n

  after_batch-IsSound :
      (limit : ℤ) (n i : ℕ) (res : Result) (t s : S) (c : Counted) (next : Result → S → Pass S)
      → i < n
      → res.batches ≡ i
      → res.drained ≡ true
      → assemble_batch_with_retry repo limit t ≡ (c, s)
      → ((r : Result) (u : S)
          → r.batches ≡ suc i
          → ((r.drained ≡ false) ↔ (suc i ≡ n))
          → IsSound limit n (next r u))
      → IsSound limit n (after_batch repo (some n) i res (c, s) next)
  after_batch-IsSound limit n i res t s (failed err) next lt b d e ih = record {
    fuelled = λ h. ground arith;
    bounded = omega arith;
    emptied = λ h. absurd (ground arith);
    capped = λ h. absurd (ground arith);
  }
  after_batch-IsSound limit n i res t s (counted zero) next lt b d e ih = record {
    fuelled = λ h. ground arith;
    bounded = omega arith;
    emptied = λ h g. (t, s, e);
    capped = λ h. absurd (ground arith);
  }
  after_batch-IsSound limit n i res t s (counted (suc m)) next lt b d e ih =
      ih _ s (ground arith) (ground arith)

  fold_batches-IsSound :
      (limit : ℤ) (n fuel i : ℕ) (res : Result) (s : S)
      → i ≤ n
      → n < i + fuel
      → res.batches ≡ i
      → ((res.drained ≡ false) ↔ (i ≡ n))
      → IsSound limit n (fold_batches repo limit (some n) fuel i res s)
  unfolding fold_batches
  fold_batches-IsSound limit n zero i res s le f b d = absurd (omega arith)
  fold_batches-IsSound limit n (suc fuel) i res s le f b d = elim (Bool-cases (leb n i)) [
    | inl at_end ↦
        let same : i ≡ n = ground arith in
        let left : res.drained ≡ false = d.1 same in
        rw (at_end, fold_batches)
          (record {
            fuelled = λ h. ground arith;
            bounded = omega arith;
            emptied = λ h g. absurd (ground arith);
            capped = λ h. b ∙ same;
          })
    | inr before ↦
        let lt : i < n = ground arith in
        let all : res.drained ≡ true = ground arith in
        elim (Option-cases (repo.ended s)) [
          | inr (err, e) ↦
              rw (before, e, fold_batches)
                (record {
                  fuelled = λ h. ground arith;
                  bounded = omega arith;
                  emptied = λ h. absurd (ground arith);
                  capped = λ h. absurd (ground arith);
                })
          | inl e ↦
              let a = assemble_batch_with_retry repo limit s in
              rw (before, e, fold_batches)
                (after_batch-IsSound limit n i res s a.1 a.0
                  (fold_batches repo limit (some n) fuel (suc i)) lt b all refl
                  (λ r u h g.
                    fold_batches-IsSound limit n fuel (suc i) r u (omega arith) (omega arith) h g))
        ]
  ]

  -- The steps past the loop leave the batches and the verdict alone.
  abbrev Keeps : Result → Pass S → Type 0
  Keeps res p =
      (p.ending ≢ out_of_fuel) × (p.result.batches ≡ res.batches) × (p.result.drained ≡ res.drained)

  age_out-Keeps : (opts : Options) (res : Result) (s : S) → Keeps res (age_out repo opts res s)
  age_out-Keeps opts res s = elim (Bool-cases (ltbℤ (pos 0) (opts.stale_after))) [
    | inl e ↦
        rw e (removed (repo.age_out_stale_binaries (opts.stale_after) (opts.stale_batch_limit) s))
    | inr e ↦ rw e ((λ h. ground arith), refl, refl)
  ]
    where
      removed : (c : Counted × S) → Keeps res (after_age_out repo res c)
      removed (failed err, t) = ((λ h. ground arith), refl, refl)
      removed (counted n, t) = ((λ h. ground arith), refl, refl)

  settle-Keeps : (opts : Options) (res : Result) (s : S) → Keeps res (settle repo opts res s)
  settle-Keeps opts res s = elim (Bool-cases (ltbℤ (pos 0) (opts.settle_quiet_after))) [
    | inl e ↦ rw e (settled (repo.settle_quiet_collections (opts.settle_quiet_after) s))
    | inr e ↦ rw e (age_out-Keeps opts res s)
  ]
    where
      settled : (c : Counted × S) → Keeps res (after_settle repo opts res c)
      settled (failed err, t) = ((λ h. ground arith), refl, refl)
      settled (counted n, t) = age_out-Keeps opts (record res { settled = n }) t

  after_folding-IsSound :
      (opts : Options) (n : ℕ) (e : Ending) (p : Pass S)
      → p.ending ≡ e
      → IsSound (opts.batch_limit) n p
      → IsSound (opts.batch_limit) n (after_folding repo opts e p)
  after_folding-IsSound opts n finished p same v =
      let (ends, batches, drained) = settle-Keeps opts p.result p.world in
      record {
        fuelled = ends;
        bounded = omega (arith, v.bounded, batches);
        emptied = λ h d. v.emptied same (sym drained ∙ d);
        capped = λ d. batches ∙ v.capped (sym drained ∙ d);
      }
  after_folding-IsSound opts n out_of_fuel p same v = v
  after_folding-IsSound opts n (stopped err) p same v = v

  -- With a positive cap, whatever the store answers and the context does, a pass ends, settling and
  -- ageing out included, after no more batches than the cap. A pass that finishes reports a drained
  -- backlog only after a batch that found nothing to fold, and one that is not drained only after as many
  -- batches as the cap; of a pass that was stopped the report says nothing.
  pub assemble-IsSound :
      (opts : Options) (n fuel : ℕ) (s : S)
      → opts.max_batches_per_run ≡ pos n
      → 0 < n
      → IsSound (opts.batch_limit) n (assemble repo opts fuel s)
  unfolding assemble
  assemble-IsSound opts n fuel s cap positive = rw cap (
      after_folding-IsSound opts n _ _ refl (
        fold_batches-IsSound (opts.batch_limit) n (suc n) 0 (no_result repo) s (omega arith)
          (omega arith) refl (ground arith)))
