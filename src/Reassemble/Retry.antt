-- ===== src/Reassemble/Retry.antt =====
-- The retries of a batch in internal/reassemble/reassemble.go.
use nzb_indexer.Base.{ℕ, zero, suc, ◌+◌, ◌≤◌, ◌<◌, ◌≡◌, refl, true, false, none, List, arith}
use nzb_indexer.Nntp.Errors.{Error, other, wrap}
use nzb_indexer.Reassemble.{PartReparse, ReassembleStats}
use nzb_indexer.Reassemble.Run.{Answer, ok, failed, Repo, after_apply, attempts, apply_with_retry}

module _ {S : Type 0} (repo : Repo S) (updates : List PartReparse) (dirty : List ℕ) where
  -- An answer that is no lost deadlock.
  abbrev pub IsSettled : Answer ReassembleStats → Type 0
  IsSettled (ok stats) = Unit
  IsSettled (failed err) = repo.is_deadlock err ≡ false

  -- `n` attempts from the world `s`, numbered from `k`, lose a deadlock each and are waited out in full,
  -- which leads to the world `t`.
  abbrev pub Deadlocks : ℕ → ℕ → S → S → Type 0
  Deadlocks zero k s t = s ≡ t
  Deadlocks (suc n) k s t =
      (d : Error) × (s₁ : S) × (s₂ : S) × (repo.apply_reparse updates dirty s ≡ (failed d, s₁))
      × (repo.is_deadlock d ≡ true)
      × (repo.ended s₁ ≡ none)
      × (repo.sleep (k + 1) s₁ ≡ (none, s₂))
      × Deadlocks n (k + 1) s₂ t

  settled-after_apply :
      (k : ℕ) (a : Answer ReassembleStats) (s : S) (again : Error → S → Answer ReassembleStats × S)
      → IsSettled a
      → after_apply repo k (a, s) again ≡ (a, s)
  settled-after_apply k (ok stats) s again h = refl
  settled-after_apply k (failed err) s again h = rw h

  attempts-settled :
      (n left k : ℕ) (first : Error) (s t u : S) (a : Answer ReassembleStats)
      → n < left
      → Deadlocks n k s t
      → repo.apply_reparse updates dirty t ≡ (a, u)
      → IsSettled a
      → attempts repo left k first updates dirty s ≡ (a, u)
  unfolding attempts
  attempts-settled n zero k first s t u a lt d h v = absurd (omega arith)
  attempts-settled zero (suc left) k first s t u a lt d h v =
      rw d (rw h (settled-after_apply k a u _ v))
  attempts-settled (suc n) (suc left) k first s t u a lt (d, s₁, s₂, ap, dead, e, sl, rest) h v =
      rw ap
        (rw (dead, e) (rw sl (attempts-settled n left (k + 1) d s₂ t u a (omega arith) rest h v)))

  attempts-exhausted :
      (n k : ℕ) (first : Error) (s t : S)
      → (n ≡ 0 → repo.is_deadlock first ≡ true)
      → Deadlocks n k s t
      → (e : Error) × (repo.is_deadlock e ≡ true)
        × (attempts repo n k first updates dirty s ≡ (failed (wrap e), t))
  unfolding attempts
  attempts-exhausted zero k first s t f d = (first, f refl, rw d)
  attempts-exhausted (suc n) k first s t f (d, s₁, s₂, ap, dead, e, sl, rest) =
      let (last, is_last, same) = attempts-exhausted n (k + 1) d s₂ t (λ z. dead) rest in
      (last, is_last, rw ap (rw (dead, e) (rw sl same)))

  -- Up to three lost deadlocks are outlived: the answer of the attempt after them is reported as it is,
  -- be it a success or a failure of another kind.
  pub apply_with_retry_outlives :
      (n : ℕ) (s t u : S) (a : Answer ReassembleStats)
      → n ≤ 3
      → Deadlocks n 0 s t
      → repo.apply_reparse updates dirty t ≡ (a, u)
      → IsSettled a
      → apply_with_retry repo updates dirty s ≡ (a, u)
  unfolding apply_with_retry
  apply_with_retry_outlives n s t u a le d h v =
      attempts-settled n 4 0 (other 0) s t u a (omega arith) d h v

  -- After four lost deadlocks, each waited out, a failure that wraps a deadlock is reported, in the world
  -- that the last wait leaves: there is no fifth attempt.
  pub apply_with_retry_gives_up :
      (s t : S)
      → Deadlocks 4 0 s t
      → (e : Error) × (repo.is_deadlock e ≡ true)
        × (apply_with_retry repo updates dirty s ≡ (failed (wrap e), t))
  unfolding apply_with_retry
  apply_with_retry_gives_up s t d =
      attempts-exhausted 4 0 (other 0) s t (λ z. absurd (omega arith)) d
