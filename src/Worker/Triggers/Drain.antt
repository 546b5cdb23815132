-- ===== src/Worker/Triggers/Drain.antt =====
-- The drain of the backfill in internal/worker/scanscheduler.go: it gives way, and it comes to an end.
use Prim.Native.String.{String}
use nzb_indexer.Base.{
  ℕ, zero, suc, ◌≤◌, ◌<◌, ◌≡◌, ◌⊎◌, refl, ap, Bool, true, false, some, List, [], ◌∷◌, ◌++◌, arith,
  Bool-cases, inl, inr,
}
use nzb_indexer.Worker.Triggers.{
  Runner, checked, unless_due, drain_groups, drain_backfill, after_drain, drain_yielding,
}

module _ {S : Type 0} (runner : Runner S) where
  -- The groups were scanned one after another, no forward pass being due before any of them.
  pub data Scans : List String → S → S → Type 0 where
    nothing : {s : S} → Scans [] s s
    group_then :
        {g : String} {gs : List String} {s u t : S}
        → runner.ended s ≡ false
        → runner.forward_due s ≡ (false, u)
        → runner.ended u ≡ false
        → Scans gs (runner.scan_backfill_group g u) t
        → Scans (g ∷ gs) s t

  -- How a drain stands after the groups it scanned.
  abbrev pub Stops : List String → S → Bool × S → Type 0
  Stops rest u (yielded, t) =
      ((yielded ≡ false) × (rest ≡ []) × (t ≡ u))
      ⊎ (((yielded ≡ false)
            × (runner.ended t ≡ true)
            × ((t ≡ u) ⊎ (runner.forward_due u ≡ (false, t))))
          ⊎ ((yielded ≡ true) × (runner.forward_due u ≡ (true, t))))

  abbrev pub IsFair : List String → S → Bool × S → Type 0
  IsFair gs s result =
      (before : List String) × (rest : List String) × (u : S) × (gs ≡ before ++ rest)
      × Scans before s u
      × Stops rest u result

  ended_at_once :
      (gs : List String) (s : S) → runner.ended s ≡ true → drain_groups runner gs s ≡ (false, s)
  unfolding drain_groups
  ended_at_once [] s h = refl
  ended_at_once (g ∷ gs) s h = rw h refl

  cons-IsFair :
      (g : String) (gs : List String) (s u : S) (result : Bool × S)
      → runner.ended s ≡ false
      → runner.forward_due s ≡ (false, u)
      → runner.ended u ≡ false
      → IsFair gs (runner.scan_backfill_group g u) result
      → IsFair (g ∷ gs) s result
  cons-IsFair g gs s u result e d on (before, rest, v, split, scans, stops) =
      (g ∷ before, rest, v, ap (λ l. g ∷ l) split, group_then e d on scans, stops)

  -- A drain scans a first part of the groups in order, having asked before each whether a forward pass
  -- is due, and with the context alive before the question and after it; it does nothing more once the
  -- groups are all scanned, the context has ended, or a forward pass is due, and reports that it yielded
  -- exactly in the last case.
  pub drain_groups-IsFair : (gs : List String) (s : S) → IsFair gs s (drain_groups runner gs s)
  unfolding drain_groups
  drain_groups-IsFair [] s = ([], [], s, refl, nothing, inl (refl, refl, refl))
  drain_groups-IsFair (g ∷ gs) s = elim (Bool-cases (runner.ended s)) [
    | inl over ↦ rw over ([], g ∷ gs, s, refl, nothing, inr (inl (refl, over, inl refl)))
    | inr going ↦ rw going (by_due _ _ refl going (λ t. drain_groups-IsFair gs t))
  ]
    where
      by_due :
          (due : Bool) (u : S)
          → runner.forward_due s ≡ (due, u)
          → runner.ended s ≡ false
          → ((t : S) → IsFair gs t (drain_groups runner gs t))
          → IsFair
              (g ∷ gs)
              s
              (unless_due runner (due, u) (λ t. drain_groups runner gs (checked runner g t)))
      by_due true u d going ih = ([], g ∷ gs, s, refl, nothing, inr (inr (refl, d)))
      by_due false u d going ih = elim (Bool-cases (runner.ended u)) [
        | inl over ↦ rw over (
            rw (ended_at_once gs u over)
              ([], g ∷ gs, s, refl, nothing, inr (inl (refl, over, inr d))))
        | inr on ↦ rw on (cons-IsFair g gs s u _ going d on (ih (runner.scan_backfill_group g u)))
      ]

  -- How often forward passes may still become due.
  pub record Calms (left : S → ℕ) : Type 0 where
    pub due :
        (s u : S)
        → runner.forward_due s ≡ (true, u)
        → left (runner.run_forward "" (runner.clear_due u)) < left s
    pub not_due : (s u : S) → runner.forward_due s ≡ (false, u) → left u ≤ left s
    pub scan : (g : String) (s : S) → left (runner.scan_backfill_group g s) ≤ left s
    pub list : (s : S) → left (runner.list_backfill_groups s).1 ≤ left s

  -- What is left after a drain: less than before after the forward pass that interrupts it.
  abbrev Eases : (S → ℕ) → S → Bool × S → Type 0
  Eases left s (yielded, t) =
      yielded ≡ true → left (runner.run_forward "" (runner.clear_due t)) < left s

  drain_groups-Eases :
      (left : S → ℕ) (calms : Calms left) (gs : List String) (s : S)
      → Eases left s (drain_groups runner gs s)
  unfolding drain_groups
  drain_groups-Eases left calms [] s = λ h. absurd (ground arith)
  drain_groups-Eases left calms (g ∷ gs) s = elim (Bool-cases (runner.ended s)) [
    | inl over ↦ rw over (λ h. absurd (ground arith))
    | inr going ↦ rw going (by_due _ _ refl (λ t. drain_groups-Eases left calms gs t))
  ]
    where
      by_due :
          (due : Bool) (u : S)
          → runner.forward_due s ≡ (due, u)
          → ((t : S) → Eases left t (drain_groups runner gs t))
          → Eases left s
              (unless_due runner (due, u) (λ t. drain_groups runner gs (checked runner g t)))
      by_due true u d ih = λ h. calms.due s u d
      by_due false u d ih = elim (Bool-cases (runner.ended u)) [
        | inl over ↦ rw over (λ h. omega (arith, ih u h, calms.not_due s u d))
        | inr on ↦ rw on (λ h.
            omega
              (arith, ih (runner.scan_backfill_group g u) h, calms.not_due s u d, calms.scan g u))
      ]

  -- If forward passes become due no more than a number of times, the drain ends after at most one round
  -- more, whatever the groups.
  pub drain_yielding-ends :
      (left : S → ℕ) (calms : Calms left) (fuel : ℕ) (s : S)
      → left s < fuel
      → (t : S) × (drain_yielding runner fuel s ≡ some t)
  unfolding drain_yielding drain_backfill
  drain_yielding-ends left calms zero s h = absurd (omega arith)
  drain_yielding-ends left calms (suc fuel) s h = elim (Bool-cases (runner.ended s)) [
    | inl over ↦ rw over (s, refl)
    | inr going ↦ elim (Bool-cases (runner.backfill_enabled s)) [
      | inr off ↦ rw (going, off) (s, refl)
      | inl on ↦
          let listed = runner.list_backfill_groups s in
          rw (going, on)
            (by_drain (drain_groups runner (listed.0) (listed.1))
              (drain_groups-Eases left calms (listed.0) (listed.1)) (calms.list s)
              (λ t lt. drain_yielding-ends left calms fuel t lt))
    ]
  ]
    where
      by_drain :
          (r : Bool × S)
          → Eases left (runner.list_backfill_groups s).1 r
          → left (runner.list_backfill_groups s).1 ≤ left s
          → ((t : S) → left t < fuel → (u : S) × (drain_yielding runner fuel t ≡ some u))
          → (u : S) × (after_drain runner r (drain_yielding runner fuel) ≡ some u)
      by_drain (false, t) eases lists again = (t, refl)
      by_drain (true, t) eases lists again =
          again (runner.run_forward "" (runner.clear_due t)) (omega (arith, eases refl))
