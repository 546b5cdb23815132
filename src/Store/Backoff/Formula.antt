-- ===== src/Store/Backoff/Formula.antt =====
-- The wait of PPBackoff in internal/store/postprocess.go, by its formula.
use nzb_indexer.Base.{
  ℕ, sym, suc, ◌*◌, ◌^◌, ◌≤◌, ◌≡◌, arith, ltb, if◌then◌else◌, ℤ, pos, min, int64, int64_small,
  Bool-cases, inl, inr, ltbℤ, lebℤ, ◌||◌, ◌∙◌, ap,
}
use native.Mathlib.Nat.{pow-le-pow_right, one-le-pow}
use nzb_indexer.Store.Backoff.{pp_base_backoff, pp_max_backoff, shift_of, pp_backoff}

-- After the first attempt and each later one, the wait is the base doubled for every attempt before, up to
-- the maximum: the shift is capped where it makes no difference, and nothing overflows.
pub pp_backoff_lem :
    (n : ℕ) → pp_backoff (pos (suc n)) ≡ pos (min (pp_base_backoff * 2 ^ n) pp_max_backoff)
unfolding pp_backoff int64
pp_backoff_lem n = elim (Bool-cases (ltb 20 n)) [
  | inl late ↦
      let shift : shift_of (pos (suc n)) ≡ 20 = ground arith in
      let large : 2 ^ 20 ≤ 2 ^ n =
        pow-le-pow_right {n = 2} (omega arith) {i = 20} {j = n} (ground arith) in
      let top : min (pp_base_backoff * 2 ^ n) pp_max_backoff ≡ pp_max_backoff = omega arith in
      ap (λ k. capped (int64 (pp_base_backoff * 2 ^ k))) shift ∙ sym (ap pos top)
  | inr early ↦
      let shift : shift_of (pos (suc n)) ≡ n = ground arith in
      let small : 2 ^ n ≤ 2 ^ 20 =
        pow-le-pow_right {n = 2} (omega arith) {i = n} {j = 20} (ground arith) in
      let one : 1 ≤ 2 ^ n = one-le-pow n 2 (omega arith) in
      let exact = int64_small (pp_base_backoff * 2 ^ n) (omega arith) in
      ap (λ k. capped (int64 (pp_base_backoff * 2 ^ k))) shift ∙ ap capped exact ∙ ground arith
]
  where
    capped : ℤ → ℤ
    capped d = if lebℤ d (pos 0) || ltbℤ (pos pp_max_backoff) d then pos pp_max_backoff else d
