-- ===== src/Nntp/Overview/Angle.antt =====
-- The message ids of internal/nntp/conn.go: stored bare, sent in angle brackets.
use nzb_indexer.Base.{ℕ, ◌≡◌, ◌≢◌, refl, true, false, [], ◌∷◌, ◌++◌, arith, ◌==◌}
use nzb_indexer.Base.Bytes.{Bytes}
use nzb_indexer.Nntp.Overview.{trim_angle, ensure_angle, ends_angle, drop_last}

ends_angle-append : (b : ℕ) (s : Bytes) → ends_angle (b ∷ s ++ (62 ∷ [])) ≡ true
ends_angle-append b [] = refl
ends_angle-append b (c ∷ s) = ends_angle-append c s

drop_last-append : (s : Bytes) → drop_last (s ++ (62 ∷ [])) ≡ s
drop_last-append [] = refl
drop_last-append (b ∷ []) = refl
drop_last-append (b ∷ c ∷ s) = rw (drop_last-append (c ∷ s)) refl

-- A bare message id survives being sent in angle brackets and trimmed again, and one in brackets is
-- sent as it is.
pub trim_angle-ensure_angle :
    (b : ℕ) (s : Bytes)
    → b ≢ 60
    → (trim_angle (ensure_angle (b ∷ s)) ≡ b ∷ s)
      × (ensure_angle (ensure_angle (b ∷ s)) ≡ ensure_angle (b ∷ s))
unfolding trim_angle ensure_angle
trim_angle-ensure_angle b s h =
    let other : (b == 60) ≡ false = ground arith in
    rw other (rw (ends_angle-append b s) (drop_last-append (b ∷ s)), refl)
