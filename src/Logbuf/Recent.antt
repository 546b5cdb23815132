-- ===== src/Logbuf/Recent.antt =====
-- What Recent of internal/logbuf/logbuf.go answers.
use mathlib.Core.List.{reverse}
use nzb_indexer.Base.{
  ℕ, zero, suc, ◌+◌, ◌-◌, ◌<◌, ◌≡◌, refl, sym, true, false, Option, List, [], ◌∷◌, ◌++◌, take,
  if◌then◌else◌, arith, ℤ, pos, negsuc, pos_part, ltbℤ, leb, ltb, inl, inr, Bool-cases, take-all,
  append-nil, append_assoc,
}
use nzb_indexer.Logbuf.{Entry, Buffer, new_buffer, add, walk, recent, too_low}
use nzb_indexer.Logbuf.Ring.{keep_newest, Represents, new-Represents, add-Represents}

-- The entries at the level asked for or above it.
abbrev pub shown : Option ℤ → List Entry → List Entry
shown min_level [] = []
shown min_level (e ∷ es) =
    if too_low min_level e then shown min_level es else e ∷ shown min_level es

-- The first `limit` entries, or all of them if the limit is not positive.
abbrev pub at_most : ℤ → List Entry → List Entry
at_most limit es = if ltbℤ (pos 0) limit then take (pos_part limit) es else es

-- The buffer that has been given the entries of a list, in their order.
unfoldable pub add_all : Buffer → List Entry → Buffer
add_all b [] = b
add_all b (e ∷ es) = add_all (add b e) es

walk_unlimited :
    (limit : ℤ) (min_level : Option ℤ) (n : ℕ) (es : List Entry)
    → ltbℤ (pos 0) limit ≡ false
    → walk limit min_level n es ≡ shown min_level es
unfolding walk
walk_unlimited limit min_level n [] h = refl
walk_unlimited limit min_level n (e ∷ es) h = elim (Bool-cases (too_low min_level e)) [
  | inl t ↦ rw t (walk_unlimited limit min_level n es h)
  | inr t ↦ rw (t, h, walk_unlimited limit min_level (n + 1) es h)
]

walk_limited :
    (limit : ℕ) (min_level : Option ℤ) (n : ℕ) (es : List Entry)
    → n < limit
    → walk (pos limit) min_level n es ≡ take (limit - n) (shown min_level es)
unfolding walk
walk_limited limit min_level n [] h = sym (take-all (limit - n) [] (omega arith))
walk_limited limit min_level n (e ∷ es) h = elim (Bool-cases (too_low min_level e)) [
  | inl t ↦ rw t (walk_limited limit min_level n es h)
  | inr t ↦
      let left : limit - n ≡ suc (limit - (n + 1)) = omega arith in
      elim (Bool-cases (leb (limit + 0) (n + 1 + 0))) [
        | inl last ↦
            let none_left : limit - (n + 1) ≡ 0 = ground arith in
            let positive : ltb 0 (limit + 0) ≡ true = ground arith in
            rw (t, positive, last, left, none_left)
        | inr later ↦
            let positive : ltb 0 (limit + 0) ≡ true = ground arith in
            rw (t, positive, later, left, walk_limited limit min_level (n + 1) es (ground arith))
      ]
]

walk_lem :
    (limit : ℤ) (min_level : Option ℤ) (es : List Entry)
    → walk limit min_level 0 es ≡ at_most limit (shown min_level es)
walk_lem (negsuc n) min_level es =
    let below : ltb (0 + suc n) 0 ≡ false = ground arith in
    rw below (walk_unlimited (negsuc n) min_level 0 es below)
walk_lem (pos zero) min_level es = walk_unlimited (pos zero) min_level 0 es refl
walk_lem (pos (suc n)) min_level es =
    let above : ltb 0 (suc n + 0) ≡ true = ground arith in
    let whole : suc n - 0 ≡ suc n = omega arith in
    rw above (rw whole at (walk_limited (suc n) min_level 0 es (omega arith)))

add_all-Represents :
    (b : Buffer) (log es : List Entry) → Represents b log → Represents (add_all b es) (log ++ es)
unfolding add_all
add_all-Represents b log [] r = rw (append-nil log) r
add_all-Represents b log (e ∷ es) r =
    rw (append_assoc log (e ∷ []) es) at
      (add_all-Represents (add b e) (log ++ (e ∷ [])) es (add-Represents b log e r))

add_all-cap : (b : Buffer) (es : List Entry) → (add_all b es).cap ≡ b.cap
unfolding add_all add
add_all-cap b [] = refl
add_all-cap b (e ∷ es) = add_all-cap (add b e) es

-- After any history of additions to a new buffer, the answer is the newest entries of the history, as
-- many as the capacity, the newest first, without those below the level, and cut to a positive limit.
pub recent_lem :
    (capacity limit : ℤ) (min_level : Option ℤ) (log : List Entry)
    → recent (add_all (new_buffer capacity) log) limit min_level
      ≡ at_most limit (shown min_level (reverse (keep_newest (new_buffer capacity).cap log)))
unfolding recent
recent_lem capacity limit min_level log =
    let b = new_buffer capacity in
    let kept = (add_all-Represents b [] log (new-Represents capacity)).newest in
    rw (kept, add_all-cap b log) (walk_lem limit min_level (reverse (keep_newest b.cap log)))
