-- ===== src/Nntp/Overview/Utf8.antt =====
-- The texts that internal/nntp/conn.go passes on to the store.
use nzb_indexer.Base.{
  ℕ, zero, suc, ◌-◌, ◌≤◌, ◌<◌, ◌≡◌, refl, ◌∙◌, Bool, true, false, [], ◌∷◌, ◌++◌, length, take, drop,
  arith, Bool-cases, inl, inr, ltb, ◌==◌, if◌then◌else◌, length-drop,
}
use nzb_indexer.Base.Bytes.{Bytes}
use nzb_indexer.Nntp.Overview.{
  rune_length, tail_ok, is_tail, second_of_three, second_of_four, within, valid_from, repair,
  strip_nul, to_valid_utf8,
}

tail_ok-take :
    (p : ℕ → Bool) (n : ℕ) (s y : Bytes)
    → tail_ok p s n ≡ true
    → (n ≤ length s) × (tail_ok p (take n s ++ y) n ≡ true)
tail_ok-take p zero s y h = (omega arith, refl)
tail_ok-take p (suc n) [] y h = absurd (ground arith)
tail_ok-take p (suc n) (c ∷ s) y h =
    let (fits, ok) = tail_ok-take is_tail n s y (ground arith) in (omega arith, ground arith)

-- A well-formed sequence stays one whatever comes after it.
rune_length-take :
    (b n : ℕ) (s y : Bytes)
    → rune_length b s ≡ suc n
    → (n ≤ length s) × (rune_length b (take n s ++ y) ≡ suc n)
unfolding rune_length
rune_length-take b n s y h = elim (Bool-cases (ltb b 128)) [
  | inl one ↦ let none_left : n ≡ 0 = ground arith in rw (none_left, one) (omega arith, refl)
  | inr more ↦ elim (Bool-cases (within 194 223 b)) [
    | inl two ↦
        let one_left : n ≡ 1 = ground arith in
        let (fits, ok) = tail_ok-take is_tail 1 s y (ground arith) in
        rw one_left (rw (more, two, ok) (fits, refl))
    | inr not_two ↦ elim (Bool-cases (within 224 239 b)) [
      | inl three ↦
          let two_left : n ≡ 2 = ground arith in
          let (fits, ok) = tail_ok-take (second_of_three b) 2 s y (ground arith) in
          rw two_left (rw (more, not_two, three, ok) (fits, refl))
      | inr not_three ↦
          let four : within 240 244 b ≡ true = ground arith in
          let three_left : n ≡ 3 = ground arith in
          let (fits, ok) = tail_ok-take (second_of_four b) 3 s y (ground arith) in
          rw three_left (rw (more, not_two, not_three, four, ok) (fits, refl))
    ]
  ]
]

repair-skip :
    (k : ℕ) (s : Bytes) → k ≤ length s → repair k false s ≡ take k s ++ repair 0 false (drop k s)
unfolding repair
repair-skip zero s h = refl
repair-skip (suc k) [] h = absurd (omega arith)
repair-skip (suc k) (b ∷ s) h = rw (repair-skip k s (omega arith)) refl

valid_from-skip :
    (k : ℕ) (s y : Bytes) → k ≤ length s → valid_from k (take k s ++ y) ≡ valid_from 0 y
unfolding valid_from
valid_from-skip zero s y h = refl
valid_from-skip (suc k) [] y h = absurd (omega arith)
valid_from-skip (suc k) (b ∷ s) y h = valid_from-skip k s y (omega arith)

valid_from_sound :
    (b n : ℕ) (s : Bytes)
    → rune_length b s ≡ suc n
    → valid_from 0 (repair 0 false (drop n s)) ≡ true
    → valid_from 0 (b ∷ repair n false s) ≡ true
unfolding valid_from
valid_from_sound b n s h ih =
    let (fits, same) = rune_length-take b n s (repair 0 false (drop n s)) h in
    let positive : (suc n == 0) ≡ false = ground arith in
    let less : suc n - 1 ≡ n = omega arith in
    rw (repair-skip n s fits) (rw same (rw (positive, less) (valid_from-skip n s _ fits ∙ ih)))

-- The replacement is a well-formed sequence.
valid_from-replaced : (y : Bytes) → valid_from 0 (239 ∷ 191 ∷ 189 ∷ y) ≡ valid_from 0 y
unfolding valid_from rune_length
valid_from-replaced y = refl

valid_from-nil : (k : ℕ) → valid_from k [] ≡ true
unfolding valid_from
valid_from-nil k = refl

repair-valid :
    (fuel : ℕ) (bad : Bool) (s : Bytes) → length s ≤ fuel → valid_from 0 (repair 0 bad s) ≡ true
unfolding repair
repair-valid fuel bad [] h = valid_from-nil 0
repair-valid zero bad (b ∷ s) h = absurd (omega arith)
repair-valid (suc fuel) bad (b ∷ s) h =
    by_length bad (rune_length b s) (repair-valid fuel true s (omega arith))
      (λ n. repair-valid fuel false (drop n s) (omega (arith, length-drop n s))) refl
  where
    by_length :
        (flag : Bool) (n : ℕ)
        → valid_from 0 (repair 0 true s) ≡ true
        → ((m : ℕ) → valid_from 0 (repair 0 false (drop m s)) ≡ true)
        → rune_length b s ≡ n
        → valid_from 0 (repair 0 flag (b ∷ s)) ≡ true
    by_length true zero broken sound e = rw e broken
    by_length false zero broken sound e = rw e (valid_from-replaced _ ∙ broken)
    by_length flag (suc n) broken sound e =
        let positive : (suc n == 0) ≡ false = ground arith in
        let less : suc n - 1 ≡ n = omega arith in
        rw e (rw (positive, less) (valid_from_sound b n s e (sound n)))

-- No byte is NUL.
abbrev pub NoNul : Bytes → Type 0
NoNul [] = Unit
NoNul (b ∷ s) = (0 < b) × NoNul s

strip_nul-NoNul : (s : Bytes) → NoNul (strip_nul s)
unfolding strip_nul
strip_nul-NoNul [] = tt
strip_nul-NoNul (b ∷ s) = elim (Bool-cases (b == 0)) [
  | inl nul ↦ rw nul (strip_nul-NoNul s)
  | inr other ↦ rw other (ground arith, strip_nul-NoNul s)
]

strip_nul-none : (s : Bytes) → NoNul s → strip_nul s ≡ s
unfolding strip_nul
strip_nul-none [] h = refl
strip_nul-none (b ∷ s) (p, h) =
    let other : (b == 0) ≡ false = ground arith in rw other (rw (strip_nul-none s h) refl)

repair-NoNul : (k : ℕ) (bad : Bool) (s : Bytes) → NoNul s → NoNul (repair k bad s)
unfolding repair
repair-NoNul zero bad [] h = tt
repair-NoNul (suc k) bad [] h = tt
repair-NoNul (suc k) bad (b ∷ s) (p, h) = (p, repair-NoNul k false s h)
repair-NoNul zero bad (b ∷ s) (p, h) =
    let broken = repair-NoNul 0 true s h in
    let sound = repair-NoNul (rune_length b s - 1) false s h in
    elim (Bool-cases (rune_length b s == 0)) [
      | inl e ↦ rw e (replaced bad broken)
      | inr e ↦ rw e (p, sound)
    ]
  where
    replaced :
        (flag : Bool)
        → NoNul (repair 0 true s)
        → NoNul (if flag then repair 0 true s else 239 ∷ 191 ∷ 189 ∷ repair 0 true s)
    replaced true g = g
    replaced false g = (omega arith, (omega arith, (omega arith, g)))

-- What goes to the store is well-formed UTF-8 without a NUL, whatever the bytes; a text that is so
-- already is not changed.
pub to_valid_utf8_lem :
    (s : Bytes)
    → (valid_from 0 (to_valid_utf8 s) ≡ true)
      × NoNul (to_valid_utf8 s)
      × (valid_from 0 s ≡ true → NoNul s → to_valid_utf8 s ≡ s)
unfolding to_valid_utf8
to_valid_utf8_lem s = elim (Bool-cases (valid_from 0 (strip_nul s))) [
  | inl fine ↦ rw fine (fine, strip_nul-NoNul s, λ v h. strip_nul-none s h)
  | inr bad ↦ rw bad (
    repair-valid (length (strip_nul s)) false (strip_nul s) (omega arith),
    repair-NoNul 0 false (strip_nul s) (strip_nul-NoNul s),
    λ v h. absurd (ground (arith, strip_nul-none s h)),
  )
]
