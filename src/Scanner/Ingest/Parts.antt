-- ===== src/Scanner/Ingest/Parts.antt =====
-- What ingestRangeTracked of internal/scanner/scanner.go hands to the store.
use Prim.Native.String.{String}
use text.Mathlib.Text.{◌==◌ as str_eq}
use nzb_indexer.Base.{
  ℕ, ◌≤◌, ◌≡◌, ◌⊎◌, inl, inr, refl, Option, none, some, List, [], ◌∷◌, map, ltb, if◌then◌else◌,
  arith, Bool-cases,
}
use nzb_indexer.Scanner.Ingest.{Overview, ParsedSubject, to_part, to_parts, older}

-- The articles that have a message id.
abbrev pub usable : List Overview → List Overview
usable [] = []
usable (ov ∷ ovs) = if str_eq ov.message_id "" then usable ovs else ov ∷ usable ovs

-- No known date is before `t`.
abbrev pub NoneBefore : ℕ → List Overview → Type 0
NoneBefore t [] = Unit
NoneBefore t (ov ∷ ovs) = ((d : ℕ) → ov.date ≡ some d → t ≤ d) × NoneBefore t ovs

-- `t` is one of the dates.
abbrev pub IsDateIn : ℕ → List Overview → Type 0
IsDateIn t [] = ⊥
IsDateIn t (ov ∷ ovs) = (ov.date ≡ some t) ⊎ IsDateIn t ovs

-- `t` is the earliest of the dates and of `seed`.
abbrev pub IsEarliest : Option ℕ → List Overview → ℕ → Type 0
IsEarliest seed ovs t =
    ((d : ℕ) → seed ≡ some d → t ≤ d) × NoneBefore t ovs × ((seed ≡ some t) ⊎ IsDateIn t ovs)

older_le :
    (seed date : Option ℕ) (t : ℕ)
    → ((d : ℕ) → older seed date ≡ some d → t ≤ d)
    → ((d : ℕ) → seed ≡ some d → t ≤ d) × ((d : ℕ) → date ≡ some d → t ≤ d)
older_le none date t h = ((λ d e. ground arith), h)
older_le (some s) none t h = (h, λ d e. ground arith)
older_le (some s) (some d) t h = elim (Bool-cases (ltb d s)) [
  | inl e ↦ let le : t ≤ d = h d (rw e) in ((λ x p. ground arith), λ x p. ground arith)
  | inr e ↦ let le : t ≤ s = h s (rw e) in ((λ x p. ground arith), λ x p. ground arith)
]

older_at :
    (seed date : Option ℕ) (t : ℕ) → older seed date ≡ some t → (seed ≡ some t) ⊎ (date ≡ some t)
older_at none date t h = inr h
older_at (some s) none t h = inl h
older_at (some s) (some d) t h = ground arith

older-IsEarliest :
    (seed : Option ℕ) (ov : Overview) (ovs : List Overview) (t : ℕ)
    → IsEarliest (older seed ov.date) ovs t
    → IsEarliest seed (ov ∷ ovs) t
older-IsEarliest seed ov ovs t (least, before, inl h) = (
  (older_le seed ov.date t least).0,
  ((older_le seed ov.date t least).1, before),
  elim (older_at seed ov.date t h) [ inl p ↦ inl p | inr p ↦ inr (inl p) ],
)
older-IsEarliest seed ov ovs t (least, before, inr h) =
    ((older_le seed ov.date t least).0, ((older_le seed ov.date t least).1, before), inr (inr h))

module _ (parse_subject : String → ParsedSubject) where
  -- The parts stored are those of the articles with a message id, in the order of the server's answer.
  pub to_parts_lem :
      (group_id : ℕ) (ovs : List Overview) (seed : Option ℕ)
      → (to_parts parse_subject group_id ovs seed).0
        ≡ map (to_part parse_subject group_id) (usable ovs)
  unfolding to_parts
  to_parts_lem group_id [] seed = refl
  to_parts_lem group_id (ov ∷ ovs) seed = elim (Bool-cases (str_eq ov.message_id "")) [
    | inl e ↦ rw (e, to_parts_lem group_id ovs seed)
    | inr e ↦ rw (e, to_parts_lem group_id ovs (older seed ov.date))
  ]

  -- The posting time reported is the earliest one among the articles with a message id.
  pub oldest-IsEarliest :
      (group_id : ℕ) (ovs : List Overview) (seed : Option ℕ) (t : ℕ)
      → (to_parts parse_subject group_id ovs seed).1 ≡ some t
      → IsEarliest seed (usable ovs) t
  unfolding to_parts
  oldest-IsEarliest group_id [] seed t h = ((λ d e. ground (arith, h, e)), tt, inl h)
  oldest-IsEarliest group_id (ov ∷ ovs) seed t h = elim (Bool-cases (str_eq ov.message_id "")) [
    | inl e ↦ rw e (oldest-IsEarliest group_id ovs seed t (rw e at h))
    | inr e ↦ rw e (
        older-IsEarliest seed ov (usable ovs) t
          (oldest-IsEarliest group_id ovs (older seed ov.date) t (rw e at h)))
  ]
