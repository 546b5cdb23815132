-- ===== src/Reassemble/Plan.antt =====
-- What Plan of internal/reassemble/reassemble.go decides for a batch of parts.
use Prim.Native.String.{String}
use nzb_indexer.Base.{
  ℕ, ◌≡◌, Bool, true, false, not, ◌&&◌, ◌||◌, Option, none, some, List, [], ◌∷◌, ◌==◌, arith,
  Bool-cases, inl, inr,
}
use nzb_indexer.Scanner.Ingest.{ParsedSubject}
use nzb_indexer.Reassemble.{PartForReparse, unchanged, has_id, mark, also, plan_from, plan}

module _ (parse : String → ParsedSubject) where
  -- A part that is to be rewritten belongs to the binary.
  abbrev pub touches : List PartForReparse → ℕ → Bool
  touches [] b = false
  touches (p ∷ ps) b =
      (not (unchanged (parse p.subject) p) && has_id (mark [] p.binary_id) b) || touches ps b

  dirty-marked :
      (seen : List ℕ) (o : Option ℕ) (dirty : List ℕ) (t : Bool) (b : ℕ)
      → has_id dirty b ≡ not (has_id (also (mark seen o) seen) b) && t
      → has_id (also (mark seen o) dirty) b ≡ not (has_id seen b) && (has_id (mark [] o) b || t)
  dirty-marked seen none dirty t b h = h
  dirty-marked seen (some c) dirty t b h = elim (Bool-cases (c == b)) [
    | inl e ↦
        let same : c ≡ b = ground arith in
        elim (Bool-cases (has_id seen b)) [
          | inl old ↦
              let old' : has_id seen c ≡ true = rw same old in rw (old', old) (rw (old', old) at h)
          | inr new ↦ let new' : has_id seen c ≡ false = rw same new in rw (new', e, new)
        ]
    | inr e ↦ elim (Bool-cases (has_id seen c)) [
      | inl old ↦ rw (old, e) (rw old at h)
      | inr new ↦ rw (new, e) (rw (new, e) at h)
    ]
  ]

  dirty-from :
      (seen : List ℕ) (ps : List PartForReparse) (b : ℕ)
      → has_id (plan_from parse seen ps).1 b ≡ not (has_id seen b) && touches ps b
  unfolding plan_from
  dirty-from seen [] b = ground arith
  dirty-from seen (p ∷ ps) b = elim (Bool-cases (unchanged (parse p.subject) p)) [
    | inl e ↦ rw e (dirty-from seen ps b)
    | inr e ↦ rw e (
        dirty-marked seen p.binary_id _ (touches ps b) b
          (dirty-from (also (mark seen p.binary_id) seen) ps b))
  ]

-- No binary twice.
abbrev pub IsUnique : List ℕ → Type 0
IsUnique [] = Unit
IsUnique (b ∷ bs) = (has_id bs b ≡ false) × IsUnique bs

module _ (parse : String → ParsedSubject) where
  IsUnique-marked :
      (seen : List ℕ) (o : Option ℕ) (dirty : List ℕ) (t : ℕ → Bool)
      → ((b : ℕ) → has_id dirty b ≡ not (has_id (also (mark seen o) seen) b) && t b)
      → IsUnique dirty
      → IsUnique (also (mark seen o) dirty)
  IsUnique-marked seen none dirty t h v = v
  IsUnique-marked seen (some c) dirty t h v = elim (Bool-cases (has_id seen c)) [
    | inl old ↦ rw old v
    | inr new ↦
        let self : (c == c) ≡ true = ground arith in rw new (rw (rw (new, self) at (h c)), v)
  ]

  IsUnique-from : (seen : List ℕ) (ps : List PartForReparse) → IsUnique (plan_from parse seen ps).1
  unfolding plan_from
  IsUnique-from seen [] = tt
  IsUnique-from seen (p ∷ ps) = elim (Bool-cases (unchanged (parse p.subject) p)) [
    | inl e ↦ rw e (IsUnique-from seen ps)
    | inr e ↦
        let seen' = also (mark seen p.binary_id) seen in
        rw e (
          IsUnique-marked seen p.binary_id _ (touches parse ps) (dirty-from parse seen' ps)
            (IsUnique-from seen' ps))
  ]

  -- The dirty binaries of a plan are, once each, exactly those that a part to be rewritten belongs to.
  pub plan_dirty :
      (parts : List PartForReparse)
      → IsUnique (plan parse parts).1
        × ((b : ℕ) → has_id (plan parse parts).1 b ≡ touches parse parts b)
  unfolding plan
  plan_dirty parts = (IsUnique-from [] parts, λ b. dirty-from parse [] parts b)
