-- ===== src/Worker/Stages/Slots.antt =====
-- The groups that the workers of a scan's pass have and scan.
use Prim.Native.String.{String}
use mathlib.Core.Path.{subst}
use nzb_indexer.Base.{
  zero, suc, sym, ap, ℕ, ◌≤◌, ◌≡◌, refl, false, List, [], ◌∷◌, ◌++◌, length, arith,
}
use nzb_indexer.Worker.Jobs.{has_id}
use nzb_indexer.Worker.Stages.Crew.{Slot, waiting, holding, cleared, scanning, idle}

-- The groups that are being scanned.
abbrev pub busy : List Slot → List String
busy [] = []
busy (waiting ∷ slots) = busy slots
busy (holding g ∷ slots) = busy slots
busy (cleared g ∷ slots) = busy slots
busy (scanning g ∷ slots) = g ∷ busy slots

-- The groups that a worker has received and not done with.
abbrev pub owned : List Slot → List String
owned [] = []
owned (waiting ∷ slots) = owned slots
owned (holding g ∷ slots) = g ∷ owned slots
owned (cleared g ∷ slots) = g ∷ owned slots
owned (scanning g ∷ slots) = g ∷ owned slots

pub busy-append : (xs ys : List Slot) → busy (xs ++ ys) ≡ busy xs ++ busy ys
busy-append [] ys = refl
busy-append (waiting ∷ xs) ys = busy-append xs ys
busy-append (holding g ∷ xs) ys = busy-append xs ys
busy-append (cleared g ∷ xs) ys = busy-append xs ys
busy-append (scanning g ∷ xs) ys = ap (λ l. g ∷ l) (busy-append xs ys)

pub owned-append : (xs ys : List Slot) → owned (xs ++ ys) ≡ owned xs ++ owned ys
owned-append [] ys = refl
owned-append (waiting ∷ xs) ys = owned-append xs ys
owned-append (holding g ∷ xs) ys = ap (λ l. g ∷ l) (owned-append xs ys)
owned-append (cleared g ∷ xs) ys = ap (λ l. g ∷ l) (owned-append xs ys)
owned-append (scanning g ∷ xs) ys = ap (λ l. g ∷ l) (owned-append xs ys)

pub length-busy : (slots : List Slot) → length (busy slots) ≤ length slots
length-busy [] = omega arith
length-busy (waiting ∷ slots) = omega (arith, length-busy slots)
length-busy (holding g ∷ slots) = omega (arith, length-busy slots)
length-busy (cleared g ∷ slots) = omega (arith, length-busy slots)
length-busy (scanning g ∷ slots) = omega (arith, length-busy slots)

has_id-busy :
    (g : String) (slots : List Slot)
    → has_id g (owned slots) ≡ false
    → has_id g (busy slots) ≡ false
unfolding has_id
has_id-busy g [] h = h
has_id-busy g (waiting ∷ slots) h = has_id-busy g slots h
has_id-busy g (holding k ∷ slots) h = has_id-busy g slots (ground arith)
has_id-busy g (cleared k ∷ slots) h = has_id-busy g slots (ground arith)
has_id-busy g (scanning k ∷ slots) h = ground (arith, has_id-busy g slots)

-- What no other worker has is scanned by no other.
pub absent_busy :
    (g : String) (before after : List Slot)
    → has_id g (owned before ++ owned after) ≡ false
    → has_id g (busy before ++ busy after) ≡ false
absent_busy g before after h =
    subst (λ l. has_id g l ≡ false) (busy-append before (waiting ∷ after))
      (has_id-busy g (before ++ (waiting ∷ after))
        (subst (λ l. has_id g l ≡ false) (sym (owned-append before (waiting ∷ after))) h))

pub busy-idle : (n : ℕ) → busy (idle n) ≡ []
busy-idle zero = refl
busy-idle (suc n) = busy-idle n

pub owned-idle : (n : ℕ) → owned (idle n) ≡ []
owned-idle zero = refl
owned-idle (suc n) = owned-idle n

pub length-idle : (n : ℕ) → length (idle n) ≡ n
length-idle zero = refl
length-idle (suc n) = ap suc (length-idle n)
