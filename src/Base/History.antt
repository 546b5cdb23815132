-- ===== src/Base/History.antt =====
-- A slice that keeps the newest entries at its end, as Go code keeps a short history: an append that cuts
-- the front off, and a walk from the end.
use Prim.Native.Nat.{ℕ, zero, suc, ◌+◌, ◌-◌, ◌≤◌, ◌<◌, min}
use mathlib.Core.Path.{◌≡◌, refl, sym, ap, ◌∙◌}
use mathlib.Core.Logic.{inl, inr}
use mathlib.Core.Option.{Option, none, some}
use mathlib.Core.List.{List, [], ◌∷◌, ◌++◌}
use native.Mathlib.Omega.{arith}
use nzb_indexer.Base.Tests.{ltb, if◌then◌else◌, Bool-cases}
use nzb_indexer.Base.Lists.{
  length, get_elem?, drop, length-append, length-drop, drop-append, append_assoc, append-nil,
}

module _ {ℓ} {A : Type ℓ} where
  -- `s = append(s, x)`, then `s = s[len(s)-cap:]` if it is longer than the cap.
  unfoldable pub push_bounded : ℕ → List A → A → List A
  push_bounded cap xs x =
      let ys = xs ++ (x ∷ []) in if ltb cap (length ys) then drop (length ys - cap) ys else ys

  abbrev cons_found : Option A → List A → List A
  cons_found none xs = xs
  cons_found (some x) xs = x ∷ xs

  -- The walk down from index `i - 1` that collects `left` entries at most.
  unfoldable pub walk_back : List A → ℕ → ℕ → List A
  walk_back xs zero left = []
  walk_back xs (suc i) zero = []
  walk_back xs (suc i) (suc left) = cons_found (get_elem? xs i) (walk_back xs i left)

  -- Everything that was pushed, in order, onto a slice that starts empty.
  unfoldable pub pushed : ℕ → List A → List A → List A
  pushed cap kept [] = kept
  pushed cap kept (x ∷ xs) = pushed cap (push_bounded cap kept x) xs

  -- The last entries of a list.
  abbrev pub keep_last : ℕ → List A → List A
  keep_last n xs = drop (length xs - n) xs

module _ {ℓ} {A : Type ℓ} where
  drop_same : {m n : ℕ} (xs : List A) → m ≡ n → drop m xs ≡ drop n xs
  drop_same xs e = ap (λ k. drop k xs) e

  drop-nil : (m : ℕ) → drop {A = A} m [] ≡ []
  drop-nil zero = refl
  drop-nil (suc m) = refl

  pub drop-drop : (m n : ℕ) (xs : List A) → drop m (drop n xs) ≡ drop (n + m) xs
  drop-drop m zero xs = drop_same xs (omega arith)
  drop-drop m (suc n) [] = drop-nil m ∙ sym (drop-nil (suc n + m))
  drop-drop m (suc n) (x ∷ xs) =
      drop-drop m n xs ∙ drop_same {m = suc (n + m)} (x ∷ xs) (omega arith)

  pub push_bounded-keep_last :
      (cap : ℕ) (xs : List A) (x : A)
      → push_bounded cap (keep_last cap xs) x ≡ keep_last cap (xs ++ (x ∷ []))
  unfolding push_bounded
  push_bounded-keep_last cap xs x =
      let k = length xs - cap in
      let ys = xs ++ (x ∷ []) in
      let joined : drop k xs ++ (x ∷ []) ≡ drop k ys =
        sym (drop-append k xs (x ∷ []) (omega arith)) in
      let longer = length-append xs (x ∷ []) in
      let kept = length-drop k ys in
      elim (Bool-cases (ltb cap (length (drop k ys)))) [
        | inl over ↦ rw joined (
            rw over (
              drop-drop (length (drop k ys) - cap) k ys
              ∙ drop_same ys (ground (arith, longer, kept))))
        | inr fits ↦ rw joined (rw fits (drop_same ys (ground (arith, longer, kept))))
      ]

  -- Pushing a list leaves its last entries.
  pub pushed-keep_last :
      (cap : ℕ) (xs ys : List A) → pushed cap (keep_last cap xs) ys ≡ keep_last cap (xs ++ ys)
  unfolding pushed
  pushed-keep_last cap xs [] = rw (append-nil xs) refl
  pushed-keep_last cap xs (y ∷ ys) =
      rw (push_bounded-keep_last cap xs y) (
        pushed-keep_last cap (xs ++ (y ∷ [])) ys ∙ ap (keep_last cap) (append_assoc xs (y ∷ []) ys))

  pub get_elem?-drop : (n i : ℕ) (xs : List A) → get_elem? (drop n xs) i ≡ get_elem? xs (n + i)
  get_elem?-drop zero i xs = ap (get_elem? xs) (omega arith)
  get_elem?-drop (suc n) i [] = get_elem?-nil i ∙ sym (get_elem?-nil (suc n + i))
    where
      get_elem?-nil : (j : ℕ) → get_elem? {A = A} [] j ≡ none
      get_elem?-nil j = refl
  get_elem?-drop (suc n) i (x ∷ xs) =
      get_elem?-drop n i xs ∙ at_suc (suc n + i) (n + i) (omega arith)
    where
      at_suc : (j k : ℕ) → j ≡ suc k → get_elem? xs k ≡ get_elem? (x ∷ xs) j
      at_suc j k e = sym (ap (get_elem? (x ∷ xs)) e)

  get_elem?-inside : (xs : List A) (i : ℕ) → i < length xs → (x : A) × (get_elem? xs i ≡ some x)
  get_elem?-inside [] i h = absurd (omega arith)
  get_elem?-inside (x ∷ xs) zero h = (x, refl)
  get_elem?-inside (x ∷ xs) (suc i) h = get_elem?-inside xs i (omega arith)

  pub length-walk_back :
      (xs : List A) (i left : ℕ) → i ≤ length xs → length (walk_back xs i left) ≡ min left i
  unfolding walk_back
  length-walk_back xs zero left h = omega arith
  length-walk_back xs (suc i) zero h = omega arith
  length-walk_back xs (suc i) (suc left) h =
      let (x, there) = get_elem?-inside xs i (omega arith) in
      rw there (omega (arith, length-walk_back xs i left (omega arith)))

  -- The walk gives the entries from the end.
  pub get_elem?-walk_back :
      (xs : List A) (i left j : ℕ)
      → i ≤ length xs
      → j < min left i
      → get_elem? (walk_back xs i left) j ≡ get_elem? xs (i - 1 - j)
  unfolding walk_back
  get_elem?-walk_back xs zero left j h lt = absurd (omega arith)
  get_elem?-walk_back xs (suc i) zero j h lt = absurd (omega arith)
  get_elem?-walk_back xs (suc i) (suc left) zero h lt =
      let (x, there) = get_elem?-inside xs i (omega arith) in
      rw there (sym there ∙ ap (get_elem? xs) (omega arith))
  get_elem?-walk_back xs (suc i) (suc left) (suc j) h lt =
      let (x, there) = get_elem?-inside xs i (omega arith) in
      rw there (
        get_elem?-walk_back xs i left j (omega arith) (omega arith)
        ∙ ap (get_elem? xs) (omega arith))

  -- How many entries a walk over the last `cap` shows under a limit, and which.
  pub walk_back-keep_last :
      (cap n : ℕ) (ys : List A)
      → n ≤ min cap (length ys)
      → let kept = keep_last cap ys in
        (length (walk_back kept (length kept) n) ≡ n)
        × ((j : ℕ)
            → j < n
            → get_elem? (walk_back kept (length kept) n) j ≡ get_elem? ys (length ys - 1 - j))
  walk_back-keep_last cap n ys h =
      let kept = keep_last cap ys in
      let size = length-drop (length ys - cap) ys in
      (
        omega (arith, size, length-walk_back kept (length kept) n (omega arith)),
        λ j lt.
            get_elem?-walk_back kept (length kept) n j (omega arith) (omega (arith, size))
            ∙ get_elem?-drop (length ys - cap) (length kept - 1 - j) ys
            ∙ ap (get_elem? ys) (omega (arith, size)),
      )

  -- The list that starts empty.
  pub pushed-empty : (cap : ℕ) (ys : List A) → pushed cap [] ys ≡ keep_last cap ys
  pushed-empty cap ys =
      ap (λ xs. pushed cap xs ys) (sym (drop-nil (0 - cap))) ∙ pushed-keep_last cap [] ys
