-- ===== src/Base/Dict.antt =====
-- Go's maps with string keys, as association lists with one entry for a key.
use Prim.Native.String.{String}
use text.Mathlib.Text.{◌==◌ as str_eq}
use text.Mathlib.TextEquality.{eq_iff}
use text.Mathlib.TextPositions.{eq_refl}
use Prim.Native.Nat.{◌+◌, ◌≤◌}
use mathlib.Core.Path.{◌≡◌, refl, ◌∙◌}
use mathlib.Core.Logic.{◌≢◌}
use mathlib.Core.Option.{Option, none, some}
use mathlib.Core.List.{List, [], ◌∷◌}
use native.Mathlib.Omega.{arith}
use nzb_indexer.Base.Tests.{if◌then◌else◌}
use nzb_indexer.Base.Lists.{length}

module _ {ℓ} {V : Type ℓ} where
  unfoldable pub lookup : String → List (String × V) → Option V
  lookup key [] = none
  lookup key ((found, value) ∷ rest) = if str_eq found key then some value else lookup key rest

  -- `delete(m, k)`
  unfoldable pub remove : String → List (String × V) → List (String × V)
  remove key [] = []
  remove key ((found, value) ∷ rest) =
      if str_eq found key then remove key rest else (found, value) ∷ remove key rest

  unfoldable pub insert : String → V → List (String × V) → List (String × V)
  insert key value [] = (key, value) ∷ []
  insert key value ((found, old) ∷ rest) =
      if str_eq found key then (key, value) ∷ rest else (found, old) ∷ insert key value rest

  pub lookup-insert :
      (key other : String) (value : V) (m : List (String × V))
      → lookup other (insert key value m)
        ≡ (if str_eq key other then some value else lookup other m)
  unfolding lookup insert
  lookup-insert key other value [] = refl
  lookup-insert key other value ((found, old) ∷ rest) = ground (
    arith,
    lookup-insert key other value rest,
    eq_iff found other,
    eq_iff found key,
    eq_iff key other,
  )

  pub lookup-insert_self :
      (key : String) (value : V) (m : List (String × V))
      → lookup key (insert key value m) ≡ some value
  lookup-insert_self key value m = lookup-insert key key value m ∙ rw (eq_refl key) refl

  pub lookup-remove :
      (k j : String) (m : List (String × V))
      → lookup j (remove k m) ≡ (if str_eq k j then none else lookup j m)
  unfolding lookup remove
  lookup-remove k j [] = ground arith
  lookup-remove k j ((i, w) ∷ m) =
      ground (arith, eq_iff k j, eq_iff i k, eq_iff i j, lookup-remove k j m)

  pub length-insert :
      (k : String) (v : V) (m : List (String × V)) → length (insert k v m) ≤ length m + 1
  unfolding insert
  length-insert k v [] = ground arith
  length-insert k v ((i, w) ∷ m) = ground (arith, length-insert k v m)

  pub length-insert_old :
      (k : String) (v : V) (m : List (String × V))
      → lookup k m ≢ none
      → length (insert k v m) ≡ length m
  unfolding insert lookup
  length-insert_old k v [] h = absurd (h refl)
  length-insert_old k v ((i, w) ∷ m) h = ground (arith, length-insert_old k v m)

  pub length-remove : (k : String) (m : List (String × V)) → length (remove k m) ≤ length m
  unfolding remove
  length-remove k [] = ground arith
  length-remove k ((i, w) ∷ m) = ground (arith, length-remove k m)

  -- Deleting a key that is there shortens the map.
  pub length-remove_old :
      (k : String) (m : List (String × V)) → lookup k m ≢ none → length (remove k m) + 1 ≤ length m
  unfolding remove lookup
  length-remove_old k [] h = absurd (h refl)
  length-remove_old k ((i, w) ∷ m) h = ground (arith, length-remove k m, length-remove_old k m)
