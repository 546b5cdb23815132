-- ===== src/Auth/RateLimit/Cleanup.antt =====
-- Cleanup of internal/auth/ratelimit.go drops only windows that no later request would count in.
use Prim.Native.String.{String}
use text.Mathlib.Text.{◌==◌ as str_eq}
use text.Mathlib.TextEquality.{eq_iff}
use nzb_indexer.Base.{
  ℕ, ◌≤◌, ◌≡◌, refl, Option, none, some, List, [], ◌∷◌, ltb, leb, arith, if◌then◌else◌, ℤ, pos,
  pos_part, lebℤ, Bool-cases, inl, inr,
}
use nzb_indexer.Base.Dict.{lookup, insert, lookup-insert}
use nzb_indexer.Auth.RateLimit.{
  RateLimiter, Window, current, allow, drop_expired, cleanup, allow_limited,
}

-- One entry for a key.
abbrev pub Distinct : List (String × Window) → Type 0
Distinct [] = Unit
Distinct ((k, w) ∷ m) = (lookup k m ≡ none) × Distinct m

insert-Distinct :
    (k : String) (w : Window) (m : List (String × Window)) → Distinct m → Distinct (insert k w m)
unfolding insert lookup
insert-Distinct k w [] d = (refl, tt)
insert-Distinct k w ((j, v) ∷ m) d = elim (Bool-cases (str_eq j k)) [
  | inl e ↦ rw e (ground (arith, eq_iff j k), d.1)
  | inr e ↦
      rw e
        (ground (arith, lookup-insert k j w m, eq_iff j k, eq_iff k j), insert-Distinct k w m d.1)
]

abbrev unless_expired : ℕ → Option Window → Option Window
unless_expired now none = none
unless_expired now (some w) = if ltb w.reset now then none else some w

lookup-drop_expired :
    (now : ℕ) (k : String) (m : List (String × Window))
    → Distinct m
    → lookup k (drop_expired now m) ≡ unless_expired now (lookup k m)
unfolding lookup drop_expired
lookup-drop_expired now k [] d = refl
lookup-drop_expired now k ((j, w) ∷ m) d =
    ground (arith, lookup-drop_expired now k m d.1, eq_iff j k)

drop-Distinct : (now : ℕ) (m : List (String × Window)) → Distinct m → Distinct (drop_expired now m)
unfolding drop_expired
drop-Distinct now [] d = tt
drop-Distinct now ((j, w) ∷ m) d = elim (Bool-cases (ltb w.reset now)) [
  | inl e ↦ rw e (drop-Distinct now m d.1)
  | inr e ↦ rw e (ground (arith, lookup-drop_expired now j m d.1), drop-Distinct now m d.1)
]

limited-Distinct :
    (r : RateLimiter) (key : String) (limit now : ℕ)
    → Distinct r.windows
    → Distinct (allow_limited r key limit now).0.windows
unfolding allow_limited
limited-Distinct r key limit now d =
    elim (Bool-cases (leb limit (current r (lookup key r.windows) now).count)) [
      | inl e ↦ rw e (insert-Distinct key _ r.windows d)
      | inr e ↦ rw e (insert-Distinct key _ r.windows d)
    ]

-- Requests and cleanups keep one window for a key.
pub allow-Distinct :
    (r : RateLimiter) (key : String) (limit : ℤ) (now : ℕ)
    → Distinct r.windows
    → Distinct (allow r key limit now).0.windows × Distinct (cleanup r now).windows
unfolding allow cleanup
allow-Distinct r key limit now d = (
  elim (Bool-cases (lebℤ limit (pos 0))) [
    | inl e ↦ rw e d
    | inr e ↦ rw e (limited-Distinct r key (pos_part limit) now d)
  ],
  drop-Distinct now r.windows d,
)

-- After a cleanup of a limiter with one window for a key, every request, made then or later, gets the
-- answer that it would have got without.
pub allow-cleanup :
    (r : RateLimiter) (key : String) (limit : ℤ) (earlier now : ℕ)
    → Distinct r.windows
    → earlier ≤ now
    → (allow (cleanup r earlier) key limit now).1 ≡ (allow r key limit now).1
unfolding allow cleanup
allow-cleanup r key limit earlier now d h =
    ground (arith, lookup-drop_expired earlier key r.windows d)
