-- ===== src/Auth/RateLimit/Windows.antt =====
-- How many requests a window of internal/auth/ratelimit.go permits.
use Prim.Native.String.{String}
use text.Mathlib.Text.{◌==◌ as str_eq}
use text.Mathlib.TextPositions.{eq_refl}
use nzb_indexer.Base.{
  ℕ, suc, ◌+◌, ◌-◌, ◌≤◌, ◌<◌, ◌≡◌, true, false, some, List, [], ◌∷◌, leb, arith, if◌then◌else◌, ℤ,
  pos, length, min, Bool-cases, inl, inr,
}
use nzb_indexer.Base.Dict.{lookup, lookup-insert}
use nzb_indexer.Auth.RateLimit.{RateLimiter, Window, current, allow}

-- How many of a key's requests, made at the given instants, are permitted.
unfoldable pub granted : RateLimiter → String → ℕ → List ℕ → ℕ
granted r key limit [] = 0
granted r key limit (t ∷ ts) =
    (if (allow r key (pos limit) t).1.allowed then 1 else 0)
    + granted (allow r key (pos limit) t).0 key limit ts

abbrev pub AllBefore : ℕ → List ℕ → Type 0
AllBefore reset [] = Unit
AllBefore reset (t ∷ ts) = (t ≤ reset) × AllBefore reset ts

abbrev used : ℕ → Window → Window
used limit w = if leb limit w.count then w else record w { count = w.count + 1 }

-- A limited call counts against the current window and stores it.
allow_step :
    (r : RateLimiter) (key : String) (limit now : ℕ)
    → 0 < limit
    → let w = current r (lookup key r.windows) now in
      (lookup key (allow r key (pos limit) now).0.windows ≡ some (used limit w))
      × ((allow r key (pos limit) now).1.allowed ≡ (if leb limit w.count then false else true))
      × ((allow r key (pos limit) now).0.window ≡ r.window)
unfolding allow
allow_step r key limit now p =
    let w = current r (lookup key r.windows) now in
    elim (Bool-cases (leb limit w.count)) [
      | inl e ↦ ground (arith, lookup-insert key key w r.windows, eq_refl key)
      | inr e ↦
          ground
            (arith, lookup-insert key key (record w { count = w.count + 1 }) r.windows, eq_refl key)
    ]

granted_within :
    (r : RateLimiter) (key : String) (limit : ℕ) (w : Window) (ts : List ℕ)
    → 0 < limit
    → lookup key r.windows ≡ some w
    → AllBefore w.reset ts
    → granted r key limit ts ≡ min (length ts) (limit - w.count)
unfolding granted
granted_within r key limit w [] p h b = ground arith
granted_within r key limit w (t ∷ ts) p h b =
    let step = allow_step r key limit t p in
    ground (
      arith,
      granted_within (allow r key (pos limit) t).0 key limit (used limit w) ts p (ground arith)
          (ground arith),
    )

-- Of a key's requests from an instant on, all made before the current window resets, exactly as many
-- are permitted as the window has left: those up to the limit.
pub window_budget :
    (r : RateLimiter) (key : String) (limit t : ℕ) (ts : List ℕ)
    → 0 < limit
    → let w = current r (lookup key r.windows) t in
      AllBefore w.reset ts → granted r key limit (t ∷ ts) ≡ min (suc (length ts)) (limit - w.count)
unfolding granted
window_budget r key limit t ts p b =
    let w = current r (lookup key r.windows) t in
    let step = allow_step r key limit t p in
    ground (
      arith,
      granted_within (allow r key (pos limit) t).0 key limit (used limit w) ts p (ground arith)
          (elim (Bool-cases (leb limit w.count)) [ inl e ↦ rw e b | inr e ↦ rw e b ]),
    )

-- A request, whatever its limit, leaves the windows of the other keys as they were.
pub allow_other_key :
    (r : RateLimiter) (key other : String) (limit : ℤ) (now : ℕ)
    → str_eq key other ≡ false
    → lookup other (allow r key limit now).0.windows ≡ lookup other r.windows
unfolding allow
allow_other_key r key other limit now h =
    let w = current r (lookup key r.windows) now in
    ground (
      arith,
      lookup-insert key other w r.windows,
      lookup-insert key other (record w { count = w.count + 1 }) r.windows,
    )
