-- ===== src/Nntp/Circuit/Probe.antt =====
-- The half-open probe of internal/nntp/circuit.go: when one is granted, and to how many callers.
use nzb_indexer.Base.{
  ℕ, ◌+◌, ◌≡◌, ◌⊎◌, inl, inr, true, false, Bool, arith, List, [], ◌∷◌, refl, if◌then◌else◌,
}
use nzb_indexer.Nntp.Circuit.{CircuitBreaker, open_circuit, half_open, allow, elapsed}

-- How many of a row of `allow` calls, made at the given instants with no result recorded between
-- them, are granted; and the breaker after them.
unfoldable pub granted : CircuitBreaker → List ℕ → ℕ
granted c [] = 0
granted c (t ∷ ts) = (if (allow c t).1 then 1 else 0) + granted (allow c t).0 ts

unfoldable pub allow_all : CircuitBreaker → List ℕ → CircuitBreaker
allow_all c [] = c
allow_all c (t ∷ ts) = allow_all (allow c t).0 ts

allow_probing :
    (c : CircuitBreaker) (t : ℕ)
    → c.state ≡ half_open
    → c.probing ≡ true
    → allow c t ≡ (c, false, false)
unfolding allow
allow_probing c t s p = ground arith

-- While a probe is marked as running, every caller is refused and nothing changes.
pub probing_refuses :
    (c : CircuitBreaker) (ts : List ℕ)
    → c.state ≡ half_open
    → c.probing ≡ true
    → (granted c ts ≡ 0) × (allow_all c ts ≡ c)
unfolding granted allow_all
probing_refuses c [] s p = (refl, refl)
probing_refuses c (t ∷ ts) s p = ground (arith, allow_probing c t s p, probing_refuses c ts s p)

allow_open :
    (c : CircuitBreaker) (t : ℕ)
    → c.state ≡ open_circuit
    → ((elapsed c t ≡ true)
        × ((allow c t).1 ≡ true)
        × ((allow c t).0.state ≡ half_open)
        × ((allow c t).0.probing ≡ true))
      ⊎ ((elapsed c t ≡ false) × ((allow c t).1 ≡ false) × ((allow c t).0 ≡ c))
unfolding allow
allow_open c t s = ground arith

-- Some instant of the row is past the cooldown.
unfoldable pub any_elapsed : CircuitBreaker → List ℕ → Bool
any_elapsed c [] = false
any_elapsed c (t ∷ ts) = if elapsed c t then true else any_elapsed c ts

-- An open breaker grants exactly one of the callers that ask before a result is recorded if one of
-- them asks past the cooldown, and none otherwise.
pub open_grants_one :
    (c : CircuitBreaker) (ts : List ℕ)
    → c.state ≡ open_circuit
    → granted c ts ≡ (if any_elapsed c ts then 1 else 0)
unfolding granted any_elapsed
open_grants_one c [] s = refl
open_grants_one c (t ∷ ts) s = elim (allow_open c t s) [
  | inl (e, g, h, p) ↦ ground (arith, probing_refuses (allow c t).0 ts h p)
  | inr (e, g, u) ↦ ground (arith, open_grants_one c ts s)
]
