-- ===== src/Nntp/Failover/Endpoints.antt =====
-- SetEndpoints of internal/nntp/failover.go.
use nzb_indexer.Base.{
  ℕ, ◌≡◌, Option, none, some, arith, List, [], ◌∷◌, ℤ, refl, inl, inr, Option-cases, Bool-cases,
  map, ◌≤ℤ◌, ltbℤ,
}
use nzb_indexer.Nntp.Failover.{
  Endpoint, EndpointConfig, FailoverPool, FailoverOptions, sort_by_priority, insert_by_priority,
  existing, adopt, set_endpoints,
}

abbrev pub AllFrom : ℤ → List EndpointConfig → Type 0
AllFrom p [] = Unit
AllFrom p (c ∷ cs) = (p ≤ℤ c.priority) × AllFrom p cs

-- Lower priorities first.
abbrev pub IsSorted : List EndpointConfig → Type 0
IsSorted [] = Unit
IsSorted (c ∷ cs) = AllFrom c.priority cs × IsSorted cs

AllFrom-trans : (p q : ℤ) (cs : List EndpointConfig) → p ≤ℤ q → AllFrom q cs → AllFrom p cs
AllFrom-trans p q [] h v = tt
AllFrom-trans p q (c ∷ cs) h v = (omega arith, AllFrom-trans p q cs h v.1)

insert-AllFrom :
    (p : ℤ) (c : EndpointConfig) (cs : List EndpointConfig)
    → p ≤ℤ c.priority
    → AllFrom p cs
    → AllFrom p (insert_by_priority c cs)
unfolding insert_by_priority
insert-AllFrom p c [] h v = (h, tt)
insert-AllFrom p c (d ∷ ds) h v = elim (Bool-cases (ltbℤ d.priority c.priority)) [
  | inl e ↦ rw e (v.0, insert-AllFrom p c ds h v.1)
  | inr e ↦ rw e (h, v)
]

insert-IsSorted :
    (c : EndpointConfig) (cs : List EndpointConfig)
    → IsSorted cs
    → IsSorted (insert_by_priority c cs)
unfolding insert_by_priority
insert-IsSorted c [] v = (tt, tt)
insert-IsSorted c (d ∷ ds) v = elim (Bool-cases (ltbℤ d.priority c.priority)) [
  | inl e ↦ rw e (insert-AllFrom d.priority c ds (ground arith) v.0, insert-IsSorted c ds v.1)
  | inr e ↦
      let le : c.priority ≤ℤ d.priority = ground arith in
      rw e ((le, AllFrom-trans c.priority d.priority ds le v.0), v)
]

pub sort-IsSorted : (cs : List EndpointConfig) → IsSorted (sort_by_priority cs)
unfolding sort_by_priority
sort-IsSorted [] = tt
sort-IsSorted (c ∷ cs) = insert-IsSorted c (sort_by_priority cs) (sort-IsSorted cs)

adopt_cfg :
    (opts : FailoverOptions) (c : EndpointConfig) (o : Option Endpoint) → (adopt opts c o).cfg ≡ c
unfolding adopt
adopt_cfg opts c none = refl
adopt_cfg opts c (some e) = refl

cfgs_of :
    (opts : FailoverOptions) (old : List Endpoint) (cs : List EndpointConfig)
    → map (λ (e : Endpoint). e.cfg) (map (λ c. adopt opts c (existing c.id old)) cs) ≡ cs
cfgs_of opts old [] = refl
cfgs_of opts old (c ∷ cs) = cc (adopt_cfg opts c (existing c.id old), cfgs_of opts old cs)

adopt_breaker :
    (opts : FailoverOptions) (c : EndpointConfig) (o : Option Endpoint) (e : Endpoint)
    → o ≡ some e
    → (adopt opts c o).breaker ≡ e.breaker
unfolding adopt
adopt_breaker opts c o e h = ground arith

kept_breaker :
    (opts : FailoverOptions) (old : List Endpoint) (cs : List EndpointConfig) (id : ℕ)
    (e : Endpoint) {e' : Endpoint}
    → existing id old ≡ some e
    → existing id (map (λ c. adopt opts c (existing c.id old)) cs) ≡ some e'
    → e'.breaker ≡ e.breaker
unfolding existing
kept_breaker opts old [] id e was now = cc
kept_breaker opts old (c ∷ cs) id e {e'} was now =
    let fresh = map (λ d. adopt opts d (existing d.id old)) cs in
    elim (Option-cases (existing id fresh)) [
      | inr (x, f) ↦ kept_breaker opts old cs id e {e' = e'} was (ground arith)
      | inl f ↦
          ground (
            arith,
            adopt_cfg opts c (existing c.id old),
            adopt_breaker opts c (existing c.id old) e,
          )
    ]

-- Replacing the servers orders them by priority, keeps exactly the given configurations, and lets a
-- server whose id was there before keep its breaker.
pub set_endpoints_orders :
    (fp : FailoverPool) (cfgs : List EndpointConfig)
    → let eps = (set_endpoints fp cfgs).0.endpoints in
      IsSorted (map (λ (e : Endpoint). e.cfg) eps)
      × (map (λ (e : Endpoint). e.cfg) eps ≡ sort_by_priority cfgs)
      × ((id : ℕ) (e e' : Endpoint)
          → existing id fp.endpoints ≡ some e
          → existing id eps ≡ some e'
          → e'.breaker ≡ e.breaker)
unfolding set_endpoints
set_endpoints_orders fp cfgs =
    let same = cfgs_of fp.opts fp.endpoints (sort_by_priority cfgs) in
    (
      rw same (sort-IsSorted cfgs),
      same,
      λ id e e'. kept_breaker fp.opts fp.endpoints (sort_by_priority cfgs) id e,
    )
