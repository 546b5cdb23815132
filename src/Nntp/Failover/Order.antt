-- ===== src/Nntp/Failover/Order.antt =====
-- Which servers `run` of internal/nntp/failover.go reaches, and what it leaves of them.
use nzb_indexer.Base.{
  ℕ, suc, ◌≡◌, false, Bool, Option, none, some, arith, List, [], ◌∷◌, refl, inl, inr, Option-cases,
  Bool-cases, ap, map,
}
use nzb_indexer.Nntp.Errors.{Error, protocol, retention, classify_error}
use nzb_indexer.Nntp.Circuit.{allow}
use nzb_indexer.Nntp.Circuit.Invariant.{
  IsValid, allow-IsValid, record_success-IsValid, record_failure-IsValid,
}
use nzb_indexer.Nntp.Failover.{
  Endpoint, Attempts, continue, visit, exhausted, after_call, after_error,
}
use nzb_indexer.Nntp.Failover.Serve.{serve, Next-cases}

-- The breakers refuse every one of the attempts from `i` on, and the context stays live.
abbrev pub AllRefuse : Attempts → ℕ → List Endpoint → Type 0
AllRefuse env i [] = Unit
AllRefuse env i (e ∷ es) =
    (env.ended i ≡ none)
    × (allow e.breaker (env.asked i) ≡ (e.breaker, false, false))
    × AllRefuse env (suc i) es

visit_refused :
    (env : Attempts) (i : ℕ) (e : Endpoint) (attempted : Bool) (last : Option Error)
    → allow e.breaker (env.asked i) ≡ (e.breaker, false, false)
    → visit env i e attempted last ≡ (e, continue attempted last)
unfolding visit
visit_refused env i e attempted last h = ground arith

-- When every breaker refuses, the caller gets ErrNoHealthyServer (or the last error it already had)
-- and no server, breaker or pool is touched.
pub serve-AllRefuse :
    (env : Attempts) (i : ℕ) (es : List Endpoint) (attempted : Bool) (last : Option Error)
    → AllRefuse env i es
    → serve env i es attempted last ≡ (es, exhausted attempted last)
unfolding serve
serve-AllRefuse env i [] attempted last h = refl
serve-AllRefuse env i (e ∷ es) attempted last h =
    let passed = visit_refused env i e attempted last h.1 in
    rw (h.0, ap (λ r. r.1) passed, serve)
      (rw (ap (λ r. r.0) passed, serve-AllRefuse env (suc i) es attempted last h.2))

-- Every breaker is valid, and the servers keep their number, order and configuration.
abbrev pub AllValid : List Endpoint → Type 0
AllValid [] = Unit
AllValid (e ∷ es) = IsValid e.breaker × AllValid es

after_call-keeps :
    (e : Endpoint) (r : Option Error) (now : ℕ)
    → IsValid e.breaker
    → IsValid (after_call e r now).0.breaker × ((after_call e r now).0.cfg ≡ e.cfg)
unfolding after_call
after_call-keeps e none now v = (record_success-IsValid e.breaker v, refl)
after_call-keeps e (some err) now v = go (classify_error (some err))
  where
    go :
        (k : _)
        → IsValid (after_error k e err now).0.breaker × ((after_error k e err now).0.cfg ≡ e.cfg)
    go protocol = (record_success-IsValid e.breaker v, refl)
    go retention = (record_success-IsValid e.breaker v, refl)
    go _ = (record_failure-IsValid e.breaker (some err) now v, refl)

visit-keeps :
    (env : Attempts) (i : ℕ) (e : Endpoint) (attempted : Bool) (last : Option Error)
    → IsValid e.breaker
    → IsValid (visit env i e attempted last).0.breaker
      × ((visit env i e attempted last).0.cfg ≡ e.cfg)
unfolding visit
visit-keeps env i e attempted last v = elim (Bool-cases (allow e.breaker (env.asked i)).1) [
  | inl yes_allowed ↦ rw yes_allowed (
      after_call-keeps
        (record e { pool = (env.call i e.pool).0; breaker = (allow e.breaker (env.asked i)).0 })
        (env.call i e.pool).1 (env.failed_at i) (allow-IsValid e.breaker (env.asked i) v))
  | inr refused ↦ rw refused (allow-IsValid e.breaker (env.asked i) v, refl)
]

same {ℓ} : {A : Type ℓ} {x y : A} {xs ys : List A} → x ≡ y → xs ≡ ys → (x ∷ xs) ≡ (y ∷ ys)
same p q = cc

-- Whatever the servers answer, `run` keeps the servers' number, order and configuration, and every
-- breaker in a valid state.
pub serve-keeps :
    (env : Attempts) (i : ℕ) (es : List Endpoint) (attempted : Bool) (last : Option Error)
    → AllValid es
    → AllValid (serve env i es attempted last).0
      × (map (λ (e : Endpoint). e.cfg) (serve env i es attempted last).0
          ≡ map (λ (e : Endpoint). e.cfg) es)
unfolding serve
serve-keeps env i [] attempted last v = (tt, refl)
serve-keeps env i (e ∷ es) attempted last v =
    let kept = visit-keeps env i e attempted last v.0 in
    elim (Option-cases (env.ended i)) [
      | inr (err, x) ↦ rw (x, serve) (v, refl)
      | inl x ↦ elim (Next-cases (visit env i e attempted last).1) [
        | inl (r, f) ↦ rw (x, f, serve) ((kept.0, v.1), same kept.1 refl)
        | inr (a, l, f) ↦
            let ih = serve-keeps env (suc i) es a l v.1 in
            rw (x, f, serve) ((kept.0, ih.0), same kept.1 ih.1)
      ]
    ]
