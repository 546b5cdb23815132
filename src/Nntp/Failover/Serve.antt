-- ===== src/Nntp/Failover/Serve.antt =====
-- The loop of `run` of internal/nntp/failover.go against a plain recursion over the servers in the
-- order in which they are tried.
use mathlib.Core.List.{append_assoc}
use nzb_indexer.Base.{
  ℕ, suc, ◌+◌, ◌%◌, ◌≡◌, false, Bool, Option, none, some, arith, List, [], ◌∷◌, ◌++◌, length, refl,
  ◌⊎◌, inl, inr, Option-cases, get_elem?, set, length-append, ◌∙◌, ap,
}
use nzb_indexer.Nntp.Errors.{Error}
use nzb_indexer.Nntp.Failover.{
  Endpoint, FailoverPool, Attempts, Next, return, continue, visit, run_from, run, exhausted,
}

-- The servers tried in order, from attempt `i`: those after a return are left alone.
unfoldable pub serve :
    Attempts → ℕ → List Endpoint → Bool → Option Error → List Endpoint × Option Error
serve env i [] attempted last = ([], exhausted attempted last)
serve env i (e ∷ es) attempted last =
    let (e', next) = visit env i e attempted last in
    elim (env.ended i) [
      | some err ↦ (e ∷ es, some err)
      | none ↦ elim next [
        | return r ↦ (e' ∷ es, r)
        | continue attempted' last' ↦
            let (rest, r) = serve env (suc i) es attempted' last' in (e' ∷ rest, r)
      ]
    ]

pub Next-cases :
    (n : Next)
    → ((r : Option Error) × (n ≡ return r)) ⊎ ((a : Bool) × (l : Option Error) × (n ≡ continue a l))
Next-cases (return r) = inl (r, refl)
Next-cases (continue a l) = inr (a, l, refl)

get_elem?-append_here {ℓ} :
    {A : Type ℓ} (xs : List A) (y : A) (ys : List A) → get_elem? (xs ++ y ∷ ys) (length xs) ≡ some y
get_elem?-append_here [] y ys = refl
get_elem?-append_here (x ∷ xs) y ys = get_elem?-append_here xs y ys

set-append_here {ℓ} :
    {A : Type ℓ} (xs : List A) (y z : A) (ys : List A)
    → set (xs ++ y ∷ ys) (length xs) z ≡ xs ++ z ∷ ys
set-append_here [] y z ys = refl
set-append_here (x ∷ xs) y z ys = ap (◌∷◌ x) (set-append_here xs y z ys)

-- The loop from the first server: `xs` have been tried, `ys` are left.
module _ (env : Attempts) where
  at_index :
      (k : ℕ) (xs : List Endpoint) (y : Endpoint) (ys : List Endpoint)
      → k ≡ length xs
      → k % length (xs ++ y ∷ ys) ≡ length xs
  at_index k xs y ys e = let l = length-append xs (y ∷ ys) in grind arith

  grown :
      {i : ℕ} (xs : List Endpoint) (y : Endpoint) → i ≡ length xs → suc i ≡ length (xs ++ y ∷ [])
  grown xs y h = let l = length-append xs (y ∷ []) in omega arith

  run_from-serve :
      (i : ℕ) (xs ys : List Endpoint) (attempted : Bool) (last : Option Error)
      → i ≡ length xs
      → run_from env 0 (length ys) i (xs ++ ys) attempted last
        ≡ (let (rest, r) = serve env i ys attempted last in some (xs ++ rest, r))
  unfolding run_from serve
  run_from-serve i xs [] attempted last h = refl
  run_from-serve i xs (y ∷ ys) attempted last h =
      let k = at_index (0 + i) xs y ys (omega arith) in
      let here = ap (get_elem? (xs ++ y ∷ ys)) k ∙ get_elem?-append_here xs y ys in
      elim (Option-cases (env.ended i)) [
        | inr (err, e) ↦ rw (here, e, run_from, serve)
        | inl e ↦ elim (Next-cases (visit env i y attempted last).1) [
          | inl (r, f) ↦ rw (here, e, f, run_from, serve) (rw (k, set-append_here))
          | inr (a, l, f) ↦
              let y' = (visit env i y attempted last).0 in
              let ih = run_from-serve (suc i) (xs ++ y' ∷ []) ys a l (grown xs y' h) in
              rw (here, e, f, run_from, serve)
                (rw (k, set-append_here) (rw (append_assoc, append_assoc) at ih))
        ]
      ]

pub run-plain :
    (fp : FailoverPool) (env : Attempts)
    → fp.opts.load_balance ≡ false
    → run fp env
      ≡ some (
        record fp { endpoints = (serve env 0 fp.endpoints false none).0 },
        (serve env 0 fp.endpoints false none).1,
      )
unfolding run serve
run-plain fp env b = go fp.endpoints
  where
    go :
        (eps : List Endpoint)
        → run (record fp { endpoints = eps }) env
          ≡ some (
            record fp { endpoints = (serve env 0 eps false none).0 },
            (serve env 0 eps false none).1,
          )
    go [] = refl
    go (e ∷ es) = ground (arith, run_from-serve env 0 [] (e ∷ es) false none refl)
