-- ===== src/Auth/Service/Budget.antt =====
-- How many requests with one API key internal/auth/service.go lets through.
use Prim.Native.String.{String}
use text.Mathlib.Text.{◌==◌ as str_eq}
use nzb_indexer.Base.{
  ℕ, sym, Option, suc, ◌+◌, ◌-◌, ◌≤◌, ◌<◌, ◌≡◌, refl, false, some, List, [], ◌∷◌, arith,
  if◌then◌else◌, pos, length, map, min, Bool-cases, inl, inr, ◌∙◌, length-map,
}
use nzb_indexer.Base.Dict.{lookup}
use nzb_indexer.Auth.RateLimit.{RateLimiter, current, allow}
use nzb_indexer.Auth.RateLimit.Windows.{granted, window_budget, AllBefore}
use nzb_indexer.Auth.KeyCache.{Entry}
use nzb_indexer.Auth.KeyCache.Reads.{get_live, should_touch_keeps}
use nzb_indexer.Auth.Service.{
  ApiKeyUser, Repo, Crypto, Service, Instants, Outcome, authorized, unauthorized, rate_limited,
  limit_of, with_record, authenticate_api_key,
}

-- The cache answers the record for the key until the instant.
abbrev pub Caches : Service → String → ApiKeyUser → ℕ → Type 0
Caches svc key rec until =
    (x : ℕ) × (t : Option ℕ) × (lookup key svc.key_cache.entries
      ≡ some (record { rec = rec; expires_at = x; last_touch = t }))
    × (until ≤ x)

abbrev pub Earlier : ℕ → List Instants → Type 0
Earlier until [] = Unit
Earlier until (at ∷ ats) = (at.looked_up ≤ until) × Earlier until ats

abbrev pub ok_count : Outcome → ℕ
ok_count (authorized p) = 1
ok_count unauthorized = 0
ok_count (rate_limited reset) = 0

module _ {S : Type 0} (repo : Repo S) (crypto : Crypto) where
  -- How many of the requests with a key, one after another, are let through.
  unfoldable pub authorized_count : Service → String → List Instants → S → ℕ
  authorized_count svc key [] s = 0
  authorized_count svc key (at ∷ ats) s =
      let call = authenticate_api_key repo crypto svc key at s in
      ok_count call.outcome + authorized_count call.service key ats call.world

  -- A request with a cached key takes one permission of the limiter, reads nothing of the store, and
  -- leaves the record in the cache.
  cached_call :
      (svc : Service) (key : String) (rec : ApiKeyUser) (until n : ℕ) (r : RateLimiter)
      (at : Instants) (s : S)
      → str_eq key "" ≡ false
      → Caches svc key rec until
      → at.looked_up ≤ until
      → svc.limiter ≡ some r
      → limit_of svc rec ≡ pos n
      → let a = allow r (crypto.format_int (rec.key.id)) (pos n) at.limited in
        let call = authenticate_api_key repo crypto svc key at s in
        (ok_count call.outcome ≡ (if a.1.allowed then 1 else 0))
        × (call.service.limiter ≡ some (a.0))
        × (call.service.default_rate_limit ≡ svc.default_rate_limit)
        × Caches call.service key rec until
  unfolding authenticate_api_key with_record
  cached_call svc key rec until n r at s named (x, t, m, later) live has_limiter has_limit =
      let e : Entry ApiKeyUser = record { rec = rec; expires_at = x; last_touch = t } in
      let hit = get_live svc.key_cache key at.looked_up e m (omega arith) in
      let (u, found) =
        should_touch_keeps (record svc.key_cache { hits = svc.key_cache.hits + 1 }) key at.tested
          at.touched e m in
      elim (Bool-cases (allow r (crypto.format_int (rec.key.id)) (pos n) at.limited).1.allowed) [
        | inl good ↦
            rw (named, hit, has_limiter, has_limit, good) (refl, refl, refl, (x, u, found, later))
        | inr bad ↦
            rw (named, hit, has_limiter, has_limit, bad) (refl, refl, refl, (x, t, m, later))
      ]

  authorized_count-granted :
      (svc : Service) (key : String) (rec : ApiKeyUser) (until n : ℕ) (r : RateLimiter)
      (ats : List Instants) (s : S)
      → str_eq key "" ≡ false
      → Caches svc key rec until
      → Earlier until ats
      → svc.limiter ≡ some r
      → limit_of svc rec ≡ pos n
      → authorized_count svc key ats s
        ≡ granted r (crypto.format_int (rec.key.id)) n (map (λ at. at.limited) ats)
  unfolding authorized_count granted
  authorized_count-granted svc key rec until n r [] s named c b has_limiter has_limit = refl
  authorized_count-granted svc key rec until n r (at ∷ ats) s named c b has_limiter has_limit =
      let (counts, limiter, default, caches) =
        cached_call svc key rec until n r at s named c (b.0) has_limiter has_limit in
      let call = authenticate_api_key repo crypto svc key at s in
      let next : limit_of call.service rec ≡ pos n = rw default has_limit in
      rw
        (
          counts,
          authorized_count-granted call.service key rec until n _ ats call.world named caches (b.1)
              limiter next,
        )
        refl

  -- Of the requests with a cached key of a limited user, all before the cache forgets the key and the
  -- current window of the limiter resets, exactly as many are let through as the window has left,
  -- whatever the store would answer.
  pub key_budget :
      (svc : Service) (key : String) (rec : ApiKeyUser) (until n : ℕ) (r : RateLimiter)
      (at : Instants) (ats : List Instants) (s : S)
      → str_eq key "" ≡ false
      → Caches svc key rec until
      → Earlier until (at ∷ ats)
      → svc.limiter ≡ some r
      → limit_of svc rec ≡ pos n
      → 0 < n
      → let w = current r (lookup (crypto.format_int (rec.key.id)) r.windows) at.limited in
        AllBefore w.reset (map (λ at. at.limited) ats)
        → authorized_count svc key (at ∷ ats) s ≡ min (suc (length ats)) (n - w.count)
  key_budget svc key rec until n r at ats s named c b has_limiter has_limit p before =
      authorized_count-granted svc key rec until n r (at ∷ ats) s named c b has_limiter has_limit
      ∙ rw (sym (length-map ats (λ at. at.limited))) (
          window_budget r (crypto.format_int (rec.key.id)) n at.limited (map (λ at. at.limited) ats)
            p before)
