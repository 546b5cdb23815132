-- ===== src/Auth/Service/Revoke.antt =====
-- Whom internal/auth/service.go lets through, and what a revoked key meets.
use Prim.Native.String.{String}
use text.Mathlib.Text.{◌==◌ as str_eq}
use text.Mathlib.TextPositions.{eq_refl}
use nzb_indexer.Base.{
  ◌≡◌, refl, true, false, Option, none, some, arith, Bool-cases, inl, inr, ◌∙◌, ◌↔◌, ◌⊎◌,
}
use mathlib.Core.Path.{subst, sym}
use mathlib.Core.Option.{some-injective}
use nzb_indexer.Base.Dict.{lookup, lookup-remove}
use nzb_indexer.Auth.KeyCache.{ApiKeyCache, get, put, invalidate}
use nzb_indexer.Auth.KeyCache.Reads.{get_absent}
use nzb_indexer.Auth.RateLimit.{Answer}
use nzb_indexer.Auth.Service.{
  ApiKeyUser, Principal, Repo, Crypto, Service, Instants, authorized, unauthorized, limit_of,
  allow_with, principal_of, with_record, after_read, after_get, authenticate_api_key,
  invalidate_api_key,
}

module _ {S : Type 0} (repo : Repo S) (crypto : Crypto) where
  -- Once a key is dropped from the cache and the store no longer knows it, requests with it are
  -- refused, one after another: the refusal is not cached, and costs no permission of the limiter.
  pub revoked :
      (svc : Service) (key : String) (at : Instants) (s : S)
      → str_eq key "" ≡ false
      → (repo.get_api_key_with_user key s).0 ≡ none
      → let call = authenticate_api_key repo crypto (invalidate_api_key svc key) key at s in
        (call.outcome ≡ unauthorized)
        × (call.service.limiter ≡ svc.limiter)
        × (call.world ≡ (repo.get_api_key_with_user key s).1)
        × (lookup key call.service.key_cache.entries ≡ none)
  unfolding authenticate_api_key invalidate_api_key invalidate
  revoked svc key at s named gone =
      let absent = lookup-remove key key svc.key_cache.entries ∙ rw (eq_refl key) refl in
      let missed = get_absent (invalidate svc.key_cache key) key at.looked_up absent in
      rw (named, missed, gone) (refl, refl, refl, absent)

  -- The record that a request is about: the cache's, or the store's if the cache has none.
  abbrev pub Resolves : Service → String → Instants → S → ApiKeyUser → Type 0
  Resolves svc key at s rec =
      ((get svc.key_cache key at.looked_up).1 ≡ some rec)
      ⊎ (((get svc.key_cache key at.looked_up).1 ≡ none)
          × ((repo.get_api_key_with_user key s).0 ≡ some rec))

  -- What the limiter answers for a record's key.
  abbrev pub answer_for : Service → Instants → ApiKeyUser → Answer
  answer_for svc at rec =
      (allow_with svc.limiter (crypto.format_int (rec.key.id)) (limit_of svc rec) at.limited).1

  abbrev Permits : Service → Instants → Principal → ApiKeyUser → Type 0
  Permits svc at p rec =
      ((answer_for svc at rec).allowed ≡ true)
      × (p ≡ principal_of rec (limit_of svc rec) (answer_for svc at rec))

  with_record_accepts :
      (svc : Service) (key : String) (rec : ApiKeyUser) (at : Instants) (s : S) (p : Principal)
      → ((with_record repo crypto svc key rec at s).outcome ≡ authorized p) ↔ Permits svc at p rec
  unfolding with_record
  with_record_accepts svc key rec at s p = elim (Bool-cases (answer_for svc at rec).allowed) [
    | inl good ↦ rw good ((λ h. ground arith), (λ h. ground arith))
    | inr bad ↦ rw bad ((λ h. absurd (ground arith)), (λ h. absurd (ground arith)))
  ]

  after_read_accepts :
      (svc : Service) (key : String) (at : Instants) (o : Option ApiKeyUser) (s : S) (p : Principal)
      → ((after_read repo crypto svc key at (o, s)).outcome ≡ authorized p)
        ↔ ((rec : ApiKeyUser) × (o ≡ some rec) × Permits svc at p rec)
  after_read_accepts svc key at none s p =
      ((λ h. absurd (ground arith)), (λ h. absurd (ground arith)))
  after_read_accepts svc key at (some rec) s p =
      let (there, back) =
        with_record_accepts
          (record svc { key_cache = put svc.key_cache key rec at.stored at.first }) key rec at s
          p in
      (
        (λ h. (rec, refl, there h)),
        (λ (other, same, ok). back (subst (Permits svc at p) (sym (some-injective _ _ same)) ok)),
      )

  after_get_accepts :
      (svc : Service) (key : String) (at : Instants) (c : ApiKeyCache ApiKeyUser)
      (o : Option ApiKeyUser) (s : S) (p : Principal)
      → ((after_get repo crypto svc key at (c, o) s).outcome ≡ authorized p) ↔ (
          (rec : ApiKeyUser) × ((o ≡ some rec)
            ⊎ ((o ≡ none) × ((repo.get_api_key_with_user key s).0 ≡ some rec)))
          × Permits svc at p rec)
  after_get_accepts svc key at c (some rec) s p =
      let (there, back) = with_record_accepts (record svc { key_cache = c }) key rec at s p in
      (
        (λ h. (rec, inl refl, there h)),
        (λ (other, known, ok). elim known [
          | inl same ↦ back (subst (Permits svc at p) (sym (some-injective _ _ same)) ok)
          | inr (no_record, same) ↦ absurd (ground arith)
        ]),
      )
  after_get_accepts svc key at c none s p =
      let answer = repo.get_api_key_with_user key s in
      let (there, back) =
        after_read_accepts (record svc { key_cache = c }) key at (answer.0) (answer.1) p in
      (
        (λ h. let (rec, same, ok) = there h in (rec, inr (refl, same), ok)),
        (λ (rec, known, ok). elim known [
          | inl same ↦ absurd (ground arith)
          | inr (no_record, same) ↦ back (rec, same, ok)
        ]),
      )

  -- A request is accepted exactly when its key is not empty, the cache or failing that the store has
  -- a record for it, and the limiter permits the record's key under the user's limit; the principal
  -- is then the record's user.
  pub authenticate_accepts :
      (svc : Service) (key : String) (at : Instants) (s : S) (p : Principal)
      → ((authenticate_api_key repo crypto svc key at s).outcome ≡ authorized p) ↔ (
          (str_eq key "" ≡ false)
          × ((rec : ApiKeyUser) × Resolves svc key at s rec × Permits svc at p rec))
  unfolding authenticate_api_key
  authenticate_accepts svc key at s p = elim (Bool-cases (str_eq key "")) [
    | inl empty ↦ rw empty ((λ h. absurd (ground arith)), (λ h. absurd (ground arith)))
    | inr named ↦
        let (there, back) =
          after_get_accepts svc key at (get svc.key_cache key at.looked_up).0
            (get svc.key_cache key at.looked_up).1 s p in
        rw named ((λ h. (refl, there h)), (λ (same, known). back known))
  ]
