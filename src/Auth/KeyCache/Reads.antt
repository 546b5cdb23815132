-- ===== src/Auth/KeyCache/Reads.antt =====
-- What a lookup in the cache of internal/auth/apikeycache.go can answer.
use Prim.Native.String.{String}
use text.Mathlib.TextPositions.{eq_refl}
use nzb_indexer.Base.{
  ℕ, ◌+◌, ◌≤◌, ◌<◌, ◌≡◌, ◌↔◌, refl, true, false, Option, none, some, ltb, arith, if◌then◌else◌,
  Bool-cases, Option-cases, inl, inr, ◌∙◌,
}
use nzb_indexer.Base.Dict.{lookup, lookup-insert, lookup-remove}
use nzb_indexer.Auth.KeyCache.{
  ApiKeyCache, Entry, get, put, should_touch, invalidate, get_entry, touch_entry, recent,
}

module _ {R : Type 0} where
  -- A lookup hits exactly when an entry is there that has not passed its expiry; it then answers the
  -- stored record and counts a hit, and otherwise counts a miss and drops an expired entry.
  pub get_hits :
      (c : ApiKeyCache R) (key : String) (now : ℕ)
      → ((r : R)
          → ((get c key now).1 ≡ some r) ↔ (
              (e : Entry R) × (lookup key c.entries ≡ some e) × (e.rec ≡ r) × (now ≤ e.expires_at)))
        × ((get c key now).0.hits + (get c key now).0.misses ≡ c.hits + c.misses + 1)
        × ((get c key now).1 ≡ none → lookup key (get c key now).0.entries ≡ none)
  unfolding get get_entry
  get_hits c key now = elim (Option-cases (lookup key c.entries)) [
    | inl m ↦ rw (m, get_entry) (λ r. ground arith, omega arith, λ h. m)
    | inr (e, m) ↦
        let gone = lookup-remove key key c.entries in
        let same = eq_refl key in
        elim (Bool-cases (ltb e.expires_at now)) [
          | inl late ↦
              rw (m, get_entry)
                (rw late (
                  λ r. ((λ h. absurd (ground arith)), (λ x. absurd (ground arith))),
                  omega arith,
                  λ h. gone ∙ rw same,
                ))
          | inr live ↦
              rw (m, get_entry)
                (rw live (
                  λ r. ((λ h. (e, refl, ground arith, ground arith)), (λ x. ground arith)),
                  omega arith,
                  λ h. absurd (ground arith),
                ))
        ]
  ]

  -- A record that was put is found under its key until its time to live has passed, and not later;
  -- an invalidated key is not found.
  pub get-put :
      (c : ApiKeyCache R) (key : String) (r : R) (now first later : ℕ)
      → ((get (put c key r now first) key later).1
          ≡ (if ltb (now + c.ttl) later then none else some r))
        × ((get (invalidate c key) key later).1 ≡ none)
  unfolding get put invalidate
  get-put c key r now first later =
      let same = eq_refl key in
      (
        found (put c key r now first)
            (record { rec = r; expires_at = now + c.ttl; last_touch = none })
            (lookup-insert key key _ _ ∙ rw same),
        missed (invalidate c key) (lookup-remove key key c.entries ∙ rw same),
      )
    where
      found :
          (d : ApiKeyCache R) (e : Entry R)
          → lookup key d.entries ≡ some e
          → (get d key later).1 ≡ (if ltb e.expires_at later then none else some e.rec)
      found d e h = rw (h, get_entry) (ground arith)

      missed : (d : ApiKeyCache R) → lookup key d.entries ≡ none → (get d key later).1 ≡ none
      missed d h = rw (h, get_entry)

  -- After a touch that was granted, another within the interval is refused, if no put, miss or
  -- invalidation of the key comes between.
  pub touch_throttles :
      (c : ApiKeyCache R) (key : String) (now later next final : ℕ) {e : Entry R}
      → lookup key c.entries ≡ some e
      → (should_touch c key now later).1 ≡ true
      → next < later + c.touch_interval
      → (should_touch (should_touch c key now later).0 key next final).1 ≡ false
  unfolding should_touch
  touch_throttles c key now later next final {e} m h near =
      let touched : Entry R = record e { last_touch = some later } in
      let now_there = lookup-insert key key touched c.entries in
      let same = eq_refl key in ground arith

  -- A live entry is answered, and only the counter of hits changes.
  pub get_live :
      (c : ApiKeyCache R) (key : String) (now : ℕ) (e : Entry R)
      → lookup key c.entries ≡ some e
      → now ≤ e.expires_at
      → get c key now ≡ (record c { hits = c.hits + 1 }, some (e.rec))
  unfolding get get_entry
  get_live c key now e m live =
      let fresh : ltb e.expires_at now ≡ false = ground arith in rw (m, get_entry) (rw fresh refl)

  -- A key without an entry misses.
  pub get_absent :
      (c : ApiKeyCache R) (key : String) (now : ℕ)
      → lookup key c.entries ≡ none
      → get c key now ≡ (record c { misses = c.misses + 1 }, none)
  unfolding get get_entry
  get_absent c key now m = rw (m, get_entry) refl

  -- A touch changes no more of an entry than the time of the last one.
  pub should_touch_keeps :
      (c : ApiKeyCache R) (key : String) (now later : ℕ) (e : Entry R)
      → lookup key c.entries ≡ some e
      → (t : Option ℕ) × (lookup key (should_touch c key now later).0.entries
          ≡ some (record e { last_touch = t }))
  unfolding should_touch
  should_touch_keeps c key now later e m =
      elim (Bool-cases (recent (e.last_touch) c.touch_interval now)) [
        | inl near ↦ rw (m, touch_entry) (rw near (e.last_touch, m))
        | inr far ↦
            rw (m, touch_entry)
              (rw far (some later, lookup-insert key key _ _ ∙ rw (eq_refl key) refl))
      ]
