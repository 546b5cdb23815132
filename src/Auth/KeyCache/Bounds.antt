-- ===== src/Auth/KeyCache/Bounds.antt =====
-- The cache of internal/auth/apikeycache.go never outgrows its capacity.
use Prim.Native.String.{String}
use text.Mathlib.TextPositions.{eq_refl}
use nzb_indexer.Base.{
  ℕ, zero, suc, ◌+◌, ◌%◌, ◌≤◌, ◌<◌, ◌≡◌, ◌≢◌, refl, Option, none, some, List, [], ◌∷◌, leb, arith,
  ℤ, length, Bool-cases, inl, inr,
}
use nzb_indexer.Base.Dict.{
  lookup, insert, length-insert, length-insert_old, length-remove, length-remove_old,
}
use nzb_indexer.Auth.KeyCache.{
  ApiKeyCache, Entry, get, put, should_touch, invalidate, invalidate_all, key_at, evict_one,
  make_room, get_entry, touch_entry, new_api_key_cache,
}

module _ {R : Type 0} where
  pub record IsBounded (c : ApiKeyCache R) : Type 0 where
    pub positive : 0 < c.max_entries
    pub bounded : length c.entries ≤ c.max_entries

  pub new-IsBounded :
      (ttl touch max_entries : ℤ) → IsBounded (new_api_key_cache R ttl touch max_entries)
  unfolding new_api_key_cache
  new-IsBounded ttl touch max_entries = ground arith

  key_at_found :
      (m : List (String × Entry R)) (i : ℕ)
      → i < length m
      → (k : String) × (key_at m i ≡ some k) × (lookup k m ≢ none)
  unfolding key_at lookup
  key_at_found [] i h = elim h [ ]
  key_at_found ((k, e) ∷ m) zero h = (k, refl, ground (arith, eq_refl k))
  key_at_found ((k, e) ∷ m) (suc i) h =
      let (j, at, there) = key_at_found m i (omega arith) in (j, at, ground arith)

  -- Evicting from a cache that holds something frees a place.
  evict_one_frees :
      (c : ApiKeyCache R) (first : ℕ)
      → 0 < length c.entries
      → (length (evict_one c first).entries + 1 ≤ length c.entries)
        × ((evict_one c first).max_entries ≡ c.max_entries)
  unfolding evict_one
  evict_one_frees c first h =
      let (k, at, there) = key_at_found c.entries (first % length c.entries) (grind arith) in
      rw at (length-remove_old k c.entries there, refl)

  stored_fits :
      (c : ApiKeyCache R) (key : String) (x : Entry R) (first : ℕ) (o : Option (Entry R))
      → IsBounded c
      → lookup key c.entries ≡ o
      → (length (insert key x (make_room c o first).entries) ≤ c.max_entries)
        × ((make_room c o first).max_entries ≡ c.max_entries)
  unfolding make_room
  stored_fits c key x first (some e) v old =
      (omega (arith, length-insert_old key x c.entries (λ h. ground arith)), refl)
  stored_fits c key x first none v new = elim (Bool-cases (leb c.max_entries (length c.entries))) [
    | inl full ↦
        let (freed, same) = evict_one_frees c first (ground arith) in
        rw full (omega (arith, length-insert key x (evict_one c first).entries), same)
    | inr room ↦ rw room (ground (arith, length-insert key x c.entries), refl)
  ]

  -- A put keeps the number of entries within the capacity, whichever entry is evicted.
  pub put-IsBounded :
      (c : ApiKeyCache R) (key : String) (rec : R) (now first : ℕ)
      → IsBounded c
      → IsBounded (put c key rec now first)
  unfolding put
  put-IsBounded c key rec now first v =
      let (fits, same) =
        stored_fits c key (record { rec = rec; expires_at = now + c.ttl; last_touch = none }) first
          (lookup key c.entries) v refl in
      record { positive = omega arith; bounded = omega arith }

  get_entry-IsBounded :
      (c : ApiKeyCache R) (key : String) (o : Option (Entry R)) (now : ℕ)
      → IsBounded c
      → IsBounded (get_entry c key o now).0
  unfolding get_entry
  get_entry-IsBounded c key none now v = ground arith
  get_entry-IsBounded c key (some e) now v = ground (arith, length-remove key c.entries)

  touch_entry-IsBounded :
      (c : ApiKeyCache R) (key : String) (o : Option (Entry R)) (now later : ℕ)
      → lookup key c.entries ≡ o
      → IsBounded c
      → IsBounded (touch_entry c key o now later).0
  unfolding touch_entry
  touch_entry-IsBounded c key none now later h v = v
  touch_entry-IsBounded c key (some e) now later h v = ground (
    arith,
    length-insert_old key (record e { last_touch = some later }) c.entries (λ x. ground arith),
  )

  -- Lookups, touches and invalidations keep the number of entries within the capacity.
  pub others-IsBounded :
      (c : ApiKeyCache R) (key : String) (now later : ℕ)
      → IsBounded c
      → IsBounded (get c key now).0
        × IsBounded (should_touch c key now later).0
        × IsBounded (invalidate c key)
        × IsBounded (invalidate_all c)
  unfolding get should_touch invalidate invalidate_all
  others-IsBounded c key now later v = (
    get_entry-IsBounded c key (lookup key c.entries) now v,
    touch_entry-IsBounded c key (lookup key c.entries) now later refl v,
    record { positive = v.positive; bounded = omega (arith, length-remove key c.entries) },
    record { positive = v.positive; bounded = omega arith },
  )
