-- ===== src/Auth/KeyCache/Tests.antt =====
-- Runs of the cache, and the theorems at a cache of one entry that lives 100 ns.
use nzb_indexer.Base.{ℕ, ◌≡◌, refl, none, some, pos}
use nzb_indexer.Base.Dict.{lookup, insert, remove}
use nzb_indexer.Auth.KeyCache.{
  ApiKeyCache, new_api_key_cache, get, put, evict_one, should_touch, invalidate, invalidate_all,
}

abbrev fresh : ApiKeyCache ℕ
fresh = new_api_key_cache ℕ (pos 100) (pos 50) (pos 1)

abbrev one_key : ApiKeyCache ℕ
one_key = put fresh "a" 7 10 0

program : Unit {0}
unfolding new_api_key_cache get put evict_one should_touch invalidate invalidate_all lookup insert
    remove
program = tt

evicts : ((put one_key "b" 8 20 0).evictions ≡ 1) × ((get (put one_key "b" 8 20 0) "a" 21).1 ≡ none)
unfolding program
evicts = (refl, refl)

expires : ((get one_key "a" 110).1 ≡ some 7) × ((get one_key "a" 111).1 ≡ none)
unfolding program
expires = (refl, refl)
