-- ===== src/Auth/KeyCache.antt =====
-- internal/auth/apikeycache.go: the bounded cache of resolved API keys. A method holds the mutex for
-- its whole body; the clock's readings are arguments, and so is the choice of the entry that Go's
-- map iteration yields first. `R` is the cached record.
mod Bounds
pub mod Reads
mod Tests
use Prim.Native.String.{String}
use nzb_indexer.Base.{
  ℕ, zero, suc, ◌+◌, ◌%◌, Bool, true, false, Option, none, some, List, [], ◌∷◌, length, ltb, leb,
  if◌then◌else◌, ℤ, positive_or,
}
use nzb_indexer.Base.Dict.{lookup, insert, remove}

-- `last_touch` is `none` for the zero time, which lies further back than any interval.
pub record Entry (R : Type 0) : Type 0 where
  pub rec : R
  pub expires_at : ℕ
  pub last_touch : Option ℕ

pub record ApiKeyCache (R : Type 0) : Type 0 where
  pub ttl : ℕ
  pub touch_interval : ℕ
  pub max_entries : ℕ
  pub entries : List (String × Entry R)
  pub hits : ℕ
  pub misses : ℕ
  pub evictions : ℕ

unfoldable pub new_api_key_cache : (R : Type 0) → ℤ → ℤ → ℤ → ApiKeyCache R
new_api_key_cache R ttl touch_interval max_entries = record {
  ttl = positive_or 60000000000 ttl;
  touch_interval = positive_or 60000000000 touch_interval;
  max_entries = positive_or 4096 max_entries;
  entries = [];
  hits = 0;
  misses = 0;
  evictions = 0;
}

pub record Stats : Type 0 where
  pub hits : ℕ
  pub misses : ℕ
  pub evictions : ℕ
  pub size : ℕ

-- `time.Since(lastTouch) < touchInterval`
abbrev recent : Option ℕ → ℕ → ℕ → Bool
recent none interval now = false
recent (some t) interval now = ltb now (t + interval)

module _ {R : Type 0} where
  get_entry : ApiKeyCache R → String → Option (Entry R) → ℕ → ApiKeyCache R × Option R
  get_entry c key none now = (record c { misses = c.misses + 1 }, none)
  get_entry c key (some e) now =
      if ltb e.expires_at now
      then (record c { entries = remove key c.entries; misses = c.misses + 1 }, none)
      else (record c { hits = c.hits + 1 }, some e.rec)

  unfoldable pub get : ApiKeyCache R → String → ℕ → ApiKeyCache R × Option R
  unfolding get_entry
  get c key now = get_entry c key (lookup key c.entries) now

  -- The entry at a position, of those that the iteration may begin with.
  unfoldable pub key_at : List (String × Entry R) → ℕ → Option String
  key_at [] i = none
  key_at ((k, e) ∷ m) zero = some k
  key_at ((k, e) ∷ m) (suc i) = key_at m i

  evict_key : ApiKeyCache R → Option String → ApiKeyCache R
  evict_key c none = c
  evict_key c (some k) = record c { entries = remove k c.entries; evictions = c.evictions + 1 }

  -- The loop that deletes one entry and breaks; `first` is where the iteration starts.
  unfoldable pub evict_one : ApiKeyCache R → ℕ → ApiKeyCache R
  unfolding key_at evict_key
  evict_one c first = evict_key c (key_at c.entries (first % length c.entries))

  make_room : ApiKeyCache R → Option (Entry R) → ℕ → ApiKeyCache R
  make_room c (some e) first = c
  make_room c none first = if leb c.max_entries (length c.entries) then evict_one c first else c

  unfoldable pub put : ApiKeyCache R → String → R → ℕ → ℕ → ApiKeyCache R
  unfolding make_room
  put c key rec now first =
      let d = make_room c (lookup key c.entries) first in
      record d {
        entries =
            insert key (record { rec = rec; expires_at = now + c.ttl; last_touch = none })
              d.entries;
      }

  -- `now` is the reading of the test, `later` that of the write.
  touch_entry : ApiKeyCache R → String → Option (Entry R) → ℕ → ℕ → ApiKeyCache R × Bool
  touch_entry c key none now later = (c, true)
  touch_entry c key (some e) now later =
      if recent e.last_touch c.touch_interval now then (c, false) else (
        record c { entries = insert key (record e { last_touch = some later }) c.entries },
        true,
      )

  unfoldable pub should_touch : ApiKeyCache R → String → ℕ → ℕ → ApiKeyCache R × Bool
  unfolding touch_entry
  should_touch c key now later = touch_entry c key (lookup key c.entries) now later

  unfoldable pub invalidate : ApiKeyCache R → String → ApiKeyCache R
  invalidate c key = record c { entries = remove key c.entries }

  unfoldable pub invalidate_all : ApiKeyCache R → ApiKeyCache R
  invalidate_all c = record c { entries = [] }

  pub stats : ApiKeyCache R → Stats
  stats c = record {
    hits = c.hits;
    misses = c.misses;
    evictions = c.evictions;
    size = length c.entries;
  }
