-- ===== src/Logbuf.antt =====
-- internal/logbuf/logbuf.go: the ring of recent log entries, its reader, and the live subscribers.
mod Ring
mod Recent
mod Subscribers
mod Tests
use Prim.Native.String.{String}
use text.Mathlib.Text.{starts_with}
use nzb_indexer.Base.{
  ℕ, zero, suc, ◌+◌, ◌%◌, Bool, true, false, ◌&&◌, Option, none, some, List, [], ◌∷◌, ◌++◌, ◌==◌,
  ltb, leb, length, set, take, drop, replicate, if◌then◌else◌, ℤ, pos, negsuc, ltbℤ, lebℤ, pos_part,
  positive_or,
}
use mathlib.Core.List.{reverse}

-- The attributes are left to the handler; the ring does not read them.
pub record Entry : Type 0 where
  pub time : ℕ
  pub level : String
  pub message : String
  pub attrs : List (String × String)

abbrev pub no_entry : Entry
no_entry = record { time = 0; level = ""; message = ""; attrs = [] }

-- A subscriber is its number and what is queued in its channel, oldest first.
pub record Buffer : Type 0 where
  pub entries : List Entry
  pub next : ℕ
  pub full : Bool
  pub cap : ℕ
  pub subs : List (ℕ × List Entry)
  pub sub_id : ℕ

unfoldable pub new_buffer : ℤ → Buffer
new_buffer capacity =
    let cap = positive_or 1000 capacity in
    record {
      entries = replicate cap no_entry;
      next = 0;
      full = false;
      cap = cap;
      subs = [];
      sub_id = 0;
    }

-- The room of a subscriber's channel.
abbrev pub channel_size : ℕ
channel_size = 256

-- A send that does not block: what does not fit is dropped.
abbrev pub offer : List Entry → Entry → List Entry
offer queue e = if ltb (length queue) channel_size then queue ++ (e ∷ []) else queue

abbrev pub publish : List (ℕ × List Entry) → Entry → List (ℕ × List Entry)
publish [] e = []
publish ((id, queue) ∷ subs) e = (id, offer queue e) ∷ publish subs e

unfoldable pub add : Buffer → Entry → Buffer
add b e =
    let next = (b.next + 1) % b.cap in
    record b {
      entries = set b.entries b.next e;
      next = next;
      full = if next == 0 then true else b.full;
      subs = publish b.subs e;
    }

-- The new subscriber's number, which stands for its channel and its cancel function.
unfoldable pub subscribe : Buffer → ℕ × Buffer
subscribe b = (b.sub_id, record b { subs = (b.sub_id, []) ∷ b.subs; sub_id = b.sub_id + 1 })

abbrev pub unsubscribe : List (ℕ × List Entry) → ℕ → List (ℕ × List Entry)
unsubscribe [] id = []
unsubscribe ((j, queue) ∷ subs) id =
    if j == id then unsubscribe subs id else (j, queue) ∷ unsubscribe subs id

unfoldable pub cancel : Buffer → ℕ → Buffer
cancel b id = record b { subs = unsubscribe b.subs id }

-- slog's levels: DEBUG is -4, INFO 0, WARN 4 and ERROR 8.
unfoldable pub level_value : String → ℤ
level_value s =
    if starts_with s "DEBUG"
    then negsuc 3
    else if starts_with s "WARN"
    then pos 4
    else if starts_with s "ERROR"
    then pos 8
    else pos 0

-- The entries, oldest first.
unfoldable pub ordered : Buffer → List Entry
ordered b = if b.full then drop b.next b.entries ++ take b.next b.entries else take b.next b.entries

-- `minLevel != nil && levelValue(e.Level) < int(*minLevel)`
abbrev pub too_low : Option ℤ → Entry → Bool
too_low none e = false
too_low (some min_level) e = ltbℤ (level_value e.level) min_level

-- The walk over what is left of the entries, newest first, with `n` of them put out.
unfoldable pub walk : ℤ → Option ℤ → ℕ → List Entry → List Entry
walk limit min_level n [] = []
walk limit min_level n (e ∷ es) =
    let more = walk limit min_level (n + 1) es in
    if too_low min_level e
    then walk limit min_level n es
    else if ltbℤ (pos 0) limit && lebℤ limit (pos (n + 1))
    then e ∷ []
    else e ∷ more

unfoldable pub recent : Buffer → ℤ → Option ℤ → List Entry
recent b limit min_level = walk limit min_level 0 (reverse (ordered b))
