-- ===== src/Notify.antt =====
-- internal/notify/notify.go: events are queued, filtered, deduplicated and delivered with retries. The
-- network and the stop signal are a world; the clock's readings are arguments, except in a delivery,
-- where the world tells them.
mod Dedup
mod Deliver
mod Tests
use Prim.Native.String.{String}
use text.Mathlib.Text.{◌==◌ as str_eq}
use nzb_indexer.Base.{
  ℕ, zero, suc, ◌+◌, ◌-◌, ◌*◌, ◌^◌, Bool, true, false, ◌&&◌, ◌||◌, Option, none, some, List, [],
  ◌∷◌, ◌++◌, length, ltb, leb, ◌==◌, if◌then◌else◌, ℤ, pos, pos_part, ltbℤ, lebℤ, int64,
  positive_or,
}
use nzb_indexer.Base.Dict.{lookup, insert}
use nzb_indexer.Base.History.{push_bounded, walk_back}

pub data EventType : Type 0 where
  release_created release_renamed scan_failed scan_lag post_process_failed : EventType
  provider_failover storage_warning retention_completed backup_outcome : EventType
  job_completed job_failed : EventType

abbrev code : EventType → ℕ
code release_created = 0
code release_renamed = 1
code scan_failed = 2
code scan_lag = 3
code post_process_failed = 4
code provider_failover = 5
code storage_warning = 6
code retention_completed = 7
code backup_outcome = 8
code job_completed = 9
code job_failed = 10

-- `time` is `none` for the zero time.
pub record Event : Type 0 where
  pub id : String
  pub event_type : EventType
  pub title : String
  pub message : String
  pub time : Option ℕ

pub record Destination : Type 0 where
  pub name : String
  pub url : String
  pub secret : String
  pub events : List EventType
  pub enabled : Bool

unfoldable pub has_type : EventType → List EventType → Bool
has_type t [] = false
has_type t (e ∷ es) = (code e == code t) || has_type t es

abbrev filters : List EventType → EventType → Bool
filters [] t = true
filters (e ∷ es) t = has_type t (e ∷ es)

unfoldable pub wants : Destination → EventType → Bool
unfolding has_type
wants d t = if d.enabled then filters (d.events) t else false

-- The errors that a delivery records.
pub data SendError : Type 0 where
  marshal_failed request_failed shutting_down : SendError
  unexpected_status : ℕ → SendError

pub record Delivery : Type 0 where
  pub event_id : String
  pub destination : String
  pub event_type : EventType
  pub success : Bool
  pub attempts : ℕ
  pub status_code : ℕ
  pub last_error : Option SendError
  pub at : ℕ

pub record Options : Type 0 where
  pub timeout : ℤ
  pub max_attempts : ℤ
  pub base_backoff : ℤ
  pub queue_size : ℤ
  pub workers : ℤ
  pub history_size : ℤ
  pub dedup_window : ℤ

-- The options with their defaults; a window that is not positive disables the deduplication.
pub record Settings : Type 0 where
  pub timeout : ℕ
  pub max_attempts : ℕ
  pub base_backoff : ℕ
  pub queue_size : ℕ
  pub workers : ℕ
  pub history_size : ℕ
  pub dedup_window : ℤ

abbrev window_or_default : ℤ → ℤ
window_or_default (pos zero) = pos 300000000000
window_or_default n = n

unfoldable pub apply_defaults : Options → Settings
apply_defaults o = record {
  timeout = positive_or 10000000000 (o.timeout);
  max_attempts = positive_or 3 (o.max_attempts);
  base_backoff = positive_or 500000000 (o.base_backoff);
  queue_size = positive_or 256 (o.queue_size);
  workers = positive_or 2 (o.workers);
  history_size = positive_or 200 (o.history_size);
  dedup_window = window_or_default (o.dedup_window);
}

pub record Service : Type 0 where
  pub dests : List Destination
  pub opts : Settings
  pub queue : List Event
  pub history : List Delivery
  pub seen : List (String × ℕ)

unfoldable pub new_service : List Destination → Options → Service
unfolding apply_defaults
new_service dests opts = record {
  dests = dests;
  opts = apply_defaults opts;
  queue = [];
  history = [];
  seen = [];
}

unfoldable pub any_enabled : List Destination → Bool
any_enabled [] = false
any_enabled (d ∷ ds) = d.enabled || any_enabled ds

abbrev time_or : Option ℕ → ℕ → ℕ
time_or none now = now
time_or (some t) now = t

-- The event with its time and its id; `format` makes one from the type and the time.
abbrev stamped : (EventType → ℕ → String) → Event → ℕ → Event
stamped format e now =
    let t = time_or (e.time) now in
    record e { time = some t; id = if str_eq (e.id) "" then format (e.event_type) t else e.id }

unfoldable pub emit : (EventType → ℕ → String) → Service → Event → ℕ → Service
unfolding any_enabled
emit format s e now =
    if any_enabled s.dests && ltb (length s.queue) s.opts.queue_size
    then record s { queue = s.queue ++ (stamped format e now ∷ []) }
    else s

-- The entries not older than the window.
unfoldable pub drop_stale : ℕ → ℕ → List (String × ℕ) → List (String × ℕ)
drop_stale window now [] = []
drop_stale window now ((k, t) ∷ m) =
    let rest = drop_stale window now m in if ltb window (now - t) then rest else (k, t) ∷ rest

abbrev is_fresh : ℕ → ℕ → Option ℕ → Bool
is_fresh window now none = false
is_fresh window now (some t) = leb (now - t) window

-- Whether the event was seen within the window, and the service with it recorded if not.
unfoldable pub deduped : Service → String → ℕ → Bool × Service
unfolding drop_stale
deduped s id now =
    let window = pos_part (s.opts.dedup_window) in
    let kept = drop_stale window now s.seen in
    if lebℤ (s.opts.dedup_window) (pos 0)
    then (false, s)
    else if is_fresh window now (lookup id kept)
    then (true, record s { seen = kept })
    else (false, record s { seen = insert id now kept })

unfoldable pub record_delivery : Service → Delivery → Service
unfolding push_bounded
record_delivery s d = record s { history = push_bounded s.opts.history_size s.history d }

unfoldable pub history_of : Service → ℤ → List Delivery
unfolding walk_back
history_of s limit =
    let all = length s.history in
    walk_back s.history all
      (if ltbℤ (pos 0) limit && ltb (pos_part limit) all then pos_part limit else all)

-- What a POST gives: the status, or an error.
pub data Sent : Type 0 where
  status : ℕ → Sent
  send_failed : Sent

-- `wait` is whether the stop signal came before the time had passed.
pub record Network (S : Type 0) : Type 0 where
  pub can_marshal : Event → Bool
  pub send : Destination → Event → S → Sent × S
  pub wait : ℤ → S → Bool × S
  pub now : S → ℕ

abbrev pub is_ok : Sent → Bool
is_ok send_failed = false
is_ok (status n) = leb 200 n && ltb n 300

abbrev status_of : Sent → ℕ
status_of send_failed = 0
status_of (status n) = n

abbrev error_of : Sent → SendError
error_of send_failed = request_failed
error_of (status n) = unexpected_status n

module _ {S : Type 0} (net : Network S) where
  abbrev delivered : Destination → Event → Bool → ℕ → ℕ → Option SendError → S → Delivery
  delivered d e success attempts code err s = record {
    event_id = e.id;
    destination = d.name;
    event_type = e.event_type;
    success = success;
    attempts = attempts;
    status_code = code;
    last_error = err;
    at = net.now s;
  }

  -- After the last attempt, or after the stop signal.
  abbrev give_up : ℕ → Destination → Event → Sent → SendError → S → Delivery × S
  give_up max d e r err s = (delivered d e false max (status_of r) (some err) s, s)

  abbrev after_wait : ℕ → Destination → Event → Sent → Bool × S → (S → Delivery × S) → Delivery × S
  after_wait max d e r (true, s) again = give_up max d e r shutting_down s
  after_wait max d e r (false, s) again = again s

  abbrev retry : ℕ → ℕ → ℕ → Destination → Event → Sent → S → (S → Delivery × S) → Delivery × S
  retry base max attempt d e r s again =
      if ltb attempt max
      then after_wait max d e r (net.wait (int64 (base * 2 ^ (attempt - 1))) s) again
      else give_up max d e r (error_of r) s

  abbrev after_send : ℕ → ℕ → ℕ → Destination → Event → Sent × S → (S → Delivery × S) → Delivery × S
  after_send base max attempt d e (r, s) again =
      if is_ok r
      then (delivered d e true attempt (status_of r) none s, s)
      else retry base max attempt d e r s again

  -- The attempts from number `attempt` on, `left` of them.
  unfoldable pub attempts_from : ℕ → ℕ → ℕ → ℕ → Destination → Event → S → Delivery × S
  attempts_from base max zero attempt d e s = give_up max d e send_failed request_failed s
  attempts_from base max (suc left) attempt d e s =
      after_send base max attempt d e (net.send d e s)
        (attempts_from base max left (attempt + 1) d e)

  unfoldable pub deliver : Settings → Destination → Event → S → Delivery × S
  deliver opts d e s =
      if net.can_marshal e
      then attempts_from (opts.base_backoff) (opts.max_attempts) (opts.max_attempts) 1 d e s
      else (delivered d e false 0 0 (some marshal_failed) s, s)

  abbrev deliver_if : Bool → Destination → Event → Service × S → Service × S
  deliver_if false d e (svc, s) = (svc, s)
  deliver_if true d e (svc, s) =
      let (made, t) = deliver svc.opts d e s in (record_delivery svc made, t)

  unfoldable pub deliver_all : List Destination → Event → Service × S → Service × S
  unfolding wants record_delivery
  deliver_all [] e st = st
  deliver_all (d ∷ ds) e st = deliver_all ds e (deliver_if (wants d (e.event_type)) d e st)

  abbrev unless_seen : Event → Bool × Service → S → Service × S
  unless_seen e (true, svc) s = (svc, s)
  unless_seen e (false, svc) s = deliver_all svc.dests e (svc, s)

  unfoldable pub dispatch : Service → Event → S → Service × S
  unfolding deduped
  dispatch svc e s = unless_seen e (deduped svc (e.id) (net.now s)) s

  abbrev dispatch_next : List Event → Service → S → Service × S
  dispatch_next [] svc s = (svc, s)
  dispatch_next (e ∷ es) svc s = dispatch (record svc { queue = es }) e s

  -- A worker's step: the oldest event of the queue.
  unfoldable pub work : Service → S → Service × S
  work svc s = dispatch_next svc.queue svc s
