-- ===== src/Notify/Tests.antt =====
-- A receiver that fails once, and events of one id.
use nzb_indexer.Base.{
  ℕ, zero, suc, ◌≡◌, refl, true, false, some, [], ◌∷◌, arith, length, pos, int64,
}
use nzb_indexer.Base.Dict.{lookup, insert}
use nzb_indexer.Base.History.{push_bounded, walk_back}
use nzb_indexer.Notify.{
  Event, job_failed, Destination, Options, Service, new_service, apply_defaults, emit, any_enabled,
  has_type, wants, drop_stale, deduped, record_delivery, history_of, Sent, status, Network,
  attempts_from, deliver, deliver_all, dispatch, work,
}
use nzb_indexer.Notify.Deliver.{IsSound, deliver-IsSound}
use nzb_indexer.Notify.Dedup.{after_events, deduped_once}

abbrev hook : Destination
hook = record { name = "ops"; url = "u"; secret = ""; events = []; enabled = true }

abbrev event : Event
event = record { id = "e"; event_type = job_failed; title = ""; message = ""; time = some 3 }

abbrev defaults : Options
defaults = record {
  timeout = pos 0;
  max_attempts = pos 0;
  base_backoff = pos 0;
  queue_size = pos 1;
  workers = pos 0;
  history_size = pos 0;
  dedup_window = pos 100;
}

abbrev fresh : Service
fresh = new_service (hook ∷ []) defaults

-- The world is how many more times the receiver fails.
abbrev answer : ℕ → Sent × ℕ
answer zero = (status 204, 0)
answer (suc n) = (status 500, n)

abbrev net : Network ℕ
net = record {
  can_marshal = λ e. true;
  send = λ d e s. answer s;
  wait = λ t s. (false, s);
  now = λ s. 50;
}

program : Unit {0}
unfolding lookup insert push_bounded walk_back new_service apply_defaults emit any_enabled has_type
    wants drop_stale deduped record_delivery history_of attempts_from deliver deliver_all dispatch
    work int64 after_events
program = tt

second_attempt : (deliver net fresh.opts hook event 1).0.attempts ≡ 2
unfolding program
second_attempt = refl

abbrev emitted : Service
emitted = emit (λ t n. "x") fresh event 5

full_queue : length (emit (λ t n. "x") emitted event 6).queue ≡ 1
unfolding program
full_queue = refl

one_delivery : length (history_of (work net emitted 1).0 (pos 0)) ≡ 1
unfolding program
one_delivery = refl

deliver-IsSound_example :
    IsSound net hook event (fresh.opts.base_backoff) 3 1 (deliver net fresh.opts hook event 1).0
unfolding program
deliver-IsSound_example = deliver-IsSound net hook event fresh.opts 1

deduped_once_example :
    (deduped (after_events (deduped fresh "e" 10).1 (("f", 40) ∷ [])) "e" 90).0 ≡ true
unfolding program
deduped_once_example =
    deduped_once fresh "e" (("f", 40) ∷ []) 10 90 refl refl (omega arith, tt) (omega arith)
