-- ===== src/Logbuf/Subscribers.antt =====
-- What a live subscriber of internal/logbuf/logbuf.go finds in its channel.
use mathlib.Core.Logic.{◌≢◌}
use nzb_indexer.Base.{
  ℕ, ◌+◌, ◌≤◌, ◌<◌, ◌≡◌, refl, sym, true, false, Option, none, some, List, [], ◌∷◌, ◌++◌, ◌==◌, ltb,
  length, take, if◌then◌else◌, arith, inl, inr, Bool-cases, take-all, length-take, take-append,
  length-append, append_assoc, append-nil,
}
use nzb_indexer.Logbuf.{
  Entry, Buffer, add, subscribe, cancel, publish, offer, unsubscribe, channel_size,
}
use nzb_indexer.Logbuf.Recent.{add_all}

-- The queue of a subscriber, if it is registered.
abbrev pub queue_of : List (ℕ × List Entry) → ℕ → Option (List Entry)
queue_of [] id = none
queue_of ((j, queue) ∷ subs) id = if j == id then some queue else queue_of subs id

take-snoc :
    (n : ℕ) (xs : List Entry) (e : Entry)
    → (if ltb (length (take n xs)) n then take n xs ++ (e ∷ []) else take n xs)
      ≡ take n (xs ++ (e ∷ []))
take-snoc n xs e =
    let measured = length-take n xs in
    elim (Bool-cases (ltb (length xs) n)) [
      | inl room ↦
          let short : length xs < n = ground arith in
          let longer = length-append xs (e ∷ []) in
          let taken = take-all n xs (omega arith) in
          rw (taken, room) (sym (take-all n (xs ++ (e ∷ [])) (omega (arith, longer))))
      | inr no_room ↦
          let long : n ≤ length xs = ground arith in
          let filled : ltb (length (take n xs)) n ≡ false = ground (arith, measured) in
          rw filled (sym (take-append n xs (e ∷ []) long))
    ]

offer_lem :
    (seen : List Entry) (e : Entry)
    → offer (take channel_size seen) e ≡ take channel_size (seen ++ (e ∷ []))
offer_lem seen e = take-snoc channel_size seen e

publish-queue_of :
    (subs : List (ℕ × List Entry)) (id : ℕ) (queue : List Entry) (e : Entry)
    → queue_of subs id ≡ some queue
    → queue_of (publish subs e) id ≡ some (offer queue e)
publish-queue_of [] id queue e h = absurd (ground arith)
publish-queue_of ((j, q) ∷ subs) id queue e h = elim (Bool-cases (j == id)) [
  | inl same ↦ let found : q ≡ queue = ground arith in rw (same, found)
  | inr other ↦ rw other (publish-queue_of subs id queue e (rw other at h))
]

add_all-queue_of :
    (b : Buffer) (id : ℕ) (seen es : List Entry)
    → queue_of b.subs id ≡ some (take channel_size seen)
    → queue_of (add_all b es).subs id ≡ some (take channel_size (seen ++ es))
unfolding add_all add
add_all-queue_of b id seen [] h = rw (append-nil seen) h
add_all-queue_of b id seen (e ∷ es) h =
    let now = publish-queue_of b.subs id (take channel_size seen) e h in
    let sent = rw (offer_lem seen e) at now in
    rw (append_assoc seen (e ∷ []) es) at (add_all-queue_of (add b e) id (seen ++ (e ∷ [])) es sent)

-- Entries added after a subscription, none of them received yet, are all in the new subscriber's
-- channel in their order, but for those past its room, which are dropped.
pub subscriber_sees :
    (b : Buffer) (es : List Entry)
    → let (id, b') = subscribe b in queue_of (add_all b' es).subs id ≡ some (take channel_size es)
unfolding subscribe
subscriber_sees b es =
    let self : (b.sub_id == b.sub_id) ≡ true = ground arith in
    add_all-queue_of (record b { subs = (b.sub_id, []) ∷ b.subs; sub_id = b.sub_id + 1 }) b.sub_id
      [] es (rw self)

unsubscribe_gone :
    (subs : List (ℕ × List Entry)) (id : ℕ) → queue_of (unsubscribe subs id) id ≡ none
unsubscribe_gone [] id = refl
unsubscribe_gone ((j, q) ∷ subs) id = elim (Bool-cases (j == id)) [
  | inl same ↦ rw same (unsubscribe_gone subs id)
  | inr other ↦ rw other (rw other (unsubscribe_gone subs id))
]

unsubscribe_again :
    (subs : List (ℕ × List Entry)) (id : ℕ)
    → unsubscribe (unsubscribe subs id) id ≡ unsubscribe subs id
unsubscribe_again [] id = refl
unsubscribe_again ((j, q) ∷ subs) id = elim (Bool-cases (j == id)) [
  | inl same ↦ rw same (unsubscribe_again subs id)
  | inr other ↦ rw other (rw (other, unsubscribe_again subs id))
]

unsubscribe_others :
    (subs : List (ℕ × List Entry)) (id j : ℕ)
    → j ≢ id
    → queue_of (unsubscribe subs id) j ≡ queue_of subs j
unsubscribe_others [] id j h = refl
unsubscribe_others ((i, q) ∷ subs) id j h = elim (Bool-cases (i == id)) [
  | inl same ↦
      let apart : (i == j) ≡ false = ground arith in
      rw (same, apart) (unsubscribe_others subs id j h)
  | inr other ↦ rw (other, unsubscribe_others subs id j h)
]

-- Cancelling a subscription removes it and leaves every other subscriber's channel as it is; doing it
-- again changes nothing.
pub cancel_lem :
    (b : Buffer) (id : ℕ)
    → (queue_of (cancel b id).subs id ≡ none)
      × ((j : ℕ) → j ≢ id → queue_of (cancel b id).subs j ≡ queue_of b.subs j)
      × (cancel (cancel b id) id ≡ cancel b id)
unfolding cancel
cancel_lem b id = (
  unsubscribe_gone b.subs id,
  (λ j h. unsubscribe_others b.subs id j h),
  rw (unsubscribe_again b.subs id),
)
