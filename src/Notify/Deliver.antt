-- ===== src/Notify/Deliver.antt =====
-- The outcome of a delivery in internal/notify/notify.go.
use nzb_indexer.Base.{
  ℕ, zero, suc, ◌+◌, ◌-◌, ◌*◌, ◌^◌, ◌≤◌, ◌<◌, ◌≡◌, ◌⊎◌, inl, inr, refl, true, false, Bool, arith,
  Bool-cases, ltb, int64, lt→ltb,
}
use nzb_indexer.Notify.{
  Event, Destination, Delivery, Settings, Sent, status, send_failed, Network, is_ok, after_send,
  retry, after_wait, attempts_from, deliver,
}

module _ {S : Type 0} (net : Network S) (d : Destination) (e : Event) where
  -- The attempt with this number is made at `t`: all before it failed, and each was followed by its
  -- wait, without the stop signal.
  pub data Attempt (base : ℕ) (s : S) : ℕ → S → Type 0 where
    the_first : Attempt base s 1 s
    after_failure :
        {attempt : ℕ} {t u v : S} {r : Sent}
        → Attempt base s attempt t
        → net.send d e t ≡ (r, u)
        → is_ok r ≡ false
        → net.wait (int64 (base * 2 ^ (attempt - 1))) u ≡ (false, v)
        → Attempt base s (attempt + 1) v

  -- A record of a delivery is sound if a success has the number and the status of an attempt that had an
  -- answer between 200 and 299, and a failure has all the attempts, or none for an event that could not
  -- be written.
  pub record IsSound (base max : ℕ) (s : S) (made : Delivery) : Type 0 where
    pub succeeded :
        made.success ≡ true
        → (t : S) × (u : S) × Attempt base s (made.attempts) t
          × (net.send d e t ≡ (status (made.status_code), u))
          × (is_ok (status (made.status_code)) ≡ true)
          × (made.attempts ≤ max)
    pub gave_up :
        made.success ≡ false
        → (made.attempts ≡ max) ⊎ ((net.can_marshal e ≡ false) × (made.attempts ≡ 0))

  after_wait-IsSound :
      (base max : ℕ) (o : S) (r : Sent) (waited : Bool × S) (again : S → Delivery × S)
      → ((t : S) → waited ≡ (false, t) → IsSound base max o (again t).0)
      → IsSound base max o (after_wait net max d e r waited again).0
  after_wait-IsSound base max o r (true, s) again ih = record {
    succeeded = λ h. absurd (ground arith);
    gave_up = λ h. inl refl;
  }
  after_wait-IsSound base max o r (false, s) again ih = ih s refl

  retry-IsSound :
      (base max attempt : ℕ) (o : S) (r : Sent) (s : S) (again : S → Delivery × S)
      → ((t : S)
          → net.wait (int64 (base * 2 ^ (attempt - 1))) s ≡ (false, t)
          → attempt < max
          → IsSound base max o (again t).0)
      → IsSound base max o (retry net base max attempt d e r s again).0
  retry-IsSound base max attempt o r s again ih = elim (Bool-cases (ltb attempt max)) [
    | inl more ↦ rw more (
        after_wait-IsSound base max o r (net.wait (int64 (base * 2 ^ (attempt - 1))) s) again
          (λ t waited. ih t waited (ground arith)))
    | inr last ↦
        rw last (record { succeeded = λ h. absurd (ground arith); gave_up = λ h. inl refl })
  ]

  after_send-IsSound :
      (base max attempt : ℕ) (o t : S) (r : Sent) (s : S) (again : S → Delivery × S)
      → net.send d e t ≡ (r, s)
      → Attempt base o attempt t
      → attempt ≤ max
      → ((u : S) → Attempt base o (attempt + 1) u → attempt < max → IsSound base max o (again u).0)
      → IsSound base max o (after_send net base max attempt d e (r, s) again).0
  after_send-IsSound base max attempt o t send_failed s again sent made high ih =
      retry-IsSound base max attempt o send_failed s again
        (λ u waited lt. ih u (after_failure made sent refl waited) lt)
  after_send-IsSound base max attempt o t (status n) s again sent made high ih =
      elim (Bool-cases (is_ok (status n))) [
        | inl good ↦ rw good (record {
          succeeded = λ h. (t, s, made, sent, good, high);
          gave_up = λ h. absurd (ground arith);
        })
        | inr bad ↦ rw bad (
            retry-IsSound base max attempt o (status n) s again
              (λ u waited lt. ih u (after_failure made sent bad waited) lt))
      ]

  attempts_from-IsSound :
      (base max left attempt : ℕ) (o s : S)
      → Attempt base o attempt s
      → left + attempt ≡ suc max
      → IsSound base max o (attempts_from net base max left attempt d e s).0
  unfolding attempts_from
  attempts_from-IsSound base max zero attempt o s made fuel = record {
    succeeded = λ h. absurd (ground arith);
    gave_up = λ h. inl refl;
  }
  attempts_from-IsSound base max (suc left) attempt o s made fuel =
      after_send-IsSound base max attempt o s (net.send d e s).0 (net.send d e s).1
        (attempts_from net base max left (attempt + 1) d e) refl made (omega arith)
        (λ u next lt. attempts_from-IsSound base max left (attempt + 1) o u next (omega arith))

  -- A delivery that is recorded as a success had an answer between 200 and 299, and is recorded with its
  -- status and with the number of the attempt that it answered, every attempt before that having failed
  -- and waited; any other is recorded with all the attempts, or with none if the event could not be
  -- written.
  pub deliver-IsSound :
      (opts : Settings) (s : S)
      → IsSound (opts.base_backoff) (opts.max_attempts) s (deliver net opts d e s).0
  unfolding deliver
  deliver-IsSound opts s = elim (Bool-cases (net.can_marshal e)) [
    | inl fine ↦ rw fine (
        attempts_from-IsSound (opts.base_backoff) (opts.max_attempts) (opts.max_attempts) 1 s s
          the_first (omega arith))
    | inr broken ↦
        rw broken
          (record { succeeded = λ h. absurd (ground arith); gave_up = λ h. inr (broken, refl) })
  ]

  -- The receiver fails `k` times, without the stop signal in the waits, and then answers.
  abbrev pub Recovers : ℕ → ℕ → ℕ → S → Type 0
  Recovers base attempt zero s =
      (code : ℕ) × (u : S) × (net.send d e s ≡ (status code, u)) × (is_ok (status code) ≡ true)
  Recovers base attempt (suc k) s =
      (r : Sent) × (t : S) × (u : S) × (net.send d e s ≡ (r, t))
      × (is_ok r ≡ false)
      × (net.wait (int64 (base * 2 ^ (attempt - 1))) t ≡ (false, u))
      × Recovers base (attempt + 1) k u

  attempts_from-Recovers :
      (base max left attempt k : ℕ) (s : S)
      → k < left
      → left + attempt ≡ suc max
      → Recovers base attempt k s
      → ((attempts_from net base max left attempt d e s).0.success ≡ true)
        × ((attempts_from net base max left attempt d e s).0.attempts ≡ attempt + k)
  unfolding attempts_from
  attempts_from-Recovers base max zero attempt k s lt fuel h = absurd (omega arith)
  attempts_from-Recovers base max (suc left) attempt zero s lt fuel (code, u, sent, ok) =
      rw sent (rw ok (refl, omega arith))
  attempts_from-Recovers base max (suc left) attempt (suc k) s lt fuel
        (r, t, u, sent, bad, waited, rest) =
      let more : ltb attempt max ≡ true = lt→ltb attempt max (omega arith) in
      let (good, count) =
        attempts_from-Recovers base max left (attempt + 1) k u (omega arith) (omega arith) rest in
      rw sent (rw bad (rw more (rw waited (good, omega (arith, count)))))

  -- A receiver that fails fewer times than there are attempts, and then answers, gets the event: the
  -- delivery is recorded as a success of the attempt that was answered.
  pub deliver-Recovers :
      (opts : Settings) (k : ℕ) (s : S)
      → net.can_marshal e ≡ true
      → k < opts.max_attempts
      → Recovers (opts.base_backoff) 1 k s
      → ((deliver net opts d e s).0.success ≡ true) × ((deliver net opts d e s).0.attempts ≡ suc k)
  unfolding deliver
  deliver-Recovers opts k s fine lt h =
      let (good, count) =
        attempts_from-Recovers (opts.base_backoff) (opts.max_attempts) (opts.max_attempts) 1 k s lt
          (omega arith) h in
      rw fine (good, omega (arith, count))
