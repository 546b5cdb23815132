-- ===== src/Nntp/Pool/Invariant.antt =====
-- The counts of internal/nntp/pool.go, and that no method leaks a connection or a slot.
use nzb_indexer.Base.{
  ℕ, suc, ◌+◌, ◌-◌, ◌≡◌, true, false, Bool, Option, none, some, arith, List, [], ◌∷◌, ℤ, length,
  refl, if◌then◌else◌, ◌∙◌, ◌≢◌,
}
use nzb_indexer.Nntp.Errors.{Error, pool_closed}
use nzb_indexer.Nntp.Semaphore.{
  attempt, new_resizable_sem, Attempt, acquired, sleeping, refused, ResizableSem,
}
use nzb_indexer.Nntp.Semaphore
use nzb_indexer.Nntp.Pool.{
  Conn, Config, Pool, Outside, Checkout, got, failed, connected, dial_failed, new_with_dialer,
  take_idle, after_auth, after_dial, after_idle, Dialed, with_slot, after_attempt, acquire, release,
  reconfigure, resize, close, release_sem,
}

-- With `out` connections in the hands of callers and nobody in the middle of a method: the live
-- connections are the idle ones and those, every slot in use stands for one of those, and a closed
-- pool keeps none.
pub record IsValid (p : Pool) (out : ℕ) : Type 0 where
  pub counted : p.opened ≡ length p.idle + out
  pub slots : p.sem.in_use ≡ out
  pub emptied : p.closed ≡ true → p.idle ≡ []

pub new-IsValid : (cfg : Config) → IsValid (new_with_dialer cfg) 0
unfolding new_with_dialer new_resizable_sem
new-IsValid cfg = ground arith

abbrev Taken : (Conn → Bool) → List Conn → Option Conn → List Conn → ℕ → Type 0
Taken healthy idle none left dropped = (dropped ≡ length idle) × (left ≡ [])
Taken healthy idle (some c) left dropped =
    (healthy c ≡ true) × (length idle ≡ dropped + length left + 1)

-- The loop over the idle connections discards unhealthy ones until it has a healthy one, and keeps
-- the others.
take_idle_count :
    (healthy : Conn → Bool) (idle : List Conn)
    → let (found, left, dropped) = take_idle healthy idle in Taken healthy idle found left dropped
unfolding take_idle
take_idle_count healthy [] = (refl, refl)
take_idle_count healthy (c ∷ rest) =
    split (healthy c) refl (take_idle healthy rest).0 (take_idle_count healthy rest)
  where
    split :
        (b : Bool)
        → healthy c ≡ b
        → (found : Option Conn)
        → Taken healthy rest found (take_idle healthy rest).1 (take_idle healthy rest).2
        → let r : Option Conn × List Conn × ℕ =
            (if b
              then (some c, rest, 0)
              else (found, (take_idle healthy rest).1, (take_idle healthy rest).2 + 1)) in
          Taken healthy (c ∷ rest) r.0 r.1 r.2
    split true e found h = (e, omega arith)
    split false e none h = (omega arith, h.1)
    split false e (some d) h = (h.0, omega arith)

-- The connections in callers' hands after a checkout.
abbrev pub after_out : Checkout → ℕ → ℕ
after_out (got c) out = out + 1
after_out _ out = out

-- As `IsValid`, with one slot held by the method that runs.
record HoldsSlot (p : Pool) (out : ℕ) : Type 0 where
  counted : p.opened ≡ length p.idle + out
  slots : p.sem.in_use ≡ out + 1
  emptied : p.closed ≡ true → p.idle ≡ []

release_sem-in_use : (p : Pool) → (release_sem p).sem.in_use ≡ p.sem.in_use - 1
unfolding release_sem Semaphore.release
release_sem-in_use p = ground arith

release_sem-IsValid : (p : Pool) (out : ℕ) → HoldsSlot p out → IsValid (release_sem p) out
unfolding release_sem
release_sem-IsValid p out v = record {
  counted = v.counted;
  slots = omega (arith, release_sem-in_use p);
  emptied = v.emptied;
}

-- What every way out of a checkout leaves.
abbrev Leaves : ℕ → Pool × Checkout → Type 0
Leaves out (q, r) = IsValid q (after_out r out)

after_auth-IsValid :
    (p : Pool) (c : Conn) (answer : Option Error) (out : ℕ)
    → HoldsSlot p out
    → Leaves out (after_auth p c answer)
unfolding after_auth
after_auth-IsValid p c (some err) out v = release_sem-IsValid p out v
after_auth-IsValid p c none out v = record {
  counted = omega arith;
  slots = v.slots;
  emptied = v.emptied;
}

after_dial-IsValid :
    (p : Pool) (o : Outside) (d : Dialed) (out : ℕ)
    → HoldsSlot p out
    → Leaves out (after_dial p o d)
unfolding after_dial
after_dial-IsValid p o (dial_failed err) out v = release_sem-IsValid p out v
after_dial-IsValid p o (connected c) out v = after_auth-IsValid p c (o.authenticate c) out v

with_slot-IsValid :
    (p : Pool) (o : Outside) (out : ℕ) → HoldsSlot p out → Leaves out (with_slot p o)
unfolding with_slot
with_slot-IsValid p o out v = go p.closed refl
  where
    taken : Option Conn × List Conn × ℕ
    taken = take_idle o.healthy p.idle

    kept : Pool
    kept = record p { idle = taken.1; opened = p.opened - taken.2 }

    idle_left :
        (found : Option Conn)
        → Taken o.healthy p.idle found taken.1 taken.2
        → p.closed ≡ false
        → Leaves out (after_idle kept o found)
    idle_left (some c) t open_pool = record {
      counted = omega arith;
      slots = v.slots;
      emptied = λ e. cc;
    }
    idle_left none t open_pool =
        after_dial-IsValid kept o (o.dial p.cfg) out
          (record { counted = ground arith; slots = v.slots; emptied = λ e. t.1 })

    go :
        (b : Bool)
        → p.closed ≡ b
        → Leaves out (if b then (release_sem p, failed pool_closed) else after_idle kept o taken.0)
    go true e = release_sem-IsValid p out v
    go false e = idle_left taken.0 (take_idle_count o.healthy p.idle) e

after_attempt-IsValid :
    (p : Pool) (o : Outside) (out : ℕ) (s : ResizableSem) (r : Attempt)
    → IsValid p out
    → (r ≢ acquired → s.in_use ≡ p.sem.in_use)
    → (r ≡ acquired → s.in_use ≡ p.sem.in_use + 1)
    → Leaves out (after_attempt p o (s, r))
unfolding after_attempt
after_attempt-IsValid p o out s (refused err) v h a = ground arith
after_attempt-IsValid p o out s sleeping v h a = ground arith
after_attempt-IsValid p o out s acquired v h a =
    with_slot-IsValid (record p { sem = s }) o out
      (record { counted = v.counted; slots = ground arith; emptied = v.emptied })

attempt_in_use :
    (s : ResizableSem) (ctx_err : Option Error)
    → ((attempt s ctx_err).1 ≢ acquired → (attempt s ctx_err).0.in_use ≡ s.in_use)
      × ((attempt s ctx_err).1 ≡ acquired → (attempt s ctx_err).0.in_use ≡ s.in_use + 1)
unfolding attempt
attempt_in_use s none = ground arith
attempt_in_use s (some err) = ground arith

-- Whatever the idle connections, the dialer and the server answer, a checkout keeps the counts: it
-- hands out one connection more and keeps its slot, or it hands out none and gives the slot back.
pub acquire-IsValid :
    (p : Pool) (o : Outside) (out : ℕ)
    → IsValid p out
    → IsValid (acquire p o).0 (after_out (acquire p o).1 out)
unfolding acquire
acquire-IsValid p o out v =
    let (kept, grown) = attempt_in_use p.sem o.ctx_err in
    after_attempt-IsValid p o out (attempt p.sem o.ctx_err).0 (attempt p.sem o.ctx_err).1 v kept
      grown

-- Returning a connection takes it from the callers' hands, into the idle ones or discarded.
pub release-IsValid :
    (p : Pool) (c : Conn) (broken : Bool) (out : ℕ)
    → IsValid p (suc out)
    → IsValid (release p c broken) out
unfolding release
release-IsValid p c broken out v = ground (arith, release_sem-in_use p)

resize_in_use : (s : ResizableSem) (n : ℤ) → (Semaphore.resize s n).in_use ≡ s.in_use
unfolding Semaphore.resize
resize_in_use s n = ground arith

-- Reconfiguring, resizing and closing keep the counts; a closed or reconfigured pool has no idle
-- connection left, and those that it had are the ones closed.
pub reconfigure-IsValid :
    (p : Pool) (cfg : Config) (n : ℤ) (out : ℕ)
    → IsValid p out
    → IsValid (reconfigure p cfg).0 out
      × IsValid (resize p n) out
      × IsValid (close p).0 out
      × ((reconfigure p cfg).0.idle ≡ [])
      × ((reconfigure p cfg).1 ≡ p.idle)
      × ((close p).0.idle ≡ [])
      × ((close p).1 ≡ p.idle)
      × ((close p).0.closed ≡ true)
unfolding reconfigure resize close
reconfigure-IsValid p cfg n out v = (
  record { counted = omega arith; slots = resize_in_use p.sem _ ∙ v.slots; emptied = λ e. refl },
  record { counted = v.counted; slots = resize_in_use p.sem _ ∙ v.slots; emptied = v.emptied },
  ground arith,
  refl,
  refl,
  ground arith,
  ground arith,
  ground arith,
)
