-- ===== src/Worker/Stages/Progress.antt =====
-- The pass of a scan over several workers, in internal/worker/worker.go: each takes a group off the
-- channel, scans it, and takes the next.
use Prim.Native.String.{String}
use text.Mathlib.TextEquality.{eq_iff}
use mathlib.Core.Path.{subst}
use nzb_indexer.Base.{
  sym, ap, append-nil, ℤ, positive_or, min, ℕ, ◌+◌, ◌≤◌, ◌≡◌, ◌∙◌, refl, Bool, false, Option, none,
  some, List, [], ◌∷◌, ◌++◌, length, arith, length-append,
}
use nzb_indexer.Worker.Jobs.{has_id}
use nzb_indexer.Worker.Stages.Slots.{
  busy, owned, busy-append, owned-append, length-busy, absent_busy, busy-idle, owned-idle,
  length-idle,
}
use nzb_indexer.Worker.Stages.Crew.{
  crew_size, Slot, waiting, holding, cleared, scanning, Crew, begun, Step, receive, look, begin,
  return_with, end_group, return_idle, close, context_ends, Reach, at_start, one_more,
}
use nzb_indexer.Worker.Stages.Distinct.{
  AreDistinct, has_id-drop_id, has_id-add_id, has_id-skip, move_distinct, remove_distinct,
}
use nzb_indexer.Worker.Stages.{
  Stages, scan_pass_begin, scan_group_begin, scan_group_end, add_if_map, drop_if_map,
}

-- The groups that are reported are those being scanned.
abbrev pub Shows : Option (List String) → List String → Type 0
Shows none running = Unit → ⊥
Shows (some fs) running = (k : String) → has_id k fs ≡ has_id k running

pub record IsValid (size total : ℕ) (c : Crew) : Type 0 where
  pub accounts :
      c.stages.scan_completed + length (owned c.slots) + length c.queue + c.dropped ≡ total
  pub bounded : length c.slots ≤ size
  pub distinct : AreDistinct (c.queue ++ owned c.slots)
  pub shown : Shows (c.stages.scan_in_flight) (busy c.slots)
  pub total_kept : c.stages.scan_total ≡ total

begun_shown :
    (o : Option (List String)) (g : String) (before after : List String)
    → Shows o (before ++ after)
    → Shows (add_if_map g o) (before ++ (g ∷ after))
begun_shown none g before after h = h
begun_shown (some fs) g before after h =
    λ k. has_id-add_id g k fs ∙ rw (h k) (sym (has_id-skip k g before after))

ended_shown :
    (o : Option (List String)) (g : String) (before after : List String)
    → has_id g (before ++ after) ≡ false
    → Shows o (before ++ (g ∷ after))
    → Shows (drop_if_map g o) (before ++ after)
ended_shown none g before after gone h = h
ended_shown (some fs) g before after gone h = λ k.
    let there = has_id-skip k g before after in
    let shown = h k in has_id-drop_id g k fs ∙ ground (arith, eq_iff g k)

-- What is valid of a pass whose workers stand in two rows.
abbrev Parts : ℕ → ℕ → Stages → List String → List Slot → List Slot → ℕ → Type 0
Parts size total stages queue before rest dropped =
    (stages.scan_completed + (length (owned before) + length (owned rest)) + length queue + dropped
      ≡ total)
    × (length before + length rest ≤ size)
    × AreDistinct (queue ++ (owned before ++ owned rest))
    × Shows (stages.scan_in_flight) (busy before ++ busy rest)
    × (stages.scan_total ≡ total)

of_parts :
    {size total : ℕ} {stages : Stages} {queue : List String} {dropped : ℕ} {ended closed : Bool}
    (before rest : List Slot)
    → Parts size total stages queue before rest dropped
    → IsValid size total (record {
      stages = stages;
      queue = queue;
      slots = before ++ rest;
      dropped = dropped;
      ended = ended;
      closed = closed;
    })
of_parts {stages} {queue} before rest (a, b, d, s, t) = record {
  accounts =
      omega
        (arith, ap length (owned-append before rest), length-append (owned before) (owned rest), a);
  bounded = omega (arith, length-append before rest, b);
  distinct = subst (λ l. AreDistinct (queue ++ l)) (sym (owned-append before rest)) d;
  shown = subst (λ l. Shows (stages.scan_in_flight) l) (sym (busy-append before rest)) s;
  total_kept = t;
}

to_parts :
    {size total : ℕ} {stages : Stages} {queue : List String} {dropped : ℕ} {ended closed : Bool}
    (before rest : List Slot)
    → IsValid size total (record {
      stages = stages;
      queue = queue;
      slots = before ++ rest;
      dropped = dropped;
      ended = ended;
      closed = closed;
    })
    → Parts size total stages queue before rest dropped
to_parts {stages} {queue} before rest v = (
  omega (
    arith,
    ap length (owned-append before rest),
    length-append (owned before) (owned rest),
    v.accounts,
  ),
  omega (arith, length-append before rest, v.bounded),
  subst (λ l. AreDistinct (queue ++ l)) (owned-append before rest) v.distinct,
  subst (λ l. Shows (stages.scan_in_flight) l) (busy-append before rest) v.shown,
  v.total_kept,
)

Step-IsValid :
    {size total : ℕ} {c d : Crew} → Step c d → IsValid size total c → IsValid size total d
unfolding scan_group_begin scan_group_end
Step-IsValid (receive {queue} before after g) v =
    let (a, b, d, s, t) = to_parts before (waiting ∷ after) v in
    of_parts before (holding g ∷ after)
      (omega arith, omega arith, move_distinct g queue (owned before) (owned after) d, s, t)
Step-IsValid (look before after g) v =
    of_parts before (cleared g ∷ after) (to_parts before (holding g ∷ after) v)
Step-IsValid (begin {stages} before after g) v =
    let (a, b, d, s, t) = to_parts before (cleared g ∷ after) v in
    let shown = begun_shown (stages.scan_in_flight) g (busy before) (busy after) s in
    of_parts before (scanning g ∷ after) (a, b, d, shown, t)
Step-IsValid (return_with {queue} before after g) v =
    let (a, b, d, s, t) = to_parts before (holding g ∷ after) v in
    let (_, apart) = remove_distinct g queue (owned before) (owned after) d in
    of_parts before after (omega arith, omega arith, apart, s, t)
Step-IsValid (end_group {stages} {queue} before after g) v =
    let (a, b, d, s, t) = to_parts before (scanning g ∷ after) v in
    let (gone, apart) = remove_distinct g queue (owned before) (owned after) d in
    let unique = absent_busy g before after gone in
    let shown = ended_shown (stages.scan_in_flight) g (busy before) (busy after) unique s in
    of_parts before (waiting ∷ after) (omega arith, omega arith, apart, shown, t)
Step-IsValid (return_idle before after) v =
    let (a, b, d, s, t) = to_parts before (waiting ∷ after) v in
    of_parts before after (a, omega arith, d, s, t)
Step-IsValid (close {slots} may) v = of_parts [] slots (to_parts [] slots v)
Step-IsValid (context_ends {slots}) v = of_parts [] slots (to_parts [] slots v)

Reach-IsValid_all :
    (stages : Stages) (backfill : Bool) (concurrency : ℤ) (groups : List String) {c : Crew}
    → AreDistinct groups
    → Reach (begun stages backfill concurrency groups) c
    → IsValid (crew_size concurrency (length groups)) (length groups) c
unfolding scan_pass_begin
Reach-IsValid_all stages backfill concurrency groups d at_start =
    let size = crew_size concurrency (length groups) in
    record {
      accounts = omega (arith, ap length (owned-idle size));
      bounded = omega (arith, length-idle size);
      distinct =
          subst (λ l. AreDistinct (groups ++ l)) (sym (owned-idle size))
            (subst AreDistinct (sym (append-nil groups)) d);
      shown = λ k. ap (has_id k) (sym (busy-idle size));
      total_kept = refl;
    }
Reach-IsValid_all stages backfill concurrency groups d (one_more r s) =
    Step-IsValid s (Reach-IsValid_all stages backfill concurrency groups d r)

-- At every point of a scan's pass over groups of different names, whatever the order in which the
-- workers receive, begin, end and return, and whenever the context ends: the groups done, those that a
-- worker has, those still to be sent and those dropped at the end of the context are all there are; no
-- more are scanned at once than the configured concurrency, which is one at least, nor than there are
-- groups; and the groups reported are those being scanned.
pub Reach-IsValid :
    (stages : Stages) (backfill : Bool) (concurrency : ℤ) (groups : List String) {c : Crew}
    → AreDistinct groups
    → Reach (begun stages backfill concurrency groups) c
    → (c.stages.scan_completed + length (owned c.slots) + length c.queue + c.dropped
        ≡ length groups)
      × (length (busy c.slots) ≤ min (positive_or 1 concurrency) (length groups))
      × Shows (c.stages.scan_in_flight) (busy c.slots)
      × (c.stages.scan_total ≡ length groups)
Reach-IsValid stages backfill concurrency groups {c} d r =
    let v = Reach-IsValid_all stages backfill concurrency groups d r in
    (v.accounts, omega (arith, v.bounded, length-busy c.slots), v.shown, v.total_kept)
