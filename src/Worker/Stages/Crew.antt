-- ===== src/Worker/Stages/Crew.antt =====
-- The workers of a scan's pass, in runScan of internal/worker/worker.go: each receives a group from the
-- channel, looks at the context, scans the group, and receives the next; the pass closes the channel
-- when it has sent them all, or when the context has ended.
use Prim.Native.String.{String}
use nzb_indexer.Base.{
  ℕ, zero, suc, ◌+◌, Bool, true, false, ◌||◌, ◌≡◌, List, [], ◌∷◌, ◌++◌, length, ℤ, positive_or, min,
}
use nzb_indexer.Worker.Stages.{Stages, scan_pass_begin, scan_group_begin, scan_group_end}

-- How many workers there are: one at least, and no more than there are groups.
abbrev pub crew_size : ℤ → ℕ → ℕ
crew_size concurrency total = min (positive_or 1 concurrency) total

-- A worker waits for a group, has received one, has seen the context alive since, or scans it.
pub data Slot : Type 0 where
  waiting : Slot
  holding : String → Slot
  cleared : String → Slot
  scanning : String → Slot

-- A pass under way: what is reported, the groups that are still to be sent, the workers that have not
-- returned, how many groups were received and not scanned, whether the context has ended, and whether
-- the channel is closed.
pub record Crew : Type 0 where
  pub stages : Stages
  pub queue : List String
  pub slots : List Slot
  pub dropped : ℕ
  pub ended : Bool
  pub closed : Bool

abbrev pub idle : ℕ → List Slot
idle zero = []
idle (suc n) = waiting ∷ idle n

abbrev pub begun : Stages → Bool → ℤ → List String → Crew
begun stages backfill concurrency groups = record {
  stages = scan_pass_begin stages (length groups) backfill;
  queue = groups;
  slots = idle (crew_size concurrency (length groups));
  dropped = 0;
  ended = false;
  closed = false;
}

abbrev pub is_empty : List String → Bool
is_empty [] = true
is_empty (g ∷ gs) = false

-- A waiting worker receives a group; it finds the context alive, or ended and returns; it begins the
-- group; it ends it; a waiting worker finds the channel closed and returns; the pass closes the
-- channel; the context ends.
pub data Step : Crew → Crew → Type 0 where
  receive :
      {stages : Stages} {queue : List String} {dropped : ℕ} {ended : Bool}
      (before after : List Slot) (g : String)
      → Step
          (record {
            stages = stages;
            queue = g ∷ queue;
            slots = before ++ (waiting ∷ after);
            dropped = dropped;
            ended = ended;
            closed = false;
          })
          (record {
            stages = stages;
            queue = queue;
            slots = before ++ (holding g ∷ after);
            dropped = dropped;
            ended = ended;
            closed = false;
          })
  look :
      {stages : Stages} {queue : List String} {dropped : ℕ} {closed : Bool}
      (before after : List Slot) (g : String)
      → Step
          (record {
            stages = stages;
            queue = queue;
            slots = before ++ (holding g ∷ after);
            dropped = dropped;
            ended = false;
            closed = closed;
          })
          (record {
            stages = stages;
            queue = queue;
            slots = before ++ (cleared g ∷ after);
            dropped = dropped;
            ended = false;
            closed = closed;
          })
  begin :
      {stages : Stages} {queue : List String} {dropped : ℕ} {ended closed : Bool}
      (before after : List Slot) (g : String)
      → Step
          (record {
            stages = stages;
            queue = queue;
            slots = before ++ (cleared g ∷ after);
            dropped = dropped;
            ended = ended;
            closed = closed;
          })
          (record {
            stages = scan_group_begin stages g;
            queue = queue;
            slots = before ++ (scanning g ∷ after);
            dropped = dropped;
            ended = ended;
            closed = closed;
          })
  return_with :
      {stages : Stages} {queue : List String} {dropped : ℕ} {closed : Bool}
      (before after : List Slot) (g : String)
      → Step
          (record {
            stages = stages;
            queue = queue;
            slots = before ++ (holding g ∷ after);
            dropped = dropped;
            ended = true;
            closed = closed;
          })
          (record {
            stages = stages;
            queue = queue;
            slots = before ++ after;
            dropped = dropped + 1;
            ended = true;
            closed = closed;
          })
  end_group :
      {stages : Stages} {queue : List String} {dropped : ℕ} {ended closed : Bool}
      (before after : List Slot) (g : String)
      → Step
          (record {
            stages = stages;
            queue = queue;
            slots = before ++ (scanning g ∷ after);
            dropped = dropped;
            ended = ended;
            closed = closed;
          })
          (record {
            stages = scan_group_end stages g;
            queue = queue;
            slots = before ++ (waiting ∷ after);
            dropped = dropped;
            ended = ended;
            closed = closed;
          })
  return_idle :
      {stages : Stages} {queue : List String} {dropped : ℕ} {ended : Bool}
      (before after : List Slot)
      → Step
          (record {
            stages = stages;
            queue = queue;
            slots = before ++ (waiting ∷ after);
            dropped = dropped;
            ended = ended;
            closed = true;
          })
          (record {
            stages = stages;
            queue = queue;
            slots = before ++ after;
            dropped = dropped;
            ended = ended;
            closed = true;
          })
  close :
      {stages : Stages} {queue : List String} {dropped : ℕ} {slots : List Slot} {ended : Bool}
      → (ended || is_empty queue) ≡ true
      → Step
          (record {
            stages = stages;
            queue = queue;
            slots = slots;
            dropped = dropped;
            ended = ended;
            closed = false;
          })
          (record {
            stages = stages;
            queue = queue;
            slots = slots;
            dropped = dropped;
            ended = ended;
            closed = true;
          })
  context_ends :
      {stages : Stages} {queue : List String} {dropped : ℕ} {slots : List Slot} {closed : Bool}
      → Step
          (record {
            stages = stages;
            queue = queue;
            slots = slots;
            dropped = dropped;
            ended = false;
            closed = closed;
          })
          (record {
            stages = stages;
            queue = queue;
            slots = slots;
            dropped = dropped;
            ended = true;
            closed = closed;
          })

pub data Reach (start : Crew) : Crew → Type 0 where
  at_start : Reach start start
  one_more : {c d : Crew} → Reach start c → Step c d → Reach start d
