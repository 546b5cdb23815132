-- ===== src/Store/Jobs.antt =====
-- internal/store/jobs.go: the table of jobs, keyed by id, and the statements on it. The clock is an
-- argument; the progress counters, which no statement here reads, are left out. `M` is the type of the
-- messages.
pub mod Lifecycle
use Prim.Native.String.{String}
use nzb_indexer.Base.{ℕ, Bool, true, false, Option, none, some, List, if◌then◌else◌}
use nzb_indexer.Base.Dict.{lookup, insert}

pub data JobState : Type 0 where
  queued running completed failed cancelled interrupted : JobState

pub record Job (M : Type 0) : Type 0 where
  pub job_type : String
  pub target : String
  pub state : JobState
  pub failure : Option M
  pub cancel_requested : Bool
  pub started_at : Option ℕ
  pub finished_at : Option ℕ

abbrev pub Table : Type 0 → Type 0
Table M = List (String × Job M)

abbrev pub is_queued : JobState → Bool
is_queued queued = true
is_queued _ = false

-- `state IN ('queued', 'running')`
abbrev pub is_open : JobState → Bool
is_open queued = true
is_open running = true
is_open _ = false

module _ {M : Type 0} where
  abbrev pub new_job : String → String → Job M
  new_job job_type target = record {
    job_type = job_type;
    target = target;
    state = queued;
    failure = none;
    cancel_requested = false;
    started_at = none;
    finished_at = none;
  }

  abbrev insert_new : Table M → String → Job M → Option (Job M) → Option (Table M)
  insert_new table id job none = some (insert id job table)
  insert_new table id job (some old) = none

  -- None if the id is taken.
  unfoldable pub create_job : Table M → String → String → String → Option (Table M)
  create_job table id job_type target =
      insert_new table id (new_job job_type target) (lookup id table)

  -- An update of the row with the id, if there is one.
  abbrev pub update : Table M → String → Option (Job M) → (Job M → Job M) → Table M
  update table id none f = table
  update table id (some job) f = insert id (f job) table

  abbrev pub started : ℕ → Job M → Job M
  started now job =
      if is_queued job.state then record job { state = running; started_at = some now } else job

  unfoldable pub start_job : Table M → String → ℕ → Table M
  start_job table id now = update table id (lookup id table) (started now)

  abbrev pub finished : JobState → Option M → ℕ → Job M → Job M
  finished state failure now job = record job {
    state = state;
    failure = failure;
    finished_at = some now;
  }

  unfoldable pub finish_job : Table M → String → JobState → Option M → ℕ → Table M
  finish_job table id state failure now =
      update table id (lookup id table) (finished state failure now)

  abbrev cancel_open : Table M → String → Option (Job M) → Option (Table M)
  cancel_open table id none = none
  cancel_open table id (some job) =
      if is_open job.state
      then some (insert id (record job { cancel_requested = true }) table)
      else none

  -- None for ErrNotFound.
  unfoldable pub request_job_cancel : Table M → String → Option (Table M)
  request_job_cancel table id = cancel_open table id (lookup id table)

  abbrev requested : Option (Job M) → Option Bool
  requested none = none
  requested (some job) = some (job.cancel_requested)

  unfoldable pub is_job_cancel_requested : Table M → String → Option Bool
  is_job_cancel_requested table id = requested (lookup id table)
