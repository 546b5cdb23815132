-- ===== src/Maintenance.antt =====
-- internal/maintenance/maintenance.go: one run of a housekeeping task, recorded as a job and announced.
-- The task, the recorder and the notifier step through a world; `M` is the type of the texts.
mod Recorded
mod Tests
use Prim.Native.String.{String, ◌++◌ as str_app}
use text.Mathlib.Text.{◌==◌ as str_eq}
use nzb_indexer.Base.{
  ℕ, Bool, true, false, ◌&&◌, Option, none, some, List, [], ◌∷◌, if◌then◌else◌, ℤ, pos, ltbℤ,
}
use nzb_indexer.Store.Jobs.{JobState, completed, failed}
use nzb_indexer.Notify.{EventType, retention_completed, backup_outcome, job_completed}

-- What a task gives: its summary, or its error.
pub data Ran (M : Type 0) : Type 0 where
  done : M → Ran M
  broken : M → Ran M

pub record Task (M S : Type 0) : Type 0 where
  pub name : String
  pub interval : ℤ
  pub enabled : Bool
  pub run : Option (S → Ran M × S)

-- The recorder's calls: whether a job could be created, and the others, whose errors are ignored.
pub record JobRecorder (M S : Type 0) : Type 0 where
  pub create_job : String → String → String → S → Bool × S
  pub start_job : String → S → S
  pub finish_job : String → JobState → Option M → S → S

pub record Announcement (M : Type 0) : Type 0 where
  pub event_type : EventType
  pub is_failure : Bool
  pub task : String
  pub message : M
  pub job_id : String

pub record Scheduler (M S : Type 0) : Type 0 where
  pub jobs : Option (JobRecorder M S)
  pub notifier : Option (Announcement M → S → S)
  pub ended : S → Bool

unfoldable pub event_type_for : String → EventType
event_type_for name =
    if str_eq name "retention"
    then retention_completed
    else if str_eq name "backup-verify"
    then backup_outcome
    else job_completed

abbrev is_runnable : {A : Type 0} → Option A → Bool
is_runnable none = false
is_runnable (some run) = true

-- Whether Run starts a loop for the task.
unfoldable pub is_scheduled : {M S : Type 0} → Task M S → Bool
is_scheduled t = t.enabled && ltbℤ (pos 0) t.interval && is_runnable t.run

module _ {M S : Type 0} (sched : Scheduler M S) where
  abbrev start_if : JobRecorder M S → String → Bool × S → S
  start_if jobs id (true, s) = jobs.start_job id s
  start_if jobs id (false, s) = s

  unfoldable pub start_job : String → String → S → S
  start_job id name s = elim (sched.jobs) [
    | none ↦ s
    | some jobs ↦ start_if jobs id (jobs.create_job id (str_app "maintenance:" name) name s)
  ]

  unfoldable pub finish_job : String → JobState → Option M → S → S
  finish_job id state err s = elim (sched.jobs) [
    | none ↦ s
    | some jobs ↦ jobs.finish_job id state err s
  ]

  unfoldable pub emit : Announcement M → S → S
  emit a s = elim (sched.notifier) [ none ↦ s | some announce ↦ announce a s ]

  -- A failure is announced as the outcome of a backup, whatever the task.
  abbrev after_run : String → String → Ran M × S → S
  after_run id name (broken err, s) =
      emit
        (record {
          event_type = backup_outcome;
          is_failure = true;
          task = name;
          message = err;
          job_id = id;
        })
        (finish_job id failed (some err) s)
  after_run id name (done summary, s) =
      emit
        (record {
          event_type = event_type_for name;
          is_failure = false;
          task = name;
          message = summary;
          job_id = id;
        })
        (finish_job id completed none s)

  -- `id` is the fresh id of the job; `run` the task's function.
  unfoldable pub execute : String → String → (S → Ran M × S) → S → S
  unfolding start_job finish_job emit event_type_for
  execute id name run s =
      let after = after_run id name (run (start_job id name s)) in
      if sched.ended s then s else after
