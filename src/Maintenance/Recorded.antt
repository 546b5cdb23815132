-- ===== src/Maintenance/Recorded.antt =====
-- What a run of internal/maintenance/maintenance.go leaves in the table of internal/store/jobs.go, and
-- what it announces.
use Prim.Native.String.{String, ◌++◌ as str_app}
use nzb_indexer.Base.{ℕ, ◌≡◌, refl, Bool, true, false, Option, none, some, List, ◌∷◌}
use nzb_indexer.Base.Dict.{insert, lookup, lookup-insert_self}
use nzb_indexer.Store.Jobs.{
  JobState, completed, failed, Job, Table, create_job as insert_job, start_job as start_row,
  finish_job as finish_row, finished, started, new_job,
}
use nzb_indexer.Store.Jobs.Lifecycle.{lookup-finish_job, lookup-start_job}
use nzb_indexer.Notify.{backup_outcome}
use nzb_indexer.Maintenance.{
  Ran, done, broken, Announcement, Scheduler, event_type_for, execute, start_job, finish_job, emit,
  after_run,
}

-- The table of jobs, and the announcements, the newest first.
abbrev pub Book : Type 0 → Type 0
Book M = Table M × List (Announcement M)

module _ {M : Type 0} where
  abbrev pub unless_taken : Book M → Option (Table M) → Bool × Book M
  unless_taken (table, log) none = (false, (table, log))
  unless_taken (table, log) (some made) = (true, (made, log))

  abbrev pub booked : (Book M → Bool) → ℕ → Scheduler M (Book M)
  booked ended now = record {
    jobs = some (record {
      create_job =
          λ id job_type target book. unless_taken book (insert_job (book.0) id job_type target);
      start_job = λ id book. (start_row (book.0) id now, book.1);
      finish_job = λ id state err book. (finish_row (book.0) id state err now, book.1);
    });
    notifier = some (λ a book. (book.0, a ∷ book.1));
    ended = ended;
  }

  abbrev pub HasRow : String → Book M → Type 0
  HasRow id book = (job : Job M) × (lookup id (book.0) ≡ some job)

  -- The state that a run ends in, the error that its row keeps, and what is announced.
  abbrev pub state_of : Ran M → JobState
  state_of (done m) = completed
  state_of (broken m) = failed

  abbrev pub error_of : Ran M → Option M
  error_of (done m) = none
  error_of (broken m) = some m

  abbrev pub announcement_of : String → String → Ran M → Announcement M
  announcement_of id name (done m) = record {
    event_type = event_type_for name;
    is_failure = false;
    task = name;
    message = m;
    job_id = id;
  }
  announcement_of id name (broken m) = record {
    event_type = backup_outcome;
    is_failure = true;
    task = name;
    message = m;
    job_id = id;
  }

  after_run_lem :
      (ended : Book M → Bool) (now : ℕ) (id name : String) (r : Ran M) (book : Book M) (job : Job M)
      → lookup id (book.0) ≡ some job
      → let final = after_run (booked ended now) id name (r, book) in
        (lookup id (final.0) ≡ some (finished (state_of r) (error_of r) now job))
        × (final.1 ≡ announcement_of id name r ∷ book.1)
  unfolding finish_job emit
  after_run_lem ended now id name (done m) book job h =
      (lookup-finish_job (book.0) id completed none now job h, refl)
  after_run_lem ended now id name (broken m) book job h =
      (lookup-finish_job (book.0) id failed (some m) now job h, refl)

  start_job-HasRow :
      (ended : Book M → Bool) (now : ℕ) (id name : String) (book : Book M)
      → lookup id (book.0) ≡ none
      → lookup id (start_job (booked ended now) id name book).0
        ≡ some (started now (new_job (str_app "maintenance:" name) name))
  unfolding start_job insert_job
  start_job-HasRow ended now id name book fresh = rw fresh (
      lookup-start_job (insert id (new_job (str_app "maintenance:" name) name) (book.0)) id now
        (new_job (str_app "maintenance:" name) name)
        (lookup-insert_self id (new_job (str_app "maintenance:" name) name) (book.0)))

  -- A run whose job gets a fresh id, and which keeps the job's row, leaves that row completed or failed
  -- as the task's function says, with its error, and makes one announcement, which for a failure is of
  -- the backup's type whatever the task; after the context has ended nothing is run or recorded.
  pub execute_lem :
      (ended : Book M → Bool) (now : ℕ) (id name : String) (run : Book M → Ran M × Book M)
      (book : Book M)
      → lookup id (book.0) ≡ none
      → ((b : Book M) → HasRow id b → HasRow id (run b).1)
      → let final = execute (booked ended now) id name run book in
        let ran = run (start_job (booked ended now) id name book) in
        (ended book ≡ true → final ≡ book)
        × (ended book ≡ false
            → (left : Job M) × (lookup id (ran.1.0) ≡ some left)
              × (lookup id (final.0)
                  ≡ some (finished (state_of (ran.0)) (error_of (ran.0)) now left))
              × (final.1 ≡ announcement_of id name (ran.0) ∷ ran.1.1))
  unfolding execute
  execute_lem ended now id name run book fresh keeps =
      let row = start_job-HasRow ended now id name book fresh in
      let started_book = start_job (booked ended now) id name book in
      let left =
        keeps started_book (started now (new_job (str_app "maintenance:" name) name), row) in
      let recorded =
        after_run_lem ended now id name (run started_book).0 (run started_book).1 (left.0)
          (left.1) in
      (λ h. rw h refl, λ h. rw h (left.0, left.1, recorded.0, recorded.1))
