-- ===== src/Maintenance/Tests.antt =====
-- A task that fails, over an empty table of jobs.
use nzb_indexer.Base.{ℕ, ◌≡◌, refl, Bool, true, false, none, some, [], ◌∷◌, pos}
use nzb_indexer.Base.Dict.{lookup, insert}
use nzb_indexer.Store.Jobs.{
  Job, failed, create_job as insert_job, start_job as start_row, finish_job as finish_row, finished,
}
use nzb_indexer.Notify.{retention_completed}
use nzb_indexer.Maintenance.{
  Ran, broken, Task, is_scheduled, event_type_for, start_job, finish_job, emit, execute,
}
use nzb_indexer.Maintenance.Recorded.{Book, booked, announcement_of, execute_lem}

abbrev empty_book : Book ℕ
empty_book = ([], [])

abbrev never : Book ℕ → Bool
never book = false

abbrev failing : Book ℕ → Ran ℕ × Book ℕ
failing book = (broken 7, book)

program : Unit {0}
unfolding lookup insert insert_job start_row finish_row start_job finish_job emit execute
    event_type_for is_scheduled
program = tt

names : event_type_for "retention" ≡ retention_completed
unfolding program
names = refl

abbrev pruning : Task ℕ (Book ℕ)
pruning = record { name = "retention"; interval = pos 0; enabled = true; run = some failing }

needs_interval : is_scheduled pruning ≡ false
unfolding program
needs_interval = refl

announced :
    (execute (booked never 5) "j" "retention" failing empty_book).1
    ≡ announcement_of "j" "retention" (broken 7) ∷ []
unfolding program
announced = refl

no_row : lookup "j" (empty_book.0) ≡ none
unfolding program
no_row = refl

execute_lem_example :
    let final = execute (booked never 5) "j" "retention" failing empty_book in
    let started = start_job (booked never 5) "j" "retention" empty_book in
    (left : Job ℕ) × (lookup "j" (started.0) ≡ some left)
    × (lookup "j" (final.0) ≡ some (finished failed (some 7) 5 left))
    × (final.1 ≡ announcement_of "j" "retention" (broken 7) ∷ started.1)
execute_lem_example =
    (execute_lem never 5 "j" "retention" failing empty_book no_row (λ b row. row)).1 refl
