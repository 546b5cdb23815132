-- ===== src/Store/Jobs/Lifecycle.antt =====
-- The rows that the statements of internal/store/jobs.go leave.
use Prim.Native.String.{String}
use text.Mathlib.Text.{◌==◌ as str_eq}
use text.Mathlib.TextPositions.{eq_refl}
use nzb_indexer.Base.{ℕ, ◌≡◌, ◌∙◌, refl, false, Option, none, some}
use nzb_indexer.Base.Dict.{lookup, lookup-insert}
use nzb_indexer.Store.Jobs.{JobState, Job, Table, update, start_job, started, finish_job, finished}

module _ {M : Type 0} where
  pub lookup-update :
      (table : Table M) (id : String) (f : Job M → Job M) (job : Job M)
      → lookup id table ≡ some job
      → lookup id (update table id (lookup id table) f) ≡ some (f job)
  lookup-update table id f job h = rw h (lookup-insert id id (f job) table ∙ rw (eq_refl id) refl)

  pub lookup-update_other :
      (table : Table M) (id other : String) (f : Job M → Job M)
      → str_eq id other ≡ false
      → lookup other (update table id (lookup id table) f) ≡ lookup other table
  lookup-update_other table id other f h = by_row (lookup id table)
    where
      by_row : (o : Option (Job M)) → lookup other (update table id o f) ≡ lookup other table
      by_row none = refl
      by_row (some job) = lookup-insert id other (f job) table ∙ rw h refl

  pub lookup-finish_job :
      (table : Table M) (id : String) (state : JobState) (failure : Option M) (now : ℕ)
      (job : Job M)
      → lookup id table ≡ some job
      → lookup id (finish_job table id state failure now) ≡ some (finished state failure now job)
  unfolding finish_job
  lookup-finish_job table id state failure now job h = lookup-update table id _ job h

  pub lookup-start_job :
      (table : Table M) (id : String) (now : ℕ) (job : Job M)
      → lookup id table ≡ some job
      → lookup id (start_job table id now) ≡ some (started now job)
  unfolding start_job
  lookup-start_job table id now job h = lookup-update table id _ job h
