-- ===== src/Worker/ErrorLog.antt =====
-- internal/worker/worker.go: the last error, and the bounded history of errors. A method holds the
-- mutex of what it changes; the clock's reading is an argument. `M` is the type of the messages.
mod Recent
mod Tests
use Prim.Native.String.{String}
use nzb_indexer.Base.{
  ℕ, ◌+◌, Bool, true, false, ◌&&◌, Option, none, some, List, [], length, ltb, if◌then◌else◌, ℤ, pos,
  pos_part, ltbℤ,
}
use nzb_indexer.Base.History.{push_bounded, walk_back}

pub record PipelineError (M : Type 0) : Type 0 where
  pub seq : ℕ
  pub stage : String
  pub group : String
  pub message : M
  pub at : ℕ

-- `last_error` is `none` for the empty string, which no error's message is.
pub record ErrorLog (M : Type 0) : Type 0 where
  pub last_error : Option M
  pub err_history : List (PipelineError M)
  pub err_seq : ℕ

abbrev pub max_err_history : ℕ
max_err_history = 200

module _ {M : Type 0} where
  abbrev pub no_errors : ErrorLog M
  no_errors = record { last_error = none; err_history = []; err_seq = 0 }

  unfoldable pub record_stage_error : ErrorLog M → String → String → M → ℕ → ErrorLog M
  unfolding push_bounded
  record_stage_error log stage group message at = record {
    last_error = some message;
    err_history = push_bounded max_err_history (log.err_history) (record {
      seq = log.err_seq + 1;
      stage = stage;
      group = group;
      message = message;
      at = at;
    });
    err_seq = log.err_seq + 1;
  }

  -- recordError: neither stage nor group.
  unfoldable pub record_error : ErrorLog M → M → ℕ → ErrorLog M
  unfolding record_stage_error
  record_error log message at = record_stage_error log "" "" message at

  unfoldable pub last_pass_error : ErrorLog M → Option M
  last_pass_error log = log.last_error

  unfoldable pub recent_errors : ErrorLog M → ℤ → List (PipelineError M)
  unfolding walk_back
  recent_errors log limit =
      let all = length (log.err_history) in
      let n = if ltbℤ (pos 0) limit && ltb (pos_part limit) all then pos_part limit else all in
      walk_back (log.err_history) all n
