-- ===== src/Worker/ErrorLog/Recent.antt =====
-- What the history of internal/worker/worker.go keeps of the errors of a run.
use Prim.Native.String.{String}
use nzb_indexer.Base.{
  ℕ, suc, ◌+◌, ◌-◌, ◌<◌, ◌≡◌, refl, ap, ◌∙◌, List, [], ◌∷◌, length, get_elem?, arith, ℤ, pos,
  pos_part, ltbℤ, ltb, ◌&&◌, if◌then◌else◌, min, length-drop,
}
use nzb_indexer.Base.History.{pushed, keep_last, pushed-empty, walk_back-keep_last}
use nzb_indexer.Worker.ErrorLog.{
  PipelineError, ErrorLog, max_err_history, no_errors, record_stage_error, recent_errors,
}

-- An error that a stage reports: its stage, its group, its message and the instant.
pub record Report (M : Type 0) : Type 0 where
  pub stage : String
  pub group : String
  pub message : M
  pub at : ℕ

module _ {M : Type 0} where
  -- The log after a run's reports.
  unfoldable pub recorded : ErrorLog M → List (Report M) → ErrorLog M
  recorded log [] = log
  recorded log (r ∷ rs) =
      recorded (record_stage_error log (r.stage) (r.group) (r.message) (r.at)) rs

  -- The entries of a run's reports, numbered from `n + 1`.
  abbrev pub numbered : ℕ → List (Report M) → List (PipelineError M)
  numbered n [] = []
  numbered n (r ∷ rs) =
      record { seq = n + 1; stage = r.stage; group = r.group; message = r.message; at = r.at }
      ∷ numbered (n + 1) rs

  length-numbered : (n : ℕ) (rs : List (Report M)) → length (numbered n rs) ≡ length rs
  length-numbered n [] = refl
  length-numbered n (r ∷ rs) = ap suc (length-numbered (n + 1) rs)

  recorded-pushed :
      (log : ErrorLog M) (rs : List (Report M))
      → (recorded log rs).err_history
        ≡ pushed max_err_history (log.err_history) (numbered (log.err_seq) rs)
  unfolding recorded record_stage_error pushed
  recorded-pushed log [] = refl
  recorded-pushed log (r ∷ rs) = recorded-pushed (record_stage_error log _ _ _ _) rs

  -- After any run from a new worker's start, the history gives the newest errors first: as many as the
  -- run had, up to 200 and up to a positive limit, each with its place in the run as its number.
  pub recent_errors_lem :
      (rs : List (Report M)) (limit : ℤ)
      → let all = length rs in
        let kept = min max_err_history all in
        let shown = if ltbℤ (pos 0) limit then min (pos_part limit) kept else kept in
        (length (recent_errors (recorded no_errors rs) limit) ≡ shown)
        × ((j : ℕ)
            → j < shown
            → get_elem? (recent_errors (recorded no_errors rs) limit) j
              ≡ get_elem? (numbered 0 rs) (all - 1 - j))
  unfolding recent_errors
  recent_errors_lem rs limit =
      let ys = numbered 0 rs in
      let kept : (recorded no_errors rs).err_history ≡ keep_last max_err_history ys =
        recorded-pushed no_errors rs ∙ pushed-empty max_err_history ys in
      let size = length-drop (length ys - max_err_history) ys in
      let all = length-numbered 0 rs in
      let shown =
        if ltbℤ (pos 0) limit
        then min (pos_part limit) (min max_err_history (length rs))
        else min max_err_history (length rs) in
      let shows = walk_back-keep_last max_err_history shown ys (ground (arith, all)) in
      let asked : (if ltbℤ (pos 0) limit
              && ltb (pos_part limit) (length (keep_last max_err_history ys))
            then pos_part limit
            else length (keep_last max_err_history ys))
          ≡ shown =
        ground (arith, size, all) in
      rw kept (rw asked (shows.0, λ j lt. shows.1 j lt ∙ ap (get_elem? ys) (omega (arith, all))))
