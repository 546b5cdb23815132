-- ===== src/Worker/ErrorLog/Tests.antt =====
-- A run of two errors.
use nzb_indexer.Base.{ℕ, ◌≡◌, refl, List, [], ◌∷◌, length, pos, map}
use nzb_indexer.Base.History.{push_bounded, walk_back}
use nzb_indexer.Worker.ErrorLog.{no_errors, record_stage_error, recent_errors}
use nzb_indexer.Worker.ErrorLog.Recent.{Report, recorded, recent_errors_lem}

abbrev reports : List (Report ℕ)
reports =
    record { stage = "scan"; group = "a"; message = 7; at = 1 }
    ∷ record { stage = "build"; group = ""; message = 8; at = 2 }
    ∷ []

program : Unit {0}
unfolding push_bounded walk_back record_stage_error recorded recent_errors
program = tt

newest_first :
    map (λ e. e.message) (recent_errors (recorded no_errors reports) (pos 0)) ≡ 8 ∷ 7 ∷ []
unfolding program
newest_first = refl

recent_errors_lem_example : length (recent_errors (recorded no_errors reports) (pos 1)) ≡ 1
recent_errors_lem_example = (recent_errors_lem reports (pos 1)).0
