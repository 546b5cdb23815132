-- ===== src/Worker/Stages.antt =====
-- internal/worker/worker.go: which stages run now, and how far the pass of the scan is. The methods hold
-- the mutex throughout; a set is a list without repetitions.
mod Crew
mod Distinct
mod Progress
mod Slots
mod Tests
use Prim.Native.String.{String, compare}
use text.Mathlib.Text.{◌==◌ as str_eq, is_le}
use nzb_indexer.Base.{ℕ, ◌+◌, Bool, true, false, Option, none, some, List, [], ◌∷◌, if◌then◌else◌}
use nzb_indexer.Worker.Jobs.{has_id, drop_id}

-- `scan_in_flight` is `none` for the nil map.
pub record Stages : Type 0 where
  pub active : List String
  pub current_stage : String
  pub scan_active : Bool
  pub scan_in_flight : Option (List String)
  pub scan_completed : ℕ
  pub scan_total : ℕ
  pub scan_backfill : Bool

abbrev pub new_stages : Stages
new_stages = record {
  active = [];
  current_stage = "";
  scan_active = false;
  scan_in_flight = none;
  scan_completed = 0;
  scan_total = 0;
  scan_backfill = false;
}

unfoldable pub add_id : String → List String → List String
unfolding has_id
add_id id ids = if has_id id ids then ids else id ∷ ids

unfoldable pub stage_start : Stages → String → Stages
unfolding add_id
stage_start s stage = record s { active = add_id stage s.active; current_stage = stage }

abbrev pub idle_if_none : List String → String → String
idle_if_none [] current = "idle"
idle_if_none (k ∷ ks) current = current

unfoldable pub stage_end : Stages → String → Stages
unfolding drop_id
stage_end s stage =
    let rest = drop_id stage s.active in
    record s { active = rest; current_stage = idle_if_none rest (s.current_stage) }

unfoldable pub scan_pass_begin : Stages → ℕ → Bool → Stages
scan_pass_begin s total backfill = record s {
  scan_active = true;
  scan_in_flight = some [];
  scan_completed = 0;
  scan_total = total;
  scan_backfill = backfill;
}

unfoldable pub scan_pass_end : Stages → Stages
scan_pass_end s = record s {
  scan_active = false;
  scan_in_flight = none;
  scan_completed = 0;
  scan_total = 0;
  scan_backfill = false;
}

abbrev pub add_if_map : String → Option (List String) → Option (List String)
add_if_map group none = none
add_if_map group (some groups) = some (add_id group groups)

abbrev pub drop_if_map : String → Option (List String) → Option (List String)
drop_if_map group none = none
drop_if_map group (some groups) = some (drop_id group groups)

unfoldable pub scan_group_begin : Stages → String → Stages
scan_group_begin s group = record s { scan_in_flight = add_if_map group s.scan_in_flight }

unfoldable pub scan_group_end : Stages → String → Stages
scan_group_end s group = record s {
  scan_in_flight = drop_if_map group s.scan_in_flight;
  scan_completed = s.scan_completed + 1;
}

-- `sort.Strings`
unfoldable pub insert_sorted : String → List String → List String
insert_sorted x [] = x ∷ []
insert_sorted x (y ∷ ys) =
    let rest = insert_sorted x ys in if is_le (compare x y) then x ∷ y ∷ ys else y ∷ rest

unfoldable pub sort_strings : List String → List String
sort_strings [] = []
sort_strings (x ∷ xs) = insert_sorted x (sort_strings xs)

pub record ScanProgress : Type 0 where
  pub in_flight : List String
  pub completed : ℕ
  pub total : ℕ
  pub backfill : Bool

abbrev groups_of : Option (List String) → List String
groups_of none = []
groups_of (some groups) = groups

-- The fields of the metrics that snapshotLocked fills in.
unfoldable pub active_stages : Stages → List String
active_stages s = sort_strings s.active

unfoldable pub scan_progress : Stages → Option ScanProgress
scan_progress s =
    if s.scan_active
    then some (record {
      in_flight = sort_strings (groups_of (s.scan_in_flight));
      completed = s.scan_completed;
      total = s.scan_total;
      backfill = s.scan_backfill;
    })
    else none
