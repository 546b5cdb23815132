-- ===== src/Worker/Stages/Tests.antt =====
-- Two groups scanned at once.
use nzb_indexer.Base.{◌+◌, ◌≤◌, pos, positive_or, min, ◌≡◌, refl, false, [], ◌∷◌}
use nzb_indexer.Worker.Jobs.{has_id, drop_id}
use nzb_indexer.Worker.Stages.{
  new_stages, add_id, stage_start, stage_end, scan_pass_begin, scan_group_begin, scan_group_end,
  insert_sorted, sort_strings, active_stages, scan_progress,
}
use nzb_indexer.Worker.Stages.Crew.{
  Crew, scanning, begun, receive, look, begin, Reach, at_start, one_more,
}
use nzb_indexer.Worker.Stages.Distinct.{AreDistinct}
use nzb_indexer.Worker.Stages.Progress.{Shows, Reach-IsValid}

program : Unit {0}
unfolding has_id drop_id add_id stage_start stage_end scan_pass_begin scan_group_begin
    scan_group_end insert_sorted sort_strings active_stages scan_progress
program = tt

sorted_stages :
    active_stages (stage_start (stage_start new_stages "scan") "build") ≡ "build" ∷ "scan" ∷ []
unfolding program
sorted_stages = refl

idle_again : (stage_end (stage_start new_stages "scan") "scan").current_stage ≡ "idle"
unfolding program
idle_again = refl

abbrev started : Crew
started = begun new_stages false (pos 0) ("a" ∷ "b" ∷ [])

abbrev one_begun : Crew
one_begun = record started {
  stages = scan_group_begin started.stages "a";
  queue = "b" ∷ [];
  slots = scanning "a" ∷ [];
}

one_begun-Reach : Reach started one_begun
unfolding has_id
one_begun-Reach =
    one_more (one_more (one_more at_start (receive [] [] "a")) (look [] [] "a")) (begin [] [] "a")

names_differ : AreDistinct ("a" ∷ "b" ∷ [])
unfolding has_id
names_differ = (refl, (refl, tt))

Reach-IsValid_example :
    (one_begun.stages.scan_completed + 1 + 1 + 0 ≡ 2)
    × (1 ≤ min (positive_or 1 (pos 0)) 2)
    × Shows (one_begun.stages.scan_in_flight) ("a" ∷ [])
    × (one_begun.stages.scan_total ≡ 2)
Reach-IsValid_example =
    Reach-IsValid new_stages false (pos 0) ("a" ∷ "b" ∷ []) names_differ one_begun-Reach
