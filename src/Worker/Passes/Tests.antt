-- ===== src/Worker/Passes/Tests.antt =====
-- Passes over a pipeline of which the group "b" fails.
use text.Mathlib.Text.{◌==◌ as str_eq}
use nzb_indexer.Base.{ℕ, ◌+◌, true, ◌≡◌, refl, false, none, some, [], ◌∷◌, if◌then◌else◌, map, pos}
use nzb_indexer.Base.History.{push_bounded, walk_back}
use nzb_indexer.Nntp.Errors.{network}
use nzb_indexer.Worker.ErrorLog.{no_errors, record_stage_error, recent_errors}
use nzb_indexer.Worker.Jobs.{has_id, drop_id}
use nzb_indexer.Worker.Stages.{
  new_stages, add_id, stage_start, stage_end, scan_pass_begin, scan_pass_end, scan_group_begin,
  scan_group_end,
}
use nzb_indexer.Worker.Passes.{
  scan_failed, ran, failed, no_result, Pipeline, Worker, report, run_assemble, run_build,
  run_post_process, run_enrich, target_groups, scan_group, scan_groups, run_scan,
  tracked_post_process,
}
use nzb_indexer.Worker.Passes.Restored.{passes-SameActive}

-- The world counts the calls.
abbrev pipe : Pipeline ℕ
pipe = record {
  list_groups = λ s. (
    ran (
        record { id = 1; name = "a" }
        ∷ record { id = 2; name = "b" }
        ∷ record { id = 3; name = "c" }
        ∷ []),
    s + 1,
  );
  scan_forward = λ group s. (
    (
      if str_eq group "b" then some network else none,
      record { articles_pulled = 10; parts_inserted = 4; server_high = 0 },
    ),
    s + 1,
  );
  scan_backfill = λ group s. ((none, no_result), s + 1);
  assemble = λ s. (failed network, s + 1);
  build = λ s. (ran (record { processed = 1; created = 1 }), s + 1);
  post_process = λ s. (ran (record { processed = 0; renamed = 2; nfo_found = 1 }), s + 1);
  enrich = λ s. (none, s + 1);
  record_group_scan = λ id outcome s. s + 100;
  emit = λ stage group message s. s + 1000;
  now = λ s. s;
  ended = λ s. false;
}

abbrev start : Worker ℕ
start = record {
  world = 0;
  stages = new_stages;
  log = no_errors;
  metrics = record {
    running = false;
    last_cycle_start = none;
    last_cycle_end = none;
    cycles = 0;
    articles_pulled = 0;
    parts_inserted = 0;
    binaries_touched = 0;
    releases_created = 0;
    releases_renamed = 0;
    nfos_found = 0;
  };
}

program : Unit {0}
unfolding push_bounded walk_back record_stage_error recent_errors has_id drop_id add_id stage_start
    stage_end scan_pass_begin scan_pass_end scan_group_begin scan_group_end report run_assemble
    run_build run_post_process run_enrich target_groups scan_group scan_groups run_scan
    tracked_post_process
program = tt

-- The failing group does not stop the pass: three are recorded, two are counted.
scanned : (run_scan pipe "" false start).metrics.articles_pulled ≡ 20
unfolding program
scanned = refl

counted : (run_scan pipe "" false start).world ≡ 1304
unfolding program
counted = refl

reported :
    map (λ e. e.message) (recent_errors (run_scan pipe "" false start).log (pos 0))
    ≡ scan_failed "b" network ∷ []
unfolding program
reported = refl

passes-SameActive_example :
    ((run_assemble pipe start).1.stages.active ≡ [])
    × ((run_build pipe start).1.stages.active ≡ [])
    × ((run_post_process pipe start).1.stages.active ≡ [])
    × ((run_enrich pipe start).stages.active ≡ [])
    × ((run_scan pipe "" true start).stages.active ≡ [])
unfolding has_id
passes-SameActive_example = passes-SameActive pipe start "" true refl refl refl refl refl

abbrev after_failure : Worker ℕ
after_failure = (run_assemble pipe start).1
