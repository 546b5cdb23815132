-- ===== src/Worker/Passes.antt =====
-- internal/worker/worker.go: the passes of the stages. What the stages do is a world that they step
-- through. The groups of a scan are taken here by one worker; the steps of several are those of
-- Worker/Stages/Progress.
mod Restored
mod Sticky
mod Tests
use Prim.Native.String.{String}
use text.Mathlib.Text.{◌==◌ as str_eq}
use nzb_indexer.Base.{
  ℕ, ◌+◌, Bool, true, false, not, Option, none, some, List, [], ◌∷◌, length, ltb, if◌then◌else◌,
}
use nzb_indexer.Nntp.Errors.{Error}
use nzb_indexer.Worker.ErrorLog.{ErrorLog, record_stage_error, record_error, last_pass_error}
use nzb_indexer.Worker.Stages.{
  Stages, stage_start, stage_end, scan_pass_begin, scan_pass_end, scan_group_begin, scan_group_end,
}

-- The messages of the errors that are recorded.
pub data Failure : Type 0 where
  list_groups_failed list_backfill_failed assemble_failed build_failed : Error → Failure
  post_process_failed enrichment_failed : Error → Failure
  scan_failed : String → Error → Failure

pub record Group : Type 0 where
  pub id : ℕ
  pub name : String

pub record ScanResult : Type 0 where
  pub articles_pulled : ℕ
  pub parts_inserted : ℕ
  pub server_high : ℕ

abbrev pub no_result : ScanResult
no_result = record { articles_pulled = 0; parts_inserted = 0; server_high = 0 }

-- What a stage gives.
pub data Ran (A : Type 0) : Type 0 where
  ran : A → Ran A
  failed : Error → Ran A

pub record GroupScanOutcome : Type 0 where
  pub backfill : Bool
  pub articles : ℕ
  pub parts : ℕ
  pub server_high : ℕ
  pub failure : Option Failure

pub record Assembled : Type 0 where
  pub binaries_touched : ℕ
  pub drained : Bool

pub record Built : Type 0 where
  pub processed : ℕ
  pub created : ℕ

pub record PostProcessed : Type 0 where
  pub processed : ℕ
  pub renamed : ℕ
  pub nfo_found : ℕ

-- The stages, with the clock and the context. A scan that fails gives the result it reached. The
-- recorder, if it is there, ignores its errors; `emit` is the notifier, or nothing.
pub record Pipeline (S : Type 0) : Type 0 where
  pub list_groups : S → Ran (List Group) × S
  pub scan_forward : String → S → (Option Error × ScanResult) × S
  pub scan_backfill : String → S → (Option Error × ScanResult) × S
  pub assemble : S → Ran Assembled × S
  pub build : S → Ran Built × S
  pub post_process : S → Ran PostProcessed × S
  pub enrich : S → Option Error × S
  pub record_group_scan : ℕ → GroupScanOutcome → S → S
  pub emit : String → String → Failure → S → S
  pub now : S → ℕ
  pub ended : S → Bool

pub record Metrics : Type 0 where
  pub running : Bool
  pub last_cycle_start : Option ℕ
  pub last_cycle_end : Option ℕ
  pub cycles : ℕ
  pub articles_pulled : ℕ
  pub parts_inserted : ℕ
  pub binaries_touched : ℕ
  pub releases_created : ℕ
  pub releases_renamed : ℕ
  pub nfos_found : ℕ

pub record Worker (S : Type 0) : Type 0 where
  pub world : S
  pub stages : Stages
  pub log : ErrorLog Failure
  pub metrics : Metrics

module _ {S : Type 0} (pipe : Pipeline S) where
  unfoldable pub report : String → String → Failure → Worker S → Worker S
  unfolding record_stage_error
  report stage group message w = record w {
    log = record_stage_error w.log stage group message (pipe.now w.world);
    world = pipe.emit stage group message w.world;
  }

  abbrev begin : String → Worker S → Worker S
  begin stage w = record w { stages = stage_start w.stages stage }

  abbrev pub finish : String → Worker S → Worker S
  finish stage w = record w { stages = stage_end w.stages stage }

  abbrev after_assemble : Ran Assembled × S → Worker S → Bool × Worker S
  after_assemble (failed err, s) w =
      (false, report "assemble" "" (assemble_failed err) (record w { world = s }))
  after_assemble (ran res, s) w =
      let m = w.metrics in
      (
        not res.drained,
        record w {
          world = s;
          metrics = record m { binaries_touched = m.binaries_touched + res.binaries_touched };
        },
      )

  -- The stage's end, deferred.
  abbrev deferred : String → Bool × Worker S → Bool × Worker S
  deferred stage (busy, w) = (busy, finish stage w)

  unfoldable pub run_assemble : Worker S → Bool × Worker S
  unfolding stage_start stage_end
  run_assemble w =
      let begun = begin "assemble" w in
      if pipe.ended w.world
      then (false, w)
      else deferred "assemble" (after_assemble (pipe.assemble w.world) begun)

  abbrev after_build : Ran Built × S → Worker S → Bool × Worker S
  after_build (failed err, s) w =
      (false, report "build" "" (build_failed err) (record w { world = s }))
  after_build (ran res, s) w =
      let m = w.metrics in
      (
        ltb 0 res.processed,
        record w {
          world = s;
          metrics = record m { releases_created = m.releases_created + res.created };
        },
      )

  unfoldable pub run_build : Worker S → Bool × Worker S
  unfolding stage_start stage_end
  run_build w =
      let begun = begin "release" w in
      if pipe.ended w.world
      then (false, w)
      else deferred "release" (after_build (pipe.build w.world) begun)

  abbrev after_post_process : Ran PostProcessed × S → Worker S → Bool × Worker S
  after_post_process (failed err, s) w =
      (false, report "postprocess" "" (post_process_failed err) (record w { world = s }))
  after_post_process (ran res, s) w =
      let m = w.metrics in
      (
        ltb 0 res.processed,
        record w {
          world = s;
          metrics = record m {
            releases_renamed = m.releases_renamed + res.renamed;
            nfos_found = m.nfos_found + res.nfo_found;
            cycles = m.cycles + 1;
            last_cycle_end = some (pipe.now s);
          };
        },
      )

  abbrev set_running : Bool → Worker S → Worker S
  set_running b w = let m = w.metrics in record w { metrics = record m { running = b } }

  abbrev cycle_start : Worker S → Worker S
  cycle_start w =
      let m = w.metrics in
      record w { metrics = record m { running = true; last_cycle_start = some (pipe.now w.world) } }

  abbrev cycle_end : Bool × Worker S → Bool × Worker S
  cycle_end (busy, w) = (busy, set_running false (finish "postprocess" w))

  unfoldable pub run_post_process : Worker S → Bool × Worker S
  unfolding stage_start stage_end
  run_post_process w =
      let begun = begin "postprocess" (cycle_start w) in
      if pipe.ended w.world
      then (false, w)
      else cycle_end (after_post_process (pipe.post_process w.world) begun)

  abbrev after_enrich : Option Error × S → Worker S → Worker S
  after_enrich (none, s) w = record w { world = s }
  after_enrich (some err, s) w = report "enrich" "" (enrichment_failed err) (record w { world = s })

  unfoldable pub run_enrich : Worker S → Worker S
  unfolding stage_start stage_end
  run_enrich w =
      let begun = begin "enrich" w in
      if pipe.ended w.world then w else finish "enrich" (after_enrich (pipe.enrich w.world) begun)

  -- One named group, of which only the name is set, or all active ones.
  unfoldable pub target_groups : String → S → Ran (List Group) × S
  target_groups group s =
      if str_eq group ""
      then pipe.list_groups s
      else (ran (record { id = 0; name = group } ∷ []), s)

  abbrev failure_of : String → Option Error → Option Failure
  failure_of group none = none
  failure_of group (some err) = some (scan_failed group err)

  -- A pass that was cancelled is not recorded. The recorded message is that of the scan's own error.
  abbrev record_group : Bool → Group → Option Error → ScanResult → Worker S → Worker S
  record_group backfill g err res w = if pipe.ended w.world then w else record w {
    world =
        pipe.record_group_scan (g.id)
          (record {
            backfill = w.stages.scan_backfill;
            articles = res.articles_pulled;
            parts = res.parts_inserted;
            server_high = res.server_high;
            failure = failure_of (g.name) err;
          })
          w.world;
  }

  abbrev stage_of : Bool → String
  stage_of true = "backfill"
  stage_of false = "scan"

  abbrev account : Bool → Group → Option Error → ScanResult → Worker S → Worker S
  account backfill g (some err) res w =
      report (stage_of backfill) (g.name) (scan_failed (g.name) err) w
  account backfill g none res w =
      let m = w.metrics in
      record w {
        metrics = record m {
          articles_pulled = m.articles_pulled + res.articles_pulled;
          parts_inserted = m.parts_inserted + res.parts_inserted;
        };
      }

  abbrev scan_by : Bool → String → S → (Option Error × ScanResult) × S
  scan_by true group s = pipe.scan_backfill group s
  scan_by false group s = pipe.scan_forward group s

  abbrev close_group : String → Worker S → Worker S
  close_group name w = record w { stages = scan_group_end w.stages name }

  abbrev after_scan : Bool → Group → (Option Error × ScanResult) × S → Worker S → Worker S
  after_scan backfill g ((err, res), s) w =
      close_group (g.name)
        (record_group backfill g err res (account backfill g err res (record w { world = s })))

  -- One group, with its begin and its end.
  unfoldable pub scan_group : Bool → Group → Worker S → Worker S
  unfolding scan_group_begin scan_group_end
  scan_group backfill g w =
      after_scan backfill g (scan_by backfill (g.name) w.world)
        (record w { stages = scan_group_begin w.stages (g.name) })

  -- The groups in turn, until the context ends.
  unfoldable pub scan_groups : Bool → List Group → Worker S → Worker S
  scan_groups backfill [] w = w
  scan_groups backfill (g ∷ gs) w =
      if pipe.ended w.world then w else scan_groups backfill gs (scan_group backfill g w)

  abbrev pass_over : Bool → List Group → Worker S → Worker S
  pass_over backfill groups w =
      let begun = record w { stages = scan_pass_begin w.stages (length groups) backfill } in
      let done = scan_groups backfill groups begun in
      record done { stages = scan_pass_end done.stages }

  abbrev after_groups : Bool → Ran (List Group) × S → Worker S → Worker S
  after_groups backfill (failed err, s) w =
      report "" "" (list_groups_failed err) (record w { world = s })
  after_groups backfill (ran groups, s) w = pass_over backfill groups (record w { world = s })

  unfoldable pub run_scan : String → Bool → Worker S → Worker S
  unfolding stage_start stage_end scan_pass_begin scan_pass_end
  run_scan group backfill w =
      let begun = begin (stage_of backfill) w in
      finish (stage_of backfill) (after_groups backfill (target_groups group w.world) begun)

  -- What a tracked post-process job runs, and the error that it reports.
  unfoldable pub tracked_post_process : Worker S → Option Failure × Worker S
  unfolding last_pass_error
  tracked_post_process w = let after = (run_post_process w).1 in (last_pass_error after.log, after)
