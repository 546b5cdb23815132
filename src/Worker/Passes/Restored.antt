-- ===== src/Worker/Passes/Restored.antt =====
-- What the passes of internal/worker/worker.go leave of the stages that run.
use Prim.Native.String.{String}
use text.Mathlib.Text.{◌==◌ as str_eq}
use text.Mathlib.TextPositions.{eq_refl}
use nzb_indexer.Base.{
  ◌≡◌, ◌∙◌, refl, ap, Bool, false, Option, none, some, List, [], ◌∷◌, length, arith, Bool-cases,
  inl, inr,
}
use nzb_indexer.Nntp.Errors.{Error}
use nzb_indexer.Worker.Jobs.{has_id, drop_id}
use nzb_indexer.Worker.Stages.{
  Stages, add_id, stage_start, stage_end, scan_pass_begin, scan_pass_end, scan_group_begin,
  scan_group_end,
}
use nzb_indexer.Worker.Passes.{
  Ran, ran, failed, Group, ScanResult, Assembled, Built, PostProcessed, Pipeline, Worker, report,
  run_assemble, run_build, run_post_process, run_enrich, run_scan, scan_groups, scan_group,
  after_assemble, after_build, after_post_process, after_enrich, after_groups, target_groups,
  account, record_group, stage_of, scan_by,
}

drop_id-absent : (id : String) (ids : List String) → has_id id ids ≡ false → drop_id id ids ≡ ids
unfolding has_id drop_id
drop_id-absent id [] h = refl
drop_id-absent id (k ∷ ks) h =
    let other : str_eq k id ≡ false = ground arith in
    rw other (ap (λ l. k ∷ l) (drop_id-absent id ks (ground arith)))

drop_id-head :
    (id : String) (ids : List String) → has_id id ids ≡ false → drop_id id (id ∷ ids) ≡ ids
unfolding drop_id
drop_id-head id ids h = rw (eq_refl id) (drop_id-absent id ids h)

drop_id-add_id :
    (id : String) (ids : List String) → has_id id ids ≡ false → drop_id id (add_id id ids) ≡ ids
unfolding add_id
drop_id-add_id id ids h = rw h (drop_id-head id ids h)

module _ {S : Type 0} (pipe : Pipeline S) where
  -- The stages that run are those of before.
  abbrev pub SameActive : Worker S → Worker S → Type 0
  SameActive w v = v.stages.active ≡ w.stages.active

  stage_end-stage_start :
      (stages middle : Stages) (stage : String)
      → has_id stage stages.active ≡ false
      → middle.active ≡ (stage_start stages stage).active
      → (stage_end middle stage).active ≡ stages.active
  unfolding stage_start stage_end
  stage_end-stage_start stages middle stage h e = rw e (drop_id-add_id stage stages.active h)

  -- The steps between leave the stages alone.
  after_assemble-stages :
      (r : Ran Assembled) (s : S) (w : Worker S)
      → (after_assemble pipe (r, s) w).1.stages ≡ w.stages
  unfolding report
  after_assemble-stages (ran res) s w = refl
  after_assemble-stages (failed err) s w = refl

  after_build-stages :
      (r : Ran Built) (s : S) (w : Worker S) → (after_build pipe (r, s) w).1.stages ≡ w.stages
  unfolding report
  after_build-stages (ran res) s w = refl
  after_build-stages (failed err) s w = refl

  after_post_process-stages :
      (r : Ran PostProcessed) (s : S) (w : Worker S)
      → (after_post_process pipe (r, s) w).1.stages ≡ w.stages
  unfolding report
  after_post_process-stages (ran res) s w = refl
  after_post_process-stages (failed err) s w = refl

  after_enrich-stages :
      (r : Option Error) (s : S) (w : Worker S) → (after_enrich pipe (r, s) w).stages ≡ w.stages
  unfolding report
  after_enrich-stages none s w = refl
  after_enrich-stages (some err) s w = refl

  account-stages :
      (backfill : Bool) (g : Group) (err : Option Error) (res : ScanResult) (w : Worker S)
      → (account pipe backfill g err res w).stages ≡ w.stages
  unfolding report
  account-stages backfill g none res w = refl
  account-stages backfill g (some err) res w = refl

  record_group-stages :
      (backfill : Bool) (g : Group) (err : Option Error) (res : ScanResult) (w : Worker S)
      → (record_group pipe backfill g err res w).stages ≡ w.stages
  record_group-stages backfill g err res w = elim (Bool-cases (pipe.ended w.world)) [
    | inl over ↦ rw over refl
    | inr on ↦ rw on refl
  ]

  scan_group-SameActive :
      (backfill : Bool) (g : Group) (w : Worker S) → SameActive w (scan_group pipe backfill g w)
  unfolding scan_group scan_group_begin scan_group_end
  scan_group-SameActive backfill g w =
      let scanned = scan_by pipe backfill (g.name) w.world in
      let begun = record w { world = scanned.1; stages = scan_group_begin w.stages (g.name) } in
      let (err, res) = scanned.0 in
      ap (λ st. st.active)
        (record_group-stages backfill g err res (account pipe backfill g err res begun)
          ∙ account-stages backfill g err res begun)

  scan_groups-SameActive :
      (backfill : Bool) (gs : List Group) (w : Worker S)
      → SameActive w (scan_groups pipe backfill gs w)
  unfolding scan_groups
  scan_groups-SameActive backfill [] w = refl
  scan_groups-SameActive backfill (g ∷ gs) w = elim (Bool-cases (pipe.ended w.world)) [
    | inl over ↦ rw over refl
    | inr on ↦ rw on (
        scan_groups-SameActive backfill gs (scan_group pipe backfill g w)
        ∙ scan_group-SameActive backfill g w)
  ]

  after_groups-SameActive :
      (backfill : Bool) (r : Ran (List Group)) (s : S) (w : Worker S)
      → SameActive w (after_groups pipe backfill (r, s) w)
  unfolding report scan_pass_begin scan_pass_end
  after_groups-SameActive backfill (failed err) s w = refl
  after_groups-SameActive backfill (ran groups) s w =
      scan_groups-SameActive backfill groups
        (record w { world = s; stages = scan_pass_begin w.stages (length groups) backfill })

  -- A pass that runs unless the context has ended.
  pass-SameActive :
      (w : Worker S) (stage : String) (middle : Stages)
      → has_id stage w.stages.active ≡ false
      → middle ≡ stage_start w.stages stage
      → (stage_end middle stage).active ≡ w.stages.active
  pass-SameActive w stage middle h e =
      stage_end-stage_start w.stages middle stage h (ap (λ st. st.active) e)

  -- No pass leaves its stage running, whatever it answers: after an assembly, a build, a post-process, an
  -- enrichment or a scan that begins while its own stage is not running, whatever the outcome, the stages
  -- that run are those that ran before.
  pub passes-SameActive :
      (w : Worker S) (group : String) (backfill : Bool)
      → has_id "assemble" w.stages.active ≡ false
      → has_id "release" w.stages.active ≡ false
      → has_id "postprocess" w.stages.active ≡ false
      → has_id "enrich" w.stages.active ≡ false
      → has_id (stage_of pipe backfill) w.stages.active ≡ false
      → SameActive w (run_assemble pipe w).1
        × SameActive w (run_build pipe w).1
        × SameActive w (run_post_process pipe w).1
        × SameActive w (run_enrich pipe w)
        × SameActive w (run_scan pipe group backfill w)
  unfolding run_assemble run_build run_post_process run_enrich run_scan
  passes-SameActive w group backfill no_assemble no_release no_pp no_enrich no_scan =
      let listed = target_groups pipe group w.world in
      let begun = record w { stages = stage_start w.stages (stage_of pipe backfill) } in
      let scanned =
        stage_end-stage_start w.stages (after_groups pipe backfill listed begun).stages
          (stage_of pipe backfill) no_scan
          (after_groups-SameActive backfill (listed.0) (listed.1) begun) in
      elim (Bool-cases (pipe.ended w.world)) [
        | inl over ↦ rw over (refl, refl, refl, refl, scanned)
        | inr on ↦ rw on (
          pass-SameActive w "assemble" _ no_assemble (after_assemble-stages _ _ _),
          pass-SameActive w "release" _ no_release (after_build-stages _ _ _),
          pass-SameActive w "postprocess" _ no_pp (after_post_process-stages _ _ _),
          pass-SameActive w "enrich" _ no_enrich (after_enrich-stages _ _ _),
          scanned,
        )
      ]
