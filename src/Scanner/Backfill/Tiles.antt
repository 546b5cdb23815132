-- ===== src/Scanner/Backfill/Tiles.antt =====
-- The watermark of ScanBackfill in internal/scanner/scanner.go: no article is skipped on the way down.
use nzb_indexer.Base.{
  ℕ, zero, suc, ◌+◌, ◌-◌, ◌≤◌, ◌<◌, ◌≡◌, ◌≢◌, refl, true, false, Option, none, some, List, [], ◌∷◌,
  ltb, leb, arith, if◌then◌else◌, Bool-cases, Option-cases, inl, inr, ◌==◌,
}
use nzb_indexer.Nntp.Errors.{Error}
use nzb_indexer.Scanner.Ingest.{Ingested}
use nzb_indexer.Scanner.Forward.{ScanResult, finished, out_of_fuel, tally}
use nzb_indexer.Scanner.Backfill.{
  Outside, Effect, ingested, retreated, Scan, scan_loop, after_ingest, passed,
}

-- The batches follow one another downwards without a gap from just below `u`, each is persisted
-- before the next, and the persisted watermark stands at `m` at the end. A last batch may be stored
-- with its watermark not persisted.
abbrev pub Tiles : ℕ → List Effect → ℕ → Type 0
Tiles u [] m = u ≡ m
Tiles u (ingested b e ∷ []) m = (e + 1 ≡ u) × (b ≤ e) × (u ≡ m)
Tiles u (ingested b e ∷ retreated h done ∷ rest) m =
    (e + 1 ≡ u) × (b ≤ e) × (h ≡ b) × (done ≡ false) × Tiles b rest m
Tiles u (ingested b e ∷ ingested c d ∷ rest) m = ⊥
Tiles u (retreated h done ∷ rest) m = ⊥

-- The state of a loop that began just below `u` and has persisted down to `m`.
pub record Progress (u target m : ℕ) (s : Scan) : Type 0 where
  pub tiles : Tiles u s.effects m
  pub below : m ≤ u
  pub within : target ≤ m
  pub fuelled : s.ending ≢ out_of_fuel
  pub complete : s.ending ≡ finished → s.reached_cutoff ≡ false → m ≡ target
  pub reported : s.ending ≡ finished → s.result.new_low ≡ m

abbrev pub Reaches : ℕ → ℕ → Scan → Type 0
Reaches u target s = (m : ℕ) × Progress u target m s

after_ingest-Progress :
    (begin end target : ℕ) (cutoff : Option ℕ) (res : ScanResult) (i : Ingested)
    (failure persisted : Option Error) (rest : ScanResult → Scan)
    → begin ≤ end
    → target ≤ begin
    → (begin ≢ target → (r : ScanResult) → Reaches begin target (rest r))
    → Reaches (end + 1) target (after_ingest begin end target cutoff res i failure persisted rest)
unfolding after_ingest
after_ingest-Progress begin end target cutoff res i (some err) persisted rest b t ih =
    (end + 1, ground arith)
after_ingest-Progress begin end target cutoff res i none (some err) rest b t ih =
    (end + 1, ground arith)
after_ingest-Progress begin end target cutoff res i none none rest b t ih =
    elim (Bool-cases (passed cutoff i.oldest)) [
      | inl e ↦ rw e (begin, ground arith)
      | inr e ↦ elim (Bool-cases (begin == target)) [
        | inl f ↦ rw (e, f) (begin, ground arith)
        | inr f ↦
            let (m, v) = ih (ground arith) (record (tally res i) { new_low = begin }) in
            rw (e, f)
              (
                m,
                record {
                  tiles = (refl, b, refl, refl, v.tiles);
                  below = omega (arith, v.below);
                  within = v.within;
                  fuelled = v.fuelled;
                  complete = v.complete;
                  reported = v.reported;
                },
              )
      ]
    ]

-- With a positive batch size, a target at or below `end` and fuel above `end`, the loop tiles the
-- articles from `end` down to the target without a gap, whatever fails and whenever; it never runs out
-- of fuel, and if it ends by itself it reports the watermark it persisted, which is the target unless
-- the day bound was passed.
pub backfill_loop-Progress :
    (o : Outside) (batch target : ℕ) (cutoff : Option ℕ) (fuel k end : ℕ) (res : ScanResult)
    → 0 < batch
    → target ≤ end
    → end < fuel
    → Reaches (end + 1) target (scan_loop o batch target cutoff fuel k end res)
unfolding scan_loop
backfill_loop-Progress o batch target cutoff zero k end res p t f = absurd (omega arith)
backfill_loop-Progress o batch target cutoff (suc fuel) k end res p t f =
    let more : leb target end ≡ true = ground arith in
    elim (Option-cases (o.ended k)) [
      | inr (err, e) ↦ rw (more, e, scan_loop) (end + 1, ground arith)
      | inl e ↦
          let begin : ℕ = if ltb (end + 1 - batch) target then target else end + 1 - batch in
          let ih : begin ≢ target
              → (r : ScanResult)
              → Reaches begin target
                  (scan_loop o batch target cutoff fuel (suc k) (end - batch) r) =
            λ ne r.
              let same : end - batch + 1 ≡ begin = ground arith in
              rw same at (
                backfill_loop-Progress o batch target cutoff fuel (suc k) (end - batch) r p
                  (ground arith) (ground arith)) in
          rw (more, e, scan_loop)
            (after_ingest-Progress begin end target cutoff res (o.ingest k begin end)
              (o.ingest k begin end).failure (o.persist k) _ (ground arith) (ground arith) ih)
    ]
