-- ===== src/Scanner/Backfill/Region.antt =====
-- The region of a pass of ScanBackfill in internal/scanner/scanner.go, and its verdict.
use nzb_indexer.Base.{
  ℕ, suc, ◌+◌, ◌≤◌, ◌<◌, ◌≡◌, refl, sym, true, false, ◌||◌, none, some, List, ltb, leb, arith, pos,
  Option-cases, inl, inr,
}
use nzb_indexer.Scanner.Forward.{
  Group, GroupInfo, Options, no_result, batch_of, Ending, finished, stopped, out_of_fuel,
}
use nzb_indexer.Scanner.Backfill.{
  Outside, Effect, retreated, Scan, scan_known, conclude, snoc, upper_of, target_of, cutoff_of,
}
use nzb_indexer.Scanner.Backfill.Tiles.{Tiles, Progress, backfill_loop-Progress}

-- Where something is left below the watermark, the pass aims at an article between the server's low
-- and the start, and with a positive configured maximum `n` (the group's own, or else the general one)
-- it covers at most `n` articles.
pub target_bounds :
    (opts : Options) (g : Group) (info : GroupInfo) (upper : ℕ)
    → info.low ≤ upper
    → let target = target_of opts g info upper in
      (info.low ≤ target)
      × (target ≤ upper)
      × ((n : ℕ) → g.backfill_target_articles ≡ some (pos n) → 0 < n → upper < target + n)
      × ((n : ℕ)
          → g.backfill_target_articles ≡ none
          → opts.backfill_max_articles ≡ pos n
          → 0 < n
          → upper < target + n)
unfolding target_of
target_bounds opts g info upper h =
    (ground arith, ground arith, (λ n e p. ground arith), (λ n e q p. ground arith))

-- The articles of a pass are done for good: the batches tile everything from just below `u` down to
-- the server's low, and the last write says so.
abbrev pub Covers : ℕ → GroupInfo → Scan → Type 0
Covers u info s =
    (es : List Effect) × (s.effects ≡ snoc es (retreated info.low true)) × Tiles u es info.low

conclude-Covers :
    (info : GroupInfo) (o : Outside) (u target m : ℕ) (s : Scan) (e : Ending)
    → Progress u target m s
    → s.ending ≡ e
    → info.low ≤ target
    → (conclude info o e s).ending ≡ finished
    → (conclude info o e s).result.backfill_done ≡ true
    → (conclude info o e s).reached_cutoff ≡ false
    → Covers u info (conclude info o e s)
unfolding conclude
conclude-Covers info o u target m s (stopped err) p q low f d r = absurd (ground arith)
conclude-Covers info o u target m s out_of_fuel p q low f d r = absurd (p.fuelled q)
conclude-Covers info o u target m s finished p q low f d r =
    let high : s.result.new_low ≡ m = p.reported q in
    elim (Option-cases o.persist_last) [
      | inr (err, e) ↦ absurd (ground arith)
      | inl e ↦
          let same : m ≡ s.result.new_low = sym high in
          let done : (leb s.result.new_low info.low || s.reached_cutoff) ≡ true = rw e at d in
          let unpassed : s.reached_cutoff ≡ false = rw e at r in
          let at_target : m ≡ target = p.complete q unpassed in
          let bottom : s.result.new_low ≡ info.low = ground arith in
          let last : m ≡ info.low = ground arith in
          rw (e, done, bottom) (s.effects, refl, rw last at p.tiles)
    ]

batch_pos : (opts : Options) → 0 < batch_of opts
batch_pos opts = ground arith

-- A pass over known bounds with something left below the watermark that ends by itself with the
-- verdict "complete", without having passed the day bound, has stored a gapless tiling of every
-- article from just below the watermark down to the server's low, and persisted that verdict.
pub done-Covers :
    (opts : Options) (g : Group) (info : GroupInfo) (o : Outside)
    → info.low ≤ upper_of g info
    → (scan_known opts g info o).ending ≡ finished
    → (scan_known opts g info o).result.backfill_done ≡ true
    → (scan_known opts g info o).reached_cutoff ≡ false
    → Covers (upper_of g info + 1) info (scan_known opts g info o)
unfolding scan_known
done-Covers opts g info o low f d r =
    let upper = upper_of g info in
    let some_left : ltb upper info.low ≡ false = ground arith in
    let (m, p) =
      backfill_loop-Progress o (batch_of opts) (target_of opts g info upper) (cutoff_of opts g o)
        (suc (suc upper)) 0 upper
        (record no_result { server_high = info.high; new_low = upper + 1 }) (batch_pos opts)
        (target_bounds opts g info upper low).1 (omega arith) in
    rw some_left (
      conclude-Covers info o (upper + 1) (target_of opts g info upper) m _ _ p refl
        (target_bounds opts g info upper low).0 (rw some_left at f) (rw some_left at d)
        (rw some_left at r))
