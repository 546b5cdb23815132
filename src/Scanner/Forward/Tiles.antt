-- ===== src/Scanner/Forward/Tiles.antt =====
-- The watermark of ScanForward in internal/scanner/scanner.go: no article is skipped, whatever fails.
use nzb_indexer.Base.{
  ℕ, zero, suc, ◌+◌, ◌-◌, ◌≤◌, ◌<◌, ◌≡◌, ◌≢◌, ◌⊎◌, refl, false, Option, none, some, List, [], ◌∷◌,
  ltb, leb, arith, if◌then◌else◌, pos, Bool-cases, Option-cases, inl, inr, min, leb→le, max, ◌==◌,
}
use native.Mathlib.Decide.{dec_lt}
use nzb_indexer.Nntp.Errors.{Error}
use nzb_indexer.Scanner.Ingest.{Ingested}
use nzb_indexer.Scanner.Forward.{
  Group, GroupInfo, Options, ScanResult, Outside, Effect, ingested, advanced, finished, stopped,
  out_of_fuel, Scan, loaded, scan_loop, scan_forward, start_of, scan_to_of, after_ingest, tally,
  batch_of,
}

-- The batches follow one another without a gap from article `n`, each is persisted before the next,
-- and the persisted watermark stands just below `m` at the end. A last batch may be stored with its
-- watermark not persisted: it will be fetched again.
abbrev pub Tiles : ℕ → List Effect → ℕ → Type 0
Tiles n [] m = n ≡ m
Tiles n (ingested b e ∷ []) m = (b ≡ n) × (b ≤ e) × (n ≡ m)
Tiles n (ingested b e ∷ advanced h ∷ rest) m = (b ≡ n) × (b ≤ e) × (h ≡ e) × Tiles (e + 1) rest m
Tiles n (ingested b e ∷ ingested c d ∷ rest) m = ⊥
Tiles n (advanced h ∷ rest) m = ⊥

-- The state of a pass that began at `start`, with the watermark `before`, and has its next article to
-- fetch at `m`.
pub record Progress (start scan_to before m : ℕ) (s : Scan) : Type 0 where
  pub tiles : Tiles start s.effects m
  pub forward : start ≤ m
  pub within : m ≤ scan_to + 1
  pub fuelled : s.ending ≢ out_of_fuel
  pub complete : s.ending ≡ finished → m ≡ scan_to + 1
  pub reported : start < m → s.result.new_high + 1 ≡ m
  pub unmoved : m ≡ start → s.result.new_high ≡ before

abbrev Reaches : ℕ → ℕ → ℕ → Scan → Type 0
Reaches start scan_to before s = (m : ℕ) × Progress start scan_to before m s

stop-Progress :
    (start scan_to : ℕ) (res : ScanResult) (err : Error)
    → start ≤ scan_to + 1
    → Reaches start scan_to res.new_high
        (record { effects = []; result = res; ending = stopped err })
stop-Progress start scan_to res err h = (start, ground arith)

finish-Progress :
    (start scan_to : ℕ) (res : ScanResult)
    → start ≡ scan_to + 1
    → Progress start scan_to res.new_high start
        (record { effects = []; result = res; ending = finished })
finish-Progress start scan_to res h = ground arith

moved :
    (start m before now : ℕ)
    → start ≤ m
    → (start < m → now + 1 ≡ m)
    → (m ≡ start → now ≡ before)
    → before + 1 ≡ start
    → now + 1 ≡ m
moved start m before now le up stay h = elim (dec_lt start m) [
  | yes lt ↦ up lt
  | no same ↦ omega (arith, stay (omega arith))
]

after_ingest-Progress :
    (begin end scan_to : ℕ) (res : ScanResult) (i : Ingested) (failure persisted : Option Error)
    (rest : ScanResult → Scan)
    → begin ≤ end
    → end ≤ scan_to
    → ((r : ScanResult) → Reaches (end + 1) scan_to r.new_high (rest r))
    → Reaches begin scan_to res.new_high (after_ingest begin end res i failure persisted rest)
unfolding after_ingest
after_ingest-Progress begin end scan_to res i (some err) persisted rest b e ih =
    stop-Progress begin scan_to res err (omega arith)
after_ingest-Progress begin end scan_to res i none (some err) rest b e ih = (begin, ground arith)
after_ingest-Progress begin end scan_to res i none none rest b e ih =
    let (m, v) = ih (record (tally res i) { new_high = end }) in
    (
      m,
      record {
        tiles = (refl, b, refl, v.tiles);
        forward = omega (arith, v.forward);
        within = v.within;
        fuelled = v.fuelled;
        complete = v.complete;
        reported = λ x. moved (end + 1) m end _ v.forward v.reported v.unmoved refl;
        unmoved = λ x. absurd (omega (arith, v.forward));
      },
    )

-- The pass ends between its start and the server's high; under a positive budget of the group, or the
-- global one where the group has none, after that many articles at most.
pub scan_to_bounds :
    (opts : Options) (g : Group) (info : GroupInfo) (start : ℕ)
    → start ≤ info.high
    → let last = scan_to_of opts g info start in
      (start ≤ last)
      × (last ≤ info.high)
      × ((n : ℕ) → g.forward_target_articles ≡ some (pos n) → 0 < n → last < start + n)
      × ((n : ℕ)
          → g.forward_target_articles ≡ none
          → opts.forward_max_articles ≡ pos n
          → 0 < n
          → last < start + n)
unfolding scan_to_of
scan_to_bounds opts g info start h =
    (ground arith, ground arith, (λ n e p. ground arith), (λ n e q p. ground arith))

-- The pass starts within the server's articles, at the server's low on a first scan, and else above
-- the stored watermark.
pub start_bounds :
    (g : Group) (info : GroupInfo)
    → (info.low ≤ start_of g info)
      × (g.last_scanned_high < start_of g info
          ⊎ ((g.last_scanned_high ≡ 0) × (start_of g info ≡ info.low)))
      × (start_of g info ≤ max info.low (g.last_scanned_high + 1))
unfolding start_of
start_bounds g info = ground arith

scan_loop-Progress :
    (o : Outside) (batch scan_to fuel k begin : ℕ) (res : ScanResult)
    → 0 < batch
    → scan_to + 1 - begin < fuel
    → Reaches
        (min begin (scan_to + 1))
        scan_to
        res.new_high
        (scan_loop o batch scan_to fuel k begin res)
unfolding scan_loop
scan_loop-Progress o batch scan_to zero k begin res p f = absurd (omega arith)
scan_loop-Progress o batch scan_to (suc fuel) k begin res p f =
    elim (Bool-cases (leb begin scan_to)) [
      | inr over ↦
          rw (over, scan_loop)
            (min begin (scan_to + 1), finish-Progress _ scan_to res (ground arith))
      | inl more ↦ elim (Option-cases (o.ended k)) [
        | inr (err, e) ↦ rw (more, e, scan_loop) (stop-Progress _ scan_to res err (omega arith))
        | inl e ↦
            let end = if ltb scan_to (begin + batch - 1) then scan_to else begin + batch - 1 in
            let same : min begin (scan_to + 1) ≡ begin = ground arith in
            let next : min (begin + batch) (scan_to + 1) ≡ end + 1 = ground arith in
            let ih : (r : ScanResult)
                → Reaches (end + 1) scan_to r.new_high
                    (scan_loop o batch scan_to fuel (suc k) (begin + batch) r) =
              λ r. rw next at (
                scan_loop-Progress o batch scan_to fuel (suc k) (begin + batch) r p
                  (omega (arith, leb→le begin scan_to more))) in
            rw (more, e, scan_loop)
              (rw same (
                after_ingest-Progress begin end scan_to res (o.ingest k begin end)
                  (o.ingest k begin end).failure (o.persist k) _ (ground arith) (ground arith) ih))
      ]
    ]

-- A pass with something new to fetch tiles the articles from its start without a gap, whatever fails
-- and whenever; it never runs out of fuel, its watermark is what the result reports, and if it
-- finishes it has reached its last article.
pub scan_forward-Progress :
    (opts : Options) (g : Group) (info : GroupInfo) (o : Outside)
    → start_of g info ≤ info.high
    → let start = start_of g info in
      (m : ℕ) × Progress start
        (scan_to_of opts g info start)
        g.last_scanned_high
        m
        (scan_forward opts (loaded g) (loaded info) o)
unfolding scan_forward
scan_forward-Progress opts g info o h =
    let start = start_of g info in
    let top = scan_to_of opts g info start in
    let within = (scan_to_bounds opts g info start h).0 in
    let new : ltb info.high start ≡ false = ground arith in
    let same : min start (top + 1) ≡ start = omega arith in
    rw new (
      rw same at (
        scan_loop-Progress o (batch_of opts) top (suc (suc top - start)) 0 start
          (record {
            articles_pulled = 0;
            parts_inserted = 0;
            new_high = g.last_scanned_high;
            new_low = if g.last_scanned_high == 0 then info.low else 0;
            backfill_done = false;
            server_high = info.high;
          })
          (ground arith) (omega arith)))
