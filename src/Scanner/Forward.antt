-- ===== src/Scanner/Forward.antt =====
-- internal/scanner/scanner.go, ScanForward: new articles, from the stored watermark to the server's.
mod Tiles
mod Tests
use nzb_indexer.Base.{
  ℕ, zero, suc, ◌+◌, ◌-◌, Bool, true, false, Option, none, some, List, [], ◌∷◌, ◌==◌, ltb, leb,
  if◌then◌else◌, ℤ, pos, pos_part, positive_or,
}
use nzb_indexer.Nntp.Errors.{Error, wrap}
use nzb_indexer.Scanner.Ingest.{Ingested}

-- The columns of a group that the two scans read.
pub record Group : Type 0 where
  pub id : ℕ
  pub last_scanned_high : ℕ
  pub backfill_low : ℕ
  pub backfill_complete : Bool
  pub forward_target_articles : Option ℤ
  pub backfill_target_articles : Option ℤ
  pub backfill_target_days : Option ℤ

pub record GroupInfo : Type 0 where
  pub low : ℕ
  pub high : ℕ

pub record Options : Type 0 where
  pub batch_size : ℤ
  pub forward_max_articles : ℤ
  pub backfill_days : ℤ
  pub backfill_max_articles : ℤ

pub record ScanResult : Type 0 where
  pub articles_pulled : ℕ
  pub parts_inserted : ℕ
  pub new_high : ℕ
  pub new_low : ℕ
  pub backfill_done : Bool
  pub server_high : ℕ

abbrev pub no_result : ScanResult
no_result = record {
  articles_pulled = 0;
  parts_inserted = 0;
  new_high = 0;
  new_low = 0;
  backfill_done = false;
  server_high = 0;
}

-- `opts.BatchSize`, as `New` leaves it.
abbrev pub batch_of : Options → ℕ
batch_of opts = positive_or 10000 opts.batch_size

-- The answers from outside, by round of the loop: the context, the batch, the store.
pub record Outside : Type 0 where
  pub ended : ℕ → Option Error
  pub ingest : ℕ → ℕ → ℕ → Ingested
  pub persist : ℕ → Option Error

-- What a scan does outside: batches put into the store, and watermarks persisted.
pub data Effect : Type 0 where
  ingested : ℕ → ℕ → Effect
  advanced : ℕ → Effect

pub data Ending : Type 0 where
  finished : Ending
  stopped : Error → Ending
  out_of_fuel : Ending

pub record Scan : Type 0 where
  pub effects : List Effect
  pub result : ScanResult
  pub ending : Ending

-- Where the pass starts, and the backfill watermark that the result reports.
unfoldable pub start_of : Group → GroupInfo → ℕ
start_of g info =
    let start = if g.last_scanned_high == 0 then info.low else g.last_scanned_high + 1 in
    if ltb start info.low then info.low else start

abbrev pub override : ℤ → Option ℤ → ℤ
override default none = default
override default (some target) = target

-- The last article of the pass.
unfoldable pub scan_to_of : Options → Group → GroupInfo → ℕ → ℕ
scan_to_of opts g info start =
    let most = pos_part (override opts.forward_max_articles g.forward_target_articles) in
    let capped = start + most - 1 in
    if ltb 0 most then (if ltb capped info.high then capped else info.high) else info.high

-- `res.ArticlesPulled += pulled; res.PartsInserted += inserted`
abbrev pub tally : ScanResult → Ingested → ScanResult
tally res i = record res {
  articles_pulled = res.articles_pulled + i.pulled;
  parts_inserted = res.parts_inserted + i.stored;
}

-- What follows the ingestion of a batch, by its error and that of persisting the watermark.
after_ingest :
    ℕ → ℕ → ScanResult → Ingested → Option Error → Option Error → (ScanResult → Scan) → Scan
after_ingest begin end res i (some err) persisted rest = record {
  effects = [];
  result = res;
  ending = stopped err;
}
after_ingest begin end res i none (some err) rest = record {
  effects = ingested begin end ∷ [];
  result = tally res i;
  ending = stopped (wrap err);
}
after_ingest begin end res i none none rest =
    let s = rest (record (tally res i) { new_high = end }) in
    record s { effects = ingested begin end ∷ advanced end ∷ s.effects }

-- The loop, from article `begin`, in round `k`.
unfoldable pub scan_loop : Outside → ℕ → ℕ → ℕ → ℕ → ℕ → ScanResult → Scan
unfolding after_ingest
scan_loop o batch scan_to zero k begin res = record {
  effects = [];
  result = res;
  ending = out_of_fuel;
}
scan_loop o batch scan_to (suc fuel) k begin res =
    let end = if ltb scan_to (begin + batch - 1) then scan_to else begin + batch - 1 in
    let i = o.ingest k begin end in
    elim (leb begin scan_to) [
      | false ↦ record { effects = []; result = res; ending = finished }
      | true ↦ elim (o.ended k) [
        | some err ↦ record { effects = []; result = res; ending = stopped err }
        | none ↦
            after_ingest begin end res i i.failure (o.persist k)
              (scan_loop o batch scan_to fuel (suc k) (begin + batch))
      ]
    ]

-- The pass, once the group and the server's bounds are known.
scan_known : Options → Group → GroupInfo → Outside → Scan
scan_known opts g info o =
    let start = start_of g info in
    let seeded = if g.last_scanned_high == 0 then info.low else 0 in
    let res = record no_result {
      server_high = info.high;
      new_low = seeded;
      new_high = g.last_scanned_high;
    } in
    let scan_to = scan_to_of opts g info start in
    if ltb info.high start
    then record { effects = []; result = res; ending = finished }
    else scan_loop o (batch_of opts) scan_to (suc (suc scan_to - start)) 0 start res

-- The two reads that come first.
pub data Loaded {ℓ} (A : Type ℓ) : Type ℓ where
  loaded : A → Loaded A
  load_failed : Error → Loaded A

unfoldable pub scan_forward : Options → Loaded Group → Loaded GroupInfo → Outside → Scan
unfolding scan_known
scan_forward opts (load_failed err) info o = record {
  effects = [];
  result = no_result;
  ending = stopped (wrap err);
}
scan_forward opts (loaded g) (load_failed err) o = record {
  effects = [];
  result = no_result;
  ending = stopped (wrap err);
}
scan_forward opts (loaded g) (loaded info) o = scan_known opts g info o
