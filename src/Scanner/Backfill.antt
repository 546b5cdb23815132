-- ===== src/Scanner/Backfill.antt =====
-- internal/scanner/scanner.go, ScanBackfill: older articles, from the backfill watermark down. The
-- instant of the day bound (`time.Now().AddDate(0, 0, -days)`) comes from outside.
mod Tiles
mod Region
mod Tests
use nzb_indexer.Base.{
  ℕ, zero, suc, ◌+◌, ◌-◌, Bool, true, false, ◌||◌, Option, none, some, List, [], ◌∷◌, ◌==◌, ltb,
  leb, if◌then◌else◌, ℤ, pos_part,
}
use nzb_indexer.Nntp.Errors.{Error, wrap}
use nzb_indexer.Scanner.Ingest.{Ingested}
use nzb_indexer.Scanner.Forward.{
  Group, GroupInfo, Options, ScanResult, no_result, batch_of, Ending, finished, stopped,
  out_of_fuel, Loaded, loaded, load_failed, tally, override,
}

-- The answers from outside: by round, the context, the batch and the store; the store's last answer;
-- the cutoff of a number of days.
pub record Outside : Type 0 where
  pub ended : ℕ → Option Error
  pub ingest : ℕ → ℕ → ℕ → Ingested
  pub persist : ℕ → Option Error
  pub persist_last : Option Error
  pub cutoff : ℕ → ℕ

pub data Effect : Type 0 where
  ingested : ℕ → ℕ → Effect
  retreated : ℕ → Bool → Effect

pub record Scan : Type 0 where
  pub effects : List Effect
  pub result : ScanResult
  pub reached_cutoff : Bool
  pub ending : Ending

-- The article where the pass starts. The source first computes another value for a group that has
-- been scanned forwards, and overwrites it.
unfoldable pub upper_of : Group → GroupInfo → ℕ
upper_of g info = if g.backfill_low == 0 then info.high else g.backfill_low - 1

-- The lowest article of the pass: `upper - maxArticles + 1` if that is above the server's low.
unfoldable pub target_of : Options → Group → GroupInfo → ℕ → ℕ
target_of opts g info upper =
    let most = pos_part (override opts.backfill_max_articles g.backfill_target_articles) in
    let lim = upper + 1 - most in
    if ltb 0 most then (if ltb info.low lim then lim else info.low) else info.low

unfoldable pub cutoff_of : Options → Group → Outside → Option ℕ
cutoff_of opts g o =
    let days = pos_part (override opts.backfill_days g.backfill_target_days) in
    if ltb 0 days then some (o.cutoff days) else none

-- `!cutoff.IsZero() && !oldest.IsZero() && oldest.Before(cutoff)`
abbrev pub passed : Option ℕ → Option ℕ → Bool
passed none oldest = false
passed (some cutoff) none = false
passed (some cutoff) (some oldest) = ltb oldest cutoff

-- What follows the ingestion of a batch.
after_ingest :
    ℕ
    → ℕ
    → ℕ
    → Option ℕ
    → ScanResult
    → Ingested
    → Option Error
    → Option Error
    → (ScanResult → Scan)
    → Scan
after_ingest begin end target cutoff res i (some err) persisted rest = record {
  effects = [];
  result = res;
  reached_cutoff = false;
  ending = stopped err;
}
after_ingest begin end target cutoff res i none (some err) rest = record {
  effects = ingested begin end ∷ [];
  result = record (tally res i) { new_low = begin };
  reached_cutoff = false;
  ending = stopped (wrap err);
}
after_ingest begin end target cutoff res i none none rest =
    let res' = record (tally res i) { new_low = begin } in
    let s = rest res' in
    let effects = ingested begin end ∷ retreated begin false ∷ [] in
    if passed cutoff i.oldest
    then record { effects = effects; result = res'; reached_cutoff = true; ending = finished }
    else if begin == target
    then record { effects = effects; result = res'; reached_cutoff = false; ending = finished }
    else record s { effects = ingested begin end ∷ retreated begin false ∷ s.effects }

-- The loop, from article `end` downwards, in round `k`.
unfoldable pub scan_loop : Outside → ℕ → ℕ → Option ℕ → ℕ → ℕ → ℕ → ScanResult → Scan
unfolding after_ingest
scan_loop o batch target cutoff zero k end res = record {
  effects = [];
  result = res;
  reached_cutoff = false;
  ending = out_of_fuel;
}
scan_loop o batch target cutoff (suc fuel) k end res =
    let begin = if ltb (end + 1 - batch) target then target else end + 1 - batch in
    let i = o.ingest k begin end in
    elim (leb target end) [
      | false ↦ record { effects = []; result = res; reached_cutoff = false; ending = finished }
      | true ↦ elim (o.ended k) [
        | some err ↦ record {
          effects = [];
          result = res;
          reached_cutoff = false;
          ending = stopped err;
        }
        | none ↦
            after_ingest begin end target cutoff res i i.failure (o.persist k)
              (scan_loop o batch target cutoff fuel (suc k) (end - batch))
      ]
    ]

abbrev pub snoc : List Effect → Effect → List Effect
snoc [] e = e ∷ []
snoc (x ∷ xs) e = x ∷ snoc xs e

-- Past the loop: the position is persisted once more, with the verdict.
conclude : GroupInfo → Outside → Ending → Scan → Scan
conclude info o finished s =
    let done = leb s.result.new_low info.low || s.reached_cutoff in
    elim o.persist_last [
      | some err ↦ record s { ending = stopped (wrap err) }
      | none ↦ record s {
        effects = snoc s.effects (retreated s.result.new_low done);
        result = record (s.result) { backfill_done = done };
      }
    ]
conclude info o ending s = s

-- Nothing lies below the watermark.
nothing_left : GroupInfo → ScanResult → Option Error → Scan
nothing_left info res (some err) = record {
  effects = [];
  result = res;
  reached_cutoff = false;
  ending = stopped err;
}
nothing_left info res none = record {
  effects = retreated info.low true ∷ [];
  result = record res { backfill_done = true; new_low = info.low };
  reached_cutoff = false;
  ending = finished;
}

unfoldable pub scan_known : Options → Group → GroupInfo → Outside → Scan
unfolding nothing_left conclude
scan_known opts g info o =
    let upper = upper_of g info in
    let target = target_of opts g info upper in
    let res = record no_result { server_high = info.high } in
    let s =
      scan_loop o (batch_of opts) target (cutoff_of opts g o) (suc (suc upper)) 0 upper
        (record res { new_low = upper + 1 }) in
    if ltb upper info.low then nothing_left info res o.persist_last else conclude info o s.ending s

unfoldable pub scan_backfill : Options → Loaded Group → Loaded GroupInfo → Outside → Scan
scan_backfill opts (load_failed err) info o = record {
  effects = [];
  result = no_result;
  reached_cutoff = false;
  ending = stopped (wrap err);
}
scan_backfill opts (loaded g) info o = elim g.backfill_complete [
  | true ↦ record {
    effects = [];
    result = record no_result { backfill_done = true; new_low = g.backfill_low };
    reached_cutoff = false;
    ending = finished;
  }
  | false ↦ elim info [
    | load_failed err ↦ record {
      effects = [];
      result = no_result;
      reached_cutoff = false;
      ending = stopped (wrap err);
    }
    | loaded bounds ↦ scan_known opts g bounds o
  ]
]
