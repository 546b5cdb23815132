-- ===== src/Scanner/Forward/Tests.antt =====
-- A pass over articles 101 to 125 in batches of ten, and the theorems there.
use nzb_indexer.Base.{ℕ, ◌≡◌, refl, none, some, [], ◌∷◌, arith, pos, false}
use nzb_indexer.Scanner.Ingest.{Ingested}
use nzb_indexer.Scanner.Forward.{
  Group, GroupInfo, Options, Outside, ingested, advanced, loaded, scan_forward, scan_loop, start_of,
  scan_to_of,
}
use nzb_indexer.Scanner.Forward.Tiles.{Progress, scan_forward-Progress}

abbrev group : Group
group = record {
  id = 1;
  last_scanned_high = 100;
  backfill_low = 0;
  backfill_complete = false;
  forward_target_articles = some (pos 25);
  backfill_target_articles = none;
  backfill_target_days = none;
}

abbrev info : GroupInfo
info = record { low = 1; high = 1000 }

abbrev options : Options
options = record {
  batch_size = pos 10;
  forward_max_articles = pos 0;
  backfill_days = pos 0;
  backfill_max_articles = pos 0;
}

abbrev batch : Ingested
batch = record { pulled = 10; stored = 9; oldest = none; failure = none }

abbrev outside : Outside
outside = record { ended = λ k. none; ingest = λ k b e. batch; persist = λ k. none }

program : Unit {0}
unfolding scan_forward scan_loop start_of scan_to_of
program = tt

three_batches :
    (scan_forward options (loaded group) (loaded info) outside).effects
    ≡ ingested 101 110
      ∷ advanced 110
      ∷ ingested 111 120
      ∷ advanced 120
      ∷ ingested 121 125
      ∷ advanced 125
      ∷ []
unfolding program
three_batches = refl

scan_forward-Progress_example :
    (m : ℕ) × Progress 101 125 100 m (scan_forward options (loaded group) (loaded info) outside)
unfolding start_of scan_to_of
scan_forward-Progress_example = scan_forward-Progress options group info outside (omega arith)
