-- ===== src/Scanner/Backfill/Tests.antt =====
-- A first backfill of a group whose forward pass has read up to article 100: the pass starts at the
-- server's high, 25, and reads down to 1.
use nzb_indexer.Base.{◌+◌, ◌≡◌, refl, none, some, [], ◌∷◌, arith, pos, false, true}
use nzb_indexer.Scanner.Forward.{Group, GroupInfo, Options, loaded}
use nzb_indexer.Scanner.Backfill.{
  Outside, ingested, retreated, scan_loop, scan_known, scan_backfill, upper_of, target_of,
  cutoff_of,
}
use nzb_indexer.Scanner.Backfill.Region.{Covers, done-Covers}

abbrev group : Group
group = record {
  id = 1;
  last_scanned_high = 20;
  backfill_low = 0;
  backfill_complete = false;
  forward_target_articles = none;
  backfill_target_articles = none;
  backfill_target_days = none;
}

abbrev capped : Group
capped = record group { backfill_target_articles = some (pos 5) }

abbrev info : GroupInfo
info = record { low = 1; high = 25 }

abbrev options : Options
options = record {
  batch_size = pos 10;
  forward_max_articles = pos 0;
  backfill_days = pos 0;
  backfill_max_articles = pos 0;
}

abbrev outside : Outside
outside = record {
  ended = λ k. none;
  ingest = λ k b e. record { pulled = 10; stored = 9; oldest = none; failure = none };
  persist = λ k. none;
  persist_last = none;
  cutoff = λ d. 0;
}

program : Unit {0}
unfolding scan_backfill scan_known scan_loop upper_of target_of cutoff_of
program = tt

-- The forward region, articles 1 to 20, is fetched again.
three_batches :
    (scan_backfill options (loaded group) (loaded info) outside).effects
    ≡ ingested 16 25
      ∷ retreated 16 false
      ∷ ingested 6 15
      ∷ retreated 6 false
      ∷ ingested 1 5
      ∷ retreated 1 false
      ∷ retreated 1 true
      ∷ []
unfolding program
three_batches = refl

done-Covers_example : Covers (upper_of group info + 1) info (scan_known options group info outside)
unfolding program
done-Covers_example = done-Covers options group info outside (omega arith) refl refl refl
