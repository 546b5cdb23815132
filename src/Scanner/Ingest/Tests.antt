-- ===== src/Scanner/Ingest/Tests.antt =====
-- A batch of three articles, the second without a message id.
use Prim.Native.String.{String}
use nzb_indexer.Base.{ℕ, ◌≡◌, refl, Option, none, some, List, [], ◌∷◌}
use nzb_indexer.Scanner.Ingest.{
  Overview, ParsedSubject, to_parts, fetched, inserted, ingest_range_tracked,
}

-- A parser that finds no counters.
abbrev plain : String → ParsedSubject
plain s = record {
  part_number = 0;
  total_parts = 0;
  normalized = s;
  collection_key = "";
  file_number = 0;
  collection_files = 0;
}

abbrev article : ℕ → String → Option ℕ → Overview
article n id date = record {
  article_number = n;
  subject = "subject";
  poster = "poster";
  date = date;
  message_id = id;
  bytes = 700;
}

abbrev batch : List Overview
batch = article 7 "a@b" (some 50) ∷ article 8 "" (some 10) ∷ article 9 "c@d" (some 40) ∷ []

program : Unit {0}
unfolding to_parts ingest_range_tracked
program = tt

reported :
    ingest_range_tracked plain 1 (fetched batch) (λ parts. inserted 2)
    ≡ record { pulled = 3; stored = 2; oldest = some 40; failure = none }
unfolding program
reported = refl
