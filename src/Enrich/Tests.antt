-- ===== src/Enrich/Tests.antt =====
-- Two providers, of which one fails, and one release.
use Prim.Native.String.{String}
use nzb_indexer.Base.{ℕ, suc, ◌≡◌, refl, Bool, true, false, none, some, List, [], ◌∷◌, pos}
use nzb_indexer.Base.Dict.{lookup, insert}
use nzb_indexer.Enrich.{
  Metadata, Item, matched, lookup_failed, World, Provider, finished, Pass, Learned, nothing_learned,
  learn, merge_idents, consult, add_identifiers, store_learned, enrich_all, is_tv_category, listed,
  no_result, run,
}
use nzb_indexer.Enrich.Answers.{ask, first_match, any_failed, first_ident, consult_lem}
use nzb_indexer.Enrich.Counts.{IsAccounted, run-IsAccounted}

abbrev film : Metadata
film = record {
  title = "T";
  year = 1999;
  season = 0;
  episode = 0;
  source = "tmdb";
  external_id = "9";
  poster_url = "";
  overview = "";
  identifiers = ("imdb", "tt1") ∷ [];
}

abbrev release : Item
release = record { id = 4; name = "T.1999"; category_id = some 2000 }

-- The world counts the calls that change it.
abbrev world : World Bool ℕ
world = record {
  list_releases = λ limit s. (listed (release ∷ []), s);
  upsert_metadata = λ input s. (true, suc s);
  add_identifier = λ id src val s. suc s;
  parse_name = λ name is_tv. is_tv;
  ended = λ s. none;
  wait = λ s. (none, s);
}

abbrev providers : List (Provider Bool ℕ)
providers = (λ q s. (lookup_failed, s)) ∷ (λ q s. (matched film, s)) ∷ []

program : Unit {0}
unfolding lookup insert learn merge_idents consult add_identifiers store_learned enrich_all
    is_tv_category run
program = tt

one_match : (run world false providers (pos 0) 0).result.matches ≡ 1
unfolding program
one_match = refl

two_writes : (run world false providers (pos 0) 0).world ≡ 2
unfolding program
two_writes = refl

only_failures : (run world true ((λ q s. (lookup_failed, s)) ∷ []) (pos 0) 0).result.errors ≡ 1
unfolding program
only_failures = refl

abbrev stop_here : Learned → ℕ → Pass ℕ
stop_here l s = record { result = no_result world false; ending = finished; world = s }

consult_lem_example :
    let answers = ask world false providers true 0 in
    (l : Learned) × (consult world false providers true nothing_learned
        (no_result world false)
        0
        stop_here
      ≡ stop_here l (answers.1))
    × (l.best ≡ first_match (answers.0))
    × (l.had_err ≡ any_failed (answers.0))
    × ((src : String) → lookup src (l.idents) ≡ first_ident src (answers.0))
consult_lem_example =
    consult_lem world false providers true (no_result world false) 0 stop_here (λ s. refl)

run-IsAccounted_example : IsAccounted (run world false providers (pos 0) 0)
run-IsAccounted_example = run-IsAccounted world false providers (pos 0) 0
