-- ===== src/Search/Tests.antt =====
-- A rebuild over a listing of three in pages of two, and a search that falls back.
use nzb_indexer.Base.{ℕ, ◌+◌, ◌≡◌, refl, none, List, [], ◌∷◌, ◌++◌, arith, pos}
use nzb_indexer.Nntp.Errors.{network}
use nzb_indexer.Search.{
  Backend, found, search_failed, search_with_fallback, Source, finished, index_all, pages, reindex,
}
use nzb_indexer.Search.Rebuild.{position, page_at, Serves, IsComplete, reindex_lem}

abbrev listing : List ℕ
listing = 7 ∷ 8 ∷ 9 ∷ []

-- The index is the world.
abbrev source : Source ℕ ℕ (List ℕ)
source = record {
  search_page = λ size cursor s. (found (page_at listing size (position cursor)), s);
  index = λ r s. (none, s ++ (r ∷ []));
  ended = λ s. none;
}

source-Serves : Serves source listing (λ s. s)
source-Serves = record {
  page = λ size cursor s. (s, refl, refl);
  upsert = λ r s. (s ++ (r ∷ []), refl, refl);
  alive = λ s. refl;
}

program : Unit {0}
unfolding search_with_fallback index_all pages reindex
program = tt

rebuilt : reindex source (pos 2) 4 [] ≡ record { indexed = 3; ending = finished; world = listing }
unfolding program
rebuilt = refl

reindex_lem_example : IsComplete source listing (λ s. s) [] (reindex source (pos 0) 4 [])
reindex_lem_example = reindex_lem source listing (λ s. s) source-Serves (pos 0) 4 [] (omega arith)

abbrev down : Backend ℕ ℕ ℕ ℕ
down = record {
  search = λ f s. (search_failed network, s + 1);
  index_release = none;
  delete_release = none;
}

abbrev up : Backend ℕ ℕ ℕ ℕ
up = record { search = λ f s. (found (f + 1), s + 1); index_release = none; delete_release = none }

falls_back : search_with_fallback down up (λ err s. s + 10) 5 0 ≡ (found 6, 12)
unfolding program
falls_back = refl
