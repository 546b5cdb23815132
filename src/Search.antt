-- ===== src/Search.antt =====
-- internal/search/search.go: the backend that falls back to another, and the rebuild of the derived
-- index. The store and the index are a world; `R` is the type of releases, `C` of cursors.
mod Rebuild
mod Tests
use nzb_indexer.Base.{
  ℕ, zero, suc, ◌+◌, Bool, true, false, not, ◌||◌, Option, none, some, List, [], ◌∷◌, if◌then◌else◌,
  ℤ, positive_or,
}
use nzb_indexer.Nntp.Errors.{Error}

-- What a search gives.
pub data Found (A : Type 0) : Type 0 where
  found : A → Found A
  search_failed : Error → Found A

-- A backend: its search, and its index operations if it is an Indexer.
pub record Backend (F A R S : Type 0) : Type 0 where
  pub search : F → S → Found A × S
  pub index_release : Option (R → S → Option Error × S)
  pub delete_release : Option (R → S → Option Error × S)

abbrev if_indexer : {R S : Type 0} → Option (R → S → Option Error × S) → R → S → Option Error × S
if_indexer none r s = (none, s)
if_indexer (some index) r s = index r s

module _ {F A R S : Type 0} where
  abbrev or_secondary : Backend F A R S → (Error → S → S) → F → Found A × S → Found A × S
  or_secondary secondary on_fallback f (found a, s) = (found a, s)
  or_secondary secondary on_fallback f (search_failed err, s) =
      secondary.search f (on_fallback err s)

  -- `on_fallback` does nothing where there is none.
  unfoldable pub search_with_fallback :
      Backend F A R S → Backend F A R S → (Error → S → S) → F → S → Found A × S
  search_with_fallback primary secondary on_fallback f s =
      or_secondary secondary on_fallback f (primary.search f s)

  unfoldable pub index_release : Backend F A R S → R → S → Option Error × S
  index_release primary r s = if_indexer primary.index_release r s

  unfoldable pub delete_release : Backend F A R S → R → S → Option Error × S
  delete_release primary r s = if_indexer primary.delete_release r s

pub record Page (R C : Type 0) : Type 0 where
  pub releases : List R
  pub next_cursor : Option C
  pub has_more : Bool

-- The store's page after a cursor, of a size; the index's upsert; and the context's error.
pub record Source (R C S : Type 0) : Type 0 where
  pub search_page : ℕ → Option C → S → Found (Page R C) × S
  pub index : R → S → Option Error × S
  pub ended : S → Option Error

pub data Ending : Type 0 where
  finished out_of_fuel : Ending
  stopped : Error → Ending

pub record Reindexed (S : Type 0) : Type 0 where
  pub indexed : ℕ
  pub ending : Ending
  pub world : S

module _ {R C S : Type 0} (src : Source R C S) where
  abbrev after_index : ℕ → Option Error × S → (ℕ → S → Reindexed S) → Reindexed S
  after_index indexed (some err, s) next = record {
    indexed = indexed;
    ending = stopped err;
    world = s;
  }
  after_index indexed (none, s) next = next (indexed + 1) s

  -- The releases of a page; `next` is what follows.
  unfoldable pub index_all : List R → ℕ → S → (ℕ → S → Reindexed S) → Reindexed S
  index_all [] indexed s next = next indexed s
  index_all (r ∷ rs) indexed s next =
      after_index indexed (src.index r s) (λ n t. index_all rs n t next)

  abbrev is_empty : List R → Bool
  is_empty [] = true
  is_empty (r ∷ rs) = false

  -- The end of a page: another one, unless the last is done.
  abbrev continue : Page R C → Option C → (Option C → ℕ → S → Reindexed S) → ℕ → S → Reindexed S
  continue page none next indexed s = record { indexed = indexed; ending = finished; world = s }
  continue page (some c) next indexed s =
      if not page.has_more || is_empty page.releases
      then record { indexed = indexed; ending = finished; world = s }
      else next (some c) indexed s

  abbrev after_search : ℕ → Found (Page R C) × S → (Option C → ℕ → S → Reindexed S) → Reindexed S
  after_search indexed (search_failed err, s) next = record {
    indexed = indexed;
    ending = stopped err;
    world = s;
  }
  after_search indexed (found page, s) next =
      index_all page.releases indexed s (continue page (page.next_cursor) next)

  unfoldable pub pages : ℕ → ℕ → Option C → ℕ → S → Reindexed S
  unfolding index_all
  pages size zero cursor indexed s = record { indexed = indexed; ending = out_of_fuel; world = s }
  pages size (suc fuel) cursor indexed s = elim (src.ended s) [
    | some err ↦ record { indexed = indexed; ending = stopped err; world = s }
    | none ↦ after_search indexed (src.search_page size cursor s) (pages size fuel)
  ]

  unfoldable pub reindex : ℤ → ℕ → S → Reindexed S
  reindex page_size fuel s = pages (positive_or 500 page_size) fuel none 0 s
