-- ===== src/Enrich.antt =====
-- internal/enrich/enrich.go: the metadata of releases, asked of providers in order. The store and the
-- providers step through a world; the parser of names is a parameter. The identifiers are stored in
-- the order in which they were found, which Go's map leaves open.
mod Answers
mod Counts
mod Tests
use Prim.Native.String.{String}
use nzb_indexer.Base.{
  ℕ, ◌+◌, ◌≤◌, Bool, true, false, ◌&&◌, ◌||◌, not, Option, none, some, List, [], ◌∷◌, ◌++◌, ltb,
  leb, if◌then◌else◌, ℤ, positive_or,
}
use nzb_indexer.Base.Dict.{lookup, insert}
use nzb_indexer.Nntp.Errors.{Error}

pub record Metadata : Type 0 where
  pub title : String
  pub year : ℕ
  pub season : ℕ
  pub episode : ℕ
  pub source : String
  pub external_id : String
  pub poster_url : String
  pub overview : String
  pub identifiers : List (String × String)

pub record Item : Type 0 where
  pub id : ℕ
  pub name : String
  pub category_id : Option ℕ

-- A provider's answer.
pub data Lookup : Type 0 where
  matched : Metadata → Lookup
  missed lookup_failed : Lookup

-- `0` in a field of the metadata is stored as NULL.
pub record MetadataInput : Type 0 where
  pub release_id : ℕ
  pub is_matched : Bool
  pub title : String
  pub year : Option ℕ
  pub season : Option ℕ
  pub episode : Option ℕ
  pub source : String
  pub external_id : String
  pub poster_url : String
  pub overview : String

pub data Listed : Type 0 where
  listed : List Item → Listed
  list_failed : Error → Listed

-- `Q` is the type of parsed names. `wait` is the pause between two releases, which gives the context's
-- error if that ends first.
pub record World (Q S : Type 0) : Type 0 where
  pub list_releases : ℕ → S → Listed × S
  pub upsert_metadata : MetadataInput → S → Bool × S
  pub add_identifier : ℕ → String → String → S → S
  pub parse_name : String → Bool → Q
  pub ended : S → Option Error
  pub wait : S → Option Error × S

abbrev pub Provider : Type 0 → Type 0 → Type 0
Provider Q S = Q → S → Lookup × S

pub record Result : Type 0 where
  pub processed : ℕ
  pub matches : ℕ
  pub misses : ℕ
  pub errors : ℕ

pub data Ending : Type 0 where
  finished : Ending
  stopped : Error → Ending

pub record Pass (S : Type 0) : Type 0 where
  pub result : Result
  pub ending : Ending
  pub world : S

-- CatTV is 5000.
unfoldable pub is_tv_category : Option ℕ → Bool
is_tv_category none = false
is_tv_category (some cat) = leb 5000 cat && ltb cat 6000

abbrev pub non_zero : ℕ → Option ℕ
non_zero n = if ltb 0 n then some n else none

-- What has been learned of a release so far.
pub record Learned : Type 0 where
  pub best : Option Metadata
  pub had_err : Bool
  pub idents : List (String × String)

abbrev pub nothing_learned : Learned
nothing_learned = record { best = none; had_err = false; idents = [] }

abbrev add_new : Option String → String → String → List (String × String) → List (String × String)
add_new none src val idents = insert src val idents
add_new (some old) src val idents = idents

-- The first writer of a source wins.
unfoldable pub merge_idents :
    List (String × String) → List (String × String) → List (String × String)
merge_idents idents [] = idents
merge_idents idents ((src, val) ∷ rest) =
    merge_idents (add_new (lookup src idents) src val idents) rest

abbrev first_best : Option Metadata → Metadata → Option Metadata
first_best none m = some m
first_best (some best) m = some best

unfoldable pub learn : Learned → Lookup → Learned
unfolding merge_idents
learn l lookup_failed = record l { had_err = true }
learn l missed = l
learn l (matched m) = record l {
  best = first_best (l.best) m;
  idents = merge_idents l.idents (m.identifiers);
}

abbrev missing_input : ℕ → MetadataInput
missing_input id = record {
  release_id = id;
  is_matched = false;
  title = "";
  year = none;
  season = none;
  episode = none;
  source = "";
  external_id = "";
  poster_url = "";
  overview = "";
}

abbrev pub input_of : ℕ → Option Metadata → MetadataInput
input_of id none = missing_input id
input_of id (some m) = record {
  release_id = id;
  is_matched = true;
  title = m.title;
  year = non_zero (m.year);
  season = non_zero (m.season);
  episode = non_zero (m.episode);
  source = m.source;
  external_id = m.external_id;
  poster_url = m.poster_url;
  overview = m.overview;
}

module _ {Q S : Type 0} (w : World Q S) (delayed : Bool) where
  abbrev stop : Result → Error → S → Pass S
  stop res err s = record { result = res; ending = stopped err; world = s }

  abbrev after_lookup : Learned → Lookup × S → (Learned → S → Pass S) → Pass S
  after_lookup l (answer, s) next = next (learn l answer) s

  -- The providers in turn; `next` is what follows with what they taught.
  unfoldable pub consult :
      List (Provider Q S) → Q → Learned → Result → S → (Learned → S → Pass S) → Pass S
  unfolding learn
  consult [] q l res s next = next l s
  consult (p ∷ ps) q l res s next = elim (w.ended s) [
    | some err ↦ stop res err s
    | none ↦ after_lookup l (p q s) (λ m t. consult ps q m res t next)
  ]

  unfoldable pub add_identifiers : ℕ → List (String × String) → S → S
  add_identifiers id [] s = s
  add_identifiers id ((src, val) ∷ rest) s = add_identifiers id rest (w.add_identifier id src val s)

  abbrev count_best : Option Metadata → Result → Result
  count_best none res = record res { misses = res.misses + 1 }
  count_best (some m) res = record res { matches = res.matches + 1 }

  abbrev count_upsert : Bool → Result → Result
  count_upsert true res = res
  count_upsert false res = record res { errors = res.errors + 1 }

  abbrev after_wait : Result → Option Error × S → (Result → S → Pass S) → Pass S
  after_wait res (some err, s) next = stop res err s
  after_wait res (none, s) next = next res s

  abbrev pause : Result → S → (Result → S → Pass S) → Pass S
  pause res s next = if delayed then after_wait res (w.wait s) next else next res s

  abbrev after_upsert : Item → Learned → Result → Bool × S → (Result → S → Pass S) → Pass S
  after_upsert item l res (good, s) next =
      pause (count_upsert good res) (add_identifiers (item.id) l.idents s) next

  abbrev is_found : Option Metadata → Bool
  is_found none = false
  is_found (some m) = true

  -- A release whose providers have answered.
  unfoldable pub store_learned : Item → Learned → Result → S → (Result → S → Pass S) → Pass S
  unfolding add_identifiers
  store_learned item l res s next =
      if not (is_found (l.best)) && l.had_err
      then next (record res { errors = res.errors + 1 }) s
      else after_upsert item l (count_best (l.best) res)
          (w.upsert_metadata (input_of (item.id) (l.best)) s) next

  unfoldable pub enrich_all : List (Provider Q S) → List Item → Result → S → Pass S
  unfolding consult store_learned
  enrich_all ps [] res s = record { result = res; ending = finished; world = s }
  enrich_all ps (item ∷ items) res s = elim (w.ended s) [
    | some err ↦ stop res err s
    | none ↦
        let counted = record res { processed = res.processed + 1 } in
        consult ps (w.parse_name (item.name) (is_tv_category (item.category_id))) nothing_learned
          counted s (λ l t. store_learned item l counted t (enrich_all ps items))
  ]

  abbrev pub no_result : Result
  no_result = record { processed = 0; matches = 0; misses = 0; errors = 0 }

  abbrev after_list : List (Provider Q S) → Listed × S → Pass S
  after_list ps (list_failed err, s) = stop no_result err s
  after_list ps (listed items, s) = enrich_all ps items no_result s

  unfoldable pub run : List (Provider Q S) → ℤ → S → Pass S
  unfolding is_tv_category
  run [] batch_limit s = record { result = no_result; ending = finished; world = s }
  run (p ∷ ps) batch_limit s = after_list (p ∷ ps) (w.list_releases (positive_or 100 batch_limit) s)
