-- ===== src/Release.antt =====
-- internal/release/release.go: complete binaries are promoted to releases. The store steps through a
-- world; the names, which rest on regular expressions, the hash and the fresh ids are parameters.
mod Marked
mod Tests
use Prim.Native.String.{String}
use text.Mathlib.Text.{◌==◌ as str_eq}
use nzb_indexer.Base.{
  ℕ, ◌+◌, Bool, Option, none, some, List, [], ◌∷◌, ◌++◌, if◌then◌else◌, ℤ, positive_or,
}
use nzb_indexer.Nntp.Errors.{Error}

pub record Binary : Type 0 where
  pub id : ℕ
  pub group_id : ℕ
  pub norm_subject : String
  pub collection_key : String
  pub poster : String
  pub total_parts : ℕ
  pub total_bytes : ℕ
  pub posted_at : Option ℕ

pub record ReleaseInput : Type 0 where
  pub guid : String
  pub name : String
  pub original_subject : String
  pub search_name : String
  pub obfuscated : Bool
  pub category_id : ℕ
  pub group_id : ℕ
  pub binary_id : ℕ
  pub poster : String
  pub total_parts : ℕ
  pub size_bytes : ℕ
  pub posted_at : Option ℕ
  pub release_hash : String

-- What the store answers to a list of binaries and to a release.
pub data Listed : Type 0 where
  listed : List Binary → Listed
  list_failed : Error → Listed

pub data Created : Type 0 where
  created duplicate : Created
  create_failed : Error → Created

pub record Repo (S : Type 0) : Type 0 where
  pub list_complete : ℕ → S → Listed × S
  pub create_release : ReleaseInput → S → Created × S
  pub mark_released : List ℕ → S → Option Error × S
  pub new_guid : S → String

pub record Naming : Type 0 where
  pub collection_base_name : String → String
  pub clean_name : String → String
  pub categorize : String → ℕ
  pub search_name : String → String
  pub is_obfuscated : String → Bool
  pub release_hash : String → ℕ → ℕ → String

pub record Result : Type 0 where
  pub created : ℕ
  pub duplicates : ℕ
  pub processed : ℕ

pub data Ending : Type 0 where
  finished : Ending
  list_stopped create_stopped mark_stopped : Error → Ending

pub record Pass (S : Type 0) : Type 0 where
  pub result : Result
  pub ending : Ending
  pub world : S

abbrev pub no_result : Result
no_result = record { created = 0; duplicates = 0; processed = 0 }

module _ (names : Naming) where
  unfoldable pub subject_of : Binary → String
  subject_of bin =
      if str_eq bin.collection_key ""
      then bin.norm_subject
      else names.collection_base_name (bin.collection_key)

  unfoldable pub name_of : String → String
  name_of subject = let name = names.clean_name subject in if str_eq name "" then subject else name

  unfoldable pub input_of : Binary → String → ReleaseInput
  unfolding subject_of name_of
  input_of bin guid =
      let subject = subject_of bin in
      let name = name_of subject in
      record {
        guid = guid;
        name = name;
        original_subject = subject;
        search_name = names.search_name name;
        obfuscated = names.is_obfuscated name;
        category_id = names.categorize name;
        group_id = bin.group_id;
        binary_id = bin.id;
        poster = bin.poster;
        total_parts = bin.total_parts;
        size_bytes = bin.total_bytes;
        posted_at = bin.posted_at;
        release_hash = names.release_hash name (bin.total_bytes) (bin.group_id);
      }

module _ {S : Type 0} (names : Naming) (repo : Repo S) where
  abbrev pub after_mark : Result → Option Error × S → Pass S
  after_mark res (none, s) = record { result = res; ending = finished; world = s }
  after_mark res (some err, s) = record { result = res; ending = mark_stopped err; world = s }

  abbrev pub after_create : Result → Created × S → (Result → S → Pass S) → Pass S
  after_create res (created, s) next = next (record res { created = res.created + 1 }) s
  after_create res (duplicate, s) next = next (record res { duplicates = res.duplicates + 1 }) s
  after_create res (create_failed err, s) next = record {
    result = res;
    ending = create_stopped err;
    world = s;
  }

  -- The loop, with the ids that are to be marked.
  unfoldable pub promote : List Binary → Result → List ℕ → S → Pass S
  unfolding input_of
  promote [] res ids s = after_mark res (repo.mark_released ids s)
  promote (bin ∷ bins) res ids s =
      after_create (record res { processed = res.processed + 1 })
        (repo.create_release (input_of names bin (repo.new_guid s)) s)
        (λ r t. promote bins r (ids ++ (bin.id ∷ [])) t)

  abbrev pub after_list : Listed × S → Pass S
  after_list (list_failed err, s) = record {
    result = no_result;
    ending = list_stopped err;
    world = s;
  }
  after_list (listed bins, s) = promote bins no_result [] s

  unfoldable pub build : ℤ → S → Pass S
  build batch_limit s = after_list (repo.list_complete (positive_or 500 batch_limit) s)
