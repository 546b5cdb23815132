-- ===== src/Release/Tests.antt =====
-- Three binaries, of which the second is a duplicate, and a store that refuses one.
use nzb_indexer.Base.{
  ℕ, ◌+◌, ◌≡◌, refl, false, none, List, [], ◌∷◌, ◌++◌, ◌==◌, if◌then◌else◌, pos, ◌⊎◌,
}
use nzb_indexer.Nntp.Errors.{network}
use nzb_indexer.Release.{
  Binary, ReleaseInput, listed, Created, created, duplicate, create_failed, Repo, Naming, input_of,
  subject_of, no_result, name_of, promote, build,
}
use nzb_indexer.Release.Marked.{ids_of, IsUnmarked, IsMarked, build-Outcome}

abbrev bin : ℕ → Binary
bin n = record {
  id = n;
  group_id = 1;
  norm_subject = "s";
  collection_key = "";
  poster = "p";
  total_parts = 2;
  total_bytes = 100;
  posted_at = none;
}

abbrev three : List Binary
three = bin 5 ∷ bin 6 ∷ bin 7 ∷ []

abbrev names : Naming
names = record {
  collection_base_name = λ key. key;
  clean_name = λ subject. "";
  categorize = λ name. 8000;
  search_name = λ name. name;
  is_obfuscated = λ name. false;
  release_hash = λ name size group. name;
}

-- The world holds the number of calls that create, and the ids that are marked.
abbrev World : Type 0
World = ℕ × List ℕ

abbrev answer : ℕ → ReleaseInput → Created
answer refused input =
    if input.binary_id == refused
    then create_failed network
    else if input.binary_id == 6
    then duplicate
    else created

abbrev repo : ℕ → Repo World
repo refused = record {
  list_complete = λ limit w. (listed three, w);
  create_release = λ input w. (answer refused input, (w.0 + 1, w.1));
  mark_released = λ ids w. (none, (w.0, w.1 ++ ids));
  new_guid = λ w. "g";
}

program : Unit {0}
unfolding input_of subject_of name_of promote build
program = tt

all_marked : (build names (repo 0) (pos 0) (0, [])).world.1 ≡ 5 ∷ 6 ∷ 7 ∷ []
unfolding program
all_marked = refl

none_marked : (build names (repo 7) (pos 0) (0, [])).world.1 ≡ []
unfolding program
none_marked = refl

named_by_subject : (input_of names (bin 5) "g").name ≡ "s"
unfolding program
named_by_subject = refl

build-Outcome_example :
    IsUnmarked names (repo 7) three no_result (0, []) (build names (repo 7) (pos 0) (0, []))
    ⊎ IsMarked names
        (repo 7)
        (ids_of three)
        three
        no_result
        (0, [])
        (build names (repo 7) (pos 0) (0, []))
build-Outcome_example = build-Outcome names (repo 7) (pos 0) (0, []) (0, []) three refl
