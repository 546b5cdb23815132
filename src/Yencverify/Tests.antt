-- ===== src/Yencverify/Tests.antt =====
-- Three articles: a fragment, one without a yEnc line, and one whose fetch fails.
use nzb_indexer.Base.{ℕ, ◌+◌, ◌≡◌, refl, false, none, List, [], ◌∷◌, pos, length}
use nzb_indexer.Base.Bytes.{
  Bytes, cut_prefix, trim_space, trim_left, trim_end, is_space, parse_int, digits_from,
}
use nzb_indexer.YencHeader.{
  find_after, until_space, int_field, name_field, trim_line_end, header_of, parse_header,
}
use nzb_indexer.Yencverify.{
  YencCandidate, listed, Fetched, line, no_header, fetch_failed, World, tally, pair_up, shape_of,
  fetch_headers, run,
}

-- "=ybegin part=2 total=9 size=70 name=a b"
abbrev second_of_nine : Bytes
second_of_nine =
    61 ∷ 121 ∷ 98 ∷ 101 ∷ 103 ∷ 105 ∷ 110 ∷ 32 ∷ 112 ∷ 97 ∷ 114 ∷ 116 ∷ 61 ∷ 50 ∷ 32 ∷ 116 ∷ 111
    ∷ 116 ∷ 97 ∷ 108 ∷ 61 ∷ 57 ∷ 32 ∷ 115 ∷ 105 ∷ 122 ∷ 101 ∷ 61 ∷ 55 ∷ 48 ∷ 32 ∷ 110 ∷ 97 ∷ 109
    ∷ 101 ∷ 61 ∷ 97 ∷ 32 ∷ 98 ∷ []

abbrev answer : Bytes → Fetched
answer [] = fetch_failed
answer (b ∷ []) = no_header
answer (b ∷ c ∷ s) = line second_of_nine

abbrev first : YencCandidate
first = record { id = 4; message_id = 1 ∷ 1 ∷ [] }

abbrev others : List YencCandidate
others = record { id = 5; message_id = 1 ∷ [] } ∷ record { id = 6; message_id = [] } ∷ []

abbrev world : World ℕ
world = record {
  list_parts = λ limit s. (listed (first ∷ others), s);
  apply_verification = λ results s. (none, s + length results);
  list_releases = λ limit s. (listed [], s);
  apply_repair = λ results s. (none, s);
  body_header = λ id s. (answer id, s);
  scan_lines = λ text. text ∷ [];
  ended = λ s. false;
}

program : Unit {0}
unfolding cut_prefix trim_space trim_left trim_end is_space parse_int digits_from find_after
    until_space int_field name_field trim_line_end header_of parse_header tally pair_up shape_of
    fetch_headers run
program = tt

part_two : (header_of second_of_nine).part ≡ pos 2
unfolding program
part_two = refl

of_nine : (header_of second_of_nine).total ≡ pos 9
unfolding program
of_nine = refl

named : (header_of second_of_nine).name ≡ 97 ∷ 32 ∷ 98 ∷ []
unfolding program
named = refl

one_fragment : (run world (pos 0) 0).result.fragments ≡ 1
unfolding program
one_fragment = refl

one_failed : (run world (pos 0) 0).result.failed ≡ 1
unfolding program
one_failed = refl
