-- ===== src/Nntp/Overview/Tests.antt =====
-- Lines of an overview and of a group list.
use nzb_indexer.Base.{
  ℕ, ◌==◌, if◌then◌else◌, ◌≡◌, refl, true, Option, none, some, [], ◌∷◌, pos, ◌+ℤ◌, ◌-ℤ◌, wrap_int64,
  int64,
}
use nzb_indexer.Base.Bytes.{
  Bytes, same_bytes, fields, split_on, split_space, trim_space, trim_left, trim_end, is_space,
  parse_int, digits_from,
}
use nzb_indexer.Nntp.Overview.{
  rune_length, valid_from, repair, strip_nul, to_valid_utf8, trim_angle, ensure_angle, first_layout,
  parse_nntp_date, parse_overview_line, parse_active_line,
}
use nzb_indexer.Nntp.Overview.Utf8.{to_valid_utf8_lem}

program : Unit {0}
unfolding same_bytes fields split_on split_space trim_space trim_left trim_end is_space parse_int
    digits_from rune_length valid_from repair strip_nul to_valid_utf8 trim_angle ensure_angle
    first_layout parse_nntp_date parse_overview_line parse_active_line ◌+ℤ◌ ◌-ℤ◌ wrap_int64 int64
program = tt

-- Only the third layout takes the text "d".
abbrev third_layout : ℕ → Bytes → Option ℕ
third_layout n s = if n == 2 then if same_bytes s (100 ∷ []) then some 7 else none else none

-- "12", "s", "p", " d", "<i>", "", " 34", "5"
abbrev line : Bytes
line =
    49 ∷ 50 ∷ 9 ∷ 115 ∷ 9 ∷ 112 ∷ 9 ∷ 32 ∷ 100 ∷ 9 ∷ 60 ∷ 105 ∷ 62 ∷ 9 ∷ 9 ∷ 32 ∷ 51 ∷ 52 ∷ 9 ∷ 53
    ∷ []

parsed :
    parse_overview_line third_layout line
    ≡ some (record {
      article_number = pos 12;
      subject = 115 ∷ [];
      poster = 112 ∷ [];
      date = some 7;
      message_id = 105 ∷ [];
      bytes = pos 34;
    })
unfolding program
parsed = refl

-- "g 9 4 y"
active :
    parse_active_line (103 ∷ 32 ∷ 57 ∷ 32 ∷ 52 ∷ 32 ∷ 121 ∷ [])
    ≡ some (record {
      name = 103 ∷ [];
      high = pos 9;
      low = pos 4;
      estimated_count = pos 6;
      status = 121 ∷ [];
    })
unfolding program
active = refl

-- Two bad bytes are one replacement; a NUL goes; "é" stays.
repaired :
    to_valid_utf8 (65 ∷ 255 ∷ 254 ∷ 0 ∷ 195 ∷ 169 ∷ []) ≡ 65 ∷ 239 ∷ 191 ∷ 189 ∷ 195 ∷ 169 ∷ []
unfolding program
repaired = refl

to_valid_utf8_lem_example : valid_from 0 (to_valid_utf8 (255 ∷ 0 ∷ 65 ∷ [])) ≡ true
to_valid_utf8_lem_example = (to_valid_utf8_lem (255 ∷ 0 ∷ 65 ∷ [])).0
