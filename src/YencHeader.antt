-- ===== src/YencHeader.antt =====
-- internal/yenc/header.go: the "=ybegin" line of a yEnc body, as bytes. The lines are those of
-- bufio.Scanner over the first 64 KiB of the body.
use nzb_indexer.Base.{
  ℕ, Bool, true, false, Option, none, some, List, [], ◌∷◌, ◌==◌, ◌||◌, if◌then◌else◌, ℤ, pos,
}
use nzb_indexer.Base.Bytes.{Bytes, cut_prefix, trim_space, Parsed, parse_int}

pub record Header : Type 0 where
  pub part : ℤ
  pub total : ℤ
  pub size : ℤ
  pub name : Bytes

abbrev or_later : Option Bytes → Option Bytes → Option Bytes
or_later (some rest) later = some rest
or_later none later = later

-- What follows the first place where the key stands.
unfoldable pub find_after : Bytes → Bytes → Option Bytes
unfolding cut_prefix
find_after key [] = cut_prefix key []
find_after key (b ∷ s) = or_later (cut_prefix key (b ∷ s)) (find_after key s)

unfoldable pub until_space : Bytes → Bytes
until_space [] = []
until_space (b ∷ s) = let rest = until_space s in if b == 32 then [] else b ∷ rest

abbrev value_or_zero : Parsed → ℤ
value_or_zero p = if p.failed then pos 0 else p.value

abbrev int_value : Option Bytes → ℤ
int_value none = pos 0
int_value (some rest) = value_or_zero (parse_int (trim_space (until_space rest)))

unfoldable pub int_field : Bytes → Bytes → ℤ
unfolding find_after until_space parse_int trim_space
int_field line key = int_value (find_after key line)

abbrev name_value : Option Bytes → Bytes
name_value none = []
name_value (some rest) = trim_space rest

-- "name="
unfoldable pub name_field : Bytes → Bytes
unfolding find_after trim_space
name_field line = name_value (find_after (110 ∷ 97 ∷ 109 ∷ 101 ∷ 61 ∷ []) line)

abbrev keep_end : ℕ → Bytes → Bytes
keep_end b [] = if (b == 13) || (b == 10) then [] else b ∷ []
keep_end b (c ∷ s) = b ∷ c ∷ s

-- `strings.TrimRight(s, "\r\n")`
unfoldable pub trim_line_end : Bytes → Bytes
trim_line_end [] = []
trim_line_end (b ∷ s) = keep_end b (trim_line_end s)

abbrev is_found : Option Bytes → Bool
is_found none = false
is_found (some rest) = true

-- The keys are "part=", "total=" and "size=".
unfoldable pub header_of : Bytes → Header
unfolding int_field name_field
header_of line = record {
  part = int_field line (112 ∷ 97 ∷ 114 ∷ 116 ∷ 61 ∷ []);
  total = int_field line (116 ∷ 111 ∷ 116 ∷ 97 ∷ 108 ∷ 61 ∷ []);
  size = int_field line (115 ∷ 105 ∷ 122 ∷ 101 ∷ 61 ∷ []);
  name = name_field line;
}

-- "=ybegin"
unfoldable pub parse_header : List Bytes → Option Header
unfolding header_of trim_line_end cut_prefix
parse_header [] = none
parse_header (text ∷ texts) =
    let line = trim_line_end text in
    let later = parse_header texts in
    if is_found (cut_prefix (61 ∷ 121 ∷ 98 ∷ 101 ∷ 103 ∷ 105 ∷ 110 ∷ []) line)
    then some (header_of line)
    else later
