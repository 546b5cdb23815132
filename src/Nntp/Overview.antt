-- ===== src/Nntp/Overview.antt =====
-- internal/nntp/conn.go, the texts: the lines of an overview, message ids, group lists and the repair
-- of bytes that are not UTF-8. A date is read by the library's parser, a parameter: the layout's
-- number and the text give the instant.
mod Utf8
mod Angle
mod Tests
use nzb_indexer.Base.{
  ℕ, zero, suc, ◌+◌, ◌-◌, Bool, true, false, not, ◌&&◌, ◌||◌, Option, none, some, List, [], ◌∷◌,
  ◌++◌, length, get_or, get_elem?, ltb, leb, ◌==◌, if◌then◌else◌, ℤ, pos, negsuc, ◌+ℤ◌, ◌-ℤ◌,
  wrap_int64, ltbℤ,
}
use nzb_indexer.Base.Bytes.{Bytes, fields, split_on, trim_space, parse_int}

pub record Overview : Type 0 where
  pub article_number : ℤ
  pub subject : Bytes
  pub poster : Bytes
  pub date : Option ℕ
  pub message_id : Bytes
  pub bytes : ℤ

pub record GroupInfo : Type 0 where
  pub name : Bytes
  pub count : ℤ
  pub low : ℤ
  pub high : ℤ

pub record AvailableGroup : Type 0 where
  pub name : Bytes
  pub high : ℤ
  pub low : ℤ
  pub estimated_count : ℤ
  pub status : Bytes

abbrev within : ℕ → ℕ → ℕ → Bool
within low high b = leb low b && leb b high

abbrev is_tail : ℕ → Bool
is_tail b = within 128 191 b

-- The second byte's range depends on the first.
abbrev second_of_three : ℕ → ℕ → Bool
second_of_three b c =
    if b == 224 then within 160 191 c else if b == 237 then within 128 159 c else is_tail c

abbrev second_of_four : ℕ → ℕ → Bool
second_of_four b c =
    if b == 240 then within 144 191 c else if b == 244 then within 128 143 c else is_tail c

abbrev tail_ok : (ℕ → Bool) → Bytes → ℕ → Bool
tail_ok second s zero = true
tail_ok second [] (suc n) = false
tail_ok second (c ∷ s) (suc n) = second c && tail_ok is_tail s n

-- How many bytes the sequence at the head takes that begins with `b`: 0 if it is not well formed.
unfoldable pub rune_length : ℕ → Bytes → ℕ
rune_length b s =
    if ltb b 128
    then 1
    else if within 194 223 b
    then if tail_ok is_tail s 1 then 2 else 0
    else if within 224 239 b
    then if tail_ok (second_of_three b) s 2 then 3 else 0
    else if within 240 244 b
    then if tail_ok (second_of_four b) s 3 then 4 else 0
    else 0

-- `utf8.ValidString`, past the first bytes of which the sequence has been looked at.
unfoldable pub valid_from : ℕ → Bytes → Bool
valid_from k [] = true
valid_from (suc k) (b ∷ s) = valid_from k s
valid_from zero (b ∷ s) =
    let rest = valid_from (rune_length b s - 1) s in if rune_length b s == 0 then false else rest

-- `strings.ToValidUTF8` with U+FFFD: a run of bad bytes is replaced once. `bad` is whether the byte
-- before was one.
unfoldable pub repair : ℕ → Bool → Bytes → Bytes
repair k bad [] = []
repair (suc k) bad (b ∷ s) = b ∷ repair k false s
repair zero bad (b ∷ s) =
    let broken = repair 0 true s in
    let sound = repair (rune_length b s - 1) false s in
    if rune_length b s == 0 then if bad then broken else 239 ∷ 191 ∷ 189 ∷ broken else b ∷ sound

-- `strings.ReplaceAll(s, "\x00", "")`, which changes nothing where there is none.
unfoldable pub strip_nul : Bytes → Bytes
strip_nul [] = []
strip_nul (b ∷ s) = let rest = strip_nul s in if b == 0 then rest else b ∷ rest

unfoldable pub to_valid_utf8 : Bytes → Bytes
to_valid_utf8 s = let t = strip_nul s in if valid_from 0 t then t else repair 0 false t

abbrev ends_angle : Bytes → Bool
ends_angle [] = false
ends_angle (b ∷ []) = b == 62
ends_angle (b ∷ c ∷ s) = ends_angle (c ∷ s)

abbrev drop_last : Bytes → Bytes
drop_last [] = []
drop_last (b ∷ []) = []
drop_last (b ∷ c ∷ s) = b ∷ drop_last (c ∷ s)

-- "<" and ">" are 60 and 62.
unfoldable pub trim_angle : Bytes → Bytes
trim_angle [] = []
trim_angle (b ∷ s) = if (b == 60) && ends_angle s then drop_last s else b ∷ s

unfoldable pub ensure_angle : Bytes → Bytes
ensure_angle [] = []
ensure_angle (b ∷ s) = if b == 60 then b ∷ s else (60 ∷ b ∷ s) ++ (62 ∷ [])

-- The first of the layouts from number `layout` on that fits, of `left`.
unfoldable pub first_layout : (ℕ → Bytes → Option ℕ) → ℕ → ℕ → Bytes → Option ℕ
first_layout parse zero layout s = none
first_layout parse (suc left) layout s = elim (parse layout s) [
  | some t ↦ some t
  | none ↦ first_layout parse left (suc layout) s
]

unfoldable pub parse_nntp_date : (ℕ → Bytes → Option ℕ) → Bytes → Option ℕ
parse_nntp_date parse s = first_layout parse 6 0 (trim_space s)

-- The fields are split at tabs.
unfoldable pub parse_overview_line : (ℕ → Bytes → Option ℕ) → Bytes → Option Overview
parse_overview_line parse line =
    let fs = split_on 9 line in
    let num = parse_int (trim_space (get_or fs 0 [])) in
    if ltb (length fs) 8
    then none
    else if num.failed
    then none
    else some (record {
      article_number = num.value;
      subject = to_valid_utf8 (get_or fs 1 []);
      poster = to_valid_utf8 (get_or fs 2 []);
      date = parse_nntp_date parse (get_or fs 3 []);
      message_id = to_valid_utf8 (trim_angle (trim_space (get_or fs 4 [])));
      bytes = (parse_int (trim_space (get_or fs 6 []))).value;
    })

abbrev cons_parsed {ℓ} : {A : Type ℓ} → Option A → List A → List A
cons_parsed none xs = xs
cons_parsed (some x) xs = x ∷ xs

-- The loop over the lines of an overview.
unfoldable pub parse_overviews : (ℕ → Bytes → Option ℕ) → List Bytes → List Overview
parse_overviews parse [] = []
parse_overviews parse (line ∷ lines) =
    cons_parsed (parse_overview_line parse line) (parse_overviews parse lines)

-- "group high low status"; the count wraps like any int64.
unfoldable pub parse_active_line : Bytes → Option AvailableGroup
parse_active_line line =
    let fs = fields line in
    let high = (parse_int (get_or fs 1 [])).value in
    let low = (parse_int (get_or fs 2 [])).value in
    let count = wrap_int64 ((high -ℤ low) +ℤ pos 1) in
    if ltb (length fs) 3
    then none
    else some (record {
      name = get_or fs 0 [];
      high = high;
      low = low;
      estimated_count = if ltbℤ count (pos 0) then pos 0 else count;
      status = get_or fs 3 [];
    })

unfoldable pub parse_active : List Bytes → List AvailableGroup
parse_active [] = []
parse_active (line ∷ lines) = cons_parsed (parse_active_line line) (parse_active lines)

-- What follows the code of "211 count low high group".
unfoldable pub parse_group : Bytes → Bytes → Option GroupInfo
parse_group name line =
    let fs = fields line in
    if ltb (length fs) 3
    then none
    else some (record {
      name = name;
      count = (parse_int (get_or fs 0 [])).value;
      low = (parse_int (get_or fs 1 [])).value;
      high = (parse_int (get_or fs 2 [])).value;
    })
