-- ===== src/Postprocess/Yenc.antt =====
-- internal/postprocess/yenc.go: the yEnc decoder. A byte is a number below 256; the split of a body
-- into lines is bufio.Scanner's, and its lines and its error are arguments.
mod Lines
mod Bodies
mod Tests
use nzb_indexer.Base.{
  ℕ, ◌+◌, ◌-◌, ◌%◌, Bool, true, false, ◌||◌, ◌&&◌, Option, none, some, List, [], ◌∷◌, ◌++◌, ◌==◌,
  if◌then◌else◌,
}

-- `bytes.HasPrefix`
abbrev pub has_prefix : List ℕ → List ℕ → Bool
has_prefix line [] = true
has_prefix [] (p ∷ ps) = false
has_prefix (c ∷ cs) (p ∷ ps) = (c == p) && has_prefix cs ps

-- `bytes.TrimRight(line, "\r\n")`
abbrev pub trim_right : List ℕ → List ℕ
trim_right [] = []
trim_right (c ∷ cs) = elim (trim_right cs) [
  | [] ↦ if (c == 13) || (c == 10) then [] else c ∷ []
  | d ∷ ds ↦ c ∷ d ∷ ds
]

-- "=ybegin", "=ypart" and "=yend".
abbrev pub ybegin : List ℕ
ybegin = 61 ∷ 121 ∷ 98 ∷ 101 ∷ 103 ∷ 105 ∷ 110 ∷ []

abbrev pub ypart : List ℕ
ypart = 61 ∷ 121 ∷ 112 ∷ 97 ∷ 114 ∷ 116 ∷ []

abbrev pub yend : List ℕ
yend = 61 ∷ 121 ∷ 101 ∷ 110 ∷ 100 ∷ []

-- `byte(int(c) - 42)` and `byte(int(c) - 64 - 42)`, modulo 256.
abbrev pub plain : ℕ → ℕ
plain c = (c + 214) % 256

abbrev pub escaped : ℕ → ℕ
escaped c = (c + 150) % 256

-- What a line puts out; an escape at the end of the line puts out nothing.
unfoldable pub decode_yenc_line : List ℕ → List ℕ
decode_yenc_line [] = []
decode_yenc_line (c ∷ []) = if c == 61 then [] else plain c ∷ []
decode_yenc_line (c ∷ d ∷ cs) =
    let skipped = decode_yenc_line cs in
    let rest = decode_yenc_line (d ∷ cs) in if c == 61 then escaped d ∷ skipped else plain c ∷ rest

-- The loop over the lines: what is put out, and whether a "=ybegin" was seen.
unfoldable pub scan_lines : Bool → Bool → List (List ℕ) → List ℕ × Bool
scan_lines in_data saw_begin [] = ([], saw_begin)
scan_lines in_data saw_begin (line ∷ lines) =
    let trimmed = trim_right line in
    let begun = scan_lines true true lines in
    let inside = scan_lines true saw_begin lines in
    let outside = scan_lines false saw_begin lines in
    let (out, saw) = scan_lines in_data saw_begin lines in
    if has_prefix trimmed ybegin
    then begun
    else if has_prefix trimmed ypart
    then inside
    else if has_prefix trimmed yend
    then outside
    else if in_data
    then (decode_yenc_line trimmed ++ out, saw)
    else (out, saw)

pub data Decoded : Type 0 where
  decoded : List ℕ → Decoded
  no_yenc_data : Decoded
  scan_failed : Decoded

unfoldable pub decode_yenc : List (List ℕ) → Bool → Decoded
decode_yenc lines true = scan_failed
decode_yenc lines false =
    let (out, saw_begin) = scan_lines false false lines in
    if saw_begin then decoded out else no_yenc_data
