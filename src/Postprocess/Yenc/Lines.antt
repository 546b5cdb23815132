-- ===== src/Postprocess/Yenc/Lines.antt =====
-- One line of yEnc data: the decoder of internal/postprocess/yenc.go against the yEnc encoding, which
-- adds 42 to a byte, and 64 more to one that is escaped.
use nzb_indexer.Base.{
  ℕ, ◌+◌, ◌%◌, ◌<◌, ◌≡◌, refl, Bool, true, false, ◌||◌, List, [], ◌∷◌, ◌==◌, if◌then◌else◌, arith,
  inl, inr, Bool-cases,
}
use nzb_indexer.Postprocess.Yenc.{has_prefix, trim_right, plain, escaped, decode_yenc_line}

-- Each byte is shifted by 42; a NUL, a line feed, a carriage return or an '=' is escaped.
abbrev pub shifted : ℕ → ℕ
shifted b = (b + 42) % 256

abbrev pub critical : ℕ → Bool
critical c = (c == 0) || (c == 10) || (c == 13) || (c == 61)

unfoldable pub encode_line : List ℕ → List ℕ
encode_line [] = []
encode_line (b ∷ bs) =
    let rest = encode_line bs in
    if critical (shifted b) then 61 ∷ (shifted b + 64) % 256 ∷ rest else shifted b ∷ rest

abbrev pub AreBytes : List ℕ → Type 0
AreBytes [] = Unit
AreBytes (b ∷ bs) = (b < 256) × AreBytes bs

-- An escaped byte is neither the end of a line nor a 'y'.
escape_shape :
    (c : ℕ)
    → critical c ≡ true
    → ((((c + 64) % 256 == 13) || ((c + 64) % 256 == 10)) ≡ false)
      × (((c + 64) % 256 == 121) ≡ false)
escape_shape c h = ground arith

plain_shape :
    (c : ℕ) → critical c ≡ false → (((c == 13) || (c == 10)) ≡ false) × ((c == 61) ≡ false)
plain_shape c h = ground arith

plain-shifted : (b : ℕ) → b < 256 → plain (shifted b) ≡ b
plain-shifted b h = omega arith

escaped-shifted : (b : ℕ) → b < 256 → escaped ((shifted b + 64) % 256) ≡ b
escaped-shifted b h = omega arith

decode-plain :
    (c : ℕ) (cs : List ℕ)
    → (c == 61) ≡ false
    → decode_yenc_line (c ∷ cs) ≡ plain c ∷ decode_yenc_line cs
unfolding decode_yenc_line
decode-plain c [] h = rw h
decode-plain c (d ∷ cs) h = rw h

-- A line of encoded bytes is decoded to those bytes.
pub decode-encode_line : (bs : List ℕ) → AreBytes bs → decode_yenc_line (encode_line bs) ≡ bs
unfolding encode_line decode_yenc_line
decode-encode_line [] v = refl
decode-encode_line (b ∷ bs) (lt, v) = elim (Bool-cases (critical (shifted b))) [
  | inl e ↦ rw (e, escaped-shifted b lt, decode-encode_line bs v)
  | inr e ↦ rw e (
      rw (
        decode-plain (shifted b) (encode_line bs) (plain_shape (shifted b) e).1,
        plain-shifted b lt,
        decode-encode_line bs v,
      ))
]

-- No byte of the line ends a line.
abbrev NoBreaks : List ℕ → Type 0
NoBreaks [] = Unit
NoBreaks (c ∷ cs) = (((c == 13) || (c == 10)) ≡ false) × NoBreaks cs

encode_line-NoBreaks : (bs : List ℕ) → NoBreaks (encode_line bs)
unfolding encode_line
encode_line-NoBreaks [] = tt
encode_line-NoBreaks (b ∷ bs) = elim (Bool-cases (critical (shifted b))) [
  | inl e ↦ rw e (refl, ((escape_shape (shifted b) e).0, encode_line-NoBreaks bs))
  | inr e ↦ rw e ((plain_shape (shifted b) e).0, encode_line-NoBreaks bs)
]

trim_right_same : (cs : List ℕ) → NoBreaks cs → trim_right cs ≡ cs
trim_right_same [] v = refl
trim_right_same (c ∷ []) v = rw v.0
trim_right_same (c ∷ d ∷ cs) (h, v) = rw (trim_right_same (d ∷ cs) v)

pub trim_right-encode_line : (bs : List ℕ) → trim_right (encode_line bs) ≡ encode_line bs
trim_right-encode_line bs = trim_right_same (encode_line bs) (encode_line-NoBreaks bs)

-- An encoded line is no control line.
pub has_prefix-encode_line : (bs ps : List ℕ) → has_prefix (encode_line bs) (61 ∷ 121 ∷ ps) ≡ false
unfolding encode_line
has_prefix-encode_line [] ps = refl
has_prefix-encode_line (b ∷ bs) ps = elim (Bool-cases (critical (shifted b))) [
  | inl e ↦ rw e (rw (escape_shape (shifted b) e).1)
  | inr e ↦ rw e (rw (plain_shape (shifted b) e).1)
]
