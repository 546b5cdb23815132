-- ===== src/Postprocess/Yenc/Bodies.antt =====
-- Whole article bodies through DecodeYenc of internal/postprocess/yenc.go.
use nzb_indexer.Base.{
  ℕ, ◌≡◌, ◌∙◌, refl, Bool, true, false, List, [], ◌∷◌, ◌++◌, map, append-nil, append_assoc,
  Bool-cases, inl, inr,
}
use nzb_indexer.Postprocess.Yenc.{
  has_prefix, trim_right, ybegin, ypart, yend, scan_lines, decode_yenc, decoded, no_yenc_data,
}
use nzb_indexer.Postprocess.Yenc.Lines.{
  encode_line, AreBytes, decode-encode_line, trim_right-encode_line, has_prefix-encode_line,
}

abbrev pub IsText : List ℕ → Type 0
IsText line =
    (has_prefix (trim_right line) ybegin ≡ false)
    × (has_prefix (trim_right line) ypart ≡ false)
    × (has_prefix (trim_right line) yend ≡ false)

abbrev pub AreText : List (List ℕ) → Type 0
AreText [] = Unit
AreText (line ∷ lines) = IsText line × AreText lines

abbrev pub AllBytes : List (List ℕ) → Type 0
AllBytes [] = Unit
AllBytes (bs ∷ rest) = AreBytes bs × AllBytes rest

abbrev pub concat : List (List ℕ) → List ℕ
concat [] = []
concat (bs ∷ rest) = bs ++ concat rest

-- An article: text, a "=ybegin" line, perhaps a "=ypart" line, the encoded data, a "=yend" line, text.
pub record Article : Type 0 where
  pub before : List (List ℕ)
  pub begin : List ℕ
  pub parts : List (List ℕ)
  pub data_lines : List (List ℕ)
  pub last : List ℕ
  pub after : List (List ℕ)

abbrev pub ArePartLines : List (List ℕ) → Type 0
ArePartLines [] = Unit
ArePartLines (line ∷ lines) =
    (has_prefix (trim_right line) ybegin ≡ false)
    × (has_prefix (trim_right line) ypart ≡ true)
    × ArePartLines lines

pub record IsArticle (a : Article) : Type 0 where
  pub text_before : AreText a.before
  pub is_begin : has_prefix (trim_right a.begin) ybegin ≡ true
  pub are_parts : ArePartLines a.parts
  pub are_bytes : AllBytes a.data_lines
  pub not_begin : has_prefix (trim_right a.last) ybegin ≡ false
  pub not_part : has_prefix (trim_right a.last) ypart ≡ false
  pub is_end : has_prefix (trim_right a.last) yend ≡ true
  pub text_after : AreText a.after

abbrev pub body_of : Article → List (List ℕ)
body_of a =
    a.before ++ (a.begin ∷ (a.parts ++ (map encode_line a.data_lines ++ (a.last ∷ a.after))))

-- Text outside the data puts out nothing.
scan-text :
    (saw : Bool) (text rest : List (List ℕ))
    → AreText text
    → scan_lines false saw (text ++ rest) ≡ scan_lines false saw rest
unfolding scan_lines
scan-text saw [] rest v = refl
scan-text saw (line ∷ text) rest ((b, p, e), v) = rw (b, p, e, scan-text saw text rest v)

scan-parts :
    (parts rest : List (List ℕ))
    → ArePartLines parts
    → scan_lines true true (parts ++ rest) ≡ scan_lines true true rest
unfolding scan_lines
scan-parts [] rest v = refl
scan-parts (line ∷ parts) rest (b, p, v) = rw (b, p, scan-parts parts rest v)

scan-data :
    (datas rest : List (List ℕ))
    → AllBytes datas
    → scan_lines true true (map encode_line datas ++ rest)
      ≡ (concat datas ++ (scan_lines true true rest).0, (scan_lines true true rest).1)
unfolding scan_lines
scan-data [] rest v = refl
scan-data (bs ∷ datas) rest (b, v) = rw (trim_right-encode_line bs) (
    rw
      (
        has_prefix-encode_line bs (98 ∷ 101 ∷ 103 ∷ 105 ∷ 110 ∷ []),
        has_prefix-encode_line bs (112 ∷ 97 ∷ 114 ∷ 116 ∷ []),
        has_prefix-encode_line bs (101 ∷ 110 ∷ 100 ∷ []),
      )
      (rw (decode-encode_line bs b, scan-data datas rest v)
        (rw (append_assoc bs (concat datas) (scan_lines true true rest).0))))

scan-end :
    (line : List ℕ) (text : List (List ℕ))
    → has_prefix (trim_right line) ybegin ≡ false
    → has_prefix (trim_right line) ypart ≡ false
    → has_prefix (trim_right line) yend ≡ true
    → AreText text
    → scan_lines true true (line ∷ text) ≡ ([], true)
unfolding scan_lines
scan-end line text b p e v = rw (b, p, e) (rw (append-nil text) at (scan-text true text [] v))

-- An article whose data lines are encoded bytes is decoded to exactly those bytes, whatever text
-- stands around the control lines and whether or not there are part lines.
pub decode_yenc_lem :
    (a : Article) → IsArticle a → decode_yenc (body_of a) false ≡ decoded (concat a.data_lines)
unfolding decode_yenc scan_lines
decode_yenc_lem a v =
    let closing : List (List ℕ) = a.last ∷ a.after in
    let coded : List (List ℕ) = map encode_line a.data_lines ++ closing in
    let start = scan-text false a.before (a.begin ∷ (a.parts ++ coded)) v.text_before in
    let entered : scan_lines false false (a.begin ∷ (a.parts ++ coded))
        ≡ scan_lines true true (a.parts ++ coded) =
      rw v.is_begin in
    let parts = scan-parts a.parts coded v.are_parts in
    let datas = scan-data a.data_lines closing v.are_bytes in
    let ended = scan-end a.last a.after v.not_begin v.not_part v.is_end v.text_after in
    let whole : scan_lines false false (body_of a) ≡ (concat a.data_lines, true) =
      start ∙ entered ∙ parts ∙ datas ∙ rw ended (rw (append-nil (concat a.data_lines))) in
    rw whole

abbrev pub HasNoBegin : List (List ℕ) → Type 0
HasNoBegin [] = Unit
HasNoBegin (line ∷ lines) = (has_prefix (trim_right line) ybegin ≡ false) × HasNoBegin lines

scan-no_begin :
    (in_data : Bool) (lines : List (List ℕ))
    → HasNoBegin lines
    → (scan_lines in_data false lines).1 ≡ false
unfolding scan_lines
scan-no_begin in_data [] v = refl
scan-no_begin in_data (line ∷ lines) (b, v) =
    elim (Bool-cases (has_prefix (trim_right line) ypart)) [
      | inl p ↦ rw (b, p) (scan-no_begin true lines v)
      | inr p ↦ elim (Bool-cases (has_prefix (trim_right line) yend)) [
        | inl e ↦ rw (b, p, e) (scan-no_begin false lines v)
        | inr e ↦ elim (Bool-cases in_data) [
          | inl d ↦ rw (b, p, e, d) (scan-no_begin true lines v)
          | inr d ↦ rw (b, p, e, d) (scan-no_begin false lines v)
        ]
      ]
    ]

-- A body without a "=ybegin" line is refused, whatever else it holds.
pub decode_yenc_refuses :
    (lines : List (List ℕ)) → HasNoBegin lines → decode_yenc lines false ≡ no_yenc_data
unfolding decode_yenc
decode_yenc_refuses lines v = rw (scan-no_begin false lines v)
