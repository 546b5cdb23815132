-- ===== src/Postprocess/Yenc/Tests.antt =====
-- An article with two data lines, one of them with an escaped byte.
use nzb_indexer.Base.{ℕ, ◌≡◌, refl, false, List, [], ◌∷◌, ◌++◌, arith}
use nzb_indexer.Postprocess.Yenc.{
  ybegin, ypart, yend, decode_yenc_line, scan_lines, decode_yenc, decoded,
}
use nzb_indexer.Postprocess.Yenc.Lines.{encode_line}
use nzb_indexer.Postprocess.Yenc.Bodies.{Article, body_of, decode_yenc_lem}

-- The byte 214 is shifted to 0 and escaped.
abbrev bytes : List ℕ
bytes = 1 ∷ 214 ∷ 255 ∷ []

abbrev article : Article
article = record {
  before = (83 ∷ 58 ∷ []) ∷ [] ∷ [];
  begin = ybegin ++ (32 ∷ 13 ∷ []);
  parts = (ypart ++ (32 ∷ 13 ∷ [])) ∷ [];
  data_lines = bytes ∷ (7 ∷ []) ∷ [];
  last = yend ++ (32 ∷ 13 ∷ []);
  after = (46 ∷ []) ∷ [];
}

program : Unit {0}
unfolding decode_yenc_line scan_lines decode_yenc encode_line
program = tt

escapes : encode_line bytes ≡ 43 ∷ 61 ∷ 64 ∷ 41 ∷ []
unfolding program
escapes = refl

whole : decode_yenc (body_of article) false ≡ decoded (1 ∷ 214 ∷ 255 ∷ 7 ∷ [])
unfolding program
whole = refl

decode_yenc_lem_example : decode_yenc (body_of article) false ≡ decoded (1 ∷ 214 ∷ 255 ∷ 7 ∷ [])
decode_yenc_lem_example = decode_yenc_lem article (record {
  text_before = ((refl, refl, refl), ((refl, refl, refl), tt));
  is_begin = refl;
  are_parts = (refl, refl, tt);
  are_bytes = ((omega arith, (omega arith, (omega arith, tt))), ((omega arith, tt), tt));
  not_begin = refl;
  not_part = refl;
  is_end = refl;
  text_after = ((refl, refl, refl), tt);
})
