-- ===== src/Worker/Stages/Distinct.antt =====
-- Lists of different names, and the membership of names in them.
use Prim.Native.String.{String}
use text.Mathlib.Text.{◌==◌ as str_eq}
use text.Mathlib.TextEquality.{eq_iff}
use mathlib.Core.Path.{subst}
use nzb_indexer.Base.{
  sym, append_assoc, ◌≡◌, true, false, List, [], ◌∷◌, ◌++◌, if◌then◌else◌, arith,
}
use nzb_indexer.Worker.Jobs.{has_id, drop_id}
use nzb_indexer.Worker.Stages.{add_id}

abbrev pub AreDistinct : List String → Type 0
AreDistinct [] = Unit
AreDistinct (g ∷ gs) = (has_id g gs ≡ false) × AreDistinct gs

pub has_id-drop_id :
    (g k : String) (ids : List String)
    → has_id k (drop_id g ids) ≡ (if str_eq g k then false else has_id k ids)
unfolding has_id drop_id
has_id-drop_id g k [] = ground arith
has_id-drop_id g k (i ∷ ids) =
    ground (arith, eq_iff g k, eq_iff i g, eq_iff i k, has_id-drop_id g k ids)

pub has_id-add_id :
    (g k : String) (ids : List String)
    → has_id k (add_id g ids) ≡ (if str_eq g k then true else has_id k ids)
unfolding has_id add_id
has_id-add_id g k ids = ground (arith, eq_iff g k)

pub has_id-skip :
    (k g : String) (before after : List String)
    → has_id k (before ++ (g ∷ after)) ≡ (if str_eq g k then true else has_id k (before ++ after))
unfolding has_id
has_id-skip k g [] after = ground arith
has_id-skip k g (b ∷ before) after = ground (arith, has_id-skip k g before after)

remove_middle :
    (g : String) (before after : List String)
    → AreDistinct (before ++ (g ∷ after))
    → (has_id g (before ++ after) ≡ false) × AreDistinct (before ++ after)
unfolding has_id
remove_middle g [] after (absent, rest) = (absent, rest)
remove_middle g (b ∷ before) after (absent, rest) =
    let (gone, distinct) = remove_middle g before after rest in
    let skip = has_id-skip b g before after in
    (ground (arith, eq_iff b g, eq_iff g b), (ground arith, distinct))

insert_middle :
    (g : String) (before after : List String)
    → has_id g (before ++ after) ≡ false
    → AreDistinct (before ++ after)
    → AreDistinct (before ++ (g ∷ after))
unfolding has_id
insert_middle g [] after absent d = (absent, d)
insert_middle g (b ∷ before) after absent (new, d) =
    let skip = has_id-skip b g before after in
    (ground (arith, eq_iff b g, eq_iff g b), insert_middle g before after (ground arith) d)

absent_right :
    (g : String) (xs ys : List String) → has_id g (xs ++ ys) ≡ false → has_id g ys ≡ false
unfolding has_id
absent_right g [] ys h = h
absent_right g (x ∷ xs) ys h = absent_right g xs ys (ground arith)

-- Moving the head of the queue among the groups that are being scanned.
pub move_distinct :
    (g : String) (queue before after : List String)
    → AreDistinct (g ∷ (queue ++ (before ++ after)))
    → AreDistinct (queue ++ (before ++ (g ∷ after)))
move_distinct g queue before after (absent, d) =
    subst AreDistinct (append_assoc queue before (g ∷ after)) (
      insert_middle g (queue ++ before) after
        (subst (λ l. has_id g l ≡ false) (sym (append_assoc queue before after)) absent)
        (subst AreDistinct (sym (append_assoc queue before after)) d))

pub remove_distinct :
    (g : String) (queue before after : List String)
    → AreDistinct (queue ++ (before ++ (g ∷ after)))
    → (has_id g (before ++ after) ≡ false) × AreDistinct (queue ++ (before ++ after))
remove_distinct g queue before after d =
    let (gone, rest) =
      remove_middle g (queue ++ before) after
        (subst AreDistinct (sym (append_assoc queue before (g ∷ after))) d) in
    let moved = append_assoc queue before after in
    (
      absent_right g queue (before ++ after) (subst (λ l. has_id g l ≡ false) moved gone),
      subst AreDistinct moved rest,
    )
