-- ===== src/Enrich/Answers.antt =====
-- What internal/enrich/enrich.go makes of the providers' answers.
use Prim.Native.String.{String}
use text.Mathlib.Text.{◌==◌ as str_eq}
use text.Mathlib.TextEquality.{eq_iff}
use nzb_indexer.Base.{
  ◌≡◌, ◌∙◌, refl, ap, Bool, true, false, ◌||◌, Option, none, some, List, [], ◌∷◌, arith,
  if◌then◌else◌,
}
use nzb_indexer.Base.Dict.{lookup, lookup-insert}
use nzb_indexer.Enrich.{
  Metadata, Lookup, matched, missed, lookup_failed, World, Provider, Result, Pass, Learned,
  nothing_learned, merge_idents, learn, add_new, consult,
}

abbrev pub or_else {ℓ} : {A : Type ℓ} → Option A → Option A → Option A
or_else none y = y
or_else (some x) y = some x

-- The first match, whether any lookup failed, and the first value of an identifier.
abbrev pub first_match : List Lookup → Option Metadata
first_match [] = none
first_match (matched m ∷ seen) = some m
first_match (missed ∷ seen) = first_match seen
first_match (lookup_failed ∷ seen) = first_match seen

abbrev pub any_failed : List Lookup → Bool
any_failed [] = false
any_failed (matched m ∷ seen) = any_failed seen
any_failed (missed ∷ seen) = any_failed seen
any_failed (lookup_failed ∷ seen) = true

abbrev pub first_ident : String → List Lookup → Option String
first_ident src [] = none
first_ident src (matched m ∷ seen) = or_else (lookup src (m.identifiers)) (first_ident src seen)
first_ident src (missed ∷ seen) = first_ident src seen
first_ident src (lookup_failed ∷ seen) = first_ident src seen

or_else_assoc : {A : Type 0} (x y z : Option A) → or_else (or_else x y) z ≡ or_else x (or_else y z)
or_else_assoc none y z = refl
or_else_assoc (some x) y z = refl

lookup-add_new :
    (src k val : String) (idents : List (String × String)) (old : Option String)
    → lookup k idents ≡ old
    → lookup src (add_new old k val idents)
      ≡ or_else (lookup src idents) (if str_eq k src then some val else none)
lookup-add_new src k val idents none h =
    ground (arith, lookup-insert k src val idents, eq_iff k src)
lookup-add_new src k val idents (some old) h = ground (arith, eq_iff k src)

lookup-merge_idents :
    (src : String) (idents ids : List (String × String))
    → lookup src (merge_idents idents ids) ≡ or_else (lookup src idents) (lookup src ids)
unfolding merge_idents lookup
lookup-merge_idents src idents [] = ground arith
lookup-merge_idents src idents ((k, val) ∷ rest) =
    lookup-merge_idents src (add_new (lookup k idents) k val idents) rest
    ∙ ap (λ found. or_else found (lookup src rest))
        (lookup-add_new src k val idents (lookup k idents) refl)
    ∙ or_else_assoc (lookup src idents) (if str_eq k src then some val else none) (lookup src rest)
    ∙ ground arith

abbrev pub learn_all : Learned → List Lookup → Learned
learn_all l [] = l
learn_all l (a ∷ seen) = learn_all (learn l a) seen

learn_all-best :
    (l : Learned) (seen : List Lookup)
    → (learn_all l seen).best ≡ or_else (l.best) (first_match seen)
unfolding learn
learn_all-best l [] = ground arith
learn_all-best l (matched m ∷ seen) = learn_all-best (learn l (matched m)) seen ∙ ground arith
learn_all-best l (missed ∷ seen) = learn_all-best l seen
learn_all-best l (lookup_failed ∷ seen) = learn_all-best (learn l lookup_failed) seen

learn_all-had_err :
    (l : Learned) (seen : List Lookup) → (learn_all l seen).had_err ≡ (l.had_err || any_failed seen)
unfolding learn
learn_all-had_err l [] = ground arith
learn_all-had_err l (matched m ∷ seen) = learn_all-had_err (learn l (matched m)) seen
learn_all-had_err l (missed ∷ seen) = learn_all-had_err l seen
learn_all-had_err l (lookup_failed ∷ seen) =
    learn_all-had_err (learn l lookup_failed) seen ∙ ground arith

learn_all-idents :
    (src : String) (l : Learned) (seen : List Lookup)
    → lookup src (learn_all l seen).idents ≡ or_else (lookup src (l.idents)) (first_ident src seen)
unfolding learn
learn_all-idents src l [] = ground arith
learn_all-idents src l (matched m ∷ seen) =
    learn_all-idents src (learn l (matched m)) seen
    ∙ ap (λ found. or_else found (first_ident src seen))
        (lookup-merge_idents src (l.idents) (m.identifiers))
    ∙ or_else_assoc (lookup src (l.idents)) (lookup src (m.identifiers)) (first_ident src seen)
learn_all-idents src l (missed ∷ seen) = learn_all-idents src l seen
learn_all-idents src l (lookup_failed ∷ seen) = learn_all-idents src (learn l lookup_failed) seen

module _ {Q S : Type 0} (w : World Q S) (delayed : Bool) where
  abbrev cons_answer : Lookup → List Lookup × S → List Lookup × S
  cons_answer answer (rest, u) = (answer ∷ rest, u)

  -- All the providers' answers, in turn.
  abbrev pub ask : List (Provider Q S) → Q → S → List Lookup × S
  ask [] q s = ([], s)
  ask (p ∷ ps) q s = let r = p q s in cons_answer (r.0) (ask ps q (r.1))

  consult-learn_all :
      (ps : List (Provider Q S)) (q : Q) (l : Learned) (res : Result) (s : S)
      (next : Learned → S → Pass S)
      → ((t : S) → w.ended t ≡ none)
      → consult w delayed ps q l res s next ≡ next (learn_all l (ask ps q s).0) (ask ps q s).1
  unfolding consult
  consult-learn_all [] q l res s next live = refl
  consult-learn_all (p ∷ ps) q l res s next live =
      rw (live s, consult) (consult-learn_all ps q (learn l (p q s).0) res (p q s).1 next live)

  -- While the context is live every provider is asked, and what follows gets the first match, whether
  -- any of them failed, and for every source the first value that a match gives.
  pub consult_lem :
      (ps : List (Provider Q S)) (q : Q) (res : Result) (s : S) (next : Learned → S → Pass S)
      → ((t : S) → w.ended t ≡ none)
      → (l : Learned) × (consult w delayed ps q nothing_learned res s next ≡ next l (ask ps q s).1)
        × (l.best ≡ first_match (ask ps q s).0)
        × (l.had_err ≡ any_failed (ask ps q s).0)
        × ((src : String) → lookup src (l.idents) ≡ first_ident src (ask ps q s).0)
  unfolding lookup
  consult_lem ps q res s next live = (
    learn_all nothing_learned (ask ps q s).0,
    consult-learn_all ps q nothing_learned res s next live,
    learn_all-best nothing_learned (ask ps q s).0,
    learn_all-had_err nothing_learned (ask ps q s).0,
    λ src. learn_all-idents src nothing_learned (ask ps q s).0,
  )
