-- ===== src/Enrich/Counts.antt =====
-- The counts of a pass of internal/enrich/enrich.go.
use nzb_indexer.Base.{
  ◌+◌, ◌≤◌, ◌≡◌, Bool, true, false, Option, none, some, List, [], ◌∷◌, arith, Bool-cases, inl, inr,
  ◌&&◌, not, ℤ, positive_or, Option-cases,
}
use nzb_indexer.Nntp.Errors.{Error}
use nzb_indexer.Enrich.{
  Metadata, Item, input_of, World, Provider, Result, finished, Pass, Learned, nothing_learned,
  learn, consult, store_learned, enrich_all, no_result, pause, after_wait, count_upsert, count_best,
  stop, Listed, listed, list_failed, run, after_list, add_identifiers, is_found,
}

-- Every release that was begun is a match, a miss or an error; no release is both a match and a miss.
abbrev pub IsCounted : Result → Type 0
IsCounted r = (r.matches + r.misses ≤ r.processed) × (r.processed ≤ r.matches + r.misses + r.errors)

-- A pass that stopped may have left one release without an outcome.
pub record IsAccounted {S : Type 0} (p : Pass S) : Type 0 where
  pub apart : p.result.matches + p.result.misses ≤ p.result.processed
  pub nearly : p.result.processed ≤ p.result.matches + p.result.misses + p.result.errors + 1
  pub all :
      p.ending ≡ finished
      → p.result.processed ≤ p.result.matches + p.result.misses + p.result.errors

-- The counts while a release is worked on.
abbrev IsBegun : Result → Type 0
IsBegun r =
    (r.matches + r.misses + 1 ≤ r.processed) × (r.processed ≤ r.matches + r.misses + r.errors + 1)

module _ {Q S : Type 0} (w : World Q S) (delayed : Bool) where
  stop-begun :
      (res : Result) (err : Error) (s : S) → IsBegun res → IsAccounted (stop w delayed res err s)
  stop-begun res err s h = record {
    apart = ground arith;
    nearly = h.1;
    all = λ e. absurd (ground arith);
  }

  stop-counted :
      (res : Result) (err : Error) (s : S) → IsCounted res → IsAccounted (stop w delayed res err s)
  stop-counted res err s h = record { apart = h.0; nearly = ground arith; all = λ e. h.1 }

  consult-IsAccounted :
      (ps : List (Provider Q S)) (q : Q) (l : Learned) (res : Result) (s : S)
      (next : Learned → S → Pass S)
      → IsBegun res
      → ((m : Learned) (t : S) → IsAccounted (next m t))
      → IsAccounted (consult w delayed ps q l res s next)
  unfolding consult
  consult-IsAccounted [] q l res s next h after = after l s
  consult-IsAccounted (p ∷ ps) q l res s next h after = elim (Option-cases (w.ended s)) [
    | inl e ↦
        rw (e, consult) (consult-IsAccounted ps q (learn l (p q s).0) res (p q s).1 next h after)
    | inr e ↦ rw (e.1, consult) (stop-begun res (e.0) s h)
  ]

  after_wait-IsAccounted :
      (res : Result) (waited : Option Error × S) (next : Result → S → Pass S)
      → IsCounted res
      → ((r : Result) (t : S) → IsCounted r → IsAccounted (next r t))
      → IsAccounted (after_wait w delayed res waited next)
  after_wait-IsAccounted res (none, s) next h after = after res s h
  after_wait-IsAccounted res (some err, s) next h after = stop-counted res err s h

  count_upsert-IsCounted :
      (best : Option Metadata) (good : Bool) (res : Result)
      → IsBegun res
      → IsCounted (count_upsert w delayed good (count_best w delayed best res))
  count_upsert-IsCounted none true res h = (ground arith, ground arith)
  count_upsert-IsCounted none false res h = (ground arith, ground arith)
  count_upsert-IsCounted (some m) true res h = (ground arith, ground arith)
  count_upsert-IsCounted (some m) false res h = (ground arith, ground arith)

  pause-IsAccounted :
      (res : Result) (s : S) (next : Result → S → Pass S)
      → IsCounted res
      → ((r : Result) (t : S) → IsCounted r → IsAccounted (next r t))
      → IsAccounted (pause w delayed res s next)
  pause-IsAccounted res s next h after = elim (Bool-cases delayed) [
    | inl e ↦ rw e (after_wait-IsAccounted res (w.wait s) next h after)
    | inr e ↦ rw e (after res s h)
  ]

  store_learned-IsAccounted :
      (item : Item) (l : Learned) (res : Result) (s : S) (next : Result → S → Pass S)
      → IsBegun res
      → ((r : Result) (t : S) → IsCounted r → IsAccounted (next r t))
      → IsAccounted (store_learned w delayed item l res s next)
  unfolding store_learned
  store_learned-IsAccounted item l res s next h after =
      let upserted = w.upsert_metadata (input_of (item.id) (l.best)) s in
      elim (Bool-cases (not (is_found w delayed (l.best)) && l.had_err)) [
        | inl e ↦
            rw e (after (record res { errors = res.errors + 1 }) s (ground arith, ground arith))
        | inr e ↦ rw e (
            pause-IsAccounted _ (add_identifiers w delayed (item.id) (l.idents) (upserted.1)) next
              (count_upsert-IsCounted (l.best) (upserted.0) res h) after)
      ]

  enrich_all-IsAccounted :
      (ps : List (Provider Q S)) (items : List Item) (res : Result) (s : S)
      → IsCounted res
      → IsAccounted (enrich_all w delayed ps items res s)
  unfolding enrich_all
  enrich_all-IsAccounted ps [] res s h = record {
    apart = h.0;
    nearly = ground arith;
    all = λ e. h.1;
  }
  enrich_all-IsAccounted ps (item ∷ items) res s h =
      let counted = record res { processed = res.processed + 1 } in
      elim (Option-cases (w.ended s)) [
        | inl e ↦
            rw (e, enrich_all)
              (consult-IsAccounted ps _ nothing_learned counted s _ (ground arith, ground arith)
                (λ l t.
                  store_learned-IsAccounted item l counted t (enrich_all w delayed ps items)
                    (ground arith, ground arith)
                    (λ r u good. enrich_all-IsAccounted ps items r u good)))
        | inr e ↦ rw (e.1, enrich_all) (stop-counted res (e.0) s h)
      ]

  after_list-IsAccounted :
      (ps : List (Provider Q S)) (found : Listed × S) → IsAccounted (after_list w delayed ps found)
  after_list-IsAccounted ps (list_failed err, s) =
      stop-counted (no_result w delayed) err s (ground arith, ground arith)
  after_list-IsAccounted ps (listed items, s) =
      enrich_all-IsAccounted ps items (no_result w delayed) s (ground arith, ground arith)

  -- A pass of any ending counts no release twice as a match or miss; every release that it began is a
  -- match, a miss or an error, but for the last one of a pass that was stopped.
  pub run-IsAccounted :
      (ps : List (Provider Q S)) (batch_limit : ℤ) (s : S)
      → IsAccounted (run w delayed ps batch_limit s)
  unfolding run
  run-IsAccounted [] batch_limit s = record {
    apart = ground arith;
    nearly = ground arith;
    all = λ e. ground arith;
  }
  run-IsAccounted (p ∷ ps) batch_limit s =
      after_list-IsAccounted (p ∷ ps) (w.list_releases (positive_or 100 batch_limit) s)
