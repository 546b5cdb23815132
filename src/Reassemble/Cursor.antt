-- ===== src/Reassemble/Cursor.antt =====
-- The cursor and the verdict of Run of internal/reassemble/reassemble.go.
use Prim.Native.String.{String}
use nzb_indexer.Base.{
  ℕ, zero, suc, ◌+◌, ◌≤◌, ◌≡◌, ◌⊎◌, inl, inr, refl, true, false, Option, none, some, List, [], ◌∷◌,
  arith, Bool-cases, Option-cases, positive_or,
}
use nzb_indexer.Nntp.Errors.{Error}
use nzb_indexer.Reassemble.{PartForReparse, ReassembleStats}
use nzb_indexer.Reassemble.Run.{
  Answer, ok, failed, Repo, Options, Result, Pass, after_cursor, after_batch, after_list, batches,
  no_result, from_cursor, run,
}

module _ {S : Type 0} (repo : Repo S) where
  -- A pass from the result `res` with `left` batches allowed: it runs no more than those; its cursor is
  -- the one it began with or one that the store has saved; and it reports "done" only after the store
  -- listed nothing behind that cursor.
  pub record IsSound (size left : ℕ) (res : Result) (p : Pass S) : Type 0 where
    pub bounded : p.result.batches_run ≤ res.batches_run + left
    pub saved :
        (p.result.cursor ≡ res.cursor)
        ⊎ ((t : S) × (u : S) × (repo.set_cursor p.result.cursor t ≡ (none, u)))
    pub emptied :
        p.result.done ≡ true → (t : S) × (repo.list_parts p.result.cursor size t ≡ (ok [], p.world))

  stop-IsSound :
      (size left : ℕ) (res : Result) (failure : Option Error) (s : S)
      → res.done ≡ false
      → IsSound size left res (record { result = res; failure = failure; world = s })
  stop-IsSound size left res failure s d = record {
    bounded = omega arith;
    saved = inl refl;
    emptied = λ h. absurd (ground arith);
  }

  after_cursor-IsSound :
      (size left : ℕ) (res res' : Result) (t s : S) (saved : Option Error) (next : S → Pass S)
      → res.done ≡ false
      → res'.batches_run ≡ res.batches_run + 1
      → repo.set_cursor res'.cursor t ≡ (saved, s)
      → IsSound size left res' (next s)
      → IsSound size (suc left) res (after_cursor repo res (saved, s) next)
  after_cursor-IsSound size left res res' t s (some err) next d b e v =
      stop-IsSound size (suc left) res (some err) s d
  after_cursor-IsSound size left res res' t s none next d b e v = record {
    bounded = omega (arith, v.bounded);
    saved = elim v.saved [ inl same ↦ inr (t, s, rw same e) | inr later ↦ inr later ];
    emptied = v.emptied;
  }

  after_batch-IsSound :
      (size left : ℕ) (res : Result) (scanned cursor : ℕ) (a : Answer ReassembleStats × S)
      (next : Result → S → Pass S)
      → res.done ≡ false
      → ((r : Result) (u : S) → r.done ≡ false → IsSound size left r (next r u))
      → IsSound size (suc left) res (after_batch repo res scanned cursor a next)
  after_batch-IsSound size left res scanned cursor (failed err, s) next d ih =
      stop-IsSound size (suc left) res (some err) s d
  after_batch-IsSound size left res scanned cursor (ok stats, s) next d ih =
      let saved = repo.set_cursor cursor s in
      after_cursor-IsSound size left res _ s saved.1 saved.0 (next _) d refl refl (ih _ saved.1 d)

  after_list-IsSound :
      (size left : ℕ) (res : Result) (t s : S) (a : Answer (List PartForReparse))
      (next : Result → S → Pass S)
      → res.done ≡ false
      → repo.list_parts res.cursor size t ≡ (a, s)
      → ((r : Result) (u : S) → r.done ≡ false → IsSound size left r (next r u))
      → IsSound size (suc left) res (after_list repo res (a, s) next)
  after_list-IsSound size left res t s (failed err) next d e ih =
      stop-IsSound size (suc left) res (some err) s d
  after_list-IsSound size left res t s (ok []) next d e ih = record {
    bounded = omega arith;
    saved = inl refl;
    emptied = λ h. (t, e);
  }
  after_list-IsSound size left res t s (ok (p ∷ ps)) next d e ih =
      after_batch-IsSound size left res _ _ _ next d ih

  batches-IsSound :
      (size left : ℕ) (res : Result) (s : S)
      → res.done ≡ false
      → IsSound size left res (batches repo size left res s)
  unfolding batches
  batches-IsSound size zero res s d = stop-IsSound size zero res none s d
  batches-IsSound size (suc left) res s d = elim (Option-cases (repo.ended s)) [
    | inr (err, e) ↦ rw (e, batches) (stop-IsSound size (suc left) res (some err) s d)
    | inl e ↦ elim (Bool-cases (repo.overdue s)) [
      | inl o ↦ rw (e, o, batches) (stop-IsSound size (suc left) res none s d)
      | inr o ↦
          let listed = repo.list_parts res.cursor size s in
          rw (e, o, batches)
            (after_list-IsSound size left res s listed.1 listed.0 (batches repo size left) d refl
              (λ r u h. batches-IsSound size left r u h))
    ]
  ]

  abbrev pub limit_of : Options → ℕ
  limit_of opts = positive_or 20 opts.max_batches_per_run

  abbrev pub size_of : Options → ℕ
  size_of opts = positive_or 5000 opts.batch_size

  abbrev pub or_zero : Option ℕ → ℕ
  or_zero none = 0
  or_zero (some n) = n

  -- The cursor that a pass begins with.
  abbrev pub start_of : Answer (Option String) → ℕ
  start_of (failed err) = 0
  start_of (ok none) = 0
  start_of (ok (some raw)) = or_zero (repo.parse_cursor raw)

  -- A pass runs at most the configured number of batches. The cursor it reports is the stored one (0 if
  -- none is stored or it cannot be read) or one that the store has saved during the pass, and it reports
  -- "done" only after the store listed nothing behind that cursor.
  pub run-IsSound :
      (opts : Options) (s : S)
      → IsSound
          (size_of opts)
          (limit_of opts)
          (record (no_result repo) { cursor = start_of (repo.get_cursor s).0 })
          (run repo opts s)
  unfolding run
  run-IsSound opts s = from (repo.get_cursor s)
    where
      from :
          (a : Answer (Option String) × S)
          → IsSound
              (size_of opts)
              (limit_of opts)
              (record (no_result repo) { cursor = start_of a.0 })
              (from_cursor repo opts a)
      from (failed err, t) = stop-IsSound _ _ _ _ t refl
      from (ok none, t) = batches-IsSound _ _ _ t refl
      from (ok (some raw), t) = elim (Option-cases (repo.parse_cursor raw)) [
        | inl e ↦ rw (e, from_cursor, start_of) (stop-IsSound _ _ _ _ t refl)
        | inr (n, e) ↦ rw (e, from_cursor, start_of) (batches-IsSound _ _ _ t refl)
      ]
