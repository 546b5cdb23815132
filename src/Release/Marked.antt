-- ===== src/Release/Marked.antt =====
-- Which binaries a pass of internal/release/release.go marks as released.
use nzb_indexer.Base.{
  ℕ, ◌+◌, ◌≡◌, ◌∙◌, ◌⊎◌, inl, inr, refl, sym, ap, List, [], ◌∷◌, ◌++◌, ℤ, arith, positive_or,
  append-nil, append_assoc,
}
use nzb_indexer.Nntp.Errors.{Error}
use nzb_indexer.Release.{
  Binary, listed, Created, created, duplicate, create_failed, Repo, Naming, Result, create_stopped,
  Pass, no_result, input_of, after_mark, after_create, promote, build,
}

abbrev pub ids_of : List Binary → List ℕ
ids_of [] = []
ids_of (bin ∷ bins) = bin.id ∷ ids_of bins

ids_of-snoc :
    (done : List Binary) (bin : Binary) → ids_of (done ++ (bin ∷ [])) ≡ ids_of done ++ (bin.id ∷ [])
ids_of-snoc [] bin = refl
ids_of-snoc (x ∷ done) bin = ap (λ ids. x.id ∷ ids) (ids_of-snoc done bin)

-- A result, with binaries counted besides.
abbrev pub counted : Result → ℕ → ℕ → ℕ → Result
counted res made found refused = record {
  created = res.created + made;
  duplicates = res.duplicates + found;
  processed = res.processed + (made + found + refused);
}

abbrev result_with : ℕ → ℕ → ℕ → Result
result_with a b c = record { created = a; duplicates = b; processed = c }

same_result : {a b c x y z : ℕ} → a ≡ x → b ≡ y → c ≡ z → result_with a b c ≡ result_with x y z
same_result p q r = cc

counted-made :
    (res : Result) (made found refused : ℕ)
    → counted
        (record res { processed = res.processed + 1; created = res.created + 1 })
        made
        found
        refused
      ≡ counted res (made + 1) found refused
counted-made res made found refused =
    same_result {a = res.created + 1 + made} {b = res.duplicates + found}
      {c = res.processed + 1 + (made + found + refused)} (omega arith) refl (omega arith)

counted-found :
    (res : Result) (made found refused : ℕ)
    → counted
        (record res { processed = res.processed + 1; duplicates = res.duplicates + 1 })
        made
        found
        refused
      ≡ counted res made (found + 1) refused
counted-found res made found refused =
    same_result {a = res.created + made} {b = res.duplicates + 1 + found}
      {c = res.processed + 1 + (made + found + refused)} refl (omega arith) (omega arith)

counted-none : (res : Result) → res ≡ counted res 0 0 0
counted-none res =
    same_result {a = res.created} {b = res.duplicates} {c = res.processed} {x = res.created + 0}
      {y = res.duplicates + 0} {z = res.processed + (0 + 0 + 0)} (omega arith) (omega arith)
      (omega arith)

counted-refused : (res : Result) → record res { processed = res.processed + 1 } ≡ counted res 0 0 1
counted-refused res =
    same_result {a = res.created} {b = res.duplicates} {c = res.processed + 1} {x = res.created + 0}
      {y = res.duplicates + 0} {z = res.processed + (0 + 0 + 1)} (omega arith) (omega arith)
      (omega arith)

module _ {S : Type 0} (names : Naming) (repo : Repo S) where
  -- The store took all these binaries in turn, each with a fresh id: so many were created, so many were
  -- duplicates.
  pub data Takes : List Binary → S → ℕ → ℕ → S → Type 0 where
    none_left : {s : S} → Takes [] s 0 0 s
    makes :
        {bin : Binary} {bins : List Binary} {s t u : S} {made found : ℕ}
        → repo.create_release (input_of names bin (repo.new_guid s)) s ≡ (created, t)
        → Takes bins t made found u
        → Takes (bin ∷ bins) s (made + 1) found u
    finds :
        {bin : Binary} {bins : List Binary} {s t u : S} {made found : ℕ}
        → repo.create_release (input_of names bin (repo.new_guid s)) s ≡ (duplicate, t)
        → Takes bins t made found u
        → Takes (bin ∷ bins) s made (found + 1) u

  -- A release was refused, and the pass ended there.
  pub record IsUnmarked (bins : List Binary) (res : Result) (s : S) (p : Pass S) : Type 0 where
    pub before : List Binary
    pub bin : Binary
    pub after : List Binary
    pub split : bins ≡ before ++ (bin ∷ after)
    pub made : ℕ
    pub found : ℕ
    pub reached : S
    pub takes : Takes before s made found reached
    pub failure : Error
    pub left : S
    pub refused :
        repo.create_release (input_of names bin (repo.new_guid reached)) reached
        ≡ (create_failed failure, left)
    pub ends : p ≡ record {
      result = counted res made found 1;
      ending = create_stopped failure;
      world = left;
    }

  -- No release was refused, and all the binaries were then marked in one call.
  pub record IsMarked (ids : List ℕ) (bins : List Binary) (res : Result) (s : S) (p : Pass S)
      : Type 0 where
    pub made : ℕ
    pub found : ℕ
    pub reached : S
    pub takes : Takes bins s made found reached
    pub ends : p ≡ after_mark names repo (counted res made found 0) (repo.mark_released ids reached)

  abbrev Outcome : List Binary → List Binary → Result → S → Pass S → Type 0
  Outcome done bins res s p =
      IsUnmarked bins res s p ⊎ IsMarked (ids_of (done ++ bins)) bins res s p

  -- One binary more in front, which counts by `up_made` and `up_found`.
  step-Outcome :
      (done : List Binary) (bin : Binary) (bins : List Binary) (res next : Result) (s t : S)
      (p : Pass S) (up_made up_found : ℕ → ℕ)
      → ((made found refused : ℕ)
          → counted next made found refused ≡ counted res (up_made made) (up_found found) refused)
      → ((before : List Binary) (made found : ℕ) (u : S)
          → Takes before t made found u
          → Takes (bin ∷ before) s (up_made made) (up_found found) u)
      → Outcome (done ++ (bin ∷ [])) bins next t p
      → Outcome done (bin ∷ bins) res s p
  step-Outcome done bin bins res next s t p up_made up_found counts grows (inl v) = inl (record {
    before = bin ∷ v.before;
    bin = v.bin;
    after = v.after;
    split = ap (λ l. bin ∷ l) v.split;
    made = up_made v.made;
    found = up_found v.found;
    reached = v.reached;
    takes = grows v.before v.made v.found v.reached v.takes;
    failure = v.failure;
    left = v.left;
    refused = v.refused;
    ends =
        v.ends
        ∙ ap (λ r. record { result = r; ending = create_stopped v.failure; world = v.left })
            (counts v.made v.found 1);
  })
  step-Outcome done bin bins res next s t p up_made up_found counts grows (inr v) = inr (record {
    made = up_made v.made;
    found = up_found v.found;
    reached = v.reached;
    takes = grows bins v.made v.found v.reached v.takes;
    ends =
        v.ends
        ∙ ap
            (λ ids.
              after_mark names repo (counted next v.made v.found 0)
                (repo.mark_released (ids_of ids) v.reached))
            (append_assoc done (bin ∷ []) bins)
        ∙ ap
            (λ r.
              after_mark names repo r
                (repo.mark_released (ids_of (done ++ (bin ∷ bins))) v.reached))
            (counts v.made v.found 0);
  })

  after_create-Outcome :
      (done : List Binary) (bin : Binary) (bins : List Binary) (res : Result) (s : S)
      (answer : Created × S) (next : Result → S → Pass S)
      → repo.create_release (input_of names bin (repo.new_guid s)) s ≡ answer
      → ((r : Result) (t : S) → Outcome (done ++ (bin ∷ [])) bins r t (next r t))
      → Outcome done
          (bin ∷ bins)
          res
          s
          (after_create names repo (record res { processed = res.processed + 1 }) answer next)
  after_create-Outcome done bin bins res s (created, t) next e ih =
      let made = record res { processed = res.processed + 1; created = res.created + 1 } in
      step-Outcome done bin bins res made s t (next made t) (λ n. n + 1) (λ n. n) (counted-made res)
        (λ before m f u taken. makes e taken) (ih made t)
  after_create-Outcome done bin bins res s (duplicate, t) next e ih =
      let found = record res { processed = res.processed + 1; duplicates = res.duplicates + 1 } in
      step-Outcome done bin bins res found s t (next found t) (λ n. n) (λ n. n + 1)
        (counted-found res) (λ before m f u taken. finds e taken) (ih found t)
  after_create-Outcome done bin bins res s (create_failed err, t) next e ih = inl (record {
    before = [];
    bin = bin;
    after = bins;
    split = refl;
    made = 0;
    found = 0;
    reached = s;
    takes = none_left;
    failure = err;
    left = t;
    refused = e;
    ends =
        ap (λ r. record { result = r; ending = create_stopped err; world = t })
          (counted-refused res);
  })

  promote-Outcome :
      (done bins : List Binary) (res : Result) (s : S)
      → Outcome done bins res s (promote names repo bins res (ids_of done) s)
  unfolding promote
  promote-Outcome done [] res s = inr (record {
    made = 0;
    found = 0;
    reached = s;
    takes = none_left;
    ends =
        ap (λ r. after_mark names repo r (repo.mark_released (ids_of done) s)) (counted-none res)
        ∙ ap (λ ids. after_mark names repo (counted res 0 0 0) (repo.mark_released (ids_of ids) s))
            (sym (append-nil done));
  })
  promote-Outcome done (bin ∷ bins) res s =
      after_create-Outcome done bin bins res s
        (repo.create_release (input_of names bin (repo.new_guid s)) s)
        (λ r t. promote names repo bins r (ids_of done ++ (bin.id ∷ [])) t) refl
        (λ r t. rw (sym (ids_of-snoc done bin)) (promote-Outcome (done ++ (bin ∷ [])) bins r t))

  -- A pass over listed binaries takes one of two ways. Either the store takes a first part of them, as new
  -- releases or as duplicates, and refuses the next: then the pass ends there with that error, its counts
  -- are those of the binaries so far, and nothing is marked, although releases may have been created. Or
  -- it takes all of them: then all are given to the store to be marked, in one call at the end, and the
  -- counts are of all of them.
  pub build-Outcome :
      (batch_limit : ℤ) (s t : S) (bins : List Binary)
      → repo.list_complete (positive_or 500 batch_limit) s ≡ (listed bins, t)
      → IsUnmarked bins no_result t (build names repo batch_limit s)
        ⊎ IsMarked (ids_of bins) bins no_result t (build names repo batch_limit s)
  unfolding build
  build-Outcome batch_limit s t bins lists = rw lists (promote-Outcome [] bins no_result t)
