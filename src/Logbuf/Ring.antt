-- ===== src/Logbuf/Ring.antt =====
-- The ring of internal/logbuf/logbuf.go keeps the newest entries of its history, in order.
use mathlib.Core.Bool.{true≢false}
use native.Mathlib.Decide.{dec_lt}
use native.Mathlib.Nat.{mod_self, mod-eq_of_lt}
use nzb_indexer.Base.{
  ℕ, suc, ◌+◌, ◌-◌, ◌%◌, ◌<◌, ◌≡◌, ◌⊎◌, refl, sym, ◌∙◌, false, List, [], ◌∷◌, ◌++◌, ◌==◌, leb,
  length, set, take, drop, if◌then◌else◌, arith, ℤ, length-set, length-replicate, length-drop,
  length-append, append-nil, append_assoc, take-set-suc, drop-set-suc, drop-all, take-all,
  drop-append, drop-drop_one, inl, inr, Bool-cases,
}
use nzb_indexer.Logbuf.{Entry, no_entry, Buffer, new_buffer, add, ordered}

-- The last `n` of a list.
abbrev pub keep_newest {ℓ} : {A : Type ℓ} → ℕ → List A → List A
keep_newest n xs = drop (length xs - n) xs

-- The ring holds the newest entries of `log`, which lists every entry it was given, oldest first.
pub record Represents (b : Buffer) (log : List Entry) : Type 0 where
  pub sized : length b.entries ≡ b.cap
  pub within : b.next < b.cap
  pub wrapped : b.full ≡ leb b.cap (length log)
  pub position : b.full ≡ false → b.next ≡ length log
  pub newest : ordered b ≡ keep_newest b.cap log

-- The index of the next write.
next_cases :
    (next size : ℕ)
    → next < size
    → ((suc next ≡ size) × ((next + 1) % size ≡ 0))
      ⊎ ((suc next < size) × ((next + 1) % size ≡ suc next) × ((suc next == 0) ≡ false))
next_cases next size w =
    let e : next + 1 ≡ suc next = omega arith in
    rw e elim (dec_lt (suc next) size) [
      | yes lt ↦ inr (lt, mod-eq_of_lt lt, ground arith)
      | no over ↦
          let same : suc next ≡ size = omega arith in
          inl (same, rw (sym same) (mod_self (suc next)))
    ]

-- Dropping the oldest of a full ring.
rotate-drop :
    (es : List Entry) (n : ℕ)
    → n < length es
    → drop 1 (drop n es ++ take n es) ≡ drop (suc n) es ++ take n es
rotate-drop es n h =
    drop-append 1 (drop n es) (take n es) (omega (arith, length-drop n es))
    ∙ rw (drop-drop_one n es)

-- The slots up to the one just written.
written :
    (es : List Entry) (n : ℕ) (e : Entry)
    → n < length es
    → suc n ≡ length es
    → set es n e ++ [] ≡ take n es ++ (e ∷ [])
written es n e h last =
    append-nil (set es n e)
    ∙ sym (take-all (suc n) (set es n e) (omega (arith, length-set es n e)))
    ∙ take-set-suc es n e h

add-ordered :
    (b : Buffer) (e : Entry)
    → length b.entries ≡ b.cap
    → b.next < b.cap
    → ordered (add b e) ≡ (if b.full then drop 1 (ordered b) else ordered b) ++ (e ∷ [])
unfolding add ordered
add-ordered b e s w =
    let i : b.next < length b.entries = omega arith in
    elim (next_cases b.next b.cap w) [
      | inl (last, n) ↦ elim (Bool-cases b.full) [
        | inl f ↦
            rw (n, f)
              (written b.entries b.next e i (omega arith)
                ∙ rw
                    (rotate-drop b.entries b.next i, drop-all (suc b.next) b.entries (omega arith)))
        | inr f ↦ rw (n, f) (written b.entries b.next e i (omega arith))
      ]
      | inr (before, n, z) ↦ elim (Bool-cases b.full) [
        | inl f ↦
            rw (n, z, f)
              (rw
                (
                  drop-set-suc b.entries b.next e,
                  take-set-suc b.entries b.next e i,
                  rotate-drop b.entries b.next i,
                )
                (sym (append_assoc (drop (suc b.next) b.entries) (take b.next b.entries) (e ∷ []))))
        | inr f ↦ rw (n, z, f) (take-set-suc b.entries b.next e i)
      ]
    ]

keep_newest-snoc :
    (cap : ℕ) (log : List Entry) (e : Entry)
    → 0 < cap
    → keep_newest cap (log ++ (e ∷ []))
      ≡ (if leb cap (length log) then drop 1 (keep_newest cap log) else keep_newest cap log)
        ++ (e ∷ [])
keep_newest-snoc cap log e p =
    let grown : length (log ++ (e ∷ [])) ≡ length log + 1 = length-append log (e ∷ []) in
    elim (Bool-cases (leb cap (length log))) [
      | inl f ↦
          let over : length log + 1 - cap ≡ suc (length log - cap) = ground arith in
          rw (f, grown, over)
            (drop-append (suc (length log - cap)) log (e ∷ []) (ground arith)
              ∙ rw (drop-drop_one (length log - cap) log))
      | inr f ↦
          let under : length log + 1 - cap ≡ 0 = ground arith in
          let nothing : length log - cap ≡ 0 = ground arith in rw (f, grown, under, nothing)
    ]

-- A new ring holds the newest entries of the empty history.
pub new-Represents : (capacity : ℤ) → Represents (new_buffer capacity) []
unfolding new_buffer ordered
new-Represents capacity = record {
  sized = length-replicate _ no_entry;
  within = ground arith;
  wrapped = ground arith;
  position = λ h. refl;
  newest = sym (drop-all (0 - _) [] (omega arith));
}

-- Adding an entry to a ring that holds the newest entries of a history, as many as its capacity,
-- leaves one that holds the newest entries of the longer history: the oldest is lost only if the ring
-- was full.
pub add-Represents :
    (b : Buffer) (log : List Entry) (e : Entry)
    → Represents b log
    → Represents (add b e) (log ++ (e ∷ []))
unfolding add
add-Represents b log e r =
    let grown : length (log ++ (e ∷ [])) ≡ length log + 1 = length-append log (e ∷ []) in
    let cases = next_cases b.next b.cap r.within in
    let wrapped = r.wrapped in
    let position = r.position in
    let kept = keep_newest-snoc b.cap log e (omega (arith, r.within)) in
    let moved = add-ordered b e r.sized r.within in
    record {
      sized = length-set b.entries b.next e ∙ r.sized;
      within = elim cases [
        | inl (last, n) ↦ rw n (omega (arith, r.within))
        | inr (before, n, z) ↦ rw n before
      ];
      wrapped = elim cases [
        | inl (last, n) ↦ rw n (ground arith)
        | inr (before, n, z) ↦ rw (n, z) (ground arith)
      ];
      position = elim cases [
        | inl (last, n) ↦ λ f. absurd (true≢false (rw n at f))
        | inr (before, n, z) ↦ λ f. rw n (ground (arith, position (rw (n, z) at f)))
      ];
      newest = moved ∙ rw (r.newest, wrapped) (sym kept);
    }
