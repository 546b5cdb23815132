-- ===== src/Notify/Dedup.antt =====
-- Which events internal/notify/notify.go takes for duplicates.
use Prim.Native.String.{String}
use text.Mathlib.Text.{◌==◌ as str_eq}
use text.Mathlib.TextEquality.{eq_iff}
use nzb_indexer.Base.{
  ℕ, ap, ◌+◌, ◌-◌, ◌≤◌, ◌≡◌, ◌∙◌, refl, sym, true, false, some, arith, Bool-cases, inl, inr, List,
  [], ◌∷◌, ltb, leb, pos, pos_part, lebℤ,
}
use mathlib.Core.Path.{subst}
use nzb_indexer.Base.Dict.{lookup, lookup-insert, lookup-insert_self}
use nzb_indexer.Notify.{Service, drop_stale, is_fresh, deduped}

-- An entry within the window stays, in front of others with the same key or not.
lookup-drop_stale :
    (window now t : ℕ) (id : String) (m : List (String × ℕ))
    → lookup id m ≡ some t
    → now - t ≤ window
    → lookup id (drop_stale window now m) ≡ some t
unfolding drop_stale lookup
lookup-drop_stale window now t id [] h near = absurd (ground arith)
lookup-drop_stale window now t id ((k, s) ∷ m) h near = elim (Bool-cases (str_eq k id)) [
  | inl here ↦
      let same : s ≡ t = ground arith in
      let kept : ltb window (now - s) ≡ false = ground arith in rw kept (rw here (ap some same))
  | inr there ↦
      let rest = lookup-drop_stale window now t id m (ground arith) near in
      elim (Bool-cases (ltb window (now - s))) [
        | inl stale ↦ rw stale rest
        | inr kept ↦ rw kept (rw there rest)
      ]
]

-- The service after events with the given ids at the given instants.
unfoldable pub after_events : Service → List (String × ℕ) → Service
after_events s [] = s
after_events s ((id, t) ∷ es) = after_events (deduped s id t).1 es

-- The instants are none before the first and none after the last.
abbrev pub Until : ℕ → List (String × ℕ) → Type 0
Until last [] = Unit
Until last ((id, t) ∷ es) = (t ≤ last) × Until last es

-- The service has seen the id at an instant.
abbrev Saw : Service → String → ℕ → Type 0
Saw s id t = lookup id s.seen ≡ some t

deduped-Saw :
    (s : Service) (id other : String) (t now : ℕ)
    → lebℤ (s.opts.dedup_window) (pos 0) ≡ false
    → now - t ≤ pos_part (s.opts.dedup_window)
    → Saw s id t
    → Saw (deduped s other now).1 id t × ((deduped s other now).1.opts ≡ s.opts)
unfolding deduped
deduped-Saw s id other t now on near saw =
    let window = pos_part (s.opts.dedup_window) in
    let kept = drop_stale window now s.seen in
    let stays = lookup-drop_stale window now t id s.seen saw near in
    elim (Bool-cases (is_fresh window now (lookup other kept))) [
      | inl again ↦ rw on (rw again (stays, refl))
      | inr first ↦ elim (Bool-cases (str_eq other id)) [
        | inl same ↦
            let alike : other ≡ id = (eq_iff other id).0 same in
            let found : lookup other kept ≡ some t =
              subst (λ k. lookup k kept ≡ some t) (sym alike) stays in
            absurd (ground arith)
        | inr differs ↦ rw on (rw first (lookup-insert other id now kept ∙ rw differs stays, refl))
      ]
    ]

after_events-Saw :
    (s : Service) (id : String) (es : List (String × ℕ)) (t now : ℕ)
    → lebℤ (s.opts.dedup_window) (pos 0) ≡ false
    → now - t ≤ pos_part (s.opts.dedup_window)
    → Until now es
    → Saw s id t
    → Saw (after_events s es) id t × ((after_events s es).opts ≡ s.opts)
unfolding after_events
after_events-Saw s id [] t now on near until saw = (saw, refl)
after_events-Saw s id ((other, u) ∷ es) t now on near (le, until) saw =
    let (still, same) = deduped-Saw s id other t u on (omega arith) saw in
    let (last, kept) =
      after_events-Saw (deduped s other u).1 id es t now (rw same on) (rw same near) until still in
    (last, kept ∙ same)

deduped-first :
    (s : Service) (id : String) (t : ℕ)
    → lebℤ (s.opts.dedup_window) (pos 0) ≡ false
    → (deduped s id t).0 ≡ false
    → Saw (deduped s id t).1 id t × ((deduped s id t).1.opts ≡ s.opts)
unfolding deduped
deduped-first s id t on new =
    let window = pos_part (s.opts.dedup_window) in
    let kept = drop_stale window t s.seen in
    elim (Bool-cases (is_fresh window t (lookup id kept))) [
      | inl again ↦ absurd (ground arith)
      | inr first ↦ rw on (rw first (lookup-insert_self id t kept, refl))
    ]

deduped-again :
    (s : Service) (id : String) (t now : ℕ)
    → lebℤ (s.opts.dedup_window) (pos 0) ≡ false
    → now - t ≤ pos_part (s.opts.dedup_window)
    → Saw s id t
    → (deduped s id now).0 ≡ true
unfolding deduped
deduped-again s id t now on near saw =
    let window = pos_part (s.opts.dedup_window) in
    let stays = lookup-drop_stale window now t id s.seen saw near in
    let fresh : leb (now - t) window ≡ true = ground arith in rw on (rw stays (rw fresh refl))

-- With a positive window, an event that was not taken for a duplicate makes every event of its id one
-- until the window has passed, whatever other events come in between.
pub deduped_once :
    (s : Service) (id : String) (es : List (String × ℕ)) (t now : ℕ)
    → lebℤ (s.opts.dedup_window) (pos 0) ≡ false
    → (deduped s id t).0 ≡ false
    → Until now es
    → now ≤ t + pos_part (s.opts.dedup_window)
    → (deduped (after_events (deduped s id t).1 es) id now).0 ≡ true
deduped_once s id es t now on new until near =
    let (saw, same) = deduped-first s id t on new in
    let (still, kept) =
      after_events-Saw (deduped s id t).1 id es t now (rw same on) (rw same (omega arith)) until
        saw in
    deduped-again (after_events (deduped s id t).1 es) id t now (rw kept (rw same on))
      (rw kept (rw same (omega arith))) still
