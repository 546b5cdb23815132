-- ===== src/Nntp/Conn/Commands.antt =====
-- Logins and overview commands of internal/nntp/conn.go.
use nzb_indexer.Base.{
  ℕ, ap, ◌∙◌, ◌≡◌, ◌≢◌, ◌↔◌, ◌⊎◌, inl, inr, refl, false, none, some, List, ◌∷◌, arith, Bool-cases,
  ◌==◌, ℤ,
}
use nzb_indexer.Base.Bytes.{Bytes}
use nzb_indexer.Nntp.Errors.{Error, classify_error, connection, is_unrecognized}
use nzb_indexer.Nntp.Conn.{
  Wire, NetConn, OverCommand, Reading, Status, got, failed, Called, simple_cmd, authinfo_user,
  authinfo_pass, authenticate, overview_with, overview_lines, after_overview, after_alternative,
  alternative, command_or_xover,
}

module _ {S : Type 0} (wire : Wire S) where
  -- A login succeeds exactly when the server answers 281 to the user, or 381 to the user and 281 to the
  -- password; a login that the server rejects is classified as a failure of the connection, not of the
  -- authentication.
  pub authenticate_lem :
      (b : ℕ) (user pass : Bytes) (s t u : S) (asked told : Status)
      → simple_cmd wire (authinfo_user (b ∷ user)) s ≡ (got asked, t)
      → simple_cmd wire (authinfo_pass pass) t ≡ (got told, u)
      → let outcome = (authenticate wire (b ∷ user) pass s).0 in
        ((outcome ≡ none) ↔ ((asked.code ≡ 281) ⊎ ((asked.code ≡ 381) × (told.code ≡ 281))))
        × (outcome ≢ none → classify_error outcome ≡ connection)
  unfolding authenticate classify_error
  authenticate_lem b user pass s t u asked told e f =
      rw (e, f)
        (elim (Bool-cases (asked.code == 281)) [
          | inl known ↦ rw known ((λ h. inl (ground arith), λ h. refl), λ h. absurd (h refl))
          | inr unknown ↦ elim (Bool-cases (asked.code == 381)) [
            | inr odd ↦
                rw (unknown, odd)
                  ((λ h. absurd (ground arith), λ h. absurd (ground arith)), λ h. refl)
            | inl more ↦ elim (Bool-cases (told.code == 281)) [
              | inl good ↦
                  rw (unknown, more, good)
                    ((λ h. inr (ground arith, ground arith), λ h. refl), λ h. absurd (h refl))
              | inr bad ↦
                  rw (unknown, more, bad)
                    ((λ h. absurd (ground arith), λ h. absurd (ground arith)), λ h. refl)
            ]
          ]
        ])

  -- The lines that a call gives were given by the command that it remembers.
  abbrev pub Remembers : ℤ → ℤ → Called wire (List Bytes) → Type 0
  Remembers begin end call =
      (lines : List Bytes)
      → call.answer ≡ got lines
      → (used : OverCommand) × (t : S) × (call.conn.over_cmd ≡ some used)
        × (overview_with wire used begin end t ≡ (got lines, call.world))

  answered_by :
      (begin end : ℤ) (used : OverCommand) (r : Reading (List Bytes)) (t v : S) (lines : List Bytes)
      → overview_with wire used begin end t ≡ (r, v)
      → r ≡ got lines
      → overview_with wire used begin end t ≡ (got lines, v)
  answered_by begin end used r t v lines e h = e ∙ ap (λ x. (x, v)) h

  after_alternative-Remembers :
      (c : NetConn) (alt : OverCommand) (begin end : ℤ) (r : Reading (List Bytes)) (t v : S)
      → overview_with wire alt begin end t ≡ (r, v)
      → Remembers begin end (after_alternative wire c alt (r, v))
  after_alternative-Remembers c alt begin end (got found) t v e =
      λ lines h. (alt, t, refl, answered_by begin end alt (got found) t v lines e h)
  after_alternative-Remembers c alt begin end (failed err) t v e = λ lines h. absurd (ground arith)

  after_overview-Remembers :
      (c : NetConn) (chosen : OverCommand) (begin end : ℤ) (r : Reading (List Bytes)) (s v : S)
      → c.over_cmd ≡ some chosen
      → overview_with wire chosen begin end s ≡ (r, v)
      → Remembers begin end (after_overview wire c chosen begin end (r, v))
  after_overview-Remembers c chosen begin end (got found) s v k e =
      λ lines h. (chosen, s, k, answered_by begin end chosen (got found) s v lines e h)
  after_overview-Remembers c chosen begin end (failed err) s v k e =
      elim (Bool-cases (is_unrecognized err)) [
        | inl unknown ↦
            rw unknown (after_alternative-Remembers c (alternative chosen) begin end _ v _ refl)
        | inr known ↦ rw known (λ lines h. absurd (ground arith))
      ]

  after_overview-known :
      (c : NetConn) (chosen : OverCommand) (begin end : ℤ) (r : Reading (List Bytes)) (v : S)
      (err : Error)
      → r ≡ failed err
      → is_unrecognized err ≡ false
      → after_overview wire c chosen begin end (r, v)
        ≡ record { conn = c; world = v; answer = failed err }
  after_overview-known c chosen begin end (got found) v err h known = absurd (ground arith)
  after_overview-known c chosen begin end (failed first) v err h known =
      let same : first ≡ err = ground arith in
      let also_known : is_unrecognized first ≡ false = ap is_unrecognized same ∙ known in
      rw also_known (rw same refl)

  -- A call of overview that gives lines remembers the command that gave them; one that fails for
  -- another reason than an unknown command sends no second one and keeps its command.
  pub overview_lines-Remembers :
      (c : NetConn) (begin end : ℤ) (s : S)
      → let call = overview_lines wire c begin end s in
        let first = overview_with wire (command_or_xover (c.over_cmd)) begin end s in
        Remembers begin end call
        × ((err : Error)
            → (first.0) ≡ failed err
            → is_unrecognized err ≡ false
            → (call.answer ≡ failed err)
              × (call.world ≡ first.1)
              × (call.conn.over_cmd ≡ some (command_or_xover (c.over_cmd))))
  unfolding overview_lines
  overview_lines-Remembers c begin end s =
      let chosen = command_or_xover (c.over_cmd) in
      let tried : NetConn = record c { over_cmd = some chosen } in
      let first = overview_with wire chosen begin end s in
      (
        after_overview-Remembers tried chosen begin end (first.0) s (first.1) refl refl,
        λ err h known.
            let same =
              after_overview-known tried chosen begin end (first.0) (first.1) err h known in
            (
              ap (λ call. call.answer) same,
              ap (λ call. call.world) same,
              ap (λ call. call.conn.over_cmd) same,
            ),
      )
