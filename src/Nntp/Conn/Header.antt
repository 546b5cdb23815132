-- ===== src/Nntp/Conn/Header.antt =====
-- What bodyHeader of internal/nntp/conn.go leaves on the wire.
use nzb_indexer.Base.{ℕ, zero, suc, ◌≡◌, ◌⊎◌, inl, inr, refl, true, false, arith, Bool-cases}
use nzb_indexer.Base.Bytes.{Bytes, cut_prefix}
use nzb_indexer.Nntp.Errors.{Error}
use nzb_indexer.Nntp.Overview.{ensure_angle}
use nzb_indexer.Nntp.Conn.{
  Wire, NetConn, Reading, Status, got, failed, Called, is_eof, ybegin, starts_ybegin, after_line,
  header_lines, after_body, body_header, ask, body_of,
}

module _ {S : Type 0} (wire : Wire S) where
  -- What the last line read has shown: that the block is at its end.
  abbrev pub Drained : S → Type 0
  Drained s = (t : S) × (err : Error) × (wire.dot_line t ≡ (failed err, s)) × (is_eof err ≡ true)

  -- A call that gives a line gives a yEnc control line and a spent connection; one that leaves the
  -- connection as it was has either read the block to its end or none of it.
  pub record IsSound (c : NetConn) (message_id : Bytes) (s : S) (call : Called wire Bytes)
      : Type 0 where
    pub control_line :
        (line : Bytes)
        → call.answer ≡ got line
        → (starts_ybegin (cut_prefix ybegin line) ≡ true) × (call.conn.spent ≡ true)
    pub reusable :
        call.conn.spent ≡ false
        → (c.spent ≡ false)
          × (Drained call.world
              ⊎ ((err : Error) × (ask wire
                      (body_of (ensure_angle message_id))
                      222
                      (λ status t. (got status, t))
                      s
                    ≡ (failed err, call.world))))
    pub command_kept : call.conn.over_cmd ≡ c.over_cmd

  after_line-IsSound :
      (c : NetConn) (message_id : Bytes) (s t u : S) (r : Reading Bytes)
      (next : S → Called wire Bytes)
      → wire.dot_line t ≡ (r, u)
      → ((v : S) → IsSound c message_id s (next v))
      → IsSound c message_id s (after_line wire c (r, u) next)
  after_line-IsSound c message_id s t u (failed err) next e ih = elim (Bool-cases (is_eof err)) [
    | inl end ↦ rw end (record {
      control_line = λ line h. absurd (ground arith);
      reusable = λ h. (h, inl (t, err, e, end));
      command_kept = refl;
    })
    | inr broken ↦ rw broken (record {
      control_line = λ line h. absurd (ground arith);
      reusable = λ h. absurd (ground arith);
      command_kept = refl;
    })
  ]
  after_line-IsSound c message_id s t u (got line) next e ih =
      elim (Bool-cases (starts_ybegin (cut_prefix ybegin line))) [
        | inl begun ↦ rw begun (record {
          control_line = λ l h. (ground arith, refl);
          reusable = λ h. absurd (ground arith);
          command_kept = refl;
        })
        | inr not_yet ↦ rw not_yet (ih u)
      ]

  header_lines-IsSound :
      (c : NetConn) (message_id : Bytes) (s : S) (left : ℕ) (t : S)
      → IsSound c message_id s (header_lines wire c left t)
  unfolding header_lines
  header_lines-IsSound c message_id s zero t = record {
    control_line = λ line h. absurd (ground arith);
    reusable = λ h. absurd (ground arith);
    command_kept = refl;
  }
  header_lines-IsSound c message_id s (suc left) t =
      after_line-IsSound c message_id s t _ _ (header_lines wire c left) refl
        (header_lines-IsSound c message_id s left)

  -- The header that bodyHeader returns is a yEnc control line, and the connection is then spent; a
  -- connection that is not spent afterwards was not before, and either its response was read to the end
  -- of the block, or the command failed before any line of a block was read: it could not be sent, its
  -- status line could not be read, or the server answered with another code than 222.
  pub body_header-IsSound :
      (c : NetConn) (message_id : Bytes) (s : S)
      → IsSound c message_id s (body_header wire c message_id s)
  unfolding body_header
  body_header-IsSound c message_id s = by_status _ _ refl
    where
      by_status :
          (r : Reading Status) (t : S)
          → ask wire (body_of (ensure_angle message_id)) 222 (λ status v. (got status, v)) s
            ≡ (r, t)
          → IsSound c message_id s (after_body wire c (r, t))
      by_status (failed err) t e = record {
        control_line = λ line h. absurd (ground arith);
        reusable = λ h. (h, inr (err, e));
        command_kept = refl;
      }
      by_status (got status) t e = header_lines-IsSound c message_id s 8 t
