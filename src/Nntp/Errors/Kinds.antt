-- ===== src/Nntp/Errors/Kinds.antt =====
-- What the classification of internal/nntp/errors.go guarantees to its callers.
use nzb_indexer.Base.{ℕ, ◌≡◌, true, ◌↔◌, ◌⊎◌, inl, inr, none, some, arith, Option-cases}
use nzb_indexer.Nntp.Errors.{
  Error, connection, as_proto, is_conn_fatal, classify_error, is_permanent,
}

-- An error is connection-fatal exactly when it carries no status response of the server, and
-- exactly then its kind is `connection`.
pub is_conn_fatal_iff :
    (e : Error)
    → ((is_conn_fatal (some e) ≡ true) ↔ (as_proto e ≡ none))
      × ((classify_error (some e) ≡ connection) ↔ (as_proto e ≡ none))
unfolding is_conn_fatal classify_error
is_conn_fatal_iff e = elim (Option-cases (as_proto e)) [
  | inl p ↦ ground arith
  | inr (c, p) ↦ ground arith
]

-- A failure is permanent exactly when the server answered 430, 480, 481, 482 or 502.
pub is_permanent_iff :
    (e : Error)
    → (is_permanent (some e) ≡ true) ↔ (
        (c : ℕ) × (as_proto e ≡ some c)
        × ((c ≡ 430) ⊎ (c ≡ 480) ⊎ (c ≡ 481) ⊎ (c ≡ 482) ⊎ (c ≡ 502)))
unfolding is_permanent classify_error
is_permanent_iff e = elim (Option-cases (as_proto e)) [
  | inl p ↦ ground arith
  | inr (c, p) ↦ ground arith
]
