-- ===== src/Auth/Middleware/Gates.antt =====
-- Who passes the gates of internal/auth/middleware.go.
use nzb_indexer.Base.{
  ℕ, ◌+◌, ◌*◌, ◌≤◌, ◌<◌, ◌≡◌, ◌⊎◌, refl, Option, none, some, [], ◌∷◌, arith, inl, inr,
  if◌then◌else◌,
}
use nzb_indexer.Base.Bytes.{Bytes}
use nzb_indexer.Auth.Service.{Principal, is_admin, Crypto, authenticate_session}
use nzb_indexer.Auth.Middleware.{
  Request, Context, Cell, Reply, refused, session_token, require_session, require_admin, with_token,
  after_session, admin_only, no_headers, retry_after,
}

-- The principal of a session token.
abbrev pub session_of : Crypto → Bytes → Option Principal
session_of crypto [] = none
session_of crypto (b ∷ s) = authenticate_session crypto (b ∷ s)

-- A refusal's Retry-After is at least a second; where the reset is a second or more away, it is the
-- whole seconds until then, so the wait it asks for ends no later than the reset.
pub retry_after_lem :
    (reset now : ℕ)
    → (1 ≤ retry_after reset now)
      × (now + 1000000000 ≤ reset
          → (now + retry_after reset now * 1000000000 ≤ reset)
            × (reset < now + (retry_after reset now + 1) * 1000000000))
unfolding retry_after
retry_after_lem reset now = (ground arith, λ h. (ground arith, ground arith))

module _ {A : Type 0} where
  -- What the admin gate gives for a session's principal.
  abbrev pub AdminReply :
      (Context → Cell → Reply A × Cell)
      → Context
      → Cell
      → Option Principal
      → Reply A × Cell
      → Type 0
  AdminReply next ctx cell none outcome =
      (outcome ≡ (refused 401 "authentication required" no_headers, cell))
      ⊎ (outcome ≡ (refused 401 "invalid or expired session" no_headers, cell))
  AdminReply next ctx cell (some p) outcome =
      let seen = if ctx.has_holder then some p else cell in
      outcome ≡ (
        if is_admin p
        then next (record ctx { principal = some p }) seen
        else (refused 403 "admin role required" no_headers, seen))

  -- The handler behind the admin gate runs exactly for a verified token of the admin role, and sees its
  -- principal, as does the holder of an outer middleware; a valid token of another role is answered
  -- 403, and everything else 401, with the holder untouched.
  pub require_admin_lem :
      (crypto : Crypto) (next : Context → Cell → Reply A × Cell) (r : Request) (ctx : Context)
      (cell : Cell)
      → AdminReply next ctx cell
          (session_of crypto (session_token r))
          (require_admin crypto next r ctx cell)
  unfolding require_admin require_session
  require_admin_lem crypto next r ctx cell = by_token (session_token r)
    where
      gate : Context → Cell → Reply A × Cell
      gate inner seen = admin_only (inner.principal) next inner seen

      by_session :
          (o : Option Principal) → AdminReply next ctx cell o (after_session o gate ctx cell)
      by_session none = inr refl
      by_session (some q) = refl

      by_token :
          (token : Bytes)
          → AdminReply next ctx cell
              (session_of crypto token)
              (with_token crypto token gate ctx cell)
      by_token [] = inl refl
      by_token (b ∷ s) = by_session (authenticate_session crypto (b ∷ s))
