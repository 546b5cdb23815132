-- ===== src/Auth/Middleware.antt =====
-- internal/auth/middleware.go: the gates before the handlers. A context says whether an outer
-- middleware installed a holder, and which principal is attached; the holder's cell is passed along. A
-- handler is a function of the context and the cell.
mod Gates
mod Tests
use Prim.Native.String.{String}
use nzb_indexer.Base.{
  ℕ, ◌+◌, ◌-◌, ◌/◌, Bool, true, false, Option, none, some, List, [], ◌∷◌, ltb, if◌then◌else◌, ℤ,
  pos, lebℤ, ltbℤ, max,
}
use nzb_indexer.Base.Bytes.{Bytes, cut_prefix, trim_space}
use nzb_indexer.Auth.Service.{
  Principal, is_admin, Repo, Crypto, Service, Instants, Outcome, authorized, unauthorized,
  rate_limited, Call, authenticate_session, authenticate_api_key,
}

-- The parts of a request that are read; a header or parameter that is missing is empty.
pub record Request : Type 0 where
  pub authorization : Bytes
  pub cookie : Option Bytes
  pub query_token : Bytes
  pub query_apikey : String

pub record Context : Type 0 where
  pub has_holder : Bool
  pub principal : Option Principal

-- The holder's content, `none` while nothing is set.
abbrev pub Cell : Type 0
Cell = Option Principal

-- The context that the outer middleware makes, with an empty holder.
abbrev pub with_principal_holder : Context → Context × Cell
with_principal_holder ctx = (record ctx { has_holder = true }, none)

abbrev pub with_principal : Context → Cell → Principal → Context × Cell
with_principal ctx cell p =
    (record ctx { principal = some p }, if ctx.has_holder then some p else cell)

pub record Headers : Type 0 where
  pub retry_after : Option ℕ
  pub limit : Option ℤ
  pub remaining : Option ℤ
  pub reset : Option ℕ

abbrev pub no_headers : Headers
no_headers = record { retry_after = none; limit = none; remaining = none; reset = none }

-- What the client gets: a handler's answer, or a status with a message.
pub data Reply (A : Type 0) : Type 0 where
  answered : A → Reply A
  refused : ℕ → String → Headers → Reply A

-- "Bearer "
abbrev bearer : Bytes
bearer = 66 ∷ 101 ∷ 97 ∷ 114 ∷ 101 ∷ 114 ∷ 32 ∷ []

abbrev trim_rest : Option Bytes → Bytes
trim_rest none = []
trim_rest (some rest) = trim_space rest

unfoldable pub bearer_token : Request → Bytes
unfolding cut_prefix
bearer_token r = trim_rest (cut_prefix bearer (r.authorization))

-- The next source of the token, if there is none yet.
abbrev or_else : Bytes → Bytes → Bytes
or_else [] other = other
or_else (b ∷ s) other = b ∷ s

abbrev cookie_value : Option Bytes → Bytes
cookie_value none = []
cookie_value (some value) = value

unfoldable pub session_token : Request → Bytes
session_token r = or_else (or_else (bearer_token r) (cookie_value (r.cookie))) (r.query_token)

module _ {A : Type 0} where
  abbrev after_session :
      Option Principal → (Context → Cell → Reply A × Cell) → Context → Cell → Reply A × Cell
  after_session none next ctx cell = (refused 401 "invalid or expired session" no_headers, cell)
  after_session (some p) next ctx cell =
      let (inner, seen) = with_principal ctx cell p in next inner seen

  abbrev with_token :
      Crypto → Bytes → (Context → Cell → Reply A × Cell) → Context → Cell → Reply A × Cell
  with_token crypto [] next ctx cell = (refused 401 "authentication required" no_headers, cell)
  with_token crypto (b ∷ s) next ctx cell =
      after_session (authenticate_session crypto (b ∷ s)) next ctx cell

  unfoldable pub require_session :
      Crypto → (Context → Cell → Reply A × Cell) → Request → Context → Cell → Reply A × Cell
  require_session crypto next r ctx cell = with_token crypto (session_token r) next ctx cell

  abbrev admin_only :
      Option Principal → (Context → Cell → Reply A × Cell) → Context → Cell → Reply A × Cell
  admin_only none next ctx cell = (refused 403 "admin role required" no_headers, cell)
  admin_only (some p) next ctx cell =
      if is_admin p then next ctx cell else (refused 403 "admin role required" no_headers, cell)

  unfoldable pub require_admin :
      Crypto → (Context → Cell → Reply A × Cell) → Request → Context → Cell → Reply A × Cell
  require_admin crypto next r ctx cell =
      require_session crypto (λ inner seen. admin_only (inner.principal) next inner seen) r ctx cell

-- `int(time.Until(resetAt).Seconds())`, one at least.
unfoldable pub retry_after : ℕ → ℕ → ℕ
retry_after reset now = let secs = (reset - now) / 1000000000 in if ltb secs 1 then 1 else secs

-- The headers of a refusal, and those of an answer, with the reset in seconds.
abbrev limited_headers : Option ℕ → ℕ → Headers
limited_headers none now = no_headers
limited_headers (some reset) now = record no_headers {
  retry_after = some (retry_after reset now);
  reset = some (reset / 1000000000);
}

abbrev in_seconds : Option ℕ → Option ℕ
in_seconds none = none
in_seconds (some reset) = some (reset / 1000000000)

abbrev pub budget_headers : Principal → Headers
budget_headers p =
    if ltbℤ (pos 0) (p.rate_limit)
    then record {
      retry_after = none;
      limit = some (p.rate_limit);
      remaining =
          if lebℤ (pos 0) (p.rate_limit_remaining) then some (p.rate_limit_remaining) else none;
      reset = in_seconds (p.rate_limit_reset);
    }
    else no_headers

-- A gate's result with what it changed.
pub record Gated (A S : Type 0) : Type 0 where
  pub service : Service
  pub world : S
  pub cell : Cell
  pub reply : Reply A
  pub headers : Headers

module _ {A S : Type 0} (repo : Repo S) (crypto : Crypto) where
  abbrev after_key :
      Call S
      → ℕ
      → (Context → Cell → S → (Reply A × Cell) × S)
      → Context
      → Cell
      → Outcome
      → Gated A S
  after_key call now next ctx cell (rate_limited reset) = record {
    service = call.service;
    world = call.world;
    cell = cell;
    reply = refused 429 "rate limit exceeded" (limited_headers reset now);
    headers = limited_headers reset now;
  }
  after_key call now next ctx cell unauthorized = record {
    service = call.service;
    world = call.world;
    cell = cell;
    reply = refused 401 "invalid api key" no_headers;
    headers = no_headers;
  }
  after_key call now next ctx cell (authorized p) =
      let (inner, seen) = with_principal ctx cell p in
      let ((reply, last), s) = next inner seen call.world in
      record {
        service = call.service;
        world = s;
        cell = last;
        reply = reply;
        headers = budget_headers p;
      }

  -- `now` is the clock when the headers of a refusal are written.
  unfoldable pub require_api_key :
      Service
      → (Context → Cell → S → (Reply A × Cell) × S)
      → Request
      → Instants
      → ℕ
      → Context
      → Cell
      → S
      → Gated A S
  require_api_key svc next r at now ctx cell s =
      let call = authenticate_api_key repo crypto svc (r.query_apikey) at s in
      after_key call now next ctx cell call.outcome
