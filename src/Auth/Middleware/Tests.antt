-- ===== src/Auth/Middleware/Tests.antt =====
-- Runs of the admin gate, with one good token.
use nzb_indexer.Base.{ℕ, ◌≡◌, refl, true, false, none, some, [], ◌∷◌, if◌then◌else◌, pos}
use nzb_indexer.Base.Bytes.{cut_prefix, trim_space, trim_left, trim_end, is_space, same_bytes}
use nzb_indexer.Auth.Service.{Crypto, authenticate_session, session_principal}
use nzb_indexer.Auth.Middleware.{
  Request, Context, Cell, Reply, answered, refused, session_token, bearer_token, require_session,
  require_admin, no_headers, retry_after,
}
use nzb_indexer.Auth.Middleware.Gates.{require_admin_lem}

-- The token "t" is an admin's, "u" a user's.
abbrev crypto : Crypto
crypto = record {
  issue = λ id name role. none;
  verify = λ token.
      if same_bytes token (116 ∷ [])
      then some (record { user_id = pos 1; username = "alice"; role = "admin" })
      else if same_bytes token (117 ∷ [])
      then some (record { user_id = pos 2; username = "bob"; role = "user" })
      else none;
  check_password = λ hash password. false;
  format_int = λ n. "";
}

abbrev handler : Context → Cell → Reply ℕ × Cell
handler ctx cell = (answered 1, cell)

abbrev outer : Context
outer = record { has_holder = true; principal = none }

-- "Bearer  t"
abbrev by_header : Request
by_header = record {
  authorization = 66 ∷ 101 ∷ 97 ∷ 114 ∷ 101 ∷ 114 ∷ 32 ∷ 32 ∷ 116 ∷ [];
  cookie = some (117 ∷ []);
  query_token = [];
  query_apikey = "";
}

abbrev by_query : Request
by_query = record {
  authorization = 66 ∷ [];
  cookie = none;
  query_token = 117 ∷ [];
  query_apikey = "";
}

program : Unit {0}
unfolding cut_prefix trim_space trim_left trim_end is_space same_bytes session_token bearer_token
    require_session require_admin authenticate_session retry_after
program = tt

header_first : session_token by_header ≡ 116 ∷ []
unfolding program
header_first = refl

user_is_refused :
    require_admin crypto handler by_query outer none
    ≡ (refused 403 "admin role required" no_headers, some (session_principal (pos 2) "bob" "user"))
unfolding program
user_is_refused = refl

require_admin_lem_example :
    require_admin crypto handler by_header outer none
    ≡ (answered 1, some (session_principal (pos 1) "alice" "admin"))
unfolding program
require_admin_lem_example = require_admin_lem crypto handler by_header outer none
