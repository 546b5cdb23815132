-- ===== src/Auth/Service.antt =====
-- internal/auth/service.go: users and API keys are authenticated, and keys held to their budgets. The
-- store is a world that the calls step through; the clock's readings in a call are a record. Tokens and
-- hashes are made and checked by other libraries, whose answers are parameters.
mod Budget
mod Revoke
mod Tests
use Prim.Native.String.{String}
use text.Mathlib.Text.{◌==◌ as str_eq}
use nzb_indexer.Base.{
  ℕ, Bool, true, false, Option, none, some, if◌then◌else◌, ℤ, pos, negsuc, lebℤ, ltbℤ,
}
use nzb_indexer.Base.Bytes.{Bytes}
use nzb_indexer.Auth.RateLimit.{RateLimiter, Answer, allow, cleanup}
use nzb_indexer.Auth.KeyCache.{
  ApiKeyCache, new_api_key_cache, get, put, should_touch, invalidate, invalidate_all,
}

pub record User : Type 0 where
  pub id : ℤ
  pub username : String
  pub password_hash : String
  pub role : String
  pub rate_limit : ℤ
  pub active : Bool

pub record ApiKey : Type 0 where
  pub id : ℤ
  pub user_id : ℤ
  pub api_key : String
  pub active : Bool

pub record ApiKeyUser : Type 0 where
  pub key : ApiKey
  pub user : User

-- `rate_limit_reset` is `none` for the zero time.
pub record Principal : Type 0 where
  pub user_id : ℤ
  pub username : String
  pub role : String
  pub api_key_id : ℤ
  pub rate_limit : ℤ
  pub rate_limit_remaining : ℤ
  pub rate_limit_reset : Option ℕ

abbrev pub is_admin : Principal → Bool
is_admin p = str_eq p.role "admin"

pub record Claims : Type 0 where
  pub user_id : ℤ
  pub username : String
  pub role : String

-- The store's calls, `none` for an error; the error of a touch is ignored.
pub record Repo (S : Type 0) : Type 0 where
  pub get_user_by_username : String → S → Option User × S
  pub get_api_key_with_user : String → S → Option ApiKeyUser × S
  pub touch_api_key : ℤ → S → S

-- Signing and verifying of tokens, the test of a password against a hash, and decimal numerals.
pub record Crypto : Type 0 where
  pub issue : ℤ → String → String → Option Bytes
  pub verify : Bytes → Option Claims
  pub check_password : String → String → Bool
  pub format_int : ℤ → String

pub record Service : Type 0 where
  pub limiter : Option RateLimiter
  pub default_rate_limit : ℤ
  pub key_cache : ApiKeyCache ApiKeyUser

unfoldable pub new_service : Option RateLimiter → ℤ → Service
unfolding new_api_key_cache
new_service limiter default_rate_limit = record {
  limiter = limiter;
  default_rate_limit = default_rate_limit;
  key_cache = new_api_key_cache ApiKeyUser (pos 60000000000) (pos 60000000000) (pos 4096);
}

unfoldable pub invalidate_api_key : Service → String → Service
invalidate_api_key svc key = record svc { key_cache = invalidate svc.key_cache key }

unfoldable pub invalidate_api_key_cache : Service → Service
invalidate_api_key_cache svc = record svc { key_cache = invalidate_all svc.key_cache }

-- One tick of CleanupLoop.
pub cleanup_tick : Service → ℕ → Service
cleanup_tick svc now = elim (svc.limiter) [
  | none ↦ svc
  | some r ↦ record svc { limiter = some (cleanup r now) }
]

unfoldable pub rate_limit_for : Service → User → ℤ
rate_limit_for svc u = if ltbℤ (pos 0) (u.rate_limit) then u.rate_limit else svc.default_rate_limit

-- A principal without a key: the fields of the key and the budget are zero.
abbrev pub session_principal : ℤ → String → String → Principal
session_principal id username role = record {
  user_id = id;
  username = username;
  role = role;
  api_key_id = pos 0;
  rate_limit = pos 0;
  rate_limit_remaining = pos 0;
  rate_limit_reset = none;
}

-- What a login answers; `issue_failed` is the error of the token issuer.
pub data Login : Type 0 where
  issued : Bytes → Principal → Login
  login_refused issue_failed : Login

abbrev issue_for : Crypto → User → Login
issue_for crypto u = elim (crypto.issue (u.id) (u.username) (u.role)) [
  | none ↦ issue_failed
  | some token ↦ issued token (session_principal (u.id) (u.username) (u.role))
]

abbrev check_login : Crypto → String → Option User → Login
check_login crypto password none = login_refused
check_login crypto password (some u) =
    if u.active
    then if crypto.check_password (u.password_hash) password
      then issue_for crypto u
      else login_refused
    else login_refused

unfoldable pub authenticate_session : Crypto → Bytes → Option Principal
authenticate_session crypto token = elim (crypto.verify token) [
  | none ↦ none
  | some claims ↦ some (session_principal (claims.user_id) (claims.username) (claims.role))
]

-- The clock in one call, where it is read, and the cache entry that Go's iteration begins with.
pub record Instants : Type 0 where
  pub looked_up : ℕ
  pub stored : ℕ
  pub first : ℕ
  pub limited : ℕ
  pub tested : ℕ
  pub touched : ℕ

pub data Outcome : Type 0 where
  authorized : Principal → Outcome
  unauthorized : Outcome
  rate_limited : Option ℕ → Outcome

pub record Call (S : Type 0) : Type 0 where
  pub service : Service
  pub world : S
  pub outcome : Outcome

-- The user's limit, or the default.
abbrev pub limit_of : Service → ApiKeyUser → ℤ
limit_of svc rec =
    if lebℤ (rec.user.rate_limit) (pos 0) then svc.default_rate_limit else rec.user.rate_limit

-- The limiter's answer; without a limiter, -1 remaining and no reset.
abbrev pub allow_with : Option RateLimiter → String → ℤ → ℕ → Option RateLimiter × Answer
allow_with none key limit now =
    (none, record { allowed = true; remaining = negsuc 0; reset_at = none })
allow_with (some r) key limit now = let a = allow r key limit now in (some (a.0), a.1)

abbrev pub principal_of : ApiKeyUser → ℤ → Answer → Principal
principal_of rec limit a = record {
  user_id = rec.user.id;
  username = rec.user.username;
  role = rec.user.role;
  api_key_id = rec.key.id;
  rate_limit = limit;
  rate_limit_remaining = a.remaining;
  rate_limit_reset = a.reset_at;
}

module _ {S : Type 0} (repo : Repo S) (crypto : Crypto) where
  unfoldable pub login : String → String → S → Login × S
  login username password s =
      let (user, t) = repo.get_user_by_username username s in (check_login crypto password user, t)

  abbrev pub touch_if : Bool → ℤ → S → S
  touch_if true id s = repo.touch_api_key id s
  touch_if false id s = s

  -- From the limiter's answer on.
  abbrev pub after_limit : Service → String → ApiKeyUser → ℤ → Answer → Instants → S → Call S
  after_limit svc key rec limit a at s =
      let touch = should_touch svc.key_cache key at.tested at.touched in
      if a.allowed
      then record {
        service = record svc { key_cache = touch.0 };
        world = touch_if touch.1 (rec.key.id) s;
        outcome = authorized (principal_of rec limit a);
      }
      else record { service = svc; world = s; outcome = rate_limited (a.reset_at) }

  -- The request of a record that was found.
  unfoldable pub with_record : Service → String → ApiKeyUser → Instants → S → Call S
  with_record svc key rec at s =
      let limit = limit_of svc rec in
      let a = allow_with svc.limiter (crypto.format_int (rec.key.id)) limit at.limited in
      after_limit (record svc { limiter = a.0 }) key rec limit (a.1) at s

  abbrev pub after_read : Service → String → Instants → Option ApiKeyUser × S → Call S
  after_read svc key at (none, s) = record { service = svc; world = s; outcome = unauthorized }
  after_read svc key at (some rec, s) =
      with_record (record svc { key_cache = put svc.key_cache key rec at.stored at.first }) key rec
        at s

  abbrev pub after_get :
      Service → String → Instants → ApiKeyCache ApiKeyUser × Option ApiKeyUser → S → Call S
  after_get svc key at (c, some rec) s = with_record (record svc { key_cache = c }) key rec at s
  after_get svc key at (c, none) s =
      after_read (record svc { key_cache = c }) key at (repo.get_api_key_with_user key s)

  unfoldable pub authenticate_api_key : Service → String → Instants → S → Call S
  authenticate_api_key svc key at s =
      if str_eq key ""
      then record { service = svc; world = s; outcome = unauthorized }
      else after_get svc key at (get svc.key_cache key at.looked_up) s
