-- ===== src/Auth/Service/Tests.antt =====
-- Runs of the auth service over a store of two keys that counts its lookups and touches.
use text.Mathlib.Text.{◌==◌ as str_eq}
use nzb_indexer.Base.{
  ℕ, inr, ◌+◌, ◌-◌, ◌≡◌, refl, true, Option, none, some, [], ◌∷◌, if◌then◌else◌, pos, arith, min,
}
use nzb_indexer.Base.Dict.{lookup, insert, remove}
use nzb_indexer.Auth.RateLimit.{new_rate_limiter, allow}
use nzb_indexer.Auth.KeyCache.{new_api_key_cache, get, put, should_touch, invalidate, evict_one}
use nzb_indexer.Auth.Service.{
  User, ApiKeyUser, Repo, Crypto, Service, new_service, Instants, authorized, unauthorized, login,
  authenticate_session, authenticate_api_key, invalidate_api_key, with_record, principal_of, issued,
  login_refused, session_principal, rate_limit_for,
}
use nzb_indexer.Auth.Service.Budget.{authorized_count, key_budget}
use nzb_indexer.Auth.Service.Revoke.{answer_for, authenticate_accepts}

abbrev alice : User
alice = record {
  id = pos 1;
  username = "alice";
  password_hash = "h";
  role = "admin";
  rate_limit = pos 2;
  active = true;
}

abbrev alices_key : ApiKeyUser
alices_key = record {
  key = record { id = pos 7; user_id = pos 1; api_key = "k1"; active = true };
  user = alice;
}

-- The world: whether the key is still there, the lookups, and the touches.
abbrev World : Type 0
World = Option ApiKeyUser × ℕ × ℕ

abbrev repo : Repo World
repo = record {
  get_user_by_username = λ name s. (if str_eq name "alice" then some alice else none, s);
  get_api_key_with_user = λ key (there, looked, touched).
      (if str_eq key "k1" then there else none, (there, looked + 1, touched));
  touch_api_key = λ id (there, looked, touched). (there, looked, touched + 1);
}

abbrev crypto : Crypto
crypto = record {
  issue = λ id name role. some (1 ∷ 2 ∷ []);
  verify = λ token. none;
  check_password = λ hash password. str_eq password "secret";
  format_int = λ n. "7";
}

abbrev at_time : ℕ → Instants
at_time t = record { looked_up = t; stored = t; first = 0; limited = t; tested = t; touched = t }

abbrev fresh : Service
fresh = new_service (some (new_rate_limiter (pos 100))) (pos 5)

abbrev stocked : World
stocked = (some alices_key, 0, 0)

program : Unit {0}
unfolding new_service new_rate_limiter new_api_key_cache allow lookup insert remove get put
    should_touch invalidate evict_one authenticate_api_key with_record invalidate_api_key
    authorized_count login authenticate_session rate_limit_for
program = tt

-- Two requests pass and the third is over the limit; the store is asked and touched once.
two_of_three :
    authorized_count repo crypto fresh "k1" (at_time 5 ∷ at_time 6 ∷ at_time 7 ∷ []) stocked ≡ 2
unfolding program
two_of_three = refl

first_use :
    (authenticate_api_key repo crypto fresh "k1" (at_time 5) stocked).world
    ≡ (some alices_key, 1, 1)
unfolding program
first_use = refl

abbrev used_once : Service
used_once = (authenticate_api_key repo crypto fresh "k1" (at_time 5) stocked).service

empty_key : (authenticate_api_key repo crypto fresh "" (at_time 5) stocked).outcome ≡ unauthorized
unfolding program
empty_key = refl

good_login :
    (login repo crypto "alice" "secret" stocked).0
    ≡ issued (1 ∷ 2 ∷ []) (session_principal (pos 1) "alice" "admin")
unfolding program
good_login = refl

bad_login : (login repo crypto "alice" "guess" stocked).0 ≡ login_refused
unfolding program
bad_login = refl

key_budget_example :
    authorized_count repo crypto used_once "k1" (at_time 6 ∷ at_time 7 ∷ at_time 8 ∷ []) stocked
    ≡ min 3 (2 - 1)
unfolding program
key_budget_example =
    key_budget repo crypto used_once "k1" alices_key 20 2 _ (at_time 6) (at_time 7 ∷ at_time 8 ∷ [])
      stocked refl (60000000005, some 5, refl, omega arith) (omega arith) refl refl (omega arith)
      (omega arith)

authenticate_accepts_example :
    (authenticate_api_key repo crypto fresh "k1" (at_time 5) stocked).outcome
    ≡ authorized
        (principal_of alices_key (pos 2) (answer_for repo crypto fresh (at_time 5) alices_key))
unfolding program
authenticate_accepts_example =
    (authenticate_accepts repo crypto fresh "k1" (at_time 5) stocked
        (principal_of alices_key (pos 2) (answer_for repo crypto fresh (at_time 5) alices_key))).1
      (refl, (alices_key, inr (refl, refl), (refl, refl)))
