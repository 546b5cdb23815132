-- ===== src/Config/Accepted.antt =====
-- What an accepted configuration of internal/config/config.go promises to the parts that it sets up.
use mathlib.Core.Path.{subst}
use nzb_indexer.Base.{
  ℕ, ◌<◌, sym, Option, true, false, Bool, negsuc, ◌≡◌, refl, List, [], ◌∷◌, ◌++◌, arith, ℤ, pos,
  pos_part, lebℤ, ltbℤ, ◌&&◌,
}
use nzb_indexer.Auth.RateLimit.{RateLimiter, new_rate_limiter}
use nzb_indexer.Auth.Service.{User, new_service, rate_limit_for}
use nzb_indexer.Nntp.Semaphore.{new_resizable_sem}
use nzb_indexer.Worker.Schedule.{Options, new_options}
use nzb_indexer.Config.{
  Config, Problem, reserved_conns_range, max_conns_range, nntp_host_required, nntp_port_range,
  nntp_max_conns_range, batch_size_range, concurrency_negative, interval_range,
  retention_days_negative, retention_days_required, rate_limit_range, rate_window_range, problem_if,
  is_empty, bad_port, server_problems, database_problems, nntp_problems, scan_problems,
  retention_problems, open_search_problems, auth_problems, validate,
}

left_empty : (xs ys : List Problem) → xs ++ ys ≡ [] → xs ≡ []
left_empty [] ys h = refl
left_empty (x ∷ xs) ys h = absurd (ground arith)

right_empty : (xs ys : List Problem) → xs ++ ys ≡ [] → ys ≡ []
right_empty [] ys h = h
right_empty (x ∷ xs) ys h = absurd (ground arith)

-- The test before a list of checks that complains of nothing.
first_false : (b : Bool) (p : Problem) (ys : List Problem) → problem_if b p ++ ys ≡ [] → b ≡ false
first_false true p ys h = absurd (ground arith)
first_false false p ys h = refl

rest_empty : (b : Bool) (p : Problem) (ys : List Problem) → problem_if b p ++ ys ≡ [] → ys ≡ []
rest_empty true p ys h = absurd (ground arith)
rest_empty false p ys h = h

alone_false : (b : Bool) (p : Problem) → problem_if b p ≡ [] → b ≡ false
alone_false true p h = absurd (ground arith)
alone_false false p h = refl

-- What the parts of the indexer make of the configured numbers.
pub record IsUsable (c : Config) : Type 0 where
  pub database :
      (n : ℕ) × (c.database_max_conns ≡ pos n)
      × (0 < n)
      × (ltbℤ (c.database_reserved_conns) (pos n) ≡ true)
  pub connections : pos (new_resizable_sem (c.nntp_max_conns)).limit ≡ c.nntp_max_conns
  pub batch : ltbℤ (pos 0) (c.scan_batch_size) ≡ true
  pub interval :
      (opts : Options)
      → (new_options (record opts { scan_interval = c.scan_interval })).scan_interval
        ≡ c.scan_interval
  pub retention : c.retention_enabled ≡ true → ltbℤ (pos 0) (c.retention_days) ≡ true
  pub rate_limit :
      (limiter : Option RateLimiter) (u : User)
      → ltbℤ (pos 0) (rate_limit_for (new_service limiter (c.default_rate_limit)) u) ≡ true
  pub window : pos (new_rate_limiter (c.rate_limit_window)).window ≡ c.rate_limit_window

pos-pos_part : (n : ℤ) → lebℤ n (pos 0) ≡ false → pos (pos_part n) ≡ n
pos-pos_part (pos n) h = refl
pos-pos_part (negsuc n) h = absurd (ground arith)

ltbℤ_of_lebℤ : (a b : ℤ) → lebℤ a b ≡ false → ltbℤ b a ≡ true
ltbℤ_of_lebℤ a b h = ground arith

database_left :
    (c : Config)
    → database_problems c ≡ []
    → (n : ℕ) × (c.database_max_conns ≡ pos n)
      × (0 < n)
      × (ltbℤ (c.database_reserved_conns) (pos n) ≡ true)
unfolding database_problems
database_left c h =
    let tests = right_empty _ _ h in
    let reserved =
      first_false (lebℤ (c.database_max_conns) (c.database_reserved_conns)) reserved_conns_range _
        tests in
    let positive = alone_false (lebℤ (c.database_max_conns) (pos 0)) max_conns_range (
      rest_empty (lebℤ (c.database_max_conns) (c.database_reserved_conns)) reserved_conns_range _
        tests) in
    let same = pos-pos_part (c.database_max_conns) positive in
    (
      pos_part (c.database_max_conns),
      sym same,
      ground arith,
      ltbℤ_of_lebℤ (pos (pos_part (c.database_max_conns))) (c.database_reserved_conns)
          (subst (λ m. lebℤ m (c.database_reserved_conns) ≡ false) (sym same) reserved),
    )

nntp_conns : (c : Config) → nntp_problems c ≡ [] → lebℤ (c.nntp_max_conns) (pos 0) ≡ false
unfolding nntp_problems
nntp_conns c h = alone_false (lebℤ (c.nntp_max_conns) (pos 0)) nntp_max_conns_range (
    rest_empty (bad_port (c.nntp_port)) nntp_port_range _
      (rest_empty (is_empty (c.nntp_host)) nntp_host_required _ h))

scan_sizes :
    (c : Config)
    → scan_problems c ≡ []
    → (lebℤ (c.scan_batch_size) (pos 0) ≡ false) × (lebℤ (c.scan_interval) (pos 0) ≡ false)
unfolding scan_problems
scan_sizes c h =
    let batch = first_false (lebℤ (c.scan_batch_size) (pos 0)) batch_size_range _ h in
    let after = rest_empty (lebℤ (c.scan_batch_size) (pos 0)) batch_size_range _ h in
    (
      batch,
      first_false (lebℤ (c.scan_interval) (pos 0)) interval_range _
          (rest_empty (ltbℤ (c.scan_concurrency) (pos 0)) concurrency_negative _ after),
    )

retention_keeps :
    (c : Config)
    → retention_problems c ≡ []
    → c.retention_enabled ≡ true
    → ltbℤ (pos 0) (c.retention_days) ≡ true
unfolding retention_problems
retention_keeps c h on =
    let tested =
      first_false (c.retention_enabled && lebℤ (c.retention_days) (pos 0)) retention_days_required _
        (rest_empty (ltbℤ (c.retention_days) (pos 0)) retention_days_negative _ h) in
    ltbℤ_of_lebℤ (c.retention_days) (pos 0) (rw on at tested)

auth_limits :
    (c : Config)
    → auth_problems c ≡ []
    → (lebℤ (c.default_rate_limit) (pos 0) ≡ false) × (lebℤ (c.rate_limit_window) (pos 0) ≡ false)
unfolding auth_problems
auth_limits c h =
    let limit = first_false (lebℤ (c.default_rate_limit) (pos 0)) rate_limit_range _ h in
    (
      limit,
      alone_false (lebℤ (c.rate_limit_window) (pos 0)) rate_window_range
          (rest_empty (lebℤ (c.default_rate_limit) (pos 0)) rate_limit_range _ h),
    )

connections_kept : (n : ℤ) → lebℤ n (pos 0) ≡ false → pos (new_resizable_sem n).limit ≡ n
unfolding new_resizable_sem
connections_kept n h = rw h (pos-pos_part n h)

window_kept : (n : ℤ) → lebℤ n (pos 0) ≡ false → pos (new_rate_limiter n).window ≡ n
unfolding new_rate_limiter
window_kept n h = rw h (pos-pos_part n h)

interval_kept :
    (n : ℤ) (opts : Options)
    → lebℤ n (pos 0) ≡ false
    → (new_options (record opts { scan_interval = n })).scan_interval ≡ n
unfolding new_options
interval_kept n opts h = ground arith

all_limited :
    (n : ℤ) (limiter : Option RateLimiter) (u : User)
    → lebℤ n (pos 0) ≡ false
    → ltbℤ (pos 0) (rate_limit_for (new_service limiter n) u) ≡ true
unfolding rate_limit_for new_service
all_limited n limiter u h = ground arith

-- An accepted configuration has at least one database connection, and more than are reserved; a positive
-- batch; and at least a day of retention if that is on. What the other parts make of it is what is
-- configured and not a replacement: the semaphore of the news server's connections has the configured
-- limit, the worker keeps the scan interval, the limiter has the configured window, and every user has a
-- positive rate limit, by their own or by the default.
pub validate-IsUsable : (c : Config) → validate c ≡ [] → IsUsable c
unfolding validate
validate-IsUsable c h =
    let after_server = right_empty (server_problems c) _ h in
    let database = left_empty (database_problems c) _ after_server in
    let after_database = right_empty (database_problems c) _ after_server in
    let nntp = left_empty (nntp_problems c) _ after_database in
    let after_nntp = right_empty (nntp_problems c) _ after_database in
    let scan = left_empty (scan_problems c) _ after_nntp in
    let after_scan = right_empty (scan_problems c) _ after_nntp in
    let retention = left_empty (retention_problems c) _ after_scan in
    let after_retention = right_empty (retention_problems c) _ after_scan in
    let auth = right_empty (open_search_problems c) _ after_retention in
    let sizes = scan_sizes c scan in
    let limits = auth_limits c auth in
    record {
      database = database_left c database;
      connections = connections_kept (c.nntp_max_conns) (nntp_conns c nntp);
      batch = ltbℤ_of_lebℤ (c.scan_batch_size) (pos 0) (sizes.0);
      interval = λ opts. interval_kept (c.scan_interval) opts (sizes.1);
      retention = retention_keeps c retention;
      rate_limit = λ limiter u. all_limited (c.default_rate_limit) limiter u (limits.0);
      window = window_kept (c.rate_limit_window) (limits.1);
    }
