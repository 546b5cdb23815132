-- ===== src/Store/Backoff.antt =====
-- internal/store/postprocess.go, PPBackoff: the wait before a release is post-processed again.
mod Formula
mod Tests
use nzb_indexer.Base.{
  ℕ, ◌-◌, ◌*◌, ◌^◌, ltb, if◌then◌else◌, ℤ, pos, pos_part, ltbℤ, lebℤ, int64, ◌||◌,
}

-- Five minutes and six hours, in nanoseconds.
abbrev pub pp_base_backoff : ℕ
pp_base_backoff = 300000000000

abbrev pub pp_max_backoff : ℕ
pp_max_backoff = 21600000000000

abbrev shift_of : ℤ → ℕ
shift_of attempts =
    let shift = (if ltbℤ attempts (pos 1) then 1 else pos_part attempts) - 1 in
    if ltb 20 shift then 20 else shift

unfoldable pub pp_backoff : ℤ → ℤ
pp_backoff attempts =
    let d = int64 (pp_base_backoff * 2 ^ shift_of attempts) in
    if lebℤ d (pos 0) || ltbℤ (pos pp_max_backoff) d then pos pp_max_backoff else d
