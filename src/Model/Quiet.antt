-- ===== src/Model/Quiet.antt =====
-- internal/model/quiet.go: when a feed counts as quiet. A duration is an int64 number of
-- nanoseconds, whose products and sums wrap around; `Time.Sub` stops at the largest duration.
pub mod Thresholds
use rss_workshop.Common.{
  ℕ, zero, suc, ◌+◌, ◌-◌, ◌*◌, ◌^◌, ◌%◌, min, Bool, true, false, not, ◌&&◌, ◌||◌, Option, none,
  some, ltb, leb, ◌==◌, if◌then◌else◌,
}
use rss_workshop.Common.Int.{ℤ, pos, negsuc, ◌+ℤ◌, ltb_ℤ}
use rss_workshop.Model.Item.{Time}
use rss_workshop.Model.Feed.{Feed}

abbrev pub second : ℕ
second = 1000000000

abbrev pub quiet_margin : ℕ
quiet_margin = 3600 * second

abbrev pub day : ℕ
day = 24 * quiet_margin

abbrev pub quiet_floor : ℕ
quiet_floor = 14 * day

abbrev pub quiet_intervals : ℕ
quiet_intervals = 10

abbrev pub max_int64 : ℕ
max_int64 = 2 ^ 63 - 1

-- The int64 of a residue modulo 2^64, and the int64 that an integer wraps to.
unfoldable pub int64_of : ℕ → ℤ
int64_of m = if leb m max_int64 then pos m else negsuc (2 ^ 64 - 1 - m)

unfoldable pub wrap64 : ℤ → ℤ
unfolding int64_of
wrap64 (pos n) = int64_of (n % 2 ^ 64)
wrap64 (negsuc n) = int64_of (2 ^ 64 - 1 - n % 2 ^ 64)

-- time.Duration(z) * unit
unfoldable pub duration : ℤ → ℕ → ℤ
unfolding wrap64
duration (pos n) unit = wrap64 (pos (n * unit))
duration (negsuc n) unit = wrap64 (negsuc (suc n * unit - 1))

abbrev pub max_ℤ : ℤ → ℤ → ℤ
max_ℤ a b = if ltb_ℤ a b then b else a

-- now.Sub(t)
unfoldable pub time_sub : Time → Time → ℤ
time_sub now t =
    if leb t now then pos (min (now - t) max_int64) else negsuc (min (t - now - 1) max_int64)

-- `ValidateQuietDays`, true for nil: 0, `QuietNever` and `QuietDayChoices`.
unfoldable pub validate_quiet_days : ℤ → Bool
validate_quiet_days (pos n) = n == 0 || n == 7 || n == 30 || n == 90 || n == 365
validate_quiet_days (negsuc n) = n == 0

unfoldable pub quiet_after : ℤ → ℤ
unfolding duration
quiet_after interval = max_ℤ (pos quiet_floor) (duration interval (quiet_intervals * second))

-- `QuietThreshold` from `QuietDays` and `Interval`, none for false.
unfoldable pub threshold_of : ℤ → ℤ → Option ℤ
unfolding quiet_after duration wrap64 ◌+ℤ◌
threshold_of (negsuc zero) interval = none
threshold_of (negsuc (suc n)) interval = some (quiet_after interval)
threshold_of (pos zero) interval = some (quiet_after interval)
threshold_of (pos (suc n)) interval =
    some
      (max_ℤ (duration (pos (suc n)) day) (wrap64 (duration interval second +ℤ pos quiet_margin)))

unfoldable pub quiet_threshold : Feed → Option ℤ
unfolding threshold_of
quiet_threshold f = threshold_of f.recipe.quiet_days f.interval

unfoldable pub quiet_since : Feed → Time
quiet_since f = if f.last_new == 0 then f.last_changed else f.last_new

-- `IsQuiet` for the threshold.
unfoldable pub past_threshold : Time → Feed → Option ℤ → Bool
unfolding quiet_since time_sub
past_threshold now f none = false
past_threshold now f (some after) =
    if not f.enabled
      || not (f.failures == 0)
      || f.last_success == 0
      || f.last_changed == 0
      || ltb f.last_success f.last_attempt
    then false
    else not (ltb_ℤ (time_sub now (quiet_since f)) after)

unfoldable pub is_quiet : Time → Feed → Bool
unfolding quiet_threshold past_threshold
is_quiet now f = past_threshold now f (quiet_threshold f)
