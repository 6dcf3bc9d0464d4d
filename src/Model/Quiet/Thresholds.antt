-- ===== src/Model/Quiet/Thresholds.antt =====
-- The thresholds of the feeds that the editor accepts.
use rss_workshop.Common.{ℕ, zero, suc, ◌+◌, ◌*◌, ◌≤◌, ◌≡◌, refl, subst, max, true, not, some, arith}
use rss_workshop.Common.Int.{pos, ◌+ℤ◌, ltb_ℤ}
use rss_workshop.Model.Item.{Time}
use rss_workshop.Model.Feed.{Feed}
use rss_workshop.Model.Quiet.{
  second, quiet_margin, day, quiet_floor, quiet_intervals, max_int64, wrap64, duration, max_ℤ,
  time_sub, validate_quiet_days, quiet_after, threshold_of, quiet_threshold, quiet_since,
  past_threshold, is_quiet,
}

pub wrap64-pos : (n : ℕ) → n ≤ max_int64 → wrap64 (pos n) ≡ pos n
unfolding wrap64
wrap64-pos n h = ground arith

duration-pos : (n unit : ℕ) → n * unit ≤ max_int64 → duration (pos n) unit ≡ pos (n * unit)
unfolding duration
duration-pos n unit h = wrap64-pos (n * unit) h

max_ℤ-pos : (a b : ℕ) → max_ℤ (pos a) (pos b) ≡ pos (max a b)
max_ℤ-pos a b = ground arith

+ℤ-pos : (a b : ℕ) → pos a +ℤ pos b ≡ pos (a + b)
unfolding ◌+ℤ◌
+ℤ-pos a b = ground arith

days-le : (days : ℕ) → validate_quiet_days (pos days) ≡ true → days ≤ 365
unfolding validate_quiet_days
days-le days h = ground arith

-- The thresholds as numbers.
abbrev pub threshold : ℕ → ℕ → ℕ
threshold zero n = max quiet_floor (n * (quiet_intervals * second))
threshold (suc days) n = max (suc days * day) (n * second + quiet_margin)

threshold_of-eq :
    (days n : ℕ)
    → days ≤ 365
    → n ≤ 604800
    → threshold_of (pos days) (pos n) ≡ some (pos (threshold days n))
unfolding threshold_of quiet_after
threshold_of-eq zero n d h =
    rw
      (
        duration-pos n (quiet_intervals * second) (omega arith),
        max_ℤ-pos quiet_floor (n * (quiet_intervals * second)),
      )
      refl
threshold_of-eq (suc days) n d h =
    rw
      (
        duration-pos (suc days) day (omega arith),
        duration-pos n second (omega arith),
        +ℤ-pos (n * second) quiet_margin,
        wrap64-pos (n * second + quiet_margin) (omega arith),
        max_ℤ-pos (suc days * day) (n * second + quiet_margin),
      )
      refl

threshold-bounds :
    (days n : ℕ)
    → days ≤ 365
    → n ≤ 604800
    → (n * second + quiet_margin ≤ threshold days n) × (threshold days n ≤ 365 * day)
threshold-bounds zero n d h = omega arith
threshold-bounds (suc days) n d h = omega arith

-- The feeds that the editor saves: a refresh interval from a minute to a week, and one of the
-- thresholds it offers.
pub record IsAccepted (f : Feed) (n days : ℕ) : Type 0 where
  pub interval : f.interval ≡ pos n
  pub interval_least : 60 ≤ n
  pub interval_most : n ≤ 604800
  pub quiet_days : f.recipe.quiet_days ≡ pos days
  pub valid : validate_quiet_days (pos days) ≡ true

-- No product or sum wraps around for a feed that the editor accepts: its threshold is the number
-- that the comments give, and waits for one interval and an hour at least, and a year at most.
pub quiet_threshold-eq :
    (f : Feed) (n days : ℕ)
    → IsAccepted f n days
    → (quiet_threshold f ≡ some (pos (threshold days n)))
      × (n * second + quiet_margin ≤ threshold days n)
      × (threshold days n ≤ 365 * day)
unfolding quiet_threshold
quiet_threshold-eq f n days h =
    let d = days-le days h.valid in
    let b = threshold-bounds days n d h.interval_most in
    (rw (h.quiet_days, h.interval) (threshold_of-eq days n d h.interval_most), b.0, b.1)

time_sub-le : (t since now : ℕ) → not (ltb_ℤ (time_sub now since) (pos t)) ≡ true → since + t ≤ now
unfolding time_sub
time_sub-le t since now h = ground arith

quiet_at :
    (f : Feed) (t : ℕ) (now : Time)
    → past_threshold now f (some (pos t)) ≡ true
    → (f.enabled ≡ true)
      × (f.failures ≡ 0)
      × (f.last_attempt ≤ f.last_success)
      × (not (ltb_ℤ (time_sub now (quiet_since f)) (pos t)) ≡ true)
unfolding past_threshold
quiet_at f t now q = ground arith

-- A feed with an accepted interval and number of days is quiet only if it is enabled, its latest
-- attempt succeeded, and one interval and an hour at least have passed since its latest new story,
-- or since its last change where it has had none.
pub quiet_waits :
    (f : Feed) (n days : ℕ) (now : Time)
    → IsAccepted f n days
    → is_quiet now f ≡ true
    → (f.enabled ≡ true)
      × (f.failures ≡ 0)
      × (f.last_attempt ≤ f.last_success)
      × (quiet_since f + n * second + quiet_margin ≤ now)
unfolding is_quiet
quiet_waits f n days now h q =
    let e = (quiet_threshold-eq f n days h).0 in
    let least = (quiet_threshold-eq f n days h).1 in
    let t = threshold days n in
    let at_threshold : past_threshold now f (some (pos t)) ≡ true =
      subst (λ x. past_threshold now f x ≡ true) e q in
    let (enabled, failures, latest, past) = quiet_at f t now at_threshold in
    let waited = time_sub-le t (quiet_since f) now past in
    (enabled, failures, latest, omega (arith, waited, least))
