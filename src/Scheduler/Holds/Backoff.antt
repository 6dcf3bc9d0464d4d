-- ===== src/Scheduler/Holds/Backoff.antt =====
-- The backoff of a feed whose results the database refuses.
use native.Mathlib.Nat.{pow-suc, zero-add, suc-add}
use rss_workshop.Common.{
  ap, ◌-◌, Option-cases, inl, inr, ℕ, zero, suc, ◌+◌, ◌*◌, ◌^◌, ◌≤◌, min, ◌≡◌, refl, String, str_eq,
  Bool, true, false, none, List, [], ◌∷◌, ltb, if◌then◌else◌, arith,
}
use rss_workshop.Common.Assoc.{
  lookup, lookup-insert_self, lookup-insert_ne, lookup-delete, lookup-delete_self,
}
use rss_workshop.Model.Item.{Time}
use rss_workshop.Scheduler.Slots.{Scheduler}
use rss_workshop.Scheduler.Holds.{
  minute, hold_wait, hold, is_held, retry, released, hold_or_zero, hold_of,
}

pow-pos : (n : ℕ) → 1 ≤ 2 ^ n
pow-pos zero = omega arith
pow-pos (suc n) = rw pow-suc (omega (arith, pow-pos n))

pub two-le-pow : (n : ℕ) → 1 ≤ n → 2 ≤ 2 ^ n
two-le-pow zero h = absurd (omega arith)
two-le-pow (suc n) h = rw pow-suc (omega (arith, pow-pos n))

pow_mono : (d n : ℕ) → 2 ^ n ≤ 2 ^ (d + n)
pow_mono zero n = rw zero-add (omega arith)
pow_mono (suc d) n = rw (suc-add, pow-suc) (omega (arith, pow_mono d n))

pub pow-le : (n : ℕ) → n ≤ 10 → 2 ^ n ≤ 1024
pow-le n h =
    let e : 10 - n + n ≡ 10 = omega arith in
    let p : 2 ^ (10 - n + n) ≡ 1024 = rw e in rw p at (pow_mono (10 - n) n)

-- The 24-hour cap in `hold` never takes effect.
hold_wait-eq-pow : (n : ℕ) → hold_wait n ≡ 2 ^ min n 10 * minute
unfolding hold_wait
hold_wait-eq-pow n = omega (arith, pow-le (min n 10) (omega arith))

-- What the scheduler remembers of a feed's refused results.
abbrev pub refusals : String → Scheduler → ℕ
refusals id s = (hold_or_zero (lookup id s.held)).failures

-- Results of one feed refused at the given times, with retries in between or not.
unfoldable pub refuse_all : String → List (Time × Bool) → Scheduler → Scheduler
refuse_all id [] s = s
refuse_all id ((now, retried) ∷ rest) s =
    refuse_all id rest (if retried then retry id (hold now id s).1 else (hold now id s).1)

abbrev count : List (Time × Bool) → ℕ
count [] = 0
count (x ∷ xs) = suc (count xs)

pub refusals-hold :
    (now : Time) (id : String) (s : Scheduler) → refusals id (hold now id s).1 ≡ refusals id s + 1
unfolding hold
refusals-hold now id s =
    ap (λ o. (hold_or_zero o).failures)
      (lookup-insert_self id (hold_of now (lookup id s.held)) s.held)

pub refusals-retry : (id : String) (s : Scheduler) → refusals id (retry id s) ≡ refusals id s
unfolding retry
refusals-retry id s = elim (Option-cases (lookup id s.held)) [
  | inl e ↦ rw (e, retry) refl
  | inr (h, e) ↦ ground (arith, lookup-insert_self id (record h { until = 0 }) s.held)
]

refusals-refuse_all :
    (id : String) (xs : List (Time × Bool)) (s : Scheduler)
    → refusals id (refuse_all id xs s) ≡ count xs + refusals id s
unfolding refuse_all
refusals-refuse_all id [] s = omega arith
refusals-refuse_all id ((now, false) ∷ xs) s =
    omega (arith, refusals-refuse_all id xs (hold now id s).1, refusals-hold now id s)
refusals-refuse_all id ((now, true) ∷ xs) s = omega (
  arith,
  refusals-refuse_all id xs (retry id (hold now id s).1),
  refusals-hold now id s,
  refusals-retry id (hold now id s).1,
)

-- After any number of refused results in a row, whether or not the hold was lifted early between
-- them, the next refusal waits two minutes doubled for each of them, up to 1,024 minutes.
pub hold-refuse_all :
    (id : String) (xs : List (Time × Bool)) (now : Time) (s : Scheduler)
    → lookup id s.held ≡ none
    → ((hold now id (refuse_all id xs s)).0 ≡ 2 ^ min (count xs + 1) 10 * minute)
      × ((hold now id (refuse_all id xs s)).0 ≤ 1024 * minute)
      × (2 * minute ≤ (hold now id (refuse_all id xs s)).0)
unfolding hold
hold-refuse_all id xs now s e =
    let zero_before : refusals id s ≡ 0 = rw (e, refusals) refl in
    let r : refusals id (refuse_all id xs s) ≡ count xs =
      omega (arith, refusals-refuse_all id xs s, zero_before) in
    let n = min (count xs + 1) 10 in
    let w : hold_wait (refusals id (refuse_all id xs s) + 1) ≡ 2 ^ n * minute =
      rw (r, hold_wait-eq-pow) in
    (
      w,
      rw w (omega (arith, pow-le n (omega arith))),
      rw w (omega (arith, two-le-pow n (omega arith))),
    )

pub is_held-retry :
    (later : Time) (id : String) (s : Scheduler) → is_held later id (retry id s) ≡ false
unfolding is_held retry
is_held-retry later id s = elim (Option-cases (lookup id s.held)) [
  | inl e ↦ ground arith
  | inr (h, e) ↦ ground (arith, lookup-insert_self id (record h { until = 0 }) s.held)
]

is_held-hold_other :
    (now later : Time) (id other : String) (s : Scheduler)
    → str_eq id other ≡ false
    → is_held later other (hold now id s).1 ≡ is_held later other s
unfolding is_held hold
is_held-hold_other now later id other s ne =
    ground (arith, lookup-insert_ne id other (hold_of now (lookup id s.held)) s.held ne)

is_held-retry_other :
    (later : Time) (id other : String) (s : Scheduler)
    → str_eq id other ≡ false
    → is_held later other (retry id s) ≡ is_held later other s
unfolding is_held retry
is_held-retry_other later id other s ne = elim (Option-cases (lookup id s.held)) [
  | inl e ↦ ground arith
  | inr (h, e) ↦ ground (arith, lookup-insert_ne id other (record h { until = 0 }) s.held ne)
]

is_held-released_other :
    (later : Time) (id other : String) (s : Scheduler)
    → str_eq id other ≡ false
    → is_held later other (released id s) ≡ is_held later other s
unfolding is_held released
is_held-released_other later id other s ne = ground (arith, lookup-delete id other s.held)

-- From the moment of a refusal the feed is held exactly until its wait is over, unless the hold is
-- lifted; then it is not held. Neither the refusal of one feed nor lifting its hold, in any state,
-- changes when another feed is held.
pub is_held-hold :
    (now later : Time) (id other : String) (s : Scheduler)
    → str_eq id other ≡ false
    → (is_held later id (hold now id s).1 ≡ ltb later (now + (hold now id s).0))
      × (is_held later id (retry id s) ≡ false)
      × (is_held later id (released id s) ≡ false)
      × (is_held later other (hold now id s).1 ≡ is_held later other s)
      × (is_held later other (retry id s) ≡ is_held later other s)
      × (is_held later other (released id s) ≡ is_held later other s)
unfolding is_held hold released
is_held-hold now later id other s ne = (
  ground (arith, lookup-insert_self id (hold_of now (lookup id s.held)) s.held),
  is_held-retry later id s,
  ground (arith, lookup-delete_self id s.held),
  is_held-hold_other now later id other s ne,
  is_held-retry_other later id other s ne,
  is_held-released_other later id other s ne,
)
