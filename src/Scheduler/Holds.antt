-- ===== src/Scheduler/Holds.antt =====
-- internal/scheduler/scheduler.go: the feeds whose result could not be stored, and the end times
-- of refreshes. A reading of the clock is an argument.
pub mod Backoff
use rss_workshop.Common.{
  ℕ, suc, ◌+◌, ◌*◌, ◌^◌, min, String, Bool, true, false, not, Option, none, some, List, [], ◌∷◌,
  ltb, if◌then◌else◌,
}
use rss_workshop.Common.Assoc.{Assoc, lookup, insert, delete, KeySet, contains, add}
use rss_workshop.Model.Item.{Time}
use rss_workshop.Model.Feed.{Feed}
use rss_workshop.Scheduler.Slots.{Hold, Scheduler}

abbrev pub minute : ℕ
minute = 60000000000

abbrev pub hour : ℕ
hour = 60 * minute

-- `s.held[id]`, which is zero for a feed that is not held.
abbrev pub hold_or_zero : Option Hold → Hold
hold_or_zero none = record { until = 0; failures = 0 }
hold_or_zero (some h) = h

-- The delay after a number of failures.
unfoldable pub hold_wait : ℕ → ℕ
hold_wait failures = min (2 ^ min failures 10 * minute) (24 * hour)

-- The hold that a failure at the time `now` leaves.
abbrev pub hold_of : Time → Option Hold → Hold
hold_of now previous =
    let failures = (hold_or_zero previous).failures + 1 in
    record { until = now + hold_wait failures; failures = failures }

-- `hold`: the wait, and the scheduler that remembers it.
unfoldable pub hold : Time → String → Scheduler → ℕ × Scheduler
unfolding hold_wait
hold now id s =
    let h = hold_of now (lookup id s.held) in
    (hold_wait h.failures, record s { held = insert id h s.held })

-- `Held`
unfoldable pub is_held : Time → String → Scheduler → Bool
is_held now id s = elim (lookup id s.held) [ none ↦ false | some h ↦ ltb now h.until ]

-- `Retry`
unfoldable pub retry : String → Scheduler → Scheduler
retry id s = elim (lookup id s.held) [
  | none ↦ s
  | some h ↦ record s { held = insert id (record h { until = 0 }) s.held }
]

unfoldable pub released : String → Scheduler → Scheduler
released id s = record s { held = delete id s.held }

-- `live` of the three `forget` methods.
unfoldable pub live_ids : List Feed → KeySet
live_ids [] = []
live_ids (f ∷ fs) = add f.id (live_ids fs)

-- The loop that deletes the keys that are not live.
unfoldable pub keep {ℓ} : {V : Type ℓ} → KeySet → Assoc V → Assoc V
keep live [] = []
keep live ((k, v) ∷ m) = let rest = keep live m in if contains k live then (k, v) ∷ rest else rest

unfoldable pub forget_holds : List Feed → Scheduler → Scheduler
unfolding keep live_ids
forget_holds fs s = record s { held = keep (live_ids fs) s.held }

-- Drops the end times before `listed`.
unfoldable pub drop_before : Time → Assoc Time → Assoc Time
drop_before listed [] = []
drop_before listed ((k, done) ∷ m) =
    let rest = drop_before listed m in if ltb done listed then rest else (k, done) ∷ rest

unfoldable pub forget_finished : Time → Scheduler → Scheduler
unfolding drop_before
forget_finished listed s = record s { finished = drop_before listed s.finished }
