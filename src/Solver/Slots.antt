-- ===== src/Solver/Slots.antt =====
-- internal/flaresolverr/client.go: the slots of a client, `Stats` and `Cooling`, over all orders of
-- requests that start and end, holds that run out, and Close.
use rss_workshop.Common.{
  ℕ, ◌+◌, ◌-◌, ◌≤◌, ◌<◌, ◌≡◌, refl, Bool, true, false, not, ◌&&◌, ltb, if◌then◌else◌, arith, inl,
  inr, Bool-cases,
}
use rss_workshop.Scheduler.Slots.{SolverStats}

-- `slots` is the length of the channel, and `requests` counts the calls of Fetch with a slot.
-- `leaving` counts the goroutines of holds that have taken theirs off `cooling` and not yet freed the slot.
pub record Client : Type 0 where
  pub capacity : ℕ
  pub slots : ℕ
  pub cooling : ℕ
  pub requests : ℕ
  pub leaving : ℕ
  pub closed : Bool

abbrev pub new_client : ℕ → Client
new_client capacity = record {
  capacity = capacity;
  slots = 0;
  cooling = 0;
  requests = 0;
  leaving = 0;
  closed = false;
}

-- A send to `slots`, of a call that waits until there is room.
unfoldable pub take_slot : Client → Client
take_slot c = record c { slots = c.slots + 1; requests = c.requests + 1 }

-- The deferred function: a hold keeps the slot while it cools.
unfoldable pub end_request : (hold : ℕ) → Client → Client
end_request hold c =
    if ltb 0 hold && not c.closed
    then record c { cooling = c.cooling + 1; requests = c.requests - 1 }
    else record c { slots = c.slots - 1; requests = c.requests - 1 }

-- The goroutine of a hold, when its timer fires or the client is closed: two steps, between which
-- other goroutines run.
unfoldable pub end_hold : Client → Client
end_hold c = record c { cooling = c.cooling - 1; leaving = c.leaving + 1 }

unfoldable pub free_slot : Client → Client
free_slot c = record c { slots = c.slots - 1; leaving = c.leaving - 1 }

unfoldable pub close : Client → Client
close c = record c { closed = true }

-- `Stats` and `Cooling`
abbrev pub stats : Client → SolverStats
stats c = record { active = c.slots; capacity = c.capacity; cooling = c.cooling }

pub data Step : Client → Client → Type 0 where
  taken : {c : Client} → c.slots < c.capacity → Step c (take_slot c)
  ended : {c : Client} (hold : ℕ) → 1 ≤ c.requests → Step c (end_request hold c)
  hold_over : {c : Client} → 1 ≤ c.cooling → Step c (end_hold c)
  freed : {c : Client} → 1 ≤ c.leaving → Step c (free_slot c)
  stopped : {c : Client} → Step c (close c)

pub data Reach (capacity : ℕ) : Client → Type 0 where
  new : Reach capacity (new_client capacity)
  step : {c d : Client} → Reach capacity c → Step c d → Reach capacity d

-- What a reader of `Stats` and `Cooling` may rely on.
abbrev pub IsCounted : ℕ → Client → Type 0
IsCounted capacity c =
    (c.capacity ≡ capacity)
    × (c.slots ≡ c.requests + c.cooling + c.leaving)
    × (c.slots ≤ capacity)
    × (c.requests ≤ (stats c).active - (stats c).cooling)

Step-IsCounted :
    {capacity : ℕ} {c d : Client} → Step c d → IsCounted capacity c → IsCounted capacity d
unfolding take_slot end_request end_hold free_slot close
Step-IsCounted (taken h) (p, q, r, _) = (p, omega arith, omega arith, omega arith)
Step-IsCounted (ended {c} hold h) (p, q, r, _) = elim (Bool-cases (ltb 0 hold && not c.closed)) [
  | inl e ↦ rw e (p, omega arith, r, omega arith)
  | inr e ↦ rw e (p, omega arith, omega arith, omega arith)
]
Step-IsCounted (hold_over h) (p, q, r, _) = (p, omega arith, omega arith, omega arith)
Step-IsCounted (freed h) (p, q, r, _) = (p, omega arith, omega arith, omega arith)
Step-IsCounted stopped h = h

-- In every run the taken slots are those of running requests, those that cool, and those whose hold
-- is over and that are about to be freed; they are never more than there are. So the taken slots
-- less the cooling ones, in one state, are at least the running requests.
pub Reach-IsCounted : {capacity : ℕ} {c : Client} → Reach capacity c → IsCounted capacity c
Reach-IsCounted new = (refl, omega arith, omega arith, omega arith)
Reach-IsCounted (step before last) = Step-IsCounted last (Reach-IsCounted before)
