-- ===== src/Solver/Hold.antt =====
-- How long an interrupted request keeps its slot, and what the slots then promise.
use rss_workshop.Common.{
  ℕ, ◌+◌, ◌-◌, ◌*◌, ◌/◌, ◌≤◌, ◌<◌, ◌||◌, ◌≡◌, min, String, Bool, true, false, Option, none, some,
  ltb, if◌then◌else◌,
}
use rss_workshop.Common.Int.{ℤ, pos, negsuc}
use rss_workshop.Model.Item.{Time}
use rss_workshop.Solver.{
  grace, millisecond, max_response_body, Exchange, no_response, broken_body, response, Call, Ending,
  without_slot, with_slot, Page,
}

-- Whether the remote browser may still be at work after a request: it was reached, and it has not
-- answered in full.
abbrev pub may_run : Exchange → Bool
may_run (no_response connected e) = connected
may_run (broken_body e) = true
may_run (response status size reply) = ltb max_response_body size

abbrev pub is_some {ℓ} : {A : Type ℓ} → Option A → Bool
is_some none = false
is_some (some a) = true

-- A call that ends before it asks for a slot, or while it waits for one.
abbrev pub turned_away : (validate_url check_url : String → Option String) → String → Call → Bool
turned_away validate_url check_url url c =
    c.closed || is_some (validate_url url) || is_some (check_url url) || is_some c.wait

-- The time for the remote browser, in ms: as many as fit both into the client's timeout and into
-- what remains before the deadline less a tenth of it, or less the grace.
abbrev pub IsBudget : Time → ℤ → ℕ → Type 0
IsBudget timeout remaining ms =
    (n : ℕ) × (remaining ≡ pos n)
    × (ms * millisecond ≤ timeout)
    × (ms * millisecond + min grace (n / 10) ≤ n)
    × (min timeout (n - min grace (n / 10)) < (ms + 1) * millisecond)

-- No whole millisecond is left, or the deadline is over.
abbrev pub IsOut : Time → ℤ → Type 0
IsOut timeout (negsuc n) = Unit
IsOut timeout (pos n) = min timeout (n - min grace (n / 10)) < millisecond

-- When a slot is taken and for how long it stays so, by how the call went: `late` is a context that
-- ended while the call got its slot.
pub data IsHeld (validate_url check_url : String → Option String) (timeout : Time) (url : String)
    (c : Call) : Ending → Type 0 where
  not_taken :
      (out : Page)
      → turned_away validate_url check_url url c ≡ true
      → IsHeld validate_url check_url timeout url c (without_slot out)
  too_late :
      (out : Page)
      → turned_away validate_url check_url url c ≡ false
      → is_some c.late ≡ true
      → IsHeld validate_url check_url timeout url c (with_slot out 0)
  no_budget :
      (out : Page)
      → turned_away validate_url check_url url c ≡ false
      → is_some c.late ≡ false
      → IsOut timeout c.remaining
      → IsHeld validate_url check_url timeout url c (with_slot out 0)
  sent :
      (out : Page) (ms hold : ℕ)
      → turned_away validate_url check_url url c ≡ false
      → is_some c.late ≡ false
      → 1 ≤ ms
      → IsBudget timeout c.remaining ms
      → hold ≡ (if may_run c.exchange then ms * millisecond + grace else 0)
      → IsHeld validate_url check_url timeout url c (with_slot out hold)
