-- ===== src/Scheduler/Alerts/Streaks.antt =====
-- The events of one feed over a history of refreshes and edits, and the spacing of server alerts.
use rss_workshop.Common.{
  ℕ, ◌+◌, ◌≤◌, max, ◌≡◌, refl, ◌⊎◌, String, Bool, true, false, Option, none, some, List, [], ◌∷◌,
  ◌==◌, ◌||◌, leb, if◌then◌else◌, arith,
}
use text.Mathlib.TextPositions.{eq_refl}
use rss_workshop.Common.Assoc.{contains, contains-add, contains-remove}
use rss_workshop.Model.Item.{Time}
use rss_workshop.Model.Feed.{Feed}
use rss_workshop.Scheduler.Holds.{hour}
use rss_workshop.Scheduler.Alerts.{
  Kind, failing, recovered, db_unavailable, db_available, Event, Alerts, no_alerts, due,
  alert_refresh, alert_listed,
}

-- What happens to a feed: a refresh is stored as a failure or a success, or an editor save resets
-- its failure count.
pub data Happening : Type 0 where
  failed : String → Happening
  succeeded edited : Happening

-- The kinds of the events sent, the latest first.
abbrev pub Sent : Type 0
Sent = List Kind

abbrev pub note : Option Event → Sent → Sent
note none sent = sent
note (some e) sent = e.kind ∷ sent

abbrev pub last_failing : Sent → Bool
last_failing (failing ∷ _) = true
last_failing _ = false

pub record History : Type 0 where
  pub failures : ℕ
  pub alerts : Alerts
  pub sent : Sent

module _ (safe_text : String → ℕ → String) (notify_after : ℕ) (f : Feed) where
  -- The store saves one failure more for a failed refresh, and 0 for a success or an edit.
  unfoldable pub happen : Happening → History → History
  unfolding alert_refresh
  happen (failed e) h =
      let (a, event) =
        alert_refresh safe_text true notify_after (record f { failures = h.failures }) (some e)
          h.alerts in
      record { failures = h.failures + 1; alerts = a; sent = note event h.sent }
  happen succeeded h =
      let (a, event) =
        alert_refresh safe_text true notify_after (record f { failures = h.failures }) none
          h.alerts in
      record { failures = 0; alerts = a; sent = note event h.sent }
  happen edited h = record h { failures = 0 }

  -- From the start of the process, with a feed that is not failing.
  unfoldable pub history : List Happening → History
  unfolding happen
  history [] = record { failures = 0; alerts = no_alerts; sent = [] }
  history (x ∷ xs) = happen x (history xs)

  record Agrees (h : History) : Type 0 where
    reported : contains f.id h.alerts.reported ≡ last_failing h.sent
    at_threshold : max notify_after 1 ≤ h.failures → last_failing h.sent ≡ true

  happen-Agrees : (x : Happening) (h : History) → Agrees h → Agrees (happen x h)
  unfolding happen
  happen-Agrees (failed e) h g =
      ground (arith, contains-add f.id f.id h.alerts.reported, eq_refl f.id)
  happen-Agrees succeeded h g =
      ground (arith, contains-remove f.id f.id h.alerts.reported, eq_refl f.id)
  happen-Agrees edited h g = ground arith

  history-Agrees : (xs : List Happening) → Agrees (history xs)
  unfolding history contains
  history-Agrees [] = ground arith
  history-Agrees (x ∷ xs) = happen-Agrees x (history xs) (history-Agrees xs)

  -- After any history a failed refresh sends `failing` exactly when it is the one that reaches the
  -- threshold of failures in a row; a success sends `recovered` exactly when the last event sent
  -- was `failing`, also where an edit has reset the count since; and an edit sends nothing.
  pub sent-history :
      (xs : List Happening) (e : String)
      → ((happen (failed e) (history xs)).sent ≡ (
          if (history xs).failures + 1 == max notify_after 1
          then failing ∷ (history xs).sent
          else (history xs).sent))
        × ((happen succeeded (history xs)).sent ≡ (
            if last_failing (history xs).sent
            then recovered ∷ (history xs).sent
            else (history xs).sent))
        × ((happen edited (history xs)).sent ≡ (history xs).sent)
  unfolding happen
  sent-history xs e = let g = history-Agrees xs in ground arith

-- The alerts after some ticks, and the server alerts sent with their times, the latest first.
pub record Reports : Type 0 where
  pub alerts : Alerts
  pub sent : List (Time × Kind)

abbrev record_event : Time → Option Event → List (Time × Kind) → List (Time × Kind)
record_event now none sent = sent
record_event now (some e) sent = (now, e.kind) ∷ sent

-- A tick that found the library readable, or not, with its error.
unfoldable pub read_library : Time → Option String → Reports → Reports
unfolding alert_listed
read_library now e r =
    let (a, event) = alert_listed true now e r.alerts in
    record { alerts = a; sent = record_event now event r.sent }

-- The ticks of a process, the latest first.
unfoldable pub listed : List (Time × Option String) → Reports
unfolding read_library
listed [] = record { alerts = no_alerts; sent = [] }
listed ((now, e) ∷ ticks) = read_library now e (listed ticks)

-- Whether the last alert sent was an outage, and when the last outage was sent, 0 for never.
abbrev pub goes_on : List (Time × Kind) → Bool
goes_on ((_, db_unavailable) ∷ _) = true
goes_on _ = false

abbrev pub last_outage : List (Time × Kind) → Time
last_outage [] = 0
last_outage ((now, db_unavailable) ∷ _) = now
last_outage (_ ∷ sent) = last_outage sent

-- Every outage sent is the first or an hour after the one before it, and every return follows an
-- outage directly.
abbrev pub WellSpaced : List (Time × Kind) → Type 0
WellSpaced [] = Unit
WellSpaced ((now, db_unavailable) ∷ sent) =
    ((last_outage sent ≡ 0) ⊎ (last_outage sent + hour ≤ now)) × WellSpaced sent
WellSpaced ((now, db_available) ∷ sent) = (goes_on sent ≡ true) × WellSpaced sent
WellSpaced ((now, _) ∷ sent) = ⊥

record Recorded (r : Reports) : Type 0 where
  announced : r.alerts.announced ≡ goes_on r.sent
  unavailable_at : r.alerts.unavailable_at ≡ last_outage r.sent
  spaced : WellSpaced r.sent

read_library-Recorded :
    (now : Time) (e : Option String) (r : Reports) → Recorded r → Recorded (read_library now e r)
unfolding read_library alert_listed due
read_library-Recorded now none r g = ground arith
read_library-Recorded now (some e) r g = ground arith

listed-Recorded : (ticks : List (Time × Option String)) → Recorded (listed ticks)
unfolding listed
listed-Recorded [] = record { announced = refl; unavailable_at = refl; spaced = tt }
listed-Recorded ((now, e) ∷ ticks) =
    read_library-Recorded now e (listed ticks) (listed-Recorded ticks)

-- With a notifier, after any ticks of a process, an unreadable library is reported exactly when no
-- outage has been, or the last one an hour ago at least, and a readable one exactly when the last
-- alert sent was an outage. So outages are reported an hour apart at least, and each return follows an outage.
pub sent-listed :
    (ticks : List (Time × Option String)) (now : Time) (e : String)
    → let sent = (listed ticks).sent in
      ((read_library now (some e) (listed ticks)).sent ≡ (
        if last_outage sent == 0 || leb (last_outage sent + hour) now
        then (now, db_unavailable) ∷ sent
        else sent))
      × ((read_library now none (listed ticks)).sent
          ≡ (if goes_on sent then (now, db_available) ∷ sent else sent))
      × WellSpaced sent
unfolding read_library alert_listed due
sent-listed ticks now e = let g = listed-Recorded ticks in ground arith
