-- ===== src/Scheduler/Alerts.antt =====
-- internal/scheduler/alerts.go: which health events reach the notifier. Every function takes the
-- events that it sends to the end of a list, in place of the call of `Notify`.
pub mod Streaks
use rss_workshop.Common.{
  ℕ, ◌+◌, ◌-◌, max, String, Bool, true, false, not, ◌&&◌, ◌||◌, Option, none, some, List, [], ◌∷◌,
  ltb, leb, ◌==◌, if◌then◌else◌,
}
use rss_workshop.Common.Assoc.{KeySet, contains, add, remove}
use rss_workshop.Model.Item.{Time}
use rss_workshop.Model.Feed.{Feed}
use rss_workshop.Scheduler.Holds.{hour, live_ids}

-- notify.Kind
pub data Kind : Type 0 where
  failing recovered not_saved db_unavailable db_available test : Kind

-- notify.Event
pub record Event : Type 0 where
  pub kind : Kind
  pub feed : String
  pub feed_id : String
  pub failures : ℕ
  pub error : String

-- `reported` is a map to bool that only holds true; a time 0 is no time.
pub record Alerts : Type 0 where
  pub reported : KeySet
  pub not_saved_at : Time
  pub unavailable_at : Time
  pub announced : Bool

abbrev pub no_alerts : Alerts
no_alerts = record { reported = []; not_saved_at = 0; unavailable_at = 0; announced = false }

abbrev pub alert_interval : ℕ
alert_interval = hour

-- `now.Sub(*last)` of a clock that went back is negative, so the event is not due.
unfoldable pub due : Time → Time → Bool
due now last = last == 0 || leb (last + alert_interval) now

unfoldable pub keep_reported : KeySet → KeySet → KeySet
keep_reported live [] = []
keep_reported live (id ∷ ids) =
    let rest = keep_reported live ids in if contains id live then id ∷ rest else rest

-- `forget`
unfoldable pub forget : List Feed → Alerts → Alerts
unfolding live_ids keep_reported
forget fs a = record a { reported = keep_reported (live_ids fs) a.reported }

-- Every alert returns at once when no notifier is set.
abbrev pub when_set : Bool → Alerts → Alerts × Option Event → Alerts × Option Event
when_set true a out = out
when_set false a out = (a, none)

abbrev pub server_event : Kind → String → Event
server_event k e = record { kind = k; feed = ""; feed_id = ""; failures = 0; error = e }

-- diagnostics.SafeText(text, limit), of another package.
module _ (safe_text : String → ℕ → String) where
  -- The switch of `alertRefresh` for a feed and its error, if the refresh failed.
  unfoldable pub refresh_event : ℕ → Feed → Option String → Alerts → Alerts × Option Event
  refresh_event threshold f (some e) a =
      if f.failures + 1 == threshold
      then (
        record a { reported = add f.id a.reported },
        some (record {
          kind = failing;
          feed = f.title;
          feed_id = f.id;
          failures = f.failures + 1;
          error = safe_text e 1000;
        }),
      )
      else (a, none)
  refresh_event threshold f none a =
      if leb threshold f.failures || contains f.id a.reported
      then (
        record a { reported = remove f.id a.reported },
        some (record {
          kind = recovered;
          feed = f.title;
          feed_id = f.id;
          failures = f.failures;
          error = "";
        }),
      )
      else (a, none)

  unfoldable pub alert_refresh : Bool → ℕ → Feed → Option String → Alerts → Alerts × Option Event
  unfolding refresh_event
  alert_refresh set notify_after f e a = when_set set a (refresh_event (max notify_after 1) f e a)

-- `alertNotSaved`
unfoldable pub alert_not_saved : Bool → Time → Feed → String → Alerts → Alerts × Option Event
unfolding due
alert_not_saved set now f e a = when_set set a (
    if due now a.not_saved_at
    then (
      record a { not_saved_at = now },
      some (record { kind = not_saved; feed = f.title; feed_id = f.id; failures = 0; error = e }),
    )
    else (a, none))

-- `alertListed` for the error of the tick's read, if it failed.
unfoldable pub alert_listed : Bool → Time → Option String → Alerts → Alerts × Option Event
unfolding due
alert_listed set now (some e) a = when_set set a (
    if due now a.unavailable_at
    then (record a { unavailable_at = now; announced = true }, some (server_event db_unavailable e))
    else (a, none))
alert_listed set now none a = when_set set a (
    if a.announced
    then (record a { announced = false }, some (server_event db_available ""))
    else (a, none))
