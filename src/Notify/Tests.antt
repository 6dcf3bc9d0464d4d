-- ===== src/Notify/Tests.antt =====
-- Runs of the notifier on three events.
use rss_workshop.Common.{
  ℕ, ◌+◌, ◌≤◌, ◌≡◌, true, false, ◌&&◌, ltb, List, [], ◌∷◌, ◌++◌, if◌then◌else◌, length, take, arith,
}
use rss_workshop.Model.Text.{Text}
use rss_workshop.Scheduler.Alerts.{Kind, failing, recovered, db_unavailable, Event}
use rss_workshop.Notify.Batch.{
  queue_size, max_global, is_global, Notifier, notify, no_events, add_all,
}
use rss_workshop.Notify.Batch.Bounds.{
  global_count, some_alerting, Collected, add_all-Collected, notify-conserves,
}
use rss_workshop.Notify.Compose.{ntfy, max_lines, max_ntfy_body, of_class, compose}
use rss_workshop.Notify.Compose.Fits.{compose-counts, compose-fits}
use rss_workshop.Notify.Deliver.{live, answered, Try, Counters, deliver}
use rss_workshop.Notify.Deliver.Attempts.{is_none, Tried, deliver-Tried}

abbrev event : Kind → Event
event k = record { kind = k; feed = "News"; feed_id = "1"; failures = 3; error = "" }

abbrev events : List Event
events = event failing ∷ event db_unavailable ∷ event recovered ∷ []

abbrev idle : Notifier
idle = record { queue = []; urgent = []; dropped = 0; unlogged = 0; alert_dropped = false }

abbrev say : Event → Text
say e = b'e' ∷ b'v' ∷ []

abbrev link : Text
link = b'h' ∷ b'/' ∷ []

add_all-Collected_example :
    Collected
      (length events)
      (global_count events)
      (some_alerting events)
      (add_all events no_events)
add_all-Collected_example = add_all-Collected events

notify-conserves_example :
    let n = notify (λ e. e) (event db_unavailable) idle in
    (length n.queue + length n.urgent + n.dropped ≡ 1)
    × (n.urgent
        ≡ (if is_global db_unavailable && ltb 0 max_global then event db_unavailable ∷ [] else []))
    × (length n.queue ≤ queue_size)
    × (length n.urgent ≤ max_global)
notify-conserves_example =
    notify-conserves (λ e. e) (event db_unavailable) idle (omega arith) (omega arith)

compose-counts_example :
    let m = compose say ntfy link events 2 in
    (length m.events + m.more ≡ 5)
    × (length m.events ≤ max_lines)
    × (m.events ≡ take (length m.events) (of_class true events ++ of_class false events))
compose-counts_example = compose-counts say ntfy link events 2

compose-fits_example : length (compose say ntfy link events 2).text ≤ max_ntfy_body
compose-fits_example = compose-fits say link events 2 (omega arith)

-- A service that is overloaded at first and then takes the message.
abbrev tries : ℕ → Try
tries k = record {
  response = answered (if ltb k 2 then 503 else 200);
  then_context = live;
  wait_context = live;
}

abbrev no_messages : Counters
no_messages = record { sent = 0; failed = 0 }

deliver-Tried_example :
    let out = deliver tries 3 no_messages in
    Tried tries 1 2 out.0.1 out.0.0
    × (out.0.1 ≤ 3)
    × (out.1.sent + out.1.failed ≡ 1)
    × (out.1.sent ≡ (if is_none out.0.0 then 1 else 0))
deliver-Tried_example = deliver-Tried tries 3 no_messages
