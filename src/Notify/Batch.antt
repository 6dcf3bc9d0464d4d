-- ===== src/Notify/Batch.antt =====
-- internal/notify/notify.go: the queues of `Notify`, and the events that the worker collects for
-- one message. Which queue the worker reads next is arbitrary, so a batch is filled from a list of
-- events in any order.
pub mod Bounds
use rss_workshop.Common.{
  ℕ, suc, ◌+◌, ◌-◌, ◌≤◌, Bool, true, false, not, ◌&&◌, ◌||◌, List, [], ◌∷◌, ◌++◌, ltb,
  if◌then◌else◌, length,
}
use rss_workshop.Scheduler.Alerts.{
  Kind, failing, recovered, not_saved, db_unavailable, db_available, test, Event,
}

abbrev pub queue_size : ℕ
queue_size = 256

abbrev pub max_batch : ℕ
max_batch = queue_size

abbrev pub max_global : ℕ
max_global = 8

-- `global`
unfoldable pub is_global : Kind → Bool
is_global failing = false
is_global recovered = false
is_global _ = true

unfoldable pub alerting : Kind → Bool
alerting failing = true
alerting not_saved = true
alerting db_unavailable = true
alerting _ = false

-- The fields of `Notifier` that change here; the channels are lists.
pub record Notifier : Type 0 where
  pub queue : List Event
  pub urgent : List Event
  pub dropped : ℕ
  pub unlogged : ℕ
  pub alert_dropped : Bool

-- `Notify`; `tidy` bounds the event's texts and puts each on one line.
unfoldable pub notify : (Event → Event) → Event → Notifier → Notifier
unfolding is_global alerting
notify tidy e n =
    let drop : Notifier = record n {
      dropped = n.dropped + 1;
      unlogged = n.unlogged + 1;
      alert_dropped = n.alert_dropped || alerting e.kind;
    } in
    if is_global e.kind
    then (if ltb (length n.urgent) max_global
        then record n { urgent = n.urgent ++ (tidy e ∷ []) }
        else drop)
    else (if ltb (length n.queue) queue_size
        then record n { queue = n.queue ++ (tidy e ∷ []) }
        else drop)

pub record Batch : Type 0 where
  pub events : List Event
  pub globals : ℕ
  pub extra : ℕ
  pub alert : Bool

abbrev pub no_events : Batch
no_events = record { events = []; globals = 0; extra = 0; alert = false }

-- `add`
unfoldable pub add : Event → Batch → Batch
unfolding is_global alerting
add e b =
    let noted : Batch = record b { alert = b.alert || alerting e.kind } in
    if is_global e.kind && ltb b.globals max_global
    then record noted { globals = b.globals + 1; events = b.events ++ (e ∷ []) }
    else if not (is_global e.kind) && ltb (length b.events - b.globals) max_batch
    then record noted { events = b.events ++ (e ∷ []) }
    else record noted { extra = b.extra + 1 }

unfoldable pub add_all : List Event → Batch → Batch
unfolding add
add_all [] b = b
add_all (e ∷ es) b = add_all es (add e b)

-- The start of `send`: the dropped events count as extra, and one that needed attention alerts.
unfoldable pub take_dropped : Notifier → Batch → Batch × Notifier
take_dropped n b = (
  record b { extra = b.extra + n.unlogged; alert = n.alert_dropped || b.alert },
  record n { unlogged = 0; alert_dropped = false },
)
