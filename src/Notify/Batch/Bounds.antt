-- ===== src/Notify/Batch/Bounds.antt =====
-- A batch is bounded, and counts every event that it is given.
use rss_workshop.Common.{
  ℕ, ◌+◌, ◌-◌, ◌≤◌, min, ◌≡◌, Bool, false, ◌&&◌, ◌||◌, ltb, List, [], ◌∷◌, ◌++◌, if◌then◌else◌,
  length, arith, length-append, ◌∙◌,
}
use rss_workshop.Scheduler.Alerts.{Event}
use rss_workshop.Notify.Batch.{
  queue_size, max_batch, max_global, is_global, alerting, Notifier, notify, Batch, no_events, add,
  add_all,
}

-- The server-wide events of a list.
unfoldable pub global_count : List Event → ℕ
global_count [] = 0
global_count (e ∷ es) = (if is_global e.kind then 1 else 0) + global_count es

unfoldable pub some_alerting : List Event → Bool
some_alerting [] = false
some_alerting (e ∷ es) = alerting e.kind || some_alerting es

-- `given` events were added, `globals` of them server-wide.
pub record Collected (given globals : ℕ) (alert : Bool) (b : Batch) : Type 0 where
  pub counted : length b.events + b.extra ≡ given
  pub globals_kept : b.globals ≡ min globals max_global
  pub others_kept : length b.events ≡ b.globals + min (given - globals) max_batch
  pub globals_given : globals ≤ given
  pub alerts : b.alert ≡ alert

length-snoc {ℓ} : {A : Type ℓ} (xs : List A) (x : A) → length (xs ++ (x ∷ [])) ≡ length xs + 1
length-snoc xs x = omega (arith, length-append xs (x ∷ []))

add-Collected :
    (e : Event) (given globals : ℕ) (alert : Bool) (b : Batch)
    → Collected given globals alert b
    → Collected
        (given + 1)
        (globals + (if is_global e.kind then 1 else 0))
        (alert || alerting e.kind)
        (add e b)
unfolding add
add-Collected e given globals alert b c = ground (arith, length-snoc b.events e)

or_assoc : (a b c : Bool) → ((a || b) || c) ≡ (a || (b || c))
or_assoc a b c = ground arith

add_all-from :
    (es : List Event) (given globals : ℕ) (alert : Bool) (b : Batch)
    → Collected given globals alert b
    → Collected
        (given + length es)
        (globals + global_count es)
        (alert || some_alerting es)
        (add_all es b)
unfolding add_all global_count some_alerting
add_all-from [] given globals alert b c = ground arith
add_all-from (e ∷ es) given globals alert b c =
    let n : ℕ = if is_global e.kind then 1 else 0 in
    let rest =
      add_all-from es (given + 1) (globals + n) (alert || alerting e.kind) (add e b)
        (add-Collected e given globals alert b c) in
    record {
      counted = omega (arith, rest);
      globals_kept = omega (arith, rest);
      others_kept = omega (arith, rest);
      globals_given = omega (arith, rest);
      alerts = rest.alerts ∙ or_assoc alert (alerting e.kind) (some_alerting es);
    }

-- Whatever the events and their order, a batch keeps or counts each of them: it keeps up to
-- eight server-wide events and up to 256 feed events, neither crowding out the other, counts the
-- rest, and is urgent exactly when one of all these events needs attention.
pub add_all-Collected :
    (es : List Event)
    → Collected (length es) (global_count es) (some_alerting es) (add_all es no_events)
add_all-Collected es =
    let r = add_all-from es 0 0 false no_events (ground arith) in
    record {
      counted = omega (arith, r);
      globals_kept = omega (arith, r);
      others_kept = omega (arith, r);
      globals_given = omega (arith, r);
      alerts = r.alerts;
    }

-- `Notify` queues a server-wide event exactly while fewer than eight of them wait, however many
-- feed events do; every event is queued or counted as dropped, and no queue outgrows its bound.
pub notify-conserves :
    (tidy : Event → Event) (e : Event) (n : Notifier)
    → length n.queue ≤ queue_size
    → length n.urgent ≤ max_global
    → let n' = notify tidy e n in
      (length n'.queue + length n'.urgent + n'.dropped
        ≡ length n.queue + length n.urgent + n.dropped + 1)
      × (n'.urgent ≡ (
          if is_global e.kind && ltb (length n.urgent) max_global
          then n.urgent ++ (tidy e ∷ [])
          else n.urgent))
      × (length n'.queue ≤ queue_size)
      × (length n'.urgent ≤ max_global)
unfolding notify
notify-conserves tidy e n h h' =
    ground (arith, length-snoc n.urgent (tidy e), length-snoc n.queue (tidy e))
