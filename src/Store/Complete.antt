-- ===== src/Store/Complete.antt =====
-- internal/store/store.go: CompleteWithDiagnostics, one transaction, on SQLite. A query that fails
-- rolls it back and is not modelled. diagnostics.SafeText is another package's; `first_byte` is the
-- first byte of the SHA-256 of a feed's id. A run's diagnostics are left out.
pub mod Failure
use rss_workshop.Common.{
  ℕ, suc, ◌+◌, ◌-◌, ◌*◌, ◌/◌, ◌%◌, ◌^◌, min, max, String, Bool, true, false, Option, none, some,
  List, [], ◌∷◌, ◌==◌, if◌then◌else◌, length, take,
}
use rss_workshop.Common.Int.{ℤ, pos, negsuc, ◌+ℤ◌}
use rss_workshop.Common.Assoc.{Assoc, lookup, insert}
use rss_workshop.Common.Result.{Result, ok, err}
use rss_workshop.Model.Item.{Item, Time}
use rss_workshop.Model.Feed.{Feed}
use rss_workshop.Model.Quiet.{second, duration, wrap64}
use rss_workshop.Scheduler.Holds.{minute, hour}
use rss_workshop.Store.Rows.{Run, FeedRow, Database, unix_now}
use rss_workshop.Store.Merge.{Success, succeed}

abbrev pub max_runs : ℕ
max_runs = 50

-- `ErrStale` and `ErrDeleted`
pub data Discarded : Type 0 where
  stale deleted : Discarded

-- `now.Add(d)`
unfoldable pub time_after : Time → ℤ → Time
time_after now (pos d) = now + d
time_after now (negsuc d) = now - suc d

-- The back-off after a number of failures, and a source's Retry-After.
unfoldable pub failure_delay : (failures retry : ℕ) → ℕ
failure_delay failures retry = max (min (2 ^ min failures 10 * minute) (24 * hour)) retry

-- The arguments of a completed refresh, without the feed. `retry` is in nanoseconds.
pub record Outcome : Type 0 where
  pub items : List Item
  pub etag : String
  pub modified : String
  pub status : ℕ
  pub failure : Option String
  pub retry : ℕ

module _ (safe_text : String → ℕ → String) (guid_of : String → String → String)
    (first_byte : String → ℕ) (max_items : ℕ) where
  abbrev pub jitter : String → ℕ
  jitter id = first_byte id % 30 * second

  -- What the branch of the run's error leaves of the row.
  unfoldable pub settle : (now : Time) → Feed → Outcome → Option String → FeedRow → FeedRow
  unfolding succeed unix_now
  settle now f o (some e) row = row
  settle now f o none row =
      let s =
        succeed guid_of f.id max_items now o.items row.stories row.last_changed row.last_new in
      record row {
        stories = s.stories;
        last_changed = s.last_changed;
        last_new = s.last_new;
        last_success = unix_now now;
        etag = o.etag;
        modified = o.modified;
      }

  -- `msg`, `failures` and `delay`.
  abbrev pub message_of : Option String → String
  message_of none = ""
  message_of (some e) = safe_text e 1000

  abbrev pub failures_of : Feed → Option String → ℕ
  failures_of f none = 0
  failures_of f (some e) = f.failures + 1

  unfoldable pub delay_of : Feed → ℕ → Option String → ℤ
  unfolding duration failure_delay
  delay_of f retry none = duration f.interval second
  delay_of f retry (some e) = pos (failure_delay (f.failures + 1) retry)

  -- The schedule and the run record, the newest run first.
  unfoldable pub schedule : (now : Time) → Feed → Outcome → (run_id : ℕ) → FeedRow → FeedRow
  unfolding delay_of time_after unix_now wrap64 ◌+ℤ◌
  schedule now f o run_id row =
      let run : Run = record {
        run_id = run_id;
        ended = unix_now now;
        status = o.status;
        count = length o.items;
        error = message_of o.failure;
      } in
      record row {
        last_attempt = unix_now now;
        next_run =
            unix_now (time_after now (wrap64 (delay_of f o.retry o.failure +ℤ pos (jitter f.id))));
        error = message_of o.failure;
        failures = failures_of f o.failure;
        runs = take max_runs (run ∷ row.runs);
      }

  unfoldable pub complete_row : (now : Time) → Feed → Outcome → ℕ → FeedRow → FeedRow
  unfolding settle schedule
  complete_row now f o run_id row = schedule now f o run_id (settle now f o o.failure row)

  unfoldable pub complete : (now : Time) → Feed → Outcome → Database → Result Discarded Database
  unfolding complete_row
  complete now f o db = elim (lookup f.id db.feeds) [
    | none ↦ err deleted
    | some row ↦
        if row.version == f.version
        then ok (record db {
          feeds = insert f.id (complete_row now f o db.next_id row) db.feeds;
          next_id = db.next_id + 1;
        })
        else err stale
  ]
