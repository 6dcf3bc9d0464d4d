-- ===== src/Store/Complete/Failure.antt =====
-- What a completed refresh leaves of a feed's row.
use rss_workshop.Common.{
  ℕ, ◌+◌, ◌*◌, ◌^◌, ◌≤◌, min, max, ◌≡◌, refl, ap, subst, String, str_eq, Bool, Option, none, some,
  List, ◌==◌, length, arith, eq_iff, inl, inr, Bool-cases, Option-cases, length-take,
}
use rss_workshop.Common.Int.{ℤ, pos, ◌+ℤ◌}
use rss_workshop.Common.Assoc.{Assoc, lookup, insert, lookup-insert, lookup-insert_self}
use rss_workshop.Common.Result.{ok, Returns, Returns-ok, Returns-err}
use rss_workshop.Model.Item.{Time}
use rss_workshop.Model.Feed.{Feed, Recipe}
use rss_workshop.Model.Quiet.{second, max_int64, wrap64}
use rss_workshop.Scheduler.Holds.{minute, hour}
use rss_workshop.Scheduler.Holds.Backoff.{two-le-pow, pow-le}
use rss_workshop.Model.Quiet.Thresholds.{wrap64-pos}
use rss_workshop.Store.Rows.{Story, FeedRow, Database, unix_now}
use rss_workshop.Store.Complete.{
  Outcome, deleted, stale, max_runs, time_after, failure_delay, settle, delay_of, schedule,
  complete_row, complete, jitter, failures_of,
}

-- What the operator sets, and the version that its edits move.
pub record Settings : Type 0 where
  pub rss_token : String
  pub title : String
  pub url : String
  pub recipe : Option Recipe
  pub interval : ℤ
  pub enabled : Bool
  pub version : ℕ
  pub filter_ids : List String

abbrev pub settings_of : FeedRow → Settings
settings_of row = record {
  rss_token = row.rss_token;
  title = row.title;
  url = row.url;
  recipe = row.recipe;
  interval = row.interval;
  enabled = row.enabled;
  version = row.version;
  filter_ids = row.filter_ids;
}

unfoldable pub settings_at : String → Assoc FeedRow → Option Settings
unfolding lookup
settings_at id feeds = elim (lookup id feeds) [ none ↦ none | some row ↦ some (settings_of row) ]

-- What a successful refresh writes, apart from the schedule.
pub record Content : Type 0 where
  pub stories : List Story
  pub last_success : ℕ
  pub last_changed : ℕ
  pub last_new : ℕ
  pub etag : String
  pub modified : String

abbrev pub content_of : FeedRow → Content
content_of row = record {
  stories = row.stories;
  last_success = row.last_success;
  last_changed = row.last_changed;
  last_new = row.last_new;
  etag = row.etag;
  modified = row.modified;
}

failure_delay-bounds :
    (failures retry : ℕ)
    → (2 * minute ≤ failure_delay (failures + 1) retry)
      × (retry ≤ failure_delay (failures + 1) retry)
      × (failure_delay (failures + 1) retry ≤ max (24 * hour) retry)
unfolding failure_delay
failure_delay-bounds failures retry =
    let n = min (failures + 1) 10 in
    let low = two-le-pow n (omega arith) in
    let high = pow-le n (omega arith) in (omega arith, omega arith, omega arith)

time_after-add :
    (now d j : ℕ) → d + j ≤ max_int64 → time_after now (wrap64 (pos d +ℤ pos j)) ≡ now + (d + j)
unfolding time_after ◌+ℤ◌
time_after-add now d j h =
    let sum : pos d +ℤ pos j ≡ pos (d + j) = ground arith in rw (sum, wrap64-pos (d + j) h) refl

unix_now_mono : (a b : Time) → a ≤ b → unix_now a ≤ unix_now b
unfolding unix_now
unix_now_mono a b h = omega arith

module _ (safe_text : String → ℕ → String) (guid_of : String → String → String)
    (first_byte : String → ℕ) (max_items : ℕ) where
  settle-settings :
      (now : Time) (f : Feed) (o : Outcome) (failure : Option String) (row : FeedRow)
      → settings_of (settle safe_text guid_of first_byte max_items now f o failure row)
        ≡ settings_of row
  unfolding settle
  settle-settings now f o none row = refl
  settle-settings now f o (some e) row = refl

  complete_row-settings :
      (now : Time) (f : Feed) (o : Outcome) (run_id : ℕ) (row : FeedRow)
      → settings_of (complete_row safe_text guid_of first_byte max_items now f o run_id row)
        ≡ settings_of row
  unfolding complete_row schedule
  complete_row-settings now f o run_id row = settle-settings now f o o.failure row

  settings_at-insert :
      (id asked : String) (row row' : FeedRow) (feeds : Assoc FeedRow)
      → lookup id feeds ≡ some row
      → settings_of row' ≡ settings_of row
      → settings_at asked (insert id row' feeds) ≡ settings_at asked feeds
  unfolding settings_at
  settings_at-insert id asked row row' feeds found same =
      let step = lookup-insert id asked row' feeds in
      elim (Bool-cases (str_eq id asked)) [
        | inl e ↦
            let same_id = (eq_iff id asked).0 e in
            let found' = subst (λ k. lookup k feeds ≡ some row) same_id found in
            rw (settings_at, step, e, found') (ap some same)
        | inr e ↦ rw (settings_at, step, e) refl
      ]

  complete-kept :
      (now : Time) (f : Feed) (o : Outcome) (db : Database) (asked : String)
      → Returns
          (λ db'.
            (db'.filters ≡ db.filters) × (settings_at asked db'.feeds ≡ settings_at asked db.feeds))
          (complete safe_text guid_of first_byte max_items now f o db)
  unfolding complete
  complete-kept now f o db asked = elim (Option-cases (lookup f.id db.feeds)) [
    | inl e ↦ rw (complete, e) (Returns-err deleted)
    | inr (row, e) ↦ elim (Bool-cases (row.version == f.version)) [
      | inr other ↦ rw (complete, e, other) (Returns-err stale)
      | inl same ↦
          let row' = complete_row safe_text guid_of first_byte max_items now f o db.next_id row in
          rw (complete, e, same)
            (Returns-ok (record db { feeds = insert f.id row' db.feeds; next_id = db.next_id + 1 })
              (
                refl,
                settings_at-insert f.id asked row row' db.feeds e
                    (complete_row-settings now f o db.next_id row),
              ))
    ]
  ]

  -- A completed refresh leaves what the operator sets of every feed (its token, title, address,
  -- recipe, interval, pause, version and library filters) and the library as they are.
  pub complete-settings :
      (now : Time) (f : Feed) (o : Outcome) (db db' : Database) (asked : String)
      → complete safe_text guid_of first_byte max_items now f o db ≡ ok db'
      → (db'.filters ≡ db.filters) × (settings_at asked db'.feeds ≡ settings_at asked db.feeds)
  complete-settings now f o db db' asked h = (complete-kept now f o db asked).at db' h

  settle-content :
      (now : Time) (f : Feed) (o : Outcome) (failure : Option String) (e : String) (row : FeedRow)
      → failure ≡ some e
      → content_of (settle safe_text guid_of first_byte max_items now f o failure row)
        ≡ content_of row
  unfolding settle
  settle-content now f o none e row h = absurd cc
  settle-content now f o (some e') e row h = refl

  delay_of-failed :
      (f : Feed) (retry : ℕ) (failure : Option String) (e : String)
      → failure ≡ some e
      → delay_of safe_text guid_of first_byte max_items f retry failure
        ≡ pos (failure_delay (f.failures + 1) retry)
  unfolding delay_of
  delay_of-failed f retry none e h = absurd cc
  delay_of-failed f retry (some e') e h = refl

  failures_of-failed :
      (f : Feed) (failure : Option String) (e : String)
      → failure ≡ some e
      → failures_of safe_text guid_of first_byte max_items f failure ≡ f.failures + 1
  failures_of-failed f none e h = absurd cc
  failures_of-failed f (some e') e h = refl

  jitter-le : (id : String) → jitter safe_text guid_of first_byte max_items id ≤ 29 * second
  jitter-le id = omega arith

  -- The row after a refresh that failed.
  abbrev IsFailed : (now : Time) → Feed → Outcome → (row row' : FeedRow) → Type 0
  IsFailed now f o row row' =
      (content_of row' ≡ content_of row)
      × (row'.failures ≡ f.failures + 1)
      × (length row'.runs ≤ max_runs)
      × (unix_now (now + 2 * minute) ≤ row'.next_run)
      × (unix_now (now + o.retry) ≤ row'.next_run)
      × (row'.next_run ≤ unix_now (now + max (24 * hour) o.retry + 30 * second))

  complete_row-IsFailed :
      (now : Time) (f : Feed) (o : Outcome) (run_id : ℕ) (row : FeedRow) (e : String)
      → o.failure ≡ some e
      → o.retry ≤ 2 ^ 62
      → IsFailed now f o row
          (complete_row safe_text guid_of first_byte max_items now f o run_id row)
  unfolding complete_row schedule
  complete_row-IsFailed now f o run_id row e failed short =
      let d = failure_delay (f.failures + 1) o.retry in
      let j = jitter safe_text guid_of first_byte max_items f.id in
      let (low, after, high) = failure_delay-bounds f.failures o.retry in
      let small = jitter-le f.id in
      let at : time_after now
            (wrap64 (delay_of safe_text guid_of first_byte max_items f o.retry o.failure +ℤ pos j))
          ≡ now + (d + j) =
        rw (delay_of-failed f o.retry o.failure e failed) (time_after-add now d j (omega arith)) in
      (
        settle-content now f o o.failure e row failed,
        failures_of-failed f o.failure e failed,
        omega (
          arith,
          length-take 49 (settle safe_text guid_of first_byte max_items now f o o.failure row).runs,
        ),
        rw at (unix_now_mono (now + 2 * minute) (now + (d + j)) (omega arith)),
        rw at (unix_now_mono (now + o.retry) (now + (d + j)) (omega arith)),
        rw at (
            unix_now_mono (now + (d + j)) (now + max (24 * hour) o.retry + 30 * second)
              (omega arith)),
      )

  complete-row :
      (now : Time) (f : Feed) (o : Outcome) (db : Database) (row : FeedRow)
      → lookup f.id db.feeds ≡ some row
      → Returns
          (λ db'.
            lookup f.id db'.feeds
            ≡ some (complete_row safe_text guid_of first_byte max_items now f o db.next_id row))
          (complete safe_text guid_of first_byte max_items now f o db)
  unfolding complete
  complete-row now f o db row e = elim (Bool-cases (row.version == f.version)) [
    | inr other ↦ rw (complete, e, other) (Returns-err stale)
    | inl same ↦
        let row' = complete_row safe_text guid_of first_byte max_items now f o db.next_id row in
        rw (complete, e, same)
          (Returns-ok (record db { feeds = insert f.id row' db.feeds; next_id = db.next_id + 1 })
            (lookup-insert_self f.id row' db.feeds))
  ]

  -- A refresh that failed keeps the stories, their times, the last success and the validators of
  -- the feed, and counts one more failure. The next one comes after two minutes at least, not
  -- before the source's Retry-After, and no later than 24 hours or that, and 30 seconds. At most 50
  -- runs are kept. Retry-After is at most 2^62 ns.
  pub complete-IsFailed :
      (now : Time) (f : Feed) (o : Outcome) (db db' : Database) (row row' : FeedRow) (e : String)
      → o.failure ≡ some e
      → o.retry ≤ 2 ^ 62
      → lookup f.id db.feeds ≡ some row
      → complete safe_text guid_of first_byte max_items now f o db ≡ ok db'
      → lookup f.id db'.feeds ≡ some row'
      → IsFailed now f o row row'
  complete-IsFailed now f o db db' row row' e failed short found h found' =
      let stored = (complete-row now f o db row found).at db' h in
      subst (IsFailed now f o row)
        (let same : complete_row safe_text guid_of first_byte max_items now f o db.next_id row
              ≡ row' =
            cc in
          same)
        (complete_row-IsFailed now f o db.next_id row e failed short)
