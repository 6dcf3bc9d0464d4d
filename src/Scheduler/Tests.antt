-- ===== src/Scheduler/Tests.antt =====
-- Runs of the scheduler on one feed.
mod Samples
use rss_workshop.Common.{
  ℕ, ◌+◌, ◌*◌, ◌≤◌, ◌<◌, ◌≡◌, refl, max, String, str_eq, Bool, true, false, ◌&&◌, ◌||◌, Option,
  none, some, List, [], ◌∷◌, ◌++◌, ltb, leb, ◌==◌, if◌then◌else◌, map, arith,
}
use rss_workshop.Common.Int.{pos}
use rss_workshop.Common.Assoc.{Assoc, lookup, contains, add}
use rss_workshop.Common.Result.{Result, ok}
use rss_workshop.Model.Text.{Text}
use rss_workshop.Model.Item.{Time, Item}
use rss_workshop.Model.Feed.{Field, Recipe, Feed}
use rss_workshop.Scheduler.Slots.{
  Scheduler, new, chromium_slots, finished_since, uses_solver, renders_pages, Services, no_chromium,
  reserve, release,
}
use rss_workshop.Scheduler.Slots.Invariant.{IsSound, release-reserve, release-IsSound}
use rss_workshop.Scheduler.Slots.Runs.{Reach, here, next, start, IsBounded, Reach-IsBounded}
use rss_workshop.Scheduler.Holds.{
  minute, hour, hold, is_held, retry, released, forget_holds, forget_finished,
}
use rss_workshop.Scheduler.Holds.Backoff.{refuse_all, hold-refuse_all, is_held-hold}
use rss_workshop.Scheduler.Dispatch.{sort_feeds, dispatch}
use rss_workshop.Scheduler.Dispatch.Ready.{IsReady, Served}
use rss_workshop.Scheduler.Dispatch.Oldest.{Served-dispatch}
use rss_workshop.Scheduler.Articles.{
  ArticleState, ArticleRun, Target, fetch_articles, max_articles_per_run,
}
use rss_workshop.Scheduler.Articles.Queue.{outline, sent-le, fetch_articles-outline}
use rss_workshop.Scheduler.Backlog.{forget_backlog, some_waiting, backlog_of}
use rss_workshop.Scheduler.Backlog.Drain.{again}
use rss_workshop.Scheduler.Alerts.{failing, recovered, db_unavailable, db_available, no_alerts}
use rss_workshop.Scheduler.Alerts.Streaks.{
  Happening, failed, succeeded, edited, last_failing, happen, history, sent-history, WellSpaced,
  listed, read_library, last_outage, goes_on, sent-listed,
}
use rss_workshop.Scheduler.Extract.{no_result, no_preview, Pages, attempt, extract}
use rss_workshop.Scheduler.Extract.Attempts.{
  modes, in_solver, in_browser, goes_back, bare, last_page, with_others, last_page-extract,
  extract_without_validators,
}
use rss_workshop.Scheduler.Refresh.{saved, World}
use rss_workshop.Scheduler.Refresh.Outcomes.{refresh-rendering}
use rss_workshop.Scheduler.Preview.{preview, snapshot, Sample}
use rss_workshop.Scheduler.Preview.Balance.{preview-snapshot}
use rss_workshop.Scheduler.Tests.Samples.{
  no_field, recipe, feed, item, items, pages, deadline, body_of, no_services,
}

abbrev one_job : Scheduler
one_job = record (new 2) { slots = 1; active = "1" ∷ [] }

reserve-new : reserve no_services "1" none no_chromium 0 (new 2) ≡ ok one_job
unfolding reserve new add contains lookup
reserve-new = refl

Reach-one_job : Reach 2 0 0 (new 2) one_job
unfolding new chromium_slots
Reach-one_job = next here (start no_services "1" none no_chromium 0 refl tt reserve-new)

Reach-IsBounded_example : IsBounded 2 0 0 one_job
Reach-IsBounded_example = Reach-IsBounded 2 0 0 Reach-one_job

new-IsSound : IsSound (new 2)
new-IsSound = (Reach-IsBounded 2 0 0 here).sound

release-reserve_example : release "1" one_job ≡ some (new 2)
release-reserve_example =
    release-reserve no_services "1" none no_chromium 0 (new 2) one_job new-IsSound reserve-new

active_one : contains "1" one_job.active ≡ true
unfolding contains
active_one = refl

abbrev happenings : List Happening
happenings = failed "dns" ∷ edited ∷ failed "dns" ∷ []

sent-history_example :
    let safe : String → ℕ → String = λ t n. t in
    let h = history safe 2 feed happenings in
    ((happen safe 2 feed (failed "x") h).sent
      ≡ (if h.failures + 1 == max 2 1 then failing ∷ h.sent else h.sent))
    × ((happen safe 2 feed succeeded h).sent
        ≡ (if last_failing h.sent then recovered ∷ h.sent else h.sent))
    × ((happen safe 2 feed edited h).sent ≡ h.sent)
sent-history_example = sent-history (λ t n. t) 2 feed happenings "x"

-- The latest tick first: an outage that is over, and the next one within the hour.
abbrev ticks : List (Time × Option String)
ticks = (7, none) ∷ (6, some "locked") ∷ (5, some "locked") ∷ []

sent-listed_example :
    let sent = (listed ticks).sent in
    ((read_library 8 (some "locked") (listed ticks)).sent ≡ (
      if last_outage sent == 0 || leb (last_outage sent + hour) 8
      then (8, db_unavailable) ∷ sent
      else sent))
    × ((read_library 8 none (listed ticks)).sent
        ≡ (if goes_on sent then (8, db_available) ∷ sent else sent))
    × WellSpaced sent
sent-listed_example = sent-listed ticks 8 "locked"

not_held : lookup "1" (new 2).held ≡ none
unfolding new lookup
not_held = refl

abbrev refused_twice : Scheduler
refused_twice = refuse_all "1" ((3, false) ∷ (4, true) ∷ []) (new 2)

hold-refuse_all_example :
    ((hold 9 "1" refused_twice).0 ≡ 8 * minute)
    × ((hold 9 "1" refused_twice).0 ≤ 1024 * minute)
    × (2 * minute ≤ (hold 9 "1" refused_twice).0)
hold-refuse_all_example = hold-refuse_all "1" ((3, false) ∷ (4, true) ∷ []) 9 (new 2) not_held

is_held-hold_example :
    let held = (hold 9 "1" (new 2)).1 in
    let again = (hold 20 "1" held).1 in
    (is_held 99 "1" again ≡ ltb 99 (20 + (hold 20 "1" held).0))
    × (is_held 99 "1" (retry "1" held) ≡ false)
    × (is_held 99 "1" (released "1" held) ≡ false)
    × (is_held 99 "2" again ≡ is_held 99 "2" held)
    × (is_held 99 "2" (retry "1" held) ≡ is_held 99 "2" held)
    × (is_held 99 "2" (released "1" held) ≡ is_held 99 "2" held)
is_held-hold_example = is_held-hold 20 99 "1" "2" (hold 9 "1" (new 2)).1 refl

fetch_articles-outline_example :
    map outline (fetch_articles false 9 deadline body_of feed [] items).1 ≡ map outline items
fetch_articles-outline_example = fetch_articles-outline false 9 deadline body_of feed [] items

-- The first of the two stories has got its body, and the other still waits.
abbrev after_run : Assoc ArticleState
after_run =
    ("a", record { has_body = true; first_seen = 7 })
    ∷ ("b", record { has_body = false; first_seen = 7 })
    ∷ []

-- A server with no browser and no FlareSolverr.
abbrev bare_server : Pages
bare_server = record pages { render = none; solver = none }

last_page-extract_example :
    let out = extract pages feed false (new 2) in
    (modes out.attempts ≡ (
      if in_solver feed
      then "flaresolverr" ∷ []
      else if in_browser feed
      then "browser" ∷ []
      else if goes_back pages feed false (new 2)
      then "static" ∷ "browser" ∷ []
      else "static" ∷ []))
    × (bare out ≡ bare (attempt pages "" feed.recipe (last_page pages feed false (new 2))))
    × (out ≡ extract (with_others pages bare_server feed false (new 2)) feed false (new 2))
last_page-extract_example = last_page-extract pages feed false (new 2) bare_server

extract_without_validators_example :
    extract pages (record feed { etag = "x"; last_modified = "y" }) true (new 2)
    ≡ extract pages feed true (new 2)
extract_without_validators_example = extract_without_validators pages feed true (new 2) "x" "y" refl

abbrev later_feed : Feed
later_feed = record feed { id = "2"; next_run = 4 }

abbrev never : Feed → Bool
never f = false

feed-IsReady : IsReady no_services 9 8 feed (
    forget_finished 8
      (forget_backlog (later_feed ∷ feed ∷ []) (forget_holds (later_feed ∷ feed ∷ []) (new 1))))
unfolding forget_finished forget_backlog forget_holds new is_held finished_since uses_solver
    renders_pages lookup
feed-IsReady = record {
  enabled = refl;
  due = omega arith;
  free = refl;
  no_solver = refl;
  no_pages = refl;
  unfinished = refl;
}

sorted_feeds : sort_feeds (later_feed ∷ feed ∷ []) ≡ [] ++ (feed ∷ later_feed ∷ [])
unfolding sort_feeds
sorted_feeds = refl

Served-dispatch_example :
    Served feed (dispatch no_services 9 8 never (later_feed ∷ feed ∷ []) (new 1) no_alerts).0
Served-dispatch_example =
    Served-dispatch no_services 9 8 never (λ f. refl) feed [] (later_feed ∷ [])
      (later_feed ∷ feed ∷ []) (new 1) no_alerts sorted_feeds feed-IsReady

abbrev sample : Sample
sample = record { now = 9; expired = deadline; fetch = body_of; article_warning = λ w. w.1 }

preview-snapshot_example :
    ((preview no_services pages sample "p" feed (new 2)).1 ≡ some (new 2))
    × ((snapshot no_services pages "p" "https://example.com/" recipe (new 2)).1 ≡ some (new 2))
preview-snapshot_example =
    preview-snapshot no_services pages sample "p" "https://example.com/" feed recipe (new 2)
      new-IsSound
