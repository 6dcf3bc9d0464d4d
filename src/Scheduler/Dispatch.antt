-- ===== src/Scheduler/Dispatch.antt =====
-- internal/scheduler/scheduler.go and sort.go: `tick` and `dispatch`, which start the due feeds of
-- a list read at `listed`. It reads the clock and the services once here; a job that ends meanwhile is
-- another step. `stopping` says whether the context has ended when a feed's turn comes.
pub mod Sorted
pub mod Ready
pub mod Oldest
use rss_workshop.Common.{
  ℕ, String, str_eq, Bool, true, false, not, ◌&&◌, ◌||◌, Option, none, some, List, [], ◌∷◌, ltb,
  leb, if◌then◌else◌,
}
use rss_workshop.Common.Result.{Result, ok, err}
use rss_workshop.Model.Item.{Time}
use rss_workshop.Model.Feed.{Feed}
use rss_workshop.Scheduler.Slots.{
  Scheduler, Services, Chromium, no_chromium, need_chromium, Refusal, uses_solver, renders_pages,
  reserve,
}
use rss_workshop.Scheduler.Holds.{is_held, forget_holds, forget_finished}
use rss_workshop.Scheduler.Backlog.{forget_backlog}
use rss_workshop.Scheduler.Alerts.{Alerts, Event, forget, alert_listed}

-- `sortFeeds`: by the next run. sort.Slice is not stable; feeds that are due at the same time stay
-- in the order of the list here.
unfoldable pub insert_feed : Feed → List Feed → List Feed
insert_feed f [] = f ∷ []
insert_feed f (g ∷ gs) =
    let rest = insert_feed f gs in if leb f.next_run g.next_run then f ∷ g ∷ gs else g ∷ rest

unfoldable pub sort_feeds : List Feed → List Feed
unfolding insert_feed
sort_feeds [] = []
sort_feeds (f ∷ fs) = insert_feed f (sort_feeds fs)

-- What the loop does at a feed: `continue`, `return`, or a job.
pub data Turn : Type 0 where
  skipped stopped : Turn
  started : Scheduler → Turn

abbrev pub turn_of : Result Refusal Scheduler → Turn
turn_of (ok t) = started t
turn_of (err e) = skipped

module _ (v : Services) (now listed : Time) (stopping : Feed → Bool) where
  unfoldable pub turn : Feed → Scheduler → Turn
  unfolding is_held uses_solver renders_pages
  turn f s =
      let browser = if renders_pages f then need_chromium else no_chromium in
      if not f.enabled || ltb now f.next_run
      then skipped
      else if is_held now f.id s
      then skipped
      else if stopping f
      then stopped
      else turn_of (reserve v f.id (uses_solver v f.recipe.mode) browser listed s)

  -- The loop: the feeds that start, and the scheduler after them.
  unfoldable pub start_due : List Feed → Scheduler → List Feed × Scheduler
  start_due [] s = ([], s)
  start_due (f ∷ fs) s = elim (turn f s) [
    | skipped ↦ start_due fs s
    | stopped ↦ ([], s)
    | started t ↦ let (gs, u) = start_due fs t in (f ∷ gs, u)
  ]

  -- `dispatch`
  unfoldable pub dispatch : List Feed → Scheduler → Alerts → (List Feed × Scheduler) × Alerts
  unfolding start_due sort_feeds forget_holds forget_backlog forget_finished forget
  dispatch fs s a = (
    start_due (sort_feeds fs) (forget_finished listed (forget_backlog fs (forget_holds fs s))),
    forget fs a,
  )

  -- `tick`; `read` is what the store's `List` answers, and `ended` whether the context has ended.
  unfoldable pub tick :
      (notifier ended : Bool)
      → Result String (List Feed)
      → Scheduler
      → Alerts
      → (List Feed × Scheduler) × Alerts × Option Event
  unfolding dispatch alert_listed
  tick notifier true (err e) s a = (([], s), a, none)
  tick notifier false (err e) s a =
      let (a', event) = alert_listed notifier now (some e) a in (([], s), a', event)
  tick notifier ended (ok fs) s a =
      let (a', event) = alert_listed notifier now none a in
      let (out, a'') = dispatch fs s a' in (out, a'', event)
