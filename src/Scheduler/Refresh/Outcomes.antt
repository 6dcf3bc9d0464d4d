-- ===== src/Scheduler/Refresh/Outcomes.antt =====
-- What a refresh leaves behind, for each answer of the store.
use rss_workshop.Common.{
  ℕ, ◌+◌, ◌≡◌, refl, ap, ◌∙◌, subst, ◌⊎◌, String, true, false, not, ◌&&◌, ◌||◌, Option, none, some,
  [], arith, inl, inr, Bool-cases,
}
use text.Mathlib.TextPositions.{eq_refl}
use rss_workshop.Common.Assoc.{lookup, contains, remove, contains-remove}
use rss_workshop.Model.Feed.{Feed}
use rss_workshop.Scheduler.Slots.{Scheduler, articles_use_chromium}
use rss_workshop.Scheduler.Holds.{is_held}
use rss_workshop.Scheduler.Holds.Backoff.{refusals}
use rss_workshop.Scheduler.Articles.{ArticleRun}
use rss_workshop.Scheduler.Alerts.{Alerts, alert_refresh, alert_not_saved}
use rss_workshop.Scheduler.Extract.{Failure, is_nil}
use rss_workshop.Scheduler.Refresh.{
  World, Save, Answer, saved, stale, deleted, refused, Refreshed, list_page, articles_of,
  conditional, give_back, after_save, save_of, conclude, refresh, text_option, events_of,
}
use rss_workshop.Scheduler.Refresh.Saved.{IsSaveOf}

-- A job without its id in a set of admissions.
give_back-rendering :
    (f : Feed) (e : Option Failure) (s : Scheduler)
    → contains f.id (give_back f e s).rendering ≡ false
unfolding give_back articles_use_chromium
give_back-rendering f e s = ground (
  arith,
  contains-remove f.id f.id s.rendering,
  contains-remove f.id f.id (remove f.id s.rendering),
  eq_refl f.id,
)

after_save-rendering :
    (w : World) (f : Feed) (run : ArticleRun) (v : Save) (r : Answer) (s : Scheduler) (a : Alerts)
    → (after_save w f run v r s a).scheduler.rendering ≡ s.rendering
unfolding after_save
after_save-rendering w f run v saved s a = ground arith
after_save-rendering w f run v _ s a = ground arith

list_page-id : (w : World) (f : Feed) (s : Scheduler) → (list_page w f s).0.id ≡ f.id
unfolding list_page
list_page-id w f s = ground arith

-- What the answer of the store makes of a feed's hold, `n` refusals having been remembered.
abbrev pub HoldAfter : Answer → World → String → ℕ → Scheduler → Type 0
HoldAfter saved w id n s = lookup id s.held ≡ none
HoldAfter deleted w id n s = lookup id s.held ≡ none
HoldAfter stale w id n s = (refusals id s ≡ n) × (is_held w.now id s ≡ false)
HoldAfter (refused e) w id n s = refusals id s ≡ n + 1

conclude-rendering :
    (w : World) (f : Feed) (run : ArticleRun) (v : Save) (s : Scheduler) (a : Alerts)
    → (conclude w f run v s a).scheduler.rendering ≡ s.rendering
unfolding conclude
conclude-rendering w f run v s a = elim (Bool-cases (not (is_nil v.failure) && w.stopping)) [
  | inl e ↦ rw e refl
  | inr e ↦ rw e (after_save-rendering w f run v (w.store v) s a)
]

-- What becomes of the alerts, and the events sent, for each answer of the store to `v`.
abbrev pub EventsAfter : Answer → World → Feed → Save → Alerts → Refreshed → Type 0
EventsAfter saved w f v a out =
    let sent = alert_refresh w.safe_text w.notifier w.notify_after f (text_option v.failure) a in
    (out.alerts ≡ sent.0) × (out.events ≡ events_of sent.1)
EventsAfter (refused e) w f v a out =
    let sent = alert_not_saved w.notifier w.now f e a in
    (out.alerts ≡ sent.0) × (out.events ≡ events_of sent.1)
EventsAfter _ w f v a out = (out.alerts ≡ a) × (out.events ≡ [])

-- The store was asked to save `v`.
abbrev pub Asked : World → String → Feed → Save → Scheduler → Alerts → Refreshed → Type 0
Asked w id f v s a out =
    ((is_nil v.failure || not w.stopping) ≡ true)
    × (out.save ≡ some v)
    × HoldAfter (w.store v) w id (refusals id s) out.scheduler
    × EventsAfter (w.store v) w f v a out

-- The failure in `v` was discarded, since the server stops.
abbrev pub GivenUp : World → Save → Scheduler → Alerts → Refreshed → Type 0
GivenUp w v s a out =
    (is_nil v.failure ≡ false)
    × (w.stopping ≡ true)
    × (out.save ≡ none)
    × (out.scheduler.held ≡ s.held)
    × (out.scheduler.backlog ≡ s.backlog)
    × (out.alerts ≡ a)
    × (out.events ≡ [])

-- What a refresh leaves, from the scheduler `s` and the alerts `a`.
abbrev pub Ends : World → Feed → Scheduler → Alerts → Refreshed → Type 0
Ends w f s a out =
    let (f', x) = list_page w f s in
    (v : Save) × IsSaveOf f' x v × (Asked w f.id f' v s a out ⊎ GivenUp w v s a out)

-- By the time of the save, or of giving up, a refresh holds no Chromium admission, however it went.
pub refresh-rendering :
    (w : World) (f : Feed) (s : Scheduler) (a : Alerts)
    → contains f.id (refresh w f s a).scheduler.rendering ≡ false
unfolding refresh
refresh-rendering w f s a =
    let f' = (list_page w f s).0 in
    let x = (list_page w f s).1 in
    let (run, items, attempts) = articles_of w f' x in
    let v = save_of f' items (conditional f' (record x { attempts = attempts })) in
    let s' = give_back f' x.failure s in
    let none_left = give_back-rendering f' x.failure s in
    let same = conclude-rendering w f' run v s' a in
    subst (λ i. contains i (conclude w f' run v s' a).scheduler.rendering ≡ false)
      (list_page-id w f s) (ap (contains f'.id) same ∙ none_left)
