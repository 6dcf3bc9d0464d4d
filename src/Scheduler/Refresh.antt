-- ===== src/Scheduler/Refresh.antt =====
-- internal/scheduler/scheduler.go: `refresh`. What it reads and what the store answers is a
-- `World`; what it leaves is the scheduler, the alerts, what it asked the store to save, and the
-- events that it sent. Timing and log lines are left out.
pub mod Outcomes
pub mod Saved
use rss_workshop.Common.{
  ℕ, String, str_eq, Bool, true, false, not, ◌&&◌, ◌||◌, Option, none, some, List, [], ◌∷◌, ◌++◌,
  ◌==◌, if◌then◌else◌, length, map,
}
use rss_workshop.Common.Assoc.{Assoc}
use rss_workshop.Common.Result.{Result, ok, err}
use rss_workshop.Model.Text.{Text}
use rss_workshop.Model.Item.{Time, Item}
use rss_workshop.Model.Feed.{Feed, Recipe, FullContent}
use rss_workshop.Scheduler.Slots.{
  Scheduler, articles_use_solver, articles_use_chromium, done_with_solver, done_with_chromium,
}
use rss_workshop.Scheduler.Holds.{hold, retry, released}
use rss_workshop.Scheduler.Articles.{ArticleState, ArticleRun, no_run, Target, fetch_articles}
use rss_workshop.Scheduler.Backlog.{record_backlog}
use rss_workshop.Scheduler.Alerts.{Alerts, Event, alert_refresh, alert_not_saved}
use rss_workshop.Scheduler.Extract.{
  Failure, HttpError, plain, FetchResult, no_result, Preview, no_preview, Attempt, Pages,
  Extraction, extract, http_of, is_nil, text_of,
}

-- What the store is asked to save.
pub record Save : Type 0 where
  pub feed : Feed
  pub items : List Item
  pub etag : String
  pub modified : String
  pub status : ℕ
  pub failure : Option Failure
  pub retry_after : ℕ
  pub attempts : List Attempt

-- How CompleteWithDiagnostics answers: nil, ErrStale, ErrDeleted or another error.
pub data Answer : Type 0 where
  saved stale deleted : Answer
  refused : String → Answer

-- `recipe` is EffectiveRecipe, `states` the article states read before the articles and `after`
-- those read after the save, `none` where the read fails. `stopping` is parent.Err() != nil.
pub record World : Type 0 where
  pub pages : Pages
  pub recipe : Result Failure Recipe
  pub states : Option (Assoc ArticleState)
  pub after : Option (Assoc ArticleState)
  pub expired : ℕ → Bool × Bool
  pub fetch : Target → Result String Text
  pub article_warning : Text × String → String
  pub safe_text : String → ℕ → String
  pub stopping : Bool
  pub store : Save → Answer
  pub notifier : Bool
  pub notify_after : ℕ
  pub now : Time

pub record Refreshed : Type 0 where
  pub scheduler : Scheduler
  pub alerts : Alerts
  pub save : Option Save
  pub events : List Event

-- `last.Warnings = append(last.Warnings, w...)`
unfoldable pub warn_last : List String → List Attempt → List Attempt
warn_last w [] = []
warn_last w (a ∷ []) = record a { warnings = a.warnings ++ w } ∷ []
warn_last w (a ∷ b ∷ rest) = a ∷ warn_last w (b ∷ rest)

-- `last.Outcome, last.Error = "failed", e.Error()`
unfoldable pub fail_last : String → List Attempt → List Attempt
fail_last e [] = []
fail_last e (a ∷ []) = record a { outcome = "failed"; error = e } ∷ []
fail_last e (a ∷ b ∷ rest) = a ∷ fail_last e (b ∷ rest)

-- The job up to the articles: the feed with its effective recipe, and the extraction.
unfoldable pub list_page : World → Feed → Scheduler → Feed × Extraction
unfolding extract
list_page w f s = elim w.recipe [
  | err e ↦
      (f, record { result = no_result; preview = no_preview; failure = some e; attempts = [] })
  | ok r ↦ let f' = record f { recipe = r } in (f', extract w.pages f' false s)
]

abbrev pub known_states : Option (Assoc ArticleState) → Assoc ArticleState
known_states none = []
known_states (some m) = m

abbrev wants_full : Option FullContent → Bool
wants_full none = false
wants_full (some _) = true

-- The articles: their round, the items with their bodies, and the attempts with the warnings.
unfoldable pub articles_of : World → Feed → Extraction → ArticleRun × List Item × List Attempt
unfolding warn_last fetch_articles
articles_of w f x =
    let (run, items) =
      fetch_articles false w.now w.expired w.fetch f (known_states w.states) x.preview.items in
    if is_nil x.failure && wants_full f.recipe.full
    then (run, items, warn_last (map w.article_warning run.warnings) x.attempts)
    else (no_run, x.preview.items, x.attempts)

abbrev pub or_else : String → String → String
or_else a b = if str_eq a "" then b else a

abbrev pub never_succeeded : String
never_succeeded = "source returned 304 before any successful refresh"

-- The treatment of a 304: a failure before any success, and otherwise the stored validators stay
-- where the answer had none.
unfoldable pub conditional : Feed → Extraction → Extraction
unfolding fail_last
conditional f x =
    let r = x.result in
    if is_nil x.failure && (r.status == 304)
    then (if f.last_success == 0
        then record x {
          failure = some (plain never_succeeded);
          attempts = fail_last never_succeeded x.attempts;
        }
        else record x {
          result = record r {
            etag = or_else r.etag f.etag;
            last_modified = or_else r.last_modified f.last_modified;
          };
        })
    else x

abbrev retry_of : Option HttpError → ℕ → ℕ
retry_of none d = d
retry_of (some h) d = h.retry_after

abbrev pub text_option : Option Failure → Option String
text_option none = none
text_option (some e) = some e.text

abbrev pub events_of : Option Event → List Event
events_of none = []
events_of (some e) = e ∷ []

-- The switch over the store's answer.
unfoldable pub after_save :
    World → Feed → ArticleRun → Save → Answer → Scheduler → Alerts → Refreshed
unfolding released retry hold record_backlog alert_refresh alert_not_saved
after_save w f run save stale s a = record {
  scheduler = retry f.id s;
  alerts = a;
  save = some save;
  events = [];
}
after_save w f run save deleted s a = record {
  scheduler = released f.id s;
  alerts = a;
  save = some save;
  events = [];
}
after_save w f run save (refused e) s a =
    let (wait, s') = hold w.now f.id s in
    let (a', event) = alert_not_saved w.notifier w.now f e a in
    record { scheduler = s'; alerts = a'; save = some save; events = events_of event }
after_save w f run save saved s a =
    let s' = released f.id s in
    let s'' = if is_nil save.failure then record_backlog w.after f run s' else s' in
    let (a', event) =
      alert_refresh w.safe_text w.notifier w.notify_after f (text_option save.failure) a in
    record { scheduler = s''; alerts = a'; save = some save; events = events_of event }

-- The admissions that are given back before the save.
unfoldable pub give_back : Feed → Option Failure → Scheduler → Scheduler
unfolding done_with_solver done_with_chromium
give_back f e s =
    let s1 = if not (is_nil e) || not (articles_use_solver f) then done_with_solver f.id s else s in
    let s2 =
      if not (is_nil e) || not (articles_use_chromium f) then done_with_chromium f.id s1 else s1 in
    if is_nil e && wants_full f.recipe.full then done_with_chromium f.id s2 else s2

-- The request to the store, from the articles and the extraction after `conditional`.
unfoldable pub save_of : Feed → List Item → Extraction → Save
save_of f items y = record {
  feed = f;
  items = items;
  etag = y.result.etag;
  modified = y.result.last_modified;
  status = y.result.status;
  failure = y.failure;
  retry_after = retry_of (http_of y.failure) y.result.retry_after;
  attempts = y.attempts;
}

-- A failure while the server stops is discarded; any other result is saved.
unfoldable pub conclude : World → Feed → ArticleRun → Save → Scheduler → Alerts → Refreshed
unfolding after_save
conclude w f run save s a =
    if not (is_nil save.failure) && w.stopping
    then record { scheduler = s; alerts = a; save = none; events = [] }
    else after_save w f run save (w.store save) s a

-- `refresh`
unfoldable pub refresh : World → Feed → Scheduler → Alerts → Refreshed
unfolding list_page articles_of conditional conclude give_back save_of
refresh w f s a =
    let (f', x) = list_page w f s in
    let (run, items, attempts) = articles_of w f' x in
    let save = save_of f' items (conditional f' (record x { attempts = attempts })) in
    conclude w f' run save (give_back f' x.failure s) a
