-- ===== src/Scheduler/Preview.antt =====
-- internal/scheduler/scheduler.go: `Preview` and `Snapshot`, the jobs that an operator waits for.
-- `id` is the fresh store.ID() of the job. The scheduler after a job is `none` where its release
-- would block for ever.
pub mod Balance
use rss_workshop.Common.{
  ℕ, String, str_eq, Bool, true, false, not, ◌&&◌, ◌||◌, Option, none, some, List, [], ◌++◌, map,
  if◌then◌else◌,
}
use rss_workshop.Common.Result.{Result, ok, err}
use rss_workshop.Model.Text.{Text}
use rss_workshop.Model.Item.{Time}
use rss_workshop.Model.Feed.{Feed, Recipe}
use rss_workshop.Scheduler.Slots.{
  Scheduler, Services, Chromium, no_chromium, share_chromium, Refusal, uses_solver, renders_pages,
  articles_use_solver, articles_use_chromium, reserve, release, done_with_solver,
  done_with_chromium,
}
use rss_workshop.Scheduler.Articles.{Target, fetch_articles}
use rss_workshop.Scheduler.Extract.{
  Failure, plain, Page, no_result, Preview, Pages, extract, is_nil, solve,
}

-- The admissions that a preview gives back after its list page.
unfoldable pub give_back_early : String → Feed → Option Failure → Scheduler → Scheduler
unfolding done_with_solver done_with_chromium
give_back_early id f e s =
    let t = if not (is_nil e) || not (articles_use_solver f) then done_with_solver id s else s in
    if not (is_nil e) || not (articles_use_chromium f) then done_with_chromium id t else t

-- What the articles of a preview read: the clock, the deadline and the fetched pages.
pub record Sample : Type 0 where
  pub now : Time
  pub expired : ℕ → Bool × Bool
  pub fetch : Target → Result String Text
  pub article_warning : Text × String → String

-- `p`, with the warnings of the articles.
unfoldable pub with_articles : Sample → Feed → Option Failure → Preview → Preview
unfolding fetch_articles
with_articles w f e p =
    let run = (fetch_articles true w.now w.expired w.fetch f [] p.items).0 in
    let items = (fetch_articles true w.now w.expired w.fetch f [] p.items).1 in
    if is_nil e
    then record p { items = items; warnings = p.warnings ++ map w.article_warning run.warnings }
    else p

-- `Preview`
unfoldable pub preview :
    Services
    → Pages
    → Sample
    → String
    → Feed
    → Scheduler
    → Result Refusal (Preview × Option Failure) × Option Scheduler
unfolding reserve release give_back_early with_articles extract uses_solver renders_pages
preview v pages w id f s =
    let browser = if renders_pages f then share_chromium else no_chromium in
    elim (reserve v id (uses_solver v f.recipe.mode) browser 0 s) [
      | err e ↦ (err e, some s)
      | ok t ↦
          let x = extract pages f true t in
          (
            ok (with_articles w f x.failure x.preview, x.failure),
            release id (give_back_early id f x.failure t),
          )
    ]

pub data SnapshotError : Type 0 where
  bad_request : String → SnapshotError
  not_admitted : Refusal → SnapshotError

-- The fetch of a snapshot in the recipe's mode.
unfoldable pub load : Pages → String → Recipe → Page
unfolding solve
load pages url r =
    if str_eq r.mode "flaresolverr"
    then solve pages url
    else if str_eq r.mode "browser"
    then elim pages.render [
      | none ↦ (no_result, some (plain "browser rendering is unavailable on this server"))
      | some render ↦ render url r.wait_selector r.settle_ms
    ]
    else pages.static false url "" ""

abbrev known_mode : String → Bool
known_mode m = str_eq m "static" || str_eq m "browser" || str_eq m "flaresolverr"

-- The checks before a job is admitted.
unfoldable pub snapshot_error : Pages → String → Recipe → Option String
snapshot_error pages url r = elim (pages.validate_url url) [
  | some e ↦ some e
  | none ↦ elim (pages.validate_render r) [
    | some e ↦ some e
    | none ↦
        if known_mode r.mode
        then none
        else some "choose static, browser, or flaresolverr for the page preview"
  ]
]

-- `Snapshot`
unfoldable pub snapshot :
    Services
    → Pages
    → String
    → String
    → Recipe
    → Scheduler
    → Result SnapshotError Page × Option Scheduler
unfolding snapshot_error reserve release load uses_solver
snapshot v pages id url r s = elim (snapshot_error pages url r) [
  | some e ↦ (err (bad_request e), some s)
  | none ↦
      let browser = if str_eq r.mode "browser" then share_chromium else no_chromium in
      elim (reserve v id (uses_solver v r.mode) browser 0 s) [
        | err e ↦ (err (not_admitted e), some s)
        | ok t ↦ (ok (load pages url r), release id t)
      ]
]
