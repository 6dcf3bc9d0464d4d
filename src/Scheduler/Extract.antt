-- ===== src/Scheduler/Extract.antt =====
-- internal/scheduler/scheduler.go and article.go: `extract`, `solve`, `Snapshot` and `article`,
-- which fetch a page in a feed's mode and extract it. The fetchers are interfaces of the source,
-- and the extraction is another package: both are fields of `Pages`.
pub mod Attempts
use rss_workshop.Common.{
  ℕ, String, str_eq, Bool, true, false, not, ◌&&◌, ◌||◌, Option, none, some, List, [], ◌∷◌, ◌++◌,
  ◌==◌, if◌then◌else◌, length,
}
use rss_workshop.Common.Int.{ℤ}
use rss_workshop.Common.Result.{Result, ok, err}
use rss_workshop.Model.Text.{Text}
use rss_workshop.Model.Item.{Item}
use rss_workshop.Model.Feed.{Feed, Recipe, FullContent}
use rss_workshop.Scheduler.Slots.{Scheduler}
use rss_workshop.Scheduler.Backlog.{draining}

-- fetch.HTTPError
pub record HttpError : Type 0 where
  pub status : ℕ
  pub retry_after : ℕ

-- A Go error: its text, the HTTPError in its chain, and whether it is extract.ErrNoItems.
pub record Failure : Type 0 where
  pub text : String
  pub http : Option HttpError
  pub no_items : Bool

abbrev pub plain : String → Failure
plain t = record { text = t; http = none; no_items = false }

-- fetch.Result
pub record FetchResult : Type 0 where
  pub body : Text
  pub url : String
  pub status : ℕ
  pub etag : String
  pub last_modified : String
  pub retry_after : ℕ

abbrev pub no_result : FetchResult
no_result = record {
  body = [];
  url = "";
  status = 0;
  etag = "";
  last_modified = "";
  retry_after = 0;
}

-- What a fetch returns, a result beside the error.
abbrev pub Page : Type 0
Page = FetchResult × Option Failure

-- model.Preview without its filter examples, which only a preview shows, and its diagnostics, which
-- `extract` returns beside it.
pub record Preview : Type 0 where
  pub matches : ℕ
  pub valid : ℕ
  pub filtered : ℕ
  pub items : List Item
  pub warnings : List String

abbrev pub no_preview : Preview
no_preview = record { matches = 0; valid = 0; filtered = 0; items = []; warnings = [] }

-- model.FetchAttempt without its duration.
pub record Attempt : Type 0 where
  pub mode : String
  pub outcome : String
  pub stage : String
  pub status : ℕ
  pub bytes : ℕ
  pub counts : Option (ℕ × ℕ × ℕ)
  pub filtered : ℕ
  pub error : String
  pub warnings : List String

-- `static` is told whether the list is a feed source. `render` and `solver` are none when they
-- are not configured. `run` is extract.Run and `body` extract.Article.
pub record Pages : Type 0 where
  pub static : (as_feed : Bool) → (url etag modified : String) → Page
  pub render : Option ((url wait_selector : String) → ℤ → Page)
  pub solver : Option ((url : String) → Page)
  pub run : FetchResult → Recipe → Preview × Option Failure
  pub article_body : FetchResult → Recipe → Result String Text
  pub validate_url : String → Option String
  pub validate_render : Recipe → Option String

pub record Extraction : Type 0 where
  pub result : FetchResult
  pub preview : Preview
  pub failure : Option Failure
  pub attempts : List Attempt

abbrev pub http_of : Option Failure → Option HttpError
http_of none = none
http_of (some e) = e.http

-- The status of an HTTPError replaces the result's.
abbrev with_status : Option HttpError → FetchResult → FetchResult
with_status none r = r
with_status (some h) r = record r { status = h.status }

abbrev outcome_of : ℕ → Option Failure → String
outcome_of status none = if status == 304 then "not_modified" else "success"
outcome_of status (some e) = "failed"

abbrev pub text_of : Option Failure → String
text_of none = ""
text_of (some e) = e.text

abbrev pub is_nil : Option Failure → Bool
is_nil none = true
is_nil (some _) = false

abbrev pub is_no_items : Option Failure → Bool
is_no_items none = false
is_no_items (some e) = e.no_items

module _ (pages : Pages) where
  -- `attempt`: a page, which is extracted if it was fetched and is not a 304.
  unfoldable pub attempt : String → Recipe → Page → Extraction
  attempt mode recipe (r, e) =
      let r' = with_status (http_of e) r in
      let (p, e') = pages.run r' recipe in
      let fetched : Extraction = record {
        result = r';
        preview = no_preview;
        failure = e;
        attempts =
            record {
              mode = mode;
              outcome = outcome_of r'.status e;
              stage = "fetch";
              status = r'.status;
              bytes = length r.body;
              counts = none;
              filtered = 0;
              error = text_of e;
              warnings = [];
            }
            ∷ [];
      } in
      let extracted : Extraction = record {
        result = r';
        preview = p;
        failure = e';
        attempts =
            record {
              mode = mode;
              outcome = outcome_of r'.status e';
              stage = "extract";
              status = r'.status;
              bytes = length r.body;
              counts = some (p.matches, p.valid, length p.items);
              filtered = p.filtered;
              error = text_of e';
              warnings = p.warnings;
            }
            ∷ [];
      } in
      if is_nil e && not (r'.status == 304) then extracted else fetched

  unfoldable pub solve : String → Page
  solve url = elim pages.solver [
    | none ↦ (no_result, some (plain "FlareSolverr is not configured on this server"))
    | some fetch ↦ fetch url
  ]

  unfoldable pub render_page : String → String → ℤ → Page
  render_page url wait settle = elim pages.render [
    | none ↦ (no_result, some (plain "browser rendering is unavailable"))
    | some render ↦ render url wait settle
  ]

  -- Whether the Auto mode renders the page after the static attempt.
  abbrev pub falls_back : Feed → Extraction → Bool
  falls_back f x =
      elim x.attempts [ [] ↦ false | a ∷ _ ↦ str_eq a.stage "extract" ]
      && str_eq f.recipe.mode "auto"
      && is_no_items x.failure

  -- The two early returns; the attempts of a fallback keep the static one.
  abbrev pub choose : Bool → Bool → Bool → Extraction → Extraction → Extraction → Extraction
  choose in_solver in_browser fallback solved rendered fixed =
      if in_solver
      then solved
      else if in_browser
      then rendered
      else if fallback
      then record rendered { attempts = fixed.attempts ++ rendered.attempts }
      else fixed

  -- `extract`
  unfoldable pub extract : Feed → Bool → Scheduler → Extraction
  unfolding attempt solve render_page draining
  extract f preview s =
      let fresh = preview || draining f s in
      let etag = if fresh then "" else f.etag in
      let modified = if fresh then "" else f.last_modified in
      let fixed =
        attempt "static" f.recipe
          (pages.static (str_eq f.recipe.type "feed") f.url etag modified) in
      let rendered =
        attempt "browser" f.recipe (render_page f.url f.recipe.wait_selector f.recipe.settle_ms) in
      choose (str_eq f.recipe.mode "flaresolverr") (str_eq f.recipe.mode "browser")
        (falls_back f fixed) (attempt "flaresolverr" f.recipe (solve f.url)) rendered fixed

  -- `article`, for a recipe whose article settings are `c`.
  unfoldable pub article : Recipe → FullContent → String → Result String Text
  unfolding solve
  article recipe c url =
      if not c.browser
      then from_page (pages.static false url "" "")
      else if str_eq recipe.mode "flaresolverr"
      then from_page (solve url)
      else elim pages.render [
        | none ↦ err "browser rendering is unavailable for article pages"
        | some render ↦ from_page (render url "" recipe.settle_ms)
      ]
    where
      from_page : Page → Result String Text
      from_page (r, some e) = err e.text
      from_page (r, none) =
          if r.status == 304
          then err "source returned 304 for an article page"
          else pages.article_body r recipe
