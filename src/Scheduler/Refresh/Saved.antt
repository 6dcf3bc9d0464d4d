-- ===== src/Scheduler/Refresh/Saved.antt =====
-- internal/scheduler/scheduler.go: what a refresh asks the store to save.
use rss_workshop.Common.{
  ◌≡◌, false, ◌&&◌, Option, none, some, List, ◌==◌, if◌then◌else◌, map, arith, inl, inr,
  Option-cases,
}
use rss_workshop.Model.Feed.{Feed}
use rss_workshop.Model.Item.{Item}
use rss_workshop.Scheduler.Articles.Queue.{outline, fetch_articles-outline}
use rss_workshop.Scheduler.Extract.{Failure, Attempt, Extraction, plain, is_nil}
use rss_workshop.Scheduler.Refresh.{
  World, Save, known_states, articles_of, conditional, save_of, or_else, never_succeeded,
}

-- How the page of a refresh failed, if it did.
abbrev pub page_failure : Feed → Extraction → Option Failure
page_failure f x = elim x.failure [
  | some e ↦ some e
  | none ↦
      if x.result.status == 304 && f.last_success == 0 then some (plain never_succeeded) else none
]

-- `v` is what the refresh of `f` has to save, having fetched and extracted `x`.
pub record IsSaveOf (f : Feed) (x : Extraction) (v : Save) : Type 0 where
  feed : v.feed ≡ f
  failure : v.failure ≡ page_failure f x
  status : v.status ≡ x.result.status
  items : map outline v.items ≡ map outline x.preview.items
  etag : v.etag ≡ (
      if is_nil v.failure && (x.result.status == 304)
      then or_else x.result.etag f.etag
      else x.result.etag)
  modified : v.modified ≡ (
      if is_nil v.failure && (x.result.status == 304)
      then or_else x.result.last_modified f.last_modified
      else x.result.last_modified)

articles_of-outline :
    (w : World) (f : Feed) (x : Extraction)
    → map outline (articles_of w f x).1 ≡ map outline x.preview.items
unfolding articles_of
articles_of-outline w f x = ground (
  arith,
  fetch_articles-outline false w.now w.expired w.fetch f (known_states w.states) x.preview.items,
)

conditional-IsSaveOf :
    (f : Feed) (x : Extraction) (items : List Item) (attempts : List Attempt)
    → map outline items ≡ map outline x.preview.items
    → IsSaveOf f x (save_of f items (conditional f (record x { attempts = attempts })))
unfolding conditional save_of
conditional-IsSaveOf f x items attempts h = elim (Option-cases x.failure) [
  | inr (e, p) ↦ ground arith
  | inl p ↦ ground arith
]

pub save_of-IsSaveOf :
    (w : World) (f : Feed) (x : Extraction)
    → let (run, items, attempts) = articles_of w f x in
      IsSaveOf f x (save_of f items (conditional f (record x { attempts = attempts })))
save_of-IsSaveOf w f x =
    let (run, items, attempts) = articles_of w f x in
    conditional-IsSaveOf f x items attempts (articles_of-outline w f x)
