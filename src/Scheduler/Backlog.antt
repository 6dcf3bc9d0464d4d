-- ===== src/Scheduler/Backlog.antt =====
-- internal/scheduler/backlog.go: whether a full-content feed is fetched without its validators
-- because stories still wait for their article bodies.
pub mod Drain
use rss_workshop.Common.{
  ℕ, ◌+◌, ◌<◌, String, str_eq, Bool, true, false, not, ◌&&◌, ◌||◌, Option, none, some, List, [],
  ◌∷◌, ltb, leb, if◌then◌else◌, length,
}
use rss_workshop.Common.Assoc.{Assoc, lookup, insert}
use rss_workshop.Model.Feed.{Feed, FullContent}
use rss_workshop.Scheduler.Slots.{Scheduler}
use rss_workshop.Scheduler.Holds.{live_ids, keep}
use rss_workshop.Scheduler.Articles.{ArticleState, ArticleRun, wants_articles}

unfoldable pub draining : Feed → Scheduler → Bool
draining f s =
    wants_articles f.recipe.full
    && elim (lookup f.id s.backlog) [ none ↦ true | some backlog ↦ backlog ]

abbrev pub has_body : Option ArticleState → Bool
has_body none = false
has_body (some a) = a.has_body

-- The two loops of `progressed`: the listed stories stored with a body, and whether a story that
-- was left is stored without one.
unfoldable pub bodies_stored : Assoc ArticleState → List String → ℕ
bodies_stored stored [] = 0
bodies_stored stored (k ∷ ks) =
    if has_body (lookup k stored) then 1 + bodies_stored stored ks else bodies_stored stored ks

abbrev lacks_body : Option ArticleState → Bool
lacks_body none = false
lacks_body (some a) = not a.has_body

unfoldable pub some_waiting : Assoc ArticleState → List String → Bool
some_waiting stored [] = false
some_waiting stored (k ∷ ks) = lacks_body (lookup k stored) || some_waiting stored ks

-- `progressed`; `none` is a failed read of the article states.
unfoldable pub progressed : Option (Assoc ArticleState) → ArticleRun → Bool
unfolding bodies_stored some_waiting
progressed none run = false
progressed (some stored) run =
    ltb run.had (bodies_stored stored run.listed) && some_waiting stored run.left

abbrev is_empty_list : List String → Bool
is_empty_list [] = true
is_empty_list (_ ∷ _) = false

-- The flag that `recordBacklog` stores.
unfoldable pub backlog_of : Option (Assoc ArticleState) → ArticleRun → Bool
unfolding progressed
backlog_of stored run =
    not (is_empty_list run.left) && not (is_empty_list run.fetched) && progressed stored run

unfoldable pub record_backlog :
    Option (Assoc ArticleState) → Feed → ArticleRun → Scheduler → Scheduler
unfolding backlog_of
record_backlog stored f run s =
    if wants_articles f.recipe.full
    then record s { backlog = insert f.id (backlog_of stored run) s.backlog }
    else s

unfoldable pub forget_backlog : List Feed → Scheduler → Scheduler
unfolding keep live_ids
forget_backlog fs s = record s { backlog = keep (live_ids fs) s.backlog }
