-- ===== src/Scheduler/Articles.antt =====
-- internal/scheduler/article.go: `fetchArticles`, which fills in the article bodies of listed
-- stories. What a page fetch returns, and when the deadline passes, are arguments. The workers'
-- results are taken in the order of the queue; a real run may list its warnings in another order.
pub mod Queue
use rss_workshop.Common.{
  ℕ, zero, suc, ◌+◌, ◌-◌, ◌*◌, ◌≤◌, min, String, str_eq, Bool, true, false, not, ◌&&◌, ◌||◌, Option,
  none, some, List, [], ◌∷◌, ◌++◌, map, leb, ◌==◌, if◌then◌else◌, length, take, drop,
}
use rss_workshop.Common.Assoc.{Assoc, lookup}
use rss_workshop.Common.Result.{Result, ok, err}
use rss_workshop.Model.Text.{Text}
use rss_workshop.Model.Item.{Time, Item}
use rss_workshop.Model.Feed.{Feed, FullContent}
use rss_workshop.Scheduler.Slots.{
  Services, chromium_slots, articles_use_solver, articles_use_chromium,
}
use rss_workshop.Scheduler.Holds.{hour}

abbrev pub max_articles_per_run : ℕ
max_articles_per_run = 10

abbrev pub article_workers : ℕ
article_workers = 4

abbrev pub preview_articles : ℕ
preview_articles = 3

-- store.ArticleState
pub record ArticleState : Type 0 where
  pub has_body : Bool
  pub first_seen : Time

pub record ArticleRun : Type 0 where
  pub warnings : List (Text × String)
  pub fetched : List String
  pub left : List String
  pub listed : List String
  pub had : ℕ

abbrev pub no_run : ArticleRun
no_run = record { warnings = []; fetched = []; left = []; listed = []; had = 0 }

-- Whether the recipe asks for article bodies.
abbrev pub wants_articles : Option FullContent → Bool
wants_articles none = false
wants_articles (some c) = not (str_eq c.selector "")

abbrev is_empty : Text → Bool
is_empty [] = true
is_empty (_ ∷ _) = false

-- The switch over a listed story, at the time `now`.
pub data Need : Type 0 where
  missing recent settled : Need

unfoldable pub need_of : Bool → Time → Option ArticleState → Need
need_of true now prior = missing
need_of false now none = missing
need_of false now (some a) =
    if not a.has_body
    then missing
    else if a.first_seen == 0 || leb now (a.first_seen + hour)
    then recent
    else settled

-- The story at a place of the list, the place first.
abbrev pub Target : Type 0
Target = ℕ × Item

-- The loop over the items, from place `i`: those with a link whose need is the given one.
unfoldable pub select : Bool → Time → Assoc ArticleState → Need → ℕ → List Item → List Target
unfolding need_of
select preview now known want i [] = []
select preview now known want i (it ∷ its) =
    let rest = select preview now known want (suc i) its in
    if is_empty it.url then rest else elim (need_of preview now (lookup it.key known)) [
      | missing ↦ elim want [ missing ↦ (i, it) ∷ rest | _ ↦ rest ]
      | recent ↦ elim want [ recent ↦ (i, it) ∷ rest | _ ↦ rest ]
      | settled ↦ rest
    ]

-- `run.listed`
unfoldable pub listed_keys : List Item → List String
listed_keys [] = []
listed_keys (it ∷ its) = if is_empty it.url then listed_keys its else it.key ∷ listed_keys its

abbrev body_count : Option ArticleState → ℕ
body_count none = 0
body_count (some a) = if a.has_body then 1 else 0

-- `run.had`
unfoldable pub had_bodies : Assoc ArticleState → List Item → ℕ
had_bodies known [] = 0
had_bodies known (it ∷ its) =
    if is_empty it.url
    then had_bodies known its
    else body_count (lookup it.key known) + had_bodies known its

-- `targets`, cut to the limit.
unfoldable pub targets : Bool → Time → Assoc ArticleState → List Item → List Target
unfolding select
targets preview now known its =
    take (if preview then preview_articles else max_articles_per_run)
      (select preview now known missing 0 its ++ select preview now known recent 0 its)

-- `workers`
unfoldable pub worker_count : Services → Feed → ℕ
worker_count v f =
    if articles_use_solver f || (articles_use_chromium f && not (chromium_slots v == 0))
    then 1
    else article_workers

-- The sending loop. Before and after each send the deadline is looked at: for each target, whether
-- it had passed then. Returns the stories handed to a worker and `queued`.
unfoldable pub send : (ℕ → Bool × Bool) → ℕ → List Target → List Target × ℕ
send expired queued [] = ([], queued)
send expired queued (t ∷ ts) =
    let (before, after) = expired queued in
    let (sent, n) = send expired (suc queued) ts in
    if before then ([], queued) else if after then (t ∷ [], queued) else (t ∷ sent, n)

-- `items[i].FullHTML = body`
unfoldable pub fill : ℕ → Text → List Item → List Item
fill i body [] = []
fill zero body (x ∷ xs) = record x { full_html = body } ∷ xs
fill (suc i) body (x ∷ xs) = x ∷ fill i body xs

-- One result of a worker, into the run and the items.
unfoldable pub receive :
    Result String Text → Target → ArticleRun × List Item → ArticleRun × List Item
unfolding fill
receive (err e) (i, it) (run, its) =
    (record run { warnings = run.warnings ++ ((it.title, e) ∷ []) }, its)
receive (ok body) (i, it) (run, its) = (
  if is_empty body then run else record run { fetched = run.fetched ++ (it.key ∷ []) },
  fill i body its,
)

unfoldable pub receive_all :
    (Target → Result String Text) → List Target → ArticleRun × List Item → ArticleRun × List Item
unfolding receive
receive_all fetch [] out = out
receive_all fetch (t ∷ ts) out = receive_all fetch ts (receive (fetch t) t out)

abbrev pub keys_of : List Target → List String
keys_of [] = []
keys_of (t ∷ ts) = t.1.key ∷ keys_of ts

-- `fetchArticles`
unfoldable pub fetch_articles :
    Bool
    → Time
    → (ℕ → Bool × Bool)
    → (Target → Result String Text)
    → Feed
    → Assoc ArticleState
    → List Item
    → ArticleRun × List Item
unfolding targets send receive_all had_bodies listed_keys
fetch_articles preview now expired fetch f known items =
    let (sent, queued) = send expired 0 (targets preview now known items) in
    let without_body = select preview now known missing 0 items in
    let run : ArticleRun = record no_run {
      listed = listed_keys items;
      had = had_bodies known items;
    } in
    let (run', items') = receive_all fetch sent (run, items) in
    if wants_articles f.recipe.full
    then (
      record run' { left = keys_of (drop (min queued (length without_body)) without_body) },
      items',
    )
    else (no_run, items)
