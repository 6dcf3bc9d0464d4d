-- ===== src/Scheduler/Backlog/Drain.antt =====
-- A backlog drains for a bounded number of refreshes.
use rss_workshop.Common.{ℕ, suc, ◌≡◌, Bool, true, false, String, some, List}
use rss_workshop.Common.Assoc.{Assoc}
use rss_workshop.Common.Result.{Result}
use rss_workshop.Model.Text.{Text}
use rss_workshop.Model.Item.{Time, Item}
use rss_workshop.Model.Feed.{Feed}
use rss_workshop.Scheduler.Slots.{Scheduler}
use rss_workshop.Scheduler.Articles.{ArticleState, Target, fetch_articles}
use rss_workshop.Scheduler.Backlog.{draining, record_backlog}

-- `n` refreshes in a row of an unchanged list page, each of which leaves the feed draining. Each
-- reads the article states, first the given ones, and reads them again after its save; the next
-- starts with the same states. No read fails, and nothing else changes the stories in between.
pub data Drains (f : Feed) (items : List Item) : Assoc ArticleState → ℕ → Type 0 where
  done : (known : Assoc ArticleState) → Drains f items known 0
  again :
      {known : Assoc ArticleState} {n : ℕ} (now : Time) (expired : ℕ → Bool × Bool)
      (fetch : Target → Result String Text) (s : Scheduler) (after : Assoc ArticleState)
      → draining f
          (record_backlog (some after) f (fetch_articles false now expired fetch f known items).0 s)
        ≡ true
      → Drains f items after n
      → Drains f items known (suc n)
