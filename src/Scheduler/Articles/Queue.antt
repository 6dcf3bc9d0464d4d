-- ===== src/Scheduler/Articles/Queue.antt =====
-- Which stories a round of article fetching reaches, and what it leaves.
use rss_workshop.Common.{
  ℕ, zero, suc, ◌≤◌, ◌≡◌, refl, ap, ◌∙◌, String, Bool, List, [], ◌∷◌, ◌++◌, map, if◌then◌else◌,
  length, take, arith, Bool-cases, inl, inr, length-take,
}
use rss_workshop.Common.Assoc.{Assoc}
use rss_workshop.Common.Result.{Result, ok, err}
use rss_workshop.Model.Text.{Text}
use rss_workshop.Model.Item.{Time, Item}
use rss_workshop.Model.Feed.{Feed}
use rss_workshop.Scheduler.Articles.{
  ArticleState, ArticleRun, wants_articles, missing, recent, select, targets, Target, send, fill,
  receive, receive_all, fetch_articles, max_articles_per_run, preview_articles,
}

-- An item but for its article body.
abbrev pub outline : Item → Item
outline it = record it { full_html = [] }

fill-outline :
    (i : ℕ) (body : Text) (its : List Item) → map outline (fill i body its) ≡ map outline its
unfolding fill
fill-outline i body [] = refl
fill-outline zero body (x ∷ xs) = refl
fill-outline (suc i) body (x ∷ xs) = ap (◌∷◌ (outline x)) (fill-outline i body xs)

receive-outline :
    (r : Result String Text) (t : Target) (run : ArticleRun) (its : List Item)
    → map outline (receive r t (run, its)).1 ≡ map outline its
unfolding receive
receive-outline (err e) t run its = refl
receive-outline (ok body) t run its = fill-outline t.0 body its

receive_all-outline :
    (fetch : Target → Result String Text) (ts : List Target) (run : ArticleRun) (its : List Item)
    → map outline (receive_all fetch ts (run, its)).1 ≡ map outline its
unfolding receive_all
receive_all-outline fetch [] run its = refl
receive_all-outline fetch (t ∷ ts) run its =
    let (run', its') = receive (fetch t) t (run, its) in
    receive_all-outline fetch ts run' its' ∙ receive-outline (fetch t) t run its

-- Fetching articles neither drops, adds nor reorders stories, and changes nothing of a story but
-- its article body, whatever is fetched and whenever the deadline passes.
pub fetch_articles-outline :
    (preview : Bool) (now : Time) (expired : ℕ → Bool × Bool) (fetch : Target → Result String Text)
    (f : Feed) (known : Assoc ArticleState) (items : List Item)
    → map outline (fetch_articles preview now expired fetch f known items).1 ≡ map outline items
unfolding fetch_articles
fetch_articles-outline preview now expired fetch f known items =
    elim (Bool-cases (wants_articles f.recipe.full)) [
      | inl w ↦
          rw w
            (receive_all-outline fetch (send expired 0 (targets preview now known items)).0 _ items)
      | inr w ↦ rw w refl
    ]

send-prefix :
    (expired : ℕ → Bool × Bool) (q : ℕ) (ts : List Target)
    → (send expired q ts).0 ≡ take (length (send expired q ts).0) ts
unfolding send
send-prefix expired q [] = refl
send-prefix expired q (t ∷ ts) = ground (arith, send-prefix expired (suc q) ts)

length-take_of-le {ℓ} : {A : Type ℓ} (n : ℕ) (xs : List A) → length (take n xs) ≤ n
length-take_of-le n xs = omega (arith, length-take n xs)

send-length-le :
    (expired : ℕ → Bool × Bool) (ts : List Target) (limit : ℕ)
    → length ts ≤ limit
    → length (send expired 0 ts).0 ≤ limit
send-length-le expired ts limit h =
    omega
      (arith, ap length (send-prefix expired 0 ts), length-take (length (send expired 0 ts).0) ts)

module _ (preview : Bool) (now : Time) (expired : ℕ → Bool × Bool)
    (fetch : Target → Result String Text) (f : Feed) (known : Assoc ArticleState)
    (items : List Item) where
  abbrev pub sent_targets : List Target
  sent_targets = (send expired 0 (targets preview now known items)).0

  abbrev pub queued_count : ℕ
  queued_count = (send expired 0 (targets preview now known items)).1

  abbrev pub without_body : List Target
  without_body = select preview now known missing 0 items

  -- A round fetches at most 10 pages, and a preview at most 3.
  pub sent-le : length sent_targets ≤ (if preview then preview_articles else max_articles_per_run)
  unfolding targets
  sent-le =
      let limit = if preview then preview_articles else max_articles_per_run in
      let queue =
        select preview now known missing 0 items ++ select preview now known recent 0 items in
      send-length-le expired (targets preview now known items) limit (length-take_of-le limit queue)
