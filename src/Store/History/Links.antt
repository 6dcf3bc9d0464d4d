-- ===== src/Store/History/Links.antt =====
-- Every feed's library filters stay stored and its merged rules compile.
use rss_workshop.Store.Switches.{delete_feed}
use rss_workshop.Common.{
  ℕ, ◌≡◌, refl, ◌∙◌, String, ◌==◌, Option, none, some, [], inl, inr, Bool-cases, Option-cases,
}
use rss_workshop.Common.Assoc.{lookup}
use rss_workshop.Common.Result.{ok, Returns, Returns-ok, Returns-err}
use rss_workshop.Model.Item.{Time}
use rss_workshop.Model.Feed.{Feed, Recipe}
use rss_workshop.Filter.Text.{Libraries}
use rss_workshop.Filter.Compile.{Matcher, compile}
use rss_workshop.Store.Rows.{FeedRow, Database}
use rss_workshop.Store.Complete.{Outcome, deleted, stale, settle, schedule, complete_row, complete}
use rss_workshop.Store.Library.{effective_recipe, with_rules, feed_of}
use rss_workshop.Store.Library.Links.{links_at-found, links_at_absent}
use rss_workshop.Store.Library.Effective.{effective_recipe-with_rules}
use rss_workshop.Store.Library.Relink.{SameLinks}
use rss_workshop.Store.History.{
  Step, completed, saved, imported, filter_saved, filter_deleted, enabled_set, token_rotated,
  queued, feed_deleted, Reachable, start, next,
}
use rss_workshop.Store.Library.Good.{
  AllGood, delete-AllRefreshable, store_row-AllRefreshable, save_filter-AllGood,
  delete_filter-AllGood,
}
use rss_workshop.Store.Edit.Good.{
  save-AllGood, import_feeds-AllGood, set_enabled-AllGood, rotate_token-AllGood, queue-AllGood,
}

module _ (lib : Libraries) where
  -- `CompleteWithDiagnostics`
  settle-SameLinks :
      (safe_text : String → ℕ → String) (guid_of : String → String → String)
      (first_byte : String → ℕ) (max_items : ℕ) (now : Time) (f : Feed) (o : Outcome)
      (failure : Option String) (row : FeedRow)
      → SameLinks row (settle safe_text guid_of first_byte max_items now f o failure row)
  unfolding settle
  settle-SameLinks safe_text guid_of first_byte max_items now f o none row = (refl, refl)
  settle-SameLinks safe_text guid_of first_byte max_items now f o (some e) row = (refl, refl)

  complete_row-SameLinks :
      (safe_text : String → ℕ → String) (guid_of : String → String → String)
      (first_byte : String → ℕ) (max_items : ℕ) (now : Time) (f : Feed) (o : Outcome) (run_id : ℕ)
      (row : FeedRow)
      → SameLinks row (complete_row safe_text guid_of first_byte max_items now f o run_id row)
  unfolding complete_row schedule
  complete_row-SameLinks safe_text guid_of first_byte max_items now f o run_id row =
      settle-SameLinks safe_text guid_of first_byte max_items now f o o.failure row

  complete-AllGood :
      (safe_text : String → ℕ → String) (guid_of : String → String → String)
      (first_byte : String → ℕ) (max_items : ℕ) (now : Time) (f : Feed) (o : Outcome)
      (db : Database)
      → AllGood lib db
      → Returns (AllGood lib) (complete safe_text guid_of first_byte max_items now f o db)
  unfolding complete
  complete-AllGood safe_text guid_of first_byte max_items now f o db all =
      elim (Option-cases (lookup f.id db.feeds)) [
        | inl e ↦ rw (complete, e) (Returns-err deleted)
        | inr (row, e) ↦ elim (Bool-cases (row.version == f.version)) [
          | inl same ↦
              rw (complete, e, same)
                (Returns-ok _ (
                  store_row-AllRefreshable lib db.filters db.feeds f.id row _ e
                    (complete_row-SameLinks safe_text guid_of first_byte max_items now f o
                      db.next_id row)
                    all))
          | inr other ↦ rw (complete, e, other) (Returns-err stale)
        ]
      ]

module _ (lib : Libraries) (safe_text : String → ℕ → String) (guid_of : String → String → String)
    (first_byte : String → ℕ) (max_items : ℕ) where
  Step-AllGood :
      {db db' : Database}
      → Step lib safe_text guid_of first_byte max_items db db'
      → AllGood lib db
      → AllGood lib db'
  unfolding delete_feed
  Step-AllGood (completed {db} {db'} now f o e) all =
      (complete-AllGood lib safe_text guid_of first_byte max_items now f o db all).at db' e
  Step-AllGood (saved {db} {db'} now new_id new_token f links options id e) all =
      (save-AllGood lib now new_id new_token f links options db all).at (id, db') e
  Step-AllGood (imported {db} {db'} now entries e) all =
      (import_feeds-AllGood lib now entries db all).at db' e
  Step-AllGood (filter_saved {db} {db'} now new_id lf options id e) all =
      (save_filter-AllGood lib now new_id lf options db all).at (id, db') e
  Step-AllGood (filter_deleted {db} {db'} id e) all = (delete_filter-AllGood lib id db all).at db' e
  Step-AllGood (enabled_set {db} {db'} now id enabled e) all =
      (set_enabled-AllGood lib now id enabled db all).at db' e
  Step-AllGood (token_rotated {db} {db'} token id e) all =
      (rotate_token-AllGood lib token id db all).at db' e
  Step-AllGood (queued {db} now id) all = queue-AllGood lib now id db all
  Step-AllGood (feed_deleted {db} id) all = delete-AllRefreshable lib db.filters db.feeds id all

  Reachable-AllGood :
      {db : Database} → Reachable lib safe_text guid_of first_byte max_items db → AllGood lib db
  unfolding lookup
  Reachable-AllGood start =
      λ id links recipe at. absurd (let missing = links_at_absent id [] refl in cc)
  Reachable-AllGood (next before step) = Step-AllGood step (Reachable-AllGood before)

  -- After any transactions from the empty tables, a stored feed whose recipe can be read has an
  -- effective recipe, and the rules of that recipe compile.
  pub Reachable-effective_recipe :
      {db : Database} (id : String) (row : FeedRow) (r : Recipe)
      → Reachable lib safe_text guid_of first_byte max_items db
      → lookup id db.feeds ≡ some row
      → row.recipe ≡ some r
      → (merged : Recipe) × (m : Matcher) × (effective_recipe db.filters (feed_of id r row)
          ≡ ok merged)
        × (compile lib merged.filters ≡ ok m)
  Reachable-effective_recipe {db} id row r h found readable =
      let good =
        Reachable-AllGood h id row.filter_ids (some r)
          (links_at-found id db.feeds row found ∙ rw readable) in
      (
        with_rules r good.shared,
        good.compiles.0,
        effective_recipe-with_rules db.filters (feed_of id r row) good.shared good.reads,
        good.compiles.1,
      )
