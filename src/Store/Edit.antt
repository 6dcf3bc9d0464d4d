-- ===== src/Store/Edit.antt =====
-- internal/store/save.go, import.go and the small writes of store.go: SaveWithOptions and the
-- operations that pause, queue, delete and rename a feed. A recipe is stored as it is: JSON
-- encoding is another library's. One reading of the clock serves a whole save.
pub mod Good
pub mod Steps
pub mod Accepted
pub mod Output
pub mod Stale
use rss_workshop.Common.{
  ℕ, suc, ◌+◌, ◌/◌, ◌==◌, max, String, str_eq, Bool, true, false, not, ◌&&◌, ◌||◌, Option, none,
  some, List, [], ◌∷◌, leb, if◌then◌else◌,
}
use rss_workshop.Common.Int.{ℤ, pos, negsuc, ltb_ℤ, sub_ℕ}
use rss_workshop.Common.Assoc.{Assoc, lookup, insert, delete}
use rss_workshop.Common.Result.{Result, ok, err, ◌>>=◌, ◌>>◌, guard}
use rss_workshop.Model.Feed.{Feed, Recipe, FullContent}
use rss_workshop.Filter.Text.{Libraries}
use rss_workshop.Filter.Compile.{CompileError, Matcher, compile}
use rss_workshop.Store.Rows.{Story, Run, FeedRow, FilterRow, Database, readable_string, is_blank}
use rss_workshop.Store.Library.{feed_filter_ids, effective}
use rss_workshop.Store.Options.{
  SaveError, SaveOptions, bad_rules, conflict, duplicate_link, filter_in_use, has_rules,
  history_too_long, in_feed, invalid_rules, library_full, links_changed, no_row, no_rules, rejected,
  too_many_links, unknown_filter, unreadable,
}
use rss_workshop.Store.Pruning.{
  max_history, bump_changed, story_item, remove_stories, rejected_keys, drop_keys, prune_history,
}
use rss_workshop.Store.Bodies.{
  strings_eq, BodyClear, keep_bodies, clear_listed_bodies, clear_all_bodies, rules_changed,
  bodies_changed, article_bodies_changed, listed_count, latest_seen, clear_from, clear_since,
  clear_article_bodies,
}

-- An interval in whole minutes, rounded to 0.
unfoldable pub minutes_of : ℤ → ℤ
minutes_of (pos n) = pos (n / 60)
minutes_of (negsuc n) = sub_ℕ 0 (suc n / 60)

-- A column that readers see differs.
unfoldable pub row_changed : Feed → FeedRow → Bool
unfolding readable_string minutes_of
row_changed f row =
    not (str_eq row.title (readable_string f.title))
    || not (str_eq row.url (readable_string f.url))
    || (ltb_ℤ (minutes_of row.interval) (minutes_of f.interval)
        || ltb_ℤ (minutes_of f.interval) (minutes_of row.interval))

-- UPDATE feeds SET … of an existing feed.
unfoldable pub update_row : (now : ℕ) → (keep_enabled : Bool) → Feed → FeedRow → FeedRow
unfolding row_changed bump_changed readable_string
update_row now keep_enabled f row = record row {
  last_changed = if row_changed f row then bump_changed row.last_changed now else row.last_changed;
  title = readable_string f.title;
  url = readable_string f.url;
  recipe = some f.recipe;
  interval = f.interval;
  enabled = if keep_enabled then row.enabled else f.enabled;
  next_run = now;
  etag = "";
  modified = "";
  error = "";
  failures = 0;
  version = row.version + 1;
}

-- INSERT INTO feeds, with the defaults of the schema.
unfoldable pub new_row : (now : ℕ) → (token : String) → Bool → Feed → FeedRow
unfolding readable_string
new_row now token enabled f = record {
  rss_token = token;
  title = readable_string f.title;
  url = readable_string f.url;
  recipe = some f.recipe;
  interval = f.interval;
  enabled = enabled;
  next_run = now;
  last_attempt = 0;
  last_success = 0;
  error = "";
  failures = 0;
  etag = "";
  modified = "";
  version = 1;
  last_changed = 0;
  last_new = 0;
  filter_ids = [];
  stories = [];
  runs = [];
}

-- UNIQUE of `rss_token`.
unfoldable pub token_used : String → Assoc FeedRow → Bool
token_used token [] = false
token_used token ((id, row) ∷ feeds) = str_eq row.rss_token token || token_used token feeds

unfoldable pub store_feed : String → FeedRow → Database → Result SaveError Database
unfolding lookup insert token_used
store_feed id row db =
    guard (not (token_used row.rss_token db.feeds)) conflict >> elim (lookup id db.feeds) [
      | some old ↦ err conflict
      | none ↦ ok (record db { feeds = insert id row db.feeds })
    ]

-- `linkFilters`, for links that the feed names.
abbrev pub link_filters : Option (List String) → FeedRow → FeedRow
link_filters none row = row
link_filters (some ids) row = record row { filter_ids = ids }

abbrev pub same_links : Option (List String) → List String → List String → Bool
same_links none read current = strings_eq current read
same_links (some ids) read current = true

module _ (lib : Libraries) where
  abbrev pub own_rules_or_error : Result CompileError Matcher → Result SaveError Matcher
  own_rules_or_error (ok m) = ok m
  own_rules_or_error (err e) = err (bad_rules e)

  -- The update of a row that is there, and the bodies that it clears.
  unfoldable pub cleared_row : (now : ℕ) → SaveOptions → Feed → FeedRow → FeedRow
  unfolding article_bodies_changed clear_article_bodies update_row
  cleared_row now options f row =
      clear_article_bodies now (article_bodies_changed row.recipe f.recipe)
        (update_row now options.keep_enabled f row)

  unfoldable pub prune_and_link :
      (now : ℕ)
      → Option (List String)
      → SaveOptions
      → Recipe
      → Matcher
      → FeedRow
      → Result SaveError FeedRow
  unfolding prune_history
  prune_and_link now links options merged m row =
      prune_history lib now options.apply_filters_to_history merged m row >>= λ pruned.
      ok (link_filters links pruned)

  -- The branch of a feed that has an id, on its row. `f` has the links that were read.
  unfoldable pub edit_row :
      (now : ℕ)
      → Option (List String)
      → SaveOptions
      → Feed
      → Recipe
      → Matcher
      → FeedRow
      → Result SaveError FeedRow
  unfolding cleared_row prune_and_link strings_eq
  edit_row now links options f merged m row =
      guard (same_links links f.filter_ids (cleared_row now options f row).filter_ids) links_changed
      >> prune_and_link now links options merged m (cleared_row now options f row)

  unfoldable pub edit_feed :
      (now : ℕ)
      → Option (List String)
      → SaveOptions
      → Feed
      → Recipe
      → Matcher
      → Database
      → Result SaveError (String × Database)
  unfolding edit_row lookup insert
  edit_feed now links options f merged m db = elim (lookup f.id db.feeds) [
    | none ↦ err no_row
    | some row ↦ edit_row now links options f merged m row >>= λ row'.
        ok (f.id, record db { feeds = insert f.id row' db.feeds })
  ]

  unfoldable pub add_feed :
      (now : ℕ)
      → (new_id new_token : String) → Option (List String)
      → Feed
      → Database
      → Result SaveError (String × Database)
  unfolding store_feed new_row
  add_feed now new_id new_token links f db =
      store_feed new_id (link_filters links (new_row now new_token f.enabled f)) db >>= λ db'.
      ok (new_id, db')

  -- `links`, or the feed's present ones.
  unfoldable pub links_of : Option (List String) → String → Assoc FeedRow → List String
  unfolding feed_filter_ids
  links_of (some ids) id feeds = ids
  links_of none id feeds = if str_eq id "" then [] else feed_filter_ids id feeds

  abbrev pub with_links : Option (List String) → Feed → Database → Feed
  with_links links f db = record f { filter_ids = links_of links f.id db.feeds }

  -- `SaveWithOptions`; `links` is nil or what replaces the feed's filters. The id and token are
  -- those that a new feed gets.
  unfoldable pub save_with_options :
      (now : ℕ)
      → (new_id new_token : String) → Feed
      → Option (List String)
      → SaveOptions
      → Database
      → Result SaveError (String × Database)
  unfolding compile effective edit_feed add_feed links_of
  save_with_options now new_id new_token f links options db = do
    own ← own_rules_or_error (compile lib f.recipe.filters)
    (merged, m) ← effective lib db.filters (with_links links f db) options
    if str_eq f.id ""
        then add_feed now new_id new_token links f db
        else edit_feed now links options (with_links links f db) merged m db

  -- `Import`: all feeds are compiled first; `names` has an id and a token for each.
  unfoldable pub check_feeds : List Feed → Result SaveError (Unit {0})
  unfolding compile
  check_feeds [] = ok tt
  check_feeds (f ∷ fs) = own_rules_or_error (compile lib f.recipe.filters) >>= λ m. check_feeds fs

unfoldable pub insert_feeds :
    (now : ℕ) → List (Feed × String × String) → Database → Result SaveError Database
unfolding store_feed new_row
insert_feeds now [] db = ok db
insert_feeds now ((f, id, token) ∷ rest) db =
    store_feed id (new_row now token false f) db >>= λ db'. insert_feeds now rest db'

abbrev pub feeds_in : List (Feed × String × String) → List Feed
feeds_in [] = []
feeds_in ((f, id, token) ∷ rest) = f ∷ feeds_in rest

unfoldable pub import_feeds :
    Libraries → (now : ℕ) → List (Feed × String × String) → Database → Result SaveError Database
unfolding check_feeds insert_feeds
import_feeds lib now entries db =
    check_feeds lib (feeds_in entries) >>= λ passed. insert_feeds now entries db
