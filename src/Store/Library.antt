-- ===== src/Store/Library.antt =====
-- internal/store/library.go: library filters, the rules that a feed's refresh evaluates, and how
-- they change.  A transaction is one step,
-- as on SQLite; an operation that returns an error leaves the database. New ids are arguments.
pub mod Links
pub mod Effective
pub mod Relink
pub mod Good
pub mod Stale
use Prim.Native.Nat.{Ordering}
use Prim.Native.String.{compare}
use rss_workshop.Common.{
  ℕ, ◌+◌, ◌≡◌, refl, String, str_eq, Bool, true, false, not, ◌&&◌, ◌||◌, Option, none, some, List,
  [], ◌∷◌, leb, if◌then◌else◌, length,
}
use rss_workshop.Common.Assoc.{Assoc, lookup, insert, delete, KeySet, contains}
use rss_workshop.Common.Result.{Result, ok, err, ◌>>=◌, ◌>>◌, guard}
use rss_workshop.Model.Text.{Text, trim_space}
use rss_workshop.Model.Item.{Item}
use rss_workshop.Model.Feed.{Feed, Recipe}
use rss_workshop.Model.Filters.{FilterSet, LibraryFilter}
use rss_workshop.Filter.Text.{Libraries}
use rss_workshop.Filter.Compile.{CompileError, Matcher, compile}
use rss_workshop.Filter.Match.{evaluate}
use rss_workshop.Filter.Combine.{combine}
use rss_workshop.Store.Rows.{Story, FeedRow, FilterRow, Database, readable_text, stamp}
use rss_workshop.Store.Options.{
  SaveError, SaveOptions, bad_rules, conflict, duplicate_link, filter_in_use, has_rules,
  history_too_long, in_feed, invalid_rules, library_full, links_changed, no_row, no_rules, rejected,
  too_many_links, unknown_filter, unreadable,
}
use rss_workshop.Store.Pruning.{
  max_history, bump_changed, story_item, remove_stories, rejected_keys, drop_keys, prune_history,
}

abbrev pub max_library_filters : ℕ
max_library_filters = 200

abbrev pub max_filters_per_feed : ℕ
max_filters_per_feed = 16

-- The loop with `seen`.
unfoldable pub all_new : KeySet → List String → Bool
unfolding contains
all_new seen [] = true
all_new seen (id ∷ ids) = if contains id seen then false else all_new (id ∷ seen) ids

-- The loop over the ids that makes `out`.
unfoldable pub collect : Assoc FilterRow → List String → Result SaveError (List FilterSet)
unfolding lookup
collect filters [] = ok []
collect filters (id ∷ ids) =
    let rest = collect filters ids in
    elim (lookup id filters) [
      | none ↦ err unknown_filter
      | some row ↦ rest >>= λ sets. ok (row.rules ∷ sets)
    ]

unfoldable pub library_rules : Assoc FilterRow → List String → Result SaveError (List FilterSet)
unfolding all_new collect
library_rules filters [] = ok []
library_rules filters (id ∷ ids) =
    guard (leb (length (id ∷ ids)) max_filters_per_feed) too_many_links
    >> (guard (all_new [] (id ∷ ids)) duplicate_link >> collect filters (id ∷ ids))

abbrev pub with_rules : Recipe → List FilterSet → Recipe
with_rules r shared = record r { filters = combine r.filters shared }

-- `EffectiveRecipe`, from the feed's filters.
unfoldable pub merged_recipe : Assoc FilterRow → List String → Recipe → Result SaveError Recipe
unfolding library_rules combine
merged_recipe filters [] r = ok r
merged_recipe filters (id ∷ ids) r =
    library_rules filters (id ∷ ids) >>= λ shared. ok (with_rules r shared)

unfoldable pub effective_recipe : Assoc FilterRow → Feed → Result SaveError Recipe
unfolding merged_recipe
effective_recipe filters f = merged_recipe filters f.filter_ids f.recipe

-- `scan`, with the feed's filters: a row whose recipe is readable.
abbrev pub feed_of : String → Recipe → FeedRow → Feed
feed_of id r row = record {
  id = id;
  title = row.title;
  url = row.url;
  recipe = r;
  interval = row.interval;
  enabled = row.enabled;
  next_run = stamp row.next_run;
  last_attempt = stamp row.last_attempt;
  last_success = stamp row.last_success;
  last_changed = stamp row.last_changed;
  last_new = stamp row.last_new;
  error = row.error;
  failures = row.failures;
  etag = row.etag;
  last_modified = row.modified;
  version = row.version;
  count = length row.stories;
  filter_ids = row.filter_ids;
  rss_token = row.rss_token;
  rss_url = "";
  atom_url = "";
  held = false;
  quiet = false;
}

-- `feedFilterIDs`
unfoldable pub feed_filter_ids : String → Assoc FeedRow → List String
unfolding lookup
feed_filter_ids id feeds = elim (lookup id feeds) [ none ↦ [] | some row ↦ row.filter_ids ]

-- `filterFeeds`, ORDER BY feed_id.
unfoldable pub place_id : String → List String → List String
place_id id [] = id ∷ []
place_id id (j ∷ js) =
    let rest = place_id id js in elim (compare id j) [ Ordering.gt ↦ j ∷ rest | _ ↦ id ∷ j ∷ js ]

unfoldable pub filter_feeds : String → Assoc FeedRow → List String
unfolding place_id contains
filter_feeds filter_id [] = []
filter_feeds filter_id ((id, row) ∷ feeds) =
    let rest = filter_feeds filter_id feeds in
    if contains filter_id row.filter_ids then place_id id rest else rest

module _ (lib : Libraries) where
  -- `effective`
  abbrev check_merged :
      Option (Feed → Option String) → List FilterSet → Feed → Result SaveError (Unit {0})
  check_merged none shared f = ok tt
  check_merged (some validate) [] f = ok tt
  check_merged (some validate) (s ∷ ss) f = elim (validate f) [
    | none ↦ ok tt
    | some text ↦ err (rejected text)
  ]

  abbrev pub merged_or_error : Result CompileError Matcher → Result SaveError Matcher
  merged_or_error (ok m) = ok m
  merged_or_error (err e) = err (invalid_rules e)

  unfoldable pub effective :
      Assoc FilterRow → Feed → SaveOptions → Result SaveError (Recipe × Matcher)
  unfolding library_rules combine compile
  effective filters f options = do
    shared ← library_rules filters f.filter_ids
    m ← merged_or_error (compile lib (with_rules f.recipe shared).filters)
    check_merged options.validate shared (record f { recipe = with_rules f.recipe shared })
    ok (with_rules f.recipe shared, m)

  abbrev pub titled : {A : Type 0} → String → Result SaveError A → Result SaveError A
  titled title (ok a) = ok a
  titled title (err e) = err (in_feed title e)

  -- UPDATE feeds SET etag='',modified='',next_run=?,version=version+1
  abbrev pub renew : (now : ℕ) → FeedRow → FeedRow
  renew now row = record row { etag = ""; modified = ""; next_run = now; version = row.version + 1 }

  -- One round of the loop over the feeds that use an edited filter.
  unfoldable pub relink_row :
      (now : ℕ) → Assoc FilterRow → SaveOptions → String → FeedRow → Result SaveError FeedRow
  unfolding effective prune_history
  relink_row now filters options id row = elim row.recipe [
    | none ↦ err unreadable
    | some r ↦ titled row.title (effective filters (feed_of id r row) options) >>= λ out.
        prune_history lib now options.apply_filters_to_history out.0 out.1 (renew now row)
  ]

  unfoldable pub relink :
      (now : ℕ) → (filter_id : String) → SaveOptions → String → Database → Result SaveError Database
  unfolding relink_row lookup contains insert
  relink now filter_id options id db = elim (lookup id db.feeds) [
    | none ↦ ok db
    | some row ↦
        if contains filter_id row.filter_ids
        then (relink_row now db.filters options id row >>= λ row'.
            ok (record db { feeds = insert id row' db.feeds }))
        else ok db
  ]

  unfoldable pub relink_all :
      (now : ℕ)
      → (filter_id : String) → SaveOptions
      → List String
      → Database
      → Result SaveError Database
  unfolding relink
  relink_all now filter_id options [] db = ok db
  relink_all now filter_id options (id ∷ ids) db =
      relink now filter_id options id db >>= λ db'. relink_all now filter_id options ids db'

  abbrev pub filter_row : LibraryFilter → FilterRow
  filter_row lf = record { name = readable_text (trim_space lf.name); rules = lf.filters }

  unfoldable pub insert_filter : String → FilterRow → Database → Result SaveError Database
  unfolding lookup insert
  insert_filter id row db = elim (lookup id db.filters) [
    | some old ↦ err conflict
    | none ↦ ok (record db { filters = insert id row db.filters })
  ]

  -- `SaveFilter` of a filter without an id, and of one that is stored.
  unfoldable pub add_filter :
      (new_id : String) → LibraryFilter → Database → Result SaveError Database
  unfolding insert_filter
  add_filter new_id lf db =
      guard (not (leb max_library_filters (length db.filters))) library_full
      >> insert_filter new_id (filter_row lf) db

  unfoldable pub edit_filter :
      (now : ℕ) → LibraryFilter → SaveOptions → Database → Result SaveError Database
  unfolding lookup insert filter_feeds relink_all
  edit_filter now lf options db = elim (lookup lf.id db.filters) [
    | none ↦ err no_row
    | some old ↦
        relink_all now lf.id options (filter_feeds lf.id db.feeds)
          (record db { filters = insert lf.id (filter_row lf) db.filters })
  ]

  unfoldable pub save_filter :
      (now : ℕ)
      → (new_id : String) → LibraryFilter
      → SaveOptions
      → Database
      → Result SaveError (String × Database)
  unfolding compile add_filter edit_filter
  save_filter now new_id lf options db = do
    m ← merged_or_error (compile lib (some lf.filters))
    guard (has_rules (some lf.filters)) no_rules
    if str_eq lf.id ""
        then (add_filter new_id lf db >>= λ db'. ok (new_id, db'))
        else (edit_filter now lf options db >>= λ db'. ok (lf.id, db'))

-- SELECT EXISTS(SELECT 1 FROM feed_filters WHERE filter_id=?)
unfoldable pub is_used : String → Assoc FeedRow → Bool
unfolding contains
is_used filter_id [] = false
is_used filter_id ((id, row) ∷ feeds) = contains filter_id row.filter_ids || is_used filter_id feeds

unfoldable pub delete_filter : String → Database → Result SaveError Database
unfolding lookup is_used delete
delete_filter id db = elim (lookup id db.filters) [
  | none ↦ err no_row
  | some row ↦
      if is_used id db.feeds
      then err filter_in_use
      else ok (record db { filters = delete id db.filters })
]
