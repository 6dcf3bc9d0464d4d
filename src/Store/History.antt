-- ===== src/Store/History.antt =====
-- internal/store as a whole: the transactions of its operations, in any order, from the empty
-- tables of schema.sql.
pub mod Links
use rss_workshop.Store.Options.{SaveOptions}
use rss_workshop.Store.Switches.{set_enabled, queue, rotate_token, delete_feed}
use rss_workshop.Common.{ℕ, ◌≡◌, String, Bool, Option, List, []}
use rss_workshop.Common.Result.{Result, ok}
use rss_workshop.Model.Item.{Time}
use rss_workshop.Model.Feed.{Feed}
use rss_workshop.Model.Filters.{LibraryFilter}
use rss_workshop.Filter.Text.{Libraries}
use rss_workshop.Store.Rows.{Database}
use rss_workshop.Store.Complete.{Outcome, complete}
use rss_workshop.Store.Library.{save_filter, delete_filter}
use rss_workshop.Store.Edit.{save_with_options, import_feeds}

abbrev pub empty_database : Database
empty_database = record { feeds = []; filters = []; next_id = 1 }

module _ (lib : Libraries) (safe_text : String → ℕ → String) (guid_of : String → String → String)
    (first_byte : String → ℕ) (max_items : ℕ) where
  -- A transaction that commits.
  pub data Step : Database → Database → Type 0 where
    completed :
        {db db' : Database} (now : Time) (f : Feed) (o : Outcome)
        → complete safe_text guid_of first_byte max_items now f o db ≡ ok db'
        → Step db db'
    saved :
        {db db' : Database} (now : ℕ) (new_id new_token : String) (f : Feed)
        (links : Option (List String)) (options : SaveOptions) (id : String)
        → save_with_options lib now new_id new_token f links options db ≡ ok (id, db')
        → Step db db'
    imported :
        {db db' : Database} (now : ℕ) (entries : List (Feed × String × String))
        → import_feeds lib now entries db ≡ ok db'
        → Step db db'
    filter_saved :
        {db db' : Database} (now : ℕ) (new_id : String) (lf : LibraryFilter) (options : SaveOptions)
        (id : String)
        → save_filter lib now new_id lf options db ≡ ok (id, db')
        → Step db db'
    filter_deleted : {db db' : Database} (id : String) → delete_filter id db ≡ ok db' → Step db db'
    enabled_set :
        {db db' : Database} (now : ℕ) (id : String) (enabled : Bool)
        → set_enabled now id enabled db ≡ ok db'
        → Step db db'
    token_rotated :
        {db db' : Database} (token id : String) → rotate_token token id db ≡ ok db' → Step db db'
    queued : {db : Database} (now : ℕ) (id : String) → Step db (queue now id db)
    feed_deleted : {db : Database} (id : String) → Step db (delete_feed id db)

  pub data Reachable : Database → Type 0 where
    start : Reachable empty_database
    next : {db db' : Database} → Reachable db → Step db db' → Reachable db'
