-- ===== src/Store/Switches.antt =====
-- internal/store/store.go: the writes that pause, queue, rename or delete a feed.
use rss_workshop.Common.{ℕ, String, Bool, not, ◌&&◌, none, some, if◌then◌else◌}
use rss_workshop.Common.Assoc.{Assoc, lookup, insert, delete}
use rss_workshop.Common.Result.{Result, ok, err}
use rss_workshop.Store.Rows.{FeedRow, Database}
use rss_workshop.Store.Options.{SaveError, no_row}

-- The single updates of store.go, on the row of an id.
unfoldable pub update_feed : String → (FeedRow → FeedRow) → Assoc FeedRow → Assoc FeedRow
unfolding lookup insert
update_feed id change feeds = elim (lookup id feeds) [
  | none ↦ feeds
  | some row ↦ insert id (change row) feeds
]

abbrev pub or_no_row : String → Database → Database → Result SaveError Database
or_no_row id db db' = elim (lookup id db.feeds) [ none ↦ err no_row | some row ↦ ok db' ]

-- `SetEnabled` on a row.
unfoldable pub enable_row : (now : ℕ) → (enabled : Bool) → FeedRow → FeedRow
enable_row now enabled row = record row {
  next_run = if enabled && not row.enabled then now else row.next_run;
  enabled = enabled;
}

unfoldable pub set_enabled : (now : ℕ) → String → Bool → Database → Result SaveError Database
unfolding update_feed enable_row lookup
set_enabled now id enabled db =
    or_no_row id db (record db { feeds = update_feed id (enable_row now enabled) db.feeds })

unfoldable pub queue : (now : ℕ) → String → Database → Database
unfolding update_feed
queue now id db = record db {
  feeds = update_feed id (λ row. record row { next_run = now }) db.feeds;
}

-- The token is a fresh one.
unfoldable pub rotate_token : (token : String) → String → Database → Result SaveError Database
unfolding update_feed lookup
rotate_token token id db =
    or_no_row id db
      (record db { feeds = update_feed id (λ row. record row { rss_token = token }) db.feeds })

-- `Delete`, with the rows of other tables that belong to the feed.
unfoldable pub delete_feed : String → Database → Database
unfolding delete
delete_feed id db = record db { feeds = delete id db.feeds }
