-- ===== src/Store/Tests/Samples.antt =====
-- A feed of two stories that uses a library filter.
use rss_workshop.Store.Options.{SaveOptions}
use rss_workshop.Common.{ℕ, ◌+◌, ◌*◌, String, true, false, Option, none, some, List, [], ◌∷◌}
use rss_workshop.Common.Int.{pos}
use rss_workshop.Common.Result.{Result, ok, err}
use rss_workshop.Model.Text.{Text}
use rss_workshop.Model.Item.{Item, Time}
use rss_workshop.Model.Feed.{Field, Recipe, Feed}
use rss_workshop.Model.Filters.{leaf, FilterSet, LibraryFilter}
use rss_workshop.Filter.Text.{Libraries}
use rss_workshop.Store.Rows.{Story, FeedRow, Database, nanoseconds, unix_epoch}
use rss_workshop.Store.Complete.{Outcome}
use rss_workshop.Store.Library.{feed_of}

abbrev pub libraries : Libraries
libraries = record { parse = λ t. none; simple_fold = λ c. c }

abbrev pub no_field : Field
no_field = record { selector = ""; attr = "" }

abbrev pub recipe : Recipe
recipe = record {
  mode = "http";
  wait_selector = "";
  settle_ms = pos 0;
  type = "html";
  items = "article";
  title = no_field;
  link = no_field;
  date = no_field;
  content = no_field;
  image = no_field;
  date_layout = "";
  timezone = "";
  filters = none;
  full = none;
  remove = [];
  user_agent = "";
  accept_language = "";
  quiet_days = pos 0;
}

abbrev pub at_second : ℕ → Time
at_second n = (n + unix_epoch) * nanoseconds

abbrev pub story : String → Text → ℕ → Story
story k title n = record {
  key = k;
  guid = k;
  title = title;
  url = b'x' ∷ [];
  html = [];
  image = [];
  content_full = [];
  published = pos n;
  first_seen = 50;
  last_seen = 60;
  last_changed = 50;
}

abbrev pub stories : List Story
stories = story "1" (b'a' ∷ []) 10 ∷ story "2" (b'b' ∷ []) 20 ∷ []

abbrev pub item : Item
item = record {
  key = "3";
  guid = "";
  title = b'c' ∷ [];
  url = b'x' ∷ [];
  html = [];
  image = [];
  full_html = [];
  published = at_second 30;
  first_seen = 0;
  last_seen = 0;
  last_changed = 0;
}

abbrev pub row : FeedRow
row = record {
  rss_token = "t";
  title = "News";
  url = "https://example.com/";
  recipe = some recipe;
  interval = pos 3600;
  enabled = true;
  next_run = 100;
  last_attempt = 60;
  last_success = 60;
  error = "";
  failures = 0;
  etag = "e";
  modified = "";
  version = 4;
  last_changed = 60;
  last_new = 50;
  filter_ids = "k" ∷ [];
  stories = stories;
  runs = [];
}

abbrev pub feed : Feed
feed = feed_of "f" recipe row

abbrev pub has : Text → FilterSet
has k = record { include = some (leaf "contains_any" "title" (some (k ∷ []))); exclude = none }

abbrev pub library_filter : String → LibraryFilter
library_filter id = record { id = id; name = b'k' ∷ []; filters = has (b'a' ∷ []); feed_ids = [] }

abbrev pub database : Database
database = record {
  feeds = ("f", row) ∷ [];
  filters = ("k", record { name = b'k' ∷ []; rules = has (b'a' ∷ []) }) ∷ [];
  next_id = 1;
}

abbrev pub prune : SaveOptions
prune = record { apply_filters_to_history = true; validate = none; keep_enabled = false }

abbrev pub failed : Outcome
failed = record {
  items = [];
  etag = "";
  modified = "";
  status = 503;
  failure = some "busy";
  retry = 0;
}

abbrev pub safe_text : String → ℕ → String
safe_text t n = t

abbrev pub guid_of : String → String → String
guid_of id k = k

abbrev pub first_byte : String → ℕ
first_byte id = 7

abbrev pub value_or : {E A : Type 0} → A → Result E A → A
value_or d (ok a) = a
value_or d (err e) = d

abbrev pub row_or : FeedRow → Option FeedRow → FeedRow
row_or d none = d
row_or d (some r) = r
