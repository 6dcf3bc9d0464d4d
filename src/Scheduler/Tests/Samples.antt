-- ===== src/Scheduler/Tests/Samples.antt =====
-- A feed of two stories, whose page is a fixed answer.
use rss_workshop.Common.{ℕ, String, Bool, true, false, none, some, List, [], ◌∷◌, leb}
use rss_workshop.Common.Int.{pos}
use rss_workshop.Common.Result.{Result, ok}
use rss_workshop.Model.Text.{Text}
use rss_workshop.Model.Item.{Item}
use rss_workshop.Model.Feed.{Field, Recipe, Feed}
use rss_workshop.Scheduler.Slots.{Services}
use rss_workshop.Scheduler.Articles.{Target}
use rss_workshop.Scheduler.Extract.{no_result, no_preview, Pages}
use rss_workshop.Scheduler.Refresh.{saved, World}

abbrev pub no_field : Field
no_field = record { selector = ""; attr = "" }

abbrev pub recipe : Recipe
recipe = record {
  mode = "auto";
  wait_selector = "";
  settle_ms = pos 0;
  type = "html";
  items = "article";
  title = no_field;
  link = no_field;
  date = no_field;
  content = no_field;
  image = no_field;
  date_layout = "";
  timezone = "";
  filters = none;
  full = some (record { selector = "main"; attr = ""; browser = false });
  remove = [];
  user_agent = "";
  accept_language = "";
  quiet_days = pos 0;
}

abbrev pub feed : Feed
feed = record {
  id = "1";
  title = "News";
  url = "https://example.com/";
  recipe = recipe;
  interval = pos 3600;
  enabled = true;
  next_run = 0;
  last_attempt = 0;
  last_success = 5;
  last_changed = 0;
  last_new = 0;
  error = "";
  failures = 2;
  etag = "e";
  last_modified = "";
  version = 1;
  count = 0;
  filter_ids = [];
  rss_token = "";
  rss_url = "";
  atom_url = "";
  held = false;
  quiet = false;
}

abbrev pub item : String → Item
item key = record {
  key = key;
  guid = key;
  title = b'a' ∷ [];
  url = b'h' ∷ [];
  html = [];
  image = [];
  full_html = [];
  published = 0;
  first_seen = 0;
  last_seen = 0;
  last_changed = 0;
}

abbrev pub items : List Item
items = item "a" ∷ item "b" ∷ []

abbrev pub pages : Pages
pages = record {
  static = λ as_feed url etag modified. (record no_result { status = 200 }, none);
  render = none;
  solver = none;
  run = λ r recipe. (record no_preview { matches = 2; valid = 2; items = items }, none);
  article_body = λ r recipe. ok (b'b' ∷ []);
  validate_url = λ url. none;
  validate_render = λ recipe. none;
}

-- The first page arrives; the deadline passes while the second waits for a worker.
abbrev pub deadline : ℕ → Bool × Bool
deadline q = (leb 1 q, leb 1 q)

abbrev pub body_of : Target → Result String Text
body_of t = ok (b'b' ∷ [])

abbrev pub world : World
world = record {
  pages = pages;
  recipe = ok recipe;
  states = some [];
  after = some (("a", record { has_body = true; first_seen = 7 }) ∷ []);
  expired = deadline;
  fetch = body_of;
  article_warning = λ w. w.1;
  safe_text = λ t n. t;
  stopping = false;
  store = λ s. saved;
  notifier = true;
  notify_after = 3;
  now = 9;
}

abbrev pub no_services : Services
no_services = record { solver = none; renderer = none }
