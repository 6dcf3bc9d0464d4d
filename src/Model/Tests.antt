-- ===== src/Model/Tests.antt =====
-- A weekly feed that is to be marked after seven days.
use rss_workshop.Common.{◌+◌, ◌*◌, ◌≤◌, ◌≡◌, refl, true, false, none, some, [], arith}
use rss_workshop.Common.Int.{pos}
use rss_workshop.Model.Feed.{Field, Recipe, Feed}
use rss_workshop.Model.Quiet.{
  second, quiet_margin, day, quiet_since, validate_quiet_days, quiet_threshold, is_quiet,
}
use rss_workshop.Model.Quiet.Thresholds.{IsAccepted, threshold, quiet_threshold-eq, quiet_waits}

abbrev no_field : Field
no_field = record { selector = ""; attr = "" }

abbrev recipe : Recipe
recipe = record {
  mode = "static";
  wait_selector = "";
  settle_ms = pos 0;
  type = "css";
  items = "article";
  title = no_field;
  link = no_field;
  date = no_field;
  content = no_field;
  image = no_field;
  date_layout = "";
  timezone = "";
  filters = none;
  full = none;
  remove = [];
  user_agent = "";
  accept_language = "";
  quiet_days = pos 7;
}

abbrev weekly : Feed
weekly = record {
  id = "1";
  title = "Weekly";
  url = "https://example.com/";
  recipe = recipe;
  interval = pos 604800;
  enabled = true;
  next_run = 0;
  last_attempt = 9;
  last_success = 9;
  last_changed = 5;
  last_new = 5;
  error = "";
  failures = 0;
  etag = "";
  last_modified = "";
  version = 1;
  count = 1;
  filter_ids = [];
  rss_token = "";
  rss_url = "";
  atom_url = "";
  held = false;
  quiet = false;
}

weekly-IsAccepted : IsAccepted weekly 604800 7
unfolding validate_quiet_days
weekly-IsAccepted = record {
  interval = refl;
  interval_least = omega arith;
  interval_most = omega arith;
  quiet_days = refl;
  valid = refl;
}

quiet_threshold-eq_example :
    (quiet_threshold weekly ≡ some (pos (threshold 7 604800)))
    × (604800 * second + quiet_margin ≤ threshold 7 604800)
    × (threshold 7 604800 ≤ 365 * day)
quiet_threshold-eq_example = quiet_threshold-eq weekly 604800 7 weekly-IsAccepted

-- Eight days after its last new story the feed is quiet.
weekly-is_quiet : is_quiet (9 * day) weekly ≡ true
unfolding is_quiet
weekly-is_quiet = refl

quiet_waits_example :
    (weekly.enabled ≡ true)
    × (weekly.failures ≡ 0)
    × (weekly.last_attempt ≤ weekly.last_success)
    × (quiet_since weekly + 604800 * second + quiet_margin ≤ 9 * day)
quiet_waits_example = quiet_waits weekly 604800 7 (9 * day) weekly-IsAccepted weekly-is_quiet
