-- ===== src/Store/Pruning.antt =====
-- internal/store/save.go: how a save prunes the stored stories, and the time of a change. The
-- removed keys go in one statement here and by 250 in the code.
use rss_workshop.Common.{
  ℕ, ◌+◌, String, Bool, false, ◌&&◌, List, [], ◌∷◌, leb, if◌then◌else◌, length,
}
use rss_workshop.Common.Assoc.{contains}
use rss_workshop.Common.Result.{Result, ok, ◌>>◌, guard}
use rss_workshop.Model.Item.{Item}
use rss_workshop.Model.Feed.{Recipe}
use rss_workshop.Filter.Text.{Libraries}
use rss_workshop.Filter.Compile.{Matcher}
use rss_workshop.Filter.Match.{evaluate}
use rss_workshop.Store.Rows.{Story, FeedRow}
use rss_workshop.Store.Options.{SaveError, has_rules, history_too_long}

abbrev pub max_history : ℕ
max_history = 10000

unfoldable pub bump_changed : (last_changed now : ℕ) → ℕ
bump_changed last_changed now = if leb now last_changed then last_changed + 1 else now

-- The columns of a story that pruning reads.
abbrev pub story_item : Story → Item
story_item r = record {
  key = r.key;
  guid = "";
  title = r.title;
  url = r.url;
  html = r.html;
  image = [];
  full_html = [];
  published = 0;
  first_seen = 0;
  last_seen = 0;
  last_changed = 0;
}

-- DELETE … WHERE key IN …
unfoldable pub remove_stories : List String → List Story → List Story
unfolding contains
remove_stories ks [] = []
remove_stories ks (r ∷ rs) =
    let rest = remove_stories ks rs in if contains r.key ks then rest else r ∷ rest

module _ (lib : Libraries) where
  -- `pruneFilteredHistory`: the keys that it removes.
  unfoldable pub rejected_keys : Matcher → List Story → List String
  unfolding evaluate
  rejected_keys m [] = []
  rejected_keys m (r ∷ rs) =
      let rest = rejected_keys m rs in
      if (evaluate lib m (story_item r) false).matched then rest else r.key ∷ rest

  -- The pruning that follows a save, with `markChanged`.
  abbrev pub drop_keys : (now : ℕ) → List String → FeedRow → FeedRow
  drop_keys now [] row = row
  drop_keys now (k ∷ ks) row = record row {
    stories = remove_stories (k ∷ ks) row.stories;
    last_changed = bump_changed row.last_changed now;
  }

  unfoldable pub prune_history :
      (now : ℕ) → Bool → Recipe → Matcher → FeedRow → Result SaveError FeedRow
  unfolding rejected_keys remove_stories bump_changed
  prune_history now asked r m row =
      if asked && has_rules r.filters
      then guard (leb (length row.stories) max_history) history_too_long
        >> ok (drop_keys now (rejected_keys m row.stories) row)
      else ok row
