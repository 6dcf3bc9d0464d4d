-- ===== src/Store/Tests.antt =====
-- Runs on a database of one feed and one library filter.
mod Samples
use rss_workshop.Store.Options.{SaveOptions}
use rss_workshop.Store.Pruning.{story_item}
use rss_workshop.Common.{
  ℕ, zero, ◌+◌, ◌*◌, ◌≤◌, ◌<◌, max, ◌≡◌, refl, String, Bool, true, false, Option, none, some, List,
  [], ◌∷◌, ◌&&◌, length, arith,
}
use rss_workshop.Common.Int.{pos, ltb_ℤ}
use rss_workshop.Common.Assoc.{lookup, insert, contains}
use rss_workshop.Common.Result.{Result, ok, err}
use rss_workshop.Model.Text.{trim_space, valid_string}
use rss_workshop.Model.Filters.{FilterSet}
use rss_workshop.Model.Quiet.{second}
use rss_workshop.Scheduler.Holds.{minute, hour}
use rss_workshop.Model.Item.{Item, Time}
use rss_workshop.Model.Feed.{Feed, Recipe}
use rss_workshop.Filter.Compile.{Matcher, compile, keyword_valid}
use rss_workshop.Filter.Meaning.{every, accepts, accepts_optional}
use rss_workshop.Store.Rows.{Story, FeedRow, Database, unix_now}
use rss_workshop.Store.Merge.{find, merge, succeed}
use rss_workshop.Store.Merge.Visible.{shown}
use rss_workshop.Store.Merge.Output.{IsPast, shown-succeed}
use rss_workshop.Store.Merge.Retention.{
  HasKeys, merged_stories, kept_stories, window-succeed, newest-succeed,
}
use rss_workshop.Store.Complete.{Outcome, stale, complete}
use rss_workshop.Store.Complete.Failure.{
  settings_at, content_of, complete-settings, complete-IsFailed,
}
use rss_workshop.Store.Library.{library_rules, effective_recipe, feed_of, save_filter}
use rss_workshop.Store.Library.Stale.{save_filter-stale}
use rss_workshop.Store.Edit.{links_of, save_with_options}
use rss_workshop.Store.Edit.Accepted.{save-accepted}
use rss_workshop.Store.Edit.Output.{shown_of, save-shown}
use rss_workshop.Store.Edit.Stale.{save-stale}
use rss_workshop.Store.History.{empty_database, Reachable, start, next, filter_saved, saved}
use rss_workshop.Store.History.Links.{Reachable-effective_recipe}
use rss_workshop.Store.Tests.Samples.{
  libraries, recipe, at_second, story, stories, item, row, feed, library_filter, database, prune,
  failed, safe_text, guid_of, first_byte, value_or, row_or,
}

unfoldable after_save : String × Database
unfolding save_with_options
after_save =
    value_or ("", database) (save_with_options libraries 200 "new" "u" feed none prune database)

save-after_save : save_with_options libraries 200 "new" "u" feed none prune database ≡ ok after_save
unfolding after_save keyword_valid trim_space valid_string
save-after_save = refl

unfoldable saved_row : FeedRow
unfolding after_save
saved_row = row_or row (lookup "f" after_save.1.feeds)

lookup-after_save : lookup "f" after_save.1.feeds ≡ some saved_row
unfolding saved_row after_save keyword_valid trim_space valid_string lookup
lookup-after_save = refl

lookup-database : lookup "f" database.feeds ≡ some row
unfolding lookup
lookup-database = refl

save-accepted_example :
    (shared : List FilterSet) × (library_rules database.filters
        (links_of libraries none "f" database.feeds)
      ≡ ok shared)
    × (every
          (λ r.
            accepts_optional libraries recipe.filters (story_item r)
            && every (λ s. accepts libraries s (story_item r)) shared)
          saved_row.stories
        ≡ true)
save-accepted_example =
    save-accepted libraries 200 "new" "u" feed none prune database after_save saved_row refl refl
      save-after_save lookup-after_save

save-stale_example :
    complete safe_text guid_of first_byte 10 (at_second 300) feed failed after_save.1 ≡ err stale
save-stale_example =
    save-stale libraries safe_text guid_of first_byte 10 200 "new" "u" feed none prune database row
      after_save (at_second 300) feed failed refl lookup-database save-after_save refl (omega arith)

abbrev renamed : Feed
renamed = record feed { enabled = false }

abbrev keep : SaveOptions
keep = record { apply_filters_to_history = false; validate = none; keep_enabled = true }

unfoldable after_edit : String × Database
unfolding save_with_options
after_edit =
    value_or ("", database) (save_with_options libraries 200 "new" "u" renamed none keep database)

save-after_edit :
    save_with_options libraries 200 "new" "u" renamed none keep database ≡ ok after_edit
unfolding after_edit keyword_valid trim_space valid_string
save-after_edit = refl

unfoldable edited_row : FeedRow
unfolding after_edit
edited_row = row_or row (lookup "f" after_edit.1.feeds)

lookup-after_edit : lookup "f" after_edit.1.feeds ≡ some edited_row
unfolding edited_row after_edit keyword_valid trim_space valid_string lookup
lookup-after_edit = refl

edited_row-last_changed : edited_row.last_changed ≤ row.last_changed
unfolding edited_row after_edit keyword_valid trim_space valid_string lookup
edited_row-last_changed = omega arith

save-shown_example : shown_of edited_row ≡ shown_of row
save-shown_example =
    save-shown libraries 200 "new" "u" renamed none keep database row edited_row after_edit refl
      lookup-database save-after_edit lookup-after_edit edited_row-last_changed

unfoldable after_filter : String × Database
unfolding save_filter
after_filter =
    value_or ("", database) (save_filter libraries 200 "new" (library_filter "k") keep database)

save_filter-after_filter :
    save_filter libraries 200 "new" (library_filter "k") keep database ≡ ok after_filter
unfolding after_filter keyword_valid trim_space valid_string
save_filter-after_filter = refl

row-uses : contains "k" row.filter_ids ≡ true
unfolding contains
row-uses = refl

save_filter-stale_example :
    complete safe_text guid_of first_byte 10 (at_second 300) feed failed after_filter.1 ≡ err stale
save_filter-stale_example =
    save_filter-stale libraries safe_text guid_of first_byte 10 200 "new" (library_filter "k") keep
      database row after_filter (at_second 300) feed failed refl lookup-database row-uses
      (omega arith) save_filter-after_filter

unfoldable after_failure : Database
unfolding complete
after_failure =
    value_or database
      (complete safe_text guid_of first_byte 10 (at_second 300) feed failed database)

complete-after_failure :
    complete safe_text guid_of first_byte 10 (at_second 300) feed failed database ≡ ok after_failure
unfolding after_failure lookup
complete-after_failure = refl

unfoldable failed_row : FeedRow
unfolding after_failure
failed_row = row_or row (lookup "f" after_failure.feeds)

lookup-after_failure : lookup "f" after_failure.feeds ≡ some failed_row
unfolding failed_row after_failure lookup insert
lookup-after_failure = refl

complete-IsFailed_example :
    (content_of failed_row ≡ content_of row)
    × (failed_row.failures ≡ 1)
    × (length failed_row.runs ≤ 50)
    × (unix_now (at_second 300 + 2 * minute) ≤ failed_row.next_run)
    × (unix_now (at_second 300 + 0) ≤ failed_row.next_run)
    × (failed_row.next_run ≤ unix_now (at_second 300 + max (24 * hour) 0 + 30 * second))
complete-IsFailed_example =
    complete-IsFailed safe_text guid_of first_byte 10 (at_second 300) feed failed database
      after_failure row failed_row "busy" refl (omega arith) lookup-database complete-after_failure
      lookup-after_failure

complete-settings_example :
    (after_failure.filters ≡ database.filters)
    × (settings_at "f" after_failure.feeds ≡ settings_at "f" database.feeds)
complete-settings_example =
    complete-settings safe_text guid_of first_byte 10 (at_second 300) feed failed database
      after_failure "f" complete-after_failure

-- A new filter, then a new feed that uses it.
unfoldable with_filter : String × Database
unfolding save_filter
with_filter =
    value_or ("", database) (save_filter libraries 10 "k" (library_filter "") keep empty_database)

save_filter-with_filter :
    save_filter libraries 10 "k" (library_filter "") keep empty_database ≡ ok with_filter
unfolding with_filter keyword_valid trim_space valid_string
save_filter-with_filter = refl

abbrev new_feed : Feed
new_feed = record feed { id = "" }

unfoldable with_feed : String × Database
unfolding save_with_options with_filter
with_feed =
    value_or ("", database)
      (save_with_options libraries 20 "f" "t" new_feed (some ("k" ∷ [])) keep with_filter.1)

save-with_feed :
    save_with_options libraries 20 "f" "t" new_feed (some ("k" ∷ [])) keep with_filter.1
    ≡ ok with_feed
unfolding with_feed with_filter keyword_valid trim_space valid_string
save-with_feed = refl

with_feed-Reachable : Reachable libraries safe_text guid_of first_byte 10 with_feed.1
unfolding with_filter keyword_valid trim_space valid_string with_feed
with_feed-Reachable =
    next (next start (filter_saved 10 "k" (library_filter "") keep "k" save_filter-with_filter))
      (saved 20 "f" "t" new_feed (some ("k" ∷ [])) keep "f" save-with_feed)

unfoldable stored_row : FeedRow
unfolding with_feed with_filter
stored_row = row_or row (lookup "f" with_feed.1.feeds)

lookup-with_feed : lookup "f" with_feed.1.feeds ≡ some stored_row
unfolding stored_row with_feed with_filter keyword_valid trim_space valid_string lookup
lookup-with_feed = refl

stored_row-recipe : stored_row.recipe ≡ some recipe
unfolding stored_row with_feed with_filter keyword_valid trim_space valid_string lookup
stored_row-recipe = refl

Reachable-effective_recipe_example :
    (merged : Recipe) × (m : Matcher) × (effective_recipe with_feed.1.filters
        (feed_of "f" recipe stored_row)
      ≡ ok merged)
    × (compile libraries merged.filters ≡ ok m)
Reachable-effective_recipe_example =
    Reachable-effective_recipe libraries safe_text guid_of first_byte 10 "f" stored_row recipe
      with_feed-Reachable lookup-with_feed stored_row-recipe

-- The merge of one new story, where retention keeps two of three.
stories-HasKeys : HasKeys stories
unfolding find
stories-HasKeys = (refl, (refl, tt))

window-succeed_example :
    (length (kept_stories guid_of "f" 2 (at_second 300) (item ∷ []) stories 60 50) ≤ 2)
    × HasKeys (kept_stories guid_of "f" 2 (at_second 300) (item ∷ []) stories 60 50)
window-succeed_example =
    window-succeed guid_of "f" 2 (at_second 300) (item ∷ []) stories 60 50 stories-HasKeys

abbrev merged_rows : List Story
merged_rows = merged_stories guid_of "f" 2 (at_second 300) (item ∷ []) stories 60 50

abbrev kept_rows : List Story
kept_rows = kept_stories guid_of "f" 2 (at_second 300) (item ∷ []) stories 60 50

find-kept : find "2" kept_rows ≡ some (story "2" (b'b' ∷ []) 20)
unfolding find succeed
find-kept = refl

find-merged : find "1" merged_rows ≡ some (story "1" (b'a' ∷ []) 10)
unfolding find merge
find-merged = refl

find-removed : find "1" kept_rows ≡ none
unfolding find succeed
find-removed = refl

newest-succeed_example :
    (find "2" merged_rows ≡ some (story "2" (b'b' ∷ []) 20)) × (ltb_ℤ (pos 20) (pos 10) ≡ false)
newest-succeed_example =
    newest-succeed guid_of "f" 2 (at_second 300) (item ∷ []) stories 60 50 "2" "1"
      (story "2" (b'b' ∷ []) 20) (story "1" (b'a' ∷ []) 10) stories-HasKeys find-kept find-merged
      find-removed

second-pos : 0 < unix_now (at_second 300)
unfolding unix_now
second-pos = omega arith

stories-IsPast : IsPast (unix_now (at_second 300)) stories
unfolding unix_now
stories-IsPast = (omega arith, omega arith, (omega arith, omega arith, tt))

-- A refresh that lists no story and keeps both.
quiet-last_changed : (succeed guid_of "f" 2 (at_second 300) [] stories 60 50).last_changed ≤ 60
unfolding succeed
quiet-last_changed = omega arith

shown-succeed_example :
    shown "1" (succeed guid_of "f" 2 (at_second 300) [] stories 60 50).stories ≡ shown "1" stories
shown-succeed_example =
    shown-succeed guid_of "f" 2 (at_second 300) [] stories 60 50 "1" second-pos stories-IsPast
      quiet-last_changed
