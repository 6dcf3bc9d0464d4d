-- ===== src/Store/Merge.antt =====
-- internal/store/store.go: how CompleteWithDiagnostics merges the items of a successful refresh
-- into the stored stories, which of them retention removes, and whether the output has changed.
-- SHA-256 is another library's: `guid_of` makes a story's GUID from the feed and the key.
pub mod Find
pub mod Visible
pub mod Account
pub mod Tracked
pub mod Output
pub mod Retention
use Prim.Native.Nat.{Ordering}
use Prim.Native.String.{compare}
use rss_workshop.Common.{
  ℕ, suc, ◌+◌, max, String, str_eq, Bool, true, false, not, ◌&&◌, ◌||◌, Option, none, some, List,
  [], ◌∷◌, ◌==◌, if◌then◌else◌, take,
}
use rss_workshop.Common.Int.{ℤ, pos, ltb_ℤ}
use rss_workshop.Common.Assoc.{Assoc, lookup, insert, delete, KeySet, contains}
use rss_workshop.Model.Item.{Item, Time}
use rss_workshop.Model.Text.{text_eq}
use rss_workshop.Store.Rows.{Story, unix, unix_now, readable_text, is_blank}

-- The row that a query for the key finds.
unfoldable pub find : String → List Story → Option Story
find k [] = none
find k (r ∷ rs) = if str_eq r.key k then some r else find k rs

-- The CASE of `last_changed`: whether a published field differs.
unfoldable pub differs : Story → Story → Bool
unfolding text_eq
differs old new =
    not (text_eq old.title new.title)
    || not (text_eq old.url new.url)
    || not (text_eq old.html new.html)
    || not (text_eq old.image new.image)
    || (not (is_blank new.content_full) && not (text_eq new.content_full old.content_full))

-- DO UPDATE SET, where `new` is the excluded row.
unfoldable pub update : Story → Story → Story
unfolding differs
update old new = record old {
  title = new.title;
  url = new.url;
  html = new.html;
  image = new.image;
  content_full = if is_blank new.content_full then old.content_full else new.content_full;
  last_seen = new.last_seen;
  last_changed =
      if differs old new
      then new.last_changed
      else if old.last_changed == 0
      then old.last_seen
      else old.last_changed;
}

-- INSERT … ON CONFLICT(feed_id,key) DO UPDATE
unfoldable pub upsert : Story → List Story → List Story
unfolding update
upsert new [] = new ∷ []
upsert new (r ∷ rs) =
    let rest = upsert new rs in if str_eq r.key new.key then update r new ∷ rs else r ∷ rest

-- The stories of a feed during the merge, and `touched`.
pub record Merged : Type 0 where
  pub stories : List Story
  pub touched : Assoc Bool

-- `if itemChanged == changedAt`, on the row that RETURNING gives.
unfoldable pub note : (now at : ℕ) → String → Option Story → Assoc Bool → Assoc Bool
note now at k none touched = touched
note now at k (some r) touched =
    if r.last_changed == at then insert k (r.first_seen == now) touched else touched

-- ORDER BY published DESC,key
unfoldable pub precedes : Story → Story → Bool
precedes a b =
    if ltb_ℤ b.published a.published
    then true
    else if ltb_ℤ a.published b.published
    then false
    else elim (compare a.key b.key) [ Ordering.gt ↦ false | _ ↦ true ]

unfoldable pub place : Story → List Story → List Story
unfolding precedes
place r [] = r ∷ []
place r (s ∷ ss) = let rest = place r ss in if precedes r s then r ∷ s ∷ ss else s ∷ rest

unfoldable pub newest_first : List Story → List Story
unfolding place
newest_first [] = []
newest_first (r ∷ rs) = place r (newest_first rs)

abbrev pub story_keys : List Story → KeySet
story_keys [] = []
story_keys (r ∷ rs) = r.key ∷ story_keys rs

-- SELECT key … ORDER BY published DESC,key LIMIT n
unfoldable pub kept_keys : ℕ → List Story → KeySet
unfolding newest_first
kept_keys n rs = story_keys (take n (newest_first rs))

-- DELETE … WHERE key NOT IN …: the rows that stay, and the keys that RETURNING gives.
unfoldable pub retain : KeySet → List Story → List Story
unfolding contains
retain ks [] = []
retain ks (r ∷ rs) = let rest = retain ks rs in if contains r.key ks then r ∷ rest else rest

unfoldable pub removed_keys : KeySet → List Story → List String
unfolding contains
removed_keys ks [] = []
removed_keys ks (r ∷ rs) =
    let rest = removed_keys ks rs in if contains r.key ks then rest else r.key ∷ rest

-- `!ok || !inserted`
abbrev pub was_published : Option Bool → Bool
was_published (some true) = false
was_published _ = true

-- The loop over the removed keys: `touched` and `changed`.
unfoldable pub account : List String → Assoc Bool → Bool → Assoc Bool × Bool
account [] touched changed = (touched, changed)
account (k ∷ ks) touched changed =
    account ks (delete k touched) (changed || was_published (lookup k touched))

abbrev pub any_touched : Assoc Bool → Bool
any_touched [] = false
any_touched (e ∷ m) = true

-- The loop that looks for an inserted story.
unfoldable pub any_inserted : Assoc Bool → Bool
any_inserted [] = false
any_inserted ((k, b) ∷ m) = b || any_inserted m

-- What a success writes of the feed's stories and of their times.
pub record Success : Type 0 where
  pub stories : List Story
  pub last_changed : ℕ
  pub last_new : ℕ

module _ (guid_of : String → String → String) (feed_id : String) where
  -- The row of an item of the refresh. An item without a date takes the time of the refresh.
  unfoldable pub incoming : (now : Time) (at : ℕ) → Item → Story
  unfolding unix unix_now readable_text
  incoming now at it = record {
    key = it.key;
    guid = guid_of feed_id it.key;
    title = readable_text it.title;
    url = readable_text it.url;
    html = readable_text it.html;
    image = readable_text it.image;
    content_full = readable_text it.full_html;
    published = if it.published == 0 then unix now else unix it.published;
    first_seen = unix_now now;
    last_seen = unix_now now;
    last_changed = at;
  }

  unfoldable pub merge_one : (now : Time) (at : ℕ) → Item → Merged → Merged
  unfolding incoming upsert note find
  merge_one now at it m =
      let rows = upsert (incoming now at it) m.stories in
      record {
        stories = rows;
        touched = note (unix_now now) at it.key (find it.key rows) m.touched;
      }

  unfoldable pub merge : (now : Time) (at : ℕ) → List Item → Merged → Merged
  unfolding merge_one
  merge now at [] m = m
  merge now at (it ∷ its) m = merge now at its (merge_one now at it m)

  -- The branch of a success, from the items to the update of the feed's times.
  unfoldable pub succeed :
      (max_items : ℕ) (now : Time)
      → List Item
      → (stories : List Story) (last_changed last_new : ℕ) → Success
  unfolding merge kept_keys retain removed_keys account any_inserted unix_now
  succeed max_items now items stories last_changed last_new =
      let at = max (unix_now now) (last_changed + 1) in
      let m = merge now at items (record { stories = stories; touched = [] }) in
      let keys = kept_keys max_items m.stories in
      let (touched, lost) = account (removed_keys keys m.stories) m.touched false in
      let changed = lost || any_touched touched in
      record {
        stories = retain keys m.stories;
        last_changed = if changed || last_changed == 0 then at else last_changed;
        last_new = if any_inserted touched then unix_now now else last_new;
      }
