-- ===== src/Store/Rows.antt =====
-- internal/store/schema.sql and store.go: the rows. Those of `items`, `runs` and `feed_filters`
-- with a feed's id stand in the feed's row, with which ON DELETE CASCADE deletes them. A time is
-- in Unix seconds, as stored.
use Prim.Native.Char.{code}
use rss_workshop.Common.{
  ℕ, ◌+◌, ◌-◌, ◌*◌, ◌/◌, String, Bool, true, false, Option, List, [], ◌∷◌, ◌==◌, if◌then◌else◌,
}
use rss_workshop.Common.Int.{ℤ, sub_ℕ}
use rss_workshop.Common.Assoc.{Assoc}
use rss_workshop.Model.Text.{Text, valid_rune}
use rss_workshop.Model.Item.{Time}
use rss_workshop.Model.Feed.{Recipe}
use rss_workshop.Model.Filters.{FilterSet}

-- A row of `items`. `published` may lie before 1970.
pub record Story : Type 0 where
  pub key : String
  pub guid : String
  pub title : Text
  pub url : Text
  pub html : Text
  pub image : Text
  pub content_full : Text
  pub published : ℤ
  pub first_seen : ℕ
  pub last_seen : ℕ
  pub last_changed : ℕ

-- A row of `runs`, without its diagnostics.
pub record Run : Type 0 where
  pub run_id : ℕ
  pub ended : ℕ
  pub status : ℕ
  pub count : ℕ
  pub error : String

-- A row of `feeds` with its stories, runs and library filters in order of position. A stored
-- recipe that does not decode is `none`.
pub record FeedRow : Type 0 where
  pub rss_token : String
  pub title : String
  pub url : String
  pub recipe : Option Recipe
  pub interval : ℤ
  pub enabled : Bool
  pub next_run : ℕ
  pub last_attempt : ℕ
  pub last_success : ℕ
  pub error : String
  pub failures : ℕ
  pub etag : String
  pub modified : String
  pub version : ℕ
  pub last_changed : ℕ
  pub last_new : ℕ
  pub filter_ids : List String
  pub stories : List Story
  pub runs : List Run

-- A row of `filters`; its rules were encoded from a FilterSet.
pub record FilterRow : Type 0 where
  pub name : Text
  pub rules : FilterSet

-- `next_id` is the row id that the next run gets.
pub record Database : Type 0 where
  pub feeds : Assoc FeedRow
  pub filters : Assoc FilterRow
  pub next_id : ℕ

abbrev pub nanoseconds : ℕ
nanoseconds = 1000000000

-- The seconds from Go's zero time to 1970.
abbrev pub unix_epoch : ℕ
unix_epoch = 62135596800

-- `t.Unix()`
unfoldable pub unix : Time → ℤ
unix t = sub_ℕ (t / nanoseconds) unix_epoch

-- `t.Unix()` of a clock reading.
unfoldable pub unix_now : Time → ℕ
unix_now t = t / nanoseconds - unix_epoch

unfoldable pub stamp : ℕ → Time
stamp n = if n == 0 then 0 else (n + unix_epoch) * nanoseconds

abbrev pub replacement : ℕ
replacement = 0xfffd

-- `readableText`: one U+FFFD for a run of invalid bytes, and for a NUL. `broken` says whether the
-- last byte was invalid.
unfoldable pub readable_from : Bool → Text → Text
unfolding valid_rune
readable_from broken [] = []
readable_from broken (c ∷ t) =
    let good = readable_from false t in
    let bad = readable_from true t in
    if valid_rune c
    then (if c == 0 then replacement else c) ∷ good
    else (if broken then bad else replacement ∷ bad)

unfoldable pub readable_text : Text → Text
unfolding readable_from
readable_text t = readable_from false t

-- `readableText` of a title or an address, which came as valid UTF-8.
unfoldable pub readable_string : String → String
readable_string String.[] = String.[]
readable_string (String.◌∷◌ c s) =
    let rest = readable_string s in if code c == 0 then String.◌∷◌ "�" rest else String.◌∷◌ c rest

abbrev pub is_blank : Text → Bool
is_blank [] = true
is_blank (c ∷ t) = false
