-- ===== src/Store/Bodies.antt =====
-- internal/store/save.go: which stored article bodies an edit clears.
use rss_workshop.Common.{
  ℕ, ◌==◌, max, String, str_eq, Bool, true, false, not, ◌&&◌, ◌||◌, Option, none, some, List, [],
  ◌∷◌, leb, if◌then◌else◌,
}
use rss_workshop.Model.Feed.{Recipe, FullContent}
use rss_workshop.Store.Rows.{Story, Run, FeedRow, is_blank}
use rss_workshop.Store.Pruning.{bump_changed}

-- `slices.Equal`
unfoldable pub strings_eq : List String → List String → Bool
strings_eq [] [] = true
strings_eq [] (t ∷ ts) = false
strings_eq (s ∷ ss) [] = false
strings_eq (s ∷ ss) (t ∷ ts) = str_eq s t && strings_eq ss ts

pub data BodyClear : Type 0 where
  keep_bodies clear_listed_bodies clear_all_bodies : BodyClear

-- The last case of the switch, for a selector that stays.
abbrev pub rules_changed : Recipe → Recipe → String → Bool
rules_changed stored new attr =
    str_eq attr ""
    && (not (strings_eq stored.remove new.remove)
        || (not (strings_eq new.remove []) && not (str_eq stored.type new.type)))

-- `articleBodiesChanged`, from the article bodies that the recipes ask for.
unfoldable pub bodies_changed :
    Option FullContent → Option FullContent → (stored new : Recipe) → BodyClear
unfolding strings_eq
bodies_changed none none stored new = keep_bodies
bodies_changed none (some is) stored new = clear_all_bodies
bodies_changed (some was) none stored new = clear_all_bodies
bodies_changed (some was) (some is) stored new =
    if not (str_eq was.selector is.selector) || not (str_eq was.attr is.attr)
    then clear_all_bodies
    else if rules_changed stored new is.attr
    then clear_listed_bodies
    else keep_bodies

unfoldable pub article_bodies_changed : Option Recipe → Recipe → BodyClear
unfolding bodies_changed
article_bodies_changed none new = clear_all_bodies
article_bodies_changed (some stored) new = bodies_changed stored.full new.full stored new

-- The count of the newest run without an error or a 304.
unfoldable pub listed_count : List Run → Option ℕ
listed_count [] = none
listed_count (r ∷ rs) =
    let rest = listed_count rs in
    if not (r.status == 304) && str_eq r.error "" then some r.count else rest

-- SELECT COALESCE(MAX(last_seen),0)
unfoldable pub latest_seen : List Story → ℕ
latest_seen [] = 0
latest_seen (r ∷ rs) = max r.last_seen (latest_seen rs)

-- UPDATE items SET content_full='' … from a `last_seen` on, and whether a row had a body.
unfoldable pub clear_from : (changed_at cutoff : ℕ) → List Story → List Story × Bool
clear_from changed_at cutoff [] = ([], false)
clear_from changed_at cutoff (r ∷ rs) =
    let (rest, any) = clear_from changed_at cutoff rs in
    if not (is_blank r.content_full) && leb cutoff r.last_seen
    then (record r { content_full = []; last_changed = changed_at } ∷ rest, true)
    else (r ∷ rest, any)

abbrev pub clear_since : (now cutoff : ℕ) → FeedRow → FeedRow
clear_since now cutoff row =
    let at = bump_changed row.last_changed now in
    let (stories, any) = clear_from at cutoff row.stories in
    if any then record row { stories = stories; last_changed = at } else row

-- `clearArticleBodies`
unfoldable pub clear_article_bodies : (now : ℕ) → BodyClear → FeedRow → FeedRow
unfolding listed_count latest_seen clear_from bump_changed
clear_article_bodies now keep_bodies row = row
clear_article_bodies now clear_all_bodies row = clear_since now 0 row
clear_article_bodies now clear_listed_bodies row =
    if elim (listed_count row.runs) [ some n ↦ n == 0 | none ↦ false ]
    then row
    else clear_since now (latest_seen row.stories) row
