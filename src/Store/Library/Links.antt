-- ===== src/Store/Library/Links.antt =====
-- The links between feeds and library filters, under the changes of either table.
use rss_workshop.Store.Options.{unknown_filter, too_many_links, duplicate_link}
use rss_workshop.Common.{
  ◌≡◌, refl, sym, subst, String, str_eq, true, false, Option, none, some, List, [], ◌∷◌,
  if◌then◌else◌, length, leb, arith, eq_iff, inl, inr, Option-cases,
}
use rss_workshop.Common.Assoc.{
  Assoc, lookup, insert, delete, contains, lookup-insert, lookup-delete,
}
use rss_workshop.Common.Result.{Returns, Returns-ok, Returns-err, Returns-bind, Returns-guard}
use rss_workshop.Model.Feed.{Recipe}
use rss_workshop.Store.Rows.{FeedRow, FilterRow}
use rss_workshop.Store.Library.{
  max_filters_per_feed, collect, library_rules, all_new, place_id, filter_feeds, is_used,
}

pub collect-insert :
    (k : String) (new : FilterRow) (filters : Assoc FilterRow) (ids : List String)
    → contains k ids ≡ false
    → collect (insert k new filters) ids ≡ collect filters ids
unfolding collect contains
collect-insert k new filters [] h = refl
collect-insert k new filters (id ∷ ids) h = ground (
  arith,
  collect-insert k new filters ids,
  lookup-insert k id new filters,
  eq_iff k id,
  eq_iff id k,
)

pub collect-delete :
    (k : String) (filters : Assoc FilterRow) (ids : List String)
    → contains k ids ≡ false
    → collect (delete k filters) ids ≡ collect filters ids
unfolding collect contains
collect-delete k filters [] h = refl
collect-delete k filters (id ∷ ids) h =
    ground
      (arith, collect-delete k filters ids, lookup-delete k id filters, eq_iff k id, eq_iff id k)

-- Filters that were read are stored.
collect_absent :
    (k : String) (filters : Assoc FilterRow) (ids : List String)
    → lookup k filters ≡ none
    → Returns (λ sets. contains k ids ≡ false) (collect filters ids)
unfolding collect contains
collect_absent k filters [] h = Returns-ok [] refl
collect_absent k filters (id ∷ ids) h = elim (Option-cases (lookup id filters)) [
  | inl e ↦ rw (collect, e) (Returns-err unknown_filter)
  | inr (row, e) ↦
      rw (collect, e)
        (Returns-bind (collect filters ids) _ λ sets found. Returns-ok (row.rules ∷ sets) (
          let rest = (collect_absent k filters ids h).at sets found in ground (arith, eq_iff id k)))
]

pub library_rules-insert :
    (k : String) (new : FilterRow) (filters : Assoc FilterRow) (ids : List String)
    → contains k ids ≡ false
    → library_rules (insert k new filters) ids ≡ library_rules filters ids
unfolding library_rules
library_rules-insert k new filters [] h = refl
library_rules-insert k new filters (id ∷ ids) h = rw (collect-insert k new filters (id ∷ ids) h)

pub library_rules-delete :
    (k : String) (filters : Assoc FilterRow) (ids : List String)
    → contains k ids ≡ false
    → library_rules (delete k filters) ids ≡ library_rules filters ids
unfolding library_rules
library_rules-delete k filters [] h = refl
library_rules-delete k filters (id ∷ ids) h = rw (collect-delete k filters (id ∷ ids) h)

pub library_rules_absent :
    (k : String) (filters : Assoc FilterRow) (ids : List String)
    → lookup k filters ≡ none
    → Returns (λ sets. contains k ids ≡ false) (library_rules filters ids)
unfolding library_rules
library_rules_absent k filters [] h = Returns-ok [] refl
library_rules_absent k filters (id ∷ ids) h =
    Returns-guard (leb (length (id ∷ ids)) max_filters_per_feed) too_many_links _ λ _.
      Returns-guard (all_new [] (id ∷ ids)) duplicate_link _
        λ _. collect_absent k filters (id ∷ ids) h

place_id-contains :
    (asked id : String) (ids : List String)
    → contains asked (place_id id ids) ≡ (if str_eq id asked then true else contains asked ids)
unfolding place_id contains
place_id-contains asked id [] = refl
place_id-contains asked id (j ∷ js) = ground (arith, place_id-contains asked id js)

-- The list of the feeds that use a filter has every one of them.
filter_feeds-contains :
    (filter_id id : String) (feeds : Assoc FeedRow) (row : FeedRow)
    → lookup id feeds ≡ some row
    → contains filter_id row.filter_ids ≡ true
    → contains id (filter_feeds filter_id feeds) ≡ true
unfolding filter_feeds lookup
filter_feeds-contains filter_id id [] row h used = cc
filter_feeds-contains filter_id id ((j, other) ∷ feeds) row h used = ground (
  arith,
  eq_iff j id,
  place_id-contains id j (filter_feeds filter_id feeds),
  filter_feeds-contains filter_id id feeds row,
)

is_used_absent :
    (filter_id id : String) (feeds : Assoc FeedRow) (row : FeedRow)
    → is_used filter_id feeds ≡ false
    → lookup id feeds ≡ some row
    → contains filter_id row.filter_ids ≡ false
unfolding is_used lookup
is_used_absent filter_id id [] row h found = cc
is_used_absent filter_id id ((j, other) ∷ feeds) row h found =
    ground (arith, eq_iff j id, is_used_absent filter_id id feeds row)

-- The links and the recipe of a feed.
unfoldable pub links_at : String → Assoc FeedRow → Option (List String × Option Recipe)
unfolding lookup
links_at id feeds = elim (lookup id feeds) [
  | none ↦ none
  | some row ↦ some (row.filter_ids, row.recipe)
]

pub links_at-found :
    (id : String) (feeds : Assoc FeedRow) (row : FeedRow)
    → lookup id feeds ≡ some row
    → links_at id feeds ≡ some (row.filter_ids, row.recipe)
unfolding links_at
links_at-found id feeds row h = rw (links_at, h)

pub links_at-insert :
    (id asked : String) (row : FeedRow) (feeds : Assoc FeedRow)
    → links_at asked (insert id row feeds)
      ≡ (if str_eq id asked then some (row.filter_ids, row.recipe) else links_at asked feeds)
unfolding links_at
links_at-insert id asked row feeds = ground (arith, lookup-insert id asked row feeds)

pub links_at-delete :
    (id asked : String) (feeds : Assoc FeedRow)
    → links_at asked (delete id feeds) ≡ (if str_eq id asked then none else links_at asked feeds)
unfolding links_at
links_at-delete id asked feeds = ground (arith, lookup-delete id asked feeds)

pub links_at_absent :
    (id : String) (feeds : Assoc FeedRow) → lookup id feeds ≡ none → links_at id feeds ≡ none
unfolding links_at
links_at_absent id feeds h = rw (links_at, h)

pub links_at_unused :
    (filter_id id : String) (feeds : Assoc FeedRow) (links : List String) (recipe : Option Recipe)
    → is_used filter_id feeds ≡ false
    → links_at id feeds ≡ some (links, recipe)
    → contains filter_id links ≡ false
unfolding links_at
links_at_unused filter_id id feeds links recipe unused h = elim (Option-cases (lookup id feeds)) [
  | inl e ↦ absurd (let missing = links_at_absent id feeds e in cc)
  | inr (row, e) ↦
      let found = links_at-found id feeds row e in
      let same : row.filter_ids ≡ links = cc in
      subst (λ l. contains filter_id l ≡ false) same
        (is_used_absent filter_id id feeds row unused e)
]

-- `filter_feeds` lists each feed whose links have the filter.
pub links_at_listed :
    (filter_id id : String) (feeds : Assoc FeedRow) (links : List String) (recipe : Option Recipe)
    → links_at id feeds ≡ some (links, recipe)
    → contains filter_id links ≡ true
    → contains id (filter_feeds filter_id feeds) ≡ true
unfolding links_at
links_at_listed filter_id id feeds links recipe h used = elim (Option-cases (lookup id feeds)) [
  | inl e ↦ absurd (let missing = links_at_absent id feeds e in cc)
  | inr (row, e) ↦
      let found = links_at-found id feeds row e in
      let same : row.filter_ids ≡ links = cc in
      filter_feeds-contains filter_id id feeds row e
        (subst (λ l. contains filter_id l ≡ true) (sym same) used)
]
