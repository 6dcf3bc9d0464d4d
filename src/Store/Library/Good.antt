-- ===== src/Store/Library/Good.antt =====
-- Every feed's library filters stay stored and its rules compile, when library filters change.
use rss_workshop.Store.Options.{
  SaveOptions, conflict, no_row, library_full, no_rules, filter_in_use, has_rules,
}
use rss_workshop.Common.{
  ℕ, ◌≡◌, sym, ◌∙◌, subst, String, str_eq, not, Option, some, List, length, leb, arith, inl, inr,
  Bool-cases, Option-cases,
}
use rss_workshop.Common.Assoc.{Assoc, lookup, insert, delete, contains}
use rss_workshop.Common.Result.{
  ok, Returns, Returns-weaken, Returns-ok, Returns-err, Returns-bind, Returns-guard,
}
use rss_workshop.Model.Feed.{Recipe}
use rss_workshop.Model.Filters.{LibraryFilter}
use rss_workshop.Filter.Text.{Libraries}
use rss_workshop.Filter.Compile.{compile}
use rss_workshop.Store.Rows.{FeedRow, FilterRow, Database}
use rss_workshop.Store.Library.{
  max_library_filters, merged_or_error, filter_row, library_rules, insert_filter, add_filter,
  edit_filter, save_filter, is_used, delete_filter, filter_feeds,
}
use rss_workshop.Store.Library.Links.{
  links_at, links_at-found, links_at-insert, links_at-delete, library_rules-insert,
  library_rules-delete, library_rules_absent, links_at_listed, links_at_unused,
}
use rss_workshop.Store.Library.Effective.{IsRefreshable}
use rss_workshop.Store.Library.Relink.{SameLinks, links-IsRefreshable, relink_all-IsRelinked}

module _ (lib : Libraries) where
  abbrev pub AllRefreshable : Assoc FilterRow → Assoc FeedRow → Type 0
  AllRefreshable filters feeds =
      (id : String) (links : List String) (recipe : Option Recipe)
      → links_at id feeds ≡ some (links, recipe)
      → IsRefreshable lib filters links recipe

  pub insert-AllRefreshable :
      (filters : Assoc FilterRow) (feeds : Assoc FeedRow) (id : String) (row : FeedRow)
      → IsRefreshable lib filters row.filter_ids row.recipe
      → AllRefreshable filters feeds
      → AllRefreshable filters (insert id row feeds)
  insert-AllRefreshable filters feeds id row good all asked links recipe at =
      elim (Bool-cases (str_eq id asked)) [
        | inl e ↦
            links-IsRefreshable lib row links recipe _ (links_at-insert id asked row feeds ∙ rw e)
              at good
        | inr e ↦ all asked links recipe (sym (links_at-insert id asked row feeds ∙ rw e) ∙ at)
      ]

  pub delete-AllRefreshable :
      (filters : Assoc FilterRow) (feeds : Assoc FeedRow) (id : String)
      → AllRefreshable filters feeds
      → AllRefreshable filters (delete id feeds)
  delete-AllRefreshable filters feeds id all asked links recipe at =
      all asked links recipe (let step = links_at-delete id asked feeds in ground arith)

  pub at_row :
      (filters : Assoc FilterRow) (feeds : Assoc FeedRow) (id : String) (row row' : FeedRow)
      → AllRefreshable filters feeds
      → lookup id feeds ≡ some row
      → SameLinks row row'
      → IsRefreshable lib filters row'.filter_ids row'.recipe
  at_row filters feeds id row row' all found (same, same') =
      links-IsRefreshable lib row row'.filter_ids row'.recipe _ (links_at-found id feeds row found)
        (links_at-found id feeds row found ∙ cc)
        (all id row.filter_ids row.recipe (links_at-found id feeds row found))

  pub store_row-AllRefreshable :
      (filters : Assoc FilterRow) (feeds : Assoc FeedRow) (id : String) (row row' : FeedRow)
      → lookup id feeds ≡ some row
      → SameLinks row row'
      → AllRefreshable filters feeds
      → AllRefreshable filters (insert id row' feeds)
  store_row-AllRefreshable filters feeds id row row' found same all =
      insert-AllRefreshable filters feeds id row' (at_row filters feeds id row row' all found same)
        all

  abbrev pub AllGood : Database → Type 0
  AllGood db = AllRefreshable db.filters db.feeds

  -- A filter that no feed uses comes or goes.
  unused-AllRefreshable :
      (filters filters' : Assoc FilterRow) (feeds : Assoc FeedRow)
      → ((id : String) (links : List String) (recipe : Option Recipe)
          → links_at id feeds ≡ some (links, recipe)
          → IsRefreshable lib filters links recipe
          → library_rules filters' links ≡ library_rules filters links)
      → AllRefreshable filters feeds
      → AllRefreshable filters' feeds
  unused-AllRefreshable filters filters' feeds same all id links recipe at =
      let good = all id links recipe at in
      record {
        shared = good.shared;
        reads = same id links recipe at good ∙ good.reads;
        compiles = good.compiles;
      }

  insert_filter-AllGood :
      (id : String) (row : FilterRow) (db : Database)
      → AllGood db
      → Returns AllGood (insert_filter lib id row db)
  unfolding insert_filter
  insert_filter-AllGood id row db all = elim (Option-cases (lookup id db.filters)) [
    | inl e ↦
        rw (insert_filter, e)
          (Returns-ok _ (
            unused-AllRefreshable db.filters (insert id row db.filters) db.feeds
              (λ asked links recipe at good.
                library_rules-insert id row db.filters links
                  ((library_rules_absent id db.filters links e).at good.shared good.reads))
              all))
    | inr (old, e) ↦ rw (insert_filter, e) (Returns-err conflict)
  ]

  add_filter-AllGood :
      (new_id : String) (lf : LibraryFilter) (db : Database)
      → AllGood db
      → Returns AllGood (add_filter lib new_id lf db)
  unfolding add_filter
  add_filter-AllGood new_id lf db all =
      Returns-guard (not (leb max_library_filters (length db.filters))) library_full _
        λ _. insert_filter-AllGood new_id (filter_row lib lf) db all

  pub delete_filter-AllGood :
      (id : String) (db : Database) → AllGood db → Returns AllGood (delete_filter id db)
  unfolding delete_filter
  delete_filter-AllGood id db all = elim (Option-cases (lookup id db.filters)) [
    | inl e ↦ rw (delete_filter, e) (Returns-err no_row)
    | inr (row, e) ↦ elim (Bool-cases (is_used id db.feeds)) [
      | inl used ↦ rw (delete_filter, e, used) (Returns-err filter_in_use)
      | inr unused ↦
          rw (delete_filter, e, unused)
            (Returns-ok _ (
              unused-AllRefreshable db.filters (delete id db.filters) db.feeds
                (λ asked links recipe at good.
                  library_rules-delete id db.filters links
                    (links_at_unused id asked db.feeds links recipe unused at))
                all))
    ]
  ]

  edit_filter-AllGood :
      (now : ℕ) (lf : LibraryFilter) (options : SaveOptions) (db : Database)
      → AllGood db
      → Returns AllGood (edit_filter lib now lf options db)
  unfolding edit_filter
  edit_filter-AllGood now lf options db all = elim (Option-cases (lookup lf.id db.filters)) [
    | inl e ↦ rw (edit_filter, e) (Returns-err no_row)
    | inr (old, e) ↦
        rw (edit_filter, e)
          (let edited = record db { filters = insert lf.id (filter_row lib lf) db.filters } in
            Returns-weaken
              (λ db' done asked links recipe at.
                let before = sym (done.links asked) ∙ at in
                subst (λ fs. IsRefreshable lib fs links recipe) (sym done.filters)
                  (elim (Bool-cases (contains lf.id links)) [
                    | inl used ↦
                        done.checked asked links recipe
                          (links_at_listed lf.id asked db.feeds links recipe before used) before
                          used
                    | inr unused ↦
                        let good = all asked links recipe before in
                        record {
                          shared = good.shared;
                          reads =
                              library_rules-insert lf.id (filter_row lib lf) db.filters links unused
                              ∙ good.reads;
                          compiles = good.compiles;
                        }
                  ]))
              (relink_all-IsRelinked lib now lf.id options (filter_feeds lf.id db.feeds) edited))
  ]

  pub save_filter-AllGood :
      (now : ℕ) (new_id : String) (lf : LibraryFilter) (options : SaveOptions) (db : Database)
      → AllGood db
      → Returns (λ out. AllGood out.1) (save_filter lib now new_id lf options db)
  unfolding save_filter
  save_filter-AllGood now new_id lf options db all =
      Returns-bind (merged_or_error lib (compile lib (some lf.filters))) _ λ m _.
        Returns-guard (has_rules (some lf.filters)) no_rules _ λ _.
          elim (Bool-cases (str_eq lf.id "")) [
            | inl e ↦ rw e (
                Returns-bind (add_filter lib new_id lf db) (λ db'. ok (new_id, db'))
                  λ db' done.
                    Returns-ok (new_id, db') ((add_filter-AllGood new_id lf db all).at db' done))
            | inr e ↦ rw e (
                Returns-bind (edit_filter lib now lf options db) (λ db'. ok (lf.id, db'))
                  λ db' done.
                    Returns-ok (lf.id, db')
                      ((edit_filter-AllGood now lf options db all).at db' done))
          ]
