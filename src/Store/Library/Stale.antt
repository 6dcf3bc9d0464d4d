-- ===== src/Store/Library/Stale.antt =====
-- An edit of a library filter and the refreshes that were running.
use rss_workshop.Store.Options.{unreadable, no_row, no_rules, SaveOptions, has_rules}
use rss_workshop.Common.{
  ℕ, ◌+◌, ◌≤◌, ◌≡◌, refl, sym, ◌∙◌, subst, String, str_eq, true, false, some, List, [], ◌∷◌, arith,
  eq_iff, inl, inr, Bool-cases, Option-cases,
}
use rss_workshop.Common.Assoc.{Assoc, lookup, insert, contains, lookup-insert, lookup-insert_self}
use rss_workshop.Common.Result.{
  ok, err, Returns, Returns-ok, Returns-err, Returns-bind, Returns-guard,
}
use rss_workshop.Model.Item.{Time}
use rss_workshop.Model.Feed.{Feed}
use rss_workshop.Model.Filters.{LibraryFilter}
use rss_workshop.Filter.Text.{Libraries}
use rss_workshop.Filter.Compile.{compile}
use rss_workshop.Store.Rows.{FeedRow, FilterRow, Database}
use rss_workshop.Store.Complete.{Outcome, stale, complete}
use rss_workshop.Store.Library.{
  effective, feed_of, titled, renew, relink_row, relink, relink_all, filter_feeds, filter_row,
  merged_or_error, edit_filter, save_filter,
}
use rss_workshop.Store.Library.Links.{links_at-found, links_at_listed}
use rss_workshop.Store.Library.Relink.{prune_history-SameLinks}
use rss_workshop.Store.Edit.Stale.{older-stale, prune_history-version}

-- The feed has a row with links like these, of at least this version.
record HasVersion (id : String) (links : List String) (version : ℕ) (feeds : Assoc FeedRow)
    : Type 0 where
  pub row : FeedRow
  pub found : lookup id feeds ≡ some row
  pub same : row.filter_ids ≡ links
  pub newer : version ≤ row.version

at_row :
    {id : String} {links : List String} {version : ℕ} {feeds : Assoc FeedRow} (row : FeedRow)
    → lookup id feeds ≡ some row
    → HasVersion id links version feeds
    → (row.filter_ids ≡ links) × (version ≤ row.version)
at_row {links} {version} row found h =
    let at = h.found in
    let same : h.row ≡ row = cc in
    (subst (λ r. r.filter_ids ≡ links) same h.same, subst (λ r. version ≤ r.version) same h.newer)

insert-HasVersion :
    (id asked : String) (links : List String) (version : ℕ) (feeds : Assoc FeedRow)
    (row row' : FeedRow)
    → lookup id feeds ≡ some row
    → row'.filter_ids ≡ row.filter_ids
    → row.version ≤ row'.version
    → HasVersion asked links version feeds
    → HasVersion asked links version (insert id row' feeds)
insert-HasVersion id asked links version feeds row row' found same newer h =
    elim (Bool-cases (str_eq id asked)) [
      | inl e ↦
          let at =
            at_row row (subst (λ k. lookup k feeds ≡ some row) ((eq_iff id asked).0 e) found) h in
          record {
            row = row';
            found = lookup-insert id asked row' feeds ∙ rw e;
            same = same ∙ at.0;
            newer = let le = at.1 in omega arith;
          }
      | inr e ↦ record {
        row = h.row;
        found = let step = lookup-insert id asked row' feeds in let before = h.found in cc;
        same = h.same;
        newer = h.newer;
      }
    ]

module _ (lib : Libraries) where
  relink_row-version :
      (now : ℕ) (filters : Assoc FilterRow) (options : SaveOptions) (id : String) (row : FeedRow)
      → Returns
          (λ row'. (row'.filter_ids ≡ row.filter_ids) × (row'.version ≡ row.version + 1))
          (relink_row lib now filters options id row)
  unfolding relink_row
  relink_row-version now filters options id row = elim (Option-cases row.recipe) [
    | inl e ↦ rw (relink_row, e) (Returns-err unreadable)
    | inr (r, e) ↦
        rw (relink_row, e)
          (Returns-bind (titled lib row.title (effective lib filters (feed_of id r row) options)) _
            λ out _.
              let asked = options.apply_filters_to_history in
              let next = renew lib now row in
              record {
                at = λ row' done. (
                  ((prune_history-SameLinks lib now asked out.0 out.1 next).at row' done).0,
                  (prune_history-version lib now asked out.0 out.1 next).at row' done,
                );
              })
  ]

  -- A round keeps the versions of all feeds, and raises that of a feed which uses the filter.
  relink-version :
      (now : ℕ) (filter_id : String) (options : SaveOptions) (id : String) (db : Database)
      (asked : String) (links : List String) (version : ℕ)
      → HasVersion asked links version db.feeds
      → Returns
          (λ db'. HasVersion asked links version db'.feeds)
          (relink lib now filter_id options id db)
  unfolding relink
  relink-version now filter_id options id db asked links version h =
      elim (Option-cases (lookup id db.feeds)) [
        | inl e ↦ rw (relink, e) (Returns-ok db h)
        | inr (row, e) ↦ elim (Bool-cases (contains filter_id row.filter_ids)) [
          | inr unused ↦ rw (relink, e, unused) (Returns-ok db h)
          | inl used ↦
              rw (relink, e, used)
                (Returns-bind (relink_row lib now db.filters options id row) _ λ row' done.
                  let same = (relink_row-version now db.filters options id row).at row' done in
                  Returns-ok (record db { feeds = insert id row' db.feeds })
                    (insert-HasVersion id asked links version db.feeds row row' e same.0
                      (let more = same.1 in omega arith) h))
        ]
      ]

  relink-raises :
      (now : ℕ) (filter_id : String) (options : SaveOptions) (id : String) (db : Database)
      (links : List String) (version : ℕ)
      → contains filter_id links ≡ true
      → HasVersion id links version db.feeds
      → Returns
          (λ db'. HasVersion id links (version + 1) db'.feeds)
          (relink lib now filter_id options id db)
  unfolding relink
  relink-raises now filter_id options id db links version used h =
      let found = h.found in
      let used' = subst (λ l. contains filter_id l ≡ true) (sym h.same) used in
      rw (relink, found, used')
        (Returns-bind (relink_row lib now db.filters options id h.row) _ λ row' done.
          let same = (relink_row-version now db.filters options id h.row).at row' done in
          Returns-ok (record db { feeds = insert id row' db.feeds })
            (record {
              row = row';
              found = lookup-insert_self id row' db.feeds;
              same = same.0 ∙ h.same;
              newer = let more = same.1 in let le = h.newer in omega arith;
            }))

  relink_all-version :
      (now : ℕ) (filter_id : String) (options : SaveOptions) (ids : List String) (db : Database)
      (asked : String) (links : List String) (version : ℕ)
      → HasVersion asked links version db.feeds
      → Returns
          (λ db'. HasVersion asked links version db'.feeds)
          (relink_all lib now filter_id options ids db)
  unfolding relink_all
  relink_all-version now filter_id options [] db asked links version h = Returns-ok db h
  relink_all-version now filter_id options (id ∷ ids) db asked links version h =
      Returns-bind (relink lib now filter_id options id db) _ λ db1 done.
        relink_all-version now filter_id options ids db1 asked links version
          ((relink-version now filter_id options id db asked links version h).at db1 done)

  relink_all-raises :
      (now : ℕ) (filter_id : String) (options : SaveOptions) (ids : List String) (db : Database)
      (asked : String) (links : List String) (version : ℕ)
      → contains filter_id links ≡ true
      → contains asked ids ≡ true
      → HasVersion asked links version db.feeds
      → Returns
          (λ db'. HasVersion asked links (version + 1) db'.feeds)
          (relink_all lib now filter_id options ids db)
  unfolding relink_all
  relink_all-raises now filter_id options [] db asked links version used listed h = absurd cc
  relink_all-raises now filter_id options (id ∷ ids) db asked links version used listed h =
      Returns-bind (relink lib now filter_id options id db) _ λ db1 done.
        elim (Bool-cases (str_eq id asked)) [
          | inl e ↦
              let h' =
                subst (λ k. HasVersion k links version db.feeds) (sym ((eq_iff id asked).0 e)) h in
              subst
                (λ k.
                  Returns (λ db'. HasVersion k links (version + 1) db'.feeds)
                    (relink_all lib now filter_id options ids db1))
                ((eq_iff id asked).0 e)
                (relink_all-version now filter_id options ids db1 id links (version + 1)
                  ((relink-raises now filter_id options id db links version used h').at db1 done))
          | inr e ↦
              relink_all-raises now filter_id options ids db1 asked links version used
                (ground arith)
                ((relink-version now filter_id options id db asked links version h).at db1 done)
        ]

  edit_filter-raises :
      (now : ℕ) (lf : LibraryFilter) (options : SaveOptions) (db : Database) (id : String)
      (row : FeedRow)
      → lookup id db.feeds ≡ some row
      → contains lf.id row.filter_ids ≡ true
      → Returns
          (λ db'. HasVersion id row.filter_ids (row.version + 1) db'.feeds)
          (edit_filter lib now lf options db)
  unfolding edit_filter
  edit_filter-raises now lf options db id row found used =
      elim (Option-cases (lookup lf.id db.filters)) [
        | inl e ↦ rw (edit_filter, e) (Returns-err no_row)
        | inr (old, e) ↦
            rw (edit_filter, e)
              (relink_all-raises now lf.id options (filter_feeds lf.id db.feeds)
                (record db { filters = insert lf.id (filter_row lib lf) db.filters }) id
                row.filter_ids row.version used
                (links_at_listed lf.id id db.feeds row.filter_ids row.recipe
                  (links_at-found id db.feeds row found) used)
                (record { row = row; found = found; same = refl; newer = omega arith }))
      ]

  save_filter-raises :
      (now : ℕ) (new_id : String) (lf : LibraryFilter) (options : SaveOptions) (db : Database)
      (id : String) (row : FeedRow)
      → str_eq lf.id "" ≡ false
      → lookup id db.feeds ≡ some row
      → contains lf.id row.filter_ids ≡ true
      → Returns
          (λ out. HasVersion id row.filter_ids (row.version + 1) out.1.feeds)
          (save_filter lib now new_id lf options db)
  unfolding save_filter
  save_filter-raises now new_id lf options db id row h found used =
      Returns-bind (merged_or_error lib (compile lib (some lf.filters))) _ λ m _.
        Returns-guard (has_rules (some lf.filters)) no_rules _ λ _. rw h (
          Returns-bind (edit_filter lib now lf options db) (λ db'. ok (lf.id, db'))
            λ db' done.
              Returns-ok (lf.id, db')
                ((edit_filter-raises now lf options db id row found used).at db' done))

  -- An edit of a library filter discards as stale each refresh that started before it, of every
  -- feed that uses the filter.
  pub save_filter-stale :
      (safe_text : String → ℕ → String) (guid_of : String → String → String)
      (first_byte : String → ℕ) (max_items now : ℕ) (new_id : String) (lf : LibraryFilter)
      (options : SaveOptions) (db : Database) (row : FeedRow) (out : String × Database)
      (later : Time) (running : Feed) (o : Outcome)
      → str_eq lf.id "" ≡ false
      → lookup running.id db.feeds ≡ some row
      → contains lf.id row.filter_ids ≡ true
      → running.version ≤ row.version
      → save_filter lib now new_id lf options db ≡ ok out
      → complete safe_text guid_of first_byte max_items later running o out.1 ≡ err stale
  save_filter-stale safe_text guid_of first_byte max_items now new_id lf options db row out later
        running o h found used older saved =
      let after =
        (save_filter-raises now new_id lf options db running.id row h found used).at out saved in
      let newer = after.newer in
      older-stale safe_text guid_of first_byte max_items later running o out.1 after.row after.found
        (omega arith)
