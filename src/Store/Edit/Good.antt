-- ===== src/Store/Edit/Good.antt =====
-- Saved and imported feeds have library filters that are stored and rules that compile.
use rss_workshop.Store.Options.{SaveOptions, conflict, no_row}
use rss_workshop.Store.Bodies.{
  BodyClear, keep_bodies, clear_listed_bodies, clear_all_bodies, clear_article_bodies,
  article_bodies_changed,
}
use rss_workshop.Store.Switches.{
  update_feed, or_no_row, enable_row, set_enabled, queue, rotate_token,
}
use rss_workshop.Common.{
  ℕ, ◌≡◌, refl, sym, ap, ◌∙◌, subst, String, str_eq, Bool, true, false, not, Option, none, some,
  List, [], ◌∷◌, arith, inl, inr, Bool-cases, Option-cases,
}
use rss_workshop.Common.Assoc.{Assoc, lookup}
use rss_workshop.Common.Result.{
  Result, ok, err, Returns, Returns-weaken, Returns-ok, Returns-err, Returns-bind, Returns-guard,
}
use rss_workshop.Model.Feed.{Feed, Recipe}
use rss_workshop.Filter.Text.{Libraries}
use rss_workshop.Filter.Compile.{CompileError, Matcher, compile}
use rss_workshop.Filter.Combine.{combine}
use rss_workshop.Store.Rows.{FeedRow, FilterRow, Database}
use rss_workshop.Store.Library.{effective, library_rules, feed_filter_ids}
use rss_workshop.Store.Library.Effective.{IsRefreshable, effective-IsMerged, merged-IsRefreshable}
use rss_workshop.Store.Library.Relink.{SameLinks, prune_history-SameLinks}
use rss_workshop.Store.Edit.Steps.{IsEdited, edit_feed-IsReplaced}
use rss_workshop.Store.Edit.{
  update_row, new_row, token_used, store_feed, link_filters, feeds_in, edit_feed, add_feed,
  links_of, with_links, cleared_row, own_rules_or_error, save_with_options, check_feeds,
  insert_feeds, import_feeds,
}
use rss_workshop.Store.Library.Good.{
  AllRefreshable, AllGood, insert-AllRefreshable, store_row-AllRefreshable,
}

module _ (lib : Libraries) where
  pub update_feed-AllRefreshable :
      (filters : Assoc FilterRow) (feeds : Assoc FeedRow) (id : String) (change : FeedRow → FeedRow)
      → ((row : FeedRow) → SameLinks row (change row))
      → AllRefreshable lib filters feeds
      → AllRefreshable lib filters (update_feed id change feeds)
  unfolding update_feed
  update_feed-AllRefreshable filters feeds id change same all =
      elim (Option-cases (lookup id feeds)) [
        | inl e ↦ subst (AllRefreshable lib filters) (sym (rw (update_feed, e))) all
        | inr (row, e) ↦
            subst (AllRefreshable lib filters) (sym (rw (update_feed, e)))
              (store_row-AllRefreshable lib filters feeds id row (change row) e (same row) all)
      ]

  -- New feeds have no links, or those that were checked.
  store_feed-AllGood :
      (id : String) (row : FeedRow) (db : Database)
      → IsRefreshable lib db.filters row.filter_ids row.recipe
      → AllGood lib db
      → Returns (AllGood lib) (store_feed id row db)
  unfolding store_feed
  store_feed-AllGood id row db good all =
      Returns-guard (not (token_used row.rss_token db.feeds)) conflict _ λ _.
        elim (Option-cases (lookup id db.feeds)) [
          | inl e ↦
              rw e (Returns-ok _ (insert-AllRefreshable lib db.filters db.feeds id row good all))
          | inr (old, e) ↦ rw e (Returns-err conflict)
        ]

  clear-SameLinks :
      (now : ℕ) (cleared : BodyClear) (row : FeedRow)
      → SameLinks row (clear_article_bodies now cleared row)
  unfolding clear_article_bodies
  clear-SameLinks now keep_bodies row = (refl, refl)
  clear-SameLinks now clear_all_bodies row = (ground arith, ground arith)
  clear-SameLinks now clear_listed_bodies row = (ground arith, ground arith)

  update_row-filter_ids :
      (now : ℕ) (keep : Bool) (f : Feed) (row : FeedRow)
      → ((update_row now keep f row).filter_ids ≡ row.filter_ids)
        × ((update_row now keep f row).recipe ≡ some f.recipe)
  unfolding update_row
  update_row-filter_ids now keep f row = (refl, refl)

  abbrev linked : Option (List String) → FeedRow → List String
  linked none row = row.filter_ids
  linked (some ids) row = ids

  link_filters-linked :
      (links : Option (List String)) (row row' : FeedRow) (r : Option Recipe)
      → row'.filter_ids ≡ row.filter_ids
      → row'.recipe ≡ r
      → ((link_filters links row').filter_ids ≡ linked links row)
        × ((link_filters links row').recipe ≡ r)
  link_filters-linked none row row' r e e' = (e, e')
  link_filters-linked (some ids) row row' r e e' = (refl, e')

  cleared_row-linked :
      (now : ℕ) (options : SaveOptions) (f : Feed) (row : FeedRow)
      → ((cleared_row lib now options f row).filter_ids ≡ row.filter_ids)
        × ((cleared_row lib now options f row).recipe ≡ some f.recipe)
  unfolding cleared_row
  cleared_row-linked now options f row =
      let updated = update_row now options.keep_enabled f row in
      let cleared = clear-SameLinks now (article_bodies_changed row.recipe f.recipe) updated in
      let same = update_row-filter_ids now options.keep_enabled f row in
      (cleared.0 ∙ same.0, cleared.1 ∙ same.1)

  edited-linked :
      {now : ℕ} {f : Feed} {links : Option (List String)} {options : SaveOptions}
      {rules : Recipe × Matcher} {row row' : FeedRow}
      → IsEdited lib now f links options row rules row'
      → (row'.filter_ids ≡ linked links row) × (row'.recipe ≡ some f.recipe)
  edited-linked {now} {f} {links} {options} {rules} {row} h =
      let cleared = cleared_row lib now options f row in
      let asked = options.apply_filters_to_history in
      let same =
        (prune_history-SameLinks lib now asked rules.0 rules.1 cleared).at h.pruned h.prunes in
      let before = cleared_row-linked now options f row in
      let after =
        link_filters-linked links row h.pruned (some f.recipe) (same.0 ∙ before.0)
          (same.1 ∙ before.1) in
      (ap (λ r. r.filter_ids) h.relinked ∙ after.0, ap (λ r. r.recipe) h.relinked ∙ after.1)

  links_of-row :
      (links : Option (List String)) (id : String) (feeds : Assoc FeedRow) (row : FeedRow)
      → str_eq id "" ≡ false
      → lookup id feeds ≡ some row
      → links_of lib links id feeds ≡ linked links row
  unfolding links_of feed_filter_ids
  links_of-row none id feeds row h e = rw (links_of, h, feed_filter_ids, e)
  links_of-row (some ids) id feeds row h e = refl

  as_linked :
      {filters : Assoc FilterRow} {ids ids' : List String} {r r' : Option Recipe}
      → ids' ≡ ids
      → r' ≡ r
      → IsRefreshable lib filters ids r
      → IsRefreshable lib filters ids' r'
  as_linked {filters} {ids} {ids'} {r} {r'} e e' h =
      subst (λ q. IsRefreshable lib filters ids' q) (sym e')
        (subst (λ l. IsRefreshable lib filters l r) (sym e) h)

  new_row-linked :
      (now : ℕ) (token id : String) (enabled : Bool) (f : Feed) (links : Option (List String))
      (feeds : Assoc FeedRow)
      → str_eq id "" ≡ true
      → ((link_filters links (new_row now token enabled f)).filter_ids
          ≡ links_of lib links id feeds)
        × ((link_filters links (new_row now token enabled f)).recipe ≡ some f.recipe)
  unfolding new_row links_of
  new_row-linked now token id enabled f none feeds h = (sym (rw (links_of, h)), refl)
  new_row-linked now token id enabled f (some ids) feeds h = (refl, refl)

  edit_feed-AllGood :
      (now : ℕ) (links : Option (List String)) (options : SaveOptions) (f : Feed) (merged : Recipe)
      (m : Matcher) (db : Database)
      → str_eq f.id "" ≡ false
      → IsRefreshable lib db.filters (links_of lib links f.id db.feeds) (some f.recipe)
      → AllGood lib db
      → Returns
          (λ out. AllGood lib out.1)
          (edit_feed lib now links options (with_links lib links f db) merged m db)
  unfolding edit_feed
  edit_feed-AllGood now links options f merged m db h good all =
      let g = with_links lib links f db in
      Returns-weaken
        (λ out done.
          let same = edited-linked done.edited in
          let linked_same = links_of-row links f.id db.feeds done.row h done.found in
          subst (AllGood lib) (sym done.stored) (
            insert-AllRefreshable lib db.filters db.feeds f.id done.row'
              (as_linked (same.0 ∙ sym linked_same) same.1 good) all))
        (edit_feed-IsReplaced lib now links options g (merged, m) db)

  add_feed-AllGood :
      (now : ℕ) (new_id new_token : String) (links : Option (List String)) (f : Feed)
      (db : Database)
      → str_eq f.id "" ≡ true
      → IsRefreshable lib db.filters (links_of lib links f.id db.feeds) (some f.recipe)
      → AllGood lib db
      → Returns (λ out. AllGood lib out.1) (add_feed lib now new_id new_token links f db)
  unfolding add_feed
  add_feed-AllGood now new_id new_token links f db h good all =
      let row = link_filters links (new_row now new_token f.enabled f) in
      let same = new_row-linked now new_token f.id f.enabled f links db.feeds h in
      Returns-bind (store_feed new_id row db) (λ db'. ok (new_id, db'))
        λ db' done.
          Returns-ok (new_id, db')
            ((store_feed-AllGood new_id row db (as_linked same.0 same.1 good) all).at db' done)

  pub save-AllGood :
      (now : ℕ) (new_id new_token : String) (f : Feed) (links : Option (List String))
      (options : SaveOptions) (db : Database)
      → AllGood lib db
      → Returns
          (λ out. AllGood lib out.1)
          (save_with_options lib now new_id new_token f links options db)
  unfolding save_with_options
  save-AllGood now new_id new_token f links options db all =
      let g = with_links lib links f db in
      Returns-bind (own_rules_or_error lib (compile lib f.recipe.filters)) _ λ own _.
        Returns-bind (effective lib db.filters g options) _ λ out done.
          let good =
            merged-IsRefreshable lib ((effective-IsMerged lib db.filters g options).at out done) in
          elim (Bool-cases (str_eq f.id "")) [
            | inl e ↦ rw e (add_feed-AllGood now new_id new_token links f db e good all)
            | inr e ↦ rw e (edit_feed-AllGood now links options f out.0 out.1 db e good all)
          ]

  no_links-IsRefreshable :
      (filters : Assoc FilterRow) (f : Feed) (m : Matcher)
      → compile lib f.recipe.filters ≡ ok m
      → IsRefreshable lib filters [] (some f.recipe)
  unfolding library_rules combine
  no_links-IsRefreshable filters f m e = record { shared = []; reads = refl; compiles = (m, e) }

  abbrev AllCompile : List Feed → Type 0
  AllCompile [] = Unit
  AllCompile (f ∷ fs) = ((m : Matcher) × (compile lib f.recipe.filters ≡ ok m)) × AllCompile fs

  own_rules_ok :
      (compiled : Result CompileError Matcher) (m : Matcher)
      → own_rules_or_error lib compiled ≡ ok m
      → compiled ≡ ok m
  own_rules_ok (ok n) m e = cc
  own_rules_ok (err failure) m e = cc

  check_feeds-AllCompile : (fs : List Feed) → Returns (λ passed. AllCompile fs) (check_feeds lib fs)
  unfolding check_feeds
  check_feeds-AllCompile [] = Returns-ok tt tt
  check_feeds-AllCompile (f ∷ fs) =
      Returns-bind (own_rules_or_error lib (compile lib f.recipe.filters)) _ λ m e.
        Returns-weaken (λ passed rest. ((m, own_rules_ok _ m e), rest)) (check_feeds-AllCompile fs)

  insert_feeds-AllGood :
      (now : ℕ) (entries : List (Feed × String × String)) (db : Database)
      → AllCompile (feeds_in entries)
      → AllGood lib db
      → Returns (AllGood lib) (insert_feeds now entries db)
  unfolding insert_feeds new_row
  insert_feeds-AllGood now [] db h all = Returns-ok db all
  insert_feeds-AllGood now ((f, id, token) ∷ rest) db h all =
      let row = new_row now token false f in
      Returns-bind (store_feed id row db) (insert_feeds now rest) λ db' done.
        insert_feeds-AllGood now rest db' h.1 (
          (store_feed-AllGood id row db (no_links-IsRefreshable db.filters f h.0.0 h.0.1) all).at
            db' done)

  pub import_feeds-AllGood :
      (now : ℕ) (entries : List (Feed × String × String)) (db : Database)
      → AllGood lib db
      → Returns (AllGood lib) (import_feeds lib now entries db)
  unfolding import_feeds
  import_feeds-AllGood now entries db all =
      Returns-bind (check_feeds lib (feeds_in entries)) _ λ passed done.
        insert_feeds-AllGood now entries db
          ((check_feeds-AllCompile (feeds_in entries)).at passed done) all

  change-AllGood :
      (id : String) (change : FeedRow → FeedRow) (db : Database)
      → ((row : FeedRow) → SameLinks row (change row))
      → AllGood lib db
      → Returns
          (AllGood lib)
          (or_no_row id db (record db { feeds = update_feed id change db.feeds }))
  change-AllGood id change db same all = elim (Option-cases (lookup id db.feeds)) [
    | inl e ↦ rw (or_no_row, e) (Returns-err no_row)
    | inr (row, e) ↦
        rw (or_no_row, e)
          (Returns-ok _ (update_feed-AllRefreshable db.filters db.feeds id change same all))
  ]

  pub set_enabled-AllGood :
      (now : ℕ) (id : String) (enabled : Bool) (db : Database)
      → AllGood lib db
      → Returns (AllGood lib) (set_enabled now id enabled db)
  unfolding set_enabled enable_row
  set_enabled-AllGood now id enabled db all =
      change-AllGood id (enable_row now enabled) db (λ row. (refl, refl)) all

  pub rotate_token-AllGood :
      (token id : String) (db : Database)
      → AllGood lib db
      → Returns (AllGood lib) (rotate_token token id db)
  unfolding rotate_token
  rotate_token-AllGood token id db all =
      change-AllGood id (λ row. record row { rss_token = token }) db (λ row. (refl, refl)) all

  pub queue-AllGood :
      (now : ℕ) (id : String) (db : Database) → AllGood lib db → AllGood lib (queue now id db)
  unfolding queue
  queue-AllGood now id db all =
      update_feed-AllRefreshable db.filters db.feeds id (λ row. record row { next_run = now })
        (λ row. (refl, refl)) all
