-- ===== src/Store/Edit/Steps.antt =====
-- The steps of a save of a stored feed that returns: the rules merge and compile, the row is
-- updated, its history is pruned, and its links are replaced.
use rss_workshop.Store.Options.{SaveOptions, links_changed, no_row}
use rss_workshop.Store.Pruning.{prune_history}
use rss_workshop.Common.{
  ℕ, ◌≡◌, refl, ap, ◌∙◌, subst, String, str_eq, false, Option, some, List, Option-cases, inl, inr,
}
use rss_workshop.Common.Assoc.{lookup, insert, lookup-insert_self}
use rss_workshop.Common.Result.{
  ok, Returns, Returns-weaken, Returns-ok, Returns-err, Returns-bind, Returns-guard,
}
use rss_workshop.Model.Feed.{Feed, Recipe}
use rss_workshop.Filter.Text.{Libraries}
use rss_workshop.Filter.Compile.{Matcher, compile}
use rss_workshop.Store.Rows.{FeedRow, Database}
use rss_workshop.Store.Library.{effective}
use rss_workshop.Store.Library.Effective.{IsMerged, effective-IsMerged}
use rss_workshop.Store.Edit.{
  cleared_row, prune_and_link, edit_row, edit_feed, same_links, link_filters, with_links,
  own_rules_or_error, save_with_options,
}

module _ (lib : Libraries) where
  -- `rules` are the merged recipe and its matcher.
  pub record IsEdited (now : ℕ) (f : Feed) (links : Option (List String)) (options : SaveOptions)
      (row : FeedRow) (rules : Recipe × Matcher) (row' : FeedRow) : Type 0 where
    pub pruned : FeedRow
    pub prunes :
        prune_history lib now options.apply_filters_to_history rules.0 rules.1
          (cleared_row lib now options f row)
        ≡ ok pruned
    pub relinked : row' ≡ link_filters links pruned

  edit_row-IsEdited :
      (now : ℕ) (links : Option (List String)) (options : SaveOptions) (f : Feed)
      (rules : Recipe × Matcher) (row : FeedRow)
      → Returns
          (IsEdited now f links options row rules)
          (edit_row lib now links options f rules.0 rules.1 row)
  unfolding edit_row prune_and_link
  edit_row-IsEdited now links options f rules row =
      let cleared = cleared_row lib now options f row in
      let asked = options.apply_filters_to_history in
      Returns-guard (same_links links f.filter_ids cleared.filter_ids) links_changed
        (prune_and_link lib now links options rules.0 rules.1 cleared)
        λ _.
          Returns-bind (prune_history lib now asked rules.0 rules.1 cleared)
            (λ r. ok (link_filters links r))
            λ pruned done.
              Returns-ok (link_filters links pruned)
                (record { pruned = pruned; prunes = done; relinked = refl })

  -- The rows of a feed before and after its edit.
  pub record IsReplaced (now : ℕ) (f : Feed) (links : Option (List String)) (options : SaveOptions)
      (rules : Recipe × Matcher) (db : Database) (out : String × Database) : Type 0 where
    pub row : FeedRow
    pub found : lookup f.id db.feeds ≡ some row
    pub row' : FeedRow
    pub stored : out.1 ≡ record db { feeds = insert f.id row' db.feeds }
    pub edited : IsEdited now f links options row rules row'

  pub edit_feed-IsReplaced :
      (now : ℕ) (links : Option (List String)) (options : SaveOptions) (f : Feed)
      (rules : Recipe × Matcher) (db : Database)
      → Returns
          (IsReplaced now f links options rules db)
          (edit_feed lib now links options f rules.0 rules.1 db)
  unfolding edit_feed
  edit_feed-IsReplaced now links options f rules db = elim (Option-cases (lookup f.id db.feeds)) [
    | inl e ↦ rw (edit_feed, e) (Returns-err no_row)
    | inr (row, e) ↦
        rw (edit_feed, e)
          (Returns-bind (edit_row lib now links options f rules.0 rules.1 row)
            (λ row'. ok (f.id, record db { feeds = insert f.id row' db.feeds }))
            λ row' done.
              Returns-ok (f.id, record db { feeds = insert f.id row' db.feeds })
                (record {
                  row = row;
                  found = e;
                  row' = row';
                  stored = refl;
                  edited = (edit_row-IsEdited now links options f rules row).at row' done;
                }))
  ]

  -- What a save of a stored feed does, with the rules that it checked.
  pub record IsSaved (now : ℕ) (f : Feed) (links : Option (List String)) (options : SaveOptions)
      (db : Database) (out : String × Database) : Type 0 where
    pub rules : Recipe × Matcher
    pub merged : IsMerged lib db.filters (with_links lib links f db) rules
    pub replaced : IsReplaced now (with_links lib links f db) links options rules db out

  pub save-IsSaved :
      (now : ℕ) (new_id new_token : String) (f : Feed) (links : Option (List String))
      (options : SaveOptions) (db : Database)
      → str_eq f.id "" ≡ false
      → Returns
          (IsSaved now f links options db)
          (save_with_options lib now new_id new_token f links options db)
  unfolding save_with_options
  save-IsSaved now new_id new_token f links options db h =
      let g = with_links lib links f db in
      Returns-bind (own_rules_or_error lib (compile lib f.recipe.filters)) _ λ own _.
        Returns-bind (effective lib db.filters g options) _ λ rules done. rw h (
          Returns-weaken
            (λ out replaced. record {
              rules = rules;
              merged = (effective-IsMerged lib db.filters g options).at rules done;
              replaced = replaced;
            })
            (edit_feed-IsReplaced now links options g rules db))

  pub new_row-found :
      {now : ℕ} {f : Feed} {links : Option (List String)} {options : SaveOptions}
      {rules : Recipe × Matcher} {db : Database} {out : String × Database}
      (h : IsReplaced now f links options rules db out)
      → lookup f.id out.1.feeds ≡ some h.row'
  new_row-found {f} {db} h =
      ap (λ d. lookup f.id d.feeds) h.stored ∙ lookup-insert_self f.id h.row' db.feeds

  -- The steps between the rows that lookups find.
  pub saved-IsEdited :
      {now : ℕ} {f : Feed} {links : Option (List String)} {options : SaveOptions}
      {rules : Recipe × Matcher} {db : Database} {out : String × Database} (row row' : FeedRow)
      → lookup f.id db.feeds ≡ some row
      → lookup f.id out.1.feeds ≡ some row'
      → IsReplaced now f links options rules db out
      → IsEdited now f links options row rules row'
  saved-IsEdited {now} {f} {links} {options} {rules} {out} row row' found found' h =
      let before = h.found in
      let after = new_row-found h in
      let same : h.row ≡ row = cc in
      let same' : h.row' ≡ row' = cc in
      subst (λ r. IsEdited now f links options r rules row') same
        (subst (λ r. IsEdited now f links options h.row rules r) same' h.edited)
