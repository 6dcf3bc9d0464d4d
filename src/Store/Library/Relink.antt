-- ===== src/Store/Library/Relink.antt =====
-- An edited filter and the feeds that use it.
use rss_workshop.Store.Options.{SaveError, unreadable, history_too_long, has_rules, SaveOptions}
use rss_workshop.Store.Pruning.{max_history, rejected_keys, drop_keys, prune_history}
use rss_workshop.Common.{
  ℕ, ◌≡◌, refl, sym, ◌∙◌, subst, String, str_eq, Bool, true, ◌&&◌, Option, some, List, [], ◌∷◌,
  length, leb, arith, eq_iff, inl, inr, Bool-cases, Option-cases,
}
use rss_workshop.Common.Assoc.{Assoc, lookup, insert, contains}
use rss_workshop.Common.Result.{
  Result, ok, err, Returns, Returns-weaken, Returns-ok, Returns-err, Returns-bind, Returns-guard,
}
use rss_workshop.Model.Feed.{Recipe}
use rss_workshop.Filter.Text.{Libraries}
use rss_workshop.Filter.Compile.{Matcher}
use rss_workshop.Store.Rows.{FeedRow, FilterRow, Database}
use rss_workshop.Store.Library.{effective, feed_of, titled, renew, relink_row, relink, relink_all}
use rss_workshop.Store.Library.Links.{links_at, links_at-found, links_at_absent, links_at-insert}
use rss_workshop.Store.Library.Effective.{
  IsRefreshable, IsMerged, effective-IsMerged, merged-IsRefreshable,
}

-- Rows that agree on the links and the recipe.
abbrev pub SameLinks : FeedRow → FeedRow → Type 0
SameLinks row row' = (row'.filter_ids ≡ row.filter_ids) × (row'.recipe ≡ row.recipe)

module _ (lib : Libraries) where
  drop_keys-SameLinks :
      (now : ℕ) (ks : List String) (row : FeedRow) → SameLinks row (drop_keys lib now ks row)
  drop_keys-SameLinks now [] row = (refl, refl)
  drop_keys-SameLinks now (k ∷ ks) row = (refl, refl)

  pub prune_history-SameLinks :
      (now : ℕ) (asked : Bool) (r : Recipe) (m : Matcher) (row : FeedRow)
      → Returns (SameLinks row) (prune_history lib now asked r m row)
  unfolding prune_history
  prune_history-SameLinks now asked r m row = elim (Bool-cases (asked && has_rules r.filters)) [
    | inl e ↦
        rw (prune_history, e)
          (Returns-guard (leb (length row.stories) max_history) history_too_long _
            λ _. Returns-ok _ (drop_keys-SameLinks now (rejected_keys lib m row.stories) row))
    | inr e ↦ rw (prune_history, e) (Returns-ok row (refl, refl))
  ]

  titled-Returns :
      {A : Type 0} (P : A → Type 0) (title : String) (m : Result SaveError A)
      → Returns P m
      → Returns P (titled lib title m)
  titled-Returns P title (ok a) h = h
  titled-Returns P title (err e) h = Returns-err _

  relink_row-links :
      (now : ℕ) (filters : Assoc FilterRow) (options : SaveOptions) (id : String) (row : FeedRow)
      → Returns
          (λ row'. SameLinks row row' × IsRefreshable lib filters row.filter_ids row.recipe)
          (relink_row lib now filters options id row)
  unfolding relink_row
  relink_row-links now filters options id row = elim (Option-cases row.recipe) [
    | inl e ↦ rw (relink_row, e) (Returns-err unreadable)
    | inr (r, e) ↦
        rw (relink_row, e)
          (Returns-bind (titled lib row.title (effective lib filters (feed_of id r row) options)) _
            λ out done.
              Returns-weaken
                (λ row' same. (
                  (same.0, same.1 ∙ e),
                  merged-IsRefreshable lib (
                      (titled-Returns (IsMerged lib filters (feed_of id r row)) row.title _
                          (effective-IsMerged lib filters (feed_of id r row) options)).at
                        out done),
                ))
                (prune_history-SameLinks now options.apply_filters_to_history out.0 out.1
                  (renew lib now row)))
  ]

  -- What a round of the loop leaves, and what it checks of the feed.
  pub record IsRelinked (filter_id : String) (ids : List String) (db db' : Database) : Type 0 where
    pub filters : db'.filters ≡ db.filters
    pub links : (asked : String) → links_at asked db'.feeds ≡ links_at asked db.feeds
    pub checked :
        (asked : String) (links : List String) (recipe : Option Recipe)
        → contains asked ids ≡ true
        → links_at asked db.feeds ≡ some (links, recipe)
        → contains filter_id links ≡ true
        → IsRefreshable lib db.filters links recipe

  -- The links that a lookup finds are those of its row.
  pub links-IsRefreshable :
      {filters : Assoc FilterRow} (row : FeedRow) (links : List String) (recipe : Option Recipe)
      (found : Option (List String × Option Recipe))
      → found ≡ some (row.filter_ids, row.recipe)
      → found ≡ some (links, recipe)
      → IsRefreshable lib filters row.filter_ids row.recipe
      → IsRefreshable lib filters links recipe
  links-IsRefreshable {filters} row links recipe found e e' h =
      let same : row.filter_ids ≡ links = cc in
      let same' : row.recipe ≡ recipe = cc in
      subst (λ r. IsRefreshable lib filters links r) same'
        (subst (λ l. IsRefreshable lib filters l row.recipe) same h)

  record IsRound (filter_id id : String) (db db' : Database) : Type 0 where
    pub filters : db'.filters ≡ db.filters
    pub links : (asked : String) → links_at asked db'.feeds ≡ links_at asked db.feeds
    pub checked :
        (links : List String) (recipe : Option Recipe)
        → links_at id db.feeds ≡ some (links, recipe)
        → contains filter_id links ≡ true
        → IsRefreshable lib db.filters links recipe

  store_row-IsRound :
      (filter_id id : String) (row row' : FeedRow) (db : Database)
      → lookup id db.feeds ≡ some row
      → SameLinks row row' × IsRefreshable lib db.filters row.filter_ids row.recipe
      → IsRound filter_id id db (record db { feeds = insert id row' db.feeds })
  store_row-IsRound filter_id id row row' db e (same, good) = record {
    filters = refl;
    links = λ asked.
        (let found = links_at-found id db.feeds row e in
          links_at-insert id asked row' db.feeds ∙ ground (arith, eq_iff id asked, same.0, same.1));
    checked = λ links recipe at _.
        links-IsRefreshable row links recipe _ (links_at-found id db.feeds row e) at good;
  }

  relink-IsRound :
      (now : ℕ) (filter_id : String) (options : SaveOptions) (id : String) (db : Database)
      → Returns (IsRound filter_id id db) (relink lib now filter_id options id db)
  unfolding relink
  relink-IsRound now filter_id options id db = elim (Option-cases (lookup id db.feeds)) [
    | inl e ↦
        rw (relink, e)
          (Returns-ok db (record {
            filters = refl;
            links = λ asked. refl;
            checked =
                λ links recipe at used. absurd (let missing = links_at_absent id db.feeds e in cc);
          }))
    | inr (row, e) ↦ elim (Bool-cases (contains filter_id row.filter_ids)) [
      | inl used ↦
          rw (relink, e, used)
            (Returns-bind (relink_row lib now db.filters options id row) _ λ row' done.
              Returns-ok _ (
                store_row-IsRound filter_id id row row' db e
                  ((relink_row-links now db.filters options id row).at row' done)))
      | inr unused ↦
          rw (relink, e, unused)
            (Returns-ok db (record {
              filters = refl;
              links = λ asked. refl;
              checked = λ links recipe at used. absurd (
                  let found = links_at-found id db.feeds row e in
                  let same : row.filter_ids ≡ links = cc in cc);
            }))
    ]
  ]

  pub relink_all-IsRelinked :
      (now : ℕ) (filter_id : String) (options : SaveOptions) (ids : List String) (db : Database)
      → Returns (IsRelinked filter_id ids db) (relink_all lib now filter_id options ids db)
  unfolding relink_all
  relink_all-IsRelinked now filter_id options [] db = Returns-ok db (record {
    filters = refl;
    links = λ asked. refl;
    checked = λ asked links recipe h. absurd cc;
  })
  relink_all-IsRelinked now filter_id options (id ∷ ids) db =
      Returns-bind (relink lib now filter_id options id db) _ λ db1 done.
        let round = (relink-IsRound now filter_id options id db).at db1 done in
        Returns-weaken
          (λ db2 rest. record {
            filters = rest.filters ∙ round.filters;
            links = λ asked. rest.links asked ∙ round.links asked;
            checked = λ asked links recipe h at used. (elim (Bool-cases (str_eq id asked)) [
              | inl e ↦
                  let same = (eq_iff id asked).0 e in
                  round.checked links recipe
                    (subst (λ k. links_at k db.feeds ≡ some (links, recipe)) (sym same) at) used
              | inr e ↦
                  subst (λ fs. IsRefreshable lib fs links recipe) round.filters
                    (rest.checked asked links recipe (ground arith) (round.links asked ∙ at) used)
            ]);
          })
          (relink_all-IsRelinked now filter_id options ids db1)
