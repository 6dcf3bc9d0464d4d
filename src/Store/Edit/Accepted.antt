-- ===== src/Store/Edit/Accepted.antt =====
-- History that is pruned by the rules of a save.
use rss_workshop.Store.Options.{SaveOptions, history_too_long, has_rules}
use rss_workshop.Store.Pruning.{
  max_history, story_item, remove_stories, rejected_keys, drop_keys, prune_history,
}
use rss_workshop.Common.{
  ℕ, ◌≡◌, refl, sym, ap, ◌∙◌, subst, String, str_eq, Bool, true, false, ◌&&◌, ◌||◌, Option, none,
  some, List, [], ◌∷◌, length, leb, arith, eq_iff, inl, inr, Bool-cases,
}
use rss_workshop.Common.Assoc.{lookup, contains}
use rss_workshop.Common.Result.{ok, Returns, Returns-ok, Returns-guard}
use rss_workshop.Model.Feed.{Feed, Recipe}
use rss_workshop.Model.Filters.{FilterSet}
use rss_workshop.Filter.Text.{Libraries}
use rss_workshop.Filter.Compile.{Matcher, compile}
use rss_workshop.Filter.Match.{evaluate}
use rss_workshop.Filter.Meaning.{every, accepts, accepts_optional}
use rss_workshop.Filter.Combine.Meaning.{combine-accepts}
use rss_workshop.Filter.Correct.{evaluate-compile}
use rss_workshop.Store.Rows.{Story, FeedRow, Database}
use rss_workshop.Store.Library.{library_rules}
use rss_workshop.Store.Library.Effective.{IsMerged}
use rss_workshop.Store.Edit.Steps.{IsEdited, save-IsSaved, saved-IsEdited}
use rss_workshop.Store.Edit.{cleared_row, link_filters, with_links, links_of, save_with_options}

-- A test of the stories that stay.
removed-every :
    (p : Story → Bool) (ks : List String) (rs : List Story)
    → every (λ r. p r || contains r.key ks) rs ≡ true
    → every p (remove_stories ks rs) ≡ true
unfolding remove_stories
removed-every p ks [] h = refl
removed-every p ks (r ∷ rs) h = ground (arith, removed-every p ks rs)

covered_more :
    (p : Story → Bool) (k : String) (ks : List String) (rs : List Story)
    → every (λ r. p r || contains r.key ks) rs ≡ true
    → every (λ r. p r || contains r.key (k ∷ ks)) rs ≡ true
unfolding contains
covered_more p k ks [] h = refl
covered_more p k ks (r ∷ rs) h = ground (arith, covered_more p k ks rs)

module _ (lib : Libraries) where
  abbrev matches_story : Matcher → Story → Bool
  matches_story m r = (evaluate lib m (story_item r) false).matched

  rejected_keys-covered :
      (m : Matcher) (rs : List Story)
      → every (λ r. matches_story m r || contains r.key (rejected_keys lib m rs)) rs ≡ true
  unfolding rejected_keys contains
  rejected_keys-covered m [] = refl
  rejected_keys-covered m (r ∷ rs) = ground (
    arith,
    eq_iff r.key r.key,
    rejected_keys-covered m rs,
    covered_more (matches_story m) r.key (rejected_keys lib m rs) rs (rejected_keys-covered m rs),
  )

  none_rejected :
      (m : Matcher) (rs : List Story)
      → rejected_keys lib m rs ≡ []
      → every (matches_story m) rs ≡ true
  unfolding rejected_keys
  none_rejected m [] h = refl
  none_rejected m (r ∷ rs) h = ground (arith, none_rejected m rs)

  drop_keys-every :
      (now : ℕ) (m : Matcher) (ks : List String) (row : FeedRow)
      → rejected_keys lib m row.stories ≡ ks
      → every (matches_story m) (drop_keys lib now ks row).stories ≡ true
  drop_keys-every now m [] row h = none_rejected m row.stories h
  drop_keys-every now m (k ∷ ks) row h = removed-every (matches_story m) (k ∷ ks) row.stories (
      subst (λ l. every (λ r. matches_story m r || contains r.key l) row.stories ≡ true) h
        (rejected_keys-covered m row.stories))

  no_rules_accept :
      (set : Option FilterSet) (r : Story)
      → has_rules set ≡ false
      → accepts_optional lib set (story_item r) ≡ true
  no_rules_accept none r h = refl
  no_rules_accept (some set) r h = ground arith

  every-same :
      (p q : Story → Bool) (rs : List Story) → ((r : Story) → p r ≡ q r) → every p rs ≡ every q rs
  every-same p q [] h = refl
  every-same p q (r ∷ rs) h = rw (h r, every-same p q rs h)

  every-true : (p : Story → Bool) (rs : List Story) → ((r : Story) → p r ≡ true) → every p rs ≡ true
  every-true p [] h = refl
  every-true p (r ∷ rs) h = rw (h r) (every-true p rs h)

  abbrev AllAccepted : Option FilterSet → List Story → Type 0
  AllAccepted set rs = every (λ r. accepts_optional lib set (story_item r)) rs ≡ true

  prune_history-accepted :
      (now : ℕ) (r : Recipe) (m : Matcher) (row : FeedRow)
      → compile lib r.filters ≡ ok m
      → Returns (λ row'. AllAccepted r.filters row'.stories) (prune_history lib now true r m row)
  unfolding prune_history
  prune_history-accepted now r m row e = elim (Bool-cases (has_rules r.filters)) [
    | inl has ↦
        rw (prune_history, has)
          (Returns-guard (leb (length row.stories) max_history) history_too_long _ λ _.
            Returns-ok (drop_keys lib now (rejected_keys lib m row.stories) row) (
              every-same _ (matches_story m) _
                (λ s. sym (evaluate-compile lib (story_item s) r.filters m false e))
              ∙ drop_keys-every now m (rejected_keys lib m row.stories) row refl))
    | inr e' ↦
        rw (prune_history, e')
          (Returns-ok row (every-true _ row.stories (λ s. no_rules_accept r.filters s e')))
  ]

  link_filters-stories :
      (links : Option (List String)) (row : FeedRow)
      → (link_filters links row).stories ≡ row.stories
  link_filters-stories none row = refl
  link_filters-stories (some ids) row = refl

  edited-accepted :
      {now : ℕ} {f : Feed} {links : Option (List String)} {options : SaveOptions}
      {rules : Recipe × Matcher} {row row' : FeedRow}
      → options.apply_filters_to_history ≡ true
      → compile lib rules.0.filters ≡ ok rules.1
      → IsEdited lib now f links options row rules row'
      → AllAccepted rules.0.filters row'.stories
  edited-accepted {now} {f} {links} {options} {rules} {row} asked e h =
      let cleared = cleared_row lib now options f row in
      subst (AllAccepted rules.0.filters)
        (sym (ap (λ r. r.stories) h.relinked ∙ link_filters-stories links h.pruned))
        ((prune_history-accepted now rules.0 rules.1 cleared e).at h.pruned (
          subst (λ b. prune_history lib now b rules.0 rules.1 cleared ≡ ok h.pruned) asked
            h.prunes))

  -- A story is kept by the feed's own rules and by each library filter.
  abbrev wanted : Feed → List FilterSet → Story → Bool
  wanted f shared r =
      accepts_optional lib f.recipe.filters (story_item r)
      && every (λ s. accepts lib s (story_item r)) shared

  AreWanted : Option (List String) → Feed → Database → List Story → Type 0
  AreWanted links f db rs =
      (shared : List FilterSet) × (library_rules db.filters (links_of lib links f.id db.feeds)
        ≡ ok shared)
      × (every (wanted f shared) rs ≡ true)

  merged-wanted :
      (links : Option (List String)) (f : Feed) (db : Database) (out : Recipe × Matcher)
      (rs : List Story)
      → IsMerged lib db.filters (with_links lib links f db) out
      → AllAccepted out.0.filters rs
      → AreWanted links f db rs
  unfolding AreWanted
  merged-wanted links f db out rs h all = (
    h.shared,
    h.reads,
    every-same (wanted f h.shared) _ rs
          (λ r. sym (combine-accepts lib (story_item r) f.recipe.filters h.shared))
        ∙ subst (λ q. AllAccepted q.filters rs) h.merged all,
  )

  -- A save of a stored feed that applies the filters to its history leaves only stories that the
  -- feed's own rules accept and that each of the library filters accepts which it is linked to by
  -- the save.
  pub save-accepted :
      (now : ℕ) (new_id new_token : String) (f : Feed) (links : Option (List String))
      (options : SaveOptions) (db : Database) (out : String × Database) (row' : FeedRow)
      → str_eq f.id "" ≡ false
      → options.apply_filters_to_history ≡ true
      → save_with_options lib now new_id new_token f links options db ≡ ok out
      → lookup f.id out.1.feeds ≡ some row'
      → (shared : List FilterSet) × (library_rules db.filters (links_of lib links f.id db.feeds)
          ≡ ok shared)
        × (every (wanted f shared) row'.stories ≡ true)
  unfolding AreWanted
  save-accepted now new_id new_token f links options db out row' h asked saved found =
      let done = (save-IsSaved lib now new_id new_token f links options db h).at out saved in
      let steps = done.replaced in
      merged-wanted links f db done.rules row'.stories done.merged (
        edited-accepted asked done.merged.compiles
          (saved-IsEdited lib steps.row row' steps.found found steps))
