-- ===== src/Store/Edit/Stale.antt =====
-- A save and the refreshes that were running.
use rss_workshop.Store.Options.{SaveOptions, history_too_long, has_rules}
use rss_workshop.Store.Pruning.{max_history, rejected_keys, drop_keys, prune_history}
use rss_workshop.Store.Bodies.{
  BodyClear, keep_bodies, clear_listed_bodies, clear_all_bodies, article_bodies_changed,
  clear_article_bodies,
}
use rss_workshop.Common.{
  ℕ, ◌+◌, ◌≤◌, ◌≡◌, refl, ap, ◌∙◌, String, str_eq, Bool, false, ◌&&◌, ◌==◌, Option, none, some,
  List, [], ◌∷◌, length, leb, arith, inl, inr, Bool-cases,
}
use rss_workshop.Common.Assoc.{lookup}
use rss_workshop.Common.Result.{ok, err, Returns, Returns-ok, Returns-guard}
use rss_workshop.Model.Item.{Time}
use rss_workshop.Model.Feed.{Feed, Recipe}
use rss_workshop.Filter.Text.{Libraries}
use rss_workshop.Filter.Compile.{Matcher}
use rss_workshop.Store.Rows.{FeedRow, Database}
use rss_workshop.Store.Complete.{Outcome, stale, complete}
use rss_workshop.Store.Edit.Steps.{IsEdited, save-IsSaved, new_row-found, saved-IsEdited}
use rss_workshop.Store.Edit.{update_row, cleared_row, link_filters, save_with_options}

-- A refresh of an older version is discarded.
pub older-stale :
    (safe_text : String → ℕ → String) (guid_of : String → String → String) (first_byte : String → ℕ)
    (max_items : ℕ) (now : Time) (running : Feed) (o : Outcome) (db : Database) (row : FeedRow)
    → lookup running.id db.feeds ≡ some row
    → running.version + 1 ≤ row.version
    → complete safe_text guid_of first_byte max_items now running o db ≡ err stale
unfolding complete
older-stale safe_text guid_of first_byte max_items now running o db row found older =
    rw (complete, found)
      (let differs : (row.version == running.version) ≡ false = ground arith in rw differs refl)

module _ (lib : Libraries) where
  drop_keys-version :
      (now : ℕ) (ks : List String) (row : FeedRow)
      → (drop_keys lib now ks row).version ≡ row.version
  drop_keys-version now [] row = refl
  drop_keys-version now (k ∷ ks) row = refl

  pub prune_history-version :
      (now : ℕ) (asked : Bool) (r : Recipe) (m : Matcher) (row : FeedRow)
      → Returns (λ row'. row'.version ≡ row.version) (prune_history lib now asked r m row)
  unfolding prune_history
  prune_history-version now asked r m row = elim (Bool-cases (asked && has_rules r.filters)) [
    | inl e ↦
        rw (prune_history, e)
          (Returns-guard (leb (length row.stories) max_history) history_too_long _ λ _.
            Returns-ok (drop_keys lib now (rejected_keys lib m row.stories) row)
              (drop_keys-version now (rejected_keys lib m row.stories) row))
    | inr e ↦ rw (prune_history, e) (Returns-ok row refl)
  ]

  clear-version :
      (now : ℕ) (cleared : BodyClear) (row : FeedRow)
      → (clear_article_bodies now cleared row).version ≡ row.version
  unfolding clear_article_bodies
  clear-version now keep_bodies row = refl
  clear-version now clear_all_bodies row = ground arith
  clear-version now clear_listed_bodies row = ground arith

  cleared_row-version :
      (now : ℕ) (options : SaveOptions) (f : Feed) (row : FeedRow)
      → (cleared_row lib now options f row).version ≡ row.version + 1
  unfolding cleared_row update_row
  cleared_row-version now options f row =
      clear-version now (article_bodies_changed row.recipe f.recipe)
        (update_row now options.keep_enabled f row)

  link_filters-version :
      (links : Option (List String)) (row : FeedRow)
      → (link_filters links row).version ≡ row.version
  link_filters-version none row = refl
  link_filters-version (some ids) row = refl

  edited-version :
      {now : ℕ} {f : Feed} {links : Option (List String)} {options : SaveOptions}
      {rules : Recipe × Matcher} {row row' : FeedRow}
      → IsEdited lib now f links options row rules row'
      → row'.version ≡ row.version + 1
  edited-version {now} {f} {links} {options} {rules} {row} h =
      let cleared = cleared_row lib now options f row in
      let asked = options.apply_filters_to_history in
      ap (λ r. r.version) h.relinked
      ∙ link_filters-version links h.pruned
      ∙ (prune_history-version now asked rules.0 rules.1 cleared).at h.pruned h.prunes
      ∙ cleared_row-version now options f row

  -- A refresh of a feed that started before a save of it is discarded as stale, whatever it
  -- fetched: its version is at most the one before the save.
  pub save-stale :
      (safe_text : String → ℕ → String) (guid_of : String → String → String)
      (first_byte : String → ℕ) (max_items now : ℕ) (new_id new_token : String) (f : Feed)
      (links : Option (List String)) (options : SaveOptions) (db : Database) (row : FeedRow)
      (out : String × Database) (later : Time) (running : Feed) (o : Outcome)
      → str_eq f.id "" ≡ false
      → lookup f.id db.feeds ≡ some row
      → save_with_options lib now new_id new_token f links options db ≡ ok out
      → running.id ≡ f.id
      → running.version ≤ row.version
      → complete safe_text guid_of first_byte max_items later running o out.1 ≡ err stale
  save-stale safe_text guid_of first_byte max_items now new_id new_token f links options db row out
        later running o h found saved same older =
      let done = (save-IsSaved lib now new_id new_token f links options db h).at out saved in
      let at = new_row-found lib done.replaced in
      let more =
        edited-version (saved-IsEdited lib row done.replaced.row' found at done.replaced) in
      older-stale safe_text guid_of first_byte max_items later running o out.1 done.replaced.row'
        (ap (λ id. lookup id out.1.feeds) same ∙ at) (omega arith)
