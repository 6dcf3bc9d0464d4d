-- ===== src/Store/Edit/Output.antt =====
-- The feed that readers see, and the time that says it has changed.
use rss_workshop.Store.Options.{SaveOptions, history_too_long, has_rules}
use rss_workshop.Store.Pruning.{max_history, rejected_keys, drop_keys, prune_history, bump_changed}
use rss_workshop.Store.Bodies.{
  BodyClear, keep_bodies, clear_listed_bodies, clear_all_bodies, article_bodies_changed, clear_from,
  latest_seen, clear_since, clear_article_bodies,
}
use rss_workshop.Common.{
  ℕ, ◌≤◌, ◌<◌, ◌≡◌, refl, sym, ap, ◌∙◌, subst, String, str_eq, Bool, true, false, ◌&&◌, Option,
  none, some, List, [], ◌∷◌, if◌then◌else◌, length, leb, arith, eq_iff, inl, inr, Bool-cases,
}
use rss_workshop.Common.Int.{ℤ, pos, negsuc, ltb_ℤ}
use rss_workshop.Common.Assoc.{lookup}
use rss_workshop.Common.Result.{ok, Returns, Returns-ok, Returns-guard}
use rss_workshop.Model.Feed.{Feed, Recipe}
use rss_workshop.Filter.Text.{Libraries}
use rss_workshop.Filter.Compile.{Matcher}
use rss_workshop.Store.Rows.{Story, FeedRow, Database, readable_string}
use rss_workshop.Store.Edit.Steps.{IsEdited, save-IsSaved, saved-IsEdited}
use rss_workshop.Store.Edit.{
  minutes_of, row_changed, update_row, cleared_row, link_filters, save_with_options,
}

-- What a reader gets of a feed besides its links: the interval in whole minutes.
pub record Shown : Type 0 where
  pub title : String
  pub url : String
  pub minutes : ℤ
  pub stories : List Story

unfoldable pub shown_of : FeedRow → Shown
unfolding minutes_of
shown_of row = record {
  title = row.title;
  url = row.url;
  minutes = minutes_of row.interval;
  stories = row.stories;
}

-- The time never moves back, and stays only when what is shown stays.
record IsHonest (row row' : FeedRow) : Type 0 where
  pub forward : row.last_changed ≤ row'.last_changed
  pub same : row'.last_changed ≡ row.last_changed → shown_of row' ≡ shown_of row

IsHonest-refl :
    (row row' : FeedRow)
    → row'.last_changed ≡ row.last_changed
    → shown_of row' ≡ shown_of row
    → IsHonest row row'
IsHonest-refl row row' e same = record { forward = omega arith; same = λ _. same }

IsHonest-moved : (row row' : FeedRow) → row.last_changed < row'.last_changed → IsHonest row row'
IsHonest-moved row row' h = record { forward = omega arith; same = λ e. absurd (omega arith) }

IsHonest-trans : {a b c : FeedRow} → IsHonest a b → IsHonest b c → IsHonest a c
IsHonest-trans {a} {b} {c} h k =
    let first = h.forward in
    let second = k.forward in
    record { forward = omega arith; same = λ e. k.same (omega arith) ∙ h.same (omega arith) }

bump-lt : (last now : ℕ) → last < bump_changed last now
unfolding bump_changed
bump-lt last now = ground arith

ℤ-eq : (a b : ℤ) → ltb_ℤ a b ≡ false → ltb_ℤ b a ≡ false → a ≡ b
ℤ-eq (pos a) (pos b) h k = ap pos (ground arith)
ℤ-eq (pos a) (negsuc b) h k = absurd (ground arith)
ℤ-eq (negsuc a) (pos b) h k = absurd (ground arith)
ℤ-eq (negsuc a) (negsuc b) h k = ap negsuc (ground arith)

row_unchanged :
    (f : Feed) (row : FeedRow)
    → row_changed f row ≡ false
    → (row.title ≡ readable_string f.title)
      × (row.url ≡ readable_string f.url)
      × (minutes_of row.interval ≡ minutes_of f.interval)
unfolding row_changed
row_unchanged f row h = (
  ground (arith, eq_iff row.title (readable_string f.title)),
  ground (arith, eq_iff row.url (readable_string f.url)),
  ℤ-eq (minutes_of row.interval) (minutes_of f.interval) (ground arith) (ground arith),
)

update_row-shown :
    (now : ℕ) (keep : Bool) (f : Feed) (row : FeedRow)
    → (row.title ≡ readable_string f.title)
      × (row.url ≡ readable_string f.url)
      × (minutes_of row.interval ≡ minutes_of f.interval)
    → shown_of (update_row now keep f row) ≡ shown_of row
unfolding update_row shown_of
update_row-shown now keep f row (t, u, m) = cc

update_row-IsHonest :
    (now : ℕ) (keep : Bool) (f : Feed) (row : FeedRow) → IsHonest row (update_row now keep f row)
unfolding update_row
update_row-IsHonest now keep f row = elim (Bool-cases (row_changed f row)) [
  | inl e ↦
      IsHonest-moved row (update_row now keep f row)
        (rw (update_row, e) (bump-lt row.last_changed now))
  | inr e ↦
      IsHonest-refl row (update_row now keep f row) (rw (update_row, e) refl)
        (update_row-shown now keep f row (row_unchanged f row e))
]

cleared-IsHonest :
    (now : ℕ) (any : Bool) (stories : List Story) (row : FeedRow)
    → IsHonest row (
        if any
        then record row { stories = stories; last_changed = bump_changed row.last_changed now }
        else row)
cleared-IsHonest now true stories row = IsHonest-moved row _ (bump-lt row.last_changed now)
cleared-IsHonest now false stories row = IsHonest-refl row row refl refl

clear_since-IsHonest : (now cutoff : ℕ) (row : FeedRow) → IsHonest row (clear_since now cutoff row)
clear_since-IsHonest now cutoff row =
    let out = clear_from (bump_changed row.last_changed now) cutoff row.stories in
    cleared-IsHonest now out.1 out.0 row

kept-IsHonest :
    (kept : Bool) (row row' : FeedRow)
    → IsHonest row row'
    → IsHonest row (if kept then row else row')
kept-IsHonest true row row' h = IsHonest-refl row row refl refl
kept-IsHonest false row row' h = h

clear-IsHonest :
    (now : ℕ) (cleared : BodyClear) (row : FeedRow)
    → IsHonest row (clear_article_bodies now cleared row)
unfolding clear_article_bodies
clear-IsHonest now keep_bodies row = IsHonest-refl row row refl refl
clear-IsHonest now clear_all_bodies row = clear_since-IsHonest now 0 row
clear-IsHonest now clear_listed_bodies row =
    kept-IsHonest _ row _ (clear_since-IsHonest now (latest_seen row.stories) row)

module _ (lib : Libraries) where
  drop_keys-IsHonest :
      (now : ℕ) (ks : List String) (row : FeedRow) → IsHonest row (drop_keys lib now ks row)
  drop_keys-IsHonest now [] row = IsHonest-refl row row refl refl
  drop_keys-IsHonest now (k ∷ ks) row =
      IsHonest-moved row (drop_keys lib now (k ∷ ks) row) (bump-lt row.last_changed now)

  prune_history-IsHonest :
      (now : ℕ) (asked : Bool) (r : Recipe) (m : Matcher) (row : FeedRow)
      → Returns (IsHonest row) (prune_history lib now asked r m row)
  unfolding prune_history
  prune_history-IsHonest now asked r m row = elim (Bool-cases (asked && has_rules r.filters)) [
    | inl e ↦
        rw (prune_history, e)
          (Returns-guard (leb (length row.stories) max_history) history_too_long _ λ _.
            Returns-ok (drop_keys lib now (rejected_keys lib m row.stories) row)
              (drop_keys-IsHonest now (rejected_keys lib m row.stories) row))
    | inr e ↦ rw (prune_history, e) (Returns-ok row (IsHonest-refl row row refl refl))
  ]

  link_filters-IsHonest :
      (links : Option (List String)) (row : FeedRow) → IsHonest row (link_filters links row)
  unfolding shown_of
  link_filters-IsHonest none row = IsHonest-refl row row refl refl
  link_filters-IsHonest (some ids) row = IsHonest-refl row (link_filters (some ids) row) refl refl

  cleared_row-IsHonest :
      (now : ℕ) (options : SaveOptions) (f : Feed) (row : FeedRow)
      → IsHonest row (cleared_row lib now options f row)
  unfolding cleared_row
  cleared_row-IsHonest now options f row =
      IsHonest-trans (update_row-IsHonest now options.keep_enabled f row) (
        clear-IsHonest now (article_bodies_changed row.recipe f.recipe)
          (update_row now options.keep_enabled f row))

  edited-IsHonest :
      {now : ℕ} {f : Feed} {links : Option (List String)} {options : SaveOptions}
      {rules : Recipe × Matcher} {row row' : FeedRow}
      → IsEdited lib now f links options row rules row'
      → IsHonest row row'
  edited-IsHonest {now} {f} {links} {options} {rules} {row} h =
      let cleared = cleared_row lib now options f row in
      let asked = options.apply_filters_to_history in
      let prunes =
        (prune_history-IsHonest now asked rules.0 rules.1 cleared).at h.pruned h.prunes in
      subst (IsHonest row) (sym h.relinked) (
        IsHonest-trans (cleared_row-IsHonest now options f row)
          (IsHonest-trans prunes (link_filters-IsHonest links h.pruned)))

  -- If the time of the last change is not later after a save of a stored feed, readers get the
  -- same title, address, minutes between refreshes and stories.
  pub save-shown :
      (now : ℕ) (new_id new_token : String) (f : Feed) (links : Option (List String))
      (options : SaveOptions) (db : Database) (row row' : FeedRow) (out : String × Database)
      → str_eq f.id "" ≡ false
      → lookup f.id db.feeds ≡ some row
      → save_with_options lib now new_id new_token f links options db ≡ ok out
      → lookup f.id out.1.feeds ≡ some row'
      → row'.last_changed ≤ row.last_changed
      → shown_of row' ≡ shown_of row
  save-shown now new_id new_token f links options db row row' out h found saved found' late =
      let done = (save-IsSaved lib now new_id new_token f links options db h).at out saved in
      let honest = edited-IsHonest (saved-IsEdited lib row row' found found' done.replaced) in
      let forward = honest.forward in honest.same (omega arith)
