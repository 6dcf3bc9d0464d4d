-- ===== src/Store/Merge/Output.antt =====
-- What readers are shown of a feed, over a refresh.
use rss_workshop.Common.{
  ℕ, ◌+◌, ◌≤◌, ◌<◌, ◌≡◌, refl, sym, ap, ◌∙◌, max, String, str_eq, Bool, true, false, not, ◌&&◌,
  ◌||◌, Option, none, some, List, [], ◌∷◌, if◌then◌else◌, arith, Bool-cases, inl, inr,
}
use rss_workshop.Common.Assoc.{lookup, contains}
use rss_workshop.Model.Item.{Item, Time}
use rss_workshop.Store.Rows.{Story, unix_now}
use rss_workshop.Store.Merge.{find, kept_keys, removed_keys, account, any_touched, merge, succeed}
use rss_workshop.Store.Merge.Find.{find-retain, is_found, contains-removed_keys}
use rss_workshop.Store.Merge.Visible.{visible_row, shown}
use rss_workshop.Store.Merge.Tracked.{Tracked, absent, kept, changed, added, merge-Tracked}
use rss_workshop.Store.Merge.Account.{account-unchanged, lookup-account, lookup-untouched}

-- Every stored story was inserted before `now`.
abbrev pub IsPast : ℕ → List Story → Type 0
IsPast now [] = Unit
IsPast now (r ∷ rs) = (r.first_seen < now) × (0 < r.last_seen) × IsPast now rs

Tracked-start :
    (now : ℕ) (k : String) (rs : List Story)
    → IsPast now rs
    → Tracked now (find k rs) (find k rs) none
unfolding find
Tracked-start now k [] p = absent
Tracked-start now k (r ∷ rs) p = elim (Bool-cases (str_eq r.key k)) [
  | inl e ↦ rw e (kept r r refl p.0 p.1)
  | inr e ↦ rw e (Tracked-start now k rs p.2)
]

-- What is shown after retention, where no change was counted.
Tracked-shown :
    (now : ℕ) (b f : Option Story) (t : Option Bool) (in_window : Bool)
    → Tracked now b f t
    → ((not in_window && is_found f) ≡ true → t ≡ some true)
    → ((not in_window && is_found f) ≡ false → t ≡ none)
    → visible_row (if in_window then f else none) ≡ visible_row b
Tracked-shown now _ _ _ true absent h i = refl
Tracked-shown now _ _ _ false absent h i = refl
Tracked-shown now _ _ _ true (kept r s v o q) h i = ap some v
Tracked-shown now _ _ _ false (kept r s v o q) h i = absurd (ground (arith, h refl))
Tracked-shown now _ _ _ true (changed r s o) h i = absurd (ground (arith, i refl))
Tracked-shown now _ _ _ false (changed r s o) h i = absurd (ground (arith, h refl))
Tracked-shown now _ _ _ true (added s o) h i = absurd (ground (arith, i refl))
Tracked-shown now _ _ _ false (added s o) h i = refl

-- A successful refresh that does not move the feed's change time to a later second leaves its
-- output as it was, story by story: merged, changed, kept and removed ones. The clock is after
-- 1970, and each stored story was first seen before this second and has a time when it was last
-- seen.
pub shown-succeed :
    (guid_of : String → String → String) (id : String) (max_items : ℕ) (now : Time)
    (items : List Item) (stories : List Story) (last_changed last_new : ℕ) (k : String)
    → 0 < unix_now now
    → IsPast (unix_now now) stories
    → (succeed guid_of id max_items now items stories last_changed last_new).last_changed
      ≤ last_changed
    → shown k (succeed guid_of id max_items now items stories last_changed last_new).stories
      ≡ shown k stories
unfolding succeed shown lookup
shown-succeed guid_of id max_items now items stories last_changed last_new k p past h =
    let at = max (unix_now now) (last_changed + 1) in
    let m = merge guid_of id now at items (record { stories = stories; touched = [] }) in
    let ks = kept_keys max_items m.stories in
    let t =
      merge-Tracked guid_of id now at k stories items (record { stories = stories; touched = [] }) p
        (Tracked-start (unix_now now) k stories past) in
    let gone = removed_keys ks m.stories in
    let out = account gone m.touched false in
    let quiet : (out.1 || any_touched out.0) ≡ false = ground (arith, h) in
    let counted : out.1 ≡ false = ground (arith, quiet) in
    let untouched : any_touched out.0 ≡ false = ground (arith, quiet) in
    let r = contains-removed_keys k ks m.stories in
    rw (find-retain k ks m.stories) (
      Tracked-shown (unix_now now) (find k stories) (find k m.stories) (lookup k m.touched)
        (contains k ks) t (λ i. account-unchanged k gone m.touched false counted (r ∙ i))
        (λ i.
          sym (lookup-account k gone m.touched false (r ∙ i)) ∙ lookup-untouched k out.0 untouched))
