-- ===== src/Store/Merge/Retention.antt =====
-- Which stories retention leaves.
use rss_workshop.Common.{
  ℕ, zero, suc, ◌+◌, ◌≤◌, ◌≡◌, refl, ap, ◌∙◌, max, String, str_eq, true, false, none, some, List,
  [], ◌∷◌, if◌then◌else◌, length, take, arith, eq_iff, Bool-cases, inl, inr,
}
use rss_workshop.Common.Int.{ℤ, ltb_ℤ}
use rss_workshop.Common.Assoc.{KeySet, contains, remove, contains-remove, length-remove-le}
use rss_workshop.Model.Item.{Item, Time}
use rss_workshop.Store.Rows.{Story, unix_now}
use rss_workshop.Store.Merge.{
  find, update, upsert, Merged, precedes, place, newest_first, story_keys, kept_keys, retain,
  incoming, merge_one, merge, succeed,
}
use rss_workshop.Store.Merge.Find.{find-upsert, find-retain}

-- The primary key of `items`: no two rows of a feed have the same key.
abbrev pub HasKeys : List Story → Type 0
HasKeys [] = Unit
HasKeys (r ∷ rs) = (find r.key rs ≡ none) × HasKeys rs

update-key : (r new : Story) → (update r new).key ≡ r.key
unfolding update
update-key r new = refl

upsert-HasKeys : (new : Story) (rs : List Story) → HasKeys rs → HasKeys (upsert new rs)
unfolding upsert find
upsert-HasKeys new [] h = (refl, tt)
upsert-HasKeys new (r ∷ rs) h = ground (
  arith,
  update-key r new,
  upsert-HasKeys new rs h.1,
  find-upsert r.key new rs,
  eq_iff r.key new.key,
  eq_iff new.key r.key,
)

merge-HasKeys :
    (guid_of : String → String → String) (id : String) (now : Time) (at : ℕ) (its : List Item)
    (m : Merged)
    → HasKeys m.stories
    → HasKeys (merge guid_of id now at its m).stories
unfolding merge merge_one
merge-HasKeys guid_of id now at [] m h = h
merge-HasKeys guid_of id now at (it ∷ its) m h =
    merge-HasKeys guid_of id now at its (merge_one guid_of id now at it m)
      (upsert-HasKeys (incoming guid_of id now at it) m.stories h)

retain-HasKeys : (ks : KeySet) (rs : List Story) → HasKeys rs → HasKeys (retain ks rs)
unfolding retain
retain-HasKeys ks [] h = tt
retain-HasKeys ks (r ∷ rs) h = ground (arith, retain-HasKeys ks rs h.1, find-retain r.key ks rs)

length-remove-lt :
    (k : String) (ks : KeySet) → contains k ks ≡ true → suc (length (remove k ks)) ≤ length ks
unfolding remove contains
length-remove-lt k [] h = cc
length-remove-lt k (j ∷ ks) h = ground (arith, length-remove-lt k ks, length-remove-le k ks)

retain-remove :
    (k : String) (ks : KeySet) (rs : List Story)
    → find k rs ≡ none
    → retain (remove k ks) rs ≡ retain ks rs
unfolding retain find
retain-remove k ks [] h = refl
retain-remove k ks (r ∷ rs) h =
    ground
      (arith, contains-remove k r.key ks, retain-remove k ks rs, eq_iff r.key k, eq_iff k r.key)

length-retain-le : (ks : KeySet) (rs : List Story) → HasKeys rs → length (retain ks rs) ≤ length ks
unfolding retain
length-retain-le ks [] h = omega arith
length-retain-le ks (r ∷ rs) h = elim (Bool-cases (contains r.key ks)) [
  | inl e ↦
      let rest = length-retain-le (remove r.key ks) rs h.1 in
      let same = retain-remove r.key ks rs h.0 in
      rw e (omega (arith, rest, ap length same, length-remove-lt r.key ks e))
  | inr e ↦ rw e (length-retain-le ks rs h.1)
]

length-story_keys-take-le : (n : ℕ) (rs : List Story) → length (story_keys (take n rs)) ≤ n
length-story_keys-take-le zero rs = omega arith
length-story_keys-take-le (suc n) [] = omega arith
length-story_keys-take-le (suc n) (r ∷ rs) = omega (arith, length-story_keys-take-le n rs)

-- None of the rows is newer than the time.
abbrev AllNoNewer : ℤ → List Story → Type 0
AllNoNewer t [] = Unit
AllNoNewer t (r ∷ rs) = (ltb_ℤ t r.published ≡ false) × AllNoNewer t rs

abbrev IsNewestFirst : List Story → Type 0
IsNewestFirst [] = Unit
IsNewestFirst (r ∷ rs) = AllNoNewer r.published rs × IsNewestFirst rs

ltb_ℤ_trans : (a b c : ℤ) → ltb_ℤ b a ≡ false → ltb_ℤ c b ≡ false → ltb_ℤ c a ≡ false
ltb_ℤ_trans a b c h i = ground arith

AllNoNewer-weaken :
    (t u : ℤ) (rs : List Story) → ltb_ℤ u t ≡ false → AllNoNewer t rs → AllNoNewer u rs
AllNoNewer-weaken t u [] h a = tt
AllNoNewer-weaken t u (r ∷ rs) h a =
    (ltb_ℤ_trans r.published t u a.0 h, AllNoNewer-weaken t u rs h a.1)

AllNoNewer-place :
    (t : ℤ) (r : Story) (rs : List Story)
    → ltb_ℤ t r.published ≡ false
    → AllNoNewer t rs
    → AllNoNewer t (place r rs)
unfolding place
AllNoNewer-place t r [] h a = (h, tt)
AllNoNewer-place t r (s ∷ ss) h a = elim (Bool-cases (precedes r s)) [
  | inl e ↦ rw e (h, a)
  | inr e ↦ rw e (a.0, AllNoNewer-place t r ss h a.1)
]

precedes-newer : (r s : Story) → precedes r s ≡ true → ltb_ℤ r.published s.published ≡ false
unfolding precedes
precedes-newer r s h = ground arith

precedes-older : (r s : Story) → precedes r s ≡ false → ltb_ℤ s.published r.published ≡ false
unfolding precedes
precedes-older r s h = ground arith

place-IsNewestFirst : (r : Story) (rs : List Story) → IsNewestFirst rs → IsNewestFirst (place r rs)
unfolding place
place-IsNewestFirst r [] h = (tt, tt)
place-IsNewestFirst r (s ∷ ss) h = elim (Bool-cases (precedes r s)) [
  | inl e ↦
      let newer = precedes-newer r s e in
      rw e ((newer, AllNoNewer-weaken s.published r.published ss newer h.0), h)
  | inr e ↦
      rw e
        (AllNoNewer-place s.published r ss (precedes-older r s e) h.0, place-IsNewestFirst r ss h.1)
]

newest_first-IsNewestFirst : (rs : List Story) → IsNewestFirst (newest_first rs)
unfolding newest_first
newest_first-IsNewestFirst [] = tt
newest_first-IsNewestFirst (r ∷ rs) =
    place-IsNewestFirst r (newest_first rs) (newest_first-IsNewestFirst rs)

find-place :
    (k : String) (r : Story) (rs : List Story)
    → find r.key rs ≡ none
    → find k (place r rs) ≡ (if str_eq r.key k then some r else find k rs)
unfolding find place
find-place k r [] h = refl
find-place k r (s ∷ ss) h =
    ground (arith, eq_iff r.key k, eq_iff s.key k, eq_iff s.key r.key, find-place k r ss)

find-newest_first :
    (k : String) (rs : List Story) → HasKeys rs → find k (newest_first rs) ≡ find k rs
unfolding newest_first find
find-newest_first k [] h = refl
find-newest_first k (r ∷ rs) h =
    find-place k r (newest_first rs) (find-newest_first r.key rs h.1 ∙ h.0)
    ∙ ground (arith, find-newest_first k rs h.1)

no_newer :
    (t : ℤ) (k : String) (s : Story) (rs : List Story)
    → AllNoNewer t rs
    → find k rs ≡ some s
    → ltb_ℤ t s.published ≡ false
unfolding find
no_newer t k s [] a f = cc
no_newer t k s (r ∷ rs) a f = elim (Bool-cases (str_eq r.key k)) [
  | inl e ↦
      let found : find k (r ∷ rs) ≡ some r = rw e refl in
      let same : r ≡ s = cc (found, f) in rw (← same) a.0
  | inr e ↦ let later : find k rs ≡ some s = ground (arith, f) in no_newer t k s rs a.1 later
]

-- In a sorted list a row of the first ones is not older than a row that is not among them.
newer_in_window :
    (n : ℕ) (a b : String) (r s : Story) (rs : List Story)
    → IsNewestFirst rs
    → contains a (story_keys (take n rs)) ≡ true
    → contains b (story_keys (take n rs)) ≡ false
    → find a rs ≡ some r
    → find b rs ≡ some s
    → ltb_ℤ r.published s.published ≡ false
unfolding contains find
newer_in_window zero a b r s rs o i x f g = cc
newer_in_window (suc n) a b r s [] o i x f g = cc
newer_in_window (suc n) a b r s (w ∷ ws) o i x f g =
    let other : str_eq w.key b ≡ false = ground (arith, x) in
    let later : find b ws ≡ some s = ground (arith, g) in
    elim (Bool-cases (str_eq w.key a)) [
      | inl e ↦
          let found : find a (w ∷ ws) ≡ some w = rw e refl in
          let same : w ≡ r = cc (found, f) in rw (← same) (no_newer w.published b s ws o.0 later)
      | inr e ↦
          newer_in_window n a b r s ws o.1 (ground (arith, i)) (ground (arith, x))
            (ground (arith, f)) later
    ]

module _ (guid_of : String → String → String) (id : String) (max_items : ℕ) (now : Time)
    (items : List Item) (stories : List Story) (last_changed last_new : ℕ) where
  -- The stories between the merge and retention.
  abbrev pub merged_stories : List Story
  merged_stories =
      (merge guid_of id now (max (unix_now now) (last_changed + 1)) items
        (record { stories = stories; touched = [] })).stories

  abbrev pub kept_stories : List Story
  kept_stories = (succeed guid_of id max_items now items stories last_changed last_new).stories

  -- After a successful refresh no more stories are stored than MAX_ITEMS, and no key twice.
  pub window-succeed : HasKeys stories → (length kept_stories ≤ max_items) × HasKeys kept_stories
  unfolding succeed kept_keys
  window-succeed h =
      let at = max (unix_now now) (last_changed + 1) in
      let m : Merged = record { stories = stories; touched = [] } in
      let u = merge-HasKeys guid_of id now at items m h in
      let ks = kept_keys max_items merged_stories in
      (
        omega (
          arith,
          length-retain-le ks merged_stories u,
          length-story_keys-take-le max_items (newest_first merged_stories),
        ),
        retain-HasKeys ks merged_stories u,
      )

  -- Retention keeps the newest: a story that stays is as the merge left it, and one that the merge
  -- had and that goes is not newer than any that stays.
  pub newest-succeed :
      (a b : String) (r s : Story)
      → HasKeys stories
      → find a kept_stories ≡ some r
      → find b merged_stories ≡ some s
      → find b kept_stories ≡ none
      → (find a merged_stories ≡ some r) × (ltb_ℤ r.published s.published ≡ false)
  unfolding succeed kept_keys
  newest-succeed a b r s h f g x =
      let at = max (unix_now now) (last_changed + 1) in
      let m : Merged = record { stories = stories; touched = [] } in
      let u = merge-HasKeys guid_of id now at items m h in
      let ks = kept_keys max_items merged_stories in
      let sorted = newest_first merged_stories in
      let p = find-retain a ks merged_stories in
      let q = find-retain b ks merged_stories in
      let i : contains a ks ≡ true = ground (arith, p, f) in
      let o : contains b ks ≡ false = ground (arith, q, g, x) in
      let f' : find a merged_stories ≡ some r = ground (arith, p, f) in
      (
        f',
        newer_in_window max_items a b r s sorted (newest_first-IsNewestFirst merged_stories) i o
            (find-newest_first a merged_stories u ∙ f') (find-newest_first b merged_stories u ∙ g),
      )
