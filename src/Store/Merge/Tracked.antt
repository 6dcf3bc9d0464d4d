-- ===== src/Store/Merge/Tracked.antt =====
-- A key through a merge.
use rss_workshop.Common.{
  ℕ, ◌<◌, ◌≡◌, refl, sym, subst, ◌∙◌, String, str_eq, Bool, true, false, Option, none, some, List,
  [], ◌∷◌, ◌==◌, if◌then◌else◌, arith, eq_iff, Bool-cases, inl, inr,
}
use rss_workshop.Common.Assoc.{Assoc, lookup, lookup-insert_self, lookup-insert_ne}
use rss_workshop.Model.Item.{Item, Time}
use rss_workshop.Store.Rows.{Story, unix_now}
use rss_workshop.Store.Merge.{
  find, differs, update, upsert, Merged, note, incoming, merge_one, merge,
}
use rss_workshop.Store.Merge.Find.{upserted, find-upsert, find-upsert_self}
use rss_workshop.Store.Merge.Visible.{visible, visible-update}

-- Where a key stands in the middle of a merge: its story at the start, its story now, and its
-- entry in `touched`.
pub data Tracked (now : ℕ) : Option Story → Option Story → Option Bool → Type 0 where
  absent : Tracked now none none none
  kept :
      (r s : Story)
      → visible s ≡ visible r
      → s.first_seen < now
      → 0 < s.last_seen
      → Tracked now (some r) (some s) none
  changed : (r s : Story) → s.first_seen < now → Tracked now (some r) (some s) (some false)
  added : (s : Story) → s.first_seen ≡ now → Tracked now none (some s) (some true)

lookup-note :
    (now at : ℕ) (k : String) (r : Story) (touched : Assoc Bool)
    → lookup k (note now at k (some r) touched)
      ≡ (if r.last_changed == at then some (r.first_seen == now) else lookup k touched)
unfolding note
lookup-note now at k r touched = ground (arith, lookup-insert_self k (r.first_seen == now) touched)

lookup-note_ne :
    (now at : ℕ) (k key : String) (f : Option Story) (touched : Assoc Bool)
    → str_eq key k ≡ false
    → lookup k (note now at key f touched) ≡ lookup k touched
unfolding note
lookup-note_ne now at k key none touched ne = refl
lookup-note_ne now at k key (some r) touched ne =
    ground (arith, lookup-insert_ne key k (r.first_seen == now) touched)

-- The entry after the row `r` came back.
abbrev entry : (now at : ℕ) → Story → Option Bool → Option Bool
entry now at r t = if r.last_changed == at then some (r.first_seen == now) else t

update-unnoted :
    (at : ℕ) (s new : Story)
    → new.last_changed ≡ at
    → ((update s new).last_changed == at) ≡ false
    → differs s new ≡ false
unfolding update
update-unnoted at s new c h = ground arith

update-first_seen : (s new : Story) → (update s new).first_seen ≡ s.first_seen
unfolding update
update-first_seen s new = refl

update-last_seen : (s new : Story) → (update s new).last_seen ≡ new.last_seen
unfolding update
update-last_seen s new = refl

-- One more listing of the key.
relisted :
    (now at : ℕ) (b f : Option Story) (t : Option Bool) (new : Story)
    → Tracked now b f t
    → new.first_seen ≡ now
    → new.last_seen ≡ now
    → new.last_changed ≡ at
    → 0 < now
    → Tracked now b (some (upserted f new)) (entry now at (upserted f new) t)
relisted now at _ _ _ new absent n l c p =
    let e : (new.last_changed == at) ≡ true = ground arith in
    let f : (new.first_seen == now) ≡ true = ground arith in rw (e, f) (added new n)
relisted now at _ _ _ new (kept r s v o q) n l c p =
    elim (Bool-cases ((update s new).last_changed == at)) [
      | inl e ↦
          let f : ((update s new).first_seen == now) ≡ false =
            ground (arith, update-first_seen s new) in
          rw (e, f) (changed r (update s new) (omega (arith, update-first_seen s new)))
      | inr e ↦
          let d = update-unnoted at s new c e in
          rw e (
            kept r (update s new) (visible-update s new d q ∙ v)
              (omega (arith, update-first_seen s new)) (omega (arith, update-last_seen s new)))
    ]
relisted now at _ _ _ new (changed r s o) n l c p =
    let o' : (update s new).first_seen < now = omega (arith, update-first_seen s new) in
    let f : ((update s new).first_seen == now) ≡ false = ground arith in
    elim (Bool-cases ((update s new).last_changed == at)) [
      | inl e ↦ rw (e, f) (changed r (update s new) o')
      | inr e ↦ rw e (changed r (update s new) o')
    ]
relisted now at _ _ _ new (added s o) n l c p =
    let o' : (update s new).first_seen ≡ now = omega (arith, update-first_seen s new) in
    let f : ((update s new).first_seen == now) ≡ true = ground arith in
    elim (Bool-cases ((update s new).last_changed == at)) [
      | inl e ↦ rw (e, f) (added (update s new) o')
      | inr e ↦ rw e (added (update s new) o')
    ]

step_same :
    (now at : ℕ) (k : String) (b : Option Story) (new : Story) (rs : List Story)
    (touched : Assoc Bool)
    → new.key ≡ k
    → Tracked now b
        (some (upserted (find k rs) new))
        (entry now at (upserted (find k rs) new) (lookup k touched))
    → Tracked now b
        (find k (upsert new rs))
        (lookup k (note now at k (find k (upsert new rs)) touched))
step_same now at k b new rs touched e t = rw (find-upsert_self k new rs e, lookup-note) t

step_other :
    (now at : ℕ) (k key : String) (b : Option Story) (new : Story) (rs : List Story)
    (touched : Assoc Bool)
    → new.key ≡ key
    → str_eq key k ≡ false
    → Tracked now b (find k rs) (lookup k touched)
    → Tracked now b
        (find k (upsert new rs))
        (lookup k (note now at key (find key (upsert new rs)) touched))
step_other now at k key b new rs touched e ne t =
    let f : find k (upsert new rs) ≡ find k rs = rw (find-upsert k new rs, e, ne) refl in
    let l : lookup k (note now at key (find key (upsert new rs)) touched) ≡ lookup k touched =
      lookup-note_ne now at k key (find key (upsert new rs)) touched ne in
    rw (f, l) t

module _ (guid_of : String → String → String) (id : String) (now : Time) (at : ℕ) (k : String)
    (before : List Story) where
  abbrev pub TrackedIn : Merged → Type 0
  TrackedIn m = Tracked (unix_now now) (find k before) (find k m.stories) (lookup k m.touched)

  merge_one-Tracked :
      (it : Item) (m : Merged)
      → 0 < unix_now now
      → TrackedIn m
      → TrackedIn (merge_one guid_of id now at it m)
  unfolding merge_one incoming
  merge_one-Tracked it m p t =
      let new = incoming guid_of id now at it in
      elim (Bool-cases (str_eq it.key k)) [
        | inl e ↦
            let same : it.key ≡ k = (eq_iff it.key k).0 e in
            let moved =
              relisted (unix_now now) at (find k before) (find k m.stories) (lookup k m.touched) new
                t refl refl refl p in
            subst
              (λ key.
                Tracked (unix_now now) (find k before) (find k (upsert new m.stories)) (
                  lookup k
                    (note (unix_now now) at key (find key (upsert new m.stories)) m.touched)))
              (sym same)
              (step_same (unix_now now) at k (find k before) new m.stories m.touched same moved)
        | inr e ↦
            step_other (unix_now now) at k it.key (find k before) new m.stories m.touched refl e t
      ]

  pub merge-Tracked :
      (its : List Item) (m : Merged)
      → 0 < unix_now now
      → TrackedIn m
      → TrackedIn (merge guid_of id now at its m)
  unfolding merge
  merge-Tracked [] m p t = t
  merge-Tracked (it ∷ its) m p t =
      merge-Tracked its (merge_one guid_of id now at it m) p (merge_one-Tracked it m p t)
