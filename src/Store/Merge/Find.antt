-- ===== src/Store/Merge/Find.antt =====
-- What a query for a key finds after an insert and after retention.
use rss_workshop.Common.{
  ◌≡◌, refl, String, str_eq, Bool, true, false, not, ◌&&◌, Option, none, some, List, [], ◌∷◌,
  if◌then◌else◌, arith, eq_iff,
}
use text.Mathlib.TextPositions.{eq_refl}
use rss_workshop.Common.Assoc.{KeySet, contains}
use rss_workshop.Store.Rows.{Story}
use rss_workshop.Store.Merge.{find, update, upsert, retain, removed_keys}

abbrev pub upserted : Option Story → Story → Story
upserted none new = new
upserted (some r) new = update r new

pub find-upsert :
    (k : String) (new : Story) (rs : List Story)
    → find k (upsert new rs)
      ≡ (if str_eq new.key k then some (upserted (find new.key rs) new) else find k rs)
unfolding find upsert
find-upsert k new [] = ground arith
find-upsert k new (r ∷ rs) =
    ground (arith, eq_iff new.key k, eq_iff r.key k, eq_iff r.key new.key, find-upsert k new rs)

pub find-upsert_self :
    (k : String) (new : Story) (rs : List Story)
    → new.key ≡ k
    → find k (upsert new rs) ≡ some (upserted (find k rs) new)
find-upsert_self k new rs e = rw (find-upsert k new rs, e, eq_refl) refl

pub find-retain :
    (k : String) (ks : KeySet) (rs : List Story)
    → find k (retain ks rs) ≡ (if contains k ks then find k rs else none)
unfolding find retain
find-retain k ks [] = ground arith
find-retain k ks (r ∷ rs) = ground (arith, eq_iff r.key k, find-retain k ks rs)

abbrev pub is_found : Option Story → Bool
is_found none = false
is_found (some r) = true

pub contains-removed_keys :
    (k : String) (ks : KeySet) (rs : List Story)
    → contains k (removed_keys ks rs) ≡ (not (contains k ks) && is_found (find k rs))
unfolding find removed_keys
contains-removed_keys k ks [] = ground arith
contains-removed_keys k ks (r ∷ rs) = ground (arith, eq_iff r.key k, contains-removed_keys k ks rs)
