-- ===== src/Common/Assoc.antt =====
-- Go maps with string keys, as association lists: `m[k]`, `m[k] = v`, `delete(m, k)`, `len(m)`,
-- and a `map[string]bool` that only ever holds `true` as the list of its keys.
use Prim.Native.Nat.{suc, ◌+◌, ◌≤◌}
use Prim.Native.String.{String}
use mathlib.Core.Path.{◌≡◌, refl}
use mathlib.Core.Bool.{Bool, true, false}
use mathlib.Core.Option.{Option, none, some}
use mathlib.Core.List.{List, [], ◌∷◌}
use native.Mathlib.Omega.{arith}
use text.Mathlib.Text.{◌==◌ as str_eq}
use text.Mathlib.TextEquality.{eq_iff}
use text.Mathlib.TextPositions.{eq_refl}
use rss_workshop.Common.Tests.{if◌then◌else◌}
use rss_workshop.Common.Lists.{length}

abbrev pub Assoc {ℓ} : Type ℓ → Type ℓ
Assoc V = List (String × V)

module _ {ℓ} {V : Type ℓ} where
  unfoldable pub lookup : String → Assoc V → Option V
  lookup k [] = none
  lookup k ((j, v) ∷ m) = if str_eq j k then some v else lookup k m

  unfoldable pub delete : String → Assoc V → Assoc V
  delete k [] = []
  delete k ((j, v) ∷ m) = let rest = delete k m in if str_eq j k then rest else (j, v) ∷ rest

  pub lookup-delete :
      (k j : String) (m : Assoc V)
      → lookup j (delete k m) ≡ (if str_eq k j then none else lookup j m)
  unfolding lookup delete
  lookup-delete k j [] = ground arith
  lookup-delete k j ((i, v) ∷ m) =
      ground (arith, eq_iff k j, eq_iff i k, eq_iff i j, lookup-delete k j m)

  pub lookup-delete_self : (k : String) (m : Assoc V) → lookup k (delete k m) ≡ none
  lookup-delete_self k m = rw (lookup-delete k k m, eq_refl)

  unfoldable pub insert : String → V → Assoc V → Assoc V
  insert k new [] = (k, new) ∷ []
  insert k new (entry ∷ m) =
      let rest = insert k new m in if str_eq entry.0 k then (k, new) ∷ m else entry ∷ rest

  pub lookup-insert :
      (k asked : String) (new : V) (m : Assoc V)
      → lookup asked (insert k new m) ≡ (if str_eq k asked then some new else lookup asked m)
  unfolding lookup insert
  lookup-insert k asked new [] = refl
  lookup-insert k asked new ((i, w) ∷ m) =
      let tail = lookup-insert k asked new m in
      ground (arith, tail, eq_iff i asked, eq_iff i k, eq_iff k asked)

  pub lookup-insert_self : (k : String) (v : V) (m : Assoc V) → lookup k (insert k v m) ≡ some v
  lookup-insert_self k v m = rw (lookup-insert k k v m, eq_refl)

  pub lookup-insert_ne :
      (k j : String) (v : V) (m : Assoc V)
      → str_eq k j ≡ false
      → lookup j (insert k v m) ≡ lookup j m
  lookup-insert_ne k j v m h = rw (lookup-insert k j v m, h)

  -- No key twice, as in every Go map.
  abbrev pub IsUnique : Assoc V → Type ℓ
  IsUnique [] = Unit
  IsUnique ((k, v) ∷ m) = (lookup k m ≡ none) × IsUnique m

  pub insert-IsUnique : (k : String) (v : V) (m : Assoc V) → IsUnique m → IsUnique (insert k v m)
  unfolding insert lookup
  insert-IsUnique k v [] u = (refl, tt)
  insert-IsUnique k v ((j, w) ∷ m) u =
      ground (arith, eq_iff j k, eq_iff k j, lookup-insert k j v m, insert-IsUnique k v m u.1)

  pub delete-IsUnique : (k : String) (m : Assoc V) → IsUnique m → IsUnique (delete k m)
  unfolding delete
  delete-IsUnique k [] u = tt
  delete-IsUnique k ((j, w) ∷ m) u = ground (arith, lookup-delete k j m, delete-IsUnique k m u.1)

  pub length-delete-le : (k : String) (m : Assoc V) → length (delete k m) ≤ length m
  unfolding delete
  length-delete-le k [] = omega arith
  length-delete-le k ((j, w) ∷ m) = ground (arith, length-delete-le k m)

  pub length-insert :
      (k : String) (v : V) (m : Assoc V)
      → lookup k m ≡ none
      → length (insert k v m) ≡ suc (length m)
  unfolding insert lookup
  length-insert k v [] h = refl
  length-insert k v ((j, w) ∷ m) h = ground (arith, length-insert k v m)

  pub length-insert-le : (k : String) (v : V) (m : Assoc V) → length (insert k v m) ≤ length m + 1
  unfolding insert
  length-insert-le k v [] = omega arith
  length-insert-le k v ((j, w) ∷ m) = ground (arith, length-insert-le k v m)

abbrev pub KeySet : Type 0
KeySet = List String

unfoldable pub contains : String → KeySet → Bool
contains k [] = false
contains k (j ∷ s) = if str_eq j k then true else contains k s

unfoldable pub add : String → KeySet → KeySet
unfolding contains
add k s = if contains k s then s else k ∷ s

unfoldable pub remove : String → KeySet → KeySet
remove k [] = []
remove k (j ∷ s) = let rest = remove k s in if str_eq j k then rest else j ∷ rest

pub contains-add :
    (k j : String) (s : KeySet) → contains j (add k s) ≡ (if str_eq k j then true else contains j s)
unfolding add
contains-add k j s = ground (arith, eq_iff k j)

pub contains-remove :
    (k j : String) (s : KeySet)
    → contains j (remove k s) ≡ (if str_eq k j then false else contains j s)
unfolding contains remove
contains-remove k j [] = ground arith
contains-remove k j (i ∷ s) =
    ground (arith, eq_iff k j, eq_iff i k, eq_iff i j, contains-remove k j s)

abbrev pub IsDistinct : KeySet → Type 0
IsDistinct [] = Unit
IsDistinct (k ∷ s) = (contains k s ≡ false) × IsDistinct s

pub add-IsDistinct : (k : String) (s : KeySet) → IsDistinct s → IsDistinct (add k s)
unfolding add
add-IsDistinct k s d = ground arith

pub remove-IsDistinct : (k : String) (s : KeySet) → IsDistinct s → IsDistinct (remove k s)
unfolding remove
remove-IsDistinct k [] d = tt
remove-IsDistinct k (j ∷ s) d = ground (arith, contains-remove k j s, remove-IsDistinct k s d.1)

pub length-add :
    (k : String) (s : KeySet) → contains k s ≡ false → length (add k s) ≡ suc (length s)
unfolding add
length-add k s h = rw h

pub length-add-le : (k : String) (s : KeySet) → length (add k s) ≤ length s + 1
unfolding add
length-add-le k s = ground arith

pub length-remove-le : (k : String) (s : KeySet) → length (remove k s) ≤ length s
unfolding remove
length-remove-le k [] = omega arith
length-remove-le k (j ∷ s) = ground (arith, length-remove-le k s)

pub remove_absent : (k : String) (s : KeySet) → contains k s ≡ false → remove k s ≡ s
unfolding remove contains
remove_absent k [] h = refl
remove_absent k (j ∷ s) h = ground (arith, remove_absent k s)

-- Deleting a key that is present removes exactly one.
pub length-remove :
    (k : String) (s : KeySet)
    → IsDistinct s
    → contains k s ≡ true
    → suc (length (remove k s)) ≡ length s
unfolding remove contains
length-remove k [] d h = cc
length-remove k (j ∷ s) d h = ground (arith, eq_iff j k, remove_absent k s, length-remove k s d.1)

pub remove-add : (k : String) (s : KeySet) → contains k s ≡ false → remove k (add k s) ≡ s
unfolding add remove
remove-add k s h = ground (arith, eq_iff k k, remove_absent k s)
