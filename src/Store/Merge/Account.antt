-- ===== src/Store/Merge/Account.antt =====
-- What the loop over the removed stories counts.
use rss_workshop.Common.{
  ◌≡◌, refl, String, Bool, true, false, ◌||◌, none, some, List, [], ◌∷◌, arith, eq_iff,
}
use rss_workshop.Common.Assoc.{Assoc, lookup, delete, lookup-delete, contains}
use rss_workshop.Store.Merge.{was_published, account, any_touched}

account-flag :
    (ks : List String) (touched : Assoc Bool) (c : Bool)
    → (account ks touched c).1 ≡ false
    → c ≡ false
unfolding account
account-flag [] touched c h = h
account-flag (k ∷ ks) touched c h =
    ground (arith, account-flag ks (delete k touched) (c || was_published (lookup k touched)))

-- A removal that counts for nothing is one of a story inserted by this merge.
pub account-unchanged :
    (k : String) (ks : List String) (touched : Assoc Bool) (c : Bool)
    → (account ks touched c).1 ≡ false
    → contains k ks ≡ true
    → lookup k touched ≡ some true
unfolding account contains
account-unchanged k [] touched c h i = cc
account-unchanged k (j ∷ ks) touched c h i = ground (
  arith,
  eq_iff j k,
  account-flag ks (delete j touched) (c || was_published (lookup j touched)),
  lookup-delete j k touched,
  account-unchanged k ks (delete j touched) (c || was_published (lookup j touched)) h,
)

pub lookup-account :
    (k : String) (ks : List String) (touched : Assoc Bool) (c : Bool)
    → contains k ks ≡ false
    → lookup k (account ks touched c).0 ≡ lookup k touched
unfolding account contains
lookup-account k [] touched c h = refl
lookup-account k (j ∷ ks) touched c h = ground (
  arith,
  lookup-delete j k touched,
  lookup-account k ks (delete j touched) (c || was_published (lookup j touched)),
)

pub lookup-untouched :
    (k : String) (touched : Assoc Bool) → any_touched touched ≡ false → lookup k touched ≡ none
unfolding lookup
lookup-untouched k [] h = refl
lookup-untouched k (e ∷ m) h = cc
