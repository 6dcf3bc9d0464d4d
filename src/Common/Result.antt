-- ===== src/Common/Result.antt =====
-- A Go function that returns a value and an error, one of which is nil.
use mathlib.Core.Path.{◌≡◌, refl, subst}
use mathlib.Core.Bool.{Bool, true, false}

pub data Result {ℓ} (E A : Type ℓ) : Type ℓ where
  ok : A → Result E A
  err : E → Result E A

infixl 5 ◌>>=◌ ◌>>◌
abbrev pub ◌>>=◌ {ℓ} : {E A B : Type ℓ} → Result E A → (A → Result E B) → Result E B
err failure >>= next = err failure
ok value >>= next = next value

abbrev pub ◌>>◌ : {E B : Type 0} → Result E (Unit {0}) → Result E B → Result E B
check >> rest = check >>= λ passed. rest

-- The early return `if !test { return err }`.
abbrev pub guard : {E : Type 0} → Bool → E → Result E (Unit {0})
guard false failure = err failure
guard true failure = ok tt

-- Whatever `m` returns satisfies `P`; the rules walk a `do` block.
pub record Returns {ℓ} {E A : Type 0} (P : A → Type ℓ) (m : Result E A) : Type ℓ where
  pub at : (a : A) → m ≡ ok a → P a

ok_injective : {E A : Type 0} {a b : A} → ◌≡◌ {A = Result E A} (ok a) (ok b) → a ≡ b
ok_injective e = cc

module _ {ℓ} {E A : Type 0} {P : A → Type ℓ} where
  pub Returns-ok : (a : A) → P a → Returns {E = E} P (ok a)
  Returns-ok a p = record { at = λ b e. subst P (ok_injective e) p }

  pub Returns-err : (e : E) → Returns P (err e)
  Returns-err e = record { at = λ b p. cc }

module _ {ℓ} {E A B : Type 0} {P : B → Type ℓ} where
  pub Returns-bind :
      (m : Result E A) (f : A → Result E B)
      → ((a : A) → m ≡ ok a → Returns P (f a))
      → Returns P (m >>= f)
  Returns-bind (ok a) f h = h a refl
  Returns-bind (err e) f h = Returns-err e

module _ {ℓ} {E B : Type 0} {P : B → Type ℓ} where
  pub Returns-guard :
      (b : Bool) (e : E) (m : Result E B) → (b ≡ true → Returns P m) → Returns P (guard b e >> m)
  Returns-guard true e m h = h refl
  Returns-guard false e m h = Returns-err e

pub Returns-weaken {ℓ κ} :
    {E A : Type 0} {P : A → Type ℓ} {Q : A → Type κ} {m : Result E A}
    → ((a : A) → P a → Q a)
    → Returns P m
    → Returns Q m
Returns-weaken h r = record { at = λ a e. h a (r.at a e) }
