-- ===== src/Prelude/Results.antt =====
-- Python's exceptions as values: the classes that the modelled code raises.
use mathlib.Core.Bool.{Bool, true, false}
use mathlib.Core.Path.{◌≡◌, refl, subst}

pub data Error : Type 0 where
  book_inconsistency value_error key_error invalid_unit : Error

-- A value, or the exception that ended the call.
pub data Result {ℓ} (A : Type ℓ) : Type ℓ where
  err : Error → Result A
  ok : A → Result A

-- `if c: raise e`
abbrev pub raise_if : Bool → Error → Result (Unit {0})
raise_if false e = ok tt
raise_if true e = err e

module _ {ℓ κ} {A : Type ℓ} {B : Type κ} where
  infixl 5 ◌>>=◌
  abbrev pub ◌>>=◌ : Result A → (A → Result B) → Result B
  err raised >>= next = err raised
  ok value >>= next = next value

module _ {κ} {B : Type κ} where
  infixl 5 ◌>>◌
  abbrev pub ◌>>◌ : Result (Unit {0}) → Result B → Result B
  first >> second = first >>= λ _. second

-- Did the call return?
abbrev pub is_ok {ℓ} : {A : Type ℓ} → Result A → Bool
is_ok (err raised) = false
is_ok (ok value) = true

module _ {ℓ κ} {A : Type ℓ} {B : Type κ} where
  -- A sequence that returns: its first call returned, and the rest returned from there.
  pub >>=-eq-ok :
      (first : Result A) (next : A → Result B) {last : B}
      → (first >>= next) ≡ ok last
      → (value : A) × (first ≡ ok value) × (next value ≡ ok last)
  >>=-eq-ok (err raised) next returned = cc
  >>=-eq-ok (ok value) next returned = (value, refl, returned)

-- What holds of the value, where there is one.
abbrev pub AllOk {ℓ κ} : {A : Type ℓ} → (A → Type κ) → Result A → Type κ
AllOk P (err raised) = Unit
AllOk P (ok value) = P value

pub AllOk-any {ℓ} : {A : Type ℓ} (r : Result A) → AllOk (λ (a : A). Unit {0}) r
AllOk-any (err raised) = tt
AllOk-any (ok value) = tt

pub AllOk-value {ℓ κ} :
    {A : Type ℓ} (P : A → Type κ) (r : Result A) (a : A) → AllOk P r → r ≡ ok a → P a
AllOk-value P (err raised) a h e = cc
AllOk-value P (ok value) a h e = let same : value ≡ a = cc in subst P same h

pub >>=-AllOk {ℓ κ μ ν} :
    {A : Type ℓ} {B : Type κ} (P : A → Type μ) (Q : B → Type ν) (r : Result A) (next : A → Result B)
    → AllOk P r
    → ((a : A) → P a → AllOk Q (next a))
    → AllOk Q (r >>= next)
>>=-AllOk P Q (err raised) next h rest = tt
>>=-AllOk P Q (ok value) next h rest = rest value h

pub AllOk-all {ℓ κ} : {A : Type ℓ} (P : A → Type κ) (r : Result A) → ((a : A) → P a) → AllOk P r
AllOk-all P (err raised) h = tt
AllOk-all P (ok value) h = h value

-- a step that does not depend on what the first call returns
pub read-AllOk {ℓ κ μ} :
    {A : Type ℓ} {B : Type κ} (Q : B → Type μ) (r : Result A) (next : A → Result B)
    → ((a : A) → AllOk Q (next a))
    → AllOk Q (r >>= next)
read-AllOk Q (err raised) next h = tt
read-AllOk Q (ok value) next h = h value

pub AllOk-weaken {ℓ κ μ} :
    {A : Type ℓ} (P : A → Type κ) (Q : A → Type μ) (r : Result A)
    → AllOk P r
    → ((a : A) → P a → Q a)
    → AllOk Q r
AllOk-weaken P Q (err raised) h f = tt
AllOk-weaken P Q (ok value) h f = f value h

pub AllOk-both {ℓ κ μ} :
    {A : Type ℓ} (P : A → Type κ) (Q : A → Type μ) (r : Result A)
    → AllOk P r
    → AllOk Q r
    → AllOk (λ (a : A). P a × Q a) r
AllOk-both P Q (err raised) h k = tt
AllOk-both P Q (ok value) h k = (h, k)
