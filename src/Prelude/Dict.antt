-- ===== src/Prelude/Dict.antt =====
-- A Python dict: an association list in insertion order, at most one entry for a key.
use Prim.Native.Nat.{ℕ, ◌+◌, ◌≤◌}
use mathlib.Core.Path.{◌≡◌, refl, subst}
use mathlib.Core.Bool.{Bool, true, false}
use mathlib.Core.Logic.{◌≢◌, inl, inr}
use mathlib.Core.Option.{Option, none, some}
use mathlib.Core.List.{List, [], ◌∷◌}
use native.Mathlib.Omega.{arith}
use kalshi_quant_research.Prelude.Tests.{if◌then◌else◌, Bool-cases, Option-cases}
use kalshi_quant_research.Prelude.Lists.{sum_by, All}
use kalshi_quant_research.Prelude.Eq.{Key, ◌=?◌, beq_refl}

abbrev pub Dict {ℓ κ} : Type ℓ → Type κ → Type (ℓ ⊔ κ)
Dict K V = List (K × V)

module _ {ℓ κ} {K : Type ℓ} {V : Type κ} ⦃e : Key K⦄ where
  -- `d.get(k)`
  abbrev pub lookup : K → Dict K V → Option V
  lookup k [] = none
  lookup k ((j, v) ∷ d) = if j =? k then some v else lookup k d

  -- `k in d`
  abbrev pub contains : K → Dict K V → Bool
  contains k d = elim (lookup k d) [ none ↦ false | some _ ↦ true ]

  -- `d.get(k, v)`
  abbrev pub get_or : K → V → Dict K V → V
  get_or k v d = elim (lookup k d) [ none ↦ v | some w ↦ w ]

  -- `d[k] = v`: an old key keeps its place.
  abbrev pub insert : K → V → Dict K V → Dict K V
  insert k v [] = (k, v) ∷ []
  insert k v ((j, w) ∷ d) = if j =? k then (j, v) ∷ d else (j, w) ∷ insert k v d

  -- `d.pop(k, None)`
  abbrev pub erase : K → Dict K V → Dict K V
  erase k [] = []
  erase k ((j, w) ∷ d) = if j =? k then d else (j, w) ∷ erase k d

  -- Each key has one entry.
  abbrev pub Distinct : Dict K V → Type κ
  Distinct [] = Unit
  Distinct ((j, v) ∷ d) = (lookup j d ≡ none) × Distinct d

  pub lookup-insert :
      (k j : K) (v : V) (d : Dict K V)
      → lookup j (insert k v d) ≡ (if k =? j then some v else lookup j d)
  lookup-insert k j v [] = refl
  lookup-insert k j v ((i, w) ∷ d) =
      ground (arith, e.same_iff k j, e.same_iff i k, e.same_iff i j, lookup-insert k j v d)

  pub lookup-insert_self : (k : K) (v : V) (d : Dict K V) → lookup k (insert k v d) ≡ some v
  lookup-insert_self k v d = ground (arith, lookup-insert k k v d, beq_refl k)

  pub get_or-insert_self : (k : K) (v w : V) (d : Dict K V) → get_or k w (insert k v d) ≡ v
  get_or-insert_self k v w d = rw (lookup-insert_self k v d, get_or)

  pub get_or-insert_ne :
      (k j : K) (v w : V) (d : Dict K V) → k ≢ j → get_or j w (insert k v d) ≡ get_or j w d
  get_or-insert_ne k j v w d h = ground (arith, lookup-insert k j v d, e.same_iff k j)

  pub lookup-insert_ne :
      (k j : K) (v : V) (d : Dict K V) → k ≢ j → lookup j (insert k v d) ≡ lookup j d
  lookup-insert_ne k j v d h = ground (arith, lookup-insert k j v d, e.same_iff k j)

  pub lookup-erase_ne : (k j : K) (d : Dict K V) → k ≢ j → lookup j (erase k d) ≡ lookup j d
  lookup-erase_ne k j [] h = refl
  lookup-erase_ne k j ((i, w) ∷ d) h =
      ground (arith, e.same_iff i k, e.same_iff i j, lookup-erase_ne k j d h)

  pub lookup-erase_self : (k : K) (d : Dict K V) → Distinct d → lookup k (erase k d) ≡ none
  lookup-erase_self k [] h = refl
  lookup-erase_self k ((i, w) ∷ d) h = ground (arith, e.same_iff i k, lookup-erase_self k d h.1)

  pub insert-Distinct : (k : K) (v : V) (d : Dict K V) → Distinct d → Distinct (insert k v d)
  insert-Distinct k v [] h = (refl, tt)
  insert-Distinct k v ((i, w) ∷ d) h =
      ground
        (arith, e.same_iff i k, e.same_iff k i, lookup-insert k i v d, insert-Distinct k v d h.1)

  pub erase-Distinct : (k : K) (d : Dict K V) → Distinct d → Distinct (erase k d)
  erase-Distinct k [] h = tt
  erase-Distinct k ((i, w) ∷ d) h =
      ground (arith, e.same_iff k i, e.same_iff i k, lookup-erase_ne k i d, erase-Distinct k d h.1)

  -- The sum of a measure of the values.
  abbrev pub total : (V → ℕ) → Dict K V → ℕ
  total f = sum_by (λ (p : K × V). f p.1)

  pub total-insert :
      (f : V → ℕ) (k : K) (v old : V) (d : Dict K V)
      → lookup k d ≡ some old
      → total f (insert k v d) + f old ≡ total f d + f v
  total-insert f k v old [] h = cc
  total-insert f k v old ((i, w) ∷ d) h = ground (arith, total-insert f k v old d)

  pub total-insert_new :
      (f : V → ℕ) (k : K) (v : V) (d : Dict K V)
      → lookup k d ≡ none
      → total f (insert k v d) ≡ total f d + f v
  total-insert_new f k v [] h = omega arith
  total-insert_new f k v ((i, w) ∷ d) h = ground (arith, total-insert_new f k v d)

  pub total-erase :
      (f : V → ℕ) (k : K) (old : V) (d : Dict K V)
      → lookup k d ≡ some old
      → total f (erase k d) + f old ≡ total f d
  total-erase f k old [] h = cc
  total-erase f k old ((i, w) ∷ d) h = ground (arith, total-erase f k old d)

-- A predicate of the values, through writes and reads.
module _ {ℓ κ μ} {K : Type ℓ} {V : Type κ} ⦃e : Key K⦄ where
  abbrev pub AllValues : (V → Type μ) → Dict K V → Type μ
  AllValues P d = All (λ (x : K × V). P x.1) d

  pub insert-AllValues :
      (P : V → Type μ) (k : K) (v : V) (d : Dict K V)
      → P v
      → AllValues P d
      → AllValues P (insert k v d)
  insert-AllValues P k v [] h a = (h, tt)
  insert-AllValues P k v ((j, w) ∷ d) h a = elim (Bool-cases (j =? k)) [
    | inl same ↦ rw same (h, a.1)
    | inr other ↦ rw other (a.0, insert-AllValues P k v d h a.1)
  ]

  pub erase-AllValues :
      (P : V → Type μ) (k : K) (d : Dict K V) → AllValues P d → AllValues P (erase k d)
  erase-AllValues P k [] a = tt
  erase-AllValues P k ((j, w) ∷ d) a = elim (Bool-cases (j =? k)) [
    | inl same ↦ rw same a.1
    | inr other ↦ rw other (a.0, erase-AllValues P k d a.1)
  ]

  pub lookup-AllValues :
      (P : V → Type μ) (k : K) (v : V) (d : Dict K V) → AllValues P d → lookup k d ≡ some v → P v
  lookup-AllValues P k v [] a found = cc
  lookup-AllValues P k v ((j, w) ∷ d) a found = elim (Bool-cases (j =? k)) [
    | inl same ↦ let is_v : w ≡ v = ground arith in subst P is_v a.0
    | inr other ↦ lookup-AllValues P k v d a.1 (rw other at found)
  ]

  pub get_or-AllValues :
      (P : V → Type μ) (k : K) (v : V) (d : Dict K V) → P v → AllValues P d → P (get_or k v d)
  get_or-AllValues P k v d h a = elim (Option-cases (lookup k d)) [
    | inl gone ↦ rw (gone, get_or) h
    | inr (w, found) ↦ rw (found, get_or) (lookup-AllValues P k w d a found)
  ]

-- A write adds at most what it writes, and a removal adds nothing.
module _ {ℓ κ} {K : Type ℓ} {V : Type κ} ⦃e : Key K⦄ where
  pub total-insert_le :
      (f : V → ℕ) (k : K) (v : V) (d : Dict K V) → total f (insert k v d) ≤ total f d + f v
  total-insert_le f k v [] = omega arith
  total-insert_le f k v ((j, w) ∷ d) = ground (arith, total-insert_le f k v d)

  pub total-erase_le : (f : V → ℕ) (k : K) (d : Dict K V) → total f (erase k d) ≤ total f d
  total-erase_le f k [] = omega arith
  total-erase_le f k ((j, w) ∷ d) = ground (arith, total-erase_le f k d)
