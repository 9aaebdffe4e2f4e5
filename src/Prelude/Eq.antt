-- ===== src/Prelude/Eq.antt =====
-- Equality of dictionary keys: numbers, texts.
use Prim.Native.Nat.{ℕ}
use Prim.Native.String.{String}
use mathlib.Core.Path.{◌≡◌, refl}
use mathlib.Core.Logic.{◌↔◌, ◌⊎◌, ◌≢◌, inl, inr}
use mathlib.Core.Bool.{Bool, true, false}
use native.Mathlib.Omega.{arith}
use text.Mathlib.Text.{◌==◌ as str_beq}
use text.Mathlib.TextEquality.{eq_iff}
use kalshi_quant_research.Prelude.Tests.{◌==◌ as nat_beq, ==_iff}

pub record Key {ℓ} (A : Type ℓ) : Type ℓ where
  pub same : A → A → Bool
  pub same_iff : (a b : A) → (same a b ≡ true) ↔ (a ≡ b)

infix 50 ◌=?◌
abbrev pub ◌=?◌ {ℓ} : {A : Type ℓ} ⦃e : Key A⦄ → A → A → Bool
◌=?◌ ⦃e⦄ = e.same

instance abbrev pub nat_key : Key ℕ
nat_key = record { same = nat_beq; same_iff = ==_iff }

instance abbrev pub string_key : Key String
string_key = record { same = str_beq; same_iff = eq_iff }

module _ {ℓ} {A : Type ℓ} ⦃e : Key A⦄ where
  pub beq_refl : (a : A) → (a =? a) ≡ true
  beq_refl a = (e.same_iff a a).1 refl

  pub beq_ne : (a b : A) → a ≢ b → (a =? b) ≡ false
  beq_ne a b h = ground (arith, e.same_iff a b)

  pub beq-cases : (a b : A) → ((a ≡ b) × ((a =? b) ≡ true)) ⊎ ((a ≢ b) × ((a =? b) ≡ false))
  beq-cases a b = go (a =? b) refl
    where
      go :
          (t : Bool) → (a =? b) ≡ t → ((a ≡ b) × ((a =? b) ≡ true)) ⊎ ((a ≢ b) × ((a =? b) ≡ false))
      go true h = inl ((e.same_iff a b).0 h, h)
      go false h = inr (λ p. cc (h, (e.same_iff a b).1 p), h)
