-- ===== src/Market/Relationships/Sums.antt =====
-- What the legs of a constraint pay in a world of zeros and ones.
use kalshi_quant_research.Prelude.{
  ℕ, ◌+◌, ◌*◌, ◌≤◌, ◌≡◌, refl, ◌↔◌, true, false, List, [], ◌∷◌, map, arith, length, sum_by, All,
  All-map, nat_key, string_key,
}
use kalshi_quant_research.Market.Contracts.{Ticker, price_scale}
use kalshi_quant_research.Market.Relationships.{
  World, leg_payoff, yes_leg, no_leg, any_yes, world_payoff, implies_constraint, nondecreasing,
}

abbrev pub IsBinary : World → Type 0
IsBinary w = (t : Ticker) → w t ≤ 1

-- every market settles at $1 or nothing
abbrev pub settled_in : World → Ticker → ℕ
settled_in w t = w t * price_scale

-- Buying YES of each market pays $1 for each that resolves YES.
pub yes_legs_pay :
    (w : World) (ts : List Ticker)
    → sum_by (leg_payoff (settled_in w)) (map yes_leg ts) ≡ sum_by w ts * price_scale
yes_legs_pay w [] = omega arith
yes_legs_pay w (t ∷ ts) = omega (arith, yes_legs_pay w ts)

-- Buying NO of each market pays $1 for each that does not.
pub no_legs_pay :
    (w : World) (ts : List Ticker)
    → IsBinary w
    → sum_by (leg_payoff (settled_in w)) (map no_leg ts) + sum_by w ts * price_scale
      ≡ length ts * price_scale
no_legs_pay w [] b = omega arith
no_legs_pay w (t ∷ ts) b = omega (arith, no_legs_pay w ts b, b t)

pub sum-le-length : (w : World) (ts : List Ticker) → IsBinary w → sum_by w ts ≤ length ts
sum-le-length w [] b = omega arith
sum-le-length w (t ∷ ts) b = omega (arith, sum-le-length w ts b, b t)

-- `any` against the sum
pub any_yes_sum :
    (w : World) (ts : List Ticker)
    → (any_yes w ts ≡ true → 1 ≤ sum_by w ts) × (any_yes w ts ≡ false → sum_by w ts ≡ 0)
any_yes_sum w [] = (λ e. cc, λ e. refl)
any_yes_sum w (t ∷ ts) =
    let (some_yes, all_no) = any_yes_sum w ts in (λ e. ground arith, λ e. ground arith)

-- An implication pays its floor exactly in the worlds where it holds.
pub implies_pays :
    (w : World) (a b : Ticker)
    → IsBinary w
    → (price_scale ≤ world_payoff (implies_constraint a b) w) ↔ (w a ≤ w b)
unfolding world_payoff
implies_pays w a b bin = (λ h. omega (arith, bin a, bin b), λ h. omega (arith, bin a, bin b))

-- Neighbours in order make every pair ordered.
pub first-le :
    (w : World) (a : Ticker) (ts : List Ticker)
    → nondecreasing w (a ∷ ts) ≡ true
    → All (λ t. w a ≤ w t) ts
first-le w a [] h = tt
first-le w a (b ∷ ts) h =
    let rest = first-le w b ts in
    (ground arith, All-map (λ t le. ground arith) ts (rest (ground arith)))
