-- ===== src/Market/Fees/Symmetry.antt =====
-- The fee is a function of P * (1 - P): it is the same for a price and for its complement, and
-- splitting a fill never makes it cheaper.
use kalshi_quant_research.Prelude.{ℕ, ◌+◌, ◌*◌, ◌≤◌, ◌≡◌, ap, Bool, [], arith, nat_key, string_key}
use kalshi_quant_research.Market.Contracts.{Price, Qty, price_scale, complement}
use kalshi_quant_research.Market.Fees.{
  Fraction, Rounding, FeeSchedule, coefficient, exact_fee_micro, ceil, fee_micro, exact_total,
  rounded,
}
use kalshi_quant_research.Market.Fees.Bounds.{
  HasFraction, ceil_div-add, den_pos, up_to_cent-add, up_to_cent_mono,
}

swapped :
    (k : ℕ) (price : Price)
    → price ≤ price_scale
    → k * complement price * complement (complement price) * 1000000
      ≡ k * price * complement price * 1000000
swapped k price h = rw (complement_twice price h) (omega arith)
  where
    complement_twice : (p : ℕ) → p ≤ price_scale → complement (complement p) ≡ p
    complement_twice p le = omega arith

exact_symmetric :
    (f : FeeSchedule) (maker : Bool) (price : Price) (qty : Qty)
    → price ≤ price_scale
    → exact_fee_micro f maker (complement price) qty ≡ exact_fee_micro f maker price qty
unfolding exact_fee_micro
exact_symmetric f maker price qty h =
    let c = coefficient f maker in
    ap (λ (n : ℕ). let r : Fraction = record { num = n; den = c.den * 10000000000 } in r)
      (swapped (c.num * qty) price h)

-- Buying NO at 1 - p is charged what buying YES at p is, under every rounding and for both roles.
pub fee_micro_complement :
    (f : FeeSchedule) (maker : Bool) (price : Price) (qty : Qty)
    → price ≤ price_scale
    → fee_micro f maker (complement price) qty ≡ fee_micro f maker price qty
unfolding fee_micro
fee_micro_complement f maker price qty h =
    ap (λ (x : Fraction). rounded f.rounding (ceil x)) (exact_symmetric f maker price qty h)

exact-add :
    (f : FeeSchedule) (maker : Bool) (price : Price) (q r : Qty)
    → (exact_fee_micro f maker price (q + r)).num
      ≡ (exact_fee_micro f maker price q).num + (exact_fee_micro f maker price r).num
unfolding exact_fee_micro
exact-add f maker price q r = omega arith

-- Two fills at one price are together charged at least what one fill of their total is.
pub fee_micro_split :
    (f : FeeSchedule) (maker : Bool) (price : Price) (q r : Qty)
    → HasFraction f
    → fee_micro f maker price (q + r) ≤ fee_micro f maker price q + fee_micro f maker price r
unfolding fee_micro exact_fee_micro
fee_micro_split f maker price q r h = rounded-add f.rounding _ _ _ (
    rw exact-add (
      ceil_div-add (exact_fee_micro f maker price q).num (exact_fee_micro f maker price r).num
        (exact_total f maker []).den (den_pos f maker [] h)))
  where
    rounded-add : (m : Rounding) (a b c : ℕ) → c ≤ a + b → rounded m c ≤ rounded m a + rounded m b
    rounded-add Rounding.cent_per_fill a b c le =
        omega (arith, up_to_cent_mono c (a + b) le, up_to_cent-add a b)
    rounded-add Rounding.exact_6dp a b c le = le
    rounded-add Rounding.cent_per_order a b c le = le
