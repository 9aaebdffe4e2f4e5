-- ===== src/Market/Fees/Bounds.antt =====
-- The three rounding models of a fee: how far each lies from the exact fee, and from each other.
use kalshi_quant_research.Prelude.{
  ℕ, ◌+◌, ◌*◌, ◌≤◌, ◌<◌, ◌≡◌, Bool, List, [], ◌∷◌, arith, length, sum_by, nat_key, string_key,
}
use kalshi_quant_research.Prelude.Division.{ceil_div, ceil_div_bounds, le_of_multiples}
use kalshi_quant_research.Market.Contracts.{Price, Qty}
use kalshi_quant_research.Market.Fees.{
  Rounding, FeeSchedule, with_rounding, coefficient, exact_fee_micro, up_to_cent, cent_micro,
  fee_micro, exact_total, order_fee_micro,
}

ceil_div-zero : (d : ℕ) → 0 < d → ceil_div 0 d ≡ 0
ceil_div-zero d h =
    omega (arith, le_of_multiples d (ceil_div 0 d) 0 (omega (arith, ceil_div_bounds 0 d h)))

pub ceil_div-add : (a b d : ℕ) → 0 < d → ceil_div (a + b) d ≤ ceil_div a d + ceil_div b d
ceil_div-add a b d h =
    le_of_multiples d (ceil_div (a + b) d) (ceil_div a d + ceil_div b d)
      (omega (arith, ceil_div_bounds (a + b) d h, ceil_div_bounds a d h, ceil_div_bounds b d h))

pub ceil_div_mono : (a b d : ℕ) → 0 < d → a ≤ b → ceil_div a d ≤ ceil_div b d
ceil_div_mono a b d h le =
    le_of_multiples d (ceil_div a d) (ceil_div b d)
      (omega (arith, ceil_div_bounds a d h, ceil_div_bounds b d h))

-- a schedule whose multiplier is a fraction
abbrev pub HasFraction : FeeSchedule → Type 0
HasFraction f = 0 < f.multiplier.den

coefficient-den_pos :
    (f : FeeSchedule) (maker : Bool) → HasFraction f → 0 < (coefficient f maker).den
unfolding coefficient
coefficient-den_pos f maker h = ground arith

pub den_pos :
    (f : FeeSchedule) (maker : Bool) (fills : List (Price × Qty))
    → HasFraction f
    → 0 < (exact_total f maker fills).den
den_pos f maker fills h = omega (arith, coefficient-den_pos f maker h)

le-up_to_cent : (n : ℕ) → n ≤ up_to_cent n
le-up_to_cent n = omega (arith, ceil_div_bounds n cent_micro (omega arith))

pub up_to_cent-add : (a b : ℕ) → up_to_cent (a + b) ≤ up_to_cent a + up_to_cent b
up_to_cent-add a b = omega (arith, ceil_div-add a b cent_micro (omega arith))

pub up_to_cent_mono : (a b : ℕ) → a ≤ b → up_to_cent a ≤ up_to_cent b
up_to_cent_mono a b h = omega (arith, ceil_div_mono a b cent_micro (omega arith) h)

-- the sum of a measure of numerators, each rounded up and then measured again
module _ (num : Price × Qty → ℕ) (d : ℕ) (pos_den : 0 < d) where
  sum_ceil_bounds :
      (fills : List (Price × Qty))
      → (sum_by num fills ≤ d * sum_by (λ x. ceil_div (num x) d) fills)
        × (d * sum_by (λ x. ceil_div (num x) d) fills ≤ sum_by num fills + d * length fills)
  sum_ceil_bounds [] = (omega arith, omega arith)
  sum_ceil_bounds (x ∷ xs) =
      let (lo, hi) = sum_ceil_bounds xs in
      let (lo', hi') = ceil_div_bounds (num x) d pos_den in (omega arith, omega arith)

  cents_of_sum :
      (fills : List (Price × Qty))
      → up_to_cent (ceil_div (sum_by num fills) d)
        ≤ sum_by (λ x. up_to_cent (ceil_div (num x) d)) fills
  cents_of_sum [] =
      rw (ceil_div-zero d pos_den) (omega (arith, ceil_div-zero cent_micro (omega arith)))
  cents_of_sum (x ∷ xs) = omega (
    arith,
    cents_of_sum xs,
    up_to_cent-add (ceil_div (num x) d) (ceil_div (sum_by num xs) d),
    up_to_cent_mono (ceil_div (num x + sum_by num xs) d)
        (ceil_div (num x) d + ceil_div (sum_by num xs) d)
        (ceil_div-add (num x) (sum_by num xs) d pos_den),
  )

  sum_cents :
      (fills : List (Price × Qty))
      → sum_by (λ x. ceil_div (num x) d) fills ≤ sum_by (λ x. up_to_cent (ceil_div (num x) d)) fills
  sum_cents [] = omega arith
  sum_cents (x ∷ xs) = omega (arith, sum_cents xs, le-up_to_cent (ceil_div (num x) d))

abbrev exact_num : FeeSchedule → Bool → Price × Qty → ℕ
exact_num f maker x = (exact_fee_micro f maker x.0 x.1).num

-- Under the documented rounding the fee of an order covers its exact fee, and overcharges it by at
-- most one micro-dollar for each fill.
pub order_fee_exact_bounds :
    (f : FeeSchedule) (maker : Bool) (fills : List (Price × Qty))
    → HasFraction f
    → let exact = exact_total f maker fills in
      let fee = order_fee_micro (with_rounding Rounding.exact_6dp f) maker fills in
      (exact.num ≤ exact.den * fee) × (exact.den * fee ≤ exact.num + exact.den * length fills)
unfolding order_fee_micro fee_micro exact_fee_micro coefficient
order_fee_exact_bounds f maker fills h =
    sum_ceil_bounds (exact_num f maker) (exact_total f maker fills).den (den_pos f maker fills h)
      fills

-- Rounding each fill up to a cent is an upper bound: no other rounding charges an order more.
pub cent_per_fill_highest :
    (f : FeeSchedule) (r : Rounding) (maker : Bool) (fills : List (Price × Qty))
    → HasFraction f
    → order_fee_micro (with_rounding r f) maker fills
      ≤ order_fee_micro (with_rounding Rounding.cent_per_fill f) maker fills
unfolding order_fee_micro fee_micro exact_fee_micro coefficient
cent_per_fill_highest f Rounding.exact_6dp maker fills h =
    sum_cents (exact_num f maker) (exact_total f maker fills).den (den_pos f maker fills h) fills
cent_per_fill_highest f Rounding.cent_per_fill maker fills h = omega arith
cent_per_fill_highest f Rounding.cent_per_order maker fills h =
    cents_of_sum (exact_num f maker) (exact_total f maker fills).den (den_pos f maker fills h) fills
