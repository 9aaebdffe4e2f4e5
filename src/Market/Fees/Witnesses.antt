-- ===== src/Market/Fees/Witnesses.antt =====
-- A schedule of the documented rate, for the theorems on fees.
use kalshi_quant_research.Prelude.{◌+◌, ◌*◌, ◌≤◌, true, false, [], ◌∷◌, arith, nat_key, string_key}
use kalshi_quant_research.Market.Fees.{
  one_fraction, Rounding, FeeSchedule, with_rounding, fee_micro, order_fee_micro, exact_total,
  FeeBook,
}
use kalshi_quant_research.Market.Fees.Bounds.{order_fee_exact_bounds, cent_per_fill_highest}
use kalshi_quant_research.Market.Fees.Symmetry.{fee_micro_split}

abbrev quadratic : FeeSchedule
quadratic = record {
  fee_type = "quadratic";
  multiplier = one_fraction;
  rounding = Rounding.cent_per_order;
  known = true;
}

order_fee_exact_bounds_example :
    ((exact_total quadratic false ((3000, 150) ∷ [])).num
      ≤ (exact_total quadratic false ((3000, 150) ∷ [])).den
        * order_fee_micro (with_rounding Rounding.exact_6dp quadratic) false ((3000, 150) ∷ []))
    × ((exact_total quadratic false ((3000, 150) ∷ [])).den
          * order_fee_micro (with_rounding Rounding.exact_6dp quadratic) false ((3000, 150) ∷ [])
        ≤ (exact_total quadratic false ((3000, 150) ∷ [])).num
          + (exact_total quadratic false ((3000, 150) ∷ [])).den * 1)
order_fee_exact_bounds_example =
    order_fee_exact_bounds quadratic false ((3000, 150) ∷ []) (omega arith)

cent_per_fill_highest_example :
    order_fee_micro
      (with_rounding Rounding.cent_per_order quadratic)
      false
      ((3000, 150) ∷ (3100, 20) ∷ [])
    ≤ order_fee_micro
        (with_rounding Rounding.cent_per_fill quadratic)
        false
        ((3000, 150) ∷ (3100, 20) ∷ [])
cent_per_fill_highest_example =
    cent_per_fill_highest quadratic Rounding.cent_per_order false ((3000, 150) ∷ (3100, 20) ∷ [])
      (omega arith)

fee_micro_split_example :
    fee_micro quadratic false 3000 (100 + 50)
    ≤ fee_micro quadratic false 3000 100 + fee_micro quadratic false 3000 50
fee_micro_split_example = fee_micro_split quadratic false 3000 100 50 (omega arith)

abbrev fee_book : FeeBook
fee_book = record { by_series = ("KXA", quadratic) ∷ []; default = quadratic }
