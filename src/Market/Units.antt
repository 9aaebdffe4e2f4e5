-- ===== src/Market/Units.antt =====
-- market/units.py: strict parsing on the fixed-point grid. The decimal numbers and their arithmetic,
-- which rounds to the digits of its context, are those of Python's `decimal`, an argument here.
use kalshi_quant_research.Prelude.{
  ℕ, Bool, ◌&&◌, ◌||◌, not, Option, none, some, Error, Result, ok, err, ◌>>=◌, ◌>>◌, raise_if,
}
use kalshi_quant_research.Prelude.Int.{ℤ, pos, ltb_ℤ, pos_part}
use kalshi_quant_research.Market.Contracts.{Price, price_scale}

abbrev pub qty_scale : ℕ
qty_scale = 100

-- What the parsers call of `decimal`: `d * n`, `d.to_integral_value()`, `==` and `int(d)`.
pub record DecimalMath : Type 1 where
  pub Decimal : Type 0
  pub times : Decimal → ℕ → Decimal
  pub to_integral_value : Decimal → Decimal
  pub equal : Decimal → Decimal → Bool
  pub to_int : Decimal → ℤ

module _ (math : DecimalMath) where
  -- `_to_decimal`, from the finite number that a text or a Decimal is read as, if it is one
  abbrev pub to_decimal : Option math.Decimal → Result math.Decimal
  to_decimal none = err Error.invalid_unit
  to_decimal (some d) = ok d

  -- `_scaled`
  abbrev pub scaled_units : Option math.Decimal → ℕ → Result ℤ
  scaled_units value scale = do
    d ← to_decimal value
    let scaled = math.times d scale
    let integral = math.to_integral_value scaled
    raise_if (not (math.equal scaled integral)) Error.invalid_unit
    ok (math.to_int integral)

  abbrev pub parse_price : Option math.Decimal → Result Price
  parse_price value = do
    ticks ← scaled_units value price_scale
    raise_if (ltb_ℤ ticks (pos 0) || ltb_ℤ (pos price_scale) ticks) Error.invalid_unit
    ok (pos_part ticks)

  abbrev pub parse_qty : Option math.Decimal → Bool → Result ℤ
  parse_qty value allow_negative = do
    q ← scaled_units value qty_scale
    raise_if (ltb_ℤ q (pos 0) && not allow_negative) Error.invalid_unit
    ok q
