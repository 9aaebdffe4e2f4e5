-- ===== src/Market/Fees.antt =====
-- market/fees.py: fee schedules in exact micro-dollars. A price lies in [0, $1], and a multiplier is
-- a non-negative fraction (with the denominator that it was given). `Fraction(str(multiplier))` is
-- the standard library's: a multiplier enters as the fraction, or none where it is missing.
pub mod Bounds
pub mod Symmetry
pub mod Book
pub mod Witnesses
use Prim.Native.Char.{code}
use kalshi_quant_research.Prelude.{
  ℕ, ◌+◌, ◌*◌, String, Bool, true, false, ◌||◌, ◌&&◌, Option, none, some, List, [], ◌∷◌, map, ◌==◌,
  if◌then◌else◌, sum_by, ◌=?◌, string_key,
}
use kalshi_quant_research.Prelude.Dict.{Dict, get_or}
use kalshi_quant_research.Prelude.Division.{ceil_div}
use kalshi_quant_research.Market.Contracts.{Price, Qty, Ticker, price_scale, complement}

abbrev pub micro_per_dollar : ℕ
micro_per_dollar = 1000000

abbrev pub cent_micro : ℕ
cent_micro = 10000

-- `Fraction` of a non-negative value
pub record Fraction : Type 0 where
  pub num : ℕ
  pub den : ℕ

abbrev pub times : Fraction → Fraction → Fraction
times a b = record { num = a.num * b.num; den = a.den * b.den }

abbrev pub one_fraction : Fraction
one_fraction = record { num = 1; den = 1 }

abbrev pub taker_coefficient : Fraction
taker_coefficient = record { num = 7; den = 100 }

abbrev pub maker_coefficient : Fraction
maker_coefficient = record { num = 7; den = 400 }

pub data Rounding : Type 0 where
  exact_6dp cent_per_fill cent_per_order : Rounding

pub record FeeSchedule : Type 0 where
  pub fee_type : String
  pub multiplier : Fraction
  pub rounding : Rounding
  pub known : Bool

abbrev pub known_fee_type : String → Bool
known_fee_type t = (t =? "quadratic") || (t =? "quadratic_with_maker_fees")

-- `FeeSchedule.from_series`
pub from_series : Option String → Option Fraction → Rounding → FeeSchedule
from_series (some fee_type) (some m) rounding =
    if known_fee_type fee_type
    then record { fee_type = fee_type; multiplier = m; rounding = rounding; known = true }
    else record { fee_type = "quadratic"; multiplier = m; rounding = rounding; known = false }
from_series none (some m) rounding = record {
  fee_type = "quadratic";
  multiplier = m;
  rounding = rounding;
  known = false;
}
from_series fee_type none rounding = record {
  fee_type = "quadratic";
  multiplier = one_fraction;
  rounding = rounding;
  known = false;
}

abbrev pub with_rounding : Rounding → FeeSchedule → FeeSchedule
with_rounding r f = record f { rounding = r }

unfoldable pub coefficient : FeeSchedule → Bool → Fraction
coefficient f maker =
    if maker
    then (if f.fee_type =? "quadratic_with_maker_fees"
        then times maker_coefficient f.multiplier
        else record { num = 0; den = 1 })
    else times taker_coefficient f.multiplier

-- `exact_fee_micro`: coefficient * qty * price * (S - price) * 10^6 / (100 * S * S)
unfoldable pub exact_fee_micro : FeeSchedule → Bool → Price → Qty → Fraction
exact_fee_micro f maker price qty =
    let c = coefficient f maker in
    record {
      num = c.num * qty * price * complement price * micro_per_dollar;
      den = c.den * (100 * price_scale * price_scale);
    }

-- `math.ceil` of a fraction
abbrev pub ceil : Fraction → ℕ
ceil x = ceil_div x.num x.den

abbrev pub up_to_cent : ℕ → ℕ
up_to_cent fee = ceil_div fee cent_micro * cent_micro

-- the rounding of one fill, after `math.ceil`; `cent_per_order` is settled in `order_fee_micro`
abbrev pub rounded : Rounding → ℕ → ℕ
rounded Rounding.cent_per_fill fee = up_to_cent fee
rounded _ fee = fee

unfoldable pub fee_micro : FeeSchedule → Bool → Price → Qty → ℕ
fee_micro f maker price qty = rounded f.rounding (ceil (exact_fee_micro f maker price qty))

-- The sum of the exact fees of one order: they have one denominator.
abbrev pub exact_total : FeeSchedule → Bool → List (Price × Qty) → Fraction
exact_total f maker fills = record {
  num = sum_by (λ (x : Price × Qty). (exact_fee_micro f maker x.0 x.1).num) fills;
  den = (coefficient f maker).den * (100 * price_scale * price_scale);
}

unfoldable pub order_fee_micro : FeeSchedule → Bool → List (Price × Qty) → ℕ
order_fee_micro f maker fills = elim f.rounding [
  | Rounding.cent_per_order ↦ up_to_cent (ceil (exact_total f maker fills))
  | _ ↦ sum_by (λ (x : Price × Qty). fee_micro f maker x.0 x.1) fills
]

abbrev pub marginal_fee_micro_per_centi : FeeSchedule → Price → Fraction
marginal_fee_micro_per_centi f price = exact_fee_micro f false price 1

-- `ticker.split("-", 1)[0]`
unfoldable pub series_of_ticker : Ticker → String
series_of_ticker String.[] = String.[]
series_of_ticker (String.◌∷◌ c s) =
    let rest = series_of_ticker s in if code c == b'-' then String.[] else String.◌∷◌ c rest

pub record FeeBook : Type 0 where
  pub by_series : Dict String FeeSchedule
  pub default : FeeSchedule

unfoldable pub for_ticker : FeeBook → Ticker → FeeSchedule
for_ticker b ticker = get_or (series_of_ticker ticker) b.default b.by_series

-- a dict comprehension over the same keys
abbrev pub map_values :
    (FeeSchedule → FeeSchedule) → Dict String FeeSchedule → Dict String FeeSchedule
map_values f [] = []
map_values f ((k, v) ∷ d) = (k, f v) ∷ map_values f d

abbrev pub unknown_schedule : Rounding → FeeSchedule
unknown_schedule r = record {
  fee_type = "quadratic";
  multiplier = one_fraction;
  rounding = r;
  known = false;
}

-- `FeeBook.from_series_meta`
abbrev pub from_series_meta : Dict String (Option String × Option Fraction) → Rounding → FeeBook
from_series_meta meta r = record { by_series = schedules meta; default = unknown_schedule r }
  where
    schedules : Dict String (Option String × Option Fraction) → Dict String FeeSchedule
    schedules [] = []
    schedules ((s, m) ∷ rest) = (s, from_series m.0 m.1 r) ∷ schedules rest

abbrev pub book_with_rounding : Rounding → FeeBook → FeeBook
book_with_rounding r b = record {
  by_series = map_values (with_rounding r) b.by_series;
  default = with_rounding r b.default;
}

abbrev pub scale_schedule : Fraction → FeeSchedule → FeeSchedule
scale_schedule factor f = record f { multiplier = times f.multiplier factor }

-- `FeeBook.scaled`
abbrev pub scaled : Fraction → FeeBook → FeeBook
scaled factor b = record {
  by_series = map_values (scale_schedule factor) b.by_series;
  default = scale_schedule factor b.default;
}
