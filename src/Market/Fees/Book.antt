-- ===== src/Market/Fees/Book.antt =====
-- The fee book: which schedule a ticker gets, and what the sensitivity variants change.
use kalshi_quant_research.Prelude.{
  String, ◌≡◌, refl, ◌⊎◌, inl, inr, true, false, Option, none, some, [], ◌∷◌, arith, Bool-cases,
  nat_key, string_key,
}
use kalshi_quant_research.Prelude.Dict.{Dict, get_or}
use kalshi_quant_research.Market.Contracts.{Ticker}
use kalshi_quant_research.Market.Fees.{
  Fraction, Rounding, FeeSchedule, from_series, known_fee_type, with_rounding, series_of_ticker,
  FeeBook, for_ticker, map_values, book_with_rounding, scale_schedule, scaled,
}

get_or-map_values :
    (g : FeeSchedule → FeeSchedule) (s : String) (v : FeeSchedule) (d : Dict String FeeSchedule)
    → get_or s (g v) (map_values g d) ≡ g (get_or s v d)
get_or-map_values g s v [] = refl
get_or-map_values g s v ((k, w) ∷ d) = ground (arith, get_or-map_values g s v d)

-- Changing the rounding of a book, or scaling it, changes the schedule of every ticker in that way,
-- those that fall back to the default included.
pub for_ticker_variants :
    (b : FeeBook) (t : Ticker) (r : Rounding) (factor : Fraction)
    → (for_ticker (book_with_rounding r b) t ≡ with_rounding r (for_ticker b t))
      × (for_ticker (scaled factor b) t ≡ scale_schedule factor (for_ticker b t))
unfolding for_ticker
for_ticker_variants b t r factor = (
  get_or-map_values (with_rounding r) (series_of_ticker t) b.default b.by_series,
  get_or-map_values (scale_schedule factor) (series_of_ticker t) b.default b.by_series,
)

-- A schedule is marked known exactly when the series gives a multiplier and a fee type that is one
-- of the two published ones; any other is charged as `quadratic`.
pub from_series_known :
    (fee_type : Option String) (m : Option Fraction) (r : Rounding)
    → ((from_series fee_type m r).known ≡ false)
        × ((from_series fee_type m r).fee_type ≡ "quadratic")
      ⊎ ((from_series fee_type m r).known ≡ true)
        × (some (from_series fee_type m r).fee_type ≡ fee_type)
        × (some (from_series fee_type m r).multiplier ≡ m)
        × (known_fee_type (from_series fee_type m r).fee_type ≡ true)
unfolding from_series
from_series_known (some t) (some m) r = elim (Bool-cases (known_fee_type t)) [
  | inl y ↦ rw y (inr (refl, refl, refl, y))
  | inr n ↦ rw n (inl (refl, refl))
]
from_series_known none (some m) r = inl (refl, refl)
from_series_known t none r = inl (refl, refl)
