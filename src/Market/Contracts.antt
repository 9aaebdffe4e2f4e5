-- ===== src/Market/Contracts.antt =====
-- market/contracts.py (sides, contracts, trades) and the unit constants of market/units.py.
-- A price is a number of ticks (1/10,000 dollar), a quantity a number of centi-contracts; a
-- ticker is a text. What the code reads off a timestamp is not modelled here.
use kalshi_quant_research.Prelude.{
  ℕ, ◌+◌, ◌-◌, String, Bool, true, false, Option, not, ◌==◌, Result, Error, ok, raise_if, ◌>>◌,
}

abbrev pub Price : Type 0
Price = ℕ

abbrev pub Qty : Type 0
Qty = ℕ

abbrev pub Ticker : Type 0
Ticker = String

-- ticks per $1
abbrev pub price_scale : ℕ
price_scale = 10000

-- Price of the opposite outcome, for a price of at most $1.
abbrev pub complement : Price → Price
complement price = price_scale - price

pub data Side : Type 0 where
  yes_side no_side : Side

abbrev pub opposite : Side → Side
opposite yes_side = no_side
opposite no_side = yes_side

-- `a is b` on sides
abbrev pub same_side : Side → Side → Bool
same_side yes_side yes_side = true
same_side no_side no_side = true
same_side _ _ = false

pub record ContractRef : Type 0 where
  pub ticker : Ticker
  pub side : Side

abbrev pub complement_ref : ContractRef → ContractRef
complement_ref c = record { ticker = c.ticker; side = opposite c.side }

-- `Trade`, with the fields that the replay reads.
pub record Trade : Type 0 where
  pub ticker : Ticker
  pub yes_price : Price
  pub no_price : Price
  pub count : Qty
  pub taker_side : Option Side

-- `Trade.__post_init__`: the two prices of a print make $1.
abbrev pub make_trade : Trade → Result Trade
make_trade t = raise_if (not (t.yes_price + t.no_price == price_scale)) Error.value_error >> ok t

-- `Market.payoff` of a settled market, for a settlement value of at most $1.
abbrev pub payoff : Side → Price → Price
payoff yes_side value = value
payoff no_side value = complement value
