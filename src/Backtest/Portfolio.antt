-- ===== src/Backtest/Portfolio.antt =====
-- backtest/portfolio.py: the ledger, in integer micro-dollars. Prices, quantities and inventory
-- costs are natural numbers; cash, realised profit and fees are signed. Orders are buys.
pub mod Netting
pub mod Conservation
pub mod Identity
pub mod Cash
pub mod Exposure
pub mod Witnesses
use kalshi_quant_research.Prelude.{
  ℕ, ◌+◌, ◌-◌, ◌*◌, ◌/◌, min, Bool, true, false, ◌&&◌, Option, none, some, List, [], ◌∷◌, ltb, ◌==◌,
  if◌then◌else◌, Error, Result, ok, err, string_key, sum_by,
}
use kalshi_quant_research.Prelude.Int.{ℤ, pos, sub_ℕ, ◌+ℤ◌, ◌-ℤ◌}
use kalshi_quant_research.Prelude.Dict.{Dict, lookup, contains, get_or, insert, total}
use kalshi_quant_research.Market.Contracts.{
  Price, Qty, Ticker, Side, yes_side, no_side, price_scale,
}

pub record Position : Type 0 where
  pub yes : Qty
  pub yes_cost : ℕ
  pub no : Qty
  pub no_cost : ℕ

abbrev pub no_position : Position
no_position = record { yes = 0; yes_cost = 0; no = 0; no_cost = 0 }

abbrev pub net_yes : Position → ℤ
net_yes p = sub_ℕ p.yes p.no

abbrev pub is_flat : Position → Bool
is_flat p = (p.yes == 0) && (p.no == 0)

-- The dict `settled` maps a settled ticker to its value.
pub record Portfolio : Type 0 where
  pub cash : ℤ
  pub positions : Dict Ticker Position
  pub realised : ℤ
  pub fees : ℤ
  pub settled : Dict Ticker Price

abbrev pub new_portfolio : ℤ → Portfolio
new_portfolio cash = record {
  cash = cash;
  positions = [];
  realised = pos 0;
  fees = pos 0;
  settled = [];
}

-- `setdefault(ticker, Position())`: what it returns; the entry is written by the caller.
abbrev pub position : Portfolio → Ticker → Position
position p ticker = get_or ticker no_position p.positions

-- the bought side of a position
abbrev pub add_to : Side → Qty → ℕ → Position → Position
add_to yes_side qty cost p = record p { yes = p.yes + qty; yes_cost = p.yes_cost + cost }
add_to no_side qty cost p = record p { no = p.no + qty; no_cost = p.no_cost + cost }

-- `cost * pairs // held if pairs < held else cost`
unfoldable pub cost_share : ℕ → Qty → Qty → ℕ
cost_share cost pairs held = if ltb pairs held then cost * pairs / held else cost

-- `_net`, on the position: the pairs that are paid out, their cost, and what is left
pub record Netted : Type 0 where
  pub pairs : Qty
  pub cost_yes : ℕ
  pub cost_no : ℕ
  pub left : Position

unfoldable pub net : Position → Netted
net p =
    let pairs = min p.yes p.no in
    let cost_yes = cost_share p.yes_cost pairs p.yes in
    let cost_no = cost_share p.no_cost pairs p.no in
    if pairs == 0 then record { pairs = 0; cost_yes = 0; cost_no = 0; left = p } else record {
      pairs = pairs;
      cost_yes = cost_yes;
      cost_no = cost_no;
      left = record {
        yes = p.yes - pairs;
        yes_cost = p.yes_cost - cost_yes;
        no = p.no - pairs;
        no_cost = p.no_cost - cost_no;
      };
    }

-- `_net`, on the ledger: every pair of a YES and a NO is $1 of cash.
unfoldable pub net_position : Ticker → Position → Portfolio → Portfolio
net_position ticker p f =
    let n = net p in
    record f {
      cash = f.cash +ℤ pos (price_scale * n.pairs);
      realised = f.realised +ℤ (pos (price_scale * n.pairs) -ℤ pos (n.cost_yes + n.cost_no));
      positions = insert ticker n.left f.positions;
    }

unfoldable pub buy : Ticker → Side → Price → Qty → ℕ → Portfolio → Result Portfolio
buy ticker side price qty fee f =
    let paid : Portfolio = record f {
      cash = f.cash -ℤ pos (price * qty + fee);
      fees = f.fees +ℤ pos fee;
    } in
    if contains ticker f.settled
    then err Error.value_error
    else ok (net_position ticker (add_to side qty (price * qty) (position f ticker)) paid)

-- YES pays `value`, NO pays $1 - `value`.
abbrev pub settlement_payoff : Price → Position → ℤ
settlement_payoff value p = pos (value * p.yes) +ℤ (pos (price_scale * p.no) -ℤ pos (value * p.no))

-- `settle`: the new ledger and the profit that it realised
abbrev pub settle_position : Ticker → Price → Option Position → Portfolio → Portfolio × ℤ
settle_position ticker value none f = (f, pos 0)
settle_position ticker value (some p) f =
    let payoff = settlement_payoff value p in
    let pnl = payoff -ℤ pos (p.yes_cost + p.no_cost) in
    if is_flat p then (f, pos 0) else (
      record f {
        cash = f.cash +ℤ payoff;
        realised = f.realised +ℤ pnl;
        positions = insert ticker no_position f.positions;
      },
      pnl,
    )

unfoldable pub settle : Ticker → Price → Portfolio → Portfolio × ℤ
settle ticker value f =
    settle_position ticker value (lookup ticker f.positions)
      (record f { settled = insert ticker value f.settled })

-- Liquidation prices of both sides; `none` values a side at cost.
abbrev pub Marks : Type 0
Marks = Dict Ticker (Option Price × Option Price)

abbrev pub side_value : Option Price → Qty → ℕ → ℕ
side_value none held cost = cost
side_value (some bid) held cost = bid * held

abbrev pub marks_of : Marks → Ticker → Option Price × Option Price
marks_of marks ticker = get_or ticker (none, none) marks

-- what a position would fetch at the marks of its ticker
abbrev pub holding : Marks → Ticker × Position → ℕ
holding marks (t, p) =
    let m = marks_of marks t in side_value m.0 p.yes p.yes_cost + side_value m.1 p.no p.no_cost

-- the loop of `unrealised`; a flat position is skipped
pub unrealised_from : Marks → Dict Ticker Position → ℤ
unrealised_from marks [] = pos 0
unrealised_from marks ((t, p) ∷ d) =
    let rest = unrealised_from marks d in
    if is_flat p then rest else (pos (holding marks (t, p)) -ℤ pos (p.yes_cost + p.no_cost)) +ℤ rest

pub unrealised : Marks → Portfolio → ℤ
unfolding unrealised_from
unrealised marks f = unrealised_from marks f.positions

unfoldable pub holdings_from : Marks → Dict Ticker Position → ℕ
holdings_from marks [] = 0
holdings_from marks ((t, p) ∷ d) =
    let rest = holdings_from marks d in if is_flat p then rest else holding marks (t, p) + rest

unfoldable pub equity : Marks → Portfolio → ℤ
unfolding holdings_from
equity marks f = f.cash +ℤ pos (holdings_from marks f.positions)

abbrev pub position_cost : Position → ℕ
position_cost p = p.yes_cost + p.no_cost

-- `max_loss`: everything held pays zero
pub max_loss : Portfolio → ℕ
max_loss f = total position_cost f.positions
