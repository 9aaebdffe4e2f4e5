-- ===== src/Backtest/Fills/Witnesses.antt =====
-- A book, a print and orders for the theorems on fills.
use kalshi_quant_research.Prelude.{
  ℕ, ◌*◌, ◌≤◌, ◌≡◌, refl, none, some, List, [], ◌∷◌, arith, sum_by, All, nat_key, string_key,
}
use kalshi_quant_research.Market.Contracts.{yes_side, no_side, Trade}
use kalshi_quant_research.Market.OrderBook.{OrderBook}
use kalshi_quant_research.Market.OrderBook.Invariant.{IsValid}
use kalshi_quant_research.Market.OrderBook.Delta.{resting}
use kalshi_quant_research.Backtest.Fills.{
  RestingOrder, TakerModel, QueueModel, optimistic, queue, level_size, execute, on_place,
}
use kalshi_quant_research.Backtest.Fills.Displayed.{level_size-eq-resting}
use kalshi_quant_research.Backtest.Fills.Taker.{IsFill, filled_qty, reachable_in, execute_bounds}
use kalshi_quant_research.Backtest.Fills.Ordering.{
  MarketEvent, print_of, snapshot_of, NoMoreGenerous, behind_front, meet_all, fills_ordered,
}

abbrev thin_book : OrderBook
thin_book = record {
  ticker = "A";
  yes_bids = (3000, 5) ∷ (4000, 10) ∷ [];
  no_bids = (5500, 7) ∷ [];
  last_seq = none;
  last_ts = none;
}

thin_book-IsValid : IsValid thin_book
thin_book-IsValid = record {
  yes_valid = ((ground arith, (ground arith, tt)), (refl, (refl, tt)));
  no_valid = ((ground arith, tt), (refl, tt));
}

level_size-eq-resting_example :
    level_size (some thin_book) yes_side 3000 ≡ resting thin_book yes_side 3000
level_size-eq-resting_example = level_size-eq-resting thin_book yes_side 3000 thin_book-IsValid

abbrev whole_depth : TakerModel
whole_depth = record { max_staleness_ns = some 1000; extra_slippage_ticks = 100; depth_of = λ q. q }

execute_bounds_example :
    All (IsFill 5000) (execute whole_depth (some thin_book) (some 10) yes_side 5000 9)
    × (filled_qty (execute whole_depth (some thin_book) (some 10) yes_side 5000 9) ≤ 9)
    × (sum_by
          (λ (x : ℕ × ℕ). x.0 * x.1)
          (execute whole_depth (some thin_book) (some 10) yes_side 5000 9)
        ≤ 5000 * 9)
    × (filled_qty (execute whole_depth (some thin_book) (some 10) yes_side 5000 9)
        ≤ reachable_in whole_depth 5000 yes_side (some thin_book))
execute_bounds_example = execute_bounds whole_depth (some thin_book) (some 10) yes_side 5000 9

-- a bid for 8 YES at 40 cents, behind 10
abbrev bid : RestingOrder
bid = record {
  order_id = 1;
  ticker = "A";
  side = yes_side;
  price = 4000;
  qty = 8;
  original_qty = 8;
  placed_ts = 0;
  tag = "";
  ahead = 10;
  last_level_size = 10;
  traded_at_level_since = 0;
  filled = 0;
}

-- 12 sold into the YES bids at 40 cents
abbrev sale : Trade
sale = record {
  ticker = "A";
  yes_price = 4000;
  no_price = 6000;
  count = 12;
  taker_side = some no_side;
}

abbrev back : QueueModel
back = queue (λ n. n) (λ n. 0)

back-NoMoreGenerous : NoMoreGenerous back optimistic
back-NoMoreGenerous = behind_front refl (λ k. refl)

abbrev day : List MarketEvent
day = print_of sale ∷ snapshot_of thin_book ∷ print_of sale ∷ []

fills_ordered_example :
    (meet_all back day (on_place back bid (some thin_book))).filled
    ≤ (meet_all optimistic day (on_place optimistic bid (some thin_book))).filled
fills_ordered_example = fills_ordered back optimistic bid (some thin_book) day back-NoMoreGenerous
