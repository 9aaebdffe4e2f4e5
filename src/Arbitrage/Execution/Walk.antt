-- ===== src/Arbitrage/Execution/Walk.antt =====
-- Walking the displayed asks: what is bought, what is left and what it costs.
use kalshi_quant_research.Prelude.{ℕ, ◌+◌, ◌-◌, min, ◌≡◌, List, [], ◌∷◌, arith, sum_by}
use kalshi_quant_research.Market.Contracts.{Price, Qty, Side}
use kalshi_quant_research.Market.OrderBook.{OrderBook, Level, asks}
use kalshi_quant_research.Arbitrage.Execution.{
  Fills, walk_levels, walk_asks, level_depth, ask_depth,
}

abbrev pub fills_qty : Fills → ℕ
fills_qty = sum_by (λ (x : Price × Qty). x.1)

pub walk_levels_left : (q : Qty) (lvs : List Level) → (walk_levels q lvs).1 ≡ q - level_depth lvs
unfolding walk_levels
walk_levels_left q [] = omega arith
walk_levels_left q (lv ∷ lvs) = ground (arith, walk_levels_left (q - min q lv.qty) lvs)

pub walk_levels_bought :
    (q : Qty) (lvs : List Level) → fills_qty (walk_levels q lvs).0 + (walk_levels q lvs).1 ≡ q
unfolding walk_levels
walk_levels_bought q [] = omega arith
walk_levels_bought q (lv ∷ lvs) = ground (arith, walk_levels_bought (q - min q lv.qty) lvs)

-- What `walk_asks` buys and leaves adds up to what was asked for, and it leaves exactly what the
-- displayed depth of the side lacks.
pub walk_asks_total :
    (book : OrderBook) (side : Side) (qty : Qty)
    → (fills_qty (walk_asks book side qty).0 + (walk_asks book side qty).1 ≡ qty)
      × ((walk_asks book side qty).1 ≡ qty - ask_depth book side)
unfolding walk_asks ask_depth
walk_asks_total book side qty =
    (walk_levels_bought qty (asks side book), walk_levels_left qty (asks side book))
