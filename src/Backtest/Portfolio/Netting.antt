-- ===== src/Backtest/Portfolio/Netting.antt =====
-- `_net`: a YES and a NO on one market become $1 of cash, and no cost is lost or invented.
use kalshi_quant_research.Prelude.{
  ℕ, ◌+◌, ◌*◌, ◌/◌, ◌≤◌, ◌<◌, min, ◌≡◌, inl, inr, true, arith, ltb, ltb→lt, Bool-cases, nat_key,
  string_key,
}
use native.Mathlib.Nat.{mul-le-mul_left}
use kalshi_quant_research.Prelude.Division.{div_bounds, le_of_multiples}
use kalshi_quant_research.Market.Contracts.{Side, yes_side, no_side}
use kalshi_quant_research.Backtest.Portfolio.{Position, cost_share, net, add_to}

-- A stored position: never both sides, and no cost without inventory.
pub record IsNetted (p : Position) : Type 0 where
  pub one_sided : min p.yes p.no ≡ 0
  pub yes_backed : p.yes ≡ 0 → p.yes_cost ≡ 0
  pub no_backed : p.no ≡ 0 → p.no_cost ≡ 0

-- A position just after a buy: both sides may be held, still no cost without inventory.
pub record IsBacked (p : Position) : Type 0 where
  pub yes_backed : p.yes ≡ 0 → p.yes_cost ≡ 0
  pub no_backed : p.no ≡ 0 → p.no_cost ≡ 0

pub cost_share-le : (cost pairs held : ℕ) → cost_share cost pairs held ≤ cost
unfolding cost_share
cost_share-le cost pairs held = elim (Bool-cases (ltb pairs held)) [
  | inl part ↦ rw (part, cost_share) (le_of_multiples held (cost * pairs / held) cost (below part))
  | inr whole ↦ rw (whole, cost_share) (omega arith)
]
  where
    below : ltb pairs held ≡ true → held * (cost * pairs / held) < held * cost + held
    below part =
        let (lo, hi) = div_bounds (cost * pairs) held (ground arith) in
        let less : cost * pairs ≤ cost * held =
          mul-le-mul_left cost (omega (arith, ltb→lt pairs held part)) in
        omega arith

-- the last of a side takes all its cost
pub cost_share_all : (cost pairs held : ℕ) → held ≤ pairs → cost_share cost pairs held ≡ cost
unfolding cost_share
cost_share_all cost pairs held h = ground arith

-- what `net` writes, at a positive or a zero number of pairs
pub net_fields :
    (p : Position)
    → ((net p).pairs ≡ min p.yes p.no)
      × ((net p).left.yes + (net p).pairs ≡ p.yes)
      × ((net p).left.no + (net p).pairs ≡ p.no)
      × ((net p).left.yes_cost + (net p).cost_yes ≡ p.yes_cost)
      × ((net p).left.no_cost + (net p).cost_no ≡ p.no_cost)
unfolding net
net_fields p =
    let y = cost_share-le p.yes_cost (min p.yes p.no) p.yes in
    let n = cost_share-le p.no_cost (min p.yes p.no) p.no in ground arith

-- a side that is used up keeps no cost
pub net-IsNetted : (p : Position) → IsBacked p → IsNetted (net p).left
unfolding net
net-IsNetted p h =
    let y = cost_share_all p.yes_cost (min p.yes p.no) p.yes in
    let n = cost_share_all p.no_cost (min p.yes p.no) p.no in ground arith

free : (price qty : ℕ) → qty ≡ 0 → price * qty ≡ 0
free price qty e = rw e (omega arith)

pub add_to-IsBacked :
    (s : Side) (price qty : ℕ) (p : Position) → IsNetted p → IsBacked (add_to s qty (price * qty) p)
add_to-IsBacked yes_side price qty p h = record {
  yes_backed = λ e. omega (arith, h.yes_backed (omega arith), free price qty (omega arith));
  no_backed = h.no_backed;
}
add_to-IsBacked no_side price qty p h = record {
  yes_backed = h.yes_backed;
  no_backed = λ e. omega (arith, h.no_backed (omega arith), free price qty (omega arith));
}
