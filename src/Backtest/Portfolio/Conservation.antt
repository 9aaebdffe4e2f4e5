-- ===== src/Backtest/Portfolio/Conservation.antt =====
-- The conservation identity of the ledger:
-- equity = initial cash + realised + unrealised - fees, at any marks.
use kalshi_quant_research.Prelude.{
  ℕ, ◌+◌, ◌*◌, ◌≡◌, refl, inl, inr, some, arith, Bool-cases, Option-cases, ok, nat_key, string_key,
}
use kalshi_quant_research.Prelude.Int.{ℤ, pos, ◌+ℤ◌, ◌-ℤ◌, int_laws, parts_of_eq}
use kalshi_quant_research.Prelude.Dict.{
  Dict, lookup, get_or, insert, total, total-insert, total-insert_new, AllValues, insert-AllValues,
  get_or-AllValues,
}
use mathlib.Core.Path.{subst}
use kalshi_quant_research.Market.Contracts.{Ticker, Side, yes_side, no_side, price_scale}
use kalshi_quant_research.Backtest.Portfolio.{
  Position, no_position, is_flat, Portfolio, position, add_to, net, net_position, buy, settle,
  settle_position, settlement_payoff, position_cost, max_loss,
}
use kalshi_quant_research.Backtest.Portfolio.Netting.{
  IsNetted, IsBacked, net_fields, net-IsNetted, add_to-IsBacked,
}

-- Every stored position is netted, and the cash that is gone lies in inventory, profit and fees.
pub record IsBalanced (initial : ℤ) (f : Portfolio) : Type 0 where
  pub netted : AllValues IsNetted f.positions
  pub balance : f.cash +ℤ pos (max_loss f) +ℤ f.fees ≡ initial +ℤ f.realised

no_position-IsNetted : IsNetted no_position
no_position-IsNetted = record {
  one_sided = omega arith;
  yes_backed = λ e. refl;
  no_backed = λ e. refl;
}

-- the total cost after a position is written back
cost-insert :
    (t : Ticker) (p : Position) (d : Dict Ticker Position)
    → total position_cost (insert t p d) + position_cost (get_or t no_position d)
      ≡ total position_cost d + position_cost p
cost-insert t p d = elim (Option-cases (lookup t d)) [
  | inl gone ↦ rw (gone, get_or) (omega (arith, total-insert_new position_cost t p d gone))
  | inr (q, found) ↦ rw (found, get_or) (total-insert position_cost t p q d found)
]

cost-add_to :
    (s : Side) (qty cost : ℕ) (p : Position)
    → position_cost (add_to s qty cost p) ≡ position_cost p + cost
cost-add_to yes_side qty cost p = omega arith
cost-add_to no_side qty cost p = omega arith

-- the cash that a payout of `value` brings, for inventory that cost `used`
payout_balance :
    (cash fees initial realised value : ℤ) (used before after : ℕ)
    → after + used ≡ before
    → cash +ℤ pos before +ℤ fees ≡ initial +ℤ realised
    → cash +ℤ value +ℤ pos after +ℤ fees ≡ initial +ℤ (realised +ℤ (value -ℤ pos used))
payout_balance cash fees initial realised value used before after e h =
    omega (int_laws, parts_of_eq h)

-- writing a netted position back, when `cost` of the cash has just gone into it
net_position-IsBalanced :
    (initial : ℤ) (t : Ticker) (p : Position) (cost : ℕ) (f : Portfolio)
    → AllValues IsNetted f.positions
    → IsBacked p
    → position_cost p ≡ position_cost (position f t) + cost
    → f.cash +ℤ pos (max_loss f + cost) +ℤ f.fees ≡ initial +ℤ f.realised
    → IsBalanced initial (net_position t p f)
unfolding net_position max_loss
net_position-IsBalanced initial t p cost f netted backed grown balance =
    let (_, _, _, yes_left, no_left) = net_fields p in
    record {
      netted = insert-AllValues IsNetted t (net p).left f.positions (net-IsNetted p backed) netted;
      balance =
          payout_balance f.cash f.fees initial f.realised (pos (price_scale * (net p).pairs))
            ((net p).cost_yes + (net p).cost_no) (max_loss f + cost)
            (total position_cost (insert t (net p).left f.positions))
            (omega (arith, cost-insert t (net p).left f.positions)) balance;
    }

-- the cash that goes into inventory and a fee
paid_balance :
    (cash fees initial realised : ℤ) (fee cost before : ℕ)
    → cash +ℤ pos before +ℤ fees ≡ initial +ℤ realised
    → cash -ℤ pos (cost + fee) +ℤ pos (before + cost) +ℤ (fees +ℤ pos fee) ≡ initial +ℤ realised
paid_balance cash fees initial realised fee cost before h = omega (int_laws, parts_of_eq h)

-- A purchase keeps the balance, whatever its side, price, size and fee.
pub buy-IsBalanced :
    (initial : ℤ) (t : Ticker) (s : Side) (price qty fee : ℕ) (f g : Portfolio)
    → IsBalanced initial f
    → buy t s price qty fee f ≡ ok g
    → IsBalanced initial g
unfolding buy
buy-IsBalanced initial t s price qty fee f g h e =
    let paid : Portfolio = record f {
      cash = f.cash -ℤ pos (price * qty + fee);
      fees = f.fees +ℤ pos fee;
    } in
    let bought : Position = add_to s qty (price * qty) (position f t) in
    let is_g : net_position t bought paid ≡ g = ground arith in
    subst (IsBalanced initial) is_g (
      net_position-IsBalanced initial t bought (price * qty) paid h.netted
        (add_to-IsBacked s price qty (position f t)
          (get_or-AllValues IsNetted t no_position f.positions no_position-IsNetted h.netted))
        (cost-add_to s qty (price * qty) (position f t))
        (unfold max_loss in
          paid_balance f.cash f.fees initial f.realised fee (price * qty) _ h.balance))

settle_position-IsBalanced :
    (initial : ℤ) (t : Ticker) (value : ℕ) (p : Position) (f : Portfolio)
    → IsBalanced initial f
    → lookup t f.positions ≡ some p
    → IsBalanced initial (settle_position t value (some p) f).0
unfolding max_loss
settle_position-IsBalanced initial t value p f h found = elim (Bool-cases (is_flat p)) [
  | inl flat ↦ rw flat h
  | inr open_position ↦ rw open_position (record {
    netted = insert-AllValues IsNetted t no_position f.positions no_position-IsNetted h.netted;
    balance =
        payout_balance f.cash f.fees initial f.realised (settlement_payoff value p)
          (position_cost p) (max_loss f) (total position_cost (insert t no_position f.positions))
          (omega (arith, total-insert position_cost t no_position p f.positions found)) h.balance;
  })
]

-- A settlement keeps the balance, whatever the value.
pub settle-IsBalanced :
    (initial : ℤ) (t : Ticker) (value : ℕ) (f : Portfolio)
    → IsBalanced initial f
    → IsBalanced initial (settle t value f).0
unfolding settle max_loss
settle-IsBalanced initial t value f h =
    let marked : Portfolio = record f { settled = insert t value f.settled } in
    let still : IsBalanced initial marked = record { netted = h.netted; balance = h.balance } in
    elim (Option-cases (lookup t f.positions)) [
      | inl gone ↦ rw gone still
      | inr (p, found) ↦ rw found (settle_position-IsBalanced initial t value p marked still found)
    ]
