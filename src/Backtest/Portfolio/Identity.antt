-- ===== src/Backtest/Portfolio/Identity.antt =====
-- Equity at any marks, after any sequence of purchases and settlements.
use kalshi_quant_research.Prelude.{
  ℕ, ◌≡◌, inl, inr, true, List, [], ◌∷◌, arith, Bool-cases, Result, ok, ◌>>=◌, >>=-eq-ok, nat_key,
  string_key,
}
use kalshi_quant_research.Prelude.Int.{ℤ, pos, ◌+ℤ◌, ◌-ℤ◌, int_laws, parts_of_eq}
use kalshi_quant_research.Prelude.Dict.{Dict, total, AllValues}
use mathlib.Core.Path.{subst}
use kalshi_quant_research.Market.Contracts.{Price, Qty, Ticker, Side}
use kalshi_quant_research.Backtest.Portfolio.{
  Position, is_flat, Portfolio, new_portfolio, buy, settle, Marks, unrealised_from, unrealised,
  holdings_from, equity, position_cost, max_loss,
}
use kalshi_quant_research.Backtest.Portfolio.Netting.{IsNetted}
use kalshi_quant_research.Backtest.Portfolio.Conservation.{
  IsBalanced, buy-IsBalanced, settle-IsBalanced,
}

flat_free : (p : Position) → IsNetted p → is_flat p ≡ true → position_cost p ≡ 0
flat_free p h flat = ground arith

unrealised-eq-holdings :
    (marks : Marks) (d : Dict Ticker Position)
    → AllValues IsNetted d
    → unrealised_from marks d +ℤ pos (total position_cost d) ≡ pos (holdings_from marks d)
unfolding unrealised_from holdings_from
unrealised-eq-holdings marks [] h = omega int_laws
unrealised-eq-holdings marks ((t, p) ∷ d) h =
    let ih = unrealised-eq-holdings marks d h.1 in
    elim (Bool-cases (is_flat p)) [
      | inl flat ↦ rw flat (omega (int_laws, flat_free p h.0 flat, parts_of_eq ih))
      | inr held ↦ rw held (omega (int_laws, parts_of_eq ih))
    ]

pub equity_identity :
    (initial : ℤ) (marks : Marks) (f : Portfolio)
    → IsBalanced initial f
    → equity marks f ≡ initial +ℤ f.realised +ℤ unrealised marks f -ℤ f.fees
unfolding equity unrealised max_loss
equity_identity initial marks f h = omega (
  int_laws,
  parts_of_eq h.balance,
  parts_of_eq (unrealised-eq-holdings marks f.positions h.netted),
)

-- What the engine does to the ledger.
pub data Entry : Type 0 where
  bought : Ticker → Side → Price → Qty → ℕ → Entry
  paid_out : Ticker → Price → Entry

unfoldable pub post : Entry → Portfolio → Result Portfolio
post (bought t s price qty fee) f = buy t s price qty fee f
post (paid_out t value) f = ok (settle t value f).0

-- A purchase of a settled ticker raises, and ends the run.
unfoldable pub post_all : List Entry → Portfolio → Result Portfolio
post_all [] f = ok f
post_all (e ∷ es) f = do g ← post e f; post_all es g

post-IsBalanced :
    (initial : ℤ) (e : Entry) (f g : Portfolio)
    → IsBalanced initial f
    → post e f ≡ ok g
    → IsBalanced initial g
unfolding post
post-IsBalanced initial (bought t s price qty fee) f g h eq =
    buy-IsBalanced initial t s price qty fee f g h eq
post-IsBalanced initial (paid_out t value) f g h eq =
    let is_g : (settle t value f).0 ≡ g = cc in
    subst (IsBalanced initial) is_g (settle-IsBalanced initial t value f h)

post_all-IsBalanced :
    (initial : ℤ) (es : List Entry) (f g : Portfolio)
    → IsBalanced initial f
    → post_all es f ≡ ok g
    → IsBalanced initial g
unfolding post_all
post_all-IsBalanced initial [] f g h eq = let is_g : f ≡ g = cc in subst (IsBalanced initial) is_g h
post_all-IsBalanced initial (e ∷ es) f g h eq =
    let (f', first, rest) = >>=-eq-ok (post e f) (post_all es) eq in
    post_all-IsBalanced initial es f' g (post-IsBalanced initial e f f' h first) rest

pub new_portfolio-IsBalanced : (cash : ℤ) → IsBalanced cash (new_portfolio cash)
new_portfolio-IsBalanced cash = record { netted = tt; balance = unfold max_loss in omega int_laws }

-- After any purchases and settlements that went through, from a new ledger, equity at any marks is
-- the initial cash and the realised and unrealised profit, less the fees, to the micro-dollar; and
-- no stored position holds both sides.
pub ledger_conserves :
    (cash : ℤ) (es : List Entry) (g : Portfolio) (marks : Marks)
    → post_all es (new_portfolio cash) ≡ ok g
    → (equity marks g ≡ cash +ℤ g.realised +ℤ unrealised marks g -ℤ g.fees)
      × AllValues IsNetted g.positions
ledger_conserves cash es g marks eq =
    let h = post_all-IsBalanced cash es (new_portfolio cash) g (new_portfolio-IsBalanced cash) eq in
    (equity_identity cash marks g h, h.netted)
