-- ===== src/Backtest/Portfolio/Exposure.antt =====
-- What a purchase and a settlement do to the positions.
use kalshi_quant_research.Prelude.{
  ℕ, ◌+◌, ◌*◌, ◌≡◌, refl, ap, ◌∙◌, ◌≢◌, inl, inr, true, false, some, arith, Bool-cases,
  Option-cases, ok, nat_key, string_key,
}
use kalshi_quant_research.Prelude.Int.{ℤ, pos, ◌+ℤ◌, ◌-ℤ◌, sub_ℕ_parts, int_laws, eq_of_parts}
use kalshi_quant_research.Prelude.Dict.{
  lookup, contains, get_or, insert, lookup-insert_self, lookup-insert_ne, get_or-insert_self,
}
use kalshi_quant_research.Market.Contracts.{Price, Qty, Ticker, Side, yes_side, no_side}
use kalshi_quant_research.Backtest.Portfolio.{
  Position, no_position, net_yes, is_flat, Portfolio, position, add_to, net, net_position, buy,
  settle,
}
use kalshi_quant_research.Backtest.Portfolio.Netting.{net_fields}

-- the exposure to YES that a purchase adds
abbrev pub bought_yes : Side → Qty → ℤ
bought_yes yes_side qty = pos qty
bought_yes no_side qty = pos 0 -ℤ pos qty

net_yes-net : (p : Position) → net_yes (net p).left ≡ net_yes p
net_yes-net p =
    let (_, y, n, _, _) = net_fields p in
    eq_of_parts _ _
      (omega (arith, sub_ℕ_parts (net p).left.yes (net p).left.no, sub_ℕ_parts p.yes p.no))

net_yes-add_to :
    (s : Side) (qty cost : ℕ) (p : Position)
    → net_yes (add_to s qty cost p) ≡ net_yes p +ℤ bought_yes s qty
net_yes-add_to yes_side qty cost p =
    eq_of_parts _ _ (omega (int_laws, sub_ℕ_parts (p.yes + qty) p.no, sub_ℕ_parts p.yes p.no))
net_yes-add_to no_side qty cost p =
    eq_of_parts _ _ (omega (int_laws, sub_ℕ_parts p.yes (p.no + qty), sub_ℕ_parts p.yes p.no))

-- A purchase goes through only on a market that is not settled; it adds its quantity to the signed
-- exposure of that market, on the bought side, and leaves the position of any other market alone.
pub buy_exposure :
    (t u : Ticker) (s : Side) (price qty fee : ℕ) (f g : Portfolio)
    → buy t s price qty fee f ≡ ok g
    → t ≢ u
    → (contains t f.settled ≡ false)
      × (net_yes (position g t) ≡ net_yes (position f t) +ℤ bought_yes s qty)
      × (lookup u g.positions ≡ lookup u f.positions)
unfolding buy net_position
buy_exposure t u s price qty fee f g e ne =
    let left = (net (add_to s qty (price * qty) (position f t))).left in
    let is_p : insert t left f.positions ≡ g.positions = ground arith in
    (
      ground arith,
      rw (← is_p) (exposed left refl),
      rw (← is_p) (lookup-insert_ne t u left f.positions ne),
    )
  where
    exposed :
        (left : Position)
        → left ≡ (net (add_to s qty (price * qty) (position f t))).left
        → net_yes (get_or t no_position (insert t left f.positions))
          ≡ net_yes (position f t) +ℤ bought_yes s qty
    exposed left e =
        ap net_yes (get_or-insert_self t left no_position f.positions ∙ e)
        ∙ net_yes-net (add_to s qty (price * qty) (position f t))
        ∙ net_yes-add_to s qty (price * qty) (position f t)

-- A settlement leaves a flat position, adds to the cash and to the realised profit, and marks the
-- market as settled; it returns what it added to the realised profit.
pub settle_effect :
    (t : Ticker) (value : Price) (f : Portfolio)
    → let (g, pnl) = settle t value f in
      (g.realised ≡ f.realised +ℤ pnl)
      × (is_flat (position g t) ≡ true)
      × (lookup t g.settled ≡ some value)
      × (g.fees ≡ f.fees)
unfolding settle
settle_effect t value f = elim (Option-cases (lookup t f.positions)) [
  | inl gone ↦ rw gone (omega int_laws, rw (gone, get_or) refl, marked, refl)
  | inr (p, found) ↦ elim (Bool-cases (is_flat p)) [
    | inl flat ↦ rw found (rw flat (omega int_laws, rw (found, get_or) flat, marked, refl))
    | inr held ↦ rw found (
        rw held (
          refl,
          ap is_flat (get_or-insert_self t no_position no_position f.positions),
          marked,
          refl,
        ))
  ]
]
  where
    marked : lookup t (insert t value f.settled) ≡ some value
    marked = lookup-insert_self t value f.settled
