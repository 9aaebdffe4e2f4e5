-- ===== src/Market/Relationships/Pricing.antt =====
-- A violated constraint is a riskless profit, and same-market YES/NO needs a crossed book.
use kalshi_quant_research.Prelude.{
  ◌≤◌, ◌<◌, ◌≡◌, refl, ap, ◌∙◌, ◌⊎◌, inl, inr, true, false, Option, none, some, [], ◌∷◌, arith,
  Bool-cases, In, All-In, nat_key, string_key,
}
use kalshi_quant_research.Prelude.Int.{
  ℤ, pos, pos_part, neg_part, sub_ℕ, ◌+ℤ◌, neg, ◌≤ℤ◌, ltb_ℤ, leb_ℤ, sub_ℕ_parts, int_laws,
  parts_of_eq,
}
use kalshi_quant_research.Prelude.Dict.{Dict, lookup}
use kalshi_quant_research.Market.Contracts.{Ticker, Side, yes_side, no_side, opposite, price_scale}
use kalshi_quant_research.Market.OrderBook.{
  OrderBook, Level, best_bid, best_ask, is_crossed, spread, complemented,
}
use kalshi_quant_research.Market.OrderBook.Invariant.{IsValid}
use kalshi_quant_research.Market.OrderBook.Quotes.{
  spread_of_bids, best_bid-IsLevel, is_not_positive, bids_gap, best_ask-complemented,
}
use kalshi_quant_research.Market.Relationships.{
  complement_kind, World, yes_leg, no_leg, AskFn, Constraint, ConstraintCheck, check, violated,
  asks_from_books, world_payoff, Relation, complement_of, constraints, admissible,
}
use kalshi_quant_research.Market.Relationships.Sums.{IsBinary}
use kalshi_quant_research.Market.Relationships.Compile.{Pays, IsMade, compiled_exactly}

-- A check prices the constraint that it is asked for.
check_fields :
    (ask : AskFn) (c : Constraint) (k : ConstraintCheck)
    → check ask c ≡ some k
    → k.margin ≡ sub_ℕ c.bound k.cost
unfolding check
check_fields ask c k e = ground arith

-- In every world that a relation admits, a bundle of one of its constraints pays at least what it
-- costs at the quotes and the margin of its check; with a violated check it pays more than it costs.
pub violation_pays :
    (r : Relation) (ask : AskFn) (c : Constraint) (k : ConstraintCheck) (w : World)
    → IsMade r
    → In c (constraints r)
    → check ask c ≡ some k
    → IsBinary w
    → admissible r w ≡ true
    → (pos k.cost +ℤ k.margin ≤ℤ pos (world_payoff c w))
      × ((violated k ≡ false) ⊎ (k.cost < world_payoff c w))
violation_pays r ask c k w made i e bin adm =
    let floor : c.bound ≤ world_payoff c w =
      All-In (Pays w) c (constraints r) ((compiled_exactly r w made bin).0 adm) i in
    let margin = parts_of_eq (check_fields ask c k e) in
    (
      omega (int_laws, sub_ℕ_parts c.bound k.cost, margin, floor),
      elim (Bool-cases (violated k)) [
        | inl bad ↦
            let high : neg_part k.margin < pos_part k.margin = ground arith in
            inr (omega (arith, sub_ℕ_parts c.bound k.cost, margin, floor, high))
        | inr holds ↦ inl holds
      ],
    )

abbrev complement_constraint : Ticker → Constraint
complement_constraint t = record {
  kind = complement_kind;
  legs = yes_leg t ∷ no_leg t ∷ [];
  bound = price_scale;
}

check-complement :
    (ask : AskFn) (t : Ticker) (y n : Option Level) (k : ConstraintCheck)
    → ((l : Level) → y ≡ some l → l.price < price_scale)
    → ((l : Level) → n ≡ some l → l.price < price_scale)
    → ask (yes_leg t).contract ≡ complemented n
    → ask (no_leg t).contract ≡ complemented y
    → check ask (complement_constraint t) ≡ some k
    → bids_gap y n ≡ some (neg k.margin)
unfolding check neg
check-complement ask t none n k y_lt n_lt ask_y ask_n e = ground arith
check-complement ask t (some y) none k y_lt n_lt ask_y ask_n e = ground arith
check-complement ask t (some y) (some n) k y_lt n_lt ask_y ask_n e =
    ground (arith, y_lt y refl, n_lt n refl)

asks_from_books_found :
    (books : Dict Ticker OrderBook) (t : Ticker) (b : OrderBook) (s : Side)
    → lookup t books ≡ some b
    → asks_from_books books (record { ticker = t; side = s }) ≡ best_ask s b
unfolding asks_from_books
asks_from_books_found books t b s found = rw (found, asks_from_books)

-- On valid books the margin of the YES + NO constraint of a market is its spread negated, so only a
-- crossed book violates it.
pub complement_needs_crossed :
    (books : Dict Ticker OrderBook) (t : Ticker) (b : OrderBook) (c : Constraint)
    (k : ConstraintCheck)
    → lookup t books ≡ some b
    → IsValid b
    → In c (constraints (complement_of t))
    → check (asks_from_books books) c ≡ some k
    → (spread b ≡ some (neg k.margin)) × ((violated k ≡ false) ⊎ (is_crossed b ≡ true))
unfolding constraints
complement_needs_crossed books t b c k found valid (inr i) e = absurd i
complement_needs_crossed books t b c k found valid (inl is_c) e =
    let (gap, cross) = spread_of_bids b valid in
    let is_gap : bids_gap (best_bid yes_side b) (best_bid no_side b) ≡ some (neg k.margin) =
      check-complement (asks_from_books books) t (best_bid yes_side b) (best_bid no_side b) k
        (λ l h. (best_bid-IsLevel yes_side b l valid h).1)
        (λ l h. (best_bid-IsLevel no_side b l valid h).1) (offered yes_side) (offered no_side)
        (rw is_c at e) in
    let negated : spread b ≡ some (neg k.margin) = gap ∙ is_gap in
    (
      negated,
      elim (Bool-cases (violated k)) [
        | inl bad ↦ inr (cross ∙ ap is_not_positive negated ∙ not_positive k.margin bad)
        | inr holds ↦ inl holds
      ],
    )
  where
    offered :
        (s : Side)
        → asks_from_books books (record { ticker = t; side = s })
          ≡ complemented (best_bid (opposite s) b)
    offered s = asks_from_books_found books t b s found ∙ best_ask-complemented s b

    not_positive : (z : ℤ) → ltb_ℤ (pos 0) z ≡ true → leb_ℤ (neg z) (pos 0) ≡ true
    not_positive z h = unfold neg in ground arith
