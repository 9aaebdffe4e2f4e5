-- ===== src/Market/Relationships/Witnesses.antt =====
-- Concrete relations, worlds and quotes for the theorems on relationships.
use kalshi_quant_research.Prelude.{
  ◌<◌, ◌≡◌, refl, ◌↔◌, ◌⊎◌, inl, inr, true, false, none, some, List, [], ◌∷◌, arith, if◌then◌else◌,
  All, In, ◌=?◌, nat_key, string_key,
}
use kalshi_quant_research.Prelude.Int.{pos, ◌+ℤ◌, neg, ◌≤ℤ◌}
use kalshi_quant_research.Market.Contracts.{Ticker, yes_side, no_side, price_scale}
use kalshi_quant_research.Market.OrderBook.{
  OrderBook, is_crossed, spread, best_ask, best_bid, max_level,
}
use kalshi_quant_research.Market.OrderBook.Invariant.{IsValid}
use kalshi_quant_research.Market.Relationships.{
  World, AskFn, Constraint, ConstraintCheck, partition, implies_constraint, complement_kind,
  yes_leg, no_leg, check, violated, world_payoff, constraints, admissible, make, distinct,
  complement_of, cover_constraint, asks_from_books, candidate_constraints, chain_constraints,
}
use kalshi_quant_research.Market.Relationships.Sums.{IsBinary}
use kalshi_quant_research.Market.Relationships.Compile.{Pays, IsMade, compiled_exactly}
use kalshi_quant_research.Market.Relationships.Ladder.{IsViolated, candidates_exact}
use kalshi_quant_research.Market.Relationships.Pricing.{violation_pays, complement_needs_crossed}

-- B wins.
abbrev b_wins : World
b_wins t = if t =? "B" then 1 else 0

b_wins-IsBinary : IsBinary b_wins
b_wins-IsBinary t = ground arith

abbrev three : List Ticker
three = "A" ∷ "B" ∷ "C" ∷ []

three-IsMade : IsMade (partition three)
unfolding make distinct
three-IsMade = refl

compiled_exactly_example :
    (admissible (partition three) b_wins ≡ true) ↔ All (Pays b_wins) (constraints (partition three))
compiled_exactly_example = compiled_exactly (partition three) b_wins three-IsMade b_wins-IsBinary

-- every YES at 30 cents, every NO at 60
abbrev cheap : AskFn
cheap c = elim c.side [
  | yes_side ↦ some (record { price = 3000; qty = 100 })
  | no_side ↦ some (record { price = 6000; qty = 100 })
]

candidates_exact_example : In (implies_constraint "A" "C") (candidate_constraints cheap three) ↔ (
    In (implies_constraint "A" "C") (chain_constraints three)
    × IsViolated cheap (implies_constraint "A" "C"))
candidates_exact_example = candidates_exact cheap three (implies_constraint "A" "C")

abbrev cover_check : ConstraintCheck
cover_check = record {
  constraint = cover_constraint three;
  cost = 9000;
  margin = pos 1000;
  top_qty = 100;
}

cover-checked : check cheap (cover_constraint three) ≡ some cover_check
unfolding check
cover-checked = refl

cover-compiled : In (cover_constraint three) (constraints (partition three))
unfolding constraints
cover-compiled = inr (inl refl)

b_wins-admissible : admissible (partition three) b_wins ≡ true
unfolding admissible
b_wins-admissible = refl

violation_pays_example :
    (pos 9000 +ℤ pos 1000 ≤ℤ pos (world_payoff (cover_constraint three) b_wins))
    × ((violated cover_check ≡ false) ⊎ (9000 < world_payoff (cover_constraint three) b_wins))
violation_pays_example =
    violation_pays (partition three) cheap (cover_constraint three) cover_check b_wins three-IsMade
      cover-compiled cover-checked b_wins-IsBinary b_wins-admissible

abbrev crossed_book : OrderBook
crossed_book = record {
  ticker = "A";
  yes_bids = (6000, 300) ∷ [];
  no_bids = (5000, 100) ∷ [];
  last_seq = none;
  last_ts = none;
}

crossed_book-IsValid : IsValid crossed_book
crossed_book-IsValid = record {
  yes_valid = ((ground arith, tt), (refl, tt));
  no_valid = ((ground arith, tt), (refl, tt));
}

abbrev both : Constraint
both = record { kind = complement_kind; legs = yes_leg "A" ∷ no_leg "A" ∷ []; bound = price_scale }

abbrev both_check : ConstraintCheck
both_check = record { constraint = both; cost = 9000; margin = pos 1000; top_qty = 100 }

both-compiled : In both (constraints (complement_of "A"))
unfolding constraints
both-compiled = inl refl

both-checked : check (asks_from_books (("A", crossed_book) ∷ [])) both ≡ some both_check
unfolding check asks_from_books best_ask best_bid max_level
both-checked = refl

complement_needs_crossed_example :
    (spread crossed_book ≡ some (neg (pos 1000)))
    × ((violated both_check ≡ false) ⊎ (is_crossed crossed_book ≡ true))
complement_needs_crossed_example =
    complement_needs_crossed (("A", crossed_book) ∷ []) "A" crossed_book both both_check refl
      crossed_book-IsValid both-compiled both-checked
