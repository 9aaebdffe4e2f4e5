-- ===== src/Arbitrage/Execution/Bundle.antt =====
-- A priced bundle: its accounting, its floor at settlement, and when it can be priced.
use kalshi_quant_research.Prelude.{
  ℕ, ◌+◌, ◌-◌, ◌*◌, ◌/◌, ◌≤◌, ◌<◌, min, ◌≡◌, refl, sym, ap, ◌∙◌, inl, inr, Bool, true, false, ◌&&◌,
  Option, none, some, List, [], ◌∷◌, arith, leb, ◌==◌, Option-cases, length, sum_by, All, In,
  All-In, nat_key, string_key,
}
use kalshi_quant_research.Prelude.Int.{pos, sub_ℕ, ◌-ℤ◌, ◌≤ℤ◌, sub_ℕ_parts}
use kalshi_quant_research.Prelude.Dict.{lookup, total}
use mathlib.Core.Path.{subst}
use kalshi_quant_research.Prelude.Division.{div_bounds}
use kalshi_quant_research.Market.Contracts.{Qty, price_scale, ContractRef}
use kalshi_quant_research.Market.Fees.{FeeBook}
use kalshi_quant_research.Market.Relationships.{
  Constraint, Leg, World, leg_value, leg_payoff, bundle_payoff, world_payoff, Relation, constraints,
  admissible,
}
use kalshi_quant_research.Market.Relationships.Sums.{IsBinary}
use kalshi_quant_research.Market.Relationships.Compile.{Pays, IsMade, compiled_exactly}
use kalshi_quant_research.Arbitrage.Execution.{
  Books, Fills, walk_asks, ask_depth, fills_cost, LegExecution, PricedBundle, payoff_micro,
  cost_micro, fee_micro, top_cost_micro, gross_micro, slippage_micro, net_micro, execute_leg,
  price_leg, price_legs, price_bundle, max_bundles, max_bundles_from, settled_payoff, settle_micro,
}
use kalshi_quant_research.Arbitrage.Execution.Walk.{fills_qty, walk_asks_total}

difference : (a b c d : ℕ) → sub_ℕ a (b + d) ≡ sub_ℕ a c -ℤ sub_ℕ b c -ℤ pos d
unfolding ◌-ℤ◌
difference a b c d = ground arith

-- The net edge is the gross edge at the best prices, less the slippage, less the fees.
pub accounting_identity :
    (p : PricedBundle) → net_micro p ≡ gross_micro p -ℤ slippage_micro p -ℤ pos (fee_micro p)
unfolding net_micro gross_micro slippage_micro
accounting_identity p = difference (payoff_micro p) (cost_micro p) (top_cost_micro p) (fee_micro p)

-- What an executed leg says of the leg it executes: the contract, the quantity for `n` bundles,
-- bought whole, at the prices of the fills.
abbrev pub IsFilled : Qty → Leg → LegExecution → Type 0
IsFilled n leg l =
    (l.contract ≡ leg.contract)
    × (l.qty ≡ leg.qty * n)
    × (fills_qty l.fills ≡ l.qty)
    × (l.cost_micro ≡ fills_cost l.fills)

abbrev pub AllFilled : Qty → List Leg → List LegExecution → Type 0
AllFilled n [] [] = Unit
AllFilled n (leg ∷ legs) (l ∷ ls) = IsFilled n leg l × AllFilled n legs ls
AllFilled n _ _ = ⊥

execute_leg-whole :
    (fees : FeeBook) (c : ContractRef) (q : Qty) (r : Fills × Qty) (l : LegExecution)
    → fills_qty r.0 + r.1 ≡ q
    → execute_leg fees c q r ≡ some l
    → (l.contract ≡ c)
      × (l.qty ≡ q)
      × (fills_qty l.fills ≡ l.qty)
      × (l.cost_micro ≡ fills_cost l.fills)
execute_leg-whole fees c q ([], left) l total e = cc
execute_leg-whole fees c q ((top, m) ∷ fills, left) l total e = ground arith

price_leg-IsFilled :
    (books : Books) (fees : FeeBook) (n : Qty) (leg : Leg) (l : LegExecution)
    → price_leg books fees n leg ≡ some l
    → IsFilled n leg l
unfolding price_leg
price_leg-IsFilled books fees n leg l e = elim (Option-cases (lookup leg.contract.ticker books)) [
  | inl gone ↦ ground arith
  | inr (b, found) ↦
      execute_leg-whole fees leg.contract (leg.qty * n)
        (walk_asks b leg.contract.side (leg.qty * n)) l
        (walk_asks_total b leg.contract.side (leg.qty * n)).0 (rw (found, price_leg) at e)
]

price_legs-AllFilled :
    (books : Books) (fees : FeeBook) (n : Qty) (legs : List Leg) (ls : List LegExecution)
    → price_legs books fees n legs ≡ some ls
    → AllFilled n legs ls
unfolding price_legs
price_legs-AllFilled books fees n [] [] e = tt
price_legs-AllFilled books fees n [] (l ∷ ls) e = ground arith
price_legs-AllFilled books fees n (leg ∷ legs) ls e =
    elim (Option-cases (price_leg books fees n leg)) [
      | inl short ↦ ground arith
      | inr (k, filled) ↦ elim (Option-cases (price_legs books fees n legs)) [
        | inl short ↦ ground arith
        | inr (ks, rest) ↦
            let is_ls : k ∷ ks ≡ ls = ground arith in
            subst (AllFilled n (leg ∷ legs)) is_ls (
              price_leg-IsFilled books fees n leg k filled,
              price_legs-AllFilled books fees n legs ks rest,
            )
      ]
    ]

pub price_bundle-fields :
    (c : Constraint) (books : Books) (n : Qty) (fees : FeeBook) (p : PricedBundle)
    → price_bundle c books n fees ≡ some p
    → (p.constraint ≡ c) × (p.bundles ≡ n) × AllFilled n c.legs p.legs
unfolding price_bundle
price_bundle-fields c books n fees p e = elim (Option-cases (price_legs books fees n c.legs)) [
  | inl short ↦ ground arith
  | inr (ls, filled) ↦
      let same : ls ≡ p.legs = ground arith in
      (
        ground arith,
        ground arith,
        subst (AllFilled n c.legs) same (price_legs-AllFilled books fees n c.legs ls filled),
      )
]

payoff_scaled :
    (w : World) (n : Qty) (legs : List Leg) (ls : List LegExecution)
    → AllFilled n legs ls
    → settled_payoff w ls ≡ sum_by (leg_payoff (λ t. w t * price_scale)) legs * n
payoff_scaled w n [] [] h = omega arith
payoff_scaled w n [] (l ∷ ls) h = absurd h
payoff_scaled w n (leg ∷ legs) [] h = absurd h
payoff_scaled w n (leg ∷ legs) (l ∷ ls) h =
    rw (h.0.0, h.0.1)
      (scaled (leg_value leg.contract.side (w leg.contract.ticker * price_scale)) leg.qty n
        (settled_payoff w ls) (sum_by (leg_payoff (λ t. w t * price_scale)) legs)
        (payoff_scaled w n legs ls h.1))
  where
    scaled : (v q m s t : ℕ) → s ≡ t * m → v * (q * m) + s ≡ (q * v + t) * m
    scaled v q m s t e = grind arith

pub settle_micro_lem :
    (w : World) (c : Constraint) (books : Books) (n : Qty) (fees : FeeBook) (p : PricedBundle)
    → price_bundle c books n fees ≡ some p
    → settled_payoff w p.legs ≡ world_payoff c w * n
unfolding world_payoff bundle_payoff
settle_micro_lem w c books n fees p e =
    payoff_scaled w n c.legs p.legs (price_bundle-fields c books n fees p e).2

-- A priced bundle of a constraint of a relation is riskless: in every binary world that the
-- relation admits it settles at no less than its net.
pub bundle_settles_at_floor :
    (r : Relation) (c : Constraint) (books : Books) (n : Qty) (fees : FeeBook) (p : PricedBundle)
    (w : World)
    → IsMade r
    → In c (constraints r)
    → price_bundle c books n fees ≡ some p
    → IsBinary w
    → admissible r w ≡ true
    → net_micro p ≤ℤ settle_micro w p
unfolding net_micro settle_micro
bundle_settles_at_floor r c books n fees p w made i e bin adm =
    let floor : c.bound ≤ world_payoff c w =
      All-In (Pays w) c (constraints r) ((compiled_exactly r w made bin).0 adm) i in
    let paid = settle_micro_lem w c books n fees p e in
    let (is_c, is_n, _) = price_bundle-fields c books n fees p e in
    let at_n : p.constraint.bound * p.bundles ≡ c.bound * n = rw (is_c, is_n) refl in
    let scaled : c.bound * n ≤ world_payoff c w * n = grind (arith, floor) in
    omega (
      arith,
      at_n,
      paid,
      scaled,
      sub_ℕ_parts (payoff_micro p) (cost_micro p + fee_micro p),
      sub_ℕ_parts (settled_payoff w p.legs) (cost_micro p + fee_micro p),
    )

abbrev pub is_some {ℓ} : {A : Type ℓ} → Option A → Bool
is_some none = false
is_some (some a) = true

-- `n` bundles of a leg are displayed.
abbrev leg_fits : Books → Qty → Leg → Bool
leg_fits books n leg = elim (lookup leg.contract.ticker books) [
  | none ↦ false
  | some b ↦ leb n (ask_depth b leg.contract.side / leg.qty)
]

abbrev all_fit : Books → Qty → List Leg → Bool
all_fit books n [] = true
all_fit books n (leg ∷ legs) = leg_fits books n leg && all_fit books n legs

abbrev pub HasQty : Leg → Type 0
HasQty leg = 0 < leg.qty

fits_iff : (q n d : ℕ) → 0 < q → leb n (d / q) ≡ ((q * n - d) == 0)
fits_iff q n d h = grind (arith, div_bounds d q h)

execute_leg-priced :
    (fees : FeeBook) (c : ContractRef) (q : Qty) (r : Fills × Qty)
    → 0 < q
    → fills_qty r.0 + r.1 ≡ q
    → is_some (execute_leg fees c q r) ≡ (r.1 == 0)
execute_leg-priced fees c q ([], left) h total = ground arith
execute_leg-priced fees c q ((top, m) ∷ fills, left) h total = ground arith

price_leg-priced :
    (books : Books) (fees : FeeBook) (n : Qty) (leg : Leg)
    → 0 < n
    → HasQty leg
    → is_some (price_leg books fees n leg) ≡ leg_fits books n leg
unfolding price_leg
price_leg-priced books fees n leg h q = elim (Option-cases (lookup leg.contract.ticker books)) [
  | inl gone ↦ rw (gone, leg_fits, price_leg) refl
  | inr (b, found) ↦
      let (total, left) = walk_asks_total b leg.contract.side (leg.qty * n) in
      rw (found, leg_fits, price_leg)
        (execute_leg-priced fees leg.contract (leg.qty * n)
            (walk_asks b leg.contract.side (leg.qty * n)) (grind (arith, h, q)) total
          ∙ ap (λ x. x == 0) left
          ∙ sym (fits_iff leg.qty n (ask_depth b leg.contract.side) q))
]

price_legs-priced :
    (books : Books) (fees : FeeBook) (n : Qty) (legs : List Leg)
    → 0 < n
    → All HasQty legs
    → is_some (price_legs books fees n legs) ≡ all_fit books n legs
unfolding price_legs
price_legs-priced books fees n [] h q = refl
price_legs-priced books fees n (leg ∷ legs) h q =
    ground
      (arith, price_leg-priced books fees n leg h q.0, price_legs-priced books fees n legs h q.1)

max_bundles_from-fit :
    (books : Books) (n out : Qty) (legs : List Leg)
    → 0 < n
    → leb n (max_bundles_from books (some out) legs) ≡ (leb n out && all_fit books n legs)
unfolding max_bundles_from
max_bundles_from-fit books n out [] h = ground arith
max_bundles_from-fit books n out (leg ∷ legs) h =
    elim (Option-cases (lookup leg.contract.ticker books)) [
      | inl gone ↦ rw (gone, leg_fits) (ground arith)
      | inr (b, found) ↦
          let d = ask_depth b leg.contract.side / leg.qty in
          rw (found, leg_fits) (ground (arith, max_bundles_from-fit books n (min out d) legs h))
    ]

-- Where every leg has a quantity and there is one, `n` bundles can be priced exactly when `n` is at
-- most `max_bundles`.
pub max_bundles_exact :
    (c : Constraint) (books : Books) (n : Qty) (fees : FeeBook)
    → 0 < n
    → All HasQty c.legs
    → 0 < length c.legs
    → is_some (price_bundle c books n fees) ≡ leb n (max_bundles c books)
unfolding price_bundle max_bundles max_bundles_from
max_bundles_exact c books n fees h q some_leg =
    whole (price_legs books fees n c.legs)
    ∙ price_legs-priced books fees n c.legs h q
    ∙ sym (first c.legs some_leg)
  where
    whole :
        (o : Option (List LegExecution))
        → is_some {A = PricedBundle} (elim o [
          | none ↦ none
          | some legs ↦ some (record { constraint = c; bundles = n; legs = legs })
        ])
          ≡ is_some o
    whole none = refl
    whole (some ls) = refl

    first :
        (legs : List Leg)
        → 0 < length legs
        → leb n (max_bundles_from books none legs) ≡ all_fit books n legs
    first [] k = ground arith
    first (leg ∷ legs) k = elim (Option-cases (lookup leg.contract.ticker books)) [
      | inl gone ↦ rw (gone, leg_fits) (ground arith)
      | inr (b, found) ↦
          rw (found, leg_fits, max_bundles_from)
            (max_bundles_from-fit books n (ask_depth b leg.contract.side / leg.qty) legs h)
    ]
