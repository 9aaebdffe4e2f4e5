-- ===== src/Arbitrage/Detector.antt =====
-- arbitrage/opportunity.py and `_evaluate` of arbitrage/detector.py: one displayed violation through
-- liquidity, fees and depth. The days to the close, a float, are not modelled.
pub mod Scan
pub mod Claims
pub mod Account
pub mod Witnesses
use kalshi_quant_research.Prelude.{
  ℕ, ◌+◌, Bool, true, false, not, ◌&&◌, Option, none, some, List, [], ◌∷◌, String, ltb, leb,
  if◌then◌else◌, string_key,
}
use kalshi_quant_research.Prelude.Int.{ℤ, pos, ltb_ℤ, max_ℤ}
use kalshi_quant_research.Prelude.Dict.{Dict, get_or, insert}
use kalshi_quant_research.Market.Contracts.{Qty}
use kalshi_quant_research.Market.Fees.{FeeBook, for_ticker}
use kalshi_quant_research.Market.Relationships.{Constraint, ConstraintCheck, Leg, Relation}
use kalshi_quant_research.Arbitrage.Execution.{
  gross_micro, slippage_micro, fee_micro, Books, PricedBundle, SizeResult, net_micro, price_bundle,
  optimize,
}

pub data Classification : Type 0 where
  theoretical unprofitable partially_executable executable expired : Classification

pub record RelationSpec : Type 0 where
  pub relation : Relation
  pub level : ℕ
  pub event_ticker : String
  pub series : String
  pub close_time : Option ℕ
  pub evidence : List String
  pub assumptions : List String

pub record Opportunity : Type 0 where
  pub ts_ns : ℕ
  pub spec : RelationSpec
  pub constraint : Constraint
  pub classification : Classification
  pub top_margin : ℤ
  pub top_qty : Qty
  pub liquid : Bool
  pub profitable_after_fees_top : Bool
  pub profitable_after_depth : Bool
  pub priced : Option PricedBundle
  pub breakeven_bundles : Qty
  pub target_bundles : Qty
  pub fees_known : Bool

-- the decomposition of the priced bundle, where there is one
abbrev pub of_priced {ℓ} : {A : Type ℓ} → (PricedBundle → A) → Opportunity → Option A
of_priced f o = elim o.priced [ none ↦ none | some p ↦ some (f p) ]

abbrev pub opportunity_gross : Opportunity → Option ℤ
opportunity_gross = of_priced gross_micro

abbrev pub opportunity_slippage : Opportunity → Option ℤ
opportunity_slippage = of_priced slippage_micro

abbrev pub opportunity_fee : Opportunity → Option ℕ
opportunity_fee = of_priced fee_micro

abbrev pub opportunity_net : Opportunity → Option ℤ
opportunity_net = of_priced net_micro

pub record Funnel : Type 0 where
  pub constraints : ℕ
  pub duplicates : ℕ
  pub unpriceable : ℕ
  pub pruned : ℕ
  pub priced : ℕ
  pub displayed : ℕ
  pub liquid : ℕ
  pub after_fees : ℕ
  pub after_slippage : ℕ
  pub executable : ℕ
  pub fee_assumed : ℕ
  pub by_class : Dict String ℕ
  pub best_margin : Dict String ℤ

abbrev pub new_funnel : Funnel
new_funnel = record {
  constraints = 0;
  duplicates = 0;
  unpriceable = 0;
  pruned = 0;
  priced = 0;
  displayed = 0;
  liquid = 0;
  after_fees = 0;
  after_slippage = 0;
  executable = 0;
  fee_assumed = 0;
  by_class = [];
  best_margin = [];
}

-- `Funnel.rows`
abbrev pub rows : Funnel → List (String × ℕ)
rows f =
    ("priced", f.priced)
    ∷ ("displayed", f.displayed)
    ∷ ("liquid", f.liquid)
    ∷ ("after_fees", f.after_fees)
    ∷ ("after_slippage", f.after_slippage)
    ∷ ("executable", f.executable)
    ∷ []

-- the two loops over the dicts of `Funnel.add`
abbrev pub add_counts : Dict String ℕ → Dict String ℕ → Dict String ℕ
add_counts into [] = into
add_counts into ((k, v) ∷ d) = add_counts (insert k (get_or k 0 into + v) into) d

abbrev pub add_margins : Dict String ℤ → Dict String ℤ → Dict String ℤ
add_margins into [] = into
add_margins into ((k, m) ∷ d) = add_margins (insert k (max_ℤ m (get_or k m into)) into) d

-- `Funnel.add`: neither the duplicates nor the pruned ones of the other are added.
abbrev pub add_funnel : Funnel → Funnel → Funnel
add_funnel f other = record f {
  constraints = f.constraints + other.constraints;
  unpriceable = f.unpriceable + other.unpriceable;
  priced = f.priced + other.priced;
  displayed = f.displayed + other.displayed;
  liquid = f.liquid + other.liquid;
  after_fees = f.after_fees + other.after_fees;
  after_slippage = f.after_slippage + other.after_slippage;
  executable = f.executable + other.executable;
  fee_assumed = f.fee_assumed + other.fee_assumed;
  by_class = add_counts f.by_class other.by_class;
  best_margin = add_margins f.best_margin other.best_margin;
}

abbrev pub merge_from : Funnel → List Funnel → Funnel
merge_from total [] = total
merge_from total (f ∷ fs) = merge_from (add_funnel total f) fs

abbrev pub merge_funnels : List Funnel → Funnel
merge_funnels = merge_from new_funnel

pub record DetectorParams : Type 0 where
  pub fees : FeeBook
  pub lot : Qty
  pub min_qty : Qty
  pub target : Qty
  pub max_size : Option Qty
  pub min_level : ℕ

abbrev pub all_known : FeeBook → List Leg → Bool
all_known fees [] = true
all_known fees (leg ∷ legs) = (for_ticker fees leg.contract.ticker).known && all_known fees legs

-- `n += b`
abbrev pub plus : ℕ → Bool → ℕ
plus n b = if b then n + 1 else n

-- `top is not None and top.net_micro > 0`
abbrev pub makes_profit : Option PricedBundle → Bool
makes_profit none = false
makes_profit (some p) = ltb_ℤ (pos 0) (net_micro p)

module _ (spec : RelationSpec) (con : Constraint) (chk : ConstraintCheck) (params : DetectorParams)
    (ts_ns : ℕ) where
  -- the inner `build`
  abbrev pub build : Classification → Option PricedBundle → Bool → Bool → Bool → Qty → Opportunity
  build cls priced liquid fee_ok depth_ok breakeven = record {
    ts_ns = ts_ns;
    spec = spec;
    constraint = con;
    classification = cls;
    top_margin = chk.margin;
    top_qty = chk.top_qty;
    liquid = liquid;
    profitable_after_fees_top = fee_ok;
    profitable_after_depth = depth_ok;
    priced = priced;
    breakeven_bundles = breakeven;
    target_bundles = params.target;
    fees_known = all_known params.fees con.legs;
  }

  -- from `optimize` on: no size, none with a profit, or the best one against the target
  abbrev pub evaluate_sized :
      Option PricedBundle → Option SizeResult → Funnel → Opportunity × Funnel
  evaluate_sized top none f = (build unprofitable top true (makes_profit top) false 0, f)
  evaluate_sized top (some sized) f =
      let full = leb params.target sized.best.bundles in
      if ltb_ℤ (pos 0) (net_micro sized.best)
      then (
        build (if full then executable else partially_executable) (some sized.best) true
            (makes_profit top) true sized.breakeven.bundles,
        record f { after_slippage = f.after_slippage + 1; executable = plus f.executable full },
      )
      else (build unprofitable top true (makes_profit top) false 0, f)

  -- `_evaluate`
  abbrev pub evaluate : Books → Funnel → Opportunity × Funnel
  evaluate books f =
      let assumed : Funnel = record f {
        fee_assumed = plus f.fee_assumed (not (all_known params.fees con.legs));
      } in
      let top = price_bundle con books params.min_qty params.fees in
      let sized = optimize con books params.fees params.lot params.max_size in
      if ltb chk.top_qty params.min_qty
      then (build theoretical none false false false 0, assumed)
      else evaluate_sized top sized (record assumed {
        liquid = f.liquid + 1;
        after_fees = plus f.after_fees (makes_profit top);
      })
