-- ===== src/Arbitrage/Detector/Scan.antt =====
-- `detect` of arbitrage/detector.py: a scan of the relations, best supported first, each trade once.
-- The order of texts is an argument.
use kalshi_quant_research.Prelude.{
  ℕ, ◌+◌, ◌-◌, String, Bool, true, false, ◌&&◌, ◌||◌, none, some, List, [], ◌∷◌, ◌++◌, ltb, ◌==◌,
  if◌then◌else◌, length, ◌=?◌, nat_key, string_key,
}
use kalshi_quant_research.Prelude.Int.{pos, ltb_ℤ, max_ℤ}
use kalshi_quant_research.Prelude.Dict.{Dict, get_or, insert}
use Prim.Native.String.{◌++◌ as concat}
use kalshi_quant_research.Market.Contracts.{Price, Side, yes_side, no_side, ContractRef}
use kalshi_quant_research.Market.Relationships.{
  RelationKind, complement_kind, mutually_exclusive_kind, exhaustive_kind, partition_kind,
  implies_kind, chain_kind, union_kind, Leg, Constraint, ConstraintCheck, AskFn, check,
  asks_from_books, Relation, complement_of, mutually_exclusive, exhaustive, partition, chain,
  implies, union_of, constraints, n_constraints, candidate_constraints,
}
use kalshi_quant_research.Arbitrage.Execution.{Books}
use kalshi_quant_research.Arbitrage.Detector.{
  Classification, theoretical, unprofitable, partially_executable, executable, expired,
  RelationSpec, Opportunity, Funnel, new_funnel, DetectorParams, evaluate,
}

-- the values of the two enumerations
abbrev pub kind_value : RelationKind → String
kind_value complement_kind = "complement"
kind_value mutually_exclusive_kind = "mutually_exclusive"
kind_value exhaustive_kind = "exhaustive"
kind_value partition_kind = "partition"
kind_value implies_kind = "implies"
kind_value chain_kind = "chain"
kind_value union_kind = "union"

abbrev pub class_value : Classification → String
class_value theoretical = "theoretical"
class_value unprofitable = "unprofitable_after_costs"
class_value partially_executable = "partially_executable"
class_value executable = "executable"
class_value expired = "expired_before_execution"

-- `sorted(specs, key=lambda sp: -sp.level)`
abbrev pub place_spec : RelationSpec → List RelationSpec → List RelationSpec
place_spec x [] = x ∷ []
place_spec x (y ∷ ys) = if ltb x.level y.level then y ∷ place_spec x ys else x ∷ y ∷ ys

abbrev pub sorted_specs : List RelationSpec → List RelationSpec
sorted_specs [] = []
sorted_specs (x ∷ xs) = place_spec x (sorted_specs xs)

-- `str(contract)`
abbrev pub side_value : Side → String
side_value yes_side = "yes"
side_value no_side = "no"

abbrev pub contract_text : ContractRef → String
contract_text c = concat (concat c.ticker ":") (side_value c.side)

-- the legs of a trade in the order of their texts, and its bound
abbrev pub TradeKey : Type 0
TradeKey = List (String × ℕ) × Price

abbrev pub same_legs : List (String × ℕ) → List (String × ℕ) → Bool
same_legs [] [] = true
same_legs [] (y ∷ ys) = false
same_legs (x ∷ xs) [] = false
same_legs (x ∷ xs) (y ∷ ys) = (x.0 =? y.0) && ((x.1 == y.1) && same_legs xs ys)

abbrev pub same_key : TradeKey → TradeKey → Bool
same_key a b = (a.1 == b.1) && same_legs a.0 b.0

abbrev pub has_key : TradeKey → List TradeKey → Bool
has_key k [] = false
has_key k (x ∷ xs) = same_key x k || has_key k xs

-- `seen` is a set of keys.
pub record Scan : Type 0 where
  pub found : List Opportunity
  pub funnel : Funnel
  pub seen : List TradeKey

abbrev pub new_scan : Scan
new_scan = record { found = []; funnel = new_funnel; seen = [] }

-- `d[k] = d.get(k, 0) + 1`
abbrev pub count_class : Classification → Dict String ℕ → Dict String ℕ
count_class c d = insert (class_value c) (get_or (class_value c) 0 d + 1) d

-- the candidates of a relation, and how many its pre-filter leaves out
abbrev pub candidates_of : AskFn → Relation → List Constraint × ℕ
candidates_of ask (chain ts) =
    let kept = candidate_constraints ask ts in (kept, n_constraints ts - length kept)
candidates_of ask (complement_of t) = (constraints (complement_of t), 0)
candidates_of ask (mutually_exclusive ts) = (constraints (mutually_exclusive ts), 0)
candidates_of ask (exhaustive ts) = (constraints (exhaustive ts), 0)
candidates_of ask (partition ts) = (constraints (partition ts), 0)
candidates_of ask (implies a b) = (constraints (implies a b), 0)
candidates_of ask (union_of ts t b) = (constraints (union_of ts t b), 0)

module _ (text_below : String → String → Bool) where
  abbrev pub leg_below : String × ℕ → String × ℕ → Bool
  leg_below a b = text_below a.0 b.0 || ((a.0 =? b.0) && ltb a.1 b.1)

  abbrev pub place_leg : String × ℕ → List (String × ℕ) → List (String × ℕ)
  place_leg x [] = x ∷ []
  place_leg x (y ∷ ys) = if leg_below y x then y ∷ place_leg x ys else x ∷ y ∷ ys

  abbrev pub sorted_legs : List Leg → List (String × ℕ)
  sorted_legs [] = []
  sorted_legs (leg ∷ legs) = place_leg (contract_text leg.contract, leg.qty) (sorted_legs legs)

  abbrev pub trade_key : Constraint → TradeKey
  trade_key con = (sorted_legs con.legs, con.bound)

  module _ (books : Books) (params : DetectorParams) (ts_ns : ℕ) where
    -- a constraint that has a price at the best asks
    unfoldable pub judge : RelationSpec → Constraint → ConstraintCheck → Scan → Scan
    judge spec con chk s =
        let kind = kind_value con.kind in
        let f = s.funnel in
        let priced : Funnel = record f {
          priced = f.priced + 1;
          best_margin =
              insert kind (max_ℤ chk.margin (get_or kind chk.margin f.best_margin)) f.best_margin;
        } in
        let result =
          evaluate spec con chk params ts_ns books
            (record priced { displayed = f.displayed + 1 }) in
        if ltb_ℤ (pos 0) chk.margin
        then record s {
          found = s.found ++ result.0 ∷ [];
          funnel = record (result.1) {
            by_class = count_class result.0.classification (result.1).by_class;
          };
        }
        else record s { funnel = priced }

    -- one constraint of the inner loop
    unfoldable pub consider : RelationSpec → Constraint → Scan → Scan
    consider spec con s =
        let f = s.funnel in
        let key = trade_key con in
        let marked : Scan = record s {
          seen = key ∷ s.seen;
          funnel = record f { constraints = f.constraints + 1 };
        } in
        let unpriced : Scan = record s {
          seen = key ∷ s.seen;
          funnel = record f { constraints = f.constraints + 1; unpriceable = f.unpriceable + 1 };
        } in
        let taken : Scan = elim (check (asks_from_books books) con) [
          | none ↦ unpriced
          | some chk ↦ judge spec con chk marked
        ] in
        if has_key key s.seen
        then record s { funnel = record f { duplicates = f.duplicates + 1 } }
        else taken

    unfoldable pub consider_all : RelationSpec → List Constraint → Scan → Scan
    consider_all spec [] s = s
    consider_all spec (con ∷ cons) s = consider_all spec cons (consider spec con s)

    unfoldable pub scan_specs : List RelationSpec → Scan → Scan
    scan_specs [] s = s
    scan_specs (spec ∷ specs) s =
        let candidates = candidates_of (asks_from_books books) spec.relation in
        let f = s.funnel in
        let scanned =
          consider_all spec candidates.0
            (record s { funnel = record f { pruned = f.pruned + candidates.1 } }) in
        if ltb spec.level params.min_level then scan_specs specs s else scan_specs specs scanned

    unfoldable pub detect : List RelationSpec → List Opportunity × Funnel
    detect specs = let s = scan_specs (sorted_specs specs) new_scan in (s.found, s.funnel)
