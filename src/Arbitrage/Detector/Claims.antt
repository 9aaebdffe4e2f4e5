-- ===== src/Arbitrage/Detector/Claims.antt =====
-- The constraints that a scan reads are those of its relations, in the order of their support.
use kalshi_quant_research.Prelude.{
  inl, inr, List, [], ◌∷◌, ltb, Bool-cases, All, In, nat_key, string_key,
}
use kalshi_quant_research.Market.Relationships.{
  Relation, complement_of, mutually_exclusive, exhaustive, partition, chain, implies, union_of,
  constraints, AskFn, Constraint,
}
use kalshi_quant_research.Market.Relationships.Ladder.{candidates_exact}
use kalshi_quant_research.Arbitrage.Detector.{RelationSpec}
use kalshi_quant_research.Arbitrage.Detector.Scan.{candidates_of, place_spec, sorted_specs}

-- The pre-filter of a scan gives constraints of the relation.
pub candidates_of-In :
    (ask : AskFn) (r : Relation) (c : Constraint)
    → In c (candidates_of ask r).0
    → In c (constraints r)
unfolding constraints
candidates_of-In ask (chain ts) c i = ((candidates_exact ask ts c).0 i).0
candidates_of-In ask (complement_of t) c i = i
candidates_of-In ask (mutually_exclusive ts) c i = i
candidates_of-In ask (exhaustive ts) c i = i
candidates_of-In ask (partition ts) c i = i
candidates_of-In ask (implies a b) c i = i
candidates_of-In ask (union_of ts t b) c i = i

-- What holds of each relation holds of each in the order of the scan.
place_spec-All :
    (P : RelationSpec → Type 0) (x : RelationSpec) (ys : List RelationSpec)
    → P x
    → All P ys
    → All P (place_spec x ys)
place_spec-All P x [] h k = (h, tt)
place_spec-All P x (y ∷ ys) h k = elim (Bool-cases (ltb x.level y.level)) [
  | inl later ↦ rw (later, All) (k.0, place_spec-All P x ys h k.1)
  | inr first ↦ rw (first, All) (h, k)
]

pub sorted_specs-All :
    (P : RelationSpec → Type 0) (xs : List RelationSpec) → All P xs → All P (sorted_specs xs)
sorted_specs-All P [] h = tt
sorted_specs-All P (x ∷ xs) h = place_spec-All P x _ h.0 (sorted_specs-All P xs h.1)
