-- ===== src/Market/Relationships.antt =====
-- market/relationships.py: logical relations between markets, compiled to buy-only constraints. A
-- settlement and a world are total functions of the ticker. A constraint's printed name and a
-- relation's printed statement are not modelled.
pub mod Sums
pub mod Compile
pub mod Ladder
pub mod Pricing
pub mod Witnesses
use kalshi_quant_research.Prelude.{
  ℕ, zero, suc, ◌+◌, ◌-◌, ◌*◌, ◌/◌, min, Bool, true, false, not, ◌&&◌, ◌||◌, Option, none, some,
  List, [], ◌∷◌, ◌++◌, map, ltb, leb, ◌==◌, if◌then◌else◌, Error, Result, ok, err, ◌>>=◌, ◌>>◌,
  raise_if, ◌=?◌, string_key, sum_by, length,
}
use kalshi_quant_research.Prelude.Int.{ℤ, pos, sub_ℕ, ltb_ℤ, pos_part}
use kalshi_quant_research.Prelude.Dict.{Dict, lookup}
use kalshi_quant_research.Market.Contracts.{
  Price, Qty, Ticker, Side, yes_side, no_side, price_scale, ContractRef,
}
use kalshi_quant_research.Market.OrderBook.{OrderBook, Level, best_ask}

abbrev pub World : Type 0
World = Ticker → ℕ

pub data RelationKind : Type 0 where
  complement_kind mutually_exclusive_kind exhaustive_kind partition_kind : RelationKind
  implies_kind chain_kind union_kind : RelationKind

pub record Leg : Type 0 where
  pub contract : ContractRef
  pub qty : ℕ

-- `Leg.__post_init__`
abbrev pub make_leg : ContractRef → ℤ → Result Leg
make_leg c q =
    raise_if (ltb_ℤ q (pos 1)) Error.value_error >> ok (record { contract = c; qty = pos_part q })

pub record Constraint : Type 0 where
  pub kind : RelationKind
  pub legs : List Leg
  pub bound : Price

-- what one contract of a side pays at a YES value of at most $1
abbrev pub leg_value : Side → Price → Price
leg_value yes_side value = value
leg_value no_side value = price_scale - value

abbrev pub leg_payoff : (Ticker → Price) → Leg → ℕ
leg_payoff settlement leg = leg.qty * leg_value leg.contract.side (settlement leg.contract.ticker)

unfoldable pub bundle_payoff : Constraint → (Ticker → Price) → ℕ
bundle_payoff c settlement = sum_by (leg_payoff settlement) c.legs

unfoldable pub world_payoff : Constraint → World → ℕ
unfolding bundle_payoff
world_payoff c world = bundle_payoff c (λ t. world t * price_scale)

abbrev pub AskFn : Type 0
AskFn = ContractRef → Option Level

pub record ConstraintCheck : Type 0 where
  pub constraint : Constraint
  pub cost : Price
  pub margin : ℤ
  pub top_qty : Qty

-- the first loop of `check`: the best ask of every leg, or none where one has no offer
abbrev pub quote_legs : AskFn → List Leg → Option (List (Leg × Level))
quote_legs ask [] = some []
quote_legs ask (leg ∷ legs) = elim (ask leg.contract) [
  | none ↦ none
  | some lv ↦ elim (quote_legs ask legs) [ none ↦ none | some quoted ↦ some ((leg, lv) ∷ quoted) ]
]

abbrev pub quoted_cost : List (Leg × Level) → ℕ
quoted_cost = sum_by (λ (x : Leg × Level). x.0.qty * x.1.price)

-- `min` over the legs; every constraint of a relation has a leg
abbrev pub top_quantity : List (Leg × Level) → ℕ
top_quantity [] = 0
top_quantity ((leg, lv) ∷ []) = lv.qty / leg.qty
top_quantity ((leg, lv) ∷ x ∷ rest) = min (lv.qty / leg.qty) (top_quantity (x ∷ rest))

unfoldable pub check : AskFn → Constraint → Option ConstraintCheck
check ask c = elim (quote_legs ask c.legs) [
  | none ↦ none
  | some quoted ↦ some (record {
    constraint = c;
    cost = quoted_cost quoted;
    margin = sub_ℕ c.bound (quoted_cost quoted);
    top_qty = top_quantity quoted;
  })
]

-- `ConstraintCheck.violated`
abbrev pub violated : ConstraintCheck → Bool
violated c = ltb_ℤ (pos 0) c.margin

pub asks_from_books : Dict Ticker OrderBook → AskFn
asks_from_books books c = elim (lookup c.ticker books) [
  | none ↦ none
  | some book ↦ best_ask c.side book
]

abbrev pub yes_leg : Ticker → Leg
yes_leg t = record { contract = record { ticker = t; side = yes_side }; qty = 1 }

abbrev pub no_leg : Ticker → Leg
no_leg t = record { contract = record { ticker = t; side = no_side }; qty = 1 }

abbrev pub member : Ticker → List Ticker → Bool
member t [] = false
member t (u ∷ us) = (u =? t) || member t us

abbrev pub has_duplicate : List Ticker → Bool
has_duplicate [] = false
has_duplicate (t ∷ ts) = member t ts || has_duplicate ts

-- `_distinct`
pub distinct : List Ticker → ℕ → Result (List Ticker)
distinct ts minimum = do
  raise_if (has_duplicate ts) Error.value_error
  raise_if (ltb (length ts) minimum) Error.value_error
  ok ts

-- the classes `Complement` ... `Union`
pub data Relation : Type 0 where
  complement_of : Ticker → Relation
  mutually_exclusive exhaustive partition chain : List Ticker → Relation
  implies : Ticker → Ticker → Relation
  union_of : List Ticker → Ticker → Bool → Relation

-- What the constructors check.
unfoldable pub make : Relation → Result Relation
unfolding distinct
make (complement_of t) = ok (complement_of t)
make (mutually_exclusive ts) = do ms ← distinct ts 2; ok (mutually_exclusive ms)
make (exhaustive ts) = do ms ← distinct ts 2; ok (exhaustive ms)
make (partition ts) = do ms ← distinct ts 2; ok (partition ms)
make (chain ts) = do ms ← distinct ts 2; ok (chain ms)
make (implies a b) = do raise_if (a =? b) Error.value_error; ok (implies a b)
make (union_of parts whole disjoint) = do
  ps ← distinct parts 2
  raise_if (member whole ps) Error.value_error
  ok (union_of ps whole disjoint)

abbrev pub tickers : Relation → List Ticker
tickers (complement_of t) = t ∷ []
tickers (mutually_exclusive ts) = ts
tickers (exhaustive ts) = ts
tickers (partition ts) = ts
tickers (chain ts) = ts
tickers (implies a b) = a ∷ b ∷ []
tickers (union_of parts whole disjoint) = parts ++ whole ∷ []

abbrev pub mutex_constraint : List Ticker → Constraint
mutex_constraint ts = record {
  kind = mutually_exclusive_kind;
  legs = map no_leg ts;
  bound = (length ts - 1) * price_scale;
}

abbrev pub cover_constraint : List Ticker → Constraint
cover_constraint ts = record { kind = exhaustive_kind; legs = map yes_leg ts; bound = price_scale }

abbrev pub implies_constraint : Ticker → Ticker → Constraint
implies_constraint a b = record {
  kind = implies_kind;
  legs = yes_leg b ∷ no_leg a ∷ [];
  bound = price_scale;
}

abbrev pub implied_by : List Ticker → Ticker → List Constraint
implied_by [] b = []
implied_by (a ∷ as') b = implies_constraint a b ∷ implied_by as' b

abbrev pub implies_all : Ticker → List Ticker → List Constraint
implies_all a [] = []
implies_all a (b ∷ bs) = implies_constraint a b ∷ implies_all a bs

-- `itertools.combinations(markets, 2)`, compiled
abbrev pub chain_constraints : List Ticker → List Constraint
chain_constraints [] = []
chain_constraints (a ∷ ts) = implies_all a ts ++ chain_constraints ts

abbrev pub union_cover : List Ticker → Ticker → Constraint
union_cover parts whole = record {
  kind = union_kind;
  legs = no_leg whole ∷ map yes_leg parts;
  bound = price_scale;
}

abbrev pub union_sum : List Ticker → Ticker → Constraint
union_sum parts whole = record {
  kind = union_kind;
  legs = yes_leg whole ∷ map no_leg parts;
  bound = length parts * price_scale;
}

unfoldable pub constraints : Relation → List Constraint
constraints (complement_of t) =
    record { kind = complement_kind; legs = yes_leg t ∷ no_leg t ∷ []; bound = price_scale } ∷ []
constraints (mutually_exclusive ts) = mutex_constraint ts ∷ []
constraints (exhaustive ts) = cover_constraint ts ∷ []
constraints (partition ts) = mutex_constraint ts ∷ cover_constraint ts ∷ []
constraints (chain ts) = chain_constraints ts
constraints (implies a b) = implies_constraint a b ∷ []
constraints (union_of parts whole true) =
    union_cover parts whole ∷ union_sum parts whole ∷ mutex_constraint parts ∷ []
constraints (union_of parts whole false) = union_cover parts whole ∷ implied_by parts whole

-- `all(vals[i] <= vals[i + 1])`
abbrev pub nondecreasing : World → List Ticker → Bool
nondecreasing w [] = true
nondecreasing w (a ∷ []) = true
nondecreasing w (a ∷ b ∷ ts) = leb (w a) (w b) && nondecreasing w (b ∷ ts)

abbrev pub any_yes : World → List Ticker → Bool
any_yes w [] = false
any_yes w (t ∷ ts) = not (w t == 0) || any_yes w ts

unfoldable pub admissible : Relation → World → Bool
admissible (complement_of t) w = true
admissible (mutually_exclusive ts) w = leb (sum_by w ts) 1
admissible (exhaustive ts) w = leb 1 (sum_by w ts)
admissible (partition ts) w = sum_by w ts == 1
admissible (chain ts) w = nondecreasing w ts
admissible (implies a b) w = not ((w a == 1) && (w b == 0))
admissible (union_of parts whole disjoint) w =
    (w whole == (if any_yes w parts then 1 else 0)) && (not disjoint || leb (sum_by w parts) 1)

-- `Chain.n_constraints`
abbrev pub n_constraints : List Ticker → ℕ
n_constraints ts = let k = length ts in k * (k - 1) / 2

-- the price of an offer
abbrev pub price_of : Option Level → Option Price
price_of none = none
price_of (some lv) = some lv.price

-- `n is not None and n + yes < $1`
abbrev pub under_dollar : Option Price → Price → Bool
under_dollar none y = false
under_dollar (some n) y = ltb (n + y) price_scale

-- the inner loop of `candidate_constraints`
abbrev pub violating : List (Ticker × Option Price) → Ticker → Price → List Constraint
violating [] tj y = []
violating ((ti, n) ∷ seen) tj y =
    let rest = violating seen tj y in
    if under_dollar n y then implies_constraint ti tj ∷ rest else rest

-- one rung: nothing to buy, nothing cheap enough, or the scan of the rungs before it
abbrev pub rung :
    List (Ticker × Option Price) → Option Price → Ticker → Option Level → List Constraint
rung seen cheapest tj none = []
rung seen cheapest tj (some offer) =
    if under_dollar cheapest offer.price then violating seen tj offer.price else []

-- the running minimum of the NO asks
abbrev pub cheaper : Option Price → Option Price → Option Price
cheaper cheapest none = cheapest
cheaper none (some n) = some n
cheaper (some c) (some n) = if ltb n c then some n else some c

pub candidates_from :
    AskFn → List (Ticker × Option Price) → Option Price → List Ticker → List Constraint
candidates_from ask seen cheapest [] = []
candidates_from ask seen cheapest (tj ∷ ts) =
    let no = price_of (ask (no_leg tj).contract) in
    rung seen cheapest tj (ask (yes_leg tj).contract)
    ++ candidates_from ask (seen ++ (tj, no) ∷ []) (cheaper cheapest no) ts

-- `Chain.candidate_constraints`
pub candidate_constraints : AskFn → List Ticker → List Constraint
unfolding candidates_from
candidate_constraints ask ts = candidates_from ask [] none ts

-- `sorted(checks, key=-margin)`, stable
abbrev pub place_check : ConstraintCheck → List ConstraintCheck → List ConstraintCheck
place_check c [] = c ∷ []
place_check c (d ∷ ds) = if ltb_ℤ c.margin d.margin then d ∷ place_check c ds else c ∷ d ∷ ds

abbrev pub sort_checks : List ConstraintCheck → List ConstraintCheck
sort_checks [] = []
sort_checks (c ∷ cs) = place_check c (sort_checks cs)

abbrev pub priced_checks : AskFn → List Constraint → List ConstraintCheck
priced_checks ask [] = []
priced_checks ask (c ∷ cs) = elim (check ask c) [
  | none ↦ priced_checks ask cs
  | some k ↦ k ∷ priced_checks ask cs
]

abbrev pub all_constraints : List Relation → List Constraint
all_constraints [] = []
all_constraints (r ∷ rs) = constraints r ++ all_constraints rs

abbrev pub scan : List Relation → AskFn → List ConstraintCheck
scan relations ask = sort_checks (priced_checks ask (all_constraints relations))

-- `dict(zip(tickers, bits))`, and 0 for any other ticker
abbrev pub world_of : List Ticker → List ℕ → World
world_of (t ∷ ts) (b ∷ bits) u = if t =? u then b else world_of ts bits u
world_of _ _ u = 0

-- `itertools.product((0, 1), repeat=n)`
abbrev pub bit_rows : ℕ → List (List ℕ)
bit_rows zero = [] ∷ []
bit_rows (suc n) = let rest = bit_rows n in map (◌∷◌ 0) rest ++ map (◌∷◌ 1) rest

abbrev pub all_worlds : List Ticker → List World
all_worlds ts = map (world_of ts) (bit_rows (length ts))

abbrev pub keep_admissible : Relation → List World → List World
keep_admissible r [] = []
keep_admissible r (w ∷ ws) =
    let rest = keep_admissible r ws in if admissible r w then w ∷ rest else rest

abbrev pub admissible_worlds : Relation → List World
admissible_worlds r = keep_admissible r (all_worlds (tickers r))
