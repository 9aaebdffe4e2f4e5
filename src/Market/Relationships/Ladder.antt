-- ===== src/Market/Relationships/Ladder.antt =====
-- The ladder pre-filter is lossless: `candidate_constraints` gives exactly the violated constraints.
use kalshi_quant_research.Prelude.{
  ◌≡◌, refl, sym, ap, ◌∙◌, ◌↔◌, ◌⊎◌, inl, inr, Bool, true, false, Option, none, some, List, [], ◌∷◌,
  ◌++◌, map, arith, if◌then◌else◌, Bool-cases, Option-cases, All, All-map, All-append, In, nat_key,
  string_key,
}
use mathlib.Core.Bool.{false≢true}
use mathlib.Core.Path.{ap₂}
use mathlib.Core.List.{map-append}
use kalshi_quant_research.Market.Contracts.{Ticker, Price}
use kalshi_quant_research.Market.OrderBook.{Level}
use kalshi_quant_research.Market.Relationships.{
  yes_leg, no_leg, AskFn, Constraint, ConstraintCheck, check, violated, implies_constraint,
  implies_all, implied_by, chain_constraints, price_of, under_dollar, violating, rung, cheaper,
  candidates_from, candidate_constraints,
}

-- `c in cs`
pub In-append_left : (c : Constraint) (xs ys : List Constraint) → In c xs → In c (xs ++ ys)
In-append_left c [] ys h = absurd h
In-append_left c (x ∷ xs) ys (inl e) = inl e
In-append_left c (x ∷ xs) ys (inr h) = inr (In-append_left c xs ys h)

pub In-append_right : (c : Constraint) (xs ys : List Constraint) → In c ys → In c (xs ++ ys)
In-append_right c [] ys h = h
In-append_right c (x ∷ xs) ys h = inr (In-append_right c xs ys h)

pub In-append_cases :
    (c : Constraint) (xs ys : List Constraint) → In c (xs ++ ys) → In c xs ⊎ In c ys
In-append_cases c [] ys h = inr h
In-append_cases c (x ∷ xs) ys (inl e) = inl (inl e)
In-append_cases c (x ∷ xs) ys (inr h) = elim (In-append_cases c xs ys h) [
  | inl k ↦ inl (inr k)
  | inr k ↦ inr k
]

-- the constraint is priced and its margin is positive
abbrev pub is_violated : Option ConstraintCheck → Bool
is_violated none = false
is_violated (some k) = violated k

abbrev pub IsViolated : AskFn → Constraint → Type 0
IsViolated ask c = is_violated (check ask c) ≡ true

-- the two offers of an implication make less than $1
abbrev offers_violate : Option Level → Option Level → Bool
offers_violate none no_ask = false
offers_violate (some offer) no_ask = under_dollar (price_of no_ask) offer.price

pair_violated :
    (ask : AskFn) (a b : Ticker)
    → is_violated (check ask (implies_constraint a b))
      ≡ offers_violate (ask (yes_leg b).contract) (ask (no_leg a).contract)
unfolding check
pair_violated ask a b = ground arith

-- what a full scan finds
full_scan : AskFn → List Constraint → List Constraint
full_scan ask [] = []
full_scan ask (c ∷ cs) =
    let rest = full_scan ask cs in if is_violated (check ask c) then c ∷ rest else rest

full_scan-append :
    (ask : AskFn) (cs ds : List Constraint)
    → full_scan ask (cs ++ ds) ≡ full_scan ask cs ++ full_scan ask ds
unfolding full_scan
full_scan-append ask [] ds = refl
full_scan-append ask (c ∷ cs) ds = elim (Bool-cases (is_violated (check ask c))) [
  | inl bad ↦ rw bad (ap (◌∷◌ c) (full_scan-append ask cs ds))
  | inr fine ↦ rw fine (full_scan-append ask cs ds)
]

In-full_scan :
    (ask : AskFn) (c : Constraint) (cs : List Constraint)
    → In c (full_scan ask cs) ↔ (In c cs × IsViolated ask c)
unfolding full_scan
In-full_scan ask c [] = (λ h. absurd h, λ h. absurd h.0)
In-full_scan ask c (d ∷ ds) =
    let (to, from) = In-full_scan ask c ds in
    elim (Bool-cases (is_violated (check ask d))) [
      | inl bad ↦ rw bad (
        elim [ inl e ↦ (inl e, rw e bad) | inr h ↦ (inr (to h).0, (to h).1) ],
        λ h. elim h.0 [ inl e ↦ inl e | inr k ↦ inr (from (k, h.1)) ],
      )
      | inr fine ↦ rw fine (
        λ h. (inr (to h).0, (to h).1),
        λ h. elim h.0 [
          | inl e ↦ absurd (false≢true (sym fine ∙ (rw e at h.1)))
          | inr k ↦ from (k, h.1)
        ],
      )
    ]

abbrev seen_tickers : List (Ticker × Option Price) → List Ticker
seen_tickers = map (λ (x : Ticker × Option Price). x.0)

-- the NO asks kept in `no_asks`, and the minimum kept in `cheapest_no`
abbrev IsSeen : AskFn → Option Price → Ticker × Option Price → Type 0
IsSeen ask cheapest (t, n) =
    (n ≡ price_of (ask (no_leg t).contract))
    × ((y : Price) → under_dollar n y ≡ true → under_dollar cheapest y ≡ true)

violating-eq-scan :
    (ask : AskFn) (cheapest : Option Price) (seen : List (Ticker × Option Price)) (tj : Ticker)
    (offer : Level)
    → ask (yes_leg tj).contract ≡ some offer
    → All (IsSeen ask cheapest) seen
    → violating seen tj offer.price ≡ full_scan ask (implied_by (seen_tickers seen) tj)
unfolding full_scan
violating-eq-scan ask cheapest [] tj offer e h = refl
violating-eq-scan ask cheapest ((ti, n) ∷ seen) tj offer e h =
    ground (arith, violating-eq-scan ask cheapest seen tj offer e h.1, pair_violated ask ti tj)

no_offer-scan :
    (ask : AskFn) (ts : List Ticker) (tj : Ticker)
    → ask (yes_leg tj).contract ≡ none
    → full_scan ask (implied_by ts tj) ≡ []
unfolding full_scan
no_offer-scan ask [] tj e = refl
no_offer-scan ask (t ∷ ts) tj e = ground (arith, no_offer-scan ask ts tj e, pair_violated ask t tj)

dear-scan :
    (ask : AskFn) (cheapest : Option Price) (seen : List (Ticker × Option Price)) (tj : Ticker)
    (offer : Level)
    → ask (yes_leg tj).contract ≡ some offer
    → under_dollar cheapest offer.price ≡ false
    → All (IsSeen ask cheapest) seen
    → full_scan ask (implied_by (seen_tickers seen) tj) ≡ []
unfolding full_scan
dear-scan ask cheapest [] tj offer e dear h = refl
dear-scan ask cheapest ((ti, n) ∷ seen) tj offer e dear h = ground (
  arith,
  dear-scan ask cheapest seen tj offer e dear h.1,
  pair_violated ask ti tj,
  h.0.1 offer.price,
)

rung-eq-scan :
    (ask : AskFn) (cheapest : Option Price) (seen : List (Ticker × Option Price)) (tj : Ticker)
    → All (IsSeen ask cheapest) seen
    → rung seen cheapest tj (ask (yes_leg tj).contract)
      ≡ full_scan ask (implied_by (seen_tickers seen) tj)
rung-eq-scan ask cheapest seen tj h = elim (Option-cases (ask (yes_leg tj).contract)) [
  | inl e ↦ rw e (sym (no_offer-scan ask (seen_tickers seen) tj e))
  | inr (offer, e) ↦ elim (Bool-cases (under_dollar cheapest offer.price)) [
    | inl cheap ↦ rw e (rw cheap (violating-eq-scan ask cheapest seen tj offer e h))
    | inr dear ↦ rw e (rw dear (sym (dear-scan ask cheapest seen tj offer e dear h)))
  ]
]

under-cheaper :
    (c n : Option Price) (y : Price)
    → (under_dollar c y ≡ true → under_dollar (cheaper c n) y ≡ true)
      × (under_dollar n y ≡ true → under_dollar (cheaper c n) y ≡ true)
under-cheaper none none y = (λ e. e, λ e. e)
under-cheaper none (some n) y = (λ e. cc, λ e. e)
under-cheaper (some c) none y = (λ e. e, λ e. cc)
under-cheaper (some c) (some n) y = (λ e. ground arith, λ e. ground arith)

-- every pair, by its later rung
by_later : List Ticker → List Ticker → List Constraint
by_later before [] = []
by_later before (t ∷ ts) = implied_by before t ++ by_later (before ++ t ∷ []) ts

candidates-eq-scan :
    (ask : AskFn) (cheapest : Option Price) (seen : List (Ticker × Option Price)) (ts : List Ticker)
    → All (IsSeen ask cheapest) seen
    → candidates_from ask seen cheapest ts ≡ full_scan ask (by_later (seen_tickers seen) ts)
unfolding candidates_from by_later
candidates-eq-scan ask cheapest seen [] h = unfold full_scan in refl
candidates-eq-scan ask cheapest seen (t ∷ ts) h =
    let n = price_of (ask (no_leg t).contract) in
    let seen' = seen ++ (t, n) ∷ [] in
    let kept = keep_seen n seen h in
    ap₂ ◌++◌ (rung-eq-scan ask cheapest seen t h) (
      candidates-eq-scan ask (cheaper cheapest n) seen' ts kept
      ∙ ap (λ (before : List Ticker). full_scan ask (by_later before ts))
          (map-append (λ (x : Ticker × Option Price). x.0) seen ((t, n) ∷ [])))
    ∙ sym (full_scan-append ask (implied_by (seen_tickers seen) t) _)
  where
    keep_seen :
        (n : Option Price) (xs : List (Ticker × Option Price))
        → All (IsSeen ask cheapest) xs
        → All
            (IsSeen ask (cheaper cheapest (price_of (ask (no_leg t).contract))))
            (xs ++ (t, price_of (ask (no_leg t).contract)) ∷ [])
    keep_seen n xs all =
        All-append _ xs _
          (All-map (λ x k. (k.0, λ y e. (under-cheaper cheapest _ y).0 (k.1 y e))) xs all)
          ((refl, λ y e. (under-cheaper cheapest _ y).1 e), tt)

-- every pair, by its earlier rung, for the rungs before and after
across : List Ticker → List Ticker → List Constraint
across [] ts = []
across (a ∷ before) ts = implies_all a ts ++ across before ts

across-nil : (c : Constraint) (before : List Ticker) → ¬ In c (across before [])
unfolding across
across-nil c [] h = h
across-nil c (a ∷ before) h = across-nil c before h

module _ (c : Constraint) where
  across-cons :
      (before : List Ticker) (t : Ticker) (ts : List Ticker)
      → In c (across before (t ∷ ts)) ↔ (In c (implied_by before t) ⊎ In c (across before ts))
  unfolding across
  across-cons [] t ts = (λ h. absurd h, elim [ inl h ↦ h | inr h ↦ h ])
  across-cons (a ∷ before) t ts =
      let (to, from) = across-cons before t ts in
      (
        elim [
          | inl e ↦ inl (inl e)
          | inr h ↦ elim (In-append_cases c (implies_all a ts) _ h) [
            | inl k ↦ inr (In-append_left c (implies_all a ts) _ k)
            | inr k ↦ elim (to k) [
              | inl j ↦ inl (inr j)
              | inr j ↦ inr (In-append_right c (implies_all a ts) _ j)
            ]
          ]
        ],
        elim [
          | inl h ↦ elim h [
            | inl e ↦ inl e
            | inr k ↦ inr (In-append_right c (implies_all a ts) _ (from (inl k)))
          ]
          | inr h ↦ elim (In-append_cases c (implies_all a ts) _ h) [
            | inl k ↦ inr (In-append_left c (implies_all a ts) _ k)
            | inr k ↦ inr (In-append_right c (implies_all a ts) _ (from (inr k)))
          ]
        ],
      )

  across-snoc :
      (before : List Ticker) (t : Ticker) (ts : List Ticker)
      → In c (across (before ++ t ∷ []) ts) ↔ (In c (across before ts) ⊎ In c (implies_all t ts))
  unfolding across
  across-snoc [] t ts = (
    λ h. elim (In-append_cases c (implies_all t ts) [] h) [ inl k ↦ inr k | inr k ↦ absurd k ],
    elim [ inl h ↦ absurd h | inr h ↦ In-append_left c (implies_all t ts) [] h ],
  )
  across-snoc (a ∷ before) t ts =
      let (to, from) = across-snoc before t ts in
      (
        λ h. elim (In-append_cases c (implies_all a ts) _ h) [
          | inl k ↦ inl (In-append_left c (implies_all a ts) _ k)
          | inr k ↦ elim (to k) [
            | inl j ↦ inl (In-append_right c (implies_all a ts) _ j)
            | inr j ↦ inr j
          ]
        ],
        elim [
          | inl h ↦ elim (In-append_cases c (implies_all a ts) _ h) [
            | inl k ↦ In-append_left c (implies_all a ts) _ k
            | inr k ↦ In-append_right c (implies_all a ts) _ (from (inl k))
          ]
          | inr h ↦ In-append_right c (implies_all a ts) _ (from (inr h))
        ],
      )

  by_later_iff :
      (before ts : List Ticker)
      → In c (by_later before ts) ↔ (In c (across before ts) ⊎ In c (chain_constraints ts))
  unfolding by_later
  by_later_iff before [] =
      (λ h. absurd h, elim [ inl h ↦ absurd (across-nil c before h) | inr h ↦ h ])
  by_later_iff before (t ∷ ts) =
      let (to, from) = by_later_iff (before ++ t ∷ []) ts in
      let (cons_to, cons_from) = across-cons before t ts in
      let (snoc_to, snoc_from) = across-snoc before t ts in
      (
        λ h. elim (In-append_cases c (implied_by before t) _ h) [
          | inl k ↦ inl (cons_from (inl k))
          | inr k ↦ elim (to k) [
            | inl j ↦ elim (snoc_to j) [
              | inl i ↦ inl (cons_from (inr i))
              | inr i ↦ inr (In-append_left c (implies_all t ts) _ i)
            ]
            | inr j ↦ inr (In-append_right c (implies_all t ts) _ j)
          ]
        ],
        elim [
          | inl h ↦ elim (cons_to h) [
            | inl k ↦ In-append_left c (implied_by before t) _ k
            | inr k ↦ In-append_right c (implied_by before t) _ (from (inl (snoc_from (inl k))))
          ]
          | inr h ↦ elim (In-append_cases c (implies_all t ts) _ h) [
            | inl k ↦ In-append_right c (implied_by before t) _ (from (inl (snoc_from (inr k))))
            | inr k ↦ In-append_right c (implied_by before t) _ (from (inr k))
          ]
        ],
      )

-- At any quotes the pre-filter of a ladder gives a constraint exactly when the ladder has it and the
-- quotes violate it: no pair is lost, and none that holds is priced.
pub candidates_exact :
    (ask : AskFn) (ts : List Ticker) (c : Constraint)
    → In c (candidate_constraints ask ts) ↔ (In c (chain_constraints ts) × IsViolated ask c)
unfolding candidate_constraints
candidates_exact ask ts c =
    let (to, from) = In-full_scan ask c (by_later [] ts) in
    let (later_to, later_from) = by_later_iff c [] ts in
    rw (candidates-eq-scan ask none [] ts tt) (
      λ h. (elim (later_to (to h).0) [ inl k ↦ absurd (unfold across in k) | inr k ↦ k ], (to h).1),
      λ h. from (later_from (inr h.0), h.1),
    )
