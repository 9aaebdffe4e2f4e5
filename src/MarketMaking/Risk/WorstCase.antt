-- ===== src/MarketMaking/Risk/WorstCase.antt =====
-- The worst case of an event bounds what its positions make at every settlement that can happen.
use kalshi_quant_research.Prelude.{
  ℕ, ◌≡◌, ◌⊎◌, inl, inr, Bool, true, false, not, Option, none, some, List, [], ◌∷◌, arith, ◌==◌,
  if◌then◌else◌, In, nat_key, string_key,
}
use kalshi_quant_research.Prelude.Int.{ℤ, pos, ◌+ℤ◌, ◌≤ℤ◌, min_ℤ, int_laws}
use kalshi_quant_research.Prelude.Dict.{lookup}
use kalshi_quant_research.Market.Contracts.{Ticker}
use kalshi_quant_research.MarketMaking.Risk.{
  Exposure, worst, exposure, Positions, Outcomes, sum_of_worst, pnl_in, world_total, worst_from,
  event_worst_case,
}

-- What one position makes where YES wins, or not.
abbrev pub pnl_of : Bool → Exposure → ℤ
pnl_of yes_wins e = if yes_wins then e.pnl_if_yes else e.pnl_if_no

-- What the positions make at the settlement where YES of each ticker wins as `won` says.
abbrev pub settled_total : (Ticker → Bool) → Positions → ℤ
settled_total won [] = pos 0
settled_total won ((t, p) ∷ d) = pnl_of (won t) (exposure p) +ℤ settled_total won d

-- What a world says of a ticker does not exclude the answer.
abbrev pub allows : Option ℕ → Bool → Bool
allows none won = true
allows (some n) won = if won then not (n == 0) else n == 0

-- A world that says nothing against a settlement.
abbrev pub Agrees : (Ticker → Bool) → Outcomes → Type 0
Agrees won w = (t : Ticker) → allows (lookup t w) (won t) ≡ true

worst-le : (yes_wins : Bool) (e : Exposure) → worst e ≤ℤ pnl_of yes_wins e
worst-le true e = ground arith
worst-le false e = ground arith

worst-le_pnl_in : (o : Option ℕ) (e : Exposure) → worst e ≤ℤ pnl_in o e
worst-le_pnl_in none e = omega arith
worst-le_pnl_in (some n) e = ground arith

add_mono : (a b c d : ℤ) → a ≤ℤ b → c ≤ℤ d → (a +ℤ c) ≤ℤ (b +ℤ d)
add_mono a b c d h k = omega (int_laws, h, k)

sum_of_worst-le_settled :
    (won : Ticker → Bool) (d : Positions) → sum_of_worst d ≤ℤ settled_total won d
unfolding sum_of_worst
sum_of_worst-le_settled won [] = omega arith
sum_of_worst-le_settled won ((t, p) ∷ d) =
    add_mono _ _ _ _ (worst-le (won t) (exposure p)) (sum_of_worst-le_settled won d)

sum_of_worst-le_total : (w : Outcomes) (d : Positions) → sum_of_worst d ≤ℤ world_total w d
unfolding sum_of_worst world_total
sum_of_worst-le_total w [] = omega arith
sum_of_worst-le_total w ((t, p) ∷ d) =
    add_mono _ _ _ _ (worst-le_pnl_in (lookup t w) (exposure p)) (sum_of_worst-le_total w d)

pnl_in-le :
    (won : Bool) (o : Option ℕ) (e : Exposure) → allows o won ≡ true → pnl_in o e ≤ℤ pnl_of won e
pnl_in-le won none e h = worst-le won e
pnl_in-le true (some n) e h = ground arith
pnl_in-le false (some n) e h = ground arith

world_total-le_settled :
    (won : Ticker → Bool) (w : Outcomes) (d : Positions)
    → Agrees won w
    → world_total w d ≤ℤ settled_total won d
unfolding world_total
world_total-le_settled won w [] h = omega arith
world_total-le_settled won w ((t, p) ∷ d) h =
    add_mono _ _ _ _ (pnl_in-le (won t) (lookup t w) (exposure p) (h t))
      (world_total-le_settled won w d h)

le_trans_ℤ : (a b c : ℤ) → a ≤ℤ b → b ≤ℤ c → a ≤ℤ c
le_trans_ℤ a b c h k = omega (arith, h, k)

min-le : (a b : ℤ) → (min_ℤ a b ≤ℤ a) × (min_ℤ a b ≤ℤ b)
min-le a b = (ground arith, ground arith)

worst_from-le :
    (d : Positions) (found : ℤ) (ws : List Outcomes)
    → (worst_from d found ws ≤ℤ found)
      × ((w : Outcomes) → In w ws → worst_from d found ws ≤ℤ world_total w d)
unfolding worst_from
worst_from-le d found [] = (omega arith, λ w i. absurd i)
worst_from-le d found (v ∷ ws) =
    let next : ℤ = min_ℤ found (world_total v d) in
    let (low, lower) = worst_from-le d next ws in
    let (left, right) = min-le found (world_total v d) in
    (
      le_trans_ℤ _ next _ low left,
      λ w i. elim i [ inl e ↦ rw e (le_trans_ℤ _ next _ low right) | inr rest ↦ lower w rest ],
    )

worst_from-ge :
    (bound : ℤ) (d : Positions) (found : ℤ) (ws : List Outcomes)
    → bound ≤ℤ found
    → ((w : Outcomes) → bound ≤ℤ world_total w d)
    → bound ≤ℤ worst_from d found ws
unfolding worst_from
worst_from-ge bound d found [] h k = h
worst_from-ge bound d found (v ∷ ws) h k =
    worst_from-ge bound d (min_ℤ found (world_total v d)) ws (ground (arith, h, k v)) k

-- Where no world is given, or a given one agrees with the settlement, the event's positions make at
-- least the worst case there.
pub event_worst_case_sound :
    (d : Positions) (worlds : List Outcomes) (won : Ticker → Bool)
    → (worlds ≡ []) ⊎ ((w : Outcomes) × In w worlds × Agrees won w)
    → event_worst_case d worlds ≤ℤ settled_total won d
unfolding event_worst_case
event_worst_case_sound [] worlds won h = omega arith
event_worst_case_sound ((t, p) ∷ d) [] won h = sum_of_worst-le_settled won ((t, p) ∷ d)
event_worst_case_sound ((t, p) ∷ d) (v ∷ ws) won (inl e) = absurd (ground (arith, e))
event_worst_case_sound ((t, p) ∷ d) (v ∷ ws) won (inr (w, inl e, agrees)) =
    le_trans_ℤ _ (world_total v ((t, p) ∷ d)) _
      (worst_from-le ((t, p) ∷ d) (world_total v ((t, p) ∷ d)) ws).0
      (world_total-le_settled won v ((t, p) ∷ d) (rw e at agrees))
event_worst_case_sound ((t, p) ∷ d) (v ∷ ws) won (inr (w, inr i, agrees)) =
    le_trans_ℤ _ (world_total w ((t, p) ∷ d)) _
      ((worst_from-le ((t, p) ∷ d) (world_total v ((t, p) ∷ d)) ws).1 w i)
      (world_total-le_settled won w ((t, p) ∷ d) agrees)

-- Worlds only raise the worst case: without them, the sum of the markets' worst cases is at least as
-- pessimistic.
pub no_worlds_pessimistic :
    (d : Positions) (worlds : List Outcomes) → event_worst_case d [] ≤ℤ event_worst_case d worlds
unfolding event_worst_case
no_worlds_pessimistic [] worlds = omega arith
no_worlds_pessimistic ((t, p) ∷ d) [] = omega arith
no_worlds_pessimistic ((t, p) ∷ d) (v ∷ ws) =
    worst_from-ge (sum_of_worst ((t, p) ∷ d)) ((t, p) ∷ d) (world_total v ((t, p) ∷ d)) ws
      (sum_of_worst-le_total v ((t, p) ∷ d)) (λ w. sum_of_worst-le_total w ((t, p) ∷ d))
