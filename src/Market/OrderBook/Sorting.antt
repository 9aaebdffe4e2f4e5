-- ===== src/Market/OrderBook/Sorting.antt =====
-- Sorting one side of a book, best price first: what the order keeps and what it is.
use kalshi_quant_research.Prelude.{
  ℕ, ◌+◌, ◌≤◌, ◌<◌, ◌≡◌, refl, ◌∙◌, none, some, [], ◌∷◌, arith, ◌==◌, if◌then◌else◌, sum_by, All,
  All-map, nat_key, string_key,
}
use kalshi_quant_research.Prelude.Dict.{lookup, Distinct}
use mathlib.Core.Path.{ap₂, Σ_path}
use native.Mathlib.Nat.{le_antisymm}
use kalshi_quant_research.Market.Contracts.{Price, Qty}
use kalshi_quant_research.Market.OrderBook.{Bids, place_desc, sorted_desc}

-- Strictly falling prices.
abbrev pub Descending : Bids → Type 0
Descending [] = Unit
Descending (x ∷ xs) = All (λ (y : Price × Qty). y.0 < x.0) xs × Descending xs

lookup-place_desc :
    (j p q : ℕ) (ys : Bids)
    → lookup j (place_desc (p, q) ys) ≡ (if p == j then some q else lookup j ys)
unfolding place_desc
lookup-place_desc j p q [] = refl
lookup-place_desc j p q (y ∷ ys) = ground (arith, lookup-place_desc j p q ys)

pub lookup-sorted_desc : (j : ℕ) (d : Bids) → lookup j (sorted_desc d) ≡ lookup j d
unfolding sorted_desc
lookup-sorted_desc j [] = refl
lookup-sorted_desc j ((p, q) ∷ d) =
    ground (arith, lookup-place_desc j p q (sorted_desc d), lookup-sorted_desc j d)

pub sum_by-sorted_desc : (f : Price × Qty → ℕ) (d : Bids) → sum_by f (sorted_desc d) ≡ sum_by f d
unfolding sorted_desc
sum_by-sorted_desc f [] = refl
sum_by-sorted_desc f (x ∷ d) =
    omega (arith, sum_by-place f x (sorted_desc d), sum_by-sorted_desc f d)
  where
    sum_by-place :
        (g : Price × Qty → ℕ) (y : Price × Qty) (ys : Bids)
        → sum_by g (place_desc y ys) ≡ g y + sum_by g ys
    sum_by-place g y [] = refl
    sum_by-place g y (z ∷ ys) = ground (arith, sum_by-place g y ys)

All-below-lookup : (p : ℕ) (ys : Bids) → All (λ (y : Price × Qty). y.0 < p) ys → lookup p ys ≡ none
All-below-lookup p [] h = refl
All-below-lookup p (y ∷ ys) h = ground (arith, All-below-lookup p ys h.1)

place_desc-below :
    (m p q : ℕ) (ys : Bids)
    → p < m
    → All (λ (y : Price × Qty). y.0 < m) ys
    → All (λ (y : Price × Qty). y.0 < m) (place_desc (p, q) ys)
unfolding place_desc
place_desc-below m p q [] lt h = (lt, tt)
place_desc-below m p q (y ∷ ys) lt h = ground (arith, place_desc-below m p q ys lt h.1)

All-below_trans :
    (m n : ℕ) (ys : Bids)
    → m < n
    → All (λ (y : Price × Qty). y.0 < m) ys
    → All (λ (y : Price × Qty). y.0 < n) ys
All-below_trans m n ys lt = All-map (λ y h. omega arith) ys

place_desc-Descending :
    (p q : ℕ) (ys : Bids) → lookup p ys ≡ none → Descending ys → Descending (place_desc (p, q) ys)
unfolding place_desc
place_desc-Descending p q [] new h = (tt, tt)
place_desc-Descending p q (y ∷ ys) new h =
    ground
      (arith, place_desc-Descending p q ys, place_desc-below y.0 p q ys, All-below_trans y.0 p ys)

pub sorted_desc-Descending : (d : Bids) → Distinct d → Descending (sorted_desc d)
unfolding sorted_desc
sorted_desc-Descending [] h = tt
sorted_desc-Descending ((p, q) ∷ d) h =
    place_desc-Descending p q (sorted_desc d) (lookup-sorted_desc p d ∙ h.0)
      (sorted_desc-Descending d h.1)

lookup-below :
    (p r w : ℕ) (ys : Bids) → All (λ (y : Price × Qty). y.0 < r) ys → lookup p ys ≡ some w → p < r
lookup-below p r w [] h e = cc
lookup-below p r w (y ∷ ys) h e = ground (arith, lookup-below p r w ys h.1)

-- the head of a descending list has its highest price
head_highest :
    (p q r s : ℕ) (ys : Bids)
    → All (λ (y : Price × Qty). y.0 < r) ys
    → lookup p ((r, s) ∷ ys) ≡ some q
    → p ≤ r
head_highest p q r s ys h e = ground (arith, lookup-below p r q ys h)

-- Two descending lists with the same entry at each price are one list.
pub Descending-unique :
    (xs ys : Bids) → Descending xs → Descending ys → ((j : ℕ) → lookup j xs ≡ lookup j ys) → xs ≡ ys
Descending-unique [] [] h k same = refl
Descending-unique [] ((p, q) ∷ ys) h k same = ground (arith, same p)
Descending-unique ((p, q) ∷ xs) [] h k same = ground (arith, same p)
Descending-unique ((p, q) ∷ xs) ((r, s) ∷ ys) h k same =
    ap₂ ◌∷◌ (Σ_path heads counts) (Descending-unique xs ys h.1 k.1 tails)
  where
    heads : p ≡ r
    heads =
        le_antisymm (head_highest p q r s ys k.0 (ground (arith, same p)))
          (head_highest r s p q xs h.0 (ground (arith, same r)))

    counts : q ≡ s
    counts = ground (arith, same p, heads)

    tails : (j : ℕ) → lookup j xs ≡ lookup j ys
    tails j = ground (arith, same j, heads, All-below-lookup p xs h.0, All-below-lookup r ys k.0)
