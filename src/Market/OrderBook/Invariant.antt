-- ===== src/Market/OrderBook/Invariant.antt =====
-- The invariant of a book, and what the dict operations do to one side of it.
use kalshi_quant_research.Prelude.{ℕ, ◌<◌, ◌≡◌, some, [], ◌∷◌, arith, All, nat_key, ==_iff}
use kalshi_quant_research.Prelude.Dict.{
  Distinct, lookup, insert, erase, insert-Distinct, erase-Distinct,
}
use kalshi_quant_research.Market.Contracts.{Price, Qty, price_scale, Side, yes_side, no_side}
use kalshi_quant_research.Market.OrderBook.{Bids, OrderBook, bids_of, with_bids, clear}

-- A resting level: a price strictly inside ($0, $1) and a quantity above zero.
abbrev pub IsLevel : Price × Qty → Type 0
IsLevel (p, q) = (0 < p) × (p < price_scale) × (0 < q)

abbrev pub IsValidSide : Bids → Type 0
IsValidSide d = All IsLevel d × Distinct d

pub record IsValid (b : OrderBook) : Type 0 where
  pub yes_valid : IsValidSide b.yes_bids
  pub no_valid : IsValidSide b.no_bids

pub bids_of-IsValidSide : (b : OrderBook) (s : Side) → IsValid b → IsValidSide (bids_of b s)
bids_of-IsValidSide b yes_side h = h.yes_valid
bids_of-IsValidSide b no_side h = h.no_valid

pub with_bids-IsValid :
    (b : OrderBook) (s : Side) (d : Bids) → IsValid b → IsValidSide d → IsValid (with_bids b s d)
with_bids-IsValid b yes_side d h k = record { yes_valid = k; no_valid = h.no_valid }
with_bids-IsValid b no_side d h k = record { yes_valid = h.yes_valid; no_valid = k }

insert-levels : (p q : ℕ) (d : Bids) → IsLevel (p, q) → All IsLevel d → All IsLevel (insert p q d)
insert-levels p q [] l h = (l, tt)
insert-levels p q ((i, w) ∷ d) l h = ground (arith, insert-levels p q d l h.1, ==_iff i p)

erase-levels : (p : ℕ) (d : Bids) → All IsLevel d → All IsLevel (erase p d)
erase-levels p [] h = tt
erase-levels p ((i, w) ∷ d) h = ground (arith, erase-levels p d h.1)

pub insert-IsValidSide :
    (p q : ℕ) (d : Bids) → IsLevel (p, q) → IsValidSide d → IsValidSide (insert p q d)
insert-IsValidSide p q d l h = (insert-levels p q d l h.0, insert-Distinct p q d h.1)

pub erase-IsValidSide : (p : ℕ) (d : Bids) → IsValidSide d → IsValidSide (erase p d)
erase-IsValidSide p d h = (erase-levels p d h.0, erase-Distinct p d h.1)

pub clear-IsValid : (b : OrderBook) → IsValid (clear b)
unfolding clear
clear-IsValid b = record { yes_valid = (tt, tt); no_valid = (tt, tt) }

-- What is found in a valid side is a level.
pub lookup-IsLevel : (p q : ℕ) (d : Bids) → All IsLevel d → lookup p d ≡ some q → IsLevel (p, q)
lookup-IsLevel p q [] h e = cc
lookup-IsLevel p q ((i, w) ∷ d) h e = ground (arith, ==_iff i p, lookup-IsLevel p q d h.1)
