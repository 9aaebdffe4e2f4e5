-- ===== src/Backtest/Engine/Reserved.antt =====
-- The reservations of the resting orders: each order's number is used once, and its reservation is its
-- price times what it has left.
use kalshi_quant_research.Prelude.{
  ℕ, ◌+◌, ◌*◌, ◌≤◌, ◌<◌, ◌≡◌, refl, sym, ap, ◌∙◌, ◌≢◌, inl, inr, some, List, [], ◌∷◌, arith, ltb,
  ◌==◌, if◌then◌else◌, ==_iff, Bool-cases, All, nat_key, string_key,
}
use kalshi_quant_research.Prelude.Dict.{Dict, lookup, Distinct, total}
use Prim.{absurd}
use mathlib.Core.Path.{subst}
use kalshi_quant_research.Market.Contracts.{Ticker}
use kalshi_quant_research.Backtest.Fills.{RestingOrder}
use kalshi_quant_research.Backtest.Engine.State.{
  Payload, order_payload, cancel_payload, fill_payload, rejected_payload, wake_payload, Scheduled,
  Engine, before, push,
}
use kalshi_quant_research.Backtest.Engine.Matching.{
  ids_of, find_order, replace_order, without_order,
}

-- how often a number stands in a list
abbrev pub count : ℕ → List ℕ → ℕ
count i [] = 0
count i (x ∷ xs) = (if x == i then 1 else 0) + count i xs

-- the numbers of the orders on the schedule
abbrev pub ids_in : Payload → List ℕ
ids_in (order_payload oid order) = oid ∷ []
ids_in (cancel_payload oid) = []
ids_in (fill_payload n) = []
ids_in (rejected_payload n) = []
ids_in (wake_payload n) = []

abbrev pub queued : ℕ → List Scheduled → ℕ
queued i [] = 0
queued i (x ∷ heap) = count i (ids_in x.payload) + queued i heap

abbrev pub Resting : Type 0
Resting = Dict Ticker (List RestingOrder)

-- how often a number rests
abbrev pub held : ℕ → Resting → ℕ
held i = total (λ (os : List RestingOrder). count i (ids_of os))

abbrev pub bound : ℕ → ℕ → ℕ
bound i next = if ltb i next then 1 else 0

-- An order of a market, with its reservation.
abbrev pub IsReserved : Ticker → Dict ℕ ℕ → RestingOrder → Type 0
IsReserved t reserved o = (o.ticker ≡ t) × (lookup o.order_id reserved ≡ some (o.price * o.qty))

abbrev pub EntryReserved : Dict ℕ ℕ → Ticker × List RestingOrder → Type 0
EntryReserved reserved x = All (IsReserved x.0 reserved) x.1

-- The numbers in use, with those of `out`, which neither wait nor rest: each is used once, and was given
-- out; and the orders rest with their reservations.
pub record IsTidy (out : List ℕ) (e : Engine) : Type 0 where
  pub once : (i : ℕ) → count i out + queued i e.heap + held i e.resting ≤ bound i e.next_order_id
  pub reserved : All (EntryReserved e.reserved) e.resting
  pub keys : Distinct e.resting

pub queued-push :
    (i : ℕ) (x : Scheduled) (heap : List Scheduled)
    → queued i (push x heap) ≡ count i (ids_in x.payload) + queued i heap
unfolding push
queued-push i x [] = refl
queued-push i x (y ∷ ys) = elim (Bool-cases (before x y)) [
  | inl first ↦ rw first refl
  | inr later ↦ rw later (omega (arith, queued-push i x ys))
]

-- replaced orders keep their numbers
pub count-replace :
    (i : ℕ) (o : RestingOrder) (os : List RestingOrder)
    → count i (ids_of (replace_order o os)) ≡ count i (ids_of os)
count-replace i o [] = refl
count-replace i o (x ∷ xs) = ground (arith, count-replace i o xs)

pub count-without :
    (i oid : ℕ) (os : List RestingOrder)
    → count i (ids_of (without_order oid os)) ≤ count i (ids_of os)
count-without i oid [] = omega arith
count-without i oid (x ∷ xs) = ground (arith, count-without i oid xs)

pub count-find :
    (oid : ℕ) (os : List RestingOrder) (o : RestingOrder)
    → find_order oid os ≡ some o
    → (o.order_id ≡ oid) × (0 < count oid (ids_of os))
count-find oid [] o found = absurd cc
count-find oid (x ∷ xs) o found = elim (Bool-cases (x.order_id == oid)) [
  | inl here ↦
      let same : x ≡ o = cc in
      (
        ap (λ (y : RestingOrder). y.order_id) (sym same) ∙ (==_iff x.order_id oid).0 here,
        ground arith,
      )
  | inr there ↦ let ih = count-find oid xs o (rw there at found) in (ih.0, omega (arith, ih.1))
]

pub find-All :
    (P : RestingOrder → Type 0) (oid : ℕ) (os : List RestingOrder) (o : RestingOrder)
    → All P os
    → find_order oid os ≡ some o
    → P o
find-All P oid [] o a found = absurd cc
find-All P oid (x ∷ xs) o a found = elim (Bool-cases (x.order_id == oid)) [
  | inl here ↦ let same : x ≡ o = cc in subst P same a.0
  | inr there ↦ find-All P oid xs o a.1 (rw there at found)
]

-- two sets of reservations that differ at one number at most
abbrev pub SameBut : ℕ → Dict ℕ ℕ → Dict ℕ ℕ → Type 0
SameBut oid r s = (j : ℕ) → oid ≢ j → lookup j s ≡ lookup j r

ne_of_count : (oid j : ℕ) (xs : List ℕ) → count oid (j ∷ xs) ≡ 0 → oid ≢ j
ne_of_count oid j xs zero_count same = absurd (ground arith)

-- the orders of other numbers keep their reservations
pub other-All :
    (t : Ticker) (oid : ℕ) (r s : Dict ℕ ℕ) (os : List RestingOrder)
    → SameBut oid r s
    → count oid (ids_of os) ≡ 0
    → All (IsReserved t r) os
    → All (IsReserved t s) os
other-All t oid r s [] same zero_count a = tt
other-All t oid r s (x ∷ xs) same zero_count a = (
  (a.0.0, same x.order_id (ne_of_count oid x.order_id (ids_of xs) zero_count) ∙ a.0.1),
  other-All t oid r s xs same (ground arith) a.1,
)

pub replace-All :
    (t : Ticker) (r s : Dict ℕ ℕ) (o : RestingOrder) (os : List RestingOrder)
    → SameBut o.order_id r s
    → IsReserved t s o
    → All (IsReserved t r) os
    → All (IsReserved t s) (replace_order o os)
replace-All t r s o [] same new a = tt
replace-All t r s o (x ∷ xs) same new a = elim (Bool-cases (x.order_id == o.order_id)) [
  | inl here ↦ rw here (new, replace-All t r s o xs same new a.1)
  | inr there ↦
      rw there
        ((a.0.0, same x.order_id (ground arith) ∙ a.0.1), replace-All t r s o xs same new a.1)
]

pub without-All :
    (t : Ticker) (oid : ℕ) (r s : Dict ℕ ℕ) (os : List RestingOrder)
    → SameBut oid r s
    → All (IsReserved t r) os
    → All (IsReserved t s) (without_order oid os)
without-All t oid r s [] same a = tt
without-All t oid r s (x ∷ xs) same a = elim (Bool-cases (x.order_id == oid)) [
  | inl here ↦ rw here (without-All t oid r s xs same a.1)
  | inr there ↦
      rw there ((a.0.0, same x.order_id (ground arith) ∙ a.0.1), without-All t oid r s xs same a.1)
]
