-- ===== src/Backtest/Engine/Owners.antt =====
-- The resting orders of all markets, through the writes of one market's list.
use kalshi_quant_research.Prelude.{
  ℕ, ◌+◌, ◌≤◌, ◌≡◌, refl, sym, ap, ◌∙◌, inl, inr, true, none, some, List, [], ◌∷◌, arith,
  Bool-cases, Option-cases, All, ◌=?◌, nat_key, string_key,
}
use kalshi_quant_research.Prelude.Dict.{
  Dict, lookup, contains, get_or, insert, Distinct, total-insert, total-insert_new,
}
use Prim.{absurd}
use mathlib.Core.Path.{subst}
use kalshi_quant_research.Market.Contracts.{Ticker}
use kalshi_quant_research.Backtest.Fills.{RestingOrder}
use kalshi_quant_research.Backtest.Engine.Matching.{ids_of, find_order}
use kalshi_quant_research.Backtest.Engine.Replay.{find_resting}
use kalshi_quant_research.Backtest.Engine.Reserved.{
  count, Resting, held, IsReserved, EntryReserved, SameBut, other-All, find-All,
}

-- the resting orders of a market
abbrev pub orders_of : Ticker → Resting → List RestingOrder
orders_of t d = get_or t [] d

pub held-insert :
    (i : ℕ) (t : Ticker) (os : List RestingOrder) (d : Resting)
    → held i (insert t os d) + count i (ids_of (orders_of t d)) ≡ held i d + count i (ids_of os)
held-insert i t os d =
    let counted = λ (xs : List RestingOrder). count i (ids_of xs) in
    elim (Option-cases (lookup t d)) [
      | inl gone ↦ rw (gone, get_or) (omega (arith, total-insert_new counted t os d gone))
      | inr (old, found) ↦ rw (found, get_or) (total-insert counted t os old d found)
    ]

pub held-orders : (i : ℕ) (t : Ticker) (d : Resting) → count i (ids_of (orders_of t d)) ≤ held i d
held-orders i t [] = omega arith
held-orders i t ((j, os) ∷ d) = elim (Bool-cases (j =? t)) [
  | inl here ↦ rw (here, get_or) (omega arith)
  | inr there ↦ rw (there, get_or) (omega (arith, held-orders i t d))
]

pub orders-All :
    (t : Ticker) (r : Dict ℕ ℕ) (d : Resting)
    → All (EntryReserved r) d
    → All (IsReserved t r) (orders_of t d)
orders-All t r [] a = tt
orders-All t r ((j, os) ∷ d) a = elim (Bool-cases (j =? t)) [
  | inl here ↦
      rw (here, get_or)
        (subst (λ k. All (IsReserved k r) os) ((string_key.same_iff j t).0 here) a.0)
  | inr there ↦ rw (there, get_or) (orders-All t r d a.1)
]

other-Entries :
    (oid : ℕ) (r s : Dict ℕ ℕ) (d : Resting)
    → SameBut oid r s
    → held oid d ≡ 0
    → All (EntryReserved r) d
    → All (EntryReserved s) d
other-Entries oid r s [] same unheld a = tt
other-Entries oid r s ((j, os) ∷ d) same unheld a =
    (other-All j oid r s os same (omega arith) a.0, other-Entries oid r s d same (omega arith) a.1)

-- A market's list is written, and the reservation of a number that no other market has.
pub put-Entries :
    (oid : ℕ) (r s : Dict ℕ ℕ) (t : Ticker) (os : List RestingOrder) (d : Resting)
    → SameBut oid r s
    → held oid d ≤ count oid (ids_of (orders_of t d))
    → All (EntryReserved r) d
    → All (IsReserved t s) os
    → All (EntryReserved s) (insert t os d)
put-Entries oid r s t os [] same only a new = (new, tt)
put-Entries oid r s t os ((j, xs) ∷ d) same only a new = elim (Bool-cases (j =? t)) [
  | inl here ↦
      let only_here : count oid (ids_of xs) + held oid d ≤ count oid (ids_of xs) =
        rw (here, get_or) at only in
      rw here (
        subst (λ k. All (IsReserved k s) os) (sym ((string_key.same_iff j t).0 here)) new,
        other-Entries oid r s d same (omega arith) a.1,
      )
  | inr there ↦
      let only_later : count oid (ids_of xs) + held oid d ≤ count oid (ids_of (orders_of t d)) =
        rw (there, get_or) at only in
      let most = held-orders oid t d in
      rw there (
        other-All j oid r s xs same (omega arith) a.0,
        put-Entries oid r s t os d same (omega arith) a.1 new,
      )
]

some_inj : (x o : RestingOrder) → some x ≡ some o → x ≡ o
some_inj x o e = cc

orders_here :
    (t j : Ticker) (os : List RestingOrder) (d : Resting) → j ≡ t → orders_of t ((j, os) ∷ d) ≡ os
orders_here t j os d same = rw ((string_key.same_iff j t).1 same, get_or) refl

orders_there :
    (t j : Ticker) (os : List RestingOrder) (d : Resting)
    → lookup j d ≡ none
    → contains t d ≡ true
    → (orders_of t ((j, os) ∷ d) ≡ orders_of t d) × (contains t ((j, os) ∷ d) ≡ true)
orders_there t j os d new held_there = elim (Bool-cases (j =? t)) [
  | inl here ↦
      let same = (string_key.same_iff j t).0 here in
      absurd (ground (arith, subst (λ k. lookup k d ≡ none) same new))
  | inr there ↦ rw (there, get_or, contains) (refl, held_there)
]

-- An order that is found over the markets is found in its own market's list.
pub find_resting-orders :
    (oid : ℕ) (r : Dict ℕ ℕ) (d : Resting) (o : RestingOrder)
    → All (EntryReserved r) d
    → Distinct d
    → find_resting oid d ≡ some o
    → (find_order oid (orders_of o.ticker d) ≡ some o) × (contains o.ticker d ≡ true)
find_resting-orders oid r [] o a keys found = absurd cc
find_resting-orders oid r ((j, os) ∷ d) o a keys found = elim (Option-cases (find_order oid os)) [
  | inl elsewhere ↦
      let later : find_resting oid d ≡ some o = rw (elsewhere, find_resting) at found in
      let (there, known) = find_resting-orders oid r d o a.1 keys.1 later in
      let (same, has) = orders_there o.ticker j os d keys.0 known in (rw same there, has)
  | inr (x, here) ↦
      let is_o : x ≡ o = some_inj x o (rw (here, find_resting) at found) in
      let mine = find-All (IsReserved j r) oid os x a.0 here in
      let ticker : j ≡ o.ticker = sym mine.0 ∙ ap (λ (y : RestingOrder). y.ticker) is_o in
      (
        rw (orders_here o.ticker j os d ticker) (here ∙ ap some is_o),
        rw ((string_key.same_iff j o.ticker).1 ticker, contains) refl,
      )
]
