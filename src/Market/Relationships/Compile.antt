-- ===== src/Market/Relationships/Compile.antt =====
-- The compilation of relations to constraints is sound and characterises each relation.
use kalshi_quant_research.Prelude.{
  ◌≤◌, ◌≡◌, refl, ◌↔◌, inl, inr, Bool, true, false, List, [], ◌∷◌, arith, ◌==◌, if◌then◌else◌,
  Bool-cases, length, sum_by, All, All-append, All-split, ok, nat_key, string_key,
}
use kalshi_quant_research.Market.Contracts.{Ticker}
use kalshi_quant_research.Market.Relationships.{
  World, any_yes, Constraint, world_payoff, mutex_constraint, cover_constraint, union_cover,
  union_sum, implies_all, implied_by, chain_constraints, nondecreasing, Relation, complement_of,
  mutually_exclusive, exhaustive, partition, chain, implies, union_of, make, constraints,
  admissible,
}
use kalshi_quant_research.Market.Relationships.Sums.{
  IsBinary, yes_legs_pay, no_legs_pay, any_yes_sum, implies_pays, first-le,
}

-- The world settles the constraint at its floor or above.
abbrev pub Pays : World → Constraint → Type 0
Pays w c = c.bound ≤ world_payoff c w

-- the relations that the constructors accept
abbrev pub IsMade : Relation → Type 0
IsMade r = make r ≡ ok r

two_exclusive : (ts : List Ticker) → IsMade (mutually_exclusive ts) → 2 ≤ length ts
unfolding make
two_exclusive ts e = ground arith

two_outcomes : (ts : List Ticker) → IsMade (partition ts) → 2 ≤ length ts
unfolding make
two_outcomes ts e = ground arith

two_parts :
    (ts : List Ticker) (whole : Ticker) (d : Bool) → IsMade (union_of ts whole d) → 2 ≤ length ts
unfolding make
two_parts ts whole d e = ground arith

module _ (w : World) (bin : IsBinary w) where
  mutex-Pays : (ts : List Ticker) → 1 ≤ length ts → (sum_by w ts ≤ 1) ↔ Pays w (mutex_constraint ts)
  unfolding world_payoff
  mutex-Pays ts n =
      (λ h. omega (arith, no_legs_pay w ts bin), λ h. omega (arith, no_legs_pay w ts bin))

  cover-Pays : (ts : List Ticker) → (1 ≤ sum_by w ts) ↔ Pays w (cover_constraint ts)
  unfolding world_payoff
  cover-Pays ts = (λ h. omega (arith, yes_legs_pay w ts), λ h. omega (arith, yes_legs_pay w ts))

  implies_all-Pays :
      (a : Ticker) (ts : List Ticker) → All (λ t. w a ≤ w t) ts ↔ All (Pays w) (implies_all a ts)
  implies_all-Pays a [] = (λ h. tt, λ h. tt)
  implies_all-Pays a (t ∷ ts) = (
    λ h. ((implies_pays w a t bin).1 h.0, (implies_all-Pays a ts).0 h.1),
    λ h. ((implies_pays w a t bin).0 h.0, (implies_all-Pays a ts).1 h.1),
  )

  implied_by-Pays :
      (ts : List Ticker) (b : Ticker) → All (λ t. w t ≤ w b) ts ↔ All (Pays w) (implied_by ts b)
  implied_by-Pays [] b = (λ h. tt, λ h. tt)
  implied_by-Pays (t ∷ ts) b = (
    λ h. ((implies_pays w t b bin).1 h.0, (implied_by-Pays ts b).0 h.1),
    λ h. ((implies_pays w t b bin).0 h.0, (implied_by-Pays ts b).1 h.1),
  )

  chain-Pays :
      (ts : List Ticker) → (nondecreasing w ts ≡ true) ↔ All (Pays w) (chain_constraints ts)
  chain-Pays [] = (λ h. tt, λ h. refl)
  chain-Pays (a ∷ []) = (λ h. tt, λ h. refl)
  chain-Pays (a ∷ b ∷ ts) =
      let (to, from) = chain-Pays (b ∷ ts) in
      (
        λ h.
            All-append (Pays w) (implies_all a (b ∷ ts)) (chain_constraints (b ∷ ts))
              ((implies_all-Pays a (b ∷ ts)).0 (first-le w a (b ∷ ts) h)) (to (ground arith)),
        λ h.
            let (firsts, rest) =
              All-split (Pays w) (implies_all a (b ∷ ts)) (chain_constraints (b ∷ ts)) h in
            ground (arith, (implies_all-Pays a (b ∷ ts)).1 firsts, from rest),
      )

  union_cover-Pays :
      (parts : List Ticker) (whole : Ticker)
      → (w whole ≤ sum_by w parts) ↔ Pays w (union_cover parts whole)
  unfolding world_payoff
  union_cover-Pays parts whole = (
    λ h. omega (arith, yes_legs_pay w parts, bin whole),
    λ h. omega (arith, yes_legs_pay w parts, bin whole),
  )

  union_sum-Pays :
      (parts : List Ticker) (whole : Ticker)
      → (sum_by w parts ≤ w whole) ↔ Pays w (union_sum parts whole)
  unfolding world_payoff
  union_sum-Pays parts whole =
      (λ h. omega (arith, no_legs_pay w parts bin), λ h. omega (arith, no_legs_pay w parts bin))

  -- `whole` is YES exactly when some part is
  any_iff_bounds :
      (parts : List Ticker) (whole : Ticker)
      → ((w whole == (if any_yes w parts then 1 else 0)) ≡ true)
        ↔ ((w whole ≤ sum_by w parts) × (any_yes w parts ≡ true → 1 ≤ w whole))
  any_iff_bounds parts whole = elim (Bool-cases (any_yes w parts)) [
    | inl found ↦ rw found (
      λ h. (ground (arith, (any_yes_sum w parts).0 found), λ _. ground arith),
      λ h. ground (arith, h.1 refl, bin whole),
    )
    | inr empty ↦
        rw empty
          (λ h. (ground arith, λ e. cc), λ h. ground (arith, h.0, (any_yes_sum w parts).1 empty))
  ]

  union_disjoint-Pays :
      (parts : List Ticker) (whole : Ticker)
      → 2 ≤ length parts
      → (admissible (union_of parts whole true) w ≡ true)
        ↔ All (Pays w) (constraints (union_of parts whole true))
  unfolding admissible constraints
  union_disjoint-Pays parts whole n =
      let (covers, covers') = union_cover-Pays parts whole in
      let (sums, sums') = union_sum-Pays parts whole in
      let (mutex, mutex') = mutex-Pays parts (omega arith) in
      let (bounds, bounds') = any_iff_bounds parts whole in
      let (some_yes, all_no) = any_yes_sum w parts in
      (
        λ h.
            let (cover, any) = bounds (ground arith) in
            let one : sum_by w parts ≤ 1 = ground arith in
            let sum : sum_by w parts ≤ w whole = elim (Bool-cases (any_yes w parts)) [
              | inl found ↦ omega (arith, any found, one)
              | inr empty ↦ omega (arith, all_no empty)
            ] in
            (covers cover, (sums sum, (mutex one, tt))),
        λ h.
            let sum = sums' h.1.0 in
            let one = mutex' h.1.1.0 in
            let whole_any = bounds' (covers' h.0, λ e. omega (arith, some_yes e, sum)) in
            ground arith,
      )

  below_whole :
      (parts : List Ticker) (whole : Ticker)
      → (any_yes w parts ≡ true → 1 ≤ w whole) ↔ All (λ t. w t ≤ w whole) parts
  below_whole [] whole = (λ h. tt, λ h e. cc)
  below_whole (t ∷ ts) whole =
      let (to, from) = below_whole ts whole in
      (λ h. (ground (arith, bin t), to (λ e. h (ground arith))), λ h e. ground (arith, from h.1))

  union_overlapping-Pays :
      (parts : List Ticker) (whole : Ticker)
      → (admissible (union_of parts whole false) w ≡ true)
        ↔ All (Pays w) (constraints (union_of parts whole false))
  unfolding admissible constraints
  union_overlapping-Pays parts whole =
      let (bounds, bounds') = any_iff_bounds parts whole in
      (
        λ h.
            let (cover, any) = bounds (ground arith) in
            (
              (union_cover-Pays parts whole).0 cover,
              (implied_by-Pays parts whole).0 ((below_whole parts whole).0 any),
            ),
        λ h.
            let whole_any = bounds' (
              (union_cover-Pays parts whole).1 h.0,
              (below_whole parts whole).1 ((implied_by-Pays parts whole).1 h.1),
            ) in
            ground arith,
      )

-- For every relation that can be constructed and every world of zeros and ones: the relation admits
-- the world exactly when the world settles every compiled constraint at its floor or above.
pub compiled_exactly :
    (r : Relation) (w : World)
    → IsMade r
    → IsBinary w
    → (admissible r w ≡ true) ↔ All (Pays w) (constraints r)
unfolding admissible constraints
compiled_exactly (complement_of t) w m b =
    (λ h. (unfold world_payoff in omega (arith, b t), tt), λ h. refl)
compiled_exactly (mutually_exclusive ts) w m b =
    let (to, from) = mutex-Pays w b ts (omega (arith, two_exclusive ts m)) in
    (λ h. (to (ground arith), tt), λ h. ground (arith, from h.0))
compiled_exactly (exhaustive ts) w m b =
    let (to, from) = cover-Pays w b ts in
    (λ h. (to (ground arith), tt), λ h. ground (arith, from h.0))
compiled_exactly (partition ts) w m b =
    let (to, from) = mutex-Pays w b ts (omega (arith, two_outcomes ts m)) in
    let (to', from') = cover-Pays w b ts in
    (λ h. (to (ground arith), (to' (ground arith), tt)), λ h. ground (arith, from h.0, from' h.1.0))
compiled_exactly (chain ts) w m b = chain-Pays w b ts
compiled_exactly (implies x y) w m b =
    let (from, to) = implies_pays w x y b in
    (λ h. (to (ground (arith, b x, b y)), tt), λ h. ground (arith, from h.0, b x, b y))
compiled_exactly (union_of parts whole true) w m b =
    union_disjoint-Pays w b parts whole (two_parts parts whole true m)
compiled_exactly (union_of parts whole false) w m b = union_overlapping-Pays w b parts whole
