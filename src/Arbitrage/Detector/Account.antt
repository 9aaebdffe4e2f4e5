-- ===== src/Arbitrage/Detector/Account.antt =====
-- The funnel of a scan against what the scan found.
use kalshi_quant_research.Prelude.{
  ℕ, ◌+◌, ◌≤◌, ◌<◌, String, ◌≡◌, refl, sym, inl, inr, Bool, not, Option, none, some, List, [], ◌∷◌,
  arith, ltb, Bool-cases, Option-cases, length, length-append, All, All-append, In, All-members,
  nat_key, string_key,
}
use kalshi_quant_research.Prelude.Int.{pos, ◌<ℤ◌, ltb_ℤ, max_ℤ}
use kalshi_quant_research.Prelude.Dict.{get_or, insert}
use mathlib.Core.Path.{subst}
use kalshi_quant_research.Market.Relationships.{
  constraints, Constraint, ConstraintCheck, check, asks_from_books,
}
use kalshi_quant_research.Arbitrage.Execution.{
  Books, PricedBundle, SizeResult, net_micro, price_bundle, optimize,
}
use kalshi_quant_research.Arbitrage.Detector.{
  RelationSpec, Opportunity, Funnel, DetectorParams, evaluate, evaluate_sized, makes_profit, plus,
  all_known,
}
use kalshi_quant_research.Arbitrage.Detector.Scan.{
  kind_value, Scan, new_scan, has_key, trade_key, sorted_specs, judge, consider, consider_all,
  scan_specs, detect,
}
use kalshi_quant_research.Arbitrage.Detector.Claims.{candidates_of-In, sorted_specs-All}

-- The counts of a funnel: each constraint has a price or not, but for those that are pending, and each
-- stage is a part of an earlier one.
pub record IsFunnel (pending : ℕ) (f : Funnel) : Type 0 where
  pub judged : f.constraints ≡ f.unpriceable + f.priced + pending
  pub displayed : f.displayed ≤ f.priced
  pub liquid : f.liquid ≤ f.displayed
  pub after_fees : f.after_fees ≤ f.liquid
  pub after_slippage : f.after_slippage ≤ f.liquid
  pub executable : f.executable ≤ f.after_slippage

-- A constraint that a listed relation of the level asked for compiles to, violated at the best asks of
-- the books.
pub record IsViolation (specs : List RelationSpec) (books : Books) (params : DetectorParams)
    (o : Opportunity) : Type 0 where
  pub given : In o.spec specs
  pub compiled : In o.constraint (constraints o.spec.relation)
  pub positive : pos 0 <ℤ o.top_margin
  pub supported : params.min_level ≤ o.spec.level
  pub chk : ConstraintCheck
  pub checked : check (asks_from_books books) o.constraint ≡ some chk
  pub margin : o.top_margin ≡ chk.margin

-- the counts that the stages do not read
same_stages :
    (pending : ℕ) (f g : Funnel)
    → IsFunnel pending f
    → g ≡ record f {
      duplicates = g.duplicates;
      pruned = g.pruned;
      fee_assumed = g.fee_assumed;
      by_class = g.by_class;
      best_margin = g.best_margin;
    }
    → IsFunnel pending g
same_stages pending f g h same = subst (IsFunnel pending) (sym same) (record {
  judged = h.judged;
  displayed = h.displayed;
  liquid = h.liquid;
  after_fees = h.after_fees;
  after_slippage = h.after_slippage;
  executable = h.executable;
})

-- what an evaluation says of its constraint, and the funnel after it
record Evaluated (spec : RelationSpec) (con : Constraint) (chk : ConstraintCheck) (f : Funnel)
    (r : Opportunity × Funnel) : Type 0 where
  is_spec : r.0.spec ≡ spec
  is_con : r.0.constraint ≡ con
  margin : r.0.top_margin ≡ chk.margin
  funnel : IsFunnel 0 r.1
  displayed : (r.1).displayed ≡ f.displayed

-- from a funnel with the liquid constraint counted
sized-Evaluated :
    (spec : RelationSpec) (con : Constraint) (chk : ConstraintCheck) (params : DetectorParams)
    (ts_ns : ℕ) (top : Option PricedBundle) (sized : Option SizeResult) (f : Funnel)
    → IsFunnel 0 f
    → f.after_slippage < f.liquid
    → Evaluated spec con chk f (evaluate_sized spec con chk params ts_ns top sized f)
sized-Evaluated spec con chk params ts_ns top none f h room = record {
  is_spec = refl;
  is_con = refl;
  margin = refl;
  funnel = h;
  displayed = refl;
}
sized-Evaluated spec con chk params ts_ns top (some sized) f h room =
    elim (Bool-cases (ltb_ℤ (pos 0) (net_micro sized.best))) [
      | inr loss ↦
          rw loss
            (record { is_spec = refl; is_con = refl; margin = refl; funnel = h; displayed = refl })
      | inl profit ↦ rw profit (record {
        is_spec = refl;
        is_con = refl;
        margin = refl;
        funnel = record {
          judged = h.judged;
          displayed = h.displayed;
          liquid = h.liquid;
          after_fees = h.after_fees;
          after_slippage = omega (arith, room);
          executable = ground (arith, h.executable);
        };
        displayed = refl;
      })
    ]

evaluate-Evaluated :
    (spec : RelationSpec) (con : Constraint) (chk : ConstraintCheck) (params : DetectorParams)
    (ts_ns : ℕ) (books : Books) (f : Funnel)
    → IsFunnel 0 f
    → f.liquid < f.displayed
    → Evaluated spec con chk f (evaluate spec con chk params ts_ns books f)
evaluate-Evaluated spec con chk params ts_ns books f h room =
    let top = price_bundle con books params.min_qty params.fees in
    let sized = optimize con books params.fees params.lot params.max_size in
    elim (Bool-cases (ltb chk.top_qty params.min_qty)) [
      | inl thin ↦ rw thin (record {
        is_spec = refl;
        is_con = refl;
        margin = refl;
        funnel = same_stages _ _ _ h refl;
        displayed = refl;
      })
      | inr enough ↦
          let counted : Funnel = record f {
            fee_assumed = plus f.fee_assumed (not (all_known params.fees con.legs));
            liquid = f.liquid + 1;
            after_fees = plus f.after_fees (makes_profit top);
          } in
          let ready : IsFunnel 0 counted = record {
            judged = h.judged;
            displayed = h.displayed;
            liquid = omega (arith, room);
            after_fees = ground (arith, h.after_fees);
            after_slippage = omega (arith, h.after_slippage);
            executable = h.executable;
          } in
          let done =
            sized-Evaluated spec con chk params ts_ns top sized counted ready
              (omega (arith, h.after_slippage)) in
          rw enough (record {
            is_spec = done.is_spec;
            is_con = done.is_con;
            margin = done.margin;
            funnel = done.funnel;
            displayed = done.displayed;
          })
    ]

-- The scan so far: its funnel, one opportunity for each violation counted, and each of them a violation.
record IsAccounted (specs : List RelationSpec) (books : Books) (params : DetectorParams) (s : Scan)
    : Type 0 where
  funnel : IsFunnel 0 s.funnel
  counted : (s.funnel).displayed ≡ length s.found
  violations : All (IsViolation specs books params) s.found

module _ (specs : List RelationSpec) (text_below : String → String → Bool) (books : Books)
    (params : DetectorParams) (ts_ns : ℕ) where
  -- a listed relation of the level asked for
  abbrev IsClaim : RelationSpec → Type 0
  IsClaim spec = In spec specs × (params.min_level ≤ spec.level)

  judge-IsAccounted :
      (spec : RelationSpec) (con : Constraint) (chk : ConstraintCheck) (s : Scan)
      → IsClaim spec
      → In con (constraints spec.relation)
      → check (asks_from_books books) con ≡ some chk
      → IsFunnel 1 s.funnel
      → (s.funnel).displayed ≡ length s.found
      → All (IsViolation specs books params) s.found
      → IsAccounted specs books params (judge text_below books params ts_ns spec con chk s)
  unfolding judge
  judge-IsAccounted spec con chk s claim compiled checked h counted found =
      let f = s.funnel in
      let kind = kind_value con.kind in
      let margins =
        insert kind (max_ℤ chk.margin (get_or kind chk.margin f.best_margin)) f.best_margin in
      let shown : Funnel = record f {
        priced = f.priced + 1;
        best_margin = margins;
        displayed = f.displayed + 1;
      } in
      let shown_is : IsFunnel 0 shown = record {
        judged = omega (arith, h.judged);
        displayed = omega (arith, h.displayed);
        liquid = omega (arith, h.liquid);
        after_fees = h.after_fees;
        after_slippage = h.after_slippage;
        executable = h.executable;
      } in
      let r = evaluate spec con chk params ts_ns books shown in
      let e =
        evaluate-Evaluated spec con chk params ts_ns books shown shown_is
          (omega (arith, h.liquid)) in
      elim (Bool-cases (ltb_ℤ (pos 0) chk.margin)) [
        | inr quiet ↦ rw quiet (record {
          funnel = record {
            judged = omega (arith, h.judged);
            displayed = omega (arith, h.displayed);
            liquid = h.liquid;
            after_fees = h.after_fees;
            after_slippage = h.after_slippage;
            executable = h.executable;
          };
          counted = counted;
          violations = found;
        })
        | inl violated ↦
            let margin : pos 0 <ℤ chk.margin = ground arith in
            let is_violation : IsViolation specs books params r.0 = record {
              given = rw e.is_spec claim.0;
              compiled = rw (e.is_spec, e.is_con) compiled;
              positive = rw e.margin margin;
              supported = rw e.is_spec claim.1;
              chk = chk;
              checked = rw e.is_con checked;
              margin = e.margin;
            } in
            rw violated (record {
              funnel = same_stages _ _ _ e.funnel refl;
              counted = omega (arith, e.displayed, counted, length-append s.found (r.0 ∷ []));
              violations =
                  All-append (IsViolation specs books params) s.found (r.0 ∷ []) found
                    (is_violation, tt);
            })
      ]

  consider-IsAccounted :
      (spec : RelationSpec) (con : Constraint) (s : Scan)
      → IsClaim spec
      → In con (constraints spec.relation)
      → IsAccounted specs books params s
      → IsAccounted specs books params (consider text_below books params ts_ns spec con s)
  unfolding consider
  consider-IsAccounted spec con s claim compiled h =
      elim (Bool-cases (has_key (trade_key text_below con) s.seen)) [
        | inl known ↦ rw known (record {
          funnel = same_stages _ _ _ h.funnel refl;
          counted = h.counted;
          violations = h.violations;
        })
        | inr fresh ↦ elim (Option-cases (check (asks_from_books books) con)) [
          | inl unpriced ↦
              rw (fresh, unpriced)
                (record {
                  funnel = record {
                    judged = omega (arith, (h.funnel).judged);
                    displayed = (h.funnel).displayed;
                    liquid = (h.funnel).liquid;
                    after_fees = (h.funnel).after_fees;
                    after_slippage = (h.funnel).after_slippage;
                    executable = (h.funnel).executable;
                  };
                  counted = h.counted;
                  violations = h.violations;
                })
          | inr (chk, checked) ↦
              rw (fresh, checked)
                (judge-IsAccounted spec con chk _ claim compiled checked
                  (record {
                    judged = omega (arith, (h.funnel).judged);
                    displayed = (h.funnel).displayed;
                    liquid = (h.funnel).liquid;
                    after_fees = (h.funnel).after_fees;
                    after_slippage = (h.funnel).after_slippage;
                    executable = (h.funnel).executable;
                  })
                  h.counted h.violations)
        ]
      ]

  consider_all-IsAccounted :
      (spec : RelationSpec) (cons : List Constraint) (s : Scan)
      → IsClaim spec
      → ((c : Constraint) → In c cons → In c (constraints spec.relation))
      → IsAccounted specs books params s
      → IsAccounted specs books params (consider_all text_below books params ts_ns spec cons s)
  unfolding consider_all
  consider_all-IsAccounted spec [] s claim compiled h = h
  consider_all-IsAccounted spec (con ∷ cons) s claim compiled h =
      consider_all-IsAccounted spec cons _ claim (λ c i. compiled c (inr i))
        (consider-IsAccounted spec con s claim (compiled con (inl refl)) h)

  scan_specs-IsAccounted :
      (left : List RelationSpec) (s : Scan)
      → All (λ spec. In spec specs) left
      → IsAccounted specs books params s
      → IsAccounted specs books params (scan_specs text_below books params ts_ns left s)
  unfolding scan_specs
  scan_specs-IsAccounted [] s listed h = h
  scan_specs-IsAccounted (spec ∷ left) s listed h =
      elim (Bool-cases (ltb spec.level params.min_level)) [
        | inl weak ↦ rw weak (scan_specs-IsAccounted left s listed.1 h)
        | inr supported ↦ rw supported (
            scan_specs-IsAccounted left _ listed.1 (
              consider_all-IsAccounted spec _ _ (listed.0, ground arith)
                (λ c i. candidates_of-In (asks_from_books books) spec.relation c i)
                (record {
                  funnel = same_stages _ _ _ h.funnel refl;
                  counted = h.counted;
                  violations = h.violations;
                })))
      ]

  -- After a scan the funnel adds up: each constraint has a price or not, each stage is a part of the one
  -- that it is reached from, and the violations displayed are the opportunities found. Each of those names
  -- one of the relations, of the level asked for, and a constraint that this relation compiles to, which
  -- the best asks of the books violate with that margin.
  pub detect_accounts :
      let r = detect text_below books params ts_ns specs in
      IsFunnel 0 r.1 × ((r.1).displayed ≡ length r.0) × All (IsViolation specs books params) r.0
  unfolding detect
  detect_accounts =
      let done =
        scan_specs-IsAccounted (sorted_specs specs) new_scan
          (sorted_specs-All (λ spec. In spec specs) specs (All-members specs))
          (record {
            funnel = record {
              judged = refl;
              displayed = omega arith;
              liquid = omega arith;
              after_fees = omega arith;
              after_slippage = omega arith;
              executable = omega arith;
            };
            counted = refl;
            violations = tt;
          }) in
      (done.funnel, done.counted, done.violations)
