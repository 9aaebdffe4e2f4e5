-- ===== src/Backtest/Engine/Causality.antt =====
-- What a replay has done by a moment, and what it had read by then.
use kalshi_quant_research.Prelude.{
  ℕ, zero, suc, ◌≤◌, ◌<◌, ◌≡◌, refl, sym, ap, inl, inr, Bool, true, false, List, [], ◌∷◌, arith,
  ltb, leb, ◌==◌, if◌then◌else◌, leb→le, Bool-cases, Error, Result, ok, err, ◌>>=◌, raise_if,
  nat_key, string_key,
}
use mathlib.Core.Path.{subst}
use Prim.{⊥, absurd}
use kalshi_quant_research.Market.Contracts.{Ticker}
use kalshi_quant_research.Backtest.Events.{FeedEvent, event_ts}
use kalshi_quant_research.Backtest.Engine.State.{BacktestConfig, Scheduled, Engine, new_engine}
use kalshi_quant_research.Backtest.Engine.Context.{Strategy, run_script}
use kalshi_quant_research.Backtest.Engine.Replay.{
  Replay, Choice, finished, from_feed, from_heap, choose, not_after, at_time, same_instant,
  apply_batch, notify_batch, dispatch, begin, batch_turn, feed_turn, heap_turn, turn, start,
}

-- A feed of which nothing is known by `T`.
abbrev pub NoneBy : ℕ → List FeedEvent → Type 0
NoneBy T [] = Unit
NoneBy T (ev ∷ feed) = T < event_ts ev

-- Two feeds with the same events by `T`; what comes after may be anything.
pub data Agree (T : ℕ) : List FeedEvent → List FeedEvent → Type 0 where
  late : {f g : List FeedEvent} → NoneBy T f → NoneBy T g → Agree T f g
  known :
      {f g : List FeedEvent}
      → (ev : FeedEvent) → event_ts ev ≤ T
      → Agree T f g
      → Agree T (ev ∷ f) (ev ∷ g)

-- Results of one outcome: the same exception, or values in the relation.
abbrev pub BothOk : {A : Type 0} → (A → A → Type 0) → Result A → Result A → Type 0
BothOk R (err x) (err y) = x ≡ y
BothOk R (ok a) (ok b) = R a b
BothOk R (err x) (ok b) = ⊥
BothOk R (ok a) (err y) = ⊥

-- one call, and then two continuations
>>=-BothOk :
    {A B : Type 0} (R : B → B → Type 0) (r : Result A) (f g : A → Result B)
    → ((a : A) → BothOk R (f a) (g a))
    → BothOk R (r >>= f) (r >>= g)
>>=-BothOk R (err x) f g h = refl
>>=-BothOk R (ok a) f g h = h a

-- two calls of one outcome, and one continuation each
after-BothOk :
    {A B : Type 0} (Q : A → A → Type 0) (R : B → B → Type 0) (r s : Result A) (f g : A → Result B)
    → BothOk Q r s
    → ((a b : A) → Q a b → BothOk R (f a) (g b))
    → BothOk R (r >>= f) (s >>= g)
after-BothOk Q R (err x) (err y) f g q h = q
after-BothOk Q R (ok a) (ok b) f g q h = h a b q
after-BothOk Q R (err x) (ok b) f g q h = absurd q
after-BothOk Q R (ok a) (err y) f g q h = absurd q

module _ {S : Type 0} where
  -- Replays that differ at most in what is not known by `T`.
  abbrev pub Same : ℕ → Replay S → Replay S → Type 0
  Same T r r' = Agree T r.feed r'.feed × (r' ≡ record r { feed = r'.feed })

-- the time of what the loop does next
abbrev pub is_due : ℕ → Choice → Bool
is_due T finished = false
is_due T (from_feed ev rest) = leb (event_ts ev) T
is_due T (from_heap top heap) = leb top.ts_ns T

none-same_instant :
    (T ts : ℕ) (f : List FeedEvent) → ts ≤ T → NoneBy T f → same_instant ts f ≡ ([], f)
none-same_instant T ts [] le none_f = refl
none-same_instant T ts (ev ∷ f) le none_f = ground arith

same_instant-Agree :
    (T ts : ℕ) (f g : List FeedEvent)
    → ts ≤ T
    → Agree T f g
    → ((same_instant ts f).0 ≡ (same_instant ts g).0)
      × Agree T (same_instant ts f).1 (same_instant ts g).1
same_instant-Agree T ts f g le (late none_f none_g) =
    rw (none-same_instant T ts f le none_f, none-same_instant T ts g le none_g)
      (refl, late none_f none_g)
same_instant-Agree T ts _ _ le (known {f} {g} ev due agree) =
    let ih = same_instant-Agree T ts f g le agree in
    elim (Bool-cases (event_ts ev == ts)) [
      | inl now ↦ rw now (ap (λ evs. ev ∷ evs) ih.0, ih.1)
      | inr later ↦ rw later (refl, known ev due agree)
    ]

-- Two choices of one step, due by `T`, or of which neither is due.
data Chosen (T : ℕ) : Choice → Choice → Type 0 where
  neither : {c d : Choice} → is_due T c ≡ false → is_due T d ≡ false → Chosen T c d
  both_heap :
      (top : Scheduled) (heap : List Scheduled) → Chosen T (from_heap top heap) (from_heap top heap)
  both_feed :
      (ev : FeedEvent) {f g : List FeedEvent}
      → event_ts ev ≤ T
      → Agree T f g
      → Chosen T (from_feed ev f) (from_feed ev g)

-- a late feed waits for what is due of the schedule
late-choose :
    (T : ℕ) (f : List FeedEvent) (top : Scheduled) (heap : List Scheduled)
    → NoneBy T f
    → top.ts_ns ≤ T
    → choose f (top ∷ heap) ≡ from_heap top heap
unfolding choose
late-choose T [] top heap none_f due = refl
late-choose T (ev ∷ f) top heap none_f due = ground arith

late-choose_none : (T : ℕ) (f : List FeedEvent) → NoneBy T f → is_due T (choose f []) ≡ false
unfolding choose
late-choose_none T [] none_f = refl
late-choose_none T (ev ∷ f) none_f = ground arith

late-choose_late :
    (T : ℕ) (f : List FeedEvent) (top : Scheduled) (heap : List Scheduled)
    → NoneBy T f
    → T < top.ts_ns
    → is_due T (choose f (top ∷ heap)) ≡ false
unfolding choose
late-choose_late T [] top heap none_f due = ground arith
late-choose_late T (ev ∷ f) top heap none_f due = elim (Bool-cases (not_after ev top)) [
  | inl first ↦ rw first (ground arith)
  | inr after ↦ rw after (ground arith)
]

late-Chosen :
    (T : ℕ) (f g : List FeedEvent) (heap : List Scheduled)
    → NoneBy T f
    → NoneBy T g
    → Chosen T (choose f heap) (choose g heap)
late-Chosen T f g [] none_f none_g =
    neither (late-choose_none T f none_f) (late-choose_none T g none_g)
late-Chosen T f g (top ∷ heap) none_f none_g = elim (Bool-cases (leb top.ts_ns T)) [
  | inl due ↦
      let le = leb→le top.ts_ns T due in
      rw (late-choose T f top heap none_f le, late-choose T g top heap none_g le)
        (both_heap top heap)
  | inr later ↦
      let le : T < top.ts_ns = ground arith in
      neither (late-choose_late T f top heap none_f le) (late-choose_late T g top heap none_g le)
]

choose-Chosen :
    (T : ℕ) (f g : List FeedEvent) (heap : List Scheduled)
    → Agree T f g
    → Chosen T (choose f heap) (choose g heap)
unfolding choose
choose-Chosen T f g heap (late none_f none_g) = late-Chosen T f g heap none_f none_g
choose-Chosen T _ _ [] (known ev due agree) = both_feed ev due agree
choose-Chosen T _ _ (top ∷ heap) (known ev due agree) = elim (Bool-cases (not_after ev top)) [
  | inl first ↦ rw first (both_feed ev due agree)
  | inr after ↦ rw after (both_heap top heap)
]

module _ (cfg : BacktestConfig) {S : Type 0} (strategy : Strategy S) where
  heap_turn-Same :
      (T : ℕ) (top : Scheduled) (heap : List Scheduled) (r : Replay S) (g : List FeedEvent)
      → Agree T r.feed g
      → BothOk
          (Same T)
          (heap_turn cfg strategy top heap r)
          (heap_turn cfg strategy top heap (record r { feed = g }))
  unfolding heap_turn
  heap_turn-Same T top heap r g agree =
      >>=-BothOk (Same T)
        (dispatch cfg strategy top.payload
          (r.memory, at_time top.ts_ns (record r.engine { heap = heap })))
        _ _ (λ x. (agree, refl))

  batch_turn-Same :
      (T ts : ℕ) (batch f g : List FeedEvent) (r : Replay S) (g' : List FeedEvent)
      → Agree T f g
      → BothOk
          (Same T)
          (batch_turn cfg strategy ts batch f r)
          (batch_turn cfg strategy ts batch g (record r { feed = g' }))
  unfolding batch_turn
  batch_turn-Same T ts batch f g r g' agree =
      >>=-BothOk (Same T)
        (apply_batch cfg strategy batch (begin cfg strategy r.started (at_time ts r.engine))) _ _
        (λ applied.
          >>=-BothOk (Same T) (notify_batch cfg strategy batch (r.memory, applied)) _ _
            (λ told. (agree, refl)))

  feed_turn-Same :
      (T : ℕ) (ev : FeedEvent) (f g : List FeedEvent) (r : Replay S) (g' : List FeedEvent)
      → event_ts ev ≤ T
      → Agree T f g
      → BothOk
          (Same T)
          (feed_turn cfg strategy ev f r)
          (feed_turn cfg strategy ev g (record r { feed = g' }))
  unfolding feed_turn
  feed_turn-Same T ev f g r g' due agree =
      let split = same_instant-Agree T (event_ts ev) f g due agree in
      >>=-BothOk (Same T) (raise_if (ltb (event_ts ev) r.engine.now) Error.value_error) _ _
        (λ on. rw (sym split.0) (batch_turn-Same T (event_ts ev) _ _ _ r g' split.1))

  -- the turns that a replay takes by `T`, `n` of them at most
  unfoldable pub turns_until : ℕ → ℕ → Replay S → Result (Replay S)
  turns_until T zero r = ok r
  turns_until T (suc n) r =
      let next = turn cfg strategy r >>= turns_until T n in
      if is_due T (choose r.feed r.engine.heap) then next else ok r

  abbrev by_choice : Choice → Replay S → Result (Replay S)
  by_choice c r = elim c [
    | finished ↦ ok r
    | from_feed ev rest ↦ feed_turn cfg strategy ev rest r
    | from_heap top heap ↦ heap_turn cfg strategy top heap r
  ]

  -- one step of the loop, from choices of one step
  step-Same :
      (T n : ℕ) (c d : Choice) (r : Replay S) (g : List FeedEvent)
      → Agree T r.feed g
      → Chosen T c d
      → ((a b : Replay S) → Same T a b → BothOk (Same T) (turns_until T n a) (turns_until T n b))
      → BothOk (Same T) (if is_due T c then (by_choice c r >>= turns_until T n) else ok r) (
          if is_due T d
          then (by_choice d (record r { feed = g }) >>= turns_until T n)
          else ok (record r { feed = g }))
  step-Same T n c d r g agree (neither not_c not_d) rest = rw (not_c, not_d) (agree, refl)
  step-Same T n _ _ r g agree (both_heap top heap) rest = elim (Bool-cases (leb top.ts_ns T)) [
    | inr late_top ↦ rw late_top (agree, refl)
    | inl due ↦
        rw due (after-BothOk (Same T) (Same T) _ _ _ _ (heap_turn-Same T top heap r g agree) rest)
  ]
  step-Same T n _ _ r g agree (both_feed ev due agree_rest) rest =
      let is_now : leb (event_ts ev) T ≡ true = ground arith in
      rw is_now
        (after-BothOk (Same T) (Same T) _ _ _ _ (feed_turn-Same T ev _ _ r g due agree_rest) rest)

  turns_until-Same :
      (T n : ℕ) (r : Replay S) (g : List FeedEvent)
      → Agree T r.feed g
      → BothOk (Same T) (turns_until T n r) (turns_until T n (record r { feed = g }))
  unfolding turns_until turn
  turns_until-Same T zero r g agree = (agree, refl)
  turns_until-Same T (suc n) r g agree =
      step-Same T n (choose r.feed r.engine.heap) (choose g r.engine.heap) r g agree
        (choose-Chosen T r.feed g r.engine.heap agree)
        (λ a b same.
          subst (λ x. BothOk (Same T) (turns_until T n a) (turns_until T n x)) (sym same.1)
            (turns_until-Same T n a b.feed same.0))

  -- the engine and the strategy's own state after the turns of a replay by `T`, `n` of them at most
  unfoldable pub observe : ℕ → ℕ → List Ticker → S → List FeedEvent → Result (Engine × S)
  observe T n tickers s feed = start cfg strategy tickers s feed >>= λ begun.
      turns_until T n begun >>= λ r. ok (r.engine, r.memory)

  BothOk-eq : {A : Type 0} (r s : Result A) → BothOk (λ a b. a ≡ b) r s → r ≡ s
  BothOk-eq (err x) (err y) h = ap err h
  BothOk-eq (ok a) (ok b) h = ap ok h
  BothOk-eq (err x) (ok b) h = absurd h
  BothOk-eq (ok a) (err y) h = absurd h

  -- What a replay has done by a moment - orders, fills, cash, what the strategy remembers, an exception
  -- that ended it - is the same for any two feeds with the same events by that moment: nothing that
  -- becomes known later can have played a part, whatever the strategy.
  pub no_lookahead :
      (T n : ℕ) (tickers : List Ticker) (s : S) (f g : List FeedEvent)
      → Agree T f g
      → observe T n tickers s f ≡ observe T n tickers s g
  unfolding observe start
  no_lookahead T n tickers s f g agree = BothOk-eq _ _ (
      after-BothOk (Same T) (λ a b. a ≡ b) _ _ _ _
        (>>=-BothOk (Same T) (run_script cfg (strategy.on_start s) (new_engine cfg tickers)) _ _
          (λ begun. (agree, refl)))
        (λ a b same.
          subst
            (λ x.
              BothOk {A = Engine × S} (λ y z. y ≡ z)
                (turns_until T n a >>= λ r. ok (r.engine, r.memory))
                (turns_until T n x >>= λ r. ok (r.engine, r.memory)))
            (sym same.1)
            (after-BothOk (Same T) (λ y z. y ≡ z) _ _ _ _ (turns_until-Same T n a b.feed same.0)
              (λ y z both. sym (ap (λ (r : Replay S). (r.engine, r.memory)) both.1)))))
