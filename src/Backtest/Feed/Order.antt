-- ===== src/Backtest/Feed/Order.antt =====
-- The order of a feed, and a feed that has been cut.
use kalshi_quant_research.Prelude.{
  ℕ, ◌<◌, ◌≡◌, refl, sym, inl, inr, true, false, List, [], ◌∷◌, arith, leb, leb→le, Bool-cases,
  nat_key, string_key,
}
use mathlib.Core.Path.{subst}
use kalshi_quant_research.Market.Contracts.{Ticker}
use kalshi_quant_research.Backtest.Events.{FeedEvent, event_ts}
use kalshi_quant_research.Backtest.Engine.Causality.{Agree, late, known, observe, no_lookahead}
use kalshi_quant_research.Backtest.Engine.State.{BacktestConfig}
use kalshi_quant_research.Backtest.Engine.Context.{Strategy}
use kalshi_quant_research.Backtest.Feed.{
  key_below, place_event, sorted_events, list_feed, known_by, truncated,
}

-- No event comes before the one ahead of it, by time and then by rank.
abbrev pub FirstOf : FeedEvent → List FeedEvent → Type 0
FirstOf x [] = Unit
FirstOf x (y ∷ ys) = key_below y x ≡ false

abbrev pub InOrder : List FeedEvent → Type 0
InOrder [] = Unit
InOrder (x ∷ xs) = FirstOf x xs × InOrder xs

key_below_asym : (a b : FeedEvent) → key_below a b ≡ true → key_below b a ≡ false
key_below_asym a b h = ground arith

place_event-FirstOf :
    (x y : FeedEvent) (xs : List FeedEvent)
    → key_below x y ≡ false
    → FirstOf y xs
    → FirstOf y (place_event x xs)
unfolding place_event
place_event-FirstOf x y [] le h = le
place_event-FirstOf x y (z ∷ zs) le h = elim (Bool-cases (key_below z x)) [
  | inl before ↦ rw before h
  | inr after ↦ rw after le
]

place_event-InOrder :
    (x : FeedEvent) (xs : List FeedEvent) → InOrder xs → InOrder (place_event x xs)
unfolding place_event
place_event-InOrder x [] h = (tt, tt)
place_event-InOrder x (y ∷ ys) h = elim (Bool-cases (key_below y x)) [
  | inl before ↦
      rw before
        (place_event-FirstOf x y ys (key_below_asym y x before) h.0, place_event-InOrder x ys h.1)
  | inr after ↦ rw after (after, h)
]

pub sorted_events-InOrder : (xs : List FeedEvent) → InOrder (sorted_events xs)
unfolding sorted_events
sorted_events-InOrder [] = tt
sorted_events-InOrder (x ∷ xs) = place_event-InOrder x _ (sorted_events-InOrder xs)

-- sorting what is in order changes nothing
sorted_events_same : (xs : List FeedEvent) → InOrder xs → sorted_events xs ≡ xs
unfolding sorted_events place_event
sorted_events_same [] h = refl
sorted_events_same (x ∷ []) h = refl
sorted_events_same (x ∷ y ∷ ys) h = rw (sorted_events_same (y ∷ ys) h.1, h.0) refl

none_known :
    (T : ℕ) (x : FeedEvent) (xs : List FeedEvent)
    → InOrder (x ∷ xs)
    → T < event_ts x
    → known_by T (x ∷ xs) ≡ []
unfolding known_by
none_known T x [] h late_x = ground arith
none_known T x (y ∷ ys) h late_x =
    let later : T < event_ts y = ground arith in
    let ih = none_known T y ys h.1 later in
    let not_yet : leb (event_ts x) T ≡ false = ground arith in rw not_yet ih

known_by-FirstOf :
    (T : ℕ) (x : FeedEvent) (xs : List FeedEvent) → InOrder (x ∷ xs) → FirstOf x (known_by T xs)
unfolding known_by
known_by-FirstOf T x [] h = tt
known_by-FirstOf T x (y ∷ ys) h = elim (Bool-cases (leb (event_ts y) T)) [
  | inl due ↦ rw due h.0
  | inr later ↦ rw (none_known T y ys h.1 (ground arith)) tt
]

known_by-InOrder : (T : ℕ) (xs : List FeedEvent) → InOrder xs → InOrder (known_by T xs)
unfolding known_by
known_by-InOrder T [] h = tt
known_by-InOrder T (x ∷ xs) h = elim (Bool-cases (leb (event_ts x) T)) [
  | inl due ↦ rw due (known_by-FirstOf T x xs h, known_by-InOrder T xs h.1)
  | inr later ↦ rw later (known_by-InOrder T xs h.1)
]

known_by-Agree : (T : ℕ) (xs : List FeedEvent) → InOrder xs → Agree T xs (known_by T xs)
unfolding known_by
known_by-Agree T [] h = late tt tt
known_by-Agree T (x ∷ xs) h = elim (Bool-cases (leb (event_ts x) T)) [
  | inl due ↦ rw due (known x (leb→le (event_ts x) T due) (known_by-Agree T xs h.1))
  | inr later ↦
      let past : T < event_ts x = ground arith in
      subst (Agree T (x ∷ xs)) (sym (none_known T x xs h past)) (late past tt)
]

-- A list of events, sorted for a replay, and what of it is known by `T`: a replay of either has done
-- the same by `T`.
pub truncated-observe :
    (cfg : BacktestConfig) {S : Type 0} (strategy : Strategy S) (T n : ℕ) (tickers : List Ticker)
    (s : S) (events : List FeedEvent)
    → observe cfg strategy T n tickers s (list_feed events)
      ≡ observe cfg strategy T n tickers s (truncated T (list_feed events))
unfolding list_feed truncated
truncated-observe cfg strategy T n tickers s events =
    let ordered = sorted_events-InOrder events in
    let cut = known_by T (sorted_events events) in
    let still : sorted_events cut ≡ cut = sorted_events_same cut (known_by-InOrder T _ ordered) in
    no_lookahead cfg strategy T n tickers s _ _
      (subst (Agree T (sorted_events events)) (sym still) (known_by-Agree T _ ordered))
