-- ===== src/Backtest/Feed/Bounds.antt =====
-- The feed of a store: its window and its order.
use kalshi_quant_research.Prelude.{
  ℕ, ◌+◌, ◌≤◌, ◌≡◌, inl, inr, Bool, true, false, ◌&&◌, Option, none, some, List, [], ◌∷◌, ◌++◌,
  arith, if◌then◌else◌, Bool-cases, All, All-append, ok, AllOk, AllOk-any, AllOk-value, >>=-AllOk,
  nat_key, string_key,
}
use kalshi_quant_research.Market.Contracts.{Price, make_trade}
use kalshi_quant_research.Backtest.Events.{FeedEvent, event_ts}
use kalshi_quant_research.Backtest.Feed.{
  key_below, place_event, sorted_events, FeedTiming, Window, BookRow, TradeRow, FeedMarket,
  StoreRows, zip_strict, in_window, from_start, by_end, not_before, is_over, trade_of, book_events,
  trade_events, poll_events, settlement_events, close_events, market_events, null_markets, build,
}
use kalshi_quant_research.Backtest.Feed.Order.{InOrder, sorted_events-InOrder}

-- the event's time is in the window
abbrev pub Within : Window → FeedEvent → Type 0
Within w ev = in_window w (event_ts ev) ≡ true

-- The window does not end before it starts.
abbrev pub Opens : Option ℕ → Option ℕ → Type 0
Opens none last = Unit
Opens (some start) none = Unit
Opens (some start) (some last) = start ≤ last

place_event-All :
    (P : FeedEvent → Type 0) (x : FeedEvent) (xs : List FeedEvent)
    → P x
    → All P xs
    → All P (place_event x xs)
unfolding place_event
place_event-All P x [] h a = (h, tt)
place_event-All P x (y ∷ ys) h a = elim (Bool-cases (key_below y x)) [
  | inl before ↦ rw before (a.0, place_event-All P x ys h a.1)
  | inr after ↦ rw after (h, a)
]

sorted_events-All :
    (P : FeedEvent → Type 0) (xs : List FeedEvent) → All P xs → All P (sorted_events xs)
unfolding sorted_events
sorted_events-All P [] a = tt
sorted_events-All P (x ∷ xs) a = place_event-All P x _ a.0 (sorted_events-All P xs a.1)

book_events-Within :
    (w : Window) (rows : List BookRow) → AllOk (All (Within w)) (book_events w rows)
unfolding book_events
book_events-Within w [] = tt
book_events-Within w (row ∷ rows) = elim (Bool-cases (in_window w row.recv_ts_ns)) [
  | inr outside ↦ rw outside (book_events-Within w rows)
  | inl inside ↦ rw inside (
      >>=-AllOk _ (All (Within w)) (zip_strict row.yes_px row.yes_qty) _ (AllOk-any _)
        (λ yes_levels u.
          >>=-AllOk _ (All (Within w)) (zip_strict row.no_px row.no_qty) _ (AllOk-any _)
            (λ no_levels v.
              >>=-AllOk (All (Within w)) (All (Within w)) (book_events w rows) _
                (book_events-Within w rows) (λ events kept. (inside, kept)))))
]

trade_events-Within :
    (timing : FeedTiming) (w : Window) (rows : List TradeRow)
    → AllOk (All (Within w)) (trade_events timing w rows)
unfolding trade_events
trade_events-Within timing w [] = tt
trade_events-Within timing w (row ∷ rows) =
    elim (Bool-cases (in_window w (row.created_ns + timing.trade_delay_ns))) [
      | inr outside ↦ rw outside (trade_events-Within timing w rows)
      | inl inside ↦ rw inside (
          >>=-AllOk _ (All (Within w)) (make_trade (trade_of row)) _ (AllOk-any _) (λ trade u.
            >>=-AllOk (All (Within w)) (All (Within w)) (trade_events timing w rows) _
              (trade_events-Within timing w rows) (λ events kept. (inside, kept))))
    ]

poll_events-Within : (w : Window) (polls : List ℕ) → All (Within w) (poll_events w polls)
unfolding poll_events
poll_events-Within w [] = tt
poll_events-Within w (recv ∷ polls) = elim (Bool-cases (in_window w recv)) [
  | inr outside ↦ rw outside (poll_events-Within w polls)
  | inl inside ↦ rw inside (inside, poll_events-Within w polls)
]

not_before_inside :
    (start last : Option ℕ) (ts : ℕ)
    → Opens start last
    → by_end last ts ≡ true
    → (from_start start (not_before start ts) && by_end last (not_before start ts)) ≡ true
not_before_inside none last ts opens due = due
not_before_inside (some start) none ts opens due = ground arith
not_before_inside (some start) (some last) ts opens due = ground arith

settlement_events-Within :
    (timing : FeedTiming) (w : Window) (m : FeedMarket) (value : Option Price) (settled : Option ℕ)
    → Opens w.start_ns w.end_ns
    → All (Within w) (settlement_events timing w m value settled)
settlement_events-Within timing w m none settled opens = tt
settlement_events-Within timing w m (some value) none opens = tt
settlement_events-Within timing w m (some value) (some settled) opens =
    elim (Bool-cases (by_end w.end_ns (settled + timing.settlement_delay_ns))) [
      | inl due ↦ rw due (not_before_inside w.start_ns w.end_ns _ opens due, tt)
      | inr later ↦ rw later tt
    ]

close_events-Within :
    (w : Window) (m : FeedMarket) (close_time : Option ℕ)
    → Opens w.start_ns w.end_ns
    → All (Within w) (close_events w m close_time)
close_events-Within w m none opens = tt
close_events-Within w m (some ts) opens =
    elim (Bool-cases (is_over m.status && by_end w.end_ns ts)) [
      | inl due ↦ rw due (not_before_inside w.start_ns w.end_ns ts opens (ground arith), tt)
      | inr later ↦ rw later tt
    ]

market_events-Within :
    (timing : FeedTiming) (w : Window) (ms : List FeedMarket)
    → Opens w.start_ns w.end_ns
    → All (Within w) (market_events timing w ms)
unfolding market_events
market_events-Within timing w [] opens = tt
market_events-Within timing w (m ∷ ms) opens =
    let settled = settlement_events timing w m m.settlement_value m.settlement_ts in
    let closed_events = close_events w m m.close_time in
    All-append (Within w) settled (closed_events ++ market_events timing w ms)
      (settlement_events-Within timing w m m.settlement_value m.settlement_ts opens)
      (All-append (Within w) closed_events _ (close_events-Within w m m.close_time opens)
        (market_events-Within timing w ms opens))

polls-Within :
    (confirm : Bool) (w : Window) (rows : StoreRows)
    → All (Within w) (if confirm then poll_events w rows.polls else [])
polls-Within false w rows = tt
polls-Within true w rows = poll_events-Within w rows.polls

build-AllOk :
    (timing : FeedTiming) (w : Window) (confirm : Bool) (rows : StoreRows)
    → Opens w.start_ns w.end_ns
    → AllOk (λ evs. All (Within w) evs × InOrder evs) (build timing w confirm rows)
unfolding build
build-AllOk timing w confirm rows opens = elim (Bool-cases (null_markets rows.markets)) [
  | inl empty ↦ rw empty (tt, tt)
  | inr some_markets ↦ rw some_markets (
      >>=-AllOk (All (Within w)) _ (book_events w rows.book_rows) _
        (book_events-Within w rows.book_rows)
        (λ books in_books.
          >>=-AllOk (All (Within w)) _ (trade_events timing w rows.trade_rows) _
            (trade_events-Within timing w rows.trade_rows)
            (λ trades in_trades. (
              sorted_events-All (Within w) _ (
                  All-append (Within w) books _ in_books (
                    All-append (Within w) trades _ in_trades (
                      All-append (Within w) (if confirm then poll_events w rows.polls else []) _
                        (polls-Within confirm w rows)
                        (market_events-Within timing w rows.markets opens)))),
              sorted_events-InOrder _,
            ))))
]

-- The feed of a store, where its rows can be read, has no event outside its window, and its events are
-- in the order of time and rank. The window must not end before it starts.
pub build-InOrder :
    (timing : FeedTiming) (w : Window) (confirm : Bool) (rows : StoreRows) (evs : List FeedEvent)
    → Opens w.start_ns w.end_ns
    → build timing w confirm rows ≡ ok evs
    → All (Within w) evs × InOrder evs
build-InOrder timing w confirm rows evs opens e =
    AllOk-value (λ xs. All (Within w) xs × InOrder xs) _ evs
      (build-AllOk timing w confirm rows opens) e
