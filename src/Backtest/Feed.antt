-- ===== src/Backtest/Feed.antt =====
-- backtest/feed.py: feeds in the order of what was known when. The rows of the queries of the store are
-- arguments, in the order in which the store returns them; a time stamp is in nanoseconds. Merging
-- with other feeds is left out.
use kalshi_quant_research.Prelude.{
  ℕ, zero, suc, ◌+◌, ◌-◌, ◌*◌, ◌/◌, ◌%◌, ◌≤◌, ◌<◌, min, max, String, ◌≡◌, refl, sym, ap, ◌∙◌, ◌≢◌,
  ◌↔◌, ◌⊎◌, inl, inr, Bool, true, false, not, ◌&&◌, ◌||◌, Option, none, some, List, [], ◌∷◌, ◌++◌,
  map, arith, ltb, leb, ◌==◌, if◌then◌else◌, ltb→lt, leb→le, ==_iff, Bool-cases, Option-cases,
  length, sum_by, length-append, sum_by-append, All, All-map, All-append, All-split, In, All-In,
  Error, Result, ok, err, ◌>>=◌, ◌>>◌, raise_if, is_ok, >>=-eq-ok, AllOk, AllOk-any, AllOk-value,
  AllOk-all, >>=-AllOk, Key, ◌=?◌, nat_key, string_key, beq_refl, beq_ne, beq-cases,
}
use kalshi_quant_research.Prelude.Int.{
  ℤ, pos, negsuc, pos_part, neg_part, sub_ℕ, ◌+ℤ◌, ◌-ℤ◌, neg, ◌≤ℤ◌, ◌<ℤ◌, ltb_ℤ, leb_ℤ, max_ℤ,
  min_ℤ, sub_ℕ_parts, int_laws, parts_of_eq, eq_of_parts,
}
use kalshi_quant_research.Prelude.Dict.{
  Dict, lookup, contains, get_or, insert, erase, Distinct, total, lookup-insert, lookup-insert_self,
  lookup-insert_ne, get_or-insert_self, get_or-insert_ne, lookup-erase_ne, lookup-erase_self,
  insert-Distinct, erase-Distinct, total-insert, total-insert_new, total-erase, AllValues,
  insert-AllValues, erase-AllValues, lookup-AllValues, get_or-AllValues,
}
pub mod Order
pub mod Bounds
pub mod Witnesses
use kalshi_quant_research.Market.Contracts.{Price, Qty, Ticker, Side, Trade, make_trade}
use kalshi_quant_research.Market.Listing.{
  MarketStatus, initialized, inactive, active, closed, determined, disputed, amended, finalized,
  unknown,
}
use kalshi_quant_research.Backtest.Events.{
  rank, BookUpdate, BookConfirm, TradeTick, MarketClose, Settlement, FeedEvent, book_update,
  book_confirm, trade_tick, market_close, settlement, event_ts, priority,
}

-- `_key(a) < _key(b)`
abbrev pub key_below : FeedEvent → FeedEvent → Bool
key_below a b =
    ltb (event_ts a) (event_ts b)
    || ((event_ts a == event_ts b) && ltb (rank (priority a)) (rank (priority b)))

-- an event goes before the first one that it does not come after
unfoldable pub place_event : FeedEvent → List FeedEvent → List FeedEvent
place_event x [] = x ∷ []
place_event x (y ∷ ys) = if key_below y x then y ∷ place_event x ys else x ∷ y ∷ ys

-- `sorted(events, key=_key)`, which is stable
unfoldable pub sorted_events : List FeedEvent → List FeedEvent
sorted_events [] = []
sorted_events (x ∷ xs) = place_event x (sorted_events xs)

-- `ListFeed.events`
unfoldable pub list_feed : List FeedEvent → List FeedEvent
list_feed events = sorted_events events

unfoldable pub known_by : ℕ → List FeedEvent → List FeedEvent
known_by until [] = []
known_by until (ev ∷ evs) =
    let rest = known_by until evs in if leb (event_ts ev) until then ev ∷ rest else rest

-- `ListFeed.truncated`, of the feed's events
unfoldable pub truncated : ℕ → List FeedEvent → List FeedEvent
truncated until events = list_feed (known_by until events)

pub record FeedTiming : Type 0 where
  pub trade_delay_ns : ℕ
  pub settlement_delay_ns : ℕ

pub record Window : Type 0 where
  pub start_ns : Option ℕ
  pub end_ns : Option ℕ

pub record BookRow : Type 0 where
  pub ticker : Ticker
  pub recv_ts_ns : ℕ
  pub req_ts_ns : Option ℕ
  pub yes_px : List Price
  pub yes_qty : List Qty
  pub no_px : List Price
  pub no_qty : List Qty

pub record TradeRow : Type 0 where
  pub ticker : Ticker
  pub created_ns : ℕ
  pub yes_price : Price
  pub no_price : Price
  pub count : Qty
  pub taker_side : Option Side

-- the fields of a market that the feed reads
pub record FeedMarket : Type 0 where
  pub ticker : Ticker
  pub settlement_value : Option Price
  pub settlement_ts : Option ℕ
  pub close_time : Option ℕ
  pub status : MarketStatus

pub record StoreRows : Type 0 where
  pub book_rows : List BookRow
  pub trade_rows : List TradeRow
  pub polls : List ℕ
  pub markets : List FeedMarket

-- `zip(xs, ys, strict=True)`
abbrev pub zip_strict : List ℕ → List ℕ → Result (List (ℕ × ℕ))
zip_strict [] [] = ok []
zip_strict [] (y ∷ ys) = err Error.value_error
zip_strict (x ∷ xs) [] = err Error.value_error
zip_strict (x ∷ xs) (y ∷ ys) = zip_strict xs ys >>= λ rest. ok ((x, y) ∷ rest)

abbrev pub from_start : Option ℕ → ℕ → Bool
from_start none ts = true
from_start (some start) ts = leb start ts

abbrev pub by_end : Option ℕ → ℕ → Bool
by_end none ts = true
by_end (some last) ts = leb ts last

-- `_in_window`
abbrev pub in_window : Window → ℕ → Bool
in_window w ts = from_start w.start_ns ts && by_end w.end_ns ts

unfoldable pub book_events : Window → List BookRow → Result (List FeedEvent)
book_events w [] = ok []
book_events w (row ∷ rows) =
    let rest = book_events w rows in
    if in_window w row.recv_ts_ns
    then (zip_strict row.yes_px row.yes_qty >>= λ yes_levels.
        zip_strict row.no_px row.no_qty >>= λ no_levels. rest >>= λ events. ok (
          book_update (record {
            ts_ns = row.recv_ts_ns;
            ticker = row.ticker;
            yes_bids = yes_levels;
            no_bids = no_levels;
            req_ts_ns = row.req_ts_ns;
          })
          ∷ events))
    else rest

abbrev pub trade_of : TradeRow → Trade
trade_of row = record {
  ticker = row.ticker;
  yes_price = row.yes_price;
  no_price = row.no_price;
  count = row.count;
  taker_side = row.taker_side;
}

unfoldable pub trade_events : FeedTiming → Window → List TradeRow → Result (List FeedEvent)
trade_events timing w [] = ok []
trade_events timing w (row ∷ rows) =
    let rest = trade_events timing w rows in
    let ts = row.created_ns + timing.trade_delay_ns in
    if in_window w ts
    then (make_trade (trade_of row) >>= λ trade. rest >>= λ events.
        ok (trade_tick (record { ts_ns = ts; ticker = row.ticker; trade = trade }) ∷ events))
    else rest

-- an empty ticker confirms every market
unfoldable pub poll_events : Window → List ℕ → List FeedEvent
poll_events w [] = []
poll_events w (recv ∷ polls) =
    let rest = poll_events w polls in
    if in_window w recv then book_confirm (record { ts_ns = recv; ticker = "" }) ∷ rest else rest

-- the statuses of a market that trades no more
abbrev pub is_over : MarketStatus → Bool
is_over closed = true
is_over determined = true
is_over finalized = true
is_over disputed = true
is_over amended = true
is_over initialized = false
is_over inactive = false
is_over active = false
is_over unknown = false

-- `max(ts, floor or ts)`: what happened before the window is known when it starts
abbrev pub not_before : Option ℕ → ℕ → ℕ
not_before none ts = ts
not_before (some start) ts = max ts start

abbrev pub settlement_events :
    FeedTiming → Window → FeedMarket → Option Price → Option ℕ → List FeedEvent
settlement_events timing w m (some value) (some settled) =
    let ts = settled + timing.settlement_delay_ns in
    if by_end w.end_ns ts
    then settlement (record { ts_ns = not_before w.start_ns ts; ticker = m.ticker; value = value })
      ∷ []
    else []
settlement_events timing w m none settled = []
settlement_events timing w m (some value) none = []

abbrev pub close_events : Window → FeedMarket → Option ℕ → List FeedEvent
close_events w m none = []
close_events w m (some ts) =
    if is_over m.status && by_end w.end_ns ts
    then market_close (record { ts_ns = not_before w.start_ns ts; ticker = m.ticker }) ∷ []
    else []

unfoldable pub market_events : FeedTiming → Window → List FeedMarket → List FeedEvent
market_events timing w [] = []
market_events timing w (m ∷ ms) =
    settlement_events timing w m m.settlement_value m.settlement_ts
    ++ (close_events w m m.close_time ++ market_events timing w ms)

abbrev pub null_markets : List FeedMarket → Bool
null_markets [] = true
null_markets (m ∷ ms) = false

-- `StoreFeed._build`
unfoldable pub build : FeedTiming → Window → Bool → StoreRows → Result (List FeedEvent)
build timing w confirm_with_polls rows =
    let polls = if confirm_with_polls then poll_events w rows.polls else [] in
    if null_markets rows.markets
    then ok []
    else book_events w rows.book_rows >>= λ books.
        trade_events timing w rows.trade_rows >>= λ trades.
        ok (sorted_events (books ++ (trades ++ (polls ++ market_events timing w rows.markets))))
