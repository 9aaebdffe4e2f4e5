-- ===== src/Backtest/Feed/Witnesses.antt =====
-- The theorems on the feeds, at a few events.
use kalshi_quant_research.Prelude.{
  ◌≡◌, refl, true, none, some, List, [], ◌∷◌, arith, All, Result, ok, err, nat_key, string_key,
}
use kalshi_quant_research.Market.Contracts.{yes_side}
use kalshi_quant_research.Market.Listing.{finalized}
use kalshi_quant_research.Backtest.Events.{FeedEvent}
use kalshi_quant_research.Backtest.Engine.Causality.{observe}
use kalshi_quant_research.Backtest.Engine.Demo.{demo_config, buy_once, demo_book, demo_settlement}
use kalshi_quant_research.Backtest.Feed.{
  FeedTiming, Window, StoreRows, list_feed, truncated, book_events, trade_events, poll_events,
  market_events, place_event, sorted_events, build,
}
use kalshi_quant_research.Backtest.Feed.Order.{InOrder, truncated-observe}
use kalshi_quant_research.Backtest.Feed.Bounds.{Within, build-InOrder}

abbrev unsorted : List FeedEvent
unsorted = demo_settlement ∷ demo_book ∷ []

truncated-observe_example :
    observe demo_config buy_once 150 9 ("A" ∷ []) 0 (list_feed unsorted)
    ≡ observe demo_config buy_once 150 9 ("A" ∷ []) 0 (truncated 150 (list_feed unsorted))
truncated-observe_example = truncated-observe demo_config buy_once 150 9 ("A" ∷ []) 0 unsorted

abbrev timing : FeedTiming
timing = record { trade_delay_ns = 250; settlement_delay_ns = 1000 }

abbrev window : Window
window = record { start_ns = some 100; end_ns = some 5000 }

abbrev rows : StoreRows
rows = record {
  book_rows =
      record {
        ticker = "A";
        recv_ts_ns = 400;
        req_ts_ns = none;
        yes_px = 3000 ∷ [];
        yes_qty = 100 ∷ [];
        no_px = [];
        no_qty = [];
      }
      ∷ [];
  trade_rows =
      record {
        ticker = "A";
        created_ns = 120;
        yes_price = 3000;
        no_price = 7000;
        count = 50;
        taker_side = some yes_side;
      }
      ∷ [];
  polls = 50 ∷ 450 ∷ [];
  markets =
      record {
        ticker = "A";
        settlement_value = some 10000;
        settlement_ts = some 3000;
        close_time = some 20;
        status = finalized;
      }
      ∷ [];
}

abbrev or_none : Result (List FeedEvent) → List FeedEvent
or_none (err x) = []
or_none (ok evs) = evs

abbrev built : List FeedEvent
built = or_none (build timing window true rows)

rows-built : build timing window true rows ≡ ok built
unfolding build book_events trade_events poll_events market_events sorted_events place_event
rows-built = refl

build-InOrder_example : All (Within window) built × InOrder built
build-InOrder_example = build-InOrder timing window true rows built (omega arith) rows-built
