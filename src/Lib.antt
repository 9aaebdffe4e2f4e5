-- ===== src/Lib.antt =====
-- A research framework for Kalshi binary prediction markets.
--
-- The repository records the exchange's messages, keeps order books, compiles logical relations
-- between markets into constraints, prices violated ones, and replays recorded markets against
-- strategies. This library models its integer core.
--
--   Prelude           shared names: integers, results, dicts as association lists, division
--   Market.Contracts  market/units.py, market/contracts.py: ticks, sides, contracts, trades
--   Market.Units      market/units.py: strict parsing on the fixed-point grid
--   Market.Listing    market/contracts.py: the status, result and rules of a listed market
--   Market.OrderBook  market/order_book.py: snapshots, deltas, the sorted views and the quotes
--   Market.Fees       market/fees.py: fee schedules in exact micro-dollars
--   Market.Relationships
--                     market/relationships.py: relations, their constraints and worlds, checks, the
--                     pre-filter of a ladder
--   Backtest.Portfolio
--                     backtest/portfolio.py: the ledger of a replay
--   Backtest.Fills    backtest/fills.py: taker and queue fill models
--   Backtest.Events   backtest/events.py: the events of a replay and the rank of each kind
--   Backtest.Engine   backtest/engine.py: State (orders, schedule, marks), Matching (resting orders),
--                     Arrival (orders at the exchange), Feed (events of the feed), Context (what a
--                     strategy sees and does), Replay (the main loop)
--   Backtest.Feed     backtest/feed.py: list feeds, their truncation, the feed of a store's rows
--   Arbitrage.Execution
--                     arbitrage/execution.py: walking the book, pricing a bundle, sizing it
--   Arbitrage.Detector
--                     arbitrage/opportunity.py and arbitrage/detector.py: the evaluation of a
--                     violation, and in Scan the loop over the relations
--   Data.BookStream   data/normalization/book_stream.py: frames to books that can be trusted
--   Data.SeenSet      the duplicate filter of the same file
--   MarketMaking.Risk market_making/risk.py: worst cases and the kill-switch
--
-- Objects are records and methods are functions that give the new record; an exception is a value of
-- Result. The book stream keeps books of Market.OrderBook; checks and execution read their asks, take
-- constraints from Market.Relationships and fees from Market.Fees; the fill models read the same
-- books; risk reads positions of the ledger. The engine is one record that every handler takes and
-- gives back: its loop reads a feed and its own schedule, fills orders with the fill models at the
-- fees of the fee book, books them in the ledger, and runs the strategy's handlers, which are scripts
-- of looks at the context and of orders, cancellations and wake-ups. A shared resting order is known
-- by its number. Prices are natural numbers of ticks (1/10,000 dollar), quantities are
-- centi-contracts, money is micro-dollars, signed where the code lets it be.
--
-- Python's integers have no bound, so none is set. The bisection of `optimize` runs on fuel: the
-- distance of its two ends, which is enough since each turn makes it smaller. The main loop of a replay
-- takes its number of turns as fuel and says whether that was enough: a strategy can keep it running
-- by waking itself up, and one that only looks takes at most a turn for each event of the feed. Other
-- loops are structural on the sequence that they read.
--
-- The decimal numbers of Python's `decimal` and their arithmetic are an argument of the parsers of units.
--
-- Not modelled: floats (mid prices, quoting models, statistics, the limits of the risk monitor, which
-- enter as tests), logging and printed texts, the network client, files and tables, the queries behind
-- a store's feed, the market information that a strategy reads, and the analysis of rule texts. A float
-- factor of a fill model enters as the function on integers that it is used for.
pub mod Prelude
pub mod Market
pub mod Backtest
pub mod Arbitrage
pub mod Data
pub mod MarketMaking
