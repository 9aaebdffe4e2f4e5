-- ===== src/Data/BookStream/Witnesses.antt =====
-- Frames of one stream for the theorems on the book stream.
use kalshi_quant_research.Prelude.{
  ℕ, ◌≡◌, refl, true, false, none, some, List, [], ◌∷◌, arith, ok, nat_key, string_key,
}
use kalshi_quant_research.Prelude.Int.{pos, negsuc, ◌+ℤ◌}
use kalshi_quant_research.Prelude.Dict.{lookup}
use kalshi_quant_research.Market.Contracts.{no_side}
use kalshi_quant_research.Market.OrderBook.{
  OrderBook, apply_snapshot, apply_delta, check_price, set_qty, validated, validated_from,
}
use kalshi_quant_research.Data.BookStream.{
  applied, gap, stream_key, Frame, WsMessage, ws_snapshot, ws_delta, BookStreamProcessor,
  new_processor, on_connected, book, sequence, stamp, book_or_new, on_snapshot, on_delta, process,
}
use kalshi_quant_research.Data.BookStream.Sequence.{status_of, IsNext, goes_on}
use kalshi_quant_research.Data.BookStream.Poisoned.{
  StreamEvent, received, resynced, after_events, lost_frame,
}
use kalshi_quant_research.Data.BookStream.Trust.{
  BooksValid, process-BooksValid, snapshot_served, delta_served,
}

abbrev frame : ℕ → Frame
frame n = record { epoch = 1; sid = some 7; seq = some n; market_ticker = "A"; exchange_ts = none }

-- bids of 40 cents for YES and 55 for NO
abbrev quoted : OrderBook
quoted = record {
  ticker = "A";
  yes_bids = (4000, 10) ∷ [];
  no_bids = (5500, 7) ∷ [];
  last_seq = some 1;
  last_ts = none;
}

-- the state after the first snapshot
abbrev following : BookStreamProcessor
following = record {
  books = ("A", quoted) ∷ [];
  ticker_stream = ("A", (1, 7)) ∷ [];
  last_seq = ((1, 7), 1) ∷ [];
  poisoned = [];
  stale_tickers = [];
  needs_resync = false;
  counters = ("snapshots", 1) ∷ [];
}

following-reached :
    (on_snapshot (frame 1) ((pos 4000, pos 10) ∷ []) ((pos 5500, pos 7) ∷ []) new_processor).1
    ≡ following
unfolding on_snapshot sequence apply_snapshot validated validated_from check_price
following-reached = refl

snapshot-applied :
    status_of
      (on_snapshot (frame 1) ((pos 4000, pos 10) ∷ []) ((pos 5500, pos 7) ∷ []) new_processor)
    ≡ applied
unfolding on_snapshot sequence apply_snapshot validated validated_from check_price
snapshot-applied = refl

snapshot_served_example :
    (seq : ℕ) × (b : OrderBook) × IsNext (frame 1) seq new_processor
    × (apply_snapshot
          ((pos 4000, pos 10) ∷ [])
          ((pos 5500, pos 7) ∷ [])
          (book_or_new "A" new_processor)
        ≡ ok b)
    × (book "A"
          (on_snapshot (frame 1) ((pos 4000, pos 10) ∷ []) ((pos 5500, pos 7) ∷ []) new_processor).1
        ≡ some (stamp seq none b))
snapshot_served_example =
    snapshot_served (frame 1) ((pos 4000, pos 10) ∷ []) ((pos 5500, pos 7) ∷ []) new_processor
      snapshot-applied

delta-applied : status_of (on_delta (frame 2) no_side (pos 5500) (negsuc 6) following) ≡ applied
unfolding on_delta sequence apply_delta check_price set_qty ◌+ℤ◌
delta-applied = refl

delta_served_example :
    (seq : ℕ) × (before b : OrderBook) × IsNext (frame 2) seq following
    × (lookup "A" following.books ≡ some before)
    × (apply_delta no_side (pos 5500) (negsuc 6) before ≡ ok b)
    × (book "A" (on_delta (frame 2) no_side (pos 5500) (negsuc 6) following).1
        ≡ some (stamp seq none b))
delta_served_example = delta_served (frame 2) no_side (pos 5500) (negsuc 6) following delta-applied

following-BooksValid : BooksValid following
following-BooksValid = (
  record {
    yes_valid = ((ground arith, tt), (refl, tt));
    no_valid = ((ground arith, tt), (refl, tt));
  },
  tt,
)

process-BooksValid_example :
    BooksValid (process (ws_delta (frame 2) no_side (pos 5500) (negsuc 6)) following).1
    × BooksValid (on_connected 2 following)
process-BooksValid_example =
    process-BooksValid (ws_delta (frame 2) no_side (pos 5500) (negsuc 6)) 2 following
      following-BooksValid

-- Number 2 is missing; a snapshot of the stream and a resync follow.
abbrev skipping : WsMessage
skipping = ws_delta (frame 3) no_side (pos 5500) (negsuc 6)

abbrev later : List StreamEvent
later = received (ws_snapshot (frame 4) [] []) ∷ resynced ∷ []

still-followed :
    lookup "A" (after_events later (process skipping following).1).ticker_stream ≡ some (1, 7)
unfolding process on_delta on_snapshot sequence
still-followed = refl

lost_frame_example :
    (status_of (process skipping following) ≡ gap)
    × ((process skipping following).1.needs_resync ≡ true)
    × (book "A" (after_events later (process skipping following).1) ≡ none)
    × (goes_on (sequence (frame 5) (after_events later (process skipping following).1)) ≡ false)
lost_frame_example =
    lost_frame skipping (frame 3) (frame 5) 7 3 1 following later "A" refl refl refl refl refl
      (ground arith) refl refl still-followed
