-- ===== src/Data/BookStream.antt =====
-- data/normalization/book_stream.py: order-book messages to books that can be trusted. A frame has
-- been parsed by the client; the texts of details and the log lines are not modelled.
pub mod Sequence
pub mod Poisoned
pub mod Trust
pub mod Witnesses
use kalshi_quant_research.Prelude.{
  ℕ, suc, Bool, true, false, ◌||◌, ◌&&◌, Option, none, some, List, [], ◌∷◌, String, ltb, ◌==◌,
  if◌then◌else◌, Result, ok, err, Key, ◌=?◌, nat_key, string_key, ==_iff,
}
use kalshi_quant_research.Prelude.Int.{ℤ}
use kalshi_quant_research.Prelude.Dict.{Dict, lookup, get_or, insert}
use native.Mathlib.Omega.{arith}
use kalshi_quant_research.Market.Contracts.{Ticker, Side}
use kalshi_quant_research.Market.OrderBook.{
  OrderBook, new_book, apply_snapshot, apply_delta, is_crossed,
}

pub data ApplyStatus : Type 0 where
  applied duplicate out_of_order gap no_snapshot inconsistent : ApplyStatus
  stale_stream not_a_book_message : ApplyStatus

pub record ProcessResult : Type 0 where
  pub status : ApplyStatus
  pub ticker : Option Ticker

abbrev pub is_applied : ProcessResult → Bool
is_applied r = elim r.status [ applied ↦ true | _ ↦ false ]

-- `(epoch, sid)`
abbrev pub StreamKey : Type 0
StreamKey = ℕ × ℕ

instance abbrev pub stream_key : Key StreamKey
stream_key = record { same = λ a b. (a.0 == b.0) && (a.1 == b.1); same_iff = λ a b. ground arith }

-- What `WsOrderbookSnapshot` and `WsOrderbookDelta` share.
pub record Frame : Type 0 where
  pub epoch : ℕ
  pub sid : Option ℕ
  pub seq : Option ℕ
  pub market_ticker : Ticker
  pub exchange_ts : Option ℕ

pub data WsMessage : Type 0 where
  ws_snapshot : Frame → List (ℤ × ℤ) → List (ℤ × ℤ) → WsMessage
  ws_delta : Frame → Side → ℤ → ℤ → WsMessage
  ws_other : WsMessage

pub record BookStreamProcessor : Type 0 where
  pub books : Dict Ticker OrderBook
  pub ticker_stream : Dict Ticker StreamKey
  pub last_seq : Dict StreamKey ℕ
  pub poisoned : List StreamKey
  pub stale_tickers : List Ticker
  pub needs_resync : Bool
  pub counters : Dict String ℕ

abbrev pub new_processor : BookStreamProcessor
new_processor = record {
  books = [];
  ticker_stream = [];
  last_seq = [];
  poisoned = [];
  stale_tickers = [];
  needs_resync = false;
  counters = [];
}

-- `counters[name] += 1`
abbrev pub bump : String → BookStreamProcessor → BookStreamProcessor
bump name s = record s { counters = insert name (suc (get_or name 0 s.counters)) s.counters }

abbrev pub status_value : ApplyStatus → String
status_value applied = "applied"
status_value duplicate = "duplicate"
status_value out_of_order = "out_of_order"
status_value gap = "gap"
status_value no_snapshot = "no_snapshot"
status_value inconsistent = "inconsistent"
status_value stale_stream = "stale_stream"
status_value not_a_book_message = "not_a_book_message"

module _ {A : Type 0} ⦃e : Key A⦄ where
  -- `a in xs`
  abbrev pub contained : A → List A → Bool
  contained a [] = false
  contained a (x ∷ xs) = (x =? a) || contained a xs

  -- `xs.discard(a)`
  abbrev pub discard : A → List A → List A
  discard a [] = []
  discard a (x ∷ xs) = let rest = discard a xs in if x =? a then rest else x ∷ rest

-- the entries of one epoch
abbrev pub seqs_of_epoch : ℕ → Dict StreamKey ℕ → Dict StreamKey ℕ
seqs_of_epoch epoch [] = []
seqs_of_epoch epoch ((k, v) ∷ d) =
    let rest = seqs_of_epoch epoch d in if k.0 == epoch then (k, v) ∷ rest else rest

abbrev pub keys_of_epoch : ℕ → List StreamKey → List StreamKey
keys_of_epoch epoch [] = []
keys_of_epoch epoch (k ∷ ks) =
    let rest = keys_of_epoch epoch ks in if k.0 == epoch then k ∷ rest else rest

pub on_connected : ℕ → BookStreamProcessor → BookStreamProcessor
on_connected epoch s = bump "reconnects" (record s {
  books = [];
  ticker_stream = [];
  last_seq = seqs_of_epoch epoch s.last_seq;
  poisoned = keys_of_epoch epoch s.poisoned;
  stale_tickers = [];
  needs_resync = false;
})

abbrev pub acknowledge_resync : BookStreamProcessor → BookStreamProcessor
acknowledge_resync s = record s { needs_resync = false }

-- `self._ticker_stream.get(ticker) in self._poisoned`
abbrev pub stream_poisoned : Ticker → BookStreamProcessor → Bool
stream_poisoned ticker s = elim (lookup ticker s.ticker_stream) [
  | none ↦ false
  | some key ↦ contained key s.poisoned
]

pub book : Ticker → BookStreamProcessor → Option OrderBook
book ticker s = elim (lookup ticker s.books) [
  | none ↦ none
  | some b ↦
      if contained ticker s.stale_tickers
      then none
      else if stream_poisoned ticker s
      then none
      else some b
]

-- A step gives its result and the state after it.
abbrev pub Outcome : Type 0
Outcome = ProcessResult × BookStreamProcessor

-- `_reject`
abbrev pub reject : ApplyStatus → Ticker → Bool → BookStreamProcessor → Outcome
reject status ticker resync s = (
  record { status = status; ticker = some ticker },
  record (bump (status_value status) s) { needs_resync = if resync then true else s.needs_resync },
)

-- `_sequence` where the frame may proceed
abbrev pub accept : StreamKey → ℕ → Ticker → BookStreamProcessor → BookStreamProcessor
accept key seq ticker s = record s {
  last_seq = insert key seq s.last_seq;
  ticker_stream = insert ticker key s.ticker_stream;
}

-- A checked sequence number: the rejecting outcome, or the state to go on with.
pub data Sequenced : Type 0 where
  rejected : Outcome → Sequenced
  proceed : ℕ → BookStreamProcessor → Sequenced

abbrev pub after_last : StreamKey → ℕ → ℕ → Ticker → BookStreamProcessor → Sequenced
after_last key last seq ticker s =
    if seq == last
    then rejected (reject duplicate ticker false s)
    else if ltb seq last
    then rejected (reject out_of_order ticker false s)
    else if seq == suc last
    then proceed seq (accept key seq ticker s)
    else rejected (reject gap ticker true (record s { poisoned = key ∷ s.poisoned }))

abbrev pub sequence_key : StreamKey → ℕ → Ticker → BookStreamProcessor → Sequenced
sequence_key key seq ticker s =
    if contained key s.poisoned
    then rejected (reject stale_stream ticker false s)
    else elim (lookup key s.last_seq) [
      | none ↦ proceed seq (accept key seq ticker s)
      | some last ↦ after_last key last seq ticker s
    ]

-- `_sequence`, on the two optional numbers
abbrev pub sequence_of : ℕ → Option ℕ → Option ℕ → Ticker → BookStreamProcessor → Sequenced
sequence_of epoch (some sid) (some seq) ticker s = sequence_key (epoch, sid) seq ticker s
sequence_of epoch _ _ ticker s = rejected (reject inconsistent ticker true s)

pub sequence : Frame → BookStreamProcessor → Sequenced
sequence f s = sequence_of f.epoch f.sid f.seq f.market_ticker s

abbrev pub mark_stale : Ticker → BookStreamProcessor → BookStreamProcessor
mark_stale ticker s = record s { stale_tickers = ticker ∷ s.stale_tickers }

-- `book.last_seq, book.last_ts = msg.seq, msg.exchange_ts`
abbrev pub stamp : ℕ → Option ℕ → OrderBook → OrderBook
stamp seq ts b = record b { last_seq = some seq; last_ts = ts }

abbrev pub applied_to : Ticker → ProcessResult
applied_to ticker = record { status = applied; ticker = some ticker }

-- the rest of `_on_snapshot`, from the book's answer
abbrev pub snapshot_taken : Frame → ℕ → Result OrderBook → BookStreamProcessor → Outcome
snapshot_taken f seq (err e) s =
    reject inconsistent f.market_ticker true (mark_stale f.market_ticker s)
snapshot_taken f seq (ok b) s = (
  applied_to f.market_ticker,
  bump "snapshots" (record s {
    books = insert f.market_ticker (stamp seq f.exchange_ts b) s.books;
    stale_tickers = discard f.market_ticker s.stale_tickers;
  }),
)

abbrev pub book_or_new : Ticker → BookStreamProcessor → OrderBook
book_or_new ticker s = get_or ticker (new_book ticker) s.books

pub on_snapshot : Frame → List (ℤ × ℤ) → List (ℤ × ℤ) → BookStreamProcessor → Outcome
unfolding sequence
on_snapshot f yes_levels no_levels s = elim (sequence f s) [
  | rejected o ↦ o
  | proceed seq t ↦
      snapshot_taken f seq (apply_snapshot yes_levels no_levels (book_or_new f.market_ticker t)) t
]

abbrev pub delta_taken : Frame → ℕ → Result OrderBook → BookStreamProcessor → Outcome
delta_taken f seq (err e) s =
    reject inconsistent f.market_ticker true (mark_stale f.market_ticker s)
delta_taken f seq (ok b) s =
    let t = record s { books = insert f.market_ticker (stamp seq f.exchange_ts b) s.books } in
    (
      applied_to f.market_ticker,
      bump "deltas" (if is_crossed b then bump "crossed_observed" t else t),
    )

abbrev pub delta_on : Frame → ℕ → Side → ℤ → ℤ → Option OrderBook → BookStreamProcessor → Outcome
delta_on f seq side price delta none s = reject no_snapshot f.market_ticker true s
delta_on f seq side price delta (some b) s =
    if contained f.market_ticker s.stale_tickers
    then reject no_snapshot f.market_ticker true s
    else delta_taken f seq (apply_delta side price delta b) s

pub on_delta : Frame → Side → ℤ → ℤ → BookStreamProcessor → Outcome
unfolding sequence
on_delta f side price delta s = elim (sequence f s) [
  | rejected o ↦ o
  | proceed seq t ↦ delta_on f seq side price delta (lookup f.market_ticker t.books) t
]

pub process : WsMessage → BookStreamProcessor → Outcome
unfolding on_snapshot on_delta
process (ws_snapshot f yes_levels no_levels) s = on_snapshot f yes_levels no_levels s
process (ws_delta f side price delta) s = on_delta f side price delta s
process ws_other s = (record { status = not_a_book_message; ticker = none }, s)
