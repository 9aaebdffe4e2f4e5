-- ===== src/Data/BookStream/Trust.antt =====
-- Which books are served: valid ones only, and after a message was applied its market's.
use kalshi_quant_research.Prelude.{
  ℕ, ◌≡◌, refl, sym, ap, ◌∙◌, inl, inr, false, Option, none, some, List, [], ◌∷◌, arith, Bool-cases,
  Option-cases, Result, ok, err, nat_key, string_key,
}
use kalshi_quant_research.Prelude.Int.{ℤ}
use kalshi_quant_research.Prelude.Dict.{
  lookup, get_or, insert, lookup-insert_self, AllValues, insert-AllValues, lookup-AllValues,
}
use mathlib.Core.Path.{subst}
use kalshi_quant_research.Market.Contracts.{Ticker, Side}
use kalshi_quant_research.Market.OrderBook.{
  OrderBook, new_book, apply_snapshot, apply_delta, is_crossed,
}
use kalshi_quant_research.Market.OrderBook.Invariant.{IsValid}
use kalshi_quant_research.Market.OrderBook.Delta.{apply_delta-IsValid}
use kalshi_quant_research.Market.OrderBook.Snapshot.{apply_snapshot_reads}
use kalshi_quant_research.Data.BookStream.{
  applied, StreamKey, stream_key, Frame, WsMessage, ws_snapshot, ws_delta, ws_other,
  BookStreamProcessor, bump, contained, discard, on_connected, stream_poisoned, book, Outcome,
  Sequenced, rejected, proceed, sequence, stamp, snapshot_taken, book_or_new, on_snapshot,
  delta_taken, delta_on, on_delta, process,
}
use kalshi_quant_research.Data.BookStream.Sequence.{
  status_of, IsNext, sequence-proceed, sequence-rejected,
}

-- Every book that is kept is valid.
abbrev pub BooksValid : BookStreamProcessor → Type 0
BooksValid s = AllValues IsValid s.books

stamped : (n : ℕ) (ts : Option ℕ) (b : OrderBook) → IsValid b → IsValid (stamp n ts b)
stamped n ts b h = record { yes_valid = h.yes_valid; no_valid = h.no_valid }

discarded : (k : Ticker) (ks : List Ticker) → contained k (discard k ks) ≡ false
discarded k [] = refl
discarded k (x ∷ ks) = ground (arith, discarded k ks)

reject-served :
    (f : Frame) (s : BookStreamProcessor) (o : Outcome)
    → sequence f s ≡ rejected o
    → o.1.books ≡ s.books
unfolding sequence
reject-served f s o e = ground arith

snapshot_taken-BooksValid :
    (f : Frame) (seq : ℕ) (r : Result OrderBook) (t : BookStreamProcessor)
    → ((b : OrderBook) → r ≡ ok b → IsValid b)
    → BooksValid t
    → BooksValid (snapshot_taken f seq r t).1
snapshot_taken-BooksValid f seq (err e) t h v = v
snapshot_taken-BooksValid f seq (ok b) t h v =
    insert-AllValues IsValid f.market_ticker (stamp seq f.exchange_ts b) t.books
      (stamped seq f.exchange_ts b (h b refl)) v

delta_taken-BooksValid :
    (f : Frame) (seq : ℕ) (r : Result OrderBook) (t : BookStreamProcessor)
    → ((b : OrderBook) → r ≡ ok b → IsValid b)
    → BooksValid t
    → BooksValid (delta_taken f seq r t).1
delta_taken-BooksValid f seq (err e) t h v = v
delta_taken-BooksValid f seq (ok b) t h v =
    let kept =
      insert-AllValues IsValid f.market_ticker (stamp seq f.exchange_ts b) t.books
        (stamped seq f.exchange_ts b (h b refl)) v in
    elim (Bool-cases (is_crossed b)) [
      | inl c ↦ rw (c, delta_taken) kept
      | inr c ↦ rw (c, delta_taken) kept
    ]

delta_on-BooksValid :
    (f : Frame) (seq : ℕ) (side : Side) (price delta : ℤ) (o : Option OrderBook)
    (t : BookStreamProcessor)
    → ((b : OrderBook) → o ≡ some b → IsValid b)
    → BooksValid t
    → BooksValid (delta_on f seq side price delta o t).1
delta_on-BooksValid f seq side price delta none t h v = v
delta_on-BooksValid f seq side price delta (some b) t h v =
    elim (Bool-cases (contained f.market_ticker t.stale_tickers)) [
      | inl stale ↦ rw (stale, delta_on) v
      | inr fresh ↦
          rw (fresh, delta_on)
            (delta_taken-BooksValid f seq (apply_delta side price delta b) t
              (λ b' e. apply_delta-IsValid side price delta b b' (h b refl) e) v)
    ]

-- What a frame that goes on leaves of the state.
proceed-books :
    (f : Frame) (s : BookStreamProcessor) (seq : ℕ) (t : BookStreamProcessor)
    → sequence f s ≡ proceed seq t
    → t.books ≡ s.books
proceed-books f s seq t e =
    ap (λ (u : BookStreamProcessor). u.books) (sequence-proceed f s seq t e).1

on_snapshot-BooksValid :
    (f : Frame) (yes_levels no_levels : List (ℤ × ℤ)) (s : BookStreamProcessor) (q : Sequenced)
    → sequence f s ≡ q
    → BooksValid s
    → BooksValid (on_snapshot f yes_levels no_levels s).1
unfolding on_snapshot
on_snapshot-BooksValid f yes_levels no_levels s (rejected o) e v =
    rw (e, on_snapshot) (subst (AllValues IsValid) (sym (reject-served f s o e)) v)
on_snapshot-BooksValid f yes_levels no_levels s (proceed seq t) e v =
    rw (e, on_snapshot)
      (snapshot_taken-BooksValid f seq
        (apply_snapshot yes_levels no_levels (book_or_new f.market_ticker t)) t
        (λ b taken.
          (apply_snapshot_reads yes_levels no_levels (book_or_new f.market_ticker t) b taken).0)
        (subst (AllValues IsValid) (sym (proceed-books f s seq t e)) v))

on_delta-BooksValid :
    (f : Frame) (side : Side) (price delta : ℤ) (s : BookStreamProcessor) (q : Sequenced)
    → sequence f s ≡ q
    → BooksValid s
    → BooksValid (on_delta f side price delta s).1
unfolding on_delta
on_delta-BooksValid f side price delta s (rejected o) e v =
    rw (e, on_delta) (subst (AllValues IsValid) (sym (reject-served f s o e)) v)
on_delta-BooksValid f side price delta s (proceed seq t) e v =
    let kept : BooksValid t = subst (AllValues IsValid) (sym (proceed-books f s seq t e)) v in
    rw (e, on_delta)
      (delta_on-BooksValid f seq side price delta (lookup f.market_ticker t.books) t
        (λ b found. lookup-AllValues IsValid f.market_ticker b t.books kept found) kept)

-- Each message, whatever its answer, and each reconnection keep every stored book valid.
pub process-BooksValid :
    (m : WsMessage) (epoch : ℕ) (s : BookStreamProcessor)
    → BooksValid s
    → BooksValid (process m s).1 × BooksValid (on_connected epoch s)
unfolding process on_connected
process-BooksValid (ws_snapshot f yes_levels no_levels) epoch s v =
    (on_snapshot-BooksValid f yes_levels no_levels s (sequence f s) refl v, tt)
process-BooksValid (ws_delta f side price delta) epoch s v =
    (on_delta-BooksValid f side price delta s (sequence f s) refl v, tt)
process-BooksValid ws_other epoch s v = (v, tt)

-- The book of a market whose stream is clean and which is not stale is served.
served :
    (k : Ticker) (key : StreamKey) (b : OrderBook) (s : BookStreamProcessor)
    → lookup k s.books ≡ some b
    → contained k s.stale_tickers ≡ false
    → lookup k s.ticker_stream ≡ some key
    → contained key s.poisoned ≡ false
    → book k s ≡ some b
unfolding book
served k key b s known fresh stream clean =
    rw (known, fresh, stream, clean, book, stream_poisoned) refl

-- What a frame that goes on leaves of the state of its market: the stream, clean, and the book.
abbrev OnStream : Frame → ℕ → BookStreamProcessor → Type 0
OnStream f sid t =
    (lookup f.market_ticker t.ticker_stream ≡ some (f.epoch, sid))
    × (contained (f.epoch, sid) t.poisoned ≡ false)

proceed-OnStream :
    (f : Frame) (s : BookStreamProcessor) (seq : ℕ) (t : BookStreamProcessor)
    → sequence f s ≡ proceed seq t
    → (next : IsNext f seq s) × OnStream f next.0 t
proceed-OnStream f s seq t e =
    let (next, state) = sequence-proceed f s seq t e in
    (
      next,
      (
        rw state (lookup-insert_self f.market_ticker (f.epoch, next.0) s.ticker_stream),
        rw state next.3,
      ),
    )

snapshot_taken-served :
    (f : Frame) (seq sid : ℕ) (r : Result OrderBook) (t : BookStreamProcessor)
    → OnStream f sid t
    → status_of (snapshot_taken f seq r t) ≡ applied
    → (b : OrderBook) × (r ≡ ok b)
      × (book f.market_ticker (snapshot_taken f seq r t).1 ≡ some (stamp seq f.exchange_ts b))
snapshot_taken-served f seq sid (err e) t on_stream h = ground (arith, h)
snapshot_taken-served f seq sid (ok b) t (stream, clean) h = (
  b,
  refl,
  served f.market_ticker (f.epoch, sid) (stamp seq f.exchange_ts b)
      (snapshot_taken f seq (ok b) t).1
      (lookup-insert_self f.market_ticker (stamp seq f.exchange_ts b) t.books)
      (discarded f.market_ticker t.stale_tickers) stream clean,
)

delta_taken-served :
    (f : Frame) (seq sid : ℕ) (r : Result OrderBook) (t : BookStreamProcessor)
    → OnStream f sid t
    → contained f.market_ticker t.stale_tickers ≡ false
    → status_of (delta_taken f seq r t) ≡ applied
    → (b : OrderBook) × (r ≡ ok b)
      × (book f.market_ticker (delta_taken f seq r t).1 ≡ some (stamp seq f.exchange_ts b))
delta_taken-served f seq sid (err e) t on_stream fresh h = ground (arith, h)
delta_taken-served f seq sid (ok b) t (stream, clean) fresh h = (
  b,
  refl,
  elim (Bool-cases (is_crossed b)) [
    | inl c ↦ rw (c, delta_taken) (kept (bump "crossed_observed" after) refl refl refl refl)
    | inr c ↦ rw (c, delta_taken) (kept after refl refl refl refl)
  ],
)
  where
    after : BookStreamProcessor
    after = record t { books = insert f.market_ticker (stamp seq f.exchange_ts b) t.books }

    kept :
        (u : BookStreamProcessor)
        → u.books ≡ insert f.market_ticker (stamp seq f.exchange_ts b) t.books
        → u.stale_tickers ≡ t.stale_tickers
        → u.ticker_stream ≡ t.ticker_stream
        → u.poisoned ≡ t.poisoned
        → book f.market_ticker (bump "deltas" u) ≡ some (stamp seq f.exchange_ts b)
    kept u bs st ts ps =
        served f.market_ticker (f.epoch, sid) (stamp seq f.exchange_ts b) (bump "deltas" u)
          (rw bs (lookup-insert_self f.market_ticker (stamp seq f.exchange_ts b) t.books))
          (rw st fresh) (rw ts stream) (rw ps clean)

-- A snapshot that is applied is the next frame of its stream; the book it gives is served after it,
-- with the frame's number and time.
pub snapshot_served :
    (f : Frame) (yes_levels no_levels : List (ℤ × ℤ)) (s : BookStreamProcessor)
    → status_of (on_snapshot f yes_levels no_levels s) ≡ applied
    → (seq : ℕ) × (b : OrderBook) × IsNext f seq s
      × (apply_snapshot yes_levels no_levels (book_or_new f.market_ticker s) ≡ ok b)
      × (book f.market_ticker (on_snapshot f yes_levels no_levels s).1
          ≡ some (stamp seq f.exchange_ts b))
unfolding on_snapshot
snapshot_served f yes_levels no_levels s is_applied = go (sequence f s) refl
  where
    go :
        (q : Sequenced)
        → sequence f s ≡ q
        → (seq : ℕ) × (b : OrderBook) × IsNext f seq s
          × (apply_snapshot yes_levels no_levels (book_or_new f.market_ticker s) ≡ ok b)
          × (book f.market_ticker (on_snapshot f yes_levels no_levels s).1
              ≡ some (stamp seq f.exchange_ts b))
    go (rejected o) e = absurd (sequence-rejected f s o e (rw (e, on_snapshot) at is_applied))
    go (proceed seq t) e =
        let (next, on_stream) = proceed-OnStream f s seq t e in
        let (b, taken, kept) =
          snapshot_taken-served f seq next.0
            (apply_snapshot yes_levels no_levels (book_or_new f.market_ticker t)) t on_stream
            (rw (e, on_snapshot) at is_applied) in
        (
          seq,
          b,
          next,
          ap
                (λ d.
                  apply_snapshot yes_levels no_levels
                    (get_or f.market_ticker (new_book f.market_ticker) d))
                (sym (proceed-books f s seq t e))
              ∙ taken,
          rw (e, on_snapshot) kept,
        )

-- A delta that is applied is the next frame of its stream; its market had a book, and the book with
-- the delta is served after it, with the frame's number and time.
pub delta_served :
    (f : Frame) (side : Side) (price delta : ℤ) (s : BookStreamProcessor)
    → status_of (on_delta f side price delta s) ≡ applied
    → (seq : ℕ) × (before b : OrderBook) × IsNext f seq s
      × (lookup f.market_ticker s.books ≡ some before)
      × (apply_delta side price delta before ≡ ok b)
      × (book f.market_ticker (on_delta f side price delta s).1 ≡ some (stamp seq f.exchange_ts b))
unfolding on_delta
delta_served f side price delta s is_applied = go (sequence f s) refl
  where
    go :
        (q : Sequenced)
        → sequence f s ≡ q
        → (seq : ℕ) × (before b : OrderBook) × IsNext f seq s
          × (lookup f.market_ticker s.books ≡ some before)
          × (apply_delta side price delta before ≡ ok b)
          × (book f.market_ticker (on_delta f side price delta s).1
              ≡ some (stamp seq f.exchange_ts b))
    go (rejected o) e = absurd (sequence-rejected f s o e (rw (e, on_delta) at is_applied))
    go (proceed seq t) e =
        let (next, on_stream) = proceed-OnStream f s seq t e in
        let status = rw (e, on_delta) at is_applied in
        elim (Option-cases (lookup f.market_ticker t.books)) [
          | inl unknown ↦ absurd (ground (arith, rw (unknown, delta_on) at status))
          | inr (before, known) ↦ elim (Bool-cases (contained f.market_ticker t.stale_tickers)) [
            | inl stale ↦ absurd (ground (arith, rw (known, stale, delta_on) at status))
            | inr fresh ↦
                let (b, taken, kept) =
                  delta_taken-served f seq next.0 (apply_delta side price delta before) t on_stream
                    fresh (rw (known, fresh, delta_on) at status) in
                (
                  seq,
                  before,
                  b,
                  next,
                  ap (lookup f.market_ticker) (sym (proceed-books f s seq t e)) ∙ known,
                  taken,
                  rw (e, known, fresh, on_delta, delta_on) kept,
                )
          ]
        ]
