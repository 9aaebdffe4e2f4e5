-- ===== src/Data/BookStream/Poisoned.antt =====
-- `_poisoned`: the streams that have lost a frame, until the next connection.
use kalshi_quant_research.Prelude.{
  ℕ, suc, ◌<◌, ◌≡◌, refl, sym, inl, inr, true, false, Option, none, some, List, [], ◌∷◌, arith,
  Bool-cases, Option-cases, Result, ok, err, nat_key, string_key,
}
use kalshi_quant_research.Prelude.Int.{ℤ}
use kalshi_quant_research.Prelude.Dict.{lookup}
use mathlib.Core.Path.{subst}
use kalshi_quant_research.Market.Contracts.{Ticker, Side}
use kalshi_quant_research.Market.OrderBook.{OrderBook, apply_snapshot, apply_delta, is_crossed}
use kalshi_quant_research.Data.BookStream.{
  gap, StreamKey, stream_key, Frame, WsMessage, ws_snapshot, ws_delta, ws_other,
  BookStreamProcessor, contained, acknowledge_resync, book, Outcome, reject, Sequenced, rejected,
  proceed, after_last, sequence_key, sequence_of, sequence, snapshot_taken, book_or_new,
  on_snapshot, delta_taken, delta_on, on_delta, process,
}
use kalshi_quant_research.Data.BookStream.Sequence.{status_of, frame_of, sequence-proceed, goes_on}

-- What reaches a processor while its connection lasts: a message, or the word that a resync was made.
pub data StreamEvent : Type 0 where
  received : WsMessage → StreamEvent
  resynced : StreamEvent

abbrev pub after_event : StreamEvent → BookStreamProcessor → BookStreamProcessor
after_event (received m) s = (process m s).1
after_event resynced s = acknowledge_resync s

abbrev pub after_events : List StreamEvent → BookStreamProcessor → BookStreamProcessor
after_events [] s = s
after_events (x ∷ xs) s = after_events xs (after_event x s)

abbrev IsPoisoned : StreamKey → BookStreamProcessor → Type 0
IsPoisoned key s = contained key s.poisoned ≡ true

rejected-IsPoisoned :
    (key : StreamKey) (f : Frame) (s : BookStreamProcessor) (o : Outcome)
    → sequence f s ≡ rejected o
    → IsPoisoned key s
    → IsPoisoned key o.1
unfolding sequence
rejected-IsPoisoned key f s o e h = ground arith

proceed-IsPoisoned :
    (key : StreamKey) (f : Frame) (s : BookStreamProcessor) (seq : ℕ) (t : BookStreamProcessor)
    → sequence f s ≡ proceed seq t
    → IsPoisoned key s
    → IsPoisoned key t
proceed-IsPoisoned key f s seq t e h = rw (sequence-proceed f s seq t e).1 h

snapshot_taken-IsPoisoned :
    (key : StreamKey) (f : Frame) (seq : ℕ) (r : Result OrderBook) (t : BookStreamProcessor)
    → IsPoisoned key t
    → IsPoisoned key (snapshot_taken f seq r t).1
snapshot_taken-IsPoisoned key f seq (err e) t h = h
snapshot_taken-IsPoisoned key f seq (ok b) t h = h

delta_taken-IsPoisoned :
    (key : StreamKey) (f : Frame) (seq : ℕ) (r : Result OrderBook) (t : BookStreamProcessor)
    → IsPoisoned key t
    → IsPoisoned key (delta_taken f seq r t).1
delta_taken-IsPoisoned key f seq (err e) t h = h
delta_taken-IsPoisoned key f seq (ok b) t h = elim (Bool-cases (is_crossed b)) [
  | inl c ↦ rw (c, delta_taken) h
  | inr c ↦ rw (c, delta_taken) h
]

delta_on-IsPoisoned :
    (key : StreamKey) (f : Frame) (seq : ℕ) (side : Side) (price delta : ℤ) (o : Option OrderBook)
    (t : BookStreamProcessor)
    → IsPoisoned key t
    → IsPoisoned key (delta_on f seq side price delta o t).1
delta_on-IsPoisoned key f seq side price delta none t h = h
delta_on-IsPoisoned key f seq side price delta (some b) t h =
    elim (Bool-cases (contained f.market_ticker t.stale_tickers)) [
      | inl stale ↦ rw (stale, delta_on) h
      | inr fresh ↦
          rw (fresh, delta_on)
            (delta_taken-IsPoisoned key f seq (apply_delta side price delta b) t h)
    ]

on_snapshot-IsPoisoned :
    (key : StreamKey) (f : Frame) (yes_levels no_levels : List (ℤ × ℤ)) (s : BookStreamProcessor)
    (q : Sequenced)
    → sequence f s ≡ q
    → IsPoisoned key s
    → IsPoisoned key (on_snapshot f yes_levels no_levels s).1
unfolding on_snapshot
on_snapshot-IsPoisoned key f yes_levels no_levels s (rejected o) e h =
    rw (e, on_snapshot) (rejected-IsPoisoned key f s o e h)
on_snapshot-IsPoisoned key f yes_levels no_levels s (proceed seq t) e h =
    rw (e, on_snapshot)
      (snapshot_taken-IsPoisoned key f seq
        (apply_snapshot yes_levels no_levels (book_or_new f.market_ticker t)) t
        (proceed-IsPoisoned key f s seq t e h))

on_delta-IsPoisoned :
    (key : StreamKey) (f : Frame) (side : Side) (price delta : ℤ) (s : BookStreamProcessor)
    (q : Sequenced)
    → sequence f s ≡ q
    → IsPoisoned key s
    → IsPoisoned key (on_delta f side price delta s).1
unfolding on_delta
on_delta-IsPoisoned key f side price delta s (rejected o) e h =
    rw (e, on_delta) (rejected-IsPoisoned key f s o e h)
on_delta-IsPoisoned key f side price delta s (proceed seq t) e h =
    rw (e, on_delta)
      (delta_on-IsPoisoned key f seq side price delta (lookup f.market_ticker t.books) t
        (proceed-IsPoisoned key f s seq t e h))

after_events-IsPoisoned :
    (key : StreamKey) (xs : List StreamEvent) (s : BookStreamProcessor)
    → IsPoisoned key s
    → IsPoisoned key (after_events xs s)
unfolding process
after_events-IsPoisoned key [] s h = h
after_events-IsPoisoned key (resynced ∷ xs) s h =
    after_events-IsPoisoned key xs (acknowledge_resync s) h
after_events-IsPoisoned key (received (ws_snapshot f yes_levels no_levels) ∷ xs) s h =
    after_events-IsPoisoned key xs (on_snapshot f yes_levels no_levels s).1
      (on_snapshot-IsPoisoned key f yes_levels no_levels s (sequence f s) refl h)
after_events-IsPoisoned key (received (ws_delta f side price delta) ∷ xs) s h =
    after_events-IsPoisoned key xs (on_delta f side price delta s).1
      (on_delta-IsPoisoned key f side price delta s (sequence f s) refl h)
after_events-IsPoisoned key (received ws_other ∷ xs) s h = after_events-IsPoisoned key xs s h

-- a market of a poisoned stream has no book
unbooked :
    (key : StreamKey) (ticker : Ticker) (s : BookStreamProcessor)
    → IsPoisoned key s
    → lookup ticker s.ticker_stream ≡ some key
    → book ticker s ≡ none
unfolding book
unbooked key ticker s h stream = elim (Option-cases (lookup ticker s.books)) [
  | inl unknown ↦ rw (unknown, book) refl
  | inr (b, known) ↦ ground (arith, known, stream, h)
]

-- no frame of a poisoned stream goes on
shut :
    (g : Frame) (epoch sid : ℕ) (s : BookStreamProcessor) (q : Sequenced)
    → g.epoch ≡ epoch
    → g.sid ≡ some sid
    → IsPoisoned (epoch, sid) s
    → sequence g s ≡ q
    → goes_on (sequence g s) ≡ false
shut g epoch sid s (rejected o) same_epoch is_g h e = rw (e, goes_on) refl
shut g epoch sid s (proceed n t) same_epoch is_g h e =
    let (k, is_k, _, clean_k, _) = (sequence-proceed g s n t e).0 in
    absurd (ground (arith, same_epoch, is_g, is_k, clean_k, h))

-- the answer to a frame that comes after a lost one
abbrev gap_found : Frame → ℕ → BookStreamProcessor → Outcome
gap_found f sid s =
    reject gap f.market_ticker true (record s { poisoned = (f.epoch, sid) ∷ s.poisoned })

gap_found-rejected :
    (f : Frame) (sid seq last : ℕ) (s : BookStreamProcessor)
    → f.sid ≡ some sid
    → f.seq ≡ some seq
    → contained (f.epoch, sid) s.poisoned ≡ false
    → lookup (f.epoch, sid) s.last_seq ≡ some last
    → suc last < seq
    → sequence f s ≡ rejected (gap_found f sid s)
unfolding sequence
gap_found-rejected f sid seq last s is_sid is_seq clean found lost =
    rw (is_sid, is_seq, clean, found, sequence_of, sequence_key)
      (skipped (f.epoch, sid) last seq f.market_ticker s lost)
  where
    skipped :
        (key : StreamKey) (l n : ℕ) (ticker : Ticker) (u : BookStreamProcessor)
        → suc l < n
        → after_last key l n ticker u
          ≡ rejected (reject gap ticker true (record u { poisoned = key ∷ u.poisoned }))
    skipped key l n ticker u lt = ground arith

process-rejected :
    (m : WsMessage) (f : Frame) (s : BookStreamProcessor) (o : Outcome)
    → frame_of m ≡ some f
    → sequence f s ≡ rejected o
    → process m s ≡ o
unfolding process on_snapshot on_delta
process-rejected (ws_snapshot g yes_levels no_levels) f s o is_f e =
    let same : g ≡ f = ground (arith, is_f) in
    let answer : sequence g s ≡ rejected o = subst (λ x. sequence x s ≡ rejected o) (sym same) e in
    rw (answer, on_snapshot) refl
process-rejected (ws_delta g side price delta) f s o is_f e =
    let same : g ≡ f = ground (arith, is_f) in
    let answer : sequence g s ≡ rejected o = subst (λ x. sequence x s ≡ rejected o) (sym same) e in
    rw (answer, on_delta) refl
process-rejected ws_other f s o is_f e = absurd (ground (arith, is_f))

-- A message `m` whose frame `f` comes after a lost one of its stream is answered `gap`, and a resync is
-- asked for. Whatever messages and resyncs follow on the connection, from then on no market that is
-- followed on the stream has a book, and no frame `g` of the stream goes on.
pub lost_frame :
    (m : WsMessage) (f g : Frame) (sid seq last : ℕ) (s : BookStreamProcessor)
    (later : List StreamEvent) (ticker : Ticker)
    → frame_of m ≡ some f
    → f.sid ≡ some sid
    → f.seq ≡ some seq
    → contained (f.epoch, sid) s.poisoned ≡ false
    → lookup (f.epoch, sid) s.last_seq ≡ some last
    → suc last < seq
    → g.epoch ≡ f.epoch
    → g.sid ≡ some sid
    → lookup ticker (after_events later (process m s).1).ticker_stream ≡ some (f.epoch, sid)
    → (status_of (process m s) ≡ gap)
      × ((process m s).1.needs_resync ≡ true)
      × (book ticker (after_events later (process m s).1) ≡ none)
      × (goes_on (sequence g (after_events later (process m s).1)) ≡ false)
lost_frame m f g sid seq last s later ticker is_f is_sid is_seq clean found lost same_epoch is_g
      stream =
    let same : process m s ≡ gap_found f sid s =
      process-rejected m f s (gap_found f sid s) is_f
        (gap_found-rejected f sid seq last s is_sid is_seq clean found lost) in
    let poisoned : IsPoisoned (f.epoch, sid) (process m s).1 = rw same (ground arith) in
    let kept = after_events-IsPoisoned (f.epoch, sid) later (process m s).1 poisoned in
    (
      rw same refl,
      rw same refl,
      unbooked (f.epoch, sid) ticker (after_events later (process m s).1) kept stream,
      shut g f.epoch sid (after_events later (process m s).1) _ same_epoch is_g kept refl,
    )
