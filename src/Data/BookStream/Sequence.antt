-- ===== src/Data/BookStream/Sequence.antt =====
-- `_sequence`: which frames of a stream go on.
use kalshi_quant_research.Prelude.{
  ℕ, suc, ◌≡◌, refl, sym, ap, ◌∙◌, ◌≢◌, inl, inr, Bool, true, false, Option, none, some, arith,
  ◌==◌, Bool-cases, Option-cases, nat_key, string_key,
}
use kalshi_quant_research.Prelude.Dict.{lookup}
use kalshi_quant_research.Market.Contracts.{Ticker}
use kalshi_quant_research.Data.BookStream.{
  ApplyStatus, applied, stale_stream, StreamKey, stream_key, Frame, WsMessage, ws_snapshot,
  ws_delta, ws_other, BookStreamProcessor, contained, Outcome, reject, accept, Sequenced, rejected,
  proceed, after_last, sequence_key, sequence_of, sequence,
}

-- The status of an outcome.
abbrev pub status_of : Outcome → ApplyStatus
status_of o = o.0.status

-- The frame of a message, if it has one.
abbrev pub frame_of : WsMessage → Option Frame
frame_of (ws_snapshot f yes_levels no_levels) = some f
frame_of (ws_delta f side price delta) = some f
frame_of ws_other = none

-- A number that comes after the last one of its stream, if there is a last one.
abbrev pub follows : Option ℕ → ℕ → Bool
follows none seq = true
follows (some last) seq = seq == suc last

-- A frame is the next one of its stream: it has both numbers, the stream is not poisoned, and the
-- number is one above the last one, where there is a last one.
abbrev pub IsNext : Frame → ℕ → BookStreamProcessor → Type 0
IsNext f seq s =
    (sid : ℕ) × (f.sid ≡ some sid)
    × (f.seq ≡ some seq)
    × (contained (f.epoch, sid) s.poisoned ≡ false)
    × (follows (lookup (f.epoch, sid) s.last_seq) seq ≡ true)

sequence_key-proceed :
    (key : StreamKey) (n : ℕ) (ticker : Ticker) (s : BookStreamProcessor) (seq : ℕ)
    (t : BookStreamProcessor)
    → sequence_key key n ticker s ≡ proceed seq t
    → (n ≡ seq)
      × (t ≡ accept key n ticker s)
      × (contained key s.poisoned ≡ false)
      × (follows (lookup key s.last_seq) n ≡ true)
sequence_key-proceed key n ticker s seq t e = elim (Bool-cases (contained key s.poisoned)) [
  | inl bad ↦ absurd (ground (arith, rw (bad, sequence_key) at e))
  | inr clean ↦ elim (Option-cases (lookup key s.last_seq)) [
    | inl first ↦
        let same : proceed n (accept key n ticker s) ≡ proceed seq t =
          rw (clean, first, sequence_key) at e in
        (ground (arith, same), ground (arith, same), clean, rw (first, follows) refl)
    | inr (last, found) ↦
        let same : after_last key last n ticker s ≡ proceed seq t =
          rw (clean, found, sequence_key) at e in
        (
          ground (arith, same),
          ground (arith, same),
          clean,
          rw (found, follows) (ground (arith, same)),
        )
  ]
]

sequence_key-rejected :
    (key : StreamKey) (n : ℕ) (ticker : Ticker) (s : BookStreamProcessor) (o : Outcome)
    → sequence_key key n ticker s ≡ rejected o
    → status_of o ≢ applied
sequence_key-rejected key n ticker s o e = elim (Bool-cases (contained key s.poisoned)) [
  | inl bad ↦
      let same : rejected (reject stale_stream ticker false s) ≡ rejected o =
        rw (bad, sequence_key) at e in
      λ h. ground (arith, same, h)
  | inr clean ↦ elim (Option-cases (lookup key s.last_seq)) [
    | inl first ↦ absurd (ground (arith, rw (clean, first, sequence_key) at e))
    | inr (last, found) ↦
        let same : after_last key last n ticker s ≡ rejected o =
          rw (clean, found, sequence_key) at e in
        λ h. ground (arith, same, h)
  ]
]

-- A frame that goes on is the next one of its stream, and the state takes its number.
pub sequence-proceed :
    (f : Frame) (s : BookStreamProcessor) (seq : ℕ) (t : BookStreamProcessor)
    → sequence f s ≡ proceed seq t
    → (next : IsNext f seq s) × (t ≡ accept (f.epoch, next.0) seq f.market_ticker s)
unfolding sequence
sequence-proceed f s seq t e = go f.sid f.seq refl refl e
  where
    go :
        (sid n : Option ℕ)
        → f.sid ≡ sid
        → f.seq ≡ n
        → sequence_of f.epoch sid n f.market_ticker s ≡ proceed seq t
        → (next : IsNext f seq s) × (t ≡ accept (f.epoch, next.0) seq f.market_ticker s)
    go (some sid) (some n) is_sid is_n k =
        let (same, state, clean, after) =
          sequence_key-proceed (f.epoch, sid) n f.market_ticker s seq t k in
        (
          (sid, is_sid, is_n ∙ ap some same, clean, rw (sym same) after),
          state ∙ ap (λ m. accept (f.epoch, sid) m f.market_ticker s) same,
        )
    go (some sid) none is_sid is_n k = ground arith
    go none n is_sid is_n k = ground arith

pub sequence-rejected :
    (f : Frame) (s : BookStreamProcessor) (o : Outcome)
    → sequence f s ≡ rejected o
    → status_of o ≢ applied
unfolding sequence
sequence-rejected f s o e = go f.sid f.seq e
  where
    go :
        (sid n : Option ℕ)
        → sequence_of f.epoch sid n f.market_ticker s ≡ rejected o
        → status_of o ≢ applied
    go (some sid) (some n) k = sequence_key-rejected (f.epoch, sid) n f.market_ticker s o k
    go (some sid) none k = λ h. ground (arith, k, h)
    go none n k = λ h. ground (arith, k, h)

abbrev pub goes_on : Sequenced → Bool
goes_on (proceed n t) = true
goes_on (rejected o) = false
