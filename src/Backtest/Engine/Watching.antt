-- ===== src/Backtest/Engine/Watching.antt =====
-- backtest/engine.py: replays of a strategy that only looks at its context.
use kalshi_quant_research.Prelude.{
  ℕ, zero, suc, ◌≤◌, ◌≡◌, refl, sym, ap, ◌∙◌, inl, inr, Bool, true, false, some, List, [], ◌∷◌,
  arith, ltb, ◌==◌, Bool-cases, length, All, Result, ok, ◌>>=◌, nat_key, string_key,
}
use Prim.{⊥, absurd}
use mathlib.Core.Path.{subst}
use kalshi_quant_research.Market.Contracts.{Ticker}
use kalshi_quant_research.Backtest.Events.{FeedEvent, event_ts}
use kalshi_quant_research.Backtest.Engine.State.{
  BacktestConfig, Scheduled, Engine, new_engine, sample_equity,
}
use kalshi_quant_research.Backtest.Engine.Context.{
  Context, Script, done, look, place, cancel, wake_at, Strategy, run_script, context, Notice,
  feed_notice,
}
use kalshi_quant_research.Backtest.Engine.Replay.{
  Replay, BacktestResult, result_of, is_heard, same_instant, tell, apply_batch, notify_batch, begin,
  at_time, batch_turn, feed_turn, turn, turns, choose, Choice, heap_turn, from_heap, finished,
  from_feed, start, finish, run, is_finished,
}
use kalshi_quant_research.Backtest.Engine.Idle.{
  IsIdle, IsReadable, Returns, sample-IsIdle, apply_feed-Returns,
}

-- A handler that only looks.
abbrev pub Watches : {S : Type 0} → Script S → Type 0
Watches (done s) = Unit
Watches (look k) = (c : Context) → Watches (k c)
Watches (place order k) = ⊥
Watches (cancel oid rest) = ⊥
Watches (wake_at w rest) = ⊥

-- The times of a feed never fall, and none is before `ts`.
abbrev pub Timed : ℕ → List FeedEvent → Type 0
Timed ts [] = Unit
Timed ts (ev ∷ feed) = (ts ≤ event_ts ev) × Timed (event_ts ev) feed

Timed-earlier : (a b : ℕ) (feed : List FeedEvent) → a ≤ b → Timed b feed → Timed a feed
Timed-earlier a b [] le h = tt
Timed-earlier a b (ev ∷ feed) le h = (omega (arith, le, h.0), h.1)

-- A feed that can be read from `ts` on.
abbrev Readable : ℕ → List FeedEvent → Type 0
Readable ts feed = Timed ts feed × All IsReadable feed

same_instant-Readable :
    (ts : ℕ) (feed : List FeedEvent)
    → Readable ts feed
    → All IsReadable (same_instant ts feed).0
      × Readable ts (same_instant ts feed).1
      × (length (same_instant ts feed).1 ≤ length feed)
same_instant-Readable ts [] h = (tt, h, omega arith)
same_instant-Readable ts (ev ∷ feed) (timed, fine) = elim (Bool-cases (event_ts ev == ts)) [
  | inl now ↦
      let (batch, rest, shorter) =
        same_instant-Readable ts feed
          (Timed-earlier ts (event_ts ev) feed timed.0 timed.1, fine.1) in
      rw now ((fine.0, batch), rest, omega (arith, shorter))
  | inr later ↦ rw later (tt, (timed, fine), omega arith)
]

choose_end :
    (feed : List FeedEvent) (heap : List Scheduled)
    → feed ≡ []
    → heap ≡ []
    → choose feed heap ≡ finished
unfolding choose
choose_end feed heap no_feed no_heap = rw (no_feed, no_heap) refl

choose_feed :
    (ev : FeedEvent) (rest feed : List FeedEvent) (heap : List Scheduled)
    → feed ≡ ev ∷ rest
    → heap ≡ []
    → choose feed heap ≡ from_feed ev rest
unfolding choose
choose_feed ev rest feed heap same no_heap = rw (same, no_heap) refl

module _ (cfg : BacktestConfig) where
  run_script-Watches :
      {S : Type 0} (p : Script S) (e : Engine)
      → Watches p
      → (s : S) × (run_script cfg p e ≡ ok (s, e))
  unfolding run_script
  run_script-Watches (done s) e w = (s, refl)
  run_script-Watches (look k) e w = run_script-Watches (k (context e)) e (w (context e))
  run_script-Watches (place order k) e w = absurd w
  run_script-Watches (cancel oid rest) e w = absurd w
  run_script-Watches (wake_at x rest) e w = absurd w

  apply_batch-Returns :
      {S : Type 0} (strategy : Strategy S) (evs : List FeedEvent) (e : Engine)
      → All IsReadable evs
      → IsIdle e
      → Returns e (apply_batch cfg strategy evs e)
  unfolding apply_batch
  apply_batch-Returns strategy [] e fine h = (e, refl, h, refl)
  apply_batch-Returns strategy (ev ∷ evs) e (fine, all_fine) h =
      let (first, first_ok, first_idle, first_now) = apply_feed-Returns cfg ev e fine h in
      let (last, last_ok, last_idle, last_now) =
        apply_batch-Returns strategy evs first all_fine first_idle in
      (
        last,
        ap (λ r. r >>= apply_batch cfg strategy evs) first_ok ∙ last_ok,
        last_idle,
        last_now ∙ first_now,
      )

  notify_batch-Watches :
      {S : Type 0} (strategy : Strategy S)
      → ((n : Notice) (s : S) → Watches (strategy.on_event n s))
      → (evs : List FeedEvent) (s : S) (e : Engine)
      → (t : S) × (notify_batch cfg strategy evs (s, e) ≡ ok (t, e))
  unfolding notify_batch tell
  notify_batch-Watches strategy watches [] s e = (s, refl)
  notify_batch-Watches strategy watches (ev ∷ evs) s e = elim (Bool-cases (is_heard ev e)) [
    | inl heard ↦
        let (t, told) =
          run_script-Watches (strategy.on_event (feed_notice ev) s) e
            (watches (feed_notice ev) s) in
        let (u, rest) = notify_batch-Watches strategy watches evs t e in
        rw heard (u, ap (λ r. r >>= notify_batch cfg strategy evs) told ∙ rest)
    | inr deaf ↦ rw deaf (notify_batch-Watches strategy watches evs s e)
  ]

module _ (cfg : BacktestConfig) {S : Type 0} (strategy : Strategy S)
    (watches : (n : Notice) (s : S) → Watches (strategy.on_event n s)) where
  -- A replay that is idle, whose feed can be read.
  abbrev IsCalm : Replay S → Type 0
  IsCalm r = IsIdle r.engine × Readable r.engine.now r.feed

  begin-IsIdle :
      (started : Bool) (ts : ℕ) (e : Engine)
      → IsIdle e
      → IsIdle (begin cfg strategy started (at_time ts e))
        × ((begin cfg strategy started (at_time ts e)).now ≡ ts)
  begin-IsIdle true ts e h = (record { heap = h.heap; resting = h.resting }, refl)
  begin-IsIdle false ts e h = (record { heap = h.heap; resting = h.resting }, refl)

  batch_turn-IsCalm :
      (ts : ℕ) (batch rest : List FeedEvent) (r : Replay S)
      → All IsReadable batch
      → Readable ts rest
      → IsIdle r.engine
      → (a : Replay S) × (batch_turn cfg strategy ts batch rest r ≡ ok a)
        × IsCalm a
        × (a.feed ≡ rest)
  unfolding batch_turn
  batch_turn-IsCalm ts batch rest r fine later h =
      let (idle, at_ts) = begin-IsIdle r.started ts r.engine h in
      let (applied, applied_ok, applied_idle, applied_now) =
        apply_batch-Returns cfg strategy batch (begin cfg strategy r.started (at_time ts r.engine))
          fine idle in
      let (t, told) = notify_batch-Watches cfg strategy watches batch r.memory applied in
      let (sampled, same_now) = sample-IsIdle cfg false applied applied_idle in
      (
        record {
          engine = sample_equity cfg false applied;
          memory = t;
          feed = rest;
          started = true;
        },
        rw (applied_ok, told) refl,
        (sampled, subst (λ n. Readable n rest) (sym (same_now ∙ applied_now ∙ at_ts)) later),
        refl,
      )

  feed_turn-IsCalm :
      (ev : FeedEvent) (rest : List FeedEvent) (r : Replay S)
      → Readable r.engine.now (ev ∷ rest)
      → IsIdle r.engine
      → (a : Replay S) × (feed_turn cfg strategy ev rest r ≡ ok a)
        × IsCalm a
        × (length a.feed ≤ length rest)
  unfolding feed_turn
  feed_turn-IsCalm ev rest r (timed, fine) h =
      let ts = event_ts ev in
      let (batch, later, shorter) = same_instant-Readable ts rest (timed.1, fine.1) in
      let (a, turned, calm, left) =
        batch_turn-IsCalm ts (ev ∷ (same_instant ts rest).0) (same_instant ts rest).1 r
          (fine.0, batch) later h in
      let in_time : ltb ts r.engine.now ≡ false = ground (arith, timed.0) in
      (a, rw in_time turned, calm, subst (λ feed. length feed ≤ length rest) (sym left) shorter)

  turn_by : Replay S → Choice → Result (Replay S)
  turn_by r c = elim c [
    | finished ↦ ok r
    | from_feed ev rest ↦ feed_turn cfg strategy ev rest r
    | from_heap top heap ↦ heap_turn cfg strategy top heap r
  ]

  turn_end : (r : Replay S) → r.feed ≡ [] → r.engine.heap ≡ [] → turn cfg strategy r ≡ ok r
  unfolding turn turn_by
  turn_end r no_feed no_heap = ap (turn_by r) (choose_end r.feed r.engine.heap no_feed no_heap)

  turn_feed :
      (ev : FeedEvent) (rest : List FeedEvent) (r : Replay S)
      → r.feed ≡ ev ∷ rest
      → r.engine.heap ≡ []
      → turn cfg strategy r ≡ feed_turn cfg strategy ev rest r
  unfolding turn turn_by
  turn_feed ev rest r same no_heap =
      ap (turn_by r) (choose_feed ev rest r.feed r.engine.heap same no_heap)

  finished_end :
      (r : Replay S) → r.feed ≡ [] → r.engine.heap ≡ [] → is_finished cfg strategy r ≡ true
  finished_end r no_feed no_heap =
      ap
        (λ (c : Choice). elim c [
          | finished ↦ true
          | from_feed ev rest ↦ false
          | from_heap top heap ↦ false
        ])
        (choose_end r.feed r.engine.heap no_feed no_heap)

  turns-Ends :
      (n : ℕ) (feed : List FeedEvent) (r : Replay S)
      → r.feed ≡ feed
      → length feed ≤ n
      → IsCalm r
      → (a : Replay S) × (turns cfg strategy n r ≡ ok a) × (a.feed ≡ []) × IsIdle a.engine
  unfolding turns
  turns-Ends zero [] r same le h = (r, refl, same, h.0)
  turns-Ends zero (ev ∷ feed) r same le h = absurd (omega (arith, le))
  turns-Ends (suc n) [] r same le h =
      let (a, ended, empty, idle) = turns-Ends n [] r same (omega arith) h in
      (a, ap (λ t. t >>= turns cfg strategy n) (turn_end r same h.0.heap) ∙ ended, empty, idle)
  turns-Ends (suc n) (ev ∷ feed) r same le h =
      let (next, turned, calm, left) =
        feed_turn-IsCalm ev feed r (subst (Readable r.engine.now) same h.1) h.0 in
      let (a, ended, empty, idle) =
        turns-Ends n next.feed next refl (omega (arith, le, left)) calm in
      (
        a,
        ap (λ t. t >>= turns cfg strategy n) (turn_feed ev feed r same h.0.heap ∙ turned) ∙ ended,
        empty,
        idle,
      )

  -- A replay of a strategy that only looks ends with a result: no exception is raised and as many turns
  -- as the feed has events are enough, when the times of the feed never fall and the levels of every
  -- snapshot in it can be read.
  pub run-Ends :
      ((s : S) → Watches (strategy.on_start s))
      → ((s : S) → Watches (strategy.on_end s))
      → (tickers : List Ticker) (s : S) (feed : List FeedEvent) (fuel : ℕ) → Timed 0 feed
      → All IsReadable feed
      → length feed ≤ fuel
      → (result : BacktestResult) × (run cfg strategy fuel tickers s feed ≡ ok (some result))
  unfolding run start finish
  run-Ends starts ends tickers s feed fuel timed fine le =
      let e = new_engine cfg tickers in
      let (t, begun) = run_script-Watches cfg (strategy.on_start s) e (starts s) in
      let (a, ended, empty, idle) =
        turns-Ends fuel feed (record { engine = e; memory = t; feed = feed; started = false }) refl
          le (record { heap = refl; resting = refl }, (timed, fine)) in
      let last = sample_equity cfg true a.engine in
      let (u, closed) = run_script-Watches cfg (strategy.on_end a.memory) last (ends a.memory) in
      (result_of last, rw (begun, ended, finished_end a empty idle.heap, closed) refl)
