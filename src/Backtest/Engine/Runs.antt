-- ===== src/Backtest/Engine/Runs.antt =====
-- What the handlers keep, the loop keeps: by turns, and over a whole replay.
use kalshi_quant_research.Prelude.{
  ◌==◌, All, ℕ, zero, suc, ◌≡◌, refl, inl, inr, Bool, true, false, some, List, [], ◌∷◌, arith, ltb,
  Bool-cases, ok, >>=-eq-ok, AllOk, AllOk-value, >>=-AllOk, nat_key, string_key,
}
use kalshi_quant_research.Market.Contracts.{Ticker}
use kalshi_quant_research.Backtest.Events.{FeedEvent, event_ts}
use kalshi_quant_research.Backtest.Engine.State.{
  BacktestConfig, Payload, order_payload, cancel_payload, fill_payload, rejected_payload,
  wake_payload, Scheduled, Engine, new_engine,
}
use kalshi_quant_research.Backtest.Engine.Context.{
  Script, done, look, place, cancel, wake_at, Strategy, run_script, context, Notice,
}
use kalshi_quant_research.Backtest.Engine.Kept.{HeadFrom, SurvivesHandlers}
use kalshi_quant_research.Backtest.Engine.Replay.{
  same_instant, at_time, Replay, Choice, finished, from_feed, from_heap, choose, not_after,
  is_heard, tell, apply_batch, notify_batch, dispatch, begin, batch_turn, feed_turn, heap_turn,
  turn, turns, start, finish, run, is_finished, BacktestResult, result_of,
}
use mathlib.Core.Path.{subst}

-- What `choose` found, of the feed and of the schedule.
abbrev pub ChoiceOf : List FeedEvent → List Scheduled → Choice → Type 0
ChoiceOf feed heap finished = (feed ≡ []) × (heap ≡ [])
ChoiceOf feed heap (from_feed ev rest) = (feed ≡ ev ∷ rest) × HeadFrom (event_ts ev) heap
ChoiceOf feed heap (from_heap top rest) = heap ≡ top ∷ rest

pub choose-ChoiceOf :
    (feed : List FeedEvent) (heap : List Scheduled) → ChoiceOf feed heap (choose feed heap)
unfolding choose
choose-ChoiceOf [] [] = (refl, refl)
choose-ChoiceOf [] (top ∷ heap) = refl
choose-ChoiceOf (ev ∷ feed) [] = (refl, tt)
choose-ChoiceOf (ev ∷ feed) (top ∷ heap) = elim (Bool-cases (not_after ev top)) [
  | inl first ↦ rw (first, ChoiceOf) (refl, ground arith)
  | inr after ↦ rw (after, ChoiceOf) refl
]

same_instant-All :
    (Ok : FeedEvent → Type 0) (ts : ℕ) (evs : List FeedEvent)
    → All Ok evs
    → All Ok (same_instant ts evs).0 × All Ok (same_instant ts evs).1
same_instant-All Ok ts [] a = (tt, tt)
same_instant-All Ok ts (ev ∷ evs) a =
    let ih = same_instant-All Ok ts evs a.1 in
    elim (Bool-cases (event_ts ev == ts)) [
      | inl now ↦ rw now ((a.0, ih.0), ih.1)
      | inr later ↦ rw later (tt, a)
    ]

module _ (cfg : BacktestConfig) {S : Type 0} (strategy : Strategy S) {Ok : FeedEvent → Type 0}
    {P : Engine → Type 0} (k : SurvivesHandlers cfg Ok P) where
  -- the engine of a handler's outcome
  abbrev KeptPair : S × Engine → Type 0
  KeptPair x = P x.1

  run_script-kept : (p : Script S) (e : Engine) → P e → AllOk KeptPair (run_script cfg p e)
  unfolding run_script
  run_script-kept (done s) e h = h
  run_script-kept (look next) e h = run_script-kept (next (context e)) e h
  run_script-kept (place order next) e h =
      >>=-AllOk (λ (r : ℕ × Engine). P r.1) KeptPair _ _ (k.submits order e h)
        (λ r kept. run_script-kept (next r.0) r.1 kept)
  run_script-kept (cancel oid rest) e h =
      >>=-AllOk P KeptPair _ _ (k.asks oid e h) (λ a kept. run_script-kept rest a kept)
  run_script-kept (wake_at w rest) e h =
      >>=-AllOk P KeptPair _ _ (k.wakes w e h) (λ a kept. run_script-kept rest a kept)

  tell-kept : (n : Notice) (x : S × Engine) → KeptPair x → AllOk KeptPair (tell cfg strategy n x)
  unfolding tell
  tell-kept n (s, e) h = run_script-kept (strategy.on_event n s) e h

  apply_batch-kept :
      (evs : List FeedEvent) (e : Engine)
      → All Ok evs
      → P e
      → AllOk P (apply_batch cfg strategy evs e)
  unfolding apply_batch
  apply_batch-kept [] e fine h = h
  apply_batch-kept (ev ∷ evs) e fine h =
      >>=-AllOk P P _ _ (k.feeds ev e fine.0 h) (λ a kept. apply_batch-kept evs a fine.1 kept)

  notify_batch-kept :
      (evs : List FeedEvent) (x : S × Engine)
      → KeptPair x
      → AllOk KeptPair (notify_batch cfg strategy evs x)
  unfolding notify_batch
  notify_batch-kept [] x h = h
  notify_batch-kept (ev ∷ evs) x h = elim (Bool-cases (is_heard ev x.1)) [
    | inl heard ↦
        rw heard (
          >>=-AllOk KeptPair KeptPair _ _ (tell-kept _ x h)
            (λ a kept. notify_batch-kept evs a kept))
    | inr unheard ↦ rw unheard (notify_batch-kept evs x h)
  ]

  -- what comes off the schedule, by its payload
  dispatch-kept :
      (p : Payload) (top : Scheduled) (heap : List Scheduled) (s : S) (e : Engine)
      → top.payload ≡ p
      → e.heap ≡ top ∷ heap
      → P e
      → AllOk KeptPair (dispatch cfg strategy p (s, at_time top.ts_ns (record e { heap = heap })))
  unfolding dispatch
  dispatch-kept (order_payload oid order) top heap s e is_p same h =
      >>=-AllOk P KeptPair _ _ (k.arrives top heap oid order e same is_p h) (λ a kept. kept)
  dispatch-kept (cancel_payload oid) top heap s e is_p same h =
      >>=-AllOk P KeptPair _ _ (k.cancels oid _ (k.takes top heap e same h)) (λ a kept. kept)
  dispatch-kept (fill_payload n) top heap s e is_p same h =
      tell-kept _ (s, _) (k.takes top heap e same h)
  dispatch-kept (rejected_payload n) top heap s e is_p same h =
      tell-kept _ (s, _) (k.takes top heap e same h)
  dispatch-kept (wake_payload n) top heap s e is_p same h =
      tell-kept _ (s, _) (k.takes top heap e same h)

  begin-kept : (started : Bool) (e : Engine) → P e → P (begin cfg strategy started e)
  begin-kept false e h = k.begins e h
  begin-kept true e h = h

  abbrev KeptReplay : Replay S → Type 0
  KeptReplay r = P r.engine × All Ok r.feed

  feed_turn-kept :
      (ev : FeedEvent) (rest : List FeedEvent) (r : Replay S)
      → HeadFrom (event_ts ev) r.engine.heap
      → All Ok (ev ∷ rest)
      → P r.engine
      → AllOk KeptReplay (feed_turn cfg strategy ev rest r)
  unfolding feed_turn batch_turn
  feed_turn-kept ev rest r head fine h = elim (Bool-cases (ltb (event_ts ev) r.engine.now)) [
    | inl backwards ↦ rw (backwards, AllOk) tt
    | inr onwards ↦
        let (now, later) = same_instant-All Ok (event_ts ev) rest fine.1 in
        rw (onwards, AllOk)
          (>>=-AllOk P KeptReplay _ _
            (apply_batch-kept _ _ (fine.0, now)
              (begin-kept r.started _ (k.advances (event_ts ev) r.engine (ground arith) head h)))
            (λ a applied.
              >>=-AllOk KeptPair KeptReplay _ _ (notify_batch-kept _ _ applied)
                (λ b told. (k.samples false b.1 told, later))))
  ]

  heap_turn-kept :
      (top : Scheduled) (heap : List Scheduled) (r : Replay S)
      → r.engine.heap ≡ top ∷ heap
      → KeptReplay r
      → AllOk KeptReplay (heap_turn cfg strategy top heap r)
  unfolding heap_turn
  heap_turn-kept top heap r same h =
      >>=-AllOk KeptPair KeptReplay _ _
        (dispatch-kept top.payload top heap r.memory r.engine refl same h.0)
        (λ b told. (k.samples false b.1 told, h.1))

  -- by the choice of a turn
  turn_by-kept :
      (c : Choice) (r : Replay S)
      → ChoiceOf r.feed r.engine.heap c
      → KeptReplay r
      → AllOk KeptReplay (elim c [
        | finished ↦ ok r
        | from_feed ev rest ↦ feed_turn cfg strategy ev rest r
        | from_heap top heap ↦ heap_turn cfg strategy top heap r
      ])
  turn_by-kept finished r c h = h
  turn_by-kept (from_feed ev rest) r c h = feed_turn-kept ev rest r c.1 (subst (All Ok) c.0 h.1) h.0
  turn_by-kept (from_heap top heap) r c h = heap_turn-kept top heap r c h

  turn-kept : (r : Replay S) → KeptReplay r → AllOk KeptReplay (turn cfg strategy r)
  unfolding turn
  turn-kept r h =
      turn_by-kept (choose r.feed r.engine.heap) r (choose-ChoiceOf r.feed r.engine.heap) h

  pub turns-kept :
      (n : ℕ) (r : Replay S)
      → P r.engine × All Ok r.feed
      → AllOk (λ (after : Replay S). P after.engine × All Ok after.feed) (turns cfg strategy n r)
  unfolding turns
  turns-kept zero r h = h
  turns-kept (suc n) r h =
      >>=-AllOk KeptReplay KeptReplay _ _ (turn-kept r h) (λ a kept. turns-kept n a kept)

  pub start-kept :
      (tickers : List Ticker) (s : S) (feed : List FeedEvent)
      → All Ok feed
      → P (new_engine cfg tickers)
      → AllOk
          (λ (begun : Replay S). P begun.engine × All Ok begun.feed)
          (start cfg strategy tickers s feed)
  unfolding start
  start-kept tickers s feed fine h =
      >>=-AllOk KeptPair KeptReplay _ _ (run_script-kept (strategy.on_start s) _ h)
        (λ b kept. (kept, fine))

  -- What holds of every result made from an engine with the property holds of a replay's result.
  pub run-kept :
      (Q : BacktestResult → Type 0)
      → ((e : Engine) → P e → Q (result_of e))
      → (fuel : ℕ) (tickers : List Ticker) (s : S) (feed : List FeedEvent) (result : BacktestResult)
      → All Ok feed
      → P (new_engine cfg tickers)
      → run cfg strategy fuel tickers s feed ≡ ok (some result)
      → Q result
  unfolding run finish
  run-kept Q reports fuel tickers s feed result fine h e =
      let (begun, is_begun, ran) = >>=-eq-ok (start cfg strategy tickers s feed) _ e in
      let (last, is_last, ended) = >>=-eq-ok (turns cfg strategy fuel begun) _ ran in
      let first = AllOk-value KeptReplay _ begun (start-kept tickers s feed fine h) is_begun in
      let kept = AllOk-value KeptReplay _ last (turns-kept fuel begun first) is_last in
      elim (Bool-cases (is_finished cfg strategy last)) [
        | inl over ↦
            let (r, finished_with, is_some) =
              >>=-eq-ok (finish cfg strategy last) _ (rw over at ended) in
            let same : r ≡ result = cc in
            let reported =
              >>=-AllOk KeptPair Q _ _
                (run_script-kept (strategy.on_end last.memory) _
                  (k.samples true last.engine kept.0))
                (λ b told. reports b.1 told) in
            subst Q same (AllOk-value Q _ r reported finished_with)
        | inr unfinished ↦ let absurd = rw unfinished at ended in cc
      ]
