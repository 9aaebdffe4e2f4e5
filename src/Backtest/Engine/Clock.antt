-- ===== src/Backtest/Engine/Clock.antt =====
-- The clock of a replay and its schedule.
use kalshi_quant_research.Prelude.{
  All, ℕ, ◌≤◌, ◌≡◌, inl, inr, List, [], ◌∷◌, arith, ltb, Bool-cases, ok, AllOk, AllOk-value,
  AllOk-all, nat_key, string_key,
}
use mathlib.Core.Path.{subst}
use kalshi_quant_research.Backtest.Events.{Priority}
use kalshi_quant_research.Backtest.Portfolio.{buy}
use kalshi_quant_research.Backtest.Engine.State.{
  BacktestConfig, Payload, Scheduled, Engine, before, push, schedule,
}
use kalshi_quant_research.Backtest.Engine.Context.{Strategy}
use kalshi_quant_research.Backtest.Engine.Replay.{Replay, turns, at_time}
use kalshi_quant_research.Backtest.Engine.Kept.{
  Any, All-Any, HeadFrom, SurvivesWrites, handlers_of_writes,
}
use kalshi_quant_research.Backtest.Engine.Runs.{turns-kept}

-- The times of a schedule never fall, and none is before `ts`.
abbrev pub Ascending : ℕ → List Scheduled → Type 0
Ascending ts [] = Unit
Ascending ts (x ∷ heap) = (ts ≤ x.ts_ns) × Ascending x.ts_ns heap

-- The clock has reached `since`, and nothing on the schedule is overdue.
pub record IsOnTime (since : ℕ) (e : Engine) : Type 0 where
  pub reached : since ≤ e.now
  pub ahead : Ascending e.now e.heap

push-Ascending :
    (ts : ℕ) (x : Scheduled) (heap : List Scheduled)
    → ts ≤ x.ts_ns
    → Ascending ts heap
    → Ascending ts (push x heap)
unfolding push
push-Ascending ts x [] le h = (le, tt)
push-Ascending ts x (y ∷ ys) le h = elim (Bool-cases (before x y)) [
  | inl first ↦ rw (first, Ascending) (le, (ground arith, h.1))
  | inr later ↦ rw (later, Ascending) (h.0, push-Ascending y.ts_ns x ys (ground arith) h.1)
]

later-Ascending :
    (ts later : ℕ) (heap : List Scheduled)
    → HeadFrom later heap
    → Ascending ts heap
    → Ascending later heap
later-Ascending ts later [] head h = tt
later-Ascending ts later (x ∷ heap) head h = (head, h.1)

schedule-IsOnTime :
    (since ts : ℕ) (p : Priority) (x : Payload) (e : Engine)
    → IsOnTime since e
    → AllOk (IsOnTime since) (schedule ts p x e)
unfolding schedule
schedule-IsOnTime since ts p x e h = elim (Bool-cases (ltb ts e.now)) [
  | inl past ↦ rw (past, AllOk) tt
  | inr due ↦
      rw (due, AllOk)
        (record {
          reached = h.reached;
          ahead = push-Ascending e.now _ e.heap (ground arith) h.ahead;
        })
]

pop-IsOnTime :
    (since : ℕ) (top : Scheduled) (heap : List Scheduled) (e : Engine)
    → e.heap ≡ top ∷ heap
    → IsOnTime since e
    → IsOnTime since (at_time top.ts_ns (record e { heap = heap }))
pop-IsOnTime since top heap e same h =
    let due : Ascending e.now (top ∷ heap) = subst (Ascending e.now) same h.ahead in
    record { reached = ground (arith, h.reached, due.0); ahead = due.1 }

clock_survives : (since : ℕ) → SurvivesWrites (IsOnTime since)
clock_survives since = record {
  writes =
      λ e state resting reserved records fill_log equity_curve settlements next_id next_sample h.
        record { reached = h.reached; ahead = h.ahead };
  schedules = schedule-IsOnTime since;
  buys = λ t side price qty fee e h.
      AllOk-all (λ f. IsOnTime since (record e { portfolio = f }))
        (buy t side price qty fee e.portfolio)
        (λ f. record { reached = h.reached; ahead = h.ahead });
  settles = λ t value e h. record { reached = h.reached; ahead = h.ahead };
  reads = λ ts e le head h. record {
    reached = ground (arith, h.reached);
    ahead = later-Ascending e.now ts e.heap head h.ahead;
  };
  pops = pop-IsOnTime since;
}

-- However many turns are taken, the clock never goes back, the schedule stays in the order of its
-- times, and nothing on it is ever overdue.
pub turns-Ascending :
    (cfg : BacktestConfig) {S : Type 0} (strategy : Strategy S) (n : ℕ) (r after : Replay S)
    → Ascending r.engine.now r.engine.heap
    → turns cfg strategy n r ≡ ok after
    → (r.engine.now ≤ after.engine.now) × Ascending after.engine.now after.engine.heap
turns-Ascending cfg strategy n r after h e =
    let kept =
      AllOk-value (λ x. IsOnTime r.engine.now x.engine × All Any x.feed) (turns cfg strategy n r)
        after
        (turns-kept cfg strategy (handlers_of_writes cfg (clock_survives r.engine.now)) n r
          (record { reached = omega arith; ahead = h }, All-Any r.feed))
        e in
    (kept.0.reached, kept.0.ahead)
