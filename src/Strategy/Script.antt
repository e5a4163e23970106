-- ===== src/Strategy/Script.antt =====
-- The script of position_manager/app/strategy/strategy_runner.py: the log is read from the standard
-- input, a position manager is wired to a simulated broker, and the log is replayed to it.
-- `loads` is `json.loads` of a line without its blanks; `none` is a `JSONDecodeError`.
use flow_manager.SimulatedBroker.{init as new_broker}
use flow_manager.Base.{Bool, List, Option, String, [], none, some, string_eq, true, ℕ, ◌∷◌}
use flow_manager.PositionManager.{
  PositionManager, Snapshot, get_current_state_snapshot, init, terminate,
}
use flow_manager.PositionManager.Orders.{Input, run_loop}
use flow_manager.SimulatedBroker.{SimulatedBroker, simulated}
use flow_manager.Strategy.{
  Ending, EventData, Turn, mistyped, replay_events_log, replay_failed, replayed, stopped,
}

-- The loop of `read_event_log_from_stdin`. A line that is not JSON is logged and left out.
unfoldable pub read_event_log : (String → Option EventData) → List String → List EventData
read_event_log loads [] = []
read_event_log loads (line ∷ lines) =
    let rest = read_event_log loads lines in elim (loads line) [ none ↦ rest | some e ↦ e ∷ rest ]

-- What the other threads do before each event; when no more is written they do nothing.
unfoldable pub interleave {ℓ κ} :
    {A : Type ℓ} {E : Type κ} → List (List A) → List E → List (List A × E)
interleave turns [] = []
interleave [] (e ∷ es) = ([], e) ∷ interleave [] es
interleave (t ∷ ts) (e ∷ es) = (t, e) ∷ interleave ts es

-- The simulated broker, built with the position manager's callback.
abbrev pub sim_broker : SimulatedBroker
sim_broker = new_broker true

-- How the script ends: it exits since there are no events, the replay raises an exception, the model
-- ends since an update of other types is queued, or it
-- logs a last summary, with or without a warning that the thread of the position manager goes on.
pub data Run : Type 0 where
  no_events : Run
  broken mistyped_sent : PositionManager SimulatedBroker → Run
  finished : Bool → Snapshot → PositionManager SimulatedBroker → Run

-- The end of the script: `terminate`, `join` and the last summary. `later` is what arrives before
-- each test of the flag that the thread still makes within the time of `join`.
unfoldable pub wind_up : (ℕ → String) → List (List Input) → PositionManager SimulatedBroker → Run
unfolding terminate
wind_up uuid later p =
    let (over, q) = run_loop simulated uuid later (terminate p) in
    finished over (get_current_state_snapshot q) q

unfoldable pub after_replay :
    (ℕ → String) → List (List Input) → Ending × PositionManager SimulatedBroker → Run
unfolding wind_up
after_replay uuid later (replay_failed, p) = broken p
after_replay uuid later (mistyped, p) = mistyped_sent p
after_replay uuid later (replayed, p) = wind_up uuid later p
after_replay uuid later (stopped, p) = wind_up uuid later p

-- The script on the lines of its input. `turns` is what the other threads do before each event,
-- the start of the broker by `run` among them, which changes nothing.
unfoldable pub script :
    (String → Option EventData)
    → (ℕ → String)
    → List (List (Turn SimulatedBroker))
    → List (List Input)
    → List String
    → Run
unfolding after_replay interleave
script loads uuid turns later lines = elim (read_event_log loads lines) [
  | [] ↦ no_events
  | e ∷ es ↦
      after_replay uuid later
        (replay_events_log simulated uuid (interleave turns (e ∷ es)) (init sim_broker))
]
