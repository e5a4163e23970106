-- ===== src/Strategy.antt =====
-- `Strategy.replay_events_log` of position_manager/app/strategy/strategy_runner.py: a log of events
-- is replayed while the position manager runs. What the other threads do in the meantime, its
-- rounds and the progress of its broker included, is written in front of each event.
pub mod Replay
pub mod Script
pub mod Shutdown
use flow_manager.Base.{
  Bool, List, Option, String, [], false, get_or, if◌then◌else◌, none, not, some, string_eq, ℕ, ◌&&◌,
  ◌==◌, ◌||◌, ◌∷◌,
}
use flow_manager.Broker.{BrokerInterface}
use flow_manager.Int.{ltb_ℤ, pos, ℤ}
use flow_manager.PositionManager.{PositionManager, update_target_position}
use flow_manager.PositionManager.Orders.{Input, arrive, cycle}

-- The fields of an event, and whether it is a dict at all: other values have no `get`. The sign of
-- a duration is all that matters here; a value that `time.sleep` refuses counts as negative.
-- `symbol` is a text and `target` an integer. The log may give both as values of other types, which
-- the replay queues all the same: `has_other_types`.
pub record EventData : Type 0 where
  pub is_dict : Bool
  pub event : Option String
  pub seconds : Option ℤ
  pub symbol : Option String
  pub target : Option ℤ
  pub has_other_types : Bool

-- `progresses` is a step of the threads of the broker that leaves it in the state named.
pub data Turn (B : Type 0) : Type 0 where
  arrives : Input → Turn B
  progresses : B → Turn B
  rounds : Turn B

-- The log has been read to its end, the position manager was terminated, or the replay has raised
-- an exception: for an event without fields, or from `time.sleep` for a negative duration. The model
-- ends as well where a symbol and a target of other types go into the queue: what the thread of the
-- position manager does with them, whether it computes on or raises, depends on the types.
pub data Ending : Type 0 where
  replayed stopped replay_failed mistyped : Ending

unfoldable pub send_target : {B : Type 0} → EventData → PositionManager B → PositionManager B
send_target e p = elim e.symbol [
  | none ↦ p
  | some s ↦ elim e.target [ none ↦ p | some n ↦ update_target_position s n p ]
]

-- `event_type == ...`
unfoldable pub is_event : String → EventData → Bool
is_event kind e = elim e.event [ none ↦ false | some k ↦ k == kind ]

-- `event_data.get` or `time.sleep(event_data.get('Seconds', 0))` raises.
unfoldable pub fails : EventData → Bool
unfolding is_event
fails e = not e.is_dict || is_event "Wait" e && ltb_ℤ (get_or e.seconds (pos 0)) (pos 0)

-- A target update with other values than a text and an integer goes into the queue.
unfoldable pub is_mistyped : EventData → Bool
unfolding is_event
is_mistyped e = is_event "Target" e && e.has_other_types

-- One event. Waiting, logging and an unknown event change nothing.
unfoldable pub replay_event : {B : Type 0} → EventData → PositionManager B → PositionManager B
unfolding is_event send_target
replay_event e p = if is_event "Target" e then send_target e p else p

module _ {B : Type 0} (api : BrokerInterface B) (uuid : ℕ → String) where
  unfoldable pub act : Turn B → PositionManager B → PositionManager B
  act (arrives i) p = arrive i p
  act (progresses b) p = record p { broker = b }
  act rounds p = (cycle api uuid p)

  unfoldable pub act_all : List (Turn B) → PositionManager B → PositionManager B
  unfolding act
  act_all [] p = p
  act_all (t ∷ ts) p = act_all ts (act t p)

  unfoldable pub replay_events_log :
      List (List (Turn B) × EventData) → PositionManager B → Ending × PositionManager B
  replay_events_log [] p = (replayed, p)
  replay_events_log ((turns, e) ∷ events) p =
      let q = act_all turns p in
      let rest = replay_events_log events (replay_event e q) in
      if q.terminate_flag
      then (stopped, q)
      else (if fails e then (replay_failed, q) else (if is_mistyped e then (mistyped, q) else rest))
