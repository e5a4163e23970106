-- ===== src/Tests/Clients.antt =====
-- The clients of the position manager: the replay of a log, and the handlers of requests.
use flow_manager.Base.{
  List, String, [], false, get_or, if◌then◌else◌, nat_eq, none, refl, some, string_eq, true, ◌==◌,
  ◌∷◌, ◌≡◌,
}
use flow_manager.Api.{
  get_market_data_api, lifespan_shutdown, lifespan_startup, set_target_position_api, started,
  success,
}
use flow_manager.Api.Lifecycle.{
  IsIdling, Traffic, a_round, handle_all, lifespan_lem, market_data_request, requested,
  state_request, target_request, thread_lost,
}
use flow_manager.Api.Responses.{
  SameApp, get_market_data_api_lem, market_data_of, set_target_position_api_lem,
}
use flow_manager.CppBroker.{CppOrderBookBroker, Network, timeout}
use flow_manager.CppBroker.Unpriced.{cpp}
use flow_manager.Int.{pos, ℤ}
use flow_manager.PositionManager.{PositionManager, init, target_of}
use flow_manager.PositionManager.Loop.{HasEnded}
use flow_manager.PositionManager.Orders.{cycle, run_loop, termination}
use flow_manager.PositionManager.Pending.{pending_target}
use flow_manager.PositionManager.Targets.{last_target}
use flow_manager.SimulatedBroker.{SimulatedBroker, simulated}
use flow_manager.Strategy.{
  EventData, Turn, arrives, fails, is_event, is_mistyped, replay_events_log, rounds,
}
use flow_manager.Strategy.Replay.{
  has_end, replay_events_log-targets, update_by, update_of, updates_by, updates_of,
}
use flow_manager.Tests.{idle_manager, unary_id}

-- A target of 100 for AAPL, a new target of 5 after a round, and an event after the end.
abbrev target_event : String → ℤ → EventData
target_event s n = record {
  is_dict = true;
  event = some "Target";
  seconds = none;
  symbol = some s;
  target = some n;
  has_other_types = false;
}

abbrev event_log : List (List (Turn SimulatedBroker) × EventData)
event_log =
    ([], target_event "AAPL" (pos 100))
    ∷ (rounds ∷ [], target_event "AAPL" (pos 5))
    ∷ (rounds ∷ arrives termination ∷ [], target_event "AAPL" (pos 7))
    ∷ []

replay_test : last_target "AAPL" (updates_of event_log) ≡ some (pos 5)
unfolding last_target updates_of updates_by update_of update_by has_end fails is_mistyped is_event
replay_test = refl

replay_events_log-targets_example :
    pending_target (replay_events_log simulated unary_id event_log idle_manager).1 "AAPL"
    ≡ get_or (last_target "AAPL" (updates_of event_log)) (pending_target idle_manager "AAPL")
unfolding init
replay_events_log-targets_example =
    replay_events_log-targets simulated unary_id event_log idle_manager refl "AAPL"

abbrev fresh_cpp : CppOrderBookBroker
fresh_cpp = record {
  is_connected = true;
  broker_order_id_counter = 0;
  is_locked = false;
  client_to_broker_id_map = [];
  broker_to_client_id_map = [];
  broker_id_to_order_details = [];
  requests = [];
  confirmed = [];
}

abbrev no_answer : Network
no_answer = record { connects = true; exchange = timeout }

get_market_data_api_lem_example :
    let r = get_market_data_api "AAPL" no_answer (started (init fresh_cpp)) in
    (r.0 ≡ market_data_of no_answer (init fresh_cpp)) × SameApp (init fresh_cpp) r.1
get_market_data_api_lem_example = get_market_data_api_lem "AAPL" no_answer (init fresh_cpp)

set_target_position_api_lem_example :
    (q : PositionManager CppOrderBookBroker) × (set_target_position_api "AAPL"
        (pos 100)
        (started (init fresh_cpp))
      ≡ (success tt, started q))
    × ((s : String)
        → target_of (cycle (cpp (λ t. t) (λ b. no_answer)) unary_id q) s
          ≡ (if "AAPL" == s then pos 100 else pending_target (init fresh_cpp) s))
set_target_position_api_lem_example =
    set_target_position_api_lem (cpp (λ t. t) (λ b. no_answer)) unary_id "AAPL" (pos 100)
      (init fresh_cpp)

-- A target, a round, market data and a new target, then nothing more arrives.
abbrev a_day : List Traffic
a_day =
    target_request "AAPL" (pos 100)
    ∷ a_round
    ∷ market_data_request "AAPL" no_answer
    ∷ target_request "AAPL" (pos 5)
    ∷ state_request
    ∷ []

abbrev no_server : Network
no_server = record { connects = false; exchange = timeout }

-- The server comes up between the two attempts.
lifespan_lem_example :
    let api = cpp (λ t. t) (λ b. no_answer) in
    let (app, alive) = lifespan_startup no_server no_answer in
    (p q : PositionManager CppOrderBookBroker) × (handle_all api unary_id alive a_day app
      ≡ started p)
    × ((s : String) → pending_target p s ≡ get_or (last_target s (requested a_day)) (pos 0))
    × (lifespan_shutdown (started p) ≡ started q)
    × HasEnded api unary_id (run_loop api unary_id ([] ∷ []) q)
lifespan_lem_example =
    lifespan_lem (cpp (λ t. t) (λ b. no_answer)) unary_id no_server no_answer a_day [] [] refl

thread_lost_example :
    let api = cpp (λ t. t) (λ b. no_answer) in
    let (app, alive) = lifespan_startup no_server no_server in
    IsIdling api unary_id (requested a_day) (handle_all api unary_id alive a_day app)
thread_lost_example =
    thread_lost (cpp (λ t. t) (λ b. no_answer)) unary_id no_server no_server a_day refl refl
