-- ===== src/Tests/Script.antt =====
-- Runs of the script of strategy_runner.py, on lines that a small table decodes.
use flow_manager.Base.{
  List, Option, String, [], false, if◌then◌else◌, none, refl, some, string_eq, true, ℕ, ◌==◌, ◌∷◌,
  ◌≡◌,
}
use flow_manager.Ids.{contains, set_add, set_union}
use flow_manager.Int.{pos, ◌-ℤ◌}
use flow_manager.PositionManager.{
  calculate_working_position, init, process_all, process_target_updates,
  process_trade_confirmations, set_targets, terminate, update_target_position, working_from,
}
use flow_manager.PositionManager.Orders.{
  Input, arrive_all, cycle, reconcile_positions, reconcile_symbol, run_loop,
}
use flow_manager.Strategy.{
  EventData, act_all, fails, is_event, is_mistyped, replay_event, replay_events_log, rounds,
  send_target,
}
use flow_manager.Strategy.Script.{
  Run, after_replay, broken, finished, interleave, mistyped_sent, no_events, read_event_log, script,
  wind_up,
}
use flow_manager.Strategy.Shutdown.{IsLogOf, IsOver, script-IsOver}
use flow_manager.Tests.{unary_id}

abbrev empty_event : EventData
empty_event = record {
  is_dict = true;
  event = none;
  seconds = none;
  symbol = none;
  target = none;
  has_other_types = false;
}

abbrev buy_one : EventData
buy_one = record empty_event { event = some "Target"; symbol = some "AAPL"; target = some (pos 1) }

abbrev loads : String → Option EventData
loads line =
    if line == "buy"
    then some buy_one
    else (if line == "[]"
        then some (record empty_event { is_dict = false })
        else (if line == "many"
            then some (record buy_one { target = none; has_other_types = true })
            else none))

-- A line that is not JSON is left out, and a value that is no dict ends the replay.
read_event_log_test : read_event_log loads ("buy" ∷ "buy" ∷ "?" ∷ []) ≡ buy_one ∷ buy_one ∷ []
unfolding read_event_log
read_event_log_test = refl

abbrev status_of : Run → ℕ
status_of no_events = 0
status_of (broken p) = 1
status_of (mistyped_sent p) = 4
status_of (finished true summary p) = 2
status_of (finished false summary p) = 3

abbrev run_of : List (List Input) → List String → ℕ
run_of later lines = status_of (script loads unary_id [] later lines)

script_test :
    (run_of [] ("?" ∷ []) ≡ 0)
    × (run_of [] ("buy" ∷ "[]" ∷ []) ≡ 1)
    × (run_of ([] ∷ []) ("buy" ∷ []) ≡ 2)
    × (run_of [] ("buy" ∷ []) ≡ 3)
    × (run_of [] ("buy" ∷ "many" ∷ []) ≡ 4)
unfolding script read_event_log interleave after_replay wind_up replay_events_log replay_event
    send_target fails is_mistyped is_event act_all run_loop arrive_all init update_target_position
    terminate cycle reconcile_positions set_union process_trade_confirmations process_target_updates
    set_targets process_all set_add contains reconcile_symbol calculate_working_position
    working_from ◌-ℤ◌
script_test = (refl, refl, refl, refl, refl)

script-IsOver_example :
    (log : List EventData) × IsLogOf loads ("buy" ∷ "buy" ∷ []) log
    × IsOver
        (interleave ([] ∷ (rounds ∷ []) ∷ []) log)
        ([] ∷ [])
        (script loads unary_id ([] ∷ (rounds ∷ []) ∷ []) ([] ∷ []) ("buy" ∷ "buy" ∷ []))
script-IsOver_example =
    script-IsOver loads unary_id ([] ∷ (rounds ∷ []) ∷ []) ([] ∷ []) ("buy" ∷ "buy" ∷ [])
