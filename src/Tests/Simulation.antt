-- ===== src/Tests/Simulation.antt =====
-- A trade from the target to the position, with the broker of
-- position_manager/app/brokers/simulated_broker.py.
use flow_manager.Base.{String, [], none, refl, some, string_eq, true, ◌||◌, ◌≡◌}
use flow_manager.Broker.{bs_int, is_terminal, signed}
use flow_manager.Dict.{erase, insert, lookup}
use flow_manager.Ids.{contains, remove, set_add, set_union}
use flow_manager.Int.{abs, pos, ◌*ℤ◌, ◌+ℤ◌, ◌-ℤ◌}
use flow_manager.PositionManager.{
  PositionManager, add_to, calculate_working_position, filled_by, init, keep_or_drop, outstanding,
  position_of, process_all, process_confirmation, process_target_updates,
  process_trade_confirmations, remaining, set_targets, target_of, untrack, update_live_order,
  update_target_position, working_from,
}
use flow_manager.PositionManager.Cycle.{IsSettled}
use flow_manager.PositionManager.Endings.{is_ended}
use flow_manager.PositionManager.Orders.{
  adjust, cancel_opposing, cycle, new_order, place_order, reconcile_positions, reconcile_symbol,
}
use flow_manager.SimulatedBroker.{
  SimulatedBroker, execute, final_confirmation, final_status, internal_sim_trade_callback,
  is_executing, open_order, simulated, submit_order, thread_step,
}
use flow_manager.SimulatedBroker.Coverage.{has_thread}
use flow_manager.SimulatedBroker.Rest.{no_order_lost, rest_at_target}
use flow_manager.SimulatedBroker.Trading.{
  Running, Running-IsSettled, deliver, given_target, looped, opened, worked,
}
use flow_manager.Tests.{idle_sim, unary_id, unary_id-IsFresh}

abbrev wanting_one : PositionManager SimulatedBroker
wanting_one = update_target_position "AAPL" (pos 1) (init idle_sim)

abbrev sent_one : PositionManager SimulatedBroker
sent_one = (cycle simulated unary_id wanting_one)

abbrev filled_one : PositionManager SimulatedBroker
filled_one = deliver (thread_step (unary_id 0) 1 sent_one.broker) sent_one

abbrev reported_one : PositionManager SimulatedBroker
reported_one = deliver (thread_step (unary_id 0) 1 filled_one.broker) filled_one

abbrev holding_one : PositionManager SimulatedBroker
holding_one = (cycle simulated unary_id reported_one)

sent_one-Running : Running unary_id unary_id-IsFresh sent_one
sent_one-Running = looped (given_target "AAPL" (pos 1) (opened idle_sim refl refl))

holding_one-Running : Running unary_id unary_id-IsFresh holding_one
holding_one-Running = looped (worked (unary_id 0) 1 (worked (unary_id 0) 1 sent_one-Running))

-- The share is bought, and nothing is left to do.
holding_one_rest :
    (holding_one.broker.has_callback ≡ true)
    × (holding_one.trade_confirmations_q ≡ [])
    × (holding_one.target_updates_q ≡ [])
    × (holding_one.broker.live_orders ≡ [])
    × (holding_one.broker.timers ≡ [])
unfolding calculate_working_position working_from outstanding is_terminal remaining cycle
    process_trade_confirmations process_all process_confirmation process_target_updates set_targets
    set_add set_union contains reconcile_positions reconcile_symbol adjust place_order
    cancel_opposing submit_order new_order open_order lookup insert erase init
    update_target_position unary_id ◌-ℤ◌ ◌+ℤ◌ ◌*ℤ◌ abs signed bs_int thread_step execute
    is_executing final_confirmation final_status internal_sim_trade_callback deliver
    update_live_order filled_by untrack keep_or_drop remove add_to
holding_one_rest = (refl, refl, refl, refl, refl)

holding_one_test : position_of holding_one "AAPL" ≡ pos 1
unfolding calculate_working_position working_from outstanding is_terminal remaining cycle
    process_trade_confirmations process_all process_confirmation process_target_updates set_targets
    set_add set_union contains reconcile_positions reconcile_symbol adjust place_order
    cancel_opposing submit_order new_order open_order lookup insert erase init
    update_target_position unary_id ◌-ℤ◌ ◌+ℤ◌ ◌*ℤ◌ abs signed bs_int thread_step execute
    is_executing final_confirmation final_status internal_sim_trade_callback deliver
    update_live_order filled_by untrack keep_or_drop remove add_to
holding_one_test = refl

Running-IsSettled_example : IsSettled unary_id (λ b. Unit) holding_one
Running-IsSettled_example = Running-IsSettled unary_id unary_id-IsFresh holding_one-Running

-- While the order is on its way it has its thread; then nothing is left anywhere.
sent_one_test :
    lookup (unary_id 0) sent_one.live_orders
    ≡ some (record (new_order (unary_id 0) "AAPL" (pos 1) true) { broker_order_id = some (pos 0) })
unfolding calculate_working_position working_from outstanding is_terminal remaining cycle
    process_trade_confirmations process_all process_target_updates set_targets set_add set_union
    contains reconcile_positions reconcile_symbol adjust place_order cancel_opposing submit_order
    new_order open_order lookup insert init update_target_position unary_id ◌-ℤ◌ ◌+ℤ◌ ◌*ℤ◌ abs
    signed bs_int
sent_one_test = refl

sent_one_callback : sent_one.broker.has_callback ≡ true
unfolding calculate_working_position working_from outstanding is_terminal remaining cycle
    process_trade_confirmations process_all process_target_updates set_targets set_add set_union
    contains reconcile_positions reconcile_symbol adjust place_order cancel_opposing submit_order
    new_order open_order lookup insert init update_target_position unary_id ◌-ℤ◌ ◌+ℤ◌ ◌*ℤ◌ abs
    signed bs_int
sent_one_callback = refl

no_order_lost_example :
    (has_thread (unary_id 0) sent_one.broker
      || (is_ended (unary_id 0) sent_one.trade_confirmations_q
          || is_ended (unary_id 0) sent_one.broker.timers))
    ≡ true
no_order_lost_example =
    no_order_lost unary_id unary_id-IsFresh sent_one-Running sent_one_callback (unary_id 0)
      (record (new_order (unary_id 0) "AAPL" (pos 1) true) { broker_order_id = some (pos 0) })
      sent_one_test

rest_at_target_example :
    ((id : String) → lookup id holding_one.live_orders ≡ none)
    × ((s : String) → position_of holding_one s ≡ target_of holding_one s)
rest_at_target_example =
    rest_at_target unary_id unary_id-IsFresh holding_one-Running holding_one_rest.0
      holding_one_rest.1 holding_one_rest.2 holding_one_rest.3 holding_one_rest.4
