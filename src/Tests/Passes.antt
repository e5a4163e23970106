-- ===== src/Tests/Passes.antt =====
-- Two passes of position_manager/app/position_manager.py with the broker of
-- position_manager/app/brokers/simulated_broker.py, from a pending target to the position.
use flow_manager.Base.{
  ==_iff, List, String, [], ap, arith, get_or, none, refl, some, string_eq, subst, sym, true, ℕ,
  ◌∙◌, ◌∷◌, ◌≡◌,
}
use flow_manager.Broker.{bs_int, is_terminal, signed}
use flow_manager.Dict.{insert, lookup, lookup-empty}
use flow_manager.Ids.{contains, set_add, set_union}
use flow_manager.Int.{abs, int_laws, pos, ◌*ℤ◌, ◌+ℤ◌, ◌-ℤ◌}
use flow_manager.PositionManager.{
  PositionManager, calculate_working_position, init, outstanding, position_of, process_all,
  process_target_updates, process_trade_confirmations, remaining, set_targets, target_of,
  update_target_position, working_from,
}
use flow_manager.PositionManager.Orders.{
  adjust, cancel_opposing, cycle, new_order, place_order, reconcile_positions, reconcile_symbol,
}
use flow_manager.PositionManager.Targets.{last_target}
use flow_manager.SimulatedBroker.{
  SimulatedBroker, SimulatedOrder, largest_draw, open_order, simulated, submit_order,
}
use flow_manager.SimulatedBroker.Converging.{targets_reached}
use flow_manager.SimulatedBroker.Ending.{AllEnough}
use flow_manager.SimulatedBroker.Finishing.{IsEnough, finish_threads, fire_timers}
use flow_manager.SimulatedBroker.Passes.{AllNamed, orders_end, run_out, run_out-IsRunOut}
use flow_manager.SimulatedBroker.Trading.{Running, given_target, looped, opened}
use flow_manager.Tests.{idle_sim, unary_id, unary_id-IsFresh}

abbrev aiming : PositionManager SimulatedBroker
aiming = update_target_position "AAPL" (pos 1) (init idle_sim)

-- There is no thread yet.
abbrev no_draws : String → List ℕ
no_draws id = []

abbrev ordered_one : PositionManager SimulatedBroker
ordered_one = (cycle simulated unary_id (run_out [] no_draws aiming))

abbrev one_share : SimulatedOrder
one_share = open_order (pos 0) (unary_id 0) "AAPL" (pos 1) true

-- The thread of the new order draws twice.
abbrev two_draws : String → List ℕ
two_draws id = 1 ∷ 1 ∷ []

aiming-Running : Running unary_id unary_id-IsFresh aiming
aiming-Running = given_target "AAPL" (pos 1) (opened idle_sim refl refl)

aiming_callback : aiming.broker.has_callback ≡ true
unfolding update_target_position init
aiming_callback = refl

aiming_threads : (id : String) → lookup id aiming.broker.live_orders ≡ none
unfolding update_target_position init
aiming_threads id = lookup-empty {V = SimulatedOrder} id

aiming-AllNamed : AllNamed [] aiming
aiming-AllNamed id o e = absurd (ground (arith, e, aiming_threads id))

aiming-AllEnough : AllEnough unary_id unary_id-IsFresh no_draws aiming
aiming-AllEnough id o e = absurd (ground (arith, e, aiming_threads id))

ordered_one_threads : ordered_one.broker.live_orders ≡ (unary_id 0, one_share) ∷ []
unfolding calculate_working_position working_from outstanding is_terminal remaining cycle
    process_trade_confirmations process_all process_target_updates set_targets set_add set_union
    contains reconcile_positions reconcile_symbol adjust place_order cancel_opposing submit_order
    new_order open_order lookup insert init update_target_position unary_id ◌-ℤ◌ ◌+ℤ◌ ◌*ℤ◌ abs
    signed bs_int run_out finish_threads fire_timers
ordered_one_threads = refl

only_thread :
    (id : String) (o : SimulatedOrder)
    → lookup id ordered_one.broker.live_orders ≡ some o
    → (unary_id 0 ≡ id) × (one_share ≡ o)
unfolding lookup
only_thread id o e =
    let f : lookup id ((unary_id 0, one_share) ∷ []) ≡ some o =
      ap (lookup id) (sym ordered_one_threads) ∙ e in
    ground (arith, f, ==_iff (unary_id 0) id)

ordered_one-AllNamed : AllNamed (unary_id 0 ∷ []) ordered_one
unfolding contains
ordered_one-AllNamed id o e = ground (arith, (only_thread id o e).0, ==_iff (unary_id 0) id)

one_share-IsEnough : IsEnough one_share (1 ∷ 1 ∷ [])
unfolding open_order largest_draw
one_share-IsEnough = record {
  drawn = ((omega arith, omega arith), ((omega arith, omega arith), tt));
  some_draw = omega arith;
  fills = omega int_laws;
}

ordered_one-AllEnough : AllEnough unary_id unary_id-IsFresh two_draws ordered_one
ordered_one-AllEnough id o e =
    subst (λ x. IsEnough x (1 ∷ 1 ∷ [])) (only_thread id o e).1 one_share-IsEnough

targets_reached_example :
    let p2 = (cycle simulated unary_id (run_out (unary_id 0 ∷ []) two_draws ordered_one)) in
    ((id : String) → lookup id p2.live_orders ≡ none)
    × ((s : String)
        → position_of p2 s ≡ get_or (last_target s aiming.target_updates_q) (target_of aiming s))
targets_reached_example =
    targets_reached unary_id unary_id-IsFresh [] (unary_id 0 ∷ []) no_draws two_draws aiming-Running
      aiming_callback aiming-AllNamed aiming-AllEnough ordered_one-AllNamed ordered_one-AllEnough

ordered_one-Running : Running unary_id unary_id-IsFresh ordered_one
ordered_one-Running =
    looped
      (run_out-IsRunOut unary_id unary_id-IsFresh [] no_draws aiming-Running aiming_callback
        aiming-AllNamed aiming-AllEnough).follows.running

ordered_one_test : (ordered_one.broker.has_callback ≡ true) × (ordered_one.issued ≡ 1)
unfolding calculate_working_position working_from outstanding is_terminal remaining cycle
    process_trade_confirmations process_all process_target_updates set_targets set_add set_union
    contains reconcile_positions reconcile_symbol adjust place_order cancel_opposing submit_order
    new_order open_order lookup insert init update_target_position unary_id ◌-ℤ◌ ◌+ℤ◌ ◌*ℤ◌ abs
    signed bs_int run_out finish_threads fire_timers
ordered_one_test = (refl, refl)

orders_end_example :
    lookup
      (unary_id 0)
      (cycle simulated unary_id (run_out (unary_id 0 ∷ []) two_draws ordered_one)).live_orders
    ≡ none
orders_end_example =
    orders_end unary_id unary_id-IsFresh (unary_id 0 ∷ []) two_draws ordered_one-Running
      ordered_one_test.0 ordered_one-AllNamed ordered_one-AllEnough 0
      (omega (arith, ordered_one_test.1))
