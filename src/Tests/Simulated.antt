-- ===== src/Tests/Simulated.antt =====
-- Calls of the simulated broker of position_manager/app/brokers/simulated_broker.py.
use mathlib.Core.Option
use flow_manager.Base.{
  String, [], false, if◌then◌else◌, nat_eq, none, refl, some, string_eq, true, ℕ, ◌==◌, ◌∷◌, ◌≡◌,
}
use flow_manager.Broker.{working}
use flow_manager.Dict.{lookup}
use flow_manager.Int.{pos}
use flow_manager.SimulatedBroker.{
  SimulatedBroker, SimulatedOrder, cancel_order, duplicate_rejection, get_order_details, stop,
  submit_order, thread_step,
}
use flow_manager.SimulatedBroker.Orders.{
  being_cancelled, cancel_order_lem, cancelled_report, is_known, stop_lem, submit_duplicate,
  submit_new_order,
}

abbrev working_order : SimulatedOrder
working_order = record {
  broker_order_id = pos 0;
  client_order_id = "a";
  symbol = "AAPL";
  amount = pos 15;
  buy_sell = true;
  amount_filled = pos 13;
  cancelling = false;
  status = working;
}

abbrev busy_sim : SimulatedBroker
busy_sim = record {
  has_callback = true;
  next_broker_order_id = 1;
  live_orders = ("a", working_order) ∷ [];
  timers = [];
}

submit_new_order_example :
    let r = submit_order "b" "MSFT" (pos 5) false "MARKET" none busy_sim in
    (r.result ≡ some (pos 1))
    × ((j : String)
        → get_order_details j r.after ≡ (
            if "b" == j
            then some (record {
              client_order_id = "b";
              broker_order_id = some (pos 1);
              symbol = "MSFT";
              quantity = pos 5;
              side_is_buy = false;
              type = "MARKET";
              price = none;
              status = working;
              filled_quantity = pos 0;
            })
            else get_order_details j busy_sim))
    × (r.after.timers ≡ [])
unfolding lookup
submit_new_order_example =
    submit_new_order "b" "MSFT" (pos 5) false "MARKET" none busy_sim refl refl

submit_duplicate_example :
    let r = submit_order "a" "AAPL" (pos 5) true "MARKET" none busy_sim in
    (r.result ≡ none)
    × ((j : String) → get_order_details j r.after ≡ get_order_details j busy_sim)
    × (r.after.timers ≡ duplicate_rejection "a" "AAPL" true ∷ [])
unfolding lookup duplicate_rejection
submit_duplicate_example =
    submit_duplicate "a" "AAPL" (pos 5) true "MARKET" none busy_sim refl working_order refl

cancel_order_lem_example :
    let r = cancel_order "a" busy_sim in
    (r.result ≡ is_known (get_order_details "a" busy_sim))
    × ((j : String)
        → get_order_details j r.after ≡ (
            if "a" == j
            then Option.map being_cancelled (get_order_details "a" busy_sim)
            else get_order_details j busy_sim))
    × (r.confirmations ≡ [])
    × ((draw : ℕ)
        → (thread_step "a" draw r.after).0 ≡ (elim (lookup "a" busy_sim.live_orders) [
          | none ↦ []
          | some o ↦ cancelled_report busy_sim o
        ]))
cancel_order_lem_example = cancel_order_lem "a" busy_sim

stop_lem_example :
    get_order_details "a" (stop busy_sim) ≡ get_order_details "a" (cancel_order "a" busy_sim).after
stop_lem_example = stop_lem "a" busy_sim
