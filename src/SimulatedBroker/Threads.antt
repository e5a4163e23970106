-- ===== src/SimulatedBroker/Threads.antt =====
-- The threads of the orders of simulated_broker.py.
use flow_manager.Base.{
  List, String, [], arith, false, none, refl, some, string_eq, true, ℕ, ◌++◌, ◌∷◌, ◌≡◌, ◌≤◌,
}
use flow_manager.Broker.{TradeConfirmationMessage}
use flow_manager.Dict.{erase, insert, lookup}
use flow_manager.Int.{int_laws, pos, ℤ, ◌+ℤ◌, ◌≤ℤ◌}
use flow_manager.SimulatedBroker.{
  SimulatedBroker, SimulatedOrder, execute, final_confirmation, internal_sim_trade_callback,
  is_executing, largest_draw, run_thread, thread_step,
}

-- What `randint` gives in a round of an order's thread.
abbrev pub IsDraw : SimulatedOrder → ℕ → Type 0
IsDraw o draw = (1 ≤ draw) × (draw ≤ largest_draw o.amount)

-- No more is filled than was ordered.
abbrev pub IsWithin : SimulatedOrder → Type 0
IsWithin o = (pos 0 ≤ℤ o.amount_filled) × (o.amount_filled ≤ℤ o.amount)

pub execute-IsWithin :
    (draw : ℕ) (o : SimulatedOrder) → IsWithin o → is_executing o ≡ true → IsWithin (execute draw o)
unfolding execute is_executing
execute-IsWithin draw o w h = grind (int_laws)

-- A round fills something.
pub execute-progress :
    (draw : ℕ) (o : SimulatedOrder)
    → 1 ≤ draw
    → is_executing o ≡ true
    → o.amount_filled +ℤ pos 1 ≤ℤ (execute draw o).amount_filled
unfolding execute is_executing
execute-progress draw o d h = grind (int_laws)

pub run_thread_gone :
    (id : String) (draws : List ℕ) (b : SimulatedBroker)
    → lookup id b.live_orders ≡ none
    → run_thread id draws b ≡ ([], b)
unfolding run_thread thread_step
run_thread_gone id [] b h = refl
run_thread_gone id (draw ∷ draws) b h = rw (h, thread_step) (run_thread_gone id draws b h)

-- What a thread leaves behind that has run to its end.
pub record HasReported (id : String) (o : SimulatedOrder)
    (r : List TradeConfirmationMessage × SimulatedBroker) : Type 0 where
  pub total : ℤ
  pub report : r.0 ≡ final_confirmation (record o { amount_filled = total }) ∷ []
  pub bounds : (pos 0 ≤ℤ total) × (total ≤ℤ o.amount)
  pub complete : o.cancelling ≡ false → total ≡ o.amount
  pub gone : lookup id r.1.live_orders ≡ none

pub thread_step_ends :
    (id : String) (draw : ℕ) (o : SimulatedOrder) (b : SimulatedBroker)
    → b.has_callback ≡ true
    → lookup id b.live_orders ≡ some o
    → is_executing o ≡ false
    → thread_step id draw b ≡ (
      final_confirmation o ∷ [],
      record b { live_orders = erase o.client_order_id b.live_orders },
    )
unfolding thread_step internal_sim_trade_callback final_confirmation
thread_step_ends id draw o b r e h = ground arith

pub thread_step_goes_on :
    (id : String) (draw : ℕ) (o : SimulatedOrder) (b : SimulatedBroker)
    → lookup id b.live_orders ≡ some o
    → is_executing o ≡ true
    → thread_step id draw b
      ≡ ([], record b { live_orders = insert id (execute draw o) b.live_orders })
unfolding thread_step
thread_step_goes_on id draw o b e h = ground arith

-- A loop that has ended without a cancellation has filled everything.
pub done :
    (o : SimulatedOrder)
    → IsWithin o
    → is_executing o ≡ false
    → o.cancelling ≡ false
    → o.amount_filled ≡ o.amount
unfolding is_executing
done o w h c = grind (int_laws)

pub run_thread_cons :
    (id : String) (draw : ℕ) (draws : List ℕ) (b b' : SimulatedBroker)
    (cs : List TradeConfirmationMessage)
    → thread_step id draw b ≡ (cs, b')
    → run_thread id (draw ∷ draws) b
      ≡ (cs ++ (run_thread id draws b').0, (run_thread id draws b').1)
unfolding run_thread
run_thread_cons id draw draws b b' cs e = rw e
