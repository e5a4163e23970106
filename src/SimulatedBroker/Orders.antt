-- ===== src/SimulatedBroker/Orders.antt =====
-- The calls of simulated_broker.py.
use mathlib.Core.Option
use flow_manager.Base.{
  ==_iff, All, Bool, List, Option, Option-cases, String, [], ap, arith, false, if◌then◌else◌, inl,
  inr, map, none, refl, some, string_eq, true, ℕ, ◌++◌, ◌==◌, ◌∙◌, ◌∷◌, ◌≡◌,
}
use flow_manager.Broker.{
  OrderDetails, TradeConfirmationMessage, cancelled, pending_cancel, rejected, working,
}
use flow_manager.Dict.{Dict, insert, lookup, lookup-insert, lookup-insert_self}
use flow_manager.Float.{Float, float}
use flow_manager.Int.{negsuc, pos, ℤ}
use flow_manager.PositionManager.Contract.{IsAnswerTo, IsPolite}
use flow_manager.SimulatedBroker.{
  SimulatedBroker, SimulatedOrder, cancel_order, duplicate_rejection, final_confirmation,
  final_status, get_order_details, internal_sim_trade_callback, is_executing, open_order,
  request_cancel, simulated, stop, submit_order, thread_step,
}

module _ (id symbol : String) (quantity : ℤ) (buying : Bool) (type : String) (price : Option Float)
    (b : SimulatedBroker) (registered : b.has_callback ≡ true) where
  abbrev new_one : SimulatedOrder
  new_one = open_order (pos b.next_broker_order_id) id symbol quantity buying

  -- With a registered callback, a new identifier is accepted under the next number of the broker
  -- and no timer is started. The query then gives the order back, working and unfilled, and
  -- answers for every other identifier as before.
  pub submit_new_order :
      lookup id b.live_orders ≡ none
      → let r = submit_order id symbol quantity buying type price b in
        (r.result ≡ some (pos b.next_broker_order_id))
        × ((j : String)
            → get_order_details j r.after ≡ (
                if id == j
                then some (record {
                  client_order_id = id;
                  broker_order_id = some (pos b.next_broker_order_id);
                  symbol = symbol;
                  quantity = quantity;
                  side_is_buy = buying;
                  type = "MARKET";
                  price = none;
                  status = working;
                  filled_quantity = pos 0;
                })
                else get_order_details j b))
        × (r.after.timers ≡ b.timers)
  unfolding submit_order get_order_details
  submit_new_order missing =
      (ground arith, λ j. ground (arith, lookup-insert id j new_one b.live_orders), ground arith)

  -- With a registered callback, an identifier that is live already is refused: no identifier is
  -- returned, every query is answered as before, and one message is on its way, of status REJECTED
  -- with identifier -1, quantity 0 and price 0.
  pub submit_duplicate :
      (o : SimulatedOrder)
      → lookup id b.live_orders ≡ some o
      → let r = submit_order id symbol quantity buying type price b in
        (r.result ≡ none)
        × ((j : String) → get_order_details j r.after ≡ get_order_details j b)
        × (r.after.timers
            ≡ b.timers
              ++ (record {
                order_id = negsuc 0;
                client_order_id = id;
                symbol = symbol;
                filled_quantity = pos 0;
                side_is_buy = buying;
                price = float (pos 0);
                status = rejected;
              })
                ∷ [])
  unfolding submit_order get_order_details duplicate_rejection
  submit_duplicate o found = (ground arith, λ j. ground arith, ground arith)

unfoldable pub is_known : Option OrderDetails → Bool
is_known none = false
is_known (some d) = true

abbrev pub being_cancelled : OrderDetails → OrderDetails
being_cancelled d = record d { status = pending_cancel }

-- What the thread of an order reports that ends by cancellation.
abbrev pub cancelled_report : SimulatedBroker → SimulatedOrder → List TradeConfirmationMessage
cancelled_report b o =
    if b.has_callback
    then (record {
      order_id = o.broker_order_id;
      client_order_id = o.client_order_id;
      symbol = o.symbol;
      filled_quantity = o.amount_filled;
      side_is_buy = o.buy_sell;
      price = float (pos 100);
      status = cancelled;
    })
      ∷ []
    else []

abbrev with_cancelling : String → SimulatedOrder → SimulatedBroker → SimulatedBroker
with_cancelling id o b = record b { live_orders = insert id (request_cancel o) b.live_orders }

thread_of_cancelled :
    (id : String) (draw : ℕ) (o : SimulatedOrder) (b : SimulatedBroker)
    → (thread_step id draw (with_cancelling id o b)).0 ≡ cancelled_report b o
unfolding thread_step internal_sim_trade_callback final_confirmation final_status is_executing
    request_cancel
thread_of_cancelled id draw o b =
    rw (thread_step, lookup-insert_self id (request_cancel o) b.live_orders) refl

-- A cancellation is accepted exactly for an order that the query knows. That order is then marked
-- as being cancelled and otherwise as before, every other query is answered as before, and nothing
-- is confirmed yet; in the next round of its thread, whatever it draws, the order reports
-- CANCELLED with what it has filled, if there is a callback.
pub cancel_order_lem :
    (id : String) (b : SimulatedBroker)
    → let r = cancel_order id b in
      (r.result ≡ is_known (get_order_details id b))
      × ((j : String)
          → get_order_details j r.after ≡ (
              if id == j
              then Option.map being_cancelled (get_order_details id b)
              else get_order_details j b))
      × (r.confirmations ≡ [])
      × ((draw : ℕ)
          → (thread_step id draw r.after).0
            ≡ (elim (lookup id b.live_orders) [ none ↦ [] | some o ↦ cancelled_report b o ]))
unfolding cancel_order get_order_details is_known thread_step internal_sim_trade_callback
    final_confirmation final_status is_executing request_cancel
cancel_order_lem id b = elim (Option-cases (lookup id b.live_orders)) [
  | inl e ↦ (
    ground arith,
    λ j. ground (arith, ==_iff id j),
    ground arith,
    λ draw. rw (cancel_order, e, thread_step, e) refl,
  )
  | inr (o, e) ↦ (
    ground arith,
    λ j. ground (arith, lookup-insert id j (request_cancel o) b.live_orders, ==_iff id j),
    ground arith,
    λ draw.
        let asked_ : (cancel_order id b).after ≡ with_cancelling id o b = ground arith in
        rw e (ap (λ x. (thread_step id draw x).0) asked_ ∙ thread_of_cancelled id draw o b),
  )
]

pub lookup-map {ℓ κ} :
    {V : Type ℓ} {W : Type κ} (f : V → W) (k : String) (d : Dict String V)
    → lookup k (map (λ e. (e.0, f e.1)) d) ≡ Option.map f (lookup k d)
unfolding lookup
lookup-map f k [] = refl
lookup-map f k ((j, v) ∷ d) = ground (arith, lookup-map f k d)

-- After `stop` the query gives for every identifier what it gives after the cancellation of that
-- order.
pub stop_lem :
    (id : String) (b : SimulatedBroker)
    → get_order_details id (stop b) ≡ get_order_details id (cancel_order id b).after
unfolding stop cancel_order get_order_details
stop_lem id b = elim (Option-cases (lookup id b.live_orders)) [
  | inl e ↦ ground (arith, lookup-map request_cancel id b.live_orders)
  | inr (o, e) ↦ ground (
    arith,
    lookup-map request_cancel id b.live_orders,
    lookup-insert_self id (request_cancel o) b.live_orders,
  )
]

-- The simulated broker keeps, in every state, the contract on which the position manager relies: a
-- cancellation confirms nothing at once, and what a submission confirms at once is about the order
-- that is submitted.
pub simulated-IsPolite : IsPolite simulated (λ b. Unit)
unfolding submit_order cancel_order
simulated-IsPolite = record {
  cancel_ok = λ id b _. tt;
  cancel_quiet = λ id b _. ground arith;
  submit_ok = λ id s n buying b _. tt;
  submit_answers = λ id s n buying b _. silent id s n buying b;
}
  where
    silent :
        (id s : String) (n : ℤ) (buying : Bool) (b : SimulatedBroker)
        → All (IsAnswerTo id s) (submit_order id s n buying "MARKET" none b).confirmations
    silent id s n buying b =
        let quiet : (submit_order id s n buying "MARKET" none b).confirmations ≡ [] =
          ground arith in
        rw quiet tt
