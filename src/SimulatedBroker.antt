-- ===== src/SimulatedBroker.antt =====
-- position_manager/app/brokers/simulated_broker.py. Each order has a thread of its own, which
-- works on the object that `live_orders` holds until its last call takes the object out: so an
-- order stands in the dict as its thread sees it, and `thread_step` is one round of its thread.
-- The numbers that `randint` draws are arguments. A timer that has been started holds its message.
pub mod Converging
pub mod Coverage
pub mod Ending
pub mod Filled
pub mod Filling
pub mod Finishing
pub mod Genuine
pub mod Orders
pub mod Passes
pub mod Rest
pub mod Rounds
pub mod Submitted
pub mod Threads
pub mod Trading
pub mod Turns
pub mod Unopposed
use flow_manager.Base.{
  Bool, List, Option, String, [], false, if◌then◌else◌, leb, map, none, not, some, string_eq, suc,
  true, ℕ, ◌&&◌, ◌++◌, ◌/◌, ◌∷◌,
}
use flow_manager.Broker.{
  BrokerInterface, OrderDetails, Reply, Status, TradeConfirmationMessage, cancelled, filled,
  pending_cancel, rejected, working,
}
use flow_manager.Dict.{Dict, erase, insert, lookup}
use flow_manager.Float.{Float, float}
use flow_manager.Int.{ltb_ℤ, negsuc, pos, ℤ, ◌+ℤ◌, ◌-ℤ◌}

pub record SimulatedOrder : Type 0 where
  pub broker_order_id : ℤ
  pub client_order_id : String
  pub symbol : String
  pub amount : ℤ
  pub buy_sell : Bool
  pub amount_filled : ℤ
  pub cancelling : Bool
  pub status : Status

-- `SimulatedOrder.__init__`
unfoldable pub open_order : ℤ → String → String → ℤ → Bool → SimulatedOrder
open_order broker_id id symbol amount buy_sell = record {
  broker_order_id = broker_id;
  client_order_id = id;
  symbol = symbol;
  amount = amount;
  buy_sell = buy_sell;
  amount_filled = pos 0;
  cancelling = false;
  status = working;
}

-- `SimulatedOrder.cancel_order`
unfoldable pub request_cancel : SimulatedOrder → SimulatedOrder
request_cancel o = record o { cancelling = true; status = pending_cancel }

abbrev pub min_ℤ : ℤ → ℤ → ℤ
min_ℤ a b = if ltb_ℤ b a then b else a

-- `max(1, amount // 10)`, the most that `randint` draws
unfoldable pub largest_draw : ℤ → ℕ
largest_draw (pos n) = if leb 1 (n / 10) then n / 10 else 1
largest_draw (negsuc n) = 1

-- The test of the loop of `execute_order_thread`.
unfoldable pub is_executing : SimulatedOrder → Bool
is_executing o = not o.cancelling && ltb_ℤ o.amount_filled o.amount

-- The body of the loop.
unfoldable pub execute : ℕ → SimulatedOrder → SimulatedOrder
execute draw o = record o {
  amount_filled = o.amount_filled +ℤ min_ℤ (pos draw) (o.amount -ℤ o.amount_filled);
}

unfoldable pub final_status : SimulatedOrder → Status
final_status o = if o.cancelling then cancelled else filled

-- The message at the end of `execute_order_thread`.
unfoldable pub final_confirmation : SimulatedOrder → TradeConfirmationMessage
unfolding final_status
final_confirmation o = record {
  order_id = o.broker_order_id;
  client_order_id = o.client_order_id;
  symbol = o.symbol;
  filled_quantity = o.amount_filled;
  side_is_buy = o.buy_sell;
  price = float (pos 100);
  status = final_status o;
}

pub record SimulatedBroker : Type 0 where
  pub has_callback : Bool
  pub next_broker_order_id : ℕ
  pub live_orders : Dict String SimulatedOrder
  pub timers : List TradeConfirmationMessage

-- `SimulatedBroker.__init__`
unfoldable pub init : Bool → SimulatedBroker
init has_callback = record {
  has_callback = has_callback;
  next_broker_order_id = 0;
  live_orders = [];
  timers = [];
}

-- `_internal_sim_trade_callback`: the confirmations that go on to the position manager.
unfoldable pub internal_sim_trade_callback :
    TradeConfirmationMessage → SimulatedBroker → Reply (Unit {0}) SimulatedBroker
internal_sim_trade_callback conf b = record {
  result = tt;
  confirmations = if b.has_callback then conf ∷ [] else [];
  after = record b { live_orders = erase conf.client_order_id b.live_orders };
}

unfoldable pub duplicate_rejection : String → String → Bool → TradeConfirmationMessage
duplicate_rejection id symbol side_is_buy = record {
  order_id = negsuc 0;
  client_order_id = id;
  symbol = symbol;
  filled_quantity = pos 0;
  side_is_buy = side_is_buy;
  price = float (pos 0);
  status = rejected;
}

unfoldable pub submit_order :
    String
    → String
    → ℤ
    → Bool
    → String
    → Option Float
    → SimulatedBroker
    → Reply (Option ℤ) SimulatedBroker
unfolding open_order duplicate_rejection
submit_order id symbol quantity side_is_buy order_type price b =
    let refused : SimulatedBroker → Reply (Option ℤ) SimulatedBroker =
      λ b'. record { result = none; confirmations = []; after = b' } in
    if not b.has_callback then refused b else elim (lookup id b.live_orders) [
      | some _ ↦
          refused (record b { timers = b.timers ++ duplicate_rejection id symbol side_is_buy ∷ [] })
      | none ↦ record {
        result = some (pos b.next_broker_order_id);
        confirmations = [];
        after = record b {
          next_broker_order_id = suc b.next_broker_order_id;
          live_orders =
              insert id (open_order (pos b.next_broker_order_id) id symbol quantity side_is_buy)
                b.live_orders;
        };
      }
    ]

unfoldable pub cancel_order : String → SimulatedBroker → Reply Bool SimulatedBroker
unfolding request_cancel
cancel_order id b = elim (lookup id b.live_orders) [
  | none ↦ record { result = false; confirmations = []; after = b }
  | some o ↦ record {
    result = true;
    confirmations = [];
    after = record b { live_orders = insert id (request_cancel o) b.live_orders };
  }
]

unfoldable pub details_of : SimulatedOrder → OrderDetails
details_of o = record {
  client_order_id = o.client_order_id;
  broker_order_id = some o.broker_order_id;
  symbol = o.symbol;
  quantity = o.amount;
  side_is_buy = o.buy_sell;
  type = "MARKET";
  price = none;
  status = o.status;
  filled_quantity = o.amount_filled;
}

unfoldable pub get_order_details : String → SimulatedBroker → Option OrderDetails
unfolding details_of
get_order_details id b = elim (lookup id b.live_orders) [
  | none ↦ none
  | some o ↦ some (details_of o)
]

-- `start` starts nothing.
abbrev pub start : SimulatedBroker → Option SimulatedBroker
start b = some b

-- `stop` asks every live order to end.
unfoldable pub stop : SimulatedBroker → SimulatedBroker
unfolding request_cancel
stop b = record b { live_orders = map (λ e. (e.0, request_cancel e.1)) b.live_orders }

-- One round of the thread of an order, with the number that it draws. When the loop has ended the
-- thread reports and is gone.
unfoldable pub thread_step :
    String → ℕ → SimulatedBroker → List TradeConfirmationMessage × SimulatedBroker
thread_step id draw b = elim (lookup id b.live_orders) [
  | none ↦ ([], b)
  | some o ↦
      let reply = internal_sim_trade_callback (final_confirmation o) b in
      if is_executing o
      then ([], record b { live_orders = insert id (execute draw o) b.live_orders })
      else (reply.confirmations, reply.after)
]

-- The rounds of one thread.
unfoldable pub run_thread :
    String → List ℕ → SimulatedBroker → List TradeConfirmationMessage × SimulatedBroker
run_thread id [] b = ([], b)
run_thread id (draw ∷ draws) b =
    let (first, b') = thread_step id draw b in
    let (rest, b'') = run_thread id draws b' in (first ++ rest, b'')

-- A timer that fires passes its message to the position manager.
unfoldable pub fire_timer : SimulatedBroker → List TradeConfirmationMessage × SimulatedBroker
fire_timer b = elim b.timers [
  | [] ↦ ([], b)
  | conf ∷ rest ↦ (conf ∷ [], record b { timers = rest })
]

-- The simulated broker as the position manager sees it.
abbrev pub simulated : BrokerInterface SimulatedBroker
simulated = record {
  submit_order = submit_order;
  cancel_order = cancel_order;
  start = start;
  stop = stop;
}
