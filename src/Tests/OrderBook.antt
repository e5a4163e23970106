-- ===== src/Tests/OrderBook.antt =====
-- Calls of the order book broker of position_manager/app/brokers/cpp_ob_broker.py.
use flow_manager.Base.{
  String, [], arith, false, inl, nat_eq, none, refl, some, string_eq, sym, true, ◌<◌, ◌∙◌, ◌∷◌, ◌≡◌,
  ◌≢◌,
}
use flow_manager.Broker.{OrderDetails, working}
use flow_manager.CppBroker.{
  CppOrderBookBroker, Network, ServerReply, answer, get_book_info, is_ok, returned,
  send_request_to_ob, timeout,
}
use flow_manager.CppBroker.Deadlock.{IsDeadlocked, submit_order_cpp-IsDeadlocked}
use flow_manager.CppBroker.Endless.{sends_again}
use flow_manager.CppBroker.Rejections.{IsRestored, submit_order_cpp-IsRestored}
use flow_manager.CppBroker.Requests.{Asked, outcome_of, send_request-total}
use flow_manager.CppBroker.Submit.{submit_order_cpp}
use flow_manager.CppBroker.Unpriced.{Traded, aimed_at, cpp, created, never_trades, turned}
use flow_manager.Dict.{lookup}
use flow_manager.Float.{float, truncate}
use flow_manager.Int.{parts, pos}
use flow_manager.PositionManager.{PositionManager, init, position_of, update_target_position}
use flow_manager.PositionManager.Orders.{cycle}
use flow_manager.PositionManager.Pending.{cycle-aim, pending_target}
use flow_manager.PositionManager.Targets.{last_target}
use flow_manager.Tests.{unary_id, unary_id-IsFresh}

abbrev idle_cpp : CppOrderBookBroker
idle_cpp = record {
  is_connected = true;
  broker_order_id_counter = 0;
  is_locked = false;
  client_to_broker_id_map = [];
  broker_to_client_id_map = [];
  broker_id_to_order_details = [];
  requests = [];
  confirmed = [];
}

abbrev silence : Network
silence = record { connects = true; exchange = timeout }

-- The server's answer to an order that its book rejects.
abbrev refusal : ServerReply
refusal = record {
  status = some "OK";
  trades = none;
  order_final_status_in_book = some "REJECTED_BY_BOOK";
  final_status = none;
  bids = none;
  asks = none;
}

abbrev refusing : Network
refusing = record { connects = true; exchange = answer refusal }

abbrev same_text : String → String
same_text s = s

send_request-total_example :
    (b' : CppOrderBookBroker) × (send_request_to_ob (get_book_info "AAPL") silence idle_cpp
      ≡ returned (outcome_of silence) b')
    × Asked idle_cpp b'
send_request-total_example = send_request-total (get_book_info "AAPL") silence idle_cpp

submit_order_cpp-IsRestored_example : IsRestored "a" "AAPL" true idle_cpp (
    submit_order_cpp same_text "a" "AAPL"
      (pos 5)
      true
      "GTC"
      (some (float (pos 100)))
      silence
      idle_cpp)
unfolding truncate lookup is_ok
submit_order_cpp-IsRestored_example =
    submit_order_cpp-IsRestored same_text "a" "AAPL" (pos 5) true "GTC" (float (pos 100)) (pos 100)
      silence idle_cpp refl refl refl refl refl refl

submit_order_cpp-IsDeadlocked_example : IsDeadlocked (
    submit_order_cpp same_text "a" "AAPL"
      (pos 5)
      true
      "IOC"
      (some (float (pos 100)))
      refusing
      idle_cpp)
unfolding truncate is_ok
submit_order_cpp-IsDeadlocked_example =
    submit_order_cpp-IsDeadlocked same_text "a" "AAPL" (pos 5) true "IOC" (float (pos 100))
      (pos 100) refusing refusal idle_cpp refl refl refl refl refl refl (inl refl)

abbrev resting_order : OrderDetails
resting_order = record {
  client_order_id = "a";
  broker_order_id = some (pos 1);
  symbol = "AAPL";
  quantity = pos 5;
  side_is_buy = true;
  type = "GTC";
  price = some (float (pos 100));
  status = working;
  filled_quantity = pos 0;
}

abbrev resting_cpp : CppOrderBookBroker
resting_cpp = record idle_cpp {
  broker_order_id_counter = 1;
  client_to_broker_id_map = ("a", 1) ∷ [];
  broker_to_client_id_map = (1, "a") ∷ [];
  broker_id_to_order_details = (1, resting_order) ∷ [];
}

abbrev always_refusing : CppOrderBookBroker → Network
always_refusing b = refusing

abbrev aimed_cpp : PositionManager CppOrderBookBroker
aimed_cpp =
    (cycle (cpp same_text always_refusing) unary_id
      (update_target_position "AAPL" (pos 100) (init idle_cpp)))

aimed_cpp-Traded : Traded same_text always_refusing unary_id unary_id-IsFresh aimed_cpp
aimed_cpp-Traded = turned (aimed_at "AAPL" (pos 100) (created idle_cpp (refl, refl)))

never_trades_example : position_of aimed_cpp "AAPL" ≡ pos 0
never_trades_example =
    never_trades same_text always_refusing unary_id unary_id-IsFresh aimed_cpp-Traded "AAPL"

still_wanted : pending_target aimed_cpp "AAPL" ≢ pos 0
unfolding last_target init update_target_position
still_wanted e =
    let same =
      (cycle-aim (cpp same_text always_refusing) unary_id
          (update_target_position "AAPL" (pos 100) (init idle_cpp))).0
        "AAPL" in
    let wrong : pos 100 ≡ pos 0 = sym same ∙ e in omega (arith, parts wrong)

sends_again_example :
    (aimed_cpp.issued < (cycle (cpp same_text always_refusing) unary_id aimed_cpp).issued)
    × (pending_target (cycle (cpp same_text always_refusing) unary_id aimed_cpp) "AAPL"
        ≡ pending_target aimed_cpp "AAPL")
sends_again_example =
    sends_again same_text always_refusing unary_id unary_id-IsFresh aimed_cpp aimed_cpp-Traded
      "AAPL" still_wanted
