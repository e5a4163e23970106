-- ===== src/Tests/Trades.antt =====
-- Answers with trades, to the order book broker of position_manager/app/brokers/cpp_ob_broker.py.
use flow_manager.Base.{[], false, nat_eq, none, refl, some, string_eq, true, ◌∷◌}
use flow_manager.Broker.{OrderDetails, working}
use flow_manager.CppBroker.{CppOrderBookBroker, FillInfo, Network, ServerReply, answer, is_ok}
use flow_manager.CppBroker.Acceptance.{IsAccepted, submit_order_cpp-IsAccepted}
use flow_manager.CppBroker.Submit.{process_fill_of, submit_order_cpp}
use flow_manager.CppBroker.Trades.{IsFilled, process_fill_of-IsFilled}
use flow_manager.Dict.{lookup}
use flow_manager.Float.{float, truncate}
use flow_manager.Int.{pos}

-- Order 1 for 5 shares rests.
abbrev old_order : OrderDetails
old_order = record {
  client_order_id = "a";
  broker_order_id = some (pos 1);
  symbol = "AAPL";
  quantity = pos 5;
  side_is_buy = true;
  type = "GTC";
  price = some (float (pos 100));
  status = working;
  filled_quantity = pos 0;
}

abbrev old_cpp : CppOrderBookBroker
old_cpp = record {
  is_connected = true;
  broker_order_id_counter = 1;
  is_locked = false;
  client_to_broker_id_map = ("a", 1) ∷ [];
  broker_to_client_id_map = (1, "a") ∷ [];
  broker_id_to_order_details = (1, old_order) ∷ [];
  requests = [];
  confirmed = [];
}

-- It is filled by three of the five shares that order 2 sells.
abbrev three_shares : FillInfo
three_shares = record {
  order_id_filled = some 1;
  traded_quantity = some (pos 3);
  price = some (pos 100);
}

abbrev taken : FillInfo
taken = record three_shares { order_id_filled = some 2 }

abbrev crossing : ServerReply
crossing = record {
  status = some "OK";
  trades = some (three_shares ∷ taken ∷ []);
  order_final_status_in_book = some "ACTIVE";
  final_status = none;
  bids = none;
  asks = none;
}

abbrev crossing_net : Network
crossing_net = record { connects = true; exchange = answer crossing }

process_fill_of-IsFilled_example :
    IsFilled "a" 1 old_order
      (pos 3)
      (pos 100)
      old_cpp
      (process_fill_of three_shares (some 1) old_cpp)
unfolding lookup
process_fill_of-IsFilled_example =
    process_fill_of-IsFilled three_shares "a" 1 old_order (pos 3) (pos 100) old_cpp refl refl refl
      refl refl refl refl

submit_order_cpp-IsAccepted_example : IsAccepted 2 (
    submit_order_cpp
      (λ t. t)
      "b"
      "AAPL"
      (pos 5)
      false
      "GTC"
      (some (float (pos 100)))
      crossing_net
      old_cpp)
unfolding truncate is_ok
submit_order_cpp-IsAccepted_example =
    submit_order_cpp-IsAccepted (λ t. t) "b" "AAPL" (pos 5) false "GTC" (float (pos 100)) (pos 100)
      crossing_net crossing old_cpp refl refl refl refl refl
      ((pos 3, pos 100, refl, refl), ((pos 3, pos 100, refl, refl), tt)) refl refl
