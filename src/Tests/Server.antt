-- ===== src/Tests/Server.antt =====
-- The client of cpp_ob_broker.py against the server of order_book_server.cpp, on a small book.
use flow_manager.OrderBook.Adding.{add_order}
use flow_manager.Base.{String, [], false, nat_eq, refl, some, string_eq, true, ℕ, ◌%◌, ◌-◌, ◌^◌}
use flow_manager.CppBroker.{CppOrderBookBroker, Network}
use flow_manager.CppBroker.Requests.{next_id}
use flow_manager.CppBroker.Submit.{submit_order_cpp}
use flow_manager.Dict.{erase, insert, lookup}
use flow_manager.Float.{float, truncate}
use flow_manager.Int.{negsuc, pos, ℤ}
use flow_manager.OrderBook.{
  add_to_level, can_match, drop_empty, empty_book, entry_of, fill_order, make_order,
  order_is_filled, precedes,
}
use flow_manager.OrderBook.Adding.{
  cancel_order_internal, erase_node, is_fak, kill_rest, match_and_kill, remove_from, remove_of,
  rest_order,
}
use flow_manager.OrderBook.Matching.{book_trade, keep, match_level, match_orders}
use flow_manager.Server.{exchange_with, requested_order}
use flow_manager.Server.Unmatched.{EndsFor, request_of, unmatched_order}
use flow_manager.Tests.Engine.{offers, offers_session}

abbrev waiting_cpp : CppOrderBookBroker
waiting_cpp = record {
  is_connected = true;
  broker_order_id_counter = 6;
  is_locked = false;
  client_to_broker_id_map = [];
  broker_to_client_id_map = [];
  broker_id_to_order_details = [];
  requests = [];
  confirmed = [];
}

abbrev plain_text : String → String
plain_text s = s

-- Numbers are cut to their width.
abbrev whole_part : ℤ → ℕ
whole_part (pos n) = n % 2 ^ 32
whole_part (negsuc n) = 2 ^ 32 - 1 - n % 2 ^ 32

-- The server answers what it answers to this request.
abbrev with_server : String → Network
with_server type = record {
  connects = true;
  exchange =
      exchange_with whole_part (λ n. n % 2 ^ 64) offers
        (request_of plain_text "a" "AAPL" (pos 5) true type (pos 99) waiting_cpp);
}

unmatched_order_example : EndsFor (next_id waiting_cpp) false (
    submit_order_cpp plain_text "a" "AAPL"
      (pos 5)
      true
      "IOC"
      (some (float (pos 99)))
      (with_server "IOC")
      waiting_cpp)
unfolding truncate requested_order order_is_filled make_order add_order is_fak can_match rest_order
    add_to_level entry_of match_and_kill match_orders match_level drop_empty fill_order keep
    book_trade kill_rest cancel_order_internal remove_of remove_from erase_node precedes lookup
    insert erase empty_book
unmatched_order_example =
    unmatched_order whole_part (λ n. n % 2 ^ 64) plain_text "a" "AAPL" (pos 5) true "IOC"
      (float (pos 99)) (pos 99) (with_server "IOC") offers waiting_cpp offers_session refl refl refl
      refl refl refl refl
