-- ===== src/Server.antt =====
-- order_book/src/order_book_server.cpp: the commands of the server, on the requests that
-- position_manager/app/brokers/cpp_ob_broker.py sends and in the answers that it reads. The socket
-- and the parser of JSON belong to libraries; the fields of an answer that the client does not read
-- are left out.
pub mod Unmatched
use mathlib.Core.Option.{map as map_option}
use flow_manager.OrderBook.Adding.{add_order as add_to_book}
use flow_manager.Base.{
  Bool, List, Option, String, [], false, if◌then◌else◌, map, nat_eq, none, some, string_eq, true, ℕ,
  ◌==◌, ◌∷◌,
}
use flow_manager.CppBroker.{
  Exchange, FillInfo, Request, ServerReply, add_order, answer, cancel_request, get_book_info,
}
use flow_manager.Int.{pos, ℤ}
use flow_manager.OrderBook.{
  LevelInfo, Order, OrderBook, Trade, TradeInfo, buy, fill_and_kill, get_order_infos,
  good_till_cancel, make_order, order_is_filled, sell,
}
use flow_manager.OrderBook.Adding.{Added, cancel_book_order, is_fak}
use flow_manager.SimulatedBroker.{final_status}

unfoldable pub fill_info : TradeInfo → FillInfo
fill_info t = record {
  order_id_filled = some t.order_id;
  traded_quantity = some (pos t.traded_quantity);
  price = some (pos t.price);
}

-- Both sides of every trade, the bid first.
unfoldable pub fills_of : List Trade → List FillInfo
fills_of [] = []
fills_of (t ∷ ts) = fill_info t.bid_trade ∷ fill_info t.ask_trade ∷ fills_of ts

unfoldable pub status_in_book : Order → String
status_in_book o =
    if order_is_filled o then "FILLED" else (if is_fak o then "REJECTED_BY_BOOK" else "WORKING")

abbrev pub plain_reply : String → ServerReply
plain_reply status = record {
  status = some status;
  trades = none;
  order_final_status_in_book = none;
  final_status = none;
  bids = none;
  asks = none;
}

-- The answer to ADD_ORDER. Without an order there are no trades, and the request is refused.
unfoldable pub add_reply : Added → ServerReply
add_reply r = elim r.order [
  | none ↦ plain_reply "ERROR"
  | some o ↦ record (plain_reply "OK") {
    trades = some (fills_of r.trades);
    order_final_status_in_book = some (status_in_book o);
  }
]

unfoldable pub cancel_reply : Bool → ServerReply
cancel_reply true = record (plain_reply "OK") { final_status = some "CANCELLED" }
cancel_reply false = record (plain_reply "ERROR") { final_status = some "CANCEL_REJECTED" }

unfoldable pub info_reply : List LevelInfo × List LevelInfo → ServerReply
info_reply (bids, asks) = record (plain_reply "OK") {
  bids = some (map (λ (i : LevelInfo). (i.price, i.quantity)) bids);
  asks = some (map (λ (i : LevelInfo). (i.price, i.quantity)) asks);
}

-- `get_u32` and `get_u64` are the JSON library's reading of a number as an unsigned integer of 32
-- and of 64 bits.
module _ (get_u32 : ℤ → ℕ) (get_u64 : ℕ → ℕ) where
  -- The order of an ADD_ORDER request.
  unfoldable pub requested_order : ℕ → String → ℤ → ℤ → String → Order
  unfolding make_order
  requested_order id side price quantity type =
      make_order (if type == "GoodTillCancel" then good_till_cancel else fill_and_kill) (get_u64 id)
        (if side == "Buy" then buy else sell) (get_u32 price) (get_u32 quantity)

  -- One request; `none` is an exception of the book.
  unfoldable pub serve : Request → OrderBook → Option (ServerReply × OrderBook)
  serve (add_order client_id id symbol side price quantity type) book =
      map_option (λ r. (add_reply r, r.book))
        (add_to_book (requested_order id side price quantity type) book)
  serve (cancel_request id) book =
      map_option (λ r. (cancel_reply r.0, r.1)) (cancel_book_order (get_u64 id) book)
  serve (get_book_info symbol) book = some (info_reply (get_order_infos book), book)

  -- The connection to a server with a book: what a request brings.
  unfoldable pub exchange_with : OrderBook → Request → Exchange
  unfolding serve
  exchange_with book request = elim (serve request book) [
    | none ↦ answer (plain_reply "ERROR")
    | some (reply, after) ↦ answer reply
  ]
