-- ===== src/OrderBook/Adding.antt =====
-- `CancelOrder` and `AddOrder` of order_book/src/order_book.cpp.
use mathlib.Core.Option.{map as map_option}
use flow_manager.Base.{
  Bool, List, Option, [], false, if◌then◌else◌, length, nat_eq, none, not, some, string_eq, suc,
  true, ℕ, ◌&&◌, ◌+◌, ◌==◌, ◌∷◌,
}
use flow_manager.Dict.{erase, insert, lookup}
use flow_manager.OrderBook.{
  Entry, Levels, Order, OrderBook, Trade, add_to_level, buy, can_match, drop_empty, entry_of,
  fill_and_kill, good_till_cancel, order_is_filled, sell,
}
use flow_manager.OrderBook.Matching.{match_orders}

-- `level_orders.erase(location)`; `none` stands for an iterator that is not valid.
unfoldable pub erase_node : ℕ → List Order → Option (List Order)
erase_node id [] = none
erase_node id (o ∷ os) = if o.order_id == id then some os else map_option (◌∷◌ o) (erase_node id os)

-- `levels.at(price)`, the erasure, and that of the level when it is empty; `none` also stands for
-- `std::out_of_range`.
unfoldable pub remove_from : ℕ → ℕ → Levels → Option Levels
remove_from id price [] = none
remove_from id price ((p, os) ∷ ls) =
    let further = map_option (◌∷◌ (p, os)) (remove_from id price ls) in
    if p == price
    then map_option (λ os'. drop_empty ((p, os') ∷ ls)) (erase_node id os)
    else further

-- The branch of the side in `CancelOrderInternal`.
unfoldable pub remove_of : ℕ → Entry → OrderBook → Option OrderBook
remove_of id e book = elim e.side [
  | buy ↦
      map_option
        (λ ls. record { bids = ls; asks = book.asks; orders_map = erase id book.orders_map })
        (remove_from id e.price book.bids)
  | sell ↦
      map_option
        (λ ls. record { bids = book.bids; asks = ls; orders_map = erase id book.orders_map })
        (remove_from id e.price book.asks)
]

unfoldable pub cancel_order_internal : ℕ → OrderBook → Option OrderBook
cancel_order_internal id book = elim (lookup id book.orders_map) [
  | none ↦ none
  | some e ↦ remove_of id e book
]

unfoldable pub cancel_book_order : ℕ → OrderBook → Option (Bool × OrderBook)
cancel_book_order id book = elim (lookup id book.orders_map) [
  | none ↦ some (false, book)
  | some _ ↦ map_option (λ b. (true, b)) (cancel_order_internal id book)
]

unfoldable pub is_fak : Order → Bool
is_fak o = elim o.order_type [ fill_and_kill ↦ true | good_till_cancel ↦ false ]

-- What `AddOrder` returns, with the book: no order when the identifier is in use.
pub record Added : Type 0 where
  pub trades : List Trade
  pub order : Option Order
  pub book : OrderBook

-- `bids_[price].push_back(order)` or the same of `asks_`, and the new entry
unfoldable pub rest_order : Order → OrderBook → OrderBook
rest_order o book = elim o.side [
  | buy ↦ record {
    bids = add_to_level buy o book.bids;
    asks = book.asks;
    orders_map = insert o.order_id (entry_of o) book.orders_map;
  }
  | sell ↦ record {
    bids = book.bids;
    asks = add_to_level sell o book.asks;
    orders_map = insert o.order_id (entry_of o) book.orders_map;
  }
]

-- The end of `AddOrder`: what is left of a `FillAndKill` order goes.
unfoldable pub kill_rest : List Trade → Order → OrderBook → Option Added
kill_rest trades o book =
    let kept : Added = record { trades = trades; order = some o; book = book } in
    if is_fak o && not (order_is_filled o)
    then elim (lookup o.order_id book.orders_map) [
      | none ↦ some kept
      | some _ ↦ map_option (λ b. record kept { book = b }) (cancel_order_internal o.order_id book)
    ]
    else some kept

-- `MatchOrders` with fuel for every level and one round more, and what follows it in `AddOrder`.
unfoldable pub match_and_kill : Order → OrderBook → Option Added
match_and_kill o book =
    elim (match_orders (suc (length book.bids + length book.asks)) book.bids book.asks
      (record { trades = []; entries = book.orders_map; held = o })) [
        | none ↦ none
        | some (bids, asks, r) ↦
            kill_rest r.trades r.held (record { bids = bids; asks = asks; orders_map = r.entries })
      ]

unfoldable pub add_order : Order → OrderBook → Option Added
add_order o book = elim (lookup o.order_id book.orders_map) [
  | some _ ↦ some (record { trades = []; order = none; book = book })
  | none ↦
      if is_fak o && not (can_match o.side o.price book)
      then some (record { trades = []; order = some o; book = book })
      else match_and_kill o (rest_order o book)
]
