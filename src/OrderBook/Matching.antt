-- ===== src/OrderBook/Matching.antt =====
-- `MatchOrders` of order_book/src/order_book.cpp.
use flow_manager.Base.{
  List, Option, [], false, if◌then◌else◌, length, ltb, nat_eq, none, some, string_eq, suc, true,
  zero, ℕ, ◌++◌, ◌+◌, ◌==◌, ◌∷◌,
}
use flow_manager.Dict.{Dict, erase}
use flow_manager.OrderBook.{Entry, Levels, Order, Trade, drop_empty, fill_order, order_is_filled}

-- `pop_front` of an order that has been filled
unfoldable pub keep : Order → List Order → List Order
unfolding order_is_filled
keep o os = if order_is_filled o then os else o ∷ os

unfoldable pub forget_filled : Order → Dict ℕ Entry → Dict ℕ Entry
unfolding order_is_filled
forget_filled o entries = if order_is_filled o then erase o.order_id entries else entries

-- The object `held` is the one that has been filled.
unfoldable pub seen : Order → Order → Order
seen o held = if o.order_id == held.order_id then o else held

-- What a round of matching changes beside the levels.
pub record Ledger : Type 0 where
  pub trades : List Trade
  pub entries : Dict ℕ Entry
  pub held : Order

unfoldable pub trade_of : Order → Order → ℕ → Trade
trade_of bid ask quantity = record {
  bid_trade = record { order_id = bid.order_id; price = bid.price; traded_quantity = quantity };
  ask_trade = record { order_id = ask.order_id; price = ask.price; traded_quantity = quantity };
}

-- The trade is listed, and the filled orders leave the map; `bid` and `ask` are filled already.
unfoldable pub book_trade : Order → Order → ℕ → Ledger → Ledger
unfolding trade_of forget_filled seen
book_trade bid ask quantity r = record {
  trades = r.trades ++ trade_of bid ask quantity ∷ [];
  entries = forget_filled ask (forget_filled bid r.entries);
  held = seen ask (seen bid r.held);
}

abbrev pub min : ℕ → ℕ → ℕ
min a b = if ltb b a then b else a

-- The inner loop of `MatchOrders`, on the levels at the front. `none` is an exception or the end of
-- the fuel.
unfoldable pub match_level : ℕ → Levels → Levels → Ledger → Option (Levels × Levels × Ledger)
match_level zero bids asks r = none
match_level (suc n) ((p, b ∷ bs) ∷ bl) ((q, a ∷ os) ∷ al) r =
    let quantity = min b.remaining_quantity a.remaining_quantity in
    elim (fill_order quantity b) [
      | none ↦ none
      | some b' ↦ elim (fill_order quantity a) [
        | none ↦ none
        | some a' ↦
            match_level n ((p, keep b' bs) ∷ bl) ((q, keep a' os) ∷ al)
              (book_trade b' a' quantity r)
      ]
    ]
match_level (suc n) bids asks r = some (bids, asks, r)

-- The outer loop of `MatchOrders`.
unfoldable pub match_orders : ℕ → Levels → Levels → Ledger → Option (Levels × Levels × Ledger)
match_orders zero bids asks r = none
match_orders (suc n) ((p, bs) ∷ bl) ((q, os) ∷ al) r = elim (ltb p q) [
  | true ↦ some ((p, bs) ∷ bl, (q, os) ∷ al, r)
  | false ↦ elim (match_level (suc (length bs + length os)) ((p, bs) ∷ bl) ((q, os) ∷ al) r) [
    | none ↦ none
    | some (bids, asks, r') ↦ match_orders n (drop_empty bids) (drop_empty asks) r'
  ]
]
match_orders (suc n) bids asks r = some (bids, asks, r)
