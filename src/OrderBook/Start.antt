-- ===== src/OrderBook/Start.antt =====
-- `AddOrder` of order_book/src/order_book.cpp up to its call of `MatchOrders`.
use flow_manager.Base.{
  List, [], arith, inl, inr, nat_eq, none, refl, string_eq, subst, sym, ℕ, ◌≡◌, ◌⊎◌,
}
use flow_manager.Dict.{Dict, insert, lookup, lookup-insert_self}
use flow_manager.OrderBook.{Entry, Order, OrderBook, Side, add_to_level, buy, entry_of, sell}
use flow_manager.OrderBook.Accounts.{IsAccounted, bought, sold, untouched}
use flow_manager.OrderBook.Adding.{rest_order}
use flow_manager.OrderBook.Arrival.{
  add_to_level-IsWithout, add_to_level_order, with_ask-IsHeld, with_ask-IsRegistered,
  with_ask-Pairs, with_bid-IsHeld, with_bid-IsRegistered, with_bid-Pairs,
}
use flow_manager.OrderBook.Books.{IsBook}
use flow_manager.OrderBook.Erasing.{IsWithout}
use flow_manager.OrderBook.Kept.{KeptLevels}
use flow_manager.OrderBook.Loops.{NoneEmpty}
use flow_manager.OrderBook.Matching.{Ledger}
use flow_manager.OrderBook.Registered.{flat}
use flow_manager.OrderBook.Sides.{add_to_level-IsSide, add_to_level-NoneEmpty}

abbrev pub first_ledger : Order → OrderBook → Ledger
first_ledger o book = record { trades = []; entries = book.orders_map; held = o }

-- The new order is on the book, at its side, and matching can begin.
pub record IsStarted (o : Order) (book rested : OrderBook) : Type 0 where
  pub levels :
      KeptLevels o
        (flat rested.bids)
        (flat rested.asks)
        rested.bids
        rested.asks
        (first_ledger o rested)
  pub full : NoneEmpty rested.bids × NoneEmpty rested.asks
  pub arrived :
      ((o.side ≡ buy)
        × IsWithout o.order_id (flat rested.bids) (flat book.bids)
        × (rested.asks ≡ book.asks))
      ⊎ ((o.side ≡ sell)
          × IsWithout o.order_id (flat rested.asks) (flat book.asks)
          × (rested.bids ≡ book.bids))

nothing_traded : (bids asks : List Order) → IsAccounted bids asks bids asks []
unfolding IsAccounted bought sold
nothing_traded bids asks id = (omega arith, omega arith)

pub rest_order_buy :
    (o : Order) (book : OrderBook)
    → o.side ≡ buy
    → rest_order o book ≡ record {
      bids = add_to_level buy o book.bids;
      asks = book.asks;
      orders_map = insert o.order_id (entry_of o) book.orders_map;
    }
unfolding rest_order
rest_order_buy o book e = ground (arith, e)

pub rest_order_sell :
    (o : Order) (book : OrderBook)
    → o.side ≡ sell
    → rest_order o book ≡ record {
      bids = book.bids;
      asks = add_to_level sell o book.asks;
      orders_map = insert o.order_id (entry_of o) book.orders_map;
    }
unfolding rest_order
rest_order_sell o book e = ground (arith, e)

module _ (o : Order) (book : OrderBook) (h : IsBook book)
    (unused : lookup o.order_id book.orders_map ≡ none) where
  abbrev entries : Dict ℕ Entry
  entries = insert o.order_id (entry_of o) book.orders_map

  IsStarted-buy :
      o.side ≡ buy
      → IsStarted o book
          (record { bids = add_to_level buy o book.bids; asks = book.asks; orders_map = entries })
  IsStarted-buy e =
      let w = add_to_level-IsWithout buy o book.bids in
      let is_o = add_to_level_order buy o book.bids in
      let bids = flat (add_to_level buy o book.bids) in
      record {
        levels = record {
          bid_side = add_to_level-IsSide buy o book.bids e h.bid_side;
          ask_side = h.ask_side;
          kept = record {
            registered =
                with_bid-IsRegistered o bids (flat book.bids) (flat book.asks) book.orders_map w
                  is_o unused h.registered;
            followed =
                with_bid-IsHeld o bids (flat book.bids) (flat book.asks) book.orders_map w is_o
                  unused h.registered;
            accounted = nothing_traded bids (flat book.asks);
            bids_served = untouched bids;
            asks_served = untouched (flat book.asks);
            entry = inr (lookup-insert_self o.order_id (entry_of o) book.orders_map);
            crossing =
                with_bid-Pairs o bids (flat book.bids) (flat book.asks) book.orders_map w is_o
                  unused h.apart;
            fair = tt;
          };
        };
        full = (add_to_level-NoneEmpty buy o book.bids h.bids_full, h.asks_full);
        arrived = inl (e, w, refl);
      }

  IsStarted-sell :
      o.side ≡ sell
      → IsStarted o book
          (record { bids = book.bids; asks = add_to_level sell o book.asks; orders_map = entries })
  IsStarted-sell e =
      let w = add_to_level-IsWithout sell o book.asks in
      let is_o = add_to_level_order sell o book.asks in
      let asks = flat (add_to_level sell o book.asks) in
      record {
        levels = record {
          bid_side = h.bid_side;
          ask_side = add_to_level-IsSide sell o book.asks e h.ask_side;
          kept = record {
            registered =
                with_ask-IsRegistered o asks (flat book.asks) (flat book.bids) book.orders_map w
                  is_o unused h.registered;
            followed =
                with_ask-IsHeld o asks (flat book.asks) (flat book.bids) book.orders_map w is_o
                  unused h.registered;
            accounted = nothing_traded (flat book.bids) asks;
            bids_served = untouched (flat book.bids);
            asks_served = untouched asks;
            entry = inr (lookup-insert_self o.order_id (entry_of o) book.orders_map);
            crossing =
                with_ask-Pairs o asks (flat book.asks) (flat book.bids) book.orders_map w is_o
                  unused h.apart;
            fair = tt;
          };
        };
        full = (h.bids_full, add_to_level-NoneEmpty sell o book.asks h.asks_full);
        arrived = inr (e, w, refl);
      }

  pub rest_order-IsStarted : IsStarted o book (rest_order o book)
  rest_order-IsStarted = by_side o.side refl
    where
      by_side : (s : Side) → o.side ≡ s → IsStarted o book (rest_order o book)
      by_side buy e = subst (IsStarted o book) (sym (rest_order_buy o book e)) (IsStarted-buy e)
      by_side sell e = subst (IsStarted o book) (sym (rest_order_sell o book e)) (IsStarted-sell e)
