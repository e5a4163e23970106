-- ===== src/OrderBook/Books.antt =====
-- The order book of order_book/src/order_book.cpp between two calls, and a cancellation.
use mathlib.Core.List.{append_assoc}
use flow_manager.Base.{
  All, All-append, All-mono, Bool-cases, List, Option, [], ap, arith, if◌then◌else◌, inl, inr,
  list_cases, nat_eq, refl, some, string_eq, subst, sym, ℕ, ◌++◌, ◌<◌, ◌==◌, ◌∙◌, ◌∷◌, ◌≡◌, ◌⊎◌,
}
use flow_manager.Dict.{Dict, erase, lookup, lookup-erase}
use flow_manager.OrderBook.{Entry, Levels, Order, OrderBook, Side, buy, entry_of, sell}
use flow_manager.OrderBook.Adding.{cancel_order_internal, remove_from, remove_of}
use flow_manager.OrderBook.Erasing.{IsWithout}
use flow_manager.OrderBook.Kept.{Pairs}
use flow_manager.OrderBook.Loops.{NoneEmpty}
use flow_manager.OrderBook.Registered.{IsRegistered, flat, middle, picks, picks-append, to_list}
use flow_manager.OrderBook.Removing.{All-without, remove_from-IsRemoved}
use flow_manager.OrderBook.Sides.{IsSide}

-- The bids stand by falling and the asks by rising prices, each order at its side and price, no
-- level is empty, the map knows exactly the orders on the book, and no bid reaches an ask.
pub record IsBook (book : OrderBook) : Type 0 where
  pub bid_side : IsSide buy book.bids
  pub ask_side : IsSide sell book.asks
  pub bids_full : NoneEmpty book.bids
  pub asks_full : NoneEmpty book.asks
  pub registered : IsRegistered (flat book.bids) (flat book.asks) book.orders_map
  pub apart : Pairs (λ b a. b.price < a.price) (flat book.bids) (flat book.asks)

pub picks_without :
    {A : Type 0} (f : Order → A) (id k : ℕ) (os os' : List Order) (w : IsWithout id os os')
    → (picks f k os
        ≡ picks f k w.before
          ++ (if w.order.order_id == k then f w.order ∷ picks f k w.behind else picks f k w.behind))
      × (picks f k os' ≡ picks f k w.before ++ picks f k w.behind)
picks_without f id k os os' w = (
  ap (picks f k) w.all
      ∙ picks-append f k w.before (w.order ∷ w.behind)
      ∙ ap (λ l. picks f k w.before ++ l) (unfold picks in refl),
  ap (picks f k) w.rest ∙ picks-append f k w.before w.behind,
)

-- The map loses the identifier when its order has been taken out.
without_bid :
    (id : ℕ) (bids bids' asks : List Order) (entries : Dict ℕ Entry)
    → IsWithout id bids bids'
    → IsRegistered bids asks entries
    → IsRegistered bids' asks (erase id entries)
unfolding IsRegistered
without_bid id bids bids' asks entries w h k =
    let (whole, part) = picks_without entry_of id k bids bids' w in
    let xs = picks entry_of k w.before in
    let ys = picks entry_of k w.behind in
    let zs = picks entry_of k asks in
    ground (
      arith,
      whole,
      part,
      h k,
      w.named,
      lookup-erase id k entries,
      append_assoc xs ys zs,
      append_assoc xs (entry_of w.order ∷ ys) zs,
      middle xs (ys ++ zs) (entry_of w.order) (lookup k entries),
    )

without_ask :
    (id : ℕ) (bids asks asks' : List Order) (entries : Dict ℕ Entry)
    → IsWithout id asks asks'
    → IsRegistered bids asks entries
    → IsRegistered bids asks' (erase id entries)
unfolding IsRegistered
without_ask id bids asks asks' entries w h k =
    let (whole, part) = picks_without entry_of id k asks asks' w in
    let xs = picks entry_of k w.before in
    let ys = picks entry_of k w.behind in
    let zs = picks entry_of k bids in
    ground (
      arith,
      whole,
      part,
      h k,
      w.named,
      lookup-erase id k entries,
      append_assoc zs xs ys,
      append_assoc zs xs (entry_of w.order ∷ ys),
      middle (zs ++ xs) ys (entry_of w.order) (lookup k entries),
    )

picks_side :
    (side : Side) (id : ℕ) (os : List Order) (e : Entry) (es : List Entry)
    → All (λ (o : Order). o.side ≡ side) os
    → picks entry_of id os ≡ e ∷ es
    → e.side ≡ side
unfolding picks entry_of
picks_side side id [] e es h k = cc
picks_side side id (o ∷ os) e es h k = elim (Bool-cases (o.order_id == id)) [
  | inl hit ↦ ground (arith, hit)
  | inr miss ↦ picks_side side id os e es h.1 (ground (arith, miss))
]

pub All-side :
    (side : Side) (ls : Levels) → IsSide side ls → All (λ (o : Order). o.side ≡ side) (flat ls)
unfolding IsSide
All-side side [] h = tt
All-side side ((p, os) ∷ ls) h =
    All-append _ os (flat ls) (All-mono _ _ os (λ o k. k.0) h.0) (All-side side ls h.2)

-- An entry is at one of the two sides, the one it names.
located :
    (id : ℕ) (e : Entry) (book : OrderBook)
    → IsBook book
    → lookup id book.orders_map ≡ some e
    → ((e.side ≡ buy) × (picks entry_of id (flat book.bids) ≡ e ∷ []))
      ⊎ ((e.side ≡ sell) × (picks entry_of id (flat book.asks) ≡ e ∷ []))
unfolding IsRegistered
located id e book h k =
    let both : picks entry_of id (flat book.bids) ++ picks entry_of id (flat book.asks) ≡ e ∷ [] =
      h.registered id ∙ ap to_list k in
    elim (list_cases (picks entry_of id (flat book.bids))) [
      | inl none_ ↦
          let there : picks entry_of id (flat book.asks) ≡ e ∷ [] =
            subst (λ l. l ++ picks entry_of id (flat book.asks) ≡ e ∷ []) none_ both in
          inr (
            picks_side sell id (flat book.asks) e [] (All-side sell book.asks h.ask_side) there,
            there,
          )
      | inr (x, xs, found) ↦
          let first : x ∷ (xs ++ picks entry_of id (flat book.asks)) ≡ e ∷ [] =
            subst (λ l. l ++ picks entry_of id (flat book.asks) ≡ e ∷ []) found both in
          let there : picks entry_of id (flat book.bids) ≡ e ∷ [] = ground (arith, found, first) in
          inl (
            picks_side buy id (flat book.bids) e [] (All-side buy book.bids h.bid_side) there,
            there,
          )
    ]

-- One order of the identifier is gone from the book, and nothing else has changed.
pub record IsTakenOut (id : ℕ) (e : Entry) (book : OrderBook) (r : Option OrderBook) : Type 0 where
  pub kept : OrderBook
  pub result : r ≡ some kept
  pub valid : IsBook kept
  pub forgotten : kept.orders_map ≡ erase id book.orders_map
  pub without :
      ((e.side ≡ buy) × IsWithout id (flat book.bids) (flat kept.bids) × (kept.asks ≡ book.asks))
      ⊎ ((e.side ≡ sell) × IsWithout id (flat book.asks) (flat kept.asks) × (kept.bids ≡ book.bids))

pub remove_of_buy :
    (id : ℕ) (e : Entry) (book : OrderBook) (ls : Levels)
    → e.side ≡ buy
    → remove_from id e.price book.bids ≡ some ls
    → remove_of id e book
      ≡ some (record { bids = ls; asks = book.asks; orders_map = erase id book.orders_map })
unfolding remove_of
remove_of_buy id e book ls h k = ground (arith, h, k)

pub remove_of_sell :
    (id : ℕ) (e : Entry) (book : OrderBook) (ls : Levels)
    → e.side ≡ sell
    → remove_from id e.price book.asks ≡ some ls
    → remove_of id e book
      ≡ some (record { bids = book.bids; asks = ls; orders_map = erase id book.orders_map })
unfolding remove_of
remove_of_sell id e book ls h k = ground (arith, h, k)

remove_of-IsTakenOut :
    (id : ℕ) (e : Entry) (book : OrderBook)
    → IsBook book
    → lookup id book.orders_map ≡ some e
    → IsTakenOut id e book (remove_of id e book)
remove_of-IsTakenOut id e book h k = elim (located id e book h k) [
  | inl (side, there) ↦
      let d = remove_from-IsRemoved id buy e book.bids h.bid_side h.bids_full there in
      let taken : OrderBook = record {
        bids = d.kept;
        asks = book.asks;
        orders_map = erase id book.orders_map;
      } in
      subst (IsTakenOut id e book) (sym (remove_of_buy id e book d.kept side d.result)) (record {
        kept = taken;
        result = refl;
        valid = record {
          bid_side = d.side_kept;
          ask_side = h.ask_side;
          bids_full = d.none_empty;
          asks_full = h.asks_full;
          registered =
              without_bid id (flat book.bids) (flat d.kept) (flat book.asks) book.orders_map
                d.without h.registered;
          apart = All-without _ id (flat book.bids) (flat d.kept) d.without h.apart;
        };
        forgotten = refl;
        without = inl (side, d.without, refl);
      })
  | inr (side, there) ↦
      let d = remove_from-IsRemoved id sell e book.asks h.ask_side h.asks_full there in
      let taken : OrderBook = record {
        bids = book.bids;
        asks = d.kept;
        orders_map = erase id book.orders_map;
      } in
      subst (IsTakenOut id e book) (sym (remove_of_sell id e book d.kept side d.result)) (record {
        kept = taken;
        result = refl;
        valid = record {
          bid_side = h.bid_side;
          ask_side = d.side_kept;
          bids_full = h.bids_full;
          asks_full = d.none_empty;
          registered =
              without_ask id (flat book.bids) (flat book.asks) (flat d.kept) book.orders_map
                d.without h.registered;
          apart =
              All-mono _ _ (flat book.bids)
                (λ b. All-without _ id (flat book.asks) (flat d.kept) d.without) h.apart;
        };
        forgotten = refl;
        without = inr (side, d.without, refl);
      })
]

pub cancel_order_internal_lem :
    (id : ℕ) (e : Entry) (book : OrderBook)
    → lookup id book.orders_map ≡ some e
    → cancel_order_internal id book ≡ remove_of id e book
cancel_order_internal_lem id e book k =
    unfold cancel_order_internal in rw (cancel_order_internal, k)

pub cancel_order_internal-IsTakenOut :
    (id : ℕ) (e : Entry) (book : OrderBook)
    → IsBook book
    → lookup id book.orders_map ≡ some e
    → IsTakenOut id e book (cancel_order_internal id book)
cancel_order_internal-IsTakenOut id e book h k =
    subst (IsTakenOut id e book) (sym (cancel_order_internal_lem id e book k))
      (remove_of-IsTakenOut id e book h k)
