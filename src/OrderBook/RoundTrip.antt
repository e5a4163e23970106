-- ===== src/OrderBook/RoundTrip.antt =====
-- An order that rests on the book of order_book/src/order_book.cpp, and is cancelled again.
use flow_manager.Base.{
  ==_refl, Bool-cases, List, [], ap, arith, false, inl, inr, length, list_cases, ltb, nat_eq, none,
  refl, some, string_eq, subst, suc, sym, true, ℕ, ◌++◌, ◌+◌, ◌<◌, ◌==◌, ◌∙◌, ◌∷◌, ◌≡◌,
}
use flow_manager.Dict.{erase-insert_absent, insert, lookup, lookup-insert_self}
use flow_manager.OrderBook.{
  Levels, Order, OrderBook, Side, add_to_level, buy, can_match, drop_empty, entry_of, precedes,
  sell,
}
use flow_manager.OrderBook.Accepted.{entry_side, kill_rest_keeps, nowhere}
use flow_manager.OrderBook.Adding.{
  add_order, cancel_book_order, erase_node, is_fak, remove_from, remove_of, rest_order,
}
use flow_manager.OrderBook.Additions.{add_order_late, cancel_book_order_known, match_and_kill_lem}
use flow_manager.OrderBook.Arrival.{both_nil}
use flow_manager.OrderBook.Books.{IsBook, cancel_order_internal_lem, remove_of_buy, remove_of_sell}
use flow_manager.OrderBook.Erasing.{picks_nil}
use flow_manager.OrderBook.Kept.{Pairs, front_price}
use flow_manager.OrderBook.Loops.{FrontsApart, NoneEmpty}
use flow_manager.OrderBook.Matching.{Ledger, match_orders}
use flow_manager.OrderBook.Registered.{flat, picks, picks-append}
use flow_manager.OrderBook.Sides.{IsSide}
use flow_manager.OrderBook.Start.{first_ledger, rest_order_buy, rest_order_sell}

-- Nothing is matched when the best prices are apart.
match_orders_apart :
    (n : ℕ) (bids asks : Levels) (r : Ledger)
    → FrontsApart bids asks
    → match_orders (suc n) bids asks r ≡ some (bids, asks, r)
unfolding match_orders
match_orders_apart n [] asks r h = refl
match_orders_apart n (l ∷ bl) [] r h = refl
match_orders_apart n ((p, bs) ∷ bl) ((q, os) ∷ al) r h =
    let lower : ltb p q ≡ true = ground arith in rw (match_orders, lower)

fronts_of_book : (book : OrderBook) → IsBook book → FrontsApart book.bids book.asks
fronts_of_book book h =
    fronts book.bids book.asks h.bid_side h.ask_side h.bids_full h.asks_full h.apart
  where
    fronts :
        (bids asks : Levels)
        → IsSide buy bids
        → IsSide sell asks
        → NoneEmpty bids
        → NoneEmpty asks
        → Pairs (λ b a. b.price < a.price) (flat bids) (flat asks)
        → FrontsApart bids asks
    fronts [] asks x y e f k = tt
    fronts (l ∷ bl) [] x y e f k = tt
    fronts ((p, []) ∷ bl) ((q, os) ∷ al) x y e f k = absurd e
    fronts ((p, b ∷ bs) ∷ bl) ((q, []) ∷ al) x y e f k = absurd f
    fronts ((p, b ∷ bs) ∷ bl) ((q, a ∷ os) ∷ al) x y e f k =
        omega (arith, front_price buy p b bs bl x, front_price sell q a os al y, k.0.0)

add_bid_apart :
    (o : Order) (bids asks : Levels)
    → FrontsApart bids asks
    → FrontsApart ((o.price, o ∷ []) ∷ []) asks
    → FrontsApart (add_to_level buy o bids) asks
unfolding add_to_level
add_bid_apart o [] asks h k = k
add_bid_apart o ((p, bs) ∷ bl) [] h k = elim (list_cases (add_to_level buy o ((p, bs) ∷ bl))) [
  | inl e ↦ rw e tt
  | inr (x, xs, e) ↦ rw e tt
]
add_bid_apart o ((p, bs) ∷ bl) ((q, os) ∷ al) h k = ground arith

add_ask_apart :
    (o : Order) (bids asks : Levels)
    → FrontsApart bids asks
    → FrontsApart bids ((o.price, o ∷ []) ∷ [])
    → FrontsApart bids (add_to_level sell o asks)
unfolding add_to_level
add_ask_apart o [] asks h k = tt
add_ask_apart o (l ∷ bl) [] h k = k
add_ask_apart o ((p, bs) ∷ bl) ((q, os) ∷ al) h k = ground arith

erase_node_last :
    (o : Order) (os : List Order)
    → picks entry_of o.order_id os ≡ []
    → erase_node o.order_id (os ++ o ∷ []) ≡ some os
unfolding erase_node picks
erase_node_last o [] h = rw (==_refl o.order_id)
erase_node_last o (x ∷ os) h = elim (Bool-cases (x.order_id == o.order_id)) [
  | inl hit ↦ ground (arith, hit)
  | inr miss ↦ rw (erase_node, miss, erase_node_last o os (ground (arith, miss)))
]

-- What has been added is taken out, and the levels are as before.
remove_from-add_to_level :
    (side : Side) (o : Order) (ls : Levels)
    → NoneEmpty ls
    → picks entry_of o.order_id (flat ls) ≡ []
    → remove_from o.order_id o.price (add_to_level side o ls) ≡ some ls
unfolding add_to_level remove_from drop_empty
remove_from-add_to_level side o [] h k =
    rw (remove_from, ==_refl o.price, remove_from, erase_node_last o [] k)
remove_from-add_to_level side o ((p, []) ∷ ls) h k = absurd h
remove_from-add_to_level side o ((p, x ∷ os) ∷ ls) h k =
    let (here_, further) =
      both_nil (picks entry_of o.order_id (x ∷ os)) (picks entry_of o.order_id (flat ls))
        (sym (picks-append entry_of o.order_id (x ∷ os) (flat ls)) ∙ k) in
    elim (Bool-cases (p == o.price)) [
      | inl hit ↦
          rw (add_to_level, hit, remove_from, hit, remove_from, erase_node_last o (x ∷ os) here_)
      | inr miss ↦ elim (Bool-cases (precedes side o.price p)) [
        | inl first ↦ rw (
          add_to_level,
          miss,
          first,
          remove_from,
          ==_refl o.price,
          remove_from,
          erase_node_last o [] (picks_nil o.order_id),
        )
        | inr later ↦ rw (
          add_to_level,
          miss,
          later,
          remove_from,
          miss,
          remove_from,
          remove_from-add_to_level side o ls h further,
        )
      ]
    ]

-- A side that the order does not match stays beyond its price.
alone_bid :
    (o : Order) (book : OrderBook)
    → can_match buy o.price book ≡ false
    → FrontsApart ((o.price, o ∷ []) ∷ []) book.asks
unfolding can_match
alone_bid o book c = elim (list_cases book.asks) [
  | inl e ↦ subst (FrontsApart ((o.price, o ∷ []) ∷ [])) (sym e) tt
  | inr ((q, os), ls, e) ↦
      subst (FrontsApart ((o.price, o ∷ []) ∷ [])) (sym e) (ground (arith, c, e))
]

alone_ask :
    (o : Order) (book : OrderBook)
    → can_match sell o.price book ≡ false
    → FrontsApart book.bids ((o.price, o ∷ []) ∷ [])
unfolding can_match
alone_ask o book c = elim (list_cases book.bids) [
  | inl e ↦ subst (λ ls. FrontsApart ls ((o.price, o ∷ []) ∷ [])) (sym e) tt
  | inr ((q, os), ls, e) ↦
      subst (λ ls. FrontsApart ls ((o.price, o ∷ []) ∷ [])) (sym e) (ground (arith, c, e))
]

module _ (o : Order) (book : OrderBook) (h : IsBook book)
    (unused : lookup o.order_id book.orders_map ≡ none) where
  absent_both :
      (picks entry_of o.order_id (flat book.bids) ≡ [])
      × (picks entry_of o.order_id (flat book.asks) ≡ [])
  absent_both =
      both_nil (picks entry_of o.order_id (flat book.bids))
        (picks entry_of o.order_id (flat book.asks)) (nowhere entry_of o.order_id book h unused)

  rested_apart :
      can_match o.side o.price book ≡ false
      → FrontsApart (rest_order o book).bids (rest_order o book).asks
  rested_apart c = by_side o.side refl c
    where
      by_side :
          (s : Side)
          → o.side ≡ s
          → can_match s o.price book ≡ false
          → FrontsApart (rest_order o book).bids (rest_order o book).asks
      by_side buy e c =
          rw (rest_order_buy o book e)
            (add_bid_apart o book.bids book.asks (fronts_of_book book h) (alone_bid o book c))
      by_side sell e c =
          rw (rest_order_sell o book e)
            (add_ask_apart o book.bids book.asks (fronts_of_book book h) (alone_ask o book c))

  rested_entry : ((rest_order o book).orders_map ≡ insert o.order_id (entry_of o) book.orders_map)
  rested_entry = by_side o.side refl
    where
      by_side :
          (s : Side)
          → o.side ≡ s
          → (rest_order o book).orders_map ≡ insert o.order_id (entry_of o) book.orders_map
      by_side buy e = rw (rest_order_buy o book e) refl
      by_side sell e = rw (rest_order_sell o book e) refl

  -- Taking it out again restores the book.
  taken_out : remove_of o.order_id (entry_of o) (rest_order o book) ≡ some book
  taken_out = by_side o.side refl
    where
      by_side :
          (s : Side)
          → o.side ≡ s
          → remove_of o.order_id (entry_of o) (rest_order o book) ≡ some book
      by_side buy e =
          ap (remove_of o.order_id (entry_of o)) (rest_order_buy o book e)
          ∙ remove_of_buy o.order_id (entry_of o)
              (record {
                bids = add_to_level buy o book.bids;
                asks = book.asks;
                orders_map = insert o.order_id (entry_of o) book.orders_map;
              })
              book.bids (entry_side o ∙ e)
              (unfold entry_of in
                remove_from-add_to_level buy o book.bids h.bids_full absent_both.0)
          ∙ ap (λ m. some (record { bids = book.bids; asks = book.asks; orders_map = m }))
              (erase-insert_absent o.order_id (entry_of o) book.orders_map unused)
      by_side sell e =
          ap (remove_of o.order_id (entry_of o)) (rest_order_sell o book e)
          ∙ remove_of_sell o.order_id (entry_of o)
              (record {
                bids = book.bids;
                asks = add_to_level sell o book.asks;
                orders_map = insert o.order_id (entry_of o) book.orders_map;
              })
              book.asks (entry_side o ∙ e)
              (unfold entry_of in
                remove_from-add_to_level sell o book.asks h.asks_full absent_both.1)
          ∙ ap (λ m. some (record { bids = book.bids; asks = book.asks; orders_map = m }))
              (erase-insert_absent o.order_id (entry_of o) book.orders_map unused)

  -- A good-till-cancel order with a new identifier that the book cannot match is added without a
  -- trade, and its cancellation gives back exactly the book before, when that book is in order.
  pub cancel_book_order-add_order :
      is_fak o ≡ false
      → can_match o.side o.price book ≡ false
      → (add_order o book ≡ some (record { trades = []; order = some o; book = rest_order o book }))
        × (cancel_book_order o.order_id (rest_order o book) ≡ some (true, book))
  cancel_book_order-add_order gtc c =
      let rested = rest_order o book in
      let there : lookup o.order_id rested.orders_map ≡ some (entry_of o) =
        ap (lookup o.order_id) rested_entry
        ∙ lookup-insert_self o.order_id (entry_of o) book.orders_map in
      (
        add_order_late o book unused (ground (arith, gtc))
            ∙ match_and_kill_lem o rested rested.bids rested.asks (first_ledger o rested) (
                match_orders_apart (length rested.bids + length rested.asks) rested.bids rested.asks
                  (first_ledger o rested) (rested_apart c))
            ∙ kill_rest_keeps [] o rested (ground (arith, gtc)),
        cancel_book_order_known o.order_id rested book (entry_of o) there
            (cancel_order_internal_lem o.order_id (entry_of o) rested there ∙ taken_out),
      )
