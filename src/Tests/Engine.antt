-- ===== src/Tests/Engine.antt =====
-- Runs of the matching engine, those of order_book/tests/test_order_book.cpp among them.
use flow_manager.Base.{
  List, Option, [], false, map, nat_eq, none, refl, some, string_eq, true, ℕ, ◌∷◌, ◌≡◌,
}
use flow_manager.Dict.{erase, insert, lookup}
use flow_manager.OrderBook.{
  Order, OrderBook, Side, Trade, add_to_level, book_size, buy, can_match, drop_empty, empty_book,
  entry_of, fill_and_kill, fill_order, get_order_infos, good_till_cancel, precedes, sell,
}
use flow_manager.OrderBook.Accepted.{IsAdded}
use flow_manager.OrderBook.Adding.{
  Added, add_order, cancel_book_order, cancel_order_internal, erase_node, is_fak, kill_rest,
  match_and_kill, remove_from, remove_of, rest_order,
}
use flow_manager.OrderBook.Additions.{
  Answers, Session, Session-Answers, add_order-IsAdded, opened_book, ordered,
}
use flow_manager.OrderBook.Books.{IsBook}
use flow_manager.OrderBook.Cancels.{Cancels, cancel_book_order-Cancels}
use flow_manager.OrderBook.LevelInfos.{IsReported, get_order_infos-IsReported}
use flow_manager.OrderBook.Matching.{book_trade, keep, match_level, match_orders}
use flow_manager.OrderBook.RoundTrip.{cancel_book_order-add_order}

abbrev pub gtc_order : ℕ → Side → ℕ → ℕ → Order
gtc_order id side price quantity = record {
  order_type = good_till_cancel;
  order_id = id;
  side = side;
  price = price;
  initial_quantity = quantity;
  remaining_quantity = quantity;
}

abbrev fak_order : ℕ → Side → ℕ → ℕ → Order
fak_order id side price quantity = record (gtc_order id side price quantity) {
  order_type = fill_and_kill;
}

abbrev pub book_after : Option Added → OrderBook
book_after none = empty_book
book_after (some r) = r.book

abbrev pub after_orders : List Order → OrderBook → OrderBook
after_orders [] book = book
after_orders (o ∷ os) book = after_orders os (book_after (add_order o book))

abbrev trades_after : Option Added → List (ℕ × ℕ × ℕ)
trades_after none = []
trades_after (some r) =
    map (λ (t : Trade). (t.bid_trade.order_id, t.ask_trade.order_id, t.bid_trade.traded_quantity))
      r.trades

abbrev left_after : Option Added → Option ℕ
left_after none = none
left_after (some r) = elim r.order [ none ↦ none | some o ↦ some o.remaining_quantity ]

-- Two sell orders at 100 and one at 101.
abbrev pub offers : OrderBook
offers =
    after_orders (gtc_order 1 sell 101 5 ∷ gtc_order 2 sell 100 10 ∷ gtc_order 3 sell 100 4 ∷ [])
      empty_book

offers_test :
    get_order_infos offers
    ≡ ([], record { price = 100; quantity = 14 } ∷ record { price = 101; quantity = 5 } ∷ [])
unfolding get_order_infos add_order is_fak can_match rest_order add_to_level entry_of match_and_kill
    match_orders match_level drop_empty fill_order keep book_trade kill_rest cancel_order_internal
    remove_of remove_from erase_node precedes lookup insert erase empty_book
offers_test = refl

-- A buy order goes through both levels, best price and first come first, and its rest stays.
buy_through_test :
    let r = add_order (gtc_order 4 buy 101 20) offers in
    (trades_after r ≡ (4, 2, 10) ∷ (4, 3, 4) ∷ (4, 1, 5) ∷ [])
    × (left_after r ≡ some 1)
    × (book_size (book_after r) ≡ 1)
    × (get_order_infos (book_after r) ≡ (record { price = 101; quantity = 1 } ∷ [], []))
unfolding get_order_infos book_size add_order is_fak can_match rest_order add_to_level entry_of
    match_and_kill match_orders match_level drop_empty fill_order keep book_trade kill_rest
    cancel_order_internal remove_of remove_from erase_node precedes lookup insert erase empty_book
buy_through_test = (refl, refl, refl, refl)

-- `FillAndKill` orders: without a match, with one in part, and in full.
fak_test :
    (trades_after (add_order (fak_order 4 buy 99 20) offers) ≡ [])
    × (book_size (book_after (add_order (fak_order 4 buy 99 20) offers)) ≡ 3)
    × (left_after (add_order (fak_order 4 buy 100 20) offers) ≡ some 6)
    × (book_size (book_after (add_order (fak_order 4 buy 100 20) offers)) ≡ 1)
    × (left_after (add_order (fak_order 4 buy 100 14) offers) ≡ some 0)
unfolding book_size add_order is_fak can_match rest_order add_to_level entry_of match_and_kill
    match_orders match_level drop_empty fill_order keep book_trade kill_rest cancel_order_internal
    remove_of remove_from erase_node precedes lookup insert erase empty_book
fak_test = (refl, refl, refl, refl, refl)

-- An identifier in use is refused; a cancellation takes the order out, once.
cancel_test :
    (left_after (add_order (gtc_order 2 buy 1 1) offers) ≡ none)
    × (cancel_book_order 2 offers
        ≡ some
            (true, after_orders (gtc_order 1 sell 101 5 ∷ gtc_order 3 sell 100 4 ∷ []) empty_book))
    × (cancel_book_order 9 offers ≡ some (false, offers))
unfolding cancel_book_order add_order is_fak can_match rest_order add_to_level entry_of
    match_and_kill match_orders match_level drop_empty fill_order keep book_trade kill_rest
    cancel_order_internal remove_of remove_from erase_node precedes lookup insert erase empty_book
cancel_test = (refl, refl, refl)

-- An order for nothing counts as filled and stays on the book.
nothing_test :
    (left_after (add_order (gtc_order 4 buy 1 0) offers) ≡ some 0)
    × (book_size (book_after (add_order (gtc_order 4 buy 1 0) offers)) ≡ 4)
unfolding book_size add_order is_fak can_match rest_order add_to_level entry_of match_and_kill
    match_orders match_level drop_empty fill_order keep book_trade kill_rest cancel_order_internal
    remove_of remove_from erase_node precedes lookup insert erase empty_book
nothing_test = (refl, refl)

abbrev added_of : Option Added → Added
added_of none = record { trades = []; order = none; book = empty_book }
added_of (some r) = r

offer :
    (o : Order) (book : OrderBook)
    → Session book
    → add_order o book ≡ some (added_of (add_order o book))
    → Session (added_of (add_order o book)).book
offer o book s e = ordered o (added_of (add_order o book)) s e

pub offers_session : Session offers
unfolding add_order is_fak can_match rest_order add_to_level entry_of match_and_kill match_orders
    match_level drop_empty fill_order keep book_trade kill_rest cancel_order_internal remove_of
    remove_from erase_node precedes lookup insert erase empty_book
offers_session =
    offer (gtc_order 3 sell 100 4)
      (after_orders (gtc_order 1 sell 101 5 ∷ gtc_order 2 sell 100 10 ∷ []) empty_book)
      (offer (gtc_order 2 sell 100 10) (after_orders (gtc_order 1 sell 101 5 ∷ []) empty_book)
        (offer (gtc_order 1 sell 101 5) empty_book opened_book refl) refl)
      refl

offers-IsBook : IsBook offers
offers-IsBook = (Session-Answers offers_session).0

Session-Answers_example :
    IsBook offers
    × ((o : Order) → Answers (λ r. r.book) (add_order o offers))
    × ((id : ℕ) → Answers (λ r. r.1) (cancel_book_order id offers))
Session-Answers_example = Session-Answers offers_session

add_order-IsAdded_example :
    IsAdded (gtc_order 4 buy 101 20) offers (add_order (gtc_order 4 buy 101 20) offers)
unfolding add_order is_fak can_match rest_order add_to_level entry_of match_and_kill match_orders
    match_level drop_empty fill_order keep book_trade kill_rest cancel_order_internal remove_of
    remove_from erase_node precedes lookup insert erase empty_book
add_order-IsAdded_example = add_order-IsAdded (gtc_order 4 buy 101 20) offers offers-IsBook refl

cancel_book_order-Cancels_example : Cancels 2 offers (cancel_book_order 2 offers)
cancel_book_order-Cancels_example = cancel_book_order-Cancels 2 offers offers-IsBook

cancel_book_order-add_order_example :
    (add_order (gtc_order 4 buy 99 5) offers
      ≡ some (record {
        trades = [];
        order = some (gtc_order 4 buy 99 5);
        book = rest_order (gtc_order 4 buy 99 5) offers;
      }))
    × (cancel_book_order 4 (rest_order (gtc_order 4 buy 99 5) offers) ≡ some (true, offers))
unfolding add_order is_fak can_match rest_order add_to_level entry_of match_and_kill match_orders
    match_level drop_empty fill_order keep book_trade kill_rest cancel_order_internal remove_of
    remove_from erase_node precedes lookup insert erase empty_book
cancel_book_order-add_order_example =
    cancel_book_order-add_order (gtc_order 4 buy 99 5) offers offers-IsBook refl refl refl

get_order_infos-IsReported_example :
    IsReported offers.bids (get_order_infos offers).0
    × IsReported offers.asks (get_order_infos offers).1
get_order_infos-IsReported_example = get_order_infos-IsReported offers offers-IsBook
