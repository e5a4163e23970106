-- ===== src/OrderBook/Additions.antt =====
-- `AddOrder` and `CancelOrder` of order_book/src/order_book.cpp, from call to call.
use flow_manager.Base.{
  Bool, Bool-cases, Option, Option-cases, [], arith, false, inl, inr, length, nat_eq, none, not,
  refl, some, string_eq, subst, suc, sym, true, ℕ, ◌&&◌, ◌+◌, ◌≡◌,
}
use flow_manager.Dict.{lookup}
use flow_manager.OrderBook.{Entry, Levels, Order, OrderBook, Side, buy, can_match, empty_book, sell}
use flow_manager.OrderBook.Accepted.{IsAdded, kill_rest-IsAdded, nowhere}
use flow_manager.OrderBook.Accounts.{bought, sold, untouched}
use flow_manager.OrderBook.Adding.{
  Added, add_order, cancel_book_order, cancel_order_internal, is_fak, kill_rest, match_and_kill,
  rest_order,
}
use flow_manager.OrderBook.Books.{IsBook, cancel_order_internal-IsTakenOut}
use flow_manager.OrderBook.Kept.{match_orders-Kept}
use flow_manager.OrderBook.Matching.{Ledger, match_orders}
use flow_manager.OrderBook.Registered.{IsRegistered, flat, picks}
use flow_manager.OrderBook.Sides.{IsSide}
use flow_manager.OrderBook.Start.{IsStarted, first_ledger, rest_order-IsStarted}
use flow_manager.OrderBook.Traded.{IsTraded, OtherSideServed}

pub match_and_kill_lem :
    (o : Order) (rested : OrderBook) (bids asks : Levels) (r : Ledger)
    → match_orders
        (suc (length rested.bids + length rested.asks))
        rested.bids
        rested.asks
        (first_ledger o rested)
      ≡ some (bids, asks, r)
    → match_and_kill o rested
      ≡ kill_rest r.trades r.held (record { bids = bids; asks = asks; orders_map = r.entries })
match_and_kill_lem o rested bids asks r h = unfold match_and_kill in rw (match_and_kill, h)

match_and_kill-IsAdded :
    (o : Order) (book rested : OrderBook)
    → IsStarted o book rested
    → IsAdded o book (match_and_kill o rested)
match_and_kill-IsAdded o book rested s =
    let m =
      match_orders-Kept o (flat rested.bids) (flat rested.asks)
        (suc (length rested.bids + length rested.asks)) rested.bids rested.asks
        (first_ledger o rested) (omega arith) s.full.0 s.full.1 s.levels in
    subst (IsAdded o book) (sym (match_and_kill_lem o rested m.bids m.asks m.ledger m.result))
      (kill_rest-IsAdded o book rested s m.bids m.asks m.ledger m.kept m.apart m.none_empty)

unserved : (s : Side) (book : OrderBook) → OtherSideServed s book book
unserved buy book = untouched (flat book.asks)
unserved sell book = untouched (flat book.bids)

-- A `FillAndKill` order that cannot match leaves the book as it is.
unmatched-IsTraded :
    (o : Order) (book : OrderBook)
    → IsBook book
    → lookup o.order_id book.orders_map ≡ none
    → is_fak o ≡ true
    → IsTraded o book [] o book
unfolding bought sold
unmatched-IsTraded o book h unused f = record {
  valid = h;
  named = refl;
  typed = refl;
  others = λ k ne. (omega arith, omega arith);
  own = omega arith;
  fair = tt;
  priority = unserved o.side book;
  rests = inr (nowhere (λ (x : Order). x) o.order_id book h unused, ground (arith, f));
}

pub add_order_early :
    (o : Order) (book : OrderBook)
    → lookup o.order_id book.orders_map ≡ none
    → (is_fak o && not (can_match o.side o.price book)) ≡ true
    → add_order o book ≡ some (record { trades = []; order = some o; book = book })
add_order_early o book u h = unfold add_order in rw (add_order, u, add_order, h)

pub add_order_late :
    (o : Order) (book : OrderBook)
    → lookup o.order_id book.orders_map ≡ none
    → (is_fak o && not (can_match o.side o.price book)) ≡ false
    → add_order o book ≡ match_and_kill o (rest_order o book)
add_order_late o book u h = unfold add_order in rw (add_order, u, add_order, h)

-- An order with a new identifier, added to a book that is in order, is accepted, whatever its
-- type, side, price and quantity, and the book is in order again. What was left of every other
-- order is still left or has been traded, and what is left of the new order and what it has traded
-- make its quantity. Every trade has the new order as one side and is at a bid price not below its
-- ask price. On the side that is traded with, orders are served one after another in the order of
-- price and arrival. The new order is on the book as it was returned, unless it has been filled or
-- is `FillAndKill`; if `FillAndKill`, it is not on the book with a rest.
pub add_order-IsAdded :
    (o : Order) (book : OrderBook)
    → IsBook book
    → lookup o.order_id book.orders_map ≡ none
    → IsAdded o book (add_order o book)
add_order-IsAdded o book h u = elim (Bool-cases (is_fak o && not (can_match o.side o.price book))) [
  | inl early ↦ record {
    trades = [];
    held = o;
    after = book;
    result = add_order_early o book u early;
    traded = unmatched-IsTraded o book h u (ground (arith, early));
  }
  | inr late ↦
      subst (IsAdded o book) (sym (add_order_late o book u late))
        (match_and_kill-IsAdded o book (rest_order o book) (rest_order-IsStarted o book h u))
]

add_order_used :
    (o : Order) (book : OrderBook) (e : Entry)
    → lookup o.order_id book.orders_map ≡ some e
    → add_order o book ≡ some (record { trades = []; order = none; book = book })
add_order_used o book e h = unfold add_order in rw (add_order, h)

empty-IsBook : IsBook empty_book
unfolding empty_book IsSide IsRegistered
empty-IsBook = record {
  bid_side = tt;
  ask_side = tt;
  bids_full = tt;
  asks_full = tt;
  registered = λ id. unfold picks lookup in refl;
  apart = tt;
}

-- An answer of the book, with the book after it.
pub record Answers {A : Type 0} (after_of : A → OrderBook) (r : Option A) : Type 0 where
  pub value : A
  pub result : r ≡ some value
  pub valid : IsBook (after_of value)

pub add_order-Answers :
    (o : Order) (book : OrderBook) → IsBook book → Answers (λ r. r.book) (add_order o book)
add_order-Answers o book h = elim (Option-cases (lookup o.order_id book.orders_map)) [
  | inl unused ↦
      let a = add_order-IsAdded o book h unused in
      record {
        value = record { trades = a.trades; order = some a.held; book = a.after };
        result = a.result;
        valid = a.traded.valid;
      }
  | inr (e, used) ↦ record {
    value = record { trades = []; order = none; book = book };
    result = add_order_used o book e used;
    valid = h;
  }
]

pub cancel_book_order_known :
    (id : ℕ) (book after : OrderBook) (e : Entry)
    → lookup id book.orders_map ≡ some e
    → cancel_order_internal id book ≡ some after
    → cancel_book_order id book ≡ some (true, after)
cancel_book_order_known id book after e h k =
    unfold cancel_book_order in rw (cancel_book_order, h, cancel_book_order, k)

pub cancel_book_order_unknown :
    (id : ℕ) (book : OrderBook)
    → lookup id book.orders_map ≡ none
    → cancel_book_order id book ≡ some (false, book)
cancel_book_order_unknown id book h = unfold cancel_book_order in rw (cancel_book_order, h)

pub cancel_book_order-Answers :
    (id : ℕ) (book : OrderBook) → IsBook book → Answers (λ r. r.1) (cancel_book_order id book)
cancel_book_order-Answers id book h = elim (Option-cases (lookup id book.orders_map)) [
  | inl unused ↦ record {
    value = (false, book);
    result = cancel_book_order_unknown id book unused;
    valid = h;
  }
  | inr (e, used) ↦
      let c = cancel_order_internal-IsTakenOut id e book h used in
      record {
        value = (true, c.kept);
        result = cancel_book_order_known id book c.kept e used c.result;
        valid = c.valid;
      }
]

-- The books that calls lead to.
pub data Session : OrderBook → Type 0 where
  opened_book : Session empty_book
  ordered :
      {book : OrderBook} (o : Order) (r : Added)
      → Session book
      → add_order o book ≡ some r
      → Session r.book
  cancelled_one :
      {book : OrderBook} (id : ℕ) (r : Bool × OrderBook)
      → Session book
      → cancel_book_order id book ≡ some r
      → Session r.1

some_eq : {A : Type 0} (x y : A) (o : Option A) → o ≡ some x → o ≡ some y → x ≡ y
some_eq x y o h k = cc

Session-IsBook : {book : OrderBook} → Session book → IsBook book
Session-IsBook opened_book = empty-IsBook
Session-IsBook (ordered {book} o r s e) =
    let a = add_order-Answers o book (Session-IsBook s) in
    subst (λ (x : Added). IsBook x.book) (some_eq a.value r (add_order o book) a.result e) a.valid
Session-IsBook (cancelled_one {book} id r s e) =
    let a = cancel_book_order-Answers id book (Session-IsBook s) in
    subst (λ (x : Bool × OrderBook). IsBook x.1)
      (some_eq a.value r (cancel_book_order id book) a.result e) a.valid

-- Every book that additions and cancellations lead to, from the empty book, is in order: the bids
-- stand by falling and the asks by rising prices, each order at its side and price, no level is
-- empty, the map knows exactly the orders on the book, each once, and every bid is below every
-- ask. On such a book every addition and every cancellation returns, without an exception, and
-- leaves a book that is in order.
pub Session-Answers :
    {book : OrderBook}
    → Session book
    → IsBook book
      × ((o : Order) → Answers (λ r. r.book) (add_order o book))
      × ((id : ℕ) → Answers (λ r. r.1) (cancel_book_order id book))
Session-Answers {book} s =
    let h = Session-IsBook s in
    (h, λ o. add_order-Answers o book h, λ id. cancel_book_order-Answers id book h)
