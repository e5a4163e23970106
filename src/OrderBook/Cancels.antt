-- ===== src/OrderBook/Cancels.antt =====
-- `CancelOrder` of order_book/src/order_book.cpp.
use flow_manager.Base.{
  Bool, List, Option, Option-cases, [], ap, false, inl, inr, nat_eq, refl, some, string_eq, true, ℕ,
  ◌++◌, ◌∙◌, ◌≡◌,
}
use flow_manager.Dict.{lookup, lookup-erase_self}
use flow_manager.OrderBook.{Entry, Order, OrderBook}
use flow_manager.OrderBook.Accepted.{nowhere}
use flow_manager.OrderBook.Adding.{cancel_book_order}
use flow_manager.OrderBook.Additions.{cancel_book_order_known, cancel_book_order_unknown}
use flow_manager.OrderBook.Books.{IsBook, IsTakenOut, cancel_order_internal-IsTakenOut}
use flow_manager.OrderBook.Registered.{flat, picks}

-- The orders of an identifier on the book.
abbrev pub orders_under : ℕ → OrderBook → List Order
orders_under id book = picks (λ o. o) id (flat book.bids) ++ picks (λ o. o) id (flat book.asks)

-- A cancellation is refused, and the book is as before, or it takes out the one order of the
-- identifier.
pub data Cancels (id : ℕ) (book : OrderBook) (r : Option (Bool × OrderBook)) : Type 0 where
  refuses : orders_under id book ≡ [] → r ≡ some (false, book) → Cancels id book r
  takes_out :
      (e : Entry) (after : OrderBook)
      → r ≡ some (true, after)
      → IsTakenOut id e book (some after)
      → orders_under id after ≡ []
      → Cancels id book r

-- On a book that is in order, a cancellation of an identifier that no order has is refused and
-- leaves the book as it is; any other takes out the one order of the identifier, leaves all others
-- in their places, and the book is in order again.
pub cancel_book_order-Cancels :
    (id : ℕ) (book : OrderBook) → IsBook book → Cancels id book (cancel_book_order id book)
cancel_book_order-Cancels id book h = elim (Option-cases (lookup id book.orders_map)) [
  | inl unused ↦
      refuses (nowhere (λ (o : Order). o) id book h unused)
        (cancel_book_order_unknown id book unused)
  | inr (e, used) ↦
      let c = cancel_order_internal-IsTakenOut id e book h used in
      takes_out e c.kept (cancel_book_order_known id book c.kept e used c.result)
        (record {
          kept = c.kept;
          result = refl;
          valid = c.valid;
          forgotten = c.forgotten;
          without = c.without;
        })
        (nowhere (λ (o : Order). o) id c.kept c.valid
          (ap (lookup id) c.forgotten ∙ lookup-erase_self id book.orders_map))
]
