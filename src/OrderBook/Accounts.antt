-- ===== src/OrderBook/Accounts.antt =====
-- What the trades of order_book/src/order_book.cpp take from the orders, and in which order.
use flow_manager.Base.{
  Bool-cases, List, [], ap, arith, if◌then◌else◌, inl, inr, nat_eq, string_eq, sym, ℕ, ◌++◌, ◌+◌,
  ◌==◌, ◌∙◌, ◌∷◌, ◌≡◌, ◌≤◌,
}
use flow_manager.OrderBook.{Order, Trade, order_is_filled}
use flow_manager.OrderBook.Loops.{filled_by_trade, matched}
use flow_manager.OrderBook.Matching.{keep, trade_of}

-- What is left of the orders under an identifier.
unfoldable pub quantity_left : ℕ → List Order → ℕ
quantity_left id [] = 0
quantity_left id (o ∷ os) =
    (if o.order_id == id then o.remaining_quantity else 0) + quantity_left id os

-- What the trades say was bought and sold under an identifier.
unfoldable pub bought : ℕ → List Trade → ℕ
bought id [] = 0
bought id (t ∷ ts) =
    (if t.bid_trade.order_id == id then t.bid_trade.traded_quantity else 0) + bought id ts

unfoldable pub sold : ℕ → List Trade → ℕ
sold id [] = 0
sold id (t ∷ ts) =
    (if t.ask_trade.order_id == id then t.ask_trade.traded_quantity else 0) + sold id ts

pub quantity_left-append :
    (id : ℕ) (xs ys : List Order)
    → quantity_left id (xs ++ ys) ≡ quantity_left id xs + quantity_left id ys
unfolding quantity_left
quantity_left-append id [] ys = omega arith
quantity_left-append id (x ∷ xs) ys = omega (arith, quantity_left-append id xs ys)

bought-append : (id : ℕ) (ts us : List Trade) → bought id (ts ++ us) ≡ bought id ts + bought id us
unfolding bought
bought-append id [] us = omega arith
bought-append id (t ∷ ts) us = omega (arith, bought-append id ts us)

sold-append : (id : ℕ) (ts us : List Trade) → sold id (ts ++ us) ≡ sold id ts + sold id us
unfolding sold
sold-append id [] us = omega arith
sold-append id (t ∷ ts) us = omega (arith, sold-append id ts us)

quantity_left-keep :
    (id n : ℕ) (o : Order) (os : List Order)
    → n ≤ o.remaining_quantity
    → quantity_left id (keep (filled_by_trade n o) os) + (if o.order_id == id then n else 0)
      ≡ quantity_left id (o ∷ os)
unfolding quantity_left keep filled_by_trade
quantity_left-keep id n o os h = ground arith

-- What was left of each order at first is left of it or has been traded.
unfoldable pub IsAccounted : List Order → List Order → List Order → List Order → List Trade → Type 0
IsAccounted bids asks bids' asks' trades =
    (id : ℕ)
    → (quantity_left id bids' + bought id trades ≡ quantity_left id bids)
      × (quantity_left id asks' + sold id trades ≡ quantity_left id asks)

pub trade-IsAccounted :
    (bids asks : List Order) (b a : Order) (bs os : List Order) (trades : List Trade)
    → IsAccounted bids asks (b ∷ bs) (a ∷ os) trades
    → let n = matched b a in
      let b' = filled_by_trade n b in
      let a' = filled_by_trade n a in
      IsAccounted bids asks (keep b' bs) (keep a' os) (trades ++ trade_of b' a' n ∷ [])
unfolding IsAccounted trade_of bought sold
trade-IsAccounted bids asks b a bs os trades h id =
    let n = matched b a in
    let b' = filled_by_trade n b in
    let a' = filled_by_trade n a in
    let keeps_b = quantity_left-keep id n b bs (ground arith) in
    let keeps_a = quantity_left-keep id n a os (ground arith) in
    (
      unfold filled_by_trade in
          omega (arith, keeps_b, (h id).0, bought-append id trades (trade_of b' a' n ∷ [])),
      unfold filled_by_trade in
          omega (arith, keeps_a, (h id).1, sold-append id trades (trade_of b' a' n ∷ [])),
    )

-- The orders of a side are served one after another: those in front are gone, the next one is
-- perhaps filled in part, and the others are as they were.
pub data IsServed : List Order → List Order → Type 0 where
  untouched : (os : List Order) → IsServed os os
  in_part : (n : ℕ) (o : Order) (os : List Order) → IsServed (o ∷ os) (filled_by_trade n o ∷ os)
  served : (o : Order) {os os' : List Order} → IsServed os os' → IsServed (o ∷ os) os'

keep-IsServed :
    (n : ℕ) (o : Order) (os : List Order) → IsServed (o ∷ os) (keep (filled_by_trade n o) os)
unfolding keep
keep-IsServed n o os = elim (Bool-cases (order_is_filled (filled_by_trade n o))) [
  | inl full ↦ rw full (served o (untouched os))
  | inr part ↦ rw part (in_part n o os)
]

fill_twice :
    (m n : ℕ) (o : Order) → filled_by_trade n (filled_by_trade m o) ≡ filled_by_trade (m + n) o
unfolding filled_by_trade
fill_twice m n o = ground arith

cons_head : (x y : Order) (xs ys : List Order) → x ∷ xs ≡ y ∷ ys → x ≡ y
cons_head x y xs ys e = cc

cons_tail : (x y : Order) (xs ys : List Order) → x ∷ xs ≡ y ∷ ys → xs ≡ ys
cons_tail x y xs ys e = cc

pub trade-IsServed :
    (n : ℕ) (o : Order) {all : List Order} {rest : List Order} (os : List Order)
    → rest ≡ o ∷ os
    → IsServed all rest
    → IsServed all (keep (filled_by_trade n o) os)
trade-IsServed n o os e (untouched os') = rw e (keep-IsServed n o os)
trade-IsServed n o os e (in_part m x xs) =
    let again : filled_by_trade n o ≡ filled_by_trade (m + n) x =
      ap (filled_by_trade n) (cons_head _ _ _ _ (sym e)) ∙ fill_twice m n x in
    rw (again, sym (cons_tail _ _ _ _ e)) (keep-IsServed (m + n) x xs)
trade-IsServed n o os e (served x h) = served x (trade-IsServed n o os e h)
