-- ===== src/OrderBook/LevelInfos.antt =====
-- `GetOrderInfos` of order_book/src/order_book.cpp, whose sums are 32 bits wide.
use flow_manager.Base.{
  All, List, [], arith, map, nat_eq, refl, string_eq, ℕ, ◌%◌, ◌+◌, ◌<◌, ◌^◌, ◌∷◌, ◌≡◌,
}
use flow_manager.OrderBook.{
  LevelInfo, Levels, Order, OrderBook, get_order_infos, level_infos, level_sum,
}
use flow_manager.OrderBook.Arrival.{All-every}
use flow_manager.OrderBook.Books.{IsBook}
use flow_manager.OrderBook.Loops.{NoneEmpty}
use flow_manager.OrderBook.Traded.{sum_left}

-- What a level should be reported as.
unfoldable pub level_info : ℕ × List Order → LevelInfo
level_info (p, os) = record { price = p; quantity = sum_left os % 2 ^ 32 }

level_sum_lem :
    (total : ℕ) (os : List Order)
    → total < 2 ^ 32
    → level_sum total os ≡ (total + sum_left os) % 2 ^ 32
unfolding level_sum sum_left
level_sum_lem total [] h = omega arith
level_sum_lem total (o ∷ os) h =
    omega (arith, level_sum_lem ((total + o.remaining_quantity) % 2 ^ 32) os)

level_sum-eq : (os : List Order) → level_sum 0 os ≡ sum_left os % 2 ^ 32
level_sum-eq os = omega (arith, level_sum_lem 0 os)

level_infos_lem : (ls : Levels) → NoneEmpty ls → level_infos ls ≡ map level_info ls
unfolding level_infos level_info
level_infos_lem [] h = refl
level_infos_lem ((p, []) ∷ ls) h = absurd h
level_infos_lem ((p, o ∷ os) ∷ ls) h = rw (level_infos_lem ls h, level_sum-eq (o ∷ os)) refl

-- Every quantity that is reported fits, and is exact when the level's total fits.
pub IsReported : Levels → List LevelInfo → Type 0
IsReported ls infos =
    (infos ≡ map level_info ls)
    × All (λ (i : LevelInfo). i.quantity < 2 ^ 32) infos
    × All (λ (l : ℕ × List Order). sum_left l.1 < 2 ^ 32 → (level_info l).quantity ≡ sum_left l.1)
        ls

level_infos-IsReported : (ls : Levels) → NoneEmpty ls → IsReported ls (level_infos ls)
unfolding IsReported
level_infos-IsReported ls h =
    (level_infos_lem ls h, rw (level_infos_lem ls h) (fits ls), All-every _ ls exact_)
  where
    fits : (ls : Levels) → All (λ (i : LevelInfo). i.quantity < 2 ^ 32) (map level_info ls)
    fits [] = tt
    fits ((p, os) ∷ ls) = (unfold level_info in omega arith, fits ls)

    exact_ : (l : ℕ × List Order) → sum_left l.1 < 2 ^ 32 → (level_info l).quantity ≡ sum_left l.1
    exact_ (p, os) k = unfold level_info in omega arith

-- For a book that is in order, the report has every level of both sides in its place, with its
-- price and the sum of what is left of its orders modulo 2 ^ 32; every reported quantity is below
-- 2 ^ 32, and is the exact sum when the sum is below 2 ^ 32.
pub get_order_infos-IsReported :
    (book : OrderBook)
    → IsBook book
    → IsReported book.bids (get_order_infos book).0 × IsReported book.asks (get_order_infos book).1
unfolding get_order_infos
get_order_infos-IsReported book h =
    (level_infos-IsReported book.bids h.bids_full, level_infos-IsReported book.asks h.asks_full)
