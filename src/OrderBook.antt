-- ===== src/OrderBook.antt =====
-- order_book/src/order.cpp, trade.cpp and order_book.cpp: the matching engine. The two `std::map`s of
-- levels are lists, the level at `begin()` first. An order object stands as a value in the list of
-- its level, and only what an object never changes, its side and price, stands in its entry of
-- `orders_map_`, whose iterator is the node of the order of that identifier. The object that the
-- caller of `AddOrder` holds is followed beside the book, as `held`.
pub mod Accepted
pub mod Accounts
pub mod Adding
pub mod Additions
pub mod Arrival
pub mod Books
pub mod Cancels
pub mod Erasing
pub mod Kept
pub mod LevelInfos
pub mod Loops
pub mod Matching
pub mod Registered
pub mod Removing
pub mod RoundTrip
pub mod Sides
pub mod Start
pub mod Traded
use flow_manager.Base.{
  Bool, List, Option, [], false, if◌then◌else◌, leb, length, ltb, nat_eq, none, some, string_eq, ℕ,
  ◌%◌, ◌++◌, ◌+◌, ◌-◌, ◌==◌, ◌^◌, ◌∷◌,
}
use flow_manager.Dict.{Dict}

pub data OrderType : Type 0 where
  good_till_cancel fill_and_kill : OrderType

pub data Side : Type 0 where
  buy sell : Side

pub record Order : Type 0 where
  pub order_type : OrderType
  pub order_id : ℕ
  pub side : Side
  pub price : ℕ
  pub initial_quantity : ℕ
  pub remaining_quantity : ℕ

-- `Order::Order`
unfoldable pub make_order : OrderType → ℕ → Side → ℕ → ℕ → Order
make_order order_type id side price quantity = record {
  order_type = order_type;
  order_id = id;
  side = side;
  price = price;
  initial_quantity = quantity;
  remaining_quantity = quantity;
}

unfoldable pub order_is_filled : Order → Bool
order_is_filled o = o.remaining_quantity == 0

-- `Order::Fill`; `none` is the `std::logic_error`.
unfoldable pub fill_order : ℕ → Order → Option Order
fill_order quantity o =
    if ltb o.remaining_quantity quantity
    then none
    else some (record o { remaining_quantity = o.remaining_quantity - quantity })

pub record TradeInfo : Type 0 where
  pub order_id : ℕ
  pub price : ℕ
  pub traded_quantity : ℕ

pub record Trade : Type 0 where
  pub bid_trade : TradeInfo
  pub ask_trade : TradeInfo

-- `OrderEntry`
pub record Entry : Type 0 where
  pub side : Side
  pub price : ℕ

unfoldable pub entry_of : Order → Entry
entry_of o = record { side = o.side; price = o.price }

-- The levels of one side, best price first.
abbrev pub Levels : Type 0
Levels = List (ℕ × List Order)

pub record OrderBook : Type 0 where
  pub bids : Levels
  pub asks : Levels
  pub orders_map : Dict ℕ Entry

unfoldable pub empty_book : OrderBook
empty_book = record { bids = []; asks = []; orders_map = [] }

-- The order of the keys of `bids_` and `asks_`.
unfoldable pub precedes : Side → ℕ → ℕ → Bool
precedes buy p q = ltb q p
precedes sell p q = ltb p q

unfoldable pub can_match : Side → ℕ → OrderBook → Bool
can_match buy price book = elim book.asks [ [] ↦ false | l ∷ _ ↦ leb l.0 price ]
can_match sell price book = elim book.bids [ [] ↦ false | l ∷ _ ↦ leb price l.0 ]

-- `levels[price].push_back(order)`
unfoldable pub add_to_level : Side → Order → Levels → Levels
add_to_level side o [] = (o.price, o ∷ []) ∷ []
add_to_level side o ((p, os) ∷ ls) =
    let further : Levels = (p, os) ∷ add_to_level side o ls in
    if p == o.price
    then (p, os ++ o ∷ []) ∷ ls
    else (if precedes side o.price p then (o.price, o ∷ []) ∷ (p, os) ∷ ls else further)

-- `if (level.empty()) levels.erase(price)`, of the level at the front
unfoldable pub drop_empty : Levels → Levels
drop_empty ((p, []) ∷ ls) = ls
drop_empty ls = ls

pub record LevelInfo : Type 0 where
  pub price : ℕ
  pub quantity : ℕ

-- The sum of a level in a `std::uint32_t`.
unfoldable pub level_sum : ℕ → List Order → ℕ
level_sum total [] = total
level_sum total (o ∷ os) = level_sum ((total + o.remaining_quantity) % 2 ^ 32) os

unfoldable pub level_infos : Levels → List LevelInfo
unfolding level_sum
level_infos [] = []
level_infos ((p, []) ∷ ls) = level_infos ls
level_infos ((p, o ∷ os) ∷ ls) =
    record { price = p; quantity = level_sum 0 (o ∷ os) } ∷ level_infos ls

unfoldable pub get_order_infos : OrderBook → List LevelInfo × List LevelInfo
unfolding level_infos
get_order_infos book = (level_infos book.bids, level_infos book.asks)

unfoldable pub book_size : OrderBook → ℕ
book_size book = length book.orders_map
