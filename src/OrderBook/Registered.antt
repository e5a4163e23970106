-- ===== src/OrderBook/Registered.antt =====
-- The identifiers of the orders of order_book/src/order_book.cpp: the map knows exactly the orders of
-- the two sides, each once.
use mathlib.Core.List.{append-nil}
use flow_manager.Base.{
  List, Option, [], arith, if◌then◌else◌, nat_eq, none, refl, some, string_eq, true, ℕ, ◌++◌, ◌==◌,
  ◌∷◌, ◌≡◌, ◌⊎◌,
}
use flow_manager.Dict.{Dict, lookup, lookup-erase}
use flow_manager.OrderBook.{Entry, Levels, Order, OrderType, entry_of, order_is_filled}
use flow_manager.OrderBook.Loops.{filled_by_trade}
use flow_manager.OrderBook.Matching.{forget_filled, keep, seen}

-- The orders of a side, in the order in which they are matched.
abbrev pub flat : Levels → List Order
flat [] = []
flat ((p, os) ∷ ls) = os ++ flat ls

-- What `f` reads of the orders under an identifier.
unfoldable pub picks : {A : Type 0} → (Order → A) → ℕ → List Order → List A
picks f id [] = []
picks f id (o ∷ os) = let rest = picks f id os in if o.order_id == id then f o ∷ rest else rest

pub picks-append :
    {A : Type 0} (f : Order → A) (id : ℕ) (xs ys : List Order)
    → picks f id (xs ++ ys) ≡ picks f id xs ++ picks f id ys
unfolding picks
picks-append f id [] ys = refl
picks-append f id (x ∷ xs) ys = ground (arith, picks-append f id xs ys)

abbrev pub to_list : {A : Type 0} → Option A → List A
to_list none = []
to_list (some a) = a ∷ []

-- The map and the orders of the two sides agree.
unfoldable pub IsRegistered : List Order → List Order → Dict ℕ Entry → Type 0
IsRegistered bids asks entries =
    (id : ℕ) → picks entry_of id bids ++ picks entry_of id asks ≡ to_list (lookup id entries)

-- The object that is followed, of the identifier `k`, is on the book as it is, or has been filled and
-- is not there.
pub record IsHeld (k : ℕ) (type : OrderType) (bids asks : List Order) (held : Order) : Type 0 where
  pub named : held.order_id ≡ k
  pub typed : held.order_type ≡ type
  pub place :
      let found = picks (λ o. o) k bids ++ picks (λ o. o) k asks in
      (found ≡ held ∷ []) ⊎ ((found ≡ []) × (order_is_filled held ≡ true))

pub same_after_fill :
    (n : ℕ) (o : Order)
    → ((filled_by_trade n o).order_id ≡ o.order_id)
      × ((filled_by_trade n o).order_type ≡ o.order_type)
      × (entry_of (filled_by_trade n o) ≡ entry_of o)
unfolding filled_by_trade entry_of
same_after_fill n o = (refl, refl, refl)

pub middle :
    {A : Type 0} (xs ys : List A) (z : A) (o : Option A)
    → xs ++ (z ∷ ys) ≡ to_list o
    → (xs ≡ []) × (ys ≡ []) × (o ≡ some z)
middle [] ys z none h = cc
middle [] [] z (some a) h = (refl, refl, cc)
middle [] (y ∷ ys) z (some a) h = cc
middle (x ∷ xs) ys z none h = cc
middle (x ∷ []) ys z (some a) h = cc
middle (x ∷ x' ∷ xs) ys z (some a) h = cc

-- A bid that has been filled leaves the map and its level; any other stays in both.
pub IsRegistered-bid :
    (b b' : Order) (bs asks : List Order) (entries : Dict ℕ Entry)
    → b'.order_id ≡ b.order_id
    → entry_of b' ≡ entry_of b
    → IsRegistered (b ∷ bs) asks entries
    → IsRegistered (keep b' bs) asks (forget_filled b' entries)
unfolding IsRegistered keep forget_filled picks
IsRegistered-bid b b' bs asks entries same entry h id = ground (
  arith,
  h id,
  lookup-erase b'.order_id id entries,
  middle [] (picks entry_of id bs ++ picks entry_of id asks) (entry_of b) (lookup id entries),
)

pub IsRegistered-ask :
    (a a' : Order) (bids os : List Order) (entries : Dict ℕ Entry)
    → a'.order_id ≡ a.order_id
    → entry_of a' ≡ entry_of a
    → IsRegistered bids (a ∷ os) entries
    → IsRegistered bids (keep a' os) (forget_filled a' entries)
unfolding IsRegistered keep forget_filled picks
IsRegistered-ask a a' bids os entries same entry h id = ground (
  arith,
  h id,
  lookup-erase a'.order_id id entries,
  append-nil (picks entry_of id bids),
  middle (picks entry_of id bids) (picks entry_of id os) (entry_of a) (lookup id entries),
)

pub IsHeld-bid :
    (k : ℕ) (type : OrderType) (b b' : Order) (bs asks : List Order) (held : Order)
    → b'.order_id ≡ b.order_id
    → b'.order_type ≡ b.order_type
    → IsHeld k type (b ∷ bs) asks held
    → IsHeld k type (keep b' bs) asks (seen b' held)
unfolding keep seen picks
IsHeld-bid k type b b' bs asks held same same_type h = record {
  named = ground (arith, h.named);
  typed = ground (arith, h.named, h.typed, h.place);
  place = ground (arith, h.named, h.place);
}

pub IsHeld-ask :
    (k : ℕ) (type : OrderType) (a a' : Order) (bids os : List Order) (held : Order)
    → a'.order_id ≡ a.order_id
    → a'.order_type ≡ a.order_type
    → IsHeld k type bids (a ∷ os) held
    → IsHeld k type bids (keep a' os) (seen a' held)
unfolding keep seen picks
IsHeld-ask k type a a' bids os held same same_type h = record {
  named = ground (arith, h.named);
  typed = ground (
    arith,
    h.typed,
    h.named,
    h.place,
    append-nil (picks (λ o. o) k bids),
    middle (picks (λ o. o) k bids) (picks (λ o. o) k os) a (some held),
    middle (picks (λ o. o) k bids) (picks (λ o. o) k os) a none,
  );
  place = ground (
    arith,
    h.named,
    h.place,
    append-nil (picks (λ o. o) k bids),
    middle (picks (λ o. o) k bids) (picks (λ o. o) k os) a (some held),
    middle (picks (λ o. o) k bids) (picks (λ o. o) k os) a none,
  );
}
