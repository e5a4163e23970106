-- ===== src/OrderBook/Kept.antt =====
-- What every trade of `MatchOrders` of order_book/src/order_book.cpp keeps.
use flow_manager.Base.{
  All, All-append, All-mono, Bool-cases, List, [], arith, inl, inr, length, nat_eq, none, refl,
  some, string_eq, ℕ, ◌++◌, ◌+◌, ◌<◌, ◌∷◌, ◌≡◌, ◌≤◌, ◌⊎◌,
}
use flow_manager.Dict.{Dict, erase, lookup, lookup-erase}
use flow_manager.OrderBook.{Entry, Levels, Order, Side, Trade, buy, entry_of, order_is_filled, sell}
use flow_manager.OrderBook.Accounts.{IsAccounted, IsServed, trade-IsAccounted, trade-IsServed}
use flow_manager.OrderBook.Loops.{
  AllMatched, NoneEmpty, filled_by_trade, match_orders-AllMatched, matched,
}
use flow_manager.OrderBook.Matching.{
  Ledger, book_trade, forget_filled, keep, match_orders, seen, trade_of,
}
use flow_manager.OrderBook.Registered.{
  IsHeld, IsHeld-ask, IsHeld-bid, IsRegistered, IsRegistered-ask, IsRegistered-bid, flat,
  same_after_fill,
}
use flow_manager.OrderBook.Sides.{IsSide, IsSide-keep, IsSide-tail}

-- Two orders that cross are not both of other identifiers than `k`.
abbrev pub Crosses : ℕ → Order → Order → Type 0
Crosses k b a = a.price ≤ b.price → (b.order_id ≡ k) ⊎ (a.order_id ≡ k)

abbrev pub Pairs : (Order → Order → Type 0) → List Order → List Order → Type 0
Pairs R bids asks = All (λ b. All (λ a. R b a) asks) bids

-- A trade is at a bid that is not below the ask, and the order `k` is one of its two sides.
abbrev pub IsFair : ℕ → Trade → Type 0
IsFair k t =
    (t.ask_trade.price ≤ t.bid_trade.price)
    × ((t.bid_trade.order_id ≡ k) ⊎ (t.ask_trade.order_id ≡ k))

pub record Kept (o : Order) (bids asks bids' asks' : List Order) (r : Ledger) : Type 0 where
  pub registered : IsRegistered bids' asks' r.entries
  pub followed : IsHeld o.order_id o.order_type bids' asks' r.held
  pub accounted : IsAccounted bids asks bids' asks' r.trades
  pub bids_served : IsServed bids bids'
  pub asks_served : IsServed asks asks'
  pub entry :
      (lookup o.order_id r.entries ≡ none) ⊎ (lookup o.order_id r.entries ≡ some (entry_of o))
  pub crossing : Pairs (Crosses o.order_id) bids' asks'
  pub fair : All (IsFair o.order_id) r.trades

keep-All :
    (P : Order → Type 0) (n : ℕ) (o : Order) (os : List Order)
    → P (filled_by_trade n o)
    → All P os
    → All P (keep (filled_by_trade n o) os)
unfolding keep
keep-All P n o os h k = elim (Bool-cases (order_is_filled (filled_by_trade n o))) [
  | inl full ↦ rw full k
  | inr part ↦ rw part (h, k)
]

keep-Pairs :
    (k m n : ℕ) (b a : Order) (bs os : List Order)
    → Pairs (Crosses k) (b ∷ bs) (a ∷ os)
    → Pairs (Crosses k) (keep (filled_by_trade m b) bs) (keep (filled_by_trade n a) os)
unfolding filled_by_trade
keep-Pairs k m n b a bs os h =
    keep-All (λ b. All (λ a. Crosses k b a) (keep (filled_by_trade n a) os)) m b bs
      (keep-All (Crosses k b) n a os h.0.0 h.0.1)
      (All-mono _ _ bs (λ b' hs. keep-All (Crosses k b') n a os hs.0 hs.1) h.1)

-- An entry stays or is deleted.
forget_entry :
    (e : Entry) (k : ℕ) (b a : Order) (entries : Dict ℕ Entry)
    → (lookup k entries ≡ none) ⊎ (lookup k entries ≡ some e)
    → let stay = forget_filled a (forget_filled b entries) in
      (lookup k stay ≡ none) ⊎ (lookup k stay ≡ some e)
unfolding forget_filled
forget_entry e k b a entries h = ground (
  arith,
  lookup-erase b.order_id k entries,
  lookup-erase a.order_id k entries,
  lookup-erase a.order_id k (erase b.order_id entries),
)

pub trade-Kept :
    (o : Order) (bids asks : List Order) (b a : Order) (bs os : List Order) (r : Ledger)
    → a.price ≤ b.price
    → Kept o bids asks (b ∷ bs) (a ∷ os) r
    → let n = matched b a in
      let b' = filled_by_trade n b in
      let a' = filled_by_trade n a in
      Kept o bids asks (keep b' bs) (keep a' os) (book_trade b' a' n r)
unfolding book_trade
trade-Kept o bids asks b a bs os r c h =
    let n = matched b a in
    let b' = filled_by_trade n b in
    let a' = filled_by_trade n a in
    let same_b = same_after_fill n b in
    let same_a = same_after_fill n a in
    record {
      registered =
          IsRegistered-ask a a' (keep b' bs) os (forget_filled b' r.entries) same_a.0 same_a.2
            (IsRegistered-bid b b' bs (a ∷ os) r.entries same_b.0 same_b.2 h.registered);
      followed =
          IsHeld-ask o.order_id o.order_type a a' (keep b' bs) os (seen b' r.held) same_a.0 same_a.1
            (IsHeld-bid o.order_id o.order_type b b' bs (a ∷ os) r.held same_b.0 same_b.1
              h.followed);
      accounted = trade-IsAccounted bids asks b a bs os r.trades h.accounted;
      bids_served = trade-IsServed n b bs refl h.bids_served;
      asks_served = trade-IsServed n a os refl h.asks_served;
      entry = forget_entry (entry_of o) o.order_id b' a' r.entries h.entry;
      crossing = keep-Pairs o.order_id n n b a bs os h.crossing;
      fair =
          All-append (IsFair o.order_id) r.trades (trade_of b' a' n ∷ []) h.fair
            (unfold trade_of filled_by_trade in ((c, h.crossing.0.0 c), tt));
    }

-- The same of the levels, which stand at their sides.
pub record KeptLevels (o : Order) (bids asks : List Order) (bids' asks' : Levels) (r : Ledger)
    : Type 0 where
  pub bid_side : IsSide buy bids'
  pub ask_side : IsSide sell asks'
  pub kept : Kept o bids asks (flat bids') (flat asks') r

keep-append : (o : Order) (xs ys : List Order) → keep o xs ++ ys ≡ keep o (xs ++ ys)
unfolding keep
keep-append o xs ys = ground arith

pub front_price :
    (side : Side) (p : ℕ) (o : Order) (os : List Order) (ls : Levels)
    → IsSide side ((p, o ∷ os) ∷ ls)
    → o.price ≡ p
unfolding IsSide
front_price side p o os ls h = h.0.0.1

module _ (o : Order) (bids asks : List Order) where
  trade-KeptLevels :
      (p q : ℕ) (b a : Order) (bs os : List Order) (bl al : Levels) (r : Ledger)
      → q ≤ p
      → KeptLevels o bids asks ((p, b ∷ bs) ∷ bl) ((q, a ∷ os) ∷ al) r
      → let n = matched b a in
        let b' = filled_by_trade n b in
        let a' = filled_by_trade n a in
        KeptLevels o bids asks ((p, keep b' bs) ∷ bl) ((q, keep a' os) ∷ al) (book_trade b' a' n r)
  trade-KeptLevels p q b a bs os bl al r c h =
      let n = matched b a in
      let b' = filled_by_trade n b in
      let a' = filled_by_trade n a in
      record {
        bid_side = IsSide-keep buy n p b bs bl h.bid_side;
        ask_side = IsSide-keep sell n q a os al h.ask_side;
        kept =
            rw (keep-append b' bs (flat bl), keep-append a' os (flat al))
              (trade-Kept o bids asks b a (bs ++ flat bl) (os ++ flat al) r
                (omega (
                  arith,
                  front_price buy p b bs bl h.bid_side,
                  front_price sell q a os al h.ask_side,
                  c,
                ))
                h.kept);
      }

  -- `MatchOrders` returns, with all that the trades keep.
  pub match_orders-Kept :
      (n : ℕ) (bids' asks' : Levels) (r : Ledger)
      → length bids' + length asks' < n
      → NoneEmpty bids'
      → NoneEmpty asks'
      → KeptLevels o bids asks bids' asks' r
      → AllMatched (KeptLevels o bids asks) (match_orders n bids' asks' r)
  match_orders-Kept =
      match_orders-AllMatched (KeptLevels o bids asks) trade-KeptLevels
        (λ p bl al r h. record {
          bid_side = IsSide-tail buy p [] bl h.bid_side;
          ask_side = h.ask_side;
          kept = h.kept;
        })
        (λ q bl al r h. record {
          bid_side = h.bid_side;
          ask_side = IsSide-tail sell q [] al h.ask_side;
          kept = h.kept;
        })
