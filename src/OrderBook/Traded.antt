-- ===== src/OrderBook/Traded.antt =====
-- What an accepted order leaves on the book of order_book/src/order_book.cpp.
use flow_manager.Base.{
  All, All-mono, List, [], ap, arith, false, inl, inr, nat_eq, not, refl, string_eq, subst, sym,
  true, ℕ, ◌&&◌, ◌++◌, ◌+◌, ◌<◌, ◌||◌, ◌∙◌, ◌∷◌, ◌≡◌, ◌≢◌, ◌≤◌, ◌⊎◌,
}
use flow_manager.OrderBook.{
  Levels, Order, OrderBook, OrderType, Side, Trade, buy, order_is_filled, precedes, sell,
}
use flow_manager.OrderBook.Accounts.{
  IsAccounted, IsServed, bought, quantity_left, quantity_left-append, sold,
}
use flow_manager.OrderBook.Adding.{is_fak}
use flow_manager.OrderBook.Arrival.{All-every}
use flow_manager.OrderBook.Books.{IsBook}
use flow_manager.OrderBook.Erasing.{All-flat, IsWithout}
use flow_manager.OrderBook.Kept.{IsFair, KeptLevels, Pairs}
use flow_manager.OrderBook.Loops.{FrontsApart, NoneEmpty}
use flow_manager.OrderBook.Matching.{Ledger}
use flow_manager.OrderBook.Registered.{IsHeld, flat, picks}
use flow_manager.OrderBook.Sides.{IsSide}
use flow_manager.OrderBook.Start.{IsStarted}

other :
    (k : ℕ) (o : Order) (os : List Order)
    → o.order_id ≢ k
    → quantity_left k (o ∷ os) ≡ quantity_left k os
unfolding quantity_left
other k o os ne = ground (arith, ne)

-- What is left of the orders of other identifiers does not change.
pub quantity_left-without :
    (id k : ℕ) (os os' : List Order)
    → IsWithout id os os'
    → id ≢ k
    → quantity_left k os' ≡ quantity_left k os
quantity_left-without id k os os' w ne =
    let parts_left = quantity_left-append k w.before w.behind in
    let parts_all = quantity_left-append k w.before (w.order ∷ w.behind) in
    let one : quantity_left k (w.order ∷ w.behind) ≡ quantity_left k w.behind =
      other k w.order w.behind (λ e. ne (sym w.named ∙ e)) in
    rw (w.rest, w.all) (omega (arith, parts_left, parts_all, one))

unfoldable pub sum_left : List Order → ℕ
sum_left [] = 0
sum_left (o ∷ os) = o.remaining_quantity + sum_left os

quantity_left-picks :
    (id : ℕ) (os : List Order) → quantity_left id os ≡ sum_left (picks (λ o. o) id os)
unfolding quantity_left picks sum_left
quantity_left-picks id [] = refl
quantity_left-picks id (o ∷ os) = ground (arith, quantity_left-picks id os)

sum_left-append : (xs ys : List Order) → sum_left (xs ++ ys) ≡ sum_left xs + sum_left ys
unfolding sum_left
sum_left-append [] ys = omega arith
sum_left-append (x ∷ xs) ys = omega (arith, sum_left-append xs ys)

-- What is left of the order that is followed stands on the book.
followed_left :
    (k : ℕ) (type : OrderType) (bids asks : List Order) (held : Order)
    → IsHeld k type bids asks held
    → quantity_left k bids + quantity_left k asks ≡ held.remaining_quantity
followed_left k type bids asks held h =
    let xs = picks (λ (x : Order). x) k bids in
    let ys = picks (λ (x : Order). x) k asks in
    let whole : quantity_left k bids + quantity_left k asks ≡ sum_left (xs ++ ys) =
      omega
        (arith, quantity_left-picks k bids, quantity_left-picks k asks, sum_left-append xs ys) in
    elim h.place [
      | inl e ↦ whole ∙ ap sum_left e ∙ (unfold sum_left in omega arith)
      | inr (e, full) ↦
          whole ∙ ap sum_left e ∙ (unfold sum_left order_is_filled in ground (arith, full))
    ]

-- No bid reaches an ask when the best ones do not.
apart_of_fronts :
    (bids asks : Levels)
    → IsSide buy bids
    → IsSide sell asks
    → FrontsApart bids asks
    → Pairs (λ b a. b.price < a.price) (flat bids) (flat asks)
unfolding IsSide precedes
apart_of_fronts [] asks h k f = tt
apart_of_fronts (l ∷ bl) [] h k f = All-every _ (flat (l ∷ bl)) (λ b. tt)
apart_of_fronts ((p, bs) ∷ bl) ((q, os) ∷ al) h k f =
    let low =
      All-flat (λ x. x ≤ p) buy ((p, bs) ∷ bl)
        (omega arith, All-mono _ _ bl (λ l c. ground (arith, c)) h.1) h in
    let high =
      All-flat (λ x. q ≤ x) sell ((q, os) ∷ al)
        (omega arith, All-mono _ _ al (λ l c. ground (arith, c)) k.1) k in
    All-mono _ _ (flat ((p, bs) ∷ bl))
      (λ b le. All-mono _ _ (flat ((q, os) ∷ al)) (λ a ge. omega (arith, f, le, ge)) high) low

-- The orders that a new order of a side trades with are served one after another.
abbrev pub OtherSideServed : Side → OrderBook → OrderBook → Type 0
OtherSideServed buy book after = IsServed (flat book.asks) (flat after.asks)
OtherSideServed sell book after = IsServed (flat book.bids) (flat after.bids)

-- The order `o` has been accepted: `held` is its object at the end.
pub record IsTraded (o : Order) (book : OrderBook) (trades : List Trade) (held : Order)
    (after : OrderBook) : Type 0 where
  pub valid : IsBook after
  pub named : held.order_id ≡ o.order_id
  pub typed : held.order_type ≡ o.order_type
  pub others :
      (k : ℕ)
      → o.order_id ≢ k
      → (quantity_left k (flat after.bids) + bought k trades ≡ quantity_left k (flat book.bids))
        × (quantity_left k (flat after.asks) + sold k trades ≡ quantity_left k (flat book.asks))
  pub own :
      held.remaining_quantity + bought o.order_id trades + sold o.order_id trades
      ≡ o.remaining_quantity
  pub fair : All (IsFair o.order_id) trades
  pub priority : OtherSideServed o.side book after
  pub rests :
      let found =
        picks (λ x. x) o.order_id (flat after.bids)
        ++ picks (λ x. x) o.order_id (flat after.asks) in
      ((found ≡ held ∷ []) × ((is_fak o && not (order_is_filled held)) ≡ false))
      ⊎ ((found ≡ []) × ((is_fak o || order_is_filled held) ≡ true))

module _ (o : Order) (book rested : OrderBook) (s : IsStarted o book rested) where
  module _ (bids asks : Levels) (r : Ledger)
      (k : KeptLevels o (flat rested.bids) (flat rested.asks) bids asks r)
      (apart : FrontsApart bids asks) (full : NoneEmpty bids × NoneEmpty asks) where
    abbrev after : OrderBook
    after = record { bids = bids; asks = asks; orders_map = r.entries }

    pub matched-IsBook : IsBook after
    matched-IsBook = record {
      bid_side = k.bid_side;
      ask_side = k.ask_side;
      bids_full = full.0;
      asks_full = full.1;
      registered = k.kept.registered;
      apart = apart_of_fronts bids asks k.bid_side k.ask_side apart;
    }

    rested_left :
        (j : ℕ)
        → o.order_id ≢ j
        → (quantity_left j (flat book.bids) ≡ quantity_left j (flat rested.bids))
          × (quantity_left j (flat book.asks) ≡ quantity_left j (flat rested.asks))
    rested_left j ne = elim s.arrived [
      | inl (e, w, same) ↦ (
        quantity_left-without o.order_id j (flat rested.bids) (flat book.bids) w ne,
        rw same refl,
      )
      | inr (e, w, same) ↦ (
        rw same refl,
        quantity_left-without o.order_id j (flat rested.asks) (flat book.asks) w ne,
      )
    ]

    pub matched_others :
        (j : ℕ)
        → o.order_id ≢ j
        → (quantity_left j (flat bids) + bought j r.trades ≡ quantity_left j (flat book.bids))
          × (quantity_left j (flat asks) + sold j r.trades ≡ quantity_left j (flat book.asks))
    unfolding IsAccounted
    matched_others j ne = (
      (k.kept.accounted j).0 ∙ sym (rested_left j ne).0,
      (k.kept.accounted j).1 ∙ sym (rested_left j ne).1,
    )

    pub matched_own :
        r.held.remaining_quantity + bought o.order_id r.trades + sold o.order_id r.trades
        ≡ o.remaining_quantity
    unfolding IsAccounted
    matched_own =
        let before =
          followed_left o.order_id o.order_type (flat rested.bids) (flat rested.asks) o
            s.levels.kept.followed in
        let now =
          followed_left o.order_id o.order_type (flat bids) (flat asks) r.held k.kept.followed in
        omega (arith, before, now, (k.kept.accounted o.order_id).0, (k.kept.accounted o.order_id).1)

    pub matched_priority : OtherSideServed o.side book after
    matched_priority = elim s.arrived [
      | inl (e, w, same) ↦
          subst (λ x. OtherSideServed x book after) (sym e)
            (subst (λ ls. IsServed (flat ls) (flat asks)) same k.kept.asks_served)
      | inr (e, w, same) ↦
          subst (λ x. OtherSideServed x book after) (sym e)
            (subst (λ ls. IsServed (flat ls) (flat bids)) same k.kept.bids_served)
    ]
