-- ===== src/OrderBook/Accepted.antt =====
-- `AddOrder` of order_book/src/order_book.cpp on an order with a new identifier.
use flow_manager.Base.{
  Bool-cases, List, Option, [], ap, arith, false, inl, inr, nat_eq, none, not, refl, some,
  string_eq, subst, sym, true, ℕ, ◌&&◌, ◌++◌, ◌+◌, ◌∙◌, ◌≡◌,
}
use flow_manager.Dict.{lookup, lookup-erase_self}
use flow_manager.OrderBook.{
  Entry, Levels, Order, OrderBook, Trade, buy, entry_of, order_is_filled, sell,
}
use flow_manager.OrderBook.Accounts.{IsServed, bought, quantity_left, sold}
use flow_manager.OrderBook.Adding.{Added, cancel_order_internal, is_fak, kill_rest}
use flow_manager.OrderBook.Arrival.{both_nil, picks_none}
use flow_manager.OrderBook.Books.{IsBook, cancel_order_internal-IsTakenOut}
use flow_manager.OrderBook.Kept.{KeptLevels}
use flow_manager.OrderBook.Loops.{FrontsApart, NoneEmpty}
use flow_manager.OrderBook.Matching.{Ledger}
use flow_manager.OrderBook.Registered.{IsRegistered, flat, picks, to_list}
use flow_manager.OrderBook.Start.{IsStarted}
use flow_manager.OrderBook.Traded.{
  IsTraded, OtherSideServed, matched-IsBook, matched_others, matched_own, matched_priority,
  quantity_left-without,
}

-- The call returns the trades, the order, and a book on which it has been traded.
pub record IsAdded (o : Order) (book : OrderBook) (r : Option Added) : Type 0 where
  pub trades : List Trade
  pub held : Order
  pub after : OrderBook
  pub result : r ≡ some (record { trades = trades; order = some held; book = after })
  pub traded : IsTraded o book trades held after

pub kill_rest_keeps :
    (trades : List Trade) (held : Order) (book : OrderBook)
    → (is_fak held && not (order_is_filled held)) ≡ false
    → kill_rest trades held book ≡ some (record { trades = trades; order = some held; book = book })
kill_rest_keeps trades held book h = unfold kill_rest in rw (kill_rest, h)

kill_rest_kills :
    (trades : List Trade) (held : Order) (book after : OrderBook) (e : Entry)
    → (is_fak held && not (order_is_filled held)) ≡ true
    → lookup held.order_id book.orders_map ≡ some e
    → cancel_order_internal held.order_id book ≡ some after
    → kill_rest trades held book
      ≡ some (record { trades = trades; order = some held; book = after })
kill_rest_kills trades held book after e h k c =
    unfold kill_rest in rw (kill_rest, h, kill_rest, k, kill_rest, c)

pub entry_side : (o : Order) → (entry_of o).side ≡ o.side
unfolding entry_of
entry_side o = refl

is_fak_eq : (a b : Order) → a.order_type ≡ b.order_type → is_fak a ≡ is_fak b
unfolding is_fak
is_fak_eq a b h = rw h

-- An identifier that the map does not know is on neither side.
pub nowhere :
    {A : Type 0} (f : Order → A) (id : ℕ) (book : OrderBook)
    → IsBook book
    → lookup id book.orders_map ≡ none
    → picks f id (flat book.bids) ++ picks f id (flat book.asks) ≡ []
unfolding IsRegistered
nowhere f id book h e =
    let gone =
      both_nil (picks entry_of id (flat book.bids)) (picks entry_of id (flat book.asks))
        (h.registered id ∙ ap to_list e) in
    rw
      (
        picks_none entry_of f id (flat book.bids) gone.0,
        picks_none entry_of f id (flat book.asks) gone.1,
      )
      refl

module _ (o : Order) (book rested : OrderBook) (s : IsStarted o book rested) (bids asks : Levels)
    (r : Ledger) (k : KeptLevels o (flat rested.bids) (flat rested.asks) bids asks r)
    (apart : FrontsApart bids asks) (full : NoneEmpty bids × NoneEmpty asks) where
  abbrev matched_book : OrderBook
  matched_book = record { bids = bids; asks = asks; orders_map = r.entries }

  abbrev book_valid : IsBook matched_book
  book_valid = matched-IsBook o book rested s bids asks r k apart full

  kept-IsAdded :
      (is_fak r.held && not (order_is_filled r.held)) ≡ false
      → IsAdded o book (kill_rest r.trades r.held matched_book)
  kept-IsAdded h = record {
    trades = r.trades;
    held = r.held;
    after = matched_book;
    result = kill_rest_keeps r.trades r.held matched_book h;
    traded = record {
      valid = book_valid;
      named = k.kept.followed.named;
      typed = k.kept.followed.typed;
      others = matched_others o book rested s bids asks r k apart full;
      own = matched_own o book rested s bids asks r k apart full;
      fair = k.kept.fair;
      priority = matched_priority o book rested s bids asks r k apart full;
      rests = elim k.kept.followed.place [
        | inl found ↦ inl (found, ground (arith, h, is_fak_eq r.held o k.kept.followed.typed))
        | inr (found, filled_) ↦ inr (found, ground (arith, filled_))
      ];
    };
  }

  -- The order that is followed is under its entry as long as it is not filled.
  unfilled_entry : order_is_filled r.held ≡ false → lookup o.order_id r.entries ≡ some (entry_of o)
  unfilled_entry h = elim k.kept.entry [
    | inr e ↦ e
    | inl e ↦
        let gone = nowhere (λ (x : Order). x) o.order_id matched_book book_valid e in
        elim k.kept.followed.place [
          | inl found ↦ cc (gone, found)
          | inr (found, filled_) ↦ cc (h, filled_)
        ]
  ]

  -- What is left of a bid goes, and the asks have been served as before; and the other way round.
  served_after_bid :
      o.side ≡ buy
      → (after : OrderBook) → after.asks ≡ asks
      → OtherSideServed o.side book matched_book
      → OtherSideServed o.side book after
  served_after_bid e after rest p =
      subst (λ x. OtherSideServed x book after) (sym e)
        (subst (λ ls. IsServed (flat book.asks) (flat ls)) (sym rest)
          (subst (λ x. OtherSideServed x book matched_book) e p))

  served_after_ask :
      o.side ≡ sell
      → (after : OrderBook) → after.bids ≡ bids
      → OtherSideServed o.side book matched_book
      → OtherSideServed o.side book after
  served_after_ask e after rest p =
      subst (λ x. OtherSideServed x book after) (sym e)
        (subst (λ ls. IsServed (flat book.bids) (flat ls)) (sym rest)
          (subst (λ x. OtherSideServed x book matched_book) e p))

  killed-IsAdded :
      is_fak r.held ≡ true
      → order_is_filled r.held ≡ false
      → IsAdded o book (kill_rest r.trades r.held matched_book)
  killed-IsAdded f h =
      let e = unfilled_entry h in
      let c = cancel_order_internal-IsTakenOut o.order_id (entry_of o) matched_book book_valid e in
      let same = k.kept.followed.named in
      record {
        trades = r.trades;
        held = r.held;
        after = c.kept;
        result =
            kill_rest_kills r.trades r.held matched_book c.kept (entry_of o) (ground (arith, f, h))
              (ap (λ id. lookup id r.entries) same ∙ e)
              (ap (λ id. cancel_order_internal id matched_book) same ∙ c.result);
        traded = record {
          valid = c.valid;
          named = same;
          typed = k.kept.followed.typed;
          others = λ j ne.
              let (x, y) = matched_others o book rested s bids asks r k apart full j ne in
              elim c.without [
                | inl (at, w, rest) ↦ (
                  ap (λ n. n + bought j r.trades)
                        (quantity_left-without o.order_id j (flat bids) (flat c.kept.bids) w ne)
                      ∙ x,
                  ap (λ ls. quantity_left j (flat ls) + sold j r.trades) rest ∙ y,
                )
                | inr (at, w, rest) ↦ (
                  ap (λ ls. quantity_left j (flat ls) + bought j r.trades) rest ∙ x,
                  ap (λ n. n + sold j r.trades)
                        (quantity_left-without o.order_id j (flat asks) (flat c.kept.asks) w ne)
                      ∙ y,
                )
              ];
          own = matched_own o book rested s bids asks r k apart full;
          fair = k.kept.fair;
          priority =
              let p = matched_priority o book rested s bids asks r k apart full in
              elim c.without [
                | inl (at, w, rest) ↦ served_after_bid (sym (entry_side o) ∙ at) c.kept rest p
                | inr (at, w, rest) ↦ served_after_ask (sym (entry_side o) ∙ at) c.kept rest p
              ];
          rests = inr (
            nowhere (λ (x : Order). x) o.order_id c.kept c.valid
                (ap (lookup o.order_id) c.forgotten ∙ lookup-erase_self o.order_id r.entries),
            ground (arith, f, is_fak_eq r.held o k.kept.followed.typed),
          );
        };
      }

  pub kill_rest-IsAdded : IsAdded o book (kill_rest r.trades r.held matched_book)
  kill_rest-IsAdded = elim (Bool-cases (is_fak r.held)) [
    | inr gtc ↦ kept-IsAdded (ground (arith, gtc))
    | inl fak ↦ elim (Bool-cases (order_is_filled r.held)) [
      | inl full_ ↦ kept-IsAdded (ground (arith, full_))
      | inr part ↦ killed-IsAdded fak part
    ]
  ]
