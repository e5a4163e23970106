-- ===== src/OrderBook/Loops.antt =====
-- A rule for the loops of `MatchOrders` of order_book/src/order_book.cpp: what a trade and the
-- removal of an empty level keep, the whole keeps, and the loops end without an exception.
use flow_manager.Base.{
  Bool-cases, List, Option, [], arith, false, inl, inr, length, ltb, nat_eq, refl, some, string_eq,
  subst, suc, sym, true, zero, ℕ, ◌+◌, ◌-◌, ◌<◌, ◌∷◌, ◌≡◌, ◌≤◌, ◌⊎◌,
}
use flow_manager.OrderBook.{Levels, Order, drop_empty, fill_order}
use flow_manager.OrderBook.Matching.{Ledger, book_trade, keep, match_level, match_orders, min}

-- An order after a fill.
unfoldable pub filled_by_trade : ℕ → Order → Order
filled_by_trade n o = record o { remaining_quantity = o.remaining_quantity - n }

-- What fills at most what is left does not throw.
pub fill_order_lem :
    (n : ℕ) (o : Order) → n ≤ o.remaining_quantity → fill_order n o ≡ some (filled_by_trade n o)
unfolding fill_order filled_by_trade
fill_order_lem n o h = ground arith

abbrev pub matched : Order → Order → ℕ
matched b a = min b.remaining_quantity a.remaining_quantity

-- No level is empty.
abbrev pub NoneEmpty : Levels → Type 0
NoneEmpty [] = Unit
NoneEmpty ((p, []) ∷ ls) = ⊥
NoneEmpty ((p, o ∷ os) ∷ ls) = NoneEmpty ls

-- The best bid is below the best ask.
abbrev pub FrontsApart : Levels → Levels → Type 0
FrontsApart [] asks = Unit
FrontsApart (l ∷ ls) [] = Unit
FrontsApart ((p, bs) ∷ bl) ((q, os) ∷ al) = p < q

pub NoneEmpty-tail :
    (p : ℕ) (os : List Order) (ls : Levels) → NoneEmpty ((p, os) ∷ ls) → NoneEmpty ls
NoneEmpty-tail p [] ls h = absurd h
NoneEmpty-tail p (o ∷ os) ls h = h

drop_empty-NoneEmpty :
    (p : ℕ) (os : List Order) (ls : Levels) → NoneEmpty ls → NoneEmpty (drop_empty ((p, os) ∷ ls))
unfolding drop_empty
drop_empty-NoneEmpty p [] ls h = h
drop_empty-NoneEmpty p (o ∷ os) ls h = h

fewer_levels :
    (p q : ℕ) (bs os : List Order) (bl al : Levels)
    → (bs ≡ []) ⊎ (os ≡ [])
    → length (drop_empty ((p, bs) ∷ bl)) + length (drop_empty ((q, os) ∷ al))
      < length ((p, bs) ∷ bl) + length ((q, os) ∷ al)
unfolding drop_empty
fewer_levels p q [] [] bl al h = omega arith
fewer_levels p q [] (o ∷ os) bl al h = omega arith
fewer_levels p q (b ∷ bs) [] bl al h = omega arith
fewer_levels p q (b ∷ bs) (o ∷ os) bl al (inl e) = cc
fewer_levels p q (b ∷ bs) (o ∷ os) bl al (inr e) = cc

-- A round of the inner loop takes an order away.
fewer_orders :
    (b a : Order) (bs os : List Order) (n : ℕ)
    → length (b ∷ bs) + length (a ∷ os) < suc n
    → length (keep (filled_by_trade (matched b a) b) bs)
        + length (keep (filled_by_trade (matched b a) a) os)
      < n
unfolding keep filled_by_trade
fewer_orders b a bs os n h = ground arith

-- `MatchOrders` has returned.
pub record AllMatched (P : Levels → Levels → Ledger → Type 0)
    (o : Option (Levels × Levels × Ledger)) : Type 0 where
  pub bids : Levels
  pub asks : Levels
  pub ledger : Ledger
  pub result : o ≡ some (bids, asks, ledger)
  pub kept : P bids asks ledger
  pub apart : FrontsApart bids asks
  pub none_empty : NoneEmpty bids × NoneEmpty asks

module _ (P : Levels → Levels → Ledger → Type 0)
    (trade : (p q : ℕ) (b a : Order) (bs os : List Order) (bl al : Levels) (r : Ledger)
      → q ≤ p
      → P ((p, b ∷ bs) ∷ bl) ((q, a ∷ os) ∷ al) r
      → let n = matched b a in
        let b' = filled_by_trade n b in
        let a' = filled_by_trade n a in
        P ((p, keep b' bs) ∷ bl) ((q, keep a' os) ∷ al) (book_trade b' a' n r))
    (drop_bid : (p : ℕ) (bl al : Levels) (r : Ledger) → P ((p, []) ∷ bl) al r → P bl al r)
    (drop_ask : (q : ℕ) (bl al : Levels) (r : Ledger) → P bl ((q, []) ∷ al) r → P bl al r) where
  -- The inner loop has ended, at one of the levels at the front.
  record LevelDone (p q : ℕ) (bl al : Levels) (o : Option (Levels × Levels × Ledger)) : Type 0 where
    pub bs : List Order
    pub os : List Order
    pub ledger : Ledger
    pub result : o ≡ some ((p, bs) ∷ bl, (q, os) ∷ al, ledger)
    pub kept : P ((p, bs) ∷ bl) ((q, os) ∷ al) ledger
    pub ended : (bs ≡ []) ⊎ (os ≡ [])

  match_level-LevelDone :
      (n p q : ℕ) (bs os : List Order) (bl al : Levels) (r : Ledger)
      → q ≤ p
      → length bs + length os < n
      → P ((p, bs) ∷ bl) ((q, os) ∷ al) r
      → LevelDone p q bl al (match_level n ((p, bs) ∷ bl) ((q, os) ∷ al) r)
  match_level-LevelDone zero p q bs os bl al r c h k = absurd (omega arith)
  match_level-LevelDone (suc n) p q [] os bl al r c h k = record {
    bs = [];
    os = os;
    ledger = r;
    result = unfold match_level in refl;
    kept = k;
    ended = inl refl;
  }
  match_level-LevelDone (suc n) p q (b ∷ bs) [] bl al r c h k = record {
    bs = b ∷ bs;
    os = [];
    ledger = r;
    result = unfold match_level in refl;
    kept = k;
    ended = inr refl;
  }
  match_level-LevelDone (suc n) p q (b ∷ bs) (a ∷ os) bl al r c h k =
      let m = matched b a in
      let b' = filled_by_trade m b in
      let a' = filled_by_trade m a in
      subst (LevelDone p q bl al) (sym round) (
        match_level-LevelDone n p q (keep b' bs) (keep a' os) bl al (book_trade b' a' m r) c
          (fewer_orders b a bs os n h) (trade p q b a bs os bl al r c k))
    where
      round :
          match_level (suc n) ((p, b ∷ bs) ∷ bl) ((q, a ∷ os) ∷ al) r
          ≡ match_level n
              ((p, keep (filled_by_trade (matched b a) b) bs) ∷ bl)
              ((q, keep (filled_by_trade (matched b a) a) os) ∷ al)
              (book_trade
                (filled_by_trade (matched b a) b)
                (filled_by_trade (matched b a) a)
                (matched b a)
                r)
      round =
          unfold match_level in
          rw (
            match_level,
            fill_order_lem (matched b a) b (ground arith),
            match_level,
            fill_order_lem (matched b a) a (ground arith),
          )

  drop_both :
      (p q : ℕ) (bs os : List Order) (bl al : Levels) (r : Ledger)
      → P ((p, bs) ∷ bl) ((q, os) ∷ al) r
      → P (drop_empty ((p, bs) ∷ bl)) (drop_empty ((q, os) ∷ al)) r
  unfolding drop_empty
  drop_both p q [] [] bl al r k = drop_ask q bl al r (drop_bid p bl ((q, []) ∷ al) r k)
  drop_both p q [] (a ∷ os) bl al r k = drop_bid p bl ((q, a ∷ os) ∷ al) r k
  drop_both p q (b ∷ bs) [] bl al r k = drop_ask q ((p, b ∷ bs) ∷ bl) al r k
  drop_both p q (b ∷ bs) (a ∷ os) bl al r k = k

  pub match_orders-AllMatched :
      (n : ℕ) (bids asks : Levels) (r : Ledger)
      → length bids + length asks < n
      → NoneEmpty bids
      → NoneEmpty asks
      → P bids asks r
      → AllMatched P (match_orders n bids asks r)
  match_orders-AllMatched zero bids asks r h e f k = absurd (omega arith)
  match_orders-AllMatched (suc n) [] asks r h e f k = record {
    bids = [];
    asks = asks;
    ledger = r;
    result = unfold match_orders in refl;
    kept = k;
    apart = tt;
    none_empty = (tt, f);
  }
  match_orders-AllMatched (suc n) (l ∷ bl) [] r h e f k = record {
    bids = l ∷ bl;
    asks = [];
    ledger = r;
    result = unfold match_orders in refl;
    kept = k;
    apart = tt;
    none_empty = (e, tt);
  }
  match_orders-AllMatched (suc n) ((p, bs) ∷ bl) ((q, os) ∷ al) r h e f k =
      elim (Bool-cases (ltb p q)) [
        | inl apart ↦ subst (AllMatched P) (sym (stops apart)) (record {
          bids = (p, bs) ∷ bl;
          asks = (q, os) ∷ al;
          ledger = r;
          result = refl;
          kept = k;
          apart = ground arith;
          none_empty = (e, f);
        })
        | inr cross ↦
            let l =
              match_level-LevelDone (suc (length bs + length os)) p q bs os bl al r (ground arith)
                (omega arith) k in
            subst (AllMatched P) (sym (goes_on cross l.bs l.os l.ledger l.result)) (
              match_orders-AllMatched n (drop_empty ((p, l.bs) ∷ bl)) (drop_empty ((q, l.os) ∷ al))
                l.ledger (omega (arith, fewer_levels p q l.bs l.os bl al l.ended))
                (drop_empty-NoneEmpty p l.bs bl (NoneEmpty-tail p bs bl e))
                (drop_empty-NoneEmpty q l.os al (NoneEmpty-tail q os al f))
                (drop_both p q l.bs l.os bl al l.ledger l.kept))
      ]
    where
      stops :
          ltb p q ≡ true
          → match_orders (suc n) ((p, bs) ∷ bl) ((q, os) ∷ al) r
            ≡ some ((p, bs) ∷ bl, (q, os) ∷ al, r)
      stops apart = unfold match_orders in rw (match_orders, apart)

      goes_on :
          ltb p q ≡ false
          → (bs' os' : List Order) (r' : Ledger)
          → match_level (suc (length bs + length os)) ((p, bs) ∷ bl) ((q, os) ∷ al) r
            ≡ some ((p, bs') ∷ bl, (q, os') ∷ al, r')
          → match_orders (suc n) ((p, bs) ∷ bl) ((q, os) ∷ al) r
            ≡ match_orders n (drop_empty ((p, bs') ∷ bl)) (drop_empty ((q, os') ∷ al)) r'
      goes_on cross bs' os' r' done_ =
          unfold match_orders in rw (match_orders, cross, match_orders, done_)
