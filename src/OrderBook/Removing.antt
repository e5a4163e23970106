-- ===== src/OrderBook/Removing.antt =====
-- `CancelOrderInternal` of order_book/src/order_book.cpp: the levels of a side without the order.
use mathlib.Core.Option.{map as map_option}
use flow_manager.Base.{
  All, All-mono, List, Option, [], ap, arith, false, inl, inr, list_cases, nat_eq, refl, some,
  string_eq, subst, sym, true, ℕ, ◌++◌, ◌==◌, ◌∙◌, ◌∷◌, ◌≡◌,
}
use flow_manager.OrderBook.{Entry, Levels, Order, Side, buy, drop_empty, entry_of, precedes, sell}
use flow_manager.OrderBook.Adding.{remove_from}
use flow_manager.OrderBook.Erasing.{
  All-flat, IsWithout, erase_node-IsErased, picks_nil, picks_price, prefix-IsWithout,
  suffix-IsWithout,
}
use flow_manager.OrderBook.Loops.{NoneEmpty, NoneEmpty-tail}
use flow_manager.OrderBook.Registered.{flat, picks, picks-append}
use flow_manager.OrderBook.Sides.{IsSide, IsSide-tail}

-- A level without one of its orders.
pub record IsRemoved (id : ℕ) (side : Side) (ls : Levels) (r : Option Levels) : Type 0 where
  pub kept : Levels
  pub result : r ≡ some kept
  pub side_kept : IsSide side kept
  pub none_empty : NoneEmpty kept
  pub prices :
      (p : ℕ)
      → All (λ (l : ℕ × List Order). precedes side p l.0 ≡ true) ls
      → All (λ (l : ℕ × List Order). precedes side p l.0 ≡ true) kept
  pub without : IsWithout id (flat ls) (flat kept)

keep-IsRemoved :
    (id p : ℕ) (side : Side) (os : List Order) (ls : Levels) (r : Option Levels)
    → IsSide side ((p, os) ∷ ls)
    → NoneEmpty ((p, os) ∷ ls)
    → IsRemoved id side ls r
    → IsRemoved id side ((p, os) ∷ ls) (map_option (◌∷◌ (p, os)) r)
unfolding IsSide
keep-IsRemoved id p side [] ls r h f d = absurd f
keep-IsRemoved id p side (o ∷ os) ls r h f d = record {
  kept = (p, o ∷ os) ∷ d.kept;
  result = rw d.result;
  side_kept = (h.0, d.prices p h.1, d.side_kept);
  none_empty = d.none_empty;
  prices = λ q k. (k.0, d.prices q k.1);
  without = prefix-IsWithout id (o ∷ os) (flat ls) (flat d.kept) d.without;
}

pub All-without :
    (P : Order → Type 0) (id : ℕ) (os os' : List Order) → IsWithout id os os' → All P os → All P os'
All-without P id os os' w h = rw w.rest (dropped w.before w.behind w.order (rw w.all at h))
  where
    dropped : (xs ys : List Order) (o : Order) → All P (xs ++ (o ∷ ys)) → All P (xs ++ ys)
    dropped [] ys o k = k.1
    dropped (x ∷ xs) ys o k = (k.0, dropped xs ys o k.1)

front-IsRemoved :
    (id p : ℕ) (side : Side) (os os' : List Order) (ls : Levels)
    → IsSide side ((p, os) ∷ ls)
    → NoneEmpty ((p, os) ∷ ls)
    → IsWithout id os os'
    → IsRemoved id side ((p, os) ∷ ls) (some (drop_empty ((p, os') ∷ ls)))
unfolding IsSide drop_empty
front-IsRemoved id p side [] os' ls h f w = absurd f
front-IsRemoved id p side (o ∷ os) [] ls h f w = record {
  kept = ls;
  result = refl;
  side_kept = h.2;
  none_empty = f;
  prices = λ q k. k.1;
  without = suffix-IsWithout id (o ∷ os) [] (flat ls) w;
}
front-IsRemoved id p side (o ∷ os) (o' ∷ os') ls h f w = record {
  kept = (p, o' ∷ os') ∷ ls;
  result = refl;
  side_kept = (All-without _ id (o ∷ os) (o' ∷ os') w h.0, h.1, h.2);
  none_empty = f;
  prices = λ q k. k;
  without = suffix-IsWithout id (o ∷ os) (o' ∷ os') (flat ls) w;
}

IsSide-parts :
    (side : Side) (p : ℕ) (os : List Order) (ls : Levels)
    → IsSide side ((p, os) ∷ ls)
    → All (λ (o : Order). o.price ≡ p) os
      × All (λ (l : ℕ × List Order). precedes side p l.0 ≡ true) ls
unfolding IsSide
IsSide-parts side p os ls h = (All-mono _ _ os (λ o k. k.1) h.0, h.1)

apart_prices : (side : Side) (p q : ℕ) → precedes side p q ≡ true → (p == q) ≡ false
unfolding precedes
apart_prices buy p q h = ground arith
apart_prices sell p q h = ground arith

-- An order that the side holds under its entry is taken out, it alone.
pub remove_from-IsRemoved :
    (id : ℕ) (side : Side) (e : Entry) (ls : Levels)
    → IsSide side ls
    → NoneEmpty ls
    → picks entry_of id (flat ls) ≡ e ∷ []
    → IsRemoved id side ls (remove_from id e.price ls)
unfolding remove_from
remove_from-IsRemoved id side e [] h f k = absurd (unfolded k)
  where
    unfolded : picks entry_of id [] ≡ e ∷ [] → ⊥
    unfolded x = cc (picks_nil id, x)
remove_from-IsRemoved id side e ((p, os) ∷ ls) h f k =
    let both : picks entry_of id os ++ picks entry_of id (flat ls) ≡ e ∷ [] =
      sym (picks-append entry_of id os (flat ls)) ∙ k in
    let (level, behind) = IsSide-parts side p os ls h in
    let tail = IsSide-tail side p os ls h in
    elim (list_cases (picks entry_of id os)) [
      | inl missing ↦
          let there : picks entry_of id (flat ls) ≡ e ∷ [] =
            subst (λ l. l ++ picks entry_of id (flat ls) ≡ e ∷ []) missing both in
          let further : precedes side p e.price ≡ true =
            picks_price (λ q. precedes side p q ≡ true) id (flat ls) e []
              (All-flat (λ q. precedes side p q ≡ true) side ls behind tail) there in
          rw (remove_from, apart_prices side p e.price further)
            (keep-IsRemoved id p side os ls (remove_from id e.price ls) h f
              (remove_from-IsRemoved id side e ls tail (NoneEmpty-tail p os ls f) there))
      | inr (x, xs, found) ↦
          let same : x ≡ e = cc (found, both) in
          let at_price : e.price ≡ p =
            ap (λ (y : Entry). y.price) (sym same)
            ∙ picks_price (λ q. q ≡ p) id os x xs level found in
          let node = erase_node-IsErased id os x xs found in
          rw (remove_from, hit at_price, remove_from, node.result)
            (front-IsRemoved id p side os node.kept ls h f node.without)
    ]
  where
    hit : e.price ≡ p → (p == e.price) ≡ true
    hit h = ground arith
