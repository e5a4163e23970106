-- ===== src/OrderBook/Sides.antt =====
-- The sides of order_book/src/order_book.cpp: what the two maps of levels keep.
use mathlib.Core.List.{append_assoc}
use flow_manager.Base.{
  All, All-append, All-mono, Bool-cases, List, [], arith, false, inl, inr, nat_eq, refl, string_eq,
  sym, true, ℕ, ◌++◌, ◌==◌, ◌∷◌, ◌≡◌,
}
use flow_manager.OrderBook.{Levels, Order, Side, add_to_level, buy, precedes, sell}
use flow_manager.OrderBook.Loops.{NoneEmpty, filled_by_trade}
use flow_manager.OrderBook.Matching.{keep}
use flow_manager.OrderBook.Registered.{flat}

-- Levels stand in the order of the map's keys, and each order at its side and price.
unfoldable pub IsSide : Side → Levels → Type 0
IsSide side [] = Unit
IsSide side ((p, os) ∷ ls) =
    All (λ (o : Order). (o.side ≡ side) × (o.price ≡ p)) os
    × All (λ (l : ℕ × List Order). precedes side p l.0 ≡ true) ls
    × IsSide side ls

precedes_trans :
    (side : Side) (p q r : ℕ)
    → precedes side p q ≡ true
    → precedes side q r ≡ true
    → precedes side p r ≡ true
unfolding precedes
precedes_trans buy p q r h k = ground arith
precedes_trans sell p q r h k = ground arith

precedes_total :
    (side : Side) (p q : ℕ)
    → (p == q) ≡ false
    → precedes side q p ≡ false
    → precedes side p q ≡ true
unfolding precedes
precedes_total buy p q h k = ground arith
precedes_total sell p q h k = ground arith

pub precedes_irrefl : (side : Side) (p : ℕ) → precedes side p p ≡ false
unfolding precedes
precedes_irrefl buy p = ground arith
precedes_irrefl sell p = ground arith

pub IsSide-keep :
    (side : Side) (n p : ℕ) (o : Order) (os : List Order) (ls : Levels)
    → IsSide side ((p, o ∷ os) ∷ ls)
    → IsSide side ((p, keep (filled_by_trade n o) os) ∷ ls)
unfolding IsSide keep filled_by_trade
IsSide-keep side n p o os ls h = ground arith

pub IsSide-tail :
    (side : Side) (p : ℕ) (os : List Order) (ls : Levels)
    → IsSide side ((p, os) ∷ ls)
    → IsSide side ls
unfolding IsSide
IsSide-tail side p os ls h = h.2

All-add_to_level :
    (side : Side) (P : ℕ → Type 0) (o : Order) (ls : Levels)
    → P o.price
    → All (λ (l : ℕ × List Order). P l.0) ls
    → All (λ (l : ℕ × List Order). P l.0) (add_to_level side o ls)
unfolding add_to_level
All-add_to_level side P o [] h k = (h, tt)
All-add_to_level side P o ((p, os) ∷ ls) h k = ground (arith, All-add_to_level side P o ls h k.1)

pub add_to_level-IsSide :
    (side : Side) (o : Order) (ls : Levels)
    → o.side ≡ side
    → IsSide side ls
    → IsSide side (add_to_level side o ls)
unfolding IsSide add_to_level
add_to_level-IsSide side o [] e h = (((e, refl), tt), tt, tt)
add_to_level-IsSide side o ((p, os) ∷ ls) e h = elim (Bool-cases (p == o.price)) [
  | inl hit ↦
      rw (add_to_level, hit)
        (
          All-append (λ (x : Order). (x.side ≡ side) × (x.price ≡ p)) os (o ∷ []) h.0
              ((e, ground (arith, hit)), tt),
          h.1,
          h.2,
        )
  | inr miss ↦ elim (Bool-cases (precedes side o.price p)) [
    | inl first ↦
        rw (add_to_level, miss, first)
          (
            ((e, refl), tt),
            (first, All-mono _ _ ls (λ l. precedes_trans side o.price p l.0 first) h.1),
            h,
          )
    | inr later ↦
        rw (add_to_level, miss, later)
          (
            h.0,
            All-add_to_level side (λ q. precedes side p q ≡ true) o ls
                (precedes_total side p o.price miss later) h.1,
            add_to_level-IsSide side o ls e h.2,
          )
  ]
]

pub add_to_level-NoneEmpty :
    (side : Side) (o : Order) (ls : Levels) → NoneEmpty ls → NoneEmpty (add_to_level side o ls)
unfolding add_to_level
add_to_level-NoneEmpty side o [] h = tt
add_to_level-NoneEmpty side o ((p, []) ∷ ls) h = absurd h
add_to_level-NoneEmpty side o ((p, x ∷ os) ∷ ls) h =
    ground (arith, add_to_level-NoneEmpty side o ls h)

-- The new order stands somewhere among the others.
pub add_to_level-flat :
    (side : Side) (o : Order) (ls : Levels)
    → (xs : List Order) × (ys : List Order) × (flat ls ≡ xs ++ ys)
      × (flat (add_to_level side o ls) ≡ xs ++ (o ∷ ys))
unfolding add_to_level
add_to_level-flat side o [] = ([], [], refl, refl)
add_to_level-flat side o ((p, os) ∷ ls) = elim (Bool-cases (p == o.price)) [
  | inl hit ↦ (os, flat ls, refl, rw (add_to_level, hit) (append_assoc os (o ∷ []) (flat ls)))
  | inr miss ↦ elim (Bool-cases (precedes side o.price p)) [
    | inl first ↦ ([], os ++ flat ls, refl, rw (add_to_level, miss, first))
    | inr later ↦
        let (xs, ys, e, f) = add_to_level-flat side o ls in
        (
          os ++ xs,
          ys,
          rw e (sym (append_assoc os xs ys)),
          rw (add_to_level, miss, later, f) (sym (append_assoc os xs (o ∷ ys))),
        )
  ]
]
