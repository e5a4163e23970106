-- ===== src/OrderBook/Erasing.antt =====
-- One order taken out of a list, for `CancelOrderInternal` of order_book/src/order_book.cpp.
use mathlib.Core.List.{append_assoc}
use flow_manager.Base.{
  All, All-append, All-mono, Bool-cases, List, Option, [], ap, arith, false, inl, inr, nat_eq, refl,
  some, string_eq, subst, sym, ℕ, ◌++◌, ◌==◌, ◌∷◌, ◌≡◌,
}
use flow_manager.OrderBook.{Entry, Levels, Order, Side, entry_of}
use flow_manager.OrderBook.Adding.{erase_node}
use flow_manager.OrderBook.Registered.{flat, picks}
use flow_manager.OrderBook.Sides.{IsSide}

-- One order of the identifier is taken out of a list, and the others stay in their order.
pub record IsWithout (id : ℕ) (os os' : List Order) : Type 0 where
  pub before : List Order
  pub order : Order
  pub behind : List Order
  pub all : os ≡ before ++ (order ∷ behind)
  pub rest : os' ≡ before ++ behind
  pub named : order.order_id ≡ id

-- The node is found.
pub record IsErased (id : ℕ) (os : List Order) (r : Option (List Order)) : Type 0 where
  pub kept : List Order
  pub result : r ≡ some kept
  pub without : IsWithout id os kept

cons-IsWithout :
    (id : ℕ) (o : Order) (os os' : List Order)
    → IsWithout id os os'
    → IsWithout id (o ∷ os) (o ∷ os')
cons-IsWithout id o os os' w = record {
  before = o ∷ w.before;
  order = w.order;
  behind = w.behind;
  all = ap (◌∷◌ o) w.all;
  rest = ap (◌∷◌ o) w.rest;
  named = w.named;
}

pub prefix-IsWithout :
    (id : ℕ) (front os os' : List Order)
    → IsWithout id os os'
    → IsWithout id (front ++ os) (front ++ os')
prefix-IsWithout id [] os os' w = w
prefix-IsWithout id (o ∷ front) os os' w =
    cons-IsWithout id o (front ++ os) (front ++ os') (prefix-IsWithout id front os os' w)

pub suffix-IsWithout :
    (id : ℕ) (os os' back : List Order)
    → IsWithout id os os'
    → IsWithout id (os ++ back) (os' ++ back)
suffix-IsWithout id os os' back w = record {
  before = w.before;
  order = w.order;
  behind = w.behind ++ back;
  all = rw w.all (append_assoc w.before (w.order ∷ w.behind) back);
  rest = rw w.rest (append_assoc w.before w.behind back);
  named = w.named;
}

pub erase_node-IsErased :
    (id : ℕ) (os : List Order) (e : Entry) (es : List Entry)
    → picks entry_of id os ≡ e ∷ es
    → IsErased id os (erase_node id os)
unfolding picks
erase_node-IsErased id [] e es h = cc
erase_node-IsErased id (o ∷ os) e es h = elim (Bool-cases (o.order_id == id)) [
  | inl hit ↦ record {
    kept = os;
    result = unfold erase_node in rw (erase_node, hit);
    without = record {
      before = [];
      order = o;
      behind = os;
      all = refl;
      rest = refl;
      named = ground (arith, hit);
    };
  }
  | inr miss ↦ later miss (erase_node-IsErased id os e es (ground (arith, miss)))
]
  where
    later :
        (o.order_id == id) ≡ false
        → IsErased id os (erase_node id os)
        → IsErased id (o ∷ os) (erase_node id (o ∷ os))
    later miss r = record {
      kept = o ∷ r.kept;
      result = unfold erase_node in rw (erase_node, miss, r.result);
      without = cons-IsWithout id o os r.kept r.without;
    }

pub picks_nil : (id : ℕ) → picks entry_of id [] ≡ []
unfolding picks
picks_nil id = refl

-- The entries of orders have their prices.
pub picks_price :
    (P : ℕ → Type 0) (id : ℕ) (os : List Order) (e : Entry) (es : List Entry)
    → All (λ (o : Order). P o.price) os
    → picks entry_of id os ≡ e ∷ es
    → P e.price
unfolding picks entry_of
picks_price P id [] e es h k = cc
picks_price P id (o ∷ os) e es h k = elim (Bool-cases (o.order_id == id)) [
  | inl hit ↦ subst P (ground (arith, hit)) h.0
  | inr miss ↦ picks_price P id os e es h.1 (ground (arith, miss))
]

pub level_price :
    (P : ℕ → Type 0) (side : Side) (p : ℕ) (os : List Order)
    → P p
    → All (λ (o : Order). (o.side ≡ side) × (o.price ≡ p)) os
    → All (λ (o : Order). P o.price) os
level_price P side p os h = All-mono _ _ os (λ o k. subst P (sym k.1) h)

pub All-flat :
    (P : ℕ → Type 0) (side : Side) (ls : Levels)
    → All (λ (l : ℕ × List Order). P l.0) ls
    → IsSide side ls
    → All (λ (o : Order). P o.price) (flat ls)
unfolding IsSide
All-flat P side [] h k = tt
All-flat P side ((p, os) ∷ ls) h k =
    All-append _ os (flat ls) (level_price P side p os h.0 k.0) (All-flat P side ls h.1 k.2)
