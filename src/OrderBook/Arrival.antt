-- ===== src/OrderBook/Arrival.antt =====
-- The arrival of a new order on the book of order_book/src/order_book.cpp, before it is matched.
use mathlib.Core.List.{append_assoc, append-nil}
use flow_manager.Base.{
  All, All-mono, List, [], ap, arith, inl, inr, nat_eq, none, refl, string_eq, ℕ, ◌++◌, ◌<◌, ◌∙◌,
  ◌∷◌, ◌≡◌,
}
use flow_manager.Dict.{Dict, insert, lookup, lookup-insert}
use flow_manager.OrderBook.{Entry, Levels, Order, Side, add_to_level, entry_of}
use flow_manager.OrderBook.Books.{picks_without}
use flow_manager.OrderBook.Erasing.{IsWithout}
use flow_manager.OrderBook.Kept.{Crosses, Pairs}
use flow_manager.OrderBook.Registered.{IsHeld, IsRegistered, flat, picks, to_list}
use flow_manager.OrderBook.Sides.{add_to_level-flat}

-- Without the new order a side is what it was.
pub add_to_level-IsWithout :
    (side : Side) (o : Order) (ls : Levels)
    → IsWithout o.order_id (flat (add_to_level side o ls)) (flat ls)
add_to_level-IsWithout side o ls =
    let (xs, ys, e, f) = add_to_level-flat side o ls in
    record { before = xs; order = o; behind = ys; all = f; rest = e; named = refl }

-- That it is the new order which is taken out.
pub add_to_level_order :
    (side : Side) (o : Order) (ls : Levels) → (add_to_level-IsWithout side o ls).order ≡ o
unfolding add_to_level-IsWithout
add_to_level_order side o ls = refl

All-with :
    (P : Order → Type 0) (id : ℕ) (os os' : List Order) (w : IsWithout id os os')
    → P w.order
    → All P os'
    → All P os
All-with P id os os' w h k = rw w.all (inserted w.before w.behind w.order h (rw w.rest at k))
  where
    inserted : (xs ys : List Order) (o : Order) → P o → All P (xs ++ ys) → All P (xs ++ (o ∷ ys))
    inserted [] ys o h k = (h, k)
    inserted (x ∷ xs) ys o h k = (k.0, inserted xs ys o h k.1)

pub All-every {ℓ} : {A : Type ℓ} (P : A → Type 0) (xs : List A) → ((x : A) → P x) → All P xs
All-every P [] h = tt
All-every P (x ∷ xs) h = (h x, All-every P xs h)

pub picks_none :
    {A C : Type 0} (f : Order → A) (g : Order → C) (id : ℕ) (os : List Order)
    → picks f id os ≡ []
    → picks g id os ≡ []
unfolding picks
picks_none f g id [] h = refl
picks_none f g id (o ∷ os) h = ground (arith, picks_none f g id os)

pub both_nil : {A : Type 0} (xs ys : List A) → xs ++ ys ≡ [] → (xs ≡ []) × (ys ≡ [])
both_nil [] ys h = (refl, h)
both_nil (x ∷ xs) ys h = cc

-- Two lists of the sides of a book, of which the first has lost an order, the new one.
module _ (o : Order) (with_o others other_side : List Order) (entries : Dict ℕ Entry)
    (w : IsWithout o.order_id with_o others) (is_o : w.order ≡ o)
    (unused : lookup o.order_id entries ≡ none) where
  pub with_bid-IsRegistered :
      IsRegistered others other_side entries
      → IsRegistered with_o other_side (insert o.order_id (entry_of o) entries)
  unfolding IsRegistered
  with_bid-IsRegistered h k =
      let (whole, part) = picks_without entry_of o.order_id k with_o others w in
      let xs = picks entry_of k w.before in
      let ys = picks entry_of k w.behind in
      let zs = picks entry_of k other_side in
      ground (
        arith,
        whole,
        part,
        h k,
        is_o,
        unused,
        lookup-insert o.order_id k (entry_of o) entries,
        append_assoc xs ys zs,
        append_assoc xs (entry_of w.order ∷ ys) zs,
        both_nil xs (ys ++ zs),
        both_nil ys zs,
      )

  pub with_ask-IsRegistered :
      IsRegistered other_side others entries
      → IsRegistered other_side with_o (insert o.order_id (entry_of o) entries)
  unfolding IsRegistered
  with_ask-IsRegistered h k =
      let (whole, part) = picks_without entry_of o.order_id k with_o others w in
      let xs = picks entry_of k w.before in
      let ys = picks entry_of k w.behind in
      let zs = picks entry_of k other_side in
      ground (
        arith,
        whole,
        part,
        h k,
        is_o,
        unused,
        lookup-insert o.order_id k (entry_of o) entries,
        both_nil zs (xs ++ ys),
        both_nil xs ys,
        append-nil zs,
      )

  -- The only order of the new identifier is the new order.
  found_alone : picks entry_of o.order_id others ≡ [] → picks (λ x. x) o.order_id with_o ≡ o ∷ []
  found_alone h =
      let (whole, part) = picks_without (λ x. x) o.order_id o.order_id with_o others w in
      let gone = picks_none entry_of (λ (x : Order). x) o.order_id others h in
      let xs = picks (λ (x : Order). x) o.order_id w.before in
      let ys = picks (λ (x : Order). x) o.order_id w.behind in
      ground (arith, whole, part, gone, is_o, both_nil xs ys)

  pub with_bid-IsHeld :
      IsRegistered others other_side entries → IsHeld o.order_id o.order_type with_o other_side o
  unfolding IsRegistered
  with_bid-IsHeld h =
      let none_ =
        both_nil (picks entry_of o.order_id others) (picks entry_of o.order_id other_side)
          (h o.order_id ∙ ap to_list unused) in
      record {
        named = refl;
        typed = refl;
        place = inl (
            rw
              (
                found_alone none_.0,
                picks_none entry_of (λ (x : Order). x) o.order_id other_side none_.1,
              )
              refl);
      }

  pub with_ask-IsHeld :
      IsRegistered other_side others entries → IsHeld o.order_id o.order_type other_side with_o o
  unfolding IsRegistered
  with_ask-IsHeld h =
      let none_ =
        both_nil (picks entry_of o.order_id other_side) (picks entry_of o.order_id others)
          (h o.order_id ∙ ap to_list unused) in
      record {
        named = refl;
        typed = refl;
        place = inl (
            rw
              (
                found_alone none_.1,
                picks_none entry_of (λ (x : Order). x) o.order_id other_side none_.0,
              )
              refl);
      }

  pub with_bid-Pairs :
      Pairs (λ b a. b.price < a.price) others other_side
      → Pairs (Crosses o.order_id) with_o other_side
  with_bid-Pairs h =
      All-with (λ b. All (Crosses o.order_id b) other_side) o.order_id with_o others w
        (All-every _ other_side (λ a _. inl (ap (λ (x : Order). x.order_id) is_o)))
        (All-mono _ _ others
          (λ b. All-mono _ _ other_side (λ a apart c. absurd (omega (arith, apart, c)))) h)

  pub with_ask-Pairs :
      Pairs (λ b a. b.price < a.price) other_side others
      → Pairs (Crosses o.order_id) other_side with_o
  with_ask-Pairs h =
      All-mono _ _ other_side
        (λ b apart.
          All-with (Crosses o.order_id b) o.order_id with_o others w
            (λ _. inr (ap (λ (x : Order). x.order_id) is_o))
            (All-mono _ _ others (λ a far c. absurd (omega (arith, far, c))) apart))
        h
