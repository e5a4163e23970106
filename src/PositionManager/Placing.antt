-- ===== src/PositionManager/Placing.antt =====
-- The new order that `_reconcile_positions` of position_manager.py places, in the dicts and in the
-- working position.
use flow_manager.Base.{
  ==_refl, Bool, List, Option, Option-cases, String, [], arith, false, if◌then◌else◌, inl, inr,
  none, refl, some, string_eq, ℕ, ◌++◌, ◌==◌, ◌∷◌, ◌≡◌,
}
use flow_manager.Broker.{BrokerInterface, OrderDetails, is_terminal, signed}
use flow_manager.Dict.{insert, insert-insert, lookup-insert, lookup-insert_self}
use flow_manager.Ids.{count}
use flow_manager.Int.{+ℤ_zero, int_laws, pos, ℤ, ◌+ℤ◌, ◌<ℤ◌}
use flow_manager.PositionManager.{
  PositionManager, calculate_working_position, ids_of, outstanding, position_of, remaining,
}
use flow_manager.PositionManager.Cancelling.{IsConsistent, outstanding_active}
use flow_manager.PositionManager.Orders.{new_order, place_order}
use flow_manager.PositionManager.Tracking.{IsFresh, add-IsTracked}
use flow_manager.PositionManager.Working.{
  committed, committed-append, committed-insert_absent, working-eq-committed,
}

-- The order that is placed makes up for the whole difference.
outstanding-new_order :
    (id s : String) (n : ℤ) (buying : Bool)
    → pos 0 <ℤ n
    → outstanding (some (new_order id s n buying)) ≡ signed n buying
unfolding new_order
outstanding-new_order id s n buying h =
    let whole : remaining (new_order id s n buying) ≡ n =
      unfold remaining new_order in omega int_laws in
    rw (outstanding_active (new_order id s n buying) (unfold is_terminal in refl), whole)
      (ground (arith, h))

-- The answer of the broker to a new order changes its broker's identifier only.
abbrev pub answered : Option ℤ → OrderDetails → OrderDetails
answered none o = o
answered (some b) o = record o { broker_order_id = some b }

outstanding-answered :
    (r : Option ℤ) (o : OrderDetails) → outstanding (some (answered r o)) ≡ outstanding (some o)
unfolding outstanding remaining
outstanding-answered none o = refl
outstanding-answered (some b) o = refl

module _ {B : Type 0} (api : BrokerInterface B) (uuid : ℕ → String) (fresh : IsFresh uuid) where
  -- The order as it stands in `live_orders` after the broker has answered.
  abbrev pub placed : Bool → String → ℤ → PositionManager B → OrderDetails
  placed buying s n p =
      answered (api.submit_order (uuid p.issued) s n buying "MARKET" none p.broker).result
        (new_order (uuid p.issued) s n buying)

  pub live_orders-place_order :
      (buying : Bool) (s : String) (n : ℤ) (p : PositionManager B)
      → (place_order api uuid buying s n p).live_orders
        ≡ insert (uuid p.issued) (placed buying s n p) p.live_orders
  unfolding place_order
  live_orders-place_order buying s n p =
      elim (Option-cases
        (api.submit_order (uuid p.issued) s n buying "MARKET" none p.broker).result) [
          | inl e ↦ rw e
          | inr (b, e) ↦ rw (e, insert-insert)
        ]

  pub placed_symbol :
      (buying : Bool) (s : String) (n : ℤ) (p : PositionManager B)
      → (placed buying s n p).symbol ≡ s
  unfolding new_order
  placed_symbol buying s n p = ground arith

  placed_active :
      (buying : Bool) (s : String) (n : ℤ) (p : PositionManager B)
      → is_terminal (placed buying s n p).status ≡ false
  unfolding new_order is_terminal
  placed_active buying s n p = ground arith

  module _ (buying : Bool) (s : String) (n : ℤ) (p : PositionManager B)
      (t : IsConsistent uuid p) where
    pub place_order-IsConsistent : IsConsistent uuid (place_order api uuid buying s n p)
    unfolding place_order
    place_order-IsConsistent = rw (live_orders-place_order buying s n p) (
        add-IsTracked uuid p.issued p.live_orders p.live_orders_by_symbol t s (placed buying s n p)
          fresh (placed_symbol buying s n p) (placed_active buying s n p))

    pub ids-place_order :
        (r : String)
        → ids_of (place_order api uuid buying s n p) r
          ≡ (if s == r then ids_of p s ++ uuid p.issued ∷ [] else ids_of p r)
    unfolding place_order
    ids-place_order r =
        ground (arith, lookup-insert s r (ids_of p s ++ uuid p.issued ∷ []) p.live_orders_by_symbol)

    pub position-place_order :
        (r : String) → position_of (place_order api uuid buying s n p) r ≡ position_of p r
    unfolding place_order
    position-place_order r = refl

    absent : (r : String) → count (uuid p.issued) (ids_of p r) ≡ 0
    absent r = ground (arith, t.counted r (uuid p.issued), t.unknown p.issued (omega arith))

    committed-place_order :
        (ids : List String)
        → count (uuid p.issued) ids ≡ 0
        → committed (place_order api uuid buying s n p).live_orders ids
          ≡ committed p.live_orders ids
    committed-place_order ids h =
        rw (live_orders-place_order buying s n p)
          (committed-insert_absent p.live_orders (uuid p.issued) (placed buying s n p) ids h)

    committed_new :
        pos 0 <ℤ n
        → committed (place_order api uuid buying s n p).live_orders (uuid p.issued ∷ [])
          ≡ signed n buying
    unfolding committed
    committed_new h =
        rw
          (
            live_orders-place_order buying s n p,
            lookup-insert_self (uuid p.issued) (placed buying s n p) p.live_orders,
            outstanding-answered
                (api.submit_order (uuid p.issued) s n buying "MARKET" none p.broker).result
                (new_order (uuid p.issued) s n buying),
            outstanding-new_order (uuid p.issued) s n buying h,
          )
          (+ℤ_zero (signed n buying))

    -- The order counts in the working position of its symbol.
    pub working-place_order :
        pos 0 <ℤ n
        → calculate_working_position (place_order api uuid buying s n p) s
          ≡ calculate_working_position p s +ℤ signed n buying
    working-place_order h =
        rw
          (
            working-eq-committed (place_order api uuid buying s n p) s,
            working-eq-committed p s,
            position-place_order s,
            ids-place_order s,
            ==_refl s,
            committed-append (place_order api uuid buying s n p).live_orders (ids_of p s)
                (uuid p.issued ∷ []),
            committed-place_order (ids_of p s) (absent s),
            committed_new h,
          )
          (omega int_laws)

    -- It counts nowhere else.
    pub working-place_order_ne :
        (r : String)
        → (s == r) ≡ false
        → calculate_working_position (place_order api uuid buying s n p) r
          ≡ calculate_working_position p r
    working-place_order_ne r h = rw (
      working-eq-committed (place_order api uuid buying s n p) r,
      working-eq-committed p r,
      position-place_order r,
      ids-place_order r,
      h,
      committed-place_order (ids_of p r) (absent r),
    )
