-- ===== src/PositionManager/Fills.antt =====
-- What a confirmation does to the working position of position_manager.py.
use flow_manager.Base.{
  ==_iff, ==_refl, String, arith, false, if◌then◌else◌, some, string_eq, subst, ℕ, ◌==◌, ◌≡◌,
}
use flow_manager.Broker.{OrderDetails, TradeConfirmationMessage, is_terminal, signed}
use flow_manager.Dict.{erase, insert, lookup}
use flow_manager.Ids.{contains_of_count, count, count-remove_self, remove}
use flow_manager.Int.{int_laws, parts, pos, ℤ, ◌+ℤ◌}
use flow_manager.PositionManager.{
  PositionManager, booked, calculate_working_position, filled_by, ids_of, outstanding, position_of,
  process_confirmation, untrack,
}
use flow_manager.PositionManager.Cancelling.{IsConsistent}
use flow_manager.PositionManager.Confirmations.{lookup-add_to, process_confirmation_cases}
use flow_manager.PositionManager.Tracking.{ids_under, lookup-untrack}
use flow_manager.PositionManager.Working.{
  committed, committed-erase_absent, committed-insert_absent, committed-insert_once,
  committed-remove, working-eq-committed,
}

-- What the order still counts for after the confirmation.
abbrev pub left : TradeConfirmationMessage → OrderDetails → ℤ
left conf o = if is_terminal conf.status then pos 0 else outstanding (some (filled_by conf o))

module _ {B : Type 0} (uuid : ℕ → String) (conf : TradeConfirmationMessage) (p : PositionManager B)
    (t : IsConsistent uuid p) (o : OrderDetails)
    (known : lookup conf.client_order_id p.live_orders ≡ some o)
    (same : o.symbol ≡ conf.symbol) where
  listed_once : count conf.client_order_id (ids_of p conf.symbol) ≡ 1
  listed_once =
      ground (arith, t.counted conf.symbol conf.client_order_id, ==_iff o.symbol conf.symbol)

  listed_nowhere :
      (r : String) → (conf.symbol == r) ≡ false → count conf.client_order_id (ids_of p r) ≡ 0
  listed_nowhere r h =
      ground (arith, t.counted r conf.client_order_id, ==_iff o.symbol r, ==_iff conf.symbol r)

  ids-untrack :
      (r : String)
      → ids_under (untrack conf.symbol conf.client_order_id p.live_orders_by_symbol) r ≡ (
          if conf.symbol == r
          then remove conf.client_order_id (ids_of p conf.symbol)
          else ids_of p r)
  ids-untrack r =
      lookup-untrack uuid p.issued p.live_orders p.live_orders_by_symbol t conf.symbol r
        conf.client_order_id (omega (arith, listed_once))

  -- The orders of the symbol, after the confirmation.
  committed_over :
      committed
          (erase conf.client_order_id p.live_orders)
          (remove conf.client_order_id (ids_of p conf.symbol))
        +ℤ outstanding (some o)
      ≡ committed p.live_orders (ids_of p conf.symbol)
  committed_over =
      let there =
        contains_of_count conf.client_order_id (ids_of p conf.symbol)
          (omega (arith, listed_once)) in
      let gone : count conf.client_order_id (remove conf.client_order_id (ids_of p conf.symbol))
          ≡ 0 =
        omega (
          arith,
          listed_once,
          count-remove_self conf.client_order_id (ids_of p conf.symbol) there,
        ) in
      rw
        (
          committed-erase_absent p.live_orders conf.client_order_id
              (remove conf.client_order_id (ids_of p conf.symbol)) gone,
          ← known,
        )
        (committed-remove p.live_orders conf.client_order_id (ids_of p conf.symbol) there)

  committed_partial :
      committed
          (insert conf.client_order_id (filled_by conf o) p.live_orders)
          (ids_of p conf.symbol)
        +ℤ outstanding (some o)
      ≡ committed p.live_orders (ids_of p conf.symbol) +ℤ outstanding (some (filled_by conf o))
  committed_partial =
      subst
        (λ x.
          committed (insert conf.client_order_id (filled_by conf o) p.live_orders)
              (ids_of p conf.symbol)
            +ℤ outstanding x
          ≡ committed p.live_orders (ids_of p conf.symbol) +ℤ outstanding (some (filled_by conf o)))
        known
        (committed-insert_once p.live_orders conf.client_order_id (filled_by conf o)
          (ids_of p conf.symbol) listed_once)

  booked_position :
      (r : String)
      → position_of (booked conf p) r
        ≡ position_of p r
          +ℤ (if conf.symbol == r then signed conf.filled_quantity conf.side_is_buy else pos 0)
  booked_position r =
      lookup-add_to conf.symbol r (signed conf.filled_quantity conf.side_is_buy) p.positions

  pub working-process_confirmation :
      calculate_working_position (process_confirmation conf p) conf.symbol +ℤ outstanding (some o)
      ≡ calculate_working_position p conf.symbol
        +ℤ signed conf.filled_quantity conf.side_is_buy
        +ℤ left conf o
  working-process_confirmation =
      process_confirmation_cases
        (λ q.
          calculate_working_position q conf.symbol +ℤ outstanding (some o)
          ≡ calculate_working_position p conf.symbol
            +ℤ signed conf.filled_quantity conf.side_is_buy
            +ℤ left conf o)
        conf p (λ e. absurd (cc))
        (λ x e h.
          rw
            (
              h,
              working-eq-committed _ conf.symbol,
              working-eq-committed p conf.symbol,
              booked_position conf.symbol,
              ids-untrack conf.symbol,
              ==_refl conf.symbol,
            )
            (omega (int_laws, parts committed_over)))
        (λ x e h.
          let f : x ≡ o = cc in
          rw
            (
              f,
              h,
              working-eq-committed _ conf.symbol,
              working-eq-committed p conf.symbol,
              booked_position conf.symbol,
              ==_refl conf.symbol,
            )
            (omega (int_laws, parts committed_partial)))

  pub working-process_confirmation_ne :
      (r : String)
      → (conf.symbol == r) ≡ false
      → calculate_working_position (process_confirmation conf p) r ≡ calculate_working_position p r
  working-process_confirmation_ne r h =
      process_confirmation_cases
        (λ q. calculate_working_position q r ≡ calculate_working_position p r) conf p
        (λ e. absurd (cc))
        (λ x e end.
          rw
            (
              working-eq-committed _ r,
              working-eq-committed p r,
              booked_position r,
              ids-untrack r,
              h,
              committed-erase_absent p.live_orders conf.client_order_id (ids_of p r)
                  (listed_nowhere r h),
            )
            (omega int_laws))
        (λ x e go.
          rw
            (
              working-eq-committed _ r,
              working-eq-committed p r,
              booked_position r,
              h,
              committed-insert_absent p.live_orders conf.client_order_id (filled_by conf x)
                  (ids_of p r) (listed_nowhere r h),
            )
            (omega int_laws))
