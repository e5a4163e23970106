-- ===== src/SimulatedBroker/Submitted.antt =====
-- A new order of position_manager.py in simulated_broker.py, under the next identifier.
use flow_manager.Base.{
  ==_iff, All-append, Bool, Bool-cases, Option, Option-cases, String, [], arith, inl, inr, refl,
  some, string_eq, subst, suc, sym, ℕ, ◌++◌, ◌==◌, ◌∙◌, ◌∷◌, ◌≡◌,
}
use flow_manager.Broker.{OrderDetails, TradeConfirmationMessage}
use flow_manager.Dict.{Dict, insert, lookup, lookup-insert}
use flow_manager.Float.{Float}
use flow_manager.Int.{pos, ℤ}
use flow_manager.PositionManager.Contract.{IsGenuine, IsGenuine-add, IsGenuine-answer}
use flow_manager.PositionManager.Tracking.{IsFresh}
use flow_manager.SimulatedBroker.{
  SimulatedBroker, SimulatedOrder, duplicate_rejection, final_confirmation, open_order, simulated,
  submit_order,
}
use flow_manager.SimulatedBroker.Genuine.{IsBacked, IsBacked-mono}
use flow_manager.SimulatedBroker.Orders.{simulated-IsPolite}

module _ (uuid : ℕ → String) (fresh : IsFresh uuid) (issued : ℕ) (live : Dict String OrderDetails)
    (b : SimulatedBroker) (s : String) (n : ℤ) (buying : Bool) (o : OrderDetails)
    (about : o.symbol ≡ s) (h : IsBacked uuid fresh issued live b) where
  abbrev grown : Dict String OrderDetails
  grown = insert (uuid issued) o live

  abbrev Backed : SimulatedBroker → Type 0
  Backed b' = IsBacked uuid fresh (suc issued) grown b'

  abbrev opened : SimulatedOrder
  opened = open_order (pos b.next_broker_order_id) (uuid issued) s n buying

  older : Backed b
  older =
      IsBacked-mono uuid fresh issued (suc issued) live grown b
        (IsGenuine-add simulated (λ x. Unit) simulated-IsPolite uuid fresh issued live o) h

  answer-IsGenuine :
      (c : TradeConfirmationMessage)
      → c.client_order_id ≡ uuid issued
      → c.symbol ≡ s
      → IsGenuine uuid (suc issued) grown c
  answer-IsGenuine c i t =
      IsGenuine-answer simulated (λ x. Unit) simulated-IsPolite uuid fresh issued live o c
        (i, t ∙ sym about)

  -- The rejection of an identifier that is live is genuine.
  rejected-Backed :
      Backed (record b { timers = b.timers ++ duplicate_rejection (uuid issued) s buying ∷ [] })
  unfolding duplicate_rejection
  rejected-Backed = record {
    named = older.named;
    orders = older.orders;
    timers =
        All-append (IsGenuine uuid (suc issued) grown) b.timers
          (duplicate_rejection (uuid issued) s buying ∷ []) older.timers
          (answer-IsGenuine (duplicate_rejection (uuid issued) s buying) refl refl, tt);
  }

  -- So is what the new order will report.
  opened-IsGenuine :
      (j : String) (x : SimulatedOrder)
      → lookup j (insert (uuid issued) opened b.live_orders) ≡ some x
      → IsGenuine uuid (suc issued) grown (final_confirmation x)
  unfolding open_order final_confirmation
  opened-IsGenuine j x g = elim (Bool-cases (uuid issued == j)) [
    | inl hit ↦
        let same : opened ≡ x =
          ground (arith, lookup-insert (uuid issued) j opened b.live_orders) in
        subst (λ (y : SimulatedOrder). IsGenuine uuid (suc issued) grown (final_confirmation y))
          same (answer-IsGenuine (final_confirmation opened) refl refl)
    | inr ne ↦ older.orders j x (ground (arith, lookup-insert (uuid issued) j opened b.live_orders))
  ]

  opened-Backed : Backed (record b {
    next_broker_order_id = suc b.next_broker_order_id;
    live_orders = insert (uuid issued) opened b.live_orders;
  })
  unfolding open_order
  opened-Backed = record {
    named = λ j x g. ground (
      arith,
      lookup-insert (uuid issued) j opened b.live_orders,
      ==_iff (uuid issued) j,
      h.named j x,
    );
    orders = opened-IsGenuine;
    timers = older.timers;
  }

  pub submit_order-IsBacked :
      (type : String) (price : Option Float)
      → Backed (submit_order (uuid issued) s n buying type price b).after
  unfolding submit_order
  submit_order-IsBacked type price = elim (Bool-cases b.has_callback) [
    | inr r ↦
        let f : (submit_order (uuid issued) s n buying type price b).after ≡ b = ground arith in
        subst Backed (sym f) older
    | inl r ↦ elim (Option-cases (lookup (uuid issued) b.live_orders)) [
      | inr (x, e) ↦
          let f : (submit_order (uuid issued) s n buying type price b).after
              ≡ record b { timers = b.timers ++ duplicate_rejection (uuid issued) s buying ∷ [] } =
            ground arith in
          subst Backed (sym f) rejected-Backed
      | inl e ↦
          let f : (submit_order (uuid issued) s n buying type price b).after ≡ record b {
            next_broker_order_id = suc b.next_broker_order_id;
            live_orders = insert (uuid issued) opened b.live_orders;
          } =
            ground arith in
          subst Backed (sym f) opened-Backed
    ]
  ]
