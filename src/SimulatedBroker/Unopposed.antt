-- ===== src/SimulatedBroker/Unopposed.antt =====
-- New orders of position_manager.py when no order is live: nothing is cancelled, and each new order
-- is open in the broker of simulated_broker.py as it was sent.
use mathlib.Core.List.{append-nil}
use flow_manager.Base.{
  ==_iff, All, Bool, Bool-cases, String, [], ap, arith, false, if◌then◌else◌, inl, inr, none, refl,
  some, string_eq, subst, suc, sym, true, ℕ, ◌++◌, ◌==◌, ◌∙◌, ◌≡◌, ◌≤◌,
}
use flow_manager.Broker.{OrderDetails}
use flow_manager.Dict.{Dict, insert, lookup, lookup-insert, lookup-insert_self}
use flow_manager.Int.{int_laws, pos, ℤ, ◌<ℤ◌}
use flow_manager.PositionManager.{PositionManager}
use flow_manager.PositionManager.Cancelling.{IsConsistent}
use flow_manager.PositionManager.Orders.{new_order, place_order}
use flow_manager.PositionManager.Placing.{
  answered, live_orders-place_order, place_order-IsConsistent,
}
use flow_manager.PositionManager.Tracking.{IsFresh}
use flow_manager.SimulatedBroker.{
  SimulatedBroker, SimulatedOrder, open_order, simulated, submit_order,
}
use flow_manager.SimulatedBroker.Filling.{AllApart, IsFilling, IsFull, IsMirrored, is_about}

-- Beside what the threads fill, the queue is read and every later identifier is free.
pub record IsUnopposed (uuid : ℕ → String) (p : PositionManager SimulatedBroker) : Type 0 where
  pub filling : IsFilling p
  pub nothing_queued : p.trade_confirmations_q ≡ []
  pub nothing_pending : p.target_updates_q ≡ []
  pub consistent : IsConsistent uuid p
  pub free : (i : ℕ) → p.issued ≤ i → lookup (uuid i) p.broker.live_orders ≡ none

grow-IsMirrored :
    (live : Dict String OrderDetails) (id j : String) (o : SimulatedOrder) (new_one : OrderDetails)
    → (id == j) ≡ false
    → IsMirrored live j o
    → IsMirrored (insert id new_one live) j o
grow-IsMirrored live id j o new_one apart m = record {
  order = m.order;
  known = rw (lookup-insert id j new_one live, apart) m.known;
  named = m.named;
  symbol = m.symbol;
  side = m.side;
  quantity = m.quantity;
  unfilled = m.unfilled;
  within_ = m.within_;
  kept = m.kept;
}

-- What the broker opens is what the position manager has sent.
open-IsMirrored :
    (live : Dict String OrderDetails) (id s : String) (n broker_id : ℤ) (buying : Bool)
    → pos 0 <ℤ n
    → IsMirrored
        (insert id (answered (some broker_id) (new_order id s n buying)) live)
        id
        (open_order broker_id id s n buying)
unfolding new_order open_order
open-IsMirrored live id s n broker_id buying h = record {
  order = answered (some broker_id) (new_order id s n buying);
  known = lookup-insert_self id (answered (some broker_id) (new_order id s n buying)) live;
  named = refl;
  symbol = refl;
  side = refl;
  quantity = refl;
  unfilled = refl;
  within_ = (omega int_laws, omega int_laws);
  kept = refl;
}

-- A submission under a free identifier.
abbrev accepts_new : String → String → ℤ → Bool → SimulatedBroker → SimulatedBroker
accepts_new id s n buying b = record b {
  next_broker_order_id = suc b.next_broker_order_id;
  live_orders = insert id (open_order (pos b.next_broker_order_id) id s n buying) b.live_orders;
}

submit_new :
    (id s : String) (n : ℤ) (buying : Bool) (b : SimulatedBroker)
    → b.has_callback ≡ true
    → lookup id b.live_orders ≡ none
    → submit_order id s n buying "MARKET" none b ≡ record {
      result = some (pos b.next_broker_order_id);
      confirmations = [];
      after = accepts_new id s n buying b;
    }
unfolding submit_order
submit_new id s n buying b c e = ground arith

module _ (uuid : ℕ → String) (fresh : IsFresh uuid) (buying : Bool) (s : String) (n : ℤ)
    (p : PositionManager SimulatedBroker) (large : pos 0 <ℤ n) (h : IsUnopposed uuid p) where
  abbrev new_id : String
  new_id = uuid p.issued

  abbrev after_order : PositionManager SimulatedBroker
  after_order = place_order simulated uuid buying s n p

  abbrev opened : SimulatedOrder
  opened = open_order (pos p.broker.next_broker_order_id) new_id s n buying

  abbrev sent : OrderDetails
  sent = answered (some (pos p.broker.next_broker_order_id)) (new_order new_id s n buying)

  answer_ : submit_order new_id s n buying "MARKET" none p.broker ≡ record {
    result = some (pos p.broker.next_broker_order_id);
    confirmations = [];
    after = accepts_new new_id s n buying p.broker;
  }
  answer_ = submit_new new_id s n buying p.broker h.filling.callback (h.free p.issued (omega arith))

  broker_after : after_order.broker ≡ accepts_new new_id s n buying p.broker
  unfolding place_order
  broker_after = ap (λ r. r.after) answer_

  queue_after : after_order.trade_confirmations_q ≡ []
  unfolding place_order
  queue_after =
      ap (λ r. p.trade_confirmations_q ++ r.confirmations) answer_
      ∙ append-nil p.trade_confirmations_q
      ∙ h.nothing_queued

  live_after : after_order.live_orders ≡ insert new_id sent p.live_orders
  live_after =
      live_orders-place_order simulated uuid fresh buying s n p
      ∙ ap (λ r. insert new_id (answered r.result (new_order new_id s n buying)) p.live_orders)
          answer_

  threads_after :
      (j : String)
      → lookup j after_order.broker.live_orders
        ≡ (if new_id == j then some opened else lookup j p.broker.live_orders)
  threads_after j =
      ap (λ b. lookup j b.live_orders) broker_after
      ∙ lookup-insert new_id j opened p.broker.live_orders

  after_order-IsMirrored :
      (j : String) (x : SimulatedOrder)
      → lookup j after_order.broker.live_orders ≡ some x
      → IsMirrored after_order.live_orders j x
  after_order-IsMirrored j x f =
      subst (λ live. IsMirrored live j x) (sym live_after)
        (elim (Bool-cases (new_id == j)) [
          | inl hit ↦
              let same : opened ≡ x = ground (arith, f, hit, threads_after j) in
              subst (IsMirrored (insert new_id sent p.live_orders) j) same (
                subst (λ k. IsMirrored (insert new_id sent p.live_orders) k opened)
                  ((==_iff new_id j).0 hit)
                  (open-IsMirrored p.live_orders new_id s n (pos p.broker.next_broker_order_id)
                    buying large))
          | inr miss ↦
              grow-IsMirrored p.live_orders new_id j x sent miss
                (h.filling.mirrored j x (ground (arith, f, miss, threads_after j)))
        ])

  pub place_order-IsUnopposed : IsUnopposed uuid after_order
  unfolding is_about AllApart place_order
  place_order-IsUnopposed = record {
    filling = record {
      callback = ap (λ b. b.has_callback) broker_after ∙ h.filling.callback;
      no_timers = ap (λ b. b.timers) broker_after ∙ h.filling.no_timers;
      mirrored = after_order-IsMirrored;
      full = subst (All (IsFull after_order.live_orders)) (sym queue_after) tt;
      apart = subst AllApart (sym queue_after) tt;
      done_once = λ j f. absurd (ground (arith, f, ap (is_about j) queue_after));
    };
    nothing_queued = queue_after;
    nothing_pending = h.nothing_pending;
    consistent = place_order-IsConsistent simulated uuid fresh buying s n p h.consistent;
    free = λ i k. ground (
      arith,
      threads_after (uuid i),
      h.free i (omega (arith, k)),
      ==_iff new_id (uuid i),
      fresh p.issued i,
    );
  }
