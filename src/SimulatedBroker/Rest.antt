-- ===== src/SimulatedBroker/Rest.antt =====
-- The position manager of position_manager.py at rest with the broker of simulated_broker.py: what
-- is left when the threads, the timers and the queues have run to their end.
use flow_manager.Base.{
  ==_iff, ==_refl, Bool, Bool-cases, List, Option-cases, String, [], ap, arith, false, inl, inr,
  list_cases, none, refl, some, string_eq, subst, sym, true, ℕ, ◌==◌, ◌||◌, ◌∙◌, ◌≡◌,
}
use flow_manager.Broker.{OrderDetails, TradeConfirmationMessage}
use flow_manager.Dict.{lookup, lookup-empty, lookup-insert}
use flow_manager.Ids.{count, set_union}
use flow_manager.Int.{ℤ}
use flow_manager.PositionManager.{
  PositionManager, ids_of, init, position_of, process_all, process_target_updates,
  process_trade_confirmations, target_of, terminate, update_target_position,
}
use flow_manager.PositionManager.Cancelling.{IsConsistent, cancel_live_order_cases}
use flow_manager.PositionManager.Confirmations.{is_named}
use flow_manager.PositionManager.Endings.{
  is_ended, is_ended-append, process_all-none, process_all_over,
}
use flow_manager.PositionManager.Orders.{cancel_live_order, cycle, marked, place_order}
use flow_manager.PositionManager.Placing.{live_orders-place_order, placed}
use flow_manager.PositionManager.Preserving.{reconcile_positions_keeps}
use flow_manager.PositionManager.Reading.{process_all_keeps}
use flow_manager.PositionManager.Targets.{is_updated, process_target_updates_lem}
use flow_manager.PositionManager.Tracking.{IsFresh}
use flow_manager.SimulatedBroker.{
  SimulatedBroker, SimulatedOrder, cancel_order, fire_timer, simulated, submit_order, thread_step,
}
use flow_manager.SimulatedBroker.Coverage.{
  AllHeld, Keeps, cancel_order-Keeps, fire_timer-Keeps, has_thread, is_live, submit_order-Keeps,
  submit_order_callback, thread_step-Keeps, thread_step_callback,
}
use flow_manager.SimulatedBroker.Trading.{
  Running, Running-keeps, deliver, given_target, looped, opened, simulated_at_target, timer_fired,
  told_to_end, worked,
}

-- As long as the broker has its callback, no order is lost.
abbrev pub HasAll : PositionManager SimulatedBroker → Type 0
HasAll p = p.broker.has_callback ≡ true → AllHeld p

is_live-none :
    {B : Type 0} (id : String) (p : PositionManager B)
    → lookup id p.live_orders ≡ none
    → is_live id p ≡ false
unfolding is_live
is_live-none id p e = rw (is_live, e) refl

-- A list of confirmations that has been read holds the end of no live order.
process_all-is_live :
    {B : Type 0} (q : List TradeConfirmationMessage) (affected : List String)
    (p : PositionManager B) (id : String)
    → is_live id (process_all q affected p).1 ≡ true
    → (is_live id p ≡ true) × (is_ended id q ≡ false)
process_all-is_live q affected p id h =
    let after : PositionManager _ = (process_all q affected p).1 in
    (
      elim (Option-cases (lookup id p.live_orders)) [
        | inl e ↦
            absurd (ground (arith, h, is_live-none id after (process_all-none q affected p id e)))
        | inr (o, e) ↦ unfold is_live in rw (is_live, e) refl
      ],
      elim (Bool-cases (is_ended id q)) [
        | inl e ↦
            absurd (ground (arith, h, is_live-none id after (process_all_over q affected p id e)))
        | inr e ↦ e
      ],
    )

-- What comes from the broker and its threads keeps all orders.
deliver-AllHeld :
    (confirmed : List TradeConfirmationMessage) (b : SimulatedBroker)
    (p : PositionManager SimulatedBroker)
    → Keeps p.broker confirmed b
    → AllHeld p
    → AllHeld (deliver (confirmed, b) p)
unfolding deliver is_live is_ended
deliver-AllHeld confirmed b p k h id live =
    ground (arith, h id live, k.held id, is_ended-append id p.trade_confirmations_q confirmed)

module _ (uuid : ℕ → String) (fresh : IsFresh uuid) where
  cancels_AllHeld :
      (buying : Bool) (id : String) (p : PositionManager SimulatedBroker)
      → HasAll p
      → HasAll (cancel_live_order simulated uuid buying id p)
  unfolding is_live deliver
  cancels_AllHeld buying id p h =
      let r = cancel_order id p.broker in
      let k = cancel_order-Keeps id p.broker in
      let kept : r.after.has_callback ≡ true → AllHeld (deliver (r.confirmations, r.after) p) =
        λ c. deliver-AllHeld r.confirmations r.after p k (h (sym k.callback ∙ c)) in
      cancel_live_order_cases simulated uuid buying HasAll id p h kept (λ o e open_ c j live.
        kept c j (ground (arith, live, lookup-insert id j (marked o) p.live_orders, ==_iff id j)))

  places_AllHeld :
      (buying : Bool) (s : String) (n : ℤ) (p : PositionManager SimulatedBroker)
      → HasAll p
      → HasAll (place_order simulated uuid buying s n p)
  unfolding place_order is_live deliver
  places_AllHeld buying s n p h c j live =
      let id = uuid p.issued in
      let r = submit_order id s n buying "MARKET" none p.broker in
      let before : p.broker.has_callback ≡ true =
        sym (submit_order_callback id s "MARKET" n buying none p.broker) ∙ c in
      let (k, known) = submit_order-Keeps id s "MARKET" n buying none p.broker before in
      let kept = deliver-AllHeld r.confirmations r.after p k (h before) j in
      elim (Bool-cases (uuid p.issued == j)) [
        | inl hit ↦
            let same : uuid p.issued ≡ j = (==_iff (uuid p.issued) j).0 hit in
            ground (arith, subst (λ i. has_thread i r.after ≡ true) same known)
        | inr miss ↦ kept (
            ground (
              arith,
              live,
              live_orders-place_order simulated uuid fresh buying s n p,
              lookup-insert (uuid p.issued) j (placed simulated uuid fresh buying s n p)
                  p.live_orders,
            ))
      ]

  cycle-AllHeld : (p : PositionManager SimulatedBroker) → HasAll p → HasAll (cycle simulated uuid p)
  unfolding cycle process_trade_confirmations is_live is_ended
  cycle-AllHeld p h =
      let unread : PositionManager SimulatedBroker = record p { trade_confirmations_q = [] } in
      let taken = (process_all p.trade_confirmations_q [] unread).1 in
      let keeps = process_all_keeps p.trade_confirmations_q [] unread in
      reconcile_positions_keeps simulated uuid HasAll cancels_AllHeld places_AllHeld
        (set_union (process_all p.trade_confirmations_q [] unread).0
          (process_target_updates taken).0)
        (process_target_updates taken).1
        (subst HasAll (sym (process_target_updates_lem taken "").2) (
          rw (keeps.0, keeps.2)
            (λ c id live.
              let (before, open_) = process_all-is_live p.trade_confirmations_q [] unread id live in
              ground (arith, h c id before, open_))))

  Running-AllHeld : {p : PositionManager SimulatedBroker} → Running uuid fresh p → HasAll p
  unfolding update_target_position terminate is_live deliver init
  Running-AllHeld (opened b e f) =
      λ c id live. absurd (ground (arith, live, lookup-empty {V = OrderDetails} id))
  Running-AllHeld (given_target {p} s n t) = Running-AllHeld t
  Running-AllHeld (told_to_end {p} t) = Running-AllHeld t
  Running-AllHeld (looped {p} t) = cycle-AllHeld p (Running-AllHeld t)
  Running-AllHeld (worked {p} id draw t) = λ c.
      let k =
        thread_step-Keeps id draw p.broker (sym (thread_step_callback id draw p.broker) ∙ c)
          ((Running-keeps uuid fresh t).1.named id) in
      deliver-AllHeld (thread_step id draw p.broker).0 (thread_step id draw p.broker).1 p k
        (Running-AllHeld t (sym k.callback ∙ c))
  Running-AllHeld (timer_fired {p} t) = λ c.
      let k = fire_timer-Keeps p.broker in
      deliver-AllHeld (fire_timer p.broker).0 (fire_timer p.broker).1 p k
        (Running-AllHeld t (sym k.callback ∙ c))

  -- Nothing is listed when nothing is live.
  pub nothing_listed :
      (p : PositionManager SimulatedBroker) (s : String)
      → IsConsistent uuid p
      → ((id : String) → lookup id p.live_orders ≡ none)
      → ids_of p s ≡ []
  unfolding count
  nothing_listed p s t none_live = elim (list_cases (ids_of p s)) [
    | inl e ↦ e
    | inr (x, xs, e) ↦ absurd (ground (arith, t.counted s x, none_live x, e, ==_refl x))
  ]

  none_held :
      (p : PositionManager SimulatedBroker) (id : String)
      → AllHeld p
      → p.trade_confirmations_q ≡ []
      → p.broker.live_orders ≡ []
      → p.broker.timers ≡ []
      → lookup id p.live_orders ≡ none
  unfolding is_live has_thread is_ended
  none_held p id h q_empty no_threads no_timers = elim (Option-cases (lookup id p.live_orders)) [
    | inl e ↦ e
    | inr (o, e) ↦ absurd (
        ground (
          arith,
          h id,
          ap (lookup id) no_threads,
          ap (is_ended id) q_empty,
          ap (is_ended id) no_timers,
          lookup-empty {V = SimulatedOrder} id,
        ))
  ]

  -- With identifiers that are never drawn twice and a registered callback, in every state that a
  -- new position manager with a simulated broker without orders and timers goes through by
  -- targets, rounds of its loop, rounds of threads, timers and termination, each order that the
  -- position manager holds live has a thread in the simulated broker, or the confirmation of its
  -- end is in the queue of the position manager or held by a timer.
  pub no_order_lost :
      {p : PositionManager SimulatedBroker}
      → Running uuid fresh p
      → p.broker.has_callback ≡ true
      → (id : String) (o : OrderDetails) → lookup id p.live_orders ≡ some o
      → (has_thread id p.broker
          || (is_ended id p.trade_confirmations_q || is_ended id p.broker.timers))
        ≡ true
  unfolding is_live
  no_order_lost t c id o e = Running-AllHeld t c id (rw (is_live, e) refl)

  -- With identifiers that are never drawn twice, in every state of a position manager that starts
  -- new with a simulated broker without orders and timers, and goes on by targets, rounds of its
  -- loop, rounds of threads, timers and termination: when the broker has its callback and nothing
  -- is left to happen (both queues are empty, and the broker has neither threads nor timers), no
  -- order is live and the position of every symbol is its target.
  pub rest_at_target :
      {p : PositionManager SimulatedBroker}
      → Running uuid fresh p
      → p.broker.has_callback ≡ true
      → p.trade_confirmations_q ≡ []
      → p.target_updates_q ≡ []
      → p.broker.live_orders ≡ []
      → p.broker.timers ≡ []
      → ((id : String) → lookup id p.live_orders ≡ none)
        × ((s : String) → position_of p s ≡ target_of p s)
  unfolding is_named is_updated
  rest_at_target {p} t c q_empty steady no_threads no_timers =
      let over : (id : String) → lookup id p.live_orders ≡ none =
        λ id. none_held p id (Running-AllHeld t c) q_empty no_threads no_timers in
      (
        over,
        λ s.
            simulated_at_target uuid fresh t s (ap (is_named s) q_empty) (ap (is_updated s) steady)
              (nothing_listed p s (Running-keeps uuid fresh t).0.consistent over),
      )
