-- ===== src/CppBroker/Endless.antt =====
-- The orders that position_manager.py goes on sending to the broker of cpp_ob_broker.py.
use flow_manager.Base.{
  ==_iff, ==_refl, Bool, Bool-cases, List, Option-cases, String, [], ap, arith, inl, inr, nat_eq,
  none, refl, some, string_eq, subst, sym, true, ℕ, ◌++◌, ◌<◌, ◌==◌, ◌∙◌, ◌∷◌, ◌≡◌, ◌≢◌, ◌≤◌,
}
use flow_manager.Broker.{OrderDetails, is_terminal}
use flow_manager.CppBroker.{CppOrderBookBroker, Network, rejection}
use flow_manager.CppBroker.Unpriced.{
  HoldsNothing, IsIdle, Traded, Traded-IsIdle, aimed_at, cpp, cpp-IsPolite, created, ended,
  submit_unpriced, turned,
}
use flow_manager.Dict.{lookup, lookup-insert}
use flow_manager.Ids.{count, set_union}
use flow_manager.Int.{int_laws, parts, pos, ℤ}
use flow_manager.PositionManager.{
  PositionManager, ids_of, init, process_all, process_target_updates, process_trade_confirmations,
  target_of, terminate, update_target_position,
}
use flow_manager.PositionManager.Cancelling.{cancel_live_order_cases}
use flow_manager.PositionManager.Cycle.{cycle_lem}
use flow_manager.PositionManager.Endings.{
  is_ended, is_ended_last, is_ended_more, process_all-none, process_all_over,
}
use flow_manager.PositionManager.Orders.{cancel_live_order, cycle, marked, place_order}
use flow_manager.PositionManager.Pending.{cycle-aim, cycle-target, pending_target}
use flow_manager.PositionManager.Placing.{live_orders-place_order, placed}
use flow_manager.PositionManager.Preserving.{reconcile_positions_keeps}
use flow_manager.PositionManager.Reading.{process_all_keeps}
use flow_manager.PositionManager.Targets.{process_target_updates_lem}
use flow_manager.PositionManager.Tracking.{IsFresh}
use flow_manager.PositionManager.Working.{committed, working-eq-committed}

module _ (upper : String → String) (network : CppOrderBookBroker → Network) (uuid : ℕ → String)
    (fresh : IsFresh uuid) where
  -- Every live order was sent since `start` identifiers were drawn, and its end is in the queue.
  abbrev IsDoomed : ℕ → PositionManager CppOrderBookBroker → Type 0
  IsDoomed start p =
      ((id : String) (o : OrderDetails)
        → lookup id p.live_orders ≡ some o
        → (start < p.issued) × (is_ended id p.trade_confirmations_q ≡ true))
      × (start ≤ p.issued)
      × HoldsNothing upper network p.broker

  cancels :
      (start : ℕ) (buying : Bool) (id : String) (p : PositionManager CppOrderBookBroker)
      → IsDoomed start p
      → IsDoomed start (cancel_live_order (cpp upper network) uuid buying id p)
  cancels start buying id p (h, le, b) =
      let api = cpp upper network in
      let holds = (cpp-IsPolite upper network).cancel_ok id p.broker b in
      let still : (j : String) (x : OrderDetails)
          → lookup j p.live_orders ≡ some x
          → (start < p.issued)
            × (is_ended j (p.trade_confirmations_q ++ (api.cancel_order id p.broker).confirmations)
                ≡ true) =
        λ j x e. (
          (h j x e).0,
          is_ended_more j p.trade_confirmations_q (api.cancel_order id p.broker).confirmations
              (h j x e).1,
        ) in
      cancel_live_order_cases api uuid buying (IsDoomed start) id p (h, le, b) (still, le, holds)
        (λ o e open_. (
          λ j x f. elim (Bool-cases (id == j)) [
            | inl hit ↦ still j o (ap (λ k. lookup k p.live_orders) (sym ((==_iff id j).0 hit)) ∙ e)
            | inr ne ↦ still j x (ground (arith, lookup-insert id j (marked o) p.live_orders))
          ],
          le,
          holds,
        ))

  places :
      (start : ℕ) (buying : Bool) (s : String) (n : ℤ) (p : PositionManager CppOrderBookBroker)
      → IsDoomed start p
      → IsDoomed start (place_order (cpp upper network) uuid buying s n p)
  unfolding place_order
  places start buying s n p (h, le, b) =
      let api = cpp upper network in
      let answer_ = submit_unpriced upper network (uuid p.issued) s n buying "MARKET" p.broker in
      let new_one = placed api uuid fresh buying s n p in
      let c = rejection (uuid p.issued) s buying in
      rw (live_orders-place_order api uuid fresh buying s n p) (
        λ j x f. (
          omega (arith, le),
          rw answer_ (elim (Bool-cases (uuid p.issued == j)) [
            | inl hit ↦
                is_ended_last j p.trade_confirmations_q c
                  (unfold rejection in (==_iff (uuid p.issued) j).0 hit)
                  (unfold rejection is_terminal in refl)
            | inr ne ↦
                is_ended_more j p.trade_confirmations_q (c ∷ [])
                  (h j x (ground (arith, lookup-insert (uuid p.issued) j new_one p.live_orders))).1
          ]),
        ),
        omega (arith, le),
        rw answer_ b,
      )

  cycle-IsDoomed :
      (p : PositionManager CppOrderBookBroker)
      → ((id : String) (o : OrderDetails)
          → lookup id p.live_orders ≡ some o
          → is_ended id p.trade_confirmations_q ≡ true)
      → HoldsNothing upper network p.broker
      → IsDoomed p.issued (cycle (cpp upper network) uuid p)
  unfolding cycle process_trade_confirmations
  cycle-IsDoomed p h b =
      let unread : PositionManager CppOrderBookBroker = record p { trade_confirmations_q = [] } in
      let taken = (process_all p.trade_confirmations_q [] unread).1 in
      let keeps = process_all_keeps p.trade_confirmations_q [] unread in
      let gone : (id : String) → lookup id taken.live_orders ≡ none = λ id.
        elim (Option-cases (lookup id p.live_orders)) [
          | inl e ↦ process_all-none p.trade_confirmations_q [] unread id e
          | inr (o, e) ↦ process_all_over p.trade_confirmations_q [] unread id (h id o e)
        ] in
      reconcile_positions_keeps (cpp upper network) uuid (IsDoomed p.issued) (cancels p.issued)
        (places p.issued)
        (set_union (process_all p.trade_confirmations_q [] unread).0
          (process_target_updates taken).0)
        (process_target_updates taken).1
        (subst (IsDoomed p.issued) (sym (process_target_updates_lem taken "").2)
          (λ id o e. absurd (cc (gone id)), rw keeps.1 (omega arith), rw keeps.0 b))

  doomed :
      {p : PositionManager CppOrderBookBroker}
      → Traded upper network uuid fresh p
      → (id : String) (o : OrderDetails) → lookup id p.live_orders ≡ some o
      → is_ended id p.trade_confirmations_q ≡ true
  unfolding init lookup update_target_position terminate
  doomed (created b h) id o e = absurd (cc)
  doomed (aimed_at s n t) id o e = doomed t id o e
  doomed (turned {p} t) id o e =
      ((cycle-IsDoomed p (λ j x f. doomed t j x f)
          (Traded-IsIdle upper network uuid fresh t).settled.queued.ok).0
        id o e).1
  doomed (ended t) id o e = doomed t id o e

  module _ (p : PositionManager CppOrderBookBroker) (t : Traded upper network uuid fresh p)
      (s : String) (wanted : pending_target p s ≢ pos 0) where
    abbrev after_round : PositionManager CppOrderBookBroker
    after_round = (cycle (cpp upper network) uuid p)

    idle : IsIdle upper network uuid after_round
    idle = Traded-IsIdle upper network uuid fresh (turned t)

    -- The position is 0, so the symbol has a live order.
    has_order : ids_of after_round s ≢ []
    has_order none_live =
        let nothing : committed after_round.live_orders (ids_of after_round s) ≡ pos 0 =
          rw none_live (unfold committed in refl) in
        let (_, on_target, _, _) =
          cycle_lem (cpp upper network) (HoldsNothing upper network) (cpp-IsPolite upper network)
            uuid fresh p (Traded-IsIdle upper network uuid fresh t).settled in
        let there = on_target s in
        let flat = idle.flat s in
        let zero_target : target_of after_round s ≡ pos 0 = omega (
          int_laws,
          parts nothing,
          parts there,
          parts flat,
          parts (working-eq-committed after_round s),
        ) in
        wanted (sym (cycle-target (cpp upper network) uuid p s) ∙ zero_target)

    sent_for : (ids : List String) → ids_of after_round s ≡ ids → p.issued < after_round.issued
    unfolding count
    sent_for [] e = absurd (has_order e)
    sent_for (id ∷ ids) e = elim (Option-cases (lookup id after_round.live_orders)) [
      | inl missing ↦
          let once : 1 ≤ count id (ids_of after_round s) = rw e (ground (arith, ==_refl id)) in
          absurd (ground (arith, idle.settled.consistent.counted s id))
      | inr (o, found) ↦
          ((cycle-IsDoomed p (doomed t)
              (Traded-IsIdle upper network uuid fresh t).settled.queued.ok).0
            id o found).0
    ]

    -- With `CppOrderBookBroker`, identifiers that are never drawn twice, and a start with the lock
    -- free and no order held, in every state that new targets, rounds of the loop and termination
    -- lead to: when the target of a symbol, pending updates included, is not 0, the next round
    -- sends at least one order and leaves that target as it is.
    pub sends_again :
        (p.issued < after_round.issued) × (pending_target after_round s ≡ pending_target p s)
    sends_again = (sent_for (ids_of after_round s) refl, (cycle-aim (cpp upper network) uuid p).0 s)
