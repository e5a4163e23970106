-- ===== src/SimulatedBroker/Passes.antt =====
-- A pass of position_manager.py and simulated_broker.py: the threads and the timers run to their
-- end, and a round of the loop follows.
use flow_manager.Base.{
  ==_iff, Bool, List, Option-cases, String, [], ap, arith, inl, inr, length, none, refl, some,
  string_eq, subst, sym, true, ℕ, ◌<◌, ◌∙◌, ◌≡◌, ◌≤◌,
}
use flow_manager.Broker.{OrderDetails}
use flow_manager.Dict.{lookup, lookup-insert}
use flow_manager.Ids.{contains, set_union}
use flow_manager.Int.{ℤ}
use flow_manager.PositionManager.{
  PositionManager, process_all, process_target_updates, process_trade_confirmations,
}
use flow_manager.PositionManager.Cancelling.{cancel_live_order_cases}
use flow_manager.PositionManager.Endings.{is_ended, process_all-none, process_all_over}
use flow_manager.PositionManager.Orders.{cancel_live_order, cycle, marked, place_order}
use flow_manager.PositionManager.Placing.{live_orders-place_order, placed}
use flow_manager.PositionManager.Preserving.{reconcile_positions_keeps}
use flow_manager.PositionManager.Reading.{process_all_keeps}
use flow_manager.PositionManager.Targets.{process_target_updates_lem}
use flow_manager.PositionManager.Tracking.{IsFresh}
use flow_manager.SimulatedBroker.{SimulatedBroker, SimulatedOrder, simulated}
use flow_manager.SimulatedBroker.Coverage.{has_thread}
use flow_manager.SimulatedBroker.Ending.{
  AllEnough, Follows, Follows-trans, finish_threads-Follows, fire_timers-Follows,
  lookup-finish_threads, timers-fire_timers,
}
use flow_manager.SimulatedBroker.Finishing.{finish_threads, fire_timers}
use flow_manager.SimulatedBroker.Rest.{no_order_lost}
use flow_manager.SimulatedBroker.Trading.{Running}

-- The threads of `ids` run with their draws, then every timer fires.
unfoldable pub run_out :
    List String
    → (String → List ℕ)
    → PositionManager SimulatedBroker
    → PositionManager SimulatedBroker
unfolding finish_threads fire_timers
run_out ids draws p = let q = finish_threads ids draws p in fire_timers (length q.broker.timers) q

-- The identifiers name every order of the broker.
abbrev pub AllNamed : List String → PositionManager SimulatedBroker → Type 0
AllNamed ids p =
    (id : String) (o : SimulatedOrder)
    → lookup id p.broker.live_orders ≡ some o
    → contains id ids ≡ true

module _ (uuid : ℕ → String) (fresh : IsFresh uuid) where
  -- The broker has nothing left to do.
  pub record IsRunOut (p q : PositionManager SimulatedBroker) : Type 0 where
    pub follows : Follows uuid fresh p q
    pub no_threads : (id : String) → lookup id q.broker.live_orders ≡ none
    pub no_timers : q.broker.timers ≡ []

  pub run_out-IsRunOut :
      (ids : List String) (draws : String → List ℕ) {p : PositionManager SimulatedBroker}
      → Running uuid fresh p
      → p.broker.has_callback ≡ true
      → AllNamed ids p
      → AllEnough uuid fresh draws p
      → IsRunOut p (run_out ids draws p)
  unfolding run_out
  run_out-IsRunOut ids draws {p} t c named enough =
      let q = finish_threads ids draws p in
      let f = finish_threads-Follows uuid fresh ids draws t c in
      let (g, orders) =
        fire_timers-Follows uuid fresh (length q.broker.timers) f.running f.callback in
      record {
        follows = Follows-trans uuid fresh f g;
        no_threads = λ id. ap (lookup id) orders ∙ gone id;
        no_timers = timers-fire_timers uuid fresh (length q.broker.timers) q refl;
      }
    where
      gone : (id : String) → lookup id (finish_threads ids draws p).broker.live_orders ≡ none
      gone id = elim (Option-cases (lookup id p.broker.live_orders)) [
        | inl e ↦ ground (arith, e, lookup-finish_threads uuid fresh ids draws t c enough id)
        | inr (o, e) ↦
            ground (arith, named id o e, lookup-finish_threads uuid fresh ids draws t c enough id)
      ]

  -- The orders of the first identifiers are over, and stay over.
  abbrev AllOver : ℕ → PositionManager SimulatedBroker → Type 0
  AllOver start p =
      (start ≤ p.issued) × ((i : ℕ) → i < start → lookup (uuid i) p.live_orders ≡ none)

  cancels_AllOver :
      (start : ℕ) (buying : Bool) (id : String) (p : PositionManager SimulatedBroker)
      → AllOver start p
      → AllOver start (cancel_live_order simulated uuid buying id p)
  cancels_AllOver start buying id p (le, h) =
      cancel_live_order_cases simulated uuid buying (AllOver start) id p (le, h) (le, h)
        (λ o e open_. (
          le,
          λ i k. ground (
            arith,
            h i k,
            e,
            lookup-insert id (uuid i) (marked o) p.live_orders,
            ==_iff id (uuid i),
          ),
        ))

  places_AllOver :
      (start : ℕ) (buying : Bool) (s : String) (n : ℤ) (p : PositionManager SimulatedBroker)
      → AllOver start p
      → AllOver start (place_order simulated uuid buying s n p)
  unfolding place_order
  places_AllOver start buying s n p (le, h) =
      rw (live_orders-place_order simulated uuid fresh buying s n p) (
        omega (arith, le),
        λ i k. ground (
          arith,
          h i k,
          lookup-insert (uuid p.issued) (uuid i) (placed simulated uuid fresh buying s n p)
              p.live_orders,
          ==_iff (uuid p.issued) (uuid i),
          fresh p.issued i,
        ),
      )

  -- Before the round every order that is live has its end in the queue.
  ended_in_queue :
      {p q : PositionManager SimulatedBroker}
      → IsRunOut p q
      → (id : String) (o : OrderDetails) → lookup id q.live_orders ≡ some o
      → is_ended id q.trade_confirmations_q ≡ true
  unfolding has_thread is_ended
  ended_in_queue r id o e = ground (
    arith,
    no_order_lost uuid fresh r.follows.running r.follows.callback id o e,
    r.no_threads id,
    ap (is_ended id) r.no_timers,
  )

  -- A round reads the queue first, and then nothing of it is live.
  pub emptied :
      {p q : PositionManager SimulatedBroker}
      → IsRunOut p q
      → (id : String) → lookup id (process_trade_confirmations q).1.live_orders ≡ none
  unfolding process_trade_confirmations
  emptied {p} {q} r id =
      let unread : PositionManager SimulatedBroker = record q { trade_confirmations_q = [] } in
      elim (Option-cases (lookup id q.live_orders)) [
        | inl e ↦ process_all-none q.trade_confirmations_q [] unread id e
        | inr (o, e) ↦
            process_all_over q.trade_confirmations_q [] unread id (ended_in_queue r id o e)
      ]

  over_after_round :
      {p q : PositionManager SimulatedBroker}
      → IsRunOut p q
      → (i : ℕ) → i < p.issued
      → lookup (uuid i) (cycle simulated uuid q).live_orders ≡ none
  unfolding cycle process_trade_confirmations
  over_after_round {p} {q} r i k =
      let unread : PositionManager SimulatedBroker = record q { trade_confirmations_q = [] } in
      let read_ = process_all q.trade_confirmations_q [] unread in
      let keeps = process_all_keeps q.trade_confirmations_q [] unread in
      (reconcile_positions_keeps simulated uuid (AllOver p.issued) (cancels_AllOver p.issued)
          (places_AllOver p.issued) (set_union read_.0 (process_target_updates read_.1).0)
          (process_target_updates read_.1).1
          (subst (AllOver p.issued) (sym (process_target_updates_lem read_.1 "").2)
            (rw keeps.1 (omega (arith, r.follows.same_issued)), λ j l. emptied r (uuid j)))).1
        i k

  -- With identifiers that are never drawn twice, from every state with a registered callback that
  -- a new position manager with a simulated broker without orders and timers goes through by
  -- targets, rounds of its loop, rounds of threads, timers and termination: after the threads of
  -- all orders have run, each with enough draws that `randint` can give, all timers have fired and
  -- the loop has taken a round, no order is live that was sent before.
  pub orders_end :
      (ids : List String) (draws : String → List ℕ) {p : PositionManager SimulatedBroker}
      → Running uuid fresh p
      → p.broker.has_callback ≡ true
      → AllNamed ids p
      → AllEnough uuid fresh draws p
      → (i : ℕ) → i < p.issued
      → lookup (uuid i) (cycle simulated uuid (run_out ids draws p)).live_orders ≡ none
  orders_end ids draws t c named enough i k =
      over_after_round (run_out-IsRunOut ids draws t c named enough) i k
