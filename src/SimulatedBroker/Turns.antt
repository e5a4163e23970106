-- ===== src/SimulatedBroker/Turns.antt =====
-- The rounds of the threads of simulated_broker.py while they fill the orders of
-- position_manager.py.
use mathlib.Core.List.{append-nil}
use flow_manager.Base.{
  ==_iff, All-append, Bool-cases, List, Option-cases, String, [], arith, false, inl, inr, refl,
  some, string_eq, subst, true, ℕ, ◌==◌, ◌∷◌, ◌≡◌,
}
use flow_manager.Dict.{erase, insert, lookup, lookup-erase, lookup-insert}
use flow_manager.PositionManager.{PositionManager}
use flow_manager.SimulatedBroker.{
  SimulatedBroker, SimulatedOrder, execute, final_confirmation, is_executing, thread_step,
}
use flow_manager.SimulatedBroker.Coverage.{thread_step_missing}
use flow_manager.SimulatedBroker.Filling.{
  AllApart-append_one, IsFilling, IsFull, IsMirrored, execute-IsMirrored, final-IsFull, is_about,
  is_about-append,
}
use flow_manager.SimulatedBroker.Finishing.{finish_threads, fire_timers, give_turns}
use flow_manager.SimulatedBroker.Passes.{run_out}
use flow_manager.SimulatedBroker.Threads.{thread_step_ends, thread_step_goes_on}
use flow_manager.SimulatedBroker.Trading.{deliver}

module _ {p : PositionManager SimulatedBroker} (h : IsFilling p) where
  turn_of_missing : (b : SimulatedBroker) → b ≡ p.broker → IsFilling (deliver ([], b) p)
  unfolding deliver
  turn_of_missing b e = rw (append-nil p.trade_confirmations_q, e) h

  turn_goes_on :
      (id : String) (draw : ℕ) (o : SimulatedOrder)
      → lookup id p.broker.live_orders ≡ some o
      → is_executing o ≡ true
      → IsFilling (
          deliver
            ([], record p.broker { live_orders = insert id (execute draw o) p.broker.live_orders })
            p)
  unfolding deliver
  turn_goes_on id draw o e more = rw (append-nil p.trade_confirmations_q) (record {
    callback = h.callback;
    no_timers = h.no_timers;
    mirrored = λ j x f. elim (Bool-cases (id == j)) [
      | inl hit ↦
          let same : execute draw o ≡ x =
            ground (arith, f, hit, lookup-insert id j (execute draw o) p.broker.live_orders) in
          subst (IsMirrored p.live_orders j) same (
            subst (λ k. IsMirrored p.live_orders k (execute draw o)) ((==_iff id j).0 hit)
              (execute-IsMirrored p.live_orders id draw o more (h.mirrored id o e)))
      | inr miss ↦
          h.mirrored j x
            (ground (arith, f, miss, lookup-insert id j (execute draw o) p.broker.live_orders))
    ];
    full = h.full;
    apart = h.apart;
    done_once = λ j f. ground (
      arith,
      e,
      h.done_once j f,
      lookup-insert id j (execute draw o) p.broker.live_orders,
      ==_iff id j,
    );
  })

  turn_ends :
      (id : String) (o : SimulatedOrder)
      → lookup id p.broker.live_orders ≡ some o
      → is_executing o ≡ false
      → IsFilling (
          deliver
            (
              final_confirmation o ∷ [],
              record p.broker { live_orders = erase o.client_order_id p.broker.live_orders },
            )
            p)
  unfolding deliver is_about
  turn_ends id o e over =
      let m = h.mirrored id o e in
      let c = final_confirmation o in
      let called : c.client_order_id ≡ id = unfold final_confirmation in m.named in
      let unread_ : is_about c.client_order_id p.trade_confirmations_q ≡ false =
        elim (Bool-cases (is_about id p.trade_confirmations_q)) [
          | inl f ↦ absurd (ground (arith, e, h.done_once id f))
          | inr f ↦ rw called f
        ] in
      record {
        callback = h.callback;
        no_timers = h.no_timers;
        mirrored = λ j x f.
            h.mirrored j x
              (ground (arith, f, lookup-erase o.client_order_id j p.broker.live_orders));
        full =
            All-append (IsFull p.live_orders) p.trade_confirmations_q (c ∷ []) h.full
              (final-IsFull p.live_orders id o over m, tt);
        apart = AllApart-append_one p.trade_confirmations_q c h.apart unread_;
        done_once = λ j f. ground (
          arith,
          f,
          h.done_once j,
          m.named,
          called,
          is_about-append j p.trade_confirmations_q (c ∷ []),
          lookup-erase o.client_order_id j p.broker.live_orders,
          ==_iff c.client_order_id j,
          ==_iff o.client_order_id j,
        );
      }

  thread_step-IsFilling :
      (id : String) (draw : ℕ) → IsFilling (deliver (thread_step id draw p.broker) p)
  thread_step-IsFilling id draw = elim (Option-cases (lookup id p.broker.live_orders)) [
    | inl e ↦ rw (thread_step_missing id draw p.broker e) (turn_of_missing p.broker refl)
    | inr (o, e) ↦ elim (Bool-cases (is_executing o)) [
      | inl more ↦
          rw (thread_step_goes_on id draw o p.broker e more) (turn_goes_on id draw o e more)
      | inr over ↦
          rw (thread_step_ends id draw o p.broker h.callback e over) (turn_ends id o e over)
    ]
  ]

give_turns-IsFilling :
    (id : String) (draws : List ℕ) {p : PositionManager SimulatedBroker}
    → IsFilling p
    → IsFilling (give_turns id draws p)
unfolding give_turns
give_turns-IsFilling id [] h = h
give_turns-IsFilling id (draw ∷ draws) h =
    give_turns-IsFilling id draws (thread_step-IsFilling h id draw)

finish_threads-IsFilling :
    (ids : List String) (draws : String → List ℕ) {p : PositionManager SimulatedBroker}
    → IsFilling p
    → IsFilling (finish_threads ids draws p)
unfolding finish_threads
finish_threads-IsFilling [] draws h = h
finish_threads-IsFilling (id ∷ ids) draws h =
    finish_threads-IsFilling ids draws (give_turns-IsFilling id (draws id) h)

-- There are no timers to fire.
pub run_out-IsFilling :
    (ids : List String) (draws : String → List ℕ) {p : PositionManager SimulatedBroker}
    → IsFilling p
    → IsFilling (run_out ids draws p)
unfolding run_out fire_timers
run_out-IsFilling ids draws h = let f = finish_threads-IsFilling ids draws h in rw f.no_timers f
