-- ===== src/SimulatedBroker/Finishing.antt =====
-- The threads of simulated_broker.py run to their end, beside the position manager of
-- position_manager.py.
use flow_manager.Base.{
  All, Bool-cases, List, Option-cases, String, [], arith, false, inl, inr, length, none, refl, some,
  string_eq, suc, true, zero, ℕ, ◌==◌, ◌∷◌, ◌≡◌, ◌≤◌,
}
use flow_manager.Dict.{
  erase, insert, lookup, lookup-erase, lookup-erase_self, lookup-insert, lookup-insert_self,
}
use flow_manager.Int.{int_laws, parts, pos, ◌+ℤ◌, ◌<ℤ◌}
use flow_manager.PositionManager.{PositionManager}
use flow_manager.SimulatedBroker.{
  SimulatedBroker, SimulatedOrder, execute, final_confirmation, fire_timer, is_executing,
  run_thread, thread_step,
}
use flow_manager.SimulatedBroker.Coverage.{thread_step_missing}
use flow_manager.SimulatedBroker.Threads.{
  IsDraw, execute-progress, run_thread_cons, run_thread_gone, thread_step_ends, thread_step_goes_on,
}
use flow_manager.SimulatedBroker.Trading.{deliver}

-- A thread takes a round for each number that it draws.
unfoldable pub give_turns :
    String → List ℕ → PositionManager SimulatedBroker → PositionManager SimulatedBroker
unfolding deliver
give_turns id [] p = p
give_turns id (draw ∷ draws) p = give_turns id draws (deliver (thread_step id draw p.broker) p)

-- The threads run one after the other, each with its own draws.
unfoldable pub finish_threads :
    List String
    → (String → List ℕ)
    → PositionManager SimulatedBroker
    → PositionManager SimulatedBroker
unfolding give_turns
finish_threads [] draws p = p
finish_threads (id ∷ ids) draws p = finish_threads ids draws (give_turns id (draws id) p)

-- So many timers fire.
unfoldable pub fire_timers : ℕ → PositionManager SimulatedBroker → PositionManager SimulatedBroker
unfolding deliver
fire_timers zero p = p
fire_timers (suc n) p = fire_timers n (deliver (fire_timer p.broker) p)

-- Draws that `randint` can give, at least one and one more than what is left to fill.
pub record IsEnough (o : SimulatedOrder) (draws : List ℕ) : Type 0 where
  pub drawn : All (IsDraw o) draws
  pub some_draw : 1 ≤ length draws
  pub fills : o.amount <ℤ o.amount_filled +ℤ pos (length draws)

rest-IsEnough :
    (draw : ℕ) (draws : List ℕ) (o : SimulatedOrder)
    → is_executing o ≡ true
    → IsEnough o (draw ∷ draws)
    → IsEnough (execute draw o) draws
rest-IsEnough draw draws o more h =
    let same : (execute draw o).amount ≡ o.amount = unfold execute in refl in
    let left_over : o.amount_filled <ℤ o.amount = unfold is_executing in grind (int_laws, more) in
    record {
      drawn = unfold execute in h.drawn.1;
      some_draw = omega (int_laws, h.fills, left_over);
      fills = omega (int_laws, h.fills, execute-progress draw o h.drawn.0.0 more, parts same);
    }

run_thread-gone :
    (id : String) (draws : List ℕ) (o : SimulatedOrder) (b : SimulatedBroker)
    → b.has_callback ≡ true
    → lookup id b.live_orders ≡ some o
    → o.client_order_id ≡ id
    → IsEnough o draws
    → lookup id (run_thread id draws b).1.live_orders ≡ none
run_thread-gone id [] o b r e k h = absurd (omega (arith, h.some_draw))
run_thread-gone id (draw ∷ draws) o b r e k h = elim (Bool-cases (is_executing o)) [
  | inl more ↦
      let b' : SimulatedBroker = record b {
        live_orders = insert id (execute draw o) b.live_orders;
      } in
      rw (run_thread_cons id draw draws b b' [] (thread_step_goes_on id draw o b e more)) (
        run_thread-gone id draws (execute draw o) b' r
          (lookup-insert_self id (execute draw o) b.live_orders) (unfold execute in k)
          (rest-IsEnough draw draws o more h))
  | inr over ↦
      let b' : SimulatedBroker = record b { live_orders = erase o.client_order_id b.live_orders } in
      let missing : lookup id b'.live_orders ≡ none = rw k (lookup-erase_self id b.live_orders) in
      rw
        (
          run_thread_cons id draw draws b b' (final_confirmation o ∷ [])
              (thread_step_ends id draw o b r e over),
          run_thread_gone id draws b' missing,
        )
        missing
]

-- A thread that has enough draws ends, whether its order is there or not.
pub run_thread_ends :
    (id : String) (draws : List ℕ) (b : SimulatedBroker)
    → b.has_callback ≡ true
    → ((o : SimulatedOrder) → lookup id b.live_orders ≡ some o → o.client_order_id ≡ id)
    → ((o : SimulatedOrder) → lookup id b.live_orders ≡ some o → IsEnough o draws)
    → lookup id (run_thread id draws b).1.live_orders ≡ none
run_thread_ends id draws b r named enough = elim (Option-cases (lookup id b.live_orders)) [
  | inl e ↦ rw (run_thread_gone id draws b e) e
  | inr (o, e) ↦ run_thread-gone id draws o b r e (named o e) (enough o e)
]

-- A thread leaves the orders of the others alone.
pub lookup-thread_step :
    (id j : String) (draw : ℕ) (b : SimulatedBroker)
    → b.has_callback ≡ true
    → ((o : SimulatedOrder) → lookup id b.live_orders ≡ some o → o.client_order_id ≡ id)
    → (id == j) ≡ false
    → lookup j (thread_step id draw b).1.live_orders ≡ lookup j b.live_orders
lookup-thread_step id j draw b r named apart = elim (Option-cases (lookup id b.live_orders)) [
  | inl e ↦ rw (thread_step_missing id draw b e) refl
  | inr (o, e) ↦ elim (Bool-cases (is_executing o)) [
    | inl more ↦
        rw
          (
            thread_step_goes_on id draw o b e more,
            lookup-insert id j (execute draw o) b.live_orders,
            apart,
          )
          refl
    | inr over ↦
        rw
          (thread_step_ends id draw o b r e over, named o e, lookup-erase id j b.live_orders, apart)
          refl
  ]
]
