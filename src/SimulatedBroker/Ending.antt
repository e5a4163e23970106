-- ===== src/SimulatedBroker/Ending.antt =====
-- Every order of position_manager.py ends: the threads and timers of simulated_broker.py run, and a
-- round of the loop reads what they report.
use flow_manager.Base.{
  ==_iff, Bool-cases, List, String, [], ap, arith, false, if◌then◌else◌, inl, inr, length,
  list_cases, none, refl, some, string_eq, suc, sym, true, zero, ℕ, ◌==◌, ◌∙◌, ◌∷◌, ◌≡◌,
}
use flow_manager.Dict.{lookup}
use flow_manager.Ids.{contains}
use flow_manager.PositionManager.{PositionManager}
use flow_manager.PositionManager.Tracking.{IsFresh}
use flow_manager.SimulatedBroker.{
  SimulatedBroker, SimulatedOrder, fire_timer, run_thread, thread_step,
}
use flow_manager.SimulatedBroker.Coverage.{thread_step_callback}
use flow_manager.SimulatedBroker.Finishing.{
  IsEnough, finish_threads, fire_timers, give_turns, lookup-thread_step, run_thread_ends,
}
use flow_manager.SimulatedBroker.Trading.{Running, Running-keeps, deliver, timer_fired, worked}

module _ (uuid : ℕ → String) (fresh : IsFresh uuid) where
  -- What threads and timers leave as it is.
  pub record Follows (p q : PositionManager SimulatedBroker) : Type 0 where
    pub running : Running uuid fresh q
    pub callback : q.broker.has_callback ≡ true
    pub same_live : q.live_orders ≡ p.live_orders
    pub same_issued : q.issued ≡ p.issued
    pub same_positions : q.positions ≡ p.positions
    pub same_targets : q.target_positions ≡ p.target_positions
    pub same_ids : q.live_orders_by_symbol ≡ p.live_orders_by_symbol
    pub same_pending : q.target_updates_q ≡ p.target_updates_q

  Follows-refl :
      {p : PositionManager SimulatedBroker}
      → Running uuid fresh p
      → p.broker.has_callback ≡ true
      → Follows p p
  Follows-refl t c = record {
    running = t;
    callback = c;
    same_live = refl;
    same_issued = refl;
    same_positions = refl;
    same_targets = refl;
    same_ids = refl;
    same_pending = refl;
  }

  pub Follows-trans :
      {p q r : PositionManager SimulatedBroker} → Follows p q → Follows q r → Follows p r
  Follows-trans f g = record {
    running = g.running;
    callback = g.callback;
    same_live = g.same_live ∙ f.same_live;
    same_issued = g.same_issued ∙ f.same_issued;
    same_positions = g.same_positions ∙ f.same_positions;
    same_targets = g.same_targets ∙ f.same_targets;
    same_ids = g.same_ids ∙ f.same_ids;
    same_pending = g.same_pending ∙ f.same_pending;
  }

  -- Every order of the broker stands under its own identifier.
  named_at :
      {p : PositionManager SimulatedBroker}
      → Running uuid fresh p
      → (id : String) (o : SimulatedOrder) → lookup id p.broker.live_orders ≡ some o
      → o.client_order_id ≡ id
  named_at t id o e = (Running-keeps uuid fresh t).1.named id o e

  thread_step-Follows :
      (id : String) (draw : ℕ) {p : PositionManager SimulatedBroker}
      → Running uuid fresh p
      → p.broker.has_callback ≡ true
      → Follows p (deliver (thread_step id draw p.broker) p)
  unfolding deliver
  thread_step-Follows id draw {p} t c = record {
    running = worked id draw t;
    callback = thread_step_callback id draw p.broker ∙ c;
    same_live = refl;
    same_issued = refl;
    same_positions = refl;
    same_targets = refl;
    same_ids = refl;
    same_pending = refl;
  }

  give_turns-Follows :
      (id : String) (draws : List ℕ) {p : PositionManager SimulatedBroker}
      → Running uuid fresh p
      → p.broker.has_callback ≡ true
      → Follows p (give_turns id draws p)
  unfolding give_turns
  give_turns-Follows id [] t c = Follows-refl t c
  give_turns-Follows id (draw ∷ draws) t c =
      let f = thread_step-Follows id draw t c in
      Follows-trans f (give_turns-Follows id draws f.running f.callback)

  give_turns-broker :
      (id : String) (draws : List ℕ) (p : PositionManager SimulatedBroker)
      → (give_turns id draws p).broker ≡ (run_thread id draws p.broker).1
  unfolding give_turns run_thread deliver
  give_turns-broker id [] p = refl
  give_turns-broker id (draw ∷ draws) p =
      give_turns-broker id draws (deliver (thread_step id draw p.broker) p)

  give_turns-other :
      (id j : String) (draws : List ℕ) {p : PositionManager SimulatedBroker}
      → Running uuid fresh p
      → p.broker.has_callback ≡ true
      → (id == j) ≡ false
      → lookup j (give_turns id draws p).broker.live_orders ≡ lookup j p.broker.live_orders
  unfolding give_turns deliver
  give_turns-other id j [] t c apart = refl
  give_turns-other id j (draw ∷ draws) {p} t c apart =
      let f = thread_step-Follows id draw t c in
      give_turns-other id j draws f.running f.callback apart
      ∙ lookup-thread_step id j draw p.broker c (named_at t id) apart

  -- Each live order has enough draws.
  abbrev pub AllEnough : (String → List ℕ) → PositionManager SimulatedBroker → Type 0
  AllEnough draws p =
      (id : String) (o : SimulatedOrder)
      → lookup id p.broker.live_orders ≡ some o
      → IsEnough o (draws id)

  lookup-give_turns :
      (id j : String) (draws : List ℕ) {p : PositionManager SimulatedBroker}
      → Running uuid fresh p
      → p.broker.has_callback ≡ true
      → ((o : SimulatedOrder) → lookup id p.broker.live_orders ≡ some o → IsEnough o draws)
      → lookup j (give_turns id draws p).broker.live_orders
        ≡ (if id == j then none else lookup j p.broker.live_orders)
  lookup-give_turns id j draws {p} t c enough = elim (Bool-cases (id == j)) [
    | inl hit ↦
        rw (hit, sym ((==_iff id j).0 hit), give_turns-broker id draws p)
          (run_thread_ends id draws p.broker c (named_at t id) enough)
    | inr miss ↦ rw miss (give_turns-other id j draws t c miss)
  ]

  pub finish_threads-Follows :
      (ids : List String) (draws : String → List ℕ) {p : PositionManager SimulatedBroker}
      → Running uuid fresh p
      → p.broker.has_callback ≡ true
      → Follows p (finish_threads ids draws p)
  unfolding finish_threads
  finish_threads-Follows [] draws t c = Follows-refl t c
  finish_threads-Follows (id ∷ ids) draws t c =
      let f = give_turns-Follows id (draws id) t c in
      Follows-trans f (finish_threads-Follows ids draws f.running f.callback)

  -- The threads that have run are gone, the others stay.
  pub lookup-finish_threads :
      (ids : List String) (draws : String → List ℕ) {p : PositionManager SimulatedBroker}
      → Running uuid fresh p
      → p.broker.has_callback ≡ true
      → AllEnough draws p
      → (j : String)
      → lookup j (finish_threads ids draws p).broker.live_orders
        ≡ (if contains j ids then none else lookup j p.broker.live_orders)
  unfolding finish_threads contains
  lookup-finish_threads [] draws t c enough j = refl
  lookup-finish_threads (id ∷ ids) draws {p} t c enough j =
      let f = give_turns-Follows id (draws id) t c in
      let found : (k : String)
          → lookup k (give_turns id (draws id) p).broker.live_orders
            ≡ (if id == k then none else lookup k p.broker.live_orders) =
        λ k. lookup-give_turns id k (draws id) t c (enough id) in
      let rest =
        lookup-finish_threads ids draws f.running f.callback
          (λ k o e. enough k o (ground (arith, found k))) j in
      ground (arith, rest, found j)

  fire_timer-same :
      (b : SimulatedBroker)
      → ((fire_timer b).1.has_callback ≡ b.has_callback)
        × ((fire_timer b).1.live_orders ≡ b.live_orders)
  unfolding fire_timer
  fire_timer-same b = elim (list_cases b.timers) [
    | inl e ↦ rw (fire_timer, e) (refl, refl)
    | inr (c, rest, e) ↦ rw (fire_timer, e) (refl, refl)
  ]

  pub fire_timers-Follows :
      (n : ℕ) {p : PositionManager SimulatedBroker}
      → Running uuid fresh p
      → p.broker.has_callback ≡ true
      → Follows p (fire_timers n p) × ((fire_timers n p).broker.live_orders ≡ p.broker.live_orders)
  unfolding fire_timers deliver
  fire_timers-Follows zero t c = (Follows-refl t c, refl)
  fire_timers-Follows (suc n) {p} t c =
      let (same, orders) = fire_timer-same p.broker in
      let (f, others) = fire_timers-Follows n (timer_fired t) (same ∙ c) in
      (
        record {
          running = f.running;
          callback = f.callback;
          same_live = f.same_live;
          same_issued = f.same_issued;
          same_positions = f.same_positions;
          same_targets = f.same_targets;
          same_ids = f.same_ids;
          same_pending = f.same_pending;
        },
        others ∙ orders,
      )

  pub timers-fire_timers :
      (n : ℕ) (p : PositionManager SimulatedBroker)
      → n ≡ length p.broker.timers
      → (fire_timers n p).broker.timers ≡ []
  unfolding fire_timers deliver fire_timer
  timers-fire_timers zero p e = elim (list_cases p.broker.timers) [
    | inl f ↦ f
    | inr (c, rest, f) ↦ absurd (ground (arith, e, ap length f))
  ]
  timers-fire_timers (suc n) p e = elim (list_cases p.broker.timers) [
    | inl f ↦ absurd (ground (arith, e, ap length f))
    | inr (c, rest, f) ↦
        timers-fire_timers n (deliver (fire_timer p.broker) p)
          (rw (fire_timer, f) (ground (arith, e, ap length f)))
  ]
