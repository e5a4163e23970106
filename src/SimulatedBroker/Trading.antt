-- ===== src/SimulatedBroker/Trading.antt =====
-- The position manager of position_manager.py with the broker of simulated_broker.py: the loop, the
-- threads of the orders and the timers take turns.
use flow_manager.Base.{
  All, All-append, Bool, List, String, [], arith, false, none, refl, string_eq, subst, sym, ℕ, ◌++◌,
  ◌||◌, ◌∙◌, ◌∷◌, ◌≡◌,
}
use flow_manager.Broker.{TradeConfirmationMessage}
use flow_manager.Dict.{insert, lookup-empty}
use flow_manager.Ids.{set_add, set_union}
use flow_manager.Int.{ℤ}
use flow_manager.PositionManager.{
  PositionManager, ids_of, init, position_of, process_all, process_confirmation,
  process_target_updates, process_trade_confirmations, target_of, terminate, update_target_position,
}
use flow_manager.PositionManager.Cancelling.{cancel_live_order_cases}
use flow_manager.PositionManager.Confirmations.{Matches, Matches-process_confirmation, is_named}
use flow_manager.PositionManager.Contract.{IsGenuine, IsGenuine-insert}
use flow_manager.PositionManager.Cycle.{IsSettled}
use flow_manager.PositionManager.Orders.{cancel_live_order, cycle, marked, place_order}
use flow_manager.PositionManager.Placing.{live_orders-place_order, placed, placed_symbol}
use flow_manager.PositionManager.Preserving.{reconcile_positions_keeps}
use flow_manager.PositionManager.Reading.{process_all_keeps, working_other_targets}
use flow_manager.PositionManager.Run.{
  Reach-IsSettled, Step-IsSettled, finish, here, retarget, round, settled_at_target,
}
use flow_manager.PositionManager.Targets.{is_updated, process_target_updates_lem}
use flow_manager.PositionManager.Tracking.{IsFresh}
use flow_manager.SimulatedBroker.{
  SimulatedBroker, SimulatedOrder, cancel_order, fire_timer, simulated, thread_step,
}
use flow_manager.SimulatedBroker.Genuine.{
  IsBacked, IsBacked-mono, cancel_order-IsBacked, fire_timer-IsBacked, thread_step-IsBacked,
}
use flow_manager.SimulatedBroker.Orders.{simulated-IsPolite}
use flow_manager.SimulatedBroker.Submitted.{submit_order-IsBacked}

-- A thread of the broker passes its confirmations to the position manager.
unfoldable pub deliver :
    List TradeConfirmationMessage × SimulatedBroker
    → PositionManager SimulatedBroker
    → PositionManager SimulatedBroker
deliver r p = record p { broker = r.1; trade_confirmations_q = p.trade_confirmations_q ++ r.0 }

is_named-append :
    (s : String) (q r : List TradeConfirmationMessage)
    → is_named s (q ++ r) ≡ (is_named s q || is_named s r)
unfolding is_named
is_named-append s [] r = refl
is_named-append s (c ∷ q) r = ground (arith, is_named-append s q r)

Matches-process_all :
    {B : Type 0} (q : List TradeConfirmationMessage) (affected : List String)
    (p : PositionManager B) (c : TradeConfirmationMessage)
    → Matches p.live_orders c
    → Matches (process_all q affected p).1.live_orders c
unfolding process_all
Matches-process_all [] affected p c m = m
Matches-process_all (x ∷ q) affected p c m =
    Matches-process_all q (set_add x.symbol affected) (process_confirmation x p) c
      (Matches-process_confirmation x c p m)

module _ (uuid : ℕ → String) (fresh : IsFresh uuid) where
  abbrev Anywhere : SimulatedBroker → Type 0
  Anywhere b = Unit

  -- The broker's orders and timers agree with the orders of the position manager.
  abbrev Backed : PositionManager SimulatedBroker → Type 0
  Backed p = IsBacked uuid fresh p.issued p.live_orders p.broker

  cancels :
      (buying : Bool) (id : String) (p : PositionManager SimulatedBroker)
      → Backed p
      → Backed (cancel_live_order simulated uuid buying id p)
  unfolding marked
  cancels buying id p h =
      let asked_ = cancel_order-IsBacked uuid fresh p.issued p.live_orders p.broker id h in
      cancel_live_order_cases simulated uuid buying Backed id p h asked_ (λ o e open_.
        IsBacked-mono uuid fresh p.issued p.issued p.live_orders
          (insert id (marked o) p.live_orders) (cancel_order id p.broker).after
          (IsGenuine-insert simulated Anywhere simulated-IsPolite uuid fresh p.issued p.live_orders
            id o (marked o) e refl)
          asked_)

  places :
      (buying : Bool) (s : String) (n : ℤ) (p : PositionManager SimulatedBroker)
      → Backed p
      → Backed (place_order simulated uuid buying s n p)
  unfolding place_order
  places buying s n p h = rw (live_orders-place_order simulated uuid fresh buying s n p) (
      submit_order-IsBacked uuid fresh p.issued p.live_orders p.broker s n buying
        (placed simulated uuid fresh buying s n p) (placed_symbol simulated uuid fresh buying s n p)
        h "MARKET" none)

  cycle-Backed : (p : PositionManager SimulatedBroker) → Backed p → Backed (cycle simulated uuid p)
  unfolding cycle process_trade_confirmations
  cycle-Backed p h =
      let unread : PositionManager SimulatedBroker = record p { trade_confirmations_q = [] } in
      let taken = (process_all p.trade_confirmations_q [] unread).1 in
      let keeps = process_all_keeps p.trade_confirmations_q [] unread in
      reconcile_positions_keeps simulated uuid Backed cancels places
        (set_union (process_all p.trade_confirmations_q [] unread).0
          (process_target_updates taken).0)
        (process_target_updates taken).1
        (subst Backed (sym (process_target_updates_lem taken "").2) (
          rw (keeps.0, keeps.1)
            (IsBacked-mono uuid fresh p.issued p.issued p.live_orders taken.live_orders p.broker
              (λ c g. record {
                drawn = g.drawn;
                matches = Matches-process_all p.trade_confirmations_q [] unread c g.matches;
              })
              h)))

  -- The states of a position manager and its simulated broker, from the start on.
  pub data Running : PositionManager SimulatedBroker → Type 0 where
    opened : (b : SimulatedBroker) → b.live_orders ≡ [] → b.timers ≡ [] → Running (init b)
    given_target :
        {p : PositionManager SimulatedBroker} (s : String) (n : ℤ)
        → Running p
        → Running (update_target_position s n p)
    looped : {p : PositionManager SimulatedBroker} → Running p → Running (cycle simulated uuid p)
    told_to_end : {p : PositionManager SimulatedBroker} → Running p → Running (terminate p)
    worked :
        {p : PositionManager SimulatedBroker} (id : String) (draw : ℕ)
        → Running p
        → Running (deliver (thread_step id draw p.broker) p)
    timer_fired :
        {p : PositionManager SimulatedBroker}
        → Running p
        → Running (deliver (fire_timer p.broker) p)

  deliver-IsSettled :
      (r : List TradeConfirmationMessage × SimulatedBroker) (p : PositionManager SimulatedBroker)
      → All (IsGenuine uuid p.issued p.live_orders) r.0
      → IsSettled uuid Anywhere p
      → IsSettled uuid Anywhere (deliver r p)
  unfolding deliver
  deliver-IsSettled r p g h = record {
    consistent = h.consistent;
    queued = record {
      genuine =
          All-append (IsGenuine uuid p.issued p.live_orders) p.trade_confirmations_q r.0
            h.queued.genuine g;
      ok = tt;
    };
    on_target = λ s quiet steady.
        working_other_targets p (deliver r p) s refl refl refl
        ∙ h.on_target s (ground (arith, is_named-append s p.trade_confirmations_q r.0)) steady;
  }

  opened-Backed : (b : SimulatedBroker) → b.live_orders ≡ [] → b.timers ≡ [] → Backed (init b)
  unfolding init
  opened-Backed b e f = record {
    named = λ id o g. ground (arith, lookup-empty {V = SimulatedOrder} id);
    orders = λ id o g. absurd (ground (arith, lookup-empty {V = SimulatedOrder} id));
    timers = rw f tt;
  }

  pub Running-keeps :
      {p : PositionManager SimulatedBroker} → Running p → IsSettled uuid Anywhere p × Backed p
  unfolding deliver update_target_position terminate
  Running-keeps (opened b e f) = (
    Reach-IsSettled simulated Anywhere simulated-IsPolite uuid fresh b tt here,
    opened-Backed b e f,
  )
  Running-keeps (given_target {p} s n t) =
      let (k, h) = Running-keeps t in
      (Step-IsSettled simulated Anywhere simulated-IsPolite uuid fresh (retarget s n) k, h)
  Running-keeps (told_to_end {p} t) =
      let (k, h) = Running-keeps t in
      (Step-IsSettled simulated Anywhere simulated-IsPolite uuid fresh finish k, h)
  Running-keeps (looped {p} t) =
      let (k, h) = Running-keeps t in
      (Step-IsSettled simulated Anywhere simulated-IsPolite uuid fresh round k, cycle-Backed p h)
  Running-keeps (worked {p} id draw t) =
      let (k, h) = Running-keeps t in
      let (g, h') = thread_step-IsBacked uuid fresh p.issued p.live_orders p.broker id draw h in
      (deliver-IsSettled (thread_step id draw p.broker) p g k, h')
  Running-keeps (timer_fired {p} t) =
      let (k, h) = Running-keeps t in
      let (g, h') = fire_timer-IsBacked uuid fresh p.issued p.live_orders p.broker h in
      (deliver-IsSettled (fire_timer p.broker) p g k, h')

  -- With identifiers that are never drawn twice, and starting from a new position manager and a
  -- simulated broker without orders and timers, every state that new targets, rounds of the loop,
  -- rounds of the threads of orders, timers and termination lead to, in any order, is settled: the
  -- dicts of orders agree, the queued confirmations are genuine, and every symbol that no queue
  -- names has its target as its working position.
  pub Running-IsSettled :
      {p : PositionManager SimulatedBroker} → Running p → IsSettled uuid (λ b. Unit) p
  Running-IsSettled t = (Running-keeps t).0

  -- With identifiers that are never drawn twice, in every state of a position manager that starts
  -- new with a simulated broker without orders and timers, and goes on by targets, rounds of its
  -- loop, rounds of threads, timers and termination, a symbol that neither queue names and that
  -- has no live orders has its target as its position.
  pub simulated_at_target :
      {p : PositionManager SimulatedBroker}
      → Running p
      → (s : String) → is_named s p.trade_confirmations_q ≡ false
      → is_updated s p.target_updates_q ≡ false
      → ids_of p s ≡ []
      → position_of p s ≡ target_of p s
  simulated_at_target t s quiet steady none_live =
      settled_at_target (Running-keeps t).0 s quiet steady none_live
