-- ===== src/SimulatedBroker/Coverage.antt =====
-- No order is lost between position_manager.py and simulated_broker.py: an order that the position
-- manager holds live has a thread in the broker, or the report of its end is on its way.
use flow_manager.Base.{
  ==_iff, Bool, Bool-cases, List, Option, Option-cases, String, [], arith, false, inl, inr,
  list_cases, none, refl, some, string_eq, subst, suc, sym, true, ℕ, ◌++◌, ◌||◌, ◌∷◌, ◌≡◌,
}
use flow_manager.Broker.{Reply, TradeConfirmationMessage, is_terminal}
use flow_manager.Dict.{erase, insert, lookup, lookup-erase, lookup-insert, lookup-insert_self}
use flow_manager.Float.{Float}
use flow_manager.Int.{pos, ℤ}
use flow_manager.PositionManager.{PositionManager}
use flow_manager.PositionManager.Endings.{is_ended, is_ended-append}
use flow_manager.SimulatedBroker.{
  SimulatedBroker, SimulatedOrder, cancel_order, duplicate_rejection, execute, final_confirmation,
  final_status, fire_timer, internal_sim_trade_callback, is_executing, open_order, request_cancel,
  submit_order, thread_step,
}
use flow_manager.SimulatedBroker.Threads.{thread_step_ends, thread_step_goes_on}

-- The broker has a thread for the order.
unfoldable pub has_thread : String → SimulatedBroker → Bool
has_thread id b = elim (lookup id b.live_orders) [ none ↦ false | some o ↦ true ]

unfoldable pub is_live : {B : Type 0} → String → PositionManager B → Bool
is_live id p = elim (lookup id p.live_orders) [ none ↦ false | some o ↦ true ]

-- The order has a thread, or its end is in the queue or held by a timer.
abbrev pub is_held : String → List TradeConfirmationMessage → SimulatedBroker → Bool
is_held id q b = has_thread id b || (is_ended id q || is_ended id b.timers)

-- Nothing that is live is lost.
abbrev pub AllHeld : PositionManager SimulatedBroker → Type 0
AllHeld p = (id : String) → is_live id p ≡ true → is_held id p.trade_confirmations_q p.broker ≡ true

-- What a thread, a timer or a call of the broker keeps.
pub record Keeps (b : SimulatedBroker) (confirmed : List TradeConfirmationMessage)
    (b' : SimulatedBroker) : Type 0 where
  pub callback : b'.has_callback ≡ b.has_callback
  pub held : (id : String) → is_held id [] b ≡ true → is_held id confirmed b' ≡ true

Keeps-refl : (b : SimulatedBroker) → Keeps b [] b
Keeps-refl b = record { callback = refl; held = λ id h. h }

final_is_terminal : (o : SimulatedOrder) → is_terminal (final_confirmation o).status ≡ true
unfolding final_confirmation final_status is_terminal
final_is_terminal o = elim (Bool-cases o.cancelling) [ inl e ↦ rw e | inr e ↦ rw e ]

has_thread-insert :
    (k id : String) (o x : SimulatedOrder) (b : SimulatedBroker)
    → lookup k b.live_orders ≡ some o
    → has_thread id (record b { live_orders = insert k x b.live_orders }) ≡ has_thread id b
unfolding has_thread
has_thread-insert k id o x b e = ground (arith, lookup-insert k id x b.live_orders, ==_iff k id)

Keeps-insert :
    (k : String) (o x : SimulatedOrder) (b : SimulatedBroker)
    → lookup k b.live_orders ≡ some o
    → Keeps b [] (record b { live_orders = insert k x b.live_orders })
Keeps-insert k o x b e = record {
  callback = refl;
  held = λ id h. rw (has_thread-insert k id o x b e) h;
}

-- The thread that leaves reports the end of its order.
Keeps-erase :
    (id : String) (o : SimulatedOrder) (b : SimulatedBroker)
    → o.client_order_id ≡ id
    → Keeps b
        (final_confirmation o ∷ [])
        (record b { live_orders = erase o.client_order_id b.live_orders })
unfolding has_thread is_ended final_confirmation
Keeps-erase id o b named = record {
  callback = refl;
  held = λ j h.
      ground (
        arith,
        h,
        lookup-erase o.client_order_id j b.live_orders,
        over,
        ==_iff o.client_order_id j,
      );
}
  where
    over : is_terminal (final_status o) ≡ true
    over = unfold final_confirmation in final_is_terminal o

pub thread_step_missing :
    (id : String) (draw : ℕ) (b : SimulatedBroker)
    → lookup id b.live_orders ≡ none
    → thread_step id draw b ≡ ([], b)
unfolding thread_step
thread_step_missing id draw b e = ground arith

pub thread_step-Keeps :
    (id : String) (draw : ℕ) (b : SimulatedBroker)
    → b.has_callback ≡ true
    → ((o : SimulatedOrder) → lookup id b.live_orders ≡ some o → o.client_order_id ≡ id)
    → Keeps b (thread_step id draw b).0 (thread_step id draw b).1
thread_step-Keeps id draw b r named = elim (Option-cases (lookup id b.live_orders)) [
  | inl e ↦ rw (thread_step_missing id draw b e) (Keeps-refl b)
  | inr (o, e) ↦ elim (Bool-cases (is_executing o)) [
    | inl more ↦
        rw (thread_step_goes_on id draw o b e more) (Keeps-insert id o (execute draw o) b e)
    | inr over ↦ rw (thread_step_ends id draw o b r e over) (Keeps-erase id o b (named o e))
  ]
]

pub thread_step_callback :
    (id : String) (draw : ℕ) (b : SimulatedBroker)
    → (thread_step id draw b).1.has_callback ≡ b.has_callback
unfolding thread_step internal_sim_trade_callback
thread_step_callback id draw b = ground arith

pub fire_timer-Keeps : (b : SimulatedBroker) → Keeps b (fire_timer b).0 (fire_timer b).1
unfolding has_thread is_ended fire_timer
fire_timer-Keeps b = elim (list_cases b.timers) [
  | inl e ↦ rw (fire_timer, e) (record { callback = refl; held = λ id h. ground (arith, h) })
  | inr (c, rest, e) ↦
      rw (fire_timer, e) (record { callback = refl; held = λ id h. ground (arith, h) })
]

pub cancel_order-Keeps :
    (id : String) (b : SimulatedBroker)
    → Keeps b (cancel_order id b).confirmations (cancel_order id b).after
unfolding cancel_order
cancel_order-Keeps id b = elim (Option-cases (lookup id b.live_orders)) [
  | inl e ↦ rw (cancel_order, e) (Keeps-refl b)
  | inr (o, e) ↦ rw (cancel_order, e) (Keeps-insert id o (request_cancel o) b e)
]

module _ (id s type : String) (n : ℤ) (buying : Bool) (price : Option Float)
    (b : SimulatedBroker) where
  abbrev opened_ : SimulatedOrder
  opened_ = open_order (pos b.next_broker_order_id) id s n buying

  abbrev refused : SimulatedBroker
  refused = record b { timers = b.timers ++ duplicate_rejection id s buying ∷ [] }

  abbrev accepted : SimulatedBroker
  accepted = record b {
    next_broker_order_id = suc b.next_broker_order_id;
    live_orders = insert id opened_ b.live_orders;
  }

  abbrev answer : Option ℤ → SimulatedBroker → Reply (Option ℤ) SimulatedBroker
  answer result after = record { result = result; confirmations = []; after = after }

  abbrev Known : Reply (Option ℤ) SimulatedBroker → Type 0
  Known x = Keeps b x.confirmations x.after × (has_thread id x.after ≡ true)

  -- After a submission the order has a thread.
  pub submit_order-Keeps :
      b.has_callback ≡ true
      → let r = submit_order id s n buying type price b in
        Keeps b r.confirmations r.after × (has_thread id r.after ≡ true)
  unfolding has_thread is_ended submit_order
  submit_order-Keeps r = elim (Option-cases (lookup id b.live_orders)) [
    | inr (o, e) ↦
        let f : submit_order id s n buying type price b ≡ answer none refused = ground arith in
        subst Known (sym f) (
          record {
            callback = refl;
            held = λ j h.
                ground
                  (arith, h, is_ended-append j b.timers (duplicate_rejection id s buying ∷ []));
          },
          rw (has_thread, e) refl,
        )
    | inl e ↦
        let f : submit_order id s n buying type price b
            ≡ answer (some (pos b.next_broker_order_id)) accepted =
          ground arith in
        subst Known (sym f) (
          record {
            callback = refl;
            held = λ j h. ground (arith, h, lookup-insert id j opened_ b.live_orders);
          },
          rw (has_thread, lookup-insert_self id opened_ b.live_orders) refl,
        )
  ]

  pub submit_order_callback :
      (submit_order id s n buying type price b).after.has_callback ≡ b.has_callback
  unfolding submit_order
  submit_order_callback = ground arith
