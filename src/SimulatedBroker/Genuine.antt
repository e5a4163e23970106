-- ===== src/SimulatedBroker/Genuine.antt =====
-- The confirmations that simulated_broker.py is going to give, and the orders that
-- position_manager.py holds.
use flow_manager.Base.{
  ==_iff, All, All-mono, Bool, Bool-cases, List, Option-cases, String, [], ap, arith, false,
  if◌then◌else◌, inl, inr, refl, some, string_eq, subst, sym, true, ℕ, ◌==◌, ◌∙◌, ◌∷◌, ◌≡◌,
}
use flow_manager.Broker.{OrderDetails, TradeConfirmationMessage}
use flow_manager.Dict.{Dict, erase, insert, lookup, lookup-erase, lookup-insert}
use flow_manager.PositionManager.Contract.{IsGenuine}
use flow_manager.PositionManager.Tracking.{IsFresh}
use flow_manager.SimulatedBroker.{
  SimulatedBroker, SimulatedOrder, cancel_order, execute, final_confirmation, fire_timer,
  internal_sim_trade_callback, is_executing, request_cancel, thread_step,
}

module _ (uuid : ℕ → String) (fresh : IsFresh uuid) where
  -- Every order of the broker stands under its own identifier, and what it will report and what the
  -- timers hold are genuine confirmations.
  pub record IsBacked (issued : ℕ) (live : Dict String OrderDetails) (b : SimulatedBroker)
      : Type 0 where
    pub named :
        (id : String) (o : SimulatedOrder)
        → lookup id b.live_orders ≡ some o
        → o.client_order_id ≡ id
    pub orders :
        (id : String) (o : SimulatedOrder)
        → lookup id b.live_orders ≡ some o
        → IsGenuine uuid issued live (final_confirmation o)
    pub timers : All (IsGenuine uuid issued live) b.timers

  -- Being genuine depends on the identifier and the symbol only.
  IsGenuine-same :
      (issued : ℕ) (live : Dict String OrderDetails) (c c' : TradeConfirmationMessage)
      → c'.client_order_id ≡ c.client_order_id
      → c'.symbol ≡ c.symbol
      → IsGenuine uuid issued live c
      → IsGenuine uuid issued live c'
  IsGenuine-same issued live c c' i s g = record {
    drawn = λ j h e. g.drawn j h (sym i ∙ e);
    matches = λ x e. g.matches x (ap (λ k. lookup k live) (sym i) ∙ e) ∙ sym s;
  }

  pub IsBacked-mono :
      (issued issued' : ℕ) (live live' : Dict String OrderDetails) (b : SimulatedBroker)
      → ((c : TradeConfirmationMessage)
          → IsGenuine uuid issued live c
          → IsGenuine uuid issued' live' c)
      → IsBacked issued live b
      → IsBacked issued' live' b
  IsBacked-mono issued issued' live live' b f h = record {
    named = h.named;
    orders = λ id o e. f (final_confirmation o) (h.orders id o e);
    timers =
        All-mono (IsGenuine uuid issued live) (IsGenuine uuid issued' live') b.timers f h.timers;
  }

  module _ (issued : ℕ) (live : Dict String OrderDetails) (b : SimulatedBroker) where
    -- An order of the broker changes, but neither its identifier nor its symbol.
    IsBacked-update :
        (id : String) (o o' : SimulatedOrder)
        → lookup id b.live_orders ≡ some o
        → o'.client_order_id ≡ o.client_order_id
        → o'.symbol ≡ o.symbol
        → IsBacked issued live b
        → IsBacked issued live (record b { live_orders = insert id o' b.live_orders })
    unfolding final_confirmation
    IsBacked-update id o o' found i s h = record {
      named = λ j x e.
          ground
            (arith, lookup-insert id j o' b.live_orders, ==_iff id j, h.named id o, h.named j x);
      orders = λ j x e. elim (Bool-cases (id == j)) [
        | inl hit ↦
            let f : o' ≡ x = ground (arith, lookup-insert id j o' b.live_orders) in
            subst (λ (y : SimulatedOrder). IsGenuine uuid issued live (final_confirmation y)) f
              (IsGenuine-same issued live (final_confirmation o) (final_confirmation o') i s
                (h.orders id o found))
        | inr ne ↦ h.orders j x (ground (arith, lookup-insert id j o' b.live_orders))
      ];
      timers = h.timers;
    }

    pub cancel_order-IsBacked :
        (id : String) → IsBacked issued live b → IsBacked issued live (cancel_order id b).after
    unfolding cancel_order request_cancel
    cancel_order-IsBacked id h = elim (Option-cases (lookup id b.live_orders)) [
      | inl e ↦ rw (e, cancel_order) h
      | inr (o, e) ↦ rw (e, cancel_order) (IsBacked-update id o (request_cancel o) e refl refl h)
    ]

    IsBacked-erase :
        (id : String)
        → IsBacked issued live b
        → IsBacked issued live (record b { live_orders = erase id b.live_orders })
    IsBacked-erase id h = record {
      named = λ j x e. h.named j x (ground (arith, lookup-erase id j b.live_orders));
      orders = λ j x e. h.orders j x (ground (arith, lookup-erase id j b.live_orders));
      timers = h.timers;
    }

    abbrev Fine : List TradeConfirmationMessage × SimulatedBroker → Type 0
    Fine r = All (IsGenuine uuid issued live) r.0 × IsBacked issued live r.1

    abbrev reports : Bool → SimulatedOrder → List TradeConfirmationMessage
    reports registered o = if registered then final_confirmation o ∷ [] else []

    -- A round of a thread: what is reported is genuine.
    pub thread_step-IsBacked :
        (id : String) (draw : ℕ)
        → IsBacked issued live b
        → All (IsGenuine uuid issued live) (thread_step id draw b).0
          × IsBacked issued live (thread_step id draw b).1
    unfolding thread_step internal_sim_trade_callback execute final_confirmation
    thread_step-IsBacked id draw h = elim (Option-cases (lookup id b.live_orders)) [
      | inl e ↦ let f : thread_step id draw b ≡ ([], b) = ground arith in subst Fine (sym f) (tt, h)
      | inr (o, e) ↦ elim (Bool-cases (is_executing o)) [
        | inl runs ↦
            let f : thread_step id draw b
                ≡ ([], record b { live_orders = insert id (execute draw o) b.live_orders }) =
              ground arith in
            subst Fine (sym f) (tt, IsBacked-update id o (execute draw o) e refl refl h)
        | inr over ↦
            let f : thread_step id draw b ≡ (
              reports b.has_callback o,
              record b { live_orders = erase o.client_order_id b.live_orders },
            ) =
              ground arith in
            subst Fine (sym f) (
              genuine_reports b.has_callback o (h.orders id o e),
              IsBacked-erase o.client_order_id h,
            )
      ]
    ]
      where
        genuine_reports :
            (registered : Bool) (o : SimulatedOrder)
            → IsGenuine uuid issued live (final_confirmation o)
            → All (IsGenuine uuid issued live) (reports registered o)
        genuine_reports true o g = (g, tt)
        genuine_reports false o g = tt

    -- A timer fires.
    pub fire_timer-IsBacked :
        IsBacked issued live b
        → All (IsGenuine uuid issued live) (fire_timer b).0 × IsBacked issued live (fire_timer b).1
    unfolding fire_timer
    fire_timer-IsBacked h = fired b.timers refl
      where
        fired : (timers : List TradeConfirmationMessage) → b.timers ≡ timers → Fine (fire_timer b)
        fired [] e = let f : fire_timer b ≡ ([], b) = ground arith in subst Fine (sym f) (tt, h)
        fired (c ∷ rest) e =
            let f : fire_timer b ≡ (c ∷ [], record b { timers = rest }) = ground arith in
            let (first, others) = subst (All (IsGenuine uuid issued live)) e h.timers in
            subst Fine (sym f)
              ((first, tt), record { named = h.named; orders = h.orders; timers = others })
