-- ===== src/CppBroker/Unpriced.antt =====
-- The position manager of position_manager.py with the broker of cpp_ob_broker.py. The position
-- manager submits market orders, with no price, and this broker rejects an order with no price.
use flow_manager.Base.{
  All, All-append, Bool, Bool-cases, List, String, [], false, if◌then◌else◌, inl, inr, nat_eq, none,
  refl, some, string_eq, subst, sym, ℕ, ◌==◌, ◌∙◌, ◌∷◌, ◌≡◌,
}
use flow_manager.Broker.{BrokerInterface, Reply, TradeConfirmationMessage}
use flow_manager.CppBroker.{
  CppOrderBookBroker, Network, Outcome, blocked, details_under, dispatch_rejection, raised,
  rejection, returned, start_cpp, stop_cpp,
}
use flow_manager.CppBroker.Cancel.{cancel_known, cancel_order_cpp, find_order}
use flow_manager.CppBroker.Submit.{submit_order_cpp}
use flow_manager.Dict.{lookup, lookup-empty}
use flow_manager.Ids.{set_union}
use flow_manager.Int.{int_laws, parts, pos, ℤ, ◌-ℤ◌}
use flow_manager.PositionManager.{
  PositionManager, init, position_of, process_all, process_target_updates,
  process_trade_confirmations, terminate, update_target_position,
}
use flow_manager.PositionManager.Cancelling.{asked, cancel_live_order_cases}
use flow_manager.PositionManager.Confirmations.{net}
use flow_manager.PositionManager.Contract.{IsPolite}
use flow_manager.PositionManager.Cycle.{IsSettled, cycle_lem}
use flow_manager.PositionManager.Orders.{cancel_live_order, cycle, place_order}
use flow_manager.PositionManager.Preserving.{reconcile_positions_keeps}
use flow_manager.PositionManager.Reading.{process_all_keeps}
use flow_manager.PositionManager.Run.{Reach-IsSettled, Step-IsSettled, finish, here, retarget}
use flow_manager.PositionManager.Targets.{process_target_updates_lem}
use flow_manager.PositionManager.Tracking.{IsFresh}

-- A call in the form of the interface. The log of the broker holds what the call confirms. A call
-- that does not return would give the fallback.
abbrev pub reply_of : {A : Type 0} → A → CppOrderBookBroker → Outcome A → Reply A CppOrderBookBroker
reply_of fallback b (returned a b') = record {
  result = a;
  confirmations = b'.confirmed;
  after = record b' { confirmed = [] };
}
reply_of fallback b (raised b') = record { result = fallback; confirmations = []; after = b }
reply_of fallback b (blocked b') = record { result = fallback; confirmations = []; after = b }

abbrev pub fresh_log : CppOrderBookBroker → CppOrderBookBroker
fresh_log b = record b { confirmed = [] }

-- The network may behave differently in each state of the broker.
module _ (upper : String → String) (network : CppOrderBookBroker → Network) where
  abbrev pub cpp : BrokerInterface CppOrderBookBroker
  cpp = record {
    submit_order = λ id s n buying type price b.
        reply_of none b (submit_order_cpp upper id s n buying type price (network b) (fresh_log b));
    cancel_order = λ id b. reply_of false b (cancel_order_cpp id (network b) (fresh_log b));
    start = λ b. elim (start_cpp (network b) b) [
      | returned _ b' ↦ some b'
      | raised b' ↦ none
      | blocked b' ↦ none
    ];
    stop = λ b. (reply_of tt b (stop_cpp (fresh_log b))).after;
  }

  -- The lock is free, and no order is held.
  abbrev pub HoldsNothing : CppOrderBookBroker → Type 0
  HoldsNothing b = (b.is_locked ≡ false) × (b.client_to_broker_id_map ≡ [])

  cancel_unknown :
      (id : String) (b : CppOrderBookBroker)
      → HoldsNothing b
      → cancel_order_cpp id (network b) (fresh_log b) ≡ returned false (fresh_log b)
  unfolding cancel_order_cpp find_order cancel_known details_under
  cancel_unknown id b (free, empty) =
      let missing : lookup id b.client_to_broker_id_map ≡ none = rw empty (lookup-empty id) in
      rw (free, missing) refl

  abbrev IsUnfilled : TradeConfirmationMessage → Type 0
  IsUnfilled c = c.filled_quantity ≡ pos 0

  -- A submission without a price gets no identifier, and is answered at once by a rejection of the
  -- order. Nothing is sent to the server and no map changes.
  pub submit_unpriced :
      (id s : String) (n : ℤ) (buying : Bool) (type : String) (b : CppOrderBookBroker)
      → cpp.submit_order id s n buying type none b
        ≡ record { result = none; confirmations = rejection id s buying ∷ []; after = fresh_log b }
  unfolding submit_order_cpp dispatch_rejection
  submit_unpriced id s n buying type b = refl

  pub cpp-IsPolite : IsPolite cpp HoldsNothing
  cpp-IsPolite = record {
    cancel_ok = λ id b h. rw (cancel_unknown id b h) h;
    cancel_quiet = λ id b h. rw (cancel_unknown id b h) refl;
    submit_ok = λ id s n buying b h. rw (submit_unpriced id s n buying "MARKET" b) h;
    submit_answers = λ id s n buying b h.
        rw (submit_unpriced id s n buying "MARKET" b) (unfold rejection in ((refl, refl), tt));
  }

  -- No confirmation in the queue is of a fill, and every position is 0.
  pub record IsIdle (uuid : ℕ → String) (p : PositionManager CppOrderBookBroker) : Type 0 where
    pub settled : IsSettled uuid HoldsNothing p
    pub unfilled_q : All IsUnfilled p.trade_confirmations_q
    pub flat : (s : String) → position_of p s ≡ pos 0

  net-IsUnfilled :
      (s : String) (q : List TradeConfirmationMessage) → All IsUnfilled q → net s q ≡ pos 0
  unfolding net
  net-IsUnfilled s [] h = refl
  net-IsUnfilled s (c ∷ q) (e, h) =
      let zero_trade : (if c.side_is_buy then c.filled_quantity else pos 0 -ℤ c.filled_quantity)
          ≡ pos 0 =
        elim (Bool-cases c.side_is_buy) [
          | inl b ↦ rw b e
          | inr b ↦ rw b (omega (int_laws, parts e))
        ] in
      let rest = net-IsUnfilled s q h in
      elim (Bool-cases (c.symbol == s)) [
        | inl b ↦ rw (b, zero_trade, rest) (omega int_laws)
        | inr b ↦ rw (b, rest) (omega int_laws)
      ]

  module _ (uuid : ℕ → String) (fresh : IsFresh uuid) where
    -- The runs of the loop with new targets, in which the broker reports nothing by itself.
    pub data Traded : PositionManager CppOrderBookBroker → Type 0 where
      created : (b : CppOrderBookBroker) → HoldsNothing b → Traded (init b)
      aimed_at :
          {p : PositionManager CppOrderBookBroker} (s : String) (n : ℤ)
          → Traded p
          → Traded (update_target_position s n p)
      turned : {p : PositionManager CppOrderBookBroker} → Traded p → Traded (cycle cpp uuid p)
      ended : {p : PositionManager CppOrderBookBroker} → Traded p → Traded (terminate p)

    abbrev NoFills : PositionManager CppOrderBookBroker → Type 0
    NoFills p = HoldsNothing p.broker × All IsUnfilled p.trade_confirmations_q

    cancels :
        (buying : Bool) (id : String) (p : PositionManager CppOrderBookBroker)
        → NoFills p
        → NoFills (cancel_live_order cpp uuid buying id p)
    cancels buying id p (h, u) =
        let kept : NoFills (asked cpp uuid buying id p) = (
          cpp-IsPolite.cancel_ok id p.broker h,
          All-append IsUnfilled p.trade_confirmations_q (cpp.cancel_order id p.broker).confirmations
              u (rw (cpp-IsPolite.cancel_quiet id p.broker h) tt),
        ) in
        cancel_live_order_cases cpp uuid buying NoFills id p (h, u) kept (λ o e open_. kept)

    places :
        (buying : Bool) (s : String) (n : ℤ) (p : PositionManager CppOrderBookBroker)
        → NoFills p
        → NoFills (place_order cpp uuid buying s n p)
    unfolding place_order
    places buying s n p (h, u) = (
      rw (submit_unpriced (uuid p.issued) s n buying "MARKET" p.broker) h,
      All-append IsUnfilled p.trade_confirmations_q
          (cpp.submit_order (uuid p.issued) s n buying "MARKET" none p.broker).confirmations u
          (rw (submit_unpriced (uuid p.issued) s n buying "MARKET" p.broker)
            (unfold rejection in (refl, tt))),
    )

    cycle-NoFills :
        (p : PositionManager CppOrderBookBroker) → NoFills p → NoFills (cycle cpp uuid p)
    unfolding cycle process_trade_confirmations
    cycle-NoFills p (h, u) =
        let unread : PositionManager CppOrderBookBroker = record p { trade_confirmations_q = [] } in
        let traded = (process_all p.trade_confirmations_q [] unread).1 in
        let keeps = process_all_keeps p.trade_confirmations_q [] unread in
        reconcile_positions_keeps cpp uuid NoFills cancels places
          (set_union (process_all p.trade_confirmations_q [] unread).0
            (process_target_updates traded).0)
          (process_target_updates traded).1
          (subst NoFills (sym (process_target_updates_lem traded "").2)
            (rw keeps.0 h, rw keeps.2 tt))

    pub Traded-IsIdle : {p : PositionManager CppOrderBookBroker} → Traded p → IsIdle uuid p
    unfolding init lookup update_target_position terminate
    Traded-IsIdle (created b h) = record {
      settled = Reach-IsSettled cpp HoldsNothing cpp-IsPolite uuid fresh b h here;
      unfilled_q = tt;
      flat = λ s. refl;
    }
    Traded-IsIdle (aimed_at {p} s n t) =
        let k = Traded-IsIdle t in
        record {
          settled =
              Step-IsSettled cpp HoldsNothing cpp-IsPolite uuid fresh (retarget s n) k.settled;
          unfilled_q = k.unfilled_q;
          flat = λ r. k.flat r;
        }
    Traded-IsIdle (turned {p} t) =
        let k = Traded-IsIdle t in
        let (settled, _, _, moved) =
          cycle_lem cpp HoldsNothing cpp-IsPolite uuid fresh p k.settled in
        record {
          settled = settled;
          unfilled_q = (cycle-NoFills p (k.settled.queued.ok, k.unfilled_q)).1;
          flat = λ s.
              moved s
              ∙ rw (k.flat s, net-IsUnfilled s p.trade_confirmations_q k.unfilled_q)
                  (omega int_laws);
        }
    Traded-IsIdle (ended {p} t) =
        let k = Traded-IsIdle t in
        record {
          settled = Step-IsSettled cpp HoldsNothing cpp-IsPolite uuid fresh finish k.settled;
          unfilled_q = k.unfilled_q;
          flat = λ r. k.flat r;
        }

    -- With `CppOrderBookBroker` no position ever moves, when the lock is free and no order is held
    -- at the start and identifiers are never drawn twice: in every state that new targets, rounds
    -- of the loop and termination lead to, every position is 0, whatever the server would answer.
    pub never_trades :
        {p : PositionManager CppOrderBookBroker} → Traded p → (s : String) → position_of p s ≡ pos 0
    never_trades t s = (Traded-IsIdle t).flat s
