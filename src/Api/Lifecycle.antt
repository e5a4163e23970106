-- ===== src/Api/Lifecycle.antt =====
-- The application of main_api.py from its start-up to its shutdown, with the requests and the rounds
-- of the position manager's thread that come in between.
use mathlib.Core.List.{append-nil, append_assoc}
use flow_manager.Base.{
  Bool, Bool-cases, List, String, [], ap, arith, false, get_or, if◌then◌else◌, inl, inr, nat_eq,
  refl, string_eq, subst, sym, true, ℕ, ◌++◌, ◌||◌, ◌∙◌, ◌∷◌, ◌≡◌,
}
use flow_manager.Api.{
  App, get_market_data_api, get_system_state_api, lifespan_shutdown, lifespan_startup, not_started,
  set_target_position_api, start_thread, started,
}
use flow_manager.Api.Responses.{get_market_data_api_lem}
use flow_manager.Broker.{BrokerInterface}
use flow_manager.CppBroker.{CppOrderBookBroker, Network, init_cpp, start_cpp}
use flow_manager.Dict.{lookup-empty}
use flow_manager.Int.{pos, ℤ}
use flow_manager.PositionManager.{PositionManager, init, terminate, update_target_position}
use flow_manager.PositionManager.Loop.{HasEnded, arrive-flag, run_loop_set}
use flow_manager.PositionManager.Orders.{Input, cycle, run_loop}
use flow_manager.PositionManager.Pending.{
  cycle-aim, get_or-append, pending_target, pending_target-update,
}
use flow_manager.PositionManager.Targets.{last_target}

pub data Traffic : Type 0 where
  target_request : String → ℤ → Traffic
  state_request : Traffic
  market_data_request : String → Network → Traffic
  a_round : Traffic

-- The targets that are asked for.
unfoldable pub requested : List Traffic → List (String × ℤ)
requested [] = []
requested (target_request s n ∷ ts) = (s, n) ∷ requested ts
requested (_ ∷ ts) = requested ts

module _ (api : BrokerInterface CppOrderBookBroker) (uuid : ℕ → String) (alive : Bool) where
  -- The loop of the position manager takes a round, while its thread is alive.
  unfoldable pub take_round : App → App
  take_round not_started = not_started
  take_round (started p) = if alive then started (cycle api uuid p) else started p

  unfoldable pub handle : Traffic → App → App
  unfolding take_round set_target_position_api get_system_state_api get_market_data_api
  handle (target_request s n) app = (set_target_position_api s n app).1
  handle state_request app = (get_system_state_api app).1
  handle (market_data_request s network) app = (get_market_data_api s network app).1
  handle a_round app = take_round app

  unfoldable pub handle_all : List Traffic → App → App
  unfolding handle
  handle_all [] app = app
  handle_all (t ∷ ts) app = handle_all ts (handle t app)

requested-cons :
    (t : Traffic) (ts : List Traffic) → requested (t ∷ ts) ≡ requested (t ∷ []) ++ requested ts
unfolding requested
requested-cons (target_request s n) ts = refl
requested-cons state_request ts = refl
requested-cons (market_data_request s network) ts = refl
requested-cons a_round ts = refl

-- The application runs with a new position manager, whose broker is connected if one of the two
-- attempts has succeeded; otherwise the thread is lost.
startup_with_thread :
    (network retry : Network)
    → (network.connects || retry.connects) ≡ true
    → lifespan_startup network retry
      ≡ (started (init (record init_cpp { is_connected = true })), true)
unfolding lifespan_startup start_thread start_cpp init init_cpp
startup_with_thread network retry h = elim (Bool-cases network.connects) [
  | inl up ↦ ground (arith, up)
  | inr down ↦ ground (arith, down, h)
]

startup_without_thread :
    (network retry : Network)
    → network.connects ≡ false
    → retry.connects ≡ false
    → lifespan_startup network retry ≡ (started (init init_cpp), false)
unfolding lifespan_startup start_thread start_cpp init init_cpp
startup_without_thread network retry down still_down = ground (arith, down, still_down)

module _ (api : BrokerInterface CppOrderBookBroker) (uuid : ℕ → String) where
  -- The application runs, and its position manager aims at the targets.
  pub record IsServing (aim : String → ℤ) (app : App) : Type 0 where
    pub manager : PositionManager CppOrderBookBroker
    pub running : app ≡ started manager
    pub aims : (s : String) → pending_target manager s ≡ aim s

  handle-IsServing :
      (t : Traffic) (p : PositionManager CppOrderBookBroker)
      → IsServing
          (λ s. get_or (last_target s (requested (t ∷ []))) (pending_target p s))
          (handle api uuid true t (started p))
  unfolding handle requested set_target_position_api get_system_state_api take_round last_target
  handle-IsServing (target_request s n) p = record {
    manager = update_target_position s n p;
    running = refl;
    aims = λ r. pending_target-update p s r n;
  }
  handle-IsServing state_request p = record { manager = p; running = refl; aims = λ r. refl }
  handle-IsServing (market_data_request s network) p =
      let (answer_, same) = get_market_data_api_lem s network p in
      record {
        manager = same.manager;
        running = same.running;
        aims = λ r. ap (λ q. pending_target q r) same.same;
      }
  handle-IsServing a_round p = record {
    manager = cycle api uuid p;
    running = refl;
    aims = (cycle-aim api uuid p).0;
  }

  handle_all-IsServing :
      (ts : List Traffic) (p : PositionManager CppOrderBookBroker)
      → IsServing
          (λ s. get_or (last_target s (requested ts)) (pending_target p s))
          (handle_all api uuid true ts (started p))
  unfolding handle_all requested last_target
  handle_all-IsServing [] p = record { manager = p; running = refl; aims = λ s. refl }
  handle_all-IsServing (t ∷ ts) p =
      let first = handle-IsServing t p in
      let rest = handle_all-IsServing ts first.manager in
      record {
        manager = rest.manager;
        running = ap (handle_all api uuid true ts) first.running ∙ rest.running;
        aims = λ s.
            rest.aims s
            ∙ ap (get_or (last_target s (requested ts))) (first.aims s)
            ∙ sym (get_or-append s (requested (t ∷ [])) (requested ts) (pending_target p s))
            ∙ ap (λ q. get_or (last_target s q) (pending_target p s)) (sym (requested-cons t ts));
      }

  shutdown-HasEnded :
      (p : PositionManager CppOrderBookBroker) (is : List Input) (later : List (List Input))
      → (q : PositionManager CppOrderBookBroker) × (lifespan_shutdown (started p) ≡ started q)
        × HasEnded api uuid (run_loop api uuid (is ∷ later) q)
  unfolding lifespan_shutdown terminate
  shutdown-HasEnded p is later =
      let q : PositionManager CppOrderBookBroker = record (terminate p) {
        broker = record p.broker { is_connected = false };
      } in
      (q, refl, run_loop_set api uuid is later q (arrive-flag is q refl))

  fresh_aim :
      (s : String) → pending_target (init (record init_cpp { is_connected = true })) s ≡ pos 0
  unfolding init last_target
  fresh_aim s = ground (arith, lookup-empty {V = ℤ} s)

  -- When the server can be reached at the start of the application or at the second attempt of the
  -- thread of the position manager: after any sequence of requests for targets, for the state and
  -- for market data and of rounds of the position manager, whatever its broker answers, the
  -- application runs, and the target of every symbol, pending updates included, is the last that
  -- was asked for, or else 0; and after the shutdown the loop of the position manager ends at its
  -- next test, with the broker stopped, whatever arrives before it.
  pub lifespan_lem :
      (network retry : Network) (ts : List Traffic) (is : List Input) (later : List (List Input))
      → (network.connects || retry.connects) ≡ true
      → let (app, alive) = lifespan_startup network retry in
        (p q : PositionManager CppOrderBookBroker) × (handle_all api uuid alive ts app ≡ started p)
        × ((s : String) → pending_target p s ≡ get_or (last_target s (requested ts)) (pos 0))
        × (lifespan_shutdown (started p) ≡ started q)
        × HasEnded api uuid (run_loop api uuid (is ∷ later) q)
  lifespan_lem network retry ts is later up =
      let p = init (record init_cpp { is_connected = true }) in
      let went = startup_with_thread network retry up in
      let handled = handle_all-IsServing ts p in
      let (q, down, over) = shutdown-HasEnded handled.manager is later in
      (
        handled.manager,
        q,
        ap (λ x. handle_all api uuid x.1 ts x.0) went ∙ handled.running,
        λ s. handled.aims s ∙ ap (get_or (last_target s (requested ts))) (fresh_aim s),
        down,
        over,
      )

  -- Without its thread the position manager only has its queue of updates filled.
  pub record IsIdling (q : List (String × ℤ)) (app : App) : Type 0 where
    pub manager : PositionManager CppOrderBookBroker
    pub running : app ≡ started manager
    pub pending : manager.target_updates_q ≡ q
    pub targets : manager.target_positions ≡ []
    pub live : manager.live_orders ≡ []

  handle-IsIdling :
      (t : Traffic) (q : List (String × ℤ)) (app : App)
      → IsIdling q app
      → IsIdling (q ++ requested (t ∷ [])) (handle api uuid false t app)
  unfolding handle requested set_target_position_api get_system_state_api take_round
      update_target_position
  handle-IsIdling (target_request s n) q app h = record {
    manager = update_target_position s n h.manager;
    running = ap (λ a. (set_target_position_api s n a).1) h.running;
    pending = ap (λ x. x ++ (s, n) ∷ []) h.pending;
    targets = h.targets;
    live = h.live;
  }
  handle-IsIdling state_request q app h = rw (append-nil q) (record {
    manager = h.manager;
    running = ap (λ a. (get_system_state_api a).1) h.running;
    pending = h.pending;
    targets = h.targets;
    live = h.live;
  })
  handle-IsIdling (market_data_request s network) q app h =
      let (answer_, same) = get_market_data_api_lem s network h.manager in
      rw (append-nil q) (record {
        manager = same.manager;
        running = ap (λ a. (get_market_data_api s network a).1) h.running ∙ same.running;
        pending = ap (λ x. x.target_updates_q) same.same ∙ h.pending;
        targets = ap (λ x. x.target_positions) same.same ∙ h.targets;
        live = ap (λ x. x.live_orders) same.same ∙ h.live;
      })
  handle-IsIdling a_round q app h = rw (append-nil q) (record {
    manager = h.manager;
    running = ap (take_round api uuid false) h.running;
    pending = h.pending;
    targets = h.targets;
    live = h.live;
  })

  handle_all-IsIdling :
      (ts : List Traffic) (q : List (String × ℤ)) (app : App)
      → IsIdling q app
      → IsIdling (q ++ requested ts) (handle_all api uuid false ts app)
  unfolding handle_all requested
  handle_all-IsIdling [] q app h = rw (append-nil q) h
  handle_all-IsIdling (t ∷ ts) q app h =
      subst (λ x. IsIdling x (handle_all api uuid false (t ∷ ts) app))
        (append_assoc q (requested (t ∷ [])) (requested ts)
          ∙ ap (λ x. q ++ x) (sym (requested-cons t ts)))
        (handle_all-IsIdling ts (q ++ requested (t ∷ [])) (handle api uuid false t app)
          (handle-IsIdling t q app h))

  -- When the server can be reached neither at the start of the application nor at the second
  -- attempt, by the thread of the position manager, the application runs without that thread:
  -- after any sequence of requests every target that was asked for is still in the queue, in
  -- order, no target is set and no order is live.
  pub thread_lost :
      (network retry : Network) (ts : List Traffic)
      → network.connects ≡ false
      → retry.connects ≡ false
      → let (app, alive) = lifespan_startup network retry in
        IsIdling (requested ts) (handle_all api uuid alive ts app)
  unfolding init
  thread_lost network retry ts down still_down =
      subst (λ x. IsIdling (requested ts) (handle_all api uuid x.1 ts x.0))
        (sym (startup_without_thread network retry down still_down))
        (handle_all-IsIdling ts [] (started (init init_cpp)) (record {
          manager = init init_cpp;
          running = refl;
          pending = refl;
          targets = refl;
          live = refl;
        }))
