-- ===== src/Api/Responses.antt =====
-- What the requests of main_api.py get.
use flow_manager.Base.{
  Bool-cases, Option, Option-cases, String, [], ap, arith, get_or, if_false, if_true, if◌then◌else◌,
  inl, inr, nat_eq, none, refl, some, string_eq, subst, sym, true, ℕ, ◌==◌, ◌||◌, ◌∙◌, ◌≡◌,
}
use flow_manager.Api.{
  App, Response, get_market_data_api, http_exception, market_data_response, set_target_position_api,
  started, success,
}
use flow_manager.Broker.{BrokerInterface}
use flow_manager.CppBroker.{
  CppOrderBookBroker, Network, ServerReply, get_book_info, is_ok, returned, send_request_to_ob,
  ◌>>=◌,
}
use flow_manager.CppBroker.Cancel.{BookSnapshot, book_of, get_market_data_snapshot}
use flow_manager.CppBroker.Requests.{Asked, outcome_of, send_request-total}
use flow_manager.Int.{ℤ}
use flow_manager.PositionManager.{PositionManager, target_of, update_target_position}
use flow_manager.PositionManager.Orders.{cycle}
use flow_manager.PositionManager.Pending.{cycle-target, pending_target, pending_target-update}
use flow_manager.PositionManager.Targets.{last_target}

-- An answer of the server that carries a book, or the code for none.
unfoldable pub market_data_from : Option ServerReply → Response BookSnapshot
market_data_from none = http_exception 404
market_data_from (some r) = elim r.status [
  | none ↦ http_exception 404
  | some status ↦
      if "OK" == status
      then success (record { bids = get_or r.bids []; asks = get_or r.asks [] })
      else http_exception 404
]

market_data_from-book_of :
    (r : Option ServerReply)
    → market_data_from r
      ≡ (elim (book_of r) [ some book ↦ success book | none ↦ http_exception 404 ])
unfolding market_data_from book_of is_ok
market_data_from-book_of none = refl
market_data_from-book_of (some r) = elim (Option-cases r.status) [
  | inl e ↦ rw e refl
  | inr (status, e) ↦ elim (Bool-cases ("OK" == status)) [
    | inl ok ↦ rw (e, ok) refl
    | inr bad ↦ rw (e, bad) refl
  ]
]

-- What a market data request gets when it ends: the code, and the book of the server's answer.
unfoldable pub market_data_of : Network → PositionManager CppOrderBookBroker → Response BookSnapshot
market_data_of network p =
    if p.broker.is_connected then market_data_from (outcome_of network) else http_exception 503

-- The application as it was, but for the connection and the log of requests.
pub record SameApp (p : PositionManager CppOrderBookBroker) (app : App) : Type 0 where
  pub manager : PositionManager CppOrderBookBroker
  pub running : app ≡ started manager
  pub same : manager ≡ record p { broker = manager.broker }
  pub orders : Asked p.broker manager.broker

market_data_snapshot_lem :
    (symbol : String) (network : Network) (b b' : CppOrderBookBroker)
    → send_request_to_ob (get_book_info symbol) network b ≡ returned (outcome_of network) b'
    → get_market_data_snapshot symbol network b ≡ returned (book_of (outcome_of network)) b'
unfolding get_market_data_snapshot
market_data_snapshot_lem symbol network b b' e = rw (e, ◌>>=◌)

module _ (symbol : String) (network : Network) (p : PositionManager CppOrderBookBroker) where
  -- A request is answered as told, and leaves the application as it was.
  abbrev IsAnswered : Response BookSnapshot × App → Type 0
  IsAnswered r = (r.0 ≡ market_data_of network p) × SameApp p r.1

  response-IsAnswered :
      (b : CppOrderBookBroker)
      → p.broker.is_connected ≡ true
      → Asked p.broker b
      → IsAnswered (market_data_response p (returned (book_of (outcome_of network)) b))
  unfolding market_data_response market_data_of
  response-IsAnswered b up a = elim (Option-cases (book_of (outcome_of network))) [
    | inl e ↦ (ground (arith, up, e, market_data_from-book_of (outcome_of network)), rw e left)
    | inr (book, e) ↦
        (ground (arith, up, e, market_data_from-book_of (outcome_of network)), rw e left)
  ]
    where
      left : SameApp p (started (record p { broker = b }))
      left = record { manager = record p { broker = b }; running = refl; same = refl; orders = a }

  -- A request for market data to a started application gets 503 when the broker is not connected,
  -- the book of the answer when the server answers OK, and 404 otherwise; the handler always ends,
  -- and only the connection and the log of requests can have changed.
  pub get_market_data_api_lem :
      let r = get_market_data_api symbol network (started p) in
      (r.0 ≡ market_data_of network p) × SameApp p r.1
  unfolding get_market_data_api
  get_market_data_api_lem = elim (Bool-cases p.broker.is_connected) [
    | inr down ↦
        subst IsAnswered
          (sym (
            if_false p.broker.is_connected
              (market_data_response p (get_market_data_snapshot symbol network p.broker))
              (http_exception 503, started p) down))
          (
            unfold market_data_of in ground (arith, down),
            record {
              manager = p;
              running = refl;
              same = refl;
              orders = record {
                counter = refl;
                unlocked = refl;
                clients = refl;
                brokers = refl;
                details = refl;
                confirmed = refl;
              };
            },
          )
    | inl up ↦
        let (b, e, kept) = send_request-total (get_book_info symbol) network p.broker in
        let e' : send_request_to_ob (get_book_info symbol) network p.broker
            ≡ returned (outcome_of network) b =
          e
          ∙ ap (λ x. returned (if x || network.connects then outcome_of network else none) b) up in
        subst IsAnswered
          (sym (
            if_true p.broker.is_connected
              (market_data_response p (get_market_data_snapshot symbol network p.broker))
              (http_exception 503, started p) up
            ∙ ap (market_data_response p) (market_data_snapshot_lem symbol network p.broker b e')))
          (response-IsAnswered b up kept)
  ]

-- A request for a target to a started application succeeds, and after the next round of the
-- position manager, whatever its broker does, the target of the symbol is the quantity of the
-- request and the target of every other symbol is its last pending update or else what it was.
pub set_target_position_api_lem :
    (api : BrokerInterface CppOrderBookBroker) (uuid : ℕ → String) (symbol : String) (quantity : ℤ)
    (p : PositionManager CppOrderBookBroker)
    → (q : PositionManager CppOrderBookBroker) × (set_target_position_api symbol quantity
          (started p)
        ≡ (success tt, started q))
      × ((s : String)
          → target_of (cycle api uuid q) s ≡ (if symbol == s then quantity else pending_target p s))
unfolding set_target_position_api last_target
set_target_position_api_lem api uuid symbol quantity p = (
  update_target_position symbol quantity p,
  refl,
  λ s.
      cycle-target api uuid (update_target_position symbol quantity p) s
      ∙ pending_target-update p symbol s quantity
      ∙ ground arith,
)
