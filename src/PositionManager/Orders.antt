-- ===== src/PositionManager/Orders.antt =====
-- `_reconcile_positions` and `run` of position_manager/app/position_manager.py, over the interface
-- of the broker and the supply of `uuid4` identifiers. A broker's callback only appends to
-- `trade_confirmations_q`, so what a call of the broker confirms is appended after the call.
use flow_manager.Base.{
  Bool, List, Option, String, [], false, if◌then◌else◌, none, not, some, string_eq, suc, true, ℕ,
  ◌&&◌, ◌++◌, ◌∷◌,
}
use flow_manager.Broker.{
  BrokerInterface, OrderDetails, TradeConfirmationMessage, is_closing, pending_cancel, pending_new,
}
use flow_manager.Dict.{insert, lookup}
use flow_manager.Ids.{set_union}
use flow_manager.Int.{abs, eqb_ℤ, ltb_ℤ, pos, ℤ, ◌-ℤ◌}
use flow_manager.PositionManager.{
  PositionManager, calculate_working_position, ids_of, process_target_updates,
  process_trade_confirmations, target_of, terminate, trade_confirmation_callback,
  update_target_position,
}

-- A new buy order cancels the sell orders, and a new sell order the buy orders.
unfoldable pub opposes : Bool → Bool → Bool
opposes true side_is_buy = not side_is_buy
opposes false side_is_buy = side_is_buy

-- An order is marked while the cancellation is under way.
unfoldable pub marked : OrderDetails → OrderDetails
marked order = record order { status = pending_cancel }

unfoldable pub new_order : String → String → ℤ → Bool → OrderDetails
new_order id symbol amount buying = record {
  client_order_id = id;
  broker_order_id = none;
  symbol = symbol;
  quantity = amount;
  side_is_buy = buying;
  type = "MARKET";
  price = none;
  status = pending_new;
  filled_quantity = pos 0;
}

-- What other threads do between two tests of `terminate_flag`.
pub data Input : Type 0 where
  confirmation : TradeConfirmationMessage → Input
  target_update : String → ℤ → Input
  termination : Input

unfoldable pub arrive : {B : Type 0} → Input → PositionManager B → PositionManager B
unfolding trade_confirmation_callback update_target_position terminate
arrive (confirmation conf) p = trade_confirmation_callback conf p
arrive (target_update symbol target) p = update_target_position symbol target p
arrive termination p = terminate p

unfoldable pub arrive_all : {B : Type 0} → List Input → PositionManager B → PositionManager B
unfolding arrive
arrive_all [] p = p
arrive_all (i ∷ is) p = arrive_all is (arrive i p)

module _ {B : Type 0} (api : BrokerInterface B) (uuid : ℕ → String) where
  -- One round of the loops that cancel the orders of the other side.
  unfoldable pub cancel_live_order : Bool → String → PositionManager B → PositionManager B
  unfolding marked opposes is_closing
  cancel_live_order buying id p = elim (lookup id p.live_orders) [
    | none ↦ p
    | some order ↦
        let reply = api.cancel_order id p.broker in
        let asked : PositionManager B = record p {
          broker = reply.after;
          trade_confirmations_q = p.trade_confirmations_q ++ reply.confirmations;
        } in
        if opposes buying order.side_is_buy && not (is_closing order.status)
        then (if reply.result
            then record asked { live_orders = insert id (marked order) p.live_orders }
            else asked)
        else p
  ]

  unfoldable pub cancel_opposing : Bool → List String → PositionManager B → PositionManager B
  cancel_opposing buying [] p = p
  cancel_opposing buying (id ∷ ids) p = cancel_opposing buying ids (cancel_live_order buying id p)

  -- A new market order under a new identifier.
  unfoldable pub place_order : Bool → String → ℤ → PositionManager B → PositionManager B
  unfolding new_order
  place_order buying symbol amount p =
      let id = uuid p.issued in
      let order = new_order id symbol amount buying in
      let live = insert id order p.live_orders in
      let reply = api.submit_order id symbol amount buying "MARKET" none p.broker in
      record p {
        issued = suc p.issued;
        broker = reply.after;
        trade_confirmations_q = p.trade_confirmations_q ++ reply.confirmations;
        live_orders_by_symbol = insert symbol (ids_of p symbol ++ id ∷ []) p.live_orders_by_symbol;
        live_orders = elim reply.result [
          | none ↦ live
          | some b ↦ insert id (record order { broker_order_id = some b }) live
        ];
      }

  unfoldable pub adjust : Bool → String → ℤ → PositionManager B → PositionManager B
  adjust buying symbol delta p =
      place_order buying symbol (abs delta) (cancel_opposing buying (ids_of p symbol) p)

  unfoldable pub reconcile_symbol : String → PositionManager B → PositionManager B
  reconcile_symbol symbol p =
      let delta = target_of p symbol -ℤ calculate_working_position p symbol in
      if eqb_ℤ delta (pos 0)
      then p
      else (if ltb_ℤ (pos 0) delta then adjust true symbol delta p else adjust false symbol delta p)

  unfoldable pub reconcile_positions : List String → PositionManager B → PositionManager B
  reconcile_positions [] p = p
  reconcile_positions (symbol ∷ symbols) p = reconcile_positions symbols (reconcile_symbol symbol p)

  -- The body of the loop of `run`.
  unfoldable pub cycle : PositionManager B → PositionManager B
  cycle p =
      let (from_trades, traded) = process_trade_confirmations p in
      let (from_targets, aimed) = process_target_updates traded in
      let symbols = set_union from_trades from_targets in reconcile_positions symbols aimed

  -- The loop of `run`, and whether it has ended. Each list holds what arrives before one test of
  -- the flag; the loop goes on after the last list.
  unfoldable pub run_loop : List (List Input) → PositionManager B → Bool × PositionManager B
  run_loop [] p = (false, p)
  run_loop (arriving ∷ later) p =
      let q = arrive_all arriving p in
      let rest = run_loop later (cycle q) in
      if q.terminate_flag then (true, record q { broker = api.stop q.broker }) else rest

  -- `run`: the broker is started first. When that raises, the thread ends there, before its loop,
  -- with nothing changed (`none`).
  unfoldable pub run : List (List Input) → PositionManager B → Option (Bool × PositionManager B)
  unfolding run_loop
  run arriving p = elim (api.start p.broker) [
    | none ↦ none
    | some b ↦ some (run_loop arriving (record p { broker = b }))
  ]
