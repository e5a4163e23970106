-- ===== src/CppBroker/Submit.antt =====
-- `submit_order` of position_manager/app/brokers/cpp_ob_broker.py. `upper` is Python's `str.upper`.
use flow_manager.Base.{
  Bool, List, Option, String, [], false, get_or, if◌then◌else◌, nat_eq, none, some, string_eq, true,
  ℕ, ◌==◌, ◌∷◌,
}
use flow_manager.Broker.{
  OrderDetails, Status, TradeConfirmationMessage, acknowledged, cancelled, filled, partially_filled,
  pending_ack, working,
}
use flow_manager.CppBroker.{
  Action, FillInfo, Network, ServerReply, add_order, cleanup_order_maps, confirm_to,
  dispatch_rejection, get_next_broker_id, gets, is_ok, is_text, modify, or_raise, pure,
  send_request_to_ob, set_status, update_details, with_lock, ◌>>=◌, ◌>>◌,
}
use flow_manager.Dict.{insert, lookup}
use flow_manager.Float.{Float, float, truncate}
use flow_manager.Int.{leb_ℤ, ltb_ℤ, pos, ℤ, ◌+ℤ◌}

unfoldable pub is_filled : Status → Bool
is_filled filled = true
is_filled _ = false

unfoldable pub is_acknowledged : Status → Bool
is_acknowledged acknowledged = true
is_acknowledged _ = false

-- The order after a fill of it.
unfoldable pub filled_more : ℤ → OrderDetails → OrderDetails
unfolding is_filled
filled_more quantity o =
    let total = o.filled_quantity +ℤ quantity in
    record o {
      filled_quantity = total;
      status =
          if leb_ℤ o.quantity total
          then filled
          else (if is_filled o.status then o.status else working);
    }

unfoldable pub fill_confirmation : String → ℕ → OrderDetails → ℤ → ℤ → TradeConfirmationMessage
fill_confirmation client_id broker_id o quantity price = record {
  order_id = pos broker_id;
  client_order_id = client_id;
  symbol = o.symbol;
  filled_quantity = quantity;
  side_is_buy = o.side_is_buy;
  price = float price;
  status = if leb_ℤ o.quantity (o.filled_quantity +ℤ quantity) then filled else partially_filled;
}

-- A fill of a known order: booked, confirmed, and the order forgotten when it is complete.
unfoldable pub book_fill : String → ℕ → OrderDetails → Option ℤ → ℤ → Action (Unit {0})
unfolding filled_more fill_confirmation cleanup_order_maps
book_fill client_id broker_id o fill_price quantity = do
  update_details broker_id (filled_more quantity)
  price ← or_raise fill_price
  confirm_to (fill_confirmation client_id broker_id o quantity price)
  if leb_ℤ o.quantity (o.filled_quantity +ℤ quantity)
      then cleanup_order_maps client_id broker_id
      else pure tt

unfoldable pub report_fill : FillInfo → ℕ → Option String → Option OrderDetails → Action (Unit {0})
report_fill fill broker_id none o = pure tt
report_fill fill broker_id (some client_id) none = pure tt
report_fill fill broker_id (some client_id) (some o) = if client_id == "" then pure tt else do
  quantity ← or_raise fill.traded_quantity
  if ltb_ℤ (pos 0) quantity then book_fill client_id broker_id o fill.price quantity else pure tt

-- The body of the loop over the trades. A fill of no identifier is ignored.
unfoldable pub process_fill_of : FillInfo → Option ℕ → Action (Unit {0})
unfolding report_fill
process_fill_of fill none = with_lock (pure tt)
process_fill_of fill (some broker_id) = do
  (client_id, o) ← with_lock (
      gets λ b.
        (lookup broker_id b.broker_to_client_id_map, lookup broker_id b.broker_id_to_order_details))
  report_fill fill broker_id client_id o

unfoldable pub process_fills : List FillInfo → Action (Unit {0})
process_fills [] = pure tt
process_fills (fill ∷ fills) = do process_fill_of fill fill.order_id_filled; process_fills fills

unfoldable pub cancel_confirmation : String → ℕ → String → Bool → Float → TradeConfirmationMessage
cancel_confirmation client_id broker_id symbol side_is_buy price = record {
  order_id = pos broker_id;
  client_order_id = client_id;
  symbol = symbol;
  filled_quantity = pos 0;
  side_is_buy = side_is_buy;
  price = price;
  status = cancelled;
}

-- What becomes of an order that is still in the maps, by the final status that the server gives.
-- All of it runs under the lock, `_cleanup_order_maps` too, which takes the lock itself.
unfoldable pub conclude_order :
    String → ℕ → String → Bool → Float → Option String → OrderDetails → Action (Unit {0})
unfolding is_filled is_acknowledged cancel_confirmation
conclude_order client_id broker_id symbol side_is_buy price final_status o =
    if is_text "FILLED" final_status
    then (if is_filled o.status then pure tt else (do
      update_details broker_id (set_status filled)
      cleanup_order_maps client_id broker_id))
    else (if is_text "REJECTED_BY_BOOK" final_status
        then (do
          confirm_to (cancel_confirmation client_id broker_id symbol side_is_buy price)
          update_details broker_id (set_status cancelled)
          cleanup_order_maps client_id broker_id)
        else (if is_acknowledged o.status
            then update_details broker_id (set_status working)
            else pure tt))

unfoldable pub conclude : String → ℕ → String → Bool → Float → Option String → Action (Unit {0})
conclude client_id broker_id symbol side_is_buy price final_status = with_lock do
  current ← gets λ b. lookup broker_id b.broker_id_to_order_details
  elim current [
    | none ↦ pure tt
    | some o ↦ conclude_order client_id broker_id symbol side_is_buy price final_status o
  ]

-- The order was not acknowledged.
unfoldable pub give_up : String → ℕ → String → Bool → Action (Option ℤ)
give_up client_id broker_id symbol side_is_buy = do
  dispatch_rejection client_id symbol side_is_buy
  cleanup_order_maps client_id broker_id
  pure none

unfoldable pub accept : String → ℕ → String → Bool → Float → ServerReply → Action (Option ℤ)
accept client_id broker_id symbol side_is_buy price reply = do
  update_details broker_id (set_status acknowledged)
  process_fills (get_or reply.trades [])
  conclude client_id broker_id symbol side_is_buy price reply.order_final_status_in_book
  pure (some (pos broker_id))

unfoldable pub after_reply :
    String → ℕ → String → Bool → Float → Option ServerReply → Action (Option ℤ)
unfolding is_ok
after_reply client_id broker_id symbol side_is_buy price none =
    give_up client_id broker_id symbol side_is_buy
after_reply client_id broker_id symbol side_is_buy price (some reply) =
    if is_ok (some reply)
    then accept client_id broker_id symbol side_is_buy price reply
    else give_up client_id broker_id symbol side_is_buy

unfoldable pub submitted : String → ℕ → String → ℤ → Bool → String → Float → OrderDetails
submitted client_id broker_id symbol quantity side_is_buy type price = record {
  client_order_id = client_id;
  broker_order_id = some (pos broker_id);
  symbol = symbol;
  quantity = quantity;
  side_is_buy = side_is_buy;
  type = type;
  price = some price;
  status = pending_ack;
  filled_quantity = pos 0;
}

-- The order is written to the three maps before it is sent.
unfoldable pub store_order : String → ℕ → OrderDetails → Action (Unit {0})
store_order client_id broker_id o = with_lock (
    modify λ b. record b {
      client_to_broker_id_map = insert client_id broker_id b.client_to_broker_id_map;
      broker_to_client_id_map = insert broker_id client_id b.broker_to_client_id_map;
      broker_id_to_order_details = insert broker_id o b.broker_id_to_order_details;
    })

module _ (upper : String → String) where
  unfoldable pub submit_priced :
      String → String → ℤ → Bool → String → Float → Network → Action (Option ℤ)
  unfolding submitted
  submit_priced client_id symbol quantity side_is_buy order_type price net = do
    broker_id ← get_next_broker_id
    store_order client_id broker_id
        (submitted client_id broker_id symbol quantity side_is_buy (upper order_type) price)
    whole ← or_raise (truncate price)
    let request =
        add_order client_id broker_id symbol (if side_is_buy then "Buy" else "Sell") whole quantity
          (if upper order_type == "GTC" then "GoodTillCancel" else "FillAndKill")
    reply ← send_request_to_ob request net
    after_reply client_id broker_id symbol side_is_buy price reply

  -- An order with no price is rejected before anything else is done.
  unfoldable pub submit_order_cpp :
      String → String → ℤ → Bool → String → Option Float → Network → Action (Option ℤ)
  unfolding dispatch_rejection
  submit_order_cpp client_id symbol quantity side_is_buy order_type none net = do
    dispatch_rejection client_id symbol side_is_buy
    pure none
  submit_order_cpp client_id symbol quantity side_is_buy order_type (some price) net =
      submit_priced client_id symbol quantity side_is_buy order_type price net
