-- ===== src/CppBroker/Cancel.antt =====
-- `cancel_order` and `get_market_data_snapshot` of position_manager/app/brokers/cpp_ob_broker.py.
use flow_manager.Base.{
  Bool, List, Option, String, [], false, get_or, if◌then◌else◌, nat_eq, none, some, string_eq, true,
  ℕ, ◌&&◌,
}
use flow_manager.Broker.{OrderDetails, cancelled, is_closing, pending_cancel, working}
use flow_manager.CppBroker.{
  Action, Network, ServerReply, cancel_request, cleanup_order_maps, confirm_to, details_under,
  get_book_info, gets, is_ok, is_text, pure, send_request_to_ob, set_status, update_details,
  with_lock, ◌>>=◌, ◌>>◌,
}
use flow_manager.CppBroker.Submit.{cancel_confirmation}
use flow_manager.Dict.{lookup}
use flow_manager.Float.{Float, float, or_zero}
use flow_manager.Int.{pos}

unfoldable pub is_cancelled_by : Option ServerReply → Bool
unfolding is_ok
is_cancelled_by none = false
is_cancelled_by (some r) = is_ok (some r) && is_text "CANCELLED" r.final_status

-- `price or 0.0`
unfoldable pub price_or_zero : Option Float → Float
unfolding or_zero
price_or_zero none = float (pos 0)
price_or_zero (some x) = or_zero x

unfoldable pub after_cancel_reply : String → ℕ → OrderDetails → Option ServerReply → Action Bool
unfolding price_or_zero cancel_confirmation is_cancelled_by
after_cancel_reply client_id broker_id o reply =
    if is_cancelled_by reply
    then (do
      update_details broker_id (set_status cancelled)
      confirm_to
          (cancel_confirmation client_id broker_id o.symbol o.side_is_buy (price_or_zero o.price))
      cleanup_order_maps client_id broker_id
      pure true)
    else (do update_details broker_id (set_status working); pure false)

-- The order is marked before the request goes out, and set back to working if the server fails to
-- cancel it.
unfoldable pub cancel_known : String → Option ℕ → Option OrderDetails → Network → Action Bool
unfolding is_closing
cancel_known client_id none o net = pure false
cancel_known client_id (some broker_id) none net = pure false
cancel_known client_id (some broker_id) (some o) net =
    if is_closing o.status then pure false else (do
      update_details broker_id (set_status pending_cancel)
      reply ← send_request_to_ob (cancel_request broker_id) net
      after_cancel_reply client_id broker_id o reply)

-- The order under a client's identifier, read under the lock.
unfoldable pub find_order : String → Action (Option ℕ × Option OrderDetails)
unfolding details_under
find_order client_id = with_lock do
  broker_id ← gets λ b. lookup client_id b.client_to_broker_id_map
  o ← gets λ b. details_under broker_id b
  pure (broker_id, o)

unfoldable pub cancel_order_cpp : String → Network → Action Bool
cancel_order_cpp client_id net = do
  (broker_id, o) ← find_order client_id
  cancel_known client_id broker_id o net

pub record BookSnapshot : Type 0 where
  pub bids : List (ℕ × ℕ)
  pub asks : List (ℕ × ℕ)

unfoldable pub book_of : Option ServerReply → Option BookSnapshot
unfolding is_ok
book_of none = none
book_of (some r) =
    if is_ok (some r)
    then some (record { bids = get_or r.bids []; asks = get_or r.asks [] })
    else none

unfoldable pub get_market_data_snapshot : String → Network → Action (Option BookSnapshot)
unfolding book_of
get_market_data_snapshot symbol net = do
  reply ← send_request_to_ob (get_book_info symbol) net
  pure (book_of reply)
