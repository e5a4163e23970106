-- ===== src/CppBroker/Rejections.antt =====
-- Orders that cpp_ob_broker.py rejects.
use flow_manager.Base.{
  Bool, Option, String, [], ap, arith, false, if_false, if◌then◌else◌, nat_eq, none, refl, some,
  string_eq, suc, ℕ, ◌++◌, ◌==◌, ◌||◌, ◌∙◌, ◌∷◌, ◌≡◌,
}
use flow_manager.Broker.{OrderDetails, rejected}
use flow_manager.CppBroker.{
  CppOrderBookBroker, Network, Outcome, Request, ServerReply, add_order, cleanup_order_maps,
  dispatch_rejection, is_ok, rejection, returned, send_request_to_ob, ◌>>=◌, ◌>>◌,
}
use flow_manager.CppBroker.Requests.{
  get_next_broker_id_lem, next_id, outcome_of, send_request-total, store_order_lem, with_order,
}
use flow_manager.CppBroker.Submit.{after_reply, give_up, submit_order_cpp, submit_priced, submitted}
use flow_manager.Dict.{erase, erase-insert_absent, lookup}
use flow_manager.Float.{Float, float, truncate}
use flow_manager.Int.{negsuc, pos, ℤ}

module _ (upper : String → String) (client_id symbol : String) (quantity : ℤ) (buying : Bool)
    (type : String) where
  abbrev details : Float → CppOrderBookBroker → OrderDetails
  details price b = submitted client_id (next_id b) symbol quantity buying (upper type) price

  abbrev request : ℤ → CppOrderBookBroker → Request
  request whole b =
      add_order client_id (next_id b) symbol (if buying then "Buy" else "Sell") whole quantity
        (if upper type == "GTC" then "GoodTillCancel" else "FillAndKill")

  -- A priced order is stored and sent; the rest of the call is up to the reply.
  pub submit_priced_lem :
      (price : Float) (whole : ℤ) (net : Network) (b b' : CppOrderBookBroker)
      (reply : Option ServerReply)
      → b.is_locked ≡ false
      → truncate price ≡ some whole
      → send_request_to_ob (request whole b) net (with_order client_id (details price b) b)
        ≡ returned reply b'
      → submit_order_cpp upper client_id symbol quantity buying type (some price) net b
        ≡ after_reply client_id (next_id b) symbol buying price reply b'
  unfolding submit_order_cpp submit_priced
  submit_priced_lem price whole net b b' reply free t s =
      rw (get_next_broker_id_lem b free, submit_order_cpp, submit_priced, ◌>>=◌)
        (rw
          (
            store_order_lem client_id (next_id b) (details price b)
                (record b { broker_order_id_counter = next_id b; is_locked = false }) refl,
            ◌>>◌,
            ◌>>=◌,
          )
          (rw t (rw (s, ◌>>=◌) refl)))

-- The clean-up of an order, by a thread that does not hold the lock.
pub cleanup_lem :
    (client_id : String) (broker_id : ℕ) (b : CppOrderBookBroker)
    → b.is_locked ≡ false
    → cleanup_order_maps client_id broker_id b
      ≡ returned tt (record b {
        is_locked = false;
        client_to_broker_id_map = erase client_id b.client_to_broker_id_map;
        broker_to_client_id_map = erase broker_id b.broker_to_client_id_map;
        broker_id_to_order_details = erase broker_id b.broker_id_to_order_details;
      })
unfolding cleanup_order_maps
cleanup_lem client_id broker_id b h = ground arith

give_up_lem :
    (client_id : String) (broker_id : ℕ) (symbol : String) (buying : Bool) (b : CppOrderBookBroker)
    → b.is_locked ≡ false
    → give_up client_id broker_id symbol buying b
      ≡ returned none (record b {
        is_locked = false;
        client_to_broker_id_map = erase client_id b.client_to_broker_id_map;
        broker_to_client_id_map = erase broker_id b.broker_to_client_id_map;
        broker_id_to_order_details = erase broker_id b.broker_id_to_order_details;
        confirmed = b.confirmed ++ rejection client_id symbol buying ∷ [];
      })
unfolding give_up dispatch_rejection
give_up_lem client_id broker_id symbol buying b h = rw (
  cleanup_lem client_id broker_id
      (record b { confirmed = b.confirmed ++ rejection client_id symbol buying ∷ [] }) h,
  ◌>>=◌,
)

after_reply_failed :
    (client_id : String) (broker_id : ℕ) (symbol : String) (buying : Bool) (price : Float)
    (reply : Option ServerReply) (b : CppOrderBookBroker)
    → is_ok reply ≡ false
    → after_reply client_id broker_id symbol buying price reply b
      ≡ give_up client_id broker_id symbol buying b
unfolding after_reply
after_reply_failed client_id broker_id symbol buying price none b h = refl
after_reply_failed client_id broker_id symbol buying price (some r) b h = rw (if_false _ _ _ h)

-- What an order that failed leaves behind: the rejection, and a used identifier.
pub record IsRestored (client_id symbol : String) (buying : Bool) (b : CppOrderBookBroker)
    (r : Outcome (Option ℤ)) : Type 0 where
  pub state : CppOrderBookBroker
  pub result : r ≡ returned none state
  pub clients : state.client_to_broker_id_map ≡ b.client_to_broker_id_map
  pub brokers : state.broker_to_client_id_map ≡ b.broker_to_client_id_map
  pub details : state.broker_id_to_order_details ≡ b.broker_id_to_order_details
  pub unlocked : state.is_locked ≡ false
  pub counter : state.broker_order_id_counter ≡ suc b.broker_order_id_counter
  pub confirmed :
      state.confirmed
      ≡ b.confirmed
        ++ (record {
          order_id = negsuc 0;
          client_order_id = client_id;
          symbol = symbol;
          filled_quantity = pos 0;
          side_is_buy = buying;
          price = float (pos 0);
          status = rejected;
        })
          ∷ []

-- When the lock is free, the price has a whole part, and neither the client identifier nor the
-- next broker identifier is in use, a priced order that the server does not acknowledge, for
-- whatever reason, returns no identifier, is confirmed once, as REJECTED with identifier -1,
-- quantity 0 and price 0, and leaves the three maps and the lock as they were; only the counter
-- has moved.
pub submit_order_cpp-IsRestored :
    (upper : String → String) (client_id symbol : String) (quantity : ℤ) (buying : Bool)
    (type : String) (price : Float) (whole : ℤ) (net : Network) (b : CppOrderBookBroker)
    → b.is_locked ≡ false
    → truncate price ≡ some whole
    → lookup client_id b.client_to_broker_id_map ≡ none
    → lookup (next_id b) b.broker_to_client_id_map ≡ none
    → lookup (next_id b) b.broker_id_to_order_details ≡ none
    → is_ok (if b.is_connected || net.connects then outcome_of net else none) ≡ false
    → IsRestored client_id symbol buying b
        (submit_order_cpp upper client_id symbol quantity buying type (some price) net b)
unfolding rejection
submit_order_cpp-IsRestored upper client_id symbol quantity buying type price whole net b free t
      new_client new_broker new_details failed =
    let o = submitted client_id (next_id b) symbol quantity buying (upper type) price in
    let reply = if b.is_connected || net.connects then outcome_of net else none in
    let sent =
      send_request-total
        (add_order client_id (next_id b) symbol (if buying then "Buy" else "Sell") whole quantity
          (if upper type == "GTC" then "GoodTillCancel" else "FillAndKill"))
        net (with_order client_id o b) in
    let b' = sent.0 in
    let a = sent.2 in
    record {
      state = record b' {
        is_locked = false;
        client_to_broker_id_map = erase client_id b'.client_to_broker_id_map;
        broker_to_client_id_map = erase (next_id b) b'.broker_to_client_id_map;
        broker_id_to_order_details = erase (next_id b) b'.broker_id_to_order_details;
        confirmed = b'.confirmed ++ rejection client_id symbol buying ∷ [];
      };
      result =
          submit_priced_lem upper client_id symbol quantity buying type price whole net b b' reply
            free t sent.1
          ∙ after_reply_failed client_id (next_id b) symbol buying price reply b' failed
          ∙ give_up_lem client_id (next_id b) symbol buying b' a.unlocked;
      clients =
          ap (erase client_id) a.clients
          ∙ erase-insert_absent client_id (next_id b) b.client_to_broker_id_map new_client;
      brokers =
          ap (erase (next_id b)) a.brokers
          ∙ erase-insert_absent (next_id b) client_id b.broker_to_client_id_map new_broker;
      details =
          ap (erase (next_id b)) a.details
          ∙ erase-insert_absent (next_id b) o b.broker_id_to_order_details new_details;
      unlocked = refl;
      counter = a.counter;
      confirmed = ap (λ c. c ++ rejection client_id symbol buying ∷ []) a.confirmed;
    }
