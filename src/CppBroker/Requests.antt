-- ===== src/CppBroker/Requests.antt =====
-- The steps that the calls of cpp_ob_broker.py share: storing an order, and asking the server.
use flow_manager.Base.{
  Bool-cases, Option, String, [], arith, false, if◌then◌else◌, inl, inr, nat_eq, none, refl, some,
  string_eq, suc, true, ℕ, ◌++◌, ◌||◌, ◌∷◌, ◌≡◌,
}
use flow_manager.Broker.{OrderDetails}
use flow_manager.CppBroker.{
  Action, CppOrderBookBroker, Exchange, Network, Request, ServerReply, answer, get_next_broker_id,
  other_error, returned, send_request_to_ob, timeout, zmq_error, ◌>>=◌,
}
use flow_manager.CppBroker.Submit.{store_order}
use flow_manager.Dict.{insert}

-- The state once an order has been stored under the next identifier.
abbrev pub next_id : CppOrderBookBroker → ℕ
next_id b = suc b.broker_order_id_counter

abbrev pub with_order : String → OrderDetails → CppOrderBookBroker → CppOrderBookBroker
with_order client_id o b = record b {
  broker_order_id_counter = next_id b;
  is_locked = false;
  client_to_broker_id_map = insert client_id (next_id b) b.client_to_broker_id_map;
  broker_to_client_id_map = insert (next_id b) client_id b.broker_to_client_id_map;
  broker_id_to_order_details = insert (next_id b) o b.broker_id_to_order_details;
}

-- A step that returns is followed by the next one.
pub bind_returned :
    {A B : Type 0} (m : Action A) (f : A → Action B) (b b' : CppOrderBookBroker) (a : A)
    → m b ≡ returned a b'
    → (m >>= f) b ≡ f a b'
bind_returned m f b b' a e = rw (e, ◌>>=◌)

pub get_next_broker_id_lem :
    (b : CppOrderBookBroker)
    → b.is_locked ≡ false
    → get_next_broker_id b
      ≡ returned (next_id b) (record b { broker_order_id_counter = next_id b; is_locked = false })
unfolding get_next_broker_id
get_next_broker_id_lem b h = ground arith

pub store_order_lem :
    (client_id : String) (id : ℕ) (o : OrderDetails) (b : CppOrderBookBroker)
    → b.is_locked ≡ false
    → store_order client_id id o b
      ≡ returned tt (record b {
        is_locked = false;
        client_to_broker_id_map = insert client_id id b.client_to_broker_id_map;
        broker_to_client_id_map = insert id client_id b.broker_to_client_id_map;
        broker_id_to_order_details = insert id o b.broker_id_to_order_details;
      })
unfolding store_order
store_order_lem client_id id o b h = ground arith

-- The server answers: the socket is open or can be opened.
abbrev pub IsReachable : Network → CppOrderBookBroker → Type 0
IsReachable net b = (b.is_connected || net.connects) ≡ true

-- The state once a request has gone out.
abbrev pub asked_server : Request → CppOrderBookBroker → CppOrderBookBroker
asked_server request b = record b { is_connected = true; requests = b.requests ++ request ∷ [] }

pub send_request-answer :
    (request : Request) (net : Network) (reply : ServerReply) (b : CppOrderBookBroker)
    → IsReachable net b
    → net.exchange ≡ answer reply
    → send_request_to_ob request net b ≡ returned (some reply) (asked_server request b)
unfolding send_request_to_ob
send_request-answer request net reply b r e = ground arith

-- The state after a request: as before, but for the connection and the requests sent.
pub record Asked (b : CppOrderBookBroker) (b' : CppOrderBookBroker) : Type 0 where
  pub counter : b'.broker_order_id_counter ≡ b.broker_order_id_counter
  pub unlocked : b'.is_locked ≡ b.is_locked
  pub clients : b'.client_to_broker_id_map ≡ b.client_to_broker_id_map
  pub brokers : b'.broker_to_client_id_map ≡ b.broker_to_client_id_map
  pub details : b'.broker_id_to_order_details ≡ b.broker_id_to_order_details
  pub confirmed : b'.confirmed ≡ b.confirmed

-- What the call brings back.
abbrev pub outcome_of : Network → Option ServerReply
outcome_of net = elim net.exchange [ answer r ↦ some r | _ ↦ none ]

-- A request to the server returns from every state and for every behaviour of the network: it
-- gives the answer when a connection stands or can be made and an answer comes, and nothing
-- otherwise; the counter, the lock, the maps and the confirmations stay as they are.
pub send_request-total :
    (request : Request) (net : Network) (b : CppOrderBookBroker)
    → (b' : CppOrderBookBroker) × (send_request_to_ob request net b
        ≡ returned (if b.is_connected || net.connects then outcome_of net else none) b')
      × Asked b b'
unfolding send_request_to_ob
send_request-total request net b = elim (Bool-cases (b.is_connected || net.connects)) [
  | inr down ↦ (b, ground arith, ground arith)
  | inl up ↦ answered_by net.exchange refl up
]
  where
    answered_by :
        (x : Exchange)
        → net.exchange ≡ x
        → (b.is_connected || net.connects) ≡ true
        → (b' : CppOrderBookBroker) × (send_request_to_ob request net b
            ≡ returned (if b.is_connected || net.connects then outcome_of net else none) b')
          × Asked b b'
    answered_by (answer r) e up = (asked_server request b, ground arith, ground arith)
    answered_by timeout e up = (asked_server request b, ground arith, ground arith)
    answered_by zmq_error e up =
        (record (asked_server request b) { is_connected = false }, ground arith, ground arith)
    answered_by other_error e up = (asked_server request b, ground arith, ground arith)
