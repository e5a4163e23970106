-- ===== src/CppBroker.antt =====
-- position_manager/app/brokers/cpp_ob_broker.py: the broker that talks to the order book server.
-- A method runs against the state of the broker, which also holds the requests sent and the
-- confirmations passed to the callback so far. It returns, raises, or waits for ever for the lock,
-- which a thread that holds it cannot take again. What the connection and the server do during
-- one call is the argument `Network`; the texts of error messages, which are only logged, and the
-- server's copies of identifiers are left out.
pub mod Acceptance
pub mod Cancel
pub mod Cancellations
pub mod Deadlock
pub mod Endless
pub mod Rejections
pub mod Requests
pub mod Submit
pub mod Trades
pub mod Unpriced
use flow_manager.Base.{
  Bool, List, Option, String, [], false, if◌then◌else◌, nat_eq, none, some, string_eq, suc, true,
  zero, ℕ, ◌++◌, ◌==◌, ◌∷◌,
}
use flow_manager.Broker.{OrderDetails, Status, TradeConfirmationMessage, rejected}
use flow_manager.Dict.{Dict, erase, insert, lookup}
use flow_manager.Float.{float}
use flow_manager.Int.{negsuc, pos, ℤ}

pub record FillInfo : Type 0 where
  pub order_id_filled : Option ℕ
  pub traded_quantity : Option ℤ
  -- a whole number, an `uint32_t` of the server
  pub price : Option ℤ

-- The fields of the server's answer that are read.
pub record ServerReply : Type 0 where
  pub status : Option String
  pub trades : Option (List FillInfo)
  pub order_final_status_in_book : Option String
  pub final_status : Option String
  pub bids : Option (List (ℕ × ℕ))
  pub asks : Option (List (ℕ × ℕ))

-- One exchange: an answer, `zmq.Again`, another `ZMQError`, or another exception.
pub data Exchange : Type 0 where
  answer : ServerReply → Exchange
  timeout zmq_error other_error : Exchange

-- Whether a connection can be made, and what an exchange brings.
pub record Network : Type 0 where
  pub connects : Bool
  pub exchange : Exchange

pub data Request : Type 0 where
  -- client's and broker's identifiers, symbol, side, price, quantity, type
  add_order : String → ℕ → String → String → ℤ → ℤ → String → Request
  cancel_request : ℕ → Request
  get_book_info : String → Request

pub record CppOrderBookBroker : Type 0 where
  pub is_connected : Bool
  pub broker_order_id_counter : ℕ
  pub is_locked : Bool
  pub client_to_broker_id_map : Dict String ℕ
  pub broker_to_client_id_map : Dict ℕ String
  pub broker_id_to_order_details : Dict ℕ OrderDetails
  pub requests : List Request
  pub confirmed : List TradeConfirmationMessage

-- `CppOrderBookBroker.__init__`
unfoldable pub init_cpp : CppOrderBookBroker
init_cpp = record {
  is_connected = false;
  broker_order_id_counter = 0;
  is_locked = false;
  client_to_broker_id_map = [];
  broker_to_client_id_map = [];
  broker_id_to_order_details = [];
  requests = [];
  confirmed = [];
}

pub data Outcome (A : Type 0) : Type 0 where
  returned : A → CppOrderBookBroker → Outcome A
  raised : CppOrderBookBroker → Outcome A
  blocked : CppOrderBookBroker → Outcome A

abbrev pub Action : Type 0 → Type 0
Action A = CppOrderBookBroker → Outcome A

infixl 5 ◌>>=◌ ◌>>◌
abbrev pub ◌>>=◌ : {A B : Type 0} → Action A → (A → Action B) → Action B
◌>>=◌ m f b = elim (m b) [
  | returned a b' ↦ f a b'
  | raised b' ↦ raised b'
  | blocked b' ↦ blocked b'
]

abbrev pub ◌>>◌ : {A B : Type 0} → Action A → Action B → Action B
m >> k = m >>= λ _. k

abbrev pub pure : {A : Type 0} → A → Action A
pure a b = returned a b

abbrev pub raise : {A : Type 0} → Action A
raise b = raised b

abbrev pub gets : {A : Type 0} → (CppOrderBookBroker → A) → Action A
gets f b = returned (f b) b

abbrev pub modify : (CppOrderBookBroker → CppOrderBookBroker) → Action (Unit {0})
modify f b = returned tt (f b)

abbrev pub or_raise : {A : Type 0} → Option A → Action A
or_raise none = raise
or_raise (some a) = pure a

-- `with self._lock`: the lock is given back however the body ends.
abbrev pub give_back : {A : Type 0} → Outcome A → Outcome A
give_back (returned a b) = returned a (record b { is_locked = false })
give_back (raised b) = raised (record b { is_locked = false })
give_back (blocked b) = blocked b

abbrev pub with_lock : {A : Type 0} → Action A → Action A
with_lock m b = if b.is_locked then blocked b else give_back (m (record b { is_locked = true }))

-- `self.trade_confirmation_callback(...)`
abbrev pub confirm_to : TradeConfirmationMessage → Action (Unit {0})
confirm_to conf = modify λ b. record b { confirmed = b.confirmed ++ conf ∷ [] }

-- An assignment to an order's fields, while the order is in the dict.
abbrev pub update_details : ℕ → (OrderDetails → OrderDetails) → Action (Unit {0})
update_details id f = modify λ b. record b {
  broker_id_to_order_details = elim (lookup id b.broker_id_to_order_details) [
    | none ↦ b.broker_id_to_order_details
    | some o ↦ insert id (f o) b.broker_id_to_order_details
  ];
}

abbrev pub set_status : Status → OrderDetails → OrderDetails
set_status s o = record o { status = s }

-- `x == "..."`, of a field that may be missing
abbrev pub is_text : String → Option String → Bool
is_text s none = false
is_text s (some t) = s == t

unfoldable pub get_next_broker_id : Action ℕ
get_next_broker_id = with_lock do
  modify λ b. record b { broker_order_id_counter = suc b.broker_order_id_counter }
  gets λ b. b.broker_order_id_counter

-- Raises `ConnectionError` when no connection can be made.
unfoldable pub start_cpp : Network → Action (Unit {0})
start_cpp net b =
    if b.is_connected
    then returned tt b
    else (if net.connects then returned tt (record b { is_connected = true }) else raised b)

unfoldable pub stop_cpp : Action (Unit {0})
stop_cpp = modify λ b. record b { is_connected = false }

-- The answer to a request that has gone out; a `ZMQError` closes the socket.
unfoldable pub receive : Exchange → Action (Option ServerReply)
receive (answer r) = pure (some r)
receive timeout = pure none
receive zmq_error = modify (λ b. record b { is_connected = false }) >> pure none
receive other_error = pure none

unfoldable pub exchange_request : Request → Network → Action (Option ServerReply)
unfolding receive
exchange_request request net =
    modify (λ b. record b { requests = b.requests ++ request ∷ [] }) >> receive net.exchange

-- The socket is opened again where it is closed; a failure to do so is caught.
unfoldable pub send_request_to_ob : Request → Network → Action (Option ServerReply)
unfolding exchange_request start_cpp
send_request_to_ob request net b = elim (start_cpp net b) [
  | returned _ b' ↦ exchange_request request net b'
  | raised b' ↦ returned none b'
  | blocked b' ↦ blocked b'
]

unfoldable pub rejection : String → String → Bool → TradeConfirmationMessage
rejection id symbol side_is_buy = record {
  order_id = negsuc 0;
  client_order_id = id;
  symbol = symbol;
  filled_quantity = pos 0;
  side_is_buy = side_is_buy;
  price = float (pos 0);
  status = rejected;
}

unfoldable pub dispatch_rejection : String → String → Bool → Action (Unit {0})
unfolding rejection
dispatch_rejection id symbol side_is_buy = confirm_to (rejection id symbol side_is_buy)

unfoldable pub cleanup_order_maps : String → ℕ → Action (Unit {0})
cleanup_order_maps client_id broker_id = with_lock do
  modify λ b. record b {
    client_to_broker_id_map = erase client_id b.client_to_broker_id_map;
    broker_to_client_id_map = erase broker_id b.broker_to_client_id_map;
    broker_id_to_order_details = erase broker_id b.broker_id_to_order_details;
  }

unfoldable pub is_ok : Option ServerReply → Bool
is_ok none = false
is_ok (some r) = is_text "OK" r.status

-- The details under an identifier that was looked up; Python takes 0 for no identifier.
unfoldable pub details_under : Option ℕ → CppOrderBookBroker → Option OrderDetails
details_under none b = none
details_under (some zero) b = none
details_under (some (suc n)) b = lookup (suc n) b.broker_id_to_order_details

unfoldable pub get_order_details_cpp : String → Action (Option OrderDetails)
unfolding details_under
get_order_details_cpp client_id = with_lock do
  broker_id ← gets λ b. lookup client_id b.client_to_broker_id_map
  gets λ b. details_under broker_id b
