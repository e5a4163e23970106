-- ===== src/CppBroker/Cancellations.antt =====
-- How `cancel_order` of cpp_ob_broker.py ends.
use flow_manager.Base.{
  Bool, Option, String, [], false, if◌then◌else◌, nat_eq, none, some, string_eq, true, ℕ, ◌++◌,
  ◌||◌, ◌∷◌, ◌≡◌,
}
use flow_manager.Broker.{OrderDetails, Status, cancelled, filled, pending_cancel, rejected}
use flow_manager.CppBroker.{
  CppOrderBookBroker, Network, Outcome, ServerReply, answer, blocked, details_under, raised,
  returned, set_status,
}
use flow_manager.CppBroker.Cancel.{price_or_zero}
use flow_manager.CppBroker.Requests.{outcome_of}
use flow_manager.CppBroker.Submit.{cancel_confirmation}
use flow_manager.Dict.{erase, insert, lookup}
use flow_manager.Float.{float, or_zero}
use flow_manager.Int.{pos}

-- The request goes out, and the server answers that the order is cancelled.
pub record SaysCancelled (net : Network) (b : CppOrderBookBroker) : Type 0 where
  pub reached : (b.is_connected || net.connects) ≡ true
  pub reply : ServerReply
  pub received : net.exchange ≡ answer reply
  pub ok : reply.status ≡ some "OK"
  pub final : reply.final_status ≡ some "CANCELLED"

-- An order that can be cancelled.
unfoldable pub IsOpen : Status → Type 0
IsOpen filled = ⊥
IsOpen cancelled = ⊥
IsOpen rejected = ⊥
IsOpen pending_cancel = ⊥
IsOpen _ = Unit

-- The call has cancelled the order `o`: it is confirmed, and out of the maps.
pub record IsCancelled (client_id : String) (broker_id : ℕ) (o : OrderDetails)
    (b b' : CppOrderBookBroker) : Type 0 where
  pub confirmed :
      b'.confirmed
      ≡ b.confirmed
        ++ (record {
          order_id = pos broker_id;
          client_order_id = client_id;
          symbol = o.symbol;
          filled_quantity = pos 0;
          side_is_buy = o.side_is_buy;
          price = elim o.price [ none ↦ float (pos 0) | some x ↦ or_zero x ];
          status = cancelled;
        })
          ∷ []
  pub clients : b'.client_to_broker_id_map ≡ erase client_id b.client_to_broker_id_map
  pub brokers : b'.broker_to_client_id_map ≡ erase broker_id b.broker_to_client_id_map
  pub details : lookup broker_id b'.broker_id_to_order_details ≡ none
  pub unlocked : b'.is_locked ≡ false

-- The call has changed no map and confirmed nothing.
pub record IsRefused (b b' : CppOrderBookBroker) : Type 0 where
  pub confirmed : b'.confirmed ≡ b.confirmed
  pub clients : b'.client_to_broker_id_map ≡ b.client_to_broker_id_map
  pub brokers : b'.broker_to_client_id_map ≡ b.broker_to_client_id_map
  pub unlocked : b'.is_locked ≡ false

-- The two ends of a call, for the order that was found.
abbrev pub Ends :
    String → Network → Option ℕ → Option OrderDetails → CppOrderBookBroker → Outcome Bool → Type 0
Ends client_id net broker_id o b (returned true b') =
    (i : ℕ) × (x : OrderDetails) × (broker_id ≡ some i)
    × (o ≡ some x)
    × IsOpen x.status
    × SaysCancelled net b
    × IsCancelled client_id i x b b'
Ends client_id net broker_id o b (returned false b') =
    IsRefused b b'
    × ((i : ℕ) × (x : OrderDetails) × (broker_id ≡ some i)
          × (o ≡ some x)
          × IsOpen x.status
          × SaysCancelled net b
        → ⊥)
Ends client_id net broker_id o b (raised b') = ⊥
Ends client_id net broker_id o b (blocked b') = ⊥

-- What the request brings.
abbrev reply_for : Network → CppOrderBookBroker → Option ServerReply
reply_for net b = if b.is_connected || net.connects then outcome_of net else none

module _ (client_id : String) (broker_id : ℕ) (o : OrderDetails) where
  -- The order is confirmed and about to be cleaned up.
  abbrev confirmed_gone : OrderDetails → CppOrderBookBroker → CppOrderBookBroker
  confirmed_gone x b = record b {
    broker_id_to_order_details =
        insert broker_id (set_status cancelled x) b.broker_id_to_order_details;
    confirmed =
        b.confirmed
        ++ cancel_confirmation client_id broker_id o.symbol o.side_is_buy (price_or_zero o.price)
          ∷ [];
  }

-- The order that the maps hold for a client's identifier.
abbrev pub held_for : String → CppOrderBookBroker → Option OrderDetails
held_for client_id b = details_under (lookup client_id b.client_to_broker_id_map) b
