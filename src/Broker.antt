-- ===== src/Broker.antt =====
-- position_manager/app/brokers/broker_interface.py: the messages between a position manager and a
-- broker, and the interface that every broker implements.
use flow_manager.Base.{Bool, List, Option, String, false, true, ◌≡◌}
use flow_manager.Float.{Float}
use flow_manager.Int.{*ℤ_minus_one, *ℤ_one, negsuc, pos, ℤ, ◌*ℤ◌, ◌-ℤ◌}

-- The values of the `status` strings. `other` is any string that the program does not name.
pub data Status : Type 0 where
  pending_new new working pending_ack acknowledged partially_filled : Status
  pending_cancel filled cancelled rejected : Status
  other : String → Status

-- `status in ["FILLED", "CANCELLED", "REJECTED"]`
unfoldable pub is_terminal : Status → Bool
is_terminal filled = true
is_terminal cancelled = true
is_terminal rejected = true
is_terminal _ = false

-- `status in ["FILLED", "CANCELLED", "REJECTED", "PENDING_CANCEL"]`
unfoldable pub is_closing : Status → Bool
unfolding is_terminal
is_closing pending_cancel = true
is_closing s = is_terminal s

pub record TradeConfirmationMessage : Type 0 where
  pub order_id : ℤ
  pub client_order_id : String
  pub symbol : String
  pub filled_quantity : ℤ
  pub side_is_buy : Bool
  pub price : Float
  pub status : Status

pub record OrderDetails : Type 0 where
  pub client_order_id : String
  pub broker_order_id : Option ℤ
  pub symbol : String
  pub quantity : ℤ
  pub side_is_buy : Bool
  pub type : String
  pub price : Option Float
  pub status : Status
  pub filled_quantity : ℤ

-- 1 for a buy and -1 for a sell, the sign of a trade in a position
unfoldable pub bs_int : Bool → ℤ
bs_int true = pos 1
bs_int false = negsuc 0

-- What a call of a broker leaves: its result, the confirmations that it passed to the callback
-- while it ran, and the broker's new state.
pub record Reply (A B : Type 0) : Type 0 where
  pub result : A
  pub confirmations : List TradeConfirmationMessage
  pub after : B

-- The methods of `BrokerInterface` that a position manager calls, over the state of a broker.
-- `submit_order` takes the client's order id, the symbol, the quantity, the side, the type and the
-- price; `start` raises (`none`) when no connection can be made.
pub record BrokerInterface (B : Type 0) : Type 0 where
  pub submit_order : String → String → ℤ → Bool → String → Option Float → B → Reply (Option ℤ) B
  pub cancel_order : String → B → Reply Bool B
  pub start : B → Option B
  pub stop : B → B

-- The change that a trade makes to a position.
unfoldable pub signed : ℤ → Bool → ℤ
unfolding bs_int
signed quantity side_is_buy = quantity *ℤ bs_int side_is_buy

pub signed-buy : (q : ℤ) → signed q true ≡ q
unfolding signed
signed-buy q = *ℤ_one q

pub signed-sell : (q : ℤ) → signed q false ≡ pos 0 -ℤ q
unfolding signed
signed-sell q = *ℤ_minus_one q
