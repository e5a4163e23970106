-- ===== src/PositionManager.antt =====
-- position_manager/app/position_manager.py. The state, the queues and their
-- readers, and the working position. A method returns the new state. The lock makes each reader of
-- a queue one step. `issued` counts the identifiers that `_generate_client_order_id` has drawn.
pub mod Balance
pub mod Cancelling
pub mod Confirmations
pub mod Contract
pub mod Cycle
pub mod Endings
pub mod Fills
pub mod Loop
pub mod Opposing
pub mod Orders
pub mod Pending
pub mod Placing
pub mod Preserving
pub mod Reading
pub mod Reconcile
pub mod Run
pub mod Symbols
pub mod Targets
pub mod Tracking
pub mod Working
use flow_manager.Base.{
  Bool, List, Option, String, [], false, get_or, if◌then◌else◌, length, map, none, not, some,
  string_eq, true, ℕ, ◌&&◌, ◌++◌, ◌∷◌,
}
use flow_manager.Broker.{OrderDetails, TradeConfirmationMessage, is_terminal, signed}
use flow_manager.Dict.{Dict, erase, insert, lookup}
use flow_manager.Ids.{contains, remove, set_add}
use flow_manager.Int.{ltb_ℤ, pos, ℤ, ◌+ℤ◌, ◌-ℤ◌}

pub record PositionManager (B : Type 0) : Type 0 where
  pub broker : B
  pub positions : Dict String ℤ
  pub target_positions : Dict String ℤ
  pub live_orders : Dict String OrderDetails
  pub live_orders_by_symbol : Dict String (List String)
  pub total_traded_by_symbol : Dict String ℤ
  pub target_updates_q : List (String × ℤ)
  pub trade_confirmations_q : List TradeConfirmationMessage
  pub terminate_flag : Bool
  pub issued : ℕ

-- `d[k] += n`, of a `defaultdict(int)`
unfoldable pub add_to : String → ℤ → Dict String ℤ → Dict String ℤ
add_to k n d = insert k (get_or (lookup k d) (pos 0) +ℤ n) d

-- The new state of an order when a confirmation of it comes in.
unfoldable pub filled_by : TradeConfirmationMessage → OrderDetails → OrderDetails
filled_by conf order = record order {
  filled_quantity = order.filled_quantity +ℤ conf.filled_quantity;
  status = conf.status;
}

-- A list that has become empty leaves the dict.
unfoldable pub keep_or_drop :
    String → List String → Dict String (List String) → Dict String (List String)
keep_or_drop symbol [] ids = erase symbol ids
keep_or_drop symbol (id ∷ rest) ids = insert symbol (id ∷ rest) ids

-- The identifier leaves the list of its symbol.
unfoldable pub untrack : String → String → Dict String (List String) → Dict String (List String)
unfolding keep_or_drop
untrack symbol id ids =
    let held = get_or (lookup symbol ids) [] in
    if contains id held then keep_or_drop symbol (remove id held) ids else ids

unfoldable pub remaining : OrderDetails → ℤ
remaining order = order.quantity -ℤ order.filled_quantity

-- What an order that is not over may still add to the position: the body of the loop of
-- `_calculate_working_position`.
unfoldable pub outstanding : Option OrderDetails → ℤ
unfolding is_terminal remaining
outstanding none = pos 0
outstanding (some order) =
    if not (is_terminal order.status) && ltb_ℤ (pos 0) (remaining order)
    then signed (remaining order) order.side_is_buy
    else pos 0

unfoldable pub working_from : Dict String OrderDetails → ℤ → List String → ℤ
working_from live acc [] = acc
working_from live acc (id ∷ ids) = working_from live (acc +ℤ outstanding (lookup id live)) ids

pub record Snapshot : Type 0 where
  pub positions : Dict String ℤ
  pub targets : Dict String ℤ
  pub live_orders_count_by_symbol : Dict String ℕ
  pub live_orders_details : List OrderDetails
  pub total_traded_by_symbol : Dict String ℤ

module _ {B : Type 0} where
  -- `PositionManager.__init__`
  unfoldable pub init : B → PositionManager B
  init broker = record {
    broker = broker;
    positions = [];
    target_positions = [];
    live_orders = [];
    live_orders_by_symbol = [];
    total_traded_by_symbol = [];
    target_updates_q = [];
    trade_confirmations_q = [];
    terminate_flag = false;
    issued = 0;
  }

  unfoldable pub trade_confirmation_callback :
      TradeConfirmationMessage → PositionManager B → PositionManager B
  trade_confirmation_callback conf p = record p {
    trade_confirmations_q = p.trade_confirmations_q ++ conf ∷ [];
  }

  unfoldable pub update_target_position : String → ℤ → PositionManager B → PositionManager B
  update_target_position symbol target p = record p {
    target_updates_q = p.target_updates_q ++ (symbol, target) ∷ [];
  }

  unfoldable pub terminate : PositionManager B → PositionManager B
  terminate p = record p { terminate_flag = true }

  -- Reads of the dicts with their defaults.
  abbrev pub position_of : PositionManager B → String → ℤ
  position_of p symbol = get_or (lookup symbol p.positions) (pos 0)

  abbrev pub target_of : PositionManager B → String → ℤ
  target_of p symbol = get_or (lookup symbol p.target_positions) (pos 0)

  abbrev pub ids_of : PositionManager B → String → List String
  ids_of p symbol = get_or (lookup symbol p.live_orders_by_symbol) []

  unfoldable pub calculate_working_position : PositionManager B → String → ℤ
  unfolding working_from
  calculate_working_position p symbol =
      working_from p.live_orders (position_of p symbol) (ids_of p symbol)

  -- The trade is booked, whether its order is known or not.
  abbrev pub booked : TradeConfirmationMessage → PositionManager B → PositionManager B
  booked conf p = record p {
    positions = add_to conf.symbol (signed conf.filled_quantity conf.side_is_buy) p.positions;
    total_traded_by_symbol = add_to conf.symbol conf.filled_quantity p.total_traded_by_symbol;
  }

  -- The update of the live order, for a confirmation whose order is known.
  unfoldable pub update_live_order :
      TradeConfirmationMessage → OrderDetails → PositionManager B → PositionManager B
  update_live_order conf order p =
      if is_terminal conf.status
      then record p {
        live_orders = erase conf.client_order_id p.live_orders;
        live_orders_by_symbol = untrack conf.symbol conf.client_order_id p.live_orders_by_symbol;
      }
      else record p {
        live_orders = insert conf.client_order_id (filled_by conf order) p.live_orders;
      }

  -- One round of the loop of `_process_trade_confirmations`.
  unfoldable pub process_confirmation :
      TradeConfirmationMessage → PositionManager B → PositionManager B
  process_confirmation conf p = elim (lookup conf.client_order_id p.live_orders) [
    | none ↦ booked conf p
    | some order ↦ update_live_order conf order (booked conf p)
  ]

  unfoldable pub process_all :
      List TradeConfirmationMessage
      → List String
      → PositionManager B
      → List String × PositionManager B
  process_all [] affected p = (affected, p)
  process_all (conf ∷ q) affected p =
      process_all q (set_add conf.symbol affected) (process_confirmation conf p)

  -- The queue is read to its end. The symbols of what was read come back with the state.
  unfoldable pub process_trade_confirmations : PositionManager B → List String × PositionManager B
  unfolding process_all
  process_trade_confirmations p =
      process_all p.trade_confirmations_q [] (record p { trade_confirmations_q = [] })

  unfoldable pub set_targets :
      List (String × ℤ) → List String → PositionManager B → List String × PositionManager B
  set_targets [] affected p = (affected, p)
  set_targets ((symbol, target) ∷ q) affected p =
      set_targets q (set_add symbol affected)
        (record p { target_positions = insert symbol target p.target_positions })

  unfoldable pub process_target_updates : PositionManager B → List String × PositionManager B
  unfolding set_targets
  process_target_updates p = set_targets p.target_updates_q [] (record p { target_updates_q = [] })

  unfoldable pub get_current_state_snapshot : PositionManager B → Snapshot
  get_current_state_snapshot p = record {
    positions = p.positions;
    targets = p.target_positions;
    live_orders_count_by_symbol = map (λ e. (e.0, length e.1)) p.live_orders_by_symbol;
    live_orders_details = map (λ e. e.1) p.live_orders;
    total_traded_by_symbol = p.total_traded_by_symbol;
  }
