-- ===== src/SimulatedBroker/Filling.antt =====
-- Orders of position_manager.py that nothing cancels, while the threads of simulated_broker.py fill
-- them.
use flow_manager.Base.{
  ==_iff, All, Bool, List, String, [], ap, arith, false, none, refl, some, string_eq, sym, true, ℕ,
  ◌++◌, ◌==◌, ◌||◌, ◌∙◌, ◌∷◌, ◌≡◌,
}
use flow_manager.Broker.{OrderDetails, TradeConfirmationMessage, filled}
use flow_manager.Dict.{Dict, lookup}
use flow_manager.Int.{pos, ◌≤ℤ◌}
use flow_manager.PositionManager.{PositionManager}
use flow_manager.SimulatedBroker.{
  SimulatedBroker, SimulatedOrder, execute, final_confirmation, final_status, is_executing,
}
use flow_manager.SimulatedBroker.Threads.{IsWithin, done, execute-IsWithin}

-- An order of the broker and the live order that it belongs to.
pub record IsMirrored (live : Dict String OrderDetails) (id : String) (o : SimulatedOrder)
    : Type 0 where
  pub order : OrderDetails
  pub known : lookup id live ≡ some order
  pub named : o.client_order_id ≡ id
  pub symbol : order.symbol ≡ o.symbol
  pub side : order.side_is_buy ≡ o.buy_sell
  pub quantity : order.quantity ≡ o.amount
  pub unfilled : order.filled_quantity ≡ pos 0
  pub within_ : IsWithin o
  pub kept : o.cancelling ≡ false

-- A confirmation that fills all of a live order at once.
pub record IsFull (live : Dict String OrderDetails) (c : TradeConfirmationMessage) : Type 0 where
  pub order : OrderDetails
  pub known : lookup c.client_order_id live ≡ some order
  pub symbol : order.symbol ≡ c.symbol
  pub side : order.side_is_buy ≡ c.side_is_buy
  pub quantity : order.quantity ≡ c.filled_quantity
  pub unfilled : order.filled_quantity ≡ pos 0
  pub positive : pos 0 ≤ℤ c.filled_quantity
  pub status : c.status ≡ filled

-- Whether a list of confirmations is about the order.
unfoldable pub is_about : String → List TradeConfirmationMessage → Bool
is_about id [] = false
is_about id (c ∷ q) = c.client_order_id == id || is_about id q

-- No two confirmations are about the same order.
unfoldable pub AllApart : List TradeConfirmationMessage → Type 0
unfolding is_about
AllApart [] = Unit
AllApart (c ∷ q) = (is_about c.client_order_id q ≡ false) × AllApart q

pub is_about-append :
    (id : String) (q r : List TradeConfirmationMessage)
    → is_about id (q ++ r) ≡ (is_about id q || is_about id r)
unfolding is_about
is_about-append id [] r = refl
is_about-append id (c ∷ q) r = ground (arith, is_about-append id q r)

pub AllApart-append_one :
    (q : List TradeConfirmationMessage) (c : TradeConfirmationMessage)
    → AllApart q
    → is_about c.client_order_id q ≡ false
    → AllApart (q ++ c ∷ [])
unfolding AllApart is_about
AllApart-append_one [] c h e = (refl, tt)
AllApart-append_one (d ∷ q) c (a, h) e = (
  ground (
    arith,
    a,
    e,
    is_about-append d.client_order_id q (c ∷ []),
    ==_iff c.client_order_id d.client_order_id,
    ==_iff d.client_order_id c.client_order_id,
  ),
  AllApart-append_one q c h (ground (arith, e)),
)

-- What the threads fill, and what they have reported, when nothing is cancelled and nothing fails.
pub record IsFilling (p : PositionManager SimulatedBroker) : Type 0 where
  pub callback : p.broker.has_callback ≡ true
  pub no_timers : p.broker.timers ≡ []
  pub mirrored :
      (id : String) (o : SimulatedOrder)
      → lookup id p.broker.live_orders ≡ some o
      → IsMirrored p.live_orders id o
  pub full : All (IsFull p.live_orders) p.trade_confirmations_q
  pub apart : AllApart p.trade_confirmations_q
  pub done_once :
      (id : String)
      → is_about id p.trade_confirmations_q ≡ true
      → lookup id p.broker.live_orders ≡ none

pub execute-IsMirrored :
    (live : Dict String OrderDetails) (id : String) (draw : ℕ) (o : SimulatedOrder)
    → is_executing o ≡ true
    → IsMirrored live id o
    → IsMirrored live id (execute draw o)
unfolding execute
execute-IsMirrored live id draw o more m = record {
  order = m.order;
  known = m.known;
  named = m.named;
  symbol = m.symbol;
  side = m.side;
  quantity = m.quantity;
  unfilled = m.unfilled;
  within_ = execute-IsWithin draw o m.within_ more;
  kept = m.kept;
}

-- A thread that ends has filled its order.
pub final-IsFull :
    (live : Dict String OrderDetails) (id : String) (o : SimulatedOrder)
    → is_executing o ≡ false
    → IsMirrored live id o
    → IsFull live (final_confirmation o)
unfolding final_confirmation final_status
final-IsFull live id o over m = record {
  order = m.order;
  known = ap (λ k. lookup k live) m.named ∙ m.known;
  symbol = m.symbol;
  side = m.side;
  quantity = m.quantity ∙ sym (done o m.within_ over m.kept);
  unfilled = m.unfilled;
  positive = m.within_.0;
  status = rw m.kept refl;
}
