-- ===== src/PositionManager/Symbols.antt =====
-- The symbols that a round of `run` in position_manager.py reconciles: a Python set.
use flow_manager.Base.{List, String, [], string_eq, ◌∷◌}
use flow_manager.Broker.{TradeConfirmationMessage}
use flow_manager.Ids.{IsDistinct, set_add, set_add-IsDistinct, set_union, set_union-IsDistinct}
use flow_manager.PositionManager.{
  PositionManager, process_all, process_confirmation, process_target_updates,
  process_trade_confirmations,
}

module _ {B : Type 0} where
  process_all-IsDistinct :
      (q : List TradeConfirmationMessage) (affected : List String) (p : PositionManager B)
      → IsDistinct affected
      → IsDistinct (process_all q affected p).0
  unfolding process_all
  process_all-IsDistinct [] affected p h = h
  process_all-IsDistinct (c ∷ q) affected p h =
      process_all-IsDistinct q (set_add c.symbol affected) (process_confirmation c p)
        (set_add-IsDistinct c.symbol affected h)

  -- The symbols that a round of the loop reconciles.
  abbrev pub to_reconcile : PositionManager B → List String
  to_reconcile p =
      let taken = process_trade_confirmations p in
      set_union taken.0 (process_target_updates taken.1).0

  pub to_reconcile-IsDistinct : (p : PositionManager B) → IsDistinct (to_reconcile p)
  unfolding process_trade_confirmations
  to_reconcile-IsDistinct p =
      let unread : PositionManager B = record p { trade_confirmations_q = [] } in
      let taken = process_all p.trade_confirmations_q [] unread in
      set_union-IsDistinct taken.0 (process_target_updates taken.1).0
        (process_all-IsDistinct p.trade_confirmations_q [] unread tt)
