-- ===== src/Tests/Manager.antt =====
-- Runs of the position manager of position_manager/app/position_manager.py.
use flow_manager.Base.{
  String, [], ap, arith, get_or, if◌then◌else◌, refl, some, string_eq, true, ◌==◌, ◌∙◌, ◌∷◌, ◌≡◌,
}
use flow_manager.Broker.{
  OrderDetails, TradeConfirmationMessage, bs_int, cancelled, is_terminal, signed,
}
use flow_manager.Dict.{insert, lookup, lookup-insert_self}
use flow_manager.Float.{float}
use flow_manager.Ids.{contains, set_add, set_union}
use flow_manager.Int.{abs, int_laws, negsuc, pos, ◌*ℤ◌, ◌+ℤ◌, ◌-ℤ◌}
use flow_manager.PositionManager.{
  PositionManager, calculate_working_position, init, outstanding, position_of, process_all,
  process_confirmation, process_target_updates, process_trade_confirmations, remaining, set_targets,
  target_of, update_target_position, working_from,
}
use flow_manager.PositionManager.Balance.{working_of_fill}
use flow_manager.PositionManager.Cancelling.{IsConsistent}
use flow_manager.PositionManager.Confirmations.{Matches, gross, is_named, net, process_all-books}
use flow_manager.PositionManager.Cycle.{IsSettled, cycle_lem}
use flow_manager.PositionManager.Loop.{RunEnds, has_termination, run-HasEnded}
use flow_manager.PositionManager.Opposing.{reconcile_positions_idem}
use flow_manager.PositionManager.Orders.{
  adjust, cancel_opposing, cycle, new_order, place_order, reconcile_positions, reconcile_symbol,
  run, target_update, termination,
}
use flow_manager.PositionManager.Placing.{
  live_orders-place_order, place_order-IsConsistent, placed, placed_symbol,
}
use flow_manager.PositionManager.Reconcile.{Reconciled, reconcile_positions-Reconciled}
use flow_manager.PositionManager.Run.{
  Reach, Reach-IsSettled, here, idle_at_target, next, retarget, round,
}
use flow_manager.PositionManager.Targets.{is_updated, last_target}
use flow_manager.PositionManager.Tracking.{empty-IsTracked}
use flow_manager.SimulatedBroker.{SimulatedBroker, open_order, simulated, submit_order}
use flow_manager.SimulatedBroker.Orders.{simulated-IsPolite}
use flow_manager.Tests.{Anything, idle_manager, idle_sim, unary_id, unary_id-IsFresh}

-- A new target, and the round of the loop that takes it up.
abbrev retargeted : PositionManager SimulatedBroker
retargeted = update_target_position "AAPL" (pos 100) idle_manager

abbrev turned_once : PositionManager SimulatedBroker
turned_once = (cycle simulated unary_id retargeted)

-- A state that holds one buy order of 100.
abbrev ordered : PositionManager SimulatedBroker
ordered = place_order simulated unary_id true "AAPL" (pos 100) idle_manager

abbrev the_order : OrderDetails
the_order = placed simulated unary_id unary_id-IsFresh true "AAPL" (pos 100) idle_manager

abbrev partial_fill : TradeConfirmationMessage
partial_fill = record {
  order_id = pos 0;
  client_order_id = unary_id 0;
  symbol = "AAPL";
  filled_quantity = pos 40;
  side_is_buy = true;
  price = float (pos 100);
  status = cancelled;
}

abbrev aimed_low : PositionManager SimulatedBroker
aimed_low = record ordered { target_positions = ("AAPL", negsuc 4) ∷ [] }

idle-IsConsistent : IsConsistent unary_id idle_manager
unfolding init
idle-IsConsistent = empty-IsTracked unary_id

ordered-IsConsistent : IsConsistent unary_id ordered
ordered-IsConsistent =
    place_order-IsConsistent simulated unary_id unary_id-IsFresh true "AAPL" (pos 100) idle_manager
      idle-IsConsistent

aimed_low-IsConsistent : IsConsistent unary_id aimed_low
aimed_low-IsConsistent = ordered-IsConsistent

the_order_held : lookup (unary_id 0) ordered.live_orders ≡ some the_order
unfolding init
the_order_held =
    rw
      (live_orders-place_order simulated unary_id unary_id-IsFresh true "AAPL" (pos 100)
        idle_manager)
      (lookup-insert_self (unary_id 0) the_order idle_manager.live_orders)

retargeted-Reach : Reach simulated Anything unary_id idle_manager retargeted
retargeted-Reach = next here (retarget "AAPL" (pos 100))

retargeted-IsSettled : IsSettled unary_id Anything retargeted
retargeted-IsSettled =
    Reach-IsSettled simulated Anything simulated-IsPolite unary_id unary_id-IsFresh idle_sim tt
      retargeted-Reach

-- The first round sends one buy order of 100.
first_round_test :
    (turned_once.live_orders_by_symbol ≡ ("AAPL", unary_id 0 ∷ []) ∷ [])
    × (calculate_working_position turned_once "AAPL" ≡ pos 100)
unfolding calculate_working_position working_from outstanding is_terminal remaining cycle
    process_trade_confirmations process_all process_target_updates set_targets set_add set_union
    contains reconcile_positions reconcile_symbol adjust place_order cancel_opposing submit_order
    new_order open_order lookup insert init update_target_position unary_id ◌-ℤ◌ ◌+ℤ◌ ◌*ℤ◌ abs
    signed bs_int
first_round_test = (refl, refl)

reconcile_positions-Reconciled_example :
    Reconciled unary_id
      ("AAPL" ∷ [])
      aimed_low
      (reconcile_positions simulated unary_id ("AAPL" ∷ []) aimed_low)
reconcile_positions-Reconciled_example =
    reconcile_positions-Reconciled simulated unary_id unary_id-IsFresh ("AAPL" ∷ []) aimed_low
      aimed_low-IsConsistent

reconcile_positions_idem_example :
    reconcile_positions simulated unary_id
      ("AAPL" ∷ [])
      (reconcile_positions simulated unary_id ("AAPL" ∷ []) aimed_low)
    ≡ reconcile_positions simulated unary_id ("AAPL" ∷ []) aimed_low
reconcile_positions_idem_example =
    reconcile_positions_idem simulated unary_id unary_id-IsFresh ("AAPL" ∷ []) aimed_low
      aimed_low-IsConsistent

cycle_lem_example :
    let q = (cycle simulated unary_id retargeted) in
    IsSettled unary_id Anything q
    × ((s : String) → calculate_working_position q s ≡ target_of q s)
    × ((s : String)
        → target_of q s
          ≡ get_or (last_target s retargeted.target_updates_q) (target_of retargeted s))
    × ((s : String)
        → position_of q s ≡ position_of retargeted s +ℤ net s retargeted.trade_confirmations_q)
cycle_lem_example =
    cycle_lem simulated Anything simulated-IsPolite unary_id unary_id-IsFresh retargeted
      retargeted-IsSettled

Reach-IsSettled_example : IsSettled unary_id Anything turned_once
Reach-IsSettled_example =
    Reach-IsSettled simulated Anything simulated-IsPolite unary_id unary_id-IsFresh idle_sim tt
      (next retargeted-Reach round)

idle_at_target_example : position_of retargeted "MSFT" ≡ target_of retargeted "MSFT"
unfolding is_named is_updated lookup init update_target_position
idle_at_target_example =
    idle_at_target simulated Anything simulated-IsPolite unary_id unary_id-IsFresh idle_sim tt
      retargeted-Reach "MSFT" refl refl refl

Matches-partial_fill : Matches ordered.live_orders partial_fill
Matches-partial_fill o e =
    let f : o ≡ the_order = cc (the_order_held) in
    ap (λ (x : OrderDetails). x.symbol) f
    ∙ placed_symbol simulated unary_id unary_id-IsFresh true "AAPL" (pos 100) idle_manager

process_all-books_example :
    let p' = (process_all (partial_fill ∷ []) [] ordered).1 in
    (position_of p' "AAPL" ≡ position_of ordered "AAPL" +ℤ net "AAPL" (partial_fill ∷ []))
    × (get_or (lookup "AAPL" p'.total_traded_by_symbol) (pos 0)
        ≡ get_or (lookup "AAPL" ordered.total_traded_by_symbol) (pos 0)
          +ℤ gross "AAPL" (partial_fill ∷ []))
    × (p'.target_positions ≡ ordered.target_positions)
process_all-books_example = process_all-books (partial_fill ∷ []) [] ordered "AAPL"

working_of_fill_example :
    calculate_working_position (process_confirmation partial_fill ordered) "AAPL"
    ≡ calculate_working_position ordered "AAPL"
      -ℤ (if partial_fill.symbol == "AAPL"
          then (if is_terminal partial_fill.status
              then signed
                  (remaining the_order -ℤ partial_fill.filled_quantity)
                  the_order.side_is_buy
              else pos 0)
          else pos 0)
unfolding remaining new_order submit_order lookup init
working_of_fill_example =
    working_of_fill unary_id partial_fill ordered ordered-IsConsistent the_order the_order_held
      (placed_symbol simulated unary_id unary_id-IsFresh true "AAPL" (pos 100) idle_manager) refl
      (omega arith) (omega int_laws) "AAPL"

run-HasEnded_example : RunEnds simulated unary_id (simulated.start idle_manager.broker) (
    run simulated unary_id
      ((target_update "AAPL" (pos 5) ∷ []) ∷ (termination ∷ []) ∷ [])
      idle_manager)
unfolding has_termination
run-HasEnded_example =
    run-HasEnded simulated unary_id ((target_update "AAPL" (pos 5) ∷ []) ∷ []) (termination ∷ []) []
      idle_manager refl
