-- ===== src/SimulatedBroker/Rounds.antt =====
-- A round of position_manager.py with the broker of simulated_broker.py when no order is live after
-- the queue has been read.
use flow_manager.Base.{
  ==_iff, ==_refl, All, Bool, List, String, [], ap, arith, false, none, refl, string_eq, subst, sym,
  true, ℕ, ◌==◌, ◌∙◌, ◌∷◌, ◌≡◌,
}
use flow_manager.Dict.{lookup}
use flow_manager.Ids.{IsDistinct, contains}
use flow_manager.Int.{abs, abs_neg, abs_pos, int_laws, parts, pos, ℤ, ◌<ℤ◌}
use flow_manager.PositionManager.{
  PositionManager, calculate_working_position, ids_of, process_all, process_target_updates,
  process_trade_confirmations, target_of,
}
use flow_manager.PositionManager.Cancelling.{IsConsistent}
use flow_manager.PositionManager.Cycle.{aimed-IsConsistent}
use flow_manager.PositionManager.Opposing.{reconcile_positions_even}
use flow_manager.PositionManager.Orders.{
  adjust, cancel_opposing, cycle, place_order, reconcile_positions, reconcile_symbol,
}
use flow_manager.PositionManager.Placing.{ids-place_order}
use flow_manager.PositionManager.Reading.{process_all_keeps}
use flow_manager.PositionManager.Reconcile.{reconcile_symbol_cases}
use flow_manager.PositionManager.Symbols.{to_reconcile, to_reconcile-IsDistinct}
use flow_manager.PositionManager.Targets.{process_target_updates_lem}
use flow_manager.PositionManager.Tracking.{IsFresh}
use flow_manager.SimulatedBroker.{SimulatedBroker, simulated}
use flow_manager.SimulatedBroker.Filling.{AllApart, IsFull, is_about}
use flow_manager.SimulatedBroker.Orders.{simulated-IsPolite}
use flow_manager.SimulatedBroker.Passes.{IsRunOut, emptied}
use flow_manager.SimulatedBroker.Rest.{nothing_listed}
use flow_manager.SimulatedBroker.Trading.{Running, Running-IsSettled}
use flow_manager.SimulatedBroker.Unopposed.{IsUnopposed, place_order-IsUnopposed}

module _ (uuid : ℕ → String) (fresh : IsFresh uuid) where
  -- A symbol without orders of its own gets its new order, and nothing is cancelled for it.
  adjust_unopposed :
      (buying : Bool) (s : String) (d : ℤ) (p : PositionManager SimulatedBroker)
      → ids_of p s ≡ []
      → adjust simulated uuid buying s d p ≡ place_order simulated uuid buying s (abs d) p
  unfolding adjust cancel_opposing
  adjust_unopposed buying s d p e =
      ap
        (λ ids.
          place_order simulated uuid buying s (abs d) (cancel_opposing simulated uuid buying ids p))
        e

  -- What reconciling one symbol leaves of the others.
  abbrev IsNext :
      String → PositionManager SimulatedBroker → PositionManager SimulatedBroker → Type 0
  IsNext s p q = IsUnopposed uuid q × ((r : String) → (s == r) ≡ false → ids_of q r ≡ ids_of p r)

  adjust-IsNext :
      (buying : Bool) (s : String) (d : ℤ) (p : PositionManager SimulatedBroker)
      → pos 0 <ℤ abs d
      → IsUnopposed uuid p
      → ids_of p s ≡ []
      → IsNext s p (adjust simulated uuid buying s d p)
  adjust-IsNext buying s d p large h e =
      subst (IsNext s p) (sym (adjust_unopposed buying s d p e)) (
        place_order-IsUnopposed uuid fresh buying s (abs d) p large h,
        λ r apart.
            ids-place_order simulated uuid fresh buying s (abs d) p h.consistent r ∙ rw apart refl,
      )

  reconcile_symbol-IsNext :
      (s : String) (p : PositionManager SimulatedBroker)
      → IsUnopposed uuid p
      → ids_of p s ≡ []
      → IsNext s p (reconcile_symbol simulated uuid s p)
  reconcile_symbol-IsNext s p h e =
      reconcile_symbol_cases simulated uuid fresh (IsNext s p) s p (λ z. (h, λ r apart. refl))
        (λ k. adjust-IsNext true s _ p (omega (int_laws, parts (abs_pos _ k))) h e)
        (λ k. adjust-IsNext false s _ p (omega (int_laws, parts (abs_neg _ k))) h e)

  reconcile_positions-IsUnopposed :
      (symbols : List String) (p : PositionManager SimulatedBroker)
      → IsDistinct symbols
      → IsUnopposed uuid p
      → ((s : String) → contains s symbols ≡ true → ids_of p s ≡ [])
      → IsUnopposed uuid (reconcile_positions simulated uuid symbols p)
  unfolding reconcile_positions contains
  reconcile_positions-IsUnopposed [] p d h e = h
  reconcile_positions-IsUnopposed (s ∷ symbols) p d h e =
      let (h', others) = reconcile_symbol-IsNext s p h (e s (ground (arith, ==_refl s))) in
      reconcile_positions-IsUnopposed symbols (reconcile_symbol simulated uuid s p) d.1 h'
        (λ r k. others r (apart r k) ∙ e r (ground (arith, k)))
    where
      apart : (r : String) → contains r symbols ≡ true → (s == r) ≡ false
      apart r k = ground (arith, d.0, k, ==_iff s r)

  -- The state in which a round reconciles.
  abbrev pub read_state : PositionManager SimulatedBroker → PositionManager SimulatedBroker
  read_state q = (process_target_updates (process_trade_confirmations q).1).1

  pub read_state-IsConsistent :
      (q : PositionManager SimulatedBroker)
      → Running uuid fresh q
      → IsConsistent uuid (read_state q)
  unfolding process_trade_confirmations
  read_state-IsConsistent q t =
      aimed-IsConsistent simulated (λ b. Unit) simulated-IsPolite uuid fresh q
        (Running-IsSettled uuid fresh t)

  -- What reading the queues leaves of a state.
  pub read_state_keeps :
      (q : PositionManager SimulatedBroker)
      → ((read_state q).broker ≡ q.broker)
        × ((read_state q).trade_confirmations_q ≡ [])
        × ((read_state q).target_updates_q ≡ [])
        × ((read_state q).live_orders ≡ (process_trade_confirmations q).1.live_orders)
  unfolding process_trade_confirmations
  read_state_keeps q =
      let unread : PositionManager SimulatedBroker = record q { trade_confirmations_q = [] } in
      let taken = (process_all q.trade_confirmations_q [] unread).1 in
      let keeps = process_all_keeps q.trade_confirmations_q [] unread in
      let whole = (process_target_updates_lem taken "").2 in
      (
        ap (λ x. x.broker) whole ∙ keeps.0,
        ap (λ x. x.trade_confirmations_q) whole ∙ keeps.2,
        ap (λ x. x.target_updates_q) whole,
        ap (λ x. x.live_orders) whole,
      )

  module _ {p q : PositionManager SimulatedBroker} (r : IsRunOut uuid fresh p q) where
    pub nothing_live : (id : String) → lookup id (read_state q).live_orders ≡ none
    nothing_live id = ap (lookup id) (read_state_keeps q).3 ∙ emptied uuid fresh r id

    read_state-IsUnopposed : IsUnopposed uuid (read_state q)
    unfolding AllApart is_about
    read_state-IsUnopposed =
        let x = read_state q in
        let (same_broker, emptied_, read_, live_) = read_state_keeps q in
        let no_thread : (id : String) → lookup id x.broker.live_orders ≡ none =
          λ id. ap (λ b. lookup id b.live_orders) same_broker ∙ r.no_threads id in
        record {
          filling = record {
            callback = ap (λ b. b.has_callback) same_broker ∙ r.follows.callback;
            no_timers = ap (λ b. b.timers) same_broker ∙ r.no_timers;
            mirrored = λ id o e. absurd (ground (arith, e, no_thread id));
            full = subst (All (IsFull x.live_orders)) (sym emptied_) tt;
            apart = subst AllApart (sym emptied_) tt;
            done_once = λ id e. no_thread id;
          };
          nothing_queued = emptied_;
          nothing_pending = read_;
          consistent = read_state-IsConsistent q r.follows.running;
          free = λ i k. no_thread (uuid i);
        }

    -- After the round the new orders are open as they were sent.
    pub cycle-IsUnopposed : IsUnopposed uuid (cycle simulated uuid q)
    unfolding cycle
    cycle-IsUnopposed =
        reconcile_positions-IsUnopposed (to_reconcile q) (read_state q) (to_reconcile-IsDistinct q)
          read_state-IsUnopposed
          (λ s k.
            nothing_listed uuid fresh (read_state q) s (read_state-IsConsistent q r.follows.running)
              nothing_live)

    -- A round changes nothing that reading has not changed when every symbol is on target by then.
    pub cycle_even :
        ((s : String) → calculate_working_position (read_state q) s ≡ target_of (read_state q) s)
        → (cycle simulated uuid q) ≡ read_state q
    unfolding cycle
    cycle_even even =
        reconcile_positions_even simulated uuid fresh (to_reconcile q) (read_state q)
          (λ s k. even s)
