-- ===== src/PositionManager/Preserving.antt =====
-- Properties that `_reconcile_positions` of position_manager.py inherits from its steps.
use flow_manager.Base.{Bool, List, String, [], false, inl, inr, true, ℕ, ◌∷◌}
use flow_manager.Broker.{BrokerInterface}
use flow_manager.Int.{abs, sign_cases, ℤ, ◌-ℤ◌}
use flow_manager.PositionManager.{PositionManager, calculate_working_position, ids_of, target_of}
use flow_manager.PositionManager.Orders.{
  adjust, cancel_live_order, cancel_opposing, place_order, reconcile_positions, reconcile_symbol,
}

module _ {ℓ} {B : Type 0} (api : BrokerInterface B) (uuid : ℕ → String)
    (R : PositionManager B → Type ℓ)
    (cancels : (buying : Bool) (id : String) (p : PositionManager B)
      → R p
      → R (cancel_live_order api uuid buying id p))
    (places : (buying : Bool) (s : String) (n : ℤ) (p : PositionManager B)
      → R p
      → R (place_order api uuid buying s n p)) where
  cancel_opposing_keeps :
      (buying : Bool) (ids : List String) (p : PositionManager B)
      → R p
      → R (cancel_opposing api uuid buying ids p)
  unfolding cancel_opposing
  cancel_opposing_keeps buying [] p r = r
  cancel_opposing_keeps buying (id ∷ ids) p r =
      cancel_opposing_keeps buying ids (cancel_live_order api uuid buying id p)
        (cancels buying id p r)

  adjust_keeps :
      (buying : Bool) (s : String) (d : ℤ) (p : PositionManager B)
      → R p
      → R (adjust api uuid buying s d p)
  unfolding adjust
  adjust_keeps buying s d p r =
      places buying s (abs d) (cancel_opposing api uuid buying (ids_of p s) p)
        (cancel_opposing_keeps buying (ids_of p s) p r)

  reconcile_symbol_keeps :
      (s : String) (p : PositionManager B) → R p → R (reconcile_symbol api uuid s p)
  unfolding reconcile_symbol
  reconcile_symbol_keeps s p r =
      let d = target_of p s -ℤ calculate_working_position p s in
      elim (sign_cases d) [
        | inl (e, z) ↦ rw e r
        | inr (inl (e, f, h)) ↦ rw (e, f) (adjust_keeps true s d p r)
        | inr (inr (e, f, h)) ↦ rw (e, f) (adjust_keeps false s d p r)
      ]

  pub reconcile_positions_keeps :
      (symbols : List String) (p : PositionManager B)
      → R p
      → R (reconcile_positions api uuid symbols p)
  unfolding reconcile_positions
  reconcile_positions_keeps [] p r = r
  reconcile_positions_keeps (s ∷ symbols) p r =
      reconcile_positions_keeps symbols (reconcile_symbol api uuid s p)
        (reconcile_symbol_keeps s p r)
