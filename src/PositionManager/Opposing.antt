-- ===== src/PositionManager/Opposing.antt =====
-- `_reconcile_positions` of position_manager.py, run a second time.
use flow_manager.Base.{
  ==_refl, List, String, [], ap, arith, get_or, refl, string_eq, sym, true, ℕ, ◌∙◌, ◌∷◌, ◌≡◌,
}
use flow_manager.Broker.{BrokerInterface}
use flow_manager.Dict.{lookup}
use flow_manager.Ids.{contains}
use flow_manager.Int.{int_laws, parts, pos}
use flow_manager.PositionManager.{PositionManager, calculate_working_position, target_of}
use flow_manager.PositionManager.Cancelling.{IsConsistent}
use flow_manager.PositionManager.Orders.{reconcile_positions, reconcile_symbol}
use flow_manager.PositionManager.Reconcile.{reconcile_positions-Reconciled, reconcile_symbol_cases}
use flow_manager.PositionManager.Tracking.{IsFresh}

module _ {B : Type 0} (api : BrokerInterface B) (uuid : ℕ → String) (fresh : IsFresh uuid) where
  reconcile_symbol_even :
      (s : String) (p : PositionManager B)
      → calculate_working_position p s ≡ target_of p s
      → reconcile_symbol api uuid s p ≡ p
  reconcile_symbol_even s p e =
      reconcile_symbol_cases api uuid fresh (λ q. q ≡ p) s p (λ z. refl)
        (λ h. absurd (omega (int_laws, parts e))) (λ h. absurd (omega (int_laws, parts e)))

  pub reconcile_positions_even :
      (symbols : List String) (p : PositionManager B)
      → ((s : String) → contains s symbols ≡ true → calculate_working_position p s ≡ target_of p s)
      → reconcile_positions api uuid symbols p ≡ p
  unfolding reconcile_positions contains
  reconcile_positions_even [] p h = refl
  reconcile_positions_even (s ∷ symbols) p h =
      rw (reconcile_symbol_even s p (h s (ground (arith, ==_refl s))))
        (reconcile_positions_even symbols p (λ r e. h r (ground arith)))

  -- When the dicts of orders agree and identifiers are never drawn twice, reconciling the same
  -- symbols a second time changes nothing, so it sends nothing to the broker.
  pub reconcile_positions_idem :
      (symbols : List String) (p : PositionManager B)
      → IsConsistent uuid p
      → reconcile_positions api uuid symbols (reconcile_positions api uuid symbols p)
        ≡ reconcile_positions api uuid symbols p
  reconcile_positions_idem symbols p t =
      let q = reconcile_positions api uuid symbols p in
      let r = reconcile_positions-Reconciled api uuid fresh symbols p t in
      reconcile_positions_even symbols q
        (λ s e. r.on_target s e ∙ ap (λ d. get_or (lookup s d) (pos 0)) (sym r.targets))
