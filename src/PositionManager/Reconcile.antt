-- ===== src/PositionManager/Reconcile.antt =====
-- `_reconcile_positions` of position_manager.py and the working position.
use flow_manager.Base.{
  ==_iff, Bool, Bool-cases, List, String, [], ap, arith, false, get_or, inl, inr, refl, string_eq,
  true, ℕ, ◌==◌, ◌∙◌, ◌∷◌, ◌≡◌,
}
use flow_manager.Broker.{BrokerInterface, signed, signed-buy, signed-sell}
use flow_manager.Dict.{lookup}
use flow_manager.Ids.{contains}
use flow_manager.Int.{abs, abs_neg, abs_pos, int_laws, parts, pos, sign_cases, ℤ, ◌+ℤ◌, ◌-ℤ◌, ◌<ℤ◌}
use flow_manager.PositionManager.{PositionManager, calculate_working_position, ids_of, target_of}
use flow_manager.PositionManager.Cancelling.{
  IsConsistent, cancel_opposing-IsConsistent, cancel_opposing-SameBook, working_same,
}
use flow_manager.PositionManager.Orders.{
  adjust, cancel_opposing, place_order, reconcile_positions, reconcile_symbol,
}
use flow_manager.PositionManager.Placing.{
  place_order-IsConsistent, working-place_order, working-place_order_ne,
}
use flow_manager.PositionManager.Tracking.{IsFresh}
use flow_manager.SimulatedBroker.Threads.{done}

-- What reconciling does: the working positions of the symbols are their targets, the others are
-- as before, and no position and no target has moved.
pub record Reconciled {B : Type 0} (uuid : ℕ → String) (symbols : List String)
    (p q : PositionManager B) : Type 0 where
  pub consistent : IsConsistent uuid q
  pub positions : q.positions ≡ p.positions
  pub targets : q.target_positions ≡ p.target_positions
  pub on_target :
      (s : String) → contains s symbols ≡ true → calculate_working_position q s ≡ target_of p s
  pub elsewhere :
      (s : String)
      → contains s symbols ≡ false
      → calculate_working_position q s ≡ calculate_working_position p s

contains-single : (s r : String) → contains r (s ∷ []) ≡ (s == r)
unfolding contains
contains-single s r = ground arith

signed-abs_buy : (d : ℤ) → pos 0 <ℤ d → signed (abs d) true ≡ d
signed-abs_buy d h = rw (abs_pos d h, signed-buy)

signed-abs_sell : (d : ℤ) → d <ℤ pos 0 → signed (abs d) false ≡ d
signed-abs_sell d h = rw (abs_neg d h, signed-sell) (omega int_laws)

module _ {B : Type 0} (api : BrokerInterface B) (uuid : ℕ → String) (fresh : IsFresh uuid) where
  targets-place_order :
      (buying : Bool) (s : String) (n : ℤ) (p : PositionManager B)
      → ((place_order api uuid buying s n p).positions ≡ p.positions)
        × ((place_order api uuid buying s n p).target_positions ≡ p.target_positions)
  unfolding place_order
  targets-place_order buying s n p = (refl, refl)

  -- One side of the reconciliation closes a gap of `n`.
  adjust-Reconciled :
      (buying : Bool) (s : String) (d : ℤ) (p : PositionManager B)
      → IsConsistent uuid p
      → pos 0 <ℤ abs d
      → calculate_working_position p s +ℤ signed (abs d) buying ≡ target_of p s
      → Reconciled uuid (s ∷ []) p (adjust api uuid buying s d p)
  unfolding adjust
  adjust-Reconciled buying s d p t h gap =
      let q = cancel_opposing api uuid buying (ids_of p s) p in
      let same = cancel_opposing-SameBook api uuid buying (ids_of p s) p in
      let u = cancel_opposing-IsConsistent api uuid buying (ids_of p s) p t in
      let moved = targets-place_order buying s (abs d) q in
      record {
        consistent = place_order-IsConsistent api uuid fresh buying s (abs d) q u;
        positions = moved.0 ∙ same.positions;
        targets = moved.1 ∙ same.targets;
        on_target = λ r e.
            let hit : s ≡ r = ground (arith, contains-single s r, ==_iff s r) in
            rw
              (
                ← hit,
                working-place_order api uuid fresh buying s (abs d) q u h,
                working_same same s,
              )
              gap;
        elsewhere = λ r e.
            let miss : (s == r) ≡ false = rw (← contains-single s r) e in
            working-place_order_ne api uuid fresh buying s (abs d) q u r miss ∙ working_same same r;
      }

  -- The difference that `_reconcile_positions` computes.
  abbrev pub delta_of : String → PositionManager B → ℤ
  delta_of s p = target_of p s -ℤ calculate_working_position p s

  pub reconcile_symbol_cases {ℓ} :
      (P : PositionManager B → Type ℓ) (s : String) (p : PositionManager B)
      → (delta_of s p ≡ pos 0 → P p)
      → (pos 0 <ℤ delta_of s p → P (adjust api uuid true s (delta_of s p) p))
      → (delta_of s p <ℤ pos 0 → P (adjust api uuid false s (delta_of s p) p))
      → P (reconcile_symbol api uuid s p)
  unfolding reconcile_symbol
  reconcile_symbol_cases P s p even short long = elim (sign_cases (delta_of s p)) [
    | inl (e, z) ↦ rw e (even z)
    | inr (inl (e, f, h)) ↦ rw (e, f) (short h)
    | inr (inr (e, f, h)) ↦ rw (e, f) (long h)
  ]

  pub reconcile_symbol-Reconciled :
      (s : String) (p : PositionManager B)
      → IsConsistent uuid p
      → Reconciled uuid (s ∷ []) p (reconcile_symbol api uuid s p)
  reconcile_symbol-Reconciled s p t =
      reconcile_symbol_cases (Reconciled uuid (s ∷ []) p) s p
        (λ z. record {
          consistent = t;
          positions = refl;
          targets = refl;
          on_target = λ r e.
              let hit : s ≡ r = ground (arith, contains-single s r, ==_iff s r) in
              rw (← hit) (omega (int_laws, parts z));
          elsewhere = λ r e. refl;
        })
        (λ h.
          adjust-Reconciled true s (delta_of s p) p t (omega (arith, parts (abs_pos _ h)))
            (rw (signed-abs_buy (delta_of s p) h) (omega int_laws)))
        (λ h.
          adjust-Reconciled false s (delta_of s p) p t (omega (int_laws, parts (abs_neg _ h)))
            (rw (signed-abs_sell (delta_of s p) h) (omega int_laws)))

  -- When the two dicts of orders agree and identifiers are never drawn twice, reconciling a list
  -- of symbols makes the working position of each of them its target, leaves the working position
  -- of every other symbol and all positions and targets alone, and keeps the dicts in agreement,
  -- whatever the broker does and in whatever order the symbols are listed.
  pub reconcile_positions-Reconciled :
      (symbols : List String) (p : PositionManager B)
      → IsConsistent uuid p
      → Reconciled uuid symbols p (reconcile_positions api uuid symbols p)
  unfolding reconcile_positions contains
  reconcile_positions-Reconciled [] p t = record {
    consistent = t;
    positions = refl;
    targets = refl;
    on_target = λ s h. absurd (cc);
    elsewhere = λ s h. refl;
  }
  reconcile_positions-Reconciled (s ∷ symbols) p t =
      let q = reconcile_symbol api uuid s p in
      let first = reconcile_symbol-Reconciled s p t in
      let rest = reconcile_positions-Reconciled symbols q first.consistent in
      record {
        consistent = rest.consistent;
        positions = rest.positions ∙ first.positions;
        targets = rest.targets ∙ first.targets;
        on_target = λ r h. elim (Bool-cases (contains r symbols)) [
          | inl later ↦ rest.on_target r later ∙ ap (λ d. get_or (lookup r d) (pos 0)) first.targets
          | inr done ↦ rest.elsewhere r done ∙ first.on_target r (ground arith)
        ];
        elsewhere = λ r h. rest.elsewhere r (ground arith) ∙ first.elsewhere r (ground arith);
      }
