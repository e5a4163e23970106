-- ===== src/PositionManager/Reading.antt =====
-- `_process_trade_confirmations` of position_manager.py and the rest of the state.
use flow_manager.Base.{
  All, List, Option-cases, String, [], arith, false, inl, inr, refl, string_eq, ℕ, ◌==◌, ◌∙◌, ◌∷◌,
  ◌≡◌,
}
use flow_manager.Broker.{TradeConfirmationMessage, signed}
use flow_manager.Dict.{lookup}
use flow_manager.Ids.{set_add}
use flow_manager.Int.{+ℤ_zero}
use flow_manager.PositionManager.{
  PositionManager, booked, calculate_working_position, position_of, process_all,
  process_confirmation,
}
use flow_manager.PositionManager.Cancelling.{IsConsistent}
use flow_manager.PositionManager.Confirmations.{
  All-Matches, Matches, is_named, lookup-add_to, process_confirmation-IsConsistent,
  process_confirmation_cases,
}
use flow_manager.PositionManager.Fills.{working-process_confirmation_ne}
use flow_manager.PositionManager.Working.{working-eq-committed}

module _ {B : Type 0} where
  -- A confirmation about other symbols leaves a working position alone.
  working-process_confirmation_unnamed :
      (uuid : ℕ → String) (c : TradeConfirmationMessage) (p : PositionManager B)
      → IsConsistent uuid p
      → Matches p.live_orders c
      → (s : String) → (c.symbol == s) ≡ false
      → calculate_working_position (process_confirmation c p) s ≡ calculate_working_position p s
  working-process_confirmation_unnamed uuid c p t m s h =
      elim (Option-cases (lookup c.client_order_id p.live_orders)) [
        | inr (o, e) ↦ working-process_confirmation_ne uuid c p t o e (m o e) s h
        | inl e ↦
            process_confirmation_cases
              (λ q. calculate_working_position q s ≡ calculate_working_position p s) c p
              (λ f. rw (
                working-eq-committed (booked c p) s,
                working-eq-committed p s,
                lookup-add_to c.symbol s (signed c.filled_quantity c.side_is_buy) p.positions,
                h,
                +ℤ_zero (position_of p s),
              ))
              (λ o f end. absurd (cc)) (λ o f go. absurd (cc))
      ]

  pub working-process_all :
      (uuid : ℕ → String) (q : List TradeConfirmationMessage) (affected : List String)
      (p : PositionManager B)
      → IsConsistent uuid p
      → All (Matches p.live_orders) q
      → (s : String) → is_named s q ≡ false
      → calculate_working_position (process_all q affected p).1 s ≡ calculate_working_position p s
  unfolding process_all is_named
  working-process_all uuid [] affected p t m s h = refl
  working-process_all uuid (c ∷ q) affected p t m s h =
      working-process_all uuid q (set_add c.symbol affected) (process_confirmation c p)
        (process_confirmation-IsConsistent uuid c p m.0 t) (All-Matches c q p m.1) s (ground arith)
      ∙ working-process_confirmation_unnamed uuid c p t m.0 s (ground arith)

  -- Reading confirmations leaves the rest of the state alone.
  abbrev pub SameRest : PositionManager B → PositionManager B → Type 0
  SameRest p q =
      (q.broker ≡ p.broker)
      × (q.issued ≡ p.issued)
      × (q.trade_confirmations_q ≡ p.trade_confirmations_q)
      × (q.target_updates_q ≡ p.target_updates_q)
      × (q.target_positions ≡ p.target_positions)
      × (q.terminate_flag ≡ p.terminate_flag)

  pub process_all_keeps :
      (q : List TradeConfirmationMessage) (affected : List String) (p : PositionManager B)
      → SameRest p (process_all q affected p).1
  unfolding process_all
  process_all_keeps [] affected p = (refl, refl, refl, refl, refl, refl)
  process_all_keeps (c ∷ q) affected p =
      let (a, b, d, e, f, g) =
        process_all_keeps q (set_add c.symbol affected) (process_confirmation c p) in
      let (a', b', d', e', f', g') =
        process_confirmation_cases (SameRest p) c p (λ e. (refl, refl, refl, refl, refl, refl))
          (λ o e h. (refl, refl, refl, refl, refl, refl))
          (λ o e h. (refl, refl, refl, refl, refl, refl)) in
      (a ∙ a', b ∙ b', d ∙ d', e ∙ e', f ∙ f', g ∙ g')

  pub working_other_targets :
      (p q : PositionManager B) (s : String)
      → q.positions ≡ p.positions
      → q.live_orders ≡ p.live_orders
      → q.live_orders_by_symbol ≡ p.live_orders_by_symbol
      → calculate_working_position q s ≡ calculate_working_position p s
  unfolding calculate_working_position
  working_other_targets p q s a b c = rw (a, b, c)
