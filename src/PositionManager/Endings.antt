-- ===== src/PositionManager/Endings.antt =====
-- Orders that end in `_process_trade_confirmations` of position_manager.py.
use flow_manager.Base.{
  ==_iff, Bool, Bool-cases, List, String, [], ap, arith, false, inl, inr, none, refl, string_eq,
  sym, true, ◌&&◌, ◌++◌, ◌==◌, ◌||◌, ◌∙◌, ◌∷◌, ◌≡◌,
}
use flow_manager.Broker.{TradeConfirmationMessage, is_terminal}
use flow_manager.Dict.{lookup, lookup-erase, lookup-insert}
use flow_manager.Ids.{set_add}
use flow_manager.PositionManager.{PositionManager, filled_by, process_all, process_confirmation}
use flow_manager.PositionManager.Confirmations.{process_confirmation_cases}

-- Some confirmation of the list ends the order.
unfoldable pub is_ended : String → List TradeConfirmationMessage → Bool
is_ended id [] = false
is_ended id (c ∷ q) = (c.client_order_id == id && is_terminal c.status) || is_ended id q

pub is_ended-append :
    (id : String) (q r : List TradeConfirmationMessage)
    → is_ended id (q ++ r) ≡ (is_ended id q || is_ended id r)
unfolding is_ended
is_ended-append id [] r = refl
is_ended-append id (c ∷ q) r = ground (arith, is_ended-append id q r)

pub is_ended_more :
    (id : String) (q r : List TradeConfirmationMessage)
    → is_ended id q ≡ true
    → is_ended id (q ++ r) ≡ true
is_ended_more id q r h = ground (arith, is_ended-append id q r)

pub is_ended_last :
    (id : String) (q : List TradeConfirmationMessage) (c : TradeConfirmationMessage)
    → c.client_order_id ≡ id
    → is_terminal c.status ≡ true
    → is_ended id (q ++ c ∷ []) ≡ true
unfolding is_ended
is_ended_last id q c e over =
    ground (arith, is_ended-append id q (c ∷ []), ==_iff c.client_order_id id)

module _ {B : Type 0} where
  process_confirmation-none :
      (c : TradeConfirmationMessage) (id : String) (p : PositionManager B)
      → lookup id p.live_orders ≡ none
      → lookup id (process_confirmation c p).live_orders ≡ none
  process_confirmation-none c id p h =
      process_confirmation_cases (λ q. lookup id q.live_orders ≡ none) c p (λ e. h)
        (λ o e over. ground (arith, lookup-erase c.client_order_id id p.live_orders))
        (λ o e go. ground (
          arith,
          lookup-insert c.client_order_id id (filled_by c o) p.live_orders,
          ==_iff c.client_order_id id,
        ))

  process_confirmation_over :
      (c : TradeConfirmationMessage) (id : String) (p : PositionManager B)
      → c.client_order_id ≡ id
      → is_terminal c.status ≡ true
      → lookup id (process_confirmation c p).live_orders ≡ none
  process_confirmation_over c id p e over =
      process_confirmation_cases (λ q. lookup id q.live_orders ≡ none) c p
        (λ f. ap (λ k. lookup k p.live_orders) (sym e) ∙ f)
        (λ o f h.
          ground
            (arith, lookup-erase c.client_order_id id p.live_orders, ==_iff c.client_order_id id))
        (λ o f go. absurd (cc))

  pub process_all-none :
      (q : List TradeConfirmationMessage) (affected : List String) (p : PositionManager B)
      (id : String)
      → lookup id p.live_orders ≡ none
      → lookup id (process_all q affected p).1.live_orders ≡ none
  unfolding process_all
  process_all-none [] affected p id h = h
  process_all-none (c ∷ q) affected p id h =
      process_all-none q (set_add c.symbol affected) (process_confirmation c p) id
        (process_confirmation-none c id p h)

  pub process_all_over :
      (q : List TradeConfirmationMessage) (affected : List String) (p : PositionManager B)
      (id : String)
      → is_ended id q ≡ true
      → lookup id (process_all q affected p).1.live_orders ≡ none
  unfolding process_all is_ended
  process_all_over [] affected p id h = absurd (cc)
  process_all_over (c ∷ q) affected p id h =
      elim (Bool-cases (c.client_order_id == id && is_terminal c.status)) [
        | inl hit ↦ process_all-none q (set_add c.symbol affected) (process_confirmation c p) id (
            process_confirmation_over c id p (ground (arith, ==_iff c.client_order_id id))
              (ground arith))
        | inr miss ↦
            process_all_over q (set_add c.symbol affected) (process_confirmation c p) id
              (ground arith)
      ]
