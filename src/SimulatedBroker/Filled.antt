-- ===== src/SimulatedBroker/Filled.antt =====
-- Orders that have been filled completely, when position_manager.py reads their confirmations: the
-- working position stays as it is.
use flow_manager.Base.{
  ==_iff, All, Bool, Bool-cases, List, String, [], arith, false, inl, inr, refl, string_eq, sym,
  true, ℕ, ◌==◌, ◌∙◌, ◌∷◌, ◌≡◌,
}
use flow_manager.Broker.{OrderDetails, TradeConfirmationMessage, is_terminal, signed}
use flow_manager.Dict.{Dict, erase, insert, lookup, lookup-erase, lookup-insert}
use flow_manager.Ids.{set_add}
use flow_manager.Int.{int_laws, parts, pos, ◌*ℤ◌, ◌-ℤ◌}
use flow_manager.PositionManager.{
  PositionManager, calculate_working_position, filled_by, process_all, process_confirmation,
  remaining,
}
use flow_manager.PositionManager.Balance.{working_of_fill}
use flow_manager.PositionManager.Cancelling.{IsConsistent}
use flow_manager.PositionManager.Confirmations.{
  Matches, process_confirmation-IsConsistent, process_confirmation_cases,
}
use flow_manager.SimulatedBroker.{SimulatedBroker}
use flow_manager.SimulatedBroker.Filling.{AllApart, IsFull, is_about}

signed_nothing : (buying : Bool) → signed (pos 0) buying ≡ pos 0
unfolding signed ◌*ℤ◌
signed_nothing true = refl
signed_nothing false = refl

module _ (uuid : ℕ → String) where
  -- An order that is filled completely has the same share in the working position before and after.
  filled_whole :
      (c : TradeConfirmationMessage) (p : PositionManager SimulatedBroker)
      → IsConsistent uuid p
      → IsFull p.live_orders c
      → (s : String)
      → calculate_working_position (process_confirmation c p) s ≡ calculate_working_position p s
  unfolding remaining is_terminal
  filled_whole c p t f s =
      let left_over : remaining f.order -ℤ c.filled_quantity ≡ pos 0 =
        omega (int_laws, parts f.quantity, parts f.unfilled) in
      let ends : is_terminal c.status ≡ true = rw f.status refl in
      let nothing : signed (pos 0) f.order.side_is_buy ≡ pos 0 =
        signed_nothing f.order.side_is_buy in
      working_of_fill uuid c p t f.order f.known f.symbol (sym f.side) f.positive
        (omega (int_laws, parts left_over)) s
      ∙ rw (ends, left_over, nothing)
          (elim (Bool-cases (c.symbol == s)) [
            | inl hit ↦ rw hit (omega int_laws)
            | inr miss ↦ rw miss (omega int_laws)
          ])

  process_confirmation-IsFull :
      (c d : TradeConfirmationMessage) (p : PositionManager SimulatedBroker)
      → (c.client_order_id == d.client_order_id) ≡ false
      → IsFull p.live_orders d
      → IsFull (process_confirmation c p).live_orders d
  process_confirmation-IsFull c d p apart f =
      process_confirmation_cases (λ q. IsFull q.live_orders d) c p (λ e. f)
        (λ o e over.
          still (erase c.client_order_id p.live_orders)
            (rw (lookup-erase c.client_order_id d.client_order_id p.live_orders, apart) refl))
        (λ o e go. still (insert c.client_order_id (filled_by c o) p.live_orders) (
          rw
            (lookup-insert c.client_order_id d.client_order_id (filled_by c o) p.live_orders, apart)
            refl))
    where
      still :
          (live : Dict String OrderDetails)
          → lookup d.client_order_id live ≡ lookup d.client_order_id p.live_orders
          → IsFull live d
      still live e = record {
        order = f.order;
        known = e ∙ f.known;
        symbol = f.symbol;
        side = f.side;
        quantity = f.quantity;
        unfilled = f.unfilled;
        positive = f.positive;
        status = f.status;
      }

  All-IsFull :
      (c : TradeConfirmationMessage) (q : List TradeConfirmationMessage)
      (p : PositionManager SimulatedBroker)
      → is_about c.client_order_id q ≡ false
      → All (IsFull p.live_orders) q
      → All (IsFull (process_confirmation c p).live_orders) q
  unfolding is_about
  All-IsFull c [] p apart h = tt
  All-IsFull c (d ∷ q) p apart h = (
    process_confirmation-IsFull c d p
        (ground (
          arith,
          apart,
          ==_iff c.client_order_id d.client_order_id,
          ==_iff d.client_order_id c.client_order_id,
        ))
        h.0,
    All-IsFull c q p (ground (arith, apart)) h.1,
  )

  pub process_all_filled :
      (q : List TradeConfirmationMessage) (affected : List String)
      (p : PositionManager SimulatedBroker)
      → IsConsistent uuid p
      → All (IsFull p.live_orders) q
      → AllApart q
      → (s : String)
      → calculate_working_position (process_all q affected p).1 s ≡ calculate_working_position p s
  unfolding process_all AllApart
  process_all_filled [] affected p t f a s = refl
  process_all_filled (c ∷ q) affected p t f a s =
      process_all_filled q (set_add c.symbol affected) (process_confirmation c p)
        (process_confirmation-IsConsistent uuid c p (matches f.0) t) (All-IsFull c q p a.0 f.1) a.1
        s
      ∙ filled_whole c p t f.0 s
    where
      matches : IsFull p.live_orders c → Matches p.live_orders c
      matches g o e = ground (arith, e, g.known, g.symbol)
