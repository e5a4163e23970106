-- ===== src/PositionManager/Balance.antt =====
-- Fills in `_process_trade_confirmations` of position_manager.py and the working position.
use flow_manager.Base.{
  ==_iff, Bool, Bool-cases, String, ap, arith, false, if◌then◌else◌, inl, inr, refl, some,
  string_eq, subst, true, ℕ, ◌==◌, ◌∙◌, ◌≡◌,
}
use flow_manager.Broker.{
  OrderDetails, TradeConfirmationMessage, is_terminal, signed, signed-buy, signed-sell,
}
use flow_manager.Dict.{lookup}
use flow_manager.Int.{int_laws, parts, pos, sign_cases, ℤ, ◌+ℤ◌, ◌-ℤ◌, ◌≤ℤ◌}
use flow_manager.PositionManager.{
  PositionManager, calculate_working_position, filled_by, outstanding, process_confirmation,
  remaining,
}
use flow_manager.PositionManager.Cancelling.{IsConsistent, outstanding_active}
use flow_manager.PositionManager.Fills.{
  left, working-process_confirmation, working-process_confirmation_ne,
}

signed_sub : (a b : ℤ) (buying : Bool) → signed (a -ℤ b) buying ≡ signed a buying -ℤ signed b buying
signed_sub a b true = rw (signed-buy (a -ℤ b), signed-buy a, signed-buy b)
signed_sub a b false = rw (signed-sell (a -ℤ b), signed-sell a, signed-sell b) (omega int_laws)

signed_zero : (buying : Bool) → signed (pos 0) buying ≡ pos 0
signed_zero true = signed-buy (pos 0)
signed_zero false = rw signed-sell (omega int_laws)

-- An order that is not overfilled counts with all that remains.
outstanding_exact :
    (o : OrderDetails)
    → is_terminal o.status ≡ false
    → pos 0 ≤ℤ remaining o
    → outstanding (some o) ≡ signed (remaining o) o.side_is_buy
outstanding_exact o h le = elim (sign_cases (remaining o)) [
  | inl (e, z) ↦ rw (outstanding_active o h, z, signed_zero o.side_is_buy)
  | inr (inl (e, f, lt)) ↦ rw (outstanding_active o h, f)
  | inr (inr (e, f, lt)) ↦ absurd (omega arith)
]

module _ {B : Type 0} (uuid : ℕ → String) (conf : TradeConfirmationMessage) (p : PositionManager B)
    (t : IsConsistent uuid p) (o : OrderDetails)
    (known : lookup conf.client_order_id p.live_orders ≡ some o)
    (same : o.symbol ≡ conf.symbol) where
  module _ (side : conf.side_is_buy ≡ o.side_is_buy) (low : pos 0 ≤ℤ conf.filled_quantity)
      (high : conf.filled_quantity ≤ℤ remaining o) where
    -- What an order that ends has not filled.
    abbrev never_filled : ℤ
    never_filled =
        if is_terminal conf.status
        then signed (remaining o -ℤ conf.filled_quantity) o.side_is_buy
        else pos 0

    moved :
        calculate_working_position (process_confirmation conf p) conf.symbol +ℤ outstanding (some o)
        ≡ calculate_working_position p conf.symbol
          +ℤ signed conf.filled_quantity conf.side_is_buy
          +ℤ left conf o
    moved = working-process_confirmation uuid conf p t o known same

    working_at_symbol :
        calculate_working_position (process_confirmation conf p) conf.symbol
        ≡ calculate_working_position p conf.symbol -ℤ never_filled
    working_at_symbol = elim (Bool-cases (is_terminal conf.status)) [
      | inl end ↦
          let w' : calculate_working_position (process_confirmation conf p) conf.symbol
                +ℤ outstanding (some o)
              ≡ calculate_working_position p conf.symbol
                +ℤ signed conf.filled_quantity conf.side_is_buy
                +ℤ pos 0 =
            rw end at moved in
          rw (end, signed_sub (remaining o) conf.filled_quantity o.side_is_buy)
            (omega
              (int_laws, parts w', parts before, parts (ap (signed conf.filled_quantity) side)))
      | inr go ↦
          let w' : calculate_working_position (process_confirmation conf p) conf.symbol
                +ℤ outstanding (some o)
              ≡ calculate_working_position p conf.symbol
                +ℤ signed conf.filled_quantity conf.side_is_buy
                +ℤ signed (remaining o -ℤ conf.filled_quantity) o.side_is_buy =
            rw (go, after go) at moved in
          rw go (
            omega (
              int_laws,
              parts w',
              parts before,
              parts split,
              parts (ap (signed conf.filled_quantity) side),
            ))
    ]
      where
        alive : is_terminal o.status ≡ false
        alive = t.active conf.client_order_id o known

        before : outstanding (some o) ≡ signed (remaining o) o.side_is_buy
        before = outstanding_exact o alive (omega arith)

        rest : remaining (filled_by conf o) ≡ remaining o -ℤ conf.filled_quantity
        rest = unfold remaining filled_by in omega int_laws

        split :
            signed (remaining o -ℤ conf.filled_quantity) o.side_is_buy
            ≡ signed (remaining o) o.side_is_buy -ℤ signed conf.filled_quantity o.side_is_buy
        split = signed_sub (remaining o) conf.filled_quantity o.side_is_buy

        after :
            is_terminal conf.status ≡ false
            → outstanding (some (filled_by conf o))
              ≡ signed (remaining o -ℤ conf.filled_quantity) o.side_is_buy
        after go =
            outstanding_exact (filled_by conf o) (unfold filled_by in go) (rw rest (omega int_laws))
            ∙ (rw rest (unfold filled_by in refl))

    -- When the dicts of orders agree, and a confirmation names a live order with its symbol and
    -- side and a quantity between 0 and what remains of the order, processing it leaves the
    -- working position of every symbol as it was, except that an end of the order takes from the
    -- working position of its symbol what was never filled.
    pub working_of_fill :
        (r : String)
        → calculate_working_position (process_confirmation conf p) r
          ≡ calculate_working_position p r
            -ℤ (if conf.symbol == r
                then (if is_terminal conf.status
                    then signed (remaining o -ℤ conf.filled_quantity) o.side_is_buy
                    else pos 0)
                else pos 0)
    working_of_fill r = elim (Bool-cases (conf.symbol == r)) [
      | inl hit ↦ rw hit (
          subst
            (λ x.
              calculate_working_position (process_confirmation conf p) x
              ≡ calculate_working_position p x -ℤ never_filled)
            ((==_iff conf.symbol r).0 hit) working_at_symbol)
      | inr ne ↦
          rw (ne, working-process_confirmation_ne uuid conf p t o known same r ne) (omega int_laws)
    ]
