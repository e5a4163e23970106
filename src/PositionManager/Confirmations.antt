-- ===== src/PositionManager/Confirmations.antt =====
-- `_process_trade_confirmations` of position_manager.py: the books, the tracking of orders and the
-- working position.
use flow_manager.Base.{
  ==_iff, All, Bool, Bool-cases, List, Option-cases, String, [], arith, false, get_or,
  if◌then◌else◌, inl, inr, none, refl, some, string_eq, subst, sym, true, ℕ, ◌==◌, ◌||◌, ◌∙◌, ◌∷◌,
  ◌≡◌,
}
use flow_manager.Broker.{
  OrderDetails, TradeConfirmationMessage, is_terminal, signed, signed-buy, signed-sell,
}
use flow_manager.Dict.{Dict, erase, insert, lookup, lookup-erase, lookup-insert, lookup-insert_self}
use flow_manager.Ids.{contains, contains-set_add, set_add}
use flow_manager.Int.{+ℤ_assoc, +ℤ_zero, pos, ℤ, ◌+ℤ◌, ◌-ℤ◌}
use flow_manager.PositionManager.{
  PositionManager, add_to, booked, filled_by, position_of, process_all, process_confirmation,
  untrack, update_live_order,
}
use flow_manager.PositionManager.Cancelling.{IsConsistent}
use flow_manager.PositionManager.Tracking.{IsTracked, drop-IsTracked, update-IsTracked}

-- A confirmation names the symbol under which its order is tracked.
abbrev pub Matches : Dict String OrderDetails → TradeConfirmationMessage → Type 0
Matches live conf =
    (o : OrderDetails) → lookup conf.client_order_id live ≡ some o → o.symbol ≡ conf.symbol

-- The signed and the gross quantity that a list of confirmations trades in a symbol.
unfoldable pub net : String → List TradeConfirmationMessage → ℤ
net s [] = pos 0
net s (c ∷ q) =
    (if c.symbol == s
      then (if c.side_is_buy then c.filled_quantity else pos 0 -ℤ c.filled_quantity)
      else pos 0)
    +ℤ net s q

unfoldable pub gross : String → List TradeConfirmationMessage → ℤ
gross s [] = pos 0
gross s (c ∷ q) = (if c.symbol == s then c.filled_quantity else pos 0) +ℤ gross s q

unfoldable pub is_named : String → List TradeConfirmationMessage → Bool
is_named s [] = false
is_named s (c ∷ q) = c.symbol == s || is_named s q

pub lookup-add_to :
    (k s : String) (n : ℤ) (d : Dict String ℤ)
    → get_or (lookup s (add_to k n d)) (pos 0)
      ≡ get_or (lookup s d) (pos 0) +ℤ (if k == s then n else pos 0)
unfolding add_to
lookup-add_to k s n d = elim (Bool-cases (k == s)) [
  | inl hit ↦
      let e : k ≡ s = (==_iff k s).0 hit in
      rw (hit, e, lookup-insert_self s (get_or (lookup s d) (pos 0) +ℤ n) d)
  | inr miss ↦
      rw (lookup-insert k s (get_or (lookup k d) (pos 0) +ℤ n) d, miss)
        (sym (+ℤ_zero (get_or (lookup s d) (pos 0))))
]

signed-buy_sell : (n : ℤ) (buying : Bool) → signed n buying ≡ (if buying then n else pos 0 -ℤ n)
signed-buy_sell n true = signed-buy n
signed-buy_sell n false = signed-sell n

module _ {B : Type 0} where
  pub process_confirmation_cases {ℓ} :
      (P : PositionManager B → Type ℓ) (conf : TradeConfirmationMessage) (p : PositionManager B)
      → (lookup conf.client_order_id p.live_orders ≡ none → P (booked conf p))
      → ((o : OrderDetails)
          → lookup conf.client_order_id p.live_orders ≡ some o
          → is_terminal conf.status ≡ true
          → P (record (booked conf p) {
            live_orders = erase conf.client_order_id p.live_orders;
            live_orders_by_symbol =
                untrack conf.symbol conf.client_order_id p.live_orders_by_symbol;
          }))
      → ((o : OrderDetails)
          → lookup conf.client_order_id p.live_orders ≡ some o
          → is_terminal conf.status ≡ false
          → P (record (booked conf p) {
            live_orders = insert conf.client_order_id (filled_by conf o) p.live_orders;
          }))
      → P (process_confirmation conf p)
  unfolding process_confirmation update_live_order
  process_confirmation_cases P conf p unknown over partial =
      elim (Option-cases (lookup conf.client_order_id p.live_orders)) [
        | inl e ↦ rw (e, process_confirmation) (unknown e)
        | inr (o, e) ↦ elim (Bool-cases (is_terminal conf.status)) [
          | inl end ↦ rw (e, process_confirmation, end) (over o e end)
          | inr go ↦ rw (e, process_confirmation, go) (partial o e go)
        ]
      ]

  process_confirmation-books :
      (conf : TradeConfirmationMessage) (p : PositionManager B)
      → ((process_confirmation conf p).positions ≡ (booked conf p).positions)
        × ((process_confirmation conf p).total_traded_by_symbol
            ≡ (booked conf p).total_traded_by_symbol)
        × ((process_confirmation conf p).target_positions ≡ p.target_positions)
  process_confirmation-books conf p =
      process_confirmation_cases
        (λ q.
          (q.positions ≡ (booked conf p).positions)
          × (q.total_traded_by_symbol ≡ (booked conf p).total_traded_by_symbol)
          × (q.target_positions ≡ p.target_positions))
        conf p (λ e. (refl, refl, refl)) (λ o e h. (refl, refl, refl)) (λ o e h. (refl, refl, refl))

  -- Processing a list of confirmations adds to the position of every symbol what they buy of it
  -- and takes away what they sell, and adds to its traded volume the sum of their quantities, of
  -- known orders and of unknown ones, and changes no target.
  pub process_all-books :
      (q : List TradeConfirmationMessage) (affected : List String) (p : PositionManager B)
      (s : String)
      → let p' = (process_all q affected p).1 in
        (position_of p' s ≡ position_of p s +ℤ net s q)
        × (get_or (lookup s p'.total_traded_by_symbol) (pos 0)
            ≡ get_or (lookup s p.total_traded_by_symbol) (pos 0) +ℤ gross s q)
        × (p'.target_positions ≡ p.target_positions)
  unfolding process_all net gross
  process_all-books [] affected p s = (
    sym (+ℤ_zero (position_of p s)),
    sym (+ℤ_zero (get_or (lookup s p.total_traded_by_symbol) (pos 0))),
    refl,
  )
  process_all-books (c ∷ q) affected p s =
      let n = signed c.filled_quantity c.side_is_buy in
      let as_sum = signed-buy_sell c.filled_quantity c.side_is_buy in
      let (ps, ts, gs) = process_confirmation-books c p in
      let (pr, tr, gr) =
        process_all-books q (set_add c.symbol affected) (process_confirmation c p) s in
      (
        pr
            ∙ rw (ps, lookup-add_to c.symbol s n p.positions, ← as_sum)
                (+ℤ_assoc (position_of p s) (if c.symbol == s then n else pos 0) (net s q)),
        tr
            ∙ rw (ts, lookup-add_to c.symbol s c.filled_quantity p.total_traded_by_symbol)
                (+ℤ_assoc (get_or (lookup s p.total_traded_by_symbol) (pos 0))
                  (if c.symbol == s then c.filled_quantity else pos 0) (gross s q)),
        gr ∙ gs,
      )

  -- The symbols that processing a list of confirmations returns are those of the set it started
  -- with and those that the confirmations name.
  pub process_all-affected :
      (q : List TradeConfirmationMessage) (affected : List String) (p : PositionManager B)
      (s : String)
      → contains s (process_all q affected p).0 ≡ (contains s affected || is_named s q)
  unfolding process_all is_named
  process_all-affected [] affected p s = ground arith
  process_all-affected (c ∷ q) affected p s = ground (
    arith,
    process_all-affected q (set_add c.symbol affected) (process_confirmation c p) s,
    contains-set_add s c.symbol affected,
  )

  pub process_confirmation-IsConsistent :
      (uuid : ℕ → String) (conf : TradeConfirmationMessage) (p : PositionManager B)
      → Matches p.live_orders conf
      → IsConsistent uuid p
      → IsConsistent uuid (process_confirmation conf p)
  process_confirmation-IsConsistent uuid conf p m t =
      process_confirmation_cases (IsConsistent uuid) conf p (λ e. t)
        (λ o e h.
          subst
            (λ s.
              IsTracked uuid p.issued (erase conf.client_order_id p.live_orders)
                (untrack s conf.client_order_id p.live_orders_by_symbol))
            (m o e)
            (drop-IsTracked uuid p.issued p.live_orders p.live_orders_by_symbol t
              conf.client_order_id o e))
        (λ o e h.
          update-IsTracked uuid p.issued p.live_orders p.live_orders_by_symbol t
            conf.client_order_id o (filled_by conf o) e (unfold filled_by in refl)
            (unfold filled_by in h))

  pub Matches-process_confirmation :
      (conf c : TradeConfirmationMessage) (p : PositionManager B)
      → Matches p.live_orders c
      → Matches (process_confirmation conf p).live_orders c
  unfolding filled_by
  Matches-process_confirmation conf c p m =
      process_confirmation_cases (λ q. Matches q.live_orders c) conf p (λ e. m)
        (λ o e h x f.
          m x (ground (arith, lookup-erase conf.client_order_id c.client_order_id p.live_orders)))
        (λ o e h x f. ground (
          arith,
          lookup-insert conf.client_order_id c.client_order_id (filled_by conf o) p.live_orders,
          ==_iff conf.client_order_id c.client_order_id,
          m o,
          m x,
        ))

  pub All-Matches :
      (conf : TradeConfirmationMessage) (q : List TradeConfirmationMessage) (p : PositionManager B)
      → All (Matches p.live_orders) q
      → All (Matches (process_confirmation conf p).live_orders) q
  All-Matches conf [] p m = tt
  All-Matches conf (c ∷ q) p m =
      (Matches-process_confirmation conf c p m.0, All-Matches conf q p m.1)

  -- When every confirmation of a list that names a live order names the symbol of that order,
  -- processing the list keeps the two dicts of orders in agreement.
  pub process_all-IsConsistent :
      (uuid : ℕ → String) (q : List TradeConfirmationMessage) (affected : List String)
      (p : PositionManager B)
      → All (Matches p.live_orders) q
      → IsConsistent uuid p
      → IsConsistent uuid (process_all q affected p).1
  unfolding process_all
  process_all-IsConsistent uuid [] affected p m t = t
  process_all-IsConsistent uuid (c ∷ q) affected p m t =
      process_all-IsConsistent uuid q (set_add c.symbol affected) (process_confirmation c p)
        (All-Matches c q p m.1) (process_confirmation-IsConsistent uuid c p m.0 t)
