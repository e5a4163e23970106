-- ===== src/PositionManager/Cancelling.antt =====
-- The loops of `_reconcile_positions` in position_manager.py that cancel the orders of the other
-- side.
use flow_manager.Base.{
  ==_iff, Bool, Bool-cases, List, Option-cases, String, [], arith, false, if◌then◌else◌, inl, inr,
  not, refl, some, string_eq, ℕ, ◌&&◌, ◌++◌, ◌∙◌, ◌∷◌, ◌≡◌,
}
use flow_manager.Broker.{
  BrokerInterface, OrderDetails, Status, is_closing, is_terminal, pending_cancel, signed,
}
use flow_manager.Dict.{Dict, insert, lookup, lookup-insert}
use flow_manager.Int.{ltb_ℤ, pos}
use flow_manager.PositionManager.{
  PositionManager, calculate_working_position, ids_of, outstanding, remaining,
}
use flow_manager.PositionManager.Orders.{cancel_live_order, cancel_opposing, marked, opposes}
use flow_manager.PositionManager.Tracking.{IsTracked, update-IsTracked}
use flow_manager.PositionManager.Working.{committed_congr, working-eq-committed}

-- What cancelling leaves alone: an order that is being cancelled still counts.
pub record SameBook {B : Type 0} (p q : PositionManager B) : Type 0 where
  pub positions : q.positions ≡ p.positions
  pub targets : q.target_positions ≡ p.target_positions
  pub ids : q.live_orders_by_symbol ≡ p.live_orders_by_symbol
  pub issued : q.issued ≡ p.issued
  pub traded : q.total_traded_by_symbol ≡ p.total_traded_by_symbol
  pub flag : q.terminate_flag ≡ p.terminate_flag
  pub outstanding_of :
      (id : String) → outstanding (lookup id q.live_orders) ≡ outstanding (lookup id p.live_orders)

pub SameBook-refl : {B : Type 0} (p : PositionManager B) → SameBook p p
SameBook-refl p = record {
  positions = refl;
  targets = refl;
  ids = refl;
  issued = refl;
  traded = refl;
  flag = refl;
  outstanding_of = λ id. refl;
}

pub SameBook-trans :
    {B : Type 0} {p q r : PositionManager B} → SameBook p q → SameBook q r → SameBook p r
SameBook-trans a b = record {
  positions = b.positions ∙ a.positions;
  targets = b.targets ∙ a.targets;
  ids = b.ids ∙ a.ids;
  issued = b.issued ∙ a.issued;
  traded = b.traded ∙ a.traded;
  flag = b.flag ∙ a.flag;
  outstanding_of = λ id. b.outstanding_of id ∙ a.outstanding_of id;
}

pub working_same :
    {B : Type 0} {p q : PositionManager B}
    → SameBook p q
    → (s : String) → calculate_working_position q s ≡ calculate_working_position p s
working_same {p} {q} same s = rw (
  working-eq-committed q s,
  working-eq-committed p s,
  same.positions,
  same.ids,
  committed_congr p.live_orders q.live_orders (ids_of p s) same.outstanding_of,
)

abbrev pub IsConsistent : {B : Type 0} → (ℕ → String) → PositionManager B → Type 0
IsConsistent uuid p = IsTracked uuid p.issued p.live_orders p.live_orders_by_symbol

pub is_terminal_of_closing : (s : Status) → is_closing s ≡ false → is_terminal s ≡ false
unfolding is_closing is_terminal
is_terminal_of_closing pending_cancel h = refl
is_terminal_of_closing _ h = ground arith

-- An order that is not over counts with what remains of it.
pub outstanding_active :
    (o : OrderDetails)
    → is_terminal o.status ≡ false
    → outstanding (some o)
      ≡ (if ltb_ℤ (pos 0) (remaining o) then signed (remaining o) o.side_is_buy else pos 0)
unfolding outstanding
outstanding_active o h = ground arith

marked_active : (o : OrderDetails) → is_terminal (marked o).status ≡ false
unfolding marked is_terminal
marked_active o = refl

outstanding-marked :
    (o : OrderDetails)
    → is_closing o.status ≡ false
    → outstanding (some (marked o)) ≡ outstanding (some o)
outstanding-marked o h =
    rw
      (
        outstanding_active (marked o) (marked_active o),
        outstanding_active o (is_terminal_of_closing o.status h),
      )
      (unfold marked remaining in refl)

module _ {B : Type 0} (api : BrokerInterface B) (uuid : ℕ → String) (buying : Bool) where
  -- The broker has been asked.
  abbrev pub asked : String → PositionManager B → PositionManager B
  asked id p = record p {
    broker = (api.cancel_order id p.broker).after;
    trade_confirmations_q = p.trade_confirmations_q ++ (api.cancel_order id p.broker).confirmations;
  }

  -- An order is passed over, is left as it is by a broker that refuses, or is marked.
  pub cancel_live_order_cases {ℓ} :
      (P : PositionManager B → Type ℓ) (id : String) (p : PositionManager B)
      → P p
      → P (asked id p)
      → ((o : OrderDetails)
          → lookup id p.live_orders ≡ some o
          → is_closing o.status ≡ false
          → P (record (asked id p) { live_orders = insert id (marked o) p.live_orders }))
      → P (cancel_live_order api uuid buying id p)
  unfolding cancel_live_order
  cancel_live_order_cases P id p passed refused accepted =
      elim (Option-cases (lookup id p.live_orders)) [
        | inl e ↦ rw (e, cancel_live_order) passed
        | inr (o, e) ↦
            elim (Bool-cases (opposes buying o.side_is_buy && not (is_closing o.status))) [
              | inr skip ↦ rw (e, cancel_live_order, skip) passed
              | inl hit ↦ elim (Bool-cases (api.cancel_order id p.broker).result) [
                | inl yes_ ↦ rw (e, cancel_live_order, hit, yes_) (accepted o e (ground arith))
                | inr no_ ↦ rw (e, cancel_live_order, hit, no_) refused
              ]
            ]
      ]

  asked-SameBook :
      (id : String) (p : PositionManager B) (live : Dict String OrderDetails)
      → ((j : String) → outstanding (lookup j live) ≡ outstanding (lookup j p.live_orders))
      → SameBook p (record (asked id p) { live_orders = live })
  asked-SameBook id p live same = record {
    positions = refl;
    targets = refl;
    ids = refl;
    issued = refl;
    traded = refl;
    flag = refl;
    outstanding_of = same;
  }

  cancel_live_order-SameBook :
      (id : String) (p : PositionManager B) → SameBook p (cancel_live_order api uuid buying id p)
  cancel_live_order-SameBook id p =
      cancel_live_order_cases (SameBook p) id p (SameBook-refl p)
        (asked-SameBook id p p.live_orders (λ j. refl))
        λ o e open_. asked-SameBook id p (insert id (marked o) p.live_orders) (λ j. ground (
          arith,
          lookup-insert id j (marked o) p.live_orders,
          ==_iff id j,
          outstanding-marked o open_,
        ))

  cancel_live_order-IsConsistent :
      (id : String) (p : PositionManager B)
      → IsConsistent uuid p
      → IsConsistent uuid (cancel_live_order api uuid buying id p)
  cancel_live_order-IsConsistent id p t =
      cancel_live_order_cases (IsConsistent uuid) id p t t λ o e open_.
        update-IsTracked uuid p.issued p.live_orders p.live_orders_by_symbol t id o (marked o) e
          (unfold marked in refl) (marked_active o)

  pub cancel_opposing-SameBook :
      (ids : List String) (p : PositionManager B)
      → SameBook p (cancel_opposing api uuid buying ids p)
  unfolding cancel_opposing
  cancel_opposing-SameBook [] p = SameBook-refl p
  cancel_opposing-SameBook (id ∷ ids) p =
      SameBook-trans (cancel_live_order-SameBook id p)
        (cancel_opposing-SameBook ids (cancel_live_order api uuid buying id p))

  pub cancel_opposing-IsConsistent :
      (ids : List String) (p : PositionManager B)
      → IsConsistent uuid p
      → IsConsistent uuid (cancel_opposing api uuid buying ids p)
  unfolding cancel_opposing
  cancel_opposing-IsConsistent [] p t = t
  cancel_opposing-IsConsistent (id ∷ ids) p t =
      cancel_opposing-IsConsistent ids (cancel_live_order api uuid buying id p)
        (cancel_live_order-IsConsistent id p t)
