-- ===== src/PositionManager/Contract.antt =====
-- What position_manager.py relies on of its broker, and its queue of confirmations.
use flow_manager.Base.{
  ==_iff, All, All-append, All-mono, Bool, List, String, [], ap, arith, false, none, refl, some,
  string_eq, suc, sym, true, ℕ, ◌++◌, ◌∙◌, ◌∷◌, ◌≡◌, ◌≢◌, ◌≤◌,
}
use flow_manager.Broker.{BrokerInterface, OrderDetails, TradeConfirmationMessage}
use flow_manager.Dict.{Dict, insert, lookup, lookup-insert}
use flow_manager.Int.{abs, ℤ}
use flow_manager.PositionManager.{PositionManager, ids_of}
use flow_manager.PositionManager.Cancelling.{cancel_live_order_cases}
use flow_manager.PositionManager.Confirmations.{Matches}
use flow_manager.PositionManager.Orders.{
  adjust, cancel_live_order, cancel_opposing, marked, place_order, reconcile_positions,
  reconcile_symbol,
}
use flow_manager.PositionManager.Placing.{live_orders-place_order, placed, placed_symbol}
use flow_manager.PositionManager.Reconcile.{delta_of, reconcile_symbol_cases}
use flow_manager.PositionManager.Tracking.{IsFresh}

-- A confirmation speaks of an identifier that has been drawn, and gives the symbol of its order.
pub record IsGenuine (uuid : ℕ → String) (issued : ℕ) (live : Dict String OrderDetails)
    (c : TradeConfirmationMessage) : Type 0 where
  pub drawn : (i : ℕ) → issued ≤ i → c.client_order_id ≢ uuid i
  pub matches : Matches live c

abbrev pub IsAnswerTo : String → String → TradeConfirmationMessage → Type 0
IsAnswerTo id s c = (c.client_order_id ≡ id) × (c.symbol ≡ s)

-- The contract of a broker in the states that `Ok` describes: a cancellation is confirmed later,
-- and what is confirmed during a submission is about the order that is submitted.
pub record IsPolite {B : Type 0} (api : BrokerInterface B) (Ok : B → Type 0) : Type 0 where
  pub cancel_ok : (id : String) (b : B) → Ok b → Ok (api.cancel_order id b).after
  pub cancel_quiet : (id : String) (b : B) → Ok b → (api.cancel_order id b).confirmations ≡ []
  pub submit_ok :
      (id s : String) (n : ℤ) (buying : Bool) (b : B)
      → Ok b
      → Ok (api.submit_order id s n buying "MARKET" none b).after
  pub submit_answers :
      (id s : String) (n : ℤ) (buying : Bool) (b : B)
      → Ok b
      → All (IsAnswerTo id s) (api.submit_order id s n buying "MARKET" none b).confirmations

-- The queue holds genuine confirmations, and the broker is in a state of its contract.
pub record IsQueued {B : Type 0} (uuid : ℕ → String) (Ok : B → Type 0) (p : PositionManager B)
    : Type 0 where
  pub genuine : All (IsGenuine uuid p.issued p.live_orders) p.trade_confirmations_q
  pub ok : Ok p.broker

module _ {B : Type 0} (api : BrokerInterface B) (Ok : B → Type 0) (polite : IsPolite api Ok)
    (uuid : ℕ → String) (fresh : IsFresh uuid) where
  pub IsGenuine-insert :
      (issued : ℕ) (live : Dict String OrderDetails) (id : String) (o o' : OrderDetails)
      → lookup id live ≡ some o
      → o'.symbol ≡ o.symbol
      → (c : TradeConfirmationMessage) → IsGenuine uuid issued live c
      → IsGenuine uuid issued (insert id o' live) c
  IsGenuine-insert issued live id o o' found same c g = record {
    drawn = g.drawn;
    matches = λ x e. ground (
      arith,
      lookup-insert id c.client_order_id o' live,
      ==_iff id c.client_order_id,
      g.matches o,
      g.matches x,
    );
  }

  pub IsGenuine-add :
      (issued : ℕ) (live : Dict String OrderDetails) (o : OrderDetails)
      (c : TradeConfirmationMessage)
      → IsGenuine uuid issued live c
      → IsGenuine uuid (suc issued) (insert (uuid issued) o live) c
  IsGenuine-add issued live o c g = record {
    drawn = λ i h. g.drawn i (omega arith);
    matches = λ x e. ground (
      arith,
      lookup-insert (uuid issued) c.client_order_id o live,
      ==_iff (uuid issued) c.client_order_id,
      g.drawn issued,
      g.matches x,
    );
  }

  pub IsGenuine-answer :
      (issued : ℕ) (live : Dict String OrderDetails) (o : OrderDetails)
      (c : TradeConfirmationMessage)
      → IsAnswerTo (uuid issued) o.symbol c
      → IsGenuine uuid (suc issued) (insert (uuid issued) o live) c
  IsGenuine-answer issued live o c (named, about) = record {
    drawn = λ i h e. absurd (omega (arith, ap (λ (k : ℕ). k) (fresh issued i (sym named ∙ e))));
    matches = λ x e. ground (
      arith,
      lookup-insert (uuid issued) c.client_order_id o live,
      ==_iff (uuid issued) c.client_order_id,
    );
  }

  cancel_live_order-IsQueued :
      (buying : Bool) (id : String) (p : PositionManager B)
      → IsQueued uuid Ok p
      → IsQueued uuid Ok (cancel_live_order api uuid buying id p)
  cancel_live_order-IsQueued buying id p k =
      cancel_live_order_cases api uuid buying (IsQueued uuid Ok) id p k
        (record { genuine = quiet p.live_orders k.genuine; ok = polite.cancel_ok id p.broker k.ok })
        (λ o e open_. record {
          genuine = quiet (insert id (marked o) p.live_orders) (
              All-mono (IsGenuine uuid p.issued p.live_orders)
                (IsGenuine uuid p.issued (insert id (marked o) p.live_orders))
                p.trade_confirmations_q
                (IsGenuine-insert p.issued p.live_orders id o (marked o) e (unfold marked in refl))
                k.genuine);
          ok = polite.cancel_ok id p.broker k.ok;
        })
    where
      quiet :
          (live : Dict String OrderDetails)
          → All (IsGenuine uuid p.issued live) p.trade_confirmations_q
          → All
              (IsGenuine uuid p.issued live)
              (p.trade_confirmations_q ++ (api.cancel_order id p.broker).confirmations)
      quiet live h =
          All-append (IsGenuine uuid p.issued live) p.trade_confirmations_q
            (api.cancel_order id p.broker).confirmations h
            (rw (polite.cancel_quiet id p.broker k.ok) tt)

  cancel_opposing-IsQueued :
      (buying : Bool) (ids : List String) (p : PositionManager B)
      → IsQueued uuid Ok p
      → IsQueued uuid Ok (cancel_opposing api uuid buying ids p)
  unfolding cancel_opposing
  cancel_opposing-IsQueued buying [] p k = k
  cancel_opposing-IsQueued buying (id ∷ ids) p k =
      cancel_opposing-IsQueued buying ids (cancel_live_order api uuid buying id p)
        (cancel_live_order-IsQueued buying id p k)

  place_order-IsQueued :
      (buying : Bool) (s : String) (n : ℤ) (p : PositionManager B)
      → IsQueued uuid Ok p
      → IsQueued uuid Ok (place_order api uuid buying s n p)
  unfolding place_order
  place_order-IsQueued buying s n p k = record {
    genuine = rw (live_orders-place_order api uuid fresh buying s n p) (
        All-append (IsGenuine uuid (suc p.issued) (insert (uuid p.issued) o p.live_orders))
          p.trade_confirmations_q
          (api.submit_order (uuid p.issued) s n buying "MARKET" none p.broker).confirmations
          (All-mono (IsGenuine uuid p.issued p.live_orders)
            (IsGenuine uuid (suc p.issued) (insert (uuid p.issued) o p.live_orders))
            p.trade_confirmations_q (IsGenuine-add p.issued p.live_orders o) k.genuine)
          (All-mono (IsAnswerTo (uuid p.issued) s)
            (IsGenuine uuid (suc p.issued) (insert (uuid p.issued) o p.live_orders))
            (api.submit_order (uuid p.issued) s n buying "MARKET" none p.broker).confirmations
            (λ c a.
              IsGenuine-answer p.issued p.live_orders o c
                (a.0, a.1 ∙ sym (placed_symbol api uuid fresh buying s n p)))
            (polite.submit_answers (uuid p.issued) s n buying p.broker k.ok)));
    ok = polite.submit_ok (uuid p.issued) s n buying p.broker k.ok;
  }
    where
      o : OrderDetails
      o = placed api uuid fresh buying s n p

  reconcile_symbol-IsQueued :
      (s : String) (p : PositionManager B)
      → IsQueued uuid Ok p
      → IsQueued uuid Ok (reconcile_symbol api uuid s p)
  unfolding adjust
  reconcile_symbol-IsQueued s p k =
      reconcile_symbol_cases api uuid fresh (IsQueued uuid Ok) s p (λ z. k) (λ h. side true)
        (λ h. side false)
    where
      side :
          (buying : Bool)
          → IsQueued uuid Ok (adjust api uuid buying s (delta_of api uuid fresh s p) p)
      side buying =
          place_order-IsQueued buying s (abs (delta_of api uuid fresh s p))
            (cancel_opposing api uuid buying (ids_of p s) p)
            (cancel_opposing-IsQueued buying (ids_of p s) p k)

  pub reconcile_positions-IsQueued :
      (symbols : List String) (p : PositionManager B)
      → IsQueued uuid Ok p
      → IsQueued uuid Ok (reconcile_positions api uuid symbols p)
  unfolding reconcile_positions
  reconcile_positions-IsQueued [] p k = k
  reconcile_positions-IsQueued (s ∷ symbols) p k =
      reconcile_positions-IsQueued symbols (reconcile_symbol api uuid s p)
        (reconcile_symbol-IsQueued s p k)
