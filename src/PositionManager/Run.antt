-- ===== src/PositionManager/Run.antt =====
-- `run` of position_manager.py with the other threads: a broker's callbacks and own progress, new
-- targets and the end interleave with the rounds of the loop.
use flow_manager.Base.{
  All-append, List, String, [], arith, false, refl, string_eq, ℕ, ◌++◌, ◌∙◌, ◌∷◌, ◌≡◌,
}
use flow_manager.Broker.{BrokerInterface, TradeConfirmationMessage}
use flow_manager.Dict.{lookup}
use flow_manager.Int.{int_laws, parts, pos, ℤ}
use flow_manager.PositionManager.{
  PositionManager, calculate_working_position, ids_of, init, position_of, target_of, terminate,
  trade_confirmation_callback, update_target_position,
}
use flow_manager.PositionManager.Confirmations.{is_named}
use flow_manager.PositionManager.Contract.{IsGenuine, IsPolite}
use flow_manager.PositionManager.Cycle.{IsSettled, cycle_lem}
use flow_manager.PositionManager.Orders.{cycle}
use flow_manager.PositionManager.Reading.{working_other_targets}
use flow_manager.PositionManager.Targets.{is_updated}
use flow_manager.PositionManager.Tracking.{IsFresh, empty-IsTracked}
use flow_manager.PositionManager.Working.{committed, working-eq-committed}

module _ {B : Type 0} (api : BrokerInterface B) (Ok : B → Type 0) (uuid : ℕ → String) where
  pub data Step (p : PositionManager B) : PositionManager B → Type 0 where
    confirm :
        (c : TradeConfirmationMessage)
        → IsGenuine uuid p.issued p.live_orders c
        → Step p (trade_confirmation_callback c p)
    retarget : (s : String) (n : ℤ) → Step p (update_target_position s n p)
    progress : (b : B) → Ok b → Step p (record p { broker = b })
    round : Step p (cycle api uuid p)
    finish : Step p (terminate p)

  pub data Reach (p : PositionManager B) : PositionManager B → Type 0 where
    here : Reach p p
    next : {q r : PositionManager B} → Reach p q → Step q r → Reach p r

is_named-append_one :
    (s : String) (q : List TradeConfirmationMessage) (c : TradeConfirmationMessage)
    → is_named s (q ++ c ∷ []) ≡ false
    → is_named s q ≡ false
unfolding is_named
is_named-append_one s [] c h = refl
is_named-append_one s (x ∷ q) c h = ground (arith, is_named-append_one s q c)

is_updated-append_one :
    (s : String) (q : List (String × ℤ)) (k : String) (n : ℤ)
    → is_updated s (q ++ (k, n) ∷ []) ≡ false
    → is_updated s q ≡ false
unfolding is_updated
is_updated-append_one s [] k n h = refl
is_updated-append_one s ((j, m) ∷ q) k n h = ground (arith, is_updated-append_one s q k n)

-- Without live orders the working position is the position.
pub settled_at_target :
    {B : Type 0} {uuid : ℕ → String} {Ok : B → Type 0} {p : PositionManager B}
    → IsSettled uuid Ok p
    → (s : String) → is_named s p.trade_confirmations_q ≡ false
    → is_updated s p.target_updates_q ≡ false
    → ids_of p s ≡ []
    → position_of p s ≡ target_of p s
settled_at_target {p = p} h s quiet steady none_live =
    let nothing : committed p.live_orders (ids_of p s) ≡ pos 0 =
      rw none_live (unfold committed in refl) in
    let there = h.on_target s quiet steady in
    omega (int_laws, parts nothing, parts there, parts (working-eq-committed p s))

module _ {B : Type 0} (api : BrokerInterface B) (Ok : B → Type 0) (polite : IsPolite api Ok)
    (uuid : ℕ → String) (fresh : IsFresh uuid) where
  init-IsSettled : (b : B) → Ok b → IsSettled uuid Ok (init b)
  unfolding init
  init-IsSettled b ok = record {
    consistent = empty-IsTracked uuid;
    queued = record { genuine = tt; ok = ok };
    on_target = λ s _ _. unfold calculate_working_position lookup in refl;
  }

  pub Step-IsSettled :
      {p q : PositionManager B} → Step api Ok uuid p q → IsSettled uuid Ok p → IsSettled uuid Ok q
  unfolding trade_confirmation_callback update_target_position terminate
  Step-IsSettled {p} (confirm c g) h = record {
    consistent = h.consistent;
    queued = record {
      genuine =
          All-append (IsGenuine uuid p.issued p.live_orders) p.trade_confirmations_q (c ∷ [])
            h.queued.genuine (g, tt);
      ok = h.queued.ok;
    };
    on_target = λ s quiet steady.
        working_other_targets p (trade_confirmation_callback c p) s refl refl refl
        ∙ h.on_target s (is_named-append_one s p.trade_confirmations_q c quiet) steady;
  }
  Step-IsSettled {p} (retarget k n) h = record {
    consistent = h.consistent;
    queued = record { genuine = h.queued.genuine; ok = h.queued.ok };
    on_target = λ s quiet steady.
        working_other_targets p (update_target_position k n p) s refl refl refl
        ∙ h.on_target s quiet (is_updated-append_one s p.target_updates_q k n steady);
  }
  Step-IsSettled {p} (progress b ok) h = record {
    consistent = h.consistent;
    queued = record { genuine = h.queued.genuine; ok = ok };
    on_target = λ s quiet steady.
        working_other_targets p (record p { broker = b }) s refl refl refl
        ∙ h.on_target s quiet steady;
  }
  Step-IsSettled {p} round h = (cycle_lem api Ok polite uuid fresh p h).0
  Step-IsSettled {p} finish h = record {
    consistent = h.consistent;
    queued = record { genuine = h.queued.genuine; ok = h.queued.ok };
    on_target = λ s quiet steady.
        working_other_targets p (terminate p) s refl refl refl ∙ h.on_target s quiet steady;
  }

  -- With identifiers that are never drawn twice and a broker that keeps its contract, every state
  -- that a new position manager reaches by genuine confirmations, target updates, progress of the
  -- broker, rounds of its loop and termination, in any order, is settled: the two dicts of orders
  -- agree, the queued confirmations are genuine, and every symbol that no queue names has its
  -- target as its working position.
  pub Reach-IsSettled :
      (b : B) → Ok b → {p : PositionManager B} → Reach api Ok uuid (init b) p → IsSettled uuid Ok p
  Reach-IsSettled b ok here = init-IsSettled b ok
  Reach-IsSettled b ok (next r st) = Step-IsSettled st (Reach-IsSettled b ok r)

  -- With identifiers that are never drawn twice and a broker that keeps its contract, in every
  -- state that a new position manager reaches, a symbol that neither queue names and that has no
  -- live orders has its target as its position.
  pub idle_at_target :
      (b : B)
      → Ok b
      → {p : PositionManager B} → Reach api Ok uuid (init b) p
      → (s : String) → is_named s p.trade_confirmations_q ≡ false
      → is_updated s p.target_updates_q ≡ false
      → ids_of p s ≡ []
      → position_of p s ≡ target_of p s
  idle_at_target b ok r s quiet steady none_live =
      settled_at_target (Reach-IsSettled b ok r) s quiet steady none_live
