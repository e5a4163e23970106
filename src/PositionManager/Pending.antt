-- ===== src/PositionManager/Pending.antt =====
-- The target updates of position_manager.py that are still in their queue, and the round of the loop
-- that takes them up.
use flow_manager.Base.{
  List, String, [], ap, arith, get_or, none, refl, some, string_eq, sym, ℕ, ◌++◌, ◌∙◌, ◌∷◌, ◌≡◌,
}
use flow_manager.Broker.{BrokerInterface}
use flow_manager.Dict.{lookup}
use flow_manager.Ids.{set_union}
use flow_manager.Int.{pos, ℤ}
use flow_manager.PositionManager.{
  PositionManager, process_all, process_target_updates, process_trade_confirmations, target_of,
  update_target_position,
}
use flow_manager.PositionManager.Cancelling.{cancel_live_order_cases}
use flow_manager.PositionManager.Orders.{cycle, place_order, reconcile_positions}
use flow_manager.PositionManager.Preserving.{reconcile_positions_keeps}
use flow_manager.PositionManager.Reading.{process_all_keeps}
use flow_manager.PositionManager.Targets.{last_target, process_target_updates_lem}

-- The target that a symbol has, or will have when the queue of updates has been read.
abbrev pub pending_target : {B : Type 0} → PositionManager B → String → ℤ
pending_target p s = get_or (last_target s p.target_updates_q) (target_of p s)

last_target-append :
    (s : String) (q r : List (String × ℤ))
    → last_target s (q ++ r) ≡ (elim (last_target s r) [ some m ↦ some m | none ↦ last_target s q ])
unfolding last_target
last_target-append s [] r = ground arith
last_target-append s ((k, m) ∷ q) r = ground (arith, last_target-append s q r)

pub get_or-append :
    (s : String) (q r : List (String × ℤ)) (n : ℤ)
    → get_or (last_target s (q ++ r)) n ≡ get_or (last_target s r) (get_or (last_target s q) n)
get_or-append s q r n = ground (arith, last_target-append s q r)

module _ {B : Type 0} where
  pub pending_target-update :
      (p : PositionManager B) (k s : String) (n : ℤ)
      → pending_target (update_target_position k n p) s
        ≡ get_or (last_target s ((k, n) ∷ [])) (pending_target p s)
  unfolding update_target_position
  pending_target-update p k s n = get_or-append s p.target_updates_q ((k, n) ∷ []) (target_of p s)

module _ {B : Type 0} (api : BrokerInterface B) (uuid : ℕ → String) where
  -- What a round does not change after it has read its queues.
  abbrev SameAim : PositionManager B → PositionManager B → Type 0
  SameAim p q =
      (q.target_positions ≡ p.target_positions)
      × (q.target_updates_q ≡ p.target_updates_q)
      × (q.terminate_flag ≡ p.terminate_flag)

  reconcile_positions-SameAim :
      (symbols : List String) (p : PositionManager B)
      → SameAim p (reconcile_positions api uuid symbols p)
  unfolding place_order
  reconcile_positions-SameAim symbols p =
      reconcile_positions_keeps api uuid (SameAim p)
        (λ buying id q h. cancel_live_order_cases api uuid buying (SameAim p) id q h h (λ o e k. h))
        (λ buying s n q h. h) symbols p (refl, refl, refl)

  pub cycle-aim :
      (p : PositionManager B)
      → ((s : String) → pending_target (cycle api uuid p) s ≡ pending_target p s)
        × ((cycle api uuid p).terminate_flag ≡ p.terminate_flag)
        × ((cycle api uuid p).target_updates_q ≡ [])
  unfolding cycle process_trade_confirmations last_target process_target_updates
  cycle-aim p =
      let unread : PositionManager B = record p { trade_confirmations_q = [] } in
      let taken = (process_all p.trade_confirmations_q [] unread).1 in
      let given = (process_target_updates taken).1 in
      let keeps = process_all_keeps p.trade_confirmations_q [] unread in
      let names =
        set_union (process_all p.trade_confirmations_q [] unread).0
          (process_target_updates taken).0 in
      let after = reconcile_positions-SameAim names given in
      (
        λ s.
            let aim = process_target_updates_lem taken s in
            ap
              (λ d.
                get_or (last_target s (reconcile_positions api uuid names given).target_updates_q)
                  (get_or (lookup s d) (pos 0)))
              after.0
            ∙ ap (λ q. get_or (last_target s q) (target_of given s))
                (after.1 ∙ ap (λ (q : PositionManager B). q.target_updates_q) aim.2)
            ∙ aim.0
            ∙ rw (keeps.3, keeps.4),
        after.2
            ∙ ap (λ (q : PositionManager B). q.terminate_flag)
                (process_target_updates_lem taken "").2
            ∙ keeps.5,
        after.1
            ∙ ap (λ (q : PositionManager B). q.target_updates_q)
                (process_target_updates_lem taken "").2,
      )

  -- The round takes up the pending targets.
  pub cycle-target :
      (p : PositionManager B) (s : String) → target_of (cycle api uuid p) s ≡ pending_target p s
  unfolding last_target
  cycle-target p s =
      let (same, _, empty) = cycle-aim p in
      ap (λ q. get_or (last_target s q) (target_of (cycle api uuid p) s)) (sym empty) ∙ same s
