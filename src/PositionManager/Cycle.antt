-- ===== src/PositionManager/Cycle.antt =====
-- The body of the loop of `run` in position_manager.py.
use flow_manager.Base.{
  All, All-mono, Bool-cases, List, String, [], ap, arith, false, get_or, inl, inr, refl, string_eq,
  subst, sym, ℕ, ◌||◌, ◌∙◌, ◌≡◌,
}
use flow_manager.Broker.{BrokerInterface}
use flow_manager.Dict.{lookup}
use flow_manager.Ids.{contains, contains-set_union, set_union}
use flow_manager.Int.{pos, ◌+ℤ◌}
use flow_manager.PositionManager.{
  PositionManager, calculate_working_position, position_of, process_all, process_target_updates,
  process_trade_confirmations, target_of,
}
use flow_manager.PositionManager.Cancelling.{IsConsistent}
use flow_manager.PositionManager.Confirmations.{
  Matches, is_named, net, process_all-IsConsistent, process_all-affected, process_all-books,
}
use flow_manager.PositionManager.Contract.{
  IsGenuine, IsPolite, IsQueued, reconcile_positions-IsQueued,
}
use flow_manager.PositionManager.Orders.{cycle, reconcile_positions}
use flow_manager.PositionManager.Reading.{
  SameRest, process_all_keeps, working-process_all, working_other_targets,
}
use flow_manager.PositionManager.Reconcile.{Reconciled, reconcile_positions-Reconciled}
use flow_manager.PositionManager.Targets.{
  is_updated, last_target, last_target-none, process_target_updates_lem,
}
use flow_manager.PositionManager.Tracking.{IsFresh}

-- What holds between two steps. Symbols that no queue names are on target.
pub record IsSettled {B : Type 0} (uuid : ℕ → String) (Ok : B → Type 0) (p : PositionManager B)
    : Type 0 where
  pub consistent : IsConsistent uuid p
  pub queued : IsQueued uuid Ok p
  pub on_target :
      (s : String)
      → is_named s p.trade_confirmations_q ≡ false
      → is_updated s p.target_updates_q ≡ false
      → calculate_working_position p s ≡ target_of p s

module _ {B : Type 0} (api : BrokerInterface B) (Ok : B → Type 0) (polite : IsPolite api Ok)
    (uuid : ℕ → String) (fresh : IsFresh uuid) (p : PositionManager B)
    (h : IsSettled uuid Ok p) where
  abbrev unread : PositionManager B
  unread = record p { trade_confirmations_q = [] }

  abbrev traded : PositionManager B
  traded = (process_all p.trade_confirmations_q [] unread).1

  abbrev aimed : PositionManager B
  aimed = (process_target_updates traded).1

  abbrev named : List String
  named =
      set_union (process_all p.trade_confirmations_q [] unread).0 (process_target_updates traded).0

  matching : All (Matches p.live_orders) p.trade_confirmations_q
  matching =
      All-mono (IsGenuine uuid p.issued p.live_orders) (Matches p.live_orders)
        p.trade_confirmations_q (λ c g. g.matches) h.queued.genuine

  keeps : SameRest unread traded
  keeps = process_all_keeps p.trade_confirmations_q [] unread

  traded-IsConsistent : IsConsistent uuid traded
  traded-IsConsistent =
      process_all-IsConsistent uuid p.trade_confirmations_q [] unread matching h.consistent

  aim :
      (s : String)
      → (target_of aimed s ≡ get_or (last_target s traded.target_updates_q) (target_of traded s))
        × (contains s (process_target_updates traded).0 ≡ is_updated s traded.target_updates_q)
        × (aimed
            ≡ record traded { target_positions = aimed.target_positions; target_updates_q = [] })
  aim s = process_target_updates_lem traded s

  pub aimed-IsConsistent : IsConsistent uuid aimed
  aimed-IsConsistent = subst (IsConsistent uuid) (sym (aim "").2) traded-IsConsistent

  aimed-IsQueued : IsQueued uuid Ok aimed
  aimed-IsQueued =
      subst (IsQueued uuid Ok) (sym (aim "").2)
        (record { genuine = rw keeps.2 tt; ok = rw keeps.0 h.queued.ok })

  contains-named :
      (s : String)
      → contains s named ≡ (is_named s p.trade_confirmations_q || is_updated s p.target_updates_q)
  unfolding contains
  contains-named s = rw (
    contains-set_union s (process_all p.trade_confirmations_q [] unread).0
        (process_target_updates traded).0,
    process_all-affected p.trade_confirmations_q [] unread s,
    (aim s).1,
    keeps.3,
  )

  aimed_target :
      (s : String) → target_of aimed s ≡ get_or (last_target s p.target_updates_q) (target_of p s)
  aimed_target s = rw ((aim s).0, keeps.3, keeps.4)

  aimed_working :
      (s : String) → calculate_working_position aimed s ≡ calculate_working_position traded s
  aimed_working s = rw (aim s).2 (
      working_other_targets traded
        (record traded { target_positions = aimed.target_positions; target_updates_q = [] }) s refl
        refl refl)

  reconciled : Reconciled uuid named aimed (reconcile_positions api uuid named aimed)
  reconciled = reconcile_positions-Reconciled api uuid fresh named aimed aimed-IsConsistent

  -- A symbol that no queue named was on target already, and nothing has moved it.
  still_on_target :
      (s : String)
      → contains s named ≡ false
      → calculate_working_position (reconcile_positions api uuid named aimed) s ≡ target_of aimed s
  still_on_target s e =
      let f : (is_named s p.trade_confirmations_q || is_updated s p.target_updates_q) ≡ false =
        sym (contains-named s) ∙ e in
      let quiet : is_named s p.trade_confirmations_q ≡ false = ground arith in
      let steady : is_updated s p.target_updates_q ≡ false = ground arith in
      reconciled.elsewhere s e
      ∙ aimed_working s
      ∙ working-process_all uuid p.trade_confirmations_q [] unread h.consistent matching s quiet
      ∙ working_other_targets p unread s refl refl refl
      ∙ h.on_target s quiet steady
      ∙ sym (
          aimed_target s
          ∙ ap (λ o. get_or o (target_of p s)) (last_target-none s p.target_updates_q steady))

  all_on_target :
      (s : String)
      → calculate_working_position (reconcile_positions api uuid named aimed) s ≡ target_of aimed s
  all_on_target s = elim (Bool-cases (contains s named)) [
    | inl e ↦ reconciled.on_target s e
    | inr e ↦ still_on_target s e
  ]

  position_booked :
      (s : String)
      → position_of (reconcile_positions api uuid named aimed) s
        ≡ position_of p s +ℤ net s p.trade_confirmations_q
  position_booked s =
      ap (λ d. get_or (lookup s d) (pos 0)) reconciled.positions
      ∙ ap (λ (q : PositionManager B). position_of q s) (aim s).2
      ∙ (process_all-books p.trade_confirmations_q [] unread s).0

  -- One round of the loop of `run`, from a settled state, with identifiers that are never drawn
  -- twice and a broker that keeps its contract: the state is settled again, the working position
  -- of every symbol is its target, every target is its last update in the queue or else what it
  -- was, and every position has moved by the net quantity of the confirmations in the queue.
  pub cycle_lem :
      let q = (cycle api uuid p) in
      IsSettled uuid Ok q
      × ((s : String) → calculate_working_position q s ≡ target_of q s)
      × ((s : String) → target_of q s ≡ get_or (last_target s p.target_updates_q) (target_of p s))
      × ((s : String) → position_of q s ≡ position_of p s +ℤ net s p.trade_confirmations_q)
  unfolding cycle process_trade_confirmations
  cycle_lem =
      let same = λ (s : String). ap (λ d. get_or (lookup s d) (pos 0)) reconciled.targets in
      (
        record {
          consistent = reconciled.consistent;
          queued = reconcile_positions-IsQueued api Ok polite uuid fresh named aimed aimed-IsQueued;
          on_target = λ s _ _. all_on_target s ∙ sym (same s);
        },
        λ s. all_on_target s ∙ sym (same s),
        λ s. same s ∙ aimed_target s,
        position_booked,
      )
