-- ===== src/Strategy/Replay.antt =====
-- The updates that the replay of strategy_runner.py sends to the position manager.
use flow_manager.Base.{
  Bool, Bool-cases, List, Option-cases, String, [], ap, arith, false, get_or, if◌then◌else◌, inl,
  inr, none, refl, some, string_eq, sym, true, ℕ, ◌++◌, ◌||◌, ◌∙◌, ◌∷◌, ◌≡◌,
}
use flow_manager.Broker.{BrokerInterface}
use flow_manager.Int.{ℤ}
use flow_manager.PositionManager.{
  PositionManager, terminate, trade_confirmation_callback, update_target_position,
}
use flow_manager.PositionManager.Orders.{arrive, confirmation, target_update, termination}
use flow_manager.PositionManager.Pending.{
  cycle-aim, get_or-append, pending_target, pending_target-update,
}
use flow_manager.PositionManager.Targets.{last_target}
use flow_manager.Strategy.{
  EventData, Turn, act, act_all, arrives, fails, is_event, is_mistyped, progresses, replay_event,
  replay_events_log, rounds, send_target,
}

-- The updates that a turn of another thread queues, and that an event sends.
unfoldable pub update_by : {B : Type 0} → Turn B → List (String × ℤ)
update_by (arrives (target_update s n)) = (s, n) ∷ []
update_by _ = []

unfoldable pub update_of : EventData → List (String × ℤ)
update_of e = elim e.symbol [
  | none ↦ []
  | some s ↦ elim e.target [ none ↦ [] | some n ↦ if is_event "Target" e then (s, n) ∷ [] else [] ]
]

unfoldable pub updates_by : {B : Type 0} → List (Turn B) → List (String × ℤ)
unfolding update_by
updates_by [] = []
updates_by (t ∷ ts) = update_by t ++ updates_by ts

unfoldable pub has_end : {B : Type 0} → List (Turn B) → Bool
has_end [] = false
has_end (arrives termination ∷ ts) = true
has_end (_ ∷ ts) = has_end ts

-- All updates, in order, up to a termination, a failure or an update of other types.
unfoldable pub updates_of : {B : Type 0} → List (List (Turn B) × EventData) → List (String × ℤ)
unfolding updates_by update_of has_end
updates_of [] = []
updates_of ((turns, e) ∷ events) =
    let rest = updates_of events in
    updates_by turns
    ++ (if has_end turns
        then []
        else (if fails e then [] else (if is_mistyped e then [] else update_of e ++ rest)))

module _ {B : Type 0} where
  replay_event_lem :
      (e : EventData) (p : PositionManager B)
      → ((s : String)
          → pending_target (replay_event e p) s
            ≡ get_or (last_target s (update_of e)) (pending_target p s))
        × ((replay_event e p).terminate_flag ≡ p.terminate_flag)
  unfolding replay_event send_target update_of last_target is_event
  replay_event_lem e p = elim (Bool-cases (is_event "Target" e)) [
    | inr no_ ↦ rw no_ (λ s. ground (arith, no_), refl)
    | inl sends ↦ elim (Option-cases e.symbol) [
      | inl missing ↦ rw (missing, sends) (λ s. refl, refl)
      | inr (k, named) ↦ elim (Option-cases e.target) [
        | inl missing ↦ rw (named, missing, sends) (λ s. refl, refl)
        | inr (n, given) ↦
            rw (named, given, sends)
              (λ s. pending_target-update p k s n, unfold update_target_position in refl)
      ]
    ]
  ]

has_end-cons :
    {B : Type 0} (t : Turn B) (ts : List (Turn B))
    → has_end (t ∷ ts) ≡ (has_end (t ∷ []) || has_end ts)
unfolding has_end
has_end-cons (arrives (confirmation c)) ts = refl
has_end-cons (arrives (target_update s n)) ts = refl
has_end-cons (arrives termination) ts = refl
has_end-cons (progresses b) ts = refl
has_end-cons rounds ts = refl

module _ {B : Type 0} (api : BrokerInterface B) (uuid : ℕ → String) where
  act_lem :
      (t : Turn B) (p : PositionManager B)
      → ((s : String)
          → pending_target (act api uuid t p) s
            ≡ get_or (last_target s (update_by t)) (pending_target p s))
        × ((act api uuid t p).terminate_flag ≡ (p.terminate_flag || has_end (t ∷ [])))
  unfolding act update_by has_end arrive last_target trade_confirmation_callback terminate
      update_target_position
  act_lem (arrives (confirmation c)) p = (λ s. refl, ground arith)
  act_lem (arrives (target_update k n)) p = (λ s. pending_target-update p k s n, ground arith)
  act_lem (arrives termination) p = (λ s. refl, ground arith)
  act_lem (progresses b) p = (λ s. refl, ground arith)
  act_lem rounds p = (λ s. (cycle-aim api uuid p).0 s, ground (arith, (cycle-aim api uuid p).1))

  pub act_all_lem :
      (ts : List (Turn B)) (p : PositionManager B)
      → ((s : String)
          → pending_target (act_all api uuid ts p) s
            ≡ get_or (last_target s (updates_by ts)) (pending_target p s))
        × ((act_all api uuid ts p).terminate_flag ≡ (p.terminate_flag || has_end ts))
  unfolding act_all updates_by has_end last_target
  act_all_lem [] p = (λ s. refl, ground arith)
  act_all_lem (t ∷ ts) p =
      let (first, flag) = act_lem t p in
      let (rest, flags) = act_all_lem ts (act api uuid t p) in
      (
        λ s.
            rest s
            ∙ rw (first s)
                (sym (get_or-append s (update_by t) (updates_by ts) (pending_target p s))),
        ground (arith, flag, flags, has_end-cons t ts),
      )

  -- From a position manager that has not been terminated, and however the rounds of its loop,
  -- confirmations and other updates come between the events, the replay of a log leaves as the
  -- target of a symbol, pending updates included, the last of the updates that were sent before
  -- the replay ended, or sent an update of other types than a text and an integer, or else the
  -- target before.
  pub replay_events_log-targets :
      (events : List (List (Turn B) × EventData)) (p : PositionManager B)
      → p.terminate_flag ≡ false
      → (s : String)
      → pending_target (replay_events_log api uuid events p).1 s
        ≡ get_or (last_target s (updates_of events)) (pending_target p s)
  unfolding replay_events_log updates_of last_target act_all
  replay_events_log-targets [] p h s = refl
  replay_events_log-targets ((turns, e) ∷ events) p h s =
      let (waiting, flag) = act_all_lem turns p in
      let q = act_all api uuid turns p in
      let sent = updates_by turns in
      let rest = updates_of events in
      let (given, same) = replay_event_lem e q in
      let nothing = waiting s ∙ sym (get_or-append s sent [] (pending_target p s)) in
      elim (Bool-cases (has_end turns)) [
        | inl over ↦ let f : q.terminate_flag ≡ true = ground (arith, flag) in rw (f, over) nothing
        | inr open_ ↦
            let f : q.terminate_flag ≡ false = ground (arith, flag) in
            elim (Bool-cases (fails e)) [
              | inl bad ↦ rw (f, open_, bad) nothing
              | inr good ↦ elim (Bool-cases (is_mistyped e)) [
                | inl other_types ↦ rw (f, open_, good, other_types) nothing
                | inr typed ↦
                    rw (f, open_, good, typed)
                      (replay_events_log-targets events (replay_event e q) (same ∙ f) s
                        ∙ ap (get_or (last_target s rest)) (given s)
                        ∙ sym (get_or-append s (update_of e) rest (pending_target q s))
                        ∙ ap (get_or (last_target s (update_of e ++ rest))) (waiting s)
                        ∙ sym (get_or-append s sent (update_of e ++ rest) (pending_target p s)))
              ]
            ]
      ]
