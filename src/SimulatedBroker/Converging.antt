-- ===== src/SimulatedBroker/Converging.antt =====
-- position_manager.py reaches its targets with the broker of simulated_broker.py in two passes.
use flow_manager.Base.{
  List, String, [], ap, get_or, none, refl, string_eq, subst, sym, true, ℕ, ◌∙◌, ◌≡◌,
}
use flow_manager.Dict.{lookup}
use flow_manager.Int.{pos}
use flow_manager.PositionManager.{
  PositionManager, calculate_working_position, ids_of, position_of, process_all,
  process_trade_confirmations, target_of, working_from,
}
use flow_manager.PositionManager.Cycle.{cycle_lem}
use flow_manager.PositionManager.Orders.{cycle}
use flow_manager.PositionManager.Reading.{process_all_keeps}
use flow_manager.PositionManager.Targets.{last_target, process_target_updates_lem}
use flow_manager.PositionManager.Tracking.{IsFresh}
use flow_manager.SimulatedBroker.{SimulatedBroker, simulated}
use flow_manager.SimulatedBroker.Ending.{AllEnough, Follows}
use flow_manager.SimulatedBroker.Filled.{process_all_filled}
use flow_manager.SimulatedBroker.Filling.{IsFilling}
use flow_manager.SimulatedBroker.Orders.{simulated-IsPolite}
use flow_manager.SimulatedBroker.Passes.{AllNamed, IsRunOut, run_out, run_out-IsRunOut}
use flow_manager.SimulatedBroker.Rest.{nothing_listed}
use flow_manager.SimulatedBroker.Rounds.{
  cycle-IsUnopposed, cycle_even, nothing_live, read_state, read_state-IsConsistent,
}
use flow_manager.SimulatedBroker.Trading.{Running, Running-IsSettled, Running-keeps, looped}
use flow_manager.SimulatedBroker.Turns.{run_out-IsFilling}
use flow_manager.SimulatedBroker.Unopposed.{IsUnopposed}

module _ (uuid : ℕ → String) (fresh : IsFresh uuid) where
  -- Reading full confirmations leaves the working positions as they were.
  read_state-working :
      {p q : PositionManager SimulatedBroker}
      → Follows uuid fresh p q
      → IsFilling q
      → (s : String)
      → calculate_working_position (read_state uuid fresh q) s ≡ calculate_working_position p s
  unfolding process_trade_confirmations calculate_working_position
  read_state-working {p} {q} f h s =
      let unread : PositionManager SimulatedBroker = record q { trade_confirmations_q = [] } in
      let taken = (process_all q.trade_confirmations_q [] unread).1 in
      let whole = (process_target_updates_lem taken "").2 in
      ap (λ x. calculate_working_position x s) whole
      ∙ process_all_filled uuid q.trade_confirmations_q [] unread
          (Running-keeps uuid fresh f.running).0.consistent h.full h.apart s
      ∙ rw (f.same_live, f.same_positions, f.same_ids) refl

  read_state-target :
      (q : PositionManager SimulatedBroker) (s : String)
      → target_of (read_state uuid fresh q) s
        ≡ get_or (last_target s q.target_updates_q) (target_of q s)
  unfolding process_trade_confirmations
  read_state-target q s =
      let unread : PositionManager SimulatedBroker = record q { trade_confirmations_q = [] } in
      let taken = (process_all q.trade_confirmations_q [] unread).1 in
      let keeps = process_all_keeps q.trade_confirmations_q [] unread in
      (process_target_updates_lem taken s).0 ∙ rw (keeps.3, keeps.4) refl

  -- Without orders the working position is the position.
  position_alone :
      (p : PositionManager SimulatedBroker) (s : String)
      → ids_of p s ≡ []
      → calculate_working_position p s ≡ position_of p s
  unfolding calculate_working_position working_from
  position_alone p s e = rw e refl

  module _ (ids ids' : List String) (draws draws' : String → List ℕ)
      {p : PositionManager SimulatedBroker} (t : Running uuid fresh p)
      (c : p.broker.has_callback ≡ true) (named : AllNamed ids p)
      (enough : AllEnough uuid fresh draws p) where
    abbrev ran : PositionManager SimulatedBroker
    ran = run_out ids draws p

    abbrev first_pass : PositionManager SimulatedBroker
    first_pass = (cycle simulated uuid ran)

    ran_out : IsRunOut uuid fresh p ran
    ran_out = run_out-IsRunOut uuid fresh ids draws t c named enough

    reopened : IsUnopposed uuid first_pass
    reopened = cycle-IsUnopposed uuid fresh ran_out

    first_target :
        (s : String)
        → (calculate_working_position first_pass s ≡ target_of first_pass s)
          × (target_of first_pass s ≡ get_or (last_target s p.target_updates_q) (target_of p s))
    first_target s =
        let whole =
          cycle_lem simulated (λ b. Unit) simulated-IsPolite uuid fresh ran
            (Running-IsSettled uuid fresh ran_out.follows.running) in
        (
          whole.1 s,
          whole.2 s ∙ rw (ran_out.follows.same_pending, ran_out.follows.same_targets) refl,
        )

    module _ (named' : AllNamed ids' first_pass)
        (enough' : AllEnough uuid fresh draws' first_pass) where
      abbrev ran_again : PositionManager SimulatedBroker
      ran_again = run_out ids' draws' first_pass

      ran_out_again : IsRunOut uuid fresh first_pass ran_again
      ran_out_again =
          run_out-IsRunOut uuid fresh ids' draws' (looped ran_out.follows.running)
            reopened.filling.callback named' enough'

      last_target_again :
          (s : String) → target_of (read_state uuid fresh ran_again) s ≡ target_of first_pass s
      unfolding last_target
      last_target_again s =
          read_state-target ran_again s
          ∙ ap (λ q. get_or (last_target s q) (target_of ran_again s))
              (ran_out_again.follows.same_pending ∙ reopened.nothing_pending)
          ∙ ap (λ d. get_or (lookup s d) (pos 0)) ran_out_again.follows.same_targets

      working_again :
          (s : String)
          → calculate_working_position (read_state uuid fresh ran_again) s ≡ target_of first_pass s
      working_again s =
          read_state-working ran_out_again.follows (run_out-IsFilling ids' draws' reopened.filling)
            s
          ∙ (first_target s).0

      two_passes :
          let p' = (cycle simulated uuid ran_again) in
          ((id : String) → lookup id p'.live_orders ≡ none)
          × ((s : String)
              → position_of p' s ≡ get_or (last_target s p.target_updates_q) (target_of p s))
      two_passes =
          let x = read_state uuid fresh ran_again in
          let over = nothing_live uuid fresh ran_out_again in
          let tracked =
            read_state-IsConsistent uuid fresh ran_again ran_out_again.follows.running in
          subst
            (λ p'.
              ((id : String) → lookup id p'.live_orders ≡ none)
              × ((s : String)
                  → position_of p' s ≡ get_or (last_target s p.target_updates_q) (target_of p s)))
            (sym (
              cycle_even uuid fresh ran_out_again
                (λ s. working_again s ∙ sym (last_target_again s))))
            (
              over,
              λ s.
                  sym (position_alone x s (nothing_listed uuid fresh x s tracked over))
                  ∙ working_again s
                  ∙ (first_target s).1,
            )

  -- With identifiers that are never drawn twice, from every state of a position manager that
  -- starts new with a simulated broker without orders and timers, and goes on by targets, rounds
  -- of its loop, rounds of threads, timers and termination, in which the broker has its callback:
  -- when twice all threads of orders run, each to its end with draws that `randint` can give, then
  -- all timers fire and the loop takes a round, with no new targets, no order is live and the
  -- position of every symbol is its last pending target, or else the target that it had, whatever
  -- was live, queued or being cancelled before.
  pub targets_reached :
      (ids ids' : List String) (draws draws' : String → List ℕ)
      {p : PositionManager SimulatedBroker}
      → Running uuid fresh p
      → p.broker.has_callback ≡ true
      → AllNamed ids p
      → AllEnough uuid fresh draws p
      → let p1 = (cycle simulated uuid (run_out ids draws p)) in
        AllNamed ids' p1
        → AllEnough uuid fresh draws' p1
        → let p2 = (cycle simulated uuid (run_out ids' draws' p1)) in
          ((id : String) → lookup id p2.live_orders ≡ none)
          × ((s : String)
              → position_of p2 s ≡ get_or (last_target s p.target_updates_q) (target_of p s))
  targets_reached ids ids' draws draws' t c named enough named' enough' =
      two_passes ids ids' draws draws' t c named enough named' enough'
