-- ===== src/PositionManager/Loop.antt =====
-- The end of the loop of `run` in position_manager.py.
use flow_manager.Base.{
  Bool, Bool-cases, List, Option, String, [], false, if_true, inl, inr, none, refl, some, subst,
  sym, true, ℕ, ◌++◌, ◌∷◌, ◌≡◌,
}
use flow_manager.Broker.{BrokerInterface}
use flow_manager.PositionManager.{
  PositionManager, terminate, trade_confirmation_callback, update_target_position,
}
use flow_manager.PositionManager.Orders.{
  Input, arrive_all, confirmation, cycle, run, run_loop, target_update, termination,
}

pub arrive-flag :
    {B : Type 0} (is : List Input) (p : PositionManager B)
    → p.terminate_flag ≡ true
    → (arrive_all is p).terminate_flag ≡ true
unfolding arrive_all
arrive-flag [] p h = h
arrive-flag (confirmation c ∷ is) p h =
    arrive-flag is (trade_confirmation_callback c p) (unfold trade_confirmation_callback in h)
arrive-flag (target_update s n ∷ is) p h =
    arrive-flag is (update_target_position s n p) (unfold update_target_position in h)
arrive-flag (termination ∷ is) p h = arrive-flag is (terminate p) (unfold terminate in refl)

unfoldable pub has_termination : List Input → Bool
has_termination [] = false
has_termination (termination ∷ is) = true
has_termination (_ ∷ is) = has_termination is

flag_of_termination :
    {B : Type 0} (is : List Input) (p : PositionManager B)
    → has_termination is ≡ true
    → (arrive_all is p).terminate_flag ≡ true
unfolding arrive_all has_termination
flag_of_termination [] p h = cc
flag_of_termination (termination ∷ is) p h = arrive-flag is (terminate p) (unfold terminate in refl)
flag_of_termination (confirmation c ∷ is) p h =
    flag_of_termination is (trade_confirmation_callback c p) h
flag_of_termination (target_update s n ∷ is) p h =
    flag_of_termination is (update_target_position s n p) h

module _ {B : Type 0} (api : BrokerInterface B) (uuid : ℕ → String) where
  -- The loop has ended, by its test, and has stopped the broker.
  pub record HasEnded (r : Bool × PositionManager B) : Type 0 where
    pub ended : r.0 ≡ true
    pub flag : r.1.terminate_flag ≡ true
    pub stopped : (b : B) × (r.1.broker ≡ api.stop b)

  pub run_loop_set :
      (is : List Input) (later : List (List Input)) (p : PositionManager B)
      → (arrive_all is p).terminate_flag ≡ true
      → HasEnded (run_loop api uuid (is ∷ later) p)
  unfolding run_loop
  run_loop_set is later p h =
      let q = arrive_all is p in
      let ends : Bool × PositionManager B = (true, record q { broker = api.stop q.broker }) in
      let e : run_loop api uuid (is ∷ later) p ≡ ends =
        if_true q.terminate_flag ends (run_loop api uuid later (cycle api uuid q)) h in
      subst HasEnded (sym e) (record { ended = refl; flag = h; stopped = (q.broker, refl) })

  run_loop-HasEnded :
      (before : List (List Input)) (is : List Input) (later : List (List Input))
      (p : PositionManager B)
      → has_termination is ≡ true
      → HasEnded (run_loop api uuid (before ++ is ∷ later) p)
  run_loop-HasEnded [] is later p h = run_loop_set is later p (flag_of_termination is p h)
  run_loop-HasEnded (first ∷ before) is later p h =
      elim (Bool-cases (arrive_all first p).terminate_flag) [
        | inl set_ ↦ run_loop_set first (before ++ is ∷ later) p set_
        | inr clear ↦
            subst HasEnded (sym (goes_on clear))
              (run_loop-HasEnded before is later (cycle api uuid (arrive_all first p)) h)
      ]
    where
      goes_on :
          (arrive_all first p).terminate_flag ≡ false
          → run_loop api uuid (first ∷ before ++ is ∷ later) p
            ≡ run_loop api uuid (before ++ is ∷ later) (cycle api uuid (arrive_all first p))
      goes_on clear = unfold run_loop in rw clear

  -- How `run` ends: as the start of the broker has it, without a loop or by the test of its loop.
  abbrev pub RunEnds : Option B → Option (Bool × PositionManager B) → Type 0
  RunEnds none r = r ≡ none
  RunEnds (some b) r = (x : Bool × PositionManager B) × (r ≡ some x) × HasEnded x

  -- When a termination arrives before some test of the flag, `run` ends: without a loop when the
  -- start of the broker raises, and otherwise at that test or before it, with the flag set and the
  -- broker stopped, whatever arrives before and after.
  pub run-HasEnded :
      (before : List (List Input)) (is : List Input) (later : List (List Input))
      (p : PositionManager B)
      → has_termination is ≡ true
      → RunEnds (api.start p.broker) (run api uuid (before ++ is ∷ later) p)
  unfolding run
  run-HasEnded before is later p h = from (api.start p.broker) refl
    where
      arriving : List (List Input)
      arriving = before ++ is ∷ later

      from : (s : Option B) → api.start p.broker ≡ s → RunEnds s (run api uuid arriving p)
      from none e = rw (run, e) refl
      from (some b) e =
          let q : PositionManager B = record p { broker = b } in
          (run_loop api uuid arriving q, rw (run, e) refl, run_loop-HasEnded before is later q h)
