-- ===== src/Strategy/Shutdown.antt =====
-- What the script of strategy_runner.py leaves at its end.
use mathlib.Core.List.{append-nil}
use flow_manager.Base.{
  Bool, List, Option, Option-cases, String, [], ap, arith, false, get_or, if_true, inl, inr, map,
  none, refl, some, string_eq, subst, sym, true, ℕ, ◌++◌, ◌↔◌, ◌∙◌, ◌∷◌, ◌≡◌,
}
use flow_manager.Dict.{lookup}
use flow_manager.Int.{pos, ℤ}
use flow_manager.PositionManager.{PositionManager, get_current_state_snapshot, init, terminate}
use flow_manager.PositionManager.Loop.{arrive-flag}
use flow_manager.PositionManager.Orders.{Input, arrive, arrive_all, cycle, run_loop}
use flow_manager.PositionManager.Pending.{get_or-append, pending_target}
use flow_manager.PositionManager.Targets.{last_target}
use flow_manager.SimulatedBroker.{SimulatedBroker, SimulatedOrder, request_cancel, simulated, stop}
use flow_manager.SimulatedBroker.Orders.{lookup-map}
use flow_manager.Strategy.{
  Ending, EventData, Turn, act, act_all, arrives, mistyped, replay_events_log, replay_failed,
  replayed, stopped,
}
use flow_manager.Strategy.Replay.{act_all_lem, replay_events_log-targets, updates_by, updates_of}
use flow_manager.Strategy.Script.{
  Run, after_replay, broken, finished, interleave, mistyped_sent, no_events, read_event_log, script,
  sim_broker, wind_up,
}

-- What arrives before the last test of the flag.
unfoldable pub last_inputs : List (List Input) → List Input
last_inputs [] = []
last_inputs (is ∷ later) = is

abbrev as_turn : Input → Turn SimulatedBroker
as_turn i = arrives i

-- The updates of the queue that come in after the replay.
unfoldable pub late_updates : List (List Input) → List (String × ℤ)
late_updates later = updates_by (map as_turn (last_inputs later))

-- Every live order of the broker is being cancelled.
pub AllClosing : SimulatedBroker → Type 0
AllClosing b =
    (id : String) (o : SimulatedOrder) → lookup id b.live_orders ≡ some o → o.cancelling ≡ true

-- The last of the updates, or 0.
abbrev pub AimsAt : PositionManager SimulatedBroker → List (String × ℤ) → Type 0
AimsAt p updates = (s : String) → pending_target p s ≡ get_or (last_target s updates) (pos 0)

-- The script on a log, with the inputs that come in after the replay, has ended as it should.
abbrev pub IsOver :
    List (List (Turn SimulatedBroker) × EventData) → List (List Input) → Run → Type 0
IsOver events later no_events = events ≡ []
IsOver events later (broken p) = AimsAt p (updates_of events)
IsOver events later (mistyped_sent p) = AimsAt p (updates_of events)
IsOver events later (finished over summary p) =
    (p.terminate_flag ≡ true)
    × (summary ≡ get_current_state_snapshot p)
    × AimsAt p (updates_of events ++ late_updates later)
    × ((over ≡ false) ↔ (later ≡ []))
    × (over ≡ true → AllClosing p.broker)

stop-AllClosing : (b : SimulatedBroker) → AllClosing (stop b)
unfolding AllClosing stop request_cancel
stop-AllClosing b id o e = ground (arith, lookup-map request_cancel id b.live_orders)

act_all-arrives :
    (uuid : ℕ → String) (is : List Input) (p : PositionManager SimulatedBroker)
    → act_all simulated uuid (map as_turn is) p ≡ arrive_all is p
unfolding act_all act arrive_all
act_all-arrives uuid [] p = refl
act_all-arrives uuid (i ∷ is) p = act_all-arrives uuid is (arrive i p)

module _ (uuid : ℕ → String) where
  arrive_all-aim :
      (is : List Input) (p : PositionManager SimulatedBroker) (updates : List (String × ℤ))
      → AimsAt p updates
      → AimsAt (arrive_all is p) (updates ++ updates_by (map as_turn is))
  arrive_all-aim is p updates h s =
      let ts = map as_turn is in
      rw (← act_all-arrives uuid is p) (
        (act_all_lem simulated uuid ts p).0 s
        ∙ ap (get_or (last_target s (updates_by ts))) (h s)
        ∙ sym (get_or-append s updates (updates_by ts) (pos 0)))

  wind_up-IsOver :
      (events : List (List (Turn SimulatedBroker) × EventData)) (later : List (List Input))
      (p : PositionManager SimulatedBroker)
      → AimsAt p (updates_of events)
      → IsOver events later (wind_up uuid later p)
  unfolding wind_up run_loop late_updates last_inputs updates_by terminate
  wind_up-IsOver events [] p h = (refl, refl, λ s. rw append-nil (h s), (λ _. refl, λ _. refl), cc)
  wind_up-IsOver events (is ∷ later) p h =
      let q = arrive_all is (terminate p) in
      let ends : Bool × PositionManager SimulatedBroker =
        (true, record q { broker = stop q.broker }) in
      let e : run_loop simulated uuid (is ∷ later) (terminate p) ≡ ends =
        if_true q.terminate_flag ends (run_loop simulated uuid later (cycle simulated uuid q))
          (arrive-flag is (terminate p) refl) in
      subst (λ r. IsOver events (is ∷ later) (finished r.0 (get_current_state_snapshot r.1) r.1))
        (sym e)
        (
          arrive-flag is (terminate p) refl,
          refl,
          arrive_all-aim is (terminate p) (updates_of events) h,
          (λ f. cc, λ f. cc),
          λ _. stop-AllClosing q.broker,
        )

  after_replay-IsOver :
      (events : List (List (Turn SimulatedBroker) × EventData)) (later : List (List Input))
      (e : Ending) (p : PositionManager SimulatedBroker)
      → AimsAt p (updates_of events)
      → IsOver events later (after_replay uuid later (e, p))
  unfolding after_replay
  after_replay-IsOver events later replay_failed p h = h
  after_replay-IsOver events later mistyped p h = h
  after_replay-IsOver events later replayed p h = wind_up-IsOver events later p h
  after_replay-IsOver events later stopped p h = wind_up-IsOver events later p h

fresh_target : (s : String) → pending_target (init sim_broker) s ≡ pos 0
unfolding init last_target lookup
fresh_target s = refl

interleave-eq-nil :
    (turns : List (List (Turn SimulatedBroker))) (log : List EventData)
    → log ≡ []
    → interleave turns log ≡ []
unfolding interleave
interleave-eq-nil turns log h = rw h

-- The log of the lines of the input: the lines that are JSON, decoded, in their order.
pub data IsLogOf (loads : String → Option EventData) : List String → List EventData → Type 0 where
  nothing_read : IsLogOf loads [] []
  decoded :
      {line : String} {lines : List String} {e : EventData} {es : List EventData}
      → loads line ≡ some e
      → IsLogOf loads lines es
      → IsLogOf loads (line ∷ lines) (e ∷ es)
  left_out :
      {line : String} {lines : List String} {es : List EventData}
      → loads line ≡ none
      → IsLogOf loads lines es
      → IsLogOf loads (line ∷ lines) es

read_event_log-IsLogOf :
    (loads : String → Option EventData) (lines : List String)
    → IsLogOf loads lines (read_event_log loads lines)
unfolding read_event_log
read_event_log-IsLogOf loads [] = nothing_read
read_event_log-IsLogOf loads (line ∷ lines) = elim (Option-cases (loads line)) [
  | inl e ↦ rw (read_event_log, e) (left_out e (read_event_log-IsLogOf loads lines))
  | inr (x, e) ↦ rw (read_event_log, e) (decoded e (read_event_log-IsLogOf loads lines))
]

-- However the loop, the broker and other threads take turns with it, the script replays the lines
-- of its input that are JSON, decoded and in their order, and ends in one of these ways. It exits
-- at once only when no line is JSON. When the replay raises an exception or queues an update of
-- other types than a text and an integer, the target of every symbol, pending updates included, is
-- the last of the updates sent until then, or 0. Otherwise the position manager has been told to
-- end, the last summary shows its state, the target of every symbol, pending updates included, is
-- the last of the updates of the replay and of those that came in before the last test of the
-- flag, or 0, and the thread has ended exactly when it made another test of the flag; if it has
-- ended, every live order of the broker is being cancelled.
pub script-IsOver :
    (loads : String → Option EventData) (uuid : ℕ → String)
    (turns : List (List (Turn SimulatedBroker))) (later : List (List Input)) (lines : List String)
    → (log : List EventData) × IsLogOf loads lines log
      × IsOver (interleave turns log) later (script loads uuid turns later lines)
unfolding script
script-IsOver loads uuid turns later lines = (
  read_event_log loads lines,
  read_event_log-IsLogOf loads lines,
  on_log (read_event_log loads lines),
)
  where
    on_log :
        (log : List EventData)
        → IsOver (interleave turns log) later (elim log [
          | [] ↦ no_events
          | e ∷ es ↦
              after_replay uuid later
                (replay_events_log simulated uuid (interleave turns (e ∷ es)) (init sim_broker))
        ])
    on_log [] = interleave-eq-nil turns [] refl
    on_log (e ∷ es) =
        let events = interleave turns (e ∷ es) in
        let r = replay_events_log simulated uuid events (init sim_broker) in
        after_replay-IsOver uuid events later r.0 r.1 (λ s.
          replay_events_log-targets simulated uuid events (init sim_broker) (unfold init in refl) s
          ∙ ap (get_or (last_target s (updates_of events))) (fresh_target s))
