-- ===== src/Api.antt =====
-- The handlers of position_manager/app/main_api.py, over the application's globals. `pm_instance`
-- and `broker_instance` share one broker, which is the one in the position manager. The thread of
-- the position manager runs beside the handlers; here its state is what a handler finds.
pub mod Lifecycle
pub mod Responses
use flow_manager.Base.{
  Bool, Option, String, false, if◌then◌else◌, nat_eq, none, some, string_eq, true, ℕ,
}
use flow_manager.CppBroker.{
  CppOrderBookBroker, Network, Outcome, blocked, init_cpp, raised, returned, start_cpp, stop_cpp,
}
use flow_manager.CppBroker.Cancel.{BookSnapshot, get_market_data_snapshot}
use flow_manager.Int.{ℤ}
use flow_manager.PositionManager.{
  PositionManager, Snapshot, get_current_state_snapshot, init, terminate, update_target_position,
}

-- `broker_instance` and `pm_instance`: both are `None`, or `lifespan_startup` has set them.
pub data App : Type 0 where
  not_started : App
  started : PositionManager CppOrderBookBroker → App

-- What a request gets: a value, an `HTTPException` with its status code, the code 500 of the handler
-- of all other exceptions, or no answer because the handler waits for ever.
pub data Response (A : Type 0) : Type 0 where
  success : A → Response A
  http_exception : ℕ → Response A
  hangs : Response A

-- The thread of the position manager starts, and `run` starts the broker once more. When that raises,
-- the thread is gone and the application goes on without it: the second component.
unfoldable pub start_thread : Network → PositionManager CppOrderBookBroker → App × Bool
unfolding start_cpp
start_thread retry p = elim (start_cpp retry p.broker) [
  | returned _ b ↦ (started (record p { broker = b }), true)
  | raised b ↦ (started (record p { broker = b }), false)
  | blocked b ↦ (started (record p { broker = b }), false)
]

-- A connection that fails is logged, and the application starts all the same. `retry` is the network
-- when the thread tries again.
unfoldable pub lifespan_startup : Network → Network → App × Bool
unfolding start_cpp start_thread
lifespan_startup network retry = elim (start_cpp network init_cpp) [
  | returned _ b ↦ start_thread retry (init b)
  | raised b ↦ start_thread retry (init b)
  | blocked b ↦ (not_started, false)
]

-- The position manager is told to end, and the broker is stopped.
unfoldable pub lifespan_shutdown : App → App
unfolding terminate stop_cpp
lifespan_shutdown not_started = not_started
lifespan_shutdown (started p) =
    started (record (terminate p) { broker = record p.broker { is_connected = false } })

unfoldable pub set_target_position_api : String → ℤ → App → Response (Unit {0}) × App
set_target_position_api symbol quantity not_started = (http_exception 503, not_started)
set_target_position_api symbol quantity (started p) =
    (success tt, started (update_target_position symbol quantity p))

unfoldable pub get_system_state_api : App → Response Snapshot × App
get_system_state_api not_started = (http_exception 503, not_started)
get_system_state_api (started p) = (success (get_current_state_snapshot p), started p)

-- A snapshot is a dict with two entries, so it counts as true whatever the book holds.
unfoldable pub market_data_response :
    PositionManager CppOrderBookBroker → Outcome (Option BookSnapshot) → Response BookSnapshot × App
market_data_response p (returned (some book) b) = (success book, started (record p { broker = b }))
market_data_response p (returned none b) = (http_exception 404, started (record p { broker = b }))
market_data_response p (raised b) = (http_exception 500, started (record p { broker = b }))
market_data_response p (blocked b) = (hangs, started (record p { broker = b }))

unfoldable pub get_market_data_api : String → Network → App → Response BookSnapshot × App
unfolding market_data_response
get_market_data_api symbol network not_started = (http_exception 501, not_started)
get_market_data_api symbol network (started p) =
    if p.broker.is_connected
    then market_data_response p (get_market_data_snapshot symbol network p.broker)
    else (http_exception 503, started p)
