-- ===== src/Lib.antt =====
-- FlowManager: a position manager that trades towards target positions through a broker.
--
-- The program and its model. position_manager/app/position_manager.py keeps positions, targets and
-- live orders. Its loop reads a queue of trade confirmations and a queue of target updates, and sends
-- orders to a broker until the working position of each symbol, what is held and what is on its way,
-- is the target. A broker confirms trades by a callback that fills the first queue; a strategy or an
-- HTTP request fills the second. There are two brokers: a simulation in which each order is a thread,
-- and a client of an order book server. That server, in order_book, matches orders by price and arrival.
--
-- Files:
--   Base, Int, Dict, Ids, Float   shared notation and lemmas: Boolean tests and keys, integers over
--       native numbers, Python's dict and set of identifiers, and floats as prices.
--   Broker             position_manager/app/brokers/broker_interface.py: the messages and the
--       interface, a record of functions from a broker's state to a `Reply`.
--   PositionManager    position_manager/app/position_manager.py: the state and the readers of the
--       queues (`process_trade_confirmations`, `process_target_updates`, `calculate_working_position`);
--       PositionManager/Orders has `reconcile_positions`, `cycle` (the body of the loop) and `run`.
--       Beside it: Working, Tracking, Cancelling and Placing on the parts of a reconciliation,
--       Reconcile on the whole, Confirmations, Fills, Balance, Reading and Targets on the queues, Contract on
--       what is asked of a broker, Cycle, Symbols, Run and Loop on the loop, Opposing, Preserving, Endings
--       and Pending.
--   SimulatedBroker    position_manager/app/brokers/simulated_broker.py: `submit_order`,
--       `cancel_order`, `stop`, `get_order_details`, and
--       `thread_step`, one round of an order's thread; Orders, Threads, Genuine, Submitted, and Trading, the
--       joint system with the position manager. Coverage and Rest follow each order to its end, in
--       Finishing, Ending and Passes threads and timers run to their end and a round follows; Filling,
--       Turns and Filled are on orders that nothing cancels, Unopposed and Rounds on a round without live
--       orders, and Converging joins two passes.
--   CppBroker          position_manager/app/brokers/cpp_ob_broker.py: the maps, the lock and the
--       requests, as actions that return, raise or block; Submit and Cancel have the two long
--       methods. Requests, Rejections, Acceptance, Trades, Cancellations and Deadlock are on single
--       calls, Unpriced and Endless on the position manager above it.
--   Strategy           position_manager/app/strategy/strategy_runner.py: `replay_events_log`; Strategy/Script has
--       `read_event_log_from_stdin` and the script at the end; Strategy/Replay and Strategy/Shutdown.
--   OrderBook          order_book/src/order_book.cpp, order.cpp and their headers: orders, levels and the
--       report of the levels; OrderBook/Matching has `MatchOrders`, OrderBook/Adding `AddOrder` and
--       `CancelOrder`. Loops is a rule for the two loops; Registered, Sides, Accounts and Kept are on what
--       a trade keeps, Arrival and Start on a new order, Erasing, Removing, Books and Cancels on cancellations,
--       Traded, Accepted and Additions on whole calls; RoundTrip and LevelInfos.
--   Server             order_book/src/order_book_server.cpp: the commands; Server/Unmatched joins it to the
--       client in CppBroker.
--   Api                position_manager/app/main_api.py: start-up, shutdown and the handlers; Api/Responses
--       on single requests and Api/Lifecycle on the whole.
--   Tests              test data, runs, and an instance of each result that has conditions.
--
-- How code becomes a definition. A method is a function from the old state to the new one. Python's
-- int is ℤ. Every reader of a queue holds the lock of the position manager, so it is one step; what
-- other threads do comes between the steps (`Step` in PositionManager/Run, the inputs of `run_loop`,
-- the turns of `replay_events_log`). A confirmation during a call of the broker is appended to the
-- queue after the call. Sets of symbols are lists without repetition. `uuid4` is a parameter, with the
-- condition that no identifier comes twice. `str.upper` is a parameter.
--
-- Bounds. `run_loop` takes the inputs of each round as a list and says whether it has ended; it goes
-- on after the end of the list, and ends when a termination is in it. The thread of a simulated order
-- takes its random draws as a list, and one more than what is left to fill are enough (at least one). The server's
-- numbers are not bounded in CppBroker, since Python's are not. Prices are dyadic, infinite or not a
-- number. `match_orders` has as fuel one more than the levels of the book, and `match_level` one more
-- than the orders of the two levels in front: each round takes one of them away. In the order book only
-- the sum of a level can pass 2 ^ 32, and it is taken modulo 2 ^ 32; all else only grows smaller.
--
-- Not modelled: texts of log and error messages, durations of sleeps, the ZeroMQ and FastAPI
-- libraries, calls of one `CppOrderBookBroker` by several threads at once, and the loop of the server
-- around its commands with its answers to malformed requests. What the network does during a call is an
-- argument of CppBroker; the readings of numbers by the JSON library and `json.loads` are parameters.
-- In a log of events, what follows an update whose symbol and target are not a text and an integer. In
-- CppBroker/Unpriced, a call that raises or waits for ever would give the answer `None` or `False` to
-- the position manager; in the states that Unpriced and Endless are about no call does.
pub mod Api
pub mod Base
pub mod Broker
pub mod CppBroker
pub mod Dict
pub mod Float
pub mod Ids
pub mod Int
pub mod OrderBook
pub mod PositionManager
pub mod Server
pub mod SimulatedBroker
pub mod Strategy
pub mod Tests
