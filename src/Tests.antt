-- ===== src/Tests.antt =====
-- Test data for both sides of position_manager/app: a supply of identifiers, and small states of a
-- position manager over the simulated broker.
pub mod Clients
pub mod Engine
pub mod Manager
pub mod OrderBook
pub mod Passes
pub mod Script
pub mod Server
pub mod Simulated
pub mod Simulation
pub mod Trades
use Prim.Native.String as Text
use text.Mathlib.TextLemmas.{tail-eq_of_cons-eq, nil≢cons, cons≢nil}
use flow_manager.Base.{String, [], ap, refl, string_eq, suc, true, zero, ℕ}
use flow_manager.PositionManager.{PositionManager, init}
use flow_manager.PositionManager.Tracking.{IsFresh}
use flow_manager.SimulatedBroker.{SimulatedBroker}

-- "", "x", "xx", ...
unfoldable pub unary_id : ℕ → String
unary_id zero = Text.[]
unary_id (suc n) = Text.◌∷◌ "x" (unary_id n)

pub unary_id-IsFresh : IsFresh unary_id
unfolding unary_id
unary_id-IsFresh zero zero e = refl
unary_id-IsFresh zero (suc j) e = absurd (nil≢cons e)
unary_id-IsFresh (suc i) zero e = absurd (cons≢nil e)
unary_id-IsFresh (suc i) (suc j) e = ap suc (unary_id-IsFresh i j (tail-eq_of_cons-eq e))

abbrev pub idle_sim : SimulatedBroker
idle_sim = record { has_callback = true; next_broker_order_id = 0; live_orders = []; timers = [] }

abbrev pub Anything : SimulatedBroker → Type 0
Anything b = Unit

abbrev pub idle_manager : PositionManager SimulatedBroker
idle_manager = init idle_sim
