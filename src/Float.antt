-- ===== src/Float.antt =====
-- Python's floats as prices: a double is an integer times a power of two, an infinity or a NaN.
-- The program only passes prices on, truncates them and tests them for zero.
use flow_manager.Base.{Bool, Option, none, some, suc, zero, ◌*◌, ◌/◌, ◌^◌}
use flow_manager.Int.{negsuc, pos, ℤ, ◌-ℤ◌}

pub data Float : Type 0 where
  -- the mantissa and the power of two
  finite : ℤ → ℤ → Float
  infinite : Bool → Float
  nan : Float

-- `float(n)`, exact for the prices of the order book, which are below 2 ^ 32
abbrev pub float : ℤ → Float
float n = finite n (pos 0)

-- `int(x)` drops the fraction; `none` is the exception that an infinity or a NaN raises.
unfoldable pub truncate : Float → Option ℤ
truncate (finite (pos m) (pos e)) = some (pos (m * 2 ^ e))
truncate (finite (negsuc m) (pos e)) = some (pos 0 -ℤ pos (suc m * 2 ^ e))
truncate (finite (pos m) (negsuc e)) = some (pos (m / 2 ^ suc e))
truncate (finite (negsuc m) (negsuc e)) = some (pos 0 -ℤ pos (suc m / 2 ^ suc e))
truncate (infinite negative) = none
truncate nan = none

-- `x or 0.0`
unfoldable pub or_zero : Float → Float
or_zero (finite (pos zero) e) = float (pos 0)
or_zero x = x
