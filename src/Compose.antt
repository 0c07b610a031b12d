-- ===== src/Compose.antt =====
-- internal/compose: what a compose file says before it is read: the variables in its texts.
pub mod Interpolate
pub mod Fuel
pub mod Ends
pub mod Template
pub mod Braces
pub mod Bodies
pub mod Meaning
mod Tests
use dicer.Prelude.{List}
use dicer.Text.{Runes}

-- The errors of an interpolation. `required` has the variable's name and the message.
pub data Failure : Type 0 where
  no_closing_brace no_name no_operator bad_operator : Failure
  required : (name message : Runes) → Failure

-- `out_of_fuel` belongs to the model only.
pub data Interpolated : Type 0 where
  text : Runes → Interpolated
  failed : Failure → Interpolated
  out_of_fuel : Interpolated
