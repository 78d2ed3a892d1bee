-- ===== src/Shared/StateFile.antt =====
-- Shared/StateFile.hpp: what a state file's parser hands over, as far as a machine is written from
-- it. Keystrokes, the cue card and the directives of the frontend are left out.
pub mod Lines
pub mod Tokens
pub mod Listing
pub mod Program
mod Examples
use calc_u.Base.{ℕ, Bool, List, Option}
use calc_u.Shared.CardFile.{RegisterValue}

-- Steps are addresses with their keycodes; an address is never negative.
pub record LoadStateResult : Type 0 where
  pub partition_max_step : ℕ
  pub partition_was_explicit : Bool
  pub program_steps : List (ℕ × ℕ)
  pub registers : List RegisterValue

pub record ReloadStage : Type 0 where
  pub partition_max_step : Option ℕ
  pub program_steps : List (ℕ × ℕ)
  pub registers : List RegisterValue
