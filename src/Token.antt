-- ===== src/Token.antt =====
-- internal/token and the checks of tokens in internal/grpcserver: what a token allows, how it is
-- written and read, and the calls that issue tokens.
pub mod Scope
pub mod Secret
pub mod Value
pub mod RoundTrip
pub mod Grants
pub mod Access
pub mod Manager
pub mod Handler
pub mod Issues
pub mod Contained
pub mod Attack
pub mod Escalation
pub mod Refusals
mod Tests
use dicer.Prelude.{ℕ, List, String}
use dicer.Text.{Runes}

-- A Token, without the times of its creation and its last change.
pub record Token : Type 0 where
  pub id : String
  pub name : String
  pub secret_sha256 : Runes
  pub scopes : List Runes
  pub last_used_at : ℕ
