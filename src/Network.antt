-- ===== src/Network.antt =====
-- internal/network: networks and the addresses that instances hold on them. An address is a
-- 32-bit number, written as in `incrementIP`; a text that Go's parser refuses is `none`, so that
-- the printing and the parsing of dotted quads do not show. Networks are IPv4.
pub mod Address
pub mod Table
pub mod Port
pub mod Manager
pub mod Free
pub mod Lookup
pub mod Tables
pub mod Finding
pub mod Calls
pub mod Answers
pub mod Allocates
pub mod Room
pub mod Releases
pub mod Reconcile
pub mod Reconciled
pub mod Restart
pub mod Runs
mod Tests
use dicer.Prelude.{ℕ, String, Bool, Option, List}

-- A parsed CIDR: its first address, and the length of its prefix.
pub record Subnet : Type 0 where
  pub base : ℕ
  pub ones : ℕ

-- The fields of a Network that allocation reads.
pub record Network : Type 0 where
  pub id : String
  pub name : String
  pub gateway : ℕ
  pub subnet : Option Subnet

pub record Allocation : Type 0 where
  pub network_id : String
  pub instance_id : String
  pub ip : ℕ
  pub mac : List ℕ

pub data Error : Type 0 where
  unreadable_table invalid_subnet not_assignable already_in_use no_available_ips : Error
  no_randomness write_failed not_found : Error

pub data Result {ℓ} (A : Type ℓ) : Type ℓ where
  ok : A → Result A
  err : Error → Result A
