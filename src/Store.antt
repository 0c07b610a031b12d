-- ===== src/Store.antt =====
-- internal/filestore: the definitions of resources in memory, by name and by ID, and in files.
pub mod Definitions
pub mod Sound
pub mod Calls
pub mod Kept
pub mod Renamed
pub mod Files
pub mod Mirrored
pub mod Kinds
pub mod Runs
pub mod Restart
pub mod Found
pub mod References
pub mod Referenced
pub mod Integrity
mod Tests
use dicer.Prelude.{String, Option, List}

-- What the store reads of a kind of definition: its name and its ID, and Go's zero value of it.
pub record Kind (V : Type 0) : Type 0 where
  pub name_of : V → String
  pub id_of : V → String
  pub zero_value : V

-- The two maps of a kind, and its files: what is read at each name, nothing if the file there is
-- malformed.
pub record Catalogue (V : Type 0) : Type 0 where
  pub by_name : List (String × V)
  pub names_by_id : List (String × String)
  pub files : List (String × Option V)
