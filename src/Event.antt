-- ===== src/Event.antt =====
-- internal/event/event.go: what an event is, and the filters that pick events. A time is the
-- number of nanoseconds since Go's zero time, so 0 is the time that `IsZero` answers to. A
-- cloned attribute map is the same value, so `clone` has no counterpart.
pub mod Log
pub mod Subscription
pub mod Writer
pub mod Open
pub mod Trim
pub mod Invariant
pub mod Grow
pub mod Records
pub mod LogSteps
pub mod Disk
pub mod Taking
pub mod WriterSteps
pub mod Compacting
pub mod Delivered
pub mod Delivery
pub mod History
pub mod Durable
mod Tests
use dicer.Prelude.{
  ℕ, String, Bool, true, false, not, ◌&&◌, ◌||◌, List, [], ◌∷◌, ltb, ◌==◌, string_Eq, nat_Eq,
  if◌then◌else◌,
}

pub record Event : Type 0 where
  pub time : ℕ
  pub kind : String
  pub id : String
  pub name : String
  pub action : String
  pub message : String
  pub attributes : List (String × String)

pub record Filter : Type 0 where
  pub kind : String
  pub id : String
  pub names : List String
  pub since : ℕ

-- `slices.Contains` on names.
contains : List String → String → Bool
contains [] name = false
contains (n ∷ names) name = n == name || contains names name

is_empty : List String → Bool
is_empty [] = true
is_empty (n ∷ names) = false

unfoldable pub matches : Filter → Event → Bool
unfolding contains is_empty
matches f e =
    (f.kind == "" || e.kind == f.kind)
    && (f.id == "" || e.id == f.id)
    && (is_empty f.names || contains f.names e.name)
    && not (ltb e.time f.since)
