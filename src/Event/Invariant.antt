-- ===== src/Event/Invariant.antt =====
-- What holds of an event log and its writer between two steps. The events kept are paired with
-- the numbers that they were recorded under, 0 for those loaded; `cut` is the number of the last
-- event recorded before Close, or of the last event recorded while the log is open.
use dicer.Prelude.{ℕ, ◌≤◌, ◌<◌, ◌≡◌, ◌⊎◌, true, false, none, some, List, map, In}
use dicer.Event.{Event}
use dicer.Event.Log.{Pending}
use dicer.Event.Writer.{
  Phase, waiting, writing, checking, looked, copying, compacting, closing, stopped, State, load,
  in_hand,
}

abbrev pub OnDisk : State → Event → Type 0
OnDisk s e = In e (load s.file.lines)

-- An event is in the file, or the goroutine will learn of it: from the channel, by a drop past the
-- last compaction, or by the file that is not open.
abbrev pub Safe : State → Pending → Type 0
Safe s p =
    OnDisk s p.event
    ⊎ In p s.log.writes
    ⊎ ((s.file.compacted_through < p.number) × (p.number ≤ s.log.dropped_through))
    ⊎ (s.file.open_ ≡ false)

-- What more holds of an event kept, by phase.
abbrev pub InPhase : Phase → State → ℕ → Pending → Type 0
InPhase waiting s cut p = Unit {0}
InPhase (writing q) s cut p = Unit {0}
InPhase checking s cut p = Unit {0}
InPhase (looked b) s cut p = Unit {0}
InPhase (copying at) s cut p = Unit {0}
InPhase (compacting events last at) s cut p =
    (p.number ≤ last → In p.event events)
    × (last < p.number → p.number ≤ cut → In p s.log.writes ⊎ (p.number ≤ s.log.dropped_through))
InPhase (closing true) s cut p = Unit {0}
InPhase (closing false) s cut p = p.number ≤ cut → OnDisk s p.event
InPhase (stopped true) s cut p = Unit {0}
InPhase (stopped false) s cut p = p.number ≤ cut → OnDisk s p.event

-- What holds of an event kept; if it was recorded before Close, it is safe or the goroutine has it.
pub record IsKept (s : State) (cut : ℕ) (p : Pending) : Type 0 where
  pub numbered : p.number ≤ s.log.recorded
  pub covered : p.number ≤ s.file.compacted_through → OnDisk s p.event
  pub safe : p.number ≤ cut → In p (in_hand s.phase) ⊎ Safe s p
  pub in_phase : InPhase s.phase s cut p

-- The counters, by phase.
abbrev pub Counts : Phase → State → ℕ → Type 0
Counts waiting s cut = Unit {0}
Counts (writing q) s cut = Unit {0}
Counts checking s cut = Unit {0}
Counts (looked b) s cut = Unit {0}
Counts (copying (some now)) s cut = Unit {0}
Counts (copying none) s cut = s.log.closed ≡ true
Counts (compacting events last (some now)) s cut =
    (s.file.compacted_through ≤ last) × (last ≤ s.log.recorded)
Counts (compacting events last none) s cut =
    (s.file.compacted_through ≤ last)
    × (last ≤ s.log.recorded)
    × (cut ≤ last)
    × (s.log.closed ≡ true)
Counts (closing failed) s cut = s.log.closed ≡ true
Counts (stopped failed) s cut = s.log.closed ≡ true

pub record IsCounted (s : State) (cut : ℕ) : Type 0 where
  pub compacted_le : s.file.compacted_through ≤ s.log.recorded
  pub dropped_le : s.log.dropped_through ≤ s.log.recorded
  pub cut_le : cut ≤ s.log.recorded
  pub cut_open : s.log.closed ≡ false → cut ≡ s.log.recorded
  pub cut_last : s.log.recorded_after_close ≡ false → cut ≡ s.log.recorded
  pub counts : Counts s.phase s cut

pub record Inv (s : State) : Type 0 where
  pub cut : ℕ
  pub kept : List Pending
  pub kept_events : map (λ p. p.event) kept ≡ s.log.events
  pub kept_IsKept : (p : Pending) → In p kept → IsKept s cut p
  pub counted : IsCounted s cut
