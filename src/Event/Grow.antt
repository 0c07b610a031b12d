-- ===== src/Event/Grow.antt =====
-- How what a step of the log leaves alone carries the invariant over: the file and the phase are
-- untouched, and the log's counters and its channel only grow.
use dicer.Prelude.{ℕ, ◌≤◌, ◌≡◌, inl, inr, true, false, some, none, arith, In}
use dicer.Event.Log.{Log, Pending}
use dicer.Event.Writer.{
  Phase, waiting, writing, checking, looked, copying, compacting, closing, stopped, State, with_log,
}
use dicer.Event.Invariant.{InPhase, IsKept, Counts}

module _ (s : State) (l : Log) (cut cut' : ℕ) (dropped : s.log.dropped_through ≤ l.dropped_through)
    (recorded : s.log.recorded ≤ l.recorded) where
  InPhase-grow :
      (ph : Phase) (p : Pending)
      → (p.number ≤ cut' → p.number ≤ cut)
      → (In p s.log.writes → In p l.writes)
      → InPhase ph s cut p
      → InPhase ph (with_log s l) cut' p
  InPhase-grow waiting p c w h = tt
  InPhase-grow (writing q) p c w h = tt
  InPhase-grow checking p c w h = tt
  InPhase-grow (looked b) p c w h = tt
  InPhase-grow (copying at) p c w h = tt
  InPhase-grow (compacting events last at) p c w h = (
    h.0,
    λ after within. elim (h.1 after (c within)) [ inl q ↦ inl (w q) | inr d ↦ inr (omega arith) ],
  )
  InPhase-grow (closing true) p c w h = tt
  InPhase-grow (closing false) p c w h = λ within. h (c within)
  InPhase-grow (stopped true) p c w h = tt
  InPhase-grow (stopped false) p c w h = λ within. h (c within)

  pub IsKept-grow :
      (p : Pending)
      → (p.number ≤ cut' → p.number ≤ cut)
      → (In p s.log.writes → In p l.writes)
      → IsKept s cut p
      → IsKept (with_log s l) cut' p
  IsKept-grow p c w h = record {
    numbered = omega arith;
    covered = h.covered;
    safe = λ within. elim (h.safe (c within)) [
      | inl held ↦ inl held
      | inr (inl on) ↦ inr (inl on)
      | inr (inr (inl q)) ↦ inr (inr (inl (w q)))
      | inr (inr (inr (inl d))) ↦ inr (inr (inr (inl (omega arith))))
      | inr (inr (inr (inr o))) ↦ inr (inr (inr (inr o)))
    ];
    in_phase = InPhase-grow s.phase p c w h.in_phase;
  }

  pub Counts-grow :
      (ph : Phase)
      → (s.log.closed ≡ true → (l.closed ≡ true) × (cut' ≤ cut))
      → Counts ph s cut
      → Counts ph (with_log s l) cut'
  Counts-grow waiting c h = tt
  Counts-grow (writing q) c h = tt
  Counts-grow checking c h = tt
  Counts-grow (looked b) c h = tt
  Counts-grow (copying (some now)) c h = tt
  Counts-grow (copying none) c h = (c h).0
  Counts-grow (compacting events last (some now)) c h = (h.0, omega arith)
  Counts-grow (compacting events last none) c h = ground (arith, c h.3)
  Counts-grow (closing failed) c h = (c h).0
  Counts-grow (stopped failed) c h = (c h).0
