-- ===== src/Event/WriterSteps.antt =====
-- The steps of the goroutine that writes the file keep the invariant.
use dicer.Prelude.{
  ℕ, ◌≤◌, ◌≡◌, ap, subst, inl, inr, Bool, true, false, not, Option, some, none, [], arith, In,
  In-map, Bool-cases, if◌then◌else◌, ◌&&◌, ◌||◌,
}
use dicer.Event.Log.{Pending, dropped_since}
use dicer.Event.Writer.{
  EventsFile, Phase, waiting, looked, copying, compacting, closing, State, drained, in_hand, look,
  check, leave_loop, start_compacting,
}
use dicer.Event.Invariant.{OnDisk, Safe, InPhase, IsKept, Counts, Inv}

if_Inv : (b : Bool) {s t : State} → Inv s → Inv t → Inv (if b then s else t)
if_Inv true h k = h
if_Inv false h k = k

-- While the goroutine has no event in hand.
pub IsKept-Safe :
    (s : State) (cut : ℕ) (p : Pending)
    → in_hand s.phase ≡ []
    → IsKept s cut p
    → p.number ≤ cut
    → Safe s p
IsKept-Safe s cut p idle k w = elim (k.safe w) [
  | inl held ↦ absurd (subst (In p) idle held).1
  | inr safe ↦ safe
]

-- A step that changes the file and moves the goroutine on.
module _ (s : State) (g : EventsFile) (ph : Phase) (I : Inv s) where
  abbrev moved : State
  moved = record s { file = g; phase = ph }

  pub moved-Inv :
      ((p : Pending)
        → In p I.kept
        → IsKept s I.cut p
        → (p.number ≤ g.compacted_through → OnDisk moved p.event)
          × (p.number ≤ I.cut → Safe moved p)
          × InPhase ph moved I.cut p)
      → g.compacted_through ≤ s.log.recorded
      → Counts ph moved I.cut
      → Inv moved
  moved-Inv h ct c = record {
    cut = I.cut;
    kept = I.kept;
    kept_events = I.kept_events;
    kept_IsKept = λ p m.
        let k = I.kept_IsKept p m in
        let t = h p m k in
        record { numbered = k.numbered; covered = t.0; safe = λ w. inr (t.1 w); in_phase = t.2 };
    counted = record {
      compacted_le = ct;
      dropped_le = I.counted.dropped_le;
      cut_le = I.counted.cut_le;
      cut_open = I.counted.cut_open;
      cut_last = I.counted.cut_last;
      counts = c;
    };
  }

-- The goroutine moves on from where it has no event in hand.
module _ (s : State) (idle : in_hand s.phase ≡ []) (I : Inv s) where
  waiting-Inv : Inv (record s { phase = waiting })
  waiting-Inv =
      moved-Inv s s.file waiting I (λ p m k. (k.covered, IsKept-Safe s I.cut p idle k, tt))
        I.counted.compacted_le tt

  copying-Inv :
      (at : Option ℕ)
      → Counts (copying at) (record s { phase = copying at }) I.cut
      → Inv (record s { phase = copying at })
  copying-Inv at c =
      moved-Inv s s.file (copying at) I (λ p m k. (k.covered, IsKept-Safe s I.cut p idle k, tt))
        I.counted.compacted_le c

compacting-Counts :
    (at : Option ℕ) (s : State) (I : Inv s)
    → Counts (copying at) s I.cut
    → Counts (compacting s.log.events s.log.recorded at) (start_compacting at s) I.cut
unfolding start_compacting
compacting-Counts none s I closed = (I.counted.compacted_le, omega arith, I.counted.cut_le, closed)
compacting-Counts (some now) s I c = (I.counted.compacted_le, omega arith)

-- The events are copied.
pub start_compacting-Inv :
    (at : Option ℕ) (s : State) → s.phase ≡ copying at → Inv s → Inv (start_compacting at s)
unfolding start_compacting
start_compacting-Inv at s ph I =
    moved-Inv s s.file (compacting s.log.events s.log.recorded at) I
      (λ p m k. (
        k.covered,
        IsKept-Safe s I.cut p (unfold in_hand in ap in_hand ph) k,
        (
          λ _. subst (In p.event) I.kept_events (In-map (λ q. q.event) p I.kept m),
          λ after _. absurd (omega (arith, k.numbered)),
        ),
      ))
      I.counted.compacted_le
      (compacting-Counts at s I (subst (λ ph. Counts ph s I.cut) ph I.counted.counts))

pub look-Inv : (s : State) → in_hand s.phase ≡ [] → Inv s → Inv (look s)
unfolding look
look-Inv s idle I =
    moved-Inv s s.file (looked _) I (λ p m k. (k.covered, IsKept-Safe s I.cut p idle k, tt))
      I.counted.compacted_le tt

pub check-Inv :
    (now : ℕ) (b : Bool) (s : State) → in_hand s.phase ≡ [] → Inv s → Inv (check now b s)
unfolding check
check-Inv now b s idle I =
    if_Inv _ (if_Inv _ (waiting-Inv s idle I) (copying-Inv s idle I (some now) tt))
      (waiting-Inv s idle I)

-- The end of the loop: with the file open and nothing dropped since, every event is in it.
pub leaves-OnDisk :
    (s : State) (p : Pending)
    → s.log.writes ≡ []
    → s.file.open_ ≡ true
    → s.log.dropped_through ≤ s.file.compacted_through
    → Safe s p
    → OnDisk s p.event
leaves-OnDisk s p w o d (inl on) = on
leaves-OnDisk s p w o d (inr (inl m)) = absurd (subst (In p) w m).1
leaves-OnDisk s p w o d (inr (inr (inl h))) = absurd (omega arith)
leaves-OnDisk s p w o d (inr (inr (inr c))) = cc

pub leave_loop-Inv : (s : State) → in_hand s.phase ≡ [] → Inv s → Inv (leave_loop s)
unfolding leave_loop
leave_loop-Inv s idle I = elim (Bool-cases (s.log.closed && drained s.log.writes)) [
  | inr more ↦ rw more I
  | inl over ↦
      rw over
        (elim (Bool-cases (not s.file.open_ || dropped_since s.file.compacted_through s.log)) [
          | inl lacks ↦ rw lacks (copying-Inv s idle I none (ground arith))
          | inr whole_ ↦ rw whole_ (
              moved-Inv s s.file (closing false) I
                (λ p m k. (
                  k.covered,
                  IsKept-Safe s I.cut p idle k,
                  λ w.
                      leaves-OnDisk s p (ground arith) (ground arith) (ground arith)
                        (IsKept-Safe s I.cut p idle k w),
                ))
                I.counted.compacted_le (ground arith))
        ])
]
