-- ===== src/Event/Compacting.antt =====
-- The second half of a compaction, and the close of the file, keep the invariant.
use dicer.Prelude.{
  ℕ, ◌≤◌, ◌≡◌, refl, sym, ap, subst, ◌∙◌, inl, inr, Bool, true, false, Option, some, none, List,
  arith, In, Bool-cases, leb, ◌&&◌, ◌||◌,
}
use dicer.Event.{Event}
use dicer.Event.Log.{Pending}
use dicer.Event.Writer.{
  EventsFile, CompactResult, replaced, not_opened, left_alone, Phase, waiting, compacting, closing,
  stopped, State, load, in_hand, finish_compacting, close_file,
}
use dicer.Event.Invariant.{InPhase, IsKept, Counts, Inv}
use dicer.Event.WriterSteps.{IsKept-Safe, moved-Inv}
use dicer.Event.Disk.{load-map-whole}

module _ (events : List Event) (last : ℕ) (at : Option ℕ) (s : State)
    (e : s.phase ≡ compacting events last at) (I : Inv s) where
  copied : (p : Pending) → IsKept s I.cut p → InPhase (compacting events last at) s I.cut p
  copied p k = subst (λ ph. InPhase ph s I.cut p) e k.in_phase

  copied-Counts : Counts (compacting events last at) s I.cut
  copied-Counts = subst (λ ph. Counts ph s I.cut) e I.counted.counts

  last_le : (at' : Option ℕ) → Counts (compacting events last at') s I.cut → last ≤ s.log.recorded
  last_le none c = c.1
  last_le (some now) c = c.1

  -- The file holds the events copied, and a phase follows for which that is enough.
  rewritten-Inv :
      (g : EventsFile) (ph : Phase)
      → load g.lines ≡ events
      → g.compacted_through ≡ last
      → ((p : Pending)
          → IsKept s I.cut p
          → (p.number ≤ last → In p.event events)
          → InPhase ph (record s { file = g; phase = ph }) I.cut p)
      → Counts ph (record s { file = g; phase = ph }) I.cut
      → Inv (record s { file = g; phase = ph })
  rewritten-Inv g ph loads through phase counts =
      moved-Inv s g ph I
        (λ p m k.
          let on = λ (h : p.number ≤ last). subst (In p.event) (sym loads) ((copied p k).0 h) in
          (
            λ h. on (omega arith),
            λ w. elim (Bool-cases (leb p.number last)) [
              | inl h ↦ inl (on (ground arith))
              | inr h ↦ elim ((copied p k).1 (ground arith) w) [
                | inl q ↦ inr (inl q)
                | inr d ↦ inr (inr (inl (ground arith)))
              ]
            ],
            phase p k (copied p k).0,
          ))
        (rw through (last_le at copied-Counts)) counts

  -- The file holds what it held.
  kept_file-Inv :
      (g : EventsFile) (ph : Phase)
      → load g.lines ≡ load s.file.lines
      → g.compacted_through ≡ s.file.compacted_through
      → g.open_ ≡ s.file.open_
      → ((p : Pending) → InPhase ph (record s { file = g; phase = ph }) I.cut p)
      → Counts ph (record s { file = g; phase = ph }) I.cut
      → Inv (record s { file = g; phase = ph })
  kept_file-Inv g ph loads through opened phase counts =
      moved-Inv s g ph I
        (λ p m k. (
          λ h. subst (In p.event) (sym loads) (k.covered (omega arith)),
          λ w. elim (IsKept-Safe s I.cut p (unfold in_hand in ap in_hand e) k w) [
            | inl on ↦ inl (subst (In p.event) (sym loads) on)
            | inr (inl q) ↦ inr (inl q)
            | inr (inr (inl d)) ↦ inr (inr (inl (omega arith)))
            | inr (inr (inr o)) ↦ inr (inr (inr (opened ∙ o)))
          ],
          phase p,
        ))
        (omega (arith, I.counted.compacted_le)) counts

pub finish_compacting-Inv :
    (events : List Event) (last : ℕ) (at : Option ℕ) (c : CompactResult) (s : State)
    → s.phase ≡ compacting events last at
    → Inv s
    → Inv (finish_compacting events last at c s)
unfolding finish_compacting
finish_compacting-Inv events last (some now) replaced s e I =
    rewritten-Inv events last (some now) s e I _ waiting (load-map-whole events) refl (λ p k h. tt)
      tt
finish_compacting-Inv events last (some now) not_opened s e I =
    rewritten-Inv events last (some now) s e I _ waiting (load-map-whole events) refl (λ p k h. tt)
      tt
finish_compacting-Inv events last (some now) left_alone s e I =
    kept_file-Inv events last (some now) s e I _ waiting refl refl refl (λ p. tt) tt
finish_compacting-Inv events last none replaced s e I =
    let c = copied-Counts events last none s e I in
    rewritten-Inv events last none s e I _ (closing false) (load-map-whole events) refl
      (λ p k h w. subst (In p.event) (sym (load-map-whole events)) (h (omega arith))) c.3
finish_compacting-Inv events last none not_opened s e I =
    rewritten-Inv events last none s e I _ (closing true) (load-map-whole events) refl (λ p k h. tt)
      (copied-Counts events last none s e I).3
finish_compacting-Inv events last none left_alone s e I =
    kept_file-Inv events last none s e I _ (closing true) refl refl refl (λ p. tt)
      (copied-Counts events last none s e I).3

stopped-InPhase :
    (failed b : Bool) (s t : State) (cut : ℕ) (p : Pending)
    → t.file.lines ≡ s.file.lines
    → InPhase (closing failed) s cut p
    → InPhase (stopped (failed || b)) t cut p
stopped-InPhase true b s t cut p e h = tt
stopped-InPhase false true s t cut p e h = tt
stopped-InPhase false false s t cut p e h = λ w. rw e (h w)

pub close_file-Inv :
    (failed fails : Bool) (s : State)
    → s.phase ≡ closing failed
    → Inv s
    → Inv (close_file failed fails s)
unfolding close_file
close_file-Inv failed fails s e I =
    moved-Inv s _ (stopped (failed || s.file.open_ && fails)) I
      (λ p m k. (
        k.covered,
        λ w. inr (inr (inr refl)),
        stopped-InPhase failed _ s _ I.cut p refl (subst (λ ph. InPhase ph s I.cut p) e k.in_phase),
      ))
      I.counted.compacted_le (subst (λ ph. Counts ph s I.cut) e I.counted.counts)
