-- ===== src/Event/Taking.antt =====
-- The receive of an event by the goroutine, and its write to the file, keep the invariant.
use dicer.Prelude.{ℕ, ◌≤◌, ◌≡◌, refl, subst, ◌⊎◌, inl, inr, List, [], ◌∷◌, arith, In}
use dicer.Event.Log.{Pending}
use dicer.Event.Writer.{
  EventsFile, WriteResult, writing, checking, State, in_hand, take_queued, take_next, write_taken,
}
use dicer.Event.Invariant.{Safe, IsKept, Inv}
use dicer.Event.Disk.{Takes, take_file-Takes}
use dicer.Event.WriterSteps.{IsKept-Safe, moved-Inv}

-- The event taken is in the goroutine's hand.
module _ (p q : Pending) (rest : List Pending) (s : State) (shape : s.log.writes ≡ p ∷ rest) where
  abbrev took : State
  took = record s { log = record s.log { writes = rest }; phase = writing p }

  took-Safe : Safe s q → In q (in_hand (writing p)) ⊎ Safe took q
  unfolding in_hand
  took-Safe (inl on) = inr (inl on)
  took-Safe (inr (inl m)) = elim (subst (In q) shape m) [
    | inl e ↦ inl (inl e)
    | inr later ↦ inr (inr (inl later))
  ]
  took-Safe (inr (inr (inl d))) = inr (inr (inr (inl d)))
  took-Safe (inr (inr (inr o))) = inr (inr (inr (inr o)))

take_queued-Inv :
    (ps : List Pending) (s : State)
    → s.log.writes ≡ ps
    → in_hand s.phase ≡ []
    → Inv s
    → Inv (take_queued ps s)
unfolding take_queued
take_queued-Inv [] s shape idle I = I
take_queued-Inv (p ∷ rest) s shape idle I = record {
  cut = I.cut;
  kept = I.kept;
  kept_events = I.kept_events;
  kept_IsKept = λ q m.
      let k = I.kept_IsKept q m in
      record {
        numbered = k.numbered;
        covered = k.covered;
        safe = λ w. took-Safe p q rest s shape (IsKept-Safe s I.cut q idle k w);
        in_phase = tt;
      };
  counted = record {
    compacted_le = I.counted.compacted_le;
    dropped_le = I.counted.dropped_le;
    cut_le = I.counted.cut_le;
    cut_open = I.counted.cut_open;
    cut_last = I.counted.cut_last;
    counts = tt;
  };
}

pub take_next-Inv : (s : State) → in_hand s.phase ≡ [] → Inv s → Inv (take_next s)
unfolding take_next
take_next-Inv s idle I = take_queued-Inv s.log.writes s refl idle I

-- The write of the event in hand.
module _ (p q : Pending) (s : State) (g : EventsFile) (cut : ℕ) (holds : in_hand s.phase ≡ p ∷ [])
    (taken : Takes p s.file g) where
  abbrev wrote_it : State
  wrote_it = record s { file = g; phase = checking }

  held-Safe : IsKept s cut q → In q (p ∷ []) → Safe wrote_it q
  held-Safe k (inl e) = elim taken.done [
    | inl m ↦ inl (rw e m)
    | inr (inl o) ↦ inr (inr (inr o))
    | inr (inr c) ↦ inl (taken.grows q.event (k.covered (rw e c)))
  ]
  held-Safe k (inr m) = absurd m.1

  kept-Safe : Safe s q → Safe wrote_it q
  kept-Safe (inl on) = inl (taken.grows q.event on)
  kept-Safe (inr (inl m)) = inr (inl m)
  kept-Safe (inr (inr (inl d))) = inr (inr (inl (omega (arith, taken.compacted))))
  kept-Safe (inr (inr (inr o))) = inr (inr (inr (taken.shut o)))

  wrote-Safe : IsKept s cut q → q.number ≤ cut → Safe wrote_it q
  wrote-Safe k w = elim (k.safe w) [
    | inl held ↦ held-Safe k (subst (In q) holds held)
    | inr safe ↦ kept-Safe safe
  ]

pub write_taken-Inv :
    (p : Pending) (w : WriteResult) (s : State)
    → in_hand s.phase ≡ p ∷ []
    → Inv s
    → Inv (write_taken p w s)
unfolding write_taken
write_taken-Inv p w s holds I =
    let taken = take_file-Takes p w s.file in
    moved-Inv s _ checking I
      (λ q m k. (
        λ c. taken.grows q.event (k.covered (omega (arith, taken.compacted))),
        λ c. wrote-Safe p q s _ I.cut holds taken k c,
        tt,
      ))
      (omega (arith, taken.compacted, I.counted.compacted_le)) tt
