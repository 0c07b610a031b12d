-- ===== src/Event/LogSteps.antt =====
-- The steps of the log keep the invariant: Record, Close, and the calls about subscriptions.
use mathlib.Core.List.{map-append}
use dicer.Prelude.{
  ℕ, ◌+◌, ◌≤◌, ◌<◌, ◌≡◌, refl, sym, ap, ◌∙◌, ◌⊎◌, inl, inr, true, false, some, none, List, [], ◌∷◌,
  ◌++◌, map, arith, drop, map-drop, In, In-drop, In-snoc, In-append_left, In-append_right,
}
use dicer.Event.{Event}
use dicer.Event.Subscription.{Subscription, end_subscription}
use dicer.Event.Log.{Log, Pending, record_event, trim_count, close}
use dicer.Event.Writer.{
  Phase, waiting, writing, checking, looked, copying, compacting, closing, stopped, State, with_log,
}
use dicer.Event.Invariant.{InPhase, IsKept, Counts, IsCounted, Inv}
use dicer.Event.Grow.{IsKept-grow, Counts-grow}
use dicer.Event.Records.{
  pending, appended, record_event-events, record_event-counters, record_event-Queued,
}

-- The event that Record adds.
module _ (s : State) (l : Log) (cut cut' : ℕ) (p : Pending) (counted : IsCounted s cut)
    (newer : s.log.recorded < p.number)
    (queued : p.number ≤ cut' → In p l.writes ⊎ (p.number ≤ l.dropped_through))
    (after : s.log.closed ≡ true → cut' < p.number) where
  InPhase-new : (ph : Phase) → Counts ph s cut → InPhase ph (with_log s l) cut' p
  InPhase-new waiting c = tt
  InPhase-new (writing q) c = tt
  InPhase-new checking c = tt
  InPhase-new (looked b) c = tt
  InPhase-new (copying at) c = tt
  InPhase-new (compacting events last (some now)) c = (λ h. absurd (omega arith), λ _ w. queued w)
  InPhase-new (compacting events last none) c = (λ h. absurd (omega arith), λ _ w. queued w)
  InPhase-new (closing true) c = tt
  InPhase-new (closing false) c = λ w. absurd (omega (arith, after c))
  InPhase-new (stopped true) c = tt
  InPhase-new (stopped false) c = λ w. absurd (omega (arith, after c))

  IsKept-new : p.number ≤ l.recorded → IsKept (with_log s l) cut' p
  IsKept-new h = record {
    numbered = h;
    covered = λ c. absurd (omega (arith, counted.compacted_le));
    safe = λ w. elim (queued w) [
      | inl q ↦ inr (inr (inl q))
      | inr d ↦ inr (inr (inr (inl (omega (arith, counted.compacted_le)))))
    ];
    in_phase = InPhase-new s.phase counted.counts;
  }

module _ (stamped now : ℕ) (e : Event) (s : State) (I : Inv s)
    (fits : s.log.recorded + 1 < 18446744073709551616) where
  abbrev l' : Log
  l' = (record_event stamped now e s.log).0

  abbrev p : Pending
  p = pending stamped e s.log

  number_lem : (p.number ≡ s.log.recorded + 1) × (l'.recorded ≡ s.log.recorded + 1)
  number_lem = (omega arith, (record_event-counters stamped now e s.log).0 ∙ omega arith)

  Inv-kept :
      (cut' : ℕ)
      → ((q : Pending) → q.number ≤ s.log.recorded → q.number ≤ cut' → q.number ≤ I.cut)
      → ((q : Pending) → In q s.log.writes → In q l'.writes)
      → (p.number ≤ cut' → In p l'.writes ⊎ (p.number ≤ l'.dropped_through))
      → (s.log.closed ≡ true → cut' < p.number)
      → s.log.dropped_through ≤ l'.dropped_through
      → IsCounted (with_log s l') cut'
      → Inv (with_log s l')
  Inv-kept cut' within grows queued after dropped counted = record {
    cut = cut';
    kept = drop n (I.kept ++ p ∷ []);
    kept_events =
        map-drop _ n (I.kept ++ p ∷ [])
        ∙ ap (drop n) (map-append _ I.kept (p ∷ []) ∙ ap (λ es. es ++ p.event ∷ []) I.kept_events)
        ∙ sym (record_event-events stamped now e s.log);
    kept_IsKept = λ q m. elim (In-snoc q p I.kept (In-drop n q _ m)) [
      | inl old ↦
          IsKept-grow s l' I.cut cut' dropped (omega (arith, number_lem)) q
            (within q (I.kept_IsKept q old).numbered) (grows q) (I.kept_IsKept q old)
      | inr new ↦ rw new (
          IsKept-new s l' I.cut cut' p I.counted (omega (arith, number_lem)) queued after
            (omega (arith, number_lem)))
    ];
    counted = counted;
  }
    where
      n : ℕ
      n = trim_count now (appended stamped now e s.log)

  closed_lem : l'.closed ≡ s.log.closed
  closed_lem = (record_event-counters stamped now e s.log).1

  after_close-Inv :
      (s.log.closed ≡ true)
      → (l'.writes ≡ s.log.writes)
      → (l'.dropped_through ≡ s.log.dropped_through)
      → (l'.recorded_after_close ≡ true)
      → Inv (with_log s l')
  after_close-Inv c w d r =
      Inv-kept I.cut (λ q _ m. m) (λ q m. rw w m)
        (λ h. absurd (omega (arith, number_lem, I.counted)))
        (λ _. omega (arith, number_lem, I.counted.cut_le)) (omega arith)
        (record {
          compacted_le = omega (arith, number_lem, I.counted.compacted_le);
          dropped_le = omega (arith, number_lem, I.counted.dropped_le);
          cut_le = omega (arith, number_lem, I.counted.cut_le);
          cut_open = λ o. cc closed_lem;
          cut_last = λ o. cc;
          counts =
              Counts-grow s l' I.cut I.cut (omega arith) (omega (arith, number_lem)) s.phase
                (λ _. (closed_lem ∙ c, omega arith)) I.counted.counts;
        })

  open-Inv :
      s.log.closed ≡ false
      → ((q : Pending) → In q s.log.writes → In q l'.writes)
      → In p l'.writes ⊎ (p.number ≤ l'.dropped_through)
      → s.log.dropped_through ≤ l'.dropped_through
      → l'.dropped_through ≤ s.log.recorded + 1
      → Inv (with_log s l')
  open-Inv o grows queued d d' =
      Inv-kept (s.log.recorded + 1) (λ q n _. omega (arith, I.counted.cut_open o)) grows
        (λ _. queued) (λ c. cc) d
        (record {
          compacted_le = omega (arith, number_lem, I.counted.compacted_le);
          dropped_le = omega (arith, number_lem);
          cut_le = omega (arith, number_lem);
          cut_open = λ _. sym number_lem.1;
          cut_last = λ _. sym number_lem.1;
          counts =
              Counts-grow s l' I.cut _ d (omega (arith, number_lem)) s.phase (λ c. cc)
                I.counted.counts;
        })

  -- Record keeps the invariant.
  pub record_event-Inv : Inv (with_log s l')
  record_event-Inv = elim (record_event-Queued stamped now e s.log) [
    | inl (c, w, d, r) ↦ after_close-Inv c w d r
    | inr (inl (o, w, d, r)) ↦
        open-Inv o (λ q m. rw w (In-append_left q _ _ m))
          (inl (rw w (In-append_right p s.log.writes _ (inl refl)))) (omega arith)
          (omega (arith, I.counted.dropped_le))
    | inr (inr (o, w, d, r)) ↦
        open-Inv o (λ q m. rw w m) (inr (omega arith))
          (omega (arith, I.counted.dropped_le, number_lem)) (omega (arith, number_lem))
  ]

-- Calls that change subscriptions alone.
pub subscriptions-Inv :
    (s : State) (subs : List Subscription)
    → Inv s
    → Inv (with_log s (record s.log { subscriptions = subs }))
subscriptions-Inv s subs I = record {
  cut = I.cut;
  kept = I.kept;
  kept_events = I.kept_events;
  kept_IsKept = λ p m.
      IsKept-grow s l I.cut I.cut (omega arith) (omega arith) p (λ h. h) (λ h. h)
        (I.kept_IsKept p m);
  counted = record {
    compacted_le = I.counted.compacted_le;
    dropped_le = I.counted.dropped_le;
    cut_le = I.counted.cut_le;
    cut_open = I.counted.cut_open;
    cut_last = I.counted.cut_last;
    counts =
        Counts-grow s l I.cut I.cut (omega arith) (omega arith) s.phase (λ c. (c, omega arith))
          I.counted.counts;
  };
}
  where
    l : Log
    l = record s.log { subscriptions = subs }

abbrev pub closing_log : Log → Log
closing_log l = record l {
  closed = true;
  subscriptions = map (end_subscription none) l.subscriptions;
}

pub close-cases :
    (l : Log)
    → ((l.closed ≡ true) × (close l ≡ l)) ⊎ ((l.closed ≡ false) × (close l ≡ closing_log l))
unfolding close
close-cases l = ground arith

closing_log-Inv : (s : State) → s.log.closed ≡ false → Inv s → Inv (with_log s (closing_log s.log))
closing_log-Inv s o I = record {
  cut = I.cut;
  kept = I.kept;
  kept_events = I.kept_events;
  kept_IsKept = λ p m.
      IsKept-grow s (closing_log s.log) I.cut I.cut (omega arith) (omega arith) p (λ h. h) (λ h. h)
        (I.kept_IsKept p m);
  counted = record {
    compacted_le = I.counted.compacted_le;
    dropped_le = I.counted.dropped_le;
    cut_le = I.counted.cut_le;
    cut_open = λ c. cc;
    cut_last = I.counted.cut_last;
    counts =
        Counts-grow s (closing_log s.log) I.cut I.cut (omega arith) (omega arith) s.phase (λ c. cc)
          I.counted.counts;
  };
}

-- Close keeps it.
pub close-Inv : (s : State) → Inv s → Inv (with_log s (close s.log))
close-Inv s I = elim (close-cases s.log) [
  | inl (c, e) ↦ rw e I
  | inr (o, e) ↦ rw e (closing_log-Inv s o I)
]
