-- ===== src/Event/Records.antt =====
-- What Record does to the log, case by case.
use dicer.Prelude.{
  ℕ, ◌+◌, ◌≡◌, ◌⊎◌, inl, inr, true, false, [], ◌∷◌, ◌++◌, map, arith, drop, ap, ltb, Bool-cases,
}
use dicer.Event.{Event}
use dicer.Event.Log.{Log, Pending, u64, record_event, stamp, trim, trim_count, queue}
use dicer.Event.Subscription.{offer}

-- The number and the event that one call of Record queues.
abbrev pub pending : ℕ → Event → Log → Pending
pending stamped e l = record { number = u64 (l.recorded + 1); event = stamp stamped e }

-- The three ways of `Log.queue`: after Close; into the channel; and past it.
abbrev pub Queued : Pending → Log → Log → Type 0
Queued p l l' =
    ((l.closed ≡ true)
      × (l'.writes ≡ l.writes)
      × (l'.dropped_through ≡ l.dropped_through)
      × (l'.recorded_after_close ≡ true))
    ⊎ ((l.closed ≡ false)
        × (l'.writes ≡ l.writes ++ p ∷ [])
        × (l'.dropped_through ≡ l.dropped_through)
        × (l'.recorded_after_close ≡ l.recorded_after_close))
    ⊎ ((l.closed ≡ false)
        × (l'.writes ≡ l.writes)
        × (l'.dropped_through ≡ p.number)
        × (l'.recorded_after_close ≡ l.recorded_after_close))

-- What `Log.queue` leaves alone.
abbrev Same : Log → Log → Type 0
Same l l' =
    (l'.events ≡ l.events)
    × (l'.recorded ≡ l.recorded)
    × (l'.closed ≡ l.closed)
    × (l'.max_count ≡ l.max_count)
    × (l'.subscriptions ≡ l.subscriptions)

queue-Queued : (p : Pending) (l : Log) → Queued p l (queue p l).0
unfolding queue
queue-Queued p l = ground arith

queue-Same : (p : Pending) (l : Log) → Same l (queue p l).0
unfolding queue
queue-Same p l = ground arith

pub trim_lem :
    (now : ℕ) (l : Log) → trim now l ≡ record l { events = drop (trim_count now l) l.events }
unfolding trim
trim_lem now l = elim (Bool-cases (ltb 0 (trim_count now l))) [
  | inl some_ ↦ rw some_
  | inr none_ ↦ let e : trim_count now l ≡ 0 = ground arith in rw e
]

module _ (stamped now : ℕ) (e : Event) (l : Log) where
  abbrev pub appended : Log
  appended = record l { events = l.events ++ stamp stamped e ∷ [] }

  pub record_event-events :
      (record_event stamped now e l).0.events
      ≡ drop (trim_count now appended) (l.events ++ stamp stamped e ∷ [])
  unfolding record_event
  record_event-events = rw (trim_lem now appended) (queue-Same _ _).0

  pub record_event-counters :
      ((record_event stamped now e l).0.recorded ≡ u64 (l.recorded + 1))
      × ((record_event stamped now e l).0.closed ≡ l.closed)
  unfolding record_event
  record_event-counters = rw (trim_lem now appended) ((queue-Same _ _).1, (queue-Same _ _).2)

  pub record_event-Queued : Queued (pending stamped e l) l (record_event stamped now e l).0
  unfolding record_event
  record_event-Queued = rw (trim_lem now appended) (queue-Queued _ _)

  pub record_event-subscriptions :
      (record_event stamped now e l).0.subscriptions ≡ map (offer (stamp stamped e)) l.subscriptions
  unfolding record_event
  record_event-subscriptions =
      rw (trim_lem now appended) (ap (map (offer (stamp stamped e))) (queue-Same _ _).4)
