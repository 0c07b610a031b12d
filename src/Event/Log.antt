-- ===== src/Event/Log.antt =====
-- internal/event/log.go: the part of a Log that its mutex guards, and the channel `writes`.
-- Each function is one critical section of `mu`. Clock readings are arguments. `recorded` and
-- `dropped` are uint64.
use dicer.Prelude.{
  ℕ, zero, suc, ◌+◌, ◌-◌, ◌%◌, Bool, true, false, none, List, [], ◌∷◌, ◌++◌, map, length, drop,
  filter, ltb, ◌==◌, nat_Eq, if◌then◌else◌,
}
use dicer.Event.{Event, Filter, matches}
use dicer.Event.Subscription.{Subscription, new_subscription, end_subscription, offer, receive}

pub record Pending : Type 0 where
  pub number : ℕ
  pub event : Event

pub record Log : Type 0 where
  pub max_count : ℕ
  pub max_age : ℕ
  pub buffer : ℕ  -- the capacity of the channel
  pub writes : List Pending  -- the channel, oldest first
  pub events : List Event  -- oldest first
  pub recorded : ℕ
  pub dropped : ℕ
  pub dropped_through : ℕ
  pub dropping : Bool
  pub closed : Bool
  pub recorded_after_close : Bool
  pub subscriptions : List Subscription

abbrev pub default_max_count : ℕ
default_max_count = 10000

abbrev pub u64 : ℕ → ℕ
u64 n = n % 18446744073709551616

pub data QueueWarning : Type 0 where
  warning_none warning_dropping warning_closed : QueueWarning

-- How many of the first events were stamped before `now - max_age`.
unfoldable pub aged : ℕ → ℕ → List Event → ℕ
aged now max_age [] = 0
aged now max_age (e ∷ es) = if ltb (e.time + max_age) now then suc (aged now max_age es) else 0

-- `drop` of `Log.trim`.
unfoldable pub trim_count : ℕ → Log → ℕ
unfolding aged
trim_count now l =
    let over : ℕ = length l.events - l.max_count in
    if ltb 0 l.max_age then over + aged now l.max_age (drop over l.events) else over

unfoldable pub trim : ℕ → Log → Log
unfolding trim_count
trim now l =
    let n = trim_count now l in if ltb 0 n then record l { events = drop n l.events } else l

-- `Log.queue`. The channel takes the event if it has room, the default case drops it.
unfoldable pub queue : Pending → Log → Log × QueueWarning
queue p l =
    if l.closed
    then (if l.recorded_after_close
        then (l, warning_none)
        else (record l { recorded_after_close = true }, warning_closed))
    else (if ltb (length l.writes) l.buffer
        then (record l { writes = l.writes ++ p ∷ []; dropping = false }, warning_none)
        else (if l.dropping
            then (
              record l { dropped = u64 (l.dropped + 1); dropped_through = p.number },
              warning_none,
            )
            else (
              record l {
                dropped = u64 (l.dropped + 1);
                dropped_through = p.number;
                dropping = true;
              },
              warning_dropping,
            )))

unfoldable pub stamp : ℕ → Event → Event
stamp now e = if e.time == 0 then record e { time = now } else e

-- `Log.Record`: `stamped` is the clock when it stamps the event, `now` when it trims.
unfoldable pub record_event : ℕ → ℕ → Event → Log → Log × QueueWarning
record_event stamped now e l =
    let e' = stamp stamped e in
    let kept = trim now (record l { events = l.events ++ e' ∷ [] }) in
    let n = u64 (kept.recorded + 1) in
    let (queued, warning) =
      queue (record { number = n; event = e' }) (record kept { recorded = n }) in
    (record queued { subscriptions = map (offer e') queued.subscriptions }, warning)

-- `Log.list`: the last `limit` of the events that the filter picks, or all of them for 0.
unfoldable pub list : Filter → ℕ → Log → List Event
unfolding matches
list f limit l =
    let out = filter (matches f) l.events in
    if ltb 0 limit
    then (if ltb limit (length out) then drop (length out - limit) out else out)
    else out

-- `Log.Subscribe`: the new subscription stands last.
unfoldable pub subscribe : Filter → ℕ → Log → List Event × Log
unfolding list new_subscription end_subscription
subscribe f limit l =
    let made = new_subscription f in
    let sub = if l.closed then end_subscription none made else made in
    (list f limit l, record l { subscriptions = l.subscriptions ++ sub ∷ [] })

-- A change of the subscription made as number `i`, from 0.
unfoldable pub at_subscription :
    (Subscription → Subscription) → ℕ → List Subscription → List Subscription
at_subscription f i [] = []
at_subscription f zero (s ∷ ss) = f s ∷ ss
at_subscription f (suc i) (s ∷ ss) = s ∷ at_subscription f i ss

-- `Subscription.Close`.
unfoldable pub unsubscribe : ℕ → Log → Log
unfolding at_subscription end_subscription
unsubscribe i l = record l {
  subscriptions = at_subscription (end_subscription none) i l.subscriptions;
}

-- A reader takes its next event.
unfoldable pub read_next : ℕ → Log → Log
unfolding at_subscription receive
read_next i l = record l { subscriptions = at_subscription receive i l.subscriptions }

-- `Log.Close`, up to its wait for the writer.
unfoldable pub close : Log → Log
unfolding end_subscription
close l =
    if l.closed
    then l
    else record l { closed = true; subscriptions = map (end_subscription none) l.subscriptions }

-- `Log.droppedSince`.
unfoldable pub dropped_since : ℕ → Log → Bool
dropped_since number l = ltb number l.dropped_through
