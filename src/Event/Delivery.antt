-- ===== src/Event/Delivery.antt =====
-- What a subscription's reader gets over a schedule.
use dicer.Prelude.{
  ℕ, zero, suc, ◌≡◌, refl, sym, ap, ◌∙◌, inl, inr, Bool, true, false, some, none, Option, List, [],
  ◌∷◌, ◌++◌, arith, length, get_elem?, get_elem?-append, get_elem?-map, get_elem?-last, filter,
  subst, filter-append, some_eq,
}
use dicer.Event.{Event, Filter, matches}
use dicer.Event.Subscription.{Subscription, new_subscription, end_subscription, offer}
use dicer.Event.Log.{Log, Pending, stamp, at_subscription, subscribe, record_event, close}
use dicer.Event.Writer.{
  State, EventsFile, check, leave_loop, waiting, writing, checking, looked, copying, compacting,
  closing, Phase, Action, records, subscribes, unsubscribes, reads, closes, takes, writes_event,
  looks, checks, copies, compacts, leaves, closes_file, with_log, dispatch, step, run, take_queued,
  after_compaction,
}
use dicer.Event.Records.{record_event-subscriptions}
use dicer.Event.Delivered.{
  received, Delivered, unchanged, Delivered-trans, end_subscription-Delivered, receive-Delivered,
  offer-Delivered,
}
use dicer.Event.LogSteps.{close-cases}

-- The events that a schedule records, as they are stamped.
abbrev pub recorded_in : List Action → List Event
recorded_in [] = []
recorded_in (records stamped now e ∷ acts) = stamp stamped e ∷ recorded_in acts
recorded_in (_ ∷ acts) = recorded_in acts

-- What one step does to the subscription with an index.
abbrev Follows : Subscription → List Subscription → ℕ → List Event → Type 0
Follows b subs i es =
    (b' : Subscription) × (get_elem? subs i ≡ some b')
    × Delivered b b' (filter (matches b.filter) es)

at_subscription-Follows :
    (f : Subscription → Subscription) (quiet : (b : Subscription) → Delivered b (f b) []) (j : ℕ)
    (subs : List Subscription) (i : ℕ) (b : Subscription)
    → get_elem? subs i ≡ some b
    → Follows b (at_subscription f j subs) i []
unfolding at_subscription
at_subscription-Follows f quiet j [] i b h = cc
at_subscription-Follows f quiet zero (s ∷ ss) zero b h = (f s, refl, rw (sym (some_eq h)) (quiet s))
at_subscription-Follows f quiet zero (s ∷ ss) (suc i) b h = (b, h, unchanged b)
at_subscription-Follows f quiet (suc j) (s ∷ ss) zero b h = (b, h, unchanged b)
at_subscription-Follows f quiet (suc j) (s ∷ ss) (suc i) b h =
    at_subscription-Follows f quiet j ss i b h

close-Follows :
    (l : Log) (i : ℕ) (b : Subscription)
    → get_elem? l.subscriptions i ≡ some b
    → Follows b (close l).subscriptions i []
close-Follows l i b h = elim (close-cases l) [
  | inl (c, e) ↦ rw e (b, h, unchanged b)
  | inr (o, e) ↦ rw e (
    end_subscription none b,
    get_elem?-map (end_subscription none) l.subscriptions i h,
    end_subscription-Delivered none b,
  )
]

records-Follows :
    (stamped now : ℕ) (e : Event) (l : Log) (i : ℕ) (b : Subscription)
    → get_elem? l.subscriptions i ≡ some b
    → Follows b (record_event stamped now e l).0.subscriptions i (stamp stamped e ∷ [])
records-Follows stamped now e l i b h = rw (record_event-subscriptions stamped now e l) (
  offer (stamp stamped e) b,
  get_elem?-map (offer (stamp stamped e)) l.subscriptions i h,
  offer-Delivered (stamp stamped e) b,
)

-- The steps of the goroutine leave the subscriptions alone.
take_queued-subscriptions :
    (ps : List Pending) (s : State) → (take_queued ps s).log.subscriptions ≡ s.log.subscriptions
unfolding take_queued
take_queued-subscriptions [] s = refl
take_queued-subscriptions (p ∷ ps) s = refl

after_compaction-subscriptions :
    (at : Option ℕ) (r : EventsFile × Bool) (s : State)
    → (after_compaction at r s).log.subscriptions ≡ s.log.subscriptions
unfolding after_compaction
after_compaction-subscriptions none (f, failed) s = refl
after_compaction-subscriptions (some now) (f, failed) s = refl

check-subscriptions :
    (now : ℕ) (b : Bool) (s : State) → (check now b s).log.subscriptions ≡ s.log.subscriptions
unfolding check
check-subscriptions now b s = ground arith

leave_loop-subscriptions : (s : State) → (leave_loop s).log.subscriptions ≡ s.log.subscriptions
unfolding leave_loop
leave_loop-subscriptions s = ground arith

step-Follows :
    (a : Action) (ph : Phase) (s : State) (i : ℕ) (b : Subscription)
    → get_elem? s.log.subscriptions i ≡ some b
    → Follows b (dispatch a ph s).log.subscriptions i (recorded_in (a ∷ []))
unfolding dispatch
step-Follows (records stamped now e) ph s i b h = records-Follows stamped now e s.log i b h
step-Follows (subscribes f limit) ph s i b h =
    (b, get_elem?-append s.log.subscriptions _ i h, unchanged b)
step-Follows (unsubscribes j) ph s i b h =
    at_subscription-Follows _ (end_subscription-Delivered none) j s.log.subscriptions i b h
step-Follows (reads j) ph s i b h =
    at_subscription-Follows _ receive-Delivered j s.log.subscriptions i b h
step-Follows closes ph s i b h = close-Follows s.log i b h
step-Follows takes waiting s i b h =
    rw (take_queued-subscriptions s.log.writes s) (b, h, unchanged b)
step-Follows takes _ s i b h = (b, h, unchanged b)
step-Follows (writes_event w) (writing p) s i b h = (b, h, unchanged b)
step-Follows (writes_event w) _ s i b h = (b, h, unchanged b)
step-Follows looks checking s i b h = (b, h, unchanged b)
step-Follows looks _ s i b h = (b, h, unchanged b)
step-Follows (checks now) (looked e) s i b h = rw (check-subscriptions now e s) (b, h, unchanged b)
step-Follows (checks now) _ s i b h = (b, h, unchanged b)
step-Follows copies (copying at) s i b h = (b, h, unchanged b)
step-Follows copies _ s i b h = (b, h, unchanged b)
step-Follows (compacts c) (compacting events last at) s i b h =
    rw (after_compaction-subscriptions at _ s) (b, h, unchanged b)
step-Follows (compacts c) _ s i b h = (b, h, unchanged b)
step-Follows leaves waiting s i b h = rw (leave_loop-subscriptions s) (b, h, unchanged b)
step-Follows leaves _ s i b h = (b, h, unchanged b)
step-Follows (closes_file fails) (closing failed) s i b h = (b, h, unchanged b)
step-Follows (closes_file fails) _ s i b h = (b, h, unchanged b)

recorded_in-cons :
    (a : Action) (acts : List Action)
    → recorded_in (a ∷ []) ++ recorded_in acts ≡ recorded_in (a ∷ acts)
recorded_in-cons (records stamped now e) acts = refl
recorded_in-cons _ acts = refl

-- Over any schedule the subscription with an index stays there, and its reader's events follow
-- those recorded that its filter picks.
pub run-Follows :
    (s : State) (acts : List Action) (i : ℕ) (b : Subscription)
    → get_elem? s.log.subscriptions i ≡ some b
    → Follows b (run s acts).log.subscriptions i (recorded_in acts)
unfolding run step
run-Follows s [] i b h = (b, h, unchanged b)
run-Follows s (a ∷ acts) i b h =
    let (c, there, first) = step-Follows a s.phase s i b h in
    let (d, at_end, rest) = run-Follows (dispatch a s.phase s) acts i c there in
    (
      d,
      at_end,
      subst (Delivered b d)
          (ap
              (λ (f : Filter).
                filter (matches b.filter) (recorded_in (a ∷ []))
                ++ filter (matches f) (recorded_in acts))
              first.same_filter
            ∙ sym (filter-append (matches b.filter) (recorded_in (a ∷ [])) (recorded_in acts))
            ∙ ap (filter (matches b.filter)) (recorded_in-cons a acts))
          (Delivered-trans b c d _ _ first rest),
    )

-- After Subscribe on an open log with no limit, and any schedule after it: the events listed are
-- those kept that the filter picks, and what the reader has received or waits for it goes on from
-- there through the events recorded since that the filter picks, with no gap and no overlap: all
-- of them while the subscription is registered, and a first part of them once it has ended.
pub subscribe_no_gap :
    (f : Filter) (s : State) (acts : List Action)
    → s.log.closed ≡ false
    → let (listed, l) = subscribe f 0 s.log in
      (b : Subscription) × (left_out : List Event) × (get_elem?
          (run (with_log s l) acts).log.subscriptions
          (length s.log.subscriptions)
        ≡ some b)
      × (listed ≡ filter (matches f) s.log.events)
      × (listed ++ (received b ++ left_out) ≡ filter (matches f) (s.log.events ++ recorded_in acts))
      × (b.registered ≡ true → left_out ≡ [])
unfolding subscribe
subscribe_no_gap f s acts o =
    let (b, at_end, d) =
      run-Follows (with_log s (subscribe f 0 s.log).1) acts (length s.log.subscriptions)
        (new_subscription f) (rw o (get_elem?-last s.log.subscriptions (new_subscription f))) in
    (
      b,
      d.left_out,
      at_end,
      refl,
      ap (◌++◌ (filter (matches f) s.log.events)) d.in_order
          ∙ sym (filter-append (matches f) s.log.events (recorded_in acts)),
      d.complete,
    )
