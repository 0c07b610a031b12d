-- ===== src/Event/Tests.antt =====
-- Runs of the event log at concrete inputs, and the theorems applied to them.
use dicer.Prelude.{
  ◌≡◌, refl, true, false, some, List, [], ◌∷◌, ◌++◌, inl, inr, In, get_elem?, arith, filter,
}
use dicer.Event.{Event, Filter, matches}
use dicer.Event.Subscription.{Subscription}
use dicer.Event.Log.{record_event, stamp, trim, queue, subscribe, trim_count}
use dicer.Event.Writer.{
  State, Action, records, takes, writes_event, looks, checks, copies, compacts, closes, leaves,
  closes_file, wrote, partly, replaced, in_hand, waiting, stopped, torn, run, step, dispatch, load,
  with_log,
}
use dicer.Event.Open.{open_log, loaded_log}
use dicer.Event.Durable.{close_loses_nothing, caught_up_loses_nothing}
use dicer.Event.Delivery.{subscribe_no_gap, recorded_in}
use dicer.Event.Delivered.{received}
use dicer.Event.Trim.{record_event-Retains, Retains}

abbrev started : Event
started = record {
  time = 0;
  kind = "instance";
  id = "i1";
  name = "web";
  action = "started";
  message = "";
  attributes = [];
}

abbrev stopped_event : Event
stopped_event = record started { time = 9; action = "stopped" }

abbrev started_at_5 : Event
started_at_5 = record started { time = 5 }

-- A log over a file whose one line was torn by a crash.
abbrev opened : State
opened = record {
  log = record {
    max_count = 2;
    max_age = 0;
    buffer = 1;
    writes = [];
    events = [];
    recorded = 0;
    dropped = 0;
    dropped_through = 0;
    dropping = false;
    closed = false;
    recorded_after_close = false;
    subscriptions = [];
  };
  file = record { lines = []; open_ = true; written = 0; compacted_through = 0; retry_at = 0 };
  phase = waiting;
}

opened_lem : open_log 2 0 1 7 (torn ∷ []) replaced ≡ some opened
unfolding open_log loaded_log load trim trim_count
opened_lem = refl

-- The second event finds the channel full and is dropped; the write of the first is cut short;
-- the goroutine compacts, and Close ends it.
abbrev schedule : List Action
schedule =
    records 5 5 started
    ∷ records 9 9 stopped_event
    ∷ takes
    ∷ writes_event partly
    ∷ looks
    ∷ checks 10
    ∷ copies
    ∷ compacts replaced
    ∷ closes
    ∷ leaves
    ∷ closes_file false
    ∷ []

schedule_stops : (run opened schedule).phase ≡ stopped false
unfolding run step dispatch record_event queue trim stamp
schedule_stops = refl

close_loses_nothing_example : In stopped_event (load (run opened schedule).file.lines)
unfolding run step dispatch record_event queue trim stamp
close_loses_nothing_example =
    close_loses_nothing 2 0 1 7 (torn ∷ []) replaced opened opened_lem schedule (omega arith) refl
      refl stopped_event (inr (inl refl))

-- Written and not yet compacted.
abbrev written : List Action
written = records 5 5 started ∷ takes ∷ writes_event wrote ∷ looks ∷ checks 10 ∷ []

caught_up_loses_nothing_example : In started_at_5 (load (run opened written).file.lines)
unfolding in_hand run step dispatch record_event queue trim stamp
caught_up_loses_nothing_example =
    caught_up_loses_nothing 2 0 1 7 (torn ∷ []) replaced opened opened_lem written (omega arith)
      refl refl refl refl (omega arith) started_at_5 (inl refl)

abbrev started_events : Filter
started_events = record { kind = "instance"; id = ""; names = "web" ∷ []; since = 5 }

subscribe_no_gap_example :
    let (listed, l) = subscribe started_events 0 opened.log in
    (b : Subscription) × (left_out : List Event) × (get_elem?
        (run (with_log opened l) schedule).log.subscriptions
        0
      ≡ some b)
    × (listed ≡ filter (matches started_events) [])
    × (listed ++ (received b ++ left_out)
        ≡ filter (matches started_events) ([] ++ recorded_in schedule))
    × (b.registered ≡ true → left_out ≡ [])
subscribe_no_gap_example = subscribe_no_gap started_events opened schedule refl

record_event-Retains_example :
    Retains 100 2 10
      (started_at_5 ∷ stopped_event ∷ started_at_5 ∷ [])
      (record_event 5 100 started
        (record opened.log { events = started_at_5 ∷ stopped_event ∷ []; max_age = 10 })).0.events
unfolding stamp
record_event-Retains_example =
    record_event-Retains 5 100 started
      (record opened.log { events = started_at_5 ∷ stopped_event ∷ []; max_age = 10 })
