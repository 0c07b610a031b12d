-- ===== src/Event/History.antt =====
-- Every schedule keeps the invariant.
use dicer.Prelude.{
  ℕ, ◌+◌, ◌≤◌, ◌<◌, ◌≡◌, refl, ap, Bool, Option, some, none, List, [], ◌∷◌, arith, length,
}
use dicer.Event.Log.{Pending}
use dicer.Event.Writer.{
  Phase, waiting, writing, checking, looked, copying, compacting, closing, in_hand, State, Action,
  records, subscribes, unsubscribes, reads, closes, takes, writes_event, looks, checks, copies,
  compacts, leaves, closes_file, dispatch, step, run, EventsFile, take_queued, after_compaction,
}
use dicer.Event.Invariant.{Inv}
use dicer.Event.Records.{record_event-counters}
use dicer.Event.LogSteps.{record_event-Inv, subscriptions-Inv, close-Inv}
use dicer.Event.WriterSteps.{look-Inv, check-Inv, start_compacting-Inv, leave_loop-Inv}
use dicer.Event.Taking.{take_next-Inv, write_taken-Inv}
use dicer.Event.Compacting.{finish_compacting-Inv, close_file-Inv}

take_queued-recorded :
    (ps : List Pending) (s : State) → (take_queued ps s).log.recorded ≤ s.log.recorded + 1
unfolding take_queued
take_queued-recorded [] s = omega arith
take_queued-recorded (p ∷ ps) s = omega arith

after_compaction-recorded :
    (at : Option ℕ) (r : EventsFile × Bool) (s : State)
    → (after_compaction at r s).log.recorded ≤ s.log.recorded + 1
unfolding after_compaction
after_compaction-recorded none (f, failed) s = omega arith
after_compaction-recorded (some now) (f, failed) s = omega arith

dispatch-Inv :
    (a : Action) (ph : Phase) (s : State)
    → s.phase ≡ ph
    → s.log.recorded + 1 < 18446744073709551616
    → Inv s
    → Inv (dispatch a ph s)
unfolding dispatch in_hand
dispatch-Inv (records stamped now e) ph s q f I = record_event-Inv stamped now e s I f
dispatch-Inv (subscribes p limit) ph s q f I = subscriptions-Inv s _ I
dispatch-Inv (unsubscribes i) ph s q f I = subscriptions-Inv s _ I
dispatch-Inv (reads i) ph s q f I = subscriptions-Inv s _ I
dispatch-Inv closes ph s q f I = close-Inv s I
dispatch-Inv takes waiting s q f I = take_next-Inv s (ap in_hand q) I
dispatch-Inv takes _ s q f I = I
dispatch-Inv (writes_event w) (writing p) s q f I = write_taken-Inv p w s (ap in_hand q) I
dispatch-Inv (writes_event w) _ s q f I = I
dispatch-Inv looks checking s q f I = look-Inv s (ap in_hand q) I
dispatch-Inv looks _ s q f I = I
dispatch-Inv (checks now) (looked b) s q f I = check-Inv now b s (ap in_hand q) I
dispatch-Inv (checks now) _ s q f I = I
dispatch-Inv copies (copying at) s q f I = start_compacting-Inv at s q I
dispatch-Inv copies _ s q f I = I
dispatch-Inv (compacts c) (compacting events last at) s q f I =
    finish_compacting-Inv events last at c s q I
dispatch-Inv (compacts c) _ s q f I = I
dispatch-Inv leaves waiting s q f I = leave_loop-Inv s (ap in_hand q) I
dispatch-Inv leaves _ s q f I = I
dispatch-Inv (closes_file fails) (closing failed) s q f I = close_file-Inv failed fails s q I
dispatch-Inv (closes_file fails) _ s q f I = I

-- One step numbers one event at most.
dispatch-recorded :
    (a : Action) (ph : Phase) (s : State) → (dispatch a ph s).log.recorded ≤ s.log.recorded + 1
unfolding dispatch
dispatch-recorded (records stamped now e) ph s =
    omega (arith, (record_event-counters stamped now e s.log).0)
dispatch-recorded (subscribes p limit) ph s = omega arith
dispatch-recorded (unsubscribes i) ph s = omega arith
dispatch-recorded (reads i) ph s = omega arith
dispatch-recorded closes ph s = ground arith
dispatch-recorded takes waiting s = take_queued-recorded s.log.writes s
dispatch-recorded takes _ s = omega arith
dispatch-recorded (writes_event w) (writing p) s = omega arith
dispatch-recorded (writes_event w) _ s = omega arith
dispatch-recorded looks checking s = omega arith
dispatch-recorded looks _ s = omega arith
dispatch-recorded (checks now) (looked b) s = ground arith
dispatch-recorded (checks now) _ s = omega arith
dispatch-recorded copies (copying at) s = omega arith
dispatch-recorded copies _ s = omega arith
dispatch-recorded (compacts c) (compacting events last at) s = after_compaction-recorded at _ s
dispatch-recorded (compacts c) _ s = omega arith
dispatch-recorded leaves waiting s = ground arith
dispatch-recorded leaves _ s = omega arith
dispatch-recorded (closes_file fails) (closing failed) s = omega arith
dispatch-recorded (closes_file fails) _ s = omega arith

pub run-Inv :
    (s : State) (acts : List Action)
    → s.log.recorded + length acts < 18446744073709551616
    → Inv s
    → Inv (run s acts)
unfolding run step
run-Inv s [] f I = I
run-Inv s (a ∷ acts) f I =
    run-Inv (dispatch a s.phase s) acts (omega (arith, dispatch-recorded a s.phase s))
      (dispatch-Inv a s.phase s refl (omega arith) I)
