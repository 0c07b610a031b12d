-- ===== src/Event/Writer.antt =====
-- internal/event/log.go: the events file and the goroutine that writes it. The goroutine's
-- program counter is `Phase`; each action is one step of the goroutine or one critical section
-- of the log, so that a list of actions is a schedule. Results of the file system are part of
-- the actions. Times are as in Event.
use dicer.Prelude.{
  ℕ, ◌+◌, ◌/◌, Bool, true, false, not, ◌&&◌, ◌||◌, Option, none, some, List, [], ◌∷◌, ◌++◌, map,
  length, ltb, nat_Eq, if◌then◌else◌,
}
use dicer.Event.{Event, Filter}
use dicer.Event.Log.{
  Log, Pending, record_event, subscribe, unsubscribe, read_next, close, dropped_since,
}

-- A line of the file: an event, or what a failed write left of one.
pub data Line : Type 0 where
  whole : Event → Line
  torn : Line

pub record EventsFile : Type 0 where
  pub lines : List Line
  pub open_ : Bool  -- `file` is not nil
  pub written : ℕ
  pub compacted_through : ℕ
  pub retry_at : ℕ

-- Where the goroutine of `Log.write` stands: at the head of its loop; between the receive of an
-- event and its write; past the write; past the look whether the channel is empty; at the start of
-- `compact`, called by `tryCompact` at a time or at the end; between `keptEvents` and the rest of
-- `compact`; at the end, before it closes the file; and stopped, with whether `closeErr` is set.
pub data Phase : Type 0 where
  waiting : Phase
  writing : Pending → Phase
  checking : Phase
  looked : Bool → Phase
  copying : Option ℕ → Phase
  compacting : List Event → ℕ → Option ℕ → Phase
  closing : Bool → Phase
  stopped : Bool → Phase

pub record State : Type 0 where
  pub log : Log
  pub file : EventsFile
  pub phase : Phase

abbrev pub compaction_retry_delay : ℕ
compaction_retry_delay = 30000000000

-- What becomes of a write: the line is there; nothing is; part of the line is; or all of it but
-- the newline, which `load` reads. All but the first are errors.
pub data WriteResult : Type 0 where
  wrote refused partly unended : WriteResult

-- What becomes of a compaction: the file is replaced and opened; replaced but not opened; or
-- left as it was.
pub data CompactResult : Type 0 where
  replaced not_opened left_alone : CompactResult

unfoldable pub load : List Line → List Event
load [] = []
load (whole e ∷ ls) = e ∷ load ls
load (torn ∷ ls) = load ls

-- `writeEvent`, and `discard` where it fails.
unfoldable pub write_event : Event → WriteResult → EventsFile → EventsFile
write_event e wrote f = record f { lines = f.lines ++ whole e ∷ []; written = f.written + 1 }
write_event e refused f = record f { open_ = false }
write_event e partly f = record f { lines = f.lines ++ torn ∷ []; open_ = false }
write_event e unended f = record f { lines = f.lines ++ whole e ∷ []; open_ = false }

-- The rest of `Log.compact`, once the events are copied; true if it failed.
unfoldable pub compact : List Event → ℕ → CompactResult → EventsFile → EventsFile × Bool
compact events last replaced f = (
  record f {
    lines = map whole events;
    open_ = true;
    written = length events;
    compacted_through = last;
  },
  false,
)
compact events last not_opened f =
    (record f { lines = map whole events; open_ = false; compacted_through = last }, true)
compact events last left_alone f = (f, true)

-- An event is written unless a compaction did.
unfoldable pub take_file : Pending → WriteResult → EventsFile → EventsFile
unfolding write_event
take_file p w f = if ltb f.compacted_through p.number && f.open_ then write_event p.event w f else f

-- The goroutine takes the next event out of the channel.
unfoldable pub take_queued : List Pending → State → State
take_queued [] s = s
take_queued (p ∷ rest) s = record s { log = record s.log { writes = rest }; phase = writing p }

unfoldable pub take_next : State → State
unfolding take_queued
take_next s = take_queued s.log.writes s

-- The goroutine writes the event that it took.
unfoldable pub write_taken : Pending → WriteResult → State → State
unfolding take_file
write_taken p w s = record s { file = take_file p w s.file; phase = checking }

-- The event that the goroutine took and has not written, if any.
unfoldable pub in_hand : Phase → List Pending
in_hand (writing p) = p ∷ []
in_hand _ = []

unfoldable pub drained : List Pending → Bool
drained [] = true
drained (p ∷ ps) = false

-- `keptEvents`, the first half of `compact`.
unfoldable pub start_compacting : Option ℕ → State → State
start_compacting at s = record s { phase = compacting s.log.events s.log.recorded at }

-- The first look behind a write: whether the channel is empty.
unfoldable pub look : State → State
unfolding drained
look s = record s { phase = looked (drained s.log.writes) }

-- The checks that follow it, and the time in `tryCompact`.
unfoldable pub check : ℕ → Bool → State → State
unfolding dropped_since
check now emptied s =
    let caught_up = emptied && dropped_since s.file.compacted_through s.log in
    if not s.file.open_ || ltb (s.log.max_count + s.log.max_count / 4) s.file.written || caught_up
    then (if ltb now s.file.retry_at
        then record s { phase = waiting }
        else record s { phase = copying (some now) })
    else record s { phase = waiting }

-- What follows a compaction: `tryCompact` puts the next one off if it failed; at the end the
-- error is kept for `closeErr`.
unfoldable pub after_compaction : Option ℕ → EventsFile × Bool → State → State
after_compaction none (f, failed) s = record s { file = f; phase = closing failed }
after_compaction (some now) (f, failed) s = record s {
  file = if failed then record f { retry_at = now + compaction_retry_delay } else f;
  phase = waiting;
}

unfoldable pub finish_compacting : List Event → ℕ → Option ℕ → CompactResult → State → State
unfolding compact after_compaction
finish_compacting events last at c s = after_compaction at (compact events last c s.file) s

-- The loop is over once the channel is closed and empty; the file is compacted if it lacks any
-- event.
unfoldable pub leave_loop : State → State
unfolding drained dropped_since
leave_loop s =
    if s.log.closed && drained s.log.writes
    then (if not s.file.open_ || dropped_since s.file.compacted_through s.log
        then record s { phase = copying none }
        else record s { phase = closing false })
    else s

-- The file is closed, if it is open; `fails` is what Close answers.
unfoldable pub close_file : Bool → Bool → State → State
close_file failed fails s = record s {
  file = record s.file { open_ = false };
  phase = stopped (failed || s.file.open_ && fails);
}

pub data Action : Type 0 where
  records : ℕ → ℕ → Event → Action
  subscribes : Filter → ℕ → Action
  unsubscribes : ℕ → Action
  reads : ℕ → Action
  closes : Action
  takes : Action
  writes_event : WriteResult → Action
  looks : Action
  checks : ℕ → Action
  copies : Action
  compacts : CompactResult → Action
  leaves : Action
  closes_file : Bool → Action

abbrev pub with_log : State → Log → State
with_log s l = record s { log = l }

-- An action of the goroutine where it does not stand changes nothing.
unfoldable pub dispatch : Action → Phase → State → State
unfolding take_next write_taken look check start_compacting finish_compacting leave_loop close_file
    record_event subscribe unsubscribe read_next close
dispatch (records stamped now e) ph s = with_log s (record_event stamped now e s.log).0
dispatch (subscribes f limit) ph s = with_log s (subscribe f limit s.log).1
dispatch (unsubscribes i) ph s = with_log s (unsubscribe i s.log)
dispatch (reads i) ph s = with_log s (read_next i s.log)
dispatch closes ph s = with_log s (close s.log)
dispatch takes waiting s = take_next s
dispatch takes _ s = s
dispatch (writes_event w) (writing p) s = write_taken p w s
dispatch (writes_event w) _ s = s
dispatch looks checking s = look s
dispatch looks _ s = s
dispatch (checks now) (looked emptied) s = check now emptied s
dispatch (checks now) _ s = s
dispatch copies (copying at) s = start_compacting at s
dispatch copies _ s = s
dispatch (compacts c) (compacting events last at) s = finish_compacting events last at c s
dispatch (compacts c) _ s = s
dispatch leaves waiting s = leave_loop s
dispatch leaves _ s = s
dispatch (closes_file fails) (closing failed) s = close_file failed fails s
dispatch (closes_file fails) _ s = s

unfoldable pub step : State → Action → State
step s a = dispatch a s.phase s

unfoldable pub run : State → List Action → State
run s [] = s
run s (a ∷ acts) = run (step s a) acts
