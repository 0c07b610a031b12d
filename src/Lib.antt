-- ===== src/Lib.antt =====
-- Dicer runs micro-VM instances on one host. A daemon (internal/daemon) serves an API
-- (internal/grpcserver) over managers: of instances (internal/instance), of networks and their
-- addresses (internal/network), of images, kernels and volumes. What happens to them is recorded in
-- an event log (internal/event), which clients list and follow.
--
-- The parts modelled, each in the files below the module of its name:
--
-- Event: internal/event.
--   Event.antt              event.go: Event, Filter, Filter.Matches.
--   Event/Subscription.antt subscription.go: a Subscription with its channel; send, end.
--   Event/Log.antt          log.go: the Log under its mutex; Record (record_event), trim, queue,
--                           list, Subscribe, Subscription.Close (unsubscribe), Close.
--   Event/Writer.antt       log.go: eventsFile, the writer goroutine `write` with its compactions
--                           as a phase and the actions of a schedule.
--   Event/Open.antt         log.go: `open`.
--   The other files hold the proofs: Trim (what is kept in memory), Invariant, Grow, Records,
--   LogSteps, Disk, WriterSteps, Taking, Compacting, Durable (the file), Delivered, Delivery, History
--   (subscribers); Tests has runs.
--   A schedule is a list of actions: the calls of the log, each atomic under `mu`; the rounds of the
--   goroutine; and for each of its writes and compactions what the file system makes of it. The
--   goroutine's round is cut into steps that each touch the channel, the mutex or the file once: the
--   receive of an event, its write, the look at the channel's length, the look at what was dropped,
--   the copy of the events kept, and the rewrite of the file. At its end, once the channel is closed
--   and empty, the end of the loop and the look at what was dropped are one step: nothing is dropped
--   after Close.
--   Times are numbers; a stamp is given with each Record.
--
-- Network: the addresses of internal/network.
--   Network.antt            network.go: Network, Allocation, the errors.
--   Network/Address.antt    address.go: incrementIP, freeIP, randomMAC; network.go: Assignable.
--   Network/Table.antt      manager.go: allocationTable, newAllocationTable.
--   Network/Manager.antt    manager.go: allocationTableOf, saveAllocationTable, Allocation,
--                           InstanceAt, Allocate, Release, Forget, Reconcile, NewManager.
--   Proofs: Free (freeIP and Assignable), Lookup and Finding (the indexes), Tables (what is true of
--   every table), Calls, Answers, Allocates, Room, Releases, Reconcile, Reconciled, Restart, Runs.
--   An IPv4 address is a number below 2 ^ 32; `incrementIP` wraps around there. The answers of
--   `rand.IntN` are a function of the attempt, of which the theorems ask the documented range; the
--   bytes of crypto/rand and whether a file can be written are arguments of each call. A call holds
--   `writeMu` from its start to its end, so that a run is a list of calls. The loops of freeIP are
--   recursions on the number of attempts left (5, then the number of host addresses).
--   A network's definition does not change while it has allocations.
--
-- Instance: internal/instance and network/port_mapping.go (Network/Port.antt).
--   Instance.antt           instance.go and resources.go: State, the allowed transitions, Resources.
--   Instance/Restart.antt   restart.go: decideRestart, backoff. Times are in nanoseconds.
--   Instance/Host.antt      instance.go: Spec, Status, the predicates of State; instance_status.go:
--                           readStatus, statusOf.
--   Instance/Admission.antt admission.go: admit, reserve, checkRoom, checkPorts, checkVolumes;
--                           state.go: transitionWith.
--   Instance/Steps.antt     the operations as steps: start.go, stop.go, pause.go, standby.go,
--                           update.go, supervise.go (ended), state.go (fail), recordRunning.
--   Proofs: Backoff; Cells, Changes and Shrinking (one instance); Holdings (sums); Claims (pairs);
--   Safe, Admitted, Starts, Edits, Runs (the host).
--   A step is one change of one instance's status or directory, or one admission, each of which the
--   code makes under `admissionMu` or the instance's lock; steps of different instances follow each
--   other in any order. A start holds its instance's lock from its admission until it records the
--   instance as running or failed, which the model records. Capacity.Allocatable computes with
--   floats and is a parameter. Sizes are not negative and their sums do not overflow. Writing and
--   removing files of an instance succeeds, and the guest that standby froze is gone once resumed;
--   but a standby may be left half done (half_freezes), with the frozen guest in place and the runtime
--   directory there: the daemon crashes between the two, or the removal fails. The removal of a
--   frozen guest by a start or a stop is also a step of its own (discards).
--
-- Store: internal/filestore.
--   Store.antt              store.go: the maps of a kind, and its files; what is read of a kind.
--   Store/Definitions.antt  instances.go, snapshots.go, networks.go, volumes.go, kernels.go, tokens.go:
--                           lookups, creation, update, rename, deletion and loading, of one kind. The
--                           code repeats them for each kind; here a Kind says what the name and the
--                           ID of a definition are.
--   Store/Kinds.antt        the store of every kind: checkReferences, the guards of deletions,
--                           RecordTokenUse, the calls as data, New.
--   Proofs: Sound (the two maps of a kind), Calls, Kept, Renamed, Found (each call), Files, Mirrored,
--   Restart (the files), Runs, References, Referenced, Integrity; Tests has runs.
--   A call holds `writeMu` from its start to its end. What the file system makes of a call is an
--   argument: all, nothing, or a part where a directory is removed or moved. A file is what is read
--   of it. The order of a listing is left open.
--
-- Token: internal/token, and the calls about tokens in internal/grpcserver.
--   Token.antt              token.go: Token.
--   Token/Scope.antt        token.go: scopes, Allows, AllowsAll, Validate.
--   Token/Secret.antt       token.go: ValidateSecret, isFingerprint, isSHA256Hex.
--   Token/Value.antt        token.go: Format, Parse.
--   Token/Access.antt       authentication.go, authorization.go: presentedToken, recordUse, authorize.
--   Token/Manager.antt      manager.go: Create, Rotate, newSecret.
--   Token/Handler.antt      token_handler.go, and a call from its header on (serve).
--   Proofs: RoundTrip, Grants, Issues, Contained, Attack, Escalation, Refusals; Tests has runs.
--   SHA-256 is a function that the definitions are given, of which nothing is assumed. The secret and
--   the ID that a call makes at random are arguments, which the theorems ask to be in no use. Calls
--   over TCP are one after the other.
--
-- Naming: internal/naming. Naming.antt has Validate and ValidateHostname, Naming/Generate.antt
-- Generate and GenerateFromImage; Safety and Generated have the proofs. The expression
-- `namePattern` is written out as the parts between dots.
--
-- Compose: internal/compose/interpolate.go. Compose/Interpolate.antt has interpolate, closingBrace
-- and expand; Compose/Template.antt the templates of the comment of `interpolate`, apart from the
-- code. Proofs: Fuel, Ends, Braces, Bodies, Meaning; Tests has runs. The recursion of interpolate and expand
-- is on fuel, the length of the text and one more. An unset variable has no value.
--
-- Health: internal/health. Health/Check.antt has health.go's Check, Validate, WithDefaults and
-- EffectiveCheck; Health/Monitor.antt Health, After and monitor.go. Proofs: Runnable, Verdict; Tests
-- has runs. Times are numbers, in nanoseconds; a difference of two times does not saturate.
--
-- Image: internal/image. Image/Index.antt has index.go; Image/Removal.antt prune.go's Prune and
-- remove; Image/Garbage.antt gc.go, from CollectGarbage on. What a Manager asks of the disk and of
-- the registry's cache is a record of operations, a Host, which the definitions are given and of
-- which nothing is assumed. A call runs from its start to its end. Sizes are numbers below the
-- bounds of Go's int64. Proofs: Sorting, Removals, Drops, Loop, Marks, Spares, Over, Justified,
-- Runs, Lasts; Tests has runs.
--
-- Text holds what is used of Go's strings package; a text that the program walks is the list of its
-- code points, so that it is valid UTF-8. Maps holds Go's maps as lists of entries, Errors the
-- classes of internal/errdefs. Prelude holds the shared names, tests into Bool and lemmas on lists.
--
-- Not modelled: logging, metrics, the encodings as JSON and YAML, the rest of the instance
-- manager (launching VMs, disks, recovery, waits, snapshots), health probes, the rest of compose,
-- image pulls, DNS, archives, and all that only calls the host: hostnet, hypervisor, guest, process,
-- virtiofs. The client, the API's conversions and the command line have no state of their own.
pub mod Prelude
pub mod Text
pub mod Errors
pub mod Naming
pub mod Maps
pub mod Event
pub mod Network
pub mod Instance
pub mod Store
pub mod Token
pub mod Compose
pub mod Health
pub mod Image
