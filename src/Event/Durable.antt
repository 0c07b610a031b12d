-- ===== src/Event/Durable.antt =====
-- No schedule loses an event that was recorded before Close.
use dicer.Prelude.{
  ℕ, ◌≤◌, ◌<◌, ◌≡◌, refl, sym, ap, subst, inl, inr, true, false, some, List, [], ◌∷◌, map, arith,
  In, In-map_inv, length, drop, some_eq,
}
use dicer.Event.{Event}
use dicer.Event.Log.{Log, Pending, trim, trim_count}
use dicer.Event.Writer.{
  Line, CompactResult, replaced, not_opened, left_alone, waiting, stopped, State, load, Action, run,
  EventsFile, in_hand,
}
use dicer.Event.Open.{open_log, loaded_log}
use dicer.Event.Invariant.{InPhase, IsKept, Inv}
use dicer.Event.Records.{trim_lem}
use dicer.Event.History.{run-Inv}
use dicer.Event.WriterSteps.{leaves-OnDisk, IsKept-Safe}
use dicer.Event.Disk.{load-map-whole}

-- An event that `Open` loads counts as number 0.
abbrev loaded : Event → Pending
loaded e = record { number = 0; event = e }

map_events : (es : List Event) → map (λ p. p.event) (map loaded es) ≡ es
map_events [] = refl
map_events (e ∷ es) = ap (◌∷◌ e) (map_events es)

fresh-Inv :
    (l : Log) (g : EventsFile)
    → l.recorded ≡ 0
    → l.dropped_through ≡ 0
    → l.closed ≡ false
    → g.compacted_through ≡ 0
    → load g.lines ≡ l.events
    → Inv (record { log = l; file = g; phase = waiting })
fresh-Inv l g r d c t loads = record {
  cut = 0;
  kept = map loaded l.events;
  kept_events = map_events l.events;
  kept_IsKept = λ p m.
      let from = In-map_inv _ p l.events m in
      let on : In p.event (load g.lines) = rw (loads, from.2) from.1 in
      record {
        numbered = rw from.2 (omega arith);
        covered = λ _. on;
        safe = λ _. inr (inl on);
        in_phase = tt;
      };
  counted = record {
    compacted_le = omega arith;
    dropped_le = omega arith;
    cut_le = omega arith;
    cut_open = λ _. sym r;
    cut_last = λ _. sym r;
    counts = tt;
  };
}

open_log-Inv :
    (max_count max_age buffer now : ℕ) (lines : List Line) (c : CompactResult) (s : State)
    → open_log max_count max_age buffer now lines c ≡ some s
    → Inv s × (s.log.recorded ≡ 0)
unfolding open_log loaded_log
open_log-Inv max_count max_age buffer now lines replaced s h =
    subst (λ t. Inv t × (t.log.recorded ≡ 0)) (some_eq h)
      (
        fresh-Inv (trim now l) _ (ap (λ m. m.recorded) e) (ap (λ m. m.dropped_through) e)
            (ap (λ m. m.closed) e) (ap (λ m. m.recorded) e) (load-map-whole _),
        ap (λ m. m.recorded) e,
      )
  where
    l : Log
    l = loaded_log max_count max_age buffer lines

    e : trim now l ≡ record l { events = drop (trim_count now l) l.events }
    e = trim_lem now l
open_log-Inv max_count max_age buffer now lines not_opened s h = cc
open_log-Inv max_count max_age buffer now lines left_alone s h = cc

-- The event of a member of a kept list that the invariant pairs with numbers.
kept-OnDisk :
    (s : State) (I : Inv s) (e : Event)
    → ((p : Pending)
        → IsKept s I.cut p
        → p.number ≤ s.log.recorded
        → In p.event (load s.file.lines))
    → In e s.log.events
    → In e (load s.file.lines)
kept-OnDisk s I e h m =
    let from = In-map_inv (λ p. p.event) e I.kept (subst (In e) (sym I.kept_events) m) in
    let k = I.kept_IsKept from.0 from.1 in
    subst (λ d. In d (load s.file.lines)) (sym from.2) (h from.0 k k.numbered)

stopped-OnDisk :
    (s : State) (I : Inv s) (e : Event)
    → s.phase ≡ stopped false
    → s.log.recorded_after_close ≡ false
    → In e s.log.events
    → In e (load s.file.lines)
stopped-OnDisk s I e ph r =
    kept-OnDisk s I e λ p k n.
      subst (λ ph. InPhase ph s I.cut p) ph k.in_phase (omega (arith, I.counted.cut_last r))

caught_up-OnDisk :
    (s : State) (I : Inv s) (e : Event)
    → s.log.closed ≡ false
    → s.log.writes ≡ []
    → in_hand s.phase ≡ []
    → s.file.open_ ≡ true
    → s.log.dropped_through ≤ s.file.compacted_through
    → In e s.log.events
    → In e (load s.file.lines)
caught_up-OnDisk s I e c w idle o d = kept-OnDisk s I e λ p k n.
    leaves-OnDisk s p w o d (IsKept-Safe s I.cut p idle k (omega (arith, I.counted.cut_open c)))

module _ (max_count max_age buffer now : ℕ) (lines : List Line) (c : CompactResult) (s : State)
    (opened : open_log max_count max_age buffer now lines c ≡ some s) (acts : List Action)
    (few : length acts < 18446744073709551616) where
  history-Inv : Inv (run s acts)
  history-Inv =
      let i = open_log-Inv max_count max_age buffer now lines c s opened in
      run-Inv s acts (omega (arith, i.1)) i.0

  -- After `Open`, whatever fewer than 2^64 steps the callers, the goroutine and the file system
  -- take, once the goroutine has stopped and Close answers no error, every event that the log
  -- keeps in memory is read back from the file, if none was recorded after Close.
  pub close_loses_nothing :
      (run s acts).phase ≡ stopped false
      → (run s acts).log.recorded_after_close ≡ false
      → (e : Event) → In e (run s acts).log.events
      → In e (load (run s acts).file.lines)
  close_loses_nothing ph r e = stopped-OnDisk (run s acts) history-Inv e ph r

  -- After `Open` and fewer than 2^64 steps, while the log is open: when the channel is empty, the
  -- goroutine has no event that it took and did not write yet, the file is open and no event was
  -- dropped since the last compaction, every event that the log keeps is read back from the file,
  -- so that a crash of the daemon at that moment loses none.
  pub caught_up_loses_nothing :
      (run s acts).log.closed ≡ false
      → (run s acts).log.writes ≡ []
      → in_hand (run s acts).phase ≡ []
      → (run s acts).file.open_ ≡ true
      → (run s acts).log.dropped_through ≤ (run s acts).file.compacted_through
      → (e : Event) → In e (run s acts).log.events
      → In e (load (run s acts).file.lines)
  caught_up_loses_nothing o w idle f d e = caught_up-OnDisk (run s acts) history-Inv e o w idle f d
