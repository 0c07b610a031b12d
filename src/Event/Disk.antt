-- ===== src/Event/Disk.antt =====
-- What a write of the goroutine does to the events that the file holds.
use dicer.Prelude.{
  ◌≤◌, ◌≡◌, refl, ap, ◌⊎◌, inl, inr, false, List, [], ◌∷◌, ◌++◌, map, arith, In, In-append_left,
  In-append_right, Bool-cases, ltb, ◌&&◌,
}
use dicer.Event.{Event}
use dicer.Event.Log.{Pending}
use dicer.Event.Writer.{
  Line, whole, torn, EventsFile, WriteResult, wrote, refused, partly, unended, load, write_event,
  take_file,
}

load-append : (xs ys : List Line) → load (xs ++ ys) ≡ load xs ++ load ys
unfolding load
load-append [] ys = refl
load-append (whole e ∷ xs) ys = ap (◌∷◌ e) (load-append xs ys)
load-append (torn ∷ xs) ys = load-append xs ys

pub load-map-whole : (es : List Event) → load (map whole es) ≡ es
unfolding load
load-map-whole [] = refl
load-map-whole (e ∷ es) = ap (◌∷◌ e) (load-map-whole es)

load-snoc : (e : Event) (xs : List Line) → In e (load (xs ++ whole e ∷ []))
load-snoc e xs =
    rw (load-append xs (whole e ∷ [])) (In-append_right e (load xs) _ (unfold load in inl refl))

load-grows : (e : Event) (xs ys : List Line) → In e (load xs) → In e (load (xs ++ ys))
load-grows e xs ys m = rw (load-append xs ys) (In-append_left e (load xs) (load ys) m)

-- A write loses nothing that the file holds, and either writes the event or shuts the file.
write_event-ct :
    (e : Event) (w : WriteResult) (f : EventsFile)
    → (write_event e w f).compacted_through ≡ f.compacted_through
unfolding write_event
write_event-ct e wrote f = refl
write_event-ct e _ f = refl

write_event-grows :
    (e d : Event) (w : WriteResult) (f : EventsFile)
    → In d (load f.lines)
    → In d (load (write_event e w f).lines)
unfolding write_event
write_event-grows e d wrote f m = load-grows d f.lines _ m
write_event-grows e d refused f m = m
write_event-grows e d partly f m = load-grows d f.lines _ m
write_event-grows e d unended f m = load-grows d f.lines _ m

write_event-done :
    (e : Event) (w : WriteResult) (f : EventsFile)
    → In e (load (write_event e w f).lines) ⊎ ((write_event e w f).open_ ≡ false)
unfolding write_event
write_event-done e wrote f = inl (load-snoc e f.lines)
write_event-done e refused f = inr refl
write_event-done e partly f = inr refl
write_event-done e unended f = inr refl

-- What becomes of the file when the goroutine takes `p`.
pub record Takes (p : Pending) (f g : EventsFile) : Type 0 where
  pub compacted : g.compacted_through ≡ f.compacted_through
  pub grows : (d : Event) → In d (load f.lines) → In d (load g.lines)
  pub shut : f.open_ ≡ false → g.open_ ≡ false
  pub done : In p.event (load g.lines) ⊎ (g.open_ ≡ false) ⊎ (p.number ≤ f.compacted_through)

pub take_file-Takes : (p : Pending) (w : WriteResult) (f : EventsFile) → Takes p f (take_file p w f)
unfolding take_file
take_file-Takes p w f = elim (Bool-cases (ltb f.compacted_through p.number && f.open_)) [
  | inl writes ↦ rw writes (record {
    compacted = write_event-ct p.event w f;
    grows = λ d. write_event-grows p.event d w f;
    shut = λ o. ground arith;
    done = elim (write_event-done p.event w f) [ inl m ↦ inl m | inr o ↦ inr (inl o) ];
  })
  | inr skips ↦
      rw skips (record { compacted = refl; grows = λ d m. m; shut = λ o. o; done = ground arith })
]
