-- ===== src/Instance/Edits.antt =====
-- Reservations, and changes of the definitions, keep a host safe.
use dicer.Prelude.{
  ◌≡◌, ◌≢◌, refl, sym, ap, ◌∙◌, subst, inl, inr, String, Bool, true, not, Option, none, some, List,
  [], ◌∷◌, ◌==◌, string_Eq, arith, Bool-cases,
}
use dicer.Network.Lookup.{ne_of_beq}
use dicer.Instance.{Resources, running}
use dicer.Instance.Host.{
  Spec, Cell, Host, status_of, read_status, or_standby, held_resources, holds_resources, is_active,
  set, stored,
}
use dicer.Instance.Holdings.{vcpus_of, memory_of}
use dicer.Instance.Admission.{
  Outcome, done, has_room, transition_with, may_become, put_cell, reserve,
}
use dicer.Instance.Cells.{claims, Shrinks, refl-HoldsLess, unbooted, plain}
use dicer.Instance.Changes.{unfrozen, is_not, claimed_by_frozen}
use dicer.Instance.Safe.{Fits, AreExclusive, IsSafe, set_self, set-elim, shrunk-IsSafe}
use dicer.Instance.Admitted.{granted-IsSafe}
use dicer.Instance.Holdings.{sum-filter}
use dicer.Instance.Cells.{none-HoldsLess}
use dicer.Instance.Steps.{empty_cell}
use dicer.Instance.Starts.{le_need}
use dicer.Prelude.{filter, filter-In, All, Distinct-filter}

-- `reserve` for a running instance.
pub reserve-IsSafe :
    (capacity : Option Resources) (id : String) (need : Resources) (h : Host)
    → IsSafe capacity h
    → (status_of (h.cells id)).state ≡ running
    → IsSafe capacity (reserve capacity id need h).0
unfolding reserve put_cell transition_with may_become status_of read_status claimed_by_frozen claims
    holds_resources is_active
reserve-IsSafe capacity id need h s e =
    elim (Bool-cases (has_room capacity h.instances id need h.cells)) [
      | inr no_ ↦ rw (reserve, no_) s
      | inl room ↦
          let c : Cell = record (h.cells id) {
            status = some (record { state = running; held = need });
          } in
          let k = s.kept id in
          let f = unfrozen (h.cells id) k (is_not e refl refl) (is_not e refl refl) in
          let b = unbooted (h.cells id) k (is_not e refl refl) in
          let (v, m) = le_need c need refl in
          let may : may_become (status_of (h.cells id)).state running ≡ true =
            ap (λ x. may_become x running) e in
          let out : reserve capacity id need h ≡ (record h { cells = set id c h.cells }, done) =
            rw (reserve, room, may) refl in
          subst (λ (o : Host × Outcome). IsSafe capacity o.0) (sym out)
            (granted-IsSafe capacity h id need c s room v m (plain c f b) (λ x y p q xe ne cl.
              s.exclusive x y p q (λ z. ne (sym z ∙ xe))
                (ap (λ i. claims (status_of (h.cells i)).state) xe ∙ ap claims e) cl))
    ]

-- A cell with nothing in it.
cleared-IsSafe :
    (capacity : Option Resources) (id : String) (h : Host)
    → IsSafe capacity h
    → IsSafe capacity (record h { cells = set id empty_cell h.cells })
unfolding status_of read_status or_standby claims holds_resources is_active
cleared-IsSafe capacity id h s = shrunk-IsSafe capacity h (set id empty_cell h.cells) s (
    set-elim (λ i k. Shrinks (h.cells i) k) id empty_cell h.cells
      (plain empty_cell refl refl, none-HoldsLess (h.cells id) empty_cell (inl refl) (λ q. cc))
      (λ other ne. (s.kept other, refl-HoldsLess (h.cells other))))

-- Some of the instances of a safe host.
pub filter-IsSafe :
    (capacity : Option Resources) (p : Spec → Bool) (h : Host)
    → IsSafe capacity h
    → IsSafe capacity (record h { instances = filter p h.instances })
filter-IsSafe capacity p h s = record {
  distinct = Distinct-filter _ p h.instances s.distinct;
  kept = s.kept;
  room = fits capacity s.room;
  exclusive =
      λ a b x y. s.exclusive a b (filter-In p a h.instances x).0 (filter-In p b h.instances y).0;
}
  where
    fits :
        (o : Option Resources) → Fits o h → Fits o (record h { instances = filter p h.instances })
    fits none r = tt
    fits (some allocatable) r = (
      omega (arith, r.0, sum-filter (vcpus_of h.cells) p h.instances),
      omega (arith, r.1, sum-filter (memory_of h.cells) p h.instances),
    )

pub deletes-IsSafe :
    (capacity : Option Resources) (id : String) (h : Host)
    → IsSafe capacity h
    → IsSafe capacity (record {
      instances = filter (λ s. not (s.id == id)) h.instances;
      cells = set id empty_cell h.cells;
    })
deletes-IsSafe capacity id h s =
    filter-IsSafe capacity (λ k. not (k.id == id)) (record h { cells = set id empty_cell h.cells })
      (cleared-IsSafe capacity id h s)

stored-none : (id : String) (ss : List Spec) → stored id ss ≡ none → All (λ t. t.id ≢ id) ss
unfolding stored
stored-none id [] h = tt
stored-none id (t ∷ ss) h = elim (Bool-cases (t.id == id)) [
  | inl yes_ ↦ cc (rw yes_ at h)
  | inr no_ ↦ (ne_of_beq t.id id no_, stored-none id ss (rw no_ at h))
]

-- A new instance holds nothing.
pub creates-IsSafe :
    (capacity : Option Resources) (t : Spec) (h : Host)
    → IsSafe capacity h
    → stored t.id h.instances ≡ none
    → IsSafe capacity (record { instances = t ∷ h.instances; cells = set t.id empty_cell h.cells })
unfolding status_of read_status or_standby claims holds_resources is_active held_resources
creates-IsSafe capacity t h s new =
    let k = cleared-IsSafe capacity t.id h s in
    record {
      distinct = (stored-none t.id h.instances new, s.distinct);
      kept = k.kept;
      room = fits capacity k.room;
      exclusive = λ a b x y ne p q. exclusive a b x y ne p q;
    }
  where
    cells : String → Cell
    cells = set t.id empty_cell h.cells

    here : cells t.id ≡ empty_cell
    here = set_self t.id empty_cell h.cells

    unclaimed : (a : Spec) → a ≡ t → claims (status_of (cells a.id)).state ≡ true → ⊥
    unclaimed a e p =
        let q = ap (λ (x : Spec). claims (status_of (cells x.id)).state) e in
        let r = ap (λ x. claims (status_of x).state) here in cc (sym r ∙ sym q ∙ p)

    exclusive : AreExclusive (record { instances = t ∷ h.instances; cells = cells })
    exclusive a b (inl e) y ne p q = absurd (unclaimed a e p)
    exclusive a b (inr x) (inl e) ne p q = absurd (unclaimed b e q)
    exclusive a b (inr x) (inr y) ne p q =
        (cleared-IsSafe capacity t.id h s).exclusive a b x y ne p q

    fits :
        (o : Option Resources)
        → Fits o (record h { cells = cells })
        → Fits o (record { instances = t ∷ h.instances; cells = cells })
    fits none r = tt
    fits (some allocatable) r = (
      omega (arith, r.0, ap (λ x. (held_resources (status_of x)).vcpus) here),
      omega (arith, r.1, ap (λ x. (held_resources (status_of x)).memory_bytes) here),
    )
