-- ===== src/Instance/Starts.antt =====
-- A start's admission and a resize's reservation keep a host safe.
use dicer.Prelude.{
  ◌≤◌, ◌≡◌, ◌⊎◌, refl, sym, ap, ◌∙◌, subst, inl, inr, String, true, false, Option, none, some,
  string_Eq, arith, Bool-cases, Option-cases, In, Distinct-eq, some_eq,
}
use dicer.Instance.{Resources, starting}
use dicer.Instance.Host.{
  Spec, Cell, Host, status_of, read_status, or_standby, held_resources, holds_resources, set,
  stored,
}
use dicer.Instance.Admission.{
  Outcome, done, refused, invalid_state, has_room, ports_taken, volumes_taken, transition_with,
  may_become, put_cell, admit_stored, admit,
}
use dicer.Instance.Claims.{Compatible, checked-Compatible}
use dicer.Instance.Cells.{IsKept, Shrinks, refl-HoldsLess, same-HoldsLess, or_standby-starting}
use dicer.Instance.Safe.{IsSafe, set_self, set-elim, shrunk-IsSafe}
use dicer.Instance.Steps.{begin_boot}
use dicer.Instance.Admitted.{granted-IsSafe, stored-In}
use dicer.Instance.Admission.{
  AdmissionError, resource_exhausted, port_in_use, volume_in_use, not_found,
}

-- What the instance's cell has once admitted.
abbrev pub admitted : Resources → Cell → Cell
admitted need c = record c { status = some (record { state = starting; held = need }) }

abbrev pub AdmitCases : Option Resources → String → Resources → Host → Host × Outcome → Type 0
AdmitCases capacity id need h out =
    ((e : AdmissionError) × (out ≡ (h, refused e)))
    ⊎ ((s : Spec) × In s h.instances
        × (s.id ≡ id)
        × (has_room capacity h.instances s.id need h.cells ≡ true)
        × (ports_taken s h.instances h.cells ≡ false)
        × (volumes_taken s h.instances h.cells ≡ false)
        × (out ≡ (record h { cells = set s.id (admitted need (h.cells s.id)) h.cells }, done)))

stored-cases :
    (capacity : Option Resources) (id : String) (need : Resources) (h : Host) (s : Spec)
    → In s h.instances
    → s.id ≡ id
    → AdmitCases capacity id need h (admit_stored capacity (some s) need h)
unfolding admit_stored put_cell transition_with
stored-cases capacity id need h s x y =
    elim (Bool-cases (has_room capacity h.instances s.id need h.cells)) [
      | inr no_ ↦
          let out : admit_stored capacity (some s) need h ≡ (h, refused resource_exhausted) =
            rw (admit_stored, no_) refl in
          inl (_, out)
      | inl room ↦ elim (Bool-cases (ports_taken s h.instances h.cells)) [
        | inl p ↦
            let out : admit_stored capacity (some s) need h ≡ (h, refused port_in_use) =
              rw (admit_stored, room, p) refl in
            inl (_, out)
        | inr p ↦ elim (Bool-cases (volumes_taken s h.instances h.cells)) [
          | inl v ↦
              let out : admit_stored capacity (some s) need h ≡ (h, refused volume_in_use) =
                rw (admit_stored, room, p, v) refl in
              inl (_, out)
          | inr v ↦ elim (Bool-cases (may_become (status_of (h.cells s.id)).state starting)) [
            | inl may ↦
                let out : admit_stored capacity (some s) need h
                    ≡ (record h { cells = set s.id (admitted need (h.cells s.id)) h.cells }, done) =
                  rw (admit_stored, room, p, v, may) refl in
                inr (s, x, y, room, p, v, out)
            | inr may ↦
                let out : admit_stored capacity (some s) need h ≡ (h, refused invalid_state) =
                  rw (admit_stored, room, p, v, may) refl in
                inl (_, out)
          ]
        ]
      ]
    ]

pub admit-cases :
    (capacity : Option Resources) (id : String) (need : Resources) (h : Host)
    → AdmitCases capacity id need h (admit capacity id need h)
unfolding admit admit_stored
admit-cases capacity id need h = elim (Option-cases (stored id h.instances)) [
  | inl e ↦
      let out : admit capacity id need h ≡ (h, refused not_found) = rw (admit, e) refl in
      inl (_, out)
  | inr (s, e) ↦
      let (x, y) = stored-In id h.instances e in
      let out : admit capacity id need h ≡ admit_stored capacity (some s) need h =
        rw (admit, e) refl in
      subst (AdmitCases capacity id need h) (sym out) (stored-cases capacity id need h s x y)
]

pub le_need :
    (c : Cell) (need : Resources)
    → (status_of c).held ≡ need
    → ((held_resources (status_of c)).vcpus ≤ need.vcpus)
      × ((held_resources (status_of c)).memory_bytes ≤ need.memory_bytes)
unfolding held_resources
le_need c need h = elim (Bool-cases (holds_resources (status_of c).state)) [
  | inl yes_ ↦ (rw (yes_, h) (omega arith), rw (yes_, h) (omega arith))
  | inr no_ ↦ (rw no_ (omega arith), rw no_ (omega arith))
]

-- A start that was admitted, with the start recorded as under way.
pub begin_boot-IsSafe :
    (capacity : Option Resources) (id : String) (need : Resources) (h : Host)
    → IsSafe capacity h
    → (h.cells id).booting ≡ none
    → IsSafe capacity (begin_boot id need (admit capacity id need h))
unfolding begin_boot status_of read_status
begin_boot-IsSafe capacity id need h s idle = elim (admit-cases capacity id need h) [
  | inl (e, out) ↦ subst (λ o. IsSafe capacity (begin_boot id need o)) (sym out) s
  | inr (t, x, y, room, ports, volumes, out) ↦
      subst (λ o. IsSafe capacity (begin_boot id need o)) (sym out) (begun t x y room ports volumes)
]
  where
    begun :
        (t : Spec)
        → In t h.instances
        → t.id ≡ id
        → has_room capacity h.instances t.id need h.cells ≡ true
        → ports_taken t h.instances h.cells ≡ false
        → volumes_taken t h.instances h.cells ≡ false
        → IsSafe capacity (
            begin_boot id need
              (record h { cells = set t.id (admitted need (h.cells t.id)) h.cells }, done))
    begun t x y room ports volumes =
        let c = admitted need (h.cells t.id) in
        let g : Host = record h { cells = set t.id c h.cells } in
        let at = or_standby-starting (h.cells t.id).frozen in
        let no_boot : (h.cells t.id).booting ≡ none = ap (λ i. (h.cells i).booting) y ∙ idle in
        let kept : IsKept c = record { booted = λ n q. cc; kept_frozen = λ q. inr at } in
        let (v, m) = le_need c need refl in
        let safe : IsSafe capacity g =
          granted-IsSafe capacity h t.id need c s room v m kept (λ a b p q e ne cl.
            let same : a ≡ t = Distinct-eq (λ k. k.id) h.instances a t s.distinct p x e in
            subst (λ k. Compatible k b) (sym same)
              (checked-Compatible t b h.instances h.cells ports volumes q ne cl)) in
        let here : g.cells id ≡ c = ap g.cells (sym y) ∙ set_self t.id c h.cells in
        let d : Cell = record (g.cells id) { booting = some need } in
        let written : (g.cells id).status ≡ some (record { state = starting; held = need }) =
          ap (λ (k : Cell). k.status) here in
        let at' : (status_of d).state ≡ starting =
          ap (λ st. or_standby (g.cells id).frozen (read_status st).state) written
          ∙ or_standby-starting (g.cells id).frozen in
        let kept' : IsKept d = record {
          booted =
              λ n q. written ∙ ap (λ r. some (record { state = starting; held = r })) (some_eq q);
          kept_frozen = λ q. inr at';
        } in
        shrunk-IsSafe capacity g (set id d g.cells) safe (
          set-elim (λ i k. Shrinks (g.cells i) k) id d g.cells
            (kept', same-HoldsLess (g.cells id) d refl (λ q. q) (λ q. q))
            (λ other ne. (safe.kept other, refl-HoldsLess (g.cells other))))
