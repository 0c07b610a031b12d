-- ===== src/Instance/Admitted.antt =====
-- Admission keeps a host safe.
use dicer.Prelude.{
  ◌≤◌, ◌≡◌, ◌≢◌, sym, ap, ◌∙◌, inl, inr, String, true, Option, none, some, List, [], ◌∷◌, ◌==◌,
  string_Eq, arith, Bool-cases, In, some_eq,
}
use dicer.Network.Lookup.{ne_of_beq}
use dicer.Instance.{Resources}
use dicer.Instance.Host.{Spec, Cell, Host, status_of, held_resources, set, stored}
use dicer.Instance.Holdings.{vcpus_of, memory_of, sum_split, sum_except-same, has_room-fits}
use dicer.Instance.Admission.{has_room}
use dicer.Instance.Claims.{Compatible, Compatible-sym}
use dicer.Instance.Cells.{claims, IsKept}
use dicer.Instance.Safe.{Fits, AreExclusive, IsSafe, set_self, set_other, set-elim}

module _ (capacity : Option Resources) (h : Host) (id : String) (need : Resources) (c : Cell)
    (s : IsSafe capacity h) (room : has_room capacity h.instances id need h.cells ≡ true)
    (vcpus : (held_resources (status_of c)).vcpus ≤ need.vcpus)
    (memory : (held_resources (status_of c)).memory_bytes ≤ need.memory_bytes) where
  abbrev granted : Host
  granted = record h { cells = set id c h.cells }

  granted-Fits :
      (o : Option Resources) → has_room o h.instances id need h.cells ≡ true → Fits o granted
  granted-Fits none r = tt
  granted-Fits (some allocatable) r =
      let (v, m) = has_room-fits allocatable h.instances id need h.cells r in
      let cells = granted.cells in
      let here = set_self id c h.cells in
      let same_v = sum_except-same (vcpus_of cells) (vcpus_of h.cells) id h.instances (λ other ne.
        ap (λ x. (held_resources (status_of x)).vcpus) (set_other id other c h.cells ne)) in
      let same_m = sum_except-same (memory_of cells) (memory_of h.cells) id h.instances (λ other ne.
        ap (λ x. (held_resources (status_of x)).memory_bytes) (set_other id other c h.cells ne)) in
      let at_v = ap (λ x. (held_resources (status_of x)).vcpus) here in
      let at_m = ap (λ x. (held_resources (status_of x)).memory_bytes) here in
      (
        omega (arith, v, same_v, at_v, vcpus, sum_split (vcpus_of cells) id h.instances s.distinct),
        omega
            (arith, m, same_m, at_m, memory, sum_split (memory_of cells) id h.instances s.distinct),
      )

  granted-exclusive :
      ((a b : Spec)
        → In a h.instances
        → In b h.instances
        → a.id ≡ id
        → b.id ≢ id
        → claims (status_of (h.cells b.id)).state ≡ true
        → Compatible a b)
      → AreExclusive granted
  granted-exclusive k a b x y ne p q = elim (Bool-cases (a.id == id)) [
    | inl yes_ ↦
        let e = (string_Eq.same_iff a.id id).0 yes_ in
        let ne' : b.id ≢ id = λ f. ne (e ∙ sym f) in
        k a b x y e ne'
          (ap (λ x. claims (status_of x).state) (sym (set_other id b.id c h.cells ne')) ∙ q)
    | inr no_ ↦
        let ne_a = ne_of_beq a.id id no_ in
        let p' =
          ap (λ x. claims (status_of x).state) (sym (set_other id a.id c h.cells ne_a)) ∙ p in
        elim (Bool-cases (b.id == id)) [
          | inl yes_ ↦
              let e = (string_Eq.same_iff b.id id).0 yes_ in
              Compatible-sym b a (k b a y x e ne_a p')
          | inr no' ↦
              let ne_b = ne_of_beq b.id id no' in
              s.exclusive a b x y ne p'
                (ap (λ x. claims (status_of x).state) (sym (set_other id b.id c h.cells ne_b)) ∙ q)
        ]
  ]

  -- An instance that is given what there is room for, and shares nothing with the others.
  pub granted-IsSafe :
      IsKept c
      → ((a b : Spec)
          → In a h.instances
          → In b h.instances
          → a.id ≡ id
          → b.id ≢ id
          → claims (status_of (h.cells b.id)).state ≡ true
          → Compatible a b)
      → IsSafe capacity granted
  granted-IsSafe k l = record {
    distinct = s.distinct;
    kept = set-elim (λ o x. IsKept x) id c h.cells k (λ other ne. s.kept other);
    room = granted-Fits capacity room;
    exclusive = granted-exclusive l;
  }

pub stored-In :
    (id : String) (ss : List Spec) {s : Spec} → stored id ss ≡ some s → In s ss × (s.id ≡ id)
unfolding stored
stored-In id [] h = cc
stored-In id (t ∷ ss) {s} h = elim (Bool-cases (t.id == id)) [
  | inl yes_ ↦
      let e : t ≡ s = some_eq (rw yes_ at h) in
      (inl (sym e), ap (λ (x : Spec). x.id) (sym e) ∙ (string_Eq.same_iff t.id id).0 yes_)
  | inr no_ ↦ let (x, y) = stored-In id ss (rw no_ at h) in (inr x, y)
]
