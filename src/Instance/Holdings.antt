-- ===== src/Instance/Holdings.antt =====
-- Sums of what the instances hold.
use dicer.Prelude.{
  ℕ, ◌+◌, ◌≤◌, ◌≡◌, ◌≢◌, refl, ap, subst, inl, inr, String, Bool, true, some, List, [], ◌∷◌, map,
  filter, ◌==◌, string_Eq, arith, Bool-cases, All, Distinct, if◌then◌else◌,
}
use dicer.Network.Lookup.{ne_of_beq}
use dicer.Instance.{Resources, add, fits}
use dicer.Instance.Host.{Spec, Cell, status_of, held_resources}
use dicer.Instance.Admission.{allocated, has_room}
use dicer.Instance.Steps.{replace}

module _ (w : String → ℕ) where
  abbrev pub sum : List Spec → ℕ
  sum [] = 0
  sum (s ∷ instances) = sum instances + w s.id

  abbrev pub sum_except : String → List Spec → ℕ
  sum_except id [] = 0
  sum_except id (s ∷ instances) =
      let rest = sum_except id instances in if s.id == id then rest else rest + w s.id

  sum_other : (id : String) (ss : List Spec) → All (λ s. s.id ≢ id) ss → sum ss ≡ sum_except id ss
  sum_other id [] h = refl
  sum_other id (s ∷ ss) (ne, h) = elim (Bool-cases (s.id == id)) [
    | inl yes_ ↦ absurd (ne ((string_Eq.same_iff s.id id).0 yes_))
    | inr no_ ↦ rw no_ (ap (λ n. n + w s.id) (sum_other id ss h))
  ]

  -- What one instance adds to the sum over the others.
  pub sum_split :
      (id : String) (ss : List Spec) → Distinct (λ s. s.id) ss → sum ss ≤ sum_except id ss + w id
  sum_split id [] h = omega arith
  sum_split id (s ∷ ss) (ne, h) = elim (Bool-cases (s.id == id)) [
    | inl yes_ ↦
        let q = (string_Eq.same_iff s.id id).0 yes_ in
        rw yes_ (omega (arith, sum_other id ss (subst (λ k. All (λ t. t.id ≢ k) ss) q ne), ap w q))
    | inr no_ ↦ rw no_ (omega (arith, sum_split id ss h))
  ]

  pub sum-filter : (p : Spec → Bool) (ss : List Spec) → sum (filter p ss) ≤ sum ss
  sum-filter p [] = omega arith
  sum-filter p (s ∷ ss) = elim (Bool-cases (p s)) [
    | inl yes_ ↦ rw yes_ (omega (arith, sum-filter p ss))
    | inr no_ ↦ rw no_ (omega (arith, sum-filter p ss))
  ]

  pub sum-replace : (updated : Spec) (ss : List Spec) → sum (map (replace updated) ss) ≡ sum ss
  unfolding replace
  sum-replace updated [] = refl
  sum-replace updated (s ∷ ss) = elim (Bool-cases (s.id == updated.id)) [
    | inl yes_ ↦
        let q = (string_Eq.same_iff s.id updated.id).0 yes_ in
        rw yes_ (omega (arith, sum-replace updated ss, ap w q))
    | inr no_ ↦ rw no_ (omega (arith, sum-replace updated ss))
  ]

module _ (w v : String → ℕ) where
  pub sum_mono : (ss : List Spec) → ((id : String) → w id ≤ v id) → sum w ss ≤ sum v ss
  sum_mono [] h = omega arith
  sum_mono (s ∷ ss) h = omega (arith, h s.id, sum_mono ss h)

  pub sum_except-same :
      (id : String) (ss : List Spec)
      → ((other : String) → other ≢ id → w other ≡ v other)
      → sum_except w id ss ≡ sum_except v id ss
  sum_except-same id [] h = refl
  sum_except-same id (s ∷ ss) h = elim (Bool-cases (s.id == id)) [
    | inl yes_ ↦ rw yes_ (sum_except-same id ss h)
    | inr no_ ↦ rw no_ (omega (arith, sum_except-same id ss h, h s.id (ne_of_beq s.id id no_)))
  ]

abbrev pub vcpus_of : (String → Cell) → String → ℕ
vcpus_of cells id = (held_resources (status_of (cells id))).vcpus

abbrev pub memory_of : (String → Cell) → String → ℕ
memory_of cells id = (held_resources (status_of (cells id))).memory_bytes

-- `allocated` is the two sums.
pub allocated-vcpus :
    (id : String) (cells : String → Cell) (ss : List Spec)
    → (allocated ss id cells).vcpus ≡ sum_except (vcpus_of cells) id ss
unfolding allocated add
allocated-vcpus id cells [] = refl
allocated-vcpus id cells (s ∷ ss) = elim (Bool-cases (s.id == id)) [
  | inl yes_ ↦ rw yes_ (allocated-vcpus id cells ss)
  | inr no_ ↦ rw no_ (ap (λ n. n + vcpus_of cells s.id) (allocated-vcpus id cells ss))
]

pub allocated-memory :
    (id : String) (cells : String → Cell) (ss : List Spec)
    → (allocated ss id cells).memory_bytes ≡ sum_except (memory_of cells) id ss
unfolding allocated add
allocated-memory id cells [] = refl
allocated-memory id cells (s ∷ ss) = elim (Bool-cases (s.id == id)) [
  | inl yes_ ↦ rw yes_ (allocated-memory id cells ss)
  | inr no_ ↦ rw no_ (ap (λ n. n + memory_of cells s.id) (allocated-memory id cells ss))
]

-- What `checkRoom` lets an instance hold beside the others.
pub has_room-fits :
    (allocatable : Resources) (ss : List Spec) (id : String) (need : Resources)
    (cells : String → Cell)
    → has_room (some allocatable) ss id need cells ≡ true
    → (sum_except (vcpus_of cells) id ss + need.vcpus ≤ allocatable.vcpus)
      × (sum_except (memory_of cells) id ss + need.memory_bytes ≤ allocatable.memory_bytes)
unfolding has_room fits add
has_room-fits allocatable ss id need cells h =
    let v = allocated-vcpus id cells ss in
    let m = allocated-memory id cells ss in (ground (arith, v, m), ground (arith, v, m))
