-- ===== src/Instance/Safe.antt =====
-- What admission keeps true of a host, over any steps.
use dicer.Prelude.{
  ◌≤◌, ◌≡◌, ◌≢◌, refl, sym, subst, inl, inr, String, true, Option, none, some, ◌==◌, string_Eq,
  arith, Bool-cases, In, Distinct,
}
use dicer.Network.Lookup.{ne_of_beq}
use dicer.Instance.{Resources}
use dicer.Instance.Host.{Spec, Cell, Host, status_of, set}
use dicer.Instance.Holdings.{sum, vcpus_of, memory_of, sum_mono}
use dicer.Instance.Claims.{Compatible}
use dicer.Instance.Cells.{claims, IsKept, Shrinks}

-- What the instances hold together is within the host's capacity, if it has one.
abbrev pub Fits : Option Resources → Host → Type 0
Fits none h = Unit
Fits (some allocatable) h =
    (sum (vcpus_of h.cells) h.instances ≤ allocatable.vcpus)
    × (sum (memory_of h.cells) h.instances ≤ allocatable.memory_bytes)

-- No two instances that claim their ports and volumes share them.
abbrev pub AreExclusive : Host → Type 0
AreExclusive h =
    (a b : Spec)
    → In a h.instances
    → In b h.instances
    → a.id ≢ b.id
    → claims (status_of (h.cells a.id)).state ≡ true
    → claims (status_of (h.cells b.id)).state ≡ true
    → Compatible a b

pub record IsSafe (capacity : Option Resources) (h : Host) : Type 0 where
  pub distinct : Distinct (λ s. s.id) h.instances
  pub kept : (id : String) → IsKept (h.cells id)
  pub room : Fits capacity h
  pub exclusive : AreExclusive h

pub set_self : (id : String) (c : Cell) (cells : String → Cell) → set id c cells id ≡ c
unfolding set
set_self id c cells = rw ((string_Eq.same_iff id id).1 refl) refl

pub set_other :
    (id other : String) (c : Cell) (cells : String → Cell)
    → other ≢ id
    → set id c cells other ≡ cells other
unfolding set
set_other id other c cells ne = elim (Bool-cases (other == id)) [
  | inl yes_ ↦ absurd (ne ((string_Eq.same_iff other id).0 yes_))
  | inr no_ ↦ rw no_ refl
]

-- A property of every cell, from the changed one and the others.
pub set-elim {ℓ} :
    (P : String → Cell → Type ℓ) (id : String) (c : Cell) (cells : String → Cell)
    → P id c
    → ((other : String) → other ≢ id → P other (cells other))
    → (other : String) → P other (set id c cells other)
set-elim P id c cells h k other = elim (Bool-cases (other == id)) [
  | inl yes_ ↦
      let q = (string_Eq.same_iff other id).0 yes_ in
      subst (λ o. P o (set id c cells o)) (sym q) (subst (P id) (sym (set_self id c cells)) h)
  | inr no_ ↦
      let ne = ne_of_beq other id no_ in
      subst (P other) (sym (set_other id other c cells ne)) (k other ne)
]

-- Cells that hold no more than before keep a host safe.
pub shrunk-IsSafe :
    (capacity : Option Resources) (h : Host) (cells : String → Cell)
    → IsSafe capacity h
    → ((id : String) → Shrinks (h.cells id) (cells id))
    → IsSafe capacity (record h { cells = cells })
shrunk-IsSafe capacity h cells s k = record {
  distinct = s.distinct;
  kept = λ id. (k id).0;
  room = fits capacity s.room;
  exclusive =
      λ a b x y ne p q. s.exclusive a b x y ne ((k a.id).1.claims_le p) ((k b.id).1.claims_le q);
}
  where
    fits : (o : Option Resources) → Fits o h → Fits o (record h { cells = cells })
    fits none r = tt
    fits (some allocatable) r = (
      omega (
        arith,
        r.0,
        sum_mono (vcpus_of cells) (vcpus_of h.cells) h.instances (λ id. (k id).1.vcpus_le),
      ),
      omega (
        arith,
        r.1,
        sum_mono (memory_of cells) (memory_of h.cells) h.instances (λ id. (k id).1.memory_le),
      ),
    )
