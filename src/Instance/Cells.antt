-- ===== src/Instance/Cells.antt =====
-- What the changes that need no admission do to one instance: it holds no more than before.
use dicer.Prelude.{
  ◌≤◌, ◌≡◌, ◌≢◌, ◌⊎◌, inl, inr, refl, ap, ◌∙◌, Bool, true, false, none, some, arith, Bool-cases,
  Option-cases, nat_Eq,
}
use dicer.Instance.{
  Resources, State, stopped, starting, running, paused, standby, stopping, restarting, failed,
}
use dicer.Instance.Host.{
  Cell, nothing, is_active, holds_resources, read_status, or_standby, status_of, held_resources,
}
use dicer.Instance.Steps.{fails, removes, change}

-- A state in which an instance has its ports and volumes to itself: one that holds resources, or
-- standby.
unfoldable pub claims : State → Bool
unfolding holds_resources is_active
claims standby = true
claims s = holds_resources s

-- An instance that is being started holds what it was admitted with; one with a frozen guest is on
-- standby or being started.
pub record IsKept (c : Cell) : Type 0 where
  pub booted :
      (need : Resources)
      → c.booting ≡ some need
      → c.status ≡ some (record { state = starting; held = need })
  pub kept_frozen :
      c.frozen ≡ true → ((status_of c).state ≡ standby) ⊎ ((status_of c).state ≡ starting)

-- `c'` holds no more than `c` does.
pub record HoldsLess (c c' : Cell) : Type 0 where
  pub vcpus_le : (held_resources (status_of c')).vcpus ≤ (held_resources (status_of c)).vcpus
  pub memory_le :
      (held_resources (status_of c')).memory_bytes ≤ (held_resources (status_of c)).memory_bytes
  pub claims_le : claims (status_of c').state ≡ true → claims (status_of c).state ≡ true

abbrev pub Shrinks : Cell → Cell → Type 0
Shrinks c c' = IsKept c' × HoldsLess c c'

-- A cell that holds no resources, or holds an amount of nothing.
pub none-HoldsLess :
    (c c' : Cell)
    → ((status_of c').held ≡ nothing) ⊎ (holds_resources (status_of c').state ≡ false)
    → (claims (status_of c').state ≡ true → claims (status_of c).state ≡ true)
    → HoldsLess c c'
unfolding held_resources
none-HoldsLess c c' (inl h) k = elim (Bool-cases (holds_resources (status_of c').state)) [
  | inl yes_ ↦ record {
    vcpus_le = rw (yes_, h) (omega arith);
    memory_le = rw (yes_, h) (omega arith);
    claims_le = k;
  }
  | inr no_ ↦ record {
    vcpus_le = rw no_ (omega arith);
    memory_le = rw no_ (omega arith);
    claims_le = k;
  }
]
none-HoldsLess c c' (inr no_) k = record {
  vcpus_le = rw no_ (omega arith);
  memory_le = rw no_ (omega arith);
  claims_le = k;
}

pub same-HoldsLess :
    (c c' : Cell)
    → (status_of c').held ≡ (status_of c).held
    → (holds_resources (status_of c').state ≡ true → holds_resources (status_of c).state ≡ true)
    → (claims (status_of c').state ≡ true → claims (status_of c).state ≡ true)
    → HoldsLess c c'
unfolding held_resources
same-HoldsLess c c' h holds k = elim (Bool-cases (holds_resources (status_of c').state)) [
  | inl yes_ ↦
      let yes' = holds yes_ in
      record {
        vcpus_le = rw (yes_, yes', h) (omega arith);
        memory_le = rw (yes_, yes', h) (omega arith);
        claims_le = k;
      }
  | inr no_ ↦ record {
    vcpus_le = rw no_ (omega arith);
    memory_le = rw no_ (omega arith);
    claims_le = k;
  }
]

pub refl-HoldsLess : (c : Cell) → HoldsLess c c
refl-HoldsLess c = record { vcpus_le = omega arith; memory_le = omega arith; claims_le = λ q. q }

-- A frozen instance claims its ports and volumes.
pub frozen-claims : (c : Cell) → IsKept c → c.frozen ≡ true → claims (status_of c).state ≡ true
unfolding claims holds_resources
frozen-claims c k f = elim (k.kept_frozen f) [ inl e ↦ ap claims e | inr e ↦ ap claims e ]

pub or_standby-starting : (f : Bool) → or_standby f starting ≡ starting
unfolding or_standby
or_standby-starting true = refl
or_standby-starting false = refl

pub or_standby-false : (s : State) → or_standby false s ≡ s
unfolding or_standby
or_standby-false stopped = refl
or_standby-false starting = refl
or_standby-false running = refl
or_standby-false paused = refl
or_standby-false standby = refl
or_standby-false stopping = refl
or_standby-false restarting = refl
or_standby-false failed = refl

-- An instance that is not being started has no start under way.
pub unbooted : (c : Cell) → IsKept c → (status_of c).state ≢ starting → c.booting ≡ none
unfolding status_of read_status
unbooted c k ne = elim (Option-cases c.booting) [
  | inl e ↦ e
  | inr (need, e) ↦ absurd (
      ne (
        ap (λ st. or_standby c.frozen (read_status st).state) (k.booted need e)
        ∙ or_standby-starting c.frozen))
]

pub plain : (c : Cell) → c.frozen ≡ false → c.booting ≡ none → IsKept c
plain c f b = record { booted = λ need e. cc; kept_frozen = λ e. cc }

unclaimed : (s : State) → (s ≡ failed) ⊎ (s ≡ stopped) → claims s ≡ false
unfolding claims holds_resources is_active
unclaimed s (inl e) = ap claims e
unclaimed s (inr e) = ap claims e

frozen_state : (s : State) → (s ≡ failed) ⊎ (s ≡ stopped) → or_standby true s ≡ standby
unfolding or_standby
frozen_state s (inl e) = ap (or_standby true) e
frozen_state s (inr e) = ap (or_standby true) e

-- An instance that is left stopped or failed, with nothing held.
pub released :
    (c n : Cell)
    → (n.frozen ≡ true → claims (status_of c).state ≡ true)
    → (read_status n.status).held ≡ nothing
    → ((read_status n.status).state ≡ failed) ⊎ ((read_status n.status).state ≡ stopped)
    → n.booting ≡ none
    → Shrinks c n
unfolding status_of
released c n k h e b = elim (Bool-cases n.frozen) [
  | inl yes_ ↦
      let at : or_standby n.frozen (read_status n.status).state ≡ standby =
        ap (λ f. or_standby f (read_status n.status).state) yes_ ∙ frozen_state _ e in
      (
        record { booted = λ need q. cc; kept_frozen = λ q. inl at },
        none-HoldsLess c n (inl h) (λ q. k yes_),
      )
  | inr no_ ↦
      let at : or_standby n.frozen (read_status n.status).state ≡ (read_status n.status).state =
        ap (λ f. or_standby f (read_status n.status).state) no_ ∙ or_standby-false _ in
      let idle = unclaimed _ e in (plain n no_ b, none-HoldsLess c n (inl h) (λ q. cc))
]

pub fails-Shrinks : (c : Cell) → IsKept c → Shrinks c (change fails c)
unfolding change read_status
fails-Shrinks c k = released c (change fails c) (frozen-claims c k) refl (inl refl) refl

pub removes-Shrinks : (c : Cell) → IsKept c → Shrinks c (change removes c)
unfolding change read_status
removes-Shrinks c k = released c (change removes c) (frozen-claims c k) refl (inr refl) refl
