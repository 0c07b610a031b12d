-- ===== src/Instance/Changes.antt =====
-- What every change that needs no admission does to one instance.
use dicer.Prelude.{
  ◌≡◌, ◌≢◌, ◌⊎◌, inl, inr, refl, sym, ap, ◌∙◌, subst, Bool, true, false, none, some, arith,
  Bool-cases,
}
use dicer.Instance.{
  State, stopped, starting, running, paused, standby, stopping, restarting, failed,
  can_transition_to,
}
use dicer.Instance.Host.{Cell, is_active, holds_resources, read_status, or_standby, status_of}
use dicer.Instance.Admission.{transition_with, may_become}
use dicer.Instance.Steps.{pause_cell, resume_cell, stop_cell, freeze_cell, move, or_same}
use dicer.Instance.Cells.{
  claims, IsKept, HoldsLess, Shrinks, released, plain, unbooted, refl-HoldsLess, same-HoldsLess,
  or_standby-false,
}

pub same-Shrinks : (c : Cell) → IsKept c → Shrinks c c
same-Shrinks c k = (k, refl-HoldsLess c)

Shrinks-trans : (c d e : Cell) → HoldsLess c d → Shrinks d e → Shrinks c e
Shrinks-trans c d e h (k, l) = (
  k,
  record {
    vcpus_le = omega (arith, h.vcpus_le, l.vcpus_le);
    memory_le = omega (arith, h.memory_le, l.memory_le);
    claims_le = λ q. h.claims_le (l.claims_le q);
  },
)

move-cases :
    (to : State) (c : Cell)
    → (move to c ≡ c)
      ⊎ ((may_become (status_of c).state to ≡ true)
          × (move to c
              ≡ record c { status = some (record { state = to; held = (status_of c).held }) }))
unfolding move or_same transition_with
move-cases to c = elim (Bool-cases (may_become (status_of c).state to)) [
  | inl yes_ ↦ inr (yes_, rw (move, yes_) refl)
  | inr no_ ↦ inl (rw (move, no_) refl)
]

-- An instance that is neither on standby nor being started has no frozen guest.
pub unfrozen :
    (c : Cell)
    → IsKept c
    → (status_of c).state ≢ standby
    → (status_of c).state ≢ starting
    → c.frozen ≡ false
unfrozen c k a b = elim (Bool-cases c.frozen) [
  | inr no_ ↦ no_
  | inl yes_ ↦ elim (k.kept_frozen yes_) [ inl e ↦ absurd (a e) | inr e ↦ absurd (b e) ]
]

-- A transition of an instance with no frozen guest and no start under way, to a state in which it
-- holds what it held.
moved :
    (c : Cell) (to : State)
    → IsKept c
    → c.frozen ≡ false
    → (may_become (status_of c).state to ≡ true → (status_of c).state ≢ starting)
    → (holds_resources to ≡ true → holds_resources (status_of c).state ≡ true)
    → (claims to ≡ true → claims (status_of c).state ≡ true)
    → Shrinks c (move to c)
unfolding status_of read_status
moved c to k f ne holds claiming = elim (move-cases to c) [
  | inl e ↦ subst (Shrinks c) (sym e) (same-Shrinks c k)
  | inr (may, e) ↦
      let n : Cell = record c {
        status = some (record { state = to; held = (status_of c).held });
      } in
      let at : (status_of n).state ≡ to = ap (λ b. or_standby b to) f ∙ or_standby-false to in
      subst (Shrinks c) (sym e) (
        plain n f (unbooted c k (ne may)),
        same-HoldsLess c n refl (λ q. holds (ap holds_resources (sym at) ∙ q))
            (λ q. claiming (ap claims (sym at) ∙ q)),
      )
]

holds-discard :
    (s : State) (f : Bool) → holds_resources s ≡ true → holds_resources (or_standby f s) ≡ true
unfolding holds_resources is_active or_standby
holds-discard s false h = ap holds_resources (or_standby-false s) ∙ h
holds-discard stopped true h = cc
holds-discard starting true h = refl
holds-discard running true h = refl
holds-discard paused true h = refl
holds-discard standby true h = cc
holds-discard stopping true h = cc
holds-discard restarting true h = cc
holds-discard failed true h = cc

claims-discard : (s : State) (f : Bool) → claims s ≡ true → claims (or_standby f s) ≡ true
unfolding claims holds_resources is_active or_standby
claims-discard s false h = ap claims (or_standby-false s) ∙ h
claims-discard stopped true h = cc
claims-discard starting true h = refl
claims-discard running true h = refl
claims-discard paused true h = refl
claims-discard standby true h = refl
claims-discard stopping true h = cc
claims-discard restarting true h = cc
claims-discard failed true h = cc

-- What `stop` leaves of an instance whose frozen guest it discarded.
abbrev discarded : Cell → Cell
discarded c = record c { frozen = false }

pub discards-Shrinks : (c : Cell) → IsKept c → Shrinks c (discarded c)
unfolding status_of read_status
discards-Shrinks c k =
    let s = (read_status c.status).state in
    let at = or_standby-false s in
    (
      record { booted = k.booted; kept_frozen = λ e. cc },
      same-HoldsLess c (discarded c) refl
          (λ q. holds-discard s c.frozen (ap holds_resources (sym at) ∙ q))
          (λ q. claims-discard s c.frozen (ap claims (sym at) ∙ q)),
    )

not_starting : (s : State) → may_become s stopping ≡ true → s ≢ starting
unfolding may_become can_transition_to
not_starting s h e = is_false (ap (λ x. may_become x stopping) (sym e) ∙ h)
  where
    is_false : may_become starting stopping ≡ true → ⊥
    is_false q = cc

stopping-Shrinks : (c : Cell) → IsKept c → Shrinks c (move stopping (discarded c))
unfolding holds_resources is_active claims
stopping-Shrinks c k =
    let (k', l) = discards-Shrinks c k in
    Shrinks-trans c (discarded c) (move stopping (discarded c)) l
      (moved (discarded c) stopping k' refl (λ m. not_starting _ m) (λ q. cc) (λ q. cc))

pub stops_from :
    (c : Cell) (s : State) → IsKept c → (status_of c).state ≡ s → Shrinks c (stop_cell s c)
unfolding stop_cell
stops_from c stopped k e = discards-Shrinks c k
stops_from c starting k e = stopping-Shrinks c k
stops_from c running k e = stopping-Shrinks c k
stops_from c paused k e = stopping-Shrinks c k
stops_from c standby k e = discards-Shrinks c k
stops_from c stopping k e = stopping-Shrinks c k
stops_from c restarting k e = stopping-Shrinks c k
stops_from c failed k e = stopping-Shrinks c k

unfoldable pub claimed_by_frozen : State → Bool
claimed_by_frozen standby = true
claimed_by_frozen starting = true
claimed_by_frozen _ = false

-- The states of an instance with a VMM, or waiting to restart, are not those with a frozen guest.
pub is_not :
    {s t u : State} → s ≡ t → claimed_by_frozen t ≡ false → claimed_by_frozen u ≡ true → s ≢ u
unfolding claimed_by_frozen
is_not e a b q = cc (ap claimed_by_frozen (sym e ∙ q))

pub pauses_from :
    (c : Cell) (s : State) → IsKept c → (status_of c).state ≡ s → Shrinks c (pause_cell s c)
unfolding pause_cell claimed_by_frozen holds_resources is_active claims
pauses_from c stopped k e = same-Shrinks c k
pauses_from c starting k e = same-Shrinks c k
pauses_from c running k e =
    moved c paused k (unfrozen c k (is_not e refl refl) (is_not e refl refl))
      (λ m. is_not e refl refl) (λ h. ap holds_resources e) (λ h. ap claims e)
pauses_from c paused k e = same-Shrinks c k
pauses_from c standby k e = same-Shrinks c k
pauses_from c stopping k e = same-Shrinks c k
pauses_from c restarting k e = same-Shrinks c k
pauses_from c failed k e = same-Shrinks c k

pub resumes_from :
    (c : Cell) (s : State) → IsKept c → (status_of c).state ≡ s → Shrinks c (resume_cell s c)
unfolding resume_cell claimed_by_frozen holds_resources is_active claims
resumes_from c stopped k e = same-Shrinks c k
resumes_from c starting k e = same-Shrinks c k
resumes_from c running k e = same-Shrinks c k
resumes_from c paused k e =
    moved c running k (unfrozen c k (is_not e refl refl) (is_not e refl refl))
      (λ m. is_not e refl refl) (λ h. ap holds_resources e) (λ h. ap claims e)
resumes_from c standby k e = same-Shrinks c k
resumes_from c stopping k e = same-Shrinks c k
resumes_from c restarting k e = same-Shrinks c k
resumes_from c failed k e = same-Shrinks c k

pub freezes_from :
    (c : Cell) (s : State) → IsKept c → (status_of c).state ≡ s → Shrinks c (freeze_cell s c)
unfolding freeze_cell claimed_by_frozen is_active claims holds_resources read_status
freezes_from c stopped k e = same-Shrinks c k
freezes_from c starting k e = same-Shrinks c k
freezes_from c running k e =
    released c (record c { status = none; frozen = true }) (λ q. ap claims e) refl (inr refl)
      (unbooted c k (is_not e refl refl))
freezes_from c paused k e =
    released c (record c { status = none; frozen = true }) (λ q. ap claims e) refl (inr refl)
      (unbooted c k (is_not e refl refl))
freezes_from c standby k e = same-Shrinks c k
freezes_from c stopping k e = same-Shrinks c k
freezes_from c restarting k e = same-Shrinks c k
freezes_from c failed k e = same-Shrinks c k
