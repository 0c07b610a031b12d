-- ===== src/Instance/Shrinking.antt =====
-- The ends of instances and starts, and all of the changes together.
use dicer.Prelude.{
  ◌≡◌, inl, inr, refl, sym, ap, ◌∙◌, Bool, false, not, Option, none, some, Bool-cases,
  if◌then◌else◌,
}
use dicer.Instance.{
  Resources, State, stopped, starting, running, paused, standby, stopping, restarting, failed,
}
use dicer.Instance.Restart.{RestartDecision, decide_restart}
use dicer.Instance.Host.{
  Cell, nothing, is_active, holds_resources, read_status, or_standby, status_of,
}
use dicer.Instance.Steps.{
  Change, records_running, pauses, resumes, stops, fails, freezes, half_freezes, discards, removes,
  ends, change, record_running, may_end, ended_state,
}
use dicer.Instance.Cells.{
  claims, IsKept, Shrinks, plain, same-HoldsLess, none-HoldsLess, or_standby-false,
  or_standby-starting, fails-Shrinks, removes-Shrinks,
}
use dicer.Instance.Changes.{
  unfrozen, same-Shrinks, stops_from, pauses_from, resumes_from, freezes_from, discards-Shrinks,
  is_not, claimed_by_frozen,
}

records-Shrinks :
    (c : Cell) (b : Option Resources) → IsKept c → c.booting ≡ b → Shrinks c (record_running b c)
unfolding record_running status_of read_status or_standby claims holds_resources is_active
records-Shrinks c none k e = same-Shrinks c k
records-Shrinks c (some need) k e =
    let n : Cell = record_running (some need) c in
    let written = k.booted need e in
    let at : (status_of c).state ≡ starting =
      ap (λ st. or_standby c.frozen (read_status st).state) written
      ∙ or_standby-starting c.frozen in
    (
      plain n refl refl,
      same-HoldsLess c n (sym (ap (λ st. (read_status st).held) written))
          (λ q. ap holds_resources at) (λ q. ap claims at),
    )

-- A state that is left with nothing held, and claims nothing.
ended-Shrinks :
    (c : Cell) (to : State)
    → IsKept c
    → c.frozen ≡ false
    → claims to ≡ false
    → Shrinks c (record c { status = some (record { state = to; held = nothing }); booting = none })
unfolding status_of read_status
ended-Shrinks c to k f g =
    let n : Cell = record c {
      status = some (record { state = to; held = nothing });
      booting = none;
    } in
    let at : (status_of n).state ≡ to = ap (λ x. or_standby x to) f ∙ or_standby-false to in
    let idle : claims (status_of n).state ≡ false = ap claims at ∙ g in
    (plain n f refl, none-HoldsLess c n (inl refl) (λ q. cc))

ends_from :
    (c : Cell) (s to : State)
    → IsKept c
    → (status_of c).state ≡ s
    → claims to ≡ false
    → Shrinks c (
        if may_end s c.frozen
        then record c { status = some (record { state = to; held = nothing }); booting = none }
        else c)
unfolding may_end claimed_by_frozen
ends_from c stopped to k e g = same-Shrinks c k
ends_from c starting to k e g = elim (Bool-cases c.frozen) [
  | inl y ↦ rw (ap not y) (same-Shrinks c k)
  | inr n ↦ rw (ap not n) (ended-Shrinks c to k n g)
]
ends_from c running to k e g =
    ended-Shrinks c to k (unfrozen c k (is_not e refl refl) (is_not e refl refl)) g
ends_from c paused to k e g =
    ended-Shrinks c to k (unfrozen c k (is_not e refl refl) (is_not e refl refl)) g
ends_from c standby to k e g = same-Shrinks c k
ends_from c stopping to k e g = same-Shrinks c k
ends_from c restarting to k e g =
    ended-Shrinks c to k (unfrozen c k (is_not e refl refl) (is_not e refl refl)) g
ends_from c failed to k e g = same-Shrinks c k

ended_state-claims : (d : RestartDecision) (clean : Bool) → claims (ended_state d clean) ≡ false
unfolding ended_state claims holds_resources is_active
ended_state-claims d clean = elim (Bool-cases d.restart) [
  | inl yes_ ↦ rw yes_ refl
  | inr no_ ↦ elim (Bool-cases clean) [ inl c ↦ rw (no_, c) refl | inr c ↦ rw (no_, c) refl ]
]

-- Every change but a standby that is left half done.
abbrev pub IsWhole : Change → Type 0
IsWhole half_freezes = ⊥
IsWhole x = Unit

-- No change makes an instance hold more than it did.
pub change-Shrinks : (x : Change) (c : Cell) → IsWhole x → IsKept c → Shrinks c (change x c)
unfolding change
change-Shrinks records_running c w k = records-Shrinks c c.booting k refl
change-Shrinks pauses c w k = pauses_from c (status_of c).state k refl
change-Shrinks resumes c w k = resumes_from c (status_of c).state k refl
change-Shrinks stops c w k = stops_from c (status_of c).state k refl
change-Shrinks fails c w k = fails-Shrinks c k
change-Shrinks freezes c w k = freezes_from c (status_of c).state k refl
change-Shrinks half_freezes c w k = absurd w
change-Shrinks discards c w k = discards-Shrinks c k
change-Shrinks removes c w k = removes-Shrinks c k
change-Shrinks (ends policy clean restarts ran_for) c w k =
    ends_from c (status_of c).state
      (ended_state (decide_restart policy clean restarts ran_for) clean) k refl
      (ended_state-claims (decide_restart policy clean restarts ran_for) clean)
