-- ===== src/Event/Trim.antt =====
-- What `Log.trim` drops, and so what Record leaves in memory.
use dicer.Prelude.{
  ℕ, ◌+◌, ◌-◌, ◌≤◌, ◌<◌, ◌≡◌, refl, inl, inr, List, [], ◌∷◌, ◌++◌, arith, length, drop, take,
  length-drop, drop-drop, All, Bool-cases, ltb,
}
use dicer.Event.{Event}
use dicer.Event.Log.{Log, aged, trim_count, stamp, record_event}
use dicer.Event.Records.{appended, record_event-events}

-- Stamped more than `max_age` before `now`.
abbrev IsAged : ℕ → ℕ → Event → Type 0
IsAged now max_age e = e.time + max_age < now

-- The first of the events is not.
abbrev HeadIsRecent : ℕ → ℕ → List Event → Type 0
HeadIsRecent now max_age [] = Unit {0}
HeadIsRecent now max_age (e ∷ es) = now ≤ e.time + max_age

aged-All :
    (now max_age : ℕ) (es : List Event) → All (IsAged now max_age) (take (aged now max_age es) es)
unfolding aged
aged-All now max_age [] = tt
aged-All now max_age (e ∷ es) = elim (Bool-cases (ltb (e.time + max_age) now)) [
  | inl old ↦ rw old (ground arith, aged-All now max_age es)
  | inr recent ↦ rw recent tt
]

aged-HeadIsRecent :
    (now max_age : ℕ) (es : List Event) → HeadIsRecent now max_age (drop (aged now max_age es) es)
unfolding aged
aged-HeadIsRecent now max_age [] = tt
aged-HeadIsRecent now max_age (e ∷ es) = elim (Bool-cases (ltb (e.time + max_age) now)) [
  | inl old ↦ rw old (aged-HeadIsRecent now max_age es)
  | inr recent ↦ rw recent (ground arith)
]

-- `kept` is what is left of `events`: the last of them; no more than `max_count`; and with an age
-- limit none before the first recent one among the last `max_count`, all of those left out being
-- aged. Without an age limit nothing else is left out.
pub record Retains (now max_count max_age : ℕ) (events kept : List Event) : Type 0 where
  pub dropped : ℕ
  pub suffix : kept ≡ drop dropped events
  pub counted : length kept ≤ max_count
  pub over : length events - max_count ≤ dropped
  pub recent : 0 < max_age → HeadIsRecent now max_age kept
  pub only_aged :
      All
        (IsAged now max_age)
        (take (dropped - (length events - max_count)) (drop (length events - max_count) events))
  pub no_age : max_age ≡ 0 → dropped ≡ length events - max_count

trim_count-Retains :
    (now : ℕ) (l : Log)
    → Retains now l.max_count l.max_age l.events (drop (trim_count now l) l.events)
unfolding trim_count
trim_count-Retains now l = elim (Bool-cases (ltb 0 l.max_age)) [
  | inl limited ↦
      let over : ℕ = length l.events - l.max_count in
      let n : ℕ = aged now l.max_age (drop over l.events) in
      let e : over + n - over ≡ n = omega arith in
      rw limited (record {
        dropped = over + n;
        suffix = refl;
        counted = omega (arith, length-drop {0} (over + n) l.events);
        over = omega arith;
        recent = λ _.
            rw (← drop-drop over n l.events) (aged-HeadIsRecent now l.max_age (drop over l.events));
        only_aged = rw e (aged-All now l.max_age (drop over l.events));
        no_age = λ z. absurd (ground arith);
      })
  | inr unlimited ↦
      let over : ℕ = length l.events - l.max_count in
      let e : over - over ≡ 0 = omega arith in
      rw unlimited (record {
        dropped = over;
        suffix = refl;
        counted = omega (arith, length-drop {0} over l.events);
        over = omega arith;
        recent = λ h. absurd (ground arith);
        only_aged = rw e tt;
        no_age = λ _. refl;
      })
]

-- After Record the log keeps the newest of its events and the new one: at most `max_count`, the
-- first of them not older than the age limit if there is one, and every one left out either
-- beyond `max_count` or aged.
pub record_event-Retains :
    (stamped now : ℕ) (e : Event) (l : Log)
    → Retains now l.max_count l.max_age
        (l.events ++ stamp stamped e ∷ [])
        (record_event stamped now e l).0.events
record_event-Retains stamped now e l =
    rw (record_event-events stamped now e l) (trim_count-Retains now (appended stamped now e l))
