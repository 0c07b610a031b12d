-- ===== src/Instance/Runs.antt =====
-- Any steps of a host's operations keep it safe.
use dicer.Prelude.{
  ◌≡◌, ◌⊎◌, refl, sym, ap, ◌∙◌, subst, inl, inr, Bool, true, false, not, ◌&&◌, Option, none, some,
  List, [], ◌∷◌, map, ◌==◌, string_Eq, arith, Bool-cases, Option-cases, In, In-map_inv, All-of_In,
  All-In, All, Distinct,
}
use dicer.Instance.{
  Resources, State, stopped, starting, running, paused, standby, stopping, restarting, failed,
}
use dicer.Instance.Host.{Spec, Cell, Host, status_of, is_active, holds_resources, set, stored}
use dicer.Instance.Holdings.{sum-replace, vcpus_of, memory_of}
use dicer.Instance.Cells.{claims, IsKept, Shrinks, refl-HoldsLess}
use dicer.Instance.Shrinking.{IsWhole, change-Shrinks}
use dicer.Instance.Safe.{Fits, IsSafe, set-elim, shrunk-IsSafe}
use dicer.Instance.Starts.{begin_boot-IsSafe}
use dicer.Instance.Edits.{reserve-IsSafe, creates-IsSafe, deletes-IsSafe}
use dicer.Instance.Steps.{
  Action, admits, reserves, changes, creates, updates, deletes, crashes, change, replace, step, run,
  is_idle, is_running, is_stopped,
}

replace_id : (u s : Spec) → (replace u s).id ≡ s.id
unfolding replace
replace_id u s = elim (Bool-cases (s.id == u.id)) [
  | inl yes_ ↦ rw yes_ (sym ((string_Eq.same_iff s.id u.id).0 yes_))
  | inr no_ ↦ rw no_ refl
]

Distinct-replace :
    (u : Spec) (ss : List Spec)
    → Distinct (λ s. s.id) ss
    → Distinct (λ s. s.id) (map (replace u) ss)
Distinct-replace u [] h = tt
Distinct-replace u (s ∷ ss) (ne, h) = (
  All-of_In _ (map (replace u) ss) (λ a x q.
      let (b, y, e) = In-map_inv (replace u) a ss x in
      All-In _ b ss ne y (sym (ap (λ (k : Spec). k.id) e ∙ replace_id u b) ∙ q ∙ replace_id u s)),
  Distinct-replace u ss h,
)

-- An instance of a changed list is as it was, or it is one that claims nothing.
replaced-cases : (u s : Spec) → (replace u s ≡ s) ⊎ ((replace u s).id ≡ u.id)
unfolding replace
replaced-cases u s = elim (Bool-cases (s.id == u.id)) [
  | inl yes_ ↦ inr (rw yes_ refl)
  | inr no_ ↦ inl (rw no_ refl)
]

updates-IsSafe :
    (capacity : Option Resources) (u : Spec) (h : Host)
    → IsSafe capacity h
    → claims (status_of (h.cells u.id)).state ≡ false
    → IsSafe capacity (record h { instances = map (replace u) h.instances })
updates-IsSafe capacity u h s idle = record {
  distinct = Distinct-replace u h.instances s.distinct;
  kept = s.kept;
  room = fits capacity s.room;
  exclusive = λ a b x y ne p q.
      let (a', x', e) = In-map_inv (replace u) a h.instances x in
      let (b', y', f) = In-map_inv (replace u) b h.instances y in
      let a_is = unchanged a a' e p in
      let b_is = unchanged b b' f q in
      s.exclusive a b (subst (λ k. In k h.instances) (sym a_is) x')
        (subst (λ k. In k h.instances) (sym b_is) y') ne p q;
}
  where
    unchanged :
        (a a' : Spec) → a ≡ replace u a' → claims (status_of (h.cells a.id)).state ≡ true → a ≡ a'
    unchanged a a' e p = elim (replaced-cases u a') [
      | inl same ↦ e ∙ same
      | inr other ↦
          let q =
            ap (λ i. claims (status_of (h.cells i)).state) (ap (λ (k : Spec). k.id) e ∙ other) in
          cc (sym q ∙ p)
    ]

    fits :
        (o : Option Resources)
        → Fits o h
        → Fits o (record h { instances = map (replace u) h.instances })
    fits none r = tt
    fits (some allocatable) r = (
      omega (arith, r.0, sum-replace (vcpus_of h.cells) u h.instances),
      omega (arith, r.1, sum-replace (memory_of h.cells) u h.instances),
    )

unbooted_cell : (c : Cell) → IsKept c → Shrinks c (record c { booting = none })
unfolding status_of
unbooted_cell c k = (
  record { booted = λ n q. cc; kept_frozen = k.kept_frozen },
  record {
    vcpus_le = (refl-HoldsLess c).vcpus_le;
    memory_le = (refl-HoldsLess c).memory_le;
    claims_le = λ q. q;
  },
)

idle_none : (b : Option Resources) → is_idle b ≡ true → b ≡ none
unfolding is_idle
idle_none none h = refl
idle_none (some n) h = cc

and-left : (a b : Bool) → (a && b) ≡ true → a ≡ true
and-left a b h = ground arith

running_of : (s : State) → is_running s ≡ true → s ≡ running
unfolding is_running
running_of stopped h = cc
running_of starting h = cc
running_of running h = refl
running_of paused h = cc
running_of standby h = cc
running_of stopping h = cc
running_of restarting h = cc
running_of failed h = cc

stopped_unclaimed : (s : State) → is_stopped s ≡ true → claims s ≡ false
unfolding is_stopped claims holds_resources is_active
stopped_unclaimed stopped h = refl
stopped_unclaimed starting h = cc
stopped_unclaimed running h = cc
stopped_unclaimed paused h = cc
stopped_unclaimed standby h = cc
stopped_unclaimed stopping h = cc
stopped_unclaimed restarting h = cc
stopped_unclaimed failed h = cc

-- Every step but a standby that is left half done.
abbrev pub IsWholeStep : Action → Type 0
IsWholeStep (changes id c) = IsWhole c
IsWholeStep a = Unit

step-IsSafe :
    (capacity : Option Resources) (a : Action) (h : Host)
    → IsWholeStep a
    → IsSafe capacity h
    → IsSafe capacity (step capacity a h)
unfolding step
step-IsSafe capacity (admits id need) h w s =
    elim (Bool-cases
      (is_idle (h.cells id).booting && not (is_active (status_of (h.cells id)).state))) [
        | inl go ↦ rw go (begin_boot-IsSafe capacity id need h s (idle_none _ (and-left _ _ go)))
        | inr halt ↦ rw halt s
      ]
step-IsSafe capacity (reserves id need) h w s =
    elim (Bool-cases (is_running (status_of (h.cells id)).state)) [
      | inl go ↦ rw go (reserve-IsSafe capacity id need h s (running_of _ go))
      | inr halt ↦ rw halt s
    ]
step-IsSafe capacity (changes id c) h w s =
    shrunk-IsSafe capacity h (set id (change c (h.cells id)) h.cells) s (
      set-elim (λ i k. Shrinks (h.cells i) k) id (change c (h.cells id)) h.cells
        (change-Shrinks c (h.cells id) w (s.kept id))
        (λ other ne. (s.kept other, refl-HoldsLess (h.cells other))))
step-IsSafe capacity (creates t) h w s = elim (Option-cases (stored t.id h.instances)) [
  | inl new ↦ rw (step, new) (creates-IsSafe capacity t h s new)
  | inr (old, known) ↦ rw (step, known) s
]
step-IsSafe capacity (updates u) h w s =
    elim (Bool-cases
      (is_stopped (status_of (h.cells u.id)).state && is_idle (h.cells u.id).booting)) [
        | inl go ↦ rw go (updates-IsSafe capacity u h s (stopped_unclaimed _ (and-left _ _ go)))
        | inr halt ↦ rw halt s
      ]
step-IsSafe capacity (deletes id) h w s = elim (Bool-cases (is_idle (h.cells id).booting)) [
  | inl go ↦ rw go (deletes-IsSafe capacity id h s)
  | inr halt ↦ rw halt s
]
step-IsSafe capacity crashes h w s =
    shrunk-IsSafe capacity h (λ id. record (h.cells id) { booting = none }) s
      (λ id. unbooted_cell (h.cells id) (s.kept id))

-- Whatever the callers, the watchers and restarts of the daemon do, what the instances of a host
-- hold together stays within its capacity, no two instances that hold resources or are on standby
-- share a host port or a volume that one of them may write, and an instance with a frozen guest is
-- on standby or being started; as long as no standby is left half done, with its frozen guest in
-- place and its runtime directory there, by a crash of the daemon between the two or a removal that
-- fails.
pub run-IsSafe :
    (capacity : Option Resources) (actions : List Action) (h : Host)
    → All IsWholeStep actions
    → IsSafe capacity h
    → IsSafe capacity (run capacity actions h)
unfolding run
run-IsSafe capacity [] h w s = s
run-IsSafe capacity (a ∷ actions) h (w, ws) s =
    run-IsSafe capacity actions (step capacity a h) ws (step-IsSafe capacity a h w s)
