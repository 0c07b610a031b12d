-- ===== src/Image/Lasts.antt =====
-- An image that no call may remove lasts.
use dicer.Prelude.{
  ℕ, ◌≤◌, ◌≡◌, ◌≢◌, refl, sym, ap, subst, ◌∙◌, inl, inr, true, none, some, Option-cases, Bool-cases,
  List, [], ◌∷◌, All, ltb, arith, ◌==◌, if◌then◌else◌,
}
use dicer.Text.{Runes, runes_Eq}
use dicer.Maps.{lookup}
use dicer.Maps.Lookup.{ne_of_beq}
use dicer.Maps.Exact.{lookup-assign_ne, lookup-remove_ne}
use dicer.Image.{Image, Host, Images}
use dicer.Image.Removal.{among}
use dicer.Image.Removals.{IsIndexed}
use dicer.Image.Garbage.{mark_used}
use dicer.Image.Marks.{raised, raised_if, mark_used-same, mark_used-other}
use dicer.Image.Spares.{prune-Exact, collect_garbage-Spares}
use dicer.Image.Runs.{
  Call, create, use_image, delete, prune_unused, collect_unused, reindex, step, run, step-IsIndexed,
}

-- A call that may not remove an image: it deletes another one, or is told that it is in use.
abbrev pub Leaves : Runes → Call → Type 0
Leaves d (create image) = Unit
Leaves d (use_image digest at) = Unit
Leaves d (delete digest) = digest ≢ d
Leaves d (prune_unused in_use) = among d in_use ≡ true
Leaves d (collect_unused p in_use now) = among d in_use ≡ true

-- The same image, used no earlier.
pub record IsLater (i j : Image) : Type 0 where
  pub name : j.name ≡ i.name
  pub digest : j.digest ≡ i.digest
  pub size_bytes : j.size_bytes ≡ i.size_bytes
  pub last_used : i.last_used_at ≤ j.last_used_at

refl-IsLater : (i : Image) → IsLater i i
refl-IsLater i = record { name = refl; digest = refl; size_bytes = refl; last_used = omega arith }

IsLater-trans : (i j k : Image) → IsLater i j → IsLater j k → IsLater i k
IsLater-trans i j k h g = record {
  name = g.name ∙ h.name;
  digest = g.digest ∙ h.digest;
  size_bytes = g.size_bytes ∙ h.size_bytes;
  last_used = omega (arith, h.last_used, g.last_used);
}

raised-IsLater : (now : ℕ) (i : Image) → IsLater i (raised now i)
raised-IsLater now i = elim (Bool-cases (ltb i.last_used_at now)) [
  | inl y ↦
      rw y (record { name = refl; digest = refl; size_bytes = refl; last_used = ground (arith, y) })
  | inr n ↦ rw n (refl-IsLater i)
]

module _ {R : Type 0} (ops : Host R) (d : Runes) where
  -- The image is there, and used no earlier.
  abbrev pub Lasts : Image → Images R → Type 0
  Lasts i st = (j : Image) × (lookup d st.index ≡ some j) × IsLater i j

  created-Lasts :
      (image i : Image) (st : Images R)
      → lookup d st.index ≡ some i
      → Lasts i (step ops (create image) st)
  created-Lasts image i st f = elim (Option-cases (lookup image.digest st.index)) [
    | inr (held, h) ↦ rw (step, reindex, h) (i, f, refl-IsLater i)
    | inl absent ↦
        let ne =
          λ (e : image.digest ≡ d). none_some (sym absent ∙ ap (λ k. lookup k st.index) e ∙ f) in
        rw (step, reindex, absent)
          (i, lookup-assign_ne d image.digest image st.index ne ∙ f, refl-IsLater i)
  ]
    where
      none_some : none ≡ some i → ⊥
      none_some e = cc

  used-Lasts :
      (digest : Runes) (at : ℕ) (i : Image) (st : Images R)
      → lookup d st.index ≡ some i
      → Lasts i (mark_used ops digest at st)
  used-Lasts digest at i st f = elim (Bool-cases (digest == d)) [
    | inl y ↦
        let q = (runes_Eq.same_iff digest d).0 y in
        (
          raised at i,
          subst (λ k. lookup d (mark_used ops k at st).index ≡ some (raised at i)) (sym q)
              (mark_used-same ops at d st f),
          raised-IsLater at i,
        )
    | inr n ↦ (i, mark_used-other ops at digest d st (ne_of_beq digest d n) ∙ f, refl-IsLater i)
  ]

  deleted-Lasts :
      (digest : Runes) (i : Image) (st : Images R)
      → digest ≢ d
      → lookup d st.index ≡ some i
      → Lasts i (step ops (delete digest) st)
  deleted-Lasts digest i st ne f = elim (Option-cases (lookup digest st.index)) [
    | inl h ↦ rw (step, reindex, h) (i, f, refl-IsLater i)
    | inr (held, h) ↦
        rw (step, reindex, h) (i, lookup-remove_ne d digest st.index ne ∙ f, refl-IsLater i)
  ]

  step-Lasts :
      (c : Call) (i : Image) (st : Images R)
      → IsIndexed st.index
      → Leaves d c
      → lookup d st.index ≡ some i
      → Lasts i (step ops c st)
  step-Lasts (create image) i st h l f = created-Lasts image i st f
  step-Lasts (use_image digest at) i st h l f = used-Lasts digest at i st f
  step-Lasts (delete digest) i st h l f = deleted-Lasts digest i st l f
  step-Lasts (prune_unused in_use) i st h l f = (
    i,
    prune-Exact ops in_use st h d ∙ ap (λ b. if b then lookup d st.index else none) l ∙ f,
    refl-IsLater i,
  )
  step-Lasts (collect_unused p in_use now) i st h l f = (
    raised now i,
    collect_garbage-Spares ops in_use now p d st h f (inl l) ∙ ap (λ b. some (raised_if b now i)) l,
    raised-IsLater now i,
  )

  -- Whatever calls come, and whatever the host makes of them: an image that none of them deletes, and
  -- that is in use in every prune and collection, stays as it is, another pull of it and failures
  -- included, and the time of its last use never goes back; as long as the index has one entry to
  -- each digest, which is its image's.
  pub run-Lasts :
      (calls : List Call) (i : Image) (st : Images R)
      → IsIndexed st.index
      → All (Leaves d) calls
      → lookup d st.index ≡ some i
      → Lasts i (run ops calls st)
  run-Lasts [] i st h l f = (i, f, refl-IsLater i)
  run-Lasts (c ∷ calls) i st h (l, ls) f =
      let (j, g, later) = step-Lasts c i st h l f in
      let (k, e, last) = run-Lasts calls j (step ops c st) (step-IsIndexed ops c st h) ls g in
      (k, e, IsLater-trans i j k later last)
