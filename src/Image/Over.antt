-- ===== src/Image/Over.antt =====
-- The part of a collection that is about the size of the store.
use dicer.Prelude.{
  ℕ, ◌≤◌, ◌<◌, ◌-◌, ◌≡◌, refl, sym, ap, ◌∙◌, ◌⊎◌, inl, inr, true, false, none, some, List, [], ◌∷◌,
  ◌++◌, ltb, ◌==◌, nat_Eq, Bool-cases, subst, In, In-append, In-append_right, In-append_left,
  All-In, arith, filter, filter-In, In-filter, ltb→lt,
}
use dicer.Text.{Runes, runes_Eq}
use dicer.Maps.{lookup}
use dicer.Image.{Image, Host, Images}
use dicer.Image.Index.{Index, list}
use dicer.Image.Removals.{IsIndexed, lookup-list, list-lookup, digest-cases}
use dicer.Image.Sorting.{Before, AreOrdered, sort-AreOrdered, sort-In}
use dicer.Image.Garbage.{
  GcPolicy, unused, size, GcRemoval, GcResult, GcRun, is_collectable, collectable_images,
  expired_images, collect_over, store_size,
}
use dicer.Image.Drops.{Drops, Stops}
use dicer.Image.Loop.{collect_for_size-Stops}
use dicer.Image.Spares.{collectable-In}

-- What is still there was there before, and is none of what was dropped.
pub still_there :
    (images : List Image) (x y : Index)
    → Drops images x y
    → IsIndexed x
    → (j : Image) → In j (list y)
    → In j (list x) × (In j images → ⊥)
still_there images x y s h j m =
    let here = list-lookup j y (s.indexed h) m in
    let not_dropped : In j images → ⊥ = λ k. gone_here (s.gone j k) here in
    elim (digest-cases j.digest images) [
      | inl other ↦
          ((lookup-list j.digest x h (sym (s.others j.digest other) ∙ here)).0, not_dropped)
      | inr (i, k, e) ↦ absurd (gone_here (ap (λ d. lookup d y) (sym e) ∙ s.gone i k) here)
    ]
  where
    gone_here : lookup j.digest y ≡ none → lookup j.digest y ≡ some j → ⊥
    gone_here a b = some_none (sym a ∙ b)
      where
        some_none : none ≡ some j → ⊥
        some_none q = cc

ordered_apart :
    (xs ys : List Image) → AreOrdered (xs ++ ys) → (a b : Image) → In a xs → In b ys → Before a b
ordered_apart [] ys h a b m k = absurd m.1
ordered_apart (x ∷ xs) ys h a b (inr m) k = ordered_apart xs ys h.1 a b m k
ordered_apart (x ∷ xs) ys h a b (inl e) k =
    subst (λ c. Before c b) (sym e) (All-In (Before x) b (xs ++ ys) h.0 (In-append_right b xs ys k))

module _ {R : Type 0} (ops : Host R) (in_use : List Runes) (now : ℕ) (p : GcPolicy) where
  -- Unused for too long, or removed for the size, before all that is left to collect.
  abbrev pub IsJustified : GcRemoval → Index → Type 0
  IsJustified r x =
      (is_collectable in_use now r.image ≡ true)
      × (((r.reason ≡ unused) × (p.max_unused_age < now - r.image.last_used_at))
          ⊎ ((r.reason ≡ size)
              × ((j : Image)
                  → In j (list x)
                  → is_collectable in_use now j ≡ true
                  → Before r.image j)))

  abbrev pub IsExpired : GcRemoval → Type 0
  IsExpired r =
      (is_collectable in_use now r.image ≡ true)
      × (r.reason ≡ unused)
      × (p.max_unused_age < now - r.image.last_used_at)

  -- The store is within the limit, or nothing is left to collect.
  abbrev pub IsWithin : Images R → Type 0
  IsWithin st =
      ((n : ℕ) × (store_size ops st ≡ some n) × (n ≤ p.max_size))
      ⊎ ((j : Image) → In j (list st.index) → is_collectable in_use now j ≡ false)

  -- What a collection without an error promises of the store at its end.
  abbrev pub IsCollected : Images R → Type 0
  IsCollected st =
      (0 < p.max_unused_age
        → (j : Image) → In j (list st.index)
        → is_collectable in_use now j ≡ true
        → now - j.last_used_at ≤ p.max_unused_age)
      × (0 < p.max_size → IsWithin st)

  collectable-AreOrdered : (images : List Image) → AreOrdered (collectable_images in_use now images)
  unfolding collectable_images
  collectable-AreOrdered images = sort-AreOrdered (filter (is_collectable in_use now) images)

  In-collectable :
      (j : Image) (images : List Image)
      → In j images
      → is_collectable in_use now j ≡ true
      → In j (collectable_images in_use now images)
  unfolding collectable_images
  In-collectable j images m y = sort-In j _ (In-filter (is_collectable in_use now) j images y m)

  pub expired-In :
      (i : Image) (images : List Image)
      → In i (expired_images in_use now p images)
      → (is_collectable in_use now i ≡ true) × (p.max_unused_age < now - i.last_used_at)
  unfolding expired_images
  expired-In i images m = elim (Bool-cases (p.max_unused_age == 0)) [
    | inl y ↦ absurd ((rw y at m).1)
    | inr n ↦
        let (k, l) =
          filter-In (λ (j : Image). ltb p.max_unused_age (now - j.last_used_at)) i
            (collectable_images in_use now images) (rw n at m) in
        ((collectable-In ops in_use now i images k).1, ltb→lt _ _ l)
  ]

  pub In-expired :
      (i : Image) (images : List Image)
      → In i images
      → is_collectable in_use now i ≡ true
      → 0 < p.max_unused_age
      → p.max_unused_age < now - i.last_used_at
      → In i (expired_images in_use now p images)
  unfolding expired_images
  In-expired i images m y l k =
      let limited : (p.max_unused_age == 0) ≡ false = ground (arith, l) in
      let old : ltb p.max_unused_age (now - i.last_used_at) ≡ true = ground (arith, k) in
      rw limited (
        In-filter (λ (j : Image). ltb p.max_unused_age (now - j.last_used_at)) i _ old
          (In-collectable i images m y))

  module _ (result : GcResult) (st : Images R) (h : IsIndexed st.index) where
    abbrev over : GcRun ops
    over = collect_over ops p in_use now result st

    -- Without a limit nothing is collected; with one, the loop runs.
    pub over-cases :
        ((p.max_size ≡ 0) × (over ≡ record { store = st; result = result; error = none }))
        ⊎ Stops ops p.max_size (collectable_images in_use now (list st.index)) result st over
    unfolding collect_over
    over-cases = elim (Bool-cases (p.max_size == 0)) [
      | inl y ↦ inl (ground (arith, y), rw y refl)
      | inr n ↦ inr (
          rw n (
            collect_for_size-Stops ops p.max_size (collectable_images in_use now (list st.index))
              result st))
    ]

    pub over-In : (j : Image) → In j (list over.store.index) → In j (list st.index)
    over-In j m = elim over-cases [
      | inl (_, e) ↦ subst (λ (run : GcRun ops). In j (list run.store.index)) e m
      | inr s ↦ (still_there s.done st.index over.store.index s.drops h j m).0
    ]

    module _
        (s : Stops ops p.max_size
          (collectable_images in_use now (list st.index))
          result
          st
          over) where
      -- What can still be collected is left of the loop's images.
      In-left :
          (j : Image)
          → In j (list over.store.index)
          → is_collectable in_use now j ≡ true
          → In j s.left
      In-left j m y =
          let (k, not_done) = still_there s.done st.index over.store.index s.drops h j m in
          elim (In-append j s.done s.left
            (subst (In j) s.whole (In-collectable j (list st.index) k y))) [
              | inl d ↦ absurd (not_done d)
              | inr l ↦ l
            ]

      done-Justified :
          (r : GcRemoval) → r.reason ≡ size → In r.image s.done → IsJustified r over.store.index
      done-Justified r e m =
          let ordered = subst AreOrdered s.whole (collectable-AreOrdered (list st.index)) in
          let (_, y) =
            collectable-In ops in_use now r.image (list st.index)
              (subst (In r.image) (sym s.whole) (In-append_left r.image s.done s.left m)) in
          (y, inr (e, λ j k c. ordered_apart s.done s.left ordered r.image j m (In-left j k c)))

      none_left :
          s.left ≡ []
          → (j : Image) → In j (list over.store.index)
          → is_collectable in_use now j ≡ false
      none_left e j m = elim (Bool-cases (is_collectable in_use now j)) [
        | inl y ↦ absurd ((subst (In j) e (In-left j m y)).1)
        | inr n ↦ n
      ]

    pub over-Justified :
        (r : GcRemoval)
        → In r over.result.removed
        → In r result.removed ⊎ IsJustified r over.store.index
    over-Justified r m = elim over-cases [
      | inl (_, e) ↦ inl (subst (λ (run : GcRun ops). In r run.result.removed) e m)
      | inr s ↦ elim (s.answers r m) [
        | inl old ↦ inl old
        | inr (e, k) ↦ inr (done-Justified s r e k)
      ]
    ]

    pub over-Within : over.error ≡ none → 0 < p.max_size → IsWithin over.store
    over-Within e l = elim over-cases [
      | inl (z, _) ↦ absurd (omega (arith, z, l))
      | inr s ↦ elim (s.stops e) [ inl q ↦ inr (none_left s q) | inr w ↦ inl w ]
    ]
