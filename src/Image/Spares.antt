-- ===== src/Image/Spares.antt =====
-- What collections and prunes spare.
use dicer.Prelude.{
  ℕ, ◌<◌, ◌-◌, ◌≡◌, ◌≢◌, refl, sym, ap, ◌∙◌, ◌⊎◌, inl, inr, Bool, true, false, not, Option, none,
  some, List, [], ◌∷◌, ltb, ◌==◌, nat_Eq, Bool-cases, Option-cases, subst, In, All, All-In,
  All-of_In, ◌++◌, some_eq, if◌then◌else◌, arith, filter, filter-In, In-filter, lt→ltb,
}
use dicer.Text.{Runes, runes_Eq}
use dicer.Maps.{lookup}
use dicer.Errors.{Error}
use dicer.Image.{Image, Host, Images}
use dicer.Image.Index.{Index, list}
use dicer.Image.Removal.{among, prune, remove_images}
use dicer.Image.Removals.{IsIndexed, lookup-list, list-lookup}
use dicer.Image.Sorting.{sort-In_inv}
use dicer.Image.Garbage.{
  GcPolicy, unused, GcResult, GcRun, is_collectable, collectable_images, expired_images, collect,
  collect_over, and_then, mark_all, collect_garbage, gc_grace_period,
}
use dicer.Image.Drops.{collect-Drops, remove_images-Drops}
use dicer.Image.Loop.{collect_for_size-Stops}
use dicer.Image.Marks.{raised, raised_if, mark_all-IsIndexed, mark_all-lookup}

not_both : (b : Bool) → b ≡ true → b ≡ false → ⊥
not_both b y n = cc

module _ {R : Type 0} (ops : Host R) (in_use : List Runes) where
  kept_by_prune :
      (d : Runes) (st : Images R)
      → among d in_use ≡ true
      → All (λ i. i.digest ≢ d) (filter (λ i. not (among i.digest in_use)) (list st.index))
  kept_by_prune d st y = All-of_In _ _ (λ i m e.
      let (_, n) = filter-In (λ (j : Image). not (among j.digest in_use)) i (list st.index) m in
      not_both (among i.digest in_use) (ap (λ k. among k in_use) e ∙ y) (ground (arith, n)))

  -- After a prune, whether it fails or not, the index holds just the images that are in use; as
  -- long as it had one entry to each digest, which is its image's.
  pub prune-Exact :
      (st : Images R)
      → IsIndexed st.index
      → (d : Runes)
      → lookup d (prune ops in_use st).store.index
        ≡ (if among d in_use then lookup d st.index else none)
  unfolding prune
  prune-Exact st h d =
      let dropped =
        remove_images-Drops ops (filter (λ i. not (among i.digest in_use)) (list st.index)) st in
      elim (Bool-cases (among d in_use)) [
        | inl y ↦ rw y (dropped.others d (kept_by_prune d st y))
        | inr n ↦ rw n (elim (Option-cases (lookup d st.index)) [
          | inl f ↦ dropped.stay_gone d f
          | inr (i, f) ↦
              let (m, q) = lookup-list d st.index h f in
              let own : not (among i.digest in_use) ≡ true =
                ap not (ap (λ k. among k in_use) (sym q) ∙ n) in
              subst
                (λ k.
                  lookup k
                    (remove_images ops (filter (λ j. not (among j.digest in_use)) (list st.index))
                      st).store.index
                  ≡ none)
                (sym q)
                (dropped.gone i
                  (In-filter (λ (j : Image). not (among j.digest in_use)) i (list st.index) own m))
        ])
      ]

  All-left :
      (d : Runes) (xs ys : List Image)
      → All (λ i. i.digest ≢ d) (xs ++ ys)
      → All (λ i. i.digest ≢ d) xs
  All-left d [] ys h = tt
  All-left d (x ∷ xs) ys h = (h.0, All-left d xs ys h.1)

  module _ (now : ℕ) where
    pub collectable-In :
        (i : Image) (images : List Image)
        → In i (collectable_images in_use now images)
        → In i images × (is_collectable in_use now i ≡ true)
    unfolding collectable_images
    collectable-In i images m = filter-In (is_collectable in_use now) i images (sort-In_inv i _ m)

    -- An image that is not to be collected has no digest of those that are.
    spared :
        (d : Runes) (x : Index) {i : Image}
        → IsIndexed x
        → lookup d x ≡ some i
        → is_collectable in_use now i ≡ false
        → All (λ j. j.digest ≢ d) (collectable_images in_use now (list x))
    spared d x {i} h f n = All-of_In _ _ (λ j m e.
        let (k, y) = collectable-In j (list x) m in
        let same : j ≡ i = some_eq (sym (list-lookup j x h k) ∙ ap (λ a. lookup a x) e ∙ f) in
        not_both (is_collectable in_use now j) y (ap (is_collectable in_use now) same ∙ n))

    All-filter :
        (p : Image → Bool) (d : Runes) (images : List Image)
        → All (λ i. i.digest ≢ d) images
        → All (λ i. i.digest ≢ d) (filter p images)
    All-filter p d images h = All-of_In _ _ (λ i m. All-In _ i images h (filter-In p i images m).0)

    expired_spared :
        (p : GcPolicy) (d : Runes) (x : Index) {i : Image}
        → IsIndexed x
        → lookup d x ≡ some i
        → is_collectable in_use now i ≡ false
        → All (λ j. j.digest ≢ d) (expired_images in_use now p (list x))
    unfolding expired_images
    expired_spared p d x h f n = elim (Bool-cases (p.max_unused_age == 0)) [
      | inl y ↦ rw y tt
      | inr m ↦ rw m (All-filter _ d _ (spared d x h f n))
    ]

    collect_over-spares :
        (p : GcPolicy) (result : GcResult) (d : Runes) (st : Images R) {i : Image}
        → IsIndexed st.index
        → lookup d st.index ≡ some i
        → is_collectable in_use now i ≡ false
        → lookup d (collect_over ops p in_use now result st).store.index ≡ some i
    unfolding collect_over
    collect_over-spares p result d st h f n = elim (Bool-cases (p.max_size == 0)) [
      | inl y ↦ rw y f
      | inr m ↦
          let s =
            collect_for_size-Stops ops p.max_size (collectable_images in_use now (list st.index))
              result st in
          let all = spared d st.index h f n in
          rw m (
            s.drops.others d
              (All-left d s.done s.left (subst (λ x. All (λ i. i.digest ≢ d) x) s.whole all))
            ∙ f)
    ]

    then_spares :
        (p : GcPolicy) (d : Runes) (run : GcRun ops) {i : Image}
        → IsIndexed run.store.index
        → lookup d run.store.index ≡ some i
        → is_collectable in_use now i ≡ false
        → (e : Option Error)
        → lookup d (and_then ops e run (collect_over ops p in_use now)).store.index ≡ some i
    then_spares p d run h f n none = collect_over-spares p run.result d run.store h f n
    then_spares p d run h f n (some e) = f

    not_collectable :
        (d : Runes) (i : Image)
        → d ≡ i.digest
        → (among d in_use ≡ true) ⊎ (now - i.last_used_at < gc_grace_period)
        → is_collectable in_use now (raised_if (among d in_use) now i) ≡ false
    not_collectable d i q h = elim (Bool-cases (among d in_use)) [
      | inl y ↦ rw y (marked_kept (ap (λ k. among k in_use) (sym q) ∙ y))
      | inr n ↦ elim h [
        | inl y ↦ absurd (not_both (among d in_use) y n)
        | inr l ↦
            let recent : ltb (now - i.last_used_at) gc_grace_period ≡ true = lt→ltb _ _ l in
            rw (n, recent) (ground arith)
      ]
    ]
      where
        marked_kept :
            among i.digest in_use ≡ true → is_collectable in_use now (raised now i) ≡ false
        marked_kept y = elim (Bool-cases (ltb i.last_used_at now)) [
          | inl l ↦ rw (l, y) refl
          | inr l ↦ rw (l, y) refl
        ]

    -- Whatever a collection collects, and whether it fails or not, an image in use stays, marked as
    -- used now, and so does one that was used within the grace period; as long as the index has one
    -- entry to each digest, which is its image's.
    pub collect_garbage-Spares :
        (p : GcPolicy) (d : Runes) (st : Images R) {i : Image}
        → IsIndexed st.index
        → lookup d st.index ≡ some i
        → (among d in_use ≡ true) ⊎ (now - i.last_used_at < gc_grace_period)
        → lookup d (collect_garbage ops p in_use now st).store.index
          ≡ some (raised_if (among d in_use) now i)
    unfolding collect_garbage
    collect_garbage-Spares p d st {i} h f u =
        let st1 = mark_all ops in_use now st in
        let h1 = mark_all-IsIndexed ops now in_use st h in
        let f1 = mark_all-lookup ops now in_use d st f in
        let n = not_collectable d i (lookup-list d st.index h f).1 u in
        let images = expired_images in_use now p (list st1.index) in
        let none_yet : GcResult = record { removed = []; reclaimed_bytes = 0 } in
        let dropped = collect-Drops ops images unused none_yet st1 in
        let run = collect ops images unused none_yet st1 in
        then_spares p d run (dropped.indexed h1)
          (dropped.others d (expired_spared p d st1.index h1 f1 n) ∙ f1) n run.error
