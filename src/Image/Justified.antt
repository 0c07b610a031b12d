-- ===== src/Image/Justified.antt =====
-- Why a collection removes what it removes, and what it leaves.
use dicer.Prelude.{
  ℕ, ◌≤◌, ◌<◌, ◌-◌, ◌≡◌, refl, ◌∙◌, inl, inr, true, Option, none, some, List, [], ltb, nat_Eq,
  Bool-cases, In, arith, ltb→lt,
}
use dicer.Text.{Runes, runes_Eq}
use dicer.Errors.{Error}
use dicer.Image.{Image, Host, Images}
use dicer.Image.Index.{list}
use dicer.Image.Removals.{IsIndexed}
use dicer.Image.Garbage.{
  GcPolicy, unused, GcRemoval, GcRun, is_collectable, expired_images, collect, collect_over,
  and_then, mark_all, collect_garbage,
}
use dicer.Image.Drops.{Drops, collect-Drops, collect-Answers}
use dicer.Image.Marks.{mark_all-IsIndexed}
use dicer.Image.Over.{
  still_there, IsJustified, IsExpired, expired-In, IsCollected, In-expired, over-In, over-Justified,
  over-Within,
}

module _ {R : Type 0} (ops : Host R) (in_use : List Runes) (now : ℕ) (p : GcPolicy) where
  module _ (st : Images R) (h : IsIndexed st.index) where
    abbrev marked_st : Images R
    marked_st = mark_all ops in_use now st

    abbrev expired : List Image
    expired = expired_images in_use now p (list marked_st.index)

    abbrev first : GcRun ops
    first = collect ops expired unused (record { removed = []; reclaimed_bytes = 0 }) marked_st

    first-Drops : Drops expired marked_st.index first.store.index
    first-Drops = collect-Drops ops expired unused _ marked_st

    first-IsIndexed : IsIndexed first.store.index
    first-IsIndexed = first-Drops.indexed (mark_all-IsIndexed ops now in_use st h)

    first-IsExpired : (r : GcRemoval) → In r first.result.removed → IsExpired ops in_use now p r
    first-IsExpired r m = elim (collect-Answers ops expired unused _ marked_st r m) [
      | inl old ↦ absurd old.1
      | inr (e, k) ↦
          let (y, l) = expired-In ops in_use now p r.image (list marked_st.index) k in (y, e, l)
    ]

    -- No image that is over the age is left.
    first-none_old :
        0 < p.max_unused_age
        → (j : Image) → In j (list first.store.index)
        → is_collectable in_use now j ≡ true
        → now - j.last_used_at ≤ p.max_unused_age
    first-none_old l j m y =
        let (k, not_expired) =
          still_there expired marked_st.index first.store.index first-Drops
            (mark_all-IsIndexed ops now in_use st h) j m in
        elim (Bool-cases (ltb p.max_unused_age (now - j.last_used_at))) [
          | inl old ↦ absurd (
              not_expired
                (In-expired ops in_use now p j (list marked_st.index) k y l (ltb→lt _ _ old)))
          | inr n ↦ ground (arith, n)
        ]

    then-IsJustified :
        (e : Option Error) (r : GcRemoval)
        → In r (and_then ops e first (collect_over ops p in_use now)).result.removed
        → IsJustified ops in_use now p r
            (and_then ops e first (collect_over ops p in_use now)).store.index
    then-IsJustified none r m =
        elim (over-Justified ops in_use now p first.result first.store first-IsIndexed r m) [
          | inl old ↦ let (y, e, l) = first-IsExpired r old in (y, inl (e, l))
          | inr j ↦ j
        ]
    then-IsJustified (some x) r m = let (y, e, l) = first-IsExpired r m in (y, inl (e, l))

    -- Each image that a collection answers as removed was collectable, so in no use and not used
    -- within the grace period, and it was unused for longer than the limit; or it was removed for
    -- the size, and used no later than any image that is left and could be collected; as long as
    -- the index has one entry to each digest, which is its image's.
    pub collect_garbage-AreJustified :
        (r : GcRemoval)
        → In r (collect_garbage ops p in_use now st).result.removed
        → IsJustified ops in_use now p r (collect_garbage ops p in_use now st).store.index
    unfolding collect_garbage
    collect_garbage-AreJustified = then-IsJustified first.error

    then-IsCollected :
        (e : Option Error)
        → (and_then ops e first (collect_over ops p in_use now)).error ≡ none
        → e ≡ first.error
        → IsCollected ops in_use now p (and_then ops e first (collect_over ops p in_use now)).store
    then-IsCollected none q _ = (
      (λ l j m y.
          first-none_old l j (over-In ops in_use now p first.result first.store first-IsIndexed j m)
            y),
      over-Within ops in_use now p first.result first.store first-IsIndexed q,
    )
    then-IsCollected (some x) q f = absurd (some_none (f ∙ q))
      where
        some_none : some x ≡ none → ⊥
        some_none e = cc

    -- A collection that answers without an error leaves no image that could be collected and is
    -- over the age, if there is such a limit; and if there is a limit on the size, then the store,
    -- as it is measured, is within it, or nothing is left that could be collected; as long as the
    -- index has one entry to each digest, which is its image's.
    pub collect_garbage-Enforces :
        (collect_garbage ops p in_use now st).error ≡ none
        → IsCollected ops in_use now p (collect_garbage ops p in_use now st).store
    unfolding collect_garbage
    collect_garbage-Enforces q = then-IsCollected first.error q refl
