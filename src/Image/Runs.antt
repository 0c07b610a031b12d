-- ===== src/Image/Runs.antt =====
-- Every call that changes the index.
use dicer.Prelude.{
  ℕ, sym, subst, inl, inr, not, Option, none, some, Option-cases, List, [], ◌∷◌, filter,
}
use dicer.Text.{Runes, runes_Eq}
use dicer.Maps.{lookup}
use dicer.Errors.{Error, Result, ok, err}
use dicer.Image.{Image, Host, Images}
use dicer.Image.Index.{Index, create_in, delete_in, list}
use dicer.Image.Removal.{among, prune}
use dicer.Image.Removals.{IsIndexed, remove-IsIndexed}
use dicer.Image.Garbage.{
  GcPolicy, GcResult, GcRun, unused, mark_used, mark_all, and_then, collect_over, collect_garbage,
  expired_images,
}
use dicer.Image.Drops.{remove_images-Drops, collect-Drops}
use dicer.Image.Over.{over-cases}
use dicer.Image.Marks.{assign-IsIndexed, mark_used-IsIndexed, mark_all-IsIndexed}

-- A pull that ends, or an image found on the disk (`create`); a use; a deletion; Prune and
-- CollectGarbage.
pub data Call : Type 0 where
  create : Image → Call
  use_image : (digest : Runes) (at : ℕ) → Call
  delete : (digest : Runes) → Call
  prune_unused : (in_use : List Runes) → Call
  collect_unused : GcPolicy → (in_use : List Runes) (now : ℕ) → Call

module _ {R : Type 0} (ops : Host R) where
  -- The index that a call leaves; its answer is an error where it changes nothing.
  abbrev pub reindex : Images R → Result Index → Images R
  reindex st (ok x) = record { index = x; host = st.host }
  reindex st (err e) = st

  abbrev pub step : Call → Images R → Images R
  step (create image) st = reindex st (create_in image st.index)
  step (use_image digest at) st = mark_used ops digest at st
  step (delete digest) st = reindex st (delete_in digest st.index)
  step (prune_unused in_use) st = (prune ops in_use st).store
  step (collect_unused p in_use now) st = (collect_garbage ops p in_use now st).store

  abbrev pub run : List Call → Images R → Images R
  run [] st = st
  run (c ∷ calls) st = run calls (step c st)

  pub create_in-IsIndexed :
      (image : Image) (st : Images R)
      → IsIndexed st.index
      → IsIndexed (reindex st (create_in image st.index)).index
  create_in-IsIndexed image st h = elim (Option-cases (lookup image.digest st.index)) [
    | inl f ↦ rw (reindex, f) (assign-IsIndexed image st.index h)
    | inr (i, f) ↦ rw (reindex, f) h
  ]

  delete_in-IsIndexed :
      (digest : Runes) (st : Images R)
      → IsIndexed st.index
      → IsIndexed (reindex st (delete_in digest st.index)).index
  delete_in-IsIndexed digest st h = elim (Option-cases (lookup digest st.index)) [
    | inl f ↦ rw (reindex, f) h
    | inr (i, f) ↦ rw (reindex, f) (remove-IsIndexed digest st.index h)
  ]

  prune-IsIndexed :
      (in_use : List Runes) (st : Images R)
      → IsIndexed st.index
      → IsIndexed (prune ops in_use st).store.index
  unfolding prune
  prune-IsIndexed in_use st h =
      (remove_images-Drops ops (filter (λ i. not (among i.digest in_use)) (list st.index))
          st).indexed
        h

  collect_over-IsIndexed :
      (p : GcPolicy) (in_use : List Runes) (now : ℕ) (result : GcResult) (st : Images R)
      → IsIndexed st.index
      → IsIndexed (collect_over ops p in_use now result st).store.index
  collect_over-IsIndexed p in_use now result st h = elim (over-cases ops in_use now p result st h) [
    | inl (_, e) ↦ subst (λ (r : GcRun ops). IsIndexed r.store.index) (sym e) h
    | inr s ↦ s.drops.indexed h
  ]

  then-IsIndexed :
      (p : GcPolicy) (in_use : List Runes) (now : ℕ) (e : Option Error) (first : GcRun ops)
      → IsIndexed first.store.index
      → IsIndexed (and_then ops e first (collect_over ops p in_use now)).store.index
  then-IsIndexed p in_use now none first h =
      collect_over-IsIndexed p in_use now first.result first.store h
  then-IsIndexed p in_use now (some e) first h = h

  collect_garbage-IsIndexed :
      (p : GcPolicy) (in_use : List Runes) (now : ℕ) (st : Images R)
      → IsIndexed st.index
      → IsIndexed (collect_garbage ops p in_use now st).store.index
  unfolding collect_garbage
  collect_garbage-IsIndexed p in_use now st h =
      let marked = mark_all ops in_use now st in
      let images = expired_images in_use now p (list marked.index) in
      let dropped =
        collect-Drops ops images unused (record { removed = []; reclaimed_bytes = 0 }) marked in
      then-IsIndexed p in_use now _ _ (dropped.indexed (mark_all-IsIndexed ops now in_use st h))

  pub step-IsIndexed : (c : Call) (st : Images R) → IsIndexed st.index → IsIndexed (step c st).index
  step-IsIndexed (create image) st h = create_in-IsIndexed image st h
  step-IsIndexed (use_image digest at) st h = mark_used-IsIndexed ops at digest st h
  step-IsIndexed (delete digest) st h = delete_in-IsIndexed digest st h
  step-IsIndexed (prune_unused in_use) st h = prune-IsIndexed in_use st h
  step-IsIndexed (collect_unused p in_use now) st h = collect_garbage-IsIndexed p in_use now st h

  pub run-IsIndexed :
      (calls : List Call) (st : Images R) → IsIndexed st.index → IsIndexed (run calls st).index
  run-IsIndexed [] st h = h
  run-IsIndexed (c ∷ calls) st h = run-IsIndexed calls (step c st) (step-IsIndexed c st h)
