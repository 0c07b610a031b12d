-- ===== src/Image/Drops.antt =====
-- What a part of a collection drops from the index.
use dicer.Prelude.{
  ℕ, ◌≤◌, ◌≡◌, ◌≢◌, refl, sym, ap, ◌∙◌, ◌⊎◌, inl, inr, none, some, List, [], ◌∷◌, ◌++◌, subst, In,
  In-append, In-map_inv, All,
}
use dicer.Text.{Runes, runes_Eq}
use dicer.Maps.{lookup}
use dicer.Image.{Image, Host, Images}
use dicer.Image.Index.{Index}
use dicer.Image.Removal.{remove_each, remove_images}
use dicer.Image.Removals.{
  IsIndexed, remove_each-IsIndexed, remove_each-others, remove_each-gone, remove_each-answers,
  stays_gone, prune_layers-keeps,
}
use dicer.Image.Garbage.{GcReason, size, GcRemoval, GcResult, GcRun, collect, store_size}

-- From an index to another: just these images are dropped.
pub record Drops (images : List Image) (x y : Index) : Type 0 where
  pub indexed : IsIndexed x → IsIndexed y
  pub others : (d : Runes) → All (λ i. i.digest ≢ d) images → lookup d y ≡ lookup d x
  pub gone : (i : Image) → In i images → lookup i.digest y ≡ none
  pub stay_gone : (d : Runes) → lookup d x ≡ none → lookup d y ≡ none

pub drop_nothing : (x : Index) → Drops [] x x
drop_nothing x = record {
  indexed = λ h. h;
  others = λ d h. refl;
  gone = λ i m. absurd m.1;
  stay_gone = λ d h. h;
}

pub drop_first :
    (i : Image) (images : List Image) (x y z : Index)
    → Drops (i ∷ []) x y
    → Drops images y z
    → Drops (i ∷ images) x z
drop_first i images x y z f g = record {
  indexed = λ h. g.indexed (f.indexed h);
  others = λ d h. g.others d h.1 ∙ f.others d (h.0, tt);
  gone = λ j m. gone_from j m;
  stay_gone = λ d h. g.stay_gone d (f.stay_gone d h);
}
  where
    gone_from : (j : Image) → In j (i ∷ images) → lookup j.digest z ≡ none
    gone_from j (inl e) = g.stay_gone j.digest (f.gone j (inl e))
    gone_from j (inr m) = g.gone j m

-- What is removed is of these images, for this reason, or was removed before.
abbrev pub Answers : GcReason → List Image → GcResult → GcResult → Type 0
Answers reason images result after =
    (r : GcRemoval)
    → In r after.removed
    → In r result.removed ⊎ ((r.reason ≡ reason) × In r.image images)

module _ {R : Type 0} (ops : Host R) where
  pub remove_images-Drops :
      (images : List Image) (st : Images R)
      → Drops images st.index (remove_images ops images st).store.index
  unfolding remove_images
  remove_images-Drops images st =
      subst (λ x. Drops images st.index x)
        (sym (prune_layers-keeps ops (remove_each ops images st)).0)
        (record {
          indexed = remove_each-IsIndexed ops images st;
          others = λ d. remove_each-others ops d images st;
          gone = λ i. remove_each-gone ops i images st;
          stay_gone = λ d. stays_gone ops d images st;
        })

  remove_images-answers :
      (r : Image) (images : List Image) (st : Images R)
      → In r (remove_images ops images st).result.images
      → In r images
  unfolding remove_images
  remove_images-answers r images st m =
      remove_each-answers ops r images st
        (subst (λ x. In r x) (prune_layers-keeps ops (remove_each ops images st)).1 m)

  pub collect-Drops :
      (images : List Image) (reason : GcReason) (result : GcResult) (st : Images R)
      → Drops images st.index (collect ops images reason result st).store.index
  unfolding collect
  collect-Drops [] reason result st = drop_nothing st.index
  collect-Drops (i ∷ images) reason result st = remove_images-Drops (i ∷ images) st

  pub collect-Answers :
      (images : List Image) (reason : GcReason) (result : GcResult) (st : Images R)
      → Answers reason images result (collect ops images reason result st).result
  unfolding collect
  collect-Answers [] reason result st r m = inl m
  collect-Answers (i ∷ images) reason result st r m = elim (In-append r result.removed _ m) [
    | inl old ↦ inl old
    | inr new ↦
        let (image, k, e) =
          In-map_inv (λ x. record { image = x; reason = reason }) r
            (remove_images ops (i ∷ images) st).result.images new in
        inr (
          ap (λ (q : GcRemoval). q.reason) e,
          subst (λ x. In x (i ∷ images)) (sym (ap (λ (q : GcRemoval). q.image) e))
              (remove_images-answers image (i ∷ images) st k),
        )
  ]

  -- A run of the loop over images: it drops the first ones, and stops at those left for an error,
  -- or for a store within the limit.
  pub record Stops (limit : ℕ) (images : List Image) (result : GcResult) (st : Images R)
      (run : GcRun ops) : Type 0 where
    pub done : List Image
    pub left : List Image
    pub whole : images ≡ done ++ left
    pub drops : Drops done st.index run.store.index
    pub answers : Answers size done result run.result
    pub stops :
        run.error ≡ none
        → (left ≡ []) ⊎ ((n : ℕ) × (store_size ops run.store ≡ some n) × (n ≤ limit))
