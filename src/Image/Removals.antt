-- ===== src/Image/Removals.antt =====
-- What a removal leaves in the index, and what it answers.
use dicer.Prelude.{
  ◌≡◌, ◌≢◌, refl, sym, ap, ◌∙◌, ◌⊎◌, inl, inr, Bool, true, false, none, some, List, [], ◌∷◌, map,
  ◌==◌, Bool-cases, Option-cases, subst, In, All, All-In, In-map, In-map_inv,
}
use dicer.Text.{Runes, runes_Eq}
use dicer.Maps.{lookup, remove}
use dicer.Maps.Lookup.{lookup-All, ne_of_beq, remove-All}
use dicer.Maps.Exact.{
  Exact, remove-Exact, In-lookup, lookup-In, lookup-remove_self, lookup-remove_ne, remove-cases,
}
use dicer.Image.{Image, Host, Images}
use dicer.Image.Index.{Index, list, digest_hex}
use dicer.Image.Removal.{PruneResult, remove_each, prune_layers, without, after_files}

-- One entry to each digest, which is its image's.
abbrev pub IsIndexed : Index → Type 0
IsIndexed x = Exact x × All (λ (e : Runes × Image). e.0 ≡ e.1.digest) x

pub list-lookup : (i : Image) (x : Index) → IsIndexed x → In i (list x) → lookup i.digest x ≡ some i
list-lookup i x h m =
    let (e, k, q) = In-map_inv (λ (f : Runes × Image). f.1) i x m in
    let own : e.0 ≡ i.digest = All-In _ e x h.1 k ∙ ap (λ (j : Image). j.digest) (sym q) in
    subst (λ d. lookup d x ≡ some i) own
      (In-lookup e.0 i x h.0 (subst (λ (j : Image). In (e.0, j) x) (sym q) k))

pub lookup-list :
    (d : Runes) (x : Index) {i : Image}
    → IsIndexed x
    → lookup d x ≡ some i
    → In i (list x) × (d ≡ i.digest)
lookup-list d x {i} h f =
    (In-map (λ (e : Runes × Image). e.1) (d, i) x (lookup-In d x f), lookup-All _ d x h.1 f)

pub remove-IsIndexed : (d : Runes) (x : Index) → IsIndexed x → IsIndexed (remove d x)
remove-IsIndexed d x h = (remove-Exact d x h.0, remove-All _ d x h.1)

-- Whether an image of a list has a digest.
pub digest-cases :
    (d : Runes) (images : List Image)
    → All (λ i. i.digest ≢ d) images ⊎ ((i : Image) × In i images × (i.digest ≡ d))
digest-cases d [] = inl tt
digest-cases d (i ∷ images) = elim (Bool-cases (i.digest == d)) [
  | inl same ↦ inr (i, inl refl, (runes_Eq.same_iff i.digest d).0 same)
  | inr other ↦ elim (digest-cases d images) [
    | inl h ↦ inl (ne_of_beq i.digest d other, h)
    | inr (j, m, e) ↦ inr (j, inr m, e)
  ]
]

module _ {R : Type 0} (ops : Host R) where
  abbrev Out : Type 0
  Out = Images R × PruneResult

  abbrev next : Image → Images R → Images R
  next i st = without ops i (remove i.digest st.index) st

  -- A round of the loop: an image that is gone, or one that leaves the index.
  round :
      (i : Image) (images : List Image) (st : Images R)
      → ((lookup i.digest st.index ≡ none)
          × (remove_each ops (i ∷ images) st ≡ remove_each ops images st))
        ⊎ (((remove_each ops (i ∷ images) st).0 ≡ (remove_each ops images (next i st)).0)
            × ((r : Image)
                → In r (remove_each ops (i ∷ images) st).1.images
                → (r ≡ i) ⊎ In r (remove_each ops images (next i st)).1.images))
  unfolding remove_each
  round i images st = elim (Option-cases (lookup i.digest st.index)) [
    | inl gone ↦ inl (gone, rw (remove_each, gone) refl)
    | inr (held, h) ↦
        inr (rw (remove_each, h) (deleted (ops.delete_files (digest_hex i.digest) st.host).0))
  ]
    where
      deleted :
          (b : Bool)
          → ((after_files ops b i (remove_each ops images (next i st))).0
              ≡ (remove_each ops images (next i st)).0)
            × ((r : Image)
                → In r (after_files ops b i (remove_each ops images (next i st))).1.images
                → (r ≡ i) ⊎ In r (remove_each ops images (next i st)).1.images)
      deleted true = (refl, λ r m. m)
      deleted false = (refl, λ r m. inr m)

  pub remove_each-IsIndexed :
      (images : List Image) (st : Images R)
      → IsIndexed st.index
      → IsIndexed (remove_each ops images st).0.index
  unfolding remove_each
  remove_each-IsIndexed [] st h = h
  remove_each-IsIndexed (i ∷ images) st h = elim (round i images st) [
    | inl (_, e) ↦
        subst (λ (o : Out). IsIndexed o.0.index) (sym e) (remove_each-IsIndexed images st h)
    | inr (e, _) ↦
        subst (λ (o : Images R). IsIndexed o.index) (sym e)
          (remove_each-IsIndexed images (next i st) (remove-IsIndexed i.digest st.index h))
  ]

  pub remove_each-others :
      (d : Runes) (images : List Image) (st : Images R)
      → All (λ i. i.digest ≢ d) images
      → lookup d (remove_each ops images st).0.index ≡ lookup d st.index
  unfolding remove_each
  remove_each-others d [] st h = refl
  remove_each-others d (i ∷ images) st h = elim (round i images st) [
    | inl (_, e) ↦ ap (λ (o : Out). lookup d o.0.index) e ∙ remove_each-others d images st h.1
    | inr (e, _) ↦
        ap (λ (o : Images R). lookup d o.index) e
        ∙ remove_each-others d images (next i st) h.1
        ∙ lookup-remove_ne d i.digest st.index h.0
  ]

  pub stays_gone :
      (d : Runes) (images : List Image) (st : Images R)
      → lookup d st.index ≡ none
      → lookup d (remove_each ops images st).0.index ≡ none
  unfolding remove_each
  stays_gone d [] st h = h
  stays_gone d (i ∷ images) st h = elim (round i images st) [
    | inl (_, e) ↦ ap (λ (o : Out). lookup d o.0.index) e ∙ stays_gone d images st h
    | inr (e, _) ↦
        ap (λ (o : Images R). lookup d o.index) e ∙ stays_gone d images (next i st) (gone i)
  ]
    where
      gone : (i : Image) → lookup d (remove i.digest st.index) ≡ none
      gone i = elim (remove-cases d i.digest st.index) [ inl (_, e) ↦ e | inr (_, e) ↦ e ∙ h ]

  pub remove_each-gone :
      (i : Image) (images : List Image) (st : Images R)
      → In i images
      → lookup i.digest (remove_each ops images st).0.index ≡ none
  remove_each-gone i [] st h = absurd h.1
  remove_each-gone i (j ∷ images) st (inr m) = elim (round j images st) [
    | inl (_, e) ↦ ap (λ (o : Out). lookup i.digest o.0.index) e ∙ remove_each-gone i images st m
    | inr (e, _) ↦
        ap (λ (o : Images R). lookup i.digest o.index) e ∙ remove_each-gone i images (next j st) m
  ]
  remove_each-gone i (j ∷ images) st (inl q) = elim (round j images st) [
    | inl (gone, e) ↦
        ap (λ (o : Out). lookup i.digest o.0.index) e
        ∙ stays_gone i.digest images st (ap (λ (k : Image). lookup k.digest st.index) q ∙ gone)
    | inr (e, _) ↦
        ap (λ (o : Images R). lookup i.digest o.index) e
        ∙ stays_gone i.digest images (next j st) (
            ap (λ (k : Image). lookup k.digest (remove j.digest st.index)) q
            ∙ lookup-remove_self j.digest st.index)
  ]

  pub remove_each-answers :
      (r : Image) (images : List Image) (st : Images R)
      → In r (remove_each ops images st).1.images
      → In r images
  unfolding remove_each
  remove_each-answers r [] st m = m
  remove_each-answers r (i ∷ images) st m = elim (round i images st) [
    | inl (_, e) ↦ inr (remove_each-answers r images st (subst (λ (o : Out). In r o.1.images) e m))
    | inr (_, f) ↦ elim (f r m) [
      | inl q ↦ inl q
      | inr k ↦ inr (remove_each-answers r images (next i st) k)
    ]
  ]

  pub prune_layers-keeps :
      (o : Out)
      → ((prune_layers ops o).store.index ≡ o.0.index)
        × ((prune_layers ops o).result.images ≡ o.1.images)
  unfolding prune_layers
  prune_layers-keeps (st, r) =
      elim (Option-cases
        (ops.prune_cache (map (λ i. digest_hex i.digest) (list st.index)) st.host).0) [
          | inl e ↦ rw (prune_layers, e) (refl, refl)
          | inr (n, e) ↦ rw (prune_layers, e) (refl, refl)
        ]
