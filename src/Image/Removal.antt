-- ===== src/Image/Removal.antt =====
-- internal/image/prune.go: Prune and remove.
use dicer.Prelude.{
  ℕ, ◌+◌, Bool, false, not, ◌||◌, Option, none, some, List, [], ◌∷◌, map, filter, if◌then◌else◌,
  ◌==◌, nat_Eq,
}
use dicer.Text.{Runes, runes_Eq}
use dicer.Errors.{Error, ok, err, other}
use dicer.Image.{Image, Host, Images}
use dicer.Image.Index.{Index, list, delete_in, digest_hex}

-- A digest among those in use.
abbrev pub among : Runes → List Runes → Bool
among d [] = false
among d (x ∷ xs) = (x == d) || among d xs

pub record PruneResult : Type 0 where
  pub images : List Image
  pub reclaimed_bytes : ℕ

module _ {R : Type 0} (ops : Host R) where
  -- What a round of `remove` answers, before those of the rounds after it.
  abbrev add_image : Image → Images R × PruneResult → Images R × PruneResult
  add_image image (st, r) = (
    st,
    record { images = image ∷ r.images; reclaimed_bytes = image.size_bytes + r.reclaimed_bytes },
  )

  -- `deleteFiles` succeeded, or not.
  abbrev pub after_files : Bool → Image → Images R × PruneResult → Images R × PruneResult
  after_files deleted image rest = if deleted then add_image image rest else rest

  abbrev pub without : Image → Index → Images R → Images R
  without image x st = record {
    index = x;
    host = (ops.delete_files (digest_hex image.digest) st.host).1;
  }

  -- The loop of `remove`.
  unfoldable pub remove_each : List Image → Images R → Images R × PruneResult
  remove_each [] st = (st, record { images = []; reclaimed_bytes = 0 })
  remove_each (image ∷ images) st = elim (delete_in image.digest st.index) [
    | err gone ↦ remove_each images st
    | ok x ↦
        after_files (ops.delete_files (digest_hex image.digest) st.host).0 image
          (remove_each images (without image x st))
  ]

  -- What a removal answers with, if it fails or not: the images, the result and the error.
  pub record Removed : Type 0 where
    pub store : Images R
    pub result : PruneResult
    pub error : Option Error

  -- The layer cache is pruned down to what remains in the index.
  unfoldable pub prune_layers : Images R × PruneResult → Removed
  prune_layers (st, r) =
      let out = ops.prune_cache (map (λ i. digest_hex i.digest) (list st.index)) st.host in
      let next : Images R = record { index = st.index; host = out.1 } in
      elim out.0 [
        | none ↦ record { store = next; result = r; error = some other }
        | some reclaimed ↦ record {
          store = next;
          error = none;
          result = record { images = r.images; reclaimed_bytes = r.reclaimed_bytes + reclaimed };
        }
      ]

  -- `Manager.remove`.
  unfoldable pub remove_images : List Image → Images R → Removed
  unfolding remove_each prune_layers
  remove_images images st = prune_layers (remove_each images st)

  -- `Prune`, but for its events.
  unfoldable pub prune : List Runes → Images R → Removed
  unfolding remove_images
  prune in_use st = remove_images (filter (λ i. not (among i.digest in_use)) (list st.index)) st
