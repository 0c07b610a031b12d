-- ===== src/Image/Garbage.antt =====
-- internal/image/gc.go. `slices.SortFunc` is an insertion sort here: as no two images have one
-- digest, there is one order to sort them in. A difference of times is 0 where Go's is negative,
-- which no test of the code tells apart.
use dicer.Prelude.{
  ℕ, ◌+◌, ◌-◌, Bool, true, false, not, ◌&&◌, ◌||◌, Option, none, some, List, [], ◌∷◌, ◌++◌, map,
  filter, ltb, leb, if◌then◌else◌, ◌==◌, nat_Eq,
}
use dicer.Text.{Runes, runes_Eq}
use dicer.Maps.{assign}
use dicer.Errors.{Error, other}
use dicer.Image.{Image, Host, Images}
use dicer.Image.Index.{list, marked}
use dicer.Image.Removal.{among, remove_images}

-- GCPolicy; zero is no limit.
pub record GcPolicy : Type 0 where
  pub max_unused_age : ℕ
  pub max_size : ℕ

pub data GcReason : Type 0 where
  unused size : GcReason

-- GCRemoval.
pub record GcRemoval : Type 0 where
  pub image : Image
  pub reason : GcReason

pub record GcResult : Type 0 where
  pub removed : List GcRemoval
  pub reclaimed_bytes : ℕ

-- Ten minutes.
abbrev pub gc_grace_period : ℕ
gc_grace_period = 600000000000

-- `cmp.Compare` of two digests, and of two images.
abbrev pub runes_leb : Runes → Runes → Bool
runes_leb [] ys = true
runes_leb (x ∷ xs) [] = false
runes_leb (x ∷ xs) (y ∷ ys) = ltb x y || ((x == y) && runes_leb xs ys)

abbrev pub image_leb : Image → Image → Bool
image_leb a b =
    ltb a.last_used_at b.last_used_at
    || ((a.last_used_at == b.last_used_at) && runes_leb a.digest b.digest)

unfoldable pub insert : Image → List Image → List Image
insert a [] = a ∷ []
insert a (b ∷ images) =
    let rest = insert a images in if image_leb a b then a ∷ b ∷ images else b ∷ rest

unfoldable pub sort : List Image → List Image
unfolding insert
sort [] = []
sort (a ∷ images) = insert a (sort images)

module _ (in_use : List Runes) (now : ℕ) where
  abbrev pub is_collectable : Image → Bool
  is_collectable i = not (among i.digest in_use || ltb (now - i.last_used_at) gc_grace_period)

  -- `collectableImages`, the least recently used first.
  unfoldable pub collectable_images : List Image → List Image
  unfolding sort
  collectable_images images = sort (filter is_collectable images)

  -- `expiredImages`.
  unfoldable pub expired_images : GcPolicy → List Image → List Image
  unfolding collectable_images
  expired_images p images =
      if p.max_unused_age == 0
      then []
      else filter (λ i. ltb p.max_unused_age (now - i.last_used_at)) (collectable_images images)

module _ {R : Type 0} (ops : Host R) where
  -- `Manager.markUsed`.
  unfoldable pub mark_used : Runes → ℕ → Images R → Images R
  mark_used digest at st = elim (marked digest at st.index) [
    | none ↦ st
    | some image ↦ record {
      index = assign digest image st.index;
      host = ops.save_metadata image st.host;
    }
  ]

  unfoldable pub mark_all : List Runes → ℕ → Images R → Images R
  unfolding mark_used
  mark_all [] now st = st
  mark_all (d ∷ in_use) now st = mark_all in_use now (mark_used d now st)

  -- `storeSize`.
  unfoldable pub store_size : Images R → Option ℕ
  store_size st = elim (ops.cache_size st.host) [
    | none ↦ none
    | some cache ↦ some (sum cache (list st.index))
  ]
    where
      sum : ℕ → List Image → ℕ
      sum total [] = total
      sum total (i ∷ images) = sum (total + i.size_bytes) images

  -- A collection: the images, its result so far, and an error that ended it.
  pub record GcRun : Type 0 where
    pub store : Images R
    pub result : GcResult
    pub error : Option Error

  -- `collect`, but for metrics and events.
  unfoldable pub collect : List Image → GcReason → GcResult → Images R → GcRun
  unfolding remove_images
  collect [] reason result st = record { store = st; result = result; error = none }
  collect (i ∷ images) reason result st =
      let out = remove_images ops (i ∷ images) st in
      record {
        store = out.store;
        error = out.error;
        result = record {
          removed =
              result.removed
              ++ map (λ image. record { image = image; reason = reason }) out.result.images;
          reclaimed_bytes = result.reclaimed_bytes + out.result.reclaimed_bytes;
        };
      }

  -- What follows a part of a collection, unless that failed.
  abbrev pub and_then : Option Error → GcRun → (GcResult → Images R → GcRun) → GcRun
  and_then none run next = next run.result run.store
  and_then (some e) run next = run

  abbrev pub within : ℕ → Option ℕ → GcResult → Images R → GcRun → GcRun
  within limit none result st run = record { store = st; result = result; error = some other }
  within limit (some total) result st run =
      if leb total limit then record { store = st; result = result; error = none } else run

  -- The loop over the collectable images.
  unfoldable pub collect_for_size : ℕ → List Image → GcResult → Images R → GcRun
  unfolding store_size collect
  collect_for_size limit [] result st = record { store = st; result = result; error = none }
  collect_for_size limit (i ∷ images) result st =
      let first = collect (i ∷ []) size result st in
      let run = and_then first.error first (collect_for_size limit images) in
      within limit (store_size st) result st run

  -- `CollectGarbage` from the second list on.
  unfoldable pub collect_over : GcPolicy → List Runes → ℕ → GcResult → Images R → GcRun
  unfolding collect_for_size collectable_images
  collect_over p in_use now result st =
      if p.max_size == 0
      then record { store = st; result = result; error = none }
      else collect_for_size p.max_size (collectable_images in_use now (list st.index)) result st

  -- `CollectGarbage`.
  unfoldable pub collect_garbage : GcPolicy → List Runes → ℕ → Images R → GcRun
  unfolding mark_all collect collect_over expired_images
  collect_garbage p in_use now st =
      let st1 = mark_all in_use now st in
      let none_yet : GcResult = record { removed = []; reclaimed_bytes = 0 } in
      let run = collect (expired_images in_use now p (list st1.index)) unused none_yet st1 in
      and_then run.error run (collect_over p in_use now)
