-- ===== src/Image.antt =====
-- internal/image: the images that the host holds, and their garbage collection.
pub mod Index
pub mod Removal
pub mod Garbage
pub mod Sorting
pub mod Removals
pub mod Drops
pub mod Loop
pub mod Marks
pub mod Spares
pub mod Over
pub mod Justified
pub mod Runs
pub mod Lasts
mod Tests
use dicer.Prelude.{ℕ, List, Bool, Option}
use dicer.Text.{Runes}

-- image.go: the fields that a collection reads. Times and sizes are numbers.
pub record Image : Type 0 where
  pub name : Runes
  pub digest : Runes
  pub size_bytes : ℕ
  pub last_used_at : ℕ

-- What a Manager asks of the host: to delete an image's files, named by a digest's hex part, to
-- write its metadata, to prune the registry's layer cache down to some digests, which answers the
-- bytes reclaimed, and to measure that cache. `none` and `false` are errors.
pub record Host (R : Type 0) : Type 0 where
  pub delete_files : Runes → R → Bool × R
  pub save_metadata : Image → R → R
  pub prune_cache : List Runes → R → Option ℕ × R
  pub cache_size : R → Option ℕ

-- The Manager: `index.images`, by digest, and the host.
pub record Images (R : Type 0) : Type 0 where
  pub index : List (Runes × Image)
  pub host : R
