-- ===== src/Image/Index.antt =====
-- internal/image/index.go, and digestHex of files.go.
use dicer.Prelude.{ℕ, Option, none, some, List, map, ltb, if◌then◌else◌, nat_Eq}
use dicer.Text.{Runes, runes_Eq, cut}
use dicer.Maps.{lookup, assign, remove}
use dicer.Errors.{Result, ok, err, exists, not_found}
use dicer.Image.{Image}

abbrev pub Index : Type 0
Index = List (Runes × Image)

-- `index.list`.
abbrev pub list : Index → List Image
list x = map (λ e. e.1) x

-- `index.create`.
abbrev pub create_in : Image → Index → Result Index
create_in image x = elim (lookup image.digest x) [
  | none ↦ ok (assign image.digest image x)
  | some held ↦ err exists
]

-- A copy of an image that is used at a time.
abbrev pub used_at : ℕ → Image → Image
used_at at image = record {
  name = image.name;
  digest = image.digest;
  size_bytes = image.size_bytes;
  last_used_at = at;
}

abbrev pub if_later : ℕ → Image → Option Image
if_later at image = if ltb image.last_used_at at then some (used_at at image) else none

-- `index.markUsed`: the copy, if there is an image and the time is after its last use.
abbrev pub marked : Runes → ℕ → Index → Option Image
marked digest at x = elim (lookup digest x) [ none ↦ none | some image ↦ if_later at image ]

-- `index.delete`.
abbrev pub delete_in : Runes → Index → Result Index
delete_in digest x = elim (lookup digest x) [
  | none ↦ err not_found
  | some image ↦ ok (remove digest x)
]

-- `digestHex`.
unfoldable pub digest_hex : Runes → Runes
unfolding cut
digest_hex digest = let c = cut b':' digest in if c.found then c.after else digest
