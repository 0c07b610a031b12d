-- ===== src/Image/Sorting.antt =====
-- What the lists of a collection hold, and in which order.
use dicer.Prelude.{
  ◌≤◌, ◌≡◌, ◌⊎◌, inl, inr, true, false, List, [], ◌∷◌, nat_Eq, arith, Bool-cases, In, All, All-map,
}
use dicer.Image.{Image}
use dicer.Image.Garbage.{image_leb, insert, sort}

abbrev pub Before : Image → Image → Type 0
Before a b = a.last_used_at ≤ b.last_used_at

-- The least recently used first.
abbrev pub AreOrdered : List Image → Type 0
AreOrdered [] = Unit
AreOrdered (a ∷ images) = All (Before a) images × AreOrdered images

image_leb-Before : (a b : Image) → image_leb a b ≡ true → Before a b
image_leb-Before a b h = ground (arith, h)

image_leb-Before-false : (a b : Image) → image_leb a b ≡ false → Before b a
image_leb-Before-false a b h = ground (arith, h)

Before-All :
    (a b : Image) (images : List Image) → Before a b → All (Before b) images → All (Before a) images
Before-All a b images l h = All-map (Before b) (Before a) (λ c m. omega (arith, l, m)) images h

insert-All :
    (P : Image → Type 0) (a : Image) (images : List Image)
    → P a
    → All P images
    → All P (insert a images)
unfolding insert
insert-All P a [] p h = (p, h)
insert-All P a (b ∷ images) p h = elim (Bool-cases (image_leb a b)) [
  | inl y ↦ rw y (p, h)
  | inr n ↦ rw n (h.0, insert-All P a images p h.1)
]

insert-AreOrdered :
    (a : Image) (images : List Image) → AreOrdered images → AreOrdered (insert a images)
unfolding insert
insert-AreOrdered a [] h = (tt, tt)
insert-AreOrdered a (b ∷ images) h = elim (Bool-cases (image_leb a b)) [
  | inl y ↦ let l = image_leb-Before a b y in rw y ((l, Before-All a b images l h.0), h)
  | inr n ↦ rw n (
    insert-All (Before b) a images (image_leb-Before-false a b n) h.0,
    insert-AreOrdered a images h.1,
  )
]

pub sort-AreOrdered : (images : List Image) → AreOrdered (sort images)
unfolding sort
sort-AreOrdered [] = tt
sort-AreOrdered (a ∷ images) = insert-AreOrdered a (sort images) (sort-AreOrdered images)

insert-In : (x a : Image) (images : List Image) → (x ≡ a) ⊎ In x images → In x (insert a images)
unfolding insert
insert-In x a [] h = h
insert-In x a (b ∷ images) h = elim (Bool-cases (image_leb a b)) [
  | inl y ↦ rw y h
  | inr n ↦ rw n (elim h [
    | inl e ↦ inr (insert-In x a images (inl e))
    | inr (inl e) ↦ inl e
    | inr (inr m) ↦ inr (insert-In x a images (inr m))
  ])
]

insert-In_inv : (x a : Image) (images : List Image) → In x (insert a images) → (x ≡ a) ⊎ In x images
unfolding insert
insert-In_inv x a [] h = h
insert-In_inv x a (b ∷ images) h = elim (Bool-cases (image_leb a b)) [
  | inl y ↦ rw y at h
  | inr n ↦ elim (rw n at h) [
    | inl e ↦ inr (inl e)
    | inr m ↦ elim (insert-In_inv x a images m) [ inl e ↦ inl e | inr k ↦ inr (inr k) ]
  ]
]

pub sort-In : (x : Image) (images : List Image) → In x images → In x (sort images)
unfolding sort
sort-In x [] h = h
sort-In x (a ∷ images) (inl e) = insert-In x a (sort images) (inl e)
sort-In x (a ∷ images) (inr m) = insert-In x a (sort images) (inr (sort-In x images m))

pub sort-In_inv : (x : Image) (images : List Image) → In x (sort images) → In x images
unfolding sort
sort-In_inv x [] h = h
sort-In_inv x (a ∷ images) h = elim (insert-In_inv x a (sort images) h) [
  | inl e ↦ inl e
  | inr m ↦ inr (sort-In_inv x images m)
]
