-- ===== src/Image/Marks.antt =====
-- What marking the images in use changes.
use dicer.Prelude.{
  ℕ, ◌≡◌, ◌≢◌, refl, sym, ap, ◌∙◌, inl, inr, Bool, true, false, some, List, [], ◌∷◌, ltb, ◌==◌,
  nat_Eq, Bool-cases, Option-cases, subst, if◌then◌else◌, arith,
}
use dicer.Text.{Runes, runes_Eq}
use dicer.Maps.{lookup, assign}
use dicer.Maps.Lookup.{remove-All, ne_of_beq}
use dicer.Maps.Exact.{assign-Exact, lookup-assign_self, lookup-assign_ne}
use dicer.Image.{Image, Host, Images}
use dicer.Image.Index.{Index, used_at}
use dicer.Image.Removal.{among}
use dicer.Image.Removals.{IsIndexed, lookup-list}
use dicer.Image.Garbage.{mark_used, mark_all}

-- An image that is used now.
abbrev pub raised : ℕ → Image → Image
raised now i = if ltb i.last_used_at now then used_at now i else i

-- An image that is used now if it is in use.
abbrev pub raised_if : Bool → ℕ → Image → Image
raised_if b now i = if b then raised now i else i

raised_twice : (now : ℕ) (i : Image) → raised now (raised now i) ≡ raised now i
raised_twice now i = elim (Bool-cases (ltb i.last_used_at now)) [
  | inl y ↦ let same : ltb now now ≡ false = ground arith in rw (y, same) refl
  | inr n ↦ rw (n, n) refl
]

pub assign-IsIndexed : (i : Image) (x : Index) → IsIndexed x → IsIndexed (assign i.digest i x)
unfolding assign
assign-IsIndexed i x h = (assign-Exact i.digest i x h.0, (refl, remove-All _ i.digest x h.1))

module _ {R : Type 0} (ops : Host R) (now : ℕ) where
  pub mark_used-IsIndexed :
      (d : Runes) (st : Images R) → IsIndexed st.index → IsIndexed (mark_used ops d now st).index
  unfolding mark_used
  mark_used-IsIndexed d st h = elim (Option-cases (lookup d st.index)) [
    | inl f ↦ rw (mark_used, f) h
    | inr (i, f) ↦ elim (Bool-cases (ltb i.last_used_at now)) [
      | inr n ↦ rw (mark_used, f, n) h
      | inl y ↦
          rw (mark_used, f, y)
            (subst (λ k. IsIndexed (assign k (used_at now i) st.index))
              (sym (lookup-list d st.index h f).1) (assign-IsIndexed (used_at now i) st.index h))
    ]
  ]

  pub mark_used-same :
      (d : Runes) (st : Images R) {i : Image}
      → lookup d st.index ≡ some i
      → lookup d (mark_used ops d now st).index ≡ some (raised now i)
  unfolding mark_used
  mark_used-same d st {i} f = elim (Bool-cases (ltb i.last_used_at now)) [
    | inl y ↦ rw (mark_used, f, y) (lookup-assign_self d (used_at now i) st.index)
    | inr n ↦ rw (mark_used, f, n) f
  ]

  pub mark_used-other :
      (d k : Runes) (st : Images R)
      → d ≢ k
      → lookup k (mark_used ops d now st).index ≡ lookup k st.index
  unfolding mark_used
  mark_used-other d k st ne = elim (Option-cases (lookup d st.index)) [
    | inl f ↦ rw (mark_used, f) refl
    | inr (i, f) ↦ elim (Bool-cases (ltb i.last_used_at now)) [
      | inl y ↦ rw (mark_used, f, y) (lookup-assign_ne k d (used_at now i) st.index ne)
      | inr n ↦ rw (mark_used, f, n) refl
    ]
  ]

  pub mark_all-IsIndexed :
      (in_use : List Runes) (st : Images R)
      → IsIndexed st.index
      → IsIndexed (mark_all ops in_use now st).index
  unfolding mark_all
  mark_all-IsIndexed [] st h = h
  mark_all-IsIndexed (d ∷ in_use) st h =
      mark_all-IsIndexed in_use (mark_used ops d now st) (mark_used-IsIndexed d st h)

  raised_again : (b : Bool) (i : Image) → raised_if b now (raised now i) ≡ raised now i
  raised_again true i = raised_twice now i
  raised_again false i = refl

  -- An image in use is marked, and the others stay.
  pub mark_all-lookup :
      (in_use : List Runes) (k : Runes) (st : Images R) {i : Image}
      → lookup k st.index ≡ some i
      → lookup k (mark_all ops in_use now st).index ≡ some (raised_if (among k in_use) now i)
  unfolding mark_all
  mark_all-lookup [] k st f = f
  mark_all-lookup (d ∷ in_use) k st {i} f = elim (Bool-cases (d == k)) [
    | inl y ↦
        let q = (runes_Eq.same_iff d k).0 y in
        let here =
          subst (λ j. lookup k (mark_used ops j now st).index ≡ some (raised now i)) (sym q)
            (mark_used-same k st f) in
        rw y (
          mark_all-lookup in_use k (mark_used ops d now st) here
          ∙ ap (λ j. some j) (raised_again (among k in_use) i))
    | inr n ↦ rw n (
        mark_all-lookup in_use k (mark_used ops d now st)
          (mark_used-other d k st (ne_of_beq d k n) ∙ f))
  ]
