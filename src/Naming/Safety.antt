-- ===== src/Naming/Safety.antt =====
-- A valid name is safe as the name of a file in a directory.
use dicer.Prelude.{
  ℕ, ◌≤◌, ◌≡◌, refl, sym, ap, ◌∙◌, ◌||◌, Bool, true, [], ◌∷◌, ◌++◌, ◌==◌, nat_Eq, append-nil,
  append_assoc, arith, Bool-cases, All, All-append, All-map, inl, inr, subst,
}
use mathlib.Core.List.{reverse, reverse-append}
use dicer.Text.{Runes, byte_length}
use dicer.Naming.{is_part_rune, every, ends_well, is_part, every_part, matches_name, validate_name}

pub every-All : (p : ℕ → Bool) (s : Runes) → every p s ≡ true → All (λ r. p r ≡ true) s
unfolding every
every-All p [] h = tt
every-All p (r ∷ s) h = elim (Bool-cases (p r)) [
  | inl y ↦ (y, every-All p s (rw y at h))
  | inr n ↦ cc (rw n at h)
]

-- A letter, a digit, a hyphen or a dot.
abbrev pub IsNameRune : ℕ → Type 0
IsNameRune r = (is_part_rune r || (r == b'.')) ≡ true

pub ends_well-append : (s t : Runes) → ends_well s ≡ true → ends_well (s ++ t) ≡ true
unfolding ends_well
ends_well-append [] t h = cc
ends_well-append (r ∷ s) t h = h

part_IsNameRune : (r : ℕ) → is_part_rune r ≡ true → IsNameRune r
part_IsNameRune r h = rw h refl

dot_IsNameRune : (r : ℕ) → (r == b'.') ≡ true → IsNameRune r
dot_IsNameRune r h = elim (Bool-cases (is_part_rune r)) [
  | inl y ↦ rw y refl
  | inr n ↦ rw (n, h) refl
]

part_runes : (s : Runes) → is_part s ≡ true → All IsNameRune s
unfolding is_part
part_runes s h = All-map _ _ part_IsNameRune s (every-All is_part_rune s (ground (arith, h)))

part_starts : (s : Runes) → is_part s ≡ true → ends_well s ≡ true
unfolding is_part
part_starts s h = ground (arith, h)

part_ends : (s : Runes) → is_part s ≡ true → ends_well (reverse s) ≡ true
unfolding is_part
part_ends s h = ground (arith, h)

-- A text of name runes that starts and ends with a letter or a digit.
abbrev pub IsWellEnded : Runes → Type 0
IsWellEnded s = All IsNameRune s × (ends_well s ≡ true) × (ends_well (reverse s) ≡ true)

part_IsWellEnded : (s : Runes) → is_part s ≡ true → IsWellEnded s
part_IsWellEnded s h = (part_runes s h, part_starts s h, part_ends s h)

joined :
    (s t : Runes) (dot : ℕ)
    → IsNameRune dot
    → IsWellEnded s
    → IsWellEnded t
    → IsWellEnded (s ++ dot ∷ t)
joined s t dot d h k = (
  All-append _ s (dot ∷ t) h.0 (d, k.0),
  ends_well-append s (dot ∷ t) h.1,
  subst (λ x. ends_well x ≡ true)
      (sym (
        reverse-append s (dot ∷ t)
        ∙ ap (λ x. x ++ reverse s) (reverse-append (dot ∷ []) t)
        ∙ append_assoc (reverse t) (dot ∷ []) (reverse s)))
      (ends_well-append (reverse t) ((dot ∷ []) ++ reverse s) k.2),
)

parts_IsWellEnded : (acc s : Runes) → every_part acc s ≡ true → IsWellEnded (reverse acc ++ s)
unfolding every_part
parts_IsWellEnded acc [] h =
    subst IsWellEnded (sym (append-nil (reverse acc))) (part_IsWellEnded (reverse acc) h)
parts_IsWellEnded acc (r ∷ s) h = elim (Bool-cases (r == b'.')) [
  | inl dot ↦ elim (Bool-cases (is_part (reverse acc))) [
    | inl y ↦
        joined (reverse acc) s r (dot_IsNameRune r dot) (part_IsWellEnded (reverse acc) y)
          (parts_IsWellEnded [] s (rw (dot, y) at h))
    | inr n ↦ cc (rw (dot, n) at h)
  ]
  | inr other ↦
      subst IsWellEnded
        (ap (λ x. x ++ s) (reverse-append (r ∷ []) acc) ∙ append_assoc (reverse acc) (r ∷ []) s)
        (parts_IsWellEnded (r ∷ acc) s (rw other at h))
]

-- A valid name has 253 bytes at most, only letters, digits, hyphens and dots, and starts and ends
-- with a letter or a digit: it is neither empty nor `.` or `..`, and no path.
pub validate_name-IsSafe :
    (name : Runes)
    → validate_name name ≡ true
    → (byte_length name ≤ 253)
      × All IsNameRune name
      × (ends_well name ≡ true)
      × (ends_well (reverse name) ≡ true)
unfolding validate_name matches_name
validate_name-IsSafe name h = elim (Bool-cases (every_part [] name)) [
  | inl y ↦ let (a, b, c) = parts_IsWellEnded [] name y in (ground (arith, h), a, b, c)
  | inr n ↦ absurd (ground (arith, h, n))
]
