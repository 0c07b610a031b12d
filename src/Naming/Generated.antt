-- ===== src/Naming/Generated.antt =====
-- The names that are made up are valid.
use dicer.Prelude.{
  ℕ, suc, zero, ◌%◌, ◌≤◌, ◌<◌, ◌≡◌, refl, sym, ap, ◌∙◌, inl, inr, ◌&&◌, Bool, true, false, [], ◌∷◌,
  ◌++◌, ◌==◌, nat_Eq, append-nil, append_assoc, arith, Bool-cases, All, All-append, All-map, subst,
  ltb, leb, length, length-append, take, drop, get_elem?,
}
use mathlib.Core.List.{reverse, reverse-append, reverse-reverse}
use dicer.Text.{Runes, byte_length, trim_left, trim_right}
use dicer.Text.Laws.{byte_length-ascii}
use dicer.Naming.{
  max_name_length, is_letter_or_digit, is_part_rune, every, ends_well, is_part, every_part,
  matches_name, validate_name,
}
use dicer.Naming.Safety.{every-All, ends_well-append}
use dicer.Naming.Generate.{
  max_generated_base_length, generated_suffix_chars, is_generated_rune, replace_runs, is_hyphen,
  shorten, or_instance, suffix_char, suffix_of, generate, nth_char,
}

abbrev IsGenerated : ℕ → Type 0
IsGenerated r = is_generated_rune r ≡ true

hyphen : is_generated_rune b'-' ≡ true
unfolding is_generated_rune
hyphen = refl

replace_runs-All : (in_run : Bool) (s : Runes) → All IsGenerated (replace_runs in_run s)
unfolding replace_runs
replace_runs-All in_run [] = tt
replace_runs-All in_run (r ∷ s) = elim (Bool-cases (is_generated_rune r)) [
  | inl y ↦ rw y (y, replace_runs-All false s)
  | inr n ↦ elim (Bool-cases in_run) [
    | inl q ↦ rw (n, q) (replace_runs-All true s)
    | inr q ↦ rw (n, q) (hyphen, replace_runs-All true s)
  ]
]

-- A text that begins with no hyphen.
abbrev Starts : Runes → Type 0
Starts [] = Unit
Starts (r ∷ s) = is_hyphen r ≡ false

trim_left-Starts : (s : Runes) → Starts (trim_left is_hyphen s)
unfolding trim_left
trim_left-Starts [] = tt
trim_left-Starts (r ∷ s) = elim (Bool-cases (is_hyphen r)) [
  | inl y ↦ rw y (trim_left-Starts s)
  | inr n ↦ rw n n
]

-- What is trimmed on the left is a first part.
trim_left-rest : (s : Runes) → (t : Runes) × (s ≡ t ++ trim_left is_hyphen s)
unfolding trim_left
trim_left-rest [] = ([], refl)
trim_left-rest (r ∷ s) = elim (Bool-cases (is_hyphen r)) [
  | inl y ↦ let (t, e) = trim_left-rest s in rw y (r ∷ t, ap (λ x. r ∷ x) e)
  | inr n ↦ rw n ([], refl)
]

trim_right-rest : (s : Runes) → (t : Runes) × (s ≡ trim_right is_hyphen s ++ t)
unfolding trim_right
trim_right-rest s =
    let (t, e) = trim_left-rest (reverse s) in
    (
      reverse t,
      sym (reverse-reverse s) ∙ ap reverse e ∙ reverse-append t (trim_left is_hyphen (reverse s)),
    )

take-rest : (n : ℕ) (s : Runes) → s ≡ take n s ++ drop n s
take-rest zero s = refl
take-rest (suc n) [] = refl
take-rest (suc n) (r ∷ s) = ap (λ x. r ∷ x) (take-rest n s)

-- Generated runes that begin with no hyphen.
abbrev IsBase : Runes → Type 0
IsBase s = All IsGenerated s × Starts s

All-first : (s t : Runes) → All IsGenerated (s ++ t) → All IsGenerated s
All-first [] t h = tt
All-first (r ∷ s) t h = (h.0, All-first s t h.1)

All-last : (s t : Runes) → All IsGenerated (s ++ t) → All IsGenerated t
All-last [] t h = h
All-last (r ∷ s) t h = All-last s t h.1

Starts-first : (s t : Runes) → Starts (s ++ t) → Starts s
Starts-first [] t h = tt
Starts-first (r ∷ s) t h = h

first-IsBase : (s t u : Runes) → u ≡ s ++ t → IsBase u → IsBase s
first-IsBase s t u e h =
    let k : IsBase (s ++ t) = subst IsBase e h in (All-first s t k.0, Starts-first s t k.1)

trim_left-IsBase : (s : Runes) → All IsGenerated s → IsBase (trim_left is_hyphen s)
trim_left-IsBase s h =
    let (t, e) = trim_left-rest s in
    (All-last t (trim_left is_hyphen s) (subst (All IsGenerated) e h), trim_left-Starts s)

trim_right-IsBase : (s : Runes) → IsBase s → IsBase (trim_right is_hyphen s)
trim_right-IsBase s h = let (t, e) = trim_right-rest s in first-IsBase _ t s e h

shorten-IsBase : (s : Runes) → IsBase s → IsBase (shorten s)
unfolding shorten
shorten-IsBase s h = elim (Bool-cases (ltb max_generated_base_length (length s))) [
  | inl y ↦
      rw y
        (trim_right-IsBase (take 40 s) (first-IsBase (take 40 s) (drop 40 s) s (take-rest 40 s) h))
  | inr n ↦ rw n h
]

length-take : (n : ℕ) (s : Runes) → length (take n s) ≤ n
length-take zero s = omega arith
length-take (suc n) [] = omega arith
length-take (suc n) (r ∷ s) = omega (arith, length-take n s)

length-trim_right : (s : Runes) → length (trim_right is_hyphen s) ≤ length s
length-trim_right s =
    let (t, e) = trim_right-rest s in
    omega (arith, ap length e, length-append (trim_right is_hyphen s) t)

length-shorten : (s : Runes) → length (shorten s) ≤ 40
unfolding shorten
length-shorten s = elim (Bool-cases (ltb max_generated_base_length (length s))) [
  | inl y ↦ rw y (omega (arith, length-trim_right (take 40 s), length-take 40 s))
  | inr n ↦ rw n (ground (arith, n))
]

length-or_instance : (s : Runes) → length s ≤ 40 → length (or_instance s) ≤ 40
unfolding or_instance
length-or_instance [] h = omega arith
length-or_instance (r ∷ s) h = h

or_instance-IsBase :
    (s : Runes) → IsBase s → All IsGenerated (or_instance s) × (ends_well (or_instance s) ≡ true)
unfolding or_instance ends_well is_generated_rune is_letter_or_digit
or_instance-IsBase [] h = ((refl, (refl, (refl, (refl, (refl, (refl, (refl, (refl, tt)))))))), refl)
or_instance-IsBase (r ∷ s) h = (h.0, ground arith)

nth_char-All :
    (P : ℕ → Type 0) (s : Runes) (i : ℕ) → All P s → i < length s → P (nth_char (get_elem? s i))
unfolding nth_char
nth_char-All P [] i h k = absurd (omega arith)
nth_char-All P (r ∷ s) zero h k = h.0
nth_char-All P (r ∷ s) (suc i) h k = nth_char-All P s i h.1 (omega arith)

-- A lower-case letter or a digit.
abbrev IsSuffix : ℕ → Type 0
IsSuffix r = (is_generated_rune r && is_letter_or_digit r) ≡ true

suffix_chars-All :
    every (λ r. is_generated_rune r && is_letter_or_digit r) generated_suffix_chars ≡ true
unfolding every is_generated_rune is_letter_or_digit
suffix_chars-All = refl

suffix_char-IsSuffix : (b : ℕ) → IsSuffix (suffix_char b)
unfolding suffix_char
suffix_char-IsSuffix b =
    nth_char-All IsSuffix generated_suffix_chars (b % 36)
      (every-All _ generated_suffix_chars suffix_chars-All) (omega arith)

-- What generated runes are, one by one.
IsGenerated-part : (r : ℕ) → IsGenerated r → is_part_rune r ≡ true
unfolding is_generated_rune is_part_rune is_letter_or_digit
IsGenerated-part r h = ground (arith, h)

IsGenerated-no_dot : (r : ℕ) → IsGenerated r → (r == b'.') ≡ false
unfolding is_generated_rune
IsGenerated-no_dot r h = ground (arith, h)

IsGenerated-ascii : (r : ℕ) → IsGenerated r → r ≤ 127
unfolding is_generated_rune
IsGenerated-ascii r h = ground (arith, h)

All-every : (p : ℕ → Bool) (s : Runes) → All (λ r. p r ≡ true) s → every p s ≡ true
unfolding every
All-every p [] h = refl
All-every p (r ∷ s) h = rw h.0 (All-every p s h.1)

-- A name without dots is one part.
one_part :
    (acc s : Runes)
    → All (λ r. (r == b'.') ≡ false) s
    → every_part acc s ≡ is_part (reverse acc ++ s)
unfolding every_part
one_part acc [] h = ap is_part (sym (append-nil (reverse acc)))
one_part acc (r ∷ s) h = rw h.0 (
    one_part (r ∷ acc) s h.1
    ∙ ap is_part
        (ap (λ x. x ++ s) (reverse-append (r ∷ []) acc) ∙ append_assoc (reverse acc) (r ∷ []) s))

part_of :
    (s : Runes)
    → All IsGenerated s
    → ends_well s ≡ true
    → ends_well (reverse s) ≡ true
    → length s ≤ 45
    → is_part s ≡ true
unfolding is_part
part_of s g a b l =
    let e : every is_part_rune s ≡ true = All-every _ s (All-map _ _ IsGenerated-part s g) in
    let k : leb (length s) 63 ≡ true = ground (arith, l) in rw (e, a, b, k) refl

valid_of :
    (s : Runes) → All IsGenerated s → is_part s ≡ true → length s ≤ 45 → validate_name s ≡ true
unfolding validate_name matches_name
valid_of s g h l =
    let m : every_part [] s ≡ true = one_part [] s (All-map _ _ IsGenerated-no_dot s g) ∙ h in
    let n : ltb max_name_length (byte_length s) ≡ false =
      let b = byte_length-ascii s (All-map _ _ IsGenerated-ascii s g) in ground (arith, b, l) in
    rw (m, n) refl

named_valid :
    (base : Runes) (a b c d : ℕ)
    → All IsGenerated base × (ends_well base ≡ true)
    → length base ≤ 40
    → IsSuffix a
    → IsSuffix b
    → IsSuffix c
    → IsSuffix d
    → validate_name (base ++ suffix_of a b c d) ≡ true
unfolding ends_well
named_valid base a b c d g l ia ib ic id =
    let s = base ++ suffix_of a b c d in
    let runes : All IsGenerated s = All-append _ base (suffix_of a b c d) g.0 (
      hyphen,
      (ground (arith, ia), (ground (arith, ib), (ground (arith, ic), (ground (arith, id), tt)))),
    ) in
    let long : length s ≤ 45 = omega (arith, length-append base (suffix_of a b c d), l) in
    let last : ends_well (reverse s) ≡ true =
      ap ends_well (reverse-append base (suffix_of a b c d)) ∙ ground (arith, id) in
    valid_of s runes (part_of s runes (ends_well-append base (suffix_of a b c d) g.1) last long)
      long

-- Whatever the base and the random bytes, Generate answers a valid name.
pub generate-IsValid :
    (lowered : Runes) (random : ℕ → ℕ) → validate_name (generate lowered random) ≡ true
unfolding generate
generate-IsValid lowered random =
    let base = trim_right is_hyphen (trim_left is_hyphen (replace_runs false lowered)) in
    let kept_ = trim_right-IsBase _ (trim_left-IsBase _ (replace_runs-All false lowered)) in
    named_valid (or_instance (shorten base)) (suffix_char (random 0)) (suffix_char (random 1))
      (suffix_char (random 2)) (suffix_char (random 3))
      (or_instance-IsBase (shorten base) (shorten-IsBase base kept_))
      (length-or_instance (shorten base) (length-shorten base)) (suffix_char-IsSuffix (random 0))
      (suffix_char-IsSuffix (random 1)) (suffix_char-IsSuffix (random 2))
      (suffix_char-IsSuffix (random 3))
