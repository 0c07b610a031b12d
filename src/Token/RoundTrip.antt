-- ===== src/Token/RoundTrip.antt =====
-- What Parse reads is what Format wrote.
use dicer.Prelude.{
  ℕ, ◌≡◌, ◌≢◌, refl, ap, ◌∙◌, ◌⊎◌, inl, inr, true, false, some, List, [], ◌∷◌, ◌++◌, arith,
  Bool-cases, Option-cases, ◌==◌, nat_Eq, All, All-append, All-map, append_assoc,
}
use dicer.Text.{Runes, runes_Eq, runes_eq_iff, Cut, cut_prefix, cut, trim_space, is_space}
use dicer.Text.Laws.{
  cut_prefix-append, cut_prefix-some, cut-append, cut-lacking, cut-joins, trim_space-none,
}
use dicer.Token.Secret.{
  is_alphanumeric, every_alphanumeric, validate_secret, hex_digit, hex_byte, hex_decode,
  is_sha256_hex, decodes_to_32, is_fingerprint,
}
use dicer.Token.Value.{token_prefix, separator, format, parsed, parse_cut, parse_rest, parse}

every_alphanumeric-All :
    (s : Runes) → every_alphanumeric s ≡ true → All (λ r. is_alphanumeric r ≡ true) s
unfolding every_alphanumeric
every_alphanumeric-All [] h = tt
every_alphanumeric-All (r ∷ s) h = elim (Bool-cases (is_alphanumeric r)) [
  | inl good ↦ (good, every_alphanumeric-All s (rw good at h))
  | inr bad ↦ cc (rw bad at h)
]

secret-All : (s : Runes) → validate_secret s ≡ true → All (λ r. is_alphanumeric r ≡ true) s
unfolding validate_secret
secret-All s h = every_alphanumeric-All s (ground (arith, h))

not_space : (r : ℕ) → is_alphanumeric r ≡ true → is_space r ≡ false
unfolding is_alphanumeric is_space
not_space r h = ground arith

not_separator : (r : ℕ) → is_alphanumeric r ≡ true → r ≢ b'_'
unfolding is_alphanumeric
not_separator r h = ground arith

hex_digit-alphanumeric : (r : ℕ) {d : ℕ} → hex_digit r ≡ some d → is_alphanumeric r ≡ true
unfolding hex_digit is_alphanumeric
hex_digit-alphanumeric r h = ground arith

hex_decode-All :
    (s : Runes) {bytes : List ℕ} → hex_decode s ≡ some bytes → All (λ r. is_alphanumeric r ≡ true) s
unfolding hex_decode hex_byte
hex_decode-All [] h = tt
hex_decode-All (a ∷ []) h = cc
hex_decode-All (a ∷ b ∷ s) h = elim (Option-cases (hex_digit a)) [
  | inl e ↦ cc (rw e at h)
  | inr (x, e) ↦ elim (Option-cases (hex_digit b)) [
    | inl f ↦ cc (rw (e, f) at h)
    | inr (y, f) ↦ elim (Option-cases (hex_decode s)) [
      | inl g ↦ cc (rw (e, f, g) at h)
      | inr (z, g) ↦ (hex_digit-alphanumeric a e, (hex_digit-alphanumeric b f, hex_decode-All s g))
    ]
  ]
]

fingerprint-All : (s : Runes) → is_fingerprint s ≡ true → All (λ r. is_alphanumeric r ≡ true) s
unfolding is_fingerprint is_sha256_hex decodes_to_32
fingerprint-All s h = elim (Option-cases (hex_decode s)) [
  | inl e ↦ cc (rw e at h)
  | inr (bytes, e) ↦ hex_decode-All s e
]

plain : (s : Runes) → All (λ r. is_alphanumeric r ≡ true) s → All (λ r. is_space r ≡ false) s
plain s h = All-map _ _ not_space s h

-- What may follow a secret in a token: nothing, or a fingerprint.
abbrev pub MayFollow : Runes → Type 0
MayFollow fingerprint = (fingerprint ≡ []) ⊎ (is_fingerprint fingerprint ≡ true)

prefix_plain : All (λ r. is_space r ≡ false) token_prefix
unfolding is_space
prefix_plain = (refl, (refl, (refl, (refl, (refl, (refl, tt))))))

separator_plain : is_space b'_' ≡ false
unfolding is_space
separator_plain = refl

parse_cut-parsed :
    (c : Cut)
    → validate_secret c.before ≡ true
    → MayFollow c.after
    → parse_cut c ≡ parsed c.before c.after
unfolding parse_cut
parse_cut-parsed c good (inl e) = rw (good, e) refl
parse_cut-parsed c good (inr f) =
    rw (good, f) (elim (Bool-cases (c.after == [])) [ inl e ↦ rw e refl | inr e ↦ rw e refl ])

parse-plain :
    (rest : Runes)
    → All (λ r. is_space r ≡ false) rest
    → parse (token_prefix ++ rest) ≡ parse_cut (cut b'_' rest)
unfolding parse parse_rest
parse-plain rest h =
    let trimmed =
      trim_space-none (token_prefix ++ rest) (All-append _ token_prefix rest prefix_plain h) in
    ap (λ s. parse_rest (cut_prefix token_prefix s)) trimmed
    ∙ ap parse_rest (cut_prefix-append token_prefix rest)

-- Format's two ways.
format-nil : (secret : Runes) → format secret [] ≡ token_prefix ++ secret
unfolding format
format-nil secret = refl

format-cons :
    (secret : Runes) (r : ℕ) (s : Runes)
    → format secret (r ∷ s) ≡ token_prefix ++ (secret ++ b'_' ∷ r ∷ s)
unfolding format
format-cons secret r s = simp (append_assoc)

module _ (secret : Runes) (good : validate_secret secret ≡ true) where
  secret_plain : All (λ r. is_alphanumeric r ≡ true) secret
  secret_plain = secret-All secret good

  -- Parse reads what Format writes for a valid secret with a fingerprint or none.
  pub parse-format :
      (fingerprint : Runes)
      → MayFollow fingerprint
      → parse (format secret fingerprint) ≡ parsed secret fingerprint
  unfolding format
  parse-format [] m =
      parse-plain secret (plain secret secret_plain)
      ∙ ap parse_cut (cut-lacking b'_' secret (All-map _ _ not_separator secret secret_plain))
      ∙ parse_cut-parsed _ good m
  parse-format (r ∷ s) (inl e) = cc
  parse-format (r ∷ s) (inr f) =
      ap parse (format-cons secret r s)
      ∙ parse-plain (secret ++ b'_' ∷ r ∷ s) (
          All-append _ secret (b'_' ∷ r ∷ s) (plain secret secret_plain)
            (separator_plain, plain (r ∷ s) (fingerprint-All (r ∷ s) f)))
      ∙ ap parse_cut
          (cut-append b'_' secret (r ∷ s) (All-map _ _ not_separator secret secret_plain))
      ∙ parse_cut-parsed _ good (inr f)

parse_cut-inv :
    (c : Cut) {secret fingerprint : Runes}
    → parse_cut c ≡ parsed secret fingerprint
    → (c.before ≡ secret)
      × (c.after ≡ fingerprint)
      × (validate_secret c.before ≡ true)
      × MayFollow c.after
unfolding parse_cut
parse_cut-inv c h = elim (Bool-cases (validate_secret c.before)) [
  | inl good ↦ elim (Bool-cases (c.after == [])) [
    | inl e ↦
        (cc (rw (good, e) at h), cc (rw (good, e) at h), good, inl ((runes_eq_iff c.after []).0 e))
    | inr n ↦ elim (Bool-cases (is_fingerprint c.after)) [
      | inl f ↦ (cc (rw (good, n, f) at h), cc (rw (good, n, f) at h), good, inr f)
      | inr f ↦ cc (rw (good, n, f) at h)
    ]
  ]
  | inr bad ↦ cc (rw bad at h)
]

format-cut :
    (c : Cut) (before after rest : Runes)
    → c.before ≡ before
    → c.after ≡ after
    → ((c.found ≡ true) × (rest ≡ c.before ++ b'_' ∷ c.after))
      ⊎ ((c.found ≡ false) × (c.after ≡ []) × (rest ≡ c.before))
    → (token_prefix ++ rest ≡ format before after)
      ⊎ (token_prefix ++ rest ≡ format before after ++ separator)
format-cut c before after rest b a (inr (f, e, q)) = inl (rw (q, b, ← a, e, format-nil before) refl)
format-cut c before [] rest b a (inl (f, q)) = inr (rw (q, b, a, format-nil before) refl)
format-cut c before (r ∷ s) rest b a (inl (f, q)) = inl (rw (q, b, a, format-cons before r s) refl)

-- What Parse accepts is, with white space around it or not, what Format writes for the parts it
-- answers, which are a valid secret and a fingerprint or none; a separator may follow a secret
-- without a fingerprint.
pub parse-Reads :
    (s secret fingerprint : Runes)
    → parse s ≡ parsed secret fingerprint
    → (validate_secret secret ≡ true)
      × MayFollow fingerprint
      × ((trim_space s ≡ format secret fingerprint)
          ⊎ (trim_space s ≡ format secret fingerprint ++ separator))
unfolding parse parse_rest
parse-Reads s secret fingerprint h = elim (Option-cases (cut_prefix token_prefix (trim_space s))) [
  | inl e ↦ cc (rw e at h)
  | inr (rest, e) ↦
      let (b, a, good, m) = parse_cut-inv (cut b'_' rest) (rw e at h) in
      (
        rw (← b) good,
        rw (← a) m,
        rw (cut_prefix-some token_prefix (trim_space s) e)
            (format-cut (cut b'_' rest) secret fingerprint rest b a (cut-joins b'_' rest)),
      )
]
