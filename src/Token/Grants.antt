-- ===== src/Token/Grants.antt =====
-- What the scopes of a token grant: allowing is transitive.
use dicer.Prelude.{
  ℕ, ◌≡◌, ◌≢◌, refl, sym, ap, ◌∙◌, ◌⊎◌, inl, inr, true, ◌||◌, some, List, [], ◌∷◌, ◌++◌, arith,
  Bool-cases, Option-cases, some_eq, ◌==◌, nat_Eq, In, All, All-In, All-map,
}
use mathlib.Core.List.{reverse, reverse-append, reverse-reverse}
use dicer.Text.{Runes, runes_Eq, runes_eq_iff, cut_prefix, cut_suffix, reversed}
use dicer.Text.Laws.{cut_prefix-append, cut_prefix-some}
use dicer.Token.Scope.{contains, scope_all, read_suffix, write_suffix, writes, allows, allows_all}

pub contains-In : (xs : List Runes) (s : Runes) → contains xs s ≡ true → In s xs
unfolding contains
contains-In [] s h = cc
contains-In (x ∷ xs) s h = elim (Bool-cases (x == s)) [
  | inl e ↦ inl (sym ((runes_eq_iff x s).0 e))
  | inr n ↦ inr (contains-In xs s (rw n at h))
]

pub In-contains : (xs : List Runes) (s : Runes) → In s xs → contains xs s ≡ true
unfolding contains
In-contains [] s h = absurd h.1
In-contains (x ∷ xs) s (inl e) = rw ((runes_eq_iff x s).1 (sym e)) refl
In-contains (x ∷ xs) s (inr h) = elim (Bool-cases (x == s)) [
  | inl e ↦ rw e refl
  | inr n ↦ rw n (In-contains xs s h)
]

-- What it is for scopes to allow a scope: all scopes are held, the scope itself, or the write scope
-- of the resource that it reads.
abbrev pub Grants : List Runes → Runes → Type 0
Grants held s =
    In scope_all held
    ⊎ In s held
    ⊎ ((resource : Runes) × (s ≡ resource ++ read_suffix) × In (resource ++ write_suffix) held)

cut_suffix-append : (suffix s : Runes) → cut_suffix suffix (s ++ suffix) ≡ some s
unfolding cut_suffix reversed
cut_suffix-append suffix s =
    rw (reverse-append s suffix, cut_prefix-append (reverse suffix) (reverse s), reverse-reverse s)
      refl

cut_suffix-some : (suffix s : Runes) {t : Runes} → cut_suffix suffix s ≡ some t → s ≡ t ++ suffix
unfolding cut_suffix reversed
cut_suffix-some suffix s {t} h = elim (Option-cases (cut_prefix (reverse suffix) (reverse s))) [
  | inl e ↦ cc (rw e at h)
  | inr (r, e) ↦
      let whole = cut_prefix-some (reverse suffix) (reverse s) e in
      let eq : reverse r ≡ t = some_eq (rw e at h) in
      sym (reverse-reverse s)
      ∙ ap reverse whole
      ∙ reverse-append (reverse suffix) r
      ∙ rw (reverse-reverse suffix, eq) refl
]

pub allows-Grants : (held : List Runes) (s : Runes) → allows held s ≡ true → Grants held s
unfolding allows writes
allows-Grants held s h = elim (Bool-cases (contains held scope_all)) [
  | inl a ↦ inl (contains-In held scope_all a)
  | inr na ↦ elim (Bool-cases (contains held s)) [
    | inl c ↦ inr (inl (contains-In held s c))
    | inr nc ↦ elim (Option-cases (cut_suffix read_suffix s)) [
      | inl e ↦ cc (rw (na, nc, e) at h)
      | inr (r, e) ↦
          inr (inr (r, cut_suffix-some read_suffix s e, contains-In held _ (rw (na, nc, e) at h)))
    ]
  ]
]

pub Grants-allows : (held : List Runes) (s : Runes) → Grants held s → allows held s ≡ true
unfolding allows writes
Grants-allows held s (inl a) = rw (In-contains held scope_all a) refl
Grants-allows held s (inr (inl m)) = elim (Bool-cases (contains held scope_all)) [
  | inl a ↦ rw a refl
  | inr na ↦ rw (na, In-contains held s m) refl
]
Grants-allows held s (inr (inr (r, e, m))) =
    elim (Bool-cases (contains held scope_all || contains held s)) [
      | inl a ↦ rw a refl
      | inr na ↦ rw (na, e, cut_suffix-append read_suffix r, In-contains held _ m) refl
    ]

pub allows_all-All :
    (held scopes : List Runes)
    → allows_all held scopes ≡ true
    → All (λ s. allows held s ≡ true) scopes
unfolding allows_all
allows_all-All held [] h = tt
allows_all-All held (s ∷ scopes) h = elim (Bool-cases (allows held s)) [
  | inl a ↦ (a, allows_all-All held scopes (rw a at h))
  | inr n ↦ cc (rw n at h)
]

all_not_read : (r : Runes) → scope_all ≢ r ++ read_suffix
all_not_read [] e = cc
all_not_read (x ∷ []) e = cc
all_not_read (x ∷ y ∷ r) e = cc

abbrev first : Runes → ℕ
first [] = 0
first (x ∷ s) = x

write_not_read : (r q : Runes) → r ++ write_suffix ≢ q ++ read_suffix
write_not_read r q e =
    let mirrored : reverse write_suffix ++ reverse r ≡ reverse read_suffix ++ reverse q =
      sym (reverse-append r write_suffix) ∙ ap reverse e ∙ reverse-append q read_suffix in
    let heads : b'e' ≡ b'd' = ap first mirrored in absurd (omega (arith, heads))

Grants-trans :
    (held scopes : List Runes) (s : Runes)
    → All (Grants held) scopes
    → Grants scopes s
    → Grants held s
Grants-trans held scopes s h (inl a) = elim (All-In _ scope_all scopes h a) [
  | inl b ↦ inl b
  | inr (inl b) ↦ inl b
  | inr (inr (r, e, m)) ↦ absurd (all_not_read r e)
]
Grants-trans held scopes s h (inr (inl m)) = All-In _ s scopes h m
Grants-trans held scopes s h (inr (inr (r, e, m))) = elim (All-In _ _ scopes h m) [
  | inl b ↦ inl b
  | inr (inl b) ↦ inr (inr (r, e, b))
  | inr (inr (q, f, n)) ↦ absurd (write_not_read r q f)
]

-- A token that allows all the scopes of another one allows whatever that one allows.
pub allows_all_trans :
    (held scopes : List Runes) (s : Runes)
    → allows_all held scopes ≡ true
    → allows scopes s ≡ true
    → allows held s ≡ true
allows_all_trans held scopes s h k = Grants-allows held s (
    Grants-trans held scopes s
      (All-map _ _ (allows-Grants held) scopes (allows_all-All held scopes h))
      (allows-Grants scopes s k))

pub All-allows_all :
    (held scopes : List Runes)
    → All (λ s. allows held s ≡ true) scopes
    → allows_all held scopes ≡ true
unfolding allows_all
All-allows_all held [] h = refl
All-allows_all held (s ∷ scopes) h = rw h.0 (All-allows_all held scopes h.1)

pub allows_all_all :
    (a b c : List Runes) → allows_all a b ≡ true → allows_all b c ≡ true → allows_all a c ≡ true
allows_all_all a b c h k =
    All-allows_all a c (All-map _ _ (λ s g. allows_all_trans a b s h g) c (allows_all-All b c k))
