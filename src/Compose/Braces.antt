-- ===== src/Compose/Braces.antt =====
-- Which brace closes a `${`.
use dicer.Prelude.{
  ℕ, suc, ◌+◌, ◌-◌, ◌≡◌, ◌≢◌, refl, sym, ap, ◌∙◌, Bool, true, false, Option, some, [], ◌∷◌, ◌++◌,
  ◌==◌, nat_Eq, arith, All, append_assoc, subst,
}
use dicer.Text.{Runes}
use dicer.Compose.Interpolate.{is_name_start, is_name_character, Split, closing_brace, before?}
use dicer.Compose.Template.{
  Template, end, literal, dollar, bare_variable, braced_variable, choice, print, Operator,
  default_to, require, alternative, operator_code, colon_text, IsName, IsTemplate,
}

-- A text before what was split.
abbrev pub prefix : Runes → Option Split → Option Split
prefix [] o = o
prefix (c ∷ s) o = before? c (prefix s o)

prefix-append : (s t : Runes) (o : Option Split) → prefix (s ++ t) o ≡ prefix s (prefix t o)
prefix-append [] t o = refl
prefix-append (c ∷ s) t o = ap (before? c) (prefix-append s t o)

pub prefix-some :
    (s : Runes) (p : Split)
    → prefix s (some p) ≡ some (record { before = s ++ p.before; after = p.after })
prefix-some [] p = refl
prefix-some (c ∷ s) p = ap (before? c) (prefix-some s p)

-- What does not begin with an open brace.
abbrev pub NoBrace : Runes → Type 0
NoBrace [] = Unit
NoBrace (c ∷ s) = c ≢ b'{'

module _ (depth : ℕ) where
  closing-plain :
      (c : ℕ) (s : Runes)
      → c ≢ b'$'
      → c ≢ b'}'
      → closing_brace depth (c ∷ s) ≡ before? c (closing_brace depth s)
  unfolding closing_brace
  closing-plain c [] h k = ground arith
  closing-plain c (d ∷ s) h k =
      let n : (c == b'$') ≡ false = ground arith in
      let m : (c == b'}') ≡ false = ground arith in rw (n, m) refl

  closing-dollar :
      (s : Runes)
      → NoBrace s
      → closing_brace depth (b'$' ∷ s) ≡ before? b'$' (closing_brace depth s)
  unfolding closing_brace
  closing-dollar [] h = refl
  closing-dollar (d ∷ s) h = let n : (d == b'{') ≡ false = ground arith in rw n refl

  closing-open :
      (s : Runes)
      → closing_brace depth (b'$' ∷ b'{' ∷ s)
        ≡ before? b'$' (before? b'{' (closing_brace (depth + 1) s))
  unfolding closing_brace
  closing-open s = refl

closing-close :
    (depth : ℕ) (s : Runes)
    → closing_brace (suc (suc depth)) (b'}' ∷ s) ≡ before? b'}' (closing_brace (suc depth) s)
unfolding closing_brace
closing-close depth [] = let n : (suc (suc depth) - 1 == 0) ≡ false = ground arith in rw n refl
closing-close depth (c ∷ s) =
    let n : (suc (suc depth) - 1 == 0) ≡ false = ground arith in
    let e : suc (suc depth) - 1 ≡ suc depth = omega arith in rw (n, e) refl

pub closing-end :
    (s : Runes) → closing_brace 1 (b'}' ∷ s) ≡ some (record { before = []; after = s })
unfolding closing_brace
closing-end [] = refl
closing-end (c ∷ s) = refl

name_character-plain : (c : ℕ) → is_name_character c ≡ true → (c ≢ b'$') × (c ≢ b'}') × (c ≢ b'{')
unfolding is_name_character is_name_start
name_character-plain c h = (
  (λ e. absurd (ground (arith, h))),
  (λ e. absurd (ground (arith, h))),
  (λ e. absurd (ground (arith, h))),
)

pub name-characters : (name : Runes) → IsName name → All (λ c. is_name_character c ≡ true) name
unfolding is_name_character
name-characters [] h = absurd h
name-characters (c ∷ s) h = (rw h.0 refl, h.1)

pub closing-name :
    (depth : ℕ) (name s : Runes)
    → All (λ c. is_name_character c ≡ true) name
    → closing_brace depth (name ++ s) ≡ prefix name (closing_brace depth s)
closing-name depth [] s h = refl
closing-name depth (c ∷ name) s h =
    let (a, b, _) = name_character-plain c h.0 in
    closing-plain depth c (name ++ s) a b ∙ ap (before? c) (closing-name depth name s h.1)

NoBrace-name : (name s : Runes) → IsName name → NoBrace (name ++ s)
NoBrace-name [] s h = absurd h
NoBrace-name (c ∷ name) s h = (name_character-plain c (name-characters (c ∷ name) h).0).2

NoBrace-print : (t : Template) (s : Runes) → IsTemplate t → NoBrace s → NoBrace (print t ++ s)
unfolding print
NoBrace-print end s h n = n
NoBrace-print (literal c t) s h n = h.1
NoBrace-print (dollar t) s h n = λ e. absurd (omega (arith, e))
NoBrace-print (bare_variable name t) s h n = λ e. absurd (omega (arith, e))
NoBrace-print (braced_variable name t) s h n = λ e. absurd (omega (arith, e))
NoBrace-print (choice name colon op arg t) s h n = λ e. absurd (omega (arith, e))

closing-code :
    (depth : ℕ) (op : Operator) (s : Runes)
    → closing_brace depth (operator_code op ∷ s)
      ≡ before? (operator_code op) (closing_brace depth s)
closing-code depth default_to s =
    closing-plain depth b'-' s (λ e. absurd (omega (arith, e))) (λ e. absurd (omega (arith, e)))
closing-code depth require s =
    closing-plain depth b'?' s (λ e. absurd (omega (arith, e))) (λ e. absurd (omega (arith, e)))
closing-code depth alternative s =
    closing-plain depth b'+' s (λ e. absurd (omega (arith, e))) (λ e. absurd (omega (arith, e)))

-- A text that is passed over.
abbrev pub Passes : ℕ → Runes → Runes → Type 0
Passes depth x s = closing_brace depth (x ++ s) ≡ prefix x (closing_brace depth s)

pub Passes-append :
    (depth : ℕ) (x y s : Runes)
    → Passes depth x (y ++ s)
    → Passes depth y s
    → Passes depth (x ++ y) s
Passes-append depth x y s h k =
    ap (closing_brace depth) (append_assoc x y s)
    ∙ h
    ∙ ap (prefix x) k
    ∙ sym (prefix-append x y (closing_brace depth s))

-- What stands between braces is passed over, with what follows it.
Passes-nested :
    (depth : ℕ) (body t s : Runes)
    → Passes (suc (suc depth)) body (b'}' ∷ (t ++ s))
    → Passes (suc depth) t s
    → Passes (suc depth) (b'$' ∷ b'{' ∷ (body ++ b'}' ∷ t)) s
Passes-nested depth body t s h k =
    closing-open (suc depth) ((body ++ b'}' ∷ t) ++ s)
    ∙ ap (λ o. before? b'$' (before? b'{' o))
        (ap (λ d. closing_brace d ((body ++ b'}' ∷ t) ++ s)) (omega arith)
          ∙ ap (closing_brace (suc (suc depth))) (append_assoc body (b'}' ∷ t) s)
          ∙ h
          ∙ ap (prefix body) (closing-close depth (t ++ s) ∙ ap (before? b'}') k)
          ∙ sym (prefix-append body (b'}' ∷ t) (closing_brace (suc depth) s)))

pub closing-operator :
    (depth : ℕ) (colon : Bool) (op : Operator) (s : Runes)
    → closing_brace depth (colon_text colon ++ operator_code op ∷ s)
      ≡ prefix (colon_text colon ++ operator_code op ∷ []) (closing_brace depth s)
closing-operator depth true op s =
    closing-plain depth b':' (operator_code op ∷ s) (λ e. absurd (omega (arith, e)))
      (λ e. absurd (omega (arith, e)))
    ∙ ap (before? b':') (closing-code depth op s)
closing-operator depth false op s = closing-code depth op s

grouped :
    (name : Runes) (colon : Bool) (op : Operator) (arg t : Template)
    → (name ++ ((colon_text colon ++ operator_code op ∷ []) ++ print arg)) ++ b'}' ∷ print t
      ≡ name ++ (colon_text colon ++ operator_code op ∷ (print arg ++ b'}' ∷ print t))
grouped name colon op arg t = simp (append_assoc)

-- The written template is passed over, whatever braces it holds.
pub closing-print :
    (depth : ℕ) (t : Template) (s : Runes)
    → IsTemplate t
    → NoBrace s
    → closing_brace (suc depth) (print t ++ s) ≡ prefix (print t) (closing_brace (suc depth) s)
unfolding print
closing-print depth end s h n = refl
closing-print depth (literal c t) s h n =
    closing-plain (suc depth) c (print t ++ s) h.0 h.2
    ∙ ap (before? c) (closing-print depth t s h.3 n)
closing-print depth (dollar t) s h n =
    closing-dollar (suc depth) (b'$' ∷ (print t ++ s)) (λ e. absurd (omega (arith, e)))
    ∙ ap (before? b'$') (
        closing-dollar (suc depth) (print t ++ s) (NoBrace-print t s h n)
        ∙ ap (before? b'$') (closing-print depth t s h n))
closing-print depth (bare_variable name t) s h n =
    closing-dollar (suc depth) ((name ++ print t) ++ s)
      (subst NoBrace (sym (append_assoc name (print t) s)) (NoBrace-name name (print t ++ s) h.0))
    ∙ ap (before? b'$') (
        Passes-append (suc depth) name (print t) s
          (closing-name (suc depth) name (print t ++ s) (name-characters name h.0))
          (closing-print depth t s h.2 n))
closing-print depth (braced_variable name t) s h n =
    Passes-nested depth name (print t) s
      (closing-name (suc (suc depth)) name (b'}' ∷ (print t ++ s)) (name-characters name h.0))
      (closing-print depth t s h.1 n)
closing-print depth (choice name colon op arg t) s h n =
    ap (λ x. closing_brace (suc depth) ((b'$' ∷ b'{' ∷ x) ++ s)) (sym (grouped name colon op arg t))
    ∙ Passes-nested depth (name ++ ((colon_text colon ++ operator_code op ∷ []) ++ print arg))
        (print t) s
        (Passes-append (suc (suc depth)) name _ (b'}' ∷ (print t ++ s))
          (closing-name (suc (suc depth)) name _ (name-characters name h.0))
          (Passes-append (suc (suc depth)) (colon_text colon ++ operator_code op ∷ []) (print arg)
            (b'}' ∷ (print t ++ s))
            (ap (closing_brace (suc (suc depth)))
                (append_assoc (colon_text colon) (operator_code op ∷ []) _)
              ∙ closing-operator (suc (suc depth)) colon op _)
            (closing-print (suc depth) arg (b'}' ∷ (print t ++ s)) h.1
              (λ e. absurd (omega (arith, e))))))
        (closing-print depth t s h.2 n)
    ∙ ap (λ x. prefix (b'$' ∷ b'{' ∷ x) (closing_brace (suc depth) s)) (grouped name colon op arg t)
