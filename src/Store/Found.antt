-- ===== src/Store/Found.antt =====
-- What is kept, and what may be new, after each call on a kind.
use dicer.Prelude.{
  String, ◌≡◌, ◌≢◌, sym, ◌∙◌, ◌⊎◌, inl, inr, Option, none, some, List, subst, string_Eq,
}
use dicer.Maps.{lookup, remove}
use dicer.Maps.Exact.{assign-cases, remove-cases}
use dicer.Errors.{Error, Result, ok}
use dicer.Store.{Kind, Catalogue}
use dicer.Store.Definitions.{Disk, put_definition, create, update, delete, rename}
use dicer.Store.Sound.{IsSound, is_none}
use dicer.Store.Kept.{with_definition, create-cases, update-cases, delete-cases}
use dicer.Store.Renamed.{rename-cases}

module _ {V : Type 0} ⦃kind : Kind V⦄ where
  -- A definition of that name.
  abbrev pub Has : String → Catalogue V → Type 0
  Has n c = (v : V) × (lookup n c.by_name ≡ some v)

  -- Each definition after a call was there before, or is the one of the call, which was not refused.
  abbrev pub From : Option Error → V → Catalogue V → Catalogue V × Result (Unit {0}) → Type 0
  From refused v c out =
      (n : String) (w : V)
      → lookup n out.0.by_name ≡ some w
      → (lookup n c.by_name ≡ some w) ⊎ ((w ≡ v) × (refused ≡ none))

  -- A call that takes no name away.
  abbrev pub Keeps : Catalogue V → Catalogue V × Result (Unit {0}) → Type 0
  Keeps c out = (n : String) → Has n c → Has n out.0

  pub with-From :
      (refused : Option Error) (v : V) (c : Catalogue V)
      → refused ≡ none
      → From refused v c (with_definition v c, ok tt)
  unfolding put_definition
  with-From refused v c r n w h = elim (assign-cases n (kind.name_of v) v c.by_name) [
    | inl (_, f) ↦ inr (some_inj (sym h ∙ f), r)
    | inr (_, f) ↦ inl (sym f ∙ h)
  ]
    where
      some_inj : {a b : V} → some a ≡ some b → a ≡ b
      some_inj e = cc

  with-Keeps : (v : V) (c : Catalogue V) → Keeps c (with_definition v c, ok tt)
  unfolding put_definition
  with-Keeps v c n (w, h) = elim (assign-cases n (kind.name_of v) v c.by_name) [
    | inl (_, f) ↦ (v, f)
    | inr (_, f) ↦ (w, f ∙ h)
  ]

  pub create-From :
      (refused : Option Error) (v : V) (disk : Disk) (c : Catalogue V)
      → IsSound c
      → From refused v c (create refused v disk c)
  create-From refused v disk c s = elim (create-cases refused v disk c s) [
    | inl (e, q) ↦ subst (From refused v c) (sym q) (λ n w h. inl h)
    | inr (q, _, r, _, _) ↦ subst (From refused v c) (sym q) (with-From refused v c r)
  ]

  pub create-Keeps :
      (refused : Option Error) (v : V) (disk : Disk) (c : Catalogue V)
      → IsSound c
      → Keeps c (create refused v disk c)
  create-Keeps refused v disk c s = elim (create-cases refused v disk c s) [
    | inl (e, q) ↦ subst (Keeps c) (sym q) (λ n h. h)
    | inr (q, _, _, _, _) ↦ subst (Keeps c) (sym q) (with-Keeps v c)
  ]

  pub update-From :
      (refused : Option Error) (v : V) (disk : Disk) (c : Catalogue V)
      → From refused v c (update refused v disk c)
  update-From refused v disk c = elim (update-cases refused v disk c) [
    | inl (e, q) ↦ subst (From refused v c) (sym q) (λ n w h. inl h)
    | inr (q, r) ↦ subst (From refused v c) (sym q) (with-From refused v c r)
  ]

  pub update-Keeps :
      (refused : Option Error) (v : V) (disk : Disk) (c : Catalogue V)
      → Keeps c (update refused v disk c)
  update-Keeps refused v disk c = elim (update-cases refused v disk c) [
    | inl (e, q) ↦ subst (Keeps c) (sym q) (λ n h. h)
    | inr (q, _) ↦ subst (Keeps c) (sym q) (with-Keeps v c)
  ]

  remove-some :
      (n j : String) (m : List (String × V)) {w : V}
      → lookup n (remove j m) ≡ some w
      → lookup n m ≡ some w
  remove-some n j m h = elim (remove-cases n j m) [
    | inl (_, f) ↦ absurd (is_none f h)
    | inr (_, f) ↦ sym f ∙ h
  ]

  pub rename-From :
      (refused : Option Error) (k : String) (r : V) (disk : Disk) (c : Catalogue V)
      → IsSound c
      → From refused r c (rename refused k r disk c)
  unfolding put_definition
  rename-From refused k r disk c s = elim (rename-cases refused k r disk c s) [
    | inl (e, files, q, _) ↦ subst (From refused r c) (sym q) (λ n w h. inl h)
    | inr (v, q, none_, _, _, _, _) ↦ subst (From refused r c) (sym q) (λ n w h.
        elim (with-From refused r (record c { by_name = remove (kind.name_of v) c.by_name }) none_ n
          w h) [ inl f ↦ inl (remove-some n (kind.name_of v) c.by_name f) | inr f ↦ inr f ])
  ]

  module _ (refused : V → Option Error) (k : String) (disk : Disk) (c : Catalogue V)
      (s : IsSound c) where
    pub delete-From :
        (n : String) (w : V)
        → lookup n (delete refused k disk c).0.by_name ≡ some w
        → lookup n c.by_name ≡ some w
    delete-From = elim (delete-cases refused k disk c s) [
      | inl (e, files, q, _) ↦ subst Within (sym q) (λ n w h. h)
      | inr (v, q, _, _, _) ↦
          subst Within (sym q) (λ n w h. remove-some n (kind.name_of v) c.by_name h)
    ]
      where
        Within : Catalogue V × Result (Unit {0}) → Type 0
        Within out =
            (n : String) (w : V) → lookup n out.0.by_name ≡ some w → lookup n c.by_name ≡ some w

    -- A name stays if a definition of that name is refused.
    pub delete-Keeps :
        (n : String)
        → ((v : V) → refused v ≡ none → kind.name_of v ≢ n)
        → Has n c
        → Has n (delete refused k disk c).0
    delete-Keeps n used (w, h) = elim (delete-cases refused k disk c s) [
      | inl (e, files, q, _) ↦ subst Has_after (sym q) (w, h)
      | inr (v, q, r, _, _) ↦
          subst Has_after (sym q) (elim (remove-cases n (kind.name_of v) c.by_name) [
            | inl (e, _) ↦ absurd (used v r e)
            | inr (_, f) ↦ (w, f ∙ h)
          ])
    ]
      where
        Has_after : Catalogue V × Result (Unit {0}) → Type 0
        Has_after out = Has n out.0
