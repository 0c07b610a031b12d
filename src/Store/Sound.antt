-- ===== src/Store/Sound.antt =====
-- The two maps of a kind agree, and every call keeps them so.
use dicer.Prelude.{
  String, ◌≡◌, ◌≢◌, refl, sym, ap, ◌∙◌, ◌⊎◌, inl, inr, Option, none, some, ◌==◌, string_Eq,
  Bool-cases, some_eq, subst,
}
use dicer.Maps.{lookup, assign}
use dicer.Maps.Exact.{Exact, assign-cases, assign-Exact}
use dicer.Store.{Kind, Catalogue}
use dicer.Store.Definitions.{put_definition}

module _ {A : Type 0} {o : Option A} {a : A} where
  pub same_some : {b : A} → o ≡ some a → o ≡ some b → a ≡ b
  same_some p q = some_eq (sym p ∙ q)

  pub is_none : o ≡ none → o ≡ some a → ⊥
  is_none p q = cc

module _ {V : Type 0} ⦃kind : Kind V⦄ where
  -- No two definitions share a name or an ID, no ID is a name, each definition is kept under its
  -- own name, and the index leads from each ID to the definition that has it and nowhere else.
  pub record IsSound (c : Catalogue V) : Type 0 where
    pub exact : Exact c.by_name
    pub keyed : (n : String) {v : V} → lookup n c.by_name ≡ some v → kind.name_of v ≡ n
    pub identified : (n : String) {v : V} → lookup n c.by_name ≡ some v → kind.id_of v ≢ ""
    pub indexed :
        (n : String) {v : V}
        → lookup n c.by_name ≡ some v
        → lookup (kind.id_of v) c.names_by_id ≡ some n
    pub leads :
        (i : String) {n : String}
        → lookup i c.names_by_id ≡ some n
        → (v : V) × (lookup n c.by_name ≡ some v) × (kind.id_of v ≡ i)
    pub apart :
        (n : String) {v : V} → lookup n c.by_name ≡ some v → lookup (kind.id_of v) c.by_name ≡ none

  -- What is asked of a definition that is put among others: they have another ID, and neither has
  -- the other's name as its ID; one that it replaces has its ID.
  pub record Fits (v : V) (c : Catalogue V) : Type 0 where
    pub has_id : kind.id_of v ≢ ""
    pub own_name : kind.id_of v ≢ kind.name_of v
    pub no_name : lookup (kind.id_of v) c.by_name ≡ none
    pub others :
        (n : String) {u : V}
        → lookup n c.by_name ≡ some u
        → n ≢ kind.name_of v
        → (kind.id_of u ≢ kind.name_of v) × (kind.id_of u ≢ kind.id_of v)
    pub replaces :
        {u : V} → lookup (kind.name_of v) c.by_name ≡ some u → kind.id_of u ≡ kind.id_of v

  module _ (v : V) (c : Catalogue V) (fits : Fits v c) where
    put_by_name : (put_definition v c).by_name ≡ assign (kind.name_of v) v c.by_name
    unfolding put_definition
    put_by_name = refl

    put_names_by_id :
        (put_definition v c).names_by_id ≡ assign (kind.id_of v) (kind.name_of v) c.names_by_id
    unfolding put_definition
    put_names_by_id = elim (Bool-cases (kind.id_of v == "")) [
      | inl same ↦ absurd (fits.has_id ((string_Eq.same_iff (kind.id_of v) "").0 same))
      | inr other ↦ rw other refl
    ]

    -- What the two maps hold after a put.
    pub put_look :
        (n : String)
        → ((kind.name_of v ≡ n) × (lookup n (put_definition v c).by_name ≡ some v))
          ⊎ ((kind.name_of v ≢ n) × (lookup n (put_definition v c).by_name ≡ lookup n c.by_name))
    put_look n =
        subst
          (λ m.
            ((kind.name_of v ≡ n) × (lookup n m ≡ some v))
            ⊎ ((kind.name_of v ≢ n) × (lookup n m ≡ lookup n c.by_name)))
          (sym put_by_name) (assign-cases n (kind.name_of v) v c.by_name)

    put_index :
        (i : String)
        → ((kind.id_of v ≡ i) × (lookup i (put_definition v c).names_by_id ≡ some (kind.name_of v)))
          ⊎ ((kind.id_of v ≢ i)
              × (lookup i (put_definition v c).names_by_id ≡ lookup i c.names_by_id))
    put_index i =
        subst
          (λ m.
            ((kind.id_of v ≡ i) × (lookup i m ≡ some (kind.name_of v)))
            ⊎ ((kind.id_of v ≢ i) × (lookup i m ≡ lookup i c.names_by_id)))
          (sym put_names_by_id) (assign-cases i (kind.id_of v) (kind.name_of v) c.names_by_id)

    -- A definition that is kept after a put is the one put, or one kept before.
    pub put_cases :
        (n : String) {w : V}
        → lookup n (put_definition v c).by_name ≡ some w
        → ((kind.name_of v ≡ n) × (w ≡ v)) ⊎ ((kind.name_of v ≢ n) × (lookup n c.by_name ≡ some w))
    put_cases n h = elim (put_look n) [
      | inl (q, f) ↦ inl (q, same_some h f)
      | inr (ne, f) ↦ inr (ne, sym f ∙ h)
    ]

    pub put_self : lookup (kind.name_of v) (put_definition v c).by_name ≡ some v
    put_self = elim (put_look (kind.name_of v)) [ inl (_, f) ↦ f | inr (ne, _) ↦ absurd (ne refl) ]

    module _ (s : IsSound c) where
      put_indexed :
          (n : String) {w : V}
          → lookup n (put_definition v c).by_name ≡ some w
          → lookup (kind.id_of w) (put_definition v c).names_by_id ≡ some n
      put_indexed n {w} h = elim (put_cases n h) [
        | inl (q, e) ↦ elim (put_index (kind.id_of w)) [
          | inl (_, f) ↦ f ∙ ap some q
          | inr (ne, _) ↦ absurd (ne (ap kind.id_of (sym e)))
        ]
        | inr (ne, f) ↦ elim (put_index (kind.id_of w)) [
          | inl (q, _) ↦ absurd ((fits.others n f (λ e. ne (sym e))).1 (sym q))
          | inr (_, g) ↦ g ∙ s.indexed n f
        ]
      ]

      put_leads :
          (i : String) {n : String}
          → lookup i (put_definition v c).names_by_id ≡ some n
          → (w : V) × (lookup n (put_definition v c).by_name ≡ some w) × (kind.id_of w ≡ i)
      put_leads i {n} h = elim (put_index i) [
        | inl (q, f) ↦
            let e : kind.name_of v ≡ n = same_some f h in
            (v, subst (λ x. lookup x (put_definition v c).by_name ≡ some v) e put_self, q)
        | inr (ne, f) ↦
            let (u, g, q) = s.leads i (sym f ∙ h) in
            elim (put_look n) [
              | inl (e, _) ↦ absurd (
                  ne (sym (fits.replaces (subst (λ x. lookup x c.by_name ≡ some u) (sym e) g)) ∙ q))
              | inr (_, l) ↦ (u, l ∙ g, q)
            ]
      ]

      put_apart :
          (n : String) {w : V}
          → lookup n (put_definition v c).by_name ≡ some w
          → lookup (kind.id_of w) (put_definition v c).by_name ≡ none
      put_apart n {w} h = elim (put_look (kind.id_of w)) [
        | inl (q, _) ↦ elim (put_cases n h) [
          | inl (_, e) ↦ absurd (fits.own_name (sym (q ∙ ap kind.id_of e)))
          | inr (ne, f) ↦ absurd ((fits.others n f (λ e. ne (sym e))).0 (sym q))
        ]
        | inr (_, f) ↦ elim (put_cases n h) [
          | inl (_, e) ↦ f ∙ ap (λ x. lookup (kind.id_of x) c.by_name) e ∙ fits.no_name
          | inr (_, g) ↦ f ∙ s.apart n g
        ]
      ]

      pub put-IsSound : IsSound (put_definition v c)
      put-IsSound = record {
        exact = subst Exact (sym put_by_name) (assign-Exact (kind.name_of v) v c.by_name s.exact);
        keyed = λ n h. elim (put_cases n h) [
          | inl (q, e) ↦ ap kind.name_of e ∙ q
          | inr (_, f) ↦ s.keyed n f
        ];
        identified = λ n h. elim (put_cases n h) [
          | inl (q, e) ↦ subst (λ x. kind.id_of x ≢ "") (sym e) fits.has_id
          | inr (_, f) ↦ s.identified n f
        ];
        indexed = λ n h. put_indexed n h;
        leads = λ i h. put_leads i h;
        apart = λ n h. put_apart n h;
      }
