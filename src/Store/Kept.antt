-- ===== src/Store/Kept.antt =====
-- Each call of the store either changes nothing in memory or what it says, and keeps the maps sound.
use dicer.Prelude.{
  String, ◌≡◌, ◌≢◌, refl, sym, ap, ◌∙◌, ◌⊎◌, inl, inr, true, Option, none, some, List, string_Eq,
  Bool-cases, Option-cases, subst,
}
use dicer.Text.{codes}
use dicer.Naming.{validate_name}
use dicer.Maps.{lookup, assign, remove}
use dicer.Maps.Exact.{remove-cases, remove-Exact}
use dicer.Errors.{Error, Result, ok, err, not_found, exists, invalid_argument, other}
use dicer.Store.{Kind, Catalogue}
use dicer.Store.Definitions.{
  Disk, done, failed, half, find, is_found, put_definition, write_definition, write_unless, create,
  update, remove_definition, remove_unless, delete_found, delete,
}
use dicer.Store.Sound.{IsSound, Fits, put-IsSound, same_some, is_none}
use dicer.Store.Calls.{find-cases, files-IsSound, IsFresh, fresh-Fits, kept-Fits}

module _ {V : Type 0} ⦃kind : Kind V⦄ where
  -- The store with a definition written and put.
  abbrev pub with_definition : V → Catalogue V → Catalogue V
  with_definition v c =
      put_definition v (record c { files = assign (kind.name_of v) (some v) c.files })

  -- The store without a definition.
  abbrev pub without_definition : V → Catalogue V → Catalogue V
  without_definition v c = record c {
    by_name = remove (kind.name_of v) c.by_name;
    names_by_id = remove (kind.id_of v) c.names_by_id;
    files = remove (kind.name_of v) c.files;
  }

  -- A call that changes nothing and answers an error.
  abbrev pub Fails : Catalogue V → Catalogue V × Result (Unit {0}) → Type 0
  Fails c out = (e : Error) × (out ≡ (c, err e))

  write_unless-cases :
      (refused : Option Error) (v : V) (disk : Disk) (c : Catalogue V)
      → Fails c (write_unless refused v disk c)
        ⊎ ((write_unless refused v disk c ≡ (with_definition v c, ok tt)) × (refused ≡ none))
  unfolding write_unless write_definition
  write_unless-cases (some e) v disk c = inl (e, refl)
  write_unless-cases none v done c = inr (refl, refl)
  write_unless-cases none v failed c = inl (other, refl)
  write_unless-cases none v half c = inl (other, refl)

  removed :
      (v : V) (disk : Disk) (c : Catalogue V)
      → ((e : Error) × (files : List (String × Option V)) × (remove_unless none v disk c
            ≡ (record c { files = files }, err e))
          × ((disk ≡ half) ⊎ (files ≡ c.files)))
        ⊎ (remove_unless none v disk c ≡ (without_definition v c, ok tt))
  unfolding remove_unless remove_definition
  removed v done c = inr refl
  removed v failed c = inl (other, c.files, refl, inr refl)
  removed v half c = inl (other, remove (kind.name_of v) c.files, refl, inl refl)

  pub files-Fits :
      (v : V) (c : Catalogue V) (files : List (String × Option V))
      → Fits v c
      → Fits v (record c { files = files })
  files-Fits v c files f = record {
    has_id = f.has_id;
    own_name = f.own_name;
    no_name = f.no_name;
    others = f.others;
    replaces = f.replaces;
  }

  pub create-cases :
      (refused : Option Error) (v : V) (disk : Disk) (c : Catalogue V)
      → IsSound c
      → Fails c (create refused v disk c)
        ⊎ ((create refused v disk c ≡ (with_definition v c, ok tt))
            × (validate_name (codes (kind.name_of v)) ≡ true)
            × (refused ≡ none)
            × (lookup (kind.name_of v) c.by_name ≡ none)
            × (lookup (kind.name_of v) c.names_by_id ≡ none))
  unfolding create is_found
  create-cases refused v disk c s = elim (Bool-cases (validate_name (codes (kind.name_of v)))) [
    | inr bad ↦ inl (invalid_argument, rw bad refl)
    | inl good ↦ elim (find-cases (kind.name_of v) c s) [
      | inr (u, f, _, _) ↦ inl (exists, rw (good, f) refl)
      | inl (f, p, q) ↦ elim (write_unless-cases refused v disk c) [
        | inl (e, w) ↦ inl (e, rw (good, f, w) refl)
        | inr (w, r) ↦ inr (rw (good, f, w) refl, good, r, p, q)
      ]
    ]
  ]

  pub update-cases :
      (refused : Option Error) (v : V) (disk : Disk) (c : Catalogue V)
      → Fails c (update refused v disk c)
        ⊎ ((update refused v disk c ≡ (with_definition v c, ok tt)) × (refused ≡ none))
  unfolding update
  update-cases refused v disk c = elim (Bool-cases (is_found (find (kind.name_of v) c))) [
    | inr no_ ↦ inl (not_found, rw no_ refl)
    | inl yes_ ↦ elim (write_unless-cases refused v disk c) [
      | inl (e, w) ↦ inl (e, rw (yes_, w) refl)
      | inr (w, r) ↦ inr (rw (yes_, w) refl, r)
    ]
  ]

  -- A deletion that fails may have removed the files.
  pub delete-cases :
      (refused : V → Option Error) (k : String) (disk : Disk) (c : Catalogue V)
      → IsSound c
      → ((e : Error) × (files : List (String × Option V)) × (delete refused k disk c
            ≡ (record c { files = files }, err e))
          × ((disk ≡ half) ⊎ (files ≡ c.files)))
        ⊎ ((v : V) × (delete refused k disk c ≡ (without_definition v c, ok tt))
            × (refused v ≡ none)
            × (lookup (kind.name_of v) c.by_name ≡ some v)
            × ((kind.name_of v ≡ k) ⊎ (kind.id_of v ≡ k)))
  unfolding delete delete_found
  delete-cases refused k disk c s = elim (find-cases k c s) [
    | inl (f, _, _) ↦ inl (not_found, c.files, rw f refl, inr refl)
    | inr (v, f, l, q) ↦ elim (Option-cases (refused v)) [
      | inr (e, r) ↦ inl (e, c.files, rw (f, r, remove_unless) refl, inr refl)
      | inl r ↦ elim (removed v disk c) [
        | inl (e, files, w, d) ↦ inl (e, files, rw (f, r, w) refl, d)
        | inr w ↦ inr (v, rw (f, r, w) refl, r, l, q)
      ]
    ]
  ]

  -- What is kept after a removal.
  module _ (v : V) (c : Catalogue V) (s : IsSound c)
      (here : lookup (kind.name_of v) c.by_name ≡ some v) where
    removed_cases :
        (n : String) {w : V}
        → lookup n (remove (kind.name_of v) c.by_name) ≡ some w
        → (kind.name_of v ≢ n) × (lookup n c.by_name ≡ some w)
    removed_cases n h = elim (remove-cases n (kind.name_of v) c.by_name) [
      | inl (_, f) ↦ absurd (is_none f h)
      | inr (ne, f) ↦ (ne, sym f ∙ h)
    ]

    removed_indexed :
        (n : String) {w : V}
        → lookup n (remove (kind.name_of v) c.by_name) ≡ some w
        → lookup (kind.id_of w) (remove (kind.id_of v) c.names_by_id) ≡ some n
    removed_indexed n {w} h =
        let (ne, f) = removed_cases n h in
        elim (remove-cases (kind.id_of w) (kind.id_of v) c.names_by_id) [
          | inl (q, _) ↦ absurd (
              ne (
                same_some (s.indexed (kind.name_of v) here)
                  (ap (λ i. lookup i c.names_by_id) q ∙ s.indexed n f)))
          | inr (_, g) ↦ g ∙ s.indexed n f
        ]

    removed_leads :
        (i : String) {n : String}
        → lookup i (remove (kind.id_of v) c.names_by_id) ≡ some n
        → (w : V) × (lookup n (remove (kind.name_of v) c.by_name) ≡ some w) × (kind.id_of w ≡ i)
    removed_leads i {n} h = elim (remove-cases i (kind.id_of v) c.names_by_id) [
      | inl (_, f) ↦ absurd (is_none f h)
      | inr (ne, f) ↦
          let (w, g, q) = s.leads i (sym f ∙ h) in
          elim (remove-cases n (kind.name_of v) c.by_name) [
            | inl (e, _) ↦
                absurd
                  (ne (ap kind.id_of (same_some here (ap (λ x. lookup x c.by_name) e ∙ g)) ∙ q))
            | inr (_, l) ↦ (w, l ∙ g, q)
          ]
    ]

    pub removed-IsSound : IsSound (without_definition v c)
    removed-IsSound = record {
      exact = remove-Exact (kind.name_of v) c.by_name s.exact;
      keyed = λ n h. s.keyed n (removed_cases n h).1;
      identified = λ n h. s.identified n (removed_cases n h).1;
      indexed = λ n h. removed_indexed n h;
      leads = λ i h. removed_leads i h;
      apart = λ n {v = w} h. elim (remove-cases (kind.id_of w) (kind.name_of v) c.by_name) [
        | inl (_, f) ↦ f
        | inr (_, f) ↦ f ∙ s.apart n (removed_cases n h).1
      ];
    }

  pub with_definition-IsSound :
      (v : V) (c : Catalogue V) → IsSound c → Fits v c → IsSound (with_definition v c)
  with_definition-IsSound v c s f =
      let files = assign (kind.name_of v) (some v) c.files in
      put-IsSound v (record c { files = files }) (files-Fits v c files f) (files-IsSound c files s)

  pub fails-IsSound :
      (c : Catalogue V) {out : Catalogue V × Result (Unit {0})}
      → IsSound c
      → Fails c out
      → IsSound out.0
  fails-IsSound c s (e, q) = subst (λ (o : Catalogue V × Result (Unit {0})). IsSound o.0) (sym q) s

  pub create-IsSound :
      (refused : Option Error) (v : V) (disk : Disk) (c : Catalogue V)
      → IsSound c
      → IsFresh v c
      → IsSound (create refused v disk c).0
  create-IsSound refused v disk c s fresh = elim (create-cases refused v disk c s) [
    | inl f ↦ fails-IsSound c s f
    | inr (q, _, _, a, b) ↦
        subst (λ (o : Catalogue V × Result (Unit {0})). IsSound o.0) (sym q)
          (with_definition-IsSound v c s (fresh-Fits v c s fresh a b))
  ]

  pub update-IsSound :
      (refused : Option Error) (v u : V) (disk : Disk) (c : Catalogue V)
      → IsSound c
      → lookup (kind.name_of v) c.by_name ≡ some u
      → kind.id_of u ≡ kind.id_of v
      → IsSound (update refused v disk c).0
  update-IsSound refused v u disk c s l e = elim (update-cases refused v disk c) [
    | inl f ↦ fails-IsSound c s f
    | inr (q, _) ↦
        subst (λ (o : Catalogue V × Result (Unit {0})). IsSound o.0) (sym q)
          (with_definition-IsSound v c s (kept-Fits v u c s l e))
  ]

  pub delete-IsSound :
      (refused : V → Option Error) (k : String) (disk : Disk) (c : Catalogue V)
      → IsSound c
      → IsSound (delete refused k disk c).0
  delete-IsSound refused k disk c s = elim (delete-cases refused k disk c s) [
    | inl (e, files, q, _) ↦
        subst (λ (o : Catalogue V × Result (Unit {0})). IsSound o.0) (sym q)
          (files-IsSound c files s)
    | inr (v, q, _, l, _) ↦
        subst (λ (o : Catalogue V × Result (Unit {0})). IsSound o.0) (sym q)
          (removed-IsSound v c s l)
  ]
