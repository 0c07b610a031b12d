-- ===== src/Store/Renamed.antt =====
-- A rename keeps the maps of a kind sound.
use dicer.Prelude.{
  String, ◌≡◌, ◌≢◌, refl, sym, ap, ◌∙◌, ◌⊎◌, inl, inr, Option, none, some, List, ◌==◌, string_Eq,
  Bool-cases, Option-cases, subst,
}
use dicer.Text.{codes}
use dicer.Naming.{validate_name}
use dicer.Maps.{lookup, assign, remove}
use dicer.Maps.Exact.{remove-cases, lookup-remove_self, assign-remove}
use dicer.Errors.{Error, Result, ok, err, not_found, exists, invalid_argument, other}
use dicer.Store.{Kind, Catalogue}
use dicer.Store.Definitions.{
  Disk, done, failed, half, find, is_found, put_definition, move_definition, rename_found, rename,
}
use dicer.Store.Sound.{IsSound, put-IsSound, is_none}
use dicer.Store.Calls.{find-cases, files-IsSound, IsFresh, fresh-Fits}
use dicer.Store.Kept.{without_definition, removed-IsSound, files-Fits}

module _ {V : Type 0} ⦃kind : Kind V⦄ where
  -- The store with a definition moved to another name.
  abbrev pub moved : V → V → Catalogue V → Catalogue V
  moved v r c = put_definition r (record c {
    by_name = remove (kind.name_of v) c.by_name;
    files = assign (kind.name_of r) (some r) (remove (kind.name_of v) c.files);
  })

  -- The ways of a rename: nothing changes in memory, or the definition is moved to a name that
  -- nothing has.
  pub rename-cases :
      (refused : Option Error) (k : String) (r : V) (disk : Disk) (c : Catalogue V)
      → IsSound c
      → ((answer : Result (Unit {0})) × (files : List (String × Option V)) × (rename refused k r
              disk c
            ≡ (record c { files = files }, answer))
          × ((disk ≡ half) ⊎ (files ≡ c.files)))
        ⊎ ((v : V) × (rename refused k r disk c ≡ (moved v r c, ok tt))
            × (refused ≡ none)
            × (find k c ≡ ok v)
            × (lookup (kind.name_of v) c.by_name ≡ some v)
            × (lookup (kind.name_of r) c.by_name ≡ none)
            × (lookup (kind.name_of r) c.names_by_id ≡ none))
  unfolding rename rename_found is_found move_definition
  rename-cases refused k r disk c s = elim (find-cases k c s) [
    | inl (f, _, _) ↦ inl (err not_found, c.files, rw f refl, inr refl)
    | inr (v, f, l, _) ↦ elim (Option-cases refused) [
      | inr (e, q) ↦ inl (err e, c.files, rw (f, q) refl, inr refl)
      | inl q ↦ elim (Bool-cases (validate_name (codes (kind.name_of r)))) [
        | inr bad ↦ inl (err invalid_argument, c.files, rw (f, q, bad) refl, inr refl)
        | inl good ↦ elim (Bool-cases (kind.name_of r == kind.name_of v)) [
          | inl same ↦ inl (ok tt, c.files, rw (f, q, good, same) refl, inr refl)
          | inr new ↦ elim (find-cases (kind.name_of r) c s) [
            | inr (u, g, _, _) ↦ inl (err exists, c.files, rw (f, q, good, new, g) refl, inr refl)
            | inl (g, a, b) ↦ elim (move-cases v disk) [
              | inl (e, files, w, d) ↦ inl (e, files, rw (f, q, good, new, g, w) refl, d)
              | inr w ↦ inr (v, rw (f, q, good, new, g, w) refl, q, f, l, a, b)
            ]
          ]
        ]
      ]
    ]
  ]
    where
      move-cases :
          (v : V) (disk : Disk)
          → ((answer : Result (Unit {0})) × (files : List (String × Option V)) × (move_definition v
                  r disk c
                ≡ (record c { files = files }, answer))
              × ((disk ≡ half) ⊎ (files ≡ c.files)))
            ⊎ (move_definition v r disk c ≡ (moved v r c, ok tt))
      move-cases v done = inr refl
      move-cases v failed = inl (err other, c.files, refl, inr refl)
      move-cases v half = inl (
        err other,
        assign (kind.name_of r) (some v) (remove (kind.name_of v) c.files),
        refl,
        inl refl,
      )

  module _ (v r : V) (c : Catalogue V) (s : IsSound c)
      (here : lookup (kind.name_of v) c.by_name ≡ some v) (same_id : kind.id_of r ≡ kind.id_of v)
      (no_name : lookup (kind.name_of r) c.by_name ≡ none)
      (no_id : lookup (kind.name_of r) c.names_by_id ≡ none) where
    none-remove :
        {W : Type 0} (k j : String) (m : List (String × W))
        → lookup k m ≡ none
        → lookup k (remove j m) ≡ none
    none-remove k j m h = elim (remove-cases k j m) [ inl (_, f) ↦ f | inr (_, f) ↦ f ∙ h ]

    moved_IsFresh : IsFresh r (without_definition v c)
    moved_IsFresh = record {
      some_id = subst (λ i. i ≢ "") (sym same_id) (s.identified (kind.name_of v) here);
      not_name = λ e.
          is_none no_id
            (ap (λ i. lookup i c.names_by_id) (sym e ∙ same_id) ∙ s.indexed (kind.name_of v) here);
      free_name =
          none-remove (kind.id_of r) (kind.name_of v) c.by_name
            (ap (λ i. lookup i c.by_name) same_id ∙ s.apart (kind.name_of v) here);
      free_id =
          ap (λ i. lookup i (remove (kind.id_of v) c.names_by_id)) same_id
          ∙ lookup-remove_self (kind.id_of v) c.names_by_id;
    }

    files_after : List (String × Option V)
    files_after = assign (kind.name_of r) (some r) (remove (kind.name_of v) c.files)

    -- The entry of the ID is overwritten, so that it does not matter that it was not deleted.
    moved-eq :
        put_definition r (record (without_definition v c) { files = files_after }) ≡ moved v r c
    unfolding put_definition files_after
    moved-eq = elim (Bool-cases (kind.id_of r == "")) [
      | inl same ↦ absurd (
          subst (λ i. i ≢ "") (sym same_id) (s.identified (kind.name_of v) here)
            ((string_Eq.same_iff (kind.id_of r) "").0 same))
      | inr given ↦ rw given (
          ap (λ ids. record (moved v r c) { names_by_id = ids })
            (ap (λ i. assign (kind.id_of r) (kind.name_of r) (remove i c.names_by_id)) (sym same_id)
              ∙ assign-remove (kind.id_of r) (kind.name_of r) c.names_by_id))
    ]

    pub moved-IsSound : IsSound (moved v r c)
    moved-IsSound =
        let base = without_definition v c in
        let sound = removed-IsSound v c s here in
        let fits =
          fresh-Fits r base sound moved_IsFresh
            (none-remove (kind.name_of r) (kind.name_of v) c.by_name no_name)
            (none-remove (kind.name_of r) (kind.id_of v) c.names_by_id no_id) in
        subst IsSound moved-eq (
          put-IsSound r (record base { files = files_after }) (files-Fits r base files_after fits)
            (files-IsSound base files_after sound))

  pub rename-IsSound :
      (refused : Option Error) (k : String) (r : V) (disk : Disk) (c : Catalogue V)
      → IsSound c
      → ((v : V) → find k c ≡ ok v → kind.id_of r ≡ kind.id_of v)
      → IsSound (rename refused k r disk c).0
  rename-IsSound refused k r disk c s same = elim (rename-cases refused k r disk c s) [
    | inl (e, files, q, _) ↦
        subst (λ (o : Catalogue V × Result (Unit {0})). IsSound o.0) (sym q)
          (files-IsSound c files s)
    | inr (v, q, _, f, l, a, b) ↦
        subst (λ (o : Catalogue V × Result (Unit {0})). IsSound o.0) (sym q)
          (moved-IsSound v r c s l (same v f) a b)
  ]
