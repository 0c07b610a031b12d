-- ===== src/Store/Mirrored.antt =====
-- Every call whose changes of the disk are whole keeps the files those of the definitions.
use dicer.Prelude.{String, ◌≡◌, ◌≢◌, sym, ap, ◌∙◌, inl, inr, Option, some, List, subst, string_Eq}
use dicer.Maps.{lookup, assign, remove}
use dicer.Maps.Exact.{Exact, assign-cases, remove-cases, assign-Exact, remove-Exact}
use dicer.Errors.{Error, Result}
use dicer.Store.{Kind, Catalogue}
use dicer.Store.Definitions.{Disk, half, put_definition, create, update, delete, rename}
use dicer.Store.Sound.{IsSound}
use dicer.Store.Kept.{with_definition, without_definition, create-cases, update-cases, delete-cases}
use dicer.Store.Renamed.{moved, rename-cases}
use dicer.Store.Files.{Mirrors, in_file}

module _ {V : Type 0} ⦃kind : Kind V⦄ where
  abbrev Mirroring : List (String × Option V) → List (String × V) → Type 0
  Mirroring files by_name =
      Exact files × ((n : String) → lookup n files ≡ in_file (lookup n by_name))

  assign-Mirroring :
      (n : String) (v : V) (files : List (String × Option V)) (by_name : List (String × V))
      → Mirroring files by_name
      → Mirroring (assign n (some v) files) (assign n v by_name)
  assign-Mirroring n v files by_name (x, m) = (
    assign-Exact n (some v) files x,
    λ k. elim (assign-cases k n (some v) files) [
      | inl (q, f) ↦ elim (assign-cases k n v by_name) [
        | inl (_, g) ↦ f ∙ sym (ap in_file g)
        | inr (ne, _) ↦ absurd (ne q)
      ]
      | inr (ne, f) ↦ elim (assign-cases k n v by_name) [
        | inl (q, _) ↦ absurd (ne q)
        | inr (_, g) ↦ f ∙ m k ∙ sym (ap in_file g)
      ]
    ],
  )

  remove-Mirroring :
      (n : String) (files : List (String × Option V)) (by_name : List (String × V))
      → Mirroring files by_name
      → Mirroring (remove n files) (remove n by_name)
  remove-Mirroring n files by_name (x, m) = (
    remove-Exact n files x,
    λ k. elim (remove-cases k n files) [
      | inl (q, f) ↦ elim (remove-cases k n by_name) [
        | inl (_, g) ↦ f ∙ sym (ap in_file g)
        | inr (ne, _) ↦ absurd (ne q)
      ]
      | inr (ne, f) ↦ elim (remove-cases k n by_name) [
        | inl (q, _) ↦ absurd (ne q)
        | inr (_, g) ↦ f ∙ m k ∙ sym (ap in_file g)
      ]
    ],
  )

  of_parts : (c : Catalogue V) → Mirroring c.files c.by_name → Mirrors c
  of_parts c m = record { files_exact = m.0; mirrored = m.1 }

  parts : (c : Catalogue V) → Mirrors c → Mirroring c.files c.by_name
  parts c m = (m.files_exact, m.mirrored)

  pub with_definition-Mirrors :
      (v : V) (c : Catalogue V) → Mirrors c → Mirrors (with_definition v c)
  unfolding put_definition
  with_definition-Mirrors v c m =
      of_parts (with_definition v c)
        (assign-Mirroring (kind.name_of v) v c.files c.by_name (parts c m))

  without_definition-Mirrors :
      (v : V) (c : Catalogue V) → Mirrors c → Mirrors (without_definition v c)
  without_definition-Mirrors v c m =
      of_parts (without_definition v c)
        (remove-Mirroring (kind.name_of v) c.files c.by_name (parts c m))

  moved-Mirrors : (v r : V) (c : Catalogue V) → Mirrors c → Mirrors (moved v r c)
  unfolding put_definition
  moved-Mirrors v r c m = of_parts (moved v r c) (
      assign-Mirroring (kind.name_of r) r _ _
        (remove-Mirroring (kind.name_of v) c.files c.by_name (parts c m)))

  -- The store after a call that answers a pair.
  abbrev At : Catalogue V × Result (Unit {0}) → Type 0
  At o = Mirrors o.0

  same_files :
      (c : Catalogue V) {files : List (String × Option V)}
      → files ≡ c.files
      → Mirrors c
      → Mirrors (record c { files = files })
  same_files c e m =
      subst (λ f. Mirrors (record c { files = f })) (sym e)
        (of_parts (record c { files = c.files }) (parts c m))

  pub create-Mirrors :
      (refused : Option Error) (v : V) (disk : Disk) (c : Catalogue V)
      → IsSound c
      → Mirrors c
      → Mirrors (create refused v disk c).0
  create-Mirrors refused v disk c s m = elim (create-cases refused v disk c s) [
    | inl (e, q) ↦ subst At (sym q) m
    | inr (q, _, _, _, _) ↦ subst At (sym q) (with_definition-Mirrors v c m)
  ]

  pub update-Mirrors :
      (refused : Option Error) (v : V) (disk : Disk) (c : Catalogue V)
      → Mirrors c
      → Mirrors (update refused v disk c).0
  update-Mirrors refused v disk c m = elim (update-cases refused v disk c) [
    | inl (e, q) ↦ subst At (sym q) m
    | inr (q, _) ↦ subst At (sym q) (with_definition-Mirrors v c m)
  ]

  pub delete-Mirrors :
      (refused : V → Option Error) (k : String) (disk : Disk) (c : Catalogue V)
      → IsSound c
      → disk ≢ half
      → Mirrors c
      → Mirrors (delete refused k disk c).0
  delete-Mirrors refused k disk c s whole m = elim (delete-cases refused k disk c s) [
    | inl (e, files, q, inl d) ↦ absurd (whole d)
    | inl (e, files, q, inr d) ↦ subst At (sym q) (same_files c d m)
    | inr (v, q, _, _, _) ↦ subst At (sym q) (without_definition-Mirrors v c m)
  ]

  pub rename-Mirrors :
      (refused : Option Error) (k : String) (r : V) (disk : Disk) (c : Catalogue V)
      → IsSound c
      → disk ≢ half
      → Mirrors c
      → Mirrors (rename refused k r disk c).0
  rename-Mirrors refused k r disk c s whole m = elim (rename-cases refused k r disk c s) [
    | inl (e, files, q, inl d) ↦ absurd (whole d)
    | inl (e, files, q, inr d) ↦ subst At (sym q) (same_files c d m)
    | inr (v, q, _, _, _, _, _) ↦ subst At (sym q) (moved-Mirrors v r c m)
  ]
