-- ===== src/Store/Calls.antt =====
-- What each call of the store does, and that it keeps the maps of a kind sound.
use dicer.Prelude.{
  String, ◌≡◌, ◌≢◌, refl, sym, ap, ◌∙◌, ◌⊎◌, inl, inr, Option, none, some, List, [], string_Eq,
  Option-cases, subst,
}
use dicer.Maps.{lookup}
use dicer.Maps.Lookup.{lookup-nil}
use dicer.Errors.{ok, err, not_found}
use dicer.Store.{Kind, Catalogue}
use dicer.Store.Definitions.{found, found_by_id, value_or_zero, find}
use dicer.Store.Sound.{IsSound, Fits, same_some, is_none}

module _ {V : Type 0} ⦃kind : Kind V⦄ where
  -- A lookup by name or ID, in sound maps: nothing has the text as its name or ID, or the one
  -- definition that does is answered.
  pub find-cases :
      (k : String) (c : Catalogue V)
      → IsSound c
      → ((find k c ≡ err not_found) × (lookup k c.by_name ≡ none) × (lookup k c.names_by_id ≡ none))
        ⊎ ((v : V) × (find k c ≡ ok v)
            × (lookup (kind.name_of v) c.by_name ≡ some v)
            × ((kind.name_of v ≡ k) ⊎ (kind.id_of v ≡ k)))
  unfolding find found found_by_id value_or_zero
  find-cases k c s = elim (Option-cases (lookup k c.by_name)) [
    | inr (v, f) ↦
        let e = s.keyed k f in
        inr (v, rw f refl, subst (λ n. lookup n c.by_name ≡ some v) (sym e) f, inl e)
    | inl f ↦ elim (Option-cases (lookup k c.names_by_id)) [
      | inl g ↦ inl (rw (f, g) refl, f, g)
      | inr (n, g) ↦
          let (v, h, q) = s.leads k g in
          let e = s.keyed n h in
          inr (v, rw (f, g, h) refl, subst (λ n. lookup n c.by_name ≡ some v) (sym e) h, inr q)
    ]
  ]

  pub find_name :
      (n : String) (c : Catalogue V) {v : V} → lookup n c.by_name ≡ some v → find n c ≡ ok v
  unfolding find found
  find_name n c h = rw h refl

  pub find_id :
      (n : String) (c : Catalogue V) {v : V}
      → IsSound c
      → lookup n c.by_name ≡ some v
      → find (kind.id_of v) c ≡ ok v
  unfolding find found found_by_id value_or_zero
  find_id n c s h = rw (s.apart n h, s.indexed n h, h) refl

  -- The files do not matter.
  pub files-IsSound :
      (c : Catalogue V) (files : List (String × Option V))
      → IsSound c
      → IsSound (record c { files = files })
  files-IsSound c files s = record {
    exact = s.exact;
    keyed = s.keyed;
    identified = s.identified;
    indexed = s.indexed;
    leads = s.leads;
    apart = s.apart;
  }

  -- An ID that nothing has as its name or ID, as cuid2 makes one.
  pub record IsFresh (v : V) (c : Catalogue V) : Type 0 where
    pub some_id : kind.id_of v ≢ ""
    pub not_name : kind.id_of v ≢ kind.name_of v
    pub free_name : lookup (kind.id_of v) c.by_name ≡ none
    pub free_id : lookup (kind.id_of v) c.names_by_id ≡ none

  pub fresh-Fits :
      (v : V) (c : Catalogue V)
      → IsSound c
      → IsFresh v c
      → lookup (kind.name_of v) c.by_name ≡ none
      → lookup (kind.name_of v) c.names_by_id ≡ none
      → Fits v c
  fresh-Fits v c s f p q = record {
    has_id = f.some_id;
    own_name = f.not_name;
    no_name = f.free_name;
    others = λ n {u} h ne. (
      (λ e. is_none q (subst (λ i. lookup i c.names_by_id ≡ some n) e (s.indexed n h))),
      (λ e. is_none f.free_id (subst (λ i. lookup i c.names_by_id ≡ some n) e (s.indexed n h))),
    );
    replaces = λ h. absurd (is_none p h);
  }

  pub kept-Fits :
      (v u : V) (c : Catalogue V)
      → IsSound c
      → lookup (kind.name_of v) c.by_name ≡ some u
      → kind.id_of u ≡ kind.id_of v
      → Fits v c
  kept-Fits v u c s h e =
      let none_at : lookup (kind.id_of v) c.by_name ≡ none =
        subst (λ i. lookup i c.by_name ≡ none) e (s.apart (kind.name_of v) h) in
      record {
        has_id = subst (λ i. i ≢ "") e (s.identified (kind.name_of v) h);
        own_name = λ q. is_none none_at (subst (λ n. lookup n c.by_name ≡ some u) (sym q) h);
        no_name = none_at;
        others = λ n {u = w} k ne. (
          (λ q. is_none (s.apart n k) (subst (λ i. lookup i c.by_name ≡ some u) (sym q) h)),
          (λ q. ne (
              same_some (s.indexed n k)
                (ap (λ i. lookup i c.names_by_id) (q ∙ sym e) ∙ s.indexed (kind.name_of v) h))),
        );
        replaces = λ k. ap kind.id_of (same_some k h) ∙ e;
      }

  -- A store of nothing.
  pub empty-IsSound :
      (files : List (String × Option V))
      → IsSound (record { by_name = []; names_by_id = []; files = files })
  empty-IsSound files = record {
    exact = tt;
    keyed = λ n h. absurd (is_none (lookup-nil n) h);
    identified = λ n h. absurd (is_none (lookup-nil n) h);
    indexed = λ n h. absurd (is_none (lookup-nil n) h);
    leads = λ i h. absurd (is_none (lookup-nil i) h);
    apart = λ n h. absurd (is_none (lookup-nil n) h);
  }
