-- ===== src/Store/Files.antt =====
-- What New reads back from the files of a kind.
use dicer.Prelude.{
  String, ◌≡◌, refl, sym, ap, ◌∙◌, ◌⊎◌, inl, inr, Option, none, some, List, [], ◌∷◌, string_Eq,
  Option-cases, subst, In, All, All-of_In,
}
use dicer.Maps.{lookup}
use dicer.Maps.Lookup.{lookup-nil}
use dicer.Maps.Exact.{Exact, In-lookup, lookup-In}
use dicer.Errors.{ok}
use dicer.Store.{Kind, Catalogue}
use dicer.Store.Definitions.{put_definition, find, load_one, load_from, load}
use dicer.Store.Calls.{find-cases, find_name, find_id, empty-IsSound}
use dicer.Store.Sound.{IsSound, Fits, put-IsSound, put_look, put_cases, same_some, is_none}

-- The file at a name holds what is in memory under it, and there is no other.
abbrev pub in_file : {V : Type 0} → Option V → Option (Option V)
in_file none = none
in_file (some v) = some (some v)

module _ {V : Type 0} ⦃kind : Kind V⦄ where
  pub record Mirrors (c : Catalogue V) : Type 0 where
    pub files_exact : Exact c.files
    pub mirrored : (n : String) → lookup n c.files ≡ in_file (lookup n c.by_name)

  -- Every definition of one store is in another.
  abbrev Within : Catalogue V → Catalogue V → Type 0
  Within a c = (n : String) (v : V) → lookup n a.by_name ≡ some v → lookup n c.by_name ≡ some v

  module _ (c : Catalogue V) (s : IsSound c) where
    -- A file that holds what is in memory.
    abbrev Holds : String × Option V → Type 0
    Holds f = (v : V) × (f.1 ≡ some v) × (lookup f.0 c.by_name ≡ some v)

    own-Fits :
        (a : Catalogue V) (v : V)
        → Within a c
        → lookup (kind.name_of v) c.by_name ≡ some v
        → Fits v a
    own-Fits a v within h = record {
      has_id = s.identified (kind.name_of v) h;
      own_name = λ e. is_none (s.apart (kind.name_of v) h) (ap (λ i. lookup i c.by_name) e ∙ h);
      no_name = elim (Option-cases (lookup (kind.id_of v) a.by_name)) [
        | inl f ↦ f
        | inr (u, f) ↦ absurd (is_none (s.apart (kind.name_of v) h) (within (kind.id_of v) u f))
      ];
      others = λ n {u} f ne. (
        (λ e. is_none (s.apart n (within n u f)) (ap (λ i. lookup i c.by_name) e ∙ h)),
        (λ e. ne (
            same_some (s.indexed n (within n u f))
              (ap (λ i. lookup i c.names_by_id) e ∙ s.indexed (kind.name_of v) h))),
      );
      replaces = λ {u} f. ap kind.id_of (same_some (within (kind.name_of v) u f) h);
    }

    -- One file more is read.
    record Loaded (a : Catalogue V) : Type 0 where
      sound : IsSound a
      within : Within a c

    put-Loaded :
        (a : Catalogue V) (v : V)
        → Loaded a
        → lookup (kind.name_of v) c.by_name ≡ some v
        → Loaded (put_definition v a)
    put-Loaded a v l h =
        let fits = own-Fits a v l.within h in
        record {
          sound = put-IsSound v a fits l.sound;
          within = λ n w k. elim (put_cases v a fits n k) [
            | inl (q, e) ↦ ap (λ i. lookup i c.by_name) (sym q) ∙ h ∙ ap some (sym e)
            | inr (_, f) ↦ l.within n w f
          ];
        }

    load_one_lem :
        (a : Catalogue V) (n : String) (v : V)
        → lookup n c.by_name ≡ some v
        → (load_one n (some v) a ≡ put_definition v a)
          × (lookup (kind.name_of v) c.by_name ≡ some v)
    unfolding load_one
    load_one_lem a n v h =
        let e = s.keyed n h in
        (rw ((string_Eq.same_iff (kind.name_of v) n).1 e) refl, ap (λ i. lookup i c.by_name) e ∙ h)

    one-Loaded :
        (a : Catalogue V) (f : String × Option V) → Loaded a → Holds f → Loaded (load_one f.0 f.1 a)
    one-Loaded a (n, o) l (v, e, h) =
        let (q, k) = load_one_lem a n v h in
        subst (λ x. Loaded (load_one n x a)) (sym e) (subst Loaded (sym q) (put-Loaded a v l k))

    -- What is read stays.
    one_keeps :
        (a : Catalogue V) (f : String × Option V) (n : String) {v : V}
        → Loaded a
        → Holds f
        → (lookup n a.by_name ≡ some v) ⊎ ((f.0 ≡ n) × (lookup n c.by_name ≡ some v))
        → lookup n (load_one f.0 f.1 a).by_name ≡ some v
    one_keeps a (j, o) n {v} l (w, e, h) given =
        let (q, k) = load_one_lem a j w h in
        let fits = own-Fits a w l.within k in
        let after : lookup n (put_definition w a).by_name ≡ some v = elim (put_look w a fits n) [
          | inl (p, f) ↦
              f ∙ ap some (same_some k (ap (λ i. lookup i c.by_name) p ∙ kept_before n l given))
          | inr (ne, f) ↦ elim given [ inl m ↦ f ∙ m | inr (p, m) ↦ absurd (ne (s.keyed j h ∙ p)) ]
        ] in
        subst (λ x. lookup n (load_one j x a).by_name ≡ some v) (sym e)
          (ap (λ (x : Catalogue V). lookup n x.by_name) q ∙ after)
      where
        kept_before :
            {j : String} {v : V} (n : String)
            → Loaded a
            → (lookup n a.by_name ≡ some v) ⊎ ((j ≡ n) × (lookup n c.by_name ≡ some v))
            → lookup n c.by_name ≡ some v
        kept_before {v = v} n l (inl m) = l.within n v m
        kept_before n l (inr (_, m)) = m

    load-Loaded :
        (files : List (String × Option V)) (a : Catalogue V)
        → All Holds files
        → Loaded a
        → Loaded (load_from files a)
    unfolding load_from
    load-Loaded [] a h l = l
    load-Loaded (f ∷ files) a h l =
        load-Loaded files (load_one f.0 f.1 a) h.1 (one-Loaded a f l h.0)

    load_keeps :
        (files : List (String × Option V)) (a : Catalogue V) (n : String) {v : V}
        → All Holds files
        → Loaded a
        → (lookup n a.by_name ≡ some v) ⊎ (In (n, some v) files × (lookup n c.by_name ≡ some v))
        → lookup n (load_from files a).by_name ≡ some v
    unfolding load_from
    load_keeps [] a n h l (inl k) = k
    load_keeps [] a n h l (inr k) = absurd k.0.1
    load_keeps (f ∷ files) a n {v} h l k =
        load_keeps files (load_one f.0 f.1 a) n h.1 (one-Loaded a f l h.0) (step k)
      where
        step :
            (lookup n a.by_name ≡ some v)
              ⊎ (In (n, some v) (f ∷ files) × (lookup n c.by_name ≡ some v))
            → (lookup n (load_one f.0 f.1 a).by_name ≡ some v)
              ⊎ (In (n, some v) files × (lookup n c.by_name ≡ some v))
        step (inl m) = inl (one_keeps a f n l h.0 (inl m))
        step (inr (inl e, m)) =
            inl (one_keeps a f n l h.0 (inr (ap (λ (x : String × Option V). x.0) (sym e), m)))
        step (inr (inr i, m)) = inr (i, m)

    nothing_Loaded :
        (files : List (String × Option V))
        → Loaded (record { by_name = []; names_by_id = []; files = files })
    nothing_Loaded files = record {
      sound = empty-IsSound files;
      within = λ n v h. absurd (is_none (lookup-nil n) h);
    }

    module _ (m : Mirrors c) where
      files_hold : All Holds c.files
      files_hold = All-of_In Holds c.files (λ f i.
          let there = In-lookup f.0 f.1 c.files m.files_exact i in
          held f.0 f.1 (sym (m.mirrored f.0) ∙ there))
        where
          held : (n : String) (o : Option V) → in_file (lookup n c.by_name) ≡ some o → Holds (n, o)
          held n o h = elim (Option-cases (lookup n c.by_name)) [
            | inl e ↦ absurd (is_none (ap in_file e) h)
            | inr (v, e) ↦ (v, same_some h (ap in_file e), e)
          ]

      load_sound : Loaded (load c.files)
      unfolding load
      load_sound = load-Loaded c.files _ files_hold (nothing_Loaded c.files)

      load_by_name : (n : String) → lookup n (load c.files).by_name ≡ lookup n c.by_name
      unfolding load
      load_by_name n = elim (Option-cases (lookup n c.by_name)) [
        | inr (v, e) ↦
            let i = lookup-In n c.files (m.mirrored n ∙ ap in_file e) in
            load_keeps c.files _ n files_hold (nothing_Loaded c.files) (inr (i, e)) ∙ sym e
        | inl e ↦ elim (Option-cases (lookup n (load c.files).by_name)) [
          | inl f ↦ f ∙ sym e
          | inr (w, f) ↦ absurd (is_none e (load_sound.within n w f))
        ]
      ]

  -- What is found by name or ID depends on the definitions alone.
  find-same :
      (a c : Catalogue V)
      → IsSound a
      → IsSound c
      → ((n : String) → lookup n a.by_name ≡ lookup n c.by_name)
      → (k : String) → find k a ≡ find k c
  find-same a c sa sc same k = elim (find-cases k c sc) [
    | inr (v, f, l, q) ↦ answers a v sa (same (kind.name_of v) ∙ l) q ∙ sym f
    | inl (f, p, i) ↦ elim (find-cases k a sa) [
      | inl (g, _, _) ↦ g ∙ sym f
      | inr (v, g, l, q) ↦ absurd (missing v p i (sym (same (kind.name_of v)) ∙ l) q)
    ]
  ]
    where
      answers :
          (x : Catalogue V) (v : V)
          → IsSound x
          → lookup (kind.name_of v) x.by_name ≡ some v
          → (kind.name_of v ≡ k) ⊎ (kind.id_of v ≡ k)
          → find k x ≡ ok v
      answers x v sx l (inl e) = ap (λ i. find i x) (sym e) ∙ find_name (kind.name_of v) x l
      answers x v sx l (inr e) = ap (λ i. find i x) (sym e) ∙ find_id (kind.name_of v) x sx l

      missing :
          (v : V)
          → lookup k c.by_name ≡ none
          → lookup k c.names_by_id ≡ none
          → lookup (kind.name_of v) c.by_name ≡ some v
          → (kind.name_of v ≡ k) ⊎ (kind.id_of v ≡ k)
          → ⊥
      missing v p i l (inl e) = is_none p (ap (λ x. lookup x c.by_name) (sym e) ∙ l)
      missing v p i l (inr e) =
          is_none i (ap (λ x. lookup x c.names_by_id) (sym e) ∙ sc.indexed (kind.name_of v) l)

  -- New on the files answers every lookup as the store in memory does.
  pub load-same :
      (c : Catalogue V) → IsSound c → Mirrors c → (k : String) → find k (load c.files) ≡ find k c
  load-same c s m k = find-same (load c.files) c (load_sound c s m).sound s (load_by_name c s m) k
