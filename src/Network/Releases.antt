-- ===== src/Network/Releases.antt =====
-- What Release and Reconcile take away, and what they leave alone.
use dicer.Prelude.{
  ℕ, ◌≡◌, ◌≢◌, refl, sym, ap, ◌∙◌, ◌⊎◌, inl, inr, Bool, true, false, none, some, [], String,
  string_Eq, Option-cases, get_elem?, delete_at, subst, All, In-delete_at, delete_at-In,
  delete_at-gone, Distinct-delete_at,
}
use dicer.Network.{Network, Allocation, Error, Result, ok, err, not_found}
use dicer.Network.Table.{AllocationTable, lookup, new_table, index_from}
use dicer.Network.Lookup.{index-cases, get_elem?-In}
use dicer.Network.Manager.{
  Manager, table_of, save_table, allocation, instance_at, release, release_at, or_not_found,
}
use dicer.Network.Tables.{AreGood, table_of-IsGood, delete_at-AreSound, save_table-AreGood}
use dicer.Network.Calls.{table_of-cases}
use dicer.Network.Answers.{allocation-eq, saved-same, saved-gone, saved-free, table_of-other}
use dicer.Network.Finding.{find-gone, find-In}

-- A call of Release fails and changes nothing; or finds no allocation; or saves the table without
-- the one it finds.
abbrev ReleaseCases : String → String → Bool → Manager → Manager × Result (Unit {0}) → Type 0
ReleaseCases network id saved m out =
    ((e : Error) × (out ≡ (m, err e)))
    ⊎ ((t : AllocationTable) × (table_of network m ≡ ok t)
        × (lookup id t.by_instance ≡ none)
        × (out ≡ (m, ok tt)))
    ⊎ ((t : AllocationTable) × (i : ℕ) × (table_of network m ≡ ok t)
        × (lookup id t.by_instance ≡ some i)
        × (out ≡ ((save_table network (delete_at i t.allocations) true m).0, ok tt)))

pub release-cases :
    (network id : String) (saved : Bool) (m : Manager)
    → ReleaseCases network id saved m (release network id saved m)
unfolding release release_at save_table
release-cases network id saved m = elim (table_of-cases network m) [
  | inl (e, h) ↦
      let out : release network id saved m ≡ (m, err e) = rw (release, h) refl in inl (e, out)
  | inr (t, h) ↦ elim (Option-cases (lookup id t.by_instance)) [
    | inl f ↦
        let out : release network id saved m ≡ (m, ok tt) = rw (release, h, f) refl in
        inr (inl (t, h, f, out))
    | inr (i, f) ↦ wrote t i saved h f
  ]
]
  where
    wrote :
        (t : AllocationTable) (i : ℕ) (written : Bool)
        → table_of network m ≡ ok t
        → lookup id t.by_instance ≡ some i
        → ReleaseCases network id written m (release network id written m)
    wrote t i false h f =
        let out : release network id false m
            ≡ save_table network (delete_at i t.allocations) false m =
          rw (release, h, f) refl in
        inl (_, out)
    wrote t i true h f =
        let out : release network id true m
            ≡ save_table network (delete_at i t.allocations) true m =
          rw (release, h, f) refl in
        inr (inr (t, i, h, f, out))

-- What a call of Release that succeeded leaves.
pub record Frees (network id : String) (m m' : Manager) : Type 0 where
  pub gone : allocation network id m' ≡ err not_found
  pub free : (a : Allocation) → allocation network id m ≡ ok a → instance_at network a.ip m' ≡ none
  pub others :
      (other : String) → other ≢ id → allocation network other m' ≡ allocation network other m
  pub networks : (other : String) → network ≢ other → table_of other m' ≡ table_of other m

abbrev pub Releases : String → String → Manager → Manager × Result (Unit {0}) → Type 0
Releases network id m (m', ok _) = Frees network id m m'
Releases network id m (m', err e) = m' ≡ m

by_instance_made :
    (t : AllocationTable)
    → t ≡ new_table t.allocations
    → t.by_instance ≡ index_from (λ a. a.instance_id) 0 t.allocations []
unfolding new_table
by_instance_made t made = ap (λ (u : AllocationTable). u.by_instance) made

indexed :
    (id : String) (t : AllocationTable) (i : ℕ)
    → t ≡ new_table t.allocations
    → lookup id t.by_instance ≡ some i
    → (a : Allocation) × (get_elem? t.allocations i ≡ some a) × (a.instance_id ≡ id)
indexed id t i made f =
    let by = by_instance_made t made in
    elim (index-cases (λ a. a.instance_id) id t.allocations t refl) [
      | inl (g, _, _) ↦ cc
      | inr (a, j, g, x, _, _, y) ↦ let q : i ≡ j = cc in (a, ap (get_elem? t.allocations) q ∙ x, y)
    ]

unindexed :
    (id : String) (t : AllocationTable)
    → t ≡ new_table t.allocations
    → lookup id t.by_instance ≡ none
    → All (λ a. a.instance_id ≢ id) t.allocations
unindexed id t made f =
    let by = by_instance_made t made in
    elim (index-cases (λ a. a.instance_id) id t.allocations t refl) [
      | inl (_, _, g) ↦ g
      | inr (a, j, g, _, _, _, _) ↦ cc
    ]

ok_allocation : {a b : Allocation} → ◌≡◌ {A = Result Allocation} (ok a) (ok b) → a ≡ b
ok_allocation h = cc

module _ (nets : String → Network) (network id : String) (m : Manager) {t : AllocationTable}
    (g : AreGood nets m) (h : table_of network m ≡ ok t) where
  nothing-Frees : lookup id t.by_instance ≡ none → Frees network id m m
  unfolding or_not_found
  nothing-Frees f =
      let made = (table_of-IsGood nets network m g h).made in
      let gone : allocation network id m ≡ err not_found =
        allocation-eq network id m h made
        ∙ ap or_not_found
            (find-gone (λ a. a.instance_id) id t.allocations (unindexed id t made f)) in
      record {
        gone = gone;
        free = λ a q. cc;
        others = λ other ne. refl;
        networks = λ other ne. refl;
      }

  deleted-Frees :
      (i : ℕ)
      → lookup id t.by_instance ≡ some i
      → Frees network id m (save_table network (delete_at i t.allocations) true m).0
  unfolding or_not_found
  deleted-Frees i f =
      let good = table_of-IsGood nets network m g h in
      let es = t.allocations in
      let (a, at, own) = indexed id t i good.made f in
      let here = get_elem?-In (λ b. b.instance_id) id es i at in
      let held : allocation network id m ≡ ok a =
        allocation-eq network id m h good.made
        ∙ ap or_not_found (find-In (λ b. b.instance_id) id es good.sound.instances here own) in
      record {
        gone = saved-gone nets network m g h id (delete_at i es) (
            subst (λ k. All (λ b. b.instance_id ≢ k) (delete_at i es)) own
              (delete_at-gone (λ b. b.instance_id) es i good.sound.instances at));
        free = λ b q. saved-free nets network m g h b.ip (delete_at i es) (
            subst (λ (c : Allocation). All (λ d. d.ip ≢ c.ip) (delete_at i es))
              (ok_allocation (sym held ∙ q)) (delete_at-gone (λ d. d.ip) es i good.sound.ips at));
        others = λ other ne.
            saved-same nets network m g h other (delete_at i es)
              (Distinct-delete_at _ i es good.sound.instances)
              (λ b y x. In-delete_at (λ c. c.instance_id) es i b x)
              (λ b y x. delete_at-In (λ c. c.instance_id) es i b at x (λ q. ne (sym y ∙ q ∙ own)));
        networks = λ other ne. table_of-other other network (delete_at i es) true m ne;
      }

-- A call of Release that succeeds takes the instance's allocation away, frees its address, and
-- leaves the other instances' and the other networks' alone; one that fails changes nothing.
pub release-Releases :
    (nets : String → Network) (network id : String) (saved : Bool) (m : Manager)
    → AreGood nets m
    → Releases network id m (release network id saved m)
release-Releases nets network id saved m g = elim (release-cases network id saved m) [
  | inl (e, out) ↦ subst (Releases network id m) (sym out) refl
  | inr (inl (t, h, f, out)) ↦
      subst (Releases network id m) (sym out) (nothing-Frees nets network id m g h f)
  | inr (inr (t, i, h, f, out)) ↦
      subst (Releases network id m) (sym out) (deleted-Frees nets network id m g h i f)
]

pub release-AreGood :
    (nets : String → Network) (network id : String) (saved : Bool) (m : Manager)
    → AreGood nets m
    → AreGood nets (release network id saved m).0
release-AreGood nets network id saved m g = elim (release-cases network id saved m) [
  | inl (e, out) ↦ rw out g
  | inr (inl (t, h, f, out)) ↦ rw out g
  | inr (inr (t, i, h, f, out)) ↦ rw out (
      save_table-AreGood nets network (delete_at i t.allocations) true m g (
        delete_at-AreSound (nets network) i t.allocations
          (table_of-IsGood nets network m g h).sound))
]
