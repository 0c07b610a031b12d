-- ===== src/Network/Reconcile.antt =====
-- What Reconcile takes away, and what it leaves alone.
use dicer.Prelude.{
  ◌≡◌, refl, ap, ◌∙◌, ◌⊎◌, inl, inr, Bool, true, false, List, String, string_Eq, nat_Eq, ◌==◌,
  arith, Bool-cases, subst, length, full-filter, filter-In, In-filter, In, All, All-In, All-of_In,
  Distinct-filter,
}
use dicer.Network.{Network, Allocation, Error, Result, ok, err, not_found}
use dicer.Network.Table.{AllocationTable}
use dicer.Network.Manager.{
  Manager, table_of, save_table, allocation, is_live, kept, reconcile_table, or_not_found,
}
use dicer.Network.Tables.{AreGood, table_of-IsGood}
use dicer.Network.Answers.{allocation-eq, saved-same, saved-gone, table_of-other}
use dicer.Network.Lookup.{ne_of_beq}
use dicer.Network.Finding.{find-gone}

-- One round of the loop.
abbrev pub RoundCases :
    String → List String → AllocationTable → Manager → Manager × Result (Unit {0}) → Type 0
RoundCases network live t m out =
    ((e : Error) × (out ≡ (m, err e)))
    ⊎ (All (λ a. is_live live a.instance_id ≡ true) t.allocations × (out ≡ (m, ok tt)))
    ⊎ (out ≡ ((save_table network (kept live t.allocations) true m).0, ok tt))

pub round-cases :
    (network : String) (live : List String) (saved : Bool) (t : AllocationTable) (m : Manager)
    → RoundCases network live t m (reconcile_table network live saved t m)
unfolding reconcile_table kept save_table
round-cases network live saved t m =
    elim (Bool-cases (length (kept live t.allocations) == length t.allocations)) [
      | inl same ↦
          let out : reconcile_table network live saved t m ≡ (m, ok tt) =
            rw (reconcile_table, same) refl in
          inr
            (inl (full-filter (λ a. is_live live a.instance_id) t.allocations (ground arith), out))
      | inr other ↦ wrote saved other
    ]
  where
    wrote :
        (b : Bool)
        → (length (kept live t.allocations) == length t.allocations) ≡ false
        → RoundCases network live t m (reconcile_table network live b t m)
    wrote true other = inr (inr (rw (reconcile_table, other) refl))
    wrote false other =
        let out : reconcile_table network live false t m
            ≡ save_table network (kept live t.allocations) false m =
          rw (reconcile_table, other) refl in
        inl (_, out)

-- What the answers are after some of the networks were reconciled: a live instance's are the same,
-- and no other instance gets an allocation.
pub record Keeps (live : List String) (m m' : Manager) : Type 0 where
  pub live_same :
      (network id : String)
      → is_live live id ≡ true
      → allocation network id m' ≡ allocation network id m
  pub gone_stays :
      (network id : String)
      → is_live live id ≡ false
      → allocation network id m ≡ err not_found
      → allocation network id m' ≡ err not_found

abbrev pub HasOnly : List String → String → Manager → Type 0
HasOnly live network m =
    (id : String) → is_live live id ≡ false → allocation network id m ≡ err not_found

pub Keeps-refl : (live : List String) (m : Manager) → Keeps live m m
Keeps-refl live m = record { live_same = λ network id h. refl; gone_stays = λ network id h f. f }

pub Keeps-trans :
    (live : List String) (m k l : Manager) → Keeps live m k → Keeps live k l → Keeps live m l
Keeps-trans live m k l a b = record {
  live_same = λ network id h. b.live_same network id h ∙ a.live_same network id h;
  gone_stays = λ network id h f. b.gone_stays network id h (a.gone_stays network id h f);
}

same_table :
    (network id : String) (m m' : Manager)
    → table_of network m' ≡ table_of network m
    → allocation network id m' ≡ allocation network id m
unfolding allocation
same_table network id m m' h = rw (allocation, h) refl

module _ (nets : String → Network) (network : String) (live : List String) (m : Manager)
    {t : AllocationTable} (g : AreGood nets m) (h : table_of network m ≡ ok t) where
  pub every_live :
      All (λ a. is_live live a.instance_id ≡ true) t.allocations → HasOnly live network m
  unfolding or_not_found
  every_live f id dead =
      allocation-eq network id m h (table_of-IsGood nets network m g h).made
      ∙ ap or_not_found (
          find-gone (λ a. a.instance_id) id t.allocations
            (All-of_In _ t.allocations (λ a x q. not_live a id x q dead)))
    where
      not_live :
          (a : Allocation) (id : String)
          → In a t.allocations
          → a.instance_id ≡ id
          → is_live live id ≡ false
          → ⊥
      not_live a id x q dead =
          let yes_ = All-In _ a t.allocations f x in
          let yes' = subst (λ i. is_live live i ≡ true) q yes_ in cc

  abbrev after : Manager
  after = (save_table network (kept live t.allocations) true m).0

  pub saved-HasOnly : HasOnly live network after
  unfolding kept
  saved-HasOnly id dead =
      saved-gone nets network m g h id (kept live t.allocations)
        (All-of_In _ (kept live t.allocations) (λ a x q. not_kept a x q))
    where
      not_kept : (a : Allocation) → In a (kept live t.allocations) → a.instance_id ≡ id → ⊥
      not_kept a x q =
          let (_, yes_) = filter-In (λ b. is_live live b.instance_id) a t.allocations x in
          let yes' = subst (λ i. is_live live i ≡ true) q yes_ in cc

  pub saved-Keeps : Keeps live m after
  unfolding kept
  saved-Keeps = record {
    live_same = λ network' id yes_. elim (Bool-cases (network == network')) [
      | inl same ↦
          let q = (string_Eq.same_iff network network').0 same in
          subst (λ n. allocation n id after ≡ allocation n id m) q (here id yes_)
      | inr other ↦ same_table network' id m after (
          table_of-other network' network (kept live t.allocations) true m
            (ne_of_beq network network' other))
    ];
    gone_stays = λ network' id dead f. elim (Bool-cases (network == network')) [
      | inl same ↦
          let q = (string_Eq.same_iff network network').0 same in
          subst (λ n. allocation n id after ≡ err not_found) q (saved-HasOnly id dead)
      | inr other ↦
          same_table network' id m after (
            table_of-other network' network (kept live t.allocations) true m
              (ne_of_beq network network' other))
          ∙ f
    ];
  }
    where
      here :
          (id : String)
          → is_live live id ≡ true
          → allocation network id after ≡ allocation network id m
      here id yes_ =
          let p : Allocation → Bool = λ b. is_live live b.instance_id in
          saved-same nets network m g h id (kept live t.allocations)
            (Distinct-filter _ p t.allocations (table_of-IsGood nets network m g h).sound.instances)
            (λ a y x. (filter-In p a t.allocations x).0)
            (λ a y x. In-filter p a t.allocations (rw y yes_) x)
