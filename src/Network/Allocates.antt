-- ===== src/Network/Allocates.antt =====
-- What a call of Allocate gives its instance, and what it leaves alone.
use dicer.Prelude.{
  ℕ, ◌≡◌, ◌≢◌, refl, sym, ap, ◌∙◌, ◌⊎◌, inl, inr, Bool, true, Option, none, some, List, [], ◌∷◌,
  ◌++◌, String, string_Eq, nat_Eq, subst, All, In-append_left, In-append_right, In-snoc, All-In,
}
use dicer.Network.{Network, Allocation, Result, ok, err}
use dicer.Network.Table.{AllocationTable, new_table}
use dicer.Network.Manager.{
  Manager, StaticIp, table_of, save_table, find_instance, allocation, instance_at, allocate_in,
  allocate, or_not_found, id_of,
}
use dicer.Network.Tables.{
  AreGood, IsGood, InNetwork, HasMasked, InRange, choose_in-lem, snoc-AreSound, table_of-IsGood,
}
use dicer.Network.Calls.{allocate-cases, no_instance}
use dicer.Network.Finding.{find-some, find-In, find-gone}
use dicer.Network.Answers.{
  allocation-eq, instance_at-eq, find_instance-made, table_of-saved, table_of-other, saved-same,
  saved-found, saved-at,
}

-- What the instance has after a call that answered an allocation.
pub record Gives (n : Network) (id : String) (a : Allocation) (m m' : Manager) : Type 0 where
  pub own : a.instance_id ≡ id
  pub inside : InNetwork n a.ip
  pub kept_or_free : (allocation n.name id m ≡ ok a) ⊎ (instance_at n.name a.ip m ≡ none)
  pub found : allocation n.name id m' ≡ ok a
  pub at_ip : instance_at n.name a.ip m' ≡ some id
  pub again :
      (static : StaticIp) (draw : ℕ → ℕ) (bytes : Option (List ℕ)) (saved : Bool)
      → allocate n id static draw bytes saved m' ≡ (m', ok a)
  pub others :
      (other : String) → other ≢ id → allocation n.name other m' ≡ allocation n.name other m
  pub networks : (other : String) → n.name ≢ other → table_of other m' ≡ table_of other m

abbrev pub Allocates : Network → String → Manager → Manager × Result Allocation → Type 0
Allocates n id m (m', ok a) = Gives n id a m m'
Allocates n id m (m', err e) = m' ≡ m

-- An instance that the table has keeps its allocation.
pub again-held :
    (n : Network) (id : String) (m : Manager) {t : AllocationTable} {a : Allocation}
    → table_of n.name m ≡ ok t
    → find_instance id t ≡ some a
    → (static : StaticIp) (draw : ℕ → ℕ) (bytes : Option (List ℕ)) (saved : Bool)
    → allocate n id static draw bytes saved m ≡ (m, ok a)
unfolding allocate allocate_in
again-held n id m h f = λ static draw bytes saved. rw (allocate, h, f) refl

module _ (n : Network) (id : String) (m : Manager) {t : AllocationTable} {a : Allocation}
    (h : table_of n.name m ≡ ok t) (g : IsGood n t) where
  held-Gives : find_instance id t ≡ some a → Gives n id a m m
  unfolding or_not_found id_of
  held-Gives f =
      let by = sym (find_instance-made id t g.made) ∙ f in
      let (x, y) = find-some (λ b. b.instance_id) id t.allocations by in
      let held : allocation n.name id m ≡ ok a =
        allocation-eq n.name id m h g.made ∙ ap or_not_found by in
      record {
        own = y;
        inside = All-In _ _ t.allocations g.sound.in_network x;
        kept_or_free = inl held;
        found = held;
        at_ip =
            instance_at-eq n.name a.ip m h g.made
            ∙ ap id_of (find-In (λ b. b.ip) a.ip t.allocations g.sound.ips x refl)
            ∙ ap some y;
        again = again-held n id m h f;
        others = λ other ne. refl;
        networks = λ other ne. refl;
      }

module _ (nets : String → Network) (n : Network) (id : String) (m : Manager) {t : AllocationTable}
    (a : Allocation) (g : AreGood nets m) (named : nets n.name ≡ n)
    (h : table_of n.name m ≡ ok t) where
  abbrev entries : List Allocation
  entries = t.allocations ++ a ∷ []

  abbrev saved : Manager
  saved = (save_table n.name entries true m).0

  new-Gives :
      find_instance id t ≡ none
      → a.instance_id ≡ id
      → InNetwork n a.ip × All (λ b. b.ip ≢ a.ip) t.allocations
      → Gives n id a m saved
  unfolding new_table id_of
  new-Gives f own (inside, new_ip) =
      let good : IsGood n t = subst (λ k. IsGood k t) named (table_of-IsGood nets n.name m g h) in
      let new_id = no_instance n id t good f in
      let sound = snoc-AreSound n a t.allocations good.sound (rw own new_id) new_ip inside in
      let last = In-append_right a t.allocations (a ∷ []) (inl refl) in
      let found = saved-found nets n.name m g h entries a sound.instances last in
      record {
        own = own;
        inside = inside;
        kept_or_free = inr (
            instance_at-eq n.name a.ip m h good.made
            ∙ ap id_of (find-gone (λ b. b.ip) a.ip t.allocations new_ip));
        found = subst (λ i. allocation n.name i saved ≡ ok a) own found;
        at_ip = saved-at nets n.name m g h entries a sound.ips last ∙ ap some own;
        again = again-held n id saved (table_of-saved n.name entries m h) (
            find_instance-made id (new_table entries) refl
            ∙ find-In (λ b. b.instance_id) id entries sound.instances last own);
        others = λ other ne.
            saved-same nets n.name m g h other entries sound.instances
              (λ b y x. elim (In-snoc b a t.allocations x) [
                | inl old ↦ old
                | inr q ↦ absurd (ne (sym y ∙ ap (λ (c : Allocation). c.instance_id) q ∙ own))
              ])
              (λ b y x. In-append_left b t.allocations (a ∷ []) x);
        networks = λ other ne. table_of-other other n.name entries true m ne;
      }

-- A call of Allocate that answers an allocation gives it to the instance, and a failed one changes
-- nothing.
pub allocate-Allocates :
    (nets : String → Network) (n : Network) (id : String) (static : StaticIp) (draw : ℕ → ℕ)
    (bytes : Option (List ℕ)) (saved : Bool) (m : Manager)
    → AreGood nets m
    → nets n.name ≡ n
    → HasMasked n
    → InRange n draw
    → Allocates n id m (allocate n id static draw bytes saved m)
allocate-Allocates nets n id static draw bytes saved m g named masked range =
    elim (allocate-cases n id static draw bytes saved m) [
      | inl (e, out) ↦ subst (Allocates n id m) (sym out) refl
      | inr (inl (t, a, h, f, out)) ↦
          let good : IsGood n t =
            subst (λ k. IsGood k t) named (table_of-IsGood nets n.name m g h) in
          subst (Allocates n id m) (sym out) (held-Gives n id m h good f)
      | inr (inr (t, a, h, f, own, c, out)) ↦
          let good : IsGood n t =
            subst (λ k. IsGood k t) named (table_of-IsGood nets n.name m g h) in
          subst (Allocates n id m) (sym out) (
            new-Gives nets n id m a g named h f own
              (choose_in-lem n static draw t good.made masked range c))
    ]
