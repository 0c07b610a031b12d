-- ===== src/Network/Calls.antt =====
-- What each of a Manager's calls does with the table of one network.
use dicer.Prelude.{
  ℕ, ◌≡◌, ◌≢◌, refl, sym, ap, ◌⊎◌, inl, inr, Bool, true, false, Option, none, some, List, [], ◌∷◌,
  ◌++◌, String, string_Eq, nat_Eq, subst, Option-cases, All,
}
use dicer.Network.{Network, Allocation, Error, Result, ok, err}
use dicer.Network.Table.{AllocationTable, new_table}
use dicer.Network.Lookup.{index-cases}
use dicer.Network.Manager.{
  Manager, StaticIp, table_of, save_table, find_instance, used_ips, choose_in, allocate_in,
  save_allocation, allocate,
}
use dicer.Network.Tables.{
  AreGood, IsGood, HasMasked, InRange, snoc-AreSound, choose_in-lem, table_of-IsGood,
  save_table-AreGood,
}

-- A call of Allocate either fails and changes nothing, or finds the instance's allocation, or
-- saves the table with a new one at its end.
abbrev pub AllocateCases :
    Network → String → StaticIp → (ℕ → ℕ) → Manager → Manager × Result Allocation → Type 0
AllocateCases n id static draw m out =
    ((e : Error) × (out ≡ (m, err e)))
    ⊎ ((t : AllocationTable) × (a : Allocation) × (table_of n.name m ≡ ok t)
        × (find_instance id t ≡ some a)
        × (out ≡ (m, ok a)))
    ⊎ ((t : AllocationTable) × (a : Allocation) × (table_of n.name m ≡ ok t)
        × (find_instance id t ≡ none)
        × (a.instance_id ≡ id)
        × (choose_in n.subnet static draw (used_ips n t) ≡ ok a.ip)
        × (out ≡ ((save_table n.name (t.allocations ++ a ∷ []) true m).0, ok a)))

saved-cases :
    (n : Network) (id : String) (static : StaticIp) (draw : ℕ → ℕ) (bytes : Option (List ℕ))
    (saved : Bool) (t : AllocationTable) (m : Manager) (chosen : Result ℕ)
    → table_of n.name m ≡ ok t
    → find_instance id t ≡ none
    → choose_in n.subnet static draw (used_ips n t) ≡ chosen
    → AllocateCases n id static draw m (save_allocation n id chosen bytes saved t m)
unfolding save_allocation save_table
saved-cases n id static draw bytes saved t m (err e) ht hf hc = inl (e, refl)
saved-cases n id static draw none saved t m (ok ip) ht hf hc = inl (_, refl)
saved-cases n id static draw (some b) false t m (ok ip) ht hf hc = inl (_, refl)
saved-cases n id static draw (some b) true t m (ok ip) ht hf hc =
    inr (inr (t, _, ht, hf, refl, hc, refl))

pub table_of-cases :
    (network : String) (m : Manager)
    → ((e : Error) × (table_of network m ≡ err e))
      ⊎ ((t : AllocationTable) × (table_of network m ≡ ok t))
table_of-cases network m = cases (table_of network m) refl
  where
    cases :
        (r : Result AllocationTable)
        → table_of network m ≡ r
        → ((e : Error) × (table_of network m ≡ err e))
          ⊎ ((t : AllocationTable) × (table_of network m ≡ ok t))
    cases (err e) h = inl (e, h)
    cases (ok t) h = inr (t, h)

pub allocate-cases :
    (n : Network) (id : String) (static : StaticIp) (draw : ℕ → ℕ) (bytes : Option (List ℕ))
    (saved : Bool) (m : Manager)
    → AllocateCases n id static draw m (allocate n id static draw bytes saved m)
unfolding allocate allocate_in
allocate-cases n id static draw bytes saved m = elim (table_of-cases n.name m) [
  | inl (e, h) ↦
      let out : allocate n id static draw bytes saved m ≡ (m, err e) = rw (allocate, h) in
      inl (e, out)
  | inr (t, h) ↦ elim (Option-cases (find_instance id t)) [
    | inl f ↦
        let chosen = choose_in n.subnet static draw (used_ips n t) in
        let out : allocate n id static draw bytes saved m
            ≡ save_allocation n id chosen bytes saved t m =
          rw (allocate, h, f) in
        subst (AllocateCases n id static draw m) (sym out)
          (saved-cases n id static draw bytes saved t m chosen h f refl)
    | inr (a, f) ↦ inr (inl (t, a, h, f, rw (allocate, h, f)))
  ]
]

-- No allocation of a good table is of an instance that its index does not find.
pub no_instance :
    (n : Network) (id : String) (t : AllocationTable)
    → IsGood n t
    → find_instance id t ≡ none
    → All (λ a. a.instance_id ≢ id) t.allocations
unfolding find_instance new_table
no_instance n id t g h = elim (index-cases (λ a. a.instance_id) id t.allocations t refl) [
  | inl (_, _, f) ↦ f
  | inr (a, j, _, _, f, _, _) ↦
      let by_instance = ap (λ (u : AllocationTable). u.by_instance) g.made in
      cc (rw by_instance at h)
]

pub allocate-AreGood :
    (nets : String → Network) (network id : String) (static : StaticIp) (draw : ℕ → ℕ)
    (bytes : Option (List ℕ)) (saved : Bool) (m : Manager)
    → (nets network).name ≡ network
    → HasMasked (nets network)
    → InRange (nets network) draw
    → AreGood nets m
    → AreGood nets (allocate (nets network) id static draw bytes saved m).0
allocate-AreGood nets network id static draw bytes saved m named masked range g =
    elim (allocate-cases (nets network) id static draw bytes saved m) [
      | inl (e, out) ↦ rw out g
      | inr (inl (t, a, _, _, out)) ↦ rw out g
      | inr (inr (t, a, ht, hf, hid, hc, out)) ↦
          rw (out, named) (kept t a (rw named at ht) hf hid hc)
    ]
  where
    kept :
        (t : AllocationTable) (a : Allocation)
        → table_of network m ≡ ok t
        → find_instance id t ≡ none
        → a.instance_id ≡ id
        → choose_in (nets network).subnet static draw (used_ips (nets network) t) ≡ ok a.ip
        → AreGood nets (save_table network (t.allocations ++ a ∷ []) true m).0
    kept t a ht hf hid hc =
        let good = table_of-IsGood nets network m g ht in
        let (inside, new_ip) =
          choose_in-lem (nets network) static draw t good.made masked range hc in
        let new_id = no_instance (nets network) id t good hf in
        save_table-AreGood nets network (t.allocations ++ a ∷ []) true m g
          (snoc-AreSound (nets network) a t.allocations good.sound (rw hid new_id) new_ip inside)
