-- ===== src/Network/Answers.antt =====
-- What Allocation and InstanceAt answer before and after the calls that save a table.
use dicer.Prelude.{
  ℕ, ◌≡◌, ◌≢◌, refl, sym, ap, ◌∙◌, inl, inr, Bool, true, false, Option, none, some, List, String,
  string_Eq, nat_Eq, Option-cases, In, All, Distinct,
}
use dicer.Network.{Network, Allocation, ok, err, not_found}
use dicer.Network.Table.{AllocationTable, lookup, new_table}
use dicer.Maps.Exact.{lookup-assign_self, lookup-assign_ne}
use dicer.Network.Finding.{find, find-In, find-same, find-gone}
use dicer.Network.Manager.{
  Manager, table_of, save_table, find_instance, at_index, allocation, instance_at, or_not_found,
  id_of,
}
use dicer.Network.Tables.{AreGood, IsGood, table_of-IsGood}

pub table_of-saved :
    (network : String) (es : List Allocation) (m : Manager) {t : AllocationTable}
    → table_of network m ≡ ok t
    → table_of network (save_table network es true m).0 ≡ ok (new_table es)
unfolding table_of save_table
table_of-saved network es m {t} h = elim (Option-cases (lookup network m.table_errors)) [
  | inl f ↦ rw (f, lookup-assign_self network (new_table es) m.tables) refl
  | inr (e, f) ↦ cc (rw f at h)
]

pub table_of-other :
    (other network : String) (es : List Allocation) (saved : Bool) (m : Manager)
    → network ≢ other
    → table_of other (save_table network es saved m).0 ≡ table_of other m
unfolding table_of save_table
table_of-other other network es false m ne = refl
table_of-other other network es true m ne =
    rw (lookup-assign_ne other network (new_table es) m.tables ne) refl

abbrev pub by_id : String → List Allocation → Option Allocation
by_id id es = find (λ a. a.instance_id) id es

abbrev pub by_address : ℕ → List Allocation → Option Allocation
by_address ip es = find (λ a. a.ip) ip es

pub find_instance-made :
    (id : String) (t : AllocationTable)
    → t ≡ new_table t.allocations
    → find_instance id t ≡ by_id id t.allocations
unfolding find_instance new_table
find_instance-made id t made = ap (find_instance id) made

-- The two answers, from the allocations of the network's table.
pub allocation-eq :
    (network id : String) (m : Manager) {t : AllocationTable}
    → table_of network m ≡ ok t
    → t ≡ new_table t.allocations
    → allocation network id m ≡ or_not_found (by_id id t.allocations)
unfolding allocation
allocation-eq network id m {t} h made =
    rw (allocation, h) (ap or_not_found (find_instance-made id t made))

pub instance_at-eq :
    (network : String) (ip : ℕ) (m : Manager) {t : AllocationTable}
    → table_of network m ≡ ok t
    → t ≡ new_table t.allocations
    → instance_at network ip m ≡ id_of (by_address ip t.allocations)
unfolding instance_at new_table
instance_at-eq network ip m {t} h made =
    rw (instance_at, h) (ap (λ (u : AllocationTable). id_of (at_index (lookup ip u.by_ip) u)) made)

module _ (nets : String → Network) (network : String) (m : Manager) {t : AllocationTable}
    (g : AreGood nets m) (h : table_of network m ≡ ok t) where
  good : IsGood (nets network) t
  good = table_of-IsGood nets network m g h

  -- The answers after the network's table is saved with other allocations.
  pub saved-same :
      (id : String) (es : List Allocation)
      → Distinct (λ a. a.instance_id) es
      → ((a : Allocation) → a.instance_id ≡ id → In a es → In a t.allocations)
      → ((a : Allocation) → a.instance_id ≡ id → In a t.allocations → In a es)
      → allocation network id (save_table network es true m).0 ≡ allocation network id m
  unfolding new_table
  saved-same id es d there back =
      allocation-eq network id (save_table network es true m).0 (table_of-saved network es m h) refl
      ∙ ap or_not_found
          (find-same (λ a. a.instance_id) id es t.allocations d good.sound.instances there back)
      ∙ sym (allocation-eq network id m h good.made)

  pub saved-found :
      (es : List Allocation) (a : Allocation)
      → Distinct (λ b. b.instance_id) es
      → In a es
      → allocation network a.instance_id (save_table network es true m).0 ≡ ok a
  unfolding new_table or_not_found
  saved-found es a d x =
      allocation-eq network a.instance_id (save_table network es true m).0
        (table_of-saved network es m h) refl
      ∙ ap or_not_found (find-In (λ b. b.instance_id) a.instance_id es d x refl)

  pub saved-at :
      (es : List Allocation) (a : Allocation)
      → Distinct (λ b. b.ip) es
      → In a es
      → instance_at network a.ip (save_table network es true m).0 ≡ some a.instance_id
  unfolding new_table id_of
  saved-at es a d x =
      instance_at-eq network a.ip (save_table network es true m).0 (table_of-saved network es m h)
        refl
      ∙ ap id_of (find-In (λ b. b.ip) a.ip es d x refl)

  pub saved-gone :
      (id : String) (es : List Allocation)
      → All (λ a. a.instance_id ≢ id) es
      → allocation network id (save_table network es true m).0 ≡ err not_found
  unfolding new_table or_not_found
  saved-gone id es d =
      allocation-eq network id (save_table network es true m).0 (table_of-saved network es m h) refl
      ∙ ap or_not_found (find-gone (λ a. a.instance_id) id es d)

  pub saved-free :
      (ip : ℕ) (es : List Allocation)
      → All (λ a. a.ip ≢ ip) es
      → instance_at network ip (save_table network es true m).0 ≡ none
  unfolding new_table id_of
  saved-free ip es d =
      instance_at-eq network ip (save_table network es true m).0 (table_of-saved network es m h)
        refl
      ∙ ap id_of (find-gone (λ a. a.ip) ip es d)
