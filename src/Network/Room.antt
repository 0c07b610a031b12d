-- ===== src/Network/Room.antt =====
-- Allocate finds an address whenever there is one to give.
use dicer.Prelude.{
  ℕ, ◌+◌, ◌≤◌, ◌<◌, ◌≡◌, ◌≢◌, refl, sym, ap, ◌∙◌, inl, inr, true, false, Option, none, some, List,
  [], ◌∷◌, map, String, nat_Eq, arith, subst, Option-cases, All,
}
use dicer.Network.{Network, Subnet, Allocation, Result, ok}
use dicer.Network.Address.{taken, free_ip, last_host, increment_ip}
use dicer.Network.Free.{Finds, free_ip-Finds}
use dicer.Network.Table.{AllocationTable, new_table, index_from}
use dicer.Network.Manager.{
  Manager, unset, table_of, find_instance, instance_at, used_ips, choose_in, choose_ip, allocate_in,
  save_allocation, save_table, allocate, id_of,
}
use dicer.Network.Tables.{AreGood, IsGood, InRange, table_of-IsGood}
use dicer.Network.Finding.{find-none}
use dicer.Network.Answers.{instance_at-eq}
use dicer.Network.Allocates.{again-held}

-- An address that no allocation has is not in the index.
index_free :
    (ip i : ℕ) (es : List Allocation) (m : List (ℕ × ℕ))
    → taken (map (λ (entry : ℕ × ℕ). entry.0) m) ip ≡ false
    → All (λ a. a.ip ≢ ip) es
    → taken (map (λ (entry : ℕ × ℕ). entry.0) (index_from (λ a. a.ip) i es m)) ip ≡ false
unfolding index_from taken
index_free ip i [] m h k = h
index_free ip i (a ∷ es) m h (ne, k) = index_free ip (i + 1) es ((a.ip, i) ∷ m) (ground arith) k

id_of-none : (o : Option Allocation) → id_of o ≡ none → o ≡ none
unfolding id_of
id_of-none none h = refl
id_of-none (some a) h = cc

unused :
    (n : Network) (m : Manager) (ip : ℕ) {t : AllocationTable}
    → IsGood n t
    → table_of n.name m ≡ ok t
    → ip ≢ n.gateway
    → instance_at n.name ip m ≡ none
    → taken (used_ips n t) ip ≡ false
unfolding used_ips new_table taken
unused n m ip {t} good h ne free =
    let nobody = id_of-none _ (sym (instance_at-eq n.name ip m h good.made) ∙ free) in
    let rest =
      index_free ip 0 t.allocations [] refl (find-none (λ a. a.ip) ip t.allocations nobody) in
    let by_ip : t.by_ip ≡ index_from (λ a. a.ip) 0 t.allocations [] =
      ap (λ (u : AllocationTable). u.by_ip) good.made in
    let rest' : taken (map (λ (entry : ℕ × ℕ). entry.0) t.by_ip) ip ≡ false = rw by_ip rest in
    ground arith

-- The network's table can be read, its subnet is valid, and one of its host addresses is neither
-- the gateway nor that of an instance.
pub record HasRoom (n : Network) (m : Manager) : Type 0 where
  pub table : AllocationTable
  pub readable : table_of n.name m ≡ ok table
  pub subnet : Subnet
  pub valid : n.subnet ≡ some subnet
  pub offset : ℕ
  pub first : 1 ≤ offset
  pub last : offset ≤ last_host subnet
  pub not_gateway : increment_ip subnet.base offset ≢ n.gateway
  pub free : instance_at n.name (increment_ip subnet.base offset) m ≡ none

chosen_of :
    (s : Subnet) (draw : ℕ → ℕ) (used : List ℕ) (k : ℕ)
    → (0 < last_host s → (i : ℕ) → draw i < last_host s)
    → 1 ≤ k
    → k ≤ last_host s
    → taken used (increment_ip s.base k) ≡ false
    → (ip : ℕ) × (choose_ip s unset draw used ≡ ok ip)
unfolding choose_ip
chosen_of s draw used k range a b f = elim (Option-cases (free_ip s draw used)) [
  | inr (ip, e) ↦
      let chosen : choose_ip s unset draw used ≡ ok ip = rw (choose_ip, e) refl in (ip, chosen)
  | inl e ↦ let full = subst (Finds s used) e (free_ip-Finds s draw used range) in cc (full k a b)
]

-- A call of Allocate for any address succeeds when the network has room, `crypto/rand` answers and
-- the file can be written.
pub allocate-HasRoom :
    (nets : String → Network) (n : Network) (id : String) (draw : ℕ → ℕ) (bytes : List ℕ)
    (m : Manager)
    → AreGood nets m
    → nets n.name ≡ n
    → InRange n draw
    → HasRoom n m
    → (a : Allocation) × ((allocate n id unset draw (some bytes) true m).1 ≡ ok a)
unfolding allocate allocate_in save_allocation save_table choose_in
allocate-HasRoom nets n id draw bytes m g named range r =
    elim (Option-cases (find_instance id r.table)) [
      | inr (a, f) ↦ (
        a,
        ap (λ (out : Manager × Result Allocation). out.1)
            (again-held n id m r.readable f unset draw (some bytes) true),
      )
      | inl f ↦
          let good : IsGood n r.table =
            subst (λ k. IsGood k r.table) named (table_of-IsGood nets n.name m g r.readable) in
          let free = unused n m _ good r.readable r.not_gateway r.free in
          let (ip, e) =
            chosen_of r.subnet draw (used_ips n r.table) r.offset (range r.subnet r.valid) r.first
              r.last free in
          let e' : choose_in n.subnet unset draw (used_ips n r.table) ≡ ok ip =
            ap (λ (o : Option Subnet). choose_in o unset draw (used_ips n r.table)) r.valid ∙ e in
          let out : allocate n id unset draw (some bytes) true m
              ≡ save_allocation n id (ok ip) (some bytes) true r.table m =
            rw (allocate, r.readable, f, e') refl in
          (_, ap (λ (out : Manager × Result Allocation). out.1) out)
    ]
