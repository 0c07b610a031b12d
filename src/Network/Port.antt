-- ===== src/Network/Port.antt =====
-- internal/network/port_mapping.go: which mappings claim the same host port.
use dicer.Prelude.{
  ℕ, ◌≡◌, refl, sym, ◌∙◌, inl, inr, String, Bool, false, not, ◌||◌, Eq, ◌==◌, nat_Eq, string_Eq,
  if◌then◌else◌, arith, Bool-cases,
}

pub record PortMapping : Type 0 where
  pub host_ip : String
  pub host_port : ℕ
  pub guest_port : ℕ
  pub protocol : String

-- `EffectiveProtocol`.
unfoldable pub effective_protocol : PortMapping → String
effective_protocol p = if p.protocol == "" then "tcp" else p.protocol

-- `Overlaps`.
unfoldable pub overlaps : PortMapping → PortMapping → Bool
overlaps p other =
    if not (effective_protocol p == effective_protocol other)
      || not (p.host_port == other.host_port)
    then false
    else p.host_ip == "" || other.host_ip == "" || p.host_ip == other.host_ip

eq_comm {ℓ} : {K : Type ℓ} ⦃d : Eq K⦄ (j k : K) → (j == k) ≡ (k == j)
eq_comm ⦃d⦄ j k = elim (Bool-cases (d.same j k)) [
  | inl yes_ ↦ yes_ ∙ sym ((d.same_iff k j).1 (sym ((d.same_iff j k).0 yes_)))
  | inr no_ ↦ elim (Bool-cases (d.same k j)) [
    | inl yes_ ↦ (d.same_iff j k).1 (sym ((d.same_iff k j).0 yes_)) ∙ sym yes_
    | inr no' ↦ no_ ∙ sym no'
  ]
]

or_comm : (a b c : Bool) → (a || b || c) ≡ (b || a || c)
or_comm a b c = ground arith

pub overlaps_comm : (p q : PortMapping) → overlaps p q ≡ overlaps q p
unfolding overlaps
overlaps_comm p q =
    rw
      (
        eq_comm (effective_protocol p) (effective_protocol q),
        eq_comm p.host_port q.host_port,
        eq_comm p.host_ip q.host_ip,
        or_comm (p.host_ip == "") (q.host_ip == "") (q.host_ip == p.host_ip),
      )
      refl
