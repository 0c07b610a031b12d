-- ===== src/Instance/Claims.antt =====
-- What `checkPorts` and `checkVolumes` say of an instance and another one.
use dicer.Prelude.{
  ◌≡◌, ◌≢◌, refl, sym, ap, ◌∙◌, inl, inr, String, Bool, true, false, ◌&&◌, ◌||◌, some, List, [],
  ◌∷◌, ◌==◌, string_Eq, arith, Bool-cases, In, some_eq, subst,
}
use dicer.Network.Port.{PortMapping, overlaps, overlaps_comm}
use dicer.Instance.{
  State, stopped, starting, running, paused, standby, stopping, restarting, failed,
}
use dicer.Instance.Host.{
  Mount, Spec, Cell, holds_resources, holds_ports_and_volumes, is_active, status_of, is_volume,
  volume_mount,
}
use dicer.Instance.Admission.{
  any_overlaps, ports_overlap, refuses, volumes_clash, is_holder, ports_taken, volumes_taken,
}
use dicer.Instance.Cells.{claims}

-- Two instances that may have their ports and volumes at the same time: no port of one overlaps
-- one of the other, and a volume that both mount is read-only in both.
pub record Compatible (a b : Spec) : Type 0 where
  pub ports : (p q : PortMapping) → In p a.ports → In q b.ports → overlaps p q ≡ false
  pub volumes :
      (name : String) (m n : Mount)
      → volume_mount name a.mounts ≡ some m
      → volume_mount name b.mounts ≡ some n
      → (m.read_only ≡ true) × (n.read_only ≡ true)

pub Compatible-sym : (a b : Spec) → Compatible a b → Compatible b a
Compatible-sym a b h = record {
  ports = λ p q x y. overlaps_comm p q ∙ h.ports q p y x;
  volumes = λ name m n x y. let (r, s) = h.volumes name n m y x in (s, r);
}

or-false : (a b : Bool) → (a || b) ≡ false → (a ≡ false) × (b ≡ false)
or-false a b h = (ground arith, ground arith)

any_overlaps-In :
    (p q : PortMapping) (qs : List PortMapping)
    → any_overlaps p qs ≡ false
    → In q qs
    → overlaps p q ≡ false
unfolding any_overlaps
any_overlaps-In p q [] h x = absurd x.1
any_overlaps-In p q (r ∷ qs) h (inl e) = ap (overlaps p) e ∙ (or-false _ _ h).0
any_overlaps-In p q (r ∷ qs) h (inr x) = any_overlaps-In p q qs (or-false _ _ h).1 x

ports_overlap-In :
    (ps qs : List PortMapping) (p q : PortMapping)
    → ports_overlap ps qs ≡ false
    → In p ps
    → In q qs
    → overlaps p q ≡ false
unfolding ports_overlap
ports_overlap-In [] qs p q h x y = absurd x.1
ports_overlap-In (r ∷ ps) qs p q h (inl e) y =
    ap (λ k. overlaps k q) e ∙ any_overlaps-In r q qs (or-false _ _ h).0 y
ports_overlap-In (r ∷ ps) qs p q h (inr x) y = ports_overlap-In ps qs p q (or-false _ _ h).1 x y

volume_mount-some :
    (name : String) (ms : List Mount) {m : Mount}
    → volume_mount name ms ≡ some m
    → In m ms × (is_volume m ≡ true) × (m.source ≡ name)
unfolding volume_mount
volume_mount-some name [] h = cc
volume_mount-some name (k ∷ ms) {m} h = elim (Bool-cases (is_volume k && k.source == name)) [
  | inl yes_ ↦
      let e : k ≡ m = some_eq (rw yes_ at h) in
      let kind : is_volume k ≡ true = ground arith in
      let named : (k.source == name) ≡ true = ground arith in
      (
        inl (sym e),
        subst (λ x. is_volume x ≡ true) e kind,
        subst (λ (x : Mount). x.source ≡ name) e ((string_Eq.same_iff k.source name).0 named),
      )
  | inr no_ ↦ let (x, y, z) = volume_mount-some name ms (rw no_ at h) in (inr x, y, z)
]

volumes_clash-In :
    (ms theirs : List Mount) (m : Mount)
    → volumes_clash ms theirs ≡ false
    → In m ms
    → is_volume m ≡ true
    → refuses m (volume_mount m.source theirs) ≡ false
unfolding volumes_clash
volumes_clash-In [] theirs m h x v = absurd x.1
volumes_clash-In (k ∷ ms) theirs m h (inl e) v =
    let kind = subst (λ y. is_volume y ≡ true) e v in
    let free : (is_volume k && refuses k (volume_mount k.source theirs)) ≡ false =
      (or-false _ _ h).0 in
    let mine : refuses k (volume_mount k.source theirs) ≡ false = rw kind at free in
    subst (λ (y : Mount). refuses y (volume_mount y.source theirs) ≡ false) (sym e) mine
volumes_clash-In (k ∷ ms) theirs m h (inr x) v = volumes_clash-In ms theirs m (or-false _ _ h).1 x v

no_clash :
    (ms theirs : List Mount)
    → volumes_clash ms theirs ≡ false
    → (name : String) (m n : Mount) → volume_mount name ms ≡ some m
    → volume_mount name theirs ≡ some n
    → (m.read_only ≡ true) × (n.read_only ≡ true)
unfolding refuses
no_clash ms theirs h name m n x y =
    let (i, v, s) = volume_mount-some name ms x in
    let free = volumes_clash-In ms theirs m h i v in
    let free' : refuses m (some n) ≡ false =
      sym (ap (refuses m) (ap (λ k. volume_mount k theirs) s ∙ y)) ∙ free in
    (ground arith, ground arith)

claims-holder : (s : State) → claims s ≡ true → holds_ports_and_volumes s ≡ true
unfolding claims holds_ports_and_volumes holds_resources is_active
claims-holder stopped h = cc
claims-holder starting h = refl
claims-holder running h = refl
claims-holder paused h = refl
claims-holder standby h = refl
claims-holder stopping h = cc
claims-holder restarting h = cc
claims-holder failed h = cc

taken-In :
    (s other : Spec) (ss : List Spec) (cells : String → Cell)
    → ports_taken s ss cells ≡ false
    → volumes_taken s ss cells ≡ false
    → In other ss
    → is_holder s.id other cells ≡ true
    → (ports_overlap s.ports other.ports ≡ false) × (volumes_clash s.mounts other.mounts ≡ false)
unfolding ports_taken volumes_taken
taken-In s other [] cells h k x y = absurd x.1
taken-In s other (r ∷ ss) cells h k (inl e) y =
    let y' = subst (λ o. is_holder s.id o cells ≡ true) e y in
    let a : (is_holder s.id r cells && ports_overlap s.ports r.ports) ≡ false =
      (or-false _ _ h).0 in
    let b : (is_holder s.id r cells && volumes_clash s.mounts r.mounts) ≡ false =
      (or-false _ _ k).0 in
    (
      ap (λ (o : Spec). ports_overlap s.ports o.ports) e ∙ (rw y' at a),
      ap (λ (o : Spec). volumes_clash s.mounts o.mounts) e ∙ (rw y' at b),
    )
taken-In s other (r ∷ ss) cells h k (inr x) y =
    taken-In s other ss cells (or-false _ _ h).1 (or-false _ _ k).1 x y

-- An instance whose ports and volumes are not taken is compatible with each other one that claims
-- its own.
pub checked-Compatible :
    (s other : Spec) (ss : List Spec) (cells : String → Cell)
    → ports_taken s ss cells ≡ false
    → volumes_taken s ss cells ≡ false
    → In other ss
    → other.id ≢ s.id
    → claims (status_of (cells other.id)).state ≡ true
    → Compatible s other
unfolding is_holder
checked-Compatible s other ss cells h k x ne c =
    let holds = claims-holder _ c in
    let differs : (other.id == s.id) ≡ false = elim (Bool-cases (other.id == s.id)) [
      | inl yes_ ↦ absurd (ne ((string_Eq.same_iff other.id s.id).0 yes_))
      | inr no_ ↦ no_
    ] in
    let holder : is_holder s.id other cells ≡ true = rw (is_holder, differs, holds) refl in
    let (ports, volumes) = taken-In s other ss cells h k x holder in
    record {
      ports = λ p q y z. ports_overlap-In s.ports other.ports p q ports y z;
      volumes = no_clash s.mounts other.mounts volumes;
    }
