-- ===== src/Network/Reconciled.antt =====
-- Reconcile over a list of networks.
use dicer.Prelude.{
  ℕ, ◌+◌, ◌-◌, ◌≡◌, refl, sym, ap, inl, inr, Bool, true, List, [], ◌∷◌, String, length, subst, All,
}
use dicer.Network.{Network, Error, Result, ok, err}
use dicer.Network.Table.{AllocationTable}
use dicer.Network.Manager.{Manager, save_table, kept, is_live, reconcile}
use dicer.Network.Tables.{AreGood, IsGood, table_of-IsGood, filter-AreSound, save_table-AreGood}
use dicer.Network.Calls.{table_of-cases}
use dicer.Network.Reconcile.{
  round-cases, Keeps, HasOnly, Keeps-refl, Keeps-trans, every_live, saved-HasOnly, saved-Keeps,
}

-- With no error, none of the networks has an allocation of an instance that is not live.
abbrev pub Cleaned : List String → List String → Manager → Result (Unit {0}) → Type 0
Cleaned networks live m (ok _) = All (λ network. HasOnly live network m) networks
Cleaned networks live m (err e) = Unit

-- What a run of the loop over `networks` does.
pub record Reconciles (nets : String → Network) (networks live : List String) (m : Manager)
    (out : Manager × ℕ × Result (Unit {0})) : Type 0 where
  pub good : AreGood nets out.0
  pub keeps : Keeps live m out.0
  pub cleaned : Cleaned networks live out.0 out.2

HasOnly-Keeps :
    (live : List String) (m m' : Manager) (network : String)
    → Keeps live m m'
    → HasOnly live network m
    → HasOnly live network m'
HasOnly-Keeps live m m' network k h id dead = k.gone_stays network id dead (h id dead)

failed :
    (nets : String → Network) (networks live : List String) (m : Manager) (released : ℕ) (e : Error)
    → AreGood nets m
    → Reconciles nets networks live m (m, released, err e)
failed nets networks live m released e g = record {
  good = g;
  keeps = Keeps-refl live m;
  cleaned = tt;
}

-- A round that keeps what is live, before the rounds of the other networks.
round-then :
    (nets : String → Network) (network : String) (networks live : List String) (m m' : Manager)
    (out : Manager × ℕ × Result (Unit {0}))
    → Keeps live m m'
    → HasOnly live network m'
    → Reconciles nets networks live m' out
    → Reconciles nets (network ∷ networks) live m out
round-then nets network networks live m m' out k h r = record {
  good = r.good;
  keeps = Keeps-trans live m m' out.0 k r.keeps;
  cleaned = Cleaned-cons out.0 out.2 (HasOnly-Keeps live m' out.0 network r.keeps h) r.cleaned;
}
  where
    Cleaned-cons :
        (k : Manager) (r : Result (Unit {0}))
        → HasOnly live network k
        → Cleaned networks live k r
        → Cleaned (network ∷ networks) live k r
    Cleaned-cons k (ok _) a b = (a, b)
    Cleaned-cons k (err e) a b = tt

-- Reconcile keeps the tables sound and the allocations of the live instances, on every network and
-- with an error too; and when it succeeds, no instance that is not live has an allocation on the
-- networks given.
pub reconcile-Reconciles :
    (nets : String → Network) (networks live : List String) (saved : String → Bool) (released : ℕ)
    (m : Manager)
    → AreGood nets m
    → Reconciles nets networks live m (reconcile networks live saved released m)
unfolding reconcile kept
reconcile-Reconciles nets [] live saved released m g = record {
  good = g;
  keeps = Keeps-refl live m;
  cleaned = tt;
}
reconcile-Reconciles nets (network ∷ networks) live saved released m g =
    elim (table_of-cases network m) [
      | inl (e, h) ↦
          let out : reconcile (network ∷ networks) live saved released m ≡ (m, released, err e) =
            rw (reconcile, h) refl in
          subst (Reconciles nets (network ∷ networks) live m) (sym out)
            (failed nets (network ∷ networks) live m released e g)
      | inr (t, h) ↦
          let now : ℕ = released + (length t.allocations - length (kept live t.allocations)) in
          let rest : Manager × Result (Unit {0}) → Manager × ℕ × Result (Unit {0}) = λ o. elim o.1 [
            | err e ↦ (o.0, now, err e)
            | ok _ ↦ reconcile networks live saved now o.0
          ] in
          elim (round-cases network live (saved network) t m) [
            | inl (e, r) ↦
                let out : reconcile (network ∷ networks) live saved released m ≡ (m, now, err e) =
                  rw (reconcile, h) (ap rest r) in
                subst (Reconciles nets (network ∷ networks) live m) (sym out)
                  (failed nets (network ∷ networks) live m now e g)
            | inr (inl (all_live, r)) ↦
                let out : reconcile (network ∷ networks) live saved released m
                    ≡ reconcile networks live saved now m =
                  rw (reconcile, h) (ap rest r) in
                subst (Reconciles nets (network ∷ networks) live m) (sym out) (
                  round-then nets network networks live m m _ (Keeps-refl live m)
                    (every_live nets network live m g h all_live)
                    (reconcile-Reconciles nets networks live saved now m g))
            | inr (inr r) ↦
                let m' : Manager = (save_table network (kept live t.allocations) true m).0 in
                let out : reconcile (network ∷ networks) live saved released m
                    ≡ reconcile networks live saved now m' =
                  rw (reconcile, h) (ap rest r) in
                let good = table_of-IsGood nets network m g h in
                let g' = saved-AreGood t good in
                subst (Reconciles nets (network ∷ networks) live m) (sym out) (
                  round-then nets network networks live m m' _ (saved-Keeps nets network live m g h)
                    (saved-HasOnly nets network live m g h)
                    (reconcile-Reconciles nets networks live saved now m' g'))
          ]
    ]
  where
    saved-AreGood :
        (t : AllocationTable)
        → IsGood (nets network) t
        → AreGood nets (save_table network (kept live t.allocations) true m).0
    saved-AreGood t good =
        save_table-AreGood nets network (kept live t.allocations) true m g (
          filter-AreSound (nets network) (λ a. is_live live a.instance_id) t.allocations good.sound)
