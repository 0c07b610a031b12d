-- ===== src/Network/Free.antt =====
-- What `freeIP` finds, and the host addresses that `Assignable` accepts.
use native.Mathlib.Nat.{pow-suc, div-eq_of_lt-le, lt-div-mul-add, div-mul-le_self}
use dicer.Prelude.{
  ℕ, zero, suc, ◌+◌, ◌-◌, ◌*◌, ◌/◌, ◌^◌, ◌≤◌, ◌<◌, ◌≡◌, ◌≢◌, refl, sym, ap, ◌∙◌, inl, inr, true,
  false, Option, none, some, List, ltb, ◌==◌, nat_Eq, arith, Bool-cases, ◌↔◌, some_eq, ltb→lt,
}
use dicer.Network.{Subnet}
use dicer.Network.Address.{
  size, increment_ip, last_host, taken, try_random, scan, or_else, free_ip, assignable,
}

pow-pos : (n : ℕ) → 0 < 2 ^ n
pow-pos zero = omega arith
pow-pos (suc n) = omega (arith, pow-suc 2 n, pow-pos n)

-- The addresses of the subnet but the first and the last.
abbrev pub IsHost : Subnet → ℕ → Type 0
IsHost s ip = (k : ℕ) × (1 ≤ k) × (k ≤ last_host s) × (ip ≡ increment_ip s.base k)

module _ (s : Subnet) (used : List ℕ) where
  scan-some :
      (left offset : ℕ) {ip : ℕ}
      → scan left offset s used ≡ some ip
      → (k : ℕ) × (offset ≤ k)
        × (k < offset + left)
        × (ip ≡ increment_ip s.base k)
        × (taken used ip ≡ false)
  unfolding scan
  scan-some zero offset h = cc
  scan-some (suc left) offset h = elim (Bool-cases (taken used (increment_ip s.base offset))) [
    | inl busy ↦
        let (k, a, b, c, d) = scan-some left (offset + 1) (rw busy at h) in
        (k, omega arith, omega arith, c, d)
    | inr free ↦
        let e = some_eq (rw free at h) in (offset, omega arith, omega arith, sym e, rw (← e) free)
  ]

  scan-none :
      (left offset : ℕ)
      → scan left offset s used ≡ none
      → (k : ℕ) → offset ≤ k
      → k < offset + left
      → taken used (increment_ip s.base k) ≡ true
  unfolding scan
  scan-none zero offset h k a b = absurd (omega arith)
  scan-none (suc left) offset h k a b =
      elim (Bool-cases (taken used (increment_ip s.base offset))) [
        | inl busy ↦ elim (Bool-cases (k == offset)) [
          | inl here ↦ let e : k ≡ offset = ground arith in rw e busy
          | inr later ↦ scan-none left (offset + 1) (rw busy at h) k (ground arith) (omega arith)
        ]
        | inr free ↦ cc (rw free at h)
      ]

  try_random-some :
      (left i : ℕ) (draw : ℕ → ℕ) {ip : ℕ}
      → ((j : ℕ) → draw j < last_host s)
      → try_random left i draw s used ≡ some ip
      → IsHost s ip × (taken used ip ≡ false)
  unfolding try_random
  try_random-some zero i draw d h = cc
  try_random-some (suc left) i draw d h =
      elim (Bool-cases (taken used (increment_ip s.base (draw i + 1)))) [
        | inl busy ↦ try_random-some left (i + 1) draw d (rw busy at h)
        | inr free ↦
            let e = some_eq (rw free at h) in
            ((draw i + 1, omega arith, omega (arith, d i), sym e), rw (← e) free)
      ]

-- What an answer of `freeIP` says: an address that is free, or that every host address is taken.
abbrev pub Finds : Subnet → List ℕ → Option ℕ → Type 0
Finds s used (some ip) = IsHost s ip × (taken used ip ≡ false)
Finds s used none = (k : ℕ) → 1 ≤ k → k ≤ last_host s → taken used (increment_ip s.base k) ≡ true

small_last_host : (s : Subnet) → 32 - s.ones < 2 → last_host s ≡ 0
unfolding last_host size
small_last_host s h = small (32 - s.ones) h
  where
    small : (n : ℕ) → n < 2 → 2 ^ n - 2 ≡ 0
    small zero h = refl
    small (suc zero) h = refl
    small (suc (suc n)) h = absurd (omega arith)

large_last_host : (s : Subnet) → 2 ≤ 32 - s.ones → 0 < last_host s
unfolding last_host size
large_last_host s h = large (32 - s.ones) h
  where
    large : (n : ℕ) → 2 ≤ n → 0 < 2 ^ n - 2
    large zero h = absurd (omega arith)
    large (suc zero) h = absurd (omega arith)
    large (suc (suc n)) h = omega (arith, pow-suc 2 (suc n), pow-suc 2 n, pow-pos n)

scan-Finds :
    (s : Subnet) (used : List ℕ) (o : Option ℕ) → scan (last_host s) 1 s used ≡ o → Finds s used o
scan-Finds s used none e = λ k a b. scan-none s used (last_host s) 1 e k a (omega arith)
scan-Finds s used (some ip) e =
    let (k, a, b, c, d) = scan-some s used (last_host s) 1 e in ((k, a, omega arith, c), d)

tried-Finds :
    (s : Subnet) (used : List ℕ) (draw : ℕ → ℕ) (o : Option ℕ)
    → ((i : ℕ) → draw i < last_host s)
    → try_random 5 0 draw s used ≡ o
    → Finds s used (or_else o (scan (last_host s) 1 s used))
unfolding or_else
tried-Finds s used draw none d e = scan-Finds s used _ refl
tried-Finds s used draw (some ip) d e = try_random-some s used 5 0 draw d e

-- `freeIP` answers a host address of the subnet that is not in `used`, and finds one whenever
-- there is one, as long as the random offsets are in the range asked for, if it has any.
pub free_ip-Finds :
    (s : Subnet) (draw : ℕ → ℕ) (used : List ℕ)
    → (0 < last_host s → (i : ℕ) → draw i < last_host s)
    → Finds s used (free_ip s draw used)
unfolding free_ip
free_ip-Finds s draw used d = elim (Bool-cases (ltb (32 - s.ones) 2)) [
  | inl small ↦ rw small (λ k a b. absurd (omega (arith, small_last_host s (ltb→lt _ _ small))))
  | inr large ↦ rw large (tried-Finds s used draw _ (d (large_last_host s (ground arith))) refl)
]

-- A subnet as `net.ParseCIDR` masks it: aligned, and in the 32-bit range.
pub record IsMasked (s : Subnet) : Type 0 where
  pub aligned : s.base / size s * size s ≡ s.base
  pub fits : s.base + size s ≤ 4294967296

mask-add : (d base k : ℕ) → base / d * d ≡ base → k < d → (base + k) / d * d ≡ base
mask-add d base k aligned h =
    ap (λ (q : ℕ). q * d)
      (div-eq_of_lt-le {k = base / d} d {m = base + k} (omega arith) (grind arith))
    ∙ aligned

assignable-tests :
    (s : Subnet) (ip : ℕ)
    → (assignable s ip ≡ true)
      ↔ ((ip / size s * size s ≡ s.base) × (ip ≢ s.base) × (ip ≢ s.base + (size s - 1)))
unfolding assignable
assignable-tests s ip = (λ h. (ground arith, ground arith, ground arith), λ t. ground arith)

size-pos : (s : Subnet) → 0 < size s
unfolding size
size-pos s = pow-pos (32 - s.ones)

-- `Assignable` accepts just the host addresses.
pub assignable-IsHost : (s : Subnet) (ip : ℕ) → IsMasked s → (assignable s ip ≡ true) ↔ IsHost s ip
unfolding last_host increment_ip
assignable-IsHost s ip m = (there, back)
  where
    there : assignable s ip ≡ true → IsHost s ip
    there h =
        let (inside, not_first, not_last) = (assignable-tests s ip).0 h in
        let below = lt-div-mul-add {a = ip} {b = size s} (size-pos s) in
        let above = div-mul-le_self ip (size s) in
        let hi : ip < s.base + size s = omega (arith, inside, below) in
        let lo : s.base ≤ ip = omega (arith, inside, above) in
        (ip - s.base, grind arith, grind arith, grind (arith, m.fits))

    back : IsHost s ip → assignable s ip ≡ true
    back (k, a, b, e) =
        let e' : ip ≡ s.base + k = omega (arith, m.fits) in
        (assignable-tests s ip).1 (
          rw e' (mask-add (size s) s.base k m.aligned (omega arith)),
          λ f. omega arith,
          λ f. omega arith,
        )
