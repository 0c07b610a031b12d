-- ===== src/Network/Address.antt =====
-- internal/network/address.go, and `Assignable` of network.go.
use Prim.Native.Nat.{bit_and, bit_or}
use dicer.Prelude.{
  ℕ, zero, suc, ◌+◌, ◌-◌, ◌*◌, ◌/◌, ◌%◌, ◌^◌, Bool, false, not, ◌&&◌, ◌||◌, Option, none, some,
  List, [], ◌∷◌, ltb, ◌==◌, nat_Eq, if◌then◌else◌,
}
use dicer.Network.{Subnet}

abbrev pub u32 : ℕ → ℕ
u32 n = n % 4294967296

-- How many addresses the subnet has.
unfoldable pub size : Subnet → ℕ
size s = 2 ^ (32 - s.ones)

-- `incrementIP` of an IPv4 address.
unfoldable pub increment_ip : ℕ → ℕ → ℕ
increment_ip ip n = u32 (ip + n)

-- `1<<(bits-ones) - 2`: the offset of the address before the broadcast address.
unfoldable pub last_host : Subnet → ℕ
unfolding size
last_host s = size s - 2

-- A key of the map `used`.
unfoldable pub taken : List ℕ → ℕ → Bool
taken [] ip = false
taken (u ∷ used) ip = u == ip || taken used ip

-- The attempts at random: `draw i` is the i-th answer of `rand.IntN(lastHost)`.
unfoldable pub try_random : ℕ → ℕ → (ℕ → ℕ) → Subnet → List ℕ → Option ℕ
try_random zero i draw s used = none
try_random (suc left) i draw s used =
    let ip = increment_ip s.base (draw i + 1) in
    let rest = try_random left (i + 1) draw s used in if not (taken used ip) then some ip else rest

-- The scan of `left` offsets, from `offset` on.
unfoldable pub scan : ℕ → ℕ → Subnet → List ℕ → Option ℕ
scan zero offset s used = none
scan (suc left) offset s used =
    let ip = increment_ip s.base offset in
    let rest = scan left (offset + 1) s used in if not (taken used ip) then some ip else rest

unfoldable pub or_else : Option ℕ → Option ℕ → Option ℕ
or_else (some ip) other = some ip
or_else none other = other

-- `freeIP`; `none` is ErrNoAvailableIPs. A prefix of 31 or 32 has no host address.
unfoldable pub free_ip : Subnet → (ℕ → ℕ) → List ℕ → Option ℕ
unfolding or_else
free_ip s draw used =
    if ltb (32 - s.ones) 2
    then none
    else (let scanned = scan (last_host s) 1 s used in or_else (try_random 5 0 draw s used) scanned)

-- `ipNet.Contains`, for the base address that `net.ParseCIDR` masks.
unfoldable pub in_subnet : Subnet → ℕ → Bool
unfolding size
in_subnet s ip = ip / size s * size s == s.base

-- The base address with the bits outside the mask set.
unfoldable pub broadcast : Subnet → ℕ
unfolding size
broadcast s = s.base + (size s - 1)

-- `Assignable`.
unfoldable pub assignable : Subnet → ℕ → Bool
unfolding in_subnet broadcast
assignable s ip = in_subnet s ip && not (ip == s.base) && not (ip == broadcast s)

-- `randomMAC`, of the bytes that `crypto/rand` read.
unfoldable pub random_mac : List ℕ → List ℕ
random_mac [] = []
random_mac (b ∷ bytes) = bit_or (bit_and b 0xFE) 0x02 ∷ bytes
