-- ===== src/Net.antt =====
-- The addresses of `std::net`, as the numbers of their bits.
use Prim.Native.Nat.{ℕ, ◌/◌, ◌%◌, ◌^◌}
use moghtech_lib.Base.{◌≡◌, refl, Bool, true, false, ◌==◌, if◌then◌else◌, ◌↔◌, arith, ◌<◌}
use moghtech_lib.Base.Table.{Eq}

pub data IpAddr : Type 0 where
  v4 : ℕ → IpAddr
  v6 : ℕ → IpAddr

-- `IpAddr::to_canonical`: an IPv4-mapped IPv6 address, within `::ffff:0:0/96`, as its IPv4 form.
unfoldable pub to_canonical : IpAddr → IpAddr
to_canonical (v4 bits) = v4 bits
to_canonical (v6 bits) = if bits / 2 ^ 32 == 0xffff then v4 (bits % 2 ^ 32) else v6 bits

abbrev pub ip_eq : IpAddr → IpAddr → Bool
ip_eq (v4 a) (v4 b) = a == b
ip_eq (v6 a) (v6 b) = a == b
ip_eq (v4 a) (v6 b) = false
ip_eq (v6 a) (v4 b) = false

pub ip_eq_iff : (a b : IpAddr) → (ip_eq a b ≡ true) ↔ (a ≡ b)
ip_eq_iff (v4 a) (v4 b) = ground arith
ip_eq_iff (v6 a) (v6 b) = ground arith
ip_eq_iff (v4 a) (v6 b) = ground arith
ip_eq_iff (v6 a) (v4 b) = ground arith

instance abbrev pub ip_addr_eq : Eq IpAddr
ip_addr_eq = record { beq = ip_eq; beq_iff = ip_eq_iff }

abbrev pub IsIp : IpAddr → Type 0
IsIp (v4 bits) = bits < 2 ^ 32
IsIp (v6 bits) = bits < 2 ^ 128

pub to_canonical-IsIp : (ip : IpAddr) → IsIp ip → IsIp (to_canonical ip)
unfolding to_canonical
to_canonical-IsIp (v4 bits) h = h
to_canonical-IsIp (v6 bits) h = ground arith

pub to_canonical_idem : (ip : IpAddr) → to_canonical (to_canonical ip) ≡ to_canonical ip
unfolding to_canonical
to_canonical_idem (v4 bits) = refl
to_canonical_idem (v6 bits) = ground arith
