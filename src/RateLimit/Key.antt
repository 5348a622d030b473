-- ===== src/RateLimit/Key.antt =====
-- crates/rate_limit/src/lib.rs: which addresses share a budget.
use Prim.Native.Nat.{bit_and}
use moghtech_lib.Base.{
  ℕ, ◌-◌, ◌*◌, ◌/◌, ◌%◌, ◌^◌, ◌≤◌, ◌<◌, ◌≡◌, refl, ap, ◌∙◌, ◌↔◌, ◌==◌, ==_iff, true, Option, none,
  some, arith, ltb, if◌then◌else◌,
}
use moghtech_lib.Base.Bits.{
  holds_below, holds_below_at, prefix_mask, bit_and-prefix_mask, block_iff,
}
use moghtech_lib.Net.{IpAddr, v4, v6, to_canonical, IsIp, to_canonical-IsIp}
use moghtech_lib.RateLimit.Attempts.{RateLimiter}

-- `u128::checked_shl`
abbrev checked_shl : ℕ → ℕ → Option ℕ
checked_shl a k = if ltb k 128 then some (a * 2 ^ k % 2 ^ 128) else none

abbrev unwrap_or : Option ℕ → ℕ → ℕ
unwrap_or none d = d
unwrap_or (some a) d = a

mask : ℕ → ℕ
mask len = unwrap_or (checked_shl (2 ^ 128 - 1) (128 - len)) 0

key_of : RateLimiter → IpAddr → IpAddr
unfolding mask
key_of l (v4 bits) = v4 bits
key_of l (v6 bits) = v6 (bit_and bits (mask l.ipv6_prefix_len))

unfoldable pub key : RateLimiter → IpAddr → IpAddr
unfolding key_of
key l ip = key_of l (to_canonical ip)

-- The same client: one IPv4 address, or one block of the configured size.
abbrev pub SameClient : ℕ → IpAddr → IpAddr → Type 0
SameClient len (v4 a) (v4 b) = a ≡ b
SameClient len (v6 a) (v6 b) = a / 2 ^ (128 - len) ≡ b / 2 ^ (128 - len)
SameClient len (v4 a) (v6 b) = ⊥
SameClient len (v6 a) (v4 b) = ⊥

mask_table : holds_below (λ len. mask len == prefix_mask len) 129 ≡ true
unfolding holds_below mask prefix_mask
mask_table = refl

mask_lem : (len : ℕ) → len ≤ 128 → mask len ≡ prefix_mask len
mask_lem len h = (==_iff _ _).0 (holds_below_at _ 129 len (omega arith) mask_table)

key_of-v6 :
    (l : RateLimiter) (bits : ℕ)
    → l.ipv6_prefix_len ≤ 128
    → bits < 2 ^ 128
    → key_of l (v6 bits) ≡ v6 (bits / 2 ^ (128 - l.ipv6_prefix_len) * 2 ^ (128 - l.ipv6_prefix_len))
unfolding key_of
key_of-v6 l bits h lt = ap v6 (
    ap (bit_and bits) (mask_lem l.ipv6_prefix_len h)
    ∙ bit_and-prefix_mask l.ipv6_prefix_len bits h lt)

key_of_iff :
    (l : RateLimiter) (a b : IpAddr)
    → l.ipv6_prefix_len ≤ 128
    → IsIp a
    → IsIp b
    → (key_of l a ≡ key_of l b) ↔ SameClient l.ipv6_prefix_len a b
key_of_iff l (v4 a) (v4 b) h p q = unfold key_of in ground arith
key_of_iff l (v4 a) (v6 b) h p q = unfold key_of in ground arith
key_of_iff l (v6 a) (v4 b) h p q = unfold key_of in ground arith
key_of_iff l (v6 a) (v6 b) h p q =
    rw (key_of-v6 l a h p, key_of-v6 l b h q)
      (ground (arith, block_iff (128 - l.ipv6_prefix_len) a b))

-- Attempts from two addresses count under the same key exactly if their canonical forms are the
-- same IPv4 address, or IPv6 addresses that share the configured number of leading bits (which the
-- builder holds to 128).
pub key_iff :
    (l : RateLimiter) (a b : IpAddr)
    → l.ipv6_prefix_len ≤ 128
    → IsIp a
    → IsIp b
    → (key l a ≡ key l b) ↔ SameClient l.ipv6_prefix_len (to_canonical a) (to_canonical b)
unfolding key
key_iff l a b h p q =
    key_of_iff l (to_canonical a) (to_canonical b) h (to_canonical-IsIp a p) (to_canonical-IsIp b q)
