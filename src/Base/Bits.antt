-- ===== src/Base/Bits.antt =====
-- `bit_and` against a mask of leading ones, at every width.
use Prim.Native.Nat.{
  ℕ, zero, suc, ◌+◌, ◌-◌, ◌*◌, ◌/◌, ◌%◌, ◌^◌, ◌≤◌, ◌<◌, min, bit_and, digits, bit_and-bitwise,
}
use mathlib.Core.Path.{◌≡◌, refl, sym, ◌∙◌, ap}
use native.Mathlib.Nat.{
  pow-suc, mul_comm, div-div-eq-div-mul, div-lt_iff_lt-mul, mul-div_cancel, one-le-pow,
}
use mathlib.Core.Bool.{Bool, true, ◌&&◌}
use mathlib.Core.Logic.{◌↔◌}
use native.Mathlib.Omega.{arith}
use moghtech_lib.Base.Tests.{◌==◌, ==_iff}

-- The digits do not depend on how many rounds are allowed, from the number's own size on.
stable : (r a b : ℕ) → a ≤ r → digits (λ y. zero) min r a b ≡ digits (λ y. zero) min a a b
stable r a b h = go r a a b h (omega arith)
  where
    go : (r s a b : ℕ) → a ≤ r → a ≤ s → digits (λ y. zero) min r a b ≡ digits (λ y. zero) min s a b
    go zero zero a b h k = refl
    go zero (suc s) zero b h k = refl
    go (suc r) zero zero b h k = refl
    go (suc r) (suc s) zero b h k = refl
    go (suc r) (suc s) (suc a) b h k =
        omega (arith, go r s (suc a / 2) (b / 2) (omega arith) (omega arith))
    go zero s (suc a) b h k = absurd (omega arith)
    go (suc r) zero (suc a) b h k = absurd (omega arith)

zero-bit_and : (b : ℕ) → bit_and 0 b ≡ 0
zero-bit_and b = bit_and-bitwise 0 b

by_digit : (a b : ℕ) → bit_and a b ≡ bit_and (a / 2) (b / 2) * 2 + min (a % 2) (b % 2)
by_digit zero b = omega (arith, zero-bit_and (b / 2), zero-bit_and b)
by_digit (suc a) b = omega (
  arith,
  stable a (suc a / 2) (b / 2) (omega arith),
  bit_and-bitwise (suc a / 2) (b / 2),
  bit_and-bitwise (suc a) b,
)

shift_step :
    (p a b : ℕ)
    → bit_and (a / 2) (b * p) ≡ bit_and (a / 2 / p) b * p
    → bit_and a (b * (p * 2)) ≡ bit_and (a / (2 * p)) b * (p * 2)
shift_step p a b ih =
    let halved : b * (p * 2) / 2 ≡ b * p = omega arith in
    omega (
      arith,
      by_digit a (b * (p * 2)),
      ap (bit_and (a / 2)) halved,
      ih,
      ap (λ q. bit_and q b * p) (div-div-eq-div-mul a 2 p),
    )

-- A mask shifted by k keeps nothing of the k lowest digits.
pub bit_and-shifted : (k a b : ℕ) → bit_and a (b * 2 ^ k) ≡ bit_and (a / 2 ^ k) b * 2 ^ k
bit_and-shifted zero a b =
    let whole : a / 2 ^ 0 ≡ a = omega arith in
    let same : b * 2 ^ 0 ≡ b = omega arith in rw (whole, same) (omega arith)
bit_and-shifted (suc k) a b = rw (pow-suc 2 k) (
    shift_step (2 ^ k) a b (bit_and-shifted k (a / 2) b)
    ∙ ap (λ p. bit_and (a / p) b * (2 ^ k * 2)) (mul_comm 2 (2 ^ k)))

bit_and-zero : (k q : ℕ) → q < 2 ^ k → bit_and q 0 ≡ 0
bit_and-zero zero q h = let e : q ≡ 0 = omega arith in rw e (zero-bit_and 0)
bit_and-zero (suc k) q h =
    omega (arith, pow-suc 2 k, by_digit q 0, bit_and-zero k (q / 2) (omega (arith, pow-suc 2 k)))

-- A mask of ones keeps the digits under it.
pub bit_and-ones : (n q : ℕ) → q < 2 ^ n → bit_and q (2 ^ n - 1) ≡ q
bit_and-ones zero q h = let e : q ≡ 0 = omega arith in rw e (zero-bit_and 0)
bit_and-ones (suc n) q h =
    let half : (2 ^ suc n - 1) / 2 ≡ 2 ^ n - 1 = omega (arith, pow-suc 2 n) in
    let odd : (2 ^ suc n - 1) % 2 ≡ 1 = omega (arith, pow-suc 2 n, one-le-pow n 2 (omega arith)) in
    omega (
      arith,
      by_digit q (2 ^ suc n - 1),
      ap (bit_and (q / 2)) half,
      bit_and-ones n (q / 2) (omega (arith, pow-suc 2 n)),
      odd,
    )

-- A test of each number below a bound, by evaluation.
unfoldable pub holds_below : (ℕ → Bool) → ℕ → Bool
holds_below test zero = true
holds_below test (suc bound) = holds_below test bound && test bound

pub holds_below_at :
    (test : ℕ → Bool) (bound i : ℕ) → i < bound → holds_below test bound ≡ true → test i ≡ true
unfolding holds_below
holds_below_at test zero i lt h = absurd (omega arith)
holds_below_at test (suc bound) i lt h = ground (arith, holds_below_at test bound i)

-- The prefixes of a 128-bit word, each against its mask.
unfoldable pub prefix_mask : ℕ → ℕ
prefix_mask len = (2 ^ len - 1) * 2 ^ (128 - len)

prefix_table : holds_below (λ len. 2 ^ len * 2 ^ (128 - len) == 2 ^ 128) 129 ≡ true
unfolding holds_below
prefix_table = refl

pub bit_and-prefix_mask :
    (len x : ℕ)
    → len ≤ 128
    → x < 2 ^ 128
    → bit_and x (prefix_mask len) ≡ x / 2 ^ (128 - len) * 2 ^ (128 - len)
unfolding prefix_mask
bit_and-prefix_mask len x h lt =
    let whole : 2 ^ len * 2 ^ (128 - len) ≡ 2 ^ 128 =
      (==_iff _ _).0 (holds_below_at _ 129 len (omega arith) prefix_table) in
    let under : x / 2 ^ (128 - len) < 2 ^ len =
      (div-lt_iff_lt-mul (one-le-pow (128 - len) 2 (omega arith))).1 (rw whole lt) in
    bit_and-shifted (128 - len) x (2 ^ len - 1)
    ∙ ap (λ q. q * 2 ^ (128 - len)) (bit_and-ones len (x / 2 ^ (128 - len)) under)

-- Two blocks are the same exactly if they start at the same place.
pub block_iff : (k x y : ℕ) → (x / 2 ^ k * 2 ^ k ≡ y / 2 ^ k * 2 ^ k) ↔ (x / 2 ^ k ≡ y / 2 ^ k)
block_iff k x y = (
  λ e.
      sym (mul-div_cancel (x / 2 ^ k) (one-le-pow k 2 (omega arith)))
      ∙ ap (λ z. z / 2 ^ k) e
      ∙ mul-div_cancel (y / 2 ^ k) (one-le-pow k 2 (omega arith)),
  λ e. ap (λ z. z * 2 ^ k) e,
)
