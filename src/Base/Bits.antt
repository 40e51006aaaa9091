-- ===== src/Base/Bits.antt =====
-- Facts about bytes, by evaluation at every value, and `&` with a mask of low bits at every width.
use Prim.Native.Nat.{
  ℕ, zero, suc, ◌+◌, ◌-◌, ◌*◌, ◌/◌, ◌%◌, ◌^◌, ◌≤◌, ◌<◌, min, bit_and, digits, bit_and-bitwise,
}
use native.Mathlib.Nat.{
  pow-suc, one-le-pow, mul-add-mod_self_left, mod-eq_of_lt, div-add-mod, mod-lt, zero-mod,
}
use mathlib.Core.Path.{◌≡◌, ap, sym, ◌∙◌}
use mathlib.Core.Bool.{Bool, true, false}
use native.Mathlib.Omega.{arith}
use service_call.Base.Tests.{if◌then◌else◌}

-- Whether a test holds of each of the first `bound` numbers.
unfoldable pub all_below : (bound : ℕ) → (test : ℕ → Bool) → Bool
all_below zero test = true
all_below (suc last) test = if test last then all_below last test else false

pub all_below-at :
    (bound : ℕ) (test : ℕ → Bool) (k : ℕ) → all_below bound test ≡ true → k < bound → test k ≡ true
unfolding all_below
all_below-at zero test k holds small = absurd (omega arith)
all_below-at (suc last) test k holds small = ground (arith, all_below-at last test k)

-- `&` by digits, with `n` rounds to go.
abbrev by_digits : ℕ → ℕ → ℕ → ℕ
by_digits n a b = digits (λ _. zero) min n a b

-- The lowest digit and the others, modulo a power of two.
mod_two_pow : (k a : ℕ) → (a / 2) % 2 ^ k * 2 + a % 2 ≡ a % 2 ^ suc k
mod_two_pow k a =
    let p = 2 ^ k in
    let pos = one-le-pow k 2 (omega arith) in
    let r = a / 2 % p * 2 + a % 2 in
    let small : r < 2 ^ suc k = omega (arith, pow-suc 2 k, mod-lt (a / 2) {m = p} pos) in
    let split : a ≡ 2 ^ suc k * (a / 2 / p) + r =
      omega (arith, ap (λ (t : ℕ). t * (a / 2 / p)) (pow-suc 2 k), div-add-mod (a / 2) p) in
    sym (
      ap (λ (t : ℕ). t % 2 ^ suc k) split
      ∙ mul-add-mod_self_left (2 ^ suc k) (a / 2 / p) r
      ∙ mod-eq_of_lt small)

mask_half : (k : ℕ) → ((2 ^ suc k - 1) / 2 ≡ 2 ^ k - 1) × ((2 ^ suc k - 1) % 2 ≡ 1)
mask_half k =
    let pos = one-le-pow k 2 (omega arith) in
    (omega (arith, pow-suc 2 k), omega (arith, pow-suc 2 k))

by_digits-mask : (n k a : ℕ) → a ≤ n → by_digits n a (2 ^ k - 1) ≡ a % 2 ^ k
by_digits-mask zero k zero h = sym (zero-mod (2 ^ k))
by_digits-mask zero k (suc a) h = absurd (omega arith)
by_digits-mask (suc n) k zero h = sym (zero-mod (2 ^ k))
by_digits-mask (suc n) zero (suc a) h =
    omega (arith, by_digits-mask n zero (suc a / 2) (omega arith))
by_digits-mask (suc n) (suc k) (suc a) h =
    let (half, odd) = mask_half k in
    rw (half, odd)
      (omega (arith, by_digits-mask n k (suc a / 2) (omega arith), mod_two_pow k (suc a)))

-- `a & (2^k - 1)` is the remainder by 2^k.
pub bit_and-mask : (k a : ℕ) → bit_and a (2 ^ k - 1) ≡ a % 2 ^ k
bit_and-mask k a = bit_and-bitwise a (2 ^ k - 1) ∙ by_digits-mask a k a (omega arith)
