-- ===== src/Base/Digits.antt =====
-- Binary digits as arithmetic: powers of two, and a number's digit at a place.
use Prim.Native.Nat.{
  ℕ, zero, suc, ◌+◌, ◌-◌, ◌*◌, ◌/◌, ◌%◌, ◌^◌, ◌≤◌, ◌<◌, min, bit_and, bit_and-bitwise, digits,
}
use mathlib.Core.Path.{◌≡◌, refl, sym, ap, ap₂, ◌∙◌}
use native.Mathlib.Nat.{
  pow-suc, pow-le-pow_right, one-le-pow, mod-lt, mod-eq_of_lt, div-add-mod, mul-add-mod_self_left,
  mul-add-div, div-div-eq-div-mul,
}
use native.Mathlib.Omega.{arith}

pub two_pow_pos : (k : ℕ) → 0 < 2 ^ k
two_pow_pos k = one-le-pow k 2 (omega arith)

pub two_pow_add : (a b : ℕ) → 2 ^ (a + b) ≡ 2 ^ a * 2 ^ b
two_pow_add zero b = ground arith
two_pow_add (suc a) b =
    let e : suc a + b ≡ suc (a + b) = omega arith in
    rw (e, pow-suc 2 (a + b), pow-suc 2 a, two_pow_add a b) (grind arith)

pub two_pow_le : (a b : ℕ) → a ≤ b → 2 ^ a ≤ 2 ^ b
two_pow_le a b h = pow-le-pow_right (omega arith) h

pub eight_pow-suc : (n : ℕ) → 2 ^ (3 * suc n) ≡ 8 * 2 ^ (3 * n)
eight_pow-suc n = let e : 3 * suc n ≡ 3 + 3 * n = omega arith in rw e (two_pow_add 3 (3 * n))

below_next : (q c d r : ℕ) → d < c → r < q → d * q + r < q * c
below_next q c d r hd hr = grind arith

-- The digits of a number below a place, and from there up.
pub div_high : (k d r : ℕ) → r < 2 ^ k → (2 ^ k * d + r) / 2 ^ k ≡ d
div_high k d r h = grind (arith, two_pow_pos k)

pub mod_next_digit : (q c n : ℕ) → 0 < q → 0 < c → n % (q * c) ≡ n / q % c * q + n % q
mod_next_digit q c n h hc =
    let a : ℕ = n / q in
    let e : n ≡ q * c * (a / c) + (a % c * q + n % q) =
      omega (arith, div-add-mod n q, ap (λ (t : ℕ). q * t) (div-add-mod a c)) in
    let small : a % c * q + n % q < q * c =
      below_next q c (a % c) (n % q) (mod-lt a hc) (mod-lt n h) in
    ap (λ (t : ℕ). t % (q * c)) e
    ∙ mul-add-mod_self_left (q * c) (a / c) (a % c * q + n % q)
    ∙ mod-eq_of_lt small

-- The digit of a number at place `i`, as the source tests it: `(x >> i) & 1`.
abbrev pub digit : ℕ → ℕ → ℕ
digit x i = x / 2 ^ i % 2

pub mod_two_pow-suc : (x n : ℕ) → x % 2 ^ suc n ≡ digit x n * 2 ^ n + x % 2 ^ n
mod_two_pow-suc x n =
    ap (λ (t : ℕ). x % t) (pow-suc 2 n) ∙ mod_next_digit (2 ^ n) 2 x (two_pow_pos n) (omega arith)

double : (u n : ℕ) → u ≡ 2 ^ n → 2 ^ suc n ≡ 2 * u
double u n h = omega (arith, pow-suc 2 n)

-- What stands from place `k` up leaves the digits below it alone.
pub digit-low : (j k d r : ℕ) → j < k → digit (2 ^ k * d + r) j ≡ digit r j
digit-low j k d r h =
    let u : ℕ = 2 ^ (k - j - 1) in
    let above : k ≡ j + suc (k - j - 1) = omega arith in
    let split : 2 ^ k ≡ 2 ^ j * (2 * u) =
      ap (λ (t : ℕ). 2 ^ t) above
      ∙ two_pow_add j (suc (k - j - 1))
      ∙ ap (λ (t : ℕ). 2 ^ j * t) (double u (k - j - 1) refl) in
    let e : 2 ^ k * d + r ≡ 2 ^ j * (2 * (u * d)) + r =
      omega (arith, ap (λ (t : ℕ). t * d) split) in
    let q : (2 ^ k * d + r) / 2 ^ j ≡ 2 * (u * d) + r / 2 ^ j =
      ap (λ (t : ℕ). t / 2 ^ j) e ∙ mul-add-div (two_pow_pos j) (2 * (u * d)) r in
    omega (arith, q)

pub digit-div : (x j i : ℕ) → digit (x / 2 ^ j) i ≡ digit x (j + i)
digit-div x j i =
    rw (two_pow_add j i) (ap (λ (t : ℕ). t % 2) (div-div-eq-div-mul x (2 ^ j) (2 ^ i)))

and_zero : (n a : ℕ) → digits (λ b. 0) min n a 0 ≡ 0
and_zero zero a = refl
and_zero (suc n) zero = refl
and_zero (suc n) (suc a) = omega (arith, and_zero n (suc a / 2))

pub bit_and-one : (a : ℕ) → bit_and a 1 ≡ a % 2
bit_and-one zero = refl
bit_and-one (suc a) = simp bit_and-bitwise (omega (arith, and_zero a (suc a / 2)))

-- Numbers of `n` digits with the same digits are the same.
low_digits_ext : (n x y : ℕ) → ((i : ℕ) → i < n → digit x i ≡ digit y i) → x % 2 ^ n ≡ y % 2 ^ n
low_digits_ext zero x y h = omega arith
low_digits_ext (suc n) x y h =
    mod_two_pow-suc x n
    ∙ ap₂ (λ (d r : ℕ). d * 2 ^ n + r) (h n (omega arith))
        (low_digits_ext n x y (λ i l. h i (omega arith)))
    ∙ sym (mod_two_pow-suc y n)

pub digits_ext :
    (n x y : ℕ) → x < 2 ^ n → y < 2 ^ n → ((i : ℕ) → i < n → digit x i ≡ digit y i) → x ≡ y
digits_ext n x y hx hy h = sym (mod-eq_of_lt hx) ∙ low_digits_ext n x y h ∙ mod-eq_of_lt hy
