-- ===== src/Base/Bits.antt =====
-- Laws of `|` and `^` at variables, from the recursion on binary digits that they stand for.
use Prim.Native.Nat.{
  ℕ, zero, suc, ◌+◌, ◌*◌, ◌/◌, ◌%◌, ◌^◌, ◌≤◌, ◌<◌, max, differ, digits, bitwise, bit_or, bit_xor,
  bit_or-bitwise, bit_xor-bitwise,
}
use mathlib.Core.Path.{◌≡◌, refl, ap, ◌∙◌}
use native.Mathlib.Nat.{pow-suc}
use native.Mathlib.Omega.{arith}
use interstellar_db.Base.Order.{halving_induction}

-- Any count of digits that reaches the end of the first number gives the same.
digits_enough :
    (f : ℕ → ℕ → ℕ) (n m a b : ℕ)
    → a ≤ n
    → a ≤ m
    → digits (λ y. y) f n a b ≡ digits (λ y. y) f m a b
digits_enough f zero zero zero b p q = refl
digits_enough f zero (suc m) zero b p q = refl
digits_enough f (suc n) zero zero b p q = refl
digits_enough f (suc n) (suc m) zero b p q = refl
digits_enough f n zero (suc a) b p q = absurd (omega arith)
digits_enough f zero (suc m) (suc a) b p q = absurd (omega arith)
digits_enough f (suc n) (suc m) (suc a) b p q =
    rw (digits_enough f n m (suc a / 2) (b / 2) (omega arith) (omega arith))

bitwise_digit :
    (f : ℕ → ℕ → ℕ) (a b : ℕ)
    → bitwise (λ y. y) f (suc a) b
      ≡ bitwise (λ y. y) f (suc a / 2) (b / 2) * 2 + f (suc a % 2) (b % 2)
bitwise_digit f a b =
    rw (digits_enough f a (suc a / 2) (suc a / 2) (b / 2) (omega arith) (omega arith))

pub zero-bit_or : (b : ℕ) → bit_or 0 b ≡ b
zero-bit_or b = bit_or-bitwise 0 b

pub zero-bit_xor : (b : ℕ) → bit_xor 0 b ≡ b
zero-bit_xor b = bit_xor-bitwise 0 b

differ_digit : (x y : ℕ) → x < 2 → y < 2 → differ x y ≡ (x + y) % 2
differ_digit zero zero p q = refl
differ_digit zero (suc zero) p q = refl
differ_digit (suc zero) zero p q = refl
differ_digit (suc zero) (suc zero) p q = refl
differ_digit zero (suc (suc y)) p q = absurd (omega arith)
differ_digit (suc zero) (suc (suc y)) p q = absurd (omega arith)
differ_digit (suc (suc x)) y p q = absurd (omega arith)

-- The lowest digit of an or and of an exclusive or, and the rest.
pub bit_or_digit : (a b : ℕ) → bit_or a b ≡ bit_or (a / 2) (b / 2) * 2 + max (a % 2) (b % 2)
bit_or_digit zero b = omega (arith, zero-bit_or b, zero-bit_or (b / 2))
bit_or_digit (suc a) b = simp bit_or-bitwise (bitwise_digit max a b)

pub bit_xor_digit : (a b : ℕ) → bit_xor a b ≡ bit_xor (a / 2) (b / 2) * 2 + (a + b) % 2
bit_xor_digit zero b = omega (arith, zero-bit_xor b, zero-bit_xor (b / 2))
bit_xor_digit (suc a) b = simp bit_xor-bitwise (
    omega (
      arith,
      bitwise_digit differ a b,
      differ_digit (suc a % 2) (b % 2) (omega arith) (omega arith),
    ))

bit_or-zero : (a : ℕ) → bit_or a 0 ≡ a
bit_or-zero =
    halving_induction (λ n. bit_or n 0 ≡ n) refl λ n ih. omega (arith, ih, bit_or_digit (suc n) 0)

pub bit_xor-zero : (a : ℕ) → bit_xor a 0 ≡ a
bit_xor-zero =
    halving_induction (λ n. bit_xor n 0 ≡ n) refl λ n ih. omega (arith, ih, bit_xor_digit (suc n) 0)

pub bit_or_comm : (a b : ℕ) → bit_or a b ≡ bit_or b a
bit_or_comm =
    halving_induction (λ n. (b : ℕ) → bit_or n b ≡ bit_or b n)
      (λ b. omega (arith, zero-bit_or b, bit_or-zero b))
      λ n ih b. omega (arith, ih (b / 2), bit_or_digit (suc n) b, bit_or_digit b (suc n))

pub bit_xor_comm : (a b : ℕ) → bit_xor a b ≡ bit_xor b a
bit_xor_comm =
    halving_induction (λ n. (b : ℕ) → bit_xor n b ≡ bit_xor b n)
      (λ b. omega (arith, zero-bit_xor b, bit_xor-zero b))
      λ n ih b. omega (arith, ih (b / 2), bit_xor_digit (suc n) b, bit_xor_digit b (suc n))

bit_xor_regroup :
    (a b c : ℕ)
    → bit_xor (bit_xor (a / 2) (b / 2)) (c / 2) ≡ bit_xor (a / 2) (bit_xor (b / 2) (c / 2))
    → bit_xor (bit_xor a b) c ≡ bit_xor a (bit_xor b c)
bit_xor_regroup a b c ih =
    let left : bit_xor a b / 2 ≡ bit_xor (a / 2) (b / 2) = omega (arith, bit_xor_digit a b) in
    let right : bit_xor b c / 2 ≡ bit_xor (b / 2) (c / 2) = omega (arith, bit_xor_digit b c) in
    let outer : bit_xor (bit_xor a b / 2) (c / 2) ≡ bit_xor (a / 2) (bit_xor b c / 2) =
      rw (left, right) ih in
    omega (
      arith,
      outer,
      bit_xor_digit a b,
      bit_xor_digit b c,
      bit_xor_digit (bit_xor a b) c,
      bit_xor_digit a (bit_xor b c),
    )

pub bit_xor_assoc : (a b c : ℕ) → bit_xor (bit_xor a b) c ≡ bit_xor a (bit_xor b c)
bit_xor_assoc =
    halving_induction (λ n. (b c : ℕ) → bit_xor (bit_xor n b) c ≡ bit_xor n (bit_xor b c))
      (λ b c. rw (zero-bit_xor b, zero-bit_xor (bit_xor b c)))
      λ n ih b c. bit_xor_regroup (suc n) b c (ih (b / 2) (c / 2))

-- The exclusive or is its own inverse.
pub bit_xor_self : (a : ℕ) → bit_xor a a ≡ 0
bit_xor_self =
    halving_induction (λ n. bit_xor n n ≡ 0) refl
      λ n ih. omega (arith, ih, bit_xor_digit (suc n) (suc n))

pub bit_xor-lt : (k a b : ℕ) → a < 2 ^ k → b < 2 ^ k → bit_xor a b < 2 ^ k
bit_xor-lt zero a b p q = ground (arith, zero-bit_xor b)
bit_xor-lt (suc k) a b p q = omega (
  arith,
  pow-suc 2 k,
  bit_xor_digit a b,
  bit_xor-lt k (a / 2) (b / 2) (omega (arith, pow-suc 2 k)) (omega (arith, pow-suc 2 k)),
)

double_shift : (q k : ℕ) → q * 2 ^ suc k ≡ 2 * (q * 2 ^ k)
double_shift q k = omega (arith, ap (λ (t : ℕ). q * t) (pow-suc 2 k))

-- `(q << k) | r` is a sum where `r` has `k` digits.
pub shift-bit_or : (k q r : ℕ) → r < 2 ^ k → bit_or (q * 2 ^ k) r ≡ q * 2 ^ k + r
shift-bit_or zero q r h = ground (arith, bit_or-zero q)
shift-bit_or (suc k) q r h = ground (
  arith,
  pow-suc 2 k,
  double_shift q k,
  bit_or_digit (q * 2 ^ suc k) r,
  shift-bit_or k q (r / 2) (omega (arith, pow-suc 2 k)),
)

pub bit_or-shift : (k q r : ℕ) → r < 2 ^ k → bit_or r (q * 2 ^ k) ≡ q * 2 ^ k + r
bit_or-shift k q r h = bit_or_comm r (q * 2 ^ k) ∙ shift-bit_or k q r h

-- Digits from place `k` up are joined apart from those below.
pub bit_or-high :
    (k a b r : ℕ) → r < 2 ^ k → bit_or (2 ^ k * a + r) (2 ^ k * b) ≡ 2 ^ k * bit_or a b + r
bit_or-high zero a b r h =
    let e : 1 * a + r ≡ a = omega arith in
    let e' : 1 * b ≡ b = omega arith in rw (e, e') (omega arith)
bit_or-high (suc k) a b r h =
    let p : 2 ^ suc k * a ≡ 2 * (2 ^ k * a) = omega (arith, ap (λ (t : ℕ). t * a) (pow-suc 2 k)) in
    let q : 2 ^ suc k * b ≡ 2 * (2 ^ k * b) = omega (arith, ap (λ (t : ℕ). t * b) (pow-suc 2 k)) in
    let o : 2 ^ suc k * bit_or a b ≡ 2 * (2 ^ k * bit_or a b) =
      omega (arith, ap (λ (t : ℕ). t * bit_or a b) (pow-suc 2 k)) in
    let half : (2 ^ suc k * a + r) / 2 ≡ 2 ^ k * a + r / 2 = omega (arith, p) in
    let half' : 2 ^ suc k * b / 2 ≡ 2 ^ k * b = omega (arith, q) in
    let rest : bit_or ((2 ^ suc k * a + r) / 2) (2 ^ suc k * b / 2) ≡ 2 ^ k * bit_or a b + r / 2 =
      rw (half, half') (bit_or-high k a b (r / 2) (omega (arith, pow-suc 2 k))) in
    omega (arith, rest, p, q, o, bit_or_digit (2 ^ suc k * a + r) (2 ^ suc k * b))
