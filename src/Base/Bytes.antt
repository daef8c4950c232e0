-- ===== src/Base/Bytes.antt =====
-- Byte arrays as lists: `to_be_bytes`, `from_be_bytes`, slices and the order of `[u8; n]`.
use Prim.Native.Nat.{ℕ, zero, suc, ◌+◌, ◌-◌, ◌*◌, ◌/◌, ◌%◌, ◌^◌, ◌<◌}
use mathlib.Core.Path.{◌≡◌, refl, ap, ◌∙◌}
use mathlib.Core.Logic.{◌⊎◌, inl, inr}
use mathlib.Core.Bool.{Bool, true, false}
use mathlib.Core.List.{List, [], ◌∷◌, ◌++◌}
use native.Mathlib.Nat.{
  pow-suc, one-le-pow, mod-lt, div-add-mod, mod-eq_of_lt, mul-add-mod_self_left,
}
use native.Mathlib.Omega.{arith}
use native.Mathlib.Decide.{dec_lt}
use interstellar_db.Base.Tests.{ltb, if◌then◌else◌}
use interstellar_db.Base.Lists.{length, take, drop, All}

-- `n.to_be_bytes()` of an unsigned integer of `w` bytes, the highest byte first.
unfoldable pub to_be_bytes : ℕ → ℕ → List ℕ
to_be_bytes zero n = []
to_be_bytes (suc w) n = (n / 256 ^ w % 256) ∷ to_be_bytes w n

from_be_acc : ℕ → List ℕ → ℕ
from_be_acc acc [] = acc
from_be_acc acc (b ∷ bs) = from_be_acc (acc * 256 + b) bs

-- `from_be_bytes`.
unfoldable pub from_be_bytes : List ℕ → ℕ
unfolding from_be_acc
from_be_bytes bs = from_be_acc 0 bs

-- `&bytes[lo..hi]`.
abbrev pub slice {ℓ} : {A : Type ℓ} → ℕ → ℕ → List A → List A
slice lo hi bs = take (hi - lo) (drop lo bs)

-- The order of byte slices, `a <= b`: byte by byte, and a proper prefix comes first.
unfoldable pub bytes_leb : List ℕ → List ℕ → Bool
bytes_leb [] ys = true
bytes_leb (x ∷ xs) [] = false
bytes_leb (x ∷ xs) (y ∷ ys) = if ltb x y then true else if ltb y x then false else bytes_leb xs ys

pub length-to_be_bytes : (w n : ℕ) → length (to_be_bytes w n) ≡ w
unfolding to_be_bytes
length-to_be_bytes zero n = refl
length-to_be_bytes (suc w) n = ap suc (length-to_be_bytes w n)

pub to_be_bytes-All : (w n : ℕ) → All (λ b. b < 256) (to_be_bytes w n)
unfolding to_be_bytes
to_be_bytes-All zero n = tt
to_be_bytes-All (suc w) n = (omega arith, to_be_bytes-All w n)

below_next : (q d r : ℕ) → d < 256 → r < q → d * q + r < q * 256
below_next q d r hd hr = grind arith

mod_low : (w n : ℕ) → n % 256 ^ w < 256 ^ w
mod_low w n = mod-lt n (one-le-pow w 256 (omega arith))

-- The low `w + 1` bytes are the low `w` and one more.
mod_next_byte : (q n : ℕ) → 0 < q → n % (q * 256) ≡ n / q % 256 * q + n % q
mod_next_byte q n h =
    let a : ℕ = n / q in
    let e : n ≡ q * 256 * (a / 256) + (a % 256 * q + n % q) =
      omega (arith, div-add-mod n q, ap (λ (t : ℕ). q * t) (div-add-mod a 256)) in
    let small : a % 256 * q + n % q < q * 256 =
      below_next q (a % 256) (n % q) (omega arith) (mod-lt n h) in
    ap (λ (t : ℕ). t % (q * 256)) e
    ∙ mul-add-mod_self_left (q * 256) (a / 256) (a % 256 * q + n % q)
    ∙ mod-eq_of_lt small

mod_byte_split : (w n : ℕ) → n % 256 ^ suc w ≡ n / 256 ^ w % 256 * 256 ^ w + n % 256 ^ w
mod_byte_split w n =
    ap (λ (t : ℕ). n % t) (pow-suc 256 w)
    ∙ mod_next_byte (256 ^ w) n (one-le-pow w 256 (omega arith))

from_be_acc-to_be_bytes :
    (w acc n : ℕ) → from_be_acc acc (to_be_bytes w n) ≡ acc * 256 ^ w + n % 256 ^ w
unfolding from_be_acc to_be_bytes
from_be_acc-to_be_bytes zero acc n = omega arith
from_be_acc-to_be_bytes (suc w) acc n = omega (
  arith,
  mod_byte_split w n,
  ap (λ (t : ℕ). acc * t) (pow-suc 256 w),
  from_be_acc-to_be_bytes w (acc * 256 + n / 256 ^ w % 256) n,
)

-- Reading back what was written.
pub from_be_bytes-to_be_bytes : (w n : ℕ) → n < 256 ^ w → from_be_bytes (to_be_bytes w n) ≡ n
unfolding from_be_bytes
from_be_bytes-to_be_bytes w n h = omega (arith, from_be_acc-to_be_bytes w 0 n, mod-eq_of_lt h)

-- Digits before a common base compare first.
digit_lt : (q x r y s : ℕ) → r < q → s < q → x * q + r < y * q + s → (x < y) ⊎ ((x ≡ y) × (r < s))
digit_lt q x r y s p p' h = elim (dec_lt x y) [
  | yes lt ↦ inl lt
  | no ge ↦ elim (dec_lt y x) [
    | yes gt ↦ absurd (grind arith)
    | no le ↦ let e : x ≡ y = omega arith in inr (e, omega (arith, ap (λ (t : ℕ). t * q) e))
  ]
]

digit_eq : (q x r y s : ℕ) → r < q → s < q → x * q + r ≡ y * q + s → (x ≡ y) × (r ≡ s)
digit_eq q x r y s p p' h = elim (dec_lt x y) [
  | yes lt ↦ absurd (grind arith)
  | no ge ↦ elim (dec_lt y x) [
    | yes gt ↦ absurd (grind arith)
    | no le ↦ let e : x ≡ y = omega arith in (e, omega (arith, ap (λ (t : ℕ). t * q) e))
  ]
]

module _ (xs ys : List ℕ) where
  -- A number at the head of both sides decides the order, unless it is the same on both.
  bytes_leb-head_eq :
      (w a b : ℕ)
      → a % 256 ^ w ≡ b % 256 ^ w
      → bytes_leb (to_be_bytes w a ++ xs) (to_be_bytes w b ++ ys) ≡ bytes_leb xs ys
  unfolding to_be_bytes bytes_leb
  bytes_leb-head_eq zero a b h = refl
  bytes_leb-head_eq (suc w) a b h = ground (
    arith,
    digit_eq (256 ^ w) (a / 256 ^ w % 256) (a % 256 ^ w) (b / 256 ^ w % 256) (b % 256 ^ w),
    mod_byte_split w a,
    mod_byte_split w b,
    mod_low w a,
    mod_low w b,
    bytes_leb-head_eq w a b,
  )

  bytes_leb-head_lt :
      (w a b : ℕ)
      → a % 256 ^ w < b % 256 ^ w
      → (bytes_leb (to_be_bytes w a ++ xs) (to_be_bytes w b ++ ys) ≡ true)
        × (bytes_leb (to_be_bytes w b ++ ys) (to_be_bytes w a ++ xs) ≡ false)
  unfolding to_be_bytes bytes_leb
  bytes_leb-head_lt zero a b h = absurd (omega arith)
  bytes_leb-head_lt (suc w) a b h = ground (
    arith,
    digit_lt (256 ^ w) (a / 256 ^ w % 256) (a % 256 ^ w) (b / 256 ^ w % 256) (b % 256 ^ w),
    mod_byte_split w a,
    mod_byte_split w b,
    mod_low w a,
    mod_low w b,
    bytes_leb-head_lt w a b,
  )

pub bytes_leb-to_be_bytes :
    (w a b : ℕ) (xs ys : List ℕ)
    → a < 256 ^ w
    → b < 256 ^ w
    → bytes_leb (to_be_bytes w a ++ xs) (to_be_bytes w b ++ ys)
      ≡ (if ltb a b then true else if ltb b a then false else bytes_leb xs ys)
bytes_leb-to_be_bytes w a b xs ys ha hb =
    let ea : a % 256 ^ w ≡ a = mod-eq_of_lt ha in
    let eb : b % 256 ^ w ≡ b = mod-eq_of_lt hb in
    elim (dec_lt a b) [
      | yes lt ↦ ground (arith, bytes_leb-head_lt xs ys w a b (omega (arith, ea, eb)))
      | no ge ↦ elim (dec_lt b a) [
        | yes gt ↦ ground (arith, bytes_leb-head_lt ys xs w b a (omega (arith, ea, eb)))
        | no le ↦ ground (arith, bytes_leb-head_eq xs ys w a b (omega (arith, ea, eb)))
      ]
    ]
