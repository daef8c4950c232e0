-- ===== src/Float.antt =====
-- The type f64 of the language, as a parameter: its operations, and what IEEE 754 says of them.
-- A comparison with a NaN is false, so `leb x x` says that `x` is a number.
use interstellar_db.Base.{ℕ, ◌≤◌, ◌<◌, ◌^◌, ◌≡◌, Bool, true}

pub record F64 : Type 1 where
  pub Value : Type 0
  -- `a as f64` of a u32, and with it the literals 1.0 and 2.0.
  pub of_u32 : ℕ → Value
  -- `a as u32`, `a as u64` and `a as usize`: towards zero, and at a bound where it does not fit.
  pub as_u32 : Value → ℕ
  pub as_u64 : Value → ℕ
  pub neg : Value → Value
  pub add : Value → Value → Value
  pub sub : Value → Value → Value
  pub mul : Value → Value → Value
  pub div : Value → Value → Value
  pub round : Value → Value
  pub floor : Value → Value
  pub log2 : Value → Value
  pub clamp : Value → Value → Value → Value
  pub is_finite : Value → Bool
  pub leb : Value → Value → Bool
  pub ltb : Value → Value → Bool

module _ (f : F64) where
  open f use {Value, of_u32, as_u32, neg, add, mul, div, round, clamp, is_finite, leb, ltb}

  -- A comparison that holds is between numbers.
  -- Correctly rounded operations keep the order; those on equal operands and on integers are exact.
  pub record IsIeee : Type 0 where
    pub leb-number : (x y : Value) → leb x y ≡ true → (leb x x ≡ true) × (leb y y ≡ true)
    pub neg-leb : (x : Value) → ltb (of_u32 0) x ≡ true → leb (neg x) x ≡ true
    pub clamp_mono :
        (lo hi x y : Value)
        → leb lo hi ≡ true
        → leb x y ≡ true
        → leb (clamp x lo hi) (clamp y lo hi) ≡ true
    pub clamp-leb :
        (lo hi x : Value) → leb lo hi ≡ true → leb x x ≡ true → leb (clamp x lo hi) hi ≡ true
    pub add_mono :
        (x y z : Value) → is_finite z ≡ true → leb x y ≡ true → leb (add x z) (add y z) ≡ true
    pub div_mono :
        (x y z : Value)
        → is_finite z ≡ true
        → ltb (of_u32 0) z ≡ true
        → leb x y ≡ true
        → leb (div x z) (div y z) ≡ true
    pub mul_mono :
        (n : ℕ) (x y : Value)
        → n < 2 ^ 32
        → ltb (of_u32 0) (of_u32 n) ≡ true
        → leb x y ≡ true
        → leb (mul x (of_u32 n)) (mul y (of_u32 n)) ≡ true
    pub round_mono : (x y : Value) → leb x y ≡ true → leb (round x) (round y) ≡ true
    pub as_u32_mono : (x y : Value) → leb x y ≡ true → as_u32 x ≤ as_u32 y
    pub add_self : (x : Value) → is_finite x ≡ true → add x x ≡ mul (of_u32 2) x
    pub double-pos :
        (x : Value) → ltb (of_u32 0) x ≡ true → ltb (of_u32 0) (mul (of_u32 2) x) ≡ true
    pub div_self : (x : Value) → is_finite x ≡ true → ltb (of_u32 0) x ≡ true → div x x ≡ of_u32 1
    pub one-mul : (n : ℕ) → n < 2 ^ 32 → mul (of_u32 1) (of_u32 n) ≡ of_u32 n
    pub of_u32-pos : (n : ℕ) → 0 < n → n < 2 ^ 32 → ltb (of_u32 0) (of_u32 n) ≡ true
    pub round-of_u32 : (n : ℕ) → n < 2 ^ 32 → round (of_u32 n) ≡ of_u32 n
    pub as_u32-of_u32 : (n : ℕ) → n < 2 ^ 32 → as_u32 (of_u32 n) ≡ n
