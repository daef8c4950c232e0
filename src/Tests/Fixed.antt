-- ===== src/Tests/Fixed.antt =====
-- A float type for examples: numbers from 0 up, with 21 binary places, that saturate at 0. The laws
-- of `IsIeee` hold of it.
use interstellar_db.Base.{
  ℕ, zero, suc, ◌+◌, ◌-◌, ◌*◌, ◌/◌, ◌^◌, ◌≤◌, ◌<◌, ◌≡◌, ◌∙◌, arith, true, min, ltb, leb, ltb→lt,
  leb→le, le→leb, if◌then◌else◌,
}
use interstellar_db.Base.Word.{u32_max, u64_max}
use interstellar_db.Float.{F64, IsIeee}
use native.Mathlib.Nat.{mod-lt, div-add-mod', mul-div_right}

abbrev pub unit : ℕ
unit = 2 ^ 21

-- The number of halvings down to 1, by fuel.
unfoldable pub halvings : ℕ → ℕ → ℕ
halvings zero n = 0
halvings (suc fuel) n = let rest = halvings fuel (n / 2) in if ltb n 2 then 0 else rest + 1

abbrev pub fixed : F64
fixed = record {
  Value = ℕ;
  of_u32 = λ n. n * unit;
  as_u32 = λ x. min (x / unit) u32_max;
  as_u64 = λ x. min (x / unit) u64_max;
  neg = λ x. 0;
  add = λ x y. x + y;
  sub = λ x y. x - y;
  mul = λ x y. x * y / unit;
  div = λ x y. x * unit / y;
  round = λ x. (x + 2 ^ 20) / unit * unit;
  floor = λ x. x / unit * unit;
  log2 = λ x. halvings 64 (x / unit) * unit;
  clamp = λ x lo hi. if ltb x lo then lo else if ltb hi x then hi else x;
  is_finite = λ x. true;
  leb = leb;
  ltb = ltb;
}

div_mono : (a b d : ℕ) → 0 < d → a ≤ b → a / d ≤ b / d
div_mono a b d pos h = grind (arith, div-add-mod' a d, div-add-mod' b d, mod-lt a pos, mod-lt b pos)

quotient_mono :
    (x y z : ℕ)
    → ltb (0 * unit) z ≡ true
    → leb x y ≡ true
    → leb (x * unit / z) (y * unit / z) ≡ true
quotient_mono x y z pos h =
    le→leb _ _ (
      div_mono (x * unit) (y * unit) z (omega (arith, ltb→lt _ _ pos))
        (omega (arith, leb→le x y h)))

product_mono :
    (n x y : ℕ) → leb x y ≡ true → leb (x * (n * unit) / unit) (y * (n * unit) / unit) ≡ true
product_mono n x y h =
    let le : x ≤ y = leb→le x y h in
    le→leb _ _ (div_mono (x * (n * unit)) (y * (n * unit)) unit (omega arith) (grind arith))

self_quotient : (x : ℕ) → ltb (0 * unit) x ≡ true → x * unit / x ≡ 1 * unit
self_quotient x pos = mul-div_right unit (omega (arith, ltb→lt _ _ pos)) ∙ omega arith

pub fixed-IsIeee : IsIeee fixed
fixed-IsIeee = record {
  leb-number = λ x y h. (le→leb x x (omega arith), le→leb y y (omega arith));
  neg-leb = λ x h. le→leb 0 x (omega arith);
  clamp_mono = λ lo hi x y h k. ground arith;
  clamp-leb = λ lo hi x h k. ground arith;
  add_mono = λ x y z h k. ground arith;
  div_mono = λ x y z h pos k. quotient_mono x y z pos k;
  mul_mono = λ n x y h pos k. product_mono n x y k;
  round_mono = λ x y h. ground arith;
  as_u32_mono = λ x y h. ground arith;
  add_self = λ x h. omega arith;
  double-pos = λ x h. ground arith;
  div_self = λ x h pos. self_quotient x pos;
  one-mul = λ n h. omega arith;
  of_u32-pos = λ n pos h. ground arith;
  round-of_u32 = λ n h. omega arith;
  as_u32-of_u32 = λ n h. omega arith;
}
