-- ===== src/Indexer/Morton/Cells.antt =====
-- Which coordinates share a cell: the codes that agree above a place, in terms of the coordinates.
use interstellar_db.Base.{
  ℕ, zero, suc, ◌+◌, ◌-◌, ◌*◌, ◌/◌, ◌^◌, ◌≤◌, ◌<◌, ◌≡◌, refl, sym, ap, ap₂, ◌∙◌, arith,
}
use interstellar_db.Base.Digits.{
  two_pow_pos, two_pow_add, digit, digit-div, digits_ext, eight_pow-suc,
}
use interstellar_db.Indexer.Morton.{encode_3d_morton}
use interstellar_db.Indexer.Morton.Code.{
  octant, octant-digits, morton_sum, morton_sum-lt, morton_sum-digit, encode_3d_morton_lem,
}
use native.Mathlib.Nat.{pow-suc, mul-add-div, div-eq_of_lt}

-- The code above level `j` is the code of the coordinates above digit `j`.
morton_sum-high :
    (j k x y z : ℕ)
    → morton_sum (j + k) x y z / 2 ^ (3 * j) ≡ morton_sum k (x / 2 ^ j) (y / 2 ^ j) (z / 2 ^ j)
unfolding morton_sum
morton_sum-high j zero x y z =
    let e : j + 0 ≡ j = omega arith in rw e (div-eq_of_lt (morton_sum-lt j x y z))
morton_sum-high j (suc k) x y z =
    let e : j + suc k ≡ suc (j + k) = omega arith in
    let p : 3 * (j + k) ≡ 3 * j + 3 * k = omega arith in
    let o : ℕ = octant x y z (j + k) in
    let s : ℕ = morton_sum (j + k) x y z in
    let same : octant (x / 2 ^ j) (y / 2 ^ j) (z / 2 ^ j) k ≡ o =
      omega (arith, digit-div x j k, digit-div y j k, digit-div z j k) in
    let split : 2 ^ (3 * (j + k)) * o + s ≡ 2 ^ (3 * j) * (2 ^ (3 * k) * o) + s =
      omega
        (arith, ap (λ (t : ℕ). t * o) (ap (λ (t : ℕ). 2 ^ t) p ∙ two_pow_add (3 * j) (3 * k))) in
    ap (λ (t : ℕ). morton_sum t x y z / 2 ^ (3 * j)) e
    ∙ ap (λ (t : ℕ). t / 2 ^ (3 * j)) split
    ∙ mul-add-div (two_pow_pos (3 * j)) (2 ^ (3 * k) * o) s
    ∙ ap₂ (λ (t u : ℕ). 2 ^ (3 * k) * t + u) (sym same) (morton_sum-high j k x y z)

pub encode_3d_morton-high :
    (j x y z : ℕ)
    → j ≤ 21
    → encode_3d_morton x y z / 2 ^ (3 * j) ≡ morton_sum (21 - j) (x / 2 ^ j) (y / 2 ^ j) (z / 2 ^ j)
encode_3d_morton-high j x y z h =
    let e : 21 ≡ j + (21 - j) = omega arith in
    ap (λ (t : ℕ). t / 2 ^ (3 * j))
      (encode_3d_morton_lem x y z ∙ ap (λ (t : ℕ). morton_sum t x y z) e)
    ∙ morton_sum-high j (21 - j) x y z

-- Levels above the lowest only see the halves.
upper_octant : (x y z z' k : ℕ) → z / 2 ≡ z' / 2 → octant x y z (suc k) ≡ octant x y z' (suc k)
upper_octant x y z z' k e =
    let place : suc k ≡ 1 + k = omega arith in
    let same : digit z (suc k) ≡ digit z' (suc k) =
      ap (digit z) place
      ∙ sym (digit-div z 1 k)
      ∙ ap (λ (t : ℕ). digit t k) e
      ∙ digit-div z' 1 k
      ∙ ap (digit z') (sym place) in
    omega (arith, same)

-- Without its lowest digit a code only depends on half of z.
pub half_code_eq :
    (k x y z z' : ℕ) → z / 2 ≡ z' / 2 → morton_sum k x y z / 2 ≡ morton_sum k x y z' / 2
unfolding morton_sum
half_code_eq zero x y z z' e = refl
half_code_eq (suc zero) x y z z' e = omega arith
half_code_eq (suc (suc k)) x y z z' e =
    let o : ℕ = octant x y z (suc k) in
    let s : ℕ = morton_sum (suc k) x y z in
    let s' : ℕ = morton_sum (suc k) x y z' in
    let half : s / 2 ≡ s' / 2 = half_code_eq (suc k) x y z z' e in
    let u : 2 ^ (3 * suc k) * o ≡ 8 * (2 ^ (3 * k) * o) =
      omega (arith, ap (λ (t : ℕ). t * o) (eight_pow-suc k)) in
    ap (λ (t : ℕ). (t + s) / 2) u
    ∙ omega (arith, half)
    ∙ ap (λ (t : ℕ). (t + s') / 2) (sym u)
    ∙ ap (λ (t : ℕ). (2 ^ (3 * suc k) * t + s') / 2) (upper_octant x y z z' k e)

-- A digit of a code, from the code without its lowest digit.
code-digit :
    (k x y z x' y' z' i p : ℕ)
    → morton_sum k x y z / 2 ≡ morton_sum k x' y' z' / 2
    → i < k
    → p < 3
    → 0 < 3 * i + p
    → digit (octant x y z i) p ≡ digit (octant x' y' z' i) p
code-digit k x y z x' y' z' i p e hi hp pos =
    let n : ℕ = 3 * i + p - 1 in
    let place : 3 * i + p ≡ 1 + n = omega arith in
    let m : ℕ = morton_sum k x y z in
    let m' : ℕ = morton_sum k x' y' z' in
    sym (morton_sum-digit k i p x y z hi hp)
    ∙ ap (digit m) place
    ∙ sym (digit-div m 1 n)
    ∙ ap (λ (t : ℕ). digit t n) e
    ∙ digit-div m' 1 n
    ∙ ap (digit m') (sym place)
    ∙ morton_sum-digit k i p x' y' z' hi hp

octant-x : (x y z i : ℕ) → digit (octant x y z i) 2 ≡ digit x i
octant-x x y z i =
    (octant-digits (digit x i) (digit y i) (digit z i) (omega arith) (omega arith) (omega arith)).0

octant-y : (x y z i : ℕ) → digit (octant x y z i) 1 ≡ digit y i
octant-y x y z i =
    (octant-digits (digit x i) (digit y i) (digit z i) (omega arith) (omega arith) (omega arith)).1

octant-z : (x y z i : ℕ) → digit (octant x y z i) 0 ≡ digit z i
octant-z x y z i =
    (octant-digits (digit x i) (digit y i) (digit z i) (omega arith) (omega arith) (omega arith)).2

half_code_inj_z :
    (k x y z x' y' z' : ℕ)
    → z < 2 ^ k
    → z' < 2 ^ k
    → morton_sum k x y z / 2 ≡ morton_sum k x' y' z' / 2
    → z / 2 ≡ z' / 2
half_code_inj_z zero x y z x' y' z' h h' e = omega arith
half_code_inj_z (suc k) x y z x' y' z' h h' e =
    digits_ext k (z / 2) (z' / 2) (omega (arith, pow-suc 2 k)) (omega (arith, pow-suc 2 k)) λ i l.
      digit-div z 1 i
      ∙ sym (octant-z x y z (1 + i))
      ∙ code-digit (suc k) x y z x' y' z' (1 + i) 0 e (omega arith) (omega arith) (omega arith)
      ∙ octant-z x' y' z' (1 + i)
      ∙ sym (digit-div z' 1 i)

pub half_code_inj :
    (k x y z x' y' z' : ℕ)
    → (x < 2 ^ k) × (y < 2 ^ k) × (z < 2 ^ k)
    → (x' < 2 ^ k) × (y' < 2 ^ k) × (z' < 2 ^ k)
    → morton_sum k x y z / 2 ≡ morton_sum k x' y' z' / 2
    → (x ≡ x') × (y ≡ y') × (z / 2 ≡ z' / 2)
half_code_inj k x y z x' y' z' h h' e = (
  digits_ext k x x' h.0 h'.0 (λ i l.
      sym (octant-x x y z i)
      ∙ code-digit k x y z x' y' z' i 2 e l (omega arith) (omega arith)
      ∙ octant-x x' y' z' i),
  digits_ext k y y' h.1 h'.1 (λ i l.
      sym (octant-y x y z i)
      ∙ code-digit k x y z x' y' z' i 1 e l (omega arith) (omega arith)
      ∙ octant-y x' y' z' i),
  half_code_inj_z k x y z x' y' z' h.2 h'.2 e,
)
