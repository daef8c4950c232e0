-- ===== src/Indexer/Prefixes/Cells.antt =====
-- A cell prefix, the codes that share it, and the codes between a prefix and its upper end.
use interstellar_db.Base.{
  ℕ, ◌+◌, ◌-◌, ◌*◌, ◌/◌, ◌^◌, ◌≤◌, ◌<◌, ◌≡◌, ◌↔◌, sym, ap, ap₂, ◌∙◌, arith, bit_or,
}
use interstellar_db.Base.Bits.{shift-bit_or}
use interstellar_db.Base.Digits.{two_pow_pos, two_pow_add, two_pow_le}
use interstellar_db.Base.Word.{◌<<64◌}
use interstellar_db.Indexer.Morton.{encode_3d_morton}
use interstellar_db.Indexer.Morton.Code.{encode_3d_morton-lt, morton_sum}
use interstellar_db.Indexer.Morton.Cells.{encode_3d_morton-high, half_code_eq, half_code_inj}
use interstellar_db.Indexer.Prefixes.{cell_prefix}
use native.Mathlib.Nat.{
  mod-eq_of_lt, div-mul-le_self, lt-div-mul-add, div-div-eq-div-mul, div-lt_iff_lt-mul,
  mul-div_left,
}

-- `(1u64 << (64 - depth_bits)) - 1`, in terms of the shift.
abbrev pub mask_of : ℕ → ℕ
mask_of shift = 1 <<64 shift - 1

pub cell_prefix_lem : (shift m : ℕ) → m < 2 ^ 64 → cell_prefix shift m ≡ m / 2 ^ shift * 2 ^ shift
unfolding cell_prefix
cell_prefix_lem shift m h = mod-eq_of_lt (omega (arith, div-mul-le_self m (2 ^ shift)))

pub mask_of_lem : (shift : ℕ) → shift ≤ 63 → mask_of shift ≡ 2 ^ shift - 1
mask_of_lem shift h =
    let top : 2 ^ shift ≤ 2 ^ 63 = two_pow_le shift 63 h in
    ap (λ (t : ℕ). t - 1) (mod-eq_of_lt {n = 1 * 2 ^ shift} (omega arith)) ∙ omega arith

-- The last code of the cell.
pub cell_end :
    (shift q : ℕ)
    → shift ≤ 63
    → bit_or (q * 2 ^ shift) (mask_of shift) ≡ q * 2 ^ shift + (2 ^ shift - 1)
cell_end shift q h =
    ap (bit_or (q * 2 ^ shift)) (mask_of_lem shift h)
    ∙ shift-bit_or shift q (2 ^ shift - 1) (omega (arith, two_pow_pos shift))

-- A code lies in its own cell.
pub cell_prefix_bounds :
    (shift m : ℕ)
    → shift ≤ 63
    → m < 2 ^ 64
    → (cell_prefix shift m ≤ m)
      × (m ≤ bit_or (cell_prefix shift m) (mask_of shift))
      × (bit_or (cell_prefix shift m) (mask_of shift) < cell_prefix shift m + 2 ^ shift)
cell_prefix_bounds shift m h hm =
    rw (cell_prefix_lem shift m hm, cell_end shift (m / 2 ^ shift) h)
      (omega (
        arith,
        div-mul-le_self m (2 ^ shift),
        lt-div-mul-add {a = m} (two_pow_pos shift),
        two_pow_pos shift,
      ))

-- Prefixes agree just where the codes agree from the shift up.
cell_prefix_iff :
    (shift m n : ℕ)
    → m < 2 ^ 64
    → n < 2 ^ 64
    → (cell_prefix shift m ≡ cell_prefix shift n) ↔ (m / 2 ^ shift ≡ n / 2 ^ shift)
cell_prefix_iff shift m n hm hn = (
  λ e.
      sym (mul-div_left (m / 2 ^ shift) (two_pow_pos shift))
      ∙ ap (λ (t : ℕ). t / 2 ^ shift)
          (sym (cell_prefix_lem shift m hm) ∙ e ∙ cell_prefix_lem shift n hn)
      ∙ mul-div_left (n / 2 ^ shift) (two_pow_pos shift),
  λ e.
      cell_prefix_lem shift m hm
      ∙ ap (λ (t : ℕ). t * 2 ^ shift) e
      ∙ sym (cell_prefix_lem shift n hn),
)

code-high :
    (j x y z : ℕ)
    → j ≤ 20
    → encode_3d_morton x y z / 2 ^ (3 * j + 1)
      ≡ morton_sum (21 - j) (x / 2 ^ j) (y / 2 ^ j) (z / 2 ^ j) / 2
code-high j x y z h =
    ap (λ (t : ℕ). encode_3d_morton x y z / t) (two_pow_add (3 * j) 1)
    ∙ sym (div-div-eq-div-mul (encode_3d_morton x y z) (2 ^ (3 * j)) 2)
    ∙ ap (λ (t : ℕ). t / 2) (encode_3d_morton-high j x y z (omega arith))

high-lt : (j v : ℕ) → j ≤ 20 → v < 2 ^ 21 → v / 2 ^ j < 2 ^ (21 - j)
high-lt j v h hv =
    let e : 21 ≡ (21 - j) + j = omega arith in
    (div-lt_iff_lt-mul (two_pow_pos j)).1
      (omega (arith, ap (λ (t : ℕ). 2 ^ t) e ∙ two_pow_add (21 - j) j))

-- Three coordinates of 21 bits.
abbrev pub Is21Bit : ℕ → ℕ → ℕ → Type 0
Is21Bit x y z = (x < 2 ^ 21) × (y < 2 ^ 21) × (z < 2 ^ 21)

-- The same, in terms of the digits that a cell of step `2 ^ j` leaves out.
pub same_cell_iff :
    (j x y z x' y' z' : ℕ)
    → j ≤ 20
    → Is21Bit x y z
    → Is21Bit x' y' z'
    → (cell_prefix (3 * j + 1) (encode_3d_morton x y z)
        ≡ cell_prefix (3 * j + 1) (encode_3d_morton x' y' z'))
      ↔ ((x / 2 ^ j ≡ x' / 2 ^ j) × (y / 2 ^ j ≡ y' / 2 ^ j) × (z / 2 ^ j / 2 ≡ z' / 2 ^ j / 2))
same_cell_iff j x y z x' y' z' hj h h' =
    let agree =
      cell_prefix_iff (3 * j + 1) (encode_3d_morton x y z) (encode_3d_morton x' y' z')
        (omega (arith, encode_3d_morton-lt x y z)) (omega (arith, encode_3d_morton-lt x' y' z')) in
    let n : ℕ = 21 - j in
    (
      λ e.
          half_code_inj n (x / 2 ^ j) (y / 2 ^ j) (z / 2 ^ j) (x' / 2 ^ j) (y' / 2 ^ j) (z' / 2 ^ j)
            (high-lt j x hj h.0, high-lt j y hj h.1, high-lt j z hj h.2)
            (high-lt j x' hj h'.0, high-lt j y' hj h'.1, high-lt j z' hj h'.2)
            (sym (code-high j x y z hj) ∙ agree.0 e ∙ code-high j x' y' z' hj),
      λ e. agree.1 (
          code-high j x y z hj
          ∙ half_code_eq n (x / 2 ^ j) (y / 2 ^ j) (z / 2 ^ j) (z' / 2 ^ j) e.2
          ∙ ap₂ (λ (a b : ℕ). morton_sum n a b (z' / 2 ^ j) / 2) e.0 e.1
          ∙ sym (code-high j x' y' z' hj)),
    )

-- For k from 1 to 21, two points of 21-bit coordinates share the prefix of 3 * k bits just if x
-- and y agree in their first k bits and z in its first k - 1.
pub cell_prefix-encode_iff :
    (k x y z x' y' z' : ℕ)
    → 1 ≤ k
    → k ≤ 21
    → Is21Bit x y z
    → Is21Bit x' y' z'
    → (cell_prefix (64 - 3 * k) (encode_3d_morton x y z)
        ≡ cell_prefix (64 - 3 * k) (encode_3d_morton x' y' z'))
      ↔ ((x / 2 ^ (21 - k) ≡ x' / 2 ^ (21 - k))
          × (y / 2 ^ (21 - k) ≡ y' / 2 ^ (21 - k))
          × (z / 2 ^ (22 - k) ≡ z' / 2 ^ (22 - k)))
cell_prefix-encode_iff k x y z x' y' z' lo hi h h' =
    let j : ℕ = 21 - k in
    let shift : 64 - 3 * k ≡ 3 * j + 1 = omega arith in
    let over : 22 - k ≡ j + 1 = omega arith in
    let halved : (v : ℕ) → v / 2 ^ (22 - k) ≡ v / 2 ^ j / 2 = λ v.
      ap (λ (t : ℕ). v / 2 ^ t) over
      ∙ ap (λ (t : ℕ). v / t) (two_pow_add j 1)
      ∙ sym (div-div-eq-div-mul v (2 ^ j) 2) in
    rw (shift, halved z, halved z') (same_cell_iff j x y z x' y' z' (omega arith) h h')
