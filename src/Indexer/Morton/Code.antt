-- ===== src/Indexer/Morton/Code.antt =====
-- The Morton code as a sum of digits, and that decoding gives the coordinates back.
use interstellar_db.Base.{
  ℕ, zero, suc, ◌+◌, ◌*◌, ◌/◌, ◌%◌, ◌^◌, ◌≤◌, ◌<◌, bit_or, ◌≡◌, refl, sym, ap, ◌∙◌, arith, dec_lt,
}
use interstellar_db.Base.Bits.{bit_or-high, bit_or-shift, shift-bit_or, zero-bit_or}
use interstellar_db.Base.Digits.{
  two_pow_pos, two_pow_add, two_pow_le, digit-div, eight_pow-suc, digit, digit-low, div_high,
  bit_and-one, mod_two_pow-suc,
}
use interstellar_db.Base.Word.{u32, u64, ◌<<32◌, ◌<<64◌}
use interstellar_db.Indexer.Morton.{
  bit_at, encode_round, encode_loop, encode_3d_morton, Axes, decode_round, decode_loop,
  decode_3d_morton,
}
use native.Mathlib.Nat.{mod-eq_of_lt, mod-lt, mod-one, mul_comm}

-- The three digits of one level of the octree: x above y above z.
abbrev pub octant : ℕ → ℕ → ℕ → ℕ → ℕ
octant x y z i = 4 * digit x i + 2 * digit y i + digit z i

-- The code of the low `n` digits of each coordinate.
unfoldable pub morton_sum : ℕ → ℕ → ℕ → ℕ → ℕ
morton_sum zero x y z = 0
morton_sum (suc n) x y z = 2 ^ (3 * n) * octant x y z n + morton_sum n x y z

pub morton_sum-lt : (n x y z : ℕ) → morton_sum n x y z < 2 ^ (3 * n)
unfolding morton_sum
morton_sum-lt zero x y z = omega arith
morton_sum-lt (suc n) x y z =
    let d : ℕ = octant x y z n in
    let small : d ≤ 7 = omega arith in
    let below : 2 ^ (3 * n) * d ≤ 2 ^ (3 * n) * 7 = grind arith in
    omega (arith, below, eight_pow-suc n, morton_sum-lt n x y z)

-- Three digits joined by `|`.
octant_bits :
    (a b c : ℕ) → a < 2 → b < 2 → c < 2 → bit_or (bit_or (4 * a) (2 * b)) c ≡ 4 * a + 2 * b + c
octant_bits a b c p q r =
    let high : bit_or (4 * a) (2 * b) ≡ 4 * a + 2 * b =
      ap (λ (t : ℕ). bit_or t (2 * b)) (mul_comm 4 a)
      ∙ omega (arith, shift-bit_or 2 a (2 * b) (omega arith)) in
    let regroup : 4 * a + 2 * b ≡ (2 * a + b) * 2 = omega arith in
    ap (λ (t : ℕ). bit_or t c) (high ∙ regroup)
    ∙ omega (arith, shift-bit_or 1 (2 * a + b) c (omega arith))

bit_at-digit : (v i : ℕ) → bit_at v i ≡ digit v i
unfolding bit_at
bit_at-digit v i = bit_and-one (v / 2 ^ i)

-- A digit shifted to a place below 64 is not cut.
shifted_digit :
    (v i n k : ℕ) → n ≤ 20 → k < 3 → bit_at v i <<64 (3 * n + k) ≡ 2 ^ (3 * n) * (2 ^ k * digit v i)
shifted_digit v i n k h hk =
    let b : ℕ = digit v i in
    let bound : b < 2 = omega arith in
    let e : b * 2 ^ (3 * n + k) ≡ 2 ^ (3 * n) * (2 ^ k * b) =
      ap (λ (t : ℕ). b * t) (two_pow_add (3 * n) k) ∙ grind arith in
    let top : 2 ^ (3 * n + k) ≤ 2 ^ 62 = two_pow_le (3 * n + k) 62 (omega arith) in
    let fits : b * 2 ^ (3 * n + k) < 2 ^ 64 = grind arith in
    ap (λ (t : ℕ). u64 (t * 2 ^ (3 * n + k))) (bit_at-digit v i) ∙ mod-eq_of_lt fits ∙ e

encode_round_lem :
    (n x y z m : ℕ)
    → n ≤ 20
    → m < 2 ^ (3 * n)
    → encode_round x y z n m ≡ 2 ^ (3 * n) * octant x y z n + m
unfolding encode_round
encode_round_lem n x y z m h hm =
    let p : ℕ = 3 * n in
    let a : ℕ = digit x n in
    let b : ℕ = digit y n in
    let c : ℕ = digit z n in
    let start : m ≡ 2 ^ p * 0 + m = omega arith in
    let r1 : bit_or m (2 ^ p * (2 ^ 2 * a)) ≡ 2 ^ p * (4 * a) + m =
      ap (λ (t : ℕ). bit_or t (2 ^ p * (2 ^ 2 * a))) start
      ∙ bit_or-high p 0 (4 * a) m hm
      ∙ ap (λ (t : ℕ). 2 ^ p * t + m) (zero-bit_or (4 * a)) in
    let r2 : bit_or (2 ^ p * (4 * a) + m) (2 ^ p * (2 ^ 1 * b))
        ≡ 2 ^ p * bit_or (4 * a) (2 * b) + m =
      bit_or-high p (4 * a) (2 * b) m hm in
    let r3 : bit_or (2 ^ p * bit_or (4 * a) (2 * b) + m) (2 ^ p * (2 ^ 0 * c))
        ≡ 2 ^ p * bit_or (bit_or (4 * a) (2 * b)) c + m =
      ap (λ (t : ℕ). bit_or (2 ^ p * bit_or (4 * a) (2 * b) + m) (2 ^ p * t)) (omega arith)
      ∙ bit_or-high p (bit_or (4 * a) (2 * b)) c m hm in
    let zero_shift : bit_at z n <<64 p ≡ 2 ^ p * (2 ^ 0 * c) =
      ap (λ (t : ℕ). bit_at z n <<64 t) (omega arith) ∙ shifted_digit z n n 0 h (omega arith) in
    rw
      (
        shifted_digit x n n 2 h (omega arith),
        shifted_digit y n n 1 h (omega arith),
        zero_shift,
        r1,
        r2,
        r3,
      )
      (ap (λ (t : ℕ). 2 ^ p * t + m) (octant_bits a b c (omega arith) (omega arith) (omega arith)))

pub encode_loop_lem : (n x y z : ℕ) → n ≤ 21 → encode_loop n x y z ≡ morton_sum n x y z
unfolding encode_loop morton_sum
encode_loop_lem zero x y z h = refl
encode_loop_lem (suc n) x y z h =
    rw (encode_loop_lem n x y z (omega arith))
      (encode_round_lem n x y z (morton_sum n x y z) (omega arith) (morton_sum-lt n x y z))

-- The code's digits, `k` of the octant at level `i`.
pub octant-digits :
    (a b c : ℕ)
    → a < 2
    → b < 2
    → c < 2
    → (digit (4 * a + 2 * b + c) 2 ≡ a)
      × (digit (4 * a + 2 * b + c) 1 ≡ b)
      × (digit (4 * a + 2 * b + c) 0 ≡ c)
octant-digits a b c p q r = omega arith

pub morton_sum-digit :
    (n i k x y z : ℕ)
    → i < n
    → k < 3
    → digit (morton_sum n x y z) (3 * i + k) ≡ digit (octant x y z i) k
unfolding morton_sum
morton_sum-digit zero i k x y z h hk = absurd (omega arith)
morton_sum-digit (suc n) i k x y z h hk = elim (dec_lt i n) [
  | yes below ↦
      digit-low (3 * i + k) (3 * n) (octant x y z n) (morton_sum n x y z) (omega arith)
      ∙ morton_sum-digit n i k x y z below hk
  | no top ↦
      let e : i ≡ n = omega arith in
      rw e (
        sym (digit-div (2 ^ (3 * n) * octant x y z n + morton_sum n x y z) (3 * n) k)
        ∙ ap (λ (t : ℕ). digit t k)
            (div_high (3 * n) (octant x y z n) (morton_sum n x y z) (morton_sum-lt n x y z)))
]

-- One round of decoding puts digit `i` above the digits found.
low_digits-round :
    (v i w d : ℕ)
    → i ≤ 20
    → d < 2
    → bit_at v w ≡ d
    → (acc : ℕ) → acc < 2 ^ i
    → bit_or acc (u32 (bit_at v w) <<32 i) ≡ d * 2 ^ i + acc
low_digits-round v i w d h hd e acc ha =
    let top : 2 ^ i ≤ 2 ^ 20 = two_pow_le i 20 h in
    let fits : d * 2 ^ i < 2 ^ 32 = grind arith in
    let same : u32 (bit_at v w) ≡ d = ap u32 e ∙ mod-eq_of_lt (omega arith) in
    ap (λ (t : ℕ). bit_or acc (t <<32 i)) same
    ∙ ap (λ (t : ℕ). bit_or acc t) (mod-eq_of_lt fits)
    ∙ bit_or-shift i d acc ha

Axes_eq : (a b : Axes) → a.x ≡ b.x → a.y ≡ b.y → a.z ≡ b.z → a ≡ b
Axes_eq a b p q r = λ i. record { x = p i; y = q i; z = r i }

-- The low `i` digits of each coordinate.
abbrev low_axes : ℕ → ℕ → ℕ → ℕ → Axes
low_axes i x y z = record { x = x % 2 ^ i; y = y % 2 ^ i; z = z % 2 ^ i }

next_digit :
    (m v i k : ℕ)
    → i ≤ 20
    → digit m (3 * i + k) ≡ digit v i
    → bit_or (v % 2 ^ i) (u32 (bit_at m (3 * i + k)) <<32 i) ≡ v % 2 ^ suc i
next_digit m v i k h e =
    low_digits-round m i (3 * i + k) (digit v i) h (omega arith) (bit_at-digit m (3 * i + k) ∙ e)
      (v % 2 ^ i) (mod-lt v (two_pow_pos i))
    ∙ sym (mod_two_pow-suc v i)

-- Decoding finds the low digits of each coordinate, level by level.
decode_loop_lem :
    (n x y z i : ℕ) → n ≤ 21 → i ≤ n → decode_loop i (morton_sum n x y z) ≡ low_axes i x y z
unfolding decode_loop
decode_loop_lem n x y z zero w h = Axes_eq _ _ (sym (mod-one x)) (sym (mod-one y)) (sym (mod-one z))
decode_loop_lem n x y z (suc i) w h =
    let m : ℕ = morton_sum n x y z in
    let o =
      octant-digits (digit x i) (digit y i) (digit z i) (omega arith) (omega arith) (omega arith) in
    let zero_place : 3 * i ≡ 3 * i + 0 = omega arith in
    ap (decode_round m i) (decode_loop_lem n x y z i w (omega arith))
    ∙ Axes_eq _ _
        (next_digit m x i 2 (omega arith)
          (morton_sum-digit n i 2 x y z (omega arith) (omega arith) ∙ o.0))
        (next_digit m y i 1 (omega arith)
          (morton_sum-digit n i 1 x y z (omega arith) (omega arith) ∙ o.1))
        (ap (λ (t : ℕ). bit_or (z % 2 ^ i) (u32 (bit_at m t) <<32 i)) zero_place
          ∙ next_digit m z i 0 (omega arith)
              (morton_sum-digit n i 0 x y z (omega arith) (omega arith) ∙ o.2))

-- The code is a number of 63 bits, and is the sum of its octants.
pub encode_3d_morton_lem : (x y z : ℕ) → encode_3d_morton x y z ≡ morton_sum 21 x y z
unfolding encode_3d_morton
encode_3d_morton_lem x y z = encode_loop_lem 21 x y z (omega arith)

pub encode_3d_morton-lt : (x y z : ℕ) → encode_3d_morton x y z < 2 ^ 63
encode_3d_morton-lt x y z = omega (arith, encode_3d_morton_lem x y z, morton_sum-lt 21 x y z)

-- Coordinates below 2^21 come back from their Morton code.
pub decode_3d_morton-encode_3d_morton :
    (x y z : ℕ)
    → x < 2 ^ 21
    → y < 2 ^ 21
    → z < 2 ^ 21
    → decode_3d_morton (encode_3d_morton x y z) ≡ record { x = x; y = y; z = z }
unfolding decode_3d_morton
decode_3d_morton-encode_3d_morton x y z hx hy hz =
    ap (decode_loop 21) (encode_3d_morton_lem x y z)
    ∙ decode_loop_lem 21 x y z 21 (omega arith) (omega arith)
    ∙ Axes_eq _ _ (mod-eq_of_lt hx) (mod-eq_of_lt hy) (mod-eq_of_lt hz)
