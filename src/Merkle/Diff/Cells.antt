-- ===== src/Merkle/Diff/Cells.antt =====
-- The eight children of a cell of the Morton octree.
use interstellar_db.Base.{
  ℕ, ◌+◌, ◌-◌, ◌*◌, ◌/◌, ◌%◌, ◌^◌, ◌≤◌, ◌<◌, ◌≡◌, sym, ap, ◌∙◌, arith, bit_or,
}
use interstellar_db.Base.Bits.{shift-bit_or}
use interstellar_db.Base.Digits.{two_pow_pos, two_pow_add, two_pow_le}
use interstellar_db.Indexer.Prefixes.Cells.{cell_prefix_lem}
use interstellar_db.Indexer.Prefixes.{cell_prefix}
use interstellar_db.Merkle.Tree.{prefix_at}
use interstellar_db.Merkle.Forest.{child_prefix}
use native.Mathlib.Nat.{mod-eq_of_lt, div-mul-le_self, mul_comm, div-div-eq-div-mul, mul-div_left}

pub prefix_at_lem : (m d : ℕ) → m < 2 ^ 64 → prefix_at m d ≡ m / 2 ^ (64 - d) * 2 ^ (64 - d)
unfolding prefix_at cell_prefix
prefix_at_lem m d h = cell_prefix_lem (64 - d) m h

-- A prefix at a depth: a word whose bits below the depth are 0.
pub record IsPrefix (d p : ℕ) : Type 0 where
  pub word : p < 2 ^ 64
  pub place : prefix_at p d ≡ p

-- A cell is eight of its children wide.
width-child : (d : ℕ) → d + 3 ≤ 63 → 2 ^ (64 - d) ≡ 8 * 2 ^ (64 - (d + 3))
width-child d h = ap (λ (k : ℕ). 2 ^ k) place ∙ two_pow_add 3 (64 - (d + 3))
  where
    place : 64 - d ≡ 3 + (64 - (d + 3))
    place = omega arith

regroup : (n c w v : ℕ) → v ≡ 8 * w → n * v + c * w ≡ (n * 8 + c) * w
regroup n c w v e = ap (λ (t : ℕ). n * t + c * w) e ∙ grind arith

-- A child's prefix, for the cell that is the `n`th at its depth.
pub child_prefix_lem :
    (n d c : ℕ)
    → d + 3 ≤ 63
    → c < 8
    → n * 2 ^ (64 - d) < 2 ^ 64
    → child_prefix (n * 2 ^ (64 - d)) (d + 3) c ≡ (n * 8 + c) * 2 ^ (64 - (d + 3))
unfolding child_prefix
child_prefix_lem n d c hd hc fits =
    let w : ℕ = 2 ^ (64 - (d + 3)) in
    let e = width-child d hd in
    let small : c * w < 2 ^ (64 - d) = grind (arith, two_pow_pos (64 - (d + 3))) in
    let bound = two_pow_le (64 - d) 64 (omega arith) in
    let shifted : c * w % 2 ^ 64 ≡ c * w = mod-eq_of_lt (omega (arith, small, bound)) in
    ap (bit_or (n * 2 ^ (64 - d))) shifted
    ∙ shift-bit_or (64 - d) n (c * w) small
    ∙ regroup n c w (2 ^ (64 - d)) e

div_width : (m d : ℕ) → d + 3 ≤ 63 → m / 2 ^ (64 - d) ≡ m / 2 ^ (64 - (d + 3)) / 8
div_width m d h =
    let w : ℕ = 2 ^ (64 - (d + 3)) in
    ap (λ (t : ℕ). m / t) (width-child d h ∙ mul_comm 8 w) ∙ sym (div-div-eq-div-mul m w 8)

-- A cell below another is below one of its children.
pub child_of :
    (p d : ℕ)
    → p < 2 ^ 64
    → d + 3 ≤ 63
    → (c : ℕ) × (c < 8) × (prefix_at p (d + 3) ≡ child_prefix (prefix_at p d) (d + 3) c)
child_of p d fits hd =
    let w : ℕ = 2 ^ (64 - (d + 3)) in
    let n : ℕ = p / 2 ^ (64 - d) in
    let c : ℕ = p / w % 8 in
    let small : c < 8 = omega arith in
    let whole : p / w ≡ n * 8 + c = omega (arith, div_width p d hd) in
    let within : n * 2 ^ (64 - d) < 2 ^ 64 = omega (arith, div-mul-le_self p (2 ^ (64 - d))) in
    (
      c,
      small,
      prefix_at_lem p (d + 3) fits
          ∙ ap (λ (t : ℕ). t * w) whole
          ∙ sym (child_prefix_lem n d c hd small within)
          ∙ ap (λ (t : ℕ). child_prefix t (d + 3) c) (sym (prefix_at_lem p d fits)),
    )

octant-lt : (n c w m v : ℕ) → v ≡ 8 * w → c < 8 → n * v < m * v → (n * 8 + c) * w < m * v
octant-lt n c w m v e small h =
    let less : n < m = grind arith in
    let next : n * v + v ≤ m * v = grind arith in grind (arith, regroup n c w v e)

module _ (d c q : ℕ) (hd : d + 3 ≤ 63) (small : c < 8) (cell : IsPrefix d q) where
  abbrev place : ℕ
  place = q / 2 ^ (64 - d)

  abbrev width : ℕ
  width = 2 ^ (64 - (d + 3))

  cell_lem : q ≡ place * 2 ^ (64 - d)
  cell_lem = sym cell.place ∙ prefix_at_lem q d cell.word

  child_lem : child_prefix q (d + 3) c ≡ (place * 8 + c) * width
  child_lem =
      ap (λ (t : ℕ). child_prefix t (d + 3) c) cell_lem
      ∙ child_prefix_lem place d c hd small (omega (arith, cell_lem, cell.word))

  -- A cell below a child is below the parent.
  pub parent_of :
      (p : ℕ) → p < 2 ^ 64 → prefix_at p (d + 3) ≡ child_prefix q (d + 3) c → prefix_at p d ≡ q
  parent_of p fits e =
      let same : p / width * width ≡ (place * 8 + c) * width =
        sym (prefix_at_lem p (d + 3) fits) ∙ e ∙ child_lem in
      let octant : p / width ≡ place * 8 + c =
        sym (mul-div_left (p / width) (two_pow_pos (64 - (d + 3))))
        ∙ ap (λ (t : ℕ). t / width) same
        ∙ mul-div_left (place * 8 + c) (two_pow_pos (64 - (d + 3))) in
      prefix_at_lem p d fits
      ∙ ap (λ (t : ℕ). t * 2 ^ (64 - d)) (div_width p d hd ∙ omega (arith, octant, small))
      ∙ sym cell_lem

  child_fits : (place * 8 + c) * width < 2 ^ 64
  child_fits =
      let whole : 2 ^ d * 2 ^ (64 - d) ≡ 2 ^ 64 =
        sym (two_pow_add d (64 - d)) ∙ ap (λ (k : ℕ). 2 ^ k) top in
      let bound : (place * 8 + c) * width < 2 ^ d * 2 ^ (64 - d) =
        octant-lt place c width (2 ^ d) (2 ^ (64 - d)) (width-child d hd) small
          (omega (arith, cell_lem, cell.word, whole)) in
      omega (arith, bound, whole)
    where
      top : d + (64 - d) ≡ 64
      top = omega arith

  pub child-IsPrefix : IsPrefix (d + 3) (child_prefix q (d + 3) c)
  child-IsPrefix =
      let fits : child_prefix q (d + 3) c < 2 ^ 64 = omega (arith, child_lem, child_fits) in
      record {
        word = fits;
        place =
            prefix_at_lem _ (d + 3) fits
            ∙ ap (λ (t : ℕ). t / width * width) child_lem
            ∙ ap (λ (t : ℕ). t * width) (mul-div_left (place * 8 + c) (two_pow_pos _))
            ∙ sym child_lem;
      }

next_multiple : (w a b : ℕ) → a * w < b * w → a * w + w ≤ b * w
next_multiple w a b h = let less : a < b = grind arith in grind arith

-- The last code of a cell is a word.
pub cell_end-lt : (d p : ℕ) → d ≤ 64 → IsPrefix d p → p + 2 ^ (64 - d) ≤ 2 ^ 64
cell_end-lt d p h cell =
    let n : ℕ = p / 2 ^ (64 - d) in
    let place : p ≡ n * 2 ^ (64 - d) = sym cell.place ∙ prefix_at_lem p d cell.word in
    let whole : 2 ^ d * 2 ^ (64 - d) ≡ 2 ^ 64 =
      sym (two_pow_add d (64 - d)) ∙ ap (λ (k : ℕ). 2 ^ k) top in
    let next = next_multiple (2 ^ (64 - d)) n (2 ^ d) (omega (arith, place, whole, cell.word)) in
    omega (arith, place, whole, next)
  where
    top : d + (64 - d) ≡ 64
    top = omega arith
