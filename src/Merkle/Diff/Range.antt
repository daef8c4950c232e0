-- ===== src/Merkle/Diff/Range.antt =====
-- The key range of a leaf cell holds just the keys of the cell.
use interstellar_db.Base.{
  ℕ, ◌+◌, ◌-◌, ◌^◌, ◌≤◌, ◌<◌, ◌≡◌, ◌↔◌, refl, sym, ◌∙◌, arith, bit_or, subst,
}
use interstellar_db.Base.Word.{u64_max}
use interstellar_db.Indexer.Key.{key_bytes}
use interstellar_db.Indexer.Key.Order.{InWidth}
use interstellar_db.Indexer.Prefixes.{cell_prefix}
use interstellar_db.Indexer.Prefixes.Cells.{cell_prefix_bounds}
use interstellar_db.Indexer.Ranges.{mask_bits}
use interstellar_db.Indexer.Ranges.Covers.{Covers, cell_range-Covers_iff, cell_codes_iff}
use interstellar_db.Indexer.Coordinate.Bounds.{IsDepth}
use interstellar_db.Merkle.Tree.{prefix_at, leaf_key_range}
use interstellar_db.Merkle.Diff.Cells.{IsPrefix, cell_end-lt}

prefix_at-eq-cell_prefix : (m d : ℕ) → prefix_at m d ≡ cell_prefix (64 - d) m
unfolding prefix_at cell_prefix
prefix_at-eq-cell_prefix m d = refl

-- For a depth that is a multiple of 3 from 3 to 63, the prefix of a cell and a u32 epoch: a key whose
-- fields fit lies in the leaf's range just if it has the epoch and its Morton code has the prefix.
pub leaf_key_range-Covers_iff :
    (depth_bits epoch prefix e m t : ℕ)
    → IsDepth depth_bits
    → IsPrefix depth_bits prefix
    → epoch < 2 ^ 32
    → InWidth e m t
    → Covers (leaf_key_range epoch prefix depth_bits) (key_bytes e m t)
      ↔ ((e ≡ epoch) × (prefix_at m depth_bits ≡ prefix))
unfolding leaf_key_range
leaf_key_range-Covers_iff depth_bits epoch prefix e m t depth cell small width =
    let shift : ℕ = 64 - depth_bits in
    let mask : ℕ = mask_bits depth_bits in
    let self : cell_prefix shift prefix ≡ prefix =
      sym (prefix_at-eq-cell_prefix prefix depth_bits) ∙ cell.place in
    let last : bit_or prefix mask < prefix + 2 ^ shift =
      subst (λ (q : ℕ). bit_or q mask < q + 2 ^ shift) self
        (cell_prefix_bounds shift prefix (omega (arith, depth)) cell.word).2 in
    let end : bit_or prefix mask < 2 ^ 64 =
      omega (arith, last, cell_end-lt depth_bits prefix (omega (arith, depth)) cell) in
    let in_range =
      cell_range-Covers_iff mask epoch 0 u64_max prefix e m t width
        (record { epoch_u32 = small; spatial_u64 = cell.word; nano_u64 = omega arith })
        (record { epoch_u32 = small; spatial_u64 = end; nano_u64 = omega arith }) in
    let codes : ((prefix ≤ m) × (m ≤ bit_or prefix mask)) ↔ (cell_prefix shift m ≡ prefix) =
      subst (λ (q : ℕ). ((q ≤ m) × (m ≤ bit_or q mask)) ↔ (cell_prefix shift m ≡ q)) self
        (cell_codes_iff shift prefix m (omega (arith, depth)) cell.word width.spatial_u64) in
    (
      (λ covers.
          let i = in_range.0 covers in
          (i.same_epoch, prefix_at-eq-cell_prefix m depth_bits ∙ codes.0 (i.code_lo, i.code_hi))),
      (λ at.
          let bounds = codes.1 (sym (prefix_at-eq-cell_prefix m depth_bits) ∙ at.1) in
          in_range.1 (record {
            same_epoch = at.0;
            code_lo = bounds.0;
            code_hi = bounds.1;
            time_lo = λ first. omega arith;
            time_hi = λ last_code. omega (arith, width);
          })),
    )
