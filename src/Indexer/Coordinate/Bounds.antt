-- ===== src/Indexer/Coordinate/Bounds.antt =====
-- `normalize_coordinate` keeps the order of the coordinates and stays in 21 bits.
use interstellar_db.Base.{ℕ, ◌≤◌, ◌%◌, ◌≡◌, true, arith}
use interstellar_db.Float.{F64, IsIeee}
use interstellar_db.Indexer.{HybridSpatioTemporalIndexer, IsValid}
use interstellar_db.Indexer.Coordinate.{max_21bit, normalize_coordinate, calculate_optimal_depth}

-- A depth is always a multiple of 3 from 3 to 63.
pub record IsDepth (depth_bits : ℕ) : Type 0 where
  pub at_least : 3 ≤ depth_bits
  pub at_most : depth_bits ≤ 63
  pub multiple : depth_bits % 3 ≡ 0

module _ (f : F64) (self : HybridSpatioTemporalIndexer f) where
  -- The depth for any radius is a multiple of 3 from 3 to 63, whatever the floats compute.
  pub calculate_optimal_depth-IsDepth :
      (radius : f.Value) → IsDepth (calculate_optimal_depth f self radius)
  unfolding calculate_optimal_depth
  calculate_optimal_depth-IsDepth radius = ground arith

module _ (f : F64) (ieee : IsIeee f) (self : HybridSpatioTemporalIndexer f)
    (valid : IsValid f self) where
  pub normalize_coordinate_mono :
      (a b : f.Value)
      → f.leb a b ≡ true
      → normalize_coordinate f self a ≤ normalize_coordinate f self b
  unfolding normalize_coordinate
  normalize_coordinate_mono a b h =
      let m = self.max_range in
      let d = f.mul (f.of_u32 2) m in
      let pos = ieee.double-pos m valid.range_pos in
      let c = ieee.clamp_mono (f.neg m) m a b (ieee.neg-leb m valid.range_pos) h in
      let s = ieee.add_mono _ _ m valid.range_finite c in
      let q = ieee.div_mono _ _ d valid.double_finite pos s in
      let p =
        ieee.mul_mono max_21bit _ _ (omega arith)
          (ieee.of_u32-pos max_21bit (omega arith) (omega arith)) q in
      ieee.as_u32_mono _ _ (ieee.round_mono _ _ p)

  pub normalize_coordinate-le :
      (a : f.Value) → f.leb a a ≡ true → normalize_coordinate f self a ≤ max_21bit
  unfolding normalize_coordinate
  normalize_coordinate-le a h =
      let m = self.max_range in
      let d = f.mul (f.of_u32 2) m in
      let top = f.of_u32 max_21bit in
      let pos = ieee.double-pos m valid.range_pos in
      let c = ieee.clamp-leb (f.neg m) m a (ieee.neg-leb m valid.range_pos) h in
      let s =
        rw (ieee.add_self m valid.range_finite) at (ieee.add_mono _ _ m valid.range_finite c) in
      let q =
        rw (ieee.div_self d valid.double_finite pos) at
          (ieee.div_mono _ _ d valid.double_finite pos s) in
      let p = rw (ieee.one-mul max_21bit (omega arith)) at (
        ieee.mul_mono max_21bit _ _ (omega arith)
          (ieee.of_u32-pos max_21bit (omega arith) (omega arith)) q) in
      let r = rw (ieee.round-of_u32 max_21bit (omega arith)) at (ieee.round_mono _ _ p) in
      omega (arith, ieee.as_u32_mono _ _ r, ieee.as_u32-of_u32 max_21bit (omega arith))

  -- Where the range is positive and twice the range is finite, over floats that keep the order
  -- laws of IEEE 754: for a number at most another, the first normalizes to at most what the
  -- second does, and that is at most 2^21 - 1.
  pub normalize_coordinate_bounds :
      (a b : f.Value)
      → f.leb a b ≡ true
      → (normalize_coordinate f self a ≤ normalize_coordinate f self b)
        × (normalize_coordinate f self b ≤ max_21bit)
  normalize_coordinate_bounds a b h =
      (normalize_coordinate_mono a b h, normalize_coordinate-le b (ieee.leb-number a b h).1)
