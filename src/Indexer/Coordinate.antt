-- ===== src/Indexer/Coordinate.antt =====
-- crates/interstellar-index/src/lib.rs: `normalize_coordinate`, `denormalize_coordinate` and
-- `calculate_optimal_depth`.
pub mod Bounds
use interstellar_db.Base.{ℕ, ◌-◌, ◌*◌, ltb, leb, Bool, if◌then◌else◌}
use interstellar_db.Base.Word.{◌<<32◌}
use interstellar_db.Float.{F64}
use interstellar_db.Indexer.{HybridSpatioTemporalIndexer}

-- `(1u32 << 21) - 1`.
abbrev pub max_21bit : ℕ
max_21bit = 1 <<32 21 - 1

-- `n.clamp(lo, hi)` of integers.
unfoldable pub clamp_nat : ℕ → ℕ → ℕ → ℕ
clamp_nat n lo hi = if ltb n lo then lo else if ltb hi n then hi else n

module _ (f : F64) (self : HybridSpatioTemporalIndexer f) where
  unfoldable pub normalize_coordinate : f.Value → ℕ
  normalize_coordinate val =
      let clamped = f.clamp val (f.neg self.max_range) self.max_range in
      let normalized = f.div (f.add clamped self.max_range) (f.mul (f.of_u32 2) self.max_range) in
      f.as_u32 (f.round (f.mul normalized (f.of_u32 max_21bit)))

  unfoldable pub denormalize_coordinate : ℕ → f.Value
  denormalize_coordinate val =
      let normalized = f.div (f.of_u32 val) (f.of_u32 max_21bit) in
      f.sub (f.mul (f.mul normalized (f.of_u32 2)) self.max_range) self.max_range

  unfoldable pub calculate_optimal_depth : f.Value → ℕ
  unfolding clamp_nat
  calculate_optimal_depth radius =
      let fraction = f.div (f.mul radius (f.of_u32 2)) (f.mul self.max_range (f.of_u32 2)) in
      if f.leb (f.of_u32 1) fraction
      then 3
      else let subdivisions = f.as_u64 (f.floor (f.log2 (f.div (f.of_u32 1) fraction))) in
        let axis_bits = clamp_nat subdivisions 1 21 in axis_bits * 3
