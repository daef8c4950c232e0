-- ===== src/Indexer/Ranges.antt =====
-- crates/interstellar-index/src/lib.rs: `get_boundary_protected_ranges` and
-- `get_boundary_protected_ranges_time_window`. `none` is the panic of a failed assertion. The
-- capacity that is set aside for the result is not modelled.
pub mod Covers
pub mod Window
pub mod Box
pub mod Query
pub mod Epoch
pub mod Order
use interstellar_db.Base.{
  ℕ, zero, suc, ◌+◌, ◌-◌, ◌*◌, ◌/◌, ◌%◌, bit_or, List, [], ◌++◌, map, Bool, Option, none, some,
  ◌&&◌, leb, ◌==◌, if◌then◌else◌,
}
use interstellar_db.Base.Word.{u32, u64, u64_max, ◌<<64◌}
use interstellar_db.Float.{F64}
use interstellar_db.Indexer.{HybridSpatioTemporalIndexer}
use interstellar_db.Indexer.Key.{nanos_per_sec, key_bytes, epoch_bucket}
use interstellar_db.Indexer.Prefixes.{compute_spatial_prefixes}

-- An inclusive pair of keys.
pub record KeyRange : Type 0 where
  pub start_key : List ℕ
  pub end_key : List ℕ

-- The range of one cell of one epoch: full cells, from `t_lo` at its first code to `t_hi` at its last.
unfoldable pub cell_range : ℕ → ℕ → ℕ → ℕ → ℕ → KeyRange
cell_range spatial_mask epoch t_lo t_hi prefix = record {
  start_key = key_bytes epoch prefix t_lo;
  end_key = key_bytes epoch (bit_or prefix spatial_mask) t_hi;
}

-- `depth_bits >= 3 && depth_bits <= 63 && depth_bits % 3 == 0`.
unfoldable pub is_depth : ℕ → Bool
is_depth depth_bits = leb 3 depth_bits && leb depth_bits 63 && depth_bits % 3 == 0

-- `(1u64 << (64 - depth_bits)) - 1`.
abbrev pub mask_bits : ℕ → ℕ
mask_bits depth_bits = 1 <<64 (64 - depth_bits) - 1

-- The first and the last moment of a window, as an epoch and the nanoseconds in it.
pub record Span : Type 0 where
  pub start_epoch : ℕ
  pub end_epoch : ℕ
  pub start_nano : ℕ
  pub end_nano : ℕ

unfoldable pub t_lo : Span → ℕ → ℕ
t_lo w epoch = if epoch == w.start_epoch then w.start_nano else 0

unfoldable pub t_hi : Span → ℕ → ℕ
t_hi w epoch = if epoch == w.end_epoch then w.end_nano else u64_max

-- `for epoch in start_epoch..=end_epoch`, by the rounds left.
unfoldable pub window_loop : ℕ → ℕ → Span → ℕ → List ℕ → List KeyRange
window_loop zero spatial_mask w epoch prefixes = []
window_loop (suc left) spatial_mask w epoch prefixes =
    map (cell_range spatial_mask epoch (t_lo w epoch) (t_hi w epoch)) prefixes
    ++ window_loop left spatial_mask w (epoch + 1) prefixes

module _ (f : F64) (self : HybridSpatioTemporalIndexer f) where
  unfoldable pub get_boundary_protected_ranges :
      f.Value → f.Value → f.Value → f.Value → ℕ → ℕ → Option (List KeyRange)
  get_boundary_protected_ranges center_x center_y center_z radius timestamp_secs depth_bits =
      if is_depth depth_bits
      then (let epoch = epoch_bucket f self timestamp_secs in
          let spatial_mask = mask_bits depth_bits in
          some (
            map (cell_range spatial_mask epoch 0 u64_max)
              (compute_spatial_prefixes f self center_x center_y center_z radius depth_bits)))
      else none

  unfoldable pub window_span : ℕ → ℕ → Span
  window_span start_secs end_secs =
      let d = self.epoch_duration in
      record {
        start_epoch = u32 (start_secs / d);
        end_epoch = u32 (end_secs / d);
        start_nano = u64 (start_secs % d * nanos_per_sec);
        end_nano = u64 (end_secs % d * nanos_per_sec);
      }

  unfoldable pub get_boundary_protected_ranges_time_window :
      f.Value → f.Value → f.Value → f.Value → ℕ → ℕ → ℕ → Option (List KeyRange)
  get_boundary_protected_ranges_time_window center_x center_y center_z radius start_secs end_secs
        depth_bits =
      if is_depth depth_bits
      then (if leb start_secs end_secs
          then (let w = window_span start_secs end_secs in
              let spatial_mask = mask_bits depth_bits in
              let prefixes =
                compute_spatial_prefixes f self center_x center_y center_z radius depth_bits in
              some (
                window_loop (w.end_epoch + 1 - w.start_epoch) spatial_mask w w.start_epoch
                  prefixes))
          else none)
      else none
