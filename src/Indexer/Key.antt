-- ===== src/Indexer/Key.antt =====
-- crates/interstellar-index/src/lib.rs: `generate_key` and `decode_key`, as a release build runs
-- them (without the `debug_assert!`). The three copies into the zeroed array fill it side by side.
pub mod Order
pub mod RoundTrip
use interstellar_db.Base.{ℕ, ◌+◌, ◌*◌, ◌/◌, ◌%◌, List, ◌++◌}
use interstellar_db.Base.Bytes.{to_be_bytes, from_be_bytes, slice}
use interstellar_db.Base.Word.{u32, u64}
use interstellar_db.Float.{F64}
use interstellar_db.Indexer.{HybridSpatioTemporalIndexer}
use interstellar_db.Indexer.Coordinate.{normalize_coordinate, denormalize_coordinate}
use interstellar_db.Indexer.Morton.{encode_3d_morton, decode_3d_morton}

abbrev pub nanos_per_sec : ℕ
nanos_per_sec = 1_000_000_000

-- `[4B macro epoch] [8B 3-D Morton] [8B nanosecond offset]`, each written by `to_be_bytes`.
unfoldable pub key_bytes : ℕ → ℕ → ℕ → List ℕ
key_bytes epoch spatial nano = to_be_bytes 4 epoch ++ (to_be_bytes 8 spatial ++ to_be_bytes 8 nano)

-- The fields of a key, as every reader takes them out: `key[0..4]`, `key[4..12]`, `key[12..20]`.
unfoldable pub epoch_field : List ℕ → ℕ
epoch_field key = from_be_bytes (slice 0 4 key)

unfoldable pub spatial_field : List ℕ → ℕ
spatial_field key = from_be_bytes (slice 4 12 key)

unfoldable pub nano_field : List ℕ → ℕ
nano_field key = from_be_bytes (slice 12 20 key)

-- The tuple that `decode_key` returns.
pub record Point (f : F64) : Type 0 where
  pub x : f.Value
  pub y : f.Value
  pub z : f.Value
  pub secs : ℕ
  pub nanos : ℕ

module _ (f : F64) (self : HybridSpatioTemporalIndexer f) where
  -- `(timestamp_secs / self.epoch_duration as u64) as u32`.
  unfoldable pub epoch_bucket : ℕ → ℕ
  epoch_bucket timestamp_secs = u32 (timestamp_secs / self.epoch_duration)

  unfoldable pub nano_offset : ℕ → ℕ → ℕ
  nano_offset timestamp_secs timestamp_nanos =
      u64 (u64 (timestamp_secs % self.epoch_duration * nanos_per_sec) + timestamp_nanos)

  unfoldable pub spatial_code : f.Value → f.Value → f.Value → ℕ
  spatial_code x y z =
      encode_3d_morton (normalize_coordinate f self x) (normalize_coordinate f self y)
        (normalize_coordinate f self z)

  unfoldable pub generate_key : f.Value → f.Value → f.Value → ℕ → ℕ → List ℕ
  generate_key x y z timestamp_secs timestamp_nanos =
      key_bytes (epoch_bucket timestamp_secs) (spatial_code x y z)
        (nano_offset timestamp_secs timestamp_nanos)

  unfoldable pub decode_key : List ℕ → Point f
  decode_key key =
      let axes = decode_3d_morton (spatial_field key) in
      let total_nanos =
        u64 (u64 (u64 (epoch_field key * self.epoch_duration) * nanos_per_sec) + nano_field key) in
      record {
        x = denormalize_coordinate f self axes.x;
        y = denormalize_coordinate f self axes.y;
        z = denormalize_coordinate f self axes.z;
        secs = total_nanos / nanos_per_sec;
        nanos = total_nanos % nanos_per_sec;
      }
