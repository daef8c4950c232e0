-- ===== src/Indexer/Key/RoundTrip.antt =====
-- `generate_key` fills each field within its width, and `decode_key` reads the observation back.
use interstellar_db.Base.{ℕ, ◌+◌, ◌*◌, ◌/◌, ◌%◌, ◌^◌, ◌<◌, ◌≡◌, ap₂, ◌∙◌, true, arith}
use interstellar_db.Base.Word.{u64}
use interstellar_db.Float.{F64, IsIeee}
use interstellar_db.Indexer.{HybridSpatioTemporalIndexer, IsValid}
use interstellar_db.Indexer.Coordinate.{normalize_coordinate, denormalize_coordinate}
use interstellar_db.Indexer.Coordinate.Bounds.{normalize_coordinate-le}
use interstellar_db.Indexer.Morton.{decode_3d_morton}
use interstellar_db.Indexer.Morton.Code.{encode_3d_morton-lt, decode_3d_morton-encode_3d_morton}
use interstellar_db.Indexer.Key.{
  nanos_per_sec, Point, epoch_bucket, nano_offset, spatial_code, generate_key, decode_key,
}
use interstellar_db.Indexer.Key.Order.{
  InWidth, epoch_field-key_bytes, spatial_field-key_bytes, nano_field-key_bytes,
}
use native.Mathlib.Nat.{mod-lt, mod-eq_of_lt, div-add-mod'}

module _ (f : F64) (self : HybridSpatioTemporalIndexer f) where
  pub generate_key-InWidth :
      (x y z : f.Value) (secs nanos : ℕ)
      → InWidth
          (epoch_bucket f self secs)
          (spatial_code f self x y z)
          (nano_offset f self secs nanos)
  unfolding epoch_bucket spatial_code nano_offset
  generate_key-InWidth x y z secs nanos = record {
    epoch_u32 = omega arith;
    spatial_u64 = omega (
      arith,
      encode_3d_morton-lt (normalize_coordinate f self x) (normalize_coordinate f self y)
          (normalize_coordinate f self z),
    );
    nano_u64 = omega arith;
  }

  -- The time within the epoch is not cut, for a proper sub-second part.
  pub nano_offset_lem :
      (secs nanos : ℕ)
      → IsValid f self
      → nanos < nanos_per_sec
      → nano_offset f self secs nanos ≡ secs % self.epoch_duration * nanos_per_sec + nanos
  unfolding nano_offset
  nano_offset_lem secs nanos valid h =
      omega (arith, mod-lt secs valid.duration_pos, valid.duration_u32)

-- The fields of a time add up to the time in nanoseconds.
total_nanos_lem :
    (d secs nanos : ℕ)
    → 0 < d
    → nanos < nanos_per_sec
    → secs * nanos_per_sec + nanos < 2 ^ 64
    → u64 (u64 (u64 (secs / d * d) * nanos_per_sec) + (secs % d * nanos_per_sec + nanos))
      ≡ secs * nanos_per_sec + nanos
total_nanos_lem d secs nanos pos hn fits = omega (arith, div-add-mod' secs d)

Point_times :
    (f : F64) (x y z : f.Value) {s s' n n' : ℕ}
    → s ≡ s'
    → n ≡ n'
    → ◌≡◌ {A = Point f}
        (record { x = x; y = y; z = z; secs = s; nanos = n })
        (record { x = x; y = y; z = z; secs = s'; nanos = n' })
Point_times f x y z p q = λ i. record { x = x; y = y; z = z; secs = p i; nanos = q i }

module _ (f : F64) (ieee : IsIeee f) (self : HybridSpatioTemporalIndexer f) (valid : IsValid f self)
    (x y z : f.Value) (x_number : f.leb x x ≡ true) (y_number : f.leb y y ≡ true)
    (z_number : f.leb z z ≡ true) where
  pub decode-spatial_code : decode_3d_morton (spatial_code f self x y z) ≡ record {
    x = normalize_coordinate f self x;
    y = normalize_coordinate f self y;
    z = normalize_coordinate f self z;
  }
  unfolding spatial_code
  decode-spatial_code =
      decode_3d_morton-encode_3d_morton (normalize_coordinate f self x)
        (normalize_coordinate f self y) (normalize_coordinate f self z)
        (omega (arith, normalize_coordinate-le f ieee self valid x x_number))
        (omega (arith, normalize_coordinate-le f ieee self valid y y_number))
        (omega (arith, normalize_coordinate-le f ieee self valid z z_number))

  -- Where the range is positive and twice the range is finite, over floats that keep the order
  -- laws of IEEE 754: the key of an observation with coordinates that are numbers, fewer than 10^9
  -- nanoseconds, an epoch below 2^32 and a time below 2^64 nanoseconds decodes to the same time
  -- and to the coordinates that normalizing and denormalizing gives.
  pub decode_key-generate_key :
      (secs nanos : ℕ)
      → nanos < nanos_per_sec
      → secs / self.epoch_duration < 2 ^ 32
      → secs * nanos_per_sec + nanos < 2 ^ 64
      → decode_key f self (generate_key f self x y z secs nanos) ≡ record {
        x = denormalize_coordinate f self (normalize_coordinate f self x);
        y = denormalize_coordinate f self (normalize_coordinate f self y);
        z = denormalize_coordinate f self (normalize_coordinate f self z);
        secs = secs;
        nanos = nanos;
      }
  unfolding decode_key generate_key
  decode_key-generate_key secs nanos hn he ht =
      let w = generate_key-InWidth f self x y z secs nanos in
      let e = epoch_bucket f self secs in
      let m = spatial_code f self x y z in
      let t = nano_offset f self secs nanos in
      let bucket : e ≡ secs / self.epoch_duration = unfold epoch_bucket in mod-eq_of_lt he in
      let total : u64 (u64 (u64 (e * self.epoch_duration) * nanos_per_sec) + t)
          ≡ secs * nanos_per_sec + nanos =
        ap₂ (λ (b c : ℕ). u64 (u64 (u64 (b * self.epoch_duration) * nanos_per_sec) + c)) bucket
          (nano_offset_lem f self secs nanos valid hn)
        ∙ total_nanos_lem self.epoch_duration secs nanos valid.duration_pos hn ht in
      rw
        (
          epoch_field-key_bytes e m t w,
          spatial_field-key_bytes e m t w,
          nano_field-key_bytes e m t w,
          decode-spatial_code,
        )
        (Point_times f _ _ _ (omega (arith, total)) (omega (arith, total)))
