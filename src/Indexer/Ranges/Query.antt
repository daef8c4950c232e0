-- ===== src/Indexer/Ranges/Query.antt =====
-- The ranges that a query plans, for the observations that it asks for.
use interstellar_db.Base.{
  ℕ, ◌-◌, ◌*◌, ◌/◌, ◌%◌, ◌^◌, ◌≤◌, ◌<◌, ◌≡◌, ◌↔◌, ◌⊎◌, inl, inr, ap, arith, bit_or, List, subst,
  some, le→leb,
}
use interstellar_db.Float.{F64, IsIeee}
use interstellar_db.Indexer.{HybridSpatioTemporalIndexer, IsValid}
use interstellar_db.Indexer.Coordinate.Bounds.{IsDepth}
use interstellar_db.Indexer.Key.{
  nanos_per_sec, epoch_bucket, nano_offset, spatial_code, generate_key,
}
use interstellar_db.Indexer.Key.RoundTrip.{generate_key-InWidth, nano_offset_lem}
use interstellar_db.Indexer.Prefixes.{cell_prefix}
use interstellar_db.Indexer.Ranges.{
  KeyRange, mask_bits, Span, window_span, get_boundary_protected_ranges_time_window,
}
use interstellar_db.Indexer.Ranges.Window.{
  AnyCovers, IsSpan, window_ranges, WindowKey, window_ranges-covers_iff,
}
use native.Mathlib.Nat.{mod-lt, mod-eq_of_lt, div-add-mod'}
use interstellar_db.Indexer.Ranges.Box.{
  query_box, compute_spatial_prefixes_lem, InBox, is_depth_of, query_box-IsProper,
  observation-CellOf,
}

-- A window, within the epochs that a u32 counts.
pub record IsWindow (f : F64) (self : HybridSpatioTemporalIndexer f) (start_secs end_secs : ℕ)
    : Type 0 where
  pub order : start_secs ≤ end_secs
  pub end_u32 : end_secs / self.epoch_duration < 2 ^ 32

div_mono : (a b d : ℕ) → 0 < d → a ≤ b → a / d ≤ b / d
div_mono a b d pos h = grind (arith, div-add-mod' a d, div-add-mod' b d, mod-lt a pos, mod-lt b pos)

-- Within one epoch, times compare as their places in it do.
same_epoch : (d a b : ℕ) → a / d ≡ b / d → (a ≤ b → a % d ≤ b % d) × (a < b → a % d < b % d)
same_epoch d a b e =
    let p : a / d * d ≡ b / d * d = ap (λ (t : ℕ). t * d) e in
    (
      λ h. omega (arith, p, div-add-mod' a d, div-add-mod' b d),
      λ h. omega (arith, p, div-add-mod' a d, div-add-mod' b d),
    )

module _ (f : F64) (self : HybridSpatioTemporalIndexer f) (valid : IsValid f self)
    (start_secs end_secs : ℕ) (window : IsWindow f self start_secs end_secs) where
  -- The fields of the window's span, uncut.
  pub record SpanFields (w : Span) : Type 0 where
    pub first : w.start_epoch ≡ start_secs / self.epoch_duration
    pub last : w.end_epoch ≡ end_secs / self.epoch_duration
    pub from : w.start_nano ≡ start_secs % self.epoch_duration * nanos_per_sec
    pub to : w.end_nano ≡ end_secs % self.epoch_duration * nanos_per_sec

  pub window_span_lem : SpanFields (window_span f self start_secs end_secs)
  unfolding window_span
  window_span_lem =
      let up = div_mono start_secs end_secs self.epoch_duration valid.duration_pos window.order in
      record {
        first = mod-eq_of_lt (omega (arith, up, window.end_u32));
        last = mod-eq_of_lt window.end_u32;
        from = omega (arith, mod-lt start_secs valid.duration_pos, valid.duration_u32);
        to = omega (arith, mod-lt end_secs valid.duration_pos, valid.duration_u32);
      }

  pub window_span-IsSpan : IsSpan (window_span f self start_secs end_secs)
  window_span-IsSpan =
      let s = window_span_lem in
      let up = div_mono start_secs end_secs self.epoch_duration valid.duration_pos window.order in
      record {
        order = omega (arith, s, up);
        epoch_u32 = omega (arith, s, window.end_u32);
        start_u64 = omega (arith, s, mod-lt start_secs valid.duration_pos, valid.duration_u32);
        end_u64 = omega (arith, s, mod-lt end_secs valid.duration_pos, valid.duration_u32);
      }

module _ (f : F64) (ieee : IsIeee f) (self : HybridSpatioTemporalIndexer f) (valid : IsValid f self)
    (cx cy cz r x y z : f.Value) (inside : InBox f self cx cy cz r x y z) (start_secs end_secs : ℕ)
    (window : IsWindow f self start_secs end_secs) (depth : ℕ) (good : IsDepth depth) where
  abbrev planned : List KeyRange
  planned =
      window_ranges (depth / 3) (query_box f self cx cy cz r)
        (window_span f self start_secs end_secs)

  pub time_window_lem :
      get_boundary_protected_ranges_time_window f self cx cy cz r start_secs end_secs depth
      ≡ some planned
  unfolding get_boundary_protected_ranges_time_window
  time_window_lem =
      let e : 3 * (depth / 3) ≡ depth = omega (arith, good) in
      rw (
        is_depth_of depth good,
        le→leb start_secs end_secs window.order,
        compute_spatial_prefixes_lem f self cx cy cz r depth,
        e,
      )

  -- The key of an observation lies in a planned range just if it is a key of the window.
  pub observation-covers_iff :
      (secs nanos : ℕ)
      → AnyCovers planned (generate_key f self x y z secs nanos)
        ↔ WindowKey
            (depth / 3)
            (query_box f self cx cy cz r)
            (window_span f self start_secs end_secs)
            (epoch_bucket f self secs)
            (spatial_code f self x y z)
            (nano_offset f self secs nanos)
  unfolding generate_key
  observation-covers_iff secs nanos =
      window_ranges-covers_iff (depth / 3) (query_box f self cx cy cz r)
        (window_span f self start_secs end_secs) (omega (arith, good)) (omega (arith, good))
        (query_box-IsProper f ieee self valid cx cy cz r x y z inside)
        (window_span-IsSpan f self valid start_secs end_secs window) _ _ _
        (generate_key-InWidth f self x y z secs nanos)

  -- An observation of the window has a key of the window.
  pub observation-WindowKey :
      (secs nanos : ℕ)
      → nanos < nanos_per_sec
      → start_secs ≤ secs
      → (secs < end_secs) ⊎ ((secs ≡ end_secs) × (nanos ≡ 0))
      → WindowKey
          (depth / 3)
          (query_box f self cx cy cz r)
          (window_span f self start_secs end_secs)
          (epoch_bucket f self secs)
          (spatial_code f self x y z)
          (nano_offset f self secs nanos)
  observation-WindowKey secs nanos hn from to =
      let d : ℕ = self.epoch_duration in
      let s = window_span_lem f self valid start_secs end_secs window in
      let up = div_mono start_secs secs d valid.duration_pos from in
      let to' : secs ≤ end_secs = omega arith in
      let down = div_mono secs end_secs d valid.duration_pos to' in
      let bucket : epoch_bucket f self secs ≡ secs / d =
        unfold epoch_bucket in mod-eq_of_lt (omega (arith, down, window.end_u32)) in
      let offset = nano_offset_lem f self secs nanos valid hn in
      record {
        epoch_lo = omega (arith, bucket, up, s);
        epoch_hi = omega (arith, bucket, down, s);
        cell = observation-CellOf f ieee self valid cx cy cz r x y z inside (depth / 3);
        after_start = λ at first.
            let same : start_secs / d ≡ secs / d = omega (arith, at, bucket, s) in
            omega (arith, offset, s, (same_epoch d start_secs secs same).0 from);
        before_end = λ at end_code.
            let same : secs / d ≡ end_secs / d = omega (arith, at, bucket, s) in
            elim to [
              | inl before ↦ omega (arith, offset, s, (same_epoch d secs end_secs same).1 before)
              | inr last ↦ omega (arith, offset, s, last.1, ap (λ (t : ℕ). t % d) last.0)
            ];
      }

  -- Where the range is positive and twice the range is finite, over floats that keep the order
  -- laws of IEEE 754, for a window whose end lies in the first 2^32 epochs and a depth that is a
  -- multiple of 3 from 3 to 63: the query plans ranges without a panic, and an observation whose
  -- coordinates are within the radius of the center on each axis, and whose time is from the start
  -- of the window up to the first nanosecond of its last second, has its key in one of them.
  pub time_window-covers :
      (secs nanos : ℕ)
      → nanos < nanos_per_sec
      → start_secs ≤ secs
      → (secs < end_secs) ⊎ ((secs ≡ end_secs) × (nanos ≡ 0))
      → (ranges : List KeyRange) × (get_boundary_protected_ranges_time_window f self cx cy cz r
            start_secs end_secs depth
          ≡ some ranges)
        × AnyCovers ranges (generate_key f self x y z secs nanos)
  time_window-covers secs nanos hn from to = (
    planned,
    time_window_lem,
    (observation-covers_iff secs nanos).1 (observation-WindowKey secs nanos hn from to),
  )

  not_covered :
      (nanos : ℕ)
      → 0 < nanos
      → nanos < nanos_per_sec
      → spatial_code f self x y z
        ≡ bit_or (cell_prefix (64 - depth) (spatial_code f self x y z)) (mask_bits depth)
      → ¬ AnyCovers planned (generate_key f self x y z end_secs nanos)
  not_covered nanos pos hn last covered =
      let d : ℕ = self.epoch_duration in
      let s = window_span_lem f self valid start_secs end_secs window in
      let v = (observation-covers_iff end_secs nanos).0 covered in
      let bucket : epoch_bucket f self end_secs ≡ end_secs / d =
        unfold epoch_bucket in mod-eq_of_lt window.end_u32 in
      let e : depth ≡ 3 * (depth / 3) = omega (arith, good) in
      let late = v.before_end (omega (arith, bucket, s)) (
        subst
          (λ (t : ℕ).
            spatial_code f self x y z
            ≡ bit_or (cell_prefix (64 - t) (spatial_code f self x y z)) (mask_bits t))
          e last) in
      omega (arith, late, s, nano_offset_lem f self end_secs nanos valid hn)

  -- Under the same conditions, the query plans ranges, and an observation in the box and in the
  -- last second of the window, behind its first nanosecond, has its key in none of them when its
  -- Morton code is the last of its cell.
  pub time_window-misses :
      (nanos : ℕ)
      → 0 < nanos
      → nanos < nanos_per_sec
      → spatial_code f self x y z
        ≡ bit_or (cell_prefix (64 - depth) (spatial_code f self x y z)) (mask_bits depth)
      → (ranges : List KeyRange) × (get_boundary_protected_ranges_time_window f self cx cy cz r
            start_secs end_secs depth
          ≡ some ranges)
        × (¬ AnyCovers ranges (generate_key f self x y z end_secs nanos))
  time_window-misses nanos pos hn last = (planned, time_window_lem, not_covered nanos pos hn last)
