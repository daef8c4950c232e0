-- ===== src/Indexer/Ranges/Epoch.antt =====
-- The ranges of a query within one epoch: those of a window that is the whole epoch.
use interstellar_db.Base.{
  ℕ, ◌+◌, ◌-◌, ◌*◌, ◌/◌, ◌≡◌, refl, sym, ap, ◌∙◌, arith, List, map, some, ==_self,
}
use interstellar_db.Base.Word.{u64_max}
use interstellar_db.Float.{F64, IsIeee}
use interstellar_db.Indexer.{HybridSpatioTemporalIndexer, IsValid}
use interstellar_db.Indexer.Coordinate.Bounds.{IsDepth}
use interstellar_db.Indexer.Key.{epoch_bucket, generate_key}
use interstellar_db.Indexer.Key.RoundTrip.{generate_key-InWidth}
use interstellar_db.Indexer.Prefixes.Cover.{Box, box_prefixes}
use interstellar_db.Indexer.Ranges.{
  KeyRange, cell_range, mask_bits, Span, t_lo, t_hi, window_loop, get_boundary_protected_ranges,
}
use interstellar_db.Indexer.Ranges.Box.{
  query_box, compute_spatial_prefixes_lem, InBox, is_depth_of, query_box-IsProper,
  observation-CellOf,
}
use interstellar_db.Indexer.Ranges.Window.{AnyCovers, window_ranges, window_ranges-covers_iff}
use mathlib.Core.List.{append-nil}

-- The whole of an epoch.
abbrev whole : ℕ → Span
whole epoch = record { start_epoch = epoch; end_epoch = epoch; start_nano = 0; end_nano = u64_max }

whole_ranges :
    (k epoch : ℕ) (b : Box)
    → window_ranges k b (whole epoch)
      ≡ map (cell_range (mask_bits (3 * k)) epoch 0 u64_max) (box_prefixes (3 * k) b)
unfolding window_loop t_lo t_hi
whole_ranges k epoch b =
    let one : epoch + 1 - epoch ≡ 1 = omega arith in
    ap (λ (n : ℕ). window_loop n (mask_bits (3 * k)) (whole epoch) epoch (box_prefixes (3 * k) b))
      one
    ∙ append-nil _
    ∙ rw (==_self epoch) refl

module _ (f : F64) (ieee : IsIeee f) (self : HybridSpatioTemporalIndexer f) (valid : IsValid f self)
    (cx cy cz r x y z : f.Value) (inside : InBox f self cx cy cz r x y z) (depth : ℕ)
    (good : IsDepth depth) where
  epoch_ranges_lem :
      (timestamp_secs : ℕ)
      → get_boundary_protected_ranges f self cx cy cz r timestamp_secs depth
        ≡ some (
            window_ranges
              (depth / 3)
              (query_box f self cx cy cz r)
              (whole (epoch_bucket f self timestamp_secs)))
  unfolding get_boundary_protected_ranges
  epoch_ranges_lem timestamp_secs =
      let e : 3 * (depth / 3) ≡ depth = omega (arith, good) in
      rw (is_depth_of depth good, compute_spatial_prefixes_lem f self cx cy cz r depth)
        (ap
            (λ (n : ℕ). some (
              map (cell_range (mask_bits n) (epoch_bucket f self timestamp_secs) 0 u64_max)
                (box_prefixes n (query_box f self cx cy cz r))))
            (sym e)
          ∙ ap some (
              sym (
                whole_ranges (depth / 3) (epoch_bucket f self timestamp_secs)
                  (query_box f self cx cy cz r))))

  -- Where the range is positive and twice the range is finite, over floats that keep the order
  -- laws of IEEE 754, for a depth that is a multiple of 3 from 3 to 63: the query for the epoch of
  -- a time plans ranges without a panic, and an observation whose coordinates are within the
  -- radius of the center on each axis, at any time of that epoch, has its key in one of them.
  pub boundary_protected_ranges-covers :
      (timestamp_secs secs nanos : ℕ)
      → epoch_bucket f self secs ≡ epoch_bucket f self timestamp_secs
      → (ranges : List KeyRange) × (get_boundary_protected_ranges f self cx cy cz r timestamp_secs
            depth
          ≡ some ranges)
        × AnyCovers ranges (generate_key f self x y z secs nanos)
  unfolding generate_key
  boundary_protected_ranges-covers timestamp_secs secs nanos same =
      let width = generate_key-InWidth f self x y z secs nanos in
      let fits = width.epoch_u32 in
      (
        _,
        epoch_ranges_lem timestamp_secs,
        (window_ranges-covers_iff (depth / 3) (query_box f self cx cy cz r)
              (whole (epoch_bucket f self timestamp_secs)) (omega (arith, good))
              (omega (arith, good)) (query_box-IsProper f ieee self valid cx cy cz r x y z inside)
              (record {
                order = omega arith;
                epoch_u32 = omega (arith, fits, same);
                start_u64 = omega arith;
                end_u64 = omega arith;
              })
              _ _ _ width).1
            (record {
              epoch_lo = omega (arith, same);
              epoch_hi = omega (arith, same);
              cell = observation-CellOf f ieee self valid cx cy cz r x y z inside (depth / 3);
              after_start = λ at first. omega arith;
              before_end = λ at last. omega (arith, width.nano_u64);
            }),
      )
