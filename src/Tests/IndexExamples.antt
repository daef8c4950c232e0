-- ===== src/Tests/IndexExamples.antt =====
-- Runs of the indexer, and its theorems applied to them.
use interstellar_db.Base.{
  ◌-◌, ◌*◌, ◌/◌, ◌^◌, ◌≤◌, ◌≡◌, ◌↔◌, inl, refl, arith, bit_or, true, List, some, Member,
}
use interstellar_db.Base.Bytes.{bytes_leb}
use interstellar_db.Indexer.{HybridSpatioTemporalIndexer, IsValid, new}
use interstellar_db.Indexer.Coordinate.{
  max_21bit, normalize_coordinate, denormalize_coordinate, calculate_optimal_depth,
}
use interstellar_db.Indexer.Coordinate.Bounds.{
  IsDepth, calculate_optimal_depth-IsDepth, normalize_coordinate_bounds,
}
use interstellar_db.Indexer.Key.{key_bytes, epoch_bucket, spatial_code, generate_key, decode_key}
use interstellar_db.Indexer.Key.Order.{KeyLe, key_bytes-le}
use interstellar_db.Indexer.Key.RoundTrip.{decode_key-generate_key}
use interstellar_db.Indexer.Morton.{encode_3d_morton, decode_3d_morton}
use interstellar_db.Indexer.Morton.Code.{decode_3d_morton-encode_3d_morton}
use interstellar_db.Indexer.Prefixes.{cell_prefix}
use interstellar_db.Indexer.Prefixes.Cells.{cell_prefix-encode_iff}
use interstellar_db.Indexer.Prefixes.Cover.{Box, IsProper, box_prefixes}
use interstellar_db.Indexer.Prefixes.Exact.{CellOf, box_prefixes-CellOf_iff}
use interstellar_db.Indexer.Ranges.{
  KeyRange, Span, mask_bits, get_boundary_protected_ranges,
  get_boundary_protected_ranges_time_window,
}
use interstellar_db.Indexer.Ranges.Epoch.{boundary_protected_ranges-covers}
use interstellar_db.Indexer.Ranges.Order.{IsSeparated, window_ranges-IsSeparated}
use interstellar_db.Indexer.Ranges.Box.{InBox}
use interstellar_db.Indexer.Ranges.Query.{IsWindow, time_window-covers, time_window-misses}
use interstellar_db.Indexer.Ranges.Window.{
  AnyCovers, IsSpan, window_ranges, WindowKey, window_ranges-covers_iff,
}
use interstellar_db.Tests.Fixed.{fixed, halvings, unit, fixed-IsIeee}

abbrev indexer : HybridSpatioTemporalIndexer fixed
indexer = record { max_range = 1000 * unit; epoch_duration = 3600 }

made_by_new : new fixed (1000 * unit) 3600 ≡ some indexer
unfolding new
made_by_new = refl

indexer-IsValid : IsValid fixed indexer
indexer-IsValid = record {
  range_pos = refl;
  range_finite = refl;
  double_finite = refl;
  duration_pos = omega arith;
  duration_u32 = omega arith;
}

axes_isolated :
    (encode_3d_morton 1 0 0 ≡ 4)
    × (encode_3d_morton 0 1 0 ≡ 2)
    × (encode_3d_morton 0 0 1 ≡ 1)
    × (encode_3d_morton 3 3 3 ≡ 63)
unfolding encode_3d_morton
axes_isolated = (refl, refl, refl, refl)

normalized_ends :
    (normalize_coordinate fixed indexer (1000 * unit) ≡ max_21bit)
    × (normalize_coordinate fixed indexer (9999 * unit) ≡ max_21bit)
unfolding normalize_coordinate
normalized_ends = (refl, refl)

depth_of_radius :
    (calculate_optimal_depth fixed indexer (1000 * unit) ≡ 3)
    × (calculate_optimal_depth fixed indexer (30 * unit) ≡ 15)
unfolding calculate_optimal_depth halvings
depth_of_radius = (refl, refl)

decode_3d_morton-encode_3d_morton_example :
    decode_3d_morton (encode_3d_morton 123456 654321 111111)
    ≡ record { x = 123456; y = 654321; z = 111111 }
decode_3d_morton-encode_3d_morton_example =
    decode_3d_morton-encode_3d_morton 123456 654321 111111 (omega arith) (omega arith) (omega arith)

inside :
    InBox fixed indexer
      (100 * unit)
      (100 * unit)
      (100 * unit)
      (30 * unit)
      (110 * unit)
      (95 * unit)
      (100 * unit)
inside = record { x_lo = refl; x_hi = refl; y_lo = refl; y_hi = refl; z_lo = refl; z_hi = refl }

window : IsWindow fixed indexer 3700 7500
window = record { order = omega arith; end_u32 = omega arith }

good-IsDepth : IsDepth 15
good-IsDepth = record { at_least = omega arith; at_most = omega arith; multiple = refl }

time_window-covers_example :
    (ranges : List KeyRange) × (get_boundary_protected_ranges_time_window fixed indexer
        (100 * unit)
        (100 * unit)
        (100 * unit)
        (30 * unit)
        3700
        7500
        15
      ≡ some ranges)
    × AnyCovers ranges (generate_key fixed indexer (110 * unit) (95 * unit) (100 * unit) 4000 7)
time_window-covers_example =
    time_window-covers fixed fixed-IsIeee indexer indexer-IsValid (100 * unit) (100 * unit)
      (100 * unit) (30 * unit) (110 * unit) (95 * unit) (100 * unit) inside 3700 7500 window 15
      good-IsDepth 4000 7 (omega arith) (omega arith) (inl (omega arith))

corner :
    InBox fixed indexer
      (1000 * unit)
      (1000 * unit)
      (1000 * unit)
      (10 * unit)
      (1000 * unit)
      (1000 * unit)
      (1000 * unit)
corner = record { x_lo = refl; x_hi = refl; y_lo = refl; y_hi = refl; z_lo = refl; z_hi = refl }

corner-last :
    spatial_code fixed indexer (1000 * unit) (1000 * unit) (1000 * unit)
    ≡ bit_or
        (cell_prefix
          (64 - 15)
          (spatial_code fixed indexer (1000 * unit) (1000 * unit) (1000 * unit)))
        (mask_bits 15)
unfolding spatial_code normalize_coordinate encode_3d_morton cell_prefix
corner-last = refl

time_window-misses_example :
    (ranges : List KeyRange) × (get_boundary_protected_ranges_time_window fixed indexer
        (1000 * unit)
        (1000 * unit)
        (1000 * unit)
        (10 * unit)
        3700
        7500
        15
      ≡ some ranges)
    × (¬ AnyCovers ranges
        (generate_key fixed indexer (1000 * unit) (1000 * unit) (1000 * unit) 7500 1))
time_window-misses_example =
    time_window-misses fixed fixed-IsIeee indexer indexer-IsValid (1000 * unit) (1000 * unit)
      (1000 * unit) (10 * unit) (1000 * unit) (1000 * unit) (1000 * unit) corner 3700 7500 window 15
      good-IsDepth 1 (omega arith) (omega arith) corner-last

same_bucket : epoch_bucket fixed indexer 7201 ≡ epoch_bucket fixed indexer 7300
unfolding epoch_bucket
same_bucket = refl

boundary_protected_ranges-covers_example :
    (ranges : List KeyRange) × (get_boundary_protected_ranges fixed indexer
        (100 * unit)
        (100 * unit)
        (100 * unit)
        (30 * unit)
        7300
        15
      ≡ some ranges)
    × AnyCovers ranges (generate_key fixed indexer (110 * unit) (95 * unit) (100 * unit) 7201 5)
boundary_protected_ranges-covers_example =
    boundary_protected_ranges-covers fixed fixed-IsIeee indexer indexer-IsValid (100 * unit)
      (100 * unit) (100 * unit) (30 * unit) (110 * unit) (95 * unit) (100 * unit) inside 15
      good-IsDepth 7300 7201 5 same_bucket

decode_key-generate_key_example :
    decode_key fixed indexer
      (generate_key fixed indexer (110 * unit) (95 * unit) (100 * unit) 1700000000 250)
    ≡ record {
      x = denormalize_coordinate fixed indexer (normalize_coordinate fixed indexer (110 * unit));
      y = denormalize_coordinate fixed indexer (normalize_coordinate fixed indexer (95 * unit));
      z = denormalize_coordinate fixed indexer (normalize_coordinate fixed indexer (100 * unit));
      secs = 1700000000;
      nanos = 250;
    }
decode_key-generate_key_example =
    decode_key-generate_key fixed fixed-IsIeee indexer indexer-IsValid (110 * unit) (95 * unit)
      (100 * unit) refl refl refl 1700000000 250 (omega arith) (omega arith) (omega arith)

calculate_optimal_depth-IsDepth_example :
    IsDepth (calculate_optimal_depth fixed indexer (30 * unit))
calculate_optimal_depth-IsDepth_example = calculate_optimal_depth-IsDepth fixed indexer (30 * unit)

normalize_coordinate_bounds_example :
    (normalize_coordinate fixed indexer (95 * unit)
      ≤ normalize_coordinate fixed indexer (110 * unit))
    × (normalize_coordinate fixed indexer (110 * unit) ≤ max_21bit)
normalize_coordinate_bounds_example =
    normalize_coordinate_bounds fixed fixed-IsIeee indexer indexer-IsValid (95 * unit) (110 * unit)
      refl

key_bytes-le_example :
    (bytes_leb (key_bytes 1 7 900) (key_bytes 1 8 4) ≡ true) ↔ KeyLe 1 7 900 1 8 4
key_bytes-le_example =
    key_bytes-le 1 7 900 1 8 4
      (record { epoch_u32 = omega arith; spatial_u64 = omega arith; nano_u64 = omega arith })
      (record { epoch_u32 = omega arith; spatial_u64 = omega arith; nano_u64 = omega arith })

-- Two cells wide in x, one in y and in z.
abbrev box : Box
box = record { x_min = 10; x_max = 1048600; y_min = 3; y_max = 5; z_min = 0; z_max = 9 }

box-IsProper : IsProper box
box-IsProper = record {
  x_order = omega arith;
  y_order = omega arith;
  z_order = omega arith;
  x_21bit = omega arith;
  y_21bit = omega arith;
  z_21bit = omega arith;
}

box_prefixes-CellOf_iff_example : Member (2 ^ 62) (box_prefixes (3 * 1) box) ↔ CellOf 1 box (2 ^ 62)
box_prefixes-CellOf_iff_example =
    box_prefixes-CellOf_iff 1 box (omega arith) (omega arith) box-IsProper (2 ^ 62)

cell_prefix-encode_iff_example :
    (cell_prefix (64 - 3 * 5) (encode_3d_morton 1 2 3)
      ≡ cell_prefix (64 - 3 * 5) (encode_3d_morton 70000 2 131071))
    ↔ ((1 / 2 ^ (21 - 5) ≡ 70000 / 2 ^ (21 - 5))
        × (2 / 2 ^ (21 - 5) ≡ 2 / 2 ^ (21 - 5))
        × (3 / 2 ^ (22 - 5) ≡ 131071 / 2 ^ (22 - 5)))
cell_prefix-encode_iff_example =
    cell_prefix-encode_iff 5 1 2 3 70000 2 131071 (omega arith) (omega arith)
      (omega arith, omega arith, omega arith) (omega arith, omega arith, omega arith)

abbrev span : Span
span = record { start_epoch = 4; end_epoch = 6; start_nano = 100; end_nano = 200 }

span-IsSpan : IsSpan span
span-IsSpan = record {
  order = omega arith;
  epoch_u32 = omega arith;
  start_u64 = omega arith;
  end_u64 = omega arith;
}

window_ranges-covers_iff_example :
    AnyCovers (window_ranges 1 box span) (key_bytes 5 (2 ^ 62) 7)
    ↔ WindowKey 1 box span 5 (2 ^ 62) 7
window_ranges-covers_iff_example =
    window_ranges-covers_iff 1 box span (omega arith) (omega arith) box-IsProper span-IsSpan 5
      (2 ^ 62) 7
      (record { epoch_u32 = omega arith; spatial_u64 = omega arith; nano_u64 = omega arith })

window_ranges-IsSeparated_example : IsSeparated (window_ranges 1 box span)
window_ranges-IsSeparated_example =
    window_ranges-IsSeparated 1 box span (omega arith) (omega arith) box-IsProper span-IsSpan
