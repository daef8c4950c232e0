-- ===== src/Indexer/Prefixes.antt =====
-- crates/interstellar-index/src/lib.rs: `compute_spatial_prefixes`, the walk over the Morton grid.
pub mod Loop
pub mod Cells
pub mod Cover
pub mod Exact
use interstellar_db.Base.{ℕ, zero, suc, ◌+◌, ◌-◌, ◌/◌, List, [], ltb, leb, if◌then◌else◌}
use interstellar_db.Base.BTreeSet.{insert}
use interstellar_db.Base.Word.{u32_max, ◌>>>◌, ◌<<32◌, ◌<<64◌}
use interstellar_db.Float.{F64}
use interstellar_db.Indexer.{HybridSpatioTemporalIndexer}
use interstellar_db.Indexer.Coordinate.{normalize_coordinate}
use interstellar_db.Indexer.Morton.{encode_3d_morton}

-- One axis: `while v <= v_max { body; if v > u32::MAX - step { break; } v += step; }`, with the
-- state that the body changes. The fuel is the number of rounds still allowed.
unfoldable pub axis_loop {ℓ} : {S : Type ℓ} → ℕ → ℕ → ℕ → (ℕ → S → S) → ℕ → S → S
axis_loop zero step v_max body v s = s
axis_loop (suc fuel) step v_max body v s =
    let rest = axis_loop fuel step v_max body (v + step) (body v s) in
    if leb v v_max then (if ltb (u32_max - step) v then body v s else rest) else s

-- A round goes up by at least 1, so one more round than `v_max` is always enough.
abbrev pub walk_axis {ℓ} : {S : Type ℓ} → ℕ → ℕ → ℕ → (ℕ → S → S) → S → S
walk_axis step v_max v body s = axis_loop (suc v_max) step v_max body v s

-- `(m >> shift) << shift`.
unfoldable pub cell_prefix : ℕ → ℕ → ℕ
cell_prefix shift m = m >>> shift <<64 shift

-- The three nested loops, into an empty set.
unfoldable pub grid_loops : ℕ → ℕ → ℕ → ℕ → ℕ → ℕ → ℕ → ℕ → List ℕ
grid_loops shift step nx_max x0 ny_max y0 nz_max z0 =
    walk_axis step nx_max x0
      (λ x. walk_axis step ny_max y0 λ y.
        walk_axis step nz_max z0
          λ z prefixes. insert (cell_prefix shift (encode_3d_morton x y z)) prefixes)
      []

-- The walk over the box from `min` to `max` on each axis, at `depth_bits`.
unfoldable pub walk_grid : ℕ → ℕ → ℕ → ℕ → ℕ → ℕ → ℕ → List ℕ
walk_grid depth_bits nx_min nx_max ny_min ny_max nz_min nz_max =
    let shift = 64 - depth_bits in
    let axis_bits = depth_bits / 3 in
    let axis_shift = 21 - axis_bits in
    let step = 1 <<32 axis_shift in
    let x0 = nx_min >>> axis_shift <<32 axis_shift in
    let y0 = ny_min >>> axis_shift <<32 axis_shift in
    let z0 = nz_min >>> axis_shift <<32 axis_shift in
    grid_loops shift step nx_max x0 ny_max y0 nz_max z0

module _ (f : F64) (self : HybridSpatioTemporalIndexer f) where
  unfoldable pub compute_spatial_prefixes : f.Value → f.Value → f.Value → f.Value → ℕ → List ℕ
  compute_spatial_prefixes center_x center_y center_z radius depth_bits =
      let nx_min = normalize_coordinate f self (f.sub center_x radius) in
      let nx_max = normalize_coordinate f self (f.add center_x radius) in
      let ny_min = normalize_coordinate f self (f.sub center_y radius) in
      let ny_max = normalize_coordinate f self (f.add center_y radius) in
      let nz_min = normalize_coordinate f self (f.sub center_z radius) in
      let nz_max = normalize_coordinate f self (f.add center_z radius) in
      walk_grid depth_bits nx_min nx_max ny_min ny_max nz_min nz_max
