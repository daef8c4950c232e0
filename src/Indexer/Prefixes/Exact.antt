-- ===== src/Indexer/Prefixes/Exact.antt =====
-- The walk finds the cells of the box's points: all of them, and no others.
use interstellar_db.Base.{ℕ, ◌+◌, ◌-◌, ◌*◌, ◌/◌, ◌^◌, ◌≤◌, ◌≡◌, ◌↔◌, sym, ap, ◌∙◌, arith, Member}
use interstellar_db.Base.BTreeSet.{IsAscending}
use interstellar_db.Base.Digits.{two_pow_pos}
use interstellar_db.Indexer.Morton.{encode_3d_morton}
use interstellar_db.Indexer.Prefixes.{cell_prefix}
use interstellar_db.Indexer.Prefixes.Cells.{Is21Bit, same_cell_iff}
use interstellar_db.Indexer.Prefixes.Cover.{
  Box, Within, IsProper, box_prefixes, snap, snap-div, snap-IsVisited, visited-point, walk_grid_lem,
  GridPoint, member-grid_loops, grid_loops-member, grid_loops-IsAscending,
}
use native.Mathlib.Nat.{div-mul-le_self}

-- A number that is the prefix, at `3 * k` bits, of a point of the box.
pub record CellOf (k : ℕ) (b : Box) (p : ℕ) : Type 0 where
  pub x : ℕ
  pub y : ℕ
  pub z : ℕ
  pub within : Within b x y z
  pub place : p ≡ cell_prefix (64 - 3 * k) (encode_3d_morton x y z)

module _ (k : ℕ) (b : Box) (lo : 1 ≤ k) (hi : k ≤ 21) (proper : IsProper b) where
  abbrev free : ℕ
  free = 21 - k

  abbrev start : ℕ → ℕ
  start v = snap free v

  shift_lem : 64 - 3 * k ≡ 3 * free + 1
  shift_lem = omega arith

  Point : ℕ → Type 0
  Point =
      GridPoint (3 * free + 1) (2 ^ free) b.x_max (start b.x_min) b.y_max (start b.y_min) b.z_max
        (start b.z_min)

  -- Points of the box that share a grid cell share a prefix.
  same_cell :
      (x y z x' y' z' : ℕ)
      → Is21Bit x y z
      → Is21Bit x' y' z'
      → (x / 2 ^ free ≡ x' / 2 ^ free)
        × (y / 2 ^ free ≡ y' / 2 ^ free)
        × (z / 2 ^ free ≡ z' / 2 ^ free)
      → cell_prefix (3 * free + 1) (encode_3d_morton x y z)
        ≡ cell_prefix (3 * free + 1) (encode_3d_morton x' y' z')
  same_cell x y z x' y' z' h h' e =
      (same_cell_iff free x y z x' y' z' (omega arith) h h').1 (e.0, e.1, ap (λ (t : ℕ). t / 2) e.2)

  CellOf-point : (p : ℕ) → Point p → CellOf k b p
  unfolding Point
  CellOf-point p g =
      let (x, x_lo, x_hi, ex) = visited-point free b.x_min b.x_max g.x proper.x_order g.x_visited in
      let (y, y_lo, y_hi, ey) = visited-point free b.y_min b.y_max g.y proper.y_order g.y_visited in
      let (z, z_lo, z_hi, ez) = visited-point free b.z_min b.z_max g.z proper.z_order g.z_visited in
      record {
        x = x;
        y = y;
        z = z;
        within = record {
          x_lo = x_lo;
          x_hi = x_hi;
          y_lo = y_lo;
          y_hi = y_hi;
          z_lo = z_lo;
          z_hi = z_hi;
        };
        place =
            g.place
            ∙ same_cell g.x g.y g.z x y z
                (omega (arith, proper, g.x_visited.within, g.y_visited.within, g.z_visited.within))
                (omega (arith, proper)) (sym ex, sym ey, sym ez)
            ∙ ap (λ (t : ℕ). cell_prefix t (encode_3d_morton x y z)) (sym shift_lem);
      }

  point_of_cell : (p : ℕ) → CellOf k b p → Point p
  unfolding Point
  point_of_cell p c =
      let w = c.within in
      record {
        x = start c.x;
        y = start c.y;
        z = start c.z;
        x_visited = snap-IsVisited free b.x_min b.x_max c.x w.x_lo w.x_hi;
        y_visited = snap-IsVisited free b.y_min b.y_max c.y w.y_lo w.y_hi;
        z_visited = snap-IsVisited free b.z_min b.z_max c.z w.z_lo w.z_hi;
        place =
            c.place
            ∙ ap (λ (t : ℕ). cell_prefix t (encode_3d_morton c.x c.y c.z)) shift_lem
            ∙ same_cell c.x c.y c.z (start c.x) (start c.y) (start c.z) (omega (arith, proper, w))
                (omega (
                  arith,
                  proper,
                  w,
                  div-mul-le_self c.x (2 ^ free),
                  div-mul-le_self c.y (2 ^ free),
                  div-mul-le_self c.z (2 ^ free),
                ))
                (sym (snap-div free c.x), sym (snap-div free c.y), sym (snap-div free c.z));
      }

  -- For cells of 3 * k bits with k from 1 to 21 and a box of 21-bit coordinates with its corners
  -- in order: a number is among the prefixes of the walk just if it is the prefix of a point of
  -- the box.
  pub box_prefixes-CellOf_iff : (p : ℕ) → Member p (box_prefixes (3 * k) b) ↔ CellOf k b p
  box_prefixes-CellOf_iff p = rw (walk_grid_lem k b lo hi proper) (
    (λ m. CellOf-point p (unfold Point in grid_loops-member _ _ _ _ _ _ _ _ p m)),
    (λ c.
        member-grid_loops _ _ _ _ _ _ _ _ p (two_pow_pos free) (omega (arith, proper))
          (unfold Point in point_of_cell p c)),
  )

  pub box_prefixes-IsAscending : IsAscending (box_prefixes (3 * k) b)
  box_prefixes-IsAscending =
      rw (walk_grid_lem k b lo hi proper) (grid_loops-IsAscending _ _ _ _ _ _ _ _)
