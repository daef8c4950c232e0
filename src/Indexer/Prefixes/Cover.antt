-- ===== src/Indexer/Prefixes/Cover.antt =====
-- The walk finds the cells of the box's points, all of them and no others, in ascending order.
use interstellar_db.Base.{
  ℕ, suc, ◌+◌, ◌-◌, ◌*◌, ◌/◌, ◌^◌, ◌≤◌, ◌<◌, ◌≡◌, refl, sym, ap, ◌∙◌, arith, List, [], Member, inl,
  inr, dec_lt,
}
use interstellar_db.Base.BTreeSet.{member-insert, IsAscending, insert-IsAscending}
use interstellar_db.Base.Digits.{two_pow_pos, two_pow_le}
use interstellar_db.Base.Word.{u32_max, ◌>>>◌, ◌<<32◌}
use interstellar_db.Indexer.Coordinate.{max_21bit}
use interstellar_db.Indexer.Morton.{encode_3d_morton}
use interstellar_db.Indexer.Prefixes.{cell_prefix, grid_loops, walk_grid}
use interstellar_db.Indexer.Prefixes.Loop.{IsVisited, axis_loop_keeps, walk_axis_visits}
use native.Mathlib.Nat.{mod-eq_of_lt, div-mul-le_self, lt-div-mul-add, le_refl, mul-div_left}

-- The lowest coordinate of a grid cell of step `2 ^ j`.
abbrev pub snap : ℕ → ℕ → ℕ
snap j v = v / 2 ^ j * 2 ^ j

pub snap-div : (j v : ℕ) → snap j v / 2 ^ j ≡ v / 2 ^ j
snap-div j v = mul-div_left (v / 2 ^ j) (two_pow_pos j)

-- A box of normalized coordinates, by its corners.
pub record Box : Type 0 where
  pub x_min : ℕ
  pub x_max : ℕ
  pub y_min : ℕ
  pub y_max : ℕ
  pub z_min : ℕ
  pub z_max : ℕ

-- Whether a point lies in the box.
pub record Within (b : Box) (x y z : ℕ) : Type 0 where
  pub x_lo : b.x_min ≤ x
  pub x_hi : x ≤ b.x_max
  pub y_lo : b.y_min ≤ y
  pub y_hi : y ≤ b.y_max
  pub z_lo : b.z_min ≤ z
  pub z_hi : z ≤ b.z_max

-- Corners in order, and in 21 bits.
pub record IsProper (b : Box) : Type 0 where
  pub x_order : b.x_min ≤ b.x_max
  pub y_order : b.y_min ≤ b.y_max
  pub z_order : b.z_min ≤ b.z_max
  pub x_21bit : b.x_max ≤ max_21bit
  pub y_21bit : b.y_max ≤ max_21bit
  pub z_21bit : b.z_max ≤ max_21bit

abbrev pub box_prefixes : ℕ → Box → List ℕ
box_prefixes depth_bits b = walk_grid depth_bits b.x_min b.x_max b.y_min b.y_max b.z_min b.z_max

-- A point's grid cell is visited on an axis that holds the point.
pub snap-IsVisited : (j lo hi v : ℕ) → lo ≤ v → v ≤ hi → IsVisited (2 ^ j) hi (snap j lo) (snap j v)
snap-IsVisited j lo hi v h k =
    let up : lo / 2 ^ j ≤ v / 2 ^ j = grind (arith, two_pow_pos j) in
    record {
      rounds = v / 2 ^ j - lo / 2 ^ j;
      place = grind arith;
      within = omega (arith, div-mul-le_self v (2 ^ j));
    }

-- A visited grid cell holds a point of the axis.
pub visited-point :
    (j lo hi w : ℕ)
    → lo ≤ hi
    → IsVisited (2 ^ j) hi (snap j lo) w
    → (v : ℕ) × (lo ≤ v) × (v ≤ hi) × (v / 2 ^ j ≡ w / 2 ^ j)
visited-point j lo hi w h i = elim (dec_lt w lo) [
  | yes below ↦ (
    lo,
    le_refl lo,
    h,
    let none_more : i.rounds ≡ 0 = grind (arith, lt-div-mul-add {a = lo} (two_pow_pos j)) in
        let first : w ≡ snap j lo = omega (arith, ap (λ (t : ℕ). t * 2 ^ j) none_more) in
        sym (snap-div j lo) ∙ ap (λ (t : ℕ). t / 2 ^ j) (sym first),
  )
  | no from ↦ (w, omega arith, i.within, refl)
]

shl32_fits : (v j : ℕ) → v * 2 ^ j < 2 ^ 32 → v <<32 j ≡ v * 2 ^ j
shl32_fits v j h = mod-eq_of_lt h

pub walk_grid_lem :
    (k : ℕ) (b : Box)
    → 1 ≤ k
    → k ≤ 21
    → IsProper b
    → let j = 21 - k in
      box_prefixes (3 * k) b
      ≡ grid_loops
          (3 * j + 1)
          (2 ^ j)
          b.x_max
          (snap j b.x_min)
          b.y_max
          (snap j b.y_min)
          b.z_max
          (snap j b.z_min)
unfolding walk_grid
walk_grid_lem k b lo hi proper =
    let j : ℕ = 21 - k in
    let small : 2 ^ j ≤ 2 ^ 20 = two_pow_le j 20 (omega arith) in
    let axis : 3 * k / 3 ≡ k = omega arith in
    let shift : 64 - 3 * k ≡ 3 * j + 1 = omega arith in
    let step : 1 <<32 j ≡ 2 ^ j = shl32_fits 1 j (omega arith) ∙ omega arith in
    let x0 : b.x_min >>> j <<32 j ≡ snap j b.x_min =
      shl32_fits (b.x_min / 2 ^ j) j
        (omega (arith, proper.x_order, proper.x_21bit, div-mul-le_self b.x_min (2 ^ j))) in
    let y0 : b.y_min >>> j <<32 j ≡ snap j b.y_min =
      shl32_fits (b.y_min / 2 ^ j) j
        (omega (arith, proper.y_order, proper.y_21bit, div-mul-le_self b.y_min (2 ^ j))) in
    let z0 : b.z_min >>> j <<32 j ≡ snap j b.z_min =
      shl32_fits (b.z_min / 2 ^ j) j
        (omega (arith, proper.z_order, proper.z_21bit, div-mul-le_self b.z_min (2 ^ j))) in
    rw (axis, shift, step, x0, y0, z0)

module _ (shift step x_max x0 y_max y0 z_max z0 : ℕ) where
  abbrev pub found : List ℕ
  found = grid_loops shift step x_max x0 y_max y0 z_max z0

  -- A visited grid point.
  pub record GridPoint (p : ℕ) : Type 0 where
    pub x : ℕ
    pub y : ℕ
    pub z : ℕ
    pub x_visited : IsVisited step x_max x0 x
    pub y_visited : IsVisited step y_max y0 y
    pub z_visited : IsVisited step z_max z0 z
    pub place : p ≡ cell_prefix shift (encode_3d_morton x y z)

  pub member-grid_loops :
      (p : ℕ)
      → 0 < step
      → (x_max ≤ u32_max) × (y_max ≤ u32_max) × (z_max ≤ u32_max)
      → GridPoint p
      → Member p found
  unfolding grid_loops
  member-grid_loops p pos top g =
      walk_axis_visits step x_max _ (Member p) x0 g.x [] pos top.0 g.x_visited
        (λ x t q.
          axis_loop_keeps step y_max _ (Member p) (suc y_max) y0 t
            (λ y t i q.
              axis_loop_keeps step z_max _ (Member p) (suc z_max) z0 t
                (λ z t i q. (member-insert p _ t).1 (inr q)) q)
            q)
        (λ t.
          walk_axis_visits step y_max _ (Member p) y0 g.y t pos top.1 g.y_visited
            (λ y t q.
              axis_loop_keeps step z_max _ (Member p) (suc z_max) z0 t
                (λ z t i q. (member-insert p _ t).1 (inr q)) q)
            (λ t.
              walk_axis_visits step z_max _ (Member p) z0 g.z t pos top.2 g.z_visited
                (λ z t q. (member-insert p _ t).1 (inr q))
                (λ t. (member-insert p _ t).1 (inl g.place))))

  pub grid_loops-member : (p : ℕ) → Member p found → GridPoint p
  unfolding grid_loops
  grid_loops-member p =
      axis_loop_keeps step x_max _ (λ s. Member p s → GridPoint p) (suc x_max) x0 []
        (λ x t ix q.
          axis_loop_keeps step y_max _ (λ s. Member p s → GridPoint p) (suc y_max) y0 t
            (λ y t iy q.
              axis_loop_keeps step z_max _ (λ s. Member p s → GridPoint p) (suc z_max) z0 t
                (λ z t iz q m. elim ((member-insert p _ t).0 m) [
                  | inl e ↦ record {
                    x = x;
                    y = y;
                    z = z;
                    x_visited = ix;
                    y_visited = iy;
                    z_visited = iz;
                    place = e;
                  }
                  | inr old ↦ q old
                ])
                q)
            q)
        (λ m. elim m [ ])

  pub grid_loops-IsAscending : IsAscending found
  unfolding grid_loops
  grid_loops-IsAscending =
      axis_loop_keeps step x_max _ IsAscending (suc x_max) x0 []
        (λ x t ix q.
          axis_loop_keeps step y_max _ IsAscending (suc y_max) y0 t
            (λ y t iy q.
              axis_loop_keeps step z_max _ IsAscending (suc z_max) z0 t
                (λ z t iz q. insert-IsAscending _ t q) q)
            q)
        tt
