-- ===== src/Indexer/Ranges/Box.antt =====
-- crates/interstellar-index/src/lib.rs: the box of cells that a query walks, for a point that the query
-- asks for.
use interstellar_db.Base.{ℕ, ◌-◌, ◌*◌, ◌≤◌, ◌≡◌, refl, arith, true}
use interstellar_db.Float.{F64, IsIeee}
use interstellar_db.Indexer.{HybridSpatioTemporalIndexer, IsValid}
use interstellar_db.Indexer.Coordinate.{max_21bit, normalize_coordinate}
use interstellar_db.Indexer.Coordinate.Bounds.{
  IsDepth, normalize_coordinate_mono, normalize_coordinate-le,
}
use interstellar_db.Indexer.Key.{spatial_code}
use interstellar_db.Indexer.Prefixes.{cell_prefix, compute_spatial_prefixes}
use interstellar_db.Indexer.Prefixes.Cover.{Box, Within, IsProper, box_prefixes}
use interstellar_db.Indexer.Prefixes.Exact.{CellOf}
use interstellar_db.Indexer.Ranges.{is_depth}

module _ (f : F64) (self : HybridSpatioTemporalIndexer f) where
  -- The box of normalized coordinates round a query's sphere.
  pub query_box : f.Value → f.Value → f.Value → f.Value → Box
  query_box cx cy cz r = record {
    x_min = normalize_coordinate f self (f.sub cx r);
    x_max = normalize_coordinate f self (f.add cx r);
    y_min = normalize_coordinate f self (f.sub cy r);
    y_max = normalize_coordinate f self (f.add cy r);
    z_min = normalize_coordinate f self (f.sub cz r);
    z_max = normalize_coordinate f self (f.add cz r);
  }

  pub compute_spatial_prefixes_lem :
      (cx cy cz r : f.Value) (depth : ℕ)
      → compute_spatial_prefixes f self cx cy cz r depth ≡ box_prefixes depth (query_box cx cy cz r)
  unfolding compute_spatial_prefixes query_box
  compute_spatial_prefixes_lem cx cy cz r depth = refl

  -- A point between `c - r` and `c + r` on each axis, as the floats compare.
  pub record InBox (cx cy cz r x y z : f.Value) : Type 0 where
    pub x_lo : f.leb (f.sub cx r) x ≡ true
    pub x_hi : f.leb x (f.add cx r) ≡ true
    pub y_lo : f.leb (f.sub cy r) y ≡ true
    pub y_hi : f.leb y (f.add cy r) ≡ true
    pub z_lo : f.leb (f.sub cz r) z ≡ true
    pub z_hi : f.leb z (f.add cz r) ≡ true

pub is_depth_of : (depth : ℕ) → IsDepth depth → is_depth depth ≡ true
unfolding is_depth
is_depth_of depth d = ground arith

module _ (f : F64) (ieee : IsIeee f) (self : HybridSpatioTemporalIndexer f) (valid : IsValid f self)
    (cx cy cz r x y z : f.Value) (inside : InBox f self cx cy cz r x y z) where
  abbrev norm : f.Value → ℕ
  norm = normalize_coordinate f self

  mono : (a b : f.Value) → f.leb a b ≡ true → norm a ≤ norm b
  mono = normalize_coordinate_mono f ieee self valid

  top : (a b : f.Value) → f.leb a b ≡ true → norm b ≤ max_21bit
  top a b h = normalize_coordinate-le f ieee self valid b (ieee.leb-number a b h).1

  pub query_box-Within : Within (query_box f self cx cy cz r) (norm x) (norm y) (norm z)
  unfolding query_box
  query_box-Within = record {
    x_lo = mono _ _ inside.x_lo;
    x_hi = mono _ _ inside.x_hi;
    y_lo = mono _ _ inside.y_lo;
    y_hi = mono _ _ inside.y_hi;
    z_lo = mono _ _ inside.z_lo;
    z_hi = mono _ _ inside.z_hi;
  }

  pub query_box-IsProper : IsProper (query_box f self cx cy cz r)
  query_box-IsProper =
      let w = query_box-Within in
      record {
        x_order = omega (arith, w);
        y_order = omega (arith, w);
        z_order = omega (arith, w);
        x_21bit = unfold query_box in top _ _ inside.x_hi;
        y_21bit = unfold query_box in top _ _ inside.y_hi;
        z_21bit = unfold query_box in top _ _ inside.z_hi;
      }

  -- The cell of an observation in the box is a cell of the box.
  pub observation-CellOf :
      (k : ℕ)
      → CellOf k
          (query_box f self cx cy cz r)
          (cell_prefix (64 - 3 * k) (spatial_code f self x y z))
  unfolding spatial_code
  observation-CellOf k = record {
    x = norm x;
    y = norm y;
    z = norm z;
    within = query_box-Within;
    place = refl;
  }
