-- ===== src/Wasm.antt =====
-- crates/interstellar-wasm/src/lib.rs: the bindings of the indexer. A typed array is a list; `as f64` of
-- a u64 is a parameter.
use interstellar_db.Base.{ℕ, List, [], ◌∷◌, Option, ◌==◌, length, if◌then◌else◌}
use interstellar_db.Base.Result.{Result, ok, err}
use interstellar_db.Float.{F64}
use interstellar_db.Indexer.{HybridSpatioTemporalIndexer}
use interstellar_db.Indexer.Coordinate.{calculate_optimal_depth}
use interstellar_db.Indexer.Key
use interstellar_db.Indexer.Ranges.{
  KeyRange, get_boundary_protected_ranges, get_boundary_protected_ranges_time_window,
}
use mathlib.Core.Option

module _ (f : F64) (of_u64 : ℕ → f.Value) (inner : HybridSpatioTemporalIndexer f) where
  unfoldable pub generate_key : f.Value → f.Value → f.Value → f.Value → f.Value → List ℕ
  generate_key x y z secs nanos = Key.generate_key f inner x y z (f.as_u64 secs) (f.as_u64 nanos)

  unfoldable pub decode_key : List ℕ → Result (List f.Value)
  decode_key key =
      if length key == 20
      then (let p = Key.decode_key f inner key in
          ok (p.x ∷ p.y ∷ p.z ∷ of_u64 p.secs ∷ of_u64 p.nanos ∷ []))
      else err

  unfoldable pub ranges_to_js : List KeyRange → List (List ℕ × List ℕ)
  ranges_to_js [] = []
  ranges_to_js (r ∷ ranges) = (r.start_key, r.end_key) ∷ ranges_to_js ranges

  -- `none` is a panic, here and below.
  unfoldable pub epoch_ranges :
      f.Value → f.Value → f.Value → f.Value → f.Value → Option (List (List ℕ × List ℕ))
  epoch_ranges cx cy cz radius secs =
      let depth = calculate_optimal_depth f inner radius in
      Option.map ranges_to_js
        (get_boundary_protected_ranges f inner cx cy cz radius (f.as_u64 secs) depth)

  unfoldable pub window_ranges :
      f.Value → f.Value → f.Value → f.Value → f.Value → f.Value → Option (List (List ℕ × List ℕ))
  window_ranges cx cy cz radius start_secs end_secs =
      let depth = calculate_optimal_depth f inner radius in
      Option.map ranges_to_js (
        get_boundary_protected_ranges_time_window f inner cx cy cz radius (f.as_u64 start_secs)
          (f.as_u64 end_secs) depth)
