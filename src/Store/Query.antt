-- ===== src/Store/Query.antt =====
-- src/store.rs: `collect`, `query_window`, `scan_range`, `sync_plan`, and the views of the forest.
pub mod Rows
pub mod Exact
pub mod Finds
pub mod Sorted
use interstellar_db.Base.{
  ℕ, List, [], ◌∷◌, ◌++◌, map, Bool, true, false, ◌&&◌, ◌||◌, Option, none, some, leb, ltb, ◌==◌,
  length, if◌then◌else◌,
}
use interstellar_db.Base.Result.{Result, ok, err, panic}
use interstellar_db.Float.{F64}
use interstellar_db.Indexer.Coordinate.{calculate_optimal_depth}
use interstellar_db.Indexer.Key.{Point, decode_key}
use interstellar_db.Indexer.Ranges.{KeyRange, get_boundary_protected_ranges_time_window}
use interstellar_db.Merkle.Diff.{DivergentLeaf, diff_forests}
use interstellar_db.Merkle.Forest.{MerkleForest}
use interstellar_db.Merkle.Forest
use interstellar_db.Merkle.Forest.Items.{Row}
use interstellar_db.Store.{Store}
use interstellar_db.Store.Entries.{data_rows}
use interstellar_db.Store.KeyValue.{Kv}
use mathlib.Core.Option

pub record Observation (f : F64) : Type 0 where
  pub key : List ℕ
  pub x : f.Value
  pub y : f.Value
  pub z : f.Value
  pub timestamp_secs : ℕ
  pub timestamp_nanos : ℕ
  pub payload : List ℕ

-- An inclusive end of 20 bytes, as an exclusive one of 21.
unfoldable pub end_excl : List ℕ → List ℕ
end_excl end = end ++ 0 ∷ []

module _ (f : F64) where
  -- `dx * dx + dy * dy + dz * dz <= r2`.
  unfoldable pub in_sphere :
      f.Value → f.Value → f.Value → f.Value → f.Value → f.Value → f.Value → Bool
  in_sphere cx cy cz r2 x y z =
      let dx = f.sub x cx in
      let dy = f.sub y cy in
      let dz = f.sub z cz in f.leb (f.add (f.add (f.mul dx dx) (f.mul dy dy)) (f.mul dz dz)) r2

  -- `a.timestamp_secs.cmp(..).then(a.timestamp_nanos.cmp(..))` is not `Greater`.
  unfoldable pub no_later : Observation f → Observation f → Bool
  no_later a b =
      ltb a.timestamp_secs b.timestamp_secs
      || (a.timestamp_secs == b.timestamp_secs && leb a.timestamp_nanos b.timestamp_nanos)

  unfoldable pub sort_in : Observation f → List (Observation f) → List (Observation f)
  sort_in a [] = a ∷ []
  sort_in a (b ∷ bs) = if no_later a b then a ∷ b ∷ bs else b ∷ sort_in a bs

  -- `sort_by`, which is stable.
  unfoldable pub sort_by_time : List (Observation f) → List (Observation f)
  sort_by_time [] = []
  sort_by_time (a ∷ rest) = sort_in a (sort_by_time rest)

  module _ (kv : Kv) where
    abbrev pub observation : Store f kv → Row → Observation f
    observation self r =
        let p = decode_key f self.indexer r.key in
        record {
          key = r.key;
          x = p.x;
          y = p.y;
          z = p.z;
          timestamp_secs = p.secs;
          timestamp_nanos = p.nanos;
          payload = r.payload;
        }

    -- The exact time filter and the exact sphere filter.
    unfoldable pub is_hit : f.Value → f.Value → f.Value → f.Value → ℕ → ℕ → Observation f → Bool
    is_hit cx cy cz r2 start_secs end_secs o =
        (leb start_secs o.timestamp_secs && leb o.timestamp_secs end_secs)
        && in_sphere cx cy cz r2 o.x o.y o.z

    unfoldable pub hits :
        Store f kv → f.Value → f.Value → f.Value → f.Value → ℕ → ℕ → List Row → List (Observation f)
    hits self cx cy cz r2 start_secs end_secs [] = []
    hits self cx cy cz r2 start_secs end_secs (r ∷ rs) =
        let rest = hits self cx cy cz r2 start_secs end_secs rs in
        let o = observation self r in
        if length r.key == 20 && is_hit cx cy cz r2 start_secs end_secs o then o ∷ rest else rest

    -- The loop over the ranges, with what has been pushed.
    unfoldable pub collect_loop :
        Store f kv
        → f.Value
        → f.Value
        → f.Value
        → f.Value
        → ℕ
        → ℕ
        → List (Observation f)
        → List KeyRange
        → Result (List (Observation f))
    collect_loop self cx cy cz r2 start_secs end_secs found [] = ok (sort_by_time found)
    collect_loop self cx cy cz r2 start_secs end_secs found (r ∷ ranges) =
        elim (kv.range self.tree r.start_key (end_excl r.end_key)) [
          | none ↦ err
          | some rows ↦
              collect_loop self cx cy cz r2 start_secs end_secs
                (found ++ hits self cx cy cz r2 start_secs end_secs rows) ranges
        ]

    unfoldable pub collect :
        Store f kv
        → List KeyRange
        → f.Value
        → f.Value
        → f.Value
        → f.Value
        → ℕ
        → ℕ
        → Result (List (Observation f))
    collect self ranges cx cy cz radius start_secs end_secs =
        let r2 = f.mul radius radius in
        if kv.begin_read self.tree
        then collect_loop self cx cy cz r2 start_secs end_secs [] ranges
        else err

    unfoldable pub query_window :
        Store f kv → f.Value → f.Value → f.Value → f.Value → ℕ → ℕ → Result (List (Observation f))
    query_window self center_x center_y center_z radius start_secs end_secs =
        let depth = calculate_optimal_depth f self.indexer radius in
        elim (get_boundary_protected_ranges_time_window f self.indexer center_x center_y center_z
          radius start_secs end_secs depth) [
            | none ↦ panic
            | some ranges ↦
                collect self ranges center_x center_y center_z radius start_secs end_secs
          ]

    unfoldable pub scan_range : Store f kv → List ℕ → List ℕ → Result (List Row)
    scan_range self start end =
        if kv.begin_read self.tree
        then elim (kv.range self.tree start (end_excl end)) [
          | none ↦ err
          | some rows ↦ ok (data_rows rows)
        ]
        else err

    -- `none` is a panic of the forest, here and below.
    unfoldable pub sync_plan : Store f kv → MerkleForest → Option (List KeyRange)
    sync_plan self remote =
        Option.map (map (λ (d : DivergentLeaf). d.range)) (diff_forests self.merkle remote)

    unfoldable pub epoch_roots : Store f kv → List (ℕ × ℕ)
    epoch_roots self = Forest.epoch_roots self.merkle

    unfoldable pub node_hash : Store f kv → ℕ → ℕ → ℕ → Option ℕ
    node_hash self = Forest.node_hash self.merkle

    unfoldable pub child_hashes : Store f kv → ℕ → ℕ → ℕ → Option (List (ℕ × ℕ))
    child_hashes self = Forest.child_hashes self.merkle
