-- ===== src/Sync.antt =====
-- src/sync.rs: the hash on the wire, and the handlers `roots`, `children` and `fetch` of `SyncService`.
-- The messages of proto/interstellar.proto are records.
pub mod Pull
pub mod Wire
use interstellar_db.Base.{
  ℕ, ◌+◌, ◌%◌, List, [], ◌∷◌, map, Bool, true, false, ◌&&◌, Option, none, some, leb, ◌==◌, length,
  if◌then◌else◌,
}
use interstellar_db.Base.Bytes.{to_be_bytes, from_be_bytes, bytes_leb}
use interstellar_db.Base.Result.{Result, ok, err, panic, map_ok}
use interstellar_db.Float.{F64}
use interstellar_db.Merkle.Forest.Items.{Row}
use interstellar_db.Store.{Store, merkle_leaf_depth_bits}
use interstellar_db.Store.KeyValue.{Kv}
use interstellar_db.Store.Query.{epoch_roots, child_hashes, scan_range}

unfoldable pub hash_bytes : ℕ → List ℕ
hash_bytes h = to_be_bytes 16 h

-- `none` is `Status::invalid_argument`.
unfoldable pub hash_from_bytes : List ℕ → Option ℕ
hash_from_bytes b = if length b == 16 then some (from_be_bytes b) else none

pub record EpochRoot : Type 0 where
  pub epoch : ℕ
  pub hash : List ℕ

pub record SyncRootsResponse : Type 0 where
  pub roots : List EpochRoot
  pub leaf_depth_bits : ℕ

pub record ChildHash : Type 0 where
  pub prefix : ℕ
  pub hash : List ℕ

-- A stream of rows: an item is a row, or an error; the list ends where the stream does.
abbrev pub RowStream : Type 0
RowStream = List (Option Row)

module _ (f : F64) (kv : Kv) where
  unfoldable pub roots : Store f kv → SyncRootsResponse
  roots store = record {
    roots =
        map (λ (r : ℕ × ℕ). record { epoch = r.0; hash = hash_bytes r.1 }) (epoch_roots f kv store);
    leaf_depth_bits = merkle_leaf_depth_bits;
  }

  unfoldable pub children : Store f kv → ℕ → ℕ → ℕ → Result (List ChildHash)
  children store epoch depth prefix =
      if depth % 3 == 0 && leb (depth + 3) merkle_leaf_depth_bits
      then elim (child_hashes f kv store epoch depth prefix) [
        | none ↦ panic
        | some found ↦
            ok (map (λ (c : ℕ × ℕ). record { prefix = c.0; hash = hash_bytes c.1 }) found)
      ]
      else err

  -- What the task sends: the rows of the scan, or its error.
  unfoldable pub fetch_stream : Result (List Row) → RowStream
  fetch_stream (ok rows) = map (λ (r : Row). some r) rows
  fetch_stream err = none ∷ []
  fetch_stream panic = none ∷ []

  unfoldable pub fetch : Store f kv → List ℕ → List ℕ → Result RowStream
  fetch store start end =
      if length start == 20 && length end == 20 && bytes_leb start end
      then ok (fetch_stream (scan_range f kv store start end))
      else err
