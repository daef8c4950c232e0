-- ===== src/Merkle/Seal.antt =====
-- crates/interstellar-index/src/merkle.rs: `serialize_epoch` and `load_sealed_epoch`. An error is a
-- constructor in place of its message.
pub mod Fold
pub mod Record
pub mod RoundTrip
use interstellar_db.Base.{
  ℕ, zero, suc, ◌+◌, ◌-◌, ◌*◌, ◌/◌, List, [], ◌∷◌, ◌++◌, Bool, true, false, Option, none, some,
  ◌==◌, ltb, length, get_elem?, if◌then◌else◌,
}
use interstellar_db.Base.BTreeMap.{get, alter}
use interstellar_db.Base.Bytes.{to_be_bytes, from_be_bytes, slice}
use interstellar_db.Base.Word.{u8, u32}
use interstellar_db.Merkle.Tree.{EpochTree, toggle}
use interstellar_db.Merkle.Tree
use interstellar_db.Merkle.Forest.{MerkleForest}
use mathlib.Core.Option

-- `.filter(|&(_, &h)| h != 0)`.
unfoldable pub nonzero_entries : List (ℕ × ℕ) → List (ℕ × ℕ)
nonzero_entries [] = []
nonzero_entries ((p, h) ∷ es) =
    let rest = nonzero_entries es in if h == 0 then rest else (p, h) ∷ rest

unfoldable pub sort_in : ℕ × ℕ → List (ℕ × ℕ) → List (ℕ × ℕ)
sort_in e [] = e ∷ []
sort_in e (x ∷ xs) = let rest = sort_in e xs in if ltb x.0 e.0 then x ∷ rest else e ∷ x ∷ xs

-- `entries.sort_unstable_by_key(|&(p, _)| p)`; no two entries have the same prefix.
unfoldable pub sort_by_prefix : List (ℕ × ℕ) → List (ℕ × ℕ)
sort_by_prefix [] = []
sort_by_prefix (e ∷ es) = sort_in e (sort_by_prefix es)

unfoldable pub entry_bytes : List (ℕ × ℕ) → List ℕ
entry_bytes [] = []
entry_bytes ((p, h) ∷ es) = to_be_bytes 8 p ++ (to_be_bytes 16 h ++ entry_bytes es)

-- `[version][leaf depth][count][number of entries]` and the entries.
unfoldable pub seal_record : ℕ → ℕ → List (ℕ × ℕ) → List ℕ
seal_record leaf_depth_bits count entries =
    1
    ∷ u8 leaf_depth_bits
    ∷ (to_be_bytes 8 count ++ (to_be_bytes 4 (u32 (length entries)) ++ entry_bytes entries))

unfoldable pub seal_entries : ℕ → ℕ → List (ℕ × ℕ) → Option (List ℕ)
seal_entries leaf_depth_bits count [] = none
seal_entries leaf_depth_bits count (e ∷ es) = some (seal_record leaf_depth_bits count (e ∷ es))

-- `none` is the panic of an index out of range, `some none` the source's `None`.
unfoldable pub serialize_epoch : MerkleForest → ℕ → Option (Option (List ℕ))
serialize_epoch self epoch = elim (get epoch self.trees) [
  | none ↦ some none
  | some tree ↦ elim (get_elem? tree.levels (self.leaf_depth_bits / 3 - 1)) [
    | none ↦ none
    | some leaves ↦
        some
          (seal_entries self.leaf_depth_bits tree.count (sort_by_prefix (nonzero_entries leaves)))
  ]
]

pub data LoadResult : Type 0 where
  loaded : MerkleForest → LoadResult
  already_populated : LoadResult
  too_short : LoadResult
  unsupported_version : LoadResult
  depth_mismatch : LoadResult
  length_mismatch : LoadResult

-- `for i in 0..n`, from entry `i` on, by the number left.
unfoldable pub load_entries : List ℕ → ℕ → ℕ → EpochTree → EpochTree
load_entries bytes zero i tree = tree
load_entries bytes (suc left) i tree =
    let off = 14 + i * 24 in
    let prefix = from_be_bytes (slice off (off + 8) bytes) in
    let hash = from_be_bytes (slice (off + 8) (off + 24) bytes) in
    load_entries bytes left (i + 1) (toggle tree prefix hash)

-- What is left once the length, the version and the depth are checked.
unfoldable pub load_checked : MerkleForest → ℕ → List ℕ → LoadResult
load_checked self epoch bytes =
    let count = from_be_bytes (slice 2 10 bytes) in
    let n = from_be_bytes (slice 10 14 bytes) in
    if length bytes == 14 + n * 24
    then (let tree = load_entries bytes n 0 (Tree.new self.leaf_depth_bits) in
        loaded
          (record self { trees = alter epoch (λ old. record tree { count = count }) self.trees }))
    else length_mismatch

unfoldable pub load_sealed_epoch : MerkleForest → ℕ → List ℕ → LoadResult
load_sealed_epoch self epoch bytes = elim (get epoch self.trees) [
  | some tree ↦ already_populated
  | none ↦
      if ltb (length bytes) 14
      then too_short
      else if Option.get_or (get_elem? bytes 0) 0 == 1
      then (if Option.get_or (get_elem? bytes 1) 0 == self.leaf_depth_bits
          then load_checked self epoch bytes
          else depth_mismatch)
      else unsupported_version
]
