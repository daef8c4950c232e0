-- ===== src/Merkle/Diff.antt =====
-- crates/interstellar-index/src/merkle.rs: `DivergentLeaf`, `diff_forests` and `descend`. `descend`
-- gives the leaves that it pushes; `none` is the panic of `node_hash`, or the end of the fuel.
pub mod Cells
pub mod Finds
pub mod Descend
pub mod Exact
pub mod Rows
pub mod Range
use interstellar_db.Base.{
  ℕ, zero, suc, ◌+◌, ◌/◌, min, List, [], ◌∷◌, ◌++◌, Bool, true, false, Option, none, some, ◌==◌,
}
use interstellar_db.Base.BTreeMap.{keys}
use interstellar_db.Base.BTreeSet.{insert}
use interstellar_db.Indexer.Ranges.{KeyRange}
use interstellar_db.Merkle.Tree.{leaf_key_range}
use interstellar_db.Merkle.Forest.{MerkleForest, node_hash, child_prefix}

pub record DivergentLeaf : Type 0 where
  pub epoch : ℕ
  pub depth_bits : ℕ
  pub prefix : ℕ
  pub range : KeyRange

-- The leaf that `descend` pushes.
unfoldable pub divergent_leaf : ℕ → ℕ → ℕ → DivergentLeaf
divergent_leaf epoch depth_bits prefix = record {
  epoch = epoch;
  depth_bits = depth_bits;
  prefix = prefix;
  range = leaf_key_range epoch prefix depth_bits;
}

-- What is pushed first, and what is pushed after it.
unfoldable pub push_all :
    Option (List DivergentLeaf) → Option (List DivergentLeaf) → Option (List DivergentLeaf)
push_all none rest = none
push_all (some here) none = none
push_all (some here) (some rest) = some (here ++ rest)

module _ (a b : MerkleForest) (epoch : ℕ) where
  -- `if a.node_hash(...) != b.node_hash(...) { descend(...) }`.
  unfoldable pub descend_if :
      ℕ → ℕ → (ℕ → Option (List DivergentLeaf)) → Option (List DivergentLeaf)
  descend_if depth prefix go = elim (node_hash a epoch depth prefix) [
    | none ↦ none
    | some x ↦ elim (node_hash b epoch depth prefix) [
      | none ↦ none
      | some y ↦ elim (x == y) [ true ↦ some [] | false ↦ go prefix ]
    ]
  ]

  -- `for c in 0..8`, from `c` on, by the number left.
  unfoldable pub descend_children :
      ℕ → ℕ → (ℕ → Option (List DivergentLeaf)) → ℕ → ℕ → Option (List DivergentLeaf)
  descend_children child_depth prefix go zero c = some []
  descend_children child_depth prefix go (suc left) c =
      push_all (descend_if child_depth (child_prefix prefix child_depth c) go)
        (descend_children child_depth prefix go left (c + 1))

  -- The fuel is the number of levels that may still be visited.
  unfoldable pub descend : ℕ → ℕ → ℕ → ℕ → Option (List DivergentLeaf)
  descend zero leaf_depth depth_bits prefix = none
  descend (suc fuel) leaf_depth depth_bits prefix = elim (depth_bits == leaf_depth) [
    | true ↦ some (divergent_leaf epoch depth_bits prefix ∷ [])
    | false ↦
        descend_children (depth_bits + 3) prefix (descend fuel leaf_depth (depth_bits + 3)) 8 0
  ]

-- `chain`, `sort_unstable` and `dedup`: the epochs of both, ascending, each once.
unfoldable pub insert_epochs : List ℕ → List ℕ → List ℕ
insert_epochs [] es = es
insert_epochs (e ∷ more) es = insert e (insert_epochs more es)

unfoldable pub diff_epochs : MerkleForest → MerkleForest → ℕ → List ℕ → Option (List DivergentLeaf)
diff_epochs a b leaf_depth [] = some []
diff_epochs a b leaf_depth (epoch ∷ es) =
    push_all (descend_if a b epoch 0 0 (descend a b epoch (suc (leaf_depth / 3)) leaf_depth 0))
      (diff_epochs a b leaf_depth es)

unfoldable pub diff_forests : MerkleForest → MerkleForest → Option (List DivergentLeaf)
diff_forests a b =
    let leaf_depth = min a.leaf_depth_bits b.leaf_depth_bits in
    let es = insert_epochs (keys a.trees) (insert_epochs (keys b.trees) []) in
    diff_epochs a b leaf_depth es
