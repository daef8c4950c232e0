-- ===== src/Merkle/Forest.antt =====
-- crates/interstellar-index/src/merkle.rs: `MerkleForest`, a tree per macro epoch.
pub mod Items
pub mod Laws
pub mod Shape
pub mod Planted
use interstellar_db.Base.{
  ℕ, zero, suc, ◌+◌, ◌-◌, ◌%◌, bit_or, List, [], ◌∷◌, ◌++◌, Bool, true, Option, none, some, ◌&&◌,
  leb, ◌==◌, if◌then◌else◌, not,
}
use interstellar_db.Base.BTreeMap.{get, alter, keys}
use interstellar_db.Base.Word.{◌<<64◌}
use interstellar_db.Merkle.Tree.{EpochTree, item_digest, split_key, toggle}
use interstellar_db.Merkle.Tree
use mathlib.Core.Option

pub record MerkleForest : Type 0 where
  pub leaf_depth_bits : ℕ
  pub trees : List (ℕ × EpochTree)

unfoldable pub new : ℕ → Option MerkleForest
new leaf_depth_bits =
    if leb 3 leaf_depth_bits && leb leaf_depth_bits 63 && leaf_depth_bits % 3 == 0
    then some (record { leaf_depth_bits = leaf_depth_bits; trees = [] })
    else none

unfoldable pub tree_counts : List (ℕ × EpochTree) → ℕ
tree_counts [] = 0
tree_counts ((e, t) ∷ trees) = t.count + tree_counts trees

unfoldable pub len : MerkleForest → ℕ
len self = tree_counts self.trees

unfoldable pub is_empty : MerkleForest → Bool
is_empty self = len self == 0

-- `toggle` and the count up, on the tree that `entry(epoch)` finds or makes.
unfoldable pub add_item : ℕ → ℕ → ℕ → Option EpochTree → EpochTree
add_item leaf morton digest old =
    let tree = Option.get_or old (Tree.new leaf) in
    let toggled = toggle tree morton digest in record toggled { count = toggled.count + 1 }

-- `toggle` and the count down; `saturating_sub` stops at 0, as `-` does here.
unfoldable pub take_item : ℕ → ℕ → EpochTree → EpochTree
take_item morton digest tree =
    let toggled = toggle tree morton digest in record toggled { count = toggled.count - 1 }

unfoldable pub epochs : MerkleForest → List ℕ
epochs self = keys self.trees

unfoldable pub node_hash : MerkleForest → ℕ → ℕ → ℕ → Option ℕ
node_hash self epoch depth_bits prefix =
    if leb depth_bits self.leaf_depth_bits && depth_bits % 3 == 0
    then elim (get epoch self.trees) [ none ↦ some 0 | some t ↦ Tree.node_hash t depth_bits prefix ]
    else none

unfoldable pub nonzero_roots : List (ℕ × EpochTree) → List (ℕ × ℕ)
nonzero_roots [] = []
nonzero_roots ((e, t) ∷ trees) =
    let rest = nonzero_roots trees in if t.root == 0 then rest else (e, t.root) ∷ rest

unfoldable pub epoch_roots : MerkleForest → List (ℕ × ℕ)
epoch_roots self = nonzero_roots self.trees

-- `prefix | (c << (64 - child_depth))`.
unfoldable pub child_prefix : ℕ → ℕ → ℕ → ℕ
child_prefix prefix child_depth c = bit_or prefix (c <<64 (64 - child_depth))

-- The children from `c` on, by the number left.
unfoldable pub child_hashes_from : MerkleForest → ℕ → ℕ → ℕ → ℕ → ℕ → Option (List (ℕ × ℕ))
child_hashes_from self epoch child_depth prefix zero c = some []
child_hashes_from self epoch child_depth prefix (suc left) c =
    let p = child_prefix prefix child_depth c in
    let rest = child_hashes_from self epoch child_depth prefix left (c + 1) in
    elim (node_hash self epoch child_depth p) [
      | none ↦ none
      | some h ↦ Option.map (λ hs. if h == 0 then hs else (p, h) ∷ hs) rest
    ]

unfoldable pub child_hashes : MerkleForest → ℕ → ℕ → ℕ → Option (List (ℕ × ℕ))
child_hashes self epoch depth_bits prefix = child_hashes_from self epoch (depth_bits + 3) prefix 8 0

module _ (sha256 : List ℕ → List ℕ) where
  unfoldable pub insert : MerkleForest → List ℕ → List ℕ → MerkleForest
  insert self key payload =
      let (epoch, morton) = split_key key in
      let digest = item_digest sha256 key payload in
      record self { trees = alter epoch (add_item self.leaf_depth_bits morton digest) self.trees }

  unfoldable pub remove : MerkleForest → List ℕ → List ℕ → MerkleForest
  remove self key payload =
      let (epoch, morton) = split_key key in
      let digest = item_digest sha256 key payload in
      elim (get epoch self.trees) [
        | none ↦ self
        | some tree ↦ record self {
          trees = alter epoch (λ old. take_item morton digest tree) self.trees;
        }
      ]
