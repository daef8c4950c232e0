-- ===== src/Merkle/Forest/Laws.antt =====
-- What an insertion and a removal do to every node hash of a forest.
use interstellar_db.Base.{
  ℕ, ◌≡◌, refl, sym, ap, ◌∙◌, bit_xor, List, Bool, true, false, Option, none, some, ◌&&◌, ◌==◌,
  ==_iff, ==_self, ==_ne, if◌then◌else◌, le→leb, ℕ_discrete, Option-cases, inl, inr,
}
use interstellar_db.Base.Bits.{bit_xor_assoc, bit_xor_self, bit_xor-zero}
use interstellar_db.Base.BTreeMap.{get, alter, get-alter}
use interstellar_db.Indexer.Key.{epoch_field, spatial_field}
use interstellar_db.Merkle.Tree.{EpochTree, item_digest, split_key, toggle}
use interstellar_db.Merkle.Tree
use interstellar_db.Merkle.Tree.Hash.{
  in_cell, fold_in, IsLevel, node_hash-toggle, node_hash-new, node_hash-count,
}
use interstellar_db.Merkle.Forest.{MerkleForest, add_item, take_item, node_hash, insert, remove}

-- The hash of a node of the tree of an epoch, or of an absent tree.
unfoldable pub tree_hash : Option EpochTree → ℕ → ℕ → Option ℕ
tree_hash none depth_bits prefix = some 0
tree_hash (some t) depth_bits prefix = Tree.node_hash t depth_bits prefix

pub node_hash-eq-tree_hash :
    (f : MerkleForest) (e d p : ℕ)
    → IsLevel f.leaf_depth_bits d
    → node_hash f e d p ≡ tree_hash (get e f.trees) d p
unfolding node_hash tree_hash
node_hash-eq-tree_hash f e d p l =
    rw (le→leb d f.leaf_depth_bits l.within, ap (λ (t : ℕ). t == 0) l.multiple)
      (by_tree (get e f.trees))
  where
    by_tree :
        (o : Option EpochTree)
        → elim o [ none ↦ some 0 | some t ↦ Tree.node_hash t d p ] ≡ tree_hash o d p
    by_tree none = refl
    by_tree (some t) = refl

module _ (leaf morton digest d p : ℕ) (l : IsLevel leaf d) where
  add_item-hash :
      (old : Option EpochTree)
      → Tree.node_hash (add_item leaf morton digest old) d p
        ≡ fold_in (in_cell d p morton) digest (tree_hash old d p)
  unfolding add_item tree_hash
  add_item-hash none =
      node_hash-count (toggle (Tree.new leaf) morton digest) _ d p
      ∙ node_hash-toggle (Tree.new leaf) morton digest d p l.multiple
      ∙ ap (fold_in (in_cell d p morton) digest) (node_hash-new leaf d p l)
  add_item-hash (some t) =
      node_hash-count (toggle t morton digest) _ d p
      ∙ node_hash-toggle t morton digest d p l.multiple

  take_item-hash :
      (t : EpochTree)
      → Tree.node_hash (take_item morton digest t) d p
        ≡ fold_in (in_cell d p morton) digest (Tree.node_hash t d p)
  unfolding take_item
  take_item-hash t =
      node_hash-count (toggle t morton digest) _ d p
      ∙ node_hash-toggle t morton digest d p l.multiple

fold_in-false : (digest : ℕ) (o : Option ℕ) → fold_in false digest o ≡ o
fold_in-false digest none = refl
fold_in-false digest (some h) = refl

-- A changed tree changes the hashes of its own epoch.
altered-hash :
    (trees : List (ℕ × EpochTree)) (g : Option EpochTree → EpochTree) (epoch e d p digest : ℕ)
    (b : Bool)
    → Tree.node_hash (g (get epoch trees)) d p ≡ fold_in b digest (tree_hash (get epoch trees) d p)
    → tree_hash (get e (alter epoch g trees)) d p
      ≡ fold_in (epoch == e && b) digest (tree_hash (get e trees) d p)
altered-hash trees g epoch e d p digest b h =
    ap (λ o. tree_hash o d p) (get-alter epoch e g trees) ∙ by_epoch
  where
    by_epoch :
        tree_hash (if epoch == e then some (g (get epoch trees)) else get e trees) d p
        ≡ fold_in (epoch == e && b) digest (tree_hash (get e trees) d p)
    by_epoch = elim (ℕ_discrete epoch e) [
      | yes same ↦
          rw ((==_iff epoch e).1 same)
            (unfold tree_hash in h ∙ ap (λ n. fold_in b digest (tree_hash (get n trees) d p)) same)
      | no other ↦
          rw (==_ne epoch e other) (sym (fold_in-false digest (tree_hash (get e trees) d p)))
    ]

abbrev is_some : Option EpochTree → Bool
is_some none = false
is_some (some t) = true

module _ (sha256 : List ℕ → List ℕ) (f : MerkleForest) (key payload : List ℕ) (e d p : ℕ)
    (l : IsLevel f.leaf_depth_bits d) where
  abbrev epoch : ℕ
  epoch = epoch_field key

  abbrev morton : ℕ
  morton = spatial_field key

  abbrev digest : ℕ
  digest = item_digest sha256 key payload

  -- Whether the key lies in the node.
  abbrev pub holds : Bool
  holds = epoch == e && in_cell d p morton

  -- At a depth that is a multiple of 3 up to the leaf depth, inserting a row changes the hash of a
  -- node that holds its key by the exclusive or with its digest, and leaves the hash of every
  -- other node as it is.
  pub node_hash-insert :
      node_hash (insert sha256 f key payload) e d p ≡ fold_in holds digest (node_hash f e d p)
  unfolding insert split_key
  node_hash-insert =
      node_hash-eq-tree_hash (insert sha256 f key payload) e d p l
      ∙ altered-hash f.trees (add_item f.leaf_depth_bits morton digest) epoch e d p digest
          (in_cell d p morton)
          (add_item-hash f.leaf_depth_bits morton digest d p l (get epoch f.trees))
      ∙ ap (fold_in holds digest) (sym (node_hash-eq-tree_hash f e d p l))

  -- A removal folds it out of the same nodes, where the epoch has a tree.
  pub node_hash-remove_present :
      (t : EpochTree)
      → get epoch f.trees ≡ some t
      → node_hash (remove sha256 f key payload) e d p ≡ fold_in holds digest (node_hash f e d p)
  unfolding remove split_key
  node_hash-remove_present t present =
      rw (present, remove)
        (node_hash-eq-tree_hash _ e d p l
          ∙ altered-hash f.trees (λ old. take_item morton digest t) epoch e d p digest
              (in_cell d p morton)
              (take_item-hash f.leaf_depth_bits morton digest d p l t
                ∙ unfold tree_hash in
                  ap (λ o. fold_in (in_cell d p morton) digest (tree_hash o d p)) (sym present))
          ∙ ap (fold_in holds digest) (sym (node_hash-eq-tree_hash f e d p l)))

  -- Whether the epoch of the key has a tree.
  abbrev pub has_tree : Bool
  has_tree = is_some (get epoch f.trees)

  -- At a depth that is a multiple of 3 up to the leaf depth, removing a row changes the hash of a
  -- node that holds its key by the exclusive or with its digest, if the epoch of the key has a tree,
  -- and leaves the hash of every other node as it is.
  pub node_hash-remove :
      node_hash (remove sha256 f key payload) e d p
      ≡ fold_in (has_tree && holds) digest (node_hash f e d p)
  unfolding remove split_key
  node_hash-remove = elim (Option-cases (get epoch f.trees)) [
    | inl absent ↦ rw (absent, remove) (sym (fold_in-false digest (node_hash f e d p)))
    | inr (t, present) ↦
        node_hash-remove_present t present
        ∙ ap (λ (o : Option EpochTree). fold_in (is_some o && holds) digest (node_hash f e d p))
            (sym present)
  ]

  insert-present :
      (o : Option EpochTree) (m : MerkleForest)
      → m ≡ insert sha256 f key payload
      → (t : EpochTree) × (get epoch m.trees ≡ some t)
  unfolding insert split_key
  insert-present o m e' =
      let add = add_item f.leaf_depth_bits morton digest in
      (
        add (get epoch f.trees),
        ap (λ (n : MerkleForest). get epoch n.trees) e'
            ∙ get-alter epoch epoch add f.trees
            ∙ rw (==_self epoch) refl,
      )

fold_in_twice : (b : Bool) (x : ℕ) (o : Option ℕ) → fold_in b x (fold_in b x o) ≡ o
fold_in_twice b x none = refl
fold_in_twice false x (some h) = refl
fold_in_twice true x (some h) =
    ap some (bit_xor_assoc h x x ∙ ap (bit_xor h) (bit_xor_self x) ∙ bit_xor-zero h)

-- Removing a row that was just inserted gives back every node hash at a depth that is a multiple
-- of 3 up to the leaf depth.
pub remove-insert :
    (sha256 : List ℕ → List ℕ) (f : MerkleForest) (key payload : List ℕ) (e d p : ℕ)
    → IsLevel f.leaf_depth_bits d
    → node_hash (remove sha256 (insert sha256 f key payload) key payload) e d p ≡ node_hash f e d p
remove-insert sha256 f key payload e d p l =
    let (t, present) = insert-present sha256 f key payload e d p l none _ refl in
    node_hash-remove_present sha256 (insert sha256 f key payload) key payload e d p
      (unfold insert in l) t present
    ∙ ap (fold_in (holds sha256 f key payload e d p l) (item_digest sha256 key payload))
        (node_hash-insert sha256 f key payload e d p l)
    ∙ fold_in_twice _ _ _
