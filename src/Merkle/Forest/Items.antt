-- ===== src/Merkle/Forest/Items.antt =====
-- A forest stands for the set of its items: each node hash is the exclusive or of the digests of
-- the items in the node, whatever the order of insertion and the depth of the leaves.
use interstellar_db.Base.{
  ℕ, ◌≡◌, refl, sym, ap, ◌∙◌, arith, bit_xor, List, [], ◌∷◌, some, ◌&&◌, ◌==◌, if◌then◌else◌,
  Bool-cases, inl, inr, subst,
}
use interstellar_db.Base.Bits.{bit_xor_assoc, bit_xor_comm, bit_xor-zero, zero-bit_xor}
use interstellar_db.Base.BTreeMap.{get}
use interstellar_db.Indexer.Key.{epoch_field, spatial_field}
use interstellar_db.Merkle.Tree.{item_digest}
use interstellar_db.Merkle.Tree.Hash.{in_cell, fold_in, IsLevel}
use interstellar_db.Merkle.Forest.{MerkleForest, new, node_hash, insert}
use interstellar_db.Merkle.Forest.Laws.{tree_hash, node_hash-eq-tree_hash, node_hash-insert}
use mathlib.Core.List.{Perm, foldr}
use mathlib.Core.List.Perm
use native.Mathlib.Nat.{ℕ_set}

-- A row: a key and its payload.
pub record Row : Type 0 where
  pub key : List ℕ
  pub payload : List ℕ

bit_xor_left_comm : (a b x : ℕ) → bit_xor a (bit_xor b x) ≡ bit_xor b (bit_xor a x)
bit_xor_left_comm a b x =
    sym (bit_xor_assoc a b x) ∙ ap (λ (t : ℕ). bit_xor t x) (bit_xor_comm a b) ∙ bit_xor_assoc b a x

new_fields :
    (leaf : ℕ) (f : MerkleForest) → new leaf ≡ some f → (f.leaf_depth_bits ≡ leaf) × (f.trees ≡ [])
unfolding new
new_fields leaf f made = ground arith

pub empty-node_hash :
    (f : MerkleForest) (e d p : ℕ)
    → IsLevel f.leaf_depth_bits d
    → f.trees ≡ []
    → node_hash f e d p ≡ some 0
empty-node_hash f e d p l none_yet =
    node_hash-eq-tree_hash f e d p l ∙ ap (λ t. tree_hash (get e t) d p) none_yet ∙ no_tree
  where
    no_tree : tree_hash (get e []) d p ≡ some 0
    no_tree = unfold get tree_hash in refl

module _ (sha256 : List ℕ → List ℕ) where
  -- The rebuild loops: insert each row in turn.
  unfoldable pub insert_all : MerkleForest → List Row → MerkleForest
  insert_all f [] = f
  insert_all f (r ∷ rows) = insert_all (insert sha256 f r.key r.payload) rows

  -- What a row adds to a node: its digest, if its key is in the node.
  pub share : ℕ → ℕ → ℕ → Row → ℕ
  share e d p r =
      if epoch_field r.key == e && in_cell d p (spatial_field r.key)
      then item_digest sha256 r.key r.payload
      else 0

  add_share : ℕ → ℕ → ℕ → Row → ℕ → ℕ
  add_share e d p r h = bit_xor (share e d p r) h

  -- The specification of a node hash: the exclusive or of the digests of the rows in the node.
  pub set_hash : ℕ → ℕ → ℕ → List Row → ℕ
  unfolding add_share share
  set_hash e d p rows = foldr (add_share e d p) 0 rows

  pub set_hash-nil : (e d p : ℕ) → set_hash e d p [] ≡ 0
  unfolding set_hash
  set_hash-nil e d p = refl

  pub set_hash-cons :
      (e d p : ℕ) (r : Row) (rows : List Row)
      → set_hash e d p (r ∷ rows) ≡ bit_xor (share e d p r) (set_hash e d p rows)
  unfolding set_hash add_share
  set_hash-cons e d p r rows = refl

  pub fold_in-share :
      (e d p : ℕ) (r : Row) (h : ℕ)
      → fold_in
          (epoch_field r.key == e && in_cell d p (spatial_field r.key))
          (item_digest sha256 r.key r.payload)
          (some h)
        ≡ some (bit_xor h (share e d p r))
  unfolding share
  fold_in-share e d p r h =
      elim (Bool-cases (epoch_field r.key == e && in_cell d p (spatial_field r.key))) [
        | inl at ↦ rw at refl
        | inr off ↦ rw off (ap some (sym (bit_xor-zero h)))
      ]

  insert_all-from :
      (rows : List Row) (f : MerkleForest) (e d p h : ℕ)
      → IsLevel f.leaf_depth_bits d
      → node_hash f e d p ≡ some h
      → node_hash (insert_all f rows) e d p ≡ some (bit_xor h (set_hash e d p rows))
  unfolding insert_all set_hash
  insert_all-from [] f e d p h l start = start ∙ ap some (sym (bit_xor-zero h))
  insert_all-from (r ∷ rows) f e d p h l start =
      let step =
        node_hash-insert sha256 f r.key r.payload e d p l
        ∙ ap (fold_in _ _) start
        ∙ fold_in-share e d p r h in
      insert_all-from rows (insert sha256 f r.key r.payload) e d p (bit_xor h (share e d p r))
        (unfold insert in l) step
      ∙ ap some (bit_xor_assoc h (share e d p r) (set_hash e d p rows))

  -- After `new` has made a forest of leaf depth `leaf` and rows have been inserted in turn,
  -- `node_hash` at a depth that is a multiple of 3 up to `leaf` does not panic, and gives the
  -- exclusive or of the digests of the rows whose keys lie in the node.
  pub insert_all-set_hash :
      (leaf : ℕ) (f : MerkleForest) (rows : List Row) (e d p : ℕ)
      → new leaf ≡ some f
      → IsLevel leaf d
      → node_hash (insert_all f rows) e d p ≡ some (set_hash e d p rows)
  insert_all-set_hash leaf f rows e d p made l =
      let shape = new_fields leaf f made in
      let level : IsLevel f.leaf_depth_bits d = subst (λ (n : ℕ). IsLevel n d) (sym shape.0) l in
      insert_all-from rows f e d p 0 level (empty-node_hash f e d p level shape.1)
      ∙ ap some (zero-bit_xor (set_hash e d p rows))

  -- The specification forgets the order.
  pub set_hash-Perm :
      (e d p : ℕ) {rows rows' : List Row}
      → Perm rows rows'
      → set_hash e d p rows ≡ set_hash e d p rows'
  unfolding set_hash
  set_hash-Perm e d p h =
      Perm.foldr-eq ℕ_set (add_share e d p)
        (λ a b x. bit_xor_left_comm (share e d p a) (share e d p b) x) h 0

  -- Two forests that `new` made, at any leaf depths, and that then took the same rows in any
  -- order, have the same hash at every node whose depth is a multiple of 3 up to both leaf depths.
  pub insert_all-Perm :
      (leaf leaf' : ℕ) (f f' : MerkleForest) (rows rows' : List Row) (e d p : ℕ)
      → new leaf ≡ some f
      → new leaf' ≡ some f'
      → IsLevel leaf d
      → IsLevel leaf' d
      → Perm rows rows'
      → node_hash (insert_all f rows) e d p ≡ node_hash (insert_all f' rows') e d p
  insert_all-Perm leaf leaf' f f' rows rows' e d p made made' l l' same =
      insert_all-set_hash leaf f rows e d p made l
      ∙ ap some (set_hash-Perm e d p same)
      ∙ sym (insert_all-set_hash leaf' f' rows' e d p made' l')
