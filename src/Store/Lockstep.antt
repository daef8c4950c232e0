-- ===== src/Store/Lockstep.antt =====
-- About src/store.rs: the forest in step with the rows. Each node hash is the exclusive or of the
-- digests of the rows in the node, and each row's epoch has a tree.
pub mod Commit
pub mod Ingest
pub mod Writes
use interstellar_db.Base.{
  ℕ, ◌≡◌, refl, sym, ap, ◌∙◌, arith, bit_xor, List, [], ◌∷◌, Option, none, some, length, subst,
  if◌then◌else◌, Bool, true, false, Bool-cases, Option-cases, inl, inr,
}
use interstellar_db.Base.Bits.{
  bit_xor_assoc, bit_xor_comm, bit_xor_self, bit_xor-zero, zero-bit_xor,
}
use interstellar_db.Base.ByteOrder.{bytes_eq, eq_of_bytes_eq}
use interstellar_db.Indexer.Key.{epoch_field}
use interstellar_db.Merkle.Tree.Hash.{IsLevel, fold_in}
use interstellar_db.Merkle.Forest.{MerkleForest, node_hash, insert, remove}
use interstellar_db.Merkle.Forest.Items.{Row, share, set_hash, fold_in-share}
use interstellar_db.Merkle.Forest.Laws.{node_hash-insert, node_hash-remove_present}
use interstellar_db.Merkle.Forest.Planted.{
  HasTree, insert-HasTree, insert-HasTree_own, remove-HasTree, insert-leaf, remove-leaf,
}
use interstellar_db.Merkle.Forest.Shape.{IsWellFormed, insert-IsWellFormed, remove-IsWellFormed}
use interstellar_db.Store.{merkle_leaf_depth_bits}
use interstellar_db.Store.Entries.{find, put, IsAscending}
use interstellar_db.Store.Entries.Laws.{find-put, old_share, set_hash-put}
use interstellar_db.Store.Ingest.{replace_item}

pub record IsSummed (sha256 : List ℕ → List ℕ) (m : MerkleForest) (rows : List Row) : Type 0 where
  pub leaf : m.leaf_depth_bits ≡ merkle_leaf_depth_bits
  pub shape : IsWellFormed m
  pub hashes :
      (e d p : ℕ)
      → IsLevel merkle_leaf_depth_bits d
      → node_hash m e d p ≡ some (set_hash sha256 e d p rows)
  pub planted : (k v : List ℕ) → find k rows ≡ some v → HasTree m (epoch_field k)

module _ (sha256 : List ℕ → List ℕ) (m : MerkleForest) (k v : List ℕ) where
  -- One item folded in or out of a node.
  insert-share :
      (e d p h : ℕ)
      → IsLevel m.leaf_depth_bits d
      → node_hash m e d p ≡ some h
      → node_hash (insert sha256 m k v) e d p
        ≡ some (bit_xor h (share sha256 e d p (record { key = k; payload = v })))
  insert-share e d p h l start =
      node_hash-insert sha256 m k v e d p l
      ∙ ap (fold_in _ _) start
      ∙ fold_in-share sha256 e d p (record { key = k; payload = v }) h

  remove-share :
      (e d p h : ℕ)
      → IsLevel m.leaf_depth_bits d
      → HasTree m (epoch_field k)
      → node_hash m e d p ≡ some h
      → node_hash (remove sha256 m k v) e d p
        ≡ some (bit_xor h (share sha256 e d p (record { key = k; payload = v })))
  remove-share e d p h l (t, present) start =
      node_hash-remove_present sha256 m k v e d p l t present
      ∙ ap (fold_in _ _) start
      ∙ fold_in-share sha256 e d p (record { key = k; payload = v }) h

module _ (sha256 : List ℕ → List ℕ) (m : MerkleForest) (rows : List Row) (up : IsAscending rows)
    (summed : IsSummed sha256 m rows) (k v : List ℕ) where
  abbrev item : List ℕ → Row
  item w = record { key = k; payload = w }

  -- The forest when the old item is out: the rows' sum with the old share taken out.
  planted_after :
      (n : MerkleForest)
      → HasTree n (epoch_field k)
      → ((e : ℕ) → HasTree m e → HasTree n e)
      → (j w : List ℕ) → find j (put k v rows) ≡ some w
      → HasTree n (epoch_field j)
  planted_after n own keep j w at = elim (Bool-cases (bytes_eq j k)) [
    | inl same ↦
        subst (λ (i : List ℕ). HasTree n (epoch_field i)) (sym (eq_of_bytes_eq j k same)) own
    | inr other ↦
        keep (epoch_field j) (summed.planted j w (sym (find-put j k v rows ∙ rw other refl) ∙ at))
  ]

  -- A new row.
  pub insert-IsSummed : find k rows ≡ none → IsSummed sha256 (insert sha256 m k v) (put k v rows)
  insert-IsSummed absent = record {
    leaf = insert-leaf sha256 m k v ∙ summed.leaf;
    shape = insert-IsWellFormed sha256 m k v summed.shape;
    hashes = λ e d p l.
        let at : IsLevel m.leaf_depth_bits d = subst (λ (n : ℕ). IsLevel n d) (sym summed.leaf) l in
        insert-share sha256 m k v e d p _ at (summed.hashes e d p l)
        ∙ ap some (
            bit_xor_comm (set_hash sha256 e d p rows) (share sha256 e d p (item v))
            ∙ sym (
                set_hash-put sha256 e d p k v rows up
                ∙ rw absent (ap (bit_xor (share sha256 e d p (item v))) (zero-bit_xor _))));
    planted =
        planted_after (insert sha256 m k v) (insert-HasTree_own sha256 m k v)
          (insert-HasTree sha256 m k v);
  }

  -- A row in place of another: the other comes out first.
  replace-IsSummed :
      (w : List ℕ)
      → find k rows ≡ some w
      → IsSummed sha256 (insert sha256 (remove sha256 m k w) k v) (put k v rows)
  replace-IsSummed w present =
      let less = remove sha256 m k w in
      record {
        leaf = insert-leaf sha256 less k v ∙ remove-leaf sha256 m k w ∙ summed.leaf;
        shape = insert-IsWellFormed sha256 less k v (remove-IsWellFormed sha256 m k w summed.shape);
        hashes = λ e d p l.
            let at : IsLevel m.leaf_depth_bits d =
              subst (λ (n : ℕ). IsLevel n d) (sym summed.leaf) l in
            let at_less : IsLevel less.leaf_depth_bits d =
              subst (λ (n : ℕ). IsLevel n d) (sym (remove-leaf sha256 m k w)) at in
            let sum : ℕ = set_hash sha256 e d p rows in
            let old : ℕ = share sha256 e d p (item w) in
            let new : ℕ = share sha256 e d p (item v) in
            insert-share sha256 less k v e d p _ at_less (
              remove-share sha256 m k w e d p _ at (summed.planted k w present)
                (summed.hashes e d p l))
            ∙ ap some (
                bit_xor_comm (bit_xor sum old) new
                ∙ ap (bit_xor new) (bit_xor_comm sum old)
                ∙ sym (set_hash-put sha256 e d p k v rows up ∙ rw present refl));
        planted =
            planted_after (insert sha256 less k v) (insert-HasTree_own sha256 less k v)
              (λ e h. insert-HasTree sha256 less k v e (remove-HasTree sha256 m k w e h));
      }

  -- What `ingest` folds keeps the forest in step.
  pub replace_item-IsSummed :
      IsSummed sha256 (replace_item sha256 k v (find k rows) m) (put k v rows)
  unfolding replace_item
  replace_item-IsSummed = elim (Option-cases (find k rows)) [
    | inl absent ↦ rw (absent, replace_item) (insert-IsSummed absent)
    | inr present ↦ rw (present.1, replace_item) (replace-IsSummed present.0 present.1)
  ]
