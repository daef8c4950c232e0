-- ===== src/Tests/MerkleExamples.antt =====
-- Runs of the Merkle forest, and its theorems applied to them.
use interstellar_db.Base.{
  ℕ, ◌+◌, ◌*◌, ◌^◌, ◌≡◌, ◌↔◌, min, Member, refl, arith, List, [], ◌∷◌, some, ◌&&◌, ◌==◌,
}
use interstellar_db.Base.Bytes.{to_be_bytes, from_be_bytes}
use interstellar_db.Indexer.Key.{key_bytes, epoch_field, spatial_field}
use interstellar_db.Base.BTreeMap.{get, alter}
use interstellar_db.Merkle.Tree.{item_digest, split_key, toggle}
use interstellar_db.Merkle.Tree
use interstellar_db.Merkle.Tree.Hash.{in_cell, fold_in, IsLevel}
use interstellar_db.Merkle.Forest.{
  MerkleForest, new, len, node_hash, insert, remove, epoch_roots, tree_counts, nonzero_roots,
  add_item, take_item,
}
use interstellar_db.Merkle.Forest.Laws.{node_hash-insert, node_hash-remove, has_tree, remove-insert}
use interstellar_db.Merkle.Forest.Items.{
  Row, insert_all, set_hash, insert_all-set_hash, insert_all-Perm,
}
use interstellar_db.Indexer.Ranges.Covers.{Covers}
use interstellar_db.Merkle.Tree.{leaf_key_range, prefix_at}
use interstellar_db.Merkle.Forest.Shape.{
  IsWellFormed, new-IsWellFormed, insert-IsWellFormed, node_hash-some,
}
use interstellar_db.Merkle.Diff.{DivergentLeaf, diff_forests}
use interstellar_db.Merkle.Diff.Cells.{IsPrefix}
use interstellar_db.Merkle.Diff.Exact.{Divergent, diff_forests-Divergent_iff}
use interstellar_db.Merkle.Diff.Range.{leaf_key_range-Covers_iff}
use interstellar_db.Merkle.Diff.Rows.{
  RowsDiverge, insert_all-IsWellFormed, diff_forests-RowsDiverge_iff, diff_forests-Perm,
}
use mathlib.Core.List.Perm

-- A hash function for examples, of 32 bytes.
abbrev pub toy_hash : List ℕ → List ℕ
toy_hash bytes = to_be_bytes 32 (from_be_bytes bytes * 11400714819323198485)

abbrev pub fresh : MerkleForest
fresh = record { leaf_depth_bits = 15; trees = [] }

pub fresh_made : new 15 ≡ some fresh
unfolding new
fresh_made = refl

abbrev shallow : MerkleForest
shallow = record { leaf_depth_bits = 9; trees = [] }

shallow_made : new 9 ≡ some shallow
unfolding new
shallow_made = refl

abbrev row_a : Row
row_a = record { key = key_bytes 7 (2 ^ 62) 5; payload = 1 ∷ 2 ∷ [] }

abbrev row_b : Row
row_b = record { key = key_bytes 7 (2 ^ 40) 9; payload = 3 ∷ [] }

two_items : len (insert_all toy_hash fresh (row_a ∷ row_b ∷ [])) ≡ 2
unfolding len tree_counts insert_all insert alter split_key epoch_field from_be_bytes key_bytes
    to_be_bytes add_item toggle Tree.new
two_items = refl

emptied :
    epoch_roots
      (remove toy_hash (insert toy_hash fresh row_a.key row_a.payload) row_a.key row_a.payload)
    ≡ []
unfolding epoch_roots nonzero_roots remove insert get alter split_key epoch_field from_be_bytes
    key_bytes to_be_bytes take_item toggle add_item Tree.new item_digest
emptied = refl

IsLevel-at_15 : IsLevel 15 9
IsLevel-at_15 = record { within = omega arith; multiple = refl }

IsLevel-at_9 : IsLevel 9 9
IsLevel-at_9 = record { within = omega arith; multiple = refl }

insert_all-set_hash_example :
    node_hash (insert_all toy_hash fresh (row_a ∷ row_b ∷ [])) 7 9 (2 ^ 62)
    ≡ some (set_hash toy_hash 7 9 (2 ^ 62) (row_a ∷ row_b ∷ []))
insert_all-set_hash_example =
    insert_all-set_hash toy_hash 15 fresh (row_a ∷ row_b ∷ []) 7 9 (2 ^ 62) fresh_made IsLevel-at_15

insert_all-Perm_example :
    node_hash (insert_all toy_hash fresh (row_a ∷ row_b ∷ [])) 7 9 (2 ^ 62)
    ≡ node_hash (insert_all toy_hash shallow (row_b ∷ row_a ∷ [])) 7 9 (2 ^ 62)
insert_all-Perm_example =
    insert_all-Perm toy_hash 15 9 fresh shallow (row_a ∷ row_b ∷ []) (row_b ∷ row_a ∷ []) 7 9
      (2 ^ 62) fresh_made shallow_made IsLevel-at_15 IsLevel-at_9 (Perm.swap row_b row_a [])

remove-insert_example :
    node_hash
      (remove toy_hash (insert toy_hash fresh row_a.key row_a.payload) row_a.key row_a.payload)
      7
      9
      (2 ^ 62)
    ≡ node_hash fresh 7 9 (2 ^ 62)
remove-insert_example =
    remove-insert toy_hash fresh row_a.key row_a.payload 7 9 (2 ^ 62) IsLevel-at_15

node_hash-insert_example :
    node_hash (insert toy_hash fresh row_a.key row_a.payload) 7 9 (2 ^ 62)
    ≡ fold_in
        (epoch_field row_a.key == 7 && in_cell 9 (2 ^ 62) (spatial_field row_a.key))
        (item_digest toy_hash row_a.key row_a.payload)
        (node_hash fresh 7 9 (2 ^ 62))
node_hash-insert_example =
    node_hash-insert toy_hash fresh row_a.key row_a.payload 7 9 (2 ^ 62) IsLevel-at_15

fresh-IsWellFormed : IsWellFormed fresh
fresh-IsWellFormed = new-IsWellFormed 15 fresh fresh_made

insert-IsWellFormed_example : IsWellFormed (insert toy_hash fresh row_a.key row_a.payload)
insert-IsWellFormed_example =
    insert-IsWellFormed toy_hash fresh row_a.key row_a.payload fresh-IsWellFormed

in_one_item : IsLevel (insert toy_hash fresh row_a.key row_a.payload).leaf_depth_bits 9
unfolding insert
in_one_item = record { within = omega arith; multiple = refl }

node_hash-remove_example :
    node_hash
      (remove toy_hash (insert toy_hash fresh row_a.key row_a.payload) row_a.key row_a.payload)
      7
      9
      (2 ^ 62)
    ≡ fold_in
        (has_tree toy_hash
            (insert toy_hash fresh row_a.key row_a.payload)
            row_a.key
            row_a.payload
            7
            9
            (2 ^ 62)
            in_one_item
          && (epoch_field row_a.key == 7 && in_cell 9 (2 ^ 62) (spatial_field row_a.key)))
        (item_digest toy_hash row_a.key row_a.payload)
        (node_hash (insert toy_hash fresh row_a.key row_a.payload) 7 9 (2 ^ 62))
node_hash-remove_example =
    node_hash-remove toy_hash (insert toy_hash fresh row_a.key row_a.payload) row_a.key
      row_a.payload 7 9 (2 ^ 62) in_one_item

in_two_items : IsLevel (insert_all toy_hash fresh (row_a ∷ row_b ∷ [])).leaf_depth_bits 9
unfolding insert_all insert
in_two_items = record { within = omega arith; multiple = refl }

node_hash-some_example :
    (h : ℕ) × (node_hash (insert_all toy_hash fresh (row_a ∷ row_b ∷ [])) 7 9 (2 ^ 62) ≡ some h)
node_hash-some_example =
    node_hash-some (insert_all toy_hash fresh (row_a ∷ row_b ∷ [])) 7 9 (2 ^ 62)
      (insert_all-IsWellFormed toy_hash (row_a ∷ row_b ∷ []) fresh fresh-IsWellFormed) in_two_items

diff_forests-Divergent_iff_example :
    (leaves : List DivergentLeaf) × (diff_forests
        (insert_all toy_hash fresh (row_a ∷ []))
        (insert_all toy_hash shallow (row_b ∷ []))
      ≡ some leaves)
    × ((l : DivergentLeaf)
        → Member l leaves
          ↔ Divergent
              (insert_all toy_hash fresh (row_a ∷ []))
              (insert_all toy_hash shallow (row_b ∷ []))
              (min
                (insert_all toy_hash fresh (row_a ∷ [])).leaf_depth_bits
                (insert_all toy_hash shallow (row_b ∷ [])).leaf_depth_bits)
              l)
diff_forests-Divergent_iff_example =
    diff_forests-Divergent_iff (insert_all toy_hash fresh (row_a ∷ []))
      (insert_all toy_hash shallow (row_b ∷ []))
      (insert_all-IsWellFormed toy_hash (row_a ∷ []) fresh fresh-IsWellFormed)
      (insert_all-IsWellFormed toy_hash (row_b ∷ []) shallow
        (new-IsWellFormed 9 shallow shallow_made))

diff_forests-RowsDiverge_iff_example :
    (leaves : List DivergentLeaf) × (diff_forests
        (insert_all toy_hash fresh (row_a ∷ []))
        (insert_all toy_hash shallow (row_b ∷ []))
      ≡ some leaves)
    × ((l : DivergentLeaf)
        → Member l leaves ↔ RowsDiverge toy_hash (row_a ∷ []) (row_b ∷ []) (min 15 9) l)
diff_forests-RowsDiverge_iff_example =
    diff_forests-RowsDiverge_iff toy_hash 15 9 fresh shallow (row_a ∷ []) (row_b ∷ []) fresh_made
      shallow_made

diff_forests-Perm_example :
    diff_forests
      (insert_all toy_hash fresh (row_a ∷ row_b ∷ []))
      (insert_all toy_hash shallow (row_b ∷ row_a ∷ []))
    ≡ some []
diff_forests-Perm_example =
    diff_forests-Perm toy_hash 15 9 fresh shallow (row_a ∷ row_b ∷ []) (row_b ∷ row_a ∷ [])
      fresh_made shallow_made (Perm.swap row_b row_a [])

cell-IsPrefix : IsPrefix 15 (2 ^ 62)
unfolding prefix_at
cell-IsPrefix = record { word = omega arith; place = refl }

leaf_key_range-Covers_iff_example :
    Covers (leaf_key_range 7 (2 ^ 62) 15) (key_bytes 7 (2 ^ 62 + 3) 5)
    ↔ ((◌≡◌ {A = ℕ} 7 7) × (prefix_at (2 ^ 62 + 3) 15 ≡ 2 ^ 62))
leaf_key_range-Covers_iff_example =
    leaf_key_range-Covers_iff 15 7 (2 ^ 62) 7 (2 ^ 62 + 3) 5
      (record { at_least = omega arith; at_most = omega arith; multiple = refl }) cell-IsPrefix
      (omega arith)
      (record { epoch_u32 = omega arith; spatial_u64 = omega arith; nano_u64 = omega arith })
