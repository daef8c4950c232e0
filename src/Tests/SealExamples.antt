-- ===== src/Tests/SealExamples.antt =====
-- A sealed epoch, written and loaded.
use interstellar_db.Base.{
  ℕ, ◌+◌, ◌^◌, ◌<◌, ◌≡◌, refl, arith, List, [], ◌∷◌, some, none, length, replicate, subst, sym,
}
use interstellar_db.Base.BTreeMap.{get, alter}
use interstellar_db.Base.Bytes.{to_be_bytes, from_be_bytes}
use interstellar_db.Indexer.Coordinate.Bounds.{IsDepth}
use interstellar_db.Indexer.Key.{key_bytes, epoch_field, spatial_field}
use interstellar_db.Merkle.Tree.{
  EpochTree, item_digest, split_key, toggle, toggle_levels, xor_entry, prefix_at,
}
use interstellar_db.Merkle.Tree
use interstellar_db.Merkle.Tree.Hash.{IsLevel}
use interstellar_db.Merkle.Forest.{MerkleForest, add_item, node_hash, insert}
use interstellar_db.Merkle.Seal.{
  serialize_epoch, loaded, too_short, unsupported_version, already_populated, seal_entries, sort_in,
  load_sealed_epoch, seal_record, nonzero_entries, sort_by_prefix,
}
use interstellar_db.Merkle.Seal.Record.{FitFields}
use interstellar_db.Merkle.Seal.Fold.{
  IsFolded, new-IsFolded, toggle-IsFolded, add_item-IsFolded, leaves,
}
use interstellar_db.Merkle.Seal.RoundTrip.{IsSealable, load_sealed_epoch-serialize_epoch}
use interstellar_db.Tests.MerkleExamples.{toy_hash, fresh}

abbrev key : List ℕ
key = key_bytes 7 (2 ^ 62) 5

abbrev stored : MerkleForest
stored = insert toy_hash fresh key (1 ∷ 2 ∷ [])

abbrev tree : EpochTree
tree = add_item 15 (2 ^ 62) (item_digest toy_hash key (1 ∷ 2 ∷ [])) none

stored_tree : get 7 stored.trees ≡ some tree
unfolding insert split_key epoch_field spatial_field from_be_bytes key_bytes to_be_bytes alter get
stored_tree = refl

fifteen-IsDepth : IsDepth 15
fifteen-IsDepth = record { at_least = omega arith; at_most = omega arith; multiple = refl }

-- The record's entries: one leaf, with the digest of the row.
sealed_entries :
    sort_by_prefix (nonzero_entries (leaves 15 tree))
    ≡ (2 ^ 62, item_digest toy_hash key (1 ∷ 2 ∷ [])) ∷ []
unfolding leaves add_item toggle Tree.new toggle_levels xor_entry prefix_at alter item_digest
    from_be_bytes to_be_bytes key_bytes nonzero_entries sort_by_prefix sort_in
sealed_entries = refl

digest_fits : item_digest toy_hash key (1 ∷ 2 ∷ []) < 2 ^ 128
unfolding item_digest from_be_bytes to_be_bytes key_bytes
digest_fits = omega arith

no_tree : (t : EpochTree) → none ≡ some t → IsFolded 15 t
no_tree t e = absurd (ground (arith, e))

counted : tree.count < 2 ^ 64
unfolding add_item toggle Tree.new
counted = omega arith

stored-IsSealable : IsSealable stored 7 tree
unfolding insert
stored-IsSealable = record {
  depth = fifteen-IsDepth;
  present = stored_tree;
  folded =
      add_item-IsFolded 15 (2 ^ 62) (item_digest toy_hash key (1 ∷ 2 ∷ [])) none fifteen-IsDepth
        (omega arith) no_tree;
  count_u64 = counted;
  fit = subst FitFields (sym sealed_entries) ((omega arith, digest_fits), tt);
  few = subst (λ (es : List (ℕ × ℕ)). length es < 2 ^ 32) (sym sealed_entries) (omega arith);
}

abbrev sealed_bytes : List ℕ
sealed_bytes = seal_record 15 1 ((2 ^ 62, item_digest toy_hash key (1 ∷ 2 ∷ [])) ∷ [])

serialized : serialize_epoch stored 7 ≡ some (some sealed_bytes)
unfolding serialize_epoch insert seal_entries seal_record split_key epoch_field spatial_field get
    leaves add_item toggle Tree.new toggle_levels xor_entry prefix_at alter item_digest
    from_be_bytes to_be_bytes key_bytes nonzero_entries sort_by_prefix sort_in
serialized = refl

not_in_fresh : get 7 fresh.trees ≡ none
unfolding get
not_in_fresh = refl

same_depth : fresh.leaf_depth_bits ≡ stored.leaf_depth_bits
unfolding insert
same_depth = refl

load_sealed_epoch-serialize_epoch_example :
    (h : MerkleForest) × (load_sealed_epoch fresh 7 sealed_bytes ≡ loaded h)
    × ((d p : ℕ) → IsLevel stored.leaf_depth_bits d → node_hash h 7 d p ≡ node_hash stored 7 d p)
load_sealed_epoch-serialize_epoch_example =
    load_sealed_epoch-serialize_epoch stored fresh 7 tree stored-IsSealable same_depth not_in_fresh
      sealed_bytes serialized

-- A record cut short, and one of another version, are refused.
refused :
    (load_sealed_epoch fresh 7 (1 ∷ 15 ∷ []) ≡ too_short)
    × (load_sealed_epoch fresh 7 (2 ∷ replicate 13 0) ≡ unsupported_version)
    × (load_sealed_epoch stored 7 sealed_bytes ≡ already_populated)
unfolding load_sealed_epoch get insert split_key epoch_field spatial_field from_be_bytes key_bytes
    to_be_bytes alter
refused = (refl, refl, refl)

toggle-IsFolded_example : IsFolded 15 (toggle (Tree.new 15) (2 ^ 62 + 9) 77)
toggle-IsFolded_example =
    toggle-IsFolded 15 fifteen-IsDepth (Tree.new 15) (2 ^ 62 + 9) 77 (omega arith) (new-IsFolded 15)
