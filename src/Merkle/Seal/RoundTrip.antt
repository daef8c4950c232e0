-- ===== src/Merkle/Seal/RoundTrip.antt =====
-- A seal record loads to a tree with the node hashes of the tree that it was made of.
use interstellar_db.Base.{
  ℕ, zero, suc, ◌-◌, ◌/◌, ◌^◌, ◌<◌, ◌≡◌, refl, sym, ap, ◌∙◌, arith, List, [], ◌∷◌, none, some, ◌==◌,
  ==_self, if◌then◌else◌, length, get_elem?, subst,
}
use interstellar_db.Base.Bits.{bit_xor-zero}
use interstellar_db.Base.BTreeMap.{get, alter, get-alter}
use interstellar_db.Indexer.Coordinate.Bounds.{IsDepth}
use interstellar_db.Merkle.Tree.{EpochTree, toggle}
use interstellar_db.Merkle.Tree
use interstellar_db.Merkle.Tree.Hash.{IsLevel, node_hash-new, node_hash-count}
use interstellar_db.Merkle.Forest.{MerkleForest, node_hash}
use interstellar_db.Merkle.Forest.Laws.{tree_hash, node_hash-eq-tree_hash}
use interstellar_db.Merkle.Seal.{
  nonzero_entries, sort_by_prefix, seal_record, seal_entries, serialize_epoch, loaded,
  load_sealed_epoch,
}
use interstellar_db.Merkle.Seal.Fold.{
  leaf_sum, leaf_sum-nonzero, leaf_sum-sort, leaves, IsFolded, toggle_all, toggle_all-hash,
}
use mathlib.Core.Option
use interstellar_db.Merkle.Seal.Record.{
  FitFields, load_checked-seal_record, load_sealed_epoch-seal_record,
}

pub get_elem?-some :
    (xs : List (List (ℕ × ℕ))) (i : ℕ)
    → i < length xs
    → get_elem? xs i ≡ some (Option.get_or (get_elem? xs i) [])
get_elem?-some [] i h = absurd (omega arith)
get_elem?-some (x ∷ xs) zero h = refl
get_elem?-some (x ∷ xs) (suc i) h = get_elem?-some xs i (omega arith)

-- What a sealed epoch holds: a tree whose levels follow from its leaves, with leaves and a count that
-- fit the record's fields.
pub record IsSealable (f : MerkleForest) (epoch : ℕ) (t : EpochTree) : Type 0 where
  pub depth : IsDepth f.leaf_depth_bits
  pub present : get epoch f.trees ≡ some t
  pub folded : IsFolded f.leaf_depth_bits t
  pub count_u64 : t.count < 2 ^ 64
  pub fit : FitFields (sort_by_prefix (nonzero_entries (leaves f.leaf_depth_bits t)))
  pub few : length (sort_by_prefix (nonzero_entries (leaves f.leaf_depth_bits t))) < 2 ^ 32

module _ (f g : MerkleForest) (epoch : ℕ) (t : EpochTree) (sealable : IsSealable f epoch t)
    (same_depth : g.leaf_depth_bits ≡ f.leaf_depth_bits) (absent : get epoch g.trees ≡ none) where
  abbrev leaf : ℕ
  leaf = f.leaf_depth_bits

  abbrev entries : List (ℕ × ℕ)
  entries = sort_by_prefix (nonzero_entries (leaves leaf t))

  abbrev reloaded : EpochTree
  reloaded = record (toggle_all entries (Tree.new g.leaf_depth_bits)) { count = t.count }

  abbrev result : MerkleForest
  result = record g { trees = alter epoch (λ old. reloaded) g.trees }

  reloaded-hash : (d p : ℕ) → IsLevel leaf d → Tree.node_hash reloaded d p ≡ Tree.node_hash t d p
  reloaded-hash d p l =
      let level : IsLevel g.leaf_depth_bits d = subst (λ (n : ℕ). IsLevel n d) (sym same_depth) l in
      node_hash-count (toggle_all entries (Tree.new g.leaf_depth_bits)) t.count d p
      ∙ toggle_all-hash entries (Tree.new g.leaf_depth_bits) d p 0 l.multiple
          (node_hash-new g.leaf_depth_bits d p level)
      ∙ ap some (
          bit_xor-zero (leaf_sum d p entries)
          ∙ leaf_sum-sort d p _
          ∙ leaf_sum-nonzero d p (leaves leaf t))
      ∙ sym (sealable.folded.hash d p l)

  result-hash : (d p : ℕ) → IsLevel leaf d → node_hash result epoch d p ≡ node_hash f epoch d p
  unfolding tree_hash
  result-hash d p l =
      let level : IsLevel g.leaf_depth_bits d = subst (λ (n : ℕ). IsLevel n d) (sym same_depth) l in
      let at : (if epoch == epoch then some reloaded else get epoch g.trees) ≡ some reloaded =
        rw (==_self epoch) refl in
      let found : get epoch result.trees ≡ some reloaded =
        get-alter epoch epoch (λ old. reloaded) g.trees ∙ at in
      node_hash-eq-tree_hash result epoch d p level
      ∙ ap (λ o. tree_hash o d p) found
      ∙ reloaded-hash d p l
      ∙ ap (λ o. tree_hash o d p) (sym sealable.present)
      ∙ sym (node_hash-eq-tree_hash f epoch d p l)

  run_lem : load_sealed_epoch g epoch (seal_record leaf t.count entries) ≡ loaded result
  run_lem =
      let small : leaf < 256 = omega (arith, sealable.depth) in
      load_sealed_epoch-seal_record leaf t.count entries small sealable.count_u64 sealable.few
        sealable.fit g epoch same_depth absent
      ∙ load_checked-seal_record leaf t.count entries small sealable.count_u64 sealable.few
          sealable.fit g epoch

  record_of :
      (es : List (ℕ × ℕ)) (bytes : List ℕ)
      → seal_entries leaf t.count es ≡ some bytes
      → seal_record leaf t.count es ≡ bytes
  unfolding seal_entries
  record_of [] bytes made = ground (arith, made)
  record_of (e ∷ es) bytes made = ground (arith, made)

  serialized :
      (bytes : List ℕ)
      → serialize_epoch f epoch ≡ some (some bytes)
      → seal_record leaf t.count entries ≡ bytes
  unfolding leaves serialize_epoch seal_entries
  serialized bytes made =
      let there =
        get_elem?-some t.levels (leaf / 3 - 1)
          (omega (arith, sealable.folded.levels, sealable.depth)) in
      let run : serialize_epoch f epoch ≡ some (seal_entries leaf t.count entries) =
        rw (serialize_epoch, sealable.present, there) refl in
      record_of entries bytes (ground (arith, sym run ∙ made))

  -- For an epoch of a forest whose tree has a level for each step of three bits, with hashes that
  -- follow from its leaves, and leaves and a count that fit the fields of the record: the record that
  -- `serialize_epoch` gives, if it gives one, loads into any forest of the same leaf depth that has no
  -- tree for the epoch, without an error, and the epoch's nodes then have the hashes that they had in
  -- the first forest, at each depth that is a multiple of 3 up to the leaf depth.
  pub load_sealed_epoch-serialize_epoch :
      (bytes : List ℕ)
      → serialize_epoch f epoch ≡ some (some bytes)
      → (h : MerkleForest) × (load_sealed_epoch g epoch bytes ≡ loaded h)
        × ((d p : ℕ) → IsLevel f.leaf_depth_bits d → node_hash h epoch d p ≡ node_hash f epoch d p)
  load_sealed_epoch-serialize_epoch bytes made =
      (result, ap (load_sealed_epoch g epoch) (sym (serialized bytes made)) ∙ run_lem, result-hash)
