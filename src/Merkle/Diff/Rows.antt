-- ===== src/Merkle/Diff/Rows.antt =====
-- The comparison of two forests that were built from rows.
use interstellar_db.Base.{
  ℕ, ◌≡◌, ◌≢◌, ◌↔◌, inl, refl, sym, ap, ◌∙◌, arith, min, List, [], ◌∷◌, Member, some, subst,
}
use interstellar_db.Merkle.Tree.{prefix_at}
use interstellar_db.Merkle.Tree.Hash.{IsLevel}
use interstellar_db.Merkle.Forest.{MerkleForest, new, node_hash, insert}
use interstellar_db.Merkle.Forest.Shape.{
  IsWellFormed, new-IsFresh, new-IsWellFormed, insert-IsWellFormed,
}
use interstellar_db.Merkle.Forest.Items.{
  Row, insert_all, set_hash, insert_all-set_hash, set_hash-Perm,
}
use interstellar_db.Merkle.Diff.{DivergentLeaf, divergent_leaf, diff_forests}
use interstellar_db.Merkle.Diff.Cells.{IsPrefix}
use interstellar_db.Merkle.Diff.Exact.{Divergent, diff_forests-Divergent_iff}
use interstellar_db.Merkle.Diff.Finds.{some_inj}
use mathlib.Core.List.{Perm}

module _ (sha256 : List ℕ → List ℕ) where
  pub insert_all-IsWellFormed :
      (rows : List Row) (f : MerkleForest)
      → IsWellFormed f
      → IsWellFormed (insert_all sha256 f rows)
  unfolding insert_all
  insert_all-IsWellFormed [] f shape = shape
  insert_all-IsWellFormed (r ∷ rows) f shape =
      insert_all-IsWellFormed rows (insert sha256 f r.key r.payload)
        (insert-IsWellFormed sha256 f r.key r.payload shape)

  insert_all-leaf :
      (rows : List Row) (f : MerkleForest)
      → (insert_all sha256 f rows).leaf_depth_bits ≡ f.leaf_depth_bits
  unfolding insert_all insert
  insert_all-leaf [] f = refl
  insert_all-leaf (r ∷ rows) f = insert_all-leaf rows (insert sha256 f r.key r.payload)

  -- A leaf cell such that at every level from the root down to it the two lists of rows have
  -- different sums of digests.
  pub record RowsDiverge (rows rows' : List Row) (leaf : ℕ) (l : DivergentLeaf) : Type 0 where
    pub epoch : ℕ
    pub prefix : ℕ
    pub cell : IsPrefix leaf prefix
    pub differ :
        (d : ℕ)
        → IsLevel leaf d
        → set_hash sha256 epoch d (prefix_at prefix d) rows
          ≢ set_hash sha256 epoch d (prefix_at prefix d) rows'
    pub shape : l ≡ divergent_leaf epoch leaf prefix

  module _ (leaf leaf' : ℕ) (f f' : MerkleForest) (rows rows' : List Row) (made : new leaf ≡ some f)
      (made' : new leaf' ≡ some f') where
    abbrev a : MerkleForest
    a = insert_all sha256 f rows

    abbrev b : MerkleForest
    b = insert_all sha256 f' rows'

    a-leaf : a.leaf_depth_bits ≡ leaf
    a-leaf = insert_all-leaf rows f ∙ (new-IsFresh leaf f made).same_leaf

    b-leaf : b.leaf_depth_bits ≡ leaf'
    b-leaf = insert_all-leaf rows' f' ∙ (new-IsFresh leaf' f' made').same_leaf

    a-IsWellFormed : IsWellFormed a
    a-IsWellFormed = insert_all-IsWellFormed rows f (new-IsWellFormed leaf f made)

    b-IsWellFormed : IsWellFormed b
    b-IsWellFormed = insert_all-IsWellFormed rows' f' (new-IsWellFormed leaf' f' made')

    Divergent-RowsDiverge_iff :
        (l : DivergentLeaf)
        → Divergent a b (min leaf leaf') l ↔ RowsDiverge rows rows' (min leaf leaf') l
    Divergent-RowsDiverge_iff l = (
      (λ v. record {
        epoch = v.epoch;
        prefix = v.prefix;
        cell = v.cell;
        differ = λ d level same. v.differ d level (
            hash_a v.epoch v.prefix d level ∙ ap some same ∙ sym (hash_b v.epoch v.prefix d level));
        shape = v.shape;
      }),
      (λ v. record {
        epoch = v.epoch;
        prefix = v.prefix;
        cell = v.cell;
        differ = λ d level same. v.differ d level (
            some_inj _ _
              (sym (hash_a v.epoch v.prefix d level) ∙ same ∙ hash_b v.epoch v.prefix d level));
        shape = v.shape;
      }),
    )
      where
        hash_a :
            (e p d : ℕ)
            → IsLevel (min leaf leaf') d
            → node_hash a e d (prefix_at p d) ≡ some (set_hash sha256 e d (prefix_at p d) rows)
        hash_a e p d level =
            insert_all-set_hash sha256 leaf f rows e d (prefix_at p d) made
              (record { within = omega (arith, level); multiple = level.multiple })

        hash_b :
            (e p d : ℕ)
            → IsLevel (min leaf leaf') d
            → node_hash b e d (prefix_at p d) ≡ some (set_hash sha256 e d (prefix_at p d) rows')
        hash_b e p d level =
            insert_all-set_hash sha256 leaf' f' rows' e d (prefix_at p d) made'
              (record { within = omega (arith, level); multiple = level.multiple })

    -- For two forests that `new` made at any leaf depths and that then took rows, the comparison
    -- runs to its end without a panic, and reports a leaf of the shallower depth just if, at every
    -- level from the root of its epoch down to it, the digests of the one's rows and of the other's
    -- have different exclusive ors.
    pub diff_forests-RowsDiverge_iff :
        (leaves : List DivergentLeaf) × (diff_forests a b ≡ some leaves)
        × ((l : DivergentLeaf) → Member l leaves ↔ RowsDiverge rows rows' (min leaf leaf') l)
    diff_forests-RowsDiverge_iff =
        let (leaves, run, exact) = diff_forests-Divergent_iff a b a-IsWellFormed b-IsWellFormed in
        let same_depth : min a.leaf_depth_bits b.leaf_depth_bits ≡ min leaf leaf' =
          omega (arith, a-leaf, b-leaf) in
        let exact' =
          subst (λ (n : ℕ). (l : DivergentLeaf) → Member l leaves ↔ Divergent a b n l) same_depth
            exact in
        (
          leaves,
          run,
          λ l. (
            (λ m. (Divergent-RowsDiverge_iff l).0 ((exact' l).0 m)),
            (λ v. (exact' l).1 ((Divergent-RowsDiverge_iff l).1 v)),
          ),
        )

    empty_of :
        (leaves : List DivergentLeaf) → ((l : DivergentLeaf) → ¬ Member l leaves) → leaves ≡ []
    empty_of [] none_in = refl
    empty_of (l ∷ leaves) none_in = absurd (none_in l (inl refl))

    -- Two forests that `new` made at any leaf depths and that then took the same rows, in any order,
    -- compare equal: no leaf is reported.
    pub diff_forests-Perm : Perm rows rows' → diff_forests a b ≡ some []
    diff_forests-Perm same =
        let (leaves, run, exact) = diff_forests-RowsDiverge_iff in
        run
        ∙ ap some (
            empty_of leaves (λ l m.
              let v = (exact l).0 m in
              v.differ 0 (record { within = omega arith; multiple = refl })
                (set_hash-Perm sha256 v.epoch 0 (prefix_at v.prefix 0) same)))
