-- ===== src/Merkle/Diff/Exact.antt =====
-- `diff_forests` finds just the leaf cells on whose whole path the two forests differ.
use interstellar_db.Base.{
  ℕ, zero, suc, ◌/◌, ◌^◌, ◌≤◌, ◌<◌, ◌≡◌, ◌↔◌, ◌⊎◌, inl, inr, refl, sym, ap, ◌∙◌, arith, min, List,
  [], ◌∷◌, Member, Option-cases, none, some, subst,
}
use interstellar_db.Merkle.Tree.{prefix_at}
use interstellar_db.Merkle.Tree.Hash.{IsLevel}
use interstellar_db.Merkle.Forest.{MerkleForest, node_hash}
use interstellar_db.Base.BTreeMap.{get, keys}
use interstellar_db.Base.BTreeSet.{member-insert}
use interstellar_db.Merkle.Forest.Laws.{tree_hash, node_hash-eq-tree_hash}
use interstellar_db.Merkle.Forest.Shape.{IsWellFormed}
use interstellar_db.Merkle.Diff.{
  DivergentLeaf, divergent_leaf, descend, insert_epochs, diff_epochs, diff_forests,
}
use interstellar_db.Merkle.Diff.Cells.{IsPrefix, prefix_at_lem}
use interstellar_db.Merkle.Diff.Finds.{Finds, Finds-iff, Finds-push_all, Differ}
use interstellar_db.Merkle.Diff.Descend.{Below, Finds-descend_if, Finds-descend}

-- The leaf of a cell such that the forests differ at every level, from the root down to it.
pub record Divergent (a b : MerkleForest) (leaf : ℕ) (l : DivergentLeaf) : Type 0 where
  pub epoch : ℕ
  pub prefix : ℕ
  pub cell : IsPrefix leaf prefix
  pub differ : (d : ℕ) → IsLevel leaf d → Differ a b epoch d (prefix_at prefix d)
  pub shape : l ≡ divergent_leaf epoch leaf prefix

member-insert_epochs :
    (e : ℕ) (more es : List ℕ) → Member e more ⊎ Member e es → Member e (insert_epochs more es)
unfolding insert_epochs
member-insert_epochs e [] es (inl m) = elim m [ ]
member-insert_epochs e [] es (inr m) = m
member-insert_epochs e (x ∷ more) es (inl (inl here)) =
    (member-insert e x (insert_epochs more es)).1 (inl here)
member-insert_epochs e (x ∷ more) es (inl (inr m)) =
    (member-insert e x (insert_epochs more es)).1 (inr (member-insert_epochs e more es (inl m)))
member-insert_epochs e (x ∷ more) es (inr m) =
    (member-insert e x (insert_epochs more es)).1 (inr (member-insert_epochs e more es (inr m)))

member-keys : {V : Type 0} (e : ℕ) (v : V) (m : List (ℕ × V)) → get e m ≡ some v → Member e (keys m)
unfolding get keys
member-keys e v [] found = ground (arith, found)
member-keys e v ((k, w) ∷ m) found = ground (arith, member-keys e v m, found)

no_tree-hash : (f : MerkleForest) (e : ℕ) → get e f.trees ≡ none → node_hash f e 0 0 ≡ some 0
unfolding tree_hash
no_tree-hash f e none_there =
    node_hash-eq-tree_hash f e 0 0 (record { within = omega arith; multiple = refl })
    ∙ ap (λ o. tree_hash o 0 0) none_there

-- An epoch whose roots differ has a tree in one of the forests.
member-epochs :
    (a b : MerkleForest) (e : ℕ)
    → Differ a b e 0 0
    → Member e (insert_epochs (keys a.trees) (insert_epochs (keys b.trees) []))
member-epochs a b e differ = elim (Option-cases (get e a.trees)) [
  | inr in_a ↦ member-insert_epochs e (keys a.trees) _ (inl (member-keys e in_a.0 a.trees in_a.1))
  | inl not_in_a ↦ elim (Option-cases (get e b.trees)) [
    | inr in_b ↦
        member-insert_epochs e (keys a.trees) _ (
          inr
            (member-insert_epochs e (keys b.trees) [] (inl (member-keys e in_b.0 b.trees in_b.1))))
    | inl not_in_b ↦ absurd (differ (no_tree-hash a e not_in_a ∙ sym (no_tree-hash b e not_in_b)))
  ]
]

prefix_at-zero : (p : ℕ) → p < 2 ^ 64 → prefix_at p 0 ≡ 0
prefix_at-zero p h = omega (arith, prefix_at_lem p 0 h)

module _ (a b : MerkleForest) (a_shape : IsWellFormed a) (b_shape : IsWellFormed b) where
  abbrev leaf : ℕ
  leaf = min a.leaf_depth_bits b.leaf_depth_bits

  in_a : IsLevel a.leaf_depth_bits leaf
  in_a = record { within = omega arith; multiple = ground (arith, a_shape.depth, b_shape.depth) }

  in_b : IsLevel b.leaf_depth_bits leaf
  in_b = record { within = omega arith; multiple = ground (arith, a_shape.depth, b_shape.depth) }

  word : leaf ≤ 63
  word = omega (arith, a_shape.depth)

  UnderRoot : ℕ → DivergentLeaf → Type 0
  UnderRoot e = Below a b a_shape b_shape e leaf in_a in_b word 0 0

  divergent_of :
      (e : ℕ) (l : DivergentLeaf) → Differ a b e 0 0 → UnderRoot e l → Divergent a b leaf l
  unfolding UnderRoot
  divergent_of e l root w = record {
    epoch = e;
    prefix = w.prefix;
    cell = w.cell;
    differ = by_depth;
    shape = w.shape;
  }
    where
      by_depth : (d : ℕ) → IsLevel leaf d → Differ a b e d (prefix_at w.prefix d)
      by_depth zero level = subst (λ (q : ℕ). Differ a b e 0 q) (sym w.under) root
      by_depth (suc d) level = w.differ (suc d) (omega arith) level.within level.multiple

  root_differs : (l : DivergentLeaf) (v : Divergent a b leaf l) → Differ a b v.epoch 0 0
  root_differs l v =
      subst (λ (q : ℕ). Differ a b v.epoch 0 q) (prefix_at-zero v.prefix v.cell.word)
        (v.differ 0 (record { within = omega arith; multiple = refl }))

  below_root : (l : DivergentLeaf) (v : Divergent a b leaf l) → UnderRoot v.epoch l
  unfolding UnderRoot
  below_root l v = record {
    prefix = v.prefix;
    cell = v.cell;
    under = prefix_at-zero v.prefix v.cell.word;
    differ =
        λ d above within multiple. v.differ d (record { within = within; multiple = multiple });
    shape = v.shape;
  }

  -- A divergent leaf of one of some epochs.
  record InEpochs (es : List ℕ) (l : DivergentLeaf) : Type 0 where
    found : Divergent a b leaf l
    listed : Member found.epoch es

  Finds-diff_epochs : (es : List ℕ) → Finds (diff_epochs a b leaf es) (InEpochs es)
  unfolding diff_epochs descend UnderRoot divergent_of
  Finds-diff_epochs [] = record {
    leaves = [];
    run = refl;
    exact = λ l. ((λ m. elim m [ ]), (λ v. elim v.listed [ ]));
  }
  Finds-diff_epochs (e ∷ es) =
      Finds-iff _ _ _
        (λ l. (
          (λ found. elim found [
            | inl here ↦ record { found = divergent_of e l here.0 here.1; listed = inl refl }
            | inr v ↦ record { found = v.found; listed = inr v.listed }
          ]),
          (λ v. elim v.listed [
            | inl same ↦ inl (
                subst (λ (i : ℕ). Differ a b i 0 0 × UnderRoot i l) same
                  (root_differs l v.found, below_root l v.found))
            | inr later ↦ inr (record { found = v.found; listed = later })
          ]),
        ))
        (Finds-push_all _ _ _ _
          (Finds-descend_if a b a_shape b_shape e 0 0 _ (UnderRoot e)
            (record { within = omega arith; multiple = refl })
            (record { within = omega arith; multiple = refl })
            (λ differ.
              Finds-descend a b a_shape b_shape e leaf in_a in_b word (suc (leaf / 3)) (leaf / 3) 0
                0 (omega arith) (omega (arith, in_a)) refl
                (record { word = omega arith; place = prefix_at-zero 0 (omega arith) })))
          (Finds-diff_epochs es))

  -- For two well-formed forests, the comparison runs to its end without a panic, and reports a leaf
  -- of the shallower of the two depths just if the forests differ at every level from the root of
  -- its epoch down to it.
  pub diff_forests-Divergent_iff :
      (leaves : List DivergentLeaf) × (diff_forests a b ≡ some leaves)
      × ((l : DivergentLeaf) → Member l leaves ↔ Divergent a b leaf l)
  unfolding diff_forests
  diff_forests-Divergent_iff =
      let es = insert_epochs (keys a.trees) (insert_epochs (keys b.trees) []) in
      let all = Finds-diff_epochs es in
      (
        all.leaves,
        all.run,
        λ l. (
          (λ m. ((all.exact l).0 m).found),
          (λ v.
              (all.exact l).1
                (record { found = v; listed = member-epochs a b v.epoch (root_differs l v) })),
        ),
      )
