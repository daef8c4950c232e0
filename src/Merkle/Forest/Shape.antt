-- ===== src/Merkle/Forest/Shape.antt =====
-- The shape of a forest: its depth is one that `new` accepts, and each tree has a level for each step
-- of three bits.
use interstellar_db.Base.{
  ℕ, zero, suc, ◌+◌, ◌-◌, ◌/◌, ◌<◌, ◌≡◌, refl, sym, ap, ◌∙◌, arith, List, [], ◌∷◌, Option, none,
  some, length, replicate, ◌≢◌, inl, inr, Option-cases, get_elem?, subst, ◌==◌, ==_ne,
  if◌then◌else◌,
}
use interstellar_db.Base.BTreeMap.{get, alter, get-alter}
use interstellar_db.Indexer.Coordinate.Bounds.{IsDepth}
use interstellar_db.Merkle.Tree.{EpochTree, toggle_levels, toggle, level_hash, split_key}
use interstellar_db.Merkle.Tree
use interstellar_db.Merkle.Tree.Hash.{IsLevel}
use interstellar_db.Merkle.Forest.{
  MerkleForest, new, add_item, take_item, node_hash, insert, remove,
}
use interstellar_db.Merkle.Forest.Laws.{tree_hash, node_hash-eq-tree_hash}
use mathlib.Core.Option

pub record IsWellFormed (f : MerkleForest) : Type 0 where
  pub depth : IsDepth f.leaf_depth_bits
  pub levels :
      (e : ℕ) (t : EpochTree) → get e f.trees ≡ some t → length t.levels ≡ f.leaf_depth_bits / 3

pub length-toggle_levels :
    (i morton digest : ℕ) (levels : List (List (ℕ × ℕ)))
    → length (toggle_levels i morton digest levels) ≡ length levels
unfolding toggle_levels
length-toggle_levels i morton digest [] = refl
length-toggle_levels i morton digest (level ∷ levels) =
    ap suc (length-toggle_levels (i + 1) morton digest levels)

length-replicate : (n : ℕ) → length (replicate {A = List (ℕ × ℕ)} n []) ≡ n
length-replicate zero = refl
length-replicate (suc n) = ap suc (length-replicate n)

-- What `new` accepts, and what it makes.
pub record IsFresh (leaf : ℕ) (f : MerkleForest) : Type 0 where
  pub depth : IsDepth leaf
  pub same_leaf : f.leaf_depth_bits ≡ leaf
  pub no_trees : f.trees ≡ []

new-IsDepth : (leaf : ℕ) (f : MerkleForest) → new leaf ≡ some f → IsDepth leaf
unfolding new
new-IsDepth leaf f made = ground arith

pub new-IsFresh : (leaf : ℕ) (f : MerkleForest) → new leaf ≡ some f → IsFresh leaf f
unfolding new
new-IsFresh leaf f made = record {
  depth = new-IsDepth leaf f made;
  same_leaf = ground arith;
  no_trees = ground arith;
}

no_tree-absurd :
    (e : ℕ) (t : EpochTree) (trees : List (ℕ × EpochTree)) → trees ≡ [] → get e trees ≢ some t
unfolding get
no_tree-absurd e t trees none_yet found = ground (arith, ap (get e) none_yet)

-- A forest that `new` makes is well formed.
pub new-IsWellFormed : (leaf : ℕ) (f : MerkleForest) → new leaf ≡ some f → IsWellFormed f
new-IsWellFormed leaf f made =
    let fresh = new-IsFresh leaf f made in
    record {
      depth = subst IsDepth (sym fresh.same_leaf) fresh.depth;
      levels = λ e t found. absurd (no_tree-absurd e t f.trees fresh.no_trees found);
    }

altered-IsWellFormed :
    (f : MerkleForest) (epoch : ℕ) (g : Option EpochTree → EpochTree)
    → IsWellFormed f
    → length (g (get epoch f.trees)).levels ≡ f.leaf_depth_bits / 3
    → IsWellFormed (record f { trees = alter epoch g f.trees })
altered-IsWellFormed f epoch g shape good = record {
  depth = shape.depth;
  levels = λ e t found. by_epoch e t (sym (get-alter epoch e g f.trees) ∙ found);
}
  where
    by_epoch :
        (e : ℕ) (t : EpochTree)
        → (if epoch == e then some (g (get epoch f.trees)) else get e f.trees) ≡ some t
        → length t.levels ≡ f.leaf_depth_bits / 3
    by_epoch e t found = ground (arith, good, shape.levels e t)

module _ (leaf morton digest : ℕ) where
  add_item-levels :
      (old : Option EpochTree)
      → ((t : EpochTree) → old ≡ some t → length t.levels ≡ leaf / 3)
      → length (add_item leaf morton digest old).levels ≡ leaf / 3
  unfolding add_item toggle Tree.new
  add_item-levels none h = length-toggle_levels 0 morton digest _ ∙ length-replicate (leaf / 3)
  add_item-levels (some t) h = length-toggle_levels 0 morton digest t.levels ∙ h t refl

  take_item-levels : (t : EpochTree) → length (take_item morton digest t).levels ≡ length t.levels
  unfolding take_item toggle
  take_item-levels t = length-toggle_levels 0 morton digest t.levels

module _ (sha256 : List ℕ → List ℕ) (f : MerkleForest) (key payload : List ℕ)
    (shape : IsWellFormed f) where
  -- Inserting a row keeps a forest well formed: a leaf depth that is a multiple of 3 from 3 to 63,
  -- and a level for each step of three bits in every tree.
  pub insert-IsWellFormed : IsWellFormed (insert sha256 f key payload)
  unfolding insert
  insert-IsWellFormed =
      altered-IsWellFormed f _ _ shape
        (add_item-levels f.leaf_depth_bits _ _ (get _ f.trees) (shape.levels _))

  -- Removing a row keeps a forest well formed, also where the epoch has no tree.
  pub remove-IsWellFormed : IsWellFormed (remove sha256 f key payload)
  unfolding remove
  remove-IsWellFormed = elim (Option-cases (get (split_key key).0 f.trees)) [
    | inl absent ↦ rw (absent, remove) shape
    | inr found ↦
        rw (found.1, remove)
          (altered-IsWellFormed f _ _ shape
            (take_item-levels f.leaf_depth_bits _ _ found.0 ∙ shape.levels _ found.0 found.1))
  ]

present : {A : Type 0} (i : ℕ) (xs : List A) → i < length xs → (x : A) × (get_elem? xs i ≡ some x)
present i [] h = absurd (omega arith)
present zero (x ∷ xs) h = (x, refl)
present (suc i) (x ∷ xs) h = present i xs (omega arith)

tree_node-some :
    (leaf d p : ℕ) (t : EpochTree)
    → IsDepth leaf
    → IsLevel leaf d
    → length t.levels ≡ leaf / 3
    → (h : ℕ) × (Tree.node_hash t d p ≡ some h)
unfolding Tree.node_hash level_hash
tree_node-some leaf zero p t depth l levels = (t.root, refl)
tree_node-some leaf (suc d) p t depth l levels =
    let (level, found) = present (suc d / 3 - 1) t.levels (omega (arith, l, levels)) in
    (
      Option.get_or (get p level) 0,
      rw (==_ne (suc d) 0 (omega arith)) (ap (Option.map (λ m. Option.get_or (get p m) 0)) found),
    )

-- In a well-formed forest, `node_hash` at a depth that is a multiple of 3 up to the leaf depth
-- does not panic, for any epoch and prefix.
pub node_hash-some :
    (f : MerkleForest) (e d p : ℕ)
    → IsWellFormed f
    → IsLevel f.leaf_depth_bits d
    → (h : ℕ) × (node_hash f e d p ≡ some h)
unfolding tree_hash
node_hash-some f e d p shape l =
    rw (node_hash-eq-tree_hash f e d p l) (by_tree (get e f.trees) (shape.levels e))
  where
    by_tree :
        (o : Option EpochTree)
        → ((t : EpochTree) → o ≡ some t → length t.levels ≡ f.leaf_depth_bits / 3)
        → (h : ℕ) × (tree_hash o d p ≡ some h)
    by_tree none levels = (0, refl)
    by_tree (some t) levels = tree_node-some f.leaf_depth_bits d p t shape.depth l (levels t refl)
