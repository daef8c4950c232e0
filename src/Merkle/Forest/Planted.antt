-- ===== src/Merkle/Forest/Planted.antt =====
-- About crates/interstellar-index/src/merkle.rs: the epochs that have a tree.
use interstellar_db.Base.{
  ℕ, ◌≡◌, refl, ◌∙◌, List, Option, some, ◌==◌, ==_self, if◌then◌else◌, Bool-cases, Option-cases,
  inl, inr,
}
use interstellar_db.Base.BTreeMap.{get, alter, get-alter}
use interstellar_db.Indexer.Key.{epoch_field}
use interstellar_db.Merkle.Tree.{EpochTree, split_key}
use interstellar_db.Merkle.Forest.{MerkleForest, insert, remove}

abbrev pub HasTree : MerkleForest → ℕ → Type 0
HasTree f e = (t : EpochTree) × (get e f.trees ≡ some t)

alter-HasTree :
    (f : MerkleForest) (k e : ℕ) (g : Option EpochTree → EpochTree)
    → HasTree f e
    → HasTree (record f { trees = alter k g f.trees }) e
alter-HasTree f k e g (t, h) = elim (Bool-cases (k == e)) [
  | inl at ↦ (g (get k f.trees), get-alter k e g f.trees ∙ rw at refl)
  | inr off ↦ (t, get-alter k e g f.trees ∙ rw off h)
]

alter-HasTree_own :
    (f : MerkleForest) (k : ℕ) (g : Option EpochTree → EpochTree)
    → HasTree (record f { trees = alter k g f.trees }) k
alter-HasTree_own f k g =
    let at : (if k == k then some (g (get k f.trees)) else get k f.trees)
        ≡ some (g (get k f.trees)) =
      rw (==_self k) refl in
    (g (get k f.trees), get-alter k k g f.trees ∙ at)

module _ (sha256 : List ℕ → List ℕ) (f : MerkleForest) (key payload : List ℕ) where
  pub insert-HasTree : (e : ℕ) → HasTree f e → HasTree (insert sha256 f key payload) e
  unfolding insert
  insert-HasTree e h = alter-HasTree f _ e _ h

  pub insert-HasTree_own : HasTree (insert sha256 f key payload) (epoch_field key)
  unfolding insert split_key
  insert-HasTree_own = alter-HasTree_own f (epoch_field key) _

  pub insert-leaf : (insert sha256 f key payload).leaf_depth_bits ≡ f.leaf_depth_bits
  unfolding insert
  insert-leaf = refl

  pub remove-leaf : (remove sha256 f key payload).leaf_depth_bits ≡ f.leaf_depth_bits
  unfolding remove
  remove-leaf = elim (Option-cases (get (split_key key).0 f.trees)) [
    | inl absent ↦ rw (absent, remove) refl
    | inr found ↦ rw (found.1, remove) refl
  ]

  pub remove-HasTree : (e : ℕ) → HasTree f e → HasTree (remove sha256 f key payload) e
  unfolding remove
  remove-HasTree e h = elim (Option-cases (get (split_key key).0 f.trees)) [
    | inl absent ↦ rw (absent, remove) h
    | inr found ↦ rw (found.1, remove) (alter-HasTree f _ e _ h)
  ]
