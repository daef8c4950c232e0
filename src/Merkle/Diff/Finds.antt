-- ===== src/Merkle/Diff/Finds.antt =====
-- What a run of the comparison gives: no panic, and a list with known members.
use interstellar_db.Base.{
  ℕ, ◌≡◌, ◌≢◌, ◌↔◌, ◌⊎◌, inl, inr, refl, ap, arith, List, [], ◌++◌, Member, Member-append_left,
  Member-append_right, Member-append_inv, Option, some, true, false, ◌==◌, ==_iff, ==_ne,
  ℕ_discrete,
}
use interstellar_db.Merkle.Forest.{MerkleForest, node_hash}
use interstellar_db.Merkle.Diff.{DivergentLeaf, push_all}

-- A run that ends without a panic, and gives just the leaves that the predicate names.
pub record Finds (o : Option (List DivergentLeaf)) (P : DivergentLeaf → Type 0) : Type 0 where
  pub leaves : List DivergentLeaf
  pub run : o ≡ some leaves
  pub exact : (l : DivergentLeaf) → Member l leaves ↔ P l

pub Finds-iff :
    (o : Option (List DivergentLeaf)) (P Q : DivergentLeaf → Type 0)
    → ((l : DivergentLeaf) → P l ↔ Q l)
    → Finds o P
    → Finds o Q
Finds-iff o P Q same found = record {
  leaves = found.leaves;
  run = found.run;
  exact = λ l. ((λ m. (same l).0 ((found.exact l).0 m)), (λ q. (found.exact l).1 ((same l).1 q)));
}

pub Finds-push_all :
    (o o' : Option (List DivergentLeaf)) (P Q : DivergentLeaf → Type 0)
    → Finds o P
    → Finds o' Q
    → Finds (push_all o o') (λ l. P l ⊎ Q l)
unfolding push_all
Finds-push_all o o' P Q here rest = record {
  leaves = here.leaves ++ rest.leaves;
  run = rw (here.run, rest.run) refl;
  exact = λ l. (
    (λ m. elim (Member-append_inv l here.leaves rest.leaves m) [
      | inl at ↦ inl ((here.exact l).0 at)
      | inr at ↦ inr ((rest.exact l).0 at)
    ]),
    (λ found. elim found [
      | inl p ↦ Member-append_left l here.leaves rest.leaves ((here.exact l).1 p)
      | inr q ↦ Member-append_right l here.leaves rest.leaves ((rest.exact l).1 q)
    ]),
  );
}

pub some_inj : (x y : ℕ) → some x ≡ some y → x ≡ y
some_inj x y same = ground (arith, same)

-- The two forests have different hashes at a node.
abbrev pub Differ : MerkleForest → MerkleForest → ℕ → ℕ → ℕ → Type 0
Differ a b e d p = node_hash a e d p ≢ node_hash b e d p

pub Finds-if :
    (x y : ℕ) (o : Option (List DivergentLeaf)) (P : DivergentLeaf → Type 0)
    → (x ≢ y → Finds o P)
    → Finds (elim (x == y) [ true ↦ some [] | false ↦ o ]) (λ l. (some x ≢ some y) × P l)
Finds-if x y o P below = elim (ℕ_discrete x y) [
  | yes same ↦ rw ((==_iff x y).1 same) (record {
    leaves = [];
    run = refl;
    exact = λ l. ((λ m. elim m [ ]), (λ found. absurd (found.0 (ap some same))));
  })
  | no other ↦
      let found = below other in
      rw (==_ne x y other) (record {
        leaves = found.leaves;
        run = found.run;
        exact = λ l. (
          (λ m. ((λ same. other (ground (arith, same))), (found.exact l).0 m)),
          (λ both. (found.exact l).1 both.1),
        );
      })
]
