-- ===== src/Merkle/Diff/Descend.antt =====
-- crates/interstellar-index/src/merkle.rs: what `descend` finds below a node.
use interstellar_db.Base.{
  ℕ, zero, suc, ◌+◌, ◌*◌, ◌%◌, ◌≤◌, ◌<◌, ◌≡◌, ◌↔◌, inl, inr, refl, sym, ap, ◌∙◌, arith, List, [],
  ◌∷◌, Option, some, subst, ==_self, ==_ne, ℕ_discrete, dec_lt,
}
use interstellar_db.Merkle.Tree.{prefix_at}
use interstellar_db.Merkle.Tree.Hash.{IsLevel}
use interstellar_db.Merkle.Forest.{MerkleForest, child_prefix}
use interstellar_db.Merkle.Forest.Shape.{IsWellFormed, node_hash-some}
use interstellar_db.Merkle.Diff.{
  DivergentLeaf, divergent_leaf, descend_if, descend_children, descend,
}
use interstellar_db.Merkle.Diff.Cells.{IsPrefix, child_of, parent_of, child-IsPrefix}
use interstellar_db.Merkle.Diff.Finds.{Finds, Finds-iff, Finds-push_all, Finds-if, some_inj, Differ}

module _ (a b : MerkleForest) (a_shape : IsWellFormed a) (b_shape : IsWellFormed b) (e : ℕ) where
  pub Finds-descend_if :
      (d p : ℕ) (go : ℕ → Option (List DivergentLeaf)) (P : DivergentLeaf → Type 0)
      → IsLevel a.leaf_depth_bits d
      → IsLevel b.leaf_depth_bits d
      → (Differ a b e d p → Finds (go p) P)
      → Finds (descend_if a b e d p go) (λ l. Differ a b e d p × P l)
  unfolding descend_if
  Finds-descend_if d p go P la lb below =
      let (x, ex) = node_hash-some a e d p a_shape la in
      let (y, ey) = node_hash-some b e d p b_shape lb in
      rw (ex, ey, descend_if)
        (Finds-if x y (go p) P (λ other. below (λ same. other (some_inj x y (sym ex ∙ same ∙ ey)))))

  module _ (leaf : ℕ) (in_a : IsLevel a.leaf_depth_bits leaf)
      (in_b : IsLevel b.leaf_depth_bits leaf) (word : leaf ≤ 63) where
    -- A leaf below a node, such that the forests differ on the path from the node to it.
    pub record Below (d q : ℕ) (l : DivergentLeaf) : Type 0 where
      pub prefix : ℕ
      pub cell : IsPrefix leaf prefix
      pub under : prefix_at prefix d ≡ q
      pub differ :
          (d' : ℕ) → d < d' → d' ≤ leaf → d' % 3 ≡ 0 → Differ a b e d' (prefix_at prefix d')
      pub shape : l ≡ divergent_leaf e leaf prefix

    -- A leaf below a child from `c` on.
    record BelowChild (d q c : ℕ) (l : DivergentLeaf) : Type 0 where
      child : ℕ
      from : c ≤ child
      to : child < 8
      differ : Differ a b e (d + 3) (child_prefix q (d + 3) child)
      below : Below (d + 3) (child_prefix q (d + 3) child) l

    Finds-descend_children :
        (d q : ℕ) (go : ℕ → Option (List DivergentLeaf))
        → d + 3 ≤ leaf
        → d % 3 ≡ 0
        → ((c : ℕ)
            → c < 8
            → Finds (go (child_prefix q (d + 3) c)) (Below (d + 3) (child_prefix q (d + 3) c)))
        → (left c : ℕ) → c + left ≡ 8
        → Finds (descend_children a b e (d + 3) q go left c) (BelowChild d q c)
    unfolding descend_children
    Finds-descend_children d q go hd multiple below zero c h = record {
      leaves = [];
      run = refl;
      exact = λ l. ((λ m. elim m [ ]), (λ v. absurd (omega (arith, v.from, v.to, h))));
    }
    Finds-descend_children d q go hd multiple below (suc left) c h =
        let p : ℕ = child_prefix q (d + 3) c in
        Finds-iff _ _ _
          (λ l. (
            (λ found. elim found [
              | inl here ↦ record {
                child = c;
                from = omega arith;
                to = omega arith;
                differ = here.0;
                below = here.1;
              }
              | inr v ↦ record {
                child = v.child;
                from = omega (arith, v.from);
                to = v.to;
                differ = v.differ;
                below = v.below;
              }
            ]),
            (λ v. elim (dec_lt c v.child) [
              | yes later ↦ inr (record {
                child = v.child;
                from = omega (arith, later);
                to = v.to;
                differ = v.differ;
                below = v.below;
              })
              | no first ↦
                  let at : v.child ≡ c = omega (arith, first, v.from) in
                  inl (
                    subst
                      (λ (i : ℕ).
                        Differ a b e (d + 3) (child_prefix q (d + 3) i)
                        × Below (d + 3) (child_prefix q (d + 3) i) l)
                      at (v.differ, v.below))
            ]),
          ))
          (Finds-push_all _ _ _ _
            (Finds-descend_if (d + 3) p go (Below (d + 3) p)
              (record { within = omega (arith, in_a, hd); multiple = omega arith })
              (record { within = omega (arith, in_b, hd); multiple = omega arith })
              (λ different. below c (omega arith)))
            (Finds-descend_children d q go hd multiple below left (c + 1) (omega arith)))

    Below-children_iff :
        (d q : ℕ)
        → d + 3 ≤ leaf
        → d % 3 ≡ 0
        → IsPrefix d q
        → (l : DivergentLeaf) → BelowChild d q 0 l ↔ Below d q l
    Below-children_iff d q hd multiple cell l = (
      (λ v.
          let w = v.below in
          record {
            prefix = w.prefix;
            cell = w.cell;
            under = parent_of d v.child q (omega arith) v.to cell w.prefix w.cell.word w.under;
            differ = λ d' above within multiple'. elim (ℕ_discrete d' (d + 3)) [
              | yes next ↦
                  subst (λ (k : ℕ). Differ a b e k (prefix_at w.prefix k)) (sym next)
                    (subst (λ (k : ℕ). Differ a b e (d + 3) k) (sym w.under) v.differ)
              | no deeper ↦ w.differ d' (omega arith) within multiple'
            ];
            shape = w.shape;
          }),
      (λ w.
          let (c, small, place) = child_of w.prefix d w.cell.word (omega arith) in
          let under : prefix_at w.prefix (d + 3) ≡ child_prefix q (d + 3) c =
            place ∙ ap (λ (t : ℕ). child_prefix t (d + 3) c) w.under in
          record {
            child = c;
            from = omega arith;
            to = small;
            differ =
                subst (λ (k : ℕ). Differ a b e (d + 3) k) under
                  (w.differ (d + 3) (omega arith) hd (omega arith));
            below = record {
              prefix = w.prefix;
              cell = w.cell;
              under = under;
              differ = λ d' above. w.differ d' (omega arith);
              shape = w.shape;
            };
          }),
    )

    Finds-leaf :
        (q : ℕ) → IsPrefix leaf q → Finds (some (divergent_leaf e leaf q ∷ [])) (Below leaf q)
    Finds-leaf q cell = record {
      leaves = divergent_leaf e leaf q ∷ [];
      run = refl;
      exact = λ l. (
        (λ m. elim m [
          | inl shape ↦ record {
            prefix = q;
            cell = cell;
            under = cell.place;
            differ = λ d' above within multiple. absurd (omega arith);
            shape = shape;
          }
          | inr none_left ↦ elim none_left [ ]
        ]),
        (λ w. inl (w.shape ∙ ap (divergent_leaf e leaf) (sym w.cell.place ∙ w.under))),
      );
    }

    -- One more unit of fuel than levels left is enough.
    pub Finds-descend :
        (fuel levels d q : ℕ)
        → levels < fuel
        → d + 3 * levels ≡ leaf
        → d % 3 ≡ 0
        → IsPrefix d q
        → Finds (descend a b e fuel leaf d q) (Below d q)
    unfolding descend
    Finds-descend zero levels d q more h multiple cell = absurd (omega arith)
    Finds-descend (suc fuel) zero d q more h multiple cell =
        let at : leaf ≡ d = omega (arith, h) in
        subst (λ (k : ℕ). Finds (descend a b e (suc fuel) leaf k q) (Below k q)) at
          (rw (==_self leaf, descend)
            (Finds-leaf q (subst (λ (k : ℕ). IsPrefix k q) (sym at) cell)))
    Finds-descend (suc fuel) (suc levels) d q more h multiple cell =
        rw (==_ne d leaf (omega arith), descend)
          (Finds-iff _ _ _ (Below-children_iff d q (omega arith) multiple cell) (
            Finds-descend_children d q (descend a b e fuel leaf (d + 3)) (omega arith) multiple
              (λ c small.
                Finds-descend fuel levels (d + 3) (child_prefix q (d + 3) c) (omega arith)
                  (omega arith) (omega arith) (child-IsPrefix d c q (omega arith) small cell))
              8 0 refl))
