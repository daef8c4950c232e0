-- ===== src/Merkle/Seal/Fold.antt =====
-- The leaves of a tree determine the hashes of all its nodes.
use interstellar_db.Base.{
  ℕ, zero, suc, ◌+◌, ◌-◌, ◌*◌, ◌/◌, ◌%◌, ◌^◌, ◌≤◌, ◌<◌, ◌≡◌, refl, sym, ap, ◌∙◌, arith, bit_xor,
  List, [], ◌∷◌, Bool, true, false, Option, none, some, ◌==◌, ==_iff, ==_ne, ltb, if◌then◌else◌,
  get_elem?, length, replicate, length-replicate, ℕ_discrete, ◌||◌, Bool-cases, inl, inr,
}
use interstellar_db.Base.Bits.{bit_xor_assoc, bit_xor_comm, zero-bit_xor}
use interstellar_db.Base.BTreeMap.{alter}
use interstellar_db.Merkle.Tree.{prefix_at, EpochTree, xor_entry, toggle_levels, toggle}
use interstellar_db.Merkle.Tree
use interstellar_db.Merkle.Tree.Hash.{
  in_cell, fold_in, IsLevel, node_hash-toggle, node_hash-new, node_hash-count,
}
use interstellar_db.Merkle.Forest.{add_item}
use interstellar_db.Merkle.Seal.{nonzero_entries, sort_in, sort_by_prefix}
use interstellar_db.Base.Digits.{two_pow_pos, two_pow_add}
use interstellar_db.Indexer.Coordinate.Bounds.{IsDepth}
use interstellar_db.Merkle.Forest.Shape.{length-toggle_levels}
use interstellar_db.Merkle.Diff.Cells.{prefix_at_lem}
use mathlib.Core.Option
use native.Mathlib.Nat.{div-mul-le_self, div-div-eq-div-mul, mul-div_left}

-- The exclusive or of the hashes of the leaves in a cell.
unfoldable pub leaf_sum : ℕ → ℕ → List (ℕ × ℕ) → ℕ
leaf_sum d p [] = 0
leaf_sum d p ((q, h) ∷ es) = bit_xor (if in_cell d p q then h else 0) (leaf_sum d p es)

left_comm : (a b x : ℕ) → bit_xor a (bit_xor b x) ≡ bit_xor b (bit_xor a x)
left_comm a b x =
    sym (bit_xor_assoc a b x) ∙ ap (λ (t : ℕ). bit_xor t x) (bit_xor_comm a b) ∙ bit_xor_assoc b a x

no_share : (b : Bool) (h : ℕ) → h ≡ 0 → 0 ≡ (if b then h else 0)
no_share b h e = ground arith

pub leaf_sum-nonzero :
    (d p : ℕ) (es : List (ℕ × ℕ)) → leaf_sum d p (nonzero_entries es) ≡ leaf_sum d p es
unfolding leaf_sum nonzero_entries
leaf_sum-nonzero d p [] = refl
leaf_sum-nonzero d p ((q, h) ∷ es) = elim (ℕ_discrete h 0) [
  | yes zero_hash ↦ rw ((==_iff h 0).1 zero_hash) (
      leaf_sum-nonzero d p es
      ∙ sym (zero-bit_xor (leaf_sum d p es))
      ∙ ap (λ (t : ℕ). bit_xor t (leaf_sum d p es)) (no_share (in_cell d p q) h zero_hash))
  | no other ↦
      rw (==_ne h 0 other) (ap (bit_xor (if in_cell d p q then h else 0)) (leaf_sum-nonzero d p es))
]

leaf_sum-sort_in :
    (d p : ℕ) (e : ℕ × ℕ) (es : List (ℕ × ℕ)) → leaf_sum d p (sort_in e es) ≡ leaf_sum d p (e ∷ es)
unfolding leaf_sum sort_in
leaf_sum-sort_in d p e [] = refl
leaf_sum-sort_in d p e (x ∷ xs) = elim (Bool-cases (ltb x.0 e.0)) [
  | inl later ↦ rw later (
      ap (bit_xor (if in_cell d p x.0 then x.1 else 0)) (leaf_sum-sort_in d p e xs)
      ∙ left_comm (if in_cell d p x.0 then x.1 else 0) (if in_cell d p e.0 then e.1 else 0)
          (leaf_sum d p xs))
  | inr here ↦ rw here refl
]

pub leaf_sum-sort :
    (d p : ℕ) (es : List (ℕ × ℕ)) → leaf_sum d p (sort_by_prefix es) ≡ leaf_sum d p es
unfolding leaf_sum sort_by_prefix
leaf_sum-sort d p [] = refl
leaf_sum-sort d p ((q, h) ∷ es) =
    leaf_sum-sort_in d p (q, h) (sort_by_prefix es)
    ∙ ap (bit_xor (if in_cell d p q then h else 0)) (leaf_sum-sort d p es)

both_shares :
    (b : Bool) (h digest s : ℕ)
    → bit_xor (if b then bit_xor h digest else 0) s
      ≡ bit_xor (if b then digest else 0) (bit_xor (if b then h else 0) s)
both_shares true h digest s =
    ap (λ (t : ℕ). bit_xor t s) (bit_xor_comm h digest) ∙ bit_xor_assoc digest h s
both_shares false h digest s = sym (zero-bit_xor (bit_xor 0 s))

-- A digest that is folded into a leaf is folded into the cells above it.
pub leaf_sum-xor_entry :
    (d p q digest : ℕ) (es : List (ℕ × ℕ))
    → leaf_sum d p (xor_entry q digest es)
      ≡ bit_xor (if in_cell d p q then digest else 0) (leaf_sum d p es)
unfolding leaf_sum xor_entry alter
leaf_sum-xor_entry d p q digest [] =
    ap (λ (t : ℕ). bit_xor (if in_cell d p q then t else 0) 0) (zero-bit_xor digest)
leaf_sum-xor_entry d p q digest ((r, h) ∷ es) = elim (Bool-cases (ltb q r)) [
  | inl before ↦ rw before (
      ap (λ (t : ℕ). bit_xor (if in_cell d p q then t else 0) (leaf_sum d p ((r, h) ∷ es)))
        (zero-bit_xor digest))
  | inr not_before ↦ elim (Bool-cases (ltb r q)) [
    | inl after ↦
        rw (not_before, after)
          (ap (bit_xor (if in_cell d p r then h else 0)) (leaf_sum-xor_entry d p q digest es)
            ∙ left_comm (if in_cell d p r then h else 0) (if in_cell d p q then digest else 0)
                (leaf_sum d p es))
    | inr not_after ↦
        let same : q ≡ r = ground arith in
        rw (not_before, not_after)
          (both_shares (in_cell d p q) h digest (leaf_sum d p es)
            ∙ ap
                (λ (i : ℕ).
                  bit_xor (if in_cell d p q then digest else 0)
                    (bit_xor (if in_cell d p i then h else 0) (leaf_sum d p es)))
                same)
  ]
]

-- The hash map of the leaves.
unfoldable pub leaves : ℕ → EpochTree → List (ℕ × ℕ)
leaves leaf t = Option.get_or (get_elem? t.levels (leaf / 3 - 1)) []

toggle_levels-at :
    (levels : List (List (ℕ × ℕ))) (i j morton digest : ℕ)
    → j < length levels
    → Option.get_or (get_elem? (toggle_levels i morton digest levels) j) []
      ≡ xor_entry
          (prefix_at morton ((i + j + 1) * 3))
          digest
          (Option.get_or (get_elem? levels j) [])
unfolding toggle_levels
toggle_levels-at [] i j morton digest h = absurd (omega arith)
toggle_levels-at (level ∷ levels) i zero morton digest h =
    let place : i + 0 + 1 ≡ i + 1 = omega arith in rw place refl
toggle_levels-at (level ∷ levels) i (suc j) morton digest h =
    let place : i + suc j + 1 ≡ i + 1 + j + 1 = omega arith in
    rw place (toggle_levels-at levels (i + 1) j morton digest (omega arith))

-- A tree whose levels all follow from its leaves.
pub record IsFolded (leaf : ℕ) (t : EpochTree) : Type 0 where
  pub levels : length t.levels ≡ leaf / 3
  pub hash : (d p : ℕ) → IsLevel leaf d → Tree.node_hash t d p ≡ some (leaf_sum d p (leaves leaf t))

prefix_at-prefix_at :
    (leaf d m : ℕ)
    → d ≤ leaf
    → leaf ≤ 63
    → m < 2 ^ 64
    → prefix_at (prefix_at m leaf) d ≡ prefix_at m d
prefix_at-prefix_at leaf d m h hl fits =
    let w : ℕ = 2 ^ (64 - leaf) in
    let v : ℕ = 2 ^ (leaf - d) in
    let split : 2 ^ (64 - d) ≡ w * v =
      ap (λ (k : ℕ). 2 ^ k) place ∙ two_pow_add (64 - leaf) (leaf - d) in
    let at = prefix_at_lem m leaf fits in
    let inner : prefix_at m leaf < 2 ^ 64 = omega (arith, at, div-mul-le_self m w) in
    let same : prefix_at m leaf / (w * v) ≡ m / (w * v) =
      sym (div-div-eq-div-mul (prefix_at m leaf) w v)
      ∙ ap (λ (t : ℕ). t / w / v) at
      ∙ ap (λ (t : ℕ). t / v) (mul-div_left (m / w) (two_pow_pos (64 - leaf)))
      ∙ div-div-eq-div-mul m w v in
    prefix_at_lem (prefix_at m leaf) d inner
    ∙ ap (λ (t : ℕ). prefix_at m leaf / t * t) split
    ∙ ap (λ (t : ℕ). t * (w * v)) same
    ∙ ap (λ (t : ℕ). m / t * t) (sym split)
    ∙ sym (prefix_at_lem m d fits)
  where
    place : 64 - d ≡ 64 - leaf + (leaf - d)
    place = omega arith

fold_in-some :
    (b : Bool) (digest s : ℕ)
    → fold_in b digest (some s) ≡ some (bit_xor (if b then digest else 0) s)
fold_in-some true digest s = ap some (bit_xor_comm s digest)
fold_in-some false digest s = ap some (sym (zero-bit_xor s))

module _ (leaf : ℕ) (depth : IsDepth leaf) where
  leaves-toggle :
      (t : EpochTree) (morton digest : ℕ)
      → length t.levels ≡ leaf / 3
      → leaves leaf (toggle t morton digest)
        ≡ xor_entry (prefix_at morton leaf) digest (leaves leaf t)
  unfolding leaves toggle
  leaves-toggle t morton digest levels =
      let place : (0 + (leaf / 3 - 1) + 1) * 3 ≡ leaf = omega (arith, depth) in
      toggle_levels-at t.levels 0 (leaf / 3 - 1) morton digest (omega (arith, levels, depth))
      ∙ ap (λ (k : ℕ). xor_entry (prefix_at morton k) digest (leaves leaf t)) place

  -- For a leaf depth that is a multiple of 3 from 3 to 63 and a Morton code below 2^64, a toggle
  -- keeps a tree folded: a level for each step of three bits, and at every node the exclusive or
  -- of the hashes of the leaves below it.
  pub toggle-IsFolded :
      (t : EpochTree) (morton digest : ℕ)
      → morton < 2 ^ 64
      → IsFolded leaf t
      → IsFolded leaf (toggle t morton digest)
  toggle-IsFolded t morton digest fits folded = record {
    levels = unfold toggle in length-toggle_levels 0 morton digest t.levels ∙ folded.levels;
    hash = λ d p l.
        node_hash-toggle t morton digest d p l.multiple
        ∙ ap (fold_in (in_cell d p morton) digest) (folded.hash d p l)
        ∙ fold_in-some (in_cell d p morton) digest (leaf_sum d p (leaves leaf t))
        ∙ ap
            (λ (q : ℕ).
              some
                (bit_xor (if (d == 0 || q == p) then digest else 0) (leaf_sum d p (leaves leaf t))))
            (sym (prefix_at-prefix_at leaf d morton l.within (omega (arith, depth)) fits))
        ∙ ap some (sym (leaf_sum-xor_entry d p (prefix_at morton leaf) digest (leaves leaf t)))
        ∙ ap (λ es. some (leaf_sum d p es)) (sym (leaves-toggle t morton digest folded.levels));
  }

no_leaf : (n i : ℕ) → Option.get_or (get_elem? (replicate {A = List (ℕ × ℕ)} n []) i) [] ≡ []
no_leaf zero i = refl
no_leaf (suc n) zero = refl
no_leaf (suc n) (suc i) = no_leaf n i

pub new-IsFolded : (leaf : ℕ) → IsFolded leaf (Tree.new leaf)
unfolding Tree.new leaves leaf_sum
new-IsFolded leaf = record {
  levels = length-replicate (leaf / 3) [];
  hash = λ d p l.
      node_hash-new leaf d p l
      ∙ ap (λ es. some (leaf_sum d p es)) (sym (no_leaf (leaf / 3) (leaf / 3 - 1)));
}

count-IsFolded :
    (leaf c : ℕ) (t : EpochTree) → IsFolded leaf t → IsFolded leaf (record t { count = c })
unfolding leaves
count-IsFolded leaf c t folded = record {
  levels = folded.levels;
  hash = λ d p l. node_hash-count t c d p ∙ folded.hash d p l;
}

-- The entries of a seal record, toggled in turn.
unfoldable pub toggle_all : List (ℕ × ℕ) → EpochTree → EpochTree
toggle_all [] t = t
toggle_all ((q, h) ∷ es) t = toggle_all es (toggle t q h)

pub toggle_all-hash :
    (es : List (ℕ × ℕ)) (t : EpochTree) (d p s : ℕ)
    → d % 3 ≡ 0
    → Tree.node_hash t d p ≡ some s
    → Tree.node_hash (toggle_all es t) d p ≡ some (bit_xor (leaf_sum d p es) s)
unfolding toggle_all leaf_sum
toggle_all-hash [] t d p s multiple start = start ∙ ap some (sym (zero-bit_xor s))
toggle_all-hash ((q, h) ∷ es) t d p s multiple start =
    let share : ℕ = if in_cell d p q then h else 0 in
    toggle_all-hash es (toggle t q h) d p (bit_xor share s) multiple (
      node_hash-toggle t q h d p multiple
      ∙ ap (fold_in (in_cell d p q) h) start
      ∙ fold_in-some (in_cell d p q) h s)
    ∙ ap some (left_comm (leaf_sum d p es) share s ∙ sym (bit_xor_assoc share (leaf_sum d p es) s))

-- An insertion makes or keeps such a tree.
pub add_item-IsFolded :
    (leaf morton digest : ℕ) (old : Option EpochTree)
    → IsDepth leaf
    → morton < 2 ^ 64
    → ((t : EpochTree) → old ≡ some t → IsFolded leaf t)
    → IsFolded leaf (add_item leaf morton digest old)
unfolding add_item
add_item-IsFolded leaf morton digest none depth fits folded =
    count-IsFolded leaf _ _
      (toggle-IsFolded leaf depth (Tree.new leaf) morton digest fits (new-IsFolded leaf))
add_item-IsFolded leaf morton digest (some t) depth fits folded =
    count-IsFolded leaf _ _ (toggle-IsFolded leaf depth t morton digest fits (folded t refl))
