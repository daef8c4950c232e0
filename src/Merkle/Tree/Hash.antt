-- ===== src/Merkle/Tree/Hash.antt =====
-- The node hashes of a tree after a toggle.
use interstellar_db.Base.{
  ℕ, zero, suc, ◌+◌, ◌-◌, ◌*◌, ◌/◌, ◌%◌, ◌≤◌, ◌<◌, ◌≡◌, refl, arith, bit_xor, List, [], ◌∷◌, Option,
  none, some, replicate, ◌==◌, ==_ne, if◌then◌else◌, Bool, ◌||◌,
}
use interstellar_db.Base.BTreeMap.{get, get-alter}
use interstellar_db.Merkle.Tree.{
  prefix_at, EpochTree, new, xor_entry, toggle_levels, toggle, level_hash, node_hash,
}
use mathlib.Core.Option

-- Whether a code lies in the cell `prefix` at a depth; the root holds every code.
abbrev pub in_cell : ℕ → ℕ → ℕ → Bool
in_cell depth_bits prefix morton = depth_bits == 0 || prefix_at morton depth_bits == prefix

-- A hash with the digest folded in, if the code is in the cell.
abbrev pub fold_in : Bool → ℕ → Option ℕ → Option ℕ
fold_in b digest none = none
fold_in b digest (some h) = some (if b then bit_xor h digest else h)

level_hash-toggle :
    (levels : List (List (ℕ × ℕ))) (i j morton digest prefix : ℕ)
    → level_hash (toggle_levels i morton digest levels) j prefix
      ≡ fold_in (prefix_at morton ((i + j + 1) * 3) == prefix) digest (level_hash levels j prefix)
unfolding level_hash toggle_levels xor_entry
level_hash-toggle [] i j morton digest prefix = refl
level_hash-toggle (level ∷ levels) i zero morton digest prefix =
    let place : i + 0 + 1 ≡ i + 1 = omega arith in
    let p : ℕ = prefix_at morton ((i + 1) * 3) in
    let new : Option ℕ → ℕ = λ old. bit_xor (Option.get_or old 0) digest in
    rw place (ground (arith, get-alter p prefix new level))
level_hash-toggle (level ∷ levels) i (suc j) morton digest prefix =
    let place : i + suc j + 1 ≡ i + 1 + j + 1 = omega arith in
    rw place (level_hash-toggle levels (i + 1) j morton digest prefix)

-- A toggle changes just the hashes of the cells that hold the code.
pub node_hash-toggle :
    (t : EpochTree) (morton digest depth_bits prefix : ℕ)
    → depth_bits % 3 ≡ 0
    → node_hash (toggle t morton digest) depth_bits prefix
      ≡ fold_in (in_cell depth_bits prefix morton) digest (node_hash t depth_bits prefix)
unfolding node_hash toggle
node_hash-toggle t morton digest zero prefix h = refl
node_hash-toggle t morton digest (suc d) prefix h =
    let place : (0 + (suc d / 3 - 1) + 1) * 3 ≡ suc d = omega arith in
    let inner = rw place at (level_hash-toggle t.levels 0 (suc d / 3 - 1) morton digest prefix) in
    rw (==_ne (suc d) 0 (omega arith)) inner

new_level-empty : (n i prefix : ℕ) → i < n → level_hash (replicate n []) i prefix ≡ some 0
unfolding level_hash get
new_level-empty zero i prefix h = absurd (omega arith)
new_level-empty (suc n) zero prefix h = refl
new_level-empty (suc n) (suc i) prefix h = new_level-empty n i prefix (omega arith)

-- A depth at which a tree of `leaf` bits has cells.
pub record IsLevel (leaf depth_bits : ℕ) : Type 0 where
  pub within : depth_bits ≤ leaf
  pub multiple : depth_bits % 3 ≡ 0

-- In a new tree every cell is empty.
pub node_hash-new :
    (leaf depth_bits prefix : ℕ)
    → IsLevel leaf depth_bits
    → node_hash (new leaf) depth_bits prefix ≡ some 0
unfolding node_hash new
node_hash-new leaf zero prefix l = refl
node_hash-new leaf (suc d) prefix l =
    rw (==_ne (suc d) 0 (omega arith))
      (new_level-empty (leaf / 3) (suc d / 3 - 1) prefix (omega (arith, l)))

-- The count does not show in the hashes.
pub node_hash-count :
    (t : EpochTree) (c depth_bits prefix : ℕ)
    → node_hash (record t { count = c }) depth_bits prefix ≡ node_hash t depth_bits prefix
unfolding node_hash
node_hash-count t c depth_bits prefix = refl
