-- ===== src/Merkle/Tree.antt =====
-- crates/interstellar-index/src/merkle.rs: `item_digest`, `prefix_at`, `split_key`,
-- `leaf_key_range` and `EpochTree`.
pub mod Hash
use interstellar_db.Base.{
  ℕ, zero, suc, ◌+◌, ◌-◌, ◌*◌, ◌/◌, bit_xor, List, [], ◌∷◌, ◌++◌, Option, none, some, take,
  replicate, get_elem?, ◌==◌, if◌then◌else◌,
}
use interstellar_db.Base.BTreeMap.{get, alter}
use interstellar_db.Base.Bytes.{from_be_bytes}
use interstellar_db.Base.Word.{u64_max, ◌>>>◌, ◌<<64◌}
use interstellar_db.Indexer.Key.{epoch_field, spatial_field}
use interstellar_db.Indexer.Ranges.{KeyRange, cell_range, mask_bits}
use mathlib.Core.Option

-- `Sha256::digest` of the key and the payload behind it, cut to 128 bits.
unfoldable pub item_digest : (List ℕ → List ℕ) → List ℕ → List ℕ → ℕ
item_digest sha256 key payload = from_be_bytes (take 16 (sha256 (key ++ payload)))

unfoldable pub prefix_at : ℕ → ℕ → ℕ
prefix_at morton depth_bits = let shift = 64 - depth_bits in morton >>> shift <<64 shift

-- The epoch and the Morton code of a key.
unfoldable pub split_key : List ℕ → ℕ × ℕ
split_key key = (epoch_field key, spatial_field key)

unfoldable pub leaf_key_range : ℕ → ℕ → ℕ → KeyRange
leaf_key_range epoch prefix depth_bits = cell_range (mask_bits depth_bits) epoch 0 u64_max prefix

-- `levels[i]` holds the hashes of the cells at `(i + 1) * 3` bits.
pub record EpochTree : Type 0 where
  pub root : ℕ
  pub count : ℕ
  pub levels : List (List (ℕ × ℕ))

unfoldable pub new : ℕ → EpochTree
new leaf_depth_bits = record { root = 0; count = 0; levels = replicate (leaf_depth_bits / 3) [] }

-- `*level.entry(prefix).or_insert(0) ^= digest`.
unfoldable pub xor_entry : ℕ → ℕ → List (ℕ × ℕ) → List (ℕ × ℕ)
xor_entry prefix digest = alter prefix (λ old. bit_xor (Option.get_or old 0) digest)

-- The loop over the levels, from level `i` on.
unfoldable pub toggle_levels : ℕ → ℕ → ℕ → List (List (ℕ × ℕ)) → List (List (ℕ × ℕ))
toggle_levels i morton digest [] = []
toggle_levels i morton digest (level ∷ levels) =
    xor_entry (prefix_at morton ((i + 1) * 3)) digest level
    ∷ toggle_levels (i + 1) morton digest levels

unfoldable pub toggle : EpochTree → ℕ → ℕ → EpochTree
toggle self morton digest = record self {
  root = bit_xor self.root digest;
  levels = toggle_levels 0 morton digest self.levels;
}

-- `levels[i].get(&prefix).copied().unwrap_or(0)`.
unfoldable pub level_hash : List (List (ℕ × ℕ)) → ℕ → ℕ → Option ℕ
level_hash levels i prefix =
    Option.map (λ level. Option.get_or (get prefix level) 0) (get_elem? levels i)

unfoldable pub node_hash : EpochTree → ℕ → ℕ → Option ℕ
node_hash self depth_bits prefix =
    if depth_bits == 0 then some self.root else level_hash self.levels (depth_bits / 3 - 1) prefix
