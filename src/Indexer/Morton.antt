-- ===== src/Indexer/Morton.antt =====
-- crates/interstellar-index/src/lib.rs: `encode_3d_morton` and `decode_3d_morton`. A loop
-- `for i in 0..21` is the recursion on the rounds done, of which round `i` is the last.
pub mod Code
pub mod Cells
use interstellar_db.Base.{ℕ, zero, suc, ◌+◌, ◌*◌, bit_and, bit_or}
use interstellar_db.Base.Word.{u32, u64, ◌>>>◌, ◌<<32◌, ◌<<64◌}

-- `((v >> i) & 1) as u64`.
bit_at : ℕ → ℕ → ℕ
bit_at v i = bit_and (v >>> i) 1

-- One round of the loop of `encode_3d_morton`.
pub encode_round : ℕ → ℕ → ℕ → ℕ → ℕ → ℕ
unfolding bit_at
encode_round x y z i morton =
    let m1 = bit_or morton (bit_at x i <<64 (3 * i + 2)) in
    let m2 = bit_or m1 (bit_at y i <<64 (3 * i + 1)) in bit_or m2 (bit_at z i <<64 (3 * i))

pub encode_loop : ℕ → ℕ → ℕ → ℕ → ℕ
unfolding encode_round
encode_loop zero x y z = 0
encode_loop (suc i) x y z = encode_round x y z i (encode_loop i x y z)

unfoldable pub encode_3d_morton : ℕ → ℕ → ℕ → ℕ
unfolding encode_loop
encode_3d_morton x y z = encode_loop 21 x y z

-- The three words that `decode_3d_morton` fills.
pub record Axes : Type 0 where
  pub x : ℕ
  pub y : ℕ
  pub z : ℕ

-- One round of the loop of `decode_3d_morton`.
pub decode_round : ℕ → ℕ → Axes → Axes
unfolding bit_at
decode_round morton i axes = record {
  x = bit_or axes.x (u32 (bit_at morton (3 * i + 2)) <<32 i);
  y = bit_or axes.y (u32 (bit_at morton (3 * i + 1)) <<32 i);
  z = bit_or axes.z (u32 (bit_at morton (3 * i)) <<32 i);
}

pub decode_loop : ℕ → ℕ → Axes
unfolding decode_round
decode_loop zero morton = record { x = 0; y = 0; z = 0 }
decode_loop (suc i) morton = decode_round morton i (decode_loop i morton)

unfoldable pub decode_3d_morton : ℕ → Axes
unfolding decode_loop
decode_3d_morton morton = decode_loop 21 morton
