-- ===== src/Indexer/Key/Order.antt =====
-- About the keys of crates/interstellar-index/src/lib.rs: their byte order, and their fields read back.
use interstellar_db.Base.{
  ℕ, ◌^◌, ◌≤◌, ◌<◌, ◌≡◌, sym, ap, ap₂, ◌∙◌, ◌↔◌, ◌⊎◌, true, ◌++◌, arith, length, length-append,
  take-append, drop-append, take, drop, take_all, leb, [],
}
use interstellar_db.Base.Bytes.{
  to_be_bytes, from_be_bytes, from_be_bytes-to_be_bytes, bytes_leb, bytes_leb-to_be_bytes,
  length-to_be_bytes,
}
use interstellar_db.Indexer.Key.{key_bytes, epoch_field, spatial_field, nano_field}
use mathlib.Core.List.{append-nil, append_assoc}

-- A field of a key fits its width.
pub record InWidth (epoch spatial nano : ℕ) : Type 0 where
  pub epoch_u32 : epoch < 2 ^ 32
  pub spatial_u64 : spatial < 2 ^ 64
  pub nano_u64 : nano < 2 ^ 64

-- By epoch, then by Morton code, then by the time within the epoch.
abbrev pub KeyLe : ℕ → ℕ → ℕ → ℕ → ℕ → ℕ → Type 0
KeyLe e m t e' m' t' = (e < e') ⊎ ((e ≡ e') × ((m < m') ⊎ ((m ≡ m') × (t ≤ t'))))

pub length-key_bytes : (e m t : ℕ) → length (key_bytes e m t) ≡ 20
unfolding key_bytes
length-key_bytes e m t = omega (
  arith,
  length-append (to_be_bytes 4 e) (to_be_bytes 8 m ++ to_be_bytes 8 t),
  length-append (to_be_bytes 8 m) (to_be_bytes 8 t),
  length-to_be_bytes 4 e,
  length-to_be_bytes 8 m,
  length-to_be_bytes 8 t,
)

module _ (e m t : ℕ) (w : InWidth e m t) where
  pub epoch_field-key_bytes : epoch_field (key_bytes e m t) ≡ e
  unfolding key_bytes epoch_field
  epoch_field-key_bytes =
      ap from_be_bytes (take-append 4 (to_be_bytes 4 e) _ (length-to_be_bytes 4 e))
      ∙ from_be_bytes-to_be_bytes 4 e w.epoch_u32

  pub spatial_field-key_bytes : spatial_field (key_bytes e m t) ≡ m
  unfolding key_bytes spatial_field
  spatial_field-key_bytes =
      ap (λ l. from_be_bytes (take 8 l))
        (drop-append 4 (to_be_bytes 4 e) _ (length-to_be_bytes 4 e))
      ∙ ap from_be_bytes (take-append 8 (to_be_bytes 8 m) _ (length-to_be_bytes 8 m))
      ∙ from_be_bytes-to_be_bytes 8 m w.spatial_u64

  pub nano_field-key_bytes : nano_field (key_bytes e m t) ≡ t
  unfolding key_bytes nano_field
  nano_field-key_bytes =
      let head : length (to_be_bytes 4 e ++ to_be_bytes 8 m) ≡ 12 = omega (
        arith,
        length-append (to_be_bytes 4 e) (to_be_bytes 8 m),
        length-to_be_bytes 4 e,
        length-to_be_bytes 8 m,
      ) in
      ap (λ l. from_be_bytes (take 8 (drop 12 l)))
        (sym (append_assoc (to_be_bytes 4 e) (to_be_bytes 8 m) (to_be_bytes 8 t)))
      ∙ ap (λ l. from_be_bytes (take 8 l))
          (drop-append 12 (to_be_bytes 4 e ++ to_be_bytes 8 m) (to_be_bytes 8 t) head)
      ∙ ap from_be_bytes (take_all 8 (to_be_bytes 8 t) (length-to_be_bytes 8 t))
      ∙ from_be_bytes-to_be_bytes 8 t w.nano_u64

-- The last field has nothing behind it.
bytes_leb-last :
    (t t' : ℕ)
    → t < 2 ^ 64
    → t' < 2 ^ 64
    → bytes_leb (to_be_bytes 8 t) (to_be_bytes 8 t') ≡ leb t t'
unfolding bytes_leb
bytes_leb-last t t' h h' =
    ap₂ bytes_leb (sym (append-nil (to_be_bytes 8 t))) (sym (append-nil (to_be_bytes 8 t')))
    ∙ bytes_leb-to_be_bytes 8 t t' [] [] h h'
    ∙ ground arith

-- The bytes of two keys with fields in their widths compare as bytes do just as their fields
-- compare: by epoch, then by Morton code, then by the time in the epoch.
pub key_bytes-le :
    (e m t e' m' t' : ℕ)
    → InWidth e m t
    → InWidth e' m' t'
    → (bytes_leb (key_bytes e m t) (key_bytes e' m' t') ≡ true) ↔ KeyLe e m t e' m' t'
unfolding key_bytes
key_bytes-le e m t e' m' t' w w' = ground (
  arith,
  bytes_leb-to_be_bytes 4 e e' (to_be_bytes 8 m ++ to_be_bytes 8 t)
      (to_be_bytes 8 m' ++ to_be_bytes 8 t') w.epoch_u32 w'.epoch_u32,
  bytes_leb-to_be_bytes 8 m m' (to_be_bytes 8 t) (to_be_bytes 8 t') w.spatial_u64 w'.spatial_u64,
  bytes_leb-last t t' w.nano_u64 w'.nano_u64,
)
