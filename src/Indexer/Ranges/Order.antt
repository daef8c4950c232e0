-- ===== src/Indexer/Ranges/Order.antt =====
-- About `get_boundary_protected_ranges_time_window` of crates/interstellar-index/src/lib.rs: the order
-- of the planned ranges.
use interstellar_db.Base.{
  ℕ, zero, suc, ◌+◌, ◌-◌, ◌*◌, ◌/◌, ◌^◌, ◌≤◌, ◌<◌, ◌≡◌, ◌⊎◌, inl, inr, refl, sym, arith, bit_or,
  false, List, [], ◌∷◌, ◌++◌, map, All, Member, Member-append_inv, subst, Bool-cases, dec_lt,
}
use interstellar_db.Base.BTreeSet.{IsAscending}
use interstellar_db.Base.Bytes.{bytes_leb}
use interstellar_db.Indexer.Key.{key_bytes}
use interstellar_db.Indexer.Key.Order.{InWidth, KeyLe, key_bytes-le}
use interstellar_db.Indexer.Prefixes.{cell_prefix}
use interstellar_db.Indexer.Prefixes.Cells.{mask_of, cell_prefix_lem, cell_prefix_bounds}
use interstellar_db.Indexer.Prefixes.Cover.{Box, IsProper, box_prefixes}
use interstellar_db.Indexer.Prefixes.Exact.{
  CellOf, box_prefixes-CellOf_iff, box_prefixes-IsAscending,
}
use interstellar_db.Indexer.Ranges.{KeyRange, cell_range, mask_bits, Span, t_lo, t_hi, window_loop}
use interstellar_db.Indexer.Ranges.Covers.{window_loop-member, Member-map-inv}
use interstellar_db.Indexer.Ranges.Window.{
  IsSpan, window_ranges, t_lo-lt, t_hi-lt, code, code-lt, code-prefix, cell_end-lt,
}

-- The first range ends before the second starts.
abbrev pub EndsBefore : KeyRange → KeyRange → Type 0
EndsBefore r s = bytes_leb s.start_key r.end_key ≡ false

-- Every range ends before all later ones start.
abbrev pub IsSeparated : List KeyRange → Type 0
IsSeparated [] = Unit
IsSeparated (r ∷ rs) = All (EndsBefore r) rs × IsSeparated rs

All-of_member :
    {A : Type 0} (P : A → Type 0) (xs : List A) → ((x : A) → Member x xs → P x) → All P xs
All-of_member P [] h = tt
All-of_member P (x ∷ xs) h = (h x (inl refl), All-of_member P xs (λ y m. h y (inr m)))

member_of_All : (P : ℕ → Type 0) (x : ℕ) (xs : List ℕ) → All P xs → Member x xs → P x
member_of_All P x [] h m = elim m [ ]
member_of_All P x (y ∷ ys) h (inl e) = subst P (sym e) h.0
member_of_All P x (y ∷ ys) h (inr m) = member_of_All P x ys h.1 m

keys_apart :
    (e m t e' m' t' : ℕ)
    → InWidth e m t
    → InWidth e' m' t'
    → (e' < e) ⊎ ((e' ≡ e) × (m' < m))
    → bytes_leb (key_bytes e m t) (key_bytes e' m' t') ≡ false
keys_apart e m t e' m' t' w w' before =
    elim (Bool-cases (bytes_leb (key_bytes e m t) (key_bytes e' m' t'))) [
      | inl le ↦ absurd (not_le ((key_bytes-le e m t e' m' t' w w').0 le))
      | inr no_le ↦ no_le
    ]
  where
    not_le : ¬ KeyLe e m t e' m' t'
    not_le le = omega arith

-- Multiples in order are a whole step apart.
next_multiple : (q a b : ℕ) → a * q < b * q → a * q + q ≤ b * q
next_multiple q a b h = elim (dec_lt a b) [ yes lt ↦ grind arith | no ge ↦ absurd (grind arith) ]

cells_apart :
    (shift m m' : ℕ)
    → shift ≤ 63
    → m < 2 ^ 64
    → m' < 2 ^ 64
    → cell_prefix shift m < cell_prefix shift m'
    → bit_or (cell_prefix shift m) (mask_of shift) < cell_prefix shift m'
cells_apart shift m m' hs hm hm' less =
    let e = cell_prefix_lem shift m hm in
    let e' = cell_prefix_lem shift m' hm' in
    let step =
      next_multiple (2 ^ shift) (m / 2 ^ shift) (m' / 2 ^ shift) (omega (arith, e, e', less)) in
    omega (arith, e, e', step, (cell_prefix_bounds shift m hs hm).2)

module _ (k : ℕ) (b : Box) (w : Span) (lo : 1 ≤ k) (hi : k ≤ 21) (proper : IsProper b)
    (span : IsSpan w) where
  abbrev range : ℕ → ℕ → KeyRange
  range e p = cell_range (mask_bits (3 * k)) e (t_lo w e) (t_hi w e) p

  -- A cell ends before the next prefix.
  cell_end-lt-next :
      (p p' : ℕ) → CellOf k b p → CellOf k b p' → p < p' → bit_or p (mask_bits (3 * k)) < p'
  cell_end-lt-next p p' c c' less =
      let m : ℕ = code k b w lo hi proper span p c in
      let m' : ℕ = code k b w lo hi proper span p' c' in
      let e = code-prefix k b w lo hi proper span p c in
      let e' = code-prefix k b w lo hi proper span p' c' in
      let small = code-lt k b w lo hi proper span p c in
      let small' = code-lt k b w lo hi proper span p' c' in
      let ordered : cell_prefix (64 - 3 * k) m < cell_prefix (64 - 3 * k) m' =
        omega (arith, e, e', less) in
      subst (λ (q : ℕ). bit_or q (mask_bits (3 * k)) < p') (sym e)
        (subst (λ (q : ℕ). bit_or (cell_prefix (64 - 3 * k) m) (mask_bits (3 * k)) < q) (sym e')
          (cells_apart (64 - 3 * k) m m' (omega arith) (omega (arith, small))
            (omega (arith, small')) ordered))

  apart :
      (e e' p p' : ℕ)
      → e ≤ w.end_epoch
      → e' ≤ w.end_epoch
      → CellOf k b p
      → CellOf k b p'
      → (e < e') ⊎ ((e ≡ e') × (p < p'))
      → EndsBefore (range e p) (range e' p')
  unfolding cell_range
  apart e e' p p' he he' c c' before =
      let fits = cell_end-lt k b w lo hi proper span p c in
      let fits' = cell_end-lt k b w lo hi proper span p' c' in
      keys_apart e' p' (t_lo w e') e (bit_or p (mask_bits (3 * k))) (t_hi w e)
        (record {
          epoch_u32 = omega (arith, span);
          spatial_u64 = fits'.0;
          nano_u64 = t_lo-lt w e' span;
        })
        (record {
          epoch_u32 = omega (arith, span);
          spatial_u64 = fits.1;
          nano_u64 = t_hi-lt w e span;
        })
        (elim before [
          | inl lt ↦ inl lt
          | inr same ↦ inr (same.0, cell_end-lt-next p p' c c' same.1)
        ])

  IsSeparated-cells :
      (e : ℕ) (ps : List ℕ) (rest : List KeyRange)
      → e ≤ w.end_epoch
      → IsAscending ps
      → ((p : ℕ) → Member p ps → CellOf k b p)
      → ((r : KeyRange)
          → Member r rest
          → (e' : ℕ) × (p : ℕ) × (e < e') × (e' ≤ w.end_epoch) × CellOf k b p × (r ≡ range e' p))
      → IsSeparated rest
      → IsSeparated (map (range e) ps ++ rest)
  IsSeparated-cells e [] rest he up cells later tail = tail
  IsSeparated-cells e (p ∷ ps) rest he up cells later tail = (
    All-of_member (EndsBefore (range e p)) (map (range e) ps ++ rest) (λ r m.
        elim (Member-append_inv r (map (range e) ps) rest m) [
          | inl here ↦
              let (p', at, shape) = Member-map-inv (mask_bits (3 * k)) w [] r e ps here in
              subst (EndsBefore (range e p)) (sym shape) (
                apart e e p p' he he (cells p (inl refl)) (cells p' (inr at))
                  (inr (refl, member_of_All (λ q. p < q) p' ps up.0 at)))
          | inr there ↦
              let (e', p', lt, he', c', shape) = later r there in
              subst (EndsBefore (range e p)) (sym shape)
                (apart e e' p p' he he' (cells p (inl refl)) c' (inl lt))
        ]),
    IsSeparated-cells e ps rest he up.1 (λ q m. cells q (inr m)) later tail,
  )

  window_loop-IsSeparated :
      (left e : ℕ)
      → e + left ≡ w.end_epoch + 1
      → IsSeparated (window_loop left (mask_bits (3 * k)) w e (box_prefixes (3 * k) b))
  unfolding window_loop
  window_loop-IsSeparated zero e h = tt
  window_loop-IsSeparated (suc left) e h =
      let ps = box_prefixes (3 * k) b in
      IsSeparated-cells e ps _ (omega arith) (box_prefixes-IsAscending k b lo hi proper)
        (λ p m. (box_prefixes-CellOf_iff k b lo hi proper p).0 m)
        (λ r m.
          let v = window_loop-member (mask_bits (3 * k)) w ps r left (e + 1) m in
          (
            v.in_epoch,
            v.prefix,
            omega (arith, v.epoch_lo),
            omega (arith, v.epoch_hi, h),
            (box_prefixes-CellOf_iff k b lo hi proper v.prefix).0 v.planned,
            v.shape,
          ))
        (window_loop-IsSeparated left (e + 1) (omega arith))

  -- For cells of 3 * k bits with k from 1 to 21, a box of 21-bit coordinates with its corners in
  -- order and a span with its ends in order and its fields in their widths: in the list of planned
  -- ranges each range ends, in the byte order, before every later one starts.
  pub window_ranges-IsSeparated : IsSeparated (window_ranges k b w)
  window_ranges-IsSeparated =
      window_loop-IsSeparated (w.end_epoch + 1 - w.start_epoch) w.start_epoch
        (omega (arith, span.order))
