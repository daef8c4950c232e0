-- ===== src/Indexer/Ranges/Window.antt =====
-- Exactly which keys the planned ranges of a window hold.
use interstellar_db.Base.{
  ℕ, ◌+◌, ◌-◌, ◌*◌, ◌^◌, ◌≤◌, ◌<◌, ◌≡◌, ◌≢◌, ◌↔◌, refl, sym, ap, ◌∙◌, arith, bit_or, List, Member,
  subst, ==_self, ==_ne, ℕ_discrete,
}
use interstellar_db.Base.Digits.{two_pow_le}
use interstellar_db.Base.Word.{u64_max}
use interstellar_db.Indexer.Key.{key_bytes}
use interstellar_db.Indexer.Key.Order.{InWidth}
use interstellar_db.Indexer.Morton.{encode_3d_morton}
use interstellar_db.Indexer.Morton.Code.{encode_3d_morton-lt}
use interstellar_db.Indexer.Prefixes.{cell_prefix}
use interstellar_db.Indexer.Prefixes.Cells.{cell_prefix_bounds}
use interstellar_db.Indexer.Prefixes.Cover.{Box, IsProper, box_prefixes}
use interstellar_db.Indexer.Prefixes.Exact.{CellOf, box_prefixes-CellOf_iff}
use interstellar_db.Indexer.Ranges.{KeyRange, cell_range, mask_bits, Span, t_lo, t_hi, window_loop}
use interstellar_db.Indexer.Ranges.Covers.{
  Covers, InCell, cell_range-Covers_iff, cell_codes_iff, window_loop-member, member-window_loop,
}

-- Some planned range holds the key.
pub record AnyCovers (ranges : List KeyRange) (key : List ℕ) : Type 0 where
  pub range : KeyRange
  pub planned : Member range ranges
  pub covers : Covers range key

-- A span whose fields fit, and whose end is not before its start.
pub record IsSpan (w : Span) : Type 0 where
  pub order : w.start_epoch ≤ w.end_epoch
  pub epoch_u32 : w.end_epoch < 2 ^ 32
  pub start_u64 : w.start_nano < 2 ^ 64
  pub end_u64 : w.end_nano < 2 ^ 64

abbrev pub window_ranges : ℕ → Box → Span → List KeyRange
window_ranges k b w =
    window_loop (w.end_epoch + 1 - w.start_epoch) (mask_bits (3 * k)) w w.start_epoch
      (box_prefixes (3 * k) b)

-- A key of the window: its epoch is in the span and its cell meets the box; at the first code of a
-- cell of the first epoch it is not before the start, and at the last code of a cell of the last
-- epoch not behind the end.
pub record WindowKey (k : ℕ) (b : Box) (w : Span) (e m t : ℕ) : Type 0 where
  pub epoch_lo : w.start_epoch ≤ e
  pub epoch_hi : e ≤ w.end_epoch
  pub cell : CellOf k b (cell_prefix (64 - 3 * k) m)
  pub after_start : e ≡ w.start_epoch → m ≡ cell_prefix (64 - 3 * k) m → w.start_nano ≤ t
  pub before_end :
      e ≡ w.end_epoch → m ≡ bit_or (cell_prefix (64 - 3 * k) m) (mask_bits (3 * k)) → t ≤ w.end_nano

t_lo_start : (w : Span) → t_lo w w.start_epoch ≡ w.start_nano
unfolding t_lo
t_lo_start w = rw (==_self w.start_epoch)

t_lo_other : (w : Span) (e : ℕ) → e ≢ w.start_epoch → t_lo w e ≡ 0
unfolding t_lo
t_lo_other w e h = rw (==_ne e w.start_epoch h)

t_hi_end : (w : Span) → t_hi w w.end_epoch ≡ w.end_nano
unfolding t_hi
t_hi_end w = rw (==_self w.end_epoch)

t_hi_other : (w : Span) (e : ℕ) → e ≢ w.end_epoch → t_hi w e ≡ u64_max
unfolding t_hi
t_hi_other w e h = rw (==_ne e w.end_epoch h)

pub t_lo-lt : (w : Span) (e : ℕ) → IsSpan w → t_lo w e < 2 ^ 64
unfolding t_lo
t_lo-lt w e s = ground arith

pub t_hi-lt : (w : Span) (e : ℕ) → IsSpan w → t_hi w e < 2 ^ 64
unfolding t_hi
t_hi-lt w e s = ground arith

module _ (k : ℕ) (b : Box) (w : Span) (lo : 1 ≤ k) (hi : k ≤ 21) (proper : IsProper b)
    (span : IsSpan w) where
  abbrev shift : ℕ
  shift = 64 - 3 * k

  abbrev mask : ℕ
  mask = mask_bits (3 * k)

  -- The code that a cell of the box takes its prefix from.
  pub code : (p : ℕ) → CellOf k b p → ℕ
  code p c = encode_3d_morton c.x c.y c.z

  pub code-lt : (p : ℕ) (c : CellOf k b p) → code p c < 2 ^ 63
  unfolding code
  code-lt p c = encode_3d_morton-lt c.x c.y c.z

  pub code-prefix : (p : ℕ) (c : CellOf k b p) → p ≡ cell_prefix shift (code p c)
  unfolding code
  code-prefix p c = c.place

  -- The ends of a cell of the box are keys.
  end_fits : (m : ℕ) → m < 2 ^ 63 → bit_or (cell_prefix shift m) mask < 2 ^ 64
  end_fits m small =
      let bounds = cell_prefix_bounds shift m (omega arith) (omega arith) in
      omega (arith, bounds.0, bounds.2, two_pow_le shift 61 (omega arith))

  pub cell_end-lt : (p : ℕ) → CellOf k b p → (p < 2 ^ 64) × (bit_or p mask < 2 ^ 64)
  cell_end-lt p c =
      let m : ℕ = code p c in
      let small = code-lt p c in
      subst (λ (q : ℕ). (q < 2 ^ 64) × (bit_or q mask < 2 ^ 64)) (sym (code-prefix p c))
        (
          omega (arith, small, (cell_prefix_bounds shift m (omega arith) (omega (arith, small))).0),
          end_fits m small,
        )

  -- The codes of the cell with prefix `p`.
  codes_of_cell :
      (p m : ℕ)
      → CellOf k b p
      → m < 2 ^ 64
      → ((p ≤ m) × (m ≤ bit_or p mask)) ↔ (cell_prefix shift m ≡ p)
  codes_of_cell p m c hm =
      subst (λ (q : ℕ). ((q ≤ m) × (m ≤ bit_or q mask)) ↔ (cell_prefix shift m ≡ q))
        (sym (code-prefix p c))
        (cell_codes_iff shift (code p c) m (omega arith) (omega (arith, code-lt p c)) hm)

  -- A range of the window, for a key.
  range-Covers_iff :
      (e' p e m t : ℕ)
      → InWidth e m t
      → e' ≤ w.end_epoch
      → CellOf k b p
      → Covers (cell_range mask e' (t_lo w e') (t_hi w e') p) (key_bytes e m t)
        ↔ InCell e' (t_lo w e') (t_hi w e') p (bit_or p mask) e m t
  range-Covers_iff e' p e m t width he c =
      let fits = cell_end-lt p c in
      cell_range-Covers_iff mask e' (t_lo w e') (t_hi w e') p e m t width
        (record {
          epoch_u32 = omega (arith, span);
          spatial_u64 = fits.0;
          nano_u64 = t_lo-lt w e' span;
        })
        (record {
          epoch_u32 = omega (arith, span);
          spatial_u64 = fits.1;
          nano_u64 = t_hi-lt w e' span;
        })

  WindowKey-of_cell :
      (e' p e m t : ℕ)
      → InWidth e m t
      → w.start_epoch ≤ e'
      → e' ≤ w.end_epoch
      → CellOf k b p
      → InCell e' (t_lo w e') (t_hi w e') p (bit_or p mask) e m t
      → WindowKey k b w e m t
  WindowKey-of_cell e' p e m t width from to c i =
      let same = (codes_of_cell p m c width.spatial_u64).0 (i.code_lo, i.code_hi) in
      record {
        epoch_lo = omega (arith, i.same_epoch);
        epoch_hi = omega (arith, i.same_epoch);
        cell = subst (CellOf k b) (sym same) c;
        after_start = λ at first.
            let start : t_lo w e' ≡ w.start_nano =
              ap (t_lo w) (sym i.same_epoch ∙ at) ∙ t_lo_start w in
            omega (arith, start, i.time_lo (first ∙ same));
        before_end = λ at last.
            let end : t_hi w e' ≡ w.end_nano = ap (t_hi w) (sym i.same_epoch ∙ at) ∙ t_hi_end w in
            omega (arith, end, i.time_hi (last ∙ ap (λ (q : ℕ). bit_or q mask) same));
      }

  CellOf-WindowKey :
      (e m t : ℕ)
      → InWidth e m t
      → (v : WindowKey k b w e m t)
      → InCell e
          (t_lo w e)
          (t_hi w e)
          (cell_prefix shift m)
          (bit_or (cell_prefix shift m) mask)
          e
          m
          t
  CellOf-WindowKey e m t width v =
      let codes = (codes_of_cell (cell_prefix shift m) m v.cell width.spatial_u64).1 refl in
      record {
        same_epoch = refl;
        code_lo = codes.0;
        code_hi = codes.1;
        time_lo = λ first. elim (ℕ_discrete e w.start_epoch) [
          | yes at ↦ omega (arith, ap (t_lo w) at, t_lo_start w, v.after_start at first)
          | no off ↦ omega (arith, t_lo_other w e off)
        ];
        time_hi = λ last. elim (ℕ_discrete e w.end_epoch) [
          | yes at ↦ omega (arith, ap (t_hi w) at, t_hi_end w, v.before_end at last)
          | no off ↦ omega (arith, t_hi_other w e off, width.nano_u64)
        ];
      }

  -- For cells of 3 * k bits with k from 1 to 21, a box of 21-bit coordinates with its corners in
  -- order and a span with its ends in order and its fields in their widths: a key whose fields fit
  -- lies in one of the planned ranges just if its epoch is in the span, its cell holds a point of
  -- the box, at the first code of a cell of the first epoch its time is not before the start, and
  -- at the last code of a cell of the last epoch its time is not behind the end.
  pub window_ranges-covers_iff :
      (e m t : ℕ)
      → InWidth e m t
      → AnyCovers (window_ranges k b w) (key_bytes e m t) ↔ WindowKey k b w e m t
  window_ranges-covers_iff e m t width = (
    λ a.
        let v =
          window_loop-member mask w (box_prefixes (3 * k) b) a.range _ w.start_epoch a.planned in
        let c = (box_prefixes-CellOf_iff k b lo hi proper v.prefix).0 v.planned in
        let to : v.in_epoch ≤ w.end_epoch = omega (arith, v.epoch_hi, span.order) in
        WindowKey-of_cell v.in_epoch v.prefix e m t width v.epoch_lo to c (
          (range-Covers_iff v.in_epoch v.prefix e m t width to c).0
            (subst (λ (r : KeyRange). Covers r (key_bytes e m t)) v.shape a.covers)),
    λ v.
        let p : ℕ = cell_prefix shift m in
        record {
          range = cell_range mask e (t_lo w e) (t_hi w e) p;
          planned = member-window_loop mask w (box_prefixes (3 * k) b) _ _ w.start_epoch (record {
            in_epoch = e;
            prefix = p;
            epoch_lo = v.epoch_lo;
            epoch_hi = omega (arith, v.epoch_lo, v.epoch_hi);
            planned = (box_prefixes-CellOf_iff k b lo hi proper p).1 v.cell;
            shape = refl;
          });
          covers =
              (range-Covers_iff e p e m t width v.epoch_hi v.cell).1
                (CellOf-WindowKey e m t width v);
        },
  )
