-- ===== src/Indexer/Ranges/Covers.antt =====
-- Which keys lie in a planned range.
use interstellar_db.Base.{
  ℕ, zero, suc, ◌+◌, ◌*◌, ◌/◌, ◌^◌, ◌≤◌, ◌<◌, ◌≡◌, ◌↔◌, refl, sym, ap, ◌∙◌, arith, bit_or, true,
  List, [], ◌∷◌, map, Member, inl, inr, dec_lt, ℕ_discrete, subst, Member-map, Member-append_inv,
  Member-append_left, Member-append_right,
}
use interstellar_db.Base.Bytes.{bytes_leb}
use interstellar_db.Indexer.Key.{key_bytes}
use interstellar_db.Indexer.Key.Order.{InWidth, KeyLe, key_bytes-le}
use interstellar_db.Indexer.Prefixes.{cell_prefix}
use interstellar_db.Indexer.Prefixes.Cells.{mask_of, cell_prefix_bounds, cell_prefix_lem}
use interstellar_db.Indexer.Ranges.{KeyRange, cell_range, Span, t_lo, t_hi, window_loop}

-- The key lies between the two ends, both included, in the order of bytes.
pub record Covers (r : KeyRange) (key : List ℕ) : Type 0 where
  pub from_start : bytes_leb r.start_key key ≡ true
  pub to_end : bytes_leb key r.end_key ≡ true

-- What `Covers` says for the range of a cell from code `first` to code `last`: the epoch, the
-- codes, and the times at both ends.
pub record InCell (epoch lo hi first last e m t : ℕ) : Type 0 where
  pub same_epoch : e ≡ epoch
  pub code_lo : first ≤ m
  pub code_hi : m ≤ last
  pub time_lo : m ≡ first → lo ≤ t
  pub time_hi : m ≡ last → t ≤ hi

module _ (epoch lo hi first last e m t : ℕ) where
  InCell-of_KeyLe :
      KeyLe epoch first lo e m t → KeyLe e m t epoch last hi → InCell epoch lo hi first last e m t
  InCell-of_KeyLe p q = record {
    same_epoch = omega arith;
    code_lo = omega arith;
    code_hi = omega arith;
    time_lo = λ h. omega arith;
    time_hi = λ h. omega arith;
  }

  KeyLe-first_of_InCell : InCell epoch lo hi first last e m t → KeyLe epoch first lo e m t
  KeyLe-first_of_InCell i = elim (dec_lt first m) [
    | yes above ↦ inr (sym i.same_epoch, inl above)
    | no at ↦
        let same : m ≡ first = omega (arith, i.code_lo) in
        inr (sym i.same_epoch, inr (sym same, i.time_lo same))
  ]

  KeyLe-last_of_InCell : InCell epoch lo hi first last e m t → KeyLe e m t epoch last hi
  KeyLe-last_of_InCell i = elim (dec_lt m last) [
    | yes below ↦ inr (i.same_epoch, inl below)
    | no at ↦
        let same : m ≡ last = omega (arith, i.code_hi) in
        inr (i.same_epoch, inr (same, i.time_hi same))
  ]

pub cell_range-Covers_iff :
    (mask epoch lo hi prefix e m t : ℕ)
    → InWidth e m t
    → InWidth epoch prefix lo
    → InWidth epoch (bit_or prefix mask) hi
    → Covers (cell_range mask epoch lo hi prefix) (key_bytes e m t)
      ↔ InCell epoch lo hi prefix (bit_or prefix mask) e m t
unfolding cell_range
cell_range-Covers_iff mask epoch lo hi prefix e m t w ws we =
    let s = key_bytes-le epoch prefix lo e m t ws w in
    let u = key_bytes-le e m t epoch (bit_or prefix mask) hi w we in
    (
      λ c.
          InCell-of_KeyLe epoch lo hi prefix (bit_or prefix mask) e m t (s.0 c.from_start)
            (u.0 c.to_end),
      λ i. record {
        from_start = s.1 (KeyLe-first_of_InCell epoch lo hi prefix (bit_or prefix mask) e m t i);
        to_end = u.1 (KeyLe-last_of_InCell epoch lo hi prefix (bit_or prefix mask) e m t i);
      },
    )

-- A number lies between two neighbouring multiples in one way.
same_multiple : (q a b m : ℕ) → a * q ≤ m → m < a * q + q → b * q ≤ m → m < b * q + q → a ≡ b
same_multiple q a b m h h' k k' = elim (dec_lt a b) [
  | yes lt ↦ absurd (grind arith)
  | no ge ↦ elim (dec_lt b a) [ yes gt ↦ absurd (grind arith) | no le ↦ omega arith ]
]

-- The codes from a cell's prefix to its last code are those with that prefix.
pub cell_codes_iff :
    (shift n m : ℕ)
    → shift ≤ 63
    → n < 2 ^ 64
    → m < 2 ^ 64
    → let p = cell_prefix shift n in
      ((p ≤ m) × (m ≤ bit_or p (mask_of shift))) ↔ (cell_prefix shift m ≡ p)
cell_codes_iff shift n m hs hn hm =
    let b = cell_prefix_bounds shift m hs hm in
    let c = cell_prefix_bounds shift n hs hn in
    (
      λ r.
          cell_prefix_lem shift m hm
          ∙ ap (λ (t : ℕ). t * 2 ^ shift)
              (same_multiple (2 ^ shift) (m / 2 ^ shift) (n / 2 ^ shift) m
                (omega (arith, b.0, cell_prefix_lem shift m hm))
                (omega (arith, b.1, b.2, cell_prefix_lem shift m hm))
                (omega (arith, r.0, cell_prefix_lem shift n hn))
                (omega (arith, r.1, c.2, cell_prefix_lem shift n hn)))
          ∙ sym (cell_prefix_lem shift n hn),
      λ e. (omega (arith, e, b.0), subst (λ (t : ℕ). m ≤ bit_or t (mask_of shift)) e b.1),
    )

-- A range of the window is a cell of an epoch in it.
pub record WindowRange (mask : ℕ) (w : Span) (left epoch : ℕ) (prefixes : List ℕ) (r : KeyRange)
    : Type 0 where
  pub in_epoch : ℕ
  pub prefix : ℕ
  pub epoch_lo : epoch ≤ in_epoch
  pub epoch_hi : in_epoch < epoch + left
  pub planned : Member prefix prefixes
  pub shape : r ≡ cell_range mask in_epoch (t_lo w in_epoch) (t_hi w in_epoch) prefix

module _ (mask : ℕ) (w : Span) (prefixes : List ℕ) (r : KeyRange) where
  pub Member-map-inv :
      (epoch : ℕ) (ps : List ℕ)
      → Member r (map (cell_range mask epoch (t_lo w epoch) (t_hi w epoch)) ps)
      → (p : ℕ) × Member p ps × (r ≡ cell_range mask epoch (t_lo w epoch) (t_hi w epoch) p)
  Member-map-inv epoch [] m = elim m [ ]
  Member-map-inv epoch (p ∷ ps) (inl e) = (p, inl refl, e)
  Member-map-inv epoch (p ∷ ps) (inr m) =
      let (p', at, e) = Member-map-inv epoch ps m in (p', inr at, e)

  pub window_loop-member :
      (left epoch : ℕ)
      → Member r (window_loop left mask w epoch prefixes)
      → WindowRange mask w left epoch prefixes r
  unfolding window_loop
  window_loop-member zero epoch m = elim m [ ]
  window_loop-member (suc left) epoch m = elim (Member-append_inv r _ _ m) [
    | inl here ↦
        let (p, at, e) = Member-map-inv epoch prefixes here in
        record {
          in_epoch = epoch;
          prefix = p;
          epoch_lo = omega arith;
          epoch_hi = omega arith;
          planned = at;
          shape = e;
        }
    | inr later ↦
        let v = window_loop-member left (epoch + 1) later in
        record {
          in_epoch = v.in_epoch;
          prefix = v.prefix;
          epoch_lo = omega (arith, v.epoch_lo);
          epoch_hi = omega (arith, v.epoch_hi);
          planned = v.planned;
          shape = v.shape;
        }
  ]

  pub member-window_loop :
      (left epoch : ℕ)
      → WindowRange mask w left epoch prefixes r
      → Member r (window_loop left mask w epoch prefixes)
  unfolding window_loop
  member-window_loop zero epoch v = absurd (omega (arith, v.epoch_lo, v.epoch_hi))
  member-window_loop (suc left) epoch v = elim (ℕ_discrete v.in_epoch epoch) [
    | yes e ↦ Member-append_left r _ _ (
        subst
          (λ (a : KeyRange).
            Member a (map (cell_range mask epoch (t_lo w epoch) (t_hi w epoch)) prefixes))
          (sym (v.shape ∙ ap (λ (n : ℕ). cell_range mask n (t_lo w n) (t_hi w n) v.prefix) e))
          (Member-map (cell_range mask epoch (t_lo w epoch) (t_hi w epoch)) v.prefix prefixes
            v.planned))
    | no ne ↦ Member-append_right r _ _ (
        member-window_loop left (epoch + 1) (record {
          in_epoch = v.in_epoch;
          prefix = v.prefix;
          epoch_lo = omega (arith, v.epoch_lo, ne);
          epoch_hi = omega (arith, v.epoch_hi);
          planned = v.planned;
          shape = v.shape;
        }))
  ]
