-- ===== src/Store/Open/Ranges.antt =====
-- About `unsealed_scan_ranges` of src/store.rs: the keys that `open` scans.
use interstellar_db.Base.{
  ℕ, zero, suc, ◌+◌, ◌^◌, ◌<◌, ◌≤◌, ◌≡◌, ◌↔◌, ◌⊎◌, refl, arith, List, [], ◌∷◌, ◌++◌, true, false,
  Bool-cases, Option, Option-cases, none, some, Member, All, inl, inr, length, length-append,
  replicate, ltb, ==_ne, subst, if◌then◌else◌, dec_lt, ℕ_discrete,
}
use interstellar_db.Base.BTreeSet
use interstellar_db.Base.Bytes.{
  to_be_bytes, to_be_bytes-All, length-to_be_bytes, bytes_leb, bytes_leb-to_be_bytes,
}
use interstellar_db.Base.Word.{u32_max}
use interstellar_db.Indexer.Key.{key_bytes}
use interstellar_db.Indexer.Key.Order.{InWidth, length-key_bytes}
use interstellar_db.Store.Open.{epoch_start, checked_next, scan_ranges_from, unsealed_scan_ranges}

bytes_leb-zeros : (n : ℕ) (ys : List ℕ) → length ys ≡ n → bytes_leb (replicate n 0) ys ≡ true
unfolding bytes_leb
bytes_leb-zeros zero ys h = refl
bytes_leb-zeros (suc n) [] h = absurd (omega (arith, h))
bytes_leb-zeros (suc n) (y ∷ ys) h = ground (arith, bytes_leb-zeros n ys (omega (arith, h)))

bytes_leb-top :
    (n : ℕ) (ys : List ℕ)
    → length ys < n
    → All (λ b. b < 256) ys
    → bytes_leb (replicate n 255) ys ≡ false
unfolding bytes_leb
bytes_leb-top zero ys h b = absurd (omega (arith, h))
bytes_leb-top (suc n) [] h b = refl
bytes_leb-top (suc n) (y ∷ ys) h b = ground (arith, bytes_leb-top n ys (omega (arith, h)) b.1, b.0)

checked_next-last : (x : ℕ) → x ≡ u32_max → checked_next x ≡ none
unfolding checked_next
checked_next-last x h = ground (arith, h)

checked_next-inner : (x : ℕ) → ¬ (x ≡ u32_max) → checked_next x ≡ some (x + 1)
unfolding checked_next
checked_next-inner x h = rw (==_ne x u32_max h) refl

All-next : (x : ℕ) (xs : List ℕ) → All (λ y. x < y) xs → All (λ y. x + 1 ≤ y) xs
All-next x [] up = tt
All-next x (y ∷ ys) up = (omega (arith, up.0), All-next x ys up.1)

module _ (e m t : ℕ) (w : InWidth e m t) where
  abbrev key : List ℕ
  key = key_bytes e m t

  -- An epoch's start comes before its keys and those of later epochs.
  epoch_start-le : (c : ℕ) → c < 2 ^ 32 → (bytes_leb (epoch_start c) key ≡ true) ↔ (c ≤ e)
  unfolding epoch_start key_bytes
  epoch_start-le c fits =
      let zeros = bytes_leb-zeros 16 (to_be_bytes 8 m ++ to_be_bytes 8 t) (
        omega (
          arith,
          length-append (to_be_bytes 8 m) (to_be_bytes 8 t),
          length-to_be_bytes 8 m,
          length-to_be_bytes 8 t,
        )) in
      ground (
        arith,
        bytes_leb-to_be_bytes 4 c e (replicate 16 0) (to_be_bytes 8 m ++ to_be_bytes 8 t) fits
            w.epoch_u32,
        zeros,
      )

  All-append :
      (xs ys : List ℕ)
      → All (λ b. b < 256) xs
      → All (λ b. b < 256) ys
      → All (λ b. b < 256) (xs ++ ys)
  All-append [] ys h k = k
  All-append (x ∷ xs) ys h k = (h.0, All-append xs ys h.1 k)

  key-below_top : bytes_leb (replicate 21 255) key ≡ false
  unfolding key_bytes
  key-below_top = bytes_leb-top 21 key (omega (arith, length-key_bytes e m t)) (
      All-append (to_be_bytes 4 e) (to_be_bytes 8 m ++ to_be_bytes 8 t) (to_be_bytes-All 4 e) (
        All-append (to_be_bytes 8 m) (to_be_bytes 8 t) (to_be_bytes-All 8 m) (to_be_bytes-All 8 t)))

  -- Some range, its end excluded, holds the key.
  abbrev pub AnyScans : List (List ℕ × List ℕ) → Type 0
  AnyScans [] = ⊥
  AnyScans ((start, end) ∷ ranges) =
      ((bytes_leb start key ≡ true) × (bytes_leb end key ≡ false)) ⊎ AnyScans ranges

  below : (x : ℕ) → x < 2 ^ 32 → e < x → bytes_leb (epoch_start x) key ≡ false
  below x fits lt = elim (Bool-cases (bytes_leb (epoch_start x) key)) [
    | inl le ↦ absurd (omega (arith, (epoch_start-le x fits).0 le, lt))
    | inr gt ↦ gt
  ]

  -- One range of the loop, which is left out where it is empty.
  one_range :
      (c x : ℕ) (rest : List (List ℕ × List ℕ))
      → c ≤ x
      → x < 2 ^ 32
      → AnyScans (if ltb c x then (epoch_start c, epoch_start x) ∷ rest else rest)
        ↔ (((c ≤ e) × (e < x)) ⊎ AnyScans rest)
  one_range c x rest le fits =
      let lo = epoch_start-le c (omega (arith, le, fits)) in
      let hi = epoch_start-le x fits in
      elim (Bool-cases (ltb c x)) [
        | inl some_left ↦ rw some_left (
          λ r. elim r [ inl (p, q) ↦ inl (lo.0 p, ground (arith, q, hi.1)) | inr s ↦ inr s ],
          λ r. elim r [ inl (p, q) ↦ inl (lo.1 p, below x fits q) | inr s ↦ inr s ],
        )
        | inr none_left ↦
            rw none_left (
              λ r. inr r,
              λ r. elim r [ inl b ↦ absurd (ground (arith, b, none_left)) | inr s ↦ s ],
            )
      ]

  -- What the loop scans from a cursor on: the epochs from there that are not sealed.
  abbrev Scans : ℕ → List ℕ → Option (List (List ℕ × List ℕ)) → Type 0
  Scans c sealed none = ⊥
  Scans c sealed (some ranges) = AnyScans ranges ↔ ((c ≤ e) × ¬ Member e sealed)

  above-not_member : (x : ℕ) (xs : List ℕ) → All (λ y. x < y) xs → e ≤ x → ¬ Member e xs
  above-not_member x [] up le m = m
  above-not_member x (y ∷ ys) up le (inl same) = omega (arith, up.0, le, same)
  above-not_member x (y ∷ ys) up le (inr later) = above-not_member x ys up.1 le later

  next_scans :
      (c x : ℕ) (xs : List ℕ) (rest : List (List ℕ × List ℕ))
      → c ≤ x
      → x < 2 ^ 32
      → All (λ y. x < y) xs
      → AnyScans rest ↔ ((x + 1 ≤ e) × ¬ Member e xs)
      → AnyScans (if ltb c x then (epoch_start c, epoch_start x) ∷ rest else rest)
        ↔ ((c ≤ e) × ¬ Member e (x ∷ xs))
  next_scans c x xs rest le fits up later =
      let one = one_range c x rest le fits in
      (
        λ s. elim (one.0 s) [
          | inl (lo, hi) ↦ (
            lo,
            λ m. elim m [
              | inl same ↦ omega (arith, same, hi)
              | inr far ↦ above-not_member x xs up (omega (arith, hi)) far
            ],
          )
          | inr r ↦
              let (lo, absent) = later.0 r in
              (
                omega (arith, lo, le),
                λ m. elim m [ inl same ↦ omega (arith, same, lo) | inr far ↦ absent far ],
              )
        ],
        λ (lo, absent). one.1 (elim (dec_lt e x) [
          | yes before ↦ inl (lo, before)
          | no after ↦ elim (ℕ_discrete e x) [
            | yes same ↦ absurd (absent (inl same))
            | no other ↦ inr (later.1 (omega (arith, after, other), λ m. absent (inr m)))
          ]
        ]),
      )

  scan_ranges_from-Scans :
      (sealed : List ℕ) (c : ℕ)
      → c < 2 ^ 32
      → BTreeSet.IsAscending sealed
      → All (λ x. x < 2 ^ 32) sealed
      → All (λ x. c ≤ x) sealed
      → Scans c sealed (scan_ranges_from (some c) sealed)
  unfolding scan_ranges_from
  scan_ranges_from-Scans [] c cursor up fit from =
      let lo = epoch_start-le c cursor in
      (
        λ r. elim r [ inl (p, q) ↦ (lo.0 p, λ m. m) | inr s ↦ absurd s ],
        λ (p, q). inl (lo.1 p, key-below_top),
      )
  scan_ranges_from-Scans (x ∷ xs) c cursor up fit from = elim (ℕ_discrete x u32_max) [
    | yes last ↦
        rw (checked_next-last x last, scan_ranges_from)
          (next_scans c x xs [] from.0 fit.0 up.0
            (λ s. absurd s, λ (lo, absent). omega (arith, lo, last, w.epoch_u32)))
    | no inner ↦
        let rest : Scans (x + 1) xs (scan_ranges_from (some (x + 1)) xs) =
          scan_ranges_from-Scans xs (x + 1) (omega (arith, fit.0, inner)) up.1 fit.1
            (All-next x xs up.0) in
        elim (Option-cases (scan_ranges_from (some (x + 1)) xs)) [
          | inl failed ↦ absurd (subst (Scans (x + 1) xs) failed rest)
          | inr (ranges, done) ↦
              rw (checked_next-inner x inner, done, scan_ranges_from)
                (next_scans c x xs ranges from.0 fit.0 up.0 (subst (Scans (x + 1) xs) done rest))
        ]
  ]

All-from_0 : (xs : List ℕ) → All (λ x. 0 ≤ x) xs
All-from_0 [] = tt
All-from_0 (x ∷ xs) = (omega arith, All-from_0 xs)

-- For an ascending set of u32 epochs, the ranges that `open` scans are planned without a panic,
-- and a key whose fields fit lies in one of them, its end excluded, just if its epoch is not in
-- the set.
pub unsealed_scan_ranges-AnyScans_iff :
    (sealed : List ℕ)
    → BTreeSet.IsAscending sealed
    → All (λ x. x < 2 ^ 32) sealed
    → (ranges : List (List ℕ × List ℕ)) × (unsealed_scan_ranges sealed ≡ some ranges)
      × ((e m t : ℕ) (w : InWidth e m t) → AnyScans e m t w ranges ↔ ¬ Member e sealed)
unfolding unsealed_scan_ranges
unsealed_scan_ranges-AnyScans_iff sealed up fit =
    elim (Option-cases (scan_ranges_from (some 0) sealed)) [
      | inl failed ↦
          let zero_key : InWidth 0 0 0 = record {
            epoch_u32 = omega arith;
            spatial_u64 = omega arith;
            nano_u64 = omega arith;
          } in
          absurd (subst (Scans 0 0 0 zero_key 0 sealed) failed (all 0 0 0 zero_key))
      | inr (ranges, done) ↦ (
        ranges,
        done,
        λ e m t w.
            let s = subst (Scans e m t w 0 sealed) done (all e m t w) in
            (λ r. (s.0 r).1, λ absent. s.1 (omega arith, absent)),
      )
    ]
  where
    all :
        (e m t : ℕ) (w : InWidth e m t) → Scans e m t w 0 sealed (scan_ranges_from (some 0) sealed)
    all e m t w = scan_ranges_from-Scans e m t w sealed 0 (omega arith) up fit (All-from_0 sealed)
