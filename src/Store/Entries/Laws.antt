-- ===== src/Store/Entries/Laws.antt =====
-- The laws of the entries: what a change does to a search and to the rows of 20-byte keys.
use interstellar_db.Base.{
  ℕ, ◌≡◌, ◌≢◌, refl, sym, ap, ap₂, ◌∙◌, arith, List, [], ◌∷◌, true, false, Bool-cases, inl, inr,
  Option, none, some, if◌then◌else◌, All, length, ==_ne, subst, bit_xor,
}
use interstellar_db.Base.Bits.{bit_xor_assoc, bit_xor_comm, bit_xor_self, zero-bit_xor}
use interstellar_db.Base.ByteOrder.{
  bytes_eq, bytes_eq_self, eq_of_bytes_eq, bytes_leb_self, bytes_leb_antisym, bytes_leb_total,
  bytes_leb_trans,
}
use interstellar_db.Base.Bytes.{bytes_leb}
use interstellar_db.Merkle.Forest.Items.{Row, share, set_hash, set_hash-cons}
use interstellar_db.Store.Entries.{find, put, erase, data_rows, IsAscending}

-- How a key compares with an entry's.
pub data Compared (k j : List ℕ) : Type 0 where
  below : bytes_leb k j ≡ true → bytes_leb j k ≡ false → Compared k j
  equal : k ≡ j → bytes_leb k j ≡ true → bytes_leb j k ≡ true → Compared k j
  above : bytes_leb k j ≡ false → bytes_leb j k ≡ true → Compared k j

pub compare_keys : (k j : List ℕ) → Compared k j
compare_keys k j = elim (Bool-cases (bytes_leb k j)) [
  | inl le ↦ elim (Bool-cases (bytes_leb j k)) [
    | inl ge ↦ equal (bytes_leb_antisym k j le ge) le ge
    | inr lt ↦ below le lt
  ]
  | inr gt ↦ above gt (bytes_leb_total k j gt)
]

-- A new key in front of all others.
put-front :
    (k v : List ℕ) (rs : List Row)
    → All (λ s. bytes_leb s.key k ≡ false) rs
    → put k v rs ≡ record { key = k; payload = v } ∷ rs
unfolding put
put-front k v [] h = refl
put-front k v (r ∷ rs) h = rw (bytes_leb_total r.key k h.0, h.0) refl

All-data_rows : (P : Row → Type 0) (rs : List Row) → All P rs → All P (data_rows rs)
unfolding data_rows
All-data_rows P [] h = tt
All-data_rows P (r ∷ rs) h = ground (arith, All-data_rows P rs h.1, h.0)

pub data_rows-IsAscending : (rs : List Row) → IsAscending rs → IsAscending (data_rows rs)
unfolding data_rows
data_rows-IsAscending [] h = tt
data_rows-IsAscending (r ∷ rs) h =
    ground (
      arith,
      data_rows-IsAscending rs h.1,
      All-data_rows (λ s. bytes_leb s.key r.key ≡ false) rs h.0,
    )

-- What comes behind an entry comes behind a key before it.
pub All-before :
    (k j : List ℕ) (rs : List Row)
    → bytes_leb k j ≡ true
    → All (λ s. bytes_leb s.key j ≡ false) rs
    → All (λ s. bytes_leb s.key k ≡ false) rs
All-before k j [] h a = tt
All-before k j (s ∷ rs) h a = (before, All-before k j rs h a.1)
  where
    before : bytes_leb s.key k ≡ false
    before = elim (Bool-cases (bytes_leb s.key k)) [
      | inl le ↦ absurd (ground (arith, bytes_leb_trans s.key k j le h, a.0))
      | inr lt ↦ lt
    ]

-- A row with a key of 20 bytes goes in among the rows.
pub data_rows-put :
    (k v : List ℕ) (rs : List Row)
    → length k ≡ 20
    → IsAscending rs
    → data_rows (put k v rs) ≡ put k v (data_rows rs)
unfolding data_rows put
data_rows-put k v [] h up = rw (h) refl
data_rows-put k v (r ∷ rs) h up = elim (compare_keys k r.key) [
  | below le lt ↦
      let front =
        put-front k v (data_rows rs)
          (All-data_rows (λ s. bytes_leb s.key k ≡ false) rs (All-before k r.key rs le up.0)) in
      ground (arith, h, le, lt, front)
  | equal e le ge ↦
      let n : length r.key ≡ length k = ap (λ (j : List ℕ). length j) (sym e) in
      ground (arith, h, n, le, ge)
  | above gt ge ↦ ground (arith, gt, data_rows-put k v rs h up.1)
]

-- An entry with another key is none of the rows.
pub data_rows-put_other :
    (k v : List ℕ) (rs : List Row) → length k ≢ 20 → data_rows (put k v rs) ≡ data_rows rs
unfolding data_rows put
data_rows-put_other k v [] h = rw (==_ne (length k) 20 h) refl
data_rows-put_other k v (r ∷ rs) h = elim (compare_keys k r.key) [
  | below le lt ↦ ground (arith, le, lt)
  | equal e le ge ↦
      let n : length r.key ≡ length k = ap (λ (j : List ℕ). length j) (sym e) in
      ground (arith, n, le, ge)
  | above gt ge ↦ ground (arith, gt, data_rows-put_other k v rs h)
]

pub data_rows-erase_other :
    (k : List ℕ) (rs : List Row) → length k ≢ 20 → data_rows (erase k rs) ≡ data_rows rs
unfolding data_rows erase
data_rows-erase_other k [] h = refl
data_rows-erase_other k (r ∷ rs) h = elim (compare_keys k r.key) [
  | below le lt ↦ ground (arith, le, lt)
  | equal e le ge ↦
      let n : length r.key ≡ length k = ap (λ (j : List ℕ). length j) (sym e) in
      ground (arith, n, le, ge)
  | above gt ge ↦ ground (arith, gt, data_rows-erase_other k rs h)
]

different : (k i : List ℕ) → bytes_leb k i ≡ false → k ≢ i
different k i gt e =
    ground (arith, bytes_leb_self k, subst (λ (j : List ℕ). bytes_leb k j ≡ false) (sym e) gt)

found :
    (j k i v : List ℕ) (rest : Option (List ℕ))
    → bytes_leb k i ≡ false
    → (w : List ℕ)
    → (if bytes_eq j i then some w else if bytes_eq j k then some v else rest)
      ≡ (if bytes_eq j k then some v else if bytes_eq j i then some w else rest)
found j k i v rest gt w = elim (Bool-cases (bytes_eq j i)) [
  | inl at_i ↦ elim (Bool-cases (bytes_eq j k)) [
    | inl at_k ↦ absurd (different k i gt (sym (eq_of_bytes_eq j k at_k) ∙ eq_of_bytes_eq j i at_i))
    | inr not_k ↦ rw (at_i, not_k) refl
  ]
  | inr not_i ↦ rw not_i refl
]

pub find-put :
    (j k v : List ℕ) (rs : List Row)
    → find j (put k v rs) ≡ (if bytes_eq j k then some v else find j rs)
unfolding find put
find-put j k v [] = refl
find-put j k v (r ∷ rs) = elim (compare_keys k r.key) [
  | below le lt ↦ rw (le, lt) refl
  | equal e le ge ↦
      let same : bytes_eq j r.key ≡ bytes_eq j k = ap (bytes_eq j) (sym e) in
      rw (le, ge) (ground (arith, same))
  | above gt ge ↦ rw gt (rw (find-put j k v rs) (found j k r.key v (find j rs) gt r.payload))
]

pub absent :
    (k : List ℕ) (rs : List Row) → All (λ s. bytes_leb s.key k ≡ false) rs → find k rs ≡ none
unfolding find
absent k [] h = refl
absent k (r ∷ rs) h = elim (Bool-cases (bytes_eq k r.key)) [
  | inl at ↦ absurd (different r.key k h.0 (sym (eq_of_bytes_eq k r.key at)))
  | inr no_match ↦ rw no_match (absent k rs h.1)
]

pub unequal : (k j : List ℕ) → k ≢ j → bytes_eq k j ≡ false
unequal k j h = elim (Bool-cases (bytes_eq k j)) [
  | inl at ↦ absurd (h (eq_of_bytes_eq k j at))
  | inr off ↦ off
]

module _ (sha256 : List ℕ → List ℕ) (e d p : ℕ) where
  -- What an entry that is found, or none, adds to a node.
  abbrev pub old_share : List ℕ → Option (List ℕ) → ℕ
  old_share k none = 0
  old_share k (some v) = share sha256 e d p (record { key = k; payload = v })

  left_comm : (a b x : ℕ) → bit_xor a (bit_xor b x) ≡ bit_xor b (bit_xor a x)
  left_comm a b x =
      sym (bit_xor_assoc a b x)
      ∙ ap (λ (t : ℕ). bit_xor t x) (bit_xor_comm a b)
      ∙ bit_xor_assoc b a x

  cancel : (a x : ℕ) → bit_xor a (bit_xor a x) ≡ x
  cancel a x =
      sym (bit_xor_assoc a a x) ∙ ap (λ (t : ℕ). bit_xor t x) (bit_xor_self a) ∙ zero-bit_xor x

  -- A row that goes in adds its share, and takes out the share of the row that it replaces.
  pub set_hash-put :
      (k v : List ℕ) (rs : List Row)
      → IsAscending rs
      → set_hash sha256 e d p (put k v rs)
        ≡ bit_xor
            (share sha256 e d p (record { key = k; payload = v }))
            (bit_xor (old_share k (find k rs)) (set_hash sha256 e d p rs))
  unfolding put find
  set_hash-put k v [] up =
      set_hash-cons sha256 e d p (record { key = k; payload = v }) []
      ∙ ap (bit_xor (share sha256 e d p (record { key = k; payload = v }))) (sym (zero-bit_xor _))
  set_hash-put k v (r ∷ rs) up =
      let new : ℕ = share sha256 e d p (record { key = k; payload = v }) in
      let tail : ℕ = set_hash sha256 e d p rs in
      let cons = set_hash-cons sha256 e d p in
      elim (compare_keys k r.key) [
        | below le lt ↦
            let not_here = unequal k r.key (λ at. different r.key k lt (sym at)) in
            let not_there = absent k rs (All-before k r.key rs le up.0) in
            rw (le, lt, not_here, not_there)
              (cons (record { key = k; payload = v }) (r ∷ rs)
                ∙ ap (bit_xor new) (sym (zero-bit_xor (set_hash sha256 e d p (r ∷ rs)))))
        | equal same le ge ↦
            let here : bytes_eq k r.key ≡ true = ap (bytes_eq k) (sym same) ∙ bytes_eq_self k in
            let old : share sha256 e d p (record { key = k; payload = r.payload })
                ≡ share sha256 e d p r =
              ap (λ (j : List ℕ). share sha256 e d p (record { key = j; payload = r.payload }))
                same in
            rw (le, ge, here)
              (cons (record { key = k; payload = v }) rs
                ∙ ap (bit_xor new)
                    (sym (ap₂ bit_xor old (cons r rs) ∙ cancel (share sha256 e d p r) tail)))
        | above gt ge ↦
            let not_here = unequal k r.key (different k r.key gt) in
            let old : ℕ = old_share k (find k rs) in
            rw (gt, not_here)
              (cons r (put k v rs)
                ∙ ap (bit_xor (share sha256 e d p r)) (set_hash-put k v rs up.1)
                ∙ left_comm (share sha256 e d p r) new (bit_xor old tail)
                ∙ ap (bit_xor new) (
                    left_comm (share sha256 e d p r) old tail ∙ ap (bit_xor old) (sym (cons r rs))))
      ]

-- A search for a key of 20 bytes finds the same among the rows.
pub find-data_rows :
    (k : List ℕ) (rs : List Row) → length k ≡ 20 → find k (data_rows rs) ≡ find k rs
unfolding find data_rows
find-data_rows k [] h = refl
find-data_rows k (r ∷ rs) h = elim (Bool-cases (bytes_eq k r.key)) [
  | inl at ↦
      let n : length r.key ≡ 20 =
        ap (λ (j : List ℕ). length j) (sym (eq_of_bytes_eq k r.key at)) ∙ h in
      ground (arith, at, n)
  | inr off ↦ ground (arith, off, find-data_rows k rs h)
]
