-- ===== src/Store/Entries/Order.antt =====
-- About the entries: their order under changes.
use interstellar_db.Base.{
  ℕ, ◌≡◌, refl, sym, ap, ◌∙◌, Option, some, none, List, [], ◌∷◌, false, All, arith, if◌then◌else◌,
}
use interstellar_db.Base.Bytes.{bytes_leb}
use interstellar_db.Merkle.Forest.Items.{Row}
use interstellar_db.Base.ByteOrder.{bytes_eq, bytes_leb_self}
use interstellar_db.Store.Entries.{find, put, erase, IsAscending}
use interstellar_db.Store.Entries.Laws.{below, equal, above, compare_keys, All-before, unequal}

All-put :
    (j k v : List ℕ) (rs : List Row)
    → bytes_leb k j ≡ false
    → All (λ s. bytes_leb s.key j ≡ false) rs
    → All (λ s. bytes_leb s.key j ≡ false) (put k v rs)
unfolding put
All-put j k v [] h a = (h, tt)
All-put j k v (r ∷ rs) h a = ground (arith, h, a.0, a.1, All-put j k v rs h a.1)

All-erase :
    (j k : List ℕ) (rs : List Row)
    → All (λ s. bytes_leb s.key j ≡ false) rs
    → All (λ s. bytes_leb s.key j ≡ false) (erase k rs)
unfolding erase
All-erase j k [] a = tt
All-erase j k (r ∷ rs) a = ground (arith, a.0, a.1, All-erase j k rs a.1)

pub put-IsAscending : (k v : List ℕ) (rs : List Row) → IsAscending rs → IsAscending (put k v rs)
unfolding put
put-IsAscending k v [] up = (tt, tt)
put-IsAscending k v (r ∷ rs) up = elim (compare_keys k r.key) [
  | below le lt ↦ rw (le, lt) ((lt, All-before k r.key rs le up.0), up)
  | equal same le ge ↦ rw (le, ge) (All-before k r.key rs le up.0, up.1)
  | above gt ge ↦ rw gt (All-put r.key k v rs gt up.0, put-IsAscending k v rs up.1)
]

pub erase-IsAscending : (k : List ℕ) (rs : List Row) → IsAscending rs → IsAscending (erase k rs)
unfolding erase
erase-IsAscending k [] up = tt
erase-IsAscending k (r ∷ rs) up = elim (compare_keys k r.key) [
  | below le lt ↦ rw (le, lt) up
  | equal same le ge ↦ rw (le, ge) up.1
  | above gt ge ↦ rw gt (All-erase r.key k rs up.0, erase-IsAscending k rs up.1)
]

pub find-erase_other : (j k : List ℕ) (rs : List Row) → ¬ (j ≡ k) → find j (erase k rs) ≡ find j rs
unfolding find erase
find-erase_other j k [] off = refl
find-erase_other j k (r ∷ rs) off = elim (compare_keys k r.key) [
  | below le lt ↦ rw (le, lt) refl
  | equal same le ge ↦ rw (le, ge, unequal j r.key (λ at. off (at ∙ sym same))) refl
  | above gt ge ↦ rw gt (
      ap (λ (o : Option (List ℕ)). if bytes_eq j r.key then some r.payload else o)
        (find-erase_other j k rs off))
]

-- A key before all entries is not among them.
find-absent :
    (k : List ℕ) (rs : List Row) → All (λ s. bytes_leb s.key k ≡ false) rs → find k rs ≡ none
unfolding find
find-absent k [] off = refl
find-absent k (r ∷ rs) off =
    rw
      (unequal k r.key
        (λ same. ground (arith, off.0, ap (λ (j : List ℕ). bytes_leb j k) same, bytes_leb_self k)))
      (find-absent k rs off.1)

-- The key that is erased is gone.
pub find-erase_own : (k : List ℕ) (rs : List Row) → IsAscending rs → find k (erase k rs) ≡ none
unfolding find erase
find-erase_own k [] up = refl
find-erase_own k (r ∷ rs) up = elim (compare_keys k r.key) [
  | below le lt ↦ rw (le, lt) (find-absent k (r ∷ rs) (lt, All-before k r.key rs le up.0))
  | equal same le ge ↦ rw (le, ge) (find-absent k rs (All-before k r.key rs le up.0))
  | above gt ge ↦
      rw
        (
          gt,
          unequal k r.key (λ same.
              ground (arith, gt, ap (λ (j : List ℕ). bytes_leb k j) (sym same), bytes_leb_self k)),
        )
        (find-erase_own k rs up.1)
]
