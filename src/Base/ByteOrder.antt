-- ===== src/Base/ByteOrder.antt =====
-- The order of byte slices is a total order; and what it says of a slice with a 0 behind it.
use Prim.Native.Nat.{ℕ}
use mathlib.Core.Path.{◌≡◌, refl, ap₂}
use mathlib.Core.Bool.{Bool, true, false, not, ◌&&◌}
use mathlib.Core.List.{List, [], ◌∷◌, ◌++◌}
use native.Mathlib.Omega.{arith}
use interstellar_db.Base.Tests.{◌==◌}
use interstellar_db.Base.Bytes.{bytes_leb}

-- `a == b` on slices.
unfoldable pub bytes_eq : List ℕ → List ℕ → Bool
bytes_eq [] [] = true
bytes_eq [] (y ∷ ys) = false
bytes_eq (x ∷ xs) [] = false
bytes_eq (x ∷ xs) (y ∷ ys) = x == y && bytes_eq xs ys

pub bytes_eq_self : (xs : List ℕ) → bytes_eq xs xs ≡ true
unfolding bytes_eq
bytes_eq_self [] = refl
bytes_eq_self (x ∷ xs) = ground (arith, bytes_eq_self xs)

pub eq_of_bytes_eq : (xs ys : List ℕ) → bytes_eq xs ys ≡ true → xs ≡ ys
unfolding bytes_eq
eq_of_bytes_eq [] [] h = refl
eq_of_bytes_eq [] (y ∷ ys) h = absurd (ground (arith, h))
eq_of_bytes_eq (x ∷ xs) [] h = absurd (ground (arith, h))
eq_of_bytes_eq (x ∷ xs) (y ∷ ys) h =
    let p : (x ≡ y) × (bytes_eq xs ys ≡ true) = ground (arith, h) in
    ap₂ ◌∷◌ p.0 (eq_of_bytes_eq xs ys p.1)

pub bytes_leb_self : (xs : List ℕ) → bytes_leb xs xs ≡ true
unfolding bytes_leb
bytes_leb_self [] = refl
bytes_leb_self (x ∷ xs) = ground (arith, bytes_leb_self xs)

pub bytes_leb_antisym : (xs ys : List ℕ) → bytes_leb xs ys ≡ true → bytes_leb ys xs ≡ true → xs ≡ ys
unfolding bytes_leb
bytes_leb_antisym [] [] h k = refl
bytes_leb_antisym [] (y ∷ ys) h k = absurd (ground (arith, k))
bytes_leb_antisym (x ∷ xs) [] h k = absurd (ground (arith, h))
bytes_leb_antisym (x ∷ xs) (y ∷ ys) h k =
    let p : (x ≡ y) × (bytes_leb xs ys ≡ true) × (bytes_leb ys xs ≡ true) = ground (arith, h, k) in
    ap₂ ◌∷◌ p.0 (bytes_leb_antisym xs ys p.1 p.2)

pub bytes_leb_total : (xs ys : List ℕ) → bytes_leb xs ys ≡ false → bytes_leb ys xs ≡ true
unfolding bytes_leb
bytes_leb_total [] ys h = absurd (ground (arith, h))
bytes_leb_total (x ∷ xs) [] h = refl
bytes_leb_total (x ∷ xs) (y ∷ ys) h = ground (arith, bytes_leb_total xs ys)

pub bytes_leb_trans :
    (xs ys zs : List ℕ) → bytes_leb xs ys ≡ true → bytes_leb ys zs ≡ true → bytes_leb xs zs ≡ true
unfolding bytes_leb
bytes_leb_trans [] ys zs h k = refl
bytes_leb_trans (x ∷ xs) [] zs h k = absurd (ground (arith, h))
bytes_leb_trans (x ∷ xs) (y ∷ ys) [] h k = absurd (ground (arith, k))
bytes_leb_trans (x ∷ xs) (y ∷ ys) (z ∷ zs) h k = ground (arith, bytes_leb_trans xs ys zs)

-- A slice comes before another with a 0 behind it just if it is at most that other.
pub bytes_leb-end : (end k : List ℕ) → bytes_leb (end ++ 0 ∷ []) k ≡ not (bytes_leb k end)
unfolding bytes_leb
bytes_leb-end [] [] = refl
bytes_leb-end [] (c ∷ k) = ground arith
bytes_leb-end (x ∷ end) [] = refl
bytes_leb-end (x ∷ end) (c ∷ k) = ground (arith, bytes_leb-end end k)
