-- ===== src/Base/BTreeMap.antt =====
-- The standard library's maps with numbers for keys, as a list of entries by ascending key. A search
-- goes by the order of the keys, so the laws hold of any list.
use Prim.Native.Nat.{ℕ}
use mathlib.Core.Path.{◌≡◌}
use mathlib.Core.List.{List, [], ◌∷◌}
use mathlib.Core.Option.{Option, none, some}
use native.Mathlib.Omega.{arith}
use interstellar_db.Base.Tests.{ltb, ◌==◌, if◌then◌else◌}

module _ {V : Type 0} where
  unfoldable pub get : ℕ → List (ℕ × V) → Option V
  get k [] = none
  get k ((j, v) ∷ m) = if ltb k j then none else if ltb j k then get k m else some v

  -- Gives the entry of `k` a value that may depend on the value before: `insert` and `entry`.
  unfoldable pub alter : ℕ → (Option V → V) → List (ℕ × V) → List (ℕ × V)
  alter k f [] = (k, f none) ∷ []
  alter k f ((j, v) ∷ m) =
      if ltb k j
      then (k, f none) ∷ (j, v) ∷ m
      else if ltb j k
      then (j, v) ∷ alter k f m
      else (k, f (some v)) ∷ m

  unfoldable pub remove : ℕ → List (ℕ × V) → List (ℕ × V)
  remove k [] = []
  remove k ((j, v) ∷ m) = if ltb k j then (j, v) ∷ m else if ltb j k then (j, v) ∷ remove k m else m

  unfoldable pub keys : List (ℕ × V) → List ℕ
  keys [] = []
  keys ((j, v) ∷ m) = j ∷ keys m

  pub get-alter :
      (k j : ℕ) (f : Option V → V) (m : List (ℕ × V))
      → get j (alter k f m) ≡ (if k == j then some (f (get k m)) else get j m)
  unfolding get alter
  get-alter k j f [] = ground arith
  get-alter k j f ((i, v) ∷ m) = ground (arith, get-alter k j f m)
