-- ===== src/Base/BTreeSet.antt =====
-- The standard library's `BTreeSet` of numbers, as the list that iterating over it yields.
use Prim.Native.Nat.{ℕ, ◌<◌, ◌≤◌}
use mathlib.Core.Path.{◌≡◌, refl}
use mathlib.Core.Logic.{◌↔◌, ◌⊎◌}
use mathlib.Core.Bool.{Bool, true, false}
use mathlib.Core.List.{List, [], ◌∷◌}
use native.Mathlib.Omega.{arith}
use interstellar_db.Base.Tests.{ltb, ◌==◌, if◌then◌else◌}
use interstellar_db.Base.Lists.{All, Member}

unfoldable pub insert : ℕ → List ℕ → List ℕ
insert a [] = a ∷ []
insert a (x ∷ xs) = if ltb a x then a ∷ x ∷ xs else if ltb x a then x ∷ insert a xs else x ∷ xs

unfoldable pub remove : ℕ → List ℕ → List ℕ
remove a [] = []
remove a (x ∷ xs) = if ltb a x then x ∷ xs else if ltb x a then x ∷ remove a xs else xs

unfoldable pub contains : ℕ → List ℕ → Bool
contains a [] = false
contains a (x ∷ xs) = if ltb a x then false else if ltb x a then contains a xs else true

-- Ascending, each item once.
abbrev pub IsAscending : List ℕ → Type 0
IsAscending [] = Unit
IsAscending (x ∷ xs) = All (λ y. x < y) xs × IsAscending xs

pub member-insert : (p a : ℕ) (xs : List ℕ) → Member p (insert a xs) ↔ ((p ≡ a) ⊎ Member p xs)
unfolding insert
member-insert p a [] = ground arith
member-insert p a (x ∷ xs) = ground (arith, (member-insert p a xs).0, (member-insert p a xs).1)

All-insert : (y a : ℕ) (xs : List ℕ) → y < a → All (λ x. y < x) xs → All (λ x. y < x) (insert a xs)
unfolding insert
All-insert y a [] h k = (h, tt)
All-insert y a (x ∷ xs) h k = ground (arith, All-insert y a xs h k.1)

All-below : (a x : ℕ) (xs : List ℕ) → a < x → All (λ y. x < y) xs → All (λ y. a < y) xs
All-below a x [] h k = tt
All-below a x (y ∷ ys) h k = (omega arith, All-below a x ys h k.1)

pub insert-IsAscending : (a : ℕ) (xs : List ℕ) → IsAscending xs → IsAscending (insert a xs)
unfolding insert
insert-IsAscending a [] h = (tt, tt)
insert-IsAscending a (x ∷ xs) h =
    ground (arith, insert-IsAscending a xs h.1, All-insert x a xs, All-below a x xs)

All-remove : (y a : ℕ) (xs : List ℕ) → All (λ x. y < x) xs → All (λ x. y < x) (remove a xs)
unfolding remove
All-remove y a [] h = tt
All-remove y a (x ∷ xs) h = ground (arith, h.0, h.1, All-remove y a xs h.1)

pub remove-IsAscending : (a : ℕ) (xs : List ℕ) → IsAscending xs → IsAscending (remove a xs)
unfolding remove
remove-IsAscending a [] h = tt
remove-IsAscending a (x ∷ xs) h =
    ground (arith, h.0, h.1, remove-IsAscending a xs h.1, All-remove x a xs h.0)

contains-below : (a x : ℕ) (xs : List ℕ) → a ≤ x → All (λ y. x < y) xs → contains a xs ≡ false
unfolding contains
contains-below a x [] le h = refl
contains-below a x (y ∷ ys) le h = ground (arith, h.0, le)

pub contains-remove :
    (e a : ℕ) (xs : List ℕ)
    → IsAscending xs
    → contains e (remove a xs) ≡ (if e == a then false else contains e xs)
unfolding remove contains
contains-remove e a [] h = ground arith
contains-remove e a (x ∷ xs) h =
    ground (arith, contains-remove e a xs h.1, contains-below e x xs, h.0)

pub contains-insert :
    (e a : ℕ) (xs : List ℕ) → contains e (insert a xs) ≡ (if e == a then true else contains e xs)
unfolding insert contains
contains-insert e a [] = ground arith
contains-insert e a (x ∷ xs) = ground (arith, contains-insert e a xs)
