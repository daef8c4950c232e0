-- ===== src/Base/Result.antt =====
-- How an operation ends: with a value, with an error, or in a panic.
use mathlib.Core.Path.{◌≡◌, refl, ap}
use mathlib.Core.Logic.{◌⊎◌, inl, inr}

pub data Result (A : Type 0) : Type 0 where
  ok : A → Result A
  err : Result A
  panic : Result A

unfoldable pub map_ok : {A B : Type 0} → (A → B) → Result A → Result B
map_ok g (ok a) = ok (g a)
map_ok g err = err
map_ok g panic = panic

pub Result-cases : {A : Type 0} (r : Result A) → ((a : A) × (r ≡ ok a)) ⊎ ((r ≡ err) ⊎ (r ≡ panic))
Result-cases (ok a) = inl (a, refl)
Result-cases err = inr (inl refl)
Result-cases panic = inr (inr refl)

value_or : {A : Type 0} → A → Result A → A
value_or d (ok a) = a
value_or d err = d
value_or d panic = d

pub ok_inj : {A : Type 0} (a b : A) → ok a ≡ ok b → a ≡ b
unfolding value_or
ok_inj a b h = ap (value_or a) h
