-- ===== src/Base/Order.antt =====
-- `<` on the native numbers is well founded, and halving recursions.
use Prim.Native.Nat.{ℕ, zero, suc, ◌<◌, ◌/◌}
use mathlib.Core.WellFounded.{Acc, WellFounded}
use native.Mathlib.Omega.{arith}

Acc-below : (k n : ℕ) → n < k → Acc ◌<◌ n
Acc-below zero n h = elim h [ ]
Acc-below (suc k) n h = Acc.intro n (λ m hm. Acc-below k m (omega arith))

unfoldable pub lt_wf : WellFounded ◌<◌
unfolding Acc-below
lt_wf = record { apply = λ n. Acc-below (suc n) n (omega arith) }

-- Induction on the binary digits: a claim for 0, and from `n / 2` to `n`.
pub halving_induction {ℓ} :
    (P : ℕ → Type ℓ) → P 0 → ((n : ℕ) → P (suc n / 2) → P (suc n)) → (n : ℕ) → P n
halving_induction P base step n = go n n (omega arith)
  where
    go : (k n : ℕ) → n < suc k → P n
    go k zero h = base
    go zero (suc n) h = absurd (omega arith)
    go (suc k) (suc n) h = step n (go k (suc n / 2) (omega arith))
