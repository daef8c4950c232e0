-- ===== src/Indexer/Prefixes/Loop.antt =====
-- What the walk over one axis visits, for any body.
use interstellar_db.Base.{
  ℕ, zero, suc, ◌+◌, ◌-◌, ◌*◌, ◌≤◌, ◌<◌, ◌≡◌, false, subst, inl, inr, Bool-cases, leb→le, le→leb,
  ltb, leb, arith,
}
use interstellar_db.Base.Word.{u32_max}
use interstellar_db.Indexer.Prefixes.{axis_loop, walk_axis}

-- The points that the walk visits: from `v` by `step` up to `v_max`.
pub record IsVisited (step v_max v w : ℕ) : Type 0 where
  pub rounds : ℕ
  pub place : w ≡ v + rounds * step
  pub within : w ≤ v_max

IsVisited-later :
    (step v_max v w : ℕ) → IsVisited step v_max (v + step) w → IsVisited step v_max v w
IsVisited-later step v_max v w i = record {
  rounds = suc i.rounds;
  place = grind arith;
  within = i.within;
}

module _ {ℓ κ} {S : Type ℓ} (step v_max : ℕ) (body : ℕ → S → S) (Q : S → Type κ) where
  -- What every round of the walk keeps holds behind it.
  pub axis_loop_keeps :
      (fuel v : ℕ) (s : S)
      → ((w : ℕ) (t : S) → IsVisited step v_max v w → Q t → Q (body w t))
      → Q s
      → Q (axis_loop fuel step v_max body v s)
  unfolding axis_loop
  axis_loop_keeps zero v s keep q = q
  axis_loop_keeps (suc fuel) v s keep q =
      let here : v ≤ v_max → Q (body v s) =
        λ h. keep v s (record { rounds = 0; place = omega arith; within = h }) q in
      elim (Bool-cases (leb v v_max)) [
        | inl on ↦ rw on elim (Bool-cases (ltb (u32_max - step) v)) [
          | inl stop ↦ rw stop (here (leb→le v v_max on))
          | inr go ↦ rw go (
              axis_loop_keeps fuel (v + step) (body v s)
                (λ w t i. keep w t (IsVisited-later step v_max v w i)) (here (leb→le v v_max on)))
        ]
        | inr off ↦ rw off q
      ]

  axis_loop_hits :
      (fuel j v w : ℕ) (s : S)
      → v_max < v + fuel
      → 0 < step
      → v_max ≤ u32_max
      → w ≡ v + j * step
      → w ≤ v_max
      → ((u : ℕ) (t : S) → Q t → Q (body u t))
      → ((t : S) → Q (body w t))
      → Q (axis_loop fuel step v_max body v s)
  unfolding axis_loop
  axis_loop_hits zero j v w s h pos top e m keep make = absurd (grind arith)
  axis_loop_hits (suc fuel) zero v w s h pos top e m keep make =
      let hit : Q (body v s) = subst (λ u. Q (body u s)) (omega (arith, e)) (make s) in
      rw (le→leb v v_max (omega (arith, e))) elim (Bool-cases (ltb (u32_max - step) v)) [
        | inl stop ↦ rw stop hit
        | inr go ↦ rw go (axis_loop_keeps fuel (v + step) (body v s) (λ u t i q. keep u t q) hit)
      ]
  axis_loop_hits (suc fuel) (suc j) v w s h pos top e m keep make =
      let below : v + step ≤ w = grind arith in
      let more : ltb (u32_max - step) v ≡ false = ground arith in
      rw (le→leb v v_max (omega arith), more)
        (axis_loop_hits fuel j (v + step) w (body v s) (omega arith) pos top (grind arith) m keep
          make)

  -- What the body establishes at a visited point, and keeps, holds behind the walk.
  pub walk_axis_visits :
      (v w : ℕ) (s : S)
      → 0 < step
      → v_max ≤ u32_max
      → IsVisited step v_max v w
      → ((u : ℕ) (t : S) → Q t → Q (body u t))
      → ((t : S) → Q (body w t))
      → Q (walk_axis step v_max v body s)
  walk_axis_visits v w s pos top i keep make =
      axis_loop_hits (suc v_max) i.rounds v w s (omega arith) pos top i.place i.within keep make
