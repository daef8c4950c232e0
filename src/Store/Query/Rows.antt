-- ===== src/Store/Query/Rows.antt =====
-- About the scans of src/store.rs: the rows of a range, and those of 20-byte keys.
use interstellar_db.Base.{
  ℕ, ◌≡◌, ◌↔◌, ◌⊎◌, refl, sym, ap, ◌∙◌, arith, List, [], ◌∷◌, ◌++◌, Bool, true, false, not, ◌&&◌,
  Member, inl, inr, length, ◌==◌, ==_iff, subst, if◌then◌else◌,
}
use interstellar_db.Base.ByteOrder.{bytes_leb-end}
use interstellar_db.Base.Bytes.{bytes_leb}
use interstellar_db.Indexer.Ranges.{KeyRange}
use interstellar_db.Indexer.Ranges.Covers.{Covers}
use interstellar_db.Merkle.Forest.Items.{Row}
use interstellar_db.Store.Entries.{between, data_rows}
use interstellar_db.Store.Query.{end_excl}

-- A filter's step.
pub Member-if :
    {A : Type 0} (b : Bool) (s r : A) (rest : List A)
    → Member r (if b then s ∷ rest else rest) ↔ (((r ≡ s) × (b ≡ true)) ⊎ Member r rest)
Member-if true s r rest = (
  λ m. elim m [ inl e ↦ inl (e, refl) | inr n ↦ inr n ],
  λ m. elim m [ inl (e, t) ↦ inl e | inr n ↦ inr n ],
)
Member-if false s r rest =
    (λ m. inr m, λ m. elim m [ inl (e, t) ↦ absurd (ground (arith, t)) | inr n ↦ n ])

-- The test of a range with its end excluded, on a key.
within :
    (range : KeyRange) (key : List ℕ)
    → (bytes_leb range.start_key key && not (bytes_leb (end_excl range.end_key) key)) ≡ true
      ↔ Covers range key
unfolding end_excl
within range key =
    let e : bytes_leb (range.end_key ++ 0 ∷ []) key ≡ not (bytes_leb key range.end_key) =
      bytes_leb-end range.end_key key in
    (
      λ h. record { from_start = ground (arith, h, e); to_end = ground (arith, h, e) },
      λ c. ground (arith, c.from_start, c.to_end, e),
    )

module _ (r : Row) where
  -- A range with its end excluded holds what the inclusive range covers.
  pub between-Member_iff :
      (range : KeyRange) (rs : List Row)
      → Member r (between range.start_key (end_excl range.end_key) rs)
        ↔ (Member r rs × Covers range r.key)
  unfolding between
  between-Member_iff range [] = (λ m. absurd m, λ m. m.0)
  between-Member_iff range (s ∷ rs) =
      let test : Bool =
        bytes_leb range.start_key s.key && not (bytes_leb (end_excl range.end_key) s.key) in
      let rest = between-Member_iff range rs in
      let step = Member-if test s r (between range.start_key (end_excl range.end_key) rs) in
      (
        λ m. elim (step.0 m) [
          | inl (e, h) ↦
              (inl e, subst (λ (u : Row). Covers range u.key) (sym e) ((within range s.key).0 h))
          | inr n ↦ (inr (rest.0 n).0, (rest.0 n).1)
        ],
        λ (m, c). elim m [
          | inl e ↦
              step.1 (inl (e, (within range s.key).1 (subst (λ (u : Row). Covers range u.key) e c)))
          | inr n ↦ step.1 (inr (rest.1 (n, c)))
        ],
      )

  pub data_rows-Member_iff :
      (rs : List Row) → Member r (data_rows rs) ↔ (Member r rs × (length r.key ≡ 20))
  unfolding data_rows
  data_rows-Member_iff [] = (λ m. absurd m, λ m. m.0)
  data_rows-Member_iff (s ∷ rs) =
      let rest = data_rows-Member_iff rs in
      let step = Member-if (length s.key == 20) s r (data_rows rs) in
      (
        λ m. elim (step.0 m) [
          | inl (e, h) ↦ (inl e, ap (λ (u : Row). length u.key) e ∙ (==_iff (length s.key) 20).0 h)
          | inr n ↦ (inr (rest.0 n).0, (rest.0 n).1)
        ],
        λ (m, c). elim m [
          | inl e ↦
              step.1
                (inl (e, (==_iff (length s.key) 20).1 (sym (ap (λ (u : Row). length u.key) e) ∙ c)))
          | inr n ↦ step.1 (inr (rest.1 (n, c)))
        ],
      )
