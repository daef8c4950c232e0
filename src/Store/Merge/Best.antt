-- ===== src/Store/Merge/Best.antt =====
-- About `ingest` of src/store.rs: which of the payloads that came for a key stays.
use interstellar_db.Base.{
  ℕ, ◌≤◌, ◌≡◌, refl, sym, ap, ◌∙◌, arith, List, [], ◌∷◌, true, false, Bool-cases, Option, none,
  some, Member, All, inl, inr, if◌then◌else◌, subst,
}
use interstellar_db.Base.ByteOrder.{bytes_eq, bytes_eq_self, eq_of_bytes_eq, bytes_leb_self}
use interstellar_db.Base.Bytes.{bytes_leb}
use interstellar_db.Merkle.Tree.{item_digest}
use interstellar_db.Merkle.Forest.Items.{Row}
use interstellar_db.Store.Entries.{find, IsAscending}
use interstellar_db.Store.Entries.Laws.{find-put, unequal}
use interstellar_db.Store.Ingest.{keeps}
use interstellar_db.Store.Merge.{changes, merge, merge_all}

-- All rows that came, the last first.
unfoldable pub arrivals : List Row → List Row → List Row
arrivals [] came = came
arrivals (w ∷ ws) came = arrivals ws (w ∷ came)

module _ (sha256 : List ℕ → List ℕ) where
  -- Each row that came for the key has a digest of at most the payload's.
  abbrev pub IsMost : List ℕ → List Row → List ℕ → Type 0
  IsMost k came v =
      (r : Row)
      → Member r came
      → r.key ≡ k
      → item_digest sha256 k r.payload ≤ item_digest sha256 k v

  -- What is stored under a key, by all the rows that came.
  abbrev pub IsBest : List ℕ → List Row → Option (List ℕ) → Type 0
  IsBest k came none = (r : Row) → Member r came → ¬ (r.key ≡ k)
  IsBest k came (some v) = Member (record { key = k; payload = v }) came × IsMost k came v

  module _ (k v : List ℕ) (came : List Row) where
    abbrev row : Row
    row = record { key = k; payload = v }

    IsMost-cons :
        (w : List ℕ)
        → item_digest sha256 k v ≤ item_digest sha256 k w
        → IsMost k came w
        → IsMost k (row ∷ came) w
    IsMost-cons w le most r (inl e) at =
        subst (λ (s : Row). item_digest sha256 k s.payload ≤ item_digest sha256 k w) (sym e) le
    IsMost-cons w le most r (inr m) at = most r m at

    keeps-le :
        (w : List ℕ) → keeps sha256 k v w ≡ true → item_digest sha256 k v ≤ item_digest sha256 k w
    unfolding keeps
    keeps-le w h = elim (Bool-cases (bytes_eq w v)) [
      | inl same ↦
          subst (λ (u : List ℕ). item_digest sha256 k v ≤ item_digest sha256 k u)
            (sym (eq_of_bytes_eq w v same)) (omega arith)
      | inr other ↦ ground (arith, other, h)
    ]

    loses-le :
        (w : List ℕ) → keeps sha256 k v w ≡ false → item_digest sha256 k w ≤ item_digest sha256 k v
    unfolding keeps
    loses-le w h = ground (arith, h)

    -- The row's own key.
    merge-IsBest_own :
        (o : Option (List ℕ))
        → IsBest k came o
        → IsBest k (row ∷ came) (if changes sha256 k v o then some v else o)
    unfolding changes
    merge-IsBest_own none best =
        (inl refl, IsMost-cons v (omega arith) (λ r m at. absurd (best r m at)))
    merge-IsBest_own (some w) (there, most) = elim (Bool-cases (keeps sha256 k v w)) [
      | inl keep ↦ rw keep (inr there, IsMost-cons w (keeps-le w keep) most)
      | inr lose ↦ rw lose (
        inl refl,
        IsMost-cons v (omega arith) (λ r m at. omega (arith, most r m at, loses-le w lose)),
      )
    ]

    -- Another key.
    merge-IsBest_other :
        (j : List ℕ) (o : Option (List ℕ)) → ¬ (j ≡ k) → IsBest j came o → IsBest j (row ∷ came) o
    merge-IsBest_other j none off best = none_of
      where
        none_of : IsBest j (row ∷ came) none
        none_of r (inl e) at = off (sym at ∙ ap (λ (s : Row). s.key) e)
        none_of r (inr m) at = best r m at
    merge-IsBest_other j (some w) off (there, most) = (inr there, others)
      where
        others : IsMost j (row ∷ came) w
        others r (inl e) at = absurd (off (sym at ∙ ap (λ (s : Row). s.key) e))
        others r (inr m) at = most r m at

  pub find-merge_own :
      (k v : List ℕ) (rows : List Row)
      → find k (merge sha256 k v rows)
        ≡ (if changes sha256 k v (find k rows) then some v else find k rows)
  unfolding merge
  find-merge_own k v rows = elim (Bool-cases (changes sha256 k v (find k rows))) [
    | inl change ↦ rw change (find-put k k v rows ∙ rw (bytes_eq_self k) refl)
    | inr keep ↦ rw keep refl
  ]

  pub find-merge_other :
      (j k v : List ℕ) (rows : List Row) → ¬ (j ≡ k) → find j (merge sha256 k v rows) ≡ find j rows
  unfolding merge
  find-merge_other j k v rows off = elim (Bool-cases (changes sha256 k v (find k rows))) [
    | inl change ↦ rw change (find-put j k v rows ∙ rw (unequal j k off) refl)
    | inr keep ↦ rw keep refl
  ]

  module _ (k v : List ℕ) (came rows : List Row) where
    merge-IsBest_at :
        (j : List ℕ)
        → bytes_eq j k ≡ true
        → IsBest j came (find j rows)
        → IsBest j (row k v came ∷ came) (find j (merge sha256 k v rows))
    merge-IsBest_at j here =
        subst
          (λ (i : List ℕ).
            IsBest i came (find i rows)
            → IsBest i (row k v came ∷ came) (find i (merge sha256 k v rows)))
          (sym (eq_of_bytes_eq j k here))
          (λ best.
            subst (IsBest k (row k v came ∷ came)) (sym (find-merge_own k v rows))
              (merge-IsBest_own k v came (find k rows) best))

    pub merge-IsBest :
        (j : List ℕ)
        → IsBest j came (find j rows)
        → IsBest j (record { key = k; payload = v } ∷ came) (find j (merge sha256 k v rows))
    merge-IsBest j best = elim (Bool-cases (bytes_eq j k)) [
      | inl here ↦ merge-IsBest_at j here best
      | inr off ↦
          let other : ¬ (j ≡ k) = λ e.
            ground
              (arith, off, bytes_eq_self k, subst (λ (i : List ℕ). bytes_eq i k ≡ false) e off) in
          subst (IsBest j (row k v came ∷ came)) (sym (find-merge_other j k v rows other))
            (merge-IsBest_other k v came j (find j rows) other best)
    ]

  pub behind :
      (s r : Row) (rows : List Row)
      → All (λ t. bytes_leb t.key s.key ≡ false) rows
      → Member r rows
      → ¬ (r.key ≡ s.key)
  behind s r [] all m at = m
  behind s r (t ∷ rows) all (inl e) at = ground (
    arith,
    bytes_leb_self s.key,
    subst (λ (i : List ℕ). bytes_leb i s.key ≡ false) (ap (λ (u : Row). u.key) (sym e) ∙ at) all.0,
  )
  behind s r (t ∷ rows) all (inr m) at = behind s r rows all.1 m at

  -- Ascending rows hold one payload for a key.
  pub find-IsBest : (j : List ℕ) (rows : List Row) → IsAscending rows → IsBest j rows (find j rows)
  unfolding find
  find-IsBest j [] up = λ r m at. m
  find-IsBest j (s ∷ rows) up = elim (Bool-cases (bytes_eq j s.key)) [
    | inl here ↦
        let same : j ≡ s.key = eq_of_bytes_eq j s.key here in
        rw here (
          inl (ap (λ (i : List ℕ). record { key = i; payload = s.payload }) same),
          λ r m at. elim m [
            | inl e ↦
                subst (λ (u : Row). item_digest sha256 j u.payload ≤ item_digest sha256 j s.payload)
                  (sym e) (omega arith)
            | inr later ↦ absurd (behind s r rows up.0 later (at ∙ same))
          ],
        )
    | inr off ↦
        let other : ¬ (j ≡ s.key) = λ e. ground (
          arith,
          off,
          bytes_eq_self s.key,
          subst (λ (i : List ℕ). bytes_eq i s.key ≡ false) e off,
        ) in
        rw off
          (merge-IsBest_other s.key s.payload rows j (find j rows) other (find-IsBest j rows up.1))
  ]

  pub merge_all-IsBest :
      (j : List ℕ) (ws came rows : List Row)
      → IsBest j came (find j rows)
      → IsBest j (arrivals ws came) (find j (merge_all sha256 ws rows))
  unfolding merge_all arrivals
  merge_all-IsBest j [] came rows best = best
  merge_all-IsBest j (w ∷ ws) came rows best =
      merge_all-IsBest j ws (w ∷ came) (merge sha256 w.key w.payload rows)
        (merge-IsBest w.key w.payload came rows j best)
