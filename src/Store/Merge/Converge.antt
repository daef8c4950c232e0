-- ===== src/Store/Merge/Converge.antt =====
-- About `ingest` of src/store.rs: replicas that take the same rows in different orders.
use interstellar_db.Base.{
  ℕ, ◌≡◌, ◌↔◌, ◌⊎◌, refl, sym, ap, ap₂, ◌∙◌, arith, List, [], ◌∷◌, ◌++◌, true, false, Bool-cases,
  Option, none, some, Member, Member-append_left, Member-append_right, Member-append_inv, inl, inr,
  subst,
}
use interstellar_db.Base.ByteOrder.{bytes_eq, bytes_eq_self, eq_of_bytes_eq}
use interstellar_db.Base.Bytes.{bytes_leb}
use interstellar_db.Merkle.Tree.{item_digest}
use interstellar_db.Merkle.Forest.Items.{Row}
use interstellar_db.Store.Entries.{find, IsAscending}
use interstellar_db.Store.Entries.Laws.{below, equal, above, compare_keys, absent, All-before}
use interstellar_db.Store.Entries.Order.{put-IsAscending}
use interstellar_db.Store.Merge.{changes, merge, merge_all}
use interstellar_db.Store.Merge.Best.{IsBest, arrivals, merge_all-IsBest, find-IsBest}

-- Ascending rows are what a search finds in them.
find-none : (r : Row) (rs : List Row) → find r.key (r ∷ rs) ≡ none → ⊥
unfolding find
find-none r rs h = ground (arith, h, bytes_eq_self r.key)

find_head : (r : Row) (rs : List Row) → find r.key (r ∷ rs) ≡ some r.payload
unfolding find
find_head r rs = rw (bytes_eq_self r.key) refl

find_tail :
    (r : Row) (rs : List Row) (j : List ℕ) → bytes_eq j r.key ≡ false → find j (r ∷ rs) ≡ find j rs
unfolding find
find_tail r rs j h = rw h refl

-- A key that comes first in one list comes first in the other.
first_missing :
    (r s : Row) (rs ss : List Row)
    → ((j : List ℕ) → find j (r ∷ rs) ≡ find j (s ∷ ss))
    → IsAscending (s ∷ ss)
    → bytes_leb s.key r.key ≡ false
    → bytes_leb r.key s.key ≡ true
    → ⊥
first_missing r s rs ss same up lt le =
    find-none r rs (same r.key ∙ absent r.key (s ∷ ss) (lt, All-before r.key s.key ss le up.0))

same_payload :
    (r s : Row) (rs ss : List Row)
    → r.key ≡ s.key
    → find r.key (r ∷ rs) ≡ find r.key (s ∷ ss)
    → r.payload ≡ s.payload
same_payload r s rs ss key same =
    ground (
      arith,
      sym (find_head r rs) ∙ same ∙ ap (λ (j : List ℕ). find j (s ∷ ss)) key ∙ find_head s ss,
    )

gone :
    (r : Row) (rs : List Row) (j : List ℕ)
    → IsAscending (r ∷ rs)
    → bytes_eq j r.key ≡ true
    → find j rs ≡ none
gone r rs j up at =
    subst (λ (i : List ℕ). find i rs ≡ none) (sym (eq_of_bytes_eq j r.key at))
      (absent r.key rs up.0)

same_tail :
    (r s : Row) (rs ss : List Row)
    → IsAscending (r ∷ rs)
    → IsAscending (s ∷ ss)
    → r.key ≡ s.key
    → ((j : List ℕ) → find j (r ∷ rs) ≡ find j (s ∷ ss))
    → (j : List ℕ) → find j rs ≡ find j ss
same_tail r s rs ss up up' key same j = elim (Bool-cases (bytes_eq j r.key)) [
  | inl at ↦ gone r rs j up at ∙ sym (gone s ss j up' (ap (bytes_eq j) (sym key) ∙ at))
  | inr off ↦
      sym (find_tail r rs j off) ∙ same j ∙ find_tail s ss j (ap (bytes_eq j) (sym key) ∙ off)
]

pub find-ext :
    (rs ss : List Row)
    → IsAscending rs
    → IsAscending ss
    → ((j : List ℕ) → find j rs ≡ find j ss)
    → rs ≡ ss
unfolding find
find-ext [] [] up up' same = refl
find-ext [] (s ∷ ss) up up' same = absurd (find-none s ss (sym (same s.key)))
find-ext (r ∷ rs) [] up up' same = absurd (find-none r rs (same r.key))
find-ext (r ∷ rs) (s ∷ ss) up up' same = elim (compare_keys r.key s.key) [
  | below le lt ↦ absurd (first_missing r s rs ss same up' lt le)
  | above gt ge ↦ absurd (first_missing s r ss rs (λ j. sym (same j)) up gt ge)
  | equal key le ge ↦
      ap₂ (λ (t : Row) (ts : List Row). t ∷ ts)
        (ap₂ (λ (k v : List ℕ). record { key = k; payload = v }) key
          (same_payload r s rs ss key (same r.key)))
        (find-ext rs ss up.1 up'.1 (same_tail r s rs ss up up' key same))
]

module _ (sha256 : List ℕ → List ℕ) where
  -- No two payloads that came for one key have one digest.
  abbrev pub IsCollisionFree : List Row → Type 0
  IsCollisionFree came =
      (r s : Row)
      → Member r came
      → Member s came
      → r.key ≡ s.key
      → item_digest sha256 r.key r.payload ≡ item_digest sha256 s.key s.payload
      → r.payload ≡ s.payload

  -- What is stored under a key is settled by the rows that came.
  IsBest-unique :
      (j : List ℕ) (came : List Row) (o o' : Option (List ℕ))
      → IsCollisionFree came
      → IsBest sha256 j came o
      → IsBest sha256 j came o'
      → o ≡ o'
  IsBest-unique j came none none free b b' = refl
  IsBest-unique j came none (some w) free b b' = absurd (b _ b'.0 refl)
  IsBest-unique j came (some v) none free b b' = absurd (b' _ b.0 refl)
  IsBest-unique j came (some v) (some w) free b b' =
      ap some (free _ _ b.0 b'.0 refl (omega (arith, b.1 _ b'.0 refl, b'.1 _ b.0 refl)))

  IsBest-same :
      (j : List ℕ) (came came' : List Row) (o : Option (List ℕ))
      → ((r : Row) → Member r came ↔ Member r came')
      → IsBest sha256 j came o
      → IsBest sha256 j came' o
  IsBest-same j came came' none same best = λ r m at. best r ((same r).1 m) at
  IsBest-same j came came' (some v) same best =
      ((same _).0 best.0, λ r m at. best.1 r ((same r).1 m) at)

  arrivals-Member_iff :
      (ws came : List Row) (r : Row) → Member r (arrivals ws came) ↔ Member r (ws ++ came)
  unfolding arrivals
  arrivals-Member_iff [] came r = (λ m. m, λ m. m)
  arrivals-Member_iff (w ∷ ws) came r = (
    λ m. from (Member-append_inv r ws (w ∷ came) ((arrivals-Member_iff ws (w ∷ came) r).0 m)),
    λ m. (arrivals-Member_iff ws (w ∷ came) r).1 (into m),
  )
    where
      from : Member r ws ⊎ Member r (w ∷ came) → Member r (w ∷ ws ++ came)
      from (inl m) = inr (Member-append_left r ws came m)
      from (inr (inl e)) = inl e
      from (inr (inr m)) = inr (Member-append_right r ws came m)

      split : Member r ws ⊎ Member r came → Member r (ws ++ w ∷ came)
      split (inl m) = Member-append_left r ws (w ∷ came) m
      split (inr m) = Member-append_right r ws (w ∷ came) (inr m)

      into : Member r (w ∷ ws ++ came) → Member r (ws ++ w ∷ came)
      into (inl e) = Member-append_right r ws (w ∷ came) (inl e)
      into (inr m) = split (Member-append_inv r ws came m)

  merge_all-IsAscending :
      (ws rows : List Row) → IsAscending rows → IsAscending (merge_all sha256 ws rows)
  unfolding merge_all merge
  merge_all-IsAscending [] rows up = up
  merge_all-IsAscending (w ∷ ws) rows up =
      merge_all-IsAscending ws (merge sha256 w.key w.payload rows)
        (elim (Bool-cases (changes sha256 w.key w.payload (find w.key rows))) [
          | inl change ↦ rw change (put-IsAscending w.key w.payload rows up)
          | inr keep ↦ rw keep up
        ])

  -- What is stored in the end: for each key the payload of the greatest digest, of those that came and
  -- those that were there.
  pub merge_all-IsBest_all :
      (ws rows : List Row) (j : List ℕ)
      → IsAscending rows
      → IsBest sha256 j (ws ++ rows) (find j (merge_all sha256 ws rows))
  merge_all-IsBest_all ws rows j up =
      IsBest-same j (arrivals ws rows) (ws ++ rows) (find j (merge_all sha256 ws rows))
        (arrivals-Member_iff ws rows)
        (merge_all-IsBest sha256 j ws rows rows (find-IsBest sha256 j rows up))

  -- Two replicas with ascending rows that merge rows in some order end with the same rows if what
  -- each held and merged is the same set of rows, of which no two of one key with different
  -- payloads have the same digest.
  pub merge_all-converge :
      (ws vs rows rows' : List Row)
      → IsAscending rows
      → IsAscending rows'
      → ((r : Row) → Member r (ws ++ rows) ↔ Member r (vs ++ rows'))
      → IsCollisionFree (vs ++ rows')
      → merge_all sha256 ws rows ≡ merge_all sha256 vs rows'
  merge_all-converge ws vs rows rows' up up' same free =
      find-ext (merge_all sha256 ws rows) (merge_all sha256 vs rows')
        (merge_all-IsAscending ws rows up) (merge_all-IsAscending vs rows' up')
        (λ j.
          IsBest-unique j (vs ++ rows') (find j (merge_all sha256 ws rows))
            (find j (merge_all sha256 vs rows')) free
            (IsBest-same j (ws ++ rows) (vs ++ rows') (find j (merge_all sha256 ws rows)) same
              (merge_all-IsBest_all ws rows j up))
            (merge_all-IsBest_all vs rows' j up'))
