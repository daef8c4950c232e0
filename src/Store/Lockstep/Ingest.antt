-- ===== src/Store/Lockstep/Ingest.antt =====
-- About `ingest` of src/store.rs: the row it merges, and the forest.
use interstellar_db.Base.{
  ℕ, ◌≡◌, ◌⊎◌, refl, sym, ap, ◌∙◌, List, [], ◌∷◌, Bool, true, false, Bool-cases, Option,
  Option-cases, none, some, inl, inr, length, subst,
}
use interstellar_db.Base.Result.{Result, ok, err, map_ok}
use interstellar_db.Float.{F64}
use interstellar_db.Merkle.Forest.{MerkleForest}
use interstellar_db.Merkle.Forest.Items.{Row}
use interstellar_db.Store.{Store, key_epoch, publish}
use interstellar_db.Store.Entries.{find, put, data_rows, IsAscending}
use interstellar_db.Store.Entries.Laws.{find-data_rows, data_rows-IsAscending}
use interstellar_db.Store.Ingest.{replace_item, keeps, ingest, ingest_changed}
use interstellar_db.Store.KeyValue.{Kv, IsKv}
use interstellar_db.Store.Lockstep.{IsSummed, replace_item-IsSummed}
use interstellar_db.Store.Lockstep.Commit.{
  SameRows, SameRows-refl, HasLanded, IsFold, put_all, commit_marked-cases, publish-tree,
  publish-SameRows,
}
use interstellar_db.Store.Merge.{changes, merge}

module _ (f : F64) (kv : Kv) (sha256 : List ℕ → List ℕ) (entries : kv.Tree → List Row)
    (is_kv : IsKv kv entries) where
  -- The rows of a store.
  abbrev pub rows_of : Store f kv → List Row
  rows_of s = data_rows (entries s.tree)

  abbrev pub InLockstep : Store f kv → Type 0
  InLockstep s = IsSummed sha256 s.merkle (rows_of s)

  pub rows_of-IsAscending : (s : Store f kv) → IsAscending (rows_of s)
  rows_of-IsAscending s = data_rows-IsAscending (entries s.tree) (is_kv.entries-IsAscending s.tree)

  pub SameRows-InLockstep :
      (s t : Store f kv) → SameRows f kv entries is_kv s t → InLockstep s → InLockstep t
  SameRows-InLockstep s t same =
      subst
        (λ (m : MerkleForest). IsSummed sha256 s.merkle (rows_of s) → IsSummed sha256 m (rows_of t))
        (sym same.merkle)
        (subst
          (λ (rs : List Row). IsSummed sha256 s.merkle (rows_of s) → IsSummed sha256 s.merkle rs)
          (sym same.rows) (λ summed. summed))

  module _ (key payload : List ℕ) (wide : length key ≡ 20) where
    abbrev item : Row
    item = record { key = key; payload = payload }

    -- The fold that a write of one row makes, with its event.
    abbrev pub fold_one : (MerkleForest → MerkleForest) → Store f kv → Store f kv
    fold_one change s = publish f kv (record s { merkle = change s.merkle }) key payload

    pub fold_one-IsFold :
        (change : MerkleForest → MerkleForest) → IsFold f kv entries is_kv (fold_one change) change
    fold_one-IsFold change =
        let next = λ (s : Store f kv). record s { merkle = change s.merkle } in
        record {
          tree = λ s. publish-tree f kv entries is_kv (next s) key payload;
          merkle = λ s. (publish-SameRows f kv entries is_kv (next s) key payload).merkle;
          indexer = λ s. (publish-SameRows f kv entries is_kv (next s) key payload).indexer;
        }

    -- Of `ingest`: an error changes no row; else the row is merged, and the value says whether it
    -- changed the rows.
    abbrev pub Merges : Store f kv → Store f kv × Result Bool → Type 0
    Merges s p =
        (p.1 ≡ err × SameRows f kv entries is_kv s p.0)
        ⊎ ((p.1 ≡ ok (changes sha256 key payload (find key (rows_of s))))
            × (rows_of p.0 ≡ merge sha256 key payload (rows_of s))
            × (InLockstep s → InLockstep p.0))

    landed-Merges :
        (s next : Store f kv) (o : Option (List ℕ))
        → o ≡ find key (rows_of s)
        → changes sha256 key payload o ≡ true
        → HasLanded f kv entries is_kv s next (replace_item sha256 key payload o) (item ∷ [])
        → (ok true ≡ ok (changes sha256 key payload (find key (rows_of s))))
          × (rows_of next ≡ merge sha256 key payload (rows_of s))
          × (InLockstep s → InLockstep next)
    unfolding merge put_all
    landed-Merges s next o at change landed =
        let changed : changes sha256 key payload (find key (rows_of s)) ≡ true =
          subst (λ (c : Option (List ℕ)). changes sha256 key payload c ≡ true) at change in
        (
          ap ok (sym changed),
          landed.rows ∙ rw changed refl,
          λ summed.
              subst (λ (m : MerkleForest). IsSummed sha256 m (rows_of next)) (sym landed.merkle)
                (subst
                  (λ (rs : List Row).
                    IsSummed sha256 (replace_item sha256 key payload o s.merkle) rs)
                  (sym landed.rows)
                  (subst
                    (λ (c : Option (List ℕ)).
                      IsSummed sha256 (replace_item sha256 key payload c s.merkle)
                        (put key payload (rows_of s)))
                    (sym at)
                    (replace_item-IsSummed sha256 s.merkle (rows_of s) (rows_of-IsAscending s)
                      summed key payload))),
        )

    ingest_changed-Merges :
        (s : Store f kv) (o : Option (List ℕ))
        → o ≡ find key (rows_of s)
        → changes sha256 key payload o ≡ true
        → Merges s (ingest_changed f kv sha256 s key payload o)
    unfolding ingest_changed map_ok
    ingest_changed-Merges s o at change =
        elim (commit_marked-cases f kv entries is_kv (key_epoch key ∷ []) (item ∷ []) (wide, tt)
          (fold_one (replace_item sha256 key payload o)) (replace_item sha256 key payload o)
          (fold_one-IsFold (replace_item sha256 key payload o)) s) [
            | inl done ↦
                let all = landed-Merges s _ o at change done.1 in
                inr (ap (map_ok (λ _. true)) done.0 ∙ all.0, all.1, all.2)
            | inr failed ↦ inl (ap (map_ok (λ _. true)) failed.0, failed.1)
          ]

    -- What is stored under a key of 20 bytes.
    stored :
        (s : Store f kv) (o : Option (List ℕ))
        → kv.get s.tree key ≡ some o
        → o ≡ find key (rows_of s)
    stored s o got =
        is_kv.get-some s.tree key o got ∙ sym (find-data_rows key (entries s.tree) wide)

    kept-Merges :
        (s : Store f kv) (current : List ℕ)
        → some current ≡ find key (rows_of s)
        → keeps sha256 key payload current ≡ true
        → Merges s (s, ok false)
    unfolding merge changes
    kept-Merges s current at keep =
        let same : changes sha256 key payload (find key (rows_of s)) ≡ false =
          subst (λ (c : Option (List ℕ)). changes sha256 key payload c ≡ false) at (rw keep refl) in
        inr (ap ok (sym same), rw same refl, λ summed. summed)

    -- Over a key-value tree whose transactions happen whole or not at all, `ingest` of a key of 20
    -- bytes either fails, with the rows and the forest as they were, or merges the row into the
    -- rows (the payload of the greater digest stays), says whether that changed them, and leaves
    -- the forest in step with the rows if it was: at each node the exclusive or of the digests of
    -- the rows in it.
    pub ingest-Merges : (s : Store f kv) → Merges s (ingest f kv sha256 s key payload)
    unfolding ingest changes
    ingest-Merges s = elim (Option-cases (kv.get s.tree key)) [
      | inl failed ↦ rw (failed, ingest) (inl (refl, SameRows-refl f kv entries is_kv s))
      | inr (some current, got) ↦ elim (Bool-cases (keeps sha256 key payload current)) [
        | inl keep ↦
            rw (got, keep, ingest) (kept-Merges s current (stored s (some current) got) keep)
        | inr lose ↦
            rw (got, lose, ingest)
              (ingest_changed-Merges s (some current) (stored s (some current) got) (rw lose refl))
      ]
      | inr (none, got) ↦ rw (got, ingest) (ingest_changed-Merges s none (stored s none got) refl)
    ]

    -- The forest stays in step, whether the write lands or fails.
    pub ingest-InLockstep :
        (s : Store f kv) → InLockstep s → InLockstep (ingest f kv sha256 s key payload).0
    ingest-InLockstep s summed = elim (ingest-Merges s) [
      | inl failed ↦ SameRows-InLockstep s _ failed.1 summed
      | inr done ↦ done.2 summed
    ]
