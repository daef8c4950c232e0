-- ===== src/Store/Lockstep/Commit.antt =====
-- About src/store.rs: what the marking of epochs and the commit of a write do to the rows and to the
-- forest.
use interstellar_db.Base.{
  ℕ, ◌≡◌, ◌≢◌, ◌⊎◌, refl, ap, ◌∙◌, arith, List, [], ◌∷◌, ◌++◌, map, Bool-cases, All, inl, inr,
  length, ◌==◌,
}
use interstellar_db.Base.BTreeSet
use interstellar_db.Base.Bytes.{length-to_be_bytes}
use interstellar_db.Base.Result.{ok, err}
use interstellar_db.Float.{F64}
use interstellar_db.Merkle.Forest.{MerkleForest}
use interstellar_db.Merkle.Forest.Items.{Row}
use interstellar_db.Store.{
  Store, seal_key, mark, publish, begin_write_epoch, begin_loop, begin_write_epochs,
  end_write_epochs,
}
use interstellar_db.Store.Entries.{put, data_rows, IsAscending}
use interstellar_db.Store.Entries.Laws.{data_rows-put, data_rows-erase_other}
use interstellar_db.Store.Entries.Order.{put-IsAscending}
use interstellar_db.Store.Ingest.{commit_marked, publish_all}
use interstellar_db.Store.KeyValue.{Kv, IsKv, Write, set, delete, write}

-- Rows that go in one after the other.
unfoldable pub put_all : List Row → List Row → List Row
put_all [] rs = rs
put_all (w ∷ ws) rs = put_all ws (put w.key w.payload rs)

pub put_all-IsAscending : (ws rs : List Row) → IsAscending rs → IsAscending (put_all ws rs)
unfolding put_all
put_all-IsAscending [] rs up = up
put_all-IsAscending (w ∷ ws) rs up =
    put_all-IsAscending ws (put w.key w.payload rs) (put-IsAscending w.key w.payload rs up)

data_rows-write :
    (ws rs : List Row)
    → All (λ w. length w.key ≡ 20) ws
    → IsAscending rs
    → data_rows (write (map (λ (w : Row). set w.key w.payload) ws) rs) ≡ put_all ws (data_rows rs)
unfolding put_all write
data_rows-write [] rs h up = refl
data_rows-write (w ∷ ws) rs h up =
    data_rows-write ws (put w.key w.payload rs) h.1 (put-IsAscending w.key w.payload rs up)
    ∙ ap (put_all ws) (data_rows-put w.key w.payload rs h.0 up)

seal_key-other : (e : ℕ) → length (seal_key e) ≢ 20
unfolding seal_key
seal_key-other e h = ground (arith, h, length-to_be_bytes 4 e)

module _ (f : F64) (kv : Kv) (entries : kv.Tree → List Row) (is_kv : IsKv kv entries) where
  -- A step that changes neither the rows nor the forest.
  pub record SameRows (s t : Store f kv) : Type 0 where
    pub merkle : t.merkle ≡ s.merkle
    pub indexer : t.indexer ≡ s.indexer
    pub rows : data_rows (entries t.tree) ≡ data_rows (entries s.tree)

  pub SameRows-trans : (s t u : Store f kv) → SameRows s t → SameRows t u → SameRows s u
  SameRows-trans s t u a b = record {
    merkle = b.merkle ∙ a.merkle;
    indexer = b.indexer ∙ a.indexer;
    rows = b.rows ∙ a.rows;
  }

  pub SameRows-refl : (s : Store f kv) → SameRows s s
  SameRows-refl s = record { merkle = refl; indexer = refl; rows = refl }

  -- A commit that touches a seal record only.
  unsealed_rows :
      (t : kv.Tree) (e : ℕ)
      → data_rows (entries (kv.commit t (delete (seal_key e) ∷ [])).0) ≡ data_rows (entries t)
  unfolding write
  unsealed_rows t e = elim (Bool-cases (kv.commit t (delete (seal_key e) ∷ [])).1) [
    | inl landed ↦
        ap data_rows (is_kv.commit-true t _ landed)
        ∙ data_rows-erase_other (seal_key e) (entries t) (seal_key-other e)
    | inr failed ↦ ap data_rows (is_kv.commit-false t _ failed)
  ]

  begin_write_epoch-SameRows : (s : Store f kv) (e : ℕ) → SameRows s (begin_write_epoch f kv s e).0
  unfolding begin_write_epoch mark
  begin_write_epoch-SameRows s e = elim (Bool-cases (BTreeSet.contains e s.seal.sealed)) [
    | inl sealed ↦ elim (Bool-cases (kv.commit s.tree (delete (seal_key e) ∷ [])).1) [
      | inl landed ↦
          rw (sealed, landed)
            (record { merkle = refl; indexer = refl; rows = unsealed_rows s.tree e })
      | inr failed ↦
          rw (sealed, failed)
            (record { merkle = refl; indexer = refl; rows = unsealed_rows s.tree e })
    ]
    | inr open_epoch ↦ rw open_epoch (record { merkle = refl; indexer = refl; rows = refl })
  ]

  begin_write_epoch-Ended :
      (s : Store f kv) (e : ℕ)
      → (begin_write_epoch f kv s e).1 ≡ ok tt ⊎ (begin_write_epoch f kv s e).1 ≡ err
  unfolding begin_write_epoch
  begin_write_epoch-Ended s e = elim (Bool-cases (BTreeSet.contains e s.seal.sealed)) [
    | inl sealed ↦ elim (Bool-cases (kv.commit s.tree (delete (seal_key e) ∷ [])).1) [
      | inl landed ↦ rw (sealed, landed) (inl refl)
      | inr failed ↦ rw (sealed, failed) (inr refl)
    ]
    | inr open_epoch ↦ rw open_epoch (inl refl)
  ]

  begin_loop-SameRows :
      (s : Store f kv) (marked es : List ℕ) → SameRows s (begin_loop f kv s marked es).0
  unfolding begin_loop end_write_epochs
  begin_loop-SameRows s marked [] = SameRows-refl s
  begin_loop-SameRows s marked (e ∷ es) =
      let next = (begin_write_epoch f kv s e).0 in
      let step : SameRows s next = begin_write_epoch-SameRows s e in
      elim (begin_write_epoch-Ended s e) [
        | inl good ↦
            rw (good, begin_loop)
              (SameRows-trans s next _ step (begin_loop-SameRows next (marked ++ e ∷ []) es))
        | inr bad ↦
            rw (bad, begin_loop)
              (record { merkle = step.merkle; indexer = step.indexer; rows = step.rows })
      ]

  begin_loop-Ended :
      (s : Store f kv) (marked es : List ℕ)
      → (begin_loop f kv s marked es).1 ≡ ok tt ⊎ (begin_loop f kv s marked es).1 ≡ err
  unfolding begin_loop
  begin_loop-Ended s marked [] = inl refl
  begin_loop-Ended s marked (e ∷ es) = elim (begin_write_epoch-Ended s e) [
    | inl good ↦
        rw (good, begin_loop)
          (begin_loop-Ended (begin_write_epoch f kv s e).0 (marked ++ e ∷ []) es)
    | inr bad ↦ rw (bad, begin_loop) (inr refl)
  ]

  pub publish-tree : (s : Store f kv) (k v : List ℕ) → (publish f kv s k v).tree ≡ s.tree
  unfolding publish
  publish-tree s k v = elim (Bool-cases (s.receivers == 0)) [
    | inl deaf ↦ rw deaf refl
    | inr heard ↦ rw heard refl
  ]

  pub publish-SameRows : (s : Store f kv) (k v : List ℕ) → SameRows s (publish f kv s k v)
  unfolding publish
  publish-SameRows s k v = elim (Bool-cases (s.receivers == 0)) [
    | inl deaf ↦ rw deaf (SameRows-refl s)
    | inr heard ↦ rw heard (record { merkle = refl; indexer = refl; rows = refl })
  ]

  pub publish_all-tree : (s : Store f kv) (ws : List Row) → (publish_all f kv s ws).tree ≡ s.tree
  unfolding publish_all
  publish_all-tree s [] = refl
  publish_all-tree s (w ∷ ws) =
      publish_all-tree (publish f kv s w.key w.payload) ws ∙ publish-tree s w.key w.payload

  pub publish_all-SameRows : (s : Store f kv) (ws : List Row) → SameRows s (publish_all f kv s ws)
  unfolding publish_all
  publish_all-SameRows s [] = SameRows-refl s
  publish_all-SameRows s (w ∷ ws) =
      SameRows-trans s (publish f kv s w.key w.payload) _ (publish-SameRows s w.key w.payload)
        (publish_all-SameRows (publish f kv s w.key w.payload) ws)

  -- A write that lands: the rows are in, and the forest is changed.
  pub record HasLanded (s t : Store f kv) (change : MerkleForest → MerkleForest) (ws : List Row)
      : Type 0 where
    pub merkle : t.merkle ≡ change s.merkle
    pub indexer : t.indexer ≡ s.indexer
    pub rows : data_rows (entries t.tree) ≡ put_all ws (data_rows (entries s.tree))

  -- A fold that leaves the tree and changes the forest.
  pub record IsFold (landed : Store f kv → Store f kv) (change : MerkleForest → MerkleForest)
      : Type 0 where
    pub tree : (s : Store f kv) → (landed s).tree ≡ s.tree
    pub merkle : (s : Store f kv) → (landed s).merkle ≡ change s.merkle
    pub indexer : (s : Store f kv) → (landed s).indexer ≡ s.indexer

  module _ (epochs : List ℕ) (ws : List Row) (wide : All (λ w. length w.key ≡ 20) ws)
      (landed : Store f kv → Store f kv) (change : MerkleForest → MerkleForest)
      (folds : IsFold landed change) where
    abbrev sets : List Write
    sets = map (λ (w : Row). set w.key w.payload) ws

    pub commit_marked-cases :
        (s : Store f kv)
        → ((commit_marked f kv s epochs sets landed).1 ≡ ok tt
            × HasLanded s (commit_marked f kv s epochs sets landed).0 change ws)
          ⊎ ((commit_marked f kv s epochs sets landed).1 ≡ err
              × SameRows s (commit_marked f kv s epochs sets landed).0)
    unfolding commit_marked begin_write_epochs end_write_epochs
    commit_marked-cases s =
        let marked = (begin_loop f kv s [] epochs).0 in
        let start : SameRows s marked = begin_loop-SameRows s [] epochs in
        elim (begin_loop-Ended s [] epochs) [
          | inr bad ↦ rw (bad, commit_marked) (inr (refl, start))
          | inl good ↦ elim (Bool-cases (kv.commit marked.tree sets).1) [
            | inr failed ↦
                rw (good, failed, commit_marked)
                  (inr (
                    refl,
                    record {
                      merkle = start.merkle;
                      indexer = start.indexer;
                      rows = ap data_rows (is_kv.commit-false marked.tree sets failed) ∙ start.rows;
                    },
                  ))
            | inl done ↦
                let next = record marked { tree = (kv.commit marked.tree sets).0 } in
                rw (good, done, commit_marked)
                  (inl (
                    refl,
                    record {
                      merkle = folds.merkle next ∙ ap change start.merkle;
                      indexer = folds.indexer next ∙ start.indexer;
                      rows =
                          ap (λ (t : kv.Tree). data_rows (entries t)) (folds.tree next)
                          ∙ ap data_rows (is_kv.commit-true marked.tree sets done)
                          ∙ data_rows-write ws (entries marked.tree) wide
                              (is_kv.entries-IsAscending marked.tree)
                          ∙ ap (put_all ws) start.rows;
                    },
                  ))
          ]
        ]
