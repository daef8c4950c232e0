-- ===== src/Store/Sealing/Writers.antt =====
-- About src/store.rs: the writers, and the seal records on disk.
use interstellar_db.Base.{
  ℕ, ◌≡◌, ◌≢◌, refl, sym, ap, ◌∙◌, arith, List, [], ◌∷◌, map, true, Bool-cases, Option,
  Option-cases, none, some, inl, inr, length, ◌==◌, ==_ne, subst, All, Member,
}
use interstellar_db.Base.BTreeMap.{get, alter, get-alter}
use interstellar_db.Base.BTreeSet
use interstellar_db.Base.Result.{Result-cases}
use interstellar_db.Float.{F64}
use interstellar_db.Merkle.Forest.{MerkleForest, insert, remove}
use interstellar_db.Merkle.Forest.Items.{Row}
use interstellar_db.Merkle.Seal.{serialize_epoch}
use interstellar_db.Merkle.Tree.{EpochTree, split_key}
use interstellar_db.Store.Lockstep.Commit.{publish-tree, publish-SameRows}
use interstellar_db.Store.Lockstep.Writes.{length-record_row}
use interstellar_db.Store.{
  Store, SealState, seal_key, publish, key_epoch, begin_loop, begin_write_epochs, end_write_epochs,
}
use interstellar_db.Store.Entries.{find, put}
use interstellar_db.Store.Entries.Laws.{find-put, unequal}
use interstellar_db.Store.Ingest.{
  commit_marked, replace_item, keeps, ingest, ingest_changed, Record, record_row, store,
}
use interstellar_db.Store.KeyValue.{Kv, IsKv, Write, set, write}
use interstellar_db.Store.Sealing.Matches.{IsSealed, length-seal_key}
use interstellar_db.Store.Sealing.Unseal.{Unsealed, IsSealed-of_same, begin_loop-Begun}

module _ (f : F64) (kv : Kv) (entries : kv.Tree → List Row) (is_kv : IsKv kv entries) where
  -- Rows leave the seal records as they are.
  stored-write :
      (ws rs : List Row) (e : ℕ)
      → All (λ w. length w.key ≡ 20) ws
      → find (seal_key e) (write (map (λ (w : Row). set w.key w.payload) ws) rs)
        ≡ find (seal_key e) rs
  unfolding write
  stored-write [] rs e wide = refl
  stored-write (w ∷ ws) rs e wide =
      let other : seal_key e ≢ w.key =
        λ same. omega (arith, length-seal_key e, wide.0, ap (λ (k : List ℕ). length k) same) in
      stored-write ws (put w.key w.payload rs) e wide.1
      ∙ find-put (seal_key e) w.key w.payload rs
      ∙ rw (unequal (seal_key e) w.key other) refl

  -- A fold that leaves the tree on disk and the bookkeeping, and the trees of other epochs.
  pub record IsLocal (es : List ℕ) (landed : Store f kv → Store f kv) : Type 0 where
    pub tree : (s : Store f kv) → (landed s).tree ≡ s.tree
    pub seal : (s : Store f kv) → (landed s).seal ≡ s.seal
    pub others :
        (s : Store f kv) (e : ℕ)
        → ¬ Member e es
        → serialize_epoch (landed s).merkle e ≡ serialize_epoch s.merkle e

  not_among :
      (s : Store f kv) (es : List ℕ) (e : ℕ)
      → All (Unsealed f kv entries is_kv s) es
      → BTreeSet.contains e s.seal.sealed ≡ true
      → ¬ Member e es
  not_among s [] e all inside m = m
  not_among s (a ∷ es) e all inside (inl same) =
      ground (arith, subst (λ (n : ℕ). BTreeSet.contains n s.seal.sealed ≡ true) same inside, all.0)
  not_among s (a ∷ es) e all inside (inr m) = not_among s es e all.1 inside m

  module _ (es : List ℕ) (ws : List Row) (wide : All (λ w. length w.key ≡ 20) ws)
      (landed : Store f kv → Store f kv) (local : IsLocal es landed) where
    abbrev sets : List Write
    sets = map (λ (w : Row). set w.key w.payload) ws

    landed-IsSealed :
        (s : Store f kv)
        → IsSealed f kv entries is_kv s
        → All (Unsealed f kv entries is_kv s) es
        → (kv.commit s.tree sets).1 ≡ true
        → IsSealed f kv entries is_kv (landed (record s { tree = (kv.commit s.tree sets).0 }))
    landed-IsSealed s h unsealed done =
        let next = record s { tree = (kv.commit s.tree sets).0 } in
        IsSealed-of_same f kv entries is_kv s (landed next)
          (ap (λ (b : SealState). b.sealed) (local.seal next))
          (λ e.
            ap (λ (t : kv.Tree). find (seal_key e) (entries t)) (local.tree next)
            ∙ ap (find (seal_key e)) (is_kv.commit-true s.tree sets done)
            ∙ stored-write ws (entries s.tree) e wide)
          (λ e inside. local.others next e (not_among s es e unsealed inside)) h

    pub commit_marked-IsSealed :
        (s : Store f kv)
        → IsSealed f kv entries is_kv s
        → IsSealed f kv entries is_kv (commit_marked f kv s es sets landed).0
    unfolding commit_marked begin_write_epochs end_write_epochs
    commit_marked-IsSealed s h =
        let marked = (begin_loop f kv s [] es).0 in
        let start = begin_loop-Begun f kv entries is_kv es s [] h in
        elim (Result-cases (begin_loop f kv s [] es).1) [
          | inr (inl bad) ↦ rw (bad, commit_marked) start.steps.matches
          | inr (inr bad) ↦ rw (bad, commit_marked) start.steps.matches
          | inl (u, good) ↦ elim (Bool-cases (kv.commit marked.tree sets).1) [
            | inr failed ↦
                rw (good, failed, commit_marked)
                  (IsSealed-of_same f kv entries is_kv marked _ refl
                    (λ e. ap (find (seal_key e)) (is_kv.commit-false marked.tree sets failed))
                    (λ e _. refl) start.steps.matches)
            | inl done ↦
                rw (good, done, commit_marked)
                  (IsSealed-of_same f kv entries is_kv
                    (landed (record marked { tree = (kv.commit marked.tree sets).0 })) _ refl
                    (λ e. refl) (λ e _. refl)
                    (landed-IsSealed marked start.steps.matches (start.unsealed good) done))
          ]
        ]

-- The tree of another epoch is not touched.
serialize_epoch-alter :
    (m : MerkleForest) (k e : ℕ) (g : Option EpochTree → EpochTree)
    → e ≢ k
    → serialize_epoch (record m { trees = alter k g m.trees }) e ≡ serialize_epoch m e
unfolding serialize_epoch
serialize_epoch-alter m k e g other =
    let same : get e (alter k g m.trees) ≡ get e m.trees =
      get-alter k e g m.trees ∙ rw (==_ne k e (λ h. other (sym h))) refl in
    rw (same, serialize_epoch) refl

module _ (sha256 : List ℕ → List ℕ) (m : MerkleForest) (k v : List ℕ) (e : ℕ)
    (other : e ≢ key_epoch k) where
  serialize_epoch-insert : serialize_epoch (insert sha256 m k v) e ≡ serialize_epoch m e
  unfolding insert split_key
  serialize_epoch-insert = serialize_epoch-alter m (key_epoch k) e _ other

  serialize_epoch-remove : serialize_epoch (remove sha256 m k v) e ≡ serialize_epoch m e
  unfolding remove split_key
  serialize_epoch-remove = elim (Option-cases (get (key_epoch k) m.trees)) [
    | inl absent ↦ rw (absent, remove) refl
    | inr (t, found) ↦ rw (found, remove) (serialize_epoch-alter m (key_epoch k) e _ other)
  ]

module _ (f : F64) (kv : Kv) (sha256 : List ℕ → List ℕ) (entries : kv.Tree → List Row)
    (is_kv : IsKv kv entries) (key payload : List ℕ) where
  abbrev item : Row
  item = record { key = key; payload = payload }

  publish-seal : (s : Store f kv) → (publish f kv s key payload).seal ≡ s.seal
  unfolding publish
  publish-seal s = elim (Bool-cases (s.receivers == 0)) [
    | inl deaf ↦ rw deaf refl
    | inr heard ↦ rw heard refl
  ]

  fold-IsLocal :
      (change : MerkleForest → MerkleForest)
      → ((m : MerkleForest) (e : ℕ)
          → e ≢ key_epoch key
          → serialize_epoch (change m) e ≡ serialize_epoch m e)
      → IsLocal f kv entries is_kv
          (key_epoch key ∷ [])
          (λ s. publish f kv (record s { merkle = change s.merkle }) key payload)
  fold-IsLocal change keep =
      let next = λ (s : Store f kv). record s { merkle = change s.merkle } in
      record {
        tree = λ s. publish-tree f kv entries is_kv (next s) key payload;
        seal = λ s. publish-seal (next s);
        others = λ s e outside.
            ap (λ (m : MerkleForest). serialize_epoch m e)
              (publish-SameRows f kv entries is_kv (next s) key payload).merkle
            ∙ keep s.merkle e (λ h. outside (inl h));
      }

  replace_item-local :
      (o : Option (List ℕ)) (m : MerkleForest) (e : ℕ)
      → e ≢ key_epoch key
      → serialize_epoch (replace_item sha256 key payload o m) e ≡ serialize_epoch m e
  unfolding replace_item
  replace_item-local none m e other = serialize_epoch-insert sha256 m key payload e other
  replace_item-local (some w) m e other =
      serialize_epoch-insert sha256 (remove sha256 m key w) key payload e other
      ∙ serialize_epoch-remove sha256 m key w e other

  module _ (wide : length key ≡ 20) (s : Store f kv) (h : IsSealed f kv entries is_kv s) where
    ingest_changed-IsSealed :
        (o : Option (List ℕ))
        → IsSealed f kv entries is_kv (ingest_changed f kv sha256 s key payload o).0
    unfolding ingest_changed
    ingest_changed-IsSealed o =
        commit_marked-IsSealed f kv entries is_kv (key_epoch key ∷ []) (item ∷ []) (wide, tt)
          (λ t.
            publish f kv (record t { merkle = replace_item sha256 key payload o t.merkle }) key
              payload)
          (fold-IsLocal (replace_item sha256 key payload o) (replace_item-local o)) s h

    -- Over a key-value tree whose transactions happen whole or not at all, `ingest` of a key of 20
    -- bytes keeps the sealed epochs a set in which each has its record on disk, and the record is
    -- what its tree serializes to, and no u32 epoch outside the set has a record on disk.
    pub ingest-IsSealed : IsSealed f kv entries is_kv (ingest f kv sha256 s key payload).0
    unfolding ingest
    ingest-IsSealed = elim (Option-cases (kv.get s.tree key)) [
      | inl failed ↦ rw (failed, ingest) h
      | inr (none, got) ↦ rw (got, ingest) (ingest_changed-IsSealed none)
      | inr (some current, got) ↦ elim (Bool-cases (keeps sha256 key payload current)) [
        | inl keep ↦ rw (got, keep, ingest) h
        | inr lose ↦ rw (got, lose, ingest) (ingest_changed-IsSealed (some current))
      ]
    ]

-- Over a key-value tree whose transactions happen whole or not at all, `store` keeps the sealed
-- epochs a set in which each has its record on disk, and the record is what its tree serializes
-- to, and no u32 epoch outside the set has a record on disk.
pub store-IsSealed :
    (f : F64) (kv : Kv) (sha256 : List ℕ → List ℕ) (entries : kv.Tree → List Row)
    (is_kv : IsKv kv entries) (s : Store f kv)
    → IsSealed f kv entries is_kv s
    → (r : Record f) → IsSealed f kv entries is_kv (store f kv sha256 s r).0
unfolding store
store-IsSealed f kv sha256 entries is_kv s h r =
    let row = record_row f kv s r in
    commit_marked-IsSealed f kv entries is_kv (key_epoch row.key ∷ []) (row ∷ [])
      (length-record_row sha256 f kv entries is_kv s r, tt)
      (λ t.
        publish f kv (record t { merkle = insert sha256 t.merkle row.key row.payload }) row.key
          row.payload)
      (fold-IsLocal f kv sha256 entries is_kv row.key row.payload
        (λ m. insert sha256 m row.key row.payload)
        (λ m e other. serialize_epoch-insert sha256 m row.key row.payload e other))
      s h
