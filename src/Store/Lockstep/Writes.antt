-- ===== src/Store/Lockstep/Writes.antt =====
-- About `store` and `store_batch` of src/store.rs, and the forest.
use interstellar_db.Base.{
  ℕ, ◌≡◌, ◌⊎◌, refl, sym, ap, ◌∙◌, arith, bit_xor, List, [], ◌∷◌, map, none, some, All, inl, inr,
  length, subst,
}
use interstellar_db.Base.Bits.{bit_xor_assoc, bit_xor_comm, bit_xor_self, zero-bit_xor}
use interstellar_db.Base.Result.{ok, err, map_ok}
use interstellar_db.Float.{F64}
use interstellar_db.Indexer.Key.{generate_key}
use interstellar_db.Indexer.Key.Order.{length-key_bytes}
use interstellar_db.Merkle.Forest.{MerkleForest, insert, node_hash}
use interstellar_db.Merkle.Forest.Items.{Row, insert_all, set_hash, share}
use interstellar_db.Merkle.Tree.Hash.{IsLevel}
use interstellar_db.Store.{Store, key_epoch, merkle_leaf_depth_bits}
use interstellar_db.Store.Entries.{find, put, IsAscending}
use interstellar_db.Store.Entries.Laws.{set_hash-put}
use interstellar_db.Store.Entries.Order.{put-IsAscending}
use interstellar_db.Store.Ingest.{Record, record_row, key_epochs, fold_rows, store, store_batch}
use interstellar_db.Store.KeyValue.{Kv, IsKv}
use interstellar_db.Store.Lockstep.{IsSummed, insert-IsSummed, insert-share}
use interstellar_db.Store.Lockstep.Commit.{
  SameRows, HasLanded, IsFold, put_all, commit_marked-cases, publish_all-tree, publish_all-SameRows,
}
use interstellar_db.Store.Lockstep.Ingest.{
  rows_of, InLockstep, SameRows-InLockstep, rows_of-IsAscending, fold_one, fold_one-IsFold,
}

-- Each key is new when its row comes.
abbrev pub AreNew : List Row → List Row → Type 0
AreNew [] rows = Unit
AreNew (w ∷ ws) rows = (find w.key rows ≡ none) × AreNew ws (put w.key w.payload rows)

module _ (sha256 : List ℕ → List ℕ) where
  insert_all-IsSummed :
      (ws rows : List Row) (m : MerkleForest)
      → IsAscending rows
      → AreNew ws rows
      → IsSummed sha256 m rows
      → IsSummed sha256 (insert_all sha256 m ws) (put_all ws rows)
  unfolding insert_all put_all
  insert_all-IsSummed [] rows m up fresh summed = summed
  insert_all-IsSummed (w ∷ ws) rows m up fresh summed =
      insert_all-IsSummed ws (put w.key w.payload rows) (insert sha256 m w.key w.payload)
        (put-IsAscending w.key w.payload rows up) fresh.1
        (insert-IsSummed sha256 m rows up summed w.key w.payload fresh.0)

  -- The old item stays in the hash.
  insert-drift :
      (m : MerkleForest) (rows : List Row) (k v w : List ℕ) (e d p : ℕ)
      → IsAscending rows
      → IsSummed sha256 m rows
      → find k rows ≡ some w
      → IsLevel merkle_leaf_depth_bits d
      → node_hash (insert sha256 m k v) e d p
        ≡ some (
            bit_xor
              (set_hash sha256 e d p (put k v rows))
              (share sha256 e d p (record { key = k; payload = w })))
  insert-drift m rows k v w e d p up summed present l =
      let sum : ℕ = set_hash sha256 e d p rows in
      let new : ℕ = share sha256 e d p (record { key = k; payload = v }) in
      let old : ℕ = share sha256 e d p (record { key = k; payload = w }) in
      let after : set_hash sha256 e d p (put k v rows) ≡ bit_xor new (bit_xor old sum) =
        set_hash-put sha256 e d p k v rows up ∙ rw present refl in
      insert-share sha256 m k v e d p sum (subst (λ (n : ℕ). IsLevel n d) (sym summed.leaf) l)
        (summed.hashes e d p l)
      ∙ ap some (shuffle sum new old ∙ ap (λ (t : ℕ). bit_xor t old) (sym after))
    where
      shuffle : (sum new old : ℕ) → bit_xor sum new ≡ bit_xor (bit_xor new (bit_xor old sum)) old
      shuffle sum new old =
          bit_xor_comm sum new
          ∙ ap (bit_xor new) (
              sym (
                bit_xor_comm (bit_xor old sum) old
                ∙ sym (bit_xor_assoc old old sum)
                ∙ ap (λ (t : ℕ). bit_xor t sum) (bit_xor_self old)
                ∙ zero-bit_xor sum))
          ∙ sym (bit_xor_assoc new (bit_xor old sum) old)

  module _ (f : F64) (kv : Kv) (entries : kv.Tree → List Row) (is_kv : IsKv kv entries)
      (s : Store f kv) where
    abbrev pub row_of : Record f → Row
    row_of = record_row f kv s

    pub length-record_row : (r : Record f) → length (row_of r).key ≡ 20
    unfolding record_row generate_key
    length-record_row r = length-key_bytes _ _ _

    abbrev rows : List Row
    rows = rows_of f kv sha256 entries is_kv s

    store-cases :
        (r : Record f)
        → (((store f kv sha256 s r).1 ≡ ok (row_of r).key)
            × HasLanded f kv entries is_kv s
                (store f kv sha256 s r).0
                (λ m. insert sha256 m (row_of r).key (row_of r).payload)
                (row_of r ∷ []))
          ⊎ (((store f kv sha256 s r).1 ≡ err)
              × SameRows f kv entries is_kv s (store f kv sha256 s r).0)
    unfolding store map_ok
    store-cases r =
        let row = row_of r in
        let change = λ (m : MerkleForest). insert sha256 m row.key row.payload in
        let wide = length-record_row r in
        elim (commit_marked-cases f kv entries is_kv (key_epoch row.key ∷ []) (row ∷ []) (wide, tt)
          (fold_one f kv sha256 entries is_kv row.key row.payload wide change) change
          (fold_one-IsFold f kv sha256 entries is_kv row.key row.payload wide change) s) [
            | inl done ↦ inl (ap (map_ok (λ _. row.key)) done.0, done.1)
            | inr failed ↦ inr (ap (map_ok (λ _. row.key)) failed.0, failed.1)
          ]

    landed-IsSummed :
        (next : Store f kv) (change : MerkleForest → MerkleForest) (ws : List Row)
        → HasLanded f kv entries is_kv s next change ws
        → IsSummed sha256 (change s.merkle) (put_all ws rows)
        → InLockstep f kv sha256 entries is_kv next
    landed-IsSummed next change ws landed summed =
        subst (λ (m : MerkleForest). IsSummed sha256 m (rows_of f kv sha256 entries is_kv next))
          (sym landed.merkle) (subst (IsSummed sha256 (change s.merkle)) (sym landed.rows) summed)

    -- Over a key-value tree whose transactions happen whole or not at all, `store` keeps the
    -- forest in step with the rows, whether the write lands or fails, if its key is new.
    pub store-InLockstep :
        (r : Record f)
        → InLockstep f kv sha256 entries is_kv s
        → find (row_of r).key rows ≡ none
        → InLockstep f kv sha256 entries is_kv (store f kv sha256 s r).0
    unfolding put_all
    store-InLockstep r summed fresh =
        let row = row_of r in
        elim (store-cases r) [
          | inl done ↦
              landed-IsSummed _ (λ m. insert sha256 m row.key row.payload) (row ∷ []) done.1
                (insert-IsSummed sha256 s.merkle rows
                  (rows_of-IsAscending f kv sha256 entries is_kv s) summed row.key row.payload
                  fresh)
          | inr failed ↦ SameRows-InLockstep f kv sha256 entries is_kv s _ failed.1 summed
        ]

    -- Over a key-value tree whose transactions happen whole or not at all, where the forest is in
    -- step with the rows and `store` lands on a key that holds a row, each node hash is then the
    -- exclusive or of the digests of the rows in the node and of what the replaced row added to
    -- it.
    pub store-drift :
        (r : Record f) (w : List ℕ) (e d p : ℕ)
        → InLockstep f kv sha256 entries is_kv s
        → find (row_of r).key rows ≡ some w
        → (store f kv sha256 s r).1 ≡ ok (row_of r).key
        → IsLevel merkle_leaf_depth_bits d
        → node_hash (store f kv sha256 s r).0.merkle e d p
          ≡ some (
              bit_xor
                (set_hash sha256 e d p
                  (rows_of f kv sha256 entries is_kv (store f kv sha256 s r).0))
                (share sha256 e d p (record { key = (row_of r).key; payload = w })))
    unfolding put_all
    store-drift r w e d p summed present good l =
        let row = row_of r in
        elim (store-cases r) [
          | inl done ↦
              ap (λ (m : MerkleForest). node_hash m e d p) done.1.merkle
              ∙ insert-drift s.merkle rows row.key row.payload w e d p
                  (rows_of-IsAscending f kv sha256 entries is_kv s) summed present l
              ∙ ap
                  (λ (rs : List Row). some (
                    bit_xor (set_hash sha256 e d p rs)
                      (share sha256 e d p (record { key = row.key; payload = w }))))
                  (sym done.1.rows)
          | inr failed ↦ absurd (ground (arith, sym good ∙ failed.0))
        ]

    -- The rows of a batch, in order.
    abbrev pub batch_rows : List (Record f) → List Row
    batch_rows = map row_of

    batch-wide : (rs : List (Record f)) → All (λ w. length w.key ≡ 20) (batch_rows rs)
    batch-wide [] = tt
    batch-wide (r ∷ rs) = (length-record_row r, batch-wide rs)

    fold_rows-IsFold :
        (ws : List Row)
        → IsFold f kv entries is_kv (fold_rows f kv sha256 ws) (λ m. insert_all sha256 m ws)
    unfolding fold_rows
    fold_rows-IsFold ws =
        let next = λ (t : Store f kv). record t { merkle = insert_all sha256 t.merkle ws } in
        record {
          tree = λ t. publish_all-tree f kv entries is_kv (next t) ws;
          merkle = λ t. (publish_all-SameRows f kv entries is_kv (next t) ws).merkle;
          indexer = λ t. (publish_all-SameRows f kv entries is_kv (next t) ws).indexer;
        }

    -- A batch lands whole, or changes no row.
    pub store_batch-cases :
        (rs : List (Record f))
        → (((store_batch f kv sha256 s rs).1 ≡ ok (map (λ (w : Row). w.key) (batch_rows rs)))
            × HasLanded f kv entries is_kv s
                (store_batch f kv sha256 s rs).0
                (λ m. insert_all sha256 m (batch_rows rs))
                (batch_rows rs))
          ⊎ (((store_batch f kv sha256 s rs).1 ≡ err)
              × SameRows f kv entries is_kv s (store_batch f kv sha256 s rs).0)
    unfolding store_batch map_ok
    store_batch-cases rs =
        let ws = batch_rows rs in
        let keys = map (λ (w : Row). w.key) ws in
        elim (commit_marked-cases f kv entries is_kv (key_epochs keys) ws (batch-wide rs)
          (fold_rows f kv sha256 ws) (λ m. insert_all sha256 m ws) (fold_rows-IsFold ws) s) [
            | inl done ↦ inl (ap (map_ok (λ _. keys)) done.0, done.1)
            | inr failed ↦ inr (ap (map_ok (λ _. keys)) failed.0, failed.1)
          ]

    -- Over a key-value tree whose transactions happen whole or not at all, `store_batch` keeps the
    -- forest in step with the rows, whether the write lands or fails, if each key is new when its
    -- record comes.
    pub store_batch-InLockstep :
        (rs : List (Record f))
        → InLockstep f kv sha256 entries is_kv s
        → AreNew (batch_rows rs) rows
        → InLockstep f kv sha256 entries is_kv (store_batch f kv sha256 s rs).0
    store_batch-InLockstep rs summed fresh = elim (store_batch-cases rs) [
      | inl done ↦
          landed-IsSummed _ (λ m. insert_all sha256 m (batch_rows rs)) (batch_rows rs) done.1
            (insert_all-IsSummed (batch_rows rs) rows s.merkle
              (rows_of-IsAscending f kv sha256 entries is_kv s) fresh summed)
      | inr failed ↦ SameRows-InLockstep f kv sha256 entries is_kv s _ failed.1 summed
    ]
