-- ===== src/Store/Ingest.antt =====
-- src/store.rs: `store`, `store_batch` and `ingest`.
use interstellar_db.Base.{
  ℕ, List, [], ◌∷◌, map, Bool, true, false, Option, none, some, leb, if◌then◌else◌,
}
use interstellar_db.Base.BTreeSet
use interstellar_db.Base.ByteOrder.{bytes_eq}
use interstellar_db.Base.Result.{Result, ok, err, panic, map_ok}
use interstellar_db.Float.{F64}
use interstellar_db.Indexer.Key.{generate_key}
use interstellar_db.Merkle.Tree.{item_digest}
use interstellar_db.Merkle.Forest.{MerkleForest, insert, remove}
use interstellar_db.Merkle.Forest.Items.{Row, insert_all}
use interstellar_db.Store.{Store, key_epoch, publish, begin_write_epochs, end_write_epochs}
use interstellar_db.Store.KeyValue.{Kv, Write, set}

-- A record of `store_batch`.
pub record Record (f : F64) : Type 0 where
  pub x : f.Value
  pub y : f.Value
  pub z : f.Value
  pub secs : ℕ
  pub nanos : ℕ
  pub payload : List ℕ

-- The distinct epochs of keys, ascending.
unfoldable pub key_epochs : List (List ℕ) → List ℕ
key_epochs [] = []
key_epochs (k ∷ ks) = BTreeSet.insert (key_epoch k) (key_epochs ks)

module _ (sha256 : List ℕ → List ℕ) where
  -- The fold of `ingest`: what was stored under the key comes out.
  unfoldable pub replace_item : List ℕ → List ℕ → Option (List ℕ) → MerkleForest → MerkleForest
  replace_item key payload none forest = insert sha256 forest key payload
  replace_item key payload (some current) forest =
      insert sha256 (remove sha256 forest key current) key payload

  -- Whether a row that is stored stays: it is the same, or its digest is not the smaller one.
  unfoldable pub keeps : List ℕ → List ℕ → List ℕ → Bool
  keeps key payload current =
      if bytes_eq current payload
      then true
      else leb (item_digest sha256 key payload) (item_digest sha256 key current)

module _ (f : F64) (kv : Kv) where
  -- What the three writes share: mark the epochs, commit the transaction, then fold and publish, and
  -- unmark the epochs in any case.
  unfoldable pub commit_marked :
      Store f kv → List ℕ → List Write → (Store f kv → Store f kv) → Store f kv × Result (Unit {0})
  commit_marked self epochs writes landed =
      let (marked, r) = begin_write_epochs f kv self epochs in
      elim r [
        | err ↦ (marked, err)
        | panic ↦ (marked, panic)
        | ok _ ↦
            let (tree, committed) = kv.commit marked.tree writes in
            let next = record marked { tree = tree } in
            if committed
            then (end_write_epochs f kv (landed next) epochs, ok tt)
            else (end_write_epochs f kv next epochs, err)
      ]

  unfoldable pub publish_all : Store f kv → List Row → Store f kv
  publish_all self [] = self
  publish_all self (r ∷ rows) = publish_all (publish f kv self r.key r.payload) rows

  unfoldable pub record_row : Store f kv → Record f → Row
  record_row self r = record {
    key = generate_key f self.indexer r.x r.y r.z r.secs r.nanos;
    payload = r.payload;
  }

module _ (f : F64) (kv : Kv) (sha256 : List ℕ → List ℕ) where
  -- The fold of `store` and `store_batch`.
  unfoldable pub fold_rows : List Row → Store f kv → Store f kv
  fold_rows rows self =
      publish_all f kv (record self { merkle = insert_all sha256 self.merkle rows }) rows

  unfoldable pub store_batch : Store f kv → List (Record f) → Store f kv × Result (List (List ℕ))
  store_batch self records =
      let rows = map (record_row f kv self) records in
      let keys = map (λ (r : Row). r.key) rows in
      let (next, r) =
        commit_marked f kv self (key_epochs keys) (map (λ (w : Row). set w.key w.payload) rows)
          (fold_rows rows) in
      (next, map_ok (λ _. keys) r)

  unfoldable pub store : Store f kv → Record f → Store f kv × Result (List ℕ)
  store self r =
      let row = record_row f kv self r in
      let (next, e) =
        commit_marked f kv self (key_epoch row.key ∷ []) (set row.key row.payload ∷ []) (λ s.
          publish f kv (record s { merkle = insert sha256 s.merkle row.key row.payload }) row.key
            row.payload) in
      (next, map_ok (λ _. row.key) e)

  unfoldable pub ingest_changed :
      Store f kv → List ℕ → List ℕ → Option (List ℕ) → Store f kv × Result Bool
  ingest_changed self key payload existing =
      let (next, e) = commit_marked f kv self (key_epoch key ∷ []) (set key payload ∷ []) (λ s.
        publish f kv (record s { merkle = replace_item sha256 key payload existing s.merkle }) key
          payload) in
      (next, map_ok (λ _. true) e)

  unfoldable pub ingest : Store f kv → List ℕ → List ℕ → Store f kv × Result Bool
  ingest self key payload = elim (kv.get self.tree key) [
    | none ↦ (self, err)
    | some none ↦ ingest_changed self key payload none
    | some (some current) ↦
        if keeps sha256 key payload current
        then (self, ok false)
        else ingest_changed self key payload (some current)
  ]
