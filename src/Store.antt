-- ===== src/Store.antt =====
-- src/store.rs: `SpatioTemporalStore`, its events, and the bookkeeping of seals on the write path. The
-- locks are held over single steps here. `receivers` counts the open ends of the event channel, and
-- `sent` is what has been sent on it.
pub mod Entries
pub mod KeyValue
pub mod Ingest
pub mod Sealing
pub mod Query
pub mod Open
pub mod Lockstep
pub mod Merge
use interstellar_db.Base.{
  ℕ, ◌+◌, ◌-◌, List, [], ◌∷◌, ◌++◌, Bool, true, false, Option, none, some, ◌==◌, if◌then◌else◌,
}
use interstellar_db.Base.BTreeMap
use interstellar_db.Base.BTreeMap.{alter}
use interstellar_db.Base.BTreeSet
use interstellar_db.Base.Bytes.{to_be_bytes}
use interstellar_db.Base.Result.{Result, ok, err, panic}
use interstellar_db.Float.{F64}
use interstellar_db.Indexer.{HybridSpatioTemporalIndexer}
use interstellar_db.Indexer.Key.{epoch_field, decode_key}
use interstellar_db.Merkle.Forest.{MerkleForest}
use interstellar_db.Store.KeyValue.{Kv, Write, set, delete}
use mathlib.Core.Option

pub record ObservationEvent (f : F64) : Type 0 where
  pub key : List ℕ
  pub x : f.Value
  pub y : f.Value
  pub z : f.Value
  pub timestamp_secs : ℕ
  pub timestamp_nanos : ℕ
  pub payload : List ℕ

pub record SealState : Type 0 where
  pub sealed : List ℕ
  pub inflight : List (ℕ × ℕ)

pub record SpatioTemporalStore (f : F64) (kv : Kv) : Type 0 where
  pub indexer : HybridSpatioTemporalIndexer f
  pub tree : kv.Tree
  pub merkle : MerkleForest
  pub seal : SealState
  pub receivers : ℕ
  pub sent : List (ObservationEvent f)

abbrev pub merkle_leaf_depth_bits : ℕ
merkle_leaf_depth_bits = 15

-- `*b"m!"`.
abbrev pub seal_key_prefix : List ℕ
seal_key_prefix = 109 ∷ 33 ∷ []

unfoldable pub seal_key : ℕ → List ℕ
seal_key epoch = seal_key_prefix ++ to_be_bytes 4 epoch

-- `key_epoch`.
abbrev pub key_epoch : List ℕ → ℕ
key_epoch = epoch_field

-- `*s.inflight.entry(epoch).or_insert(0) += 1`.
unfoldable pub mark_inflight : ℕ → List (ℕ × ℕ) → List (ℕ × ℕ)
mark_inflight epoch = alter epoch (λ old. Option.get_or old 0 + 1)

-- One round of the loop of `end_write_epochs`; a count in the map is never 0.
unfoldable pub unmark_inflight : ℕ → List (ℕ × ℕ) → List (ℕ × ℕ)
unmark_inflight epoch inflight = elim (BTreeMap.get epoch inflight) [
  | none ↦ inflight
  | some n ↦
      if n - 1 == 0 then BTreeMap.remove epoch inflight else alter epoch (λ old. n - 1) inflight
]

unfoldable pub unmark_all : List ℕ → List (ℕ × ℕ) → List (ℕ × ℕ)
unmark_all [] inflight = inflight
unmark_all (e ∷ es) inflight = unmark_all es (unmark_inflight e inflight)

module _ (f : F64) (kv : Kv) where
  abbrev pub Store : Type 0
  Store = SpatioTemporalStore f kv

  unfoldable pub watch : Store → Store
  watch self = record self { receivers = self.receivers + 1 }

  unfoldable pub publish : Store → List ℕ → List ℕ → Store
  publish self key payload =
      if self.receivers == 0
      then self
      else (let p = decode_key f self.indexer key in
          let event : ObservationEvent f = record {
            key = key;
            x = p.x;
            y = p.y;
            z = p.z;
            timestamp_secs = p.secs;
            timestamp_nanos = p.nanos;
            payload = payload;
          } in
          record self { sent = self.sent ++ event ∷ [] })

  -- The fast path of `begin_write_epoch`, and the last step of the slow one.
  unfoldable pub mark : Store → ℕ → Store
  mark self epoch =
      let s = self.seal in
      record self { seal = record s { inflight = mark_inflight epoch s.inflight } }

  unfoldable pub begin_write_epoch : Store → ℕ → Store × Result (Unit {0})
  begin_write_epoch self epoch =
      if BTreeSet.contains epoch self.seal.sealed
      then (let (tree, committed) = kv.commit self.tree (delete (seal_key epoch) ∷ []) in
          let s = self.seal in
          if committed
          then (
            mark
                (record self {
                  tree = tree;
                  seal = record s { sealed = BTreeSet.remove epoch s.sealed };
                })
                epoch,
            ok tt,
          )
          else (record self { tree = tree }, err))
      else (mark self epoch, ok tt)

  unfoldable pub end_write_epochs : Store → List ℕ → Store
  end_write_epochs self epochs =
      let s = self.seal in
      record self { seal = record s { inflight = unmark_all epochs s.inflight } }

  -- The loop of `begin_write_epochs`, with the epochs that are marked already.
  unfoldable pub begin_loop : Store → List ℕ → List ℕ → Store × Result (Unit {0})
  begin_loop self marked [] = (self, ok tt)
  begin_loop self marked (e ∷ es) =
      let (next, r) = begin_write_epoch self e in
      elim r [
        | ok _ ↦ begin_loop next (marked ++ e ∷ []) es
        | err ↦ (end_write_epochs next marked, err)
        | panic ↦ (next, panic)
      ]

  unfoldable pub begin_write_epochs : Store → List ℕ → Store × Result (Unit {0})
  begin_write_epochs self epochs = begin_loop self [] epochs
