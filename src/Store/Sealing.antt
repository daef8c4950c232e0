-- ===== src/Store/Sealing.antt =====
-- src/store.rs: `seal_settled_epochs` and `sealed_epochs`.
pub mod Matches
pub mod Unseal
pub mod Writers
use interstellar_db.Base.{
  ℕ, ◌-◌, ◌/◌, List, [], ◌∷◌, ◌++◌, Bool, true, false, ◌||◌, Option, none, some, ltb, if◌then◌else◌,
}
use interstellar_db.Base.BTreeMap
use interstellar_db.Base.BTreeSet
use interstellar_db.Base.Result.{Result, ok, err, panic}
use interstellar_db.Float.{F64}
use interstellar_db.Merkle.Forest.{epochs}
use interstellar_db.Merkle.Seal.{serialize_epoch}
use interstellar_db.Store.{Store, SealState, seal_key}
use interstellar_db.Store.KeyValue.{Kv, Write, set}
use mathlib.Core.Option

-- `.filter(|&e| (e as u64) < cutoff)`.
unfoldable pub settled : ℕ → List ℕ → List ℕ
settled cutoff [] = []
settled cutoff (e ∷ es) = let rest = settled cutoff es in if ltb e cutoff then e ∷ rest else rest

-- Whether an epoch is passed over: it is sealed, or a write to it is in flight.
unfoldable pub is_busy : ℕ → SealState → Bool
is_busy epoch s =
    BTreeSet.contains epoch s.sealed
    || elim (BTreeMap.get epoch s.inflight) [ none ↦ false | some n ↦ true ]

module _ (f : F64) (kv : Kv) where
  unfoldable pub add_sealed : Store f kv → ℕ → Store f kv
  add_sealed self epoch =
      let s = self.seal in
      record self { seal = record s { sealed = BTreeSet.insert epoch s.sealed } }

  unfoldable pub drop_sealed : Store f kv → ℕ → Store f kv
  drop_sealed self epoch =
      let s = self.seal in
      record self { seal = record s { sealed = BTreeSet.remove epoch s.sealed } }

  -- One round of the loop; the value says whether the epoch is newly sealed.
  unfoldable pub seal_epoch : Store f kv → ℕ → Store f kv × Result Bool
  seal_epoch self epoch =
      if is_busy epoch self.seal
      then (self, ok false)
      else (let marked = add_sealed self epoch in
          elim (serialize_epoch marked.merkle epoch) [
            | none ↦ (marked, panic)
            | some none ↦ (drop_sealed marked epoch, ok false)
            | some (some bytes) ↦
                let (tree, committed) = kv.commit marked.tree (set (seal_key epoch) bytes ∷ []) in
                let next = record marked { tree = tree } in
                if committed then (next, ok true) else (drop_sealed next epoch, err)
          ])

  unfoldable pub seal_loop : Store f kv → List ℕ → List ℕ → Store f kv × Result (List ℕ)
  seal_loop self newly_sealed [] = (self, ok newly_sealed)
  seal_loop self newly_sealed (epoch ∷ rest) =
      let (next, r) = seal_epoch self epoch in
      elim r [
        | ok sealed_now ↦
            seal_loop next (if sealed_now then newly_sealed ++ epoch ∷ [] else newly_sealed) rest
        | err ↦ (next, err)
        | panic ↦ (next, panic)
      ]

  unfoldable pub seal_settled_epochs : Store f kv → ℕ → ℕ → Store f kv × Result (List ℕ)
  seal_settled_epochs self now_secs grace_secs =
      let cutoff = (now_secs - grace_secs) / self.indexer.epoch_duration in
      seal_loop self [] (settled cutoff (epochs self.merkle))

  -- The set is held in ascending order.
  unfoldable pub sealed_epochs : Store f kv → List ℕ
  sealed_epochs self = self.seal.sealed
