-- ===== src/Sync/Pull.antt =====
-- src/sync.rs: `sync_once`. The peer's client is a parameter: it has a state, and each call may fail.
pub mod Ends
pub mod Keeps
pub mod Queue
pub mod Streams
use interstellar_db.Base.{
  ℕ, zero, suc, ◌+◌, ◌%◌, List, [], ◌∷◌, ◌++◌, map, Bool, true, false, not, ◌&&◌, ◌||◌, Option,
  none, some, ltb, ◌==◌, min, length, if◌then◌else◌,
}
use interstellar_db.Base.Result.{Result, ok, err, panic}
use interstellar_db.Float.{F64}
use interstellar_db.Indexer.Ranges.{KeyRange}
use interstellar_db.Merkle.Forest.Items.{Row}
use interstellar_db.Merkle.Tree.{leaf_key_range}
use interstellar_db.Store.{Store, merkle_leaf_depth_bits}
use interstellar_db.Store.Ingest.{ingest}
use interstellar_db.Store.KeyValue.{Kv}
use interstellar_db.Store.Query.{node_hash}
use interstellar_db.Sync.{EpochRoot, SyncRootsResponse, ChildHash, hash_from_bytes}

-- The generated client: `none` is an error of the call. A stream may go on for ever: it has a state of
-- its own, from which each message comes; `some none` is its end.
pub record Client : Type 1 where
  pub State : Type 0
  pub Stream : Type 0
  pub roots : State → State × Option SyncRootsResponse
  pub children : State → ℕ → ℕ → ℕ → State × Option (List ChildHash)
  pub fetch : State → List ℕ → List ℕ → State × Option Stream
  pub message : Stream → Stream × Option (Option Row)

pub record SyncStats : Type 0 where
  pub leaves_fetched : ℕ
  pub rows_received : ℕ
  pub rows_applied : ℕ

-- An entry of the work queue.
pub record Node : Type 0 where
  pub epoch : ℕ
  pub depth : ℕ
  pub prefix : ℕ

module _ (f : F64) (kv : Kv) (sha256 : List ℕ → List ℕ) where
  -- The test of one hash; the node is pushed if the peer has something there that differs.
  unfoldable pub push_divergent : Store f kv → List ℕ → Node → List Node → Result (List Node)
  push_divergent store hash node work = elim (hash_from_bytes hash) [
    | none ↦ err
    | some theirs ↦
        if theirs == 0
        then ok work
        else elim (node_hash f kv store node.epoch node.depth node.prefix) [
          | none ↦ panic
          | some ours ↦ ok (if theirs == ours then work else work ++ node ∷ [])
        ]
  ]

  unfoldable pub push_roots : Store f kv → List EpochRoot → List Node → Result (List Node)
  push_roots store [] work = ok work
  push_roots store (root ∷ roots) work =
      elim (push_divergent store root.hash (record { epoch = root.epoch; depth = 0; prefix = 0 })
        work) [ ok next ↦ push_roots store roots next | err ↦ err | panic ↦ panic ]

  unfoldable pub push_children :
      Store f kv → ℕ → ℕ → List ChildHash → List Node → Result (List Node)
  push_children store epoch child_depth [] work = ok work
  push_children store epoch child_depth (child ∷ children) work =
      elim (push_divergent store child.hash
        (record { epoch = epoch; depth = child_depth; prefix = child.prefix }) work) [
          | ok next ↦ push_children store epoch child_depth children next
          | err ↦ err
          | panic ↦ panic
        ]

  module _ (client : Client) where
    -- The loop over the messages of a stream; `none` is the end of the fuel, here and below.
    unfoldable pub ingest_stream :
        ℕ → Store f kv → SyncStats → client.Stream → Option (Store f kv × Result SyncStats)
    ingest_stream zero store stats rows = none
    ingest_stream (suc fuel) store stats rows =
        let (rows', message) = client.message rows in
        elim message [
          | none ↦ some (store, err)
          | some none ↦ some (store, ok stats)
          | some (some row) ↦
              if length row.key == 20
              then (let received = record stats { rows_received = stats.rows_received + 1 } in
                  let (next, r) = ingest f kv sha256 store row.key row.payload in
                  elim r [
                    | ok changed ↦
                        ingest_stream fuel next
                          (if changed
                            then record received { rows_applied = stats.rows_applied + 1 }
                            else received)
                          rows'
                    | err ↦ some (next, err)
                    | panic ↦ some (next, panic)
                  ])
              else some (store, err)
        ]

    -- The round of a leaf.
    unfoldable pub pull_leaf :
        ℕ
        → Store f kv
        → client.State
        → SyncStats
        → Node
        → Option (Store f kv × client.State × Result SyncStats)
    pull_leaf fuel store peer stats node =
        let range = leaf_key_range node.epoch node.prefix node.depth in
        let (peer', r) = client.fetch peer range.start_key range.end_key in
        elim r [
          | none ↦ some (store, peer', err)
          | some rows ↦
              elim (ingest_stream fuel store
                (record stats { leaves_fetched = stats.leaves_fetched + 1 }) rows) [
                  | none ↦ none
                  | some out ↦ some (out.0, peer', out.1)
                ]
        ]

    -- The round of an inner node, with the queue behind it.
    unfoldable pub pull_inner :
        Store f kv → client.State → Node → List Node → client.State × Result (List Node)
    pull_inner store peer node work =
        let (peer', r) = client.children peer node.epoch node.depth node.prefix in
        elim r [
          | none ↦ (peer', err)
          | some children ↦ (peer', push_children store node.epoch (node.depth + 3) children work)
        ]

    -- `while let Some(..) = work.pop_front()`.
    unfoldable pub pull_loop :
        ℕ
        → ℕ
        → Store f kv
        → client.State
        → SyncStats
        → List Node
        → Option (Store f kv × client.State × Result SyncStats)
    pull_loop zero descend_to store peer stats work = none
    pull_loop (suc fuel) descend_to store peer stats [] = some (store, peer, ok stats)
    pull_loop (suc fuel) descend_to store peer stats (node ∷ work) =
        if node.depth == descend_to
        then elim (pull_leaf fuel store peer stats node) [
          | none ↦ none
          | some round ↦ elim round.2 [
            | ok stats' ↦ pull_loop fuel descend_to round.0 round.1 stats' work
            | err ↦ some (round.0, round.1, err)
            | panic ↦ some (round.0, round.1, panic)
          ]
        ]
        else (let (peer', r) = pull_inner store peer node work in
            elim r [
              | ok work' ↦ pull_loop fuel descend_to store peer' stats work'
              | err ↦ some (store, peer', err)
              | panic ↦ some (store, peer', panic)
            ])

    unfoldable pub sync_once :
        ℕ → Store f kv → client.State → Option (Store f kv × client.State × Result SyncStats)
    sync_once fuel store peer =
        let (peer', r) = client.roots peer in
        elim r [
          | none ↦ some (store, peer', err)
          | some remote ↦
              if ltb remote.leaf_depth_bits 3 || not (remote.leaf_depth_bits % 3 == 0)
              then some (store, peer', err)
              else elim (push_roots store remote.roots []) [
                | err ↦ some (store, peer', err)
                | panic ↦ some (store, peer', panic)
                | ok work ↦
                    pull_loop fuel (min remote.leaf_depth_bits merkle_leaf_depth_bits) store peer'
                      (record { leaves_fetched = 0; rows_received = 0; rows_applied = 0 }) work
              ]
        ]
