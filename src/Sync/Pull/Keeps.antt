-- ===== src/Sync/Pull/Keeps.antt =====
-- About `sync_once` of src/sync.rs: what a pull does to the rows and to the forest.
use interstellar_db.Base.{
  ℕ, zero, suc, ◌+◌, ◌%◌, ◌≡◌, refl, sym, ap, ◌∙◌, List, [], ◌∷◌, ◌++◌, not, ◌||◌, Bool-cases,
  Option, Option-cases, none, some, ltb, ◌==◌, ==_iff, min, inl, inr, length, subst,
}
use interstellar_db.Base.Result.{Result, Result-cases}
use interstellar_db.Float.{F64}
use interstellar_db.Merkle.Forest.Items.{Row}
use interstellar_db.Store.{Store, merkle_leaf_depth_bits}
use interstellar_db.Store.Ingest.{ingest}
use interstellar_db.Store.KeyValue.{Kv, IsKv}
use interstellar_db.Store.Lockstep.Ingest.{rows_of, InLockstep, SameRows-InLockstep, ingest-Merges}
use interstellar_db.Store.Merge.{merge, merge_all}
use interstellar_db.Merkle.Tree.{leaf_key_range}
use interstellar_db.Sync.Pull.{
  Client, SyncStats, Node, push_roots, ingest_stream, pull_leaf, pull_inner, pull_loop, sync_once,
}

merge_all-append :
    (sha256 : List ℕ → List ℕ) (ws vs rows : List Row)
    → merge_all sha256 (ws ++ vs) rows ≡ merge_all sha256 vs (merge_all sha256 ws rows)
unfolding merge_all
merge_all-append sha256 [] vs rows = refl
merge_all-append sha256 (w ∷ ws) vs rows =
    merge_all-append sha256 ws vs (merge sha256 w.key w.payload rows)

module _ (f : F64) (kv : Kv) (sha256 : List ℕ → List ℕ) (entries : kv.Tree → List Row)
    (is_kv : IsKv kv entries) where
  abbrev rows : Store f kv → List Row
  rows = rows_of f kv sha256 entries is_kv

  abbrev Lockstep : Store f kv → Type 0
  Lockstep = InLockstep f kv sha256 entries is_kv

  -- A store after some rows are merged.
  abbrev pub Pulled : Store f kv → Store f kv → Type 0
  Pulled s t = (ws : List Row) × (rows t ≡ merge_all sha256 ws (rows s)) × (Lockstep s → Lockstep t)

  Pulled-refl : (s : Store f kv) → Pulled s s
  unfolding merge_all
  Pulled-refl s = ([], refl, λ h. h)

  Pulled-trans : (s t u : Store f kv) → Pulled s t → Pulled t u → Pulled s u
  Pulled-trans s t u (ws, e, keep) (vs, e', keep') = (
    ws ++ vs,
    e' ∙ ap (merge_all sha256 vs) e ∙ sym (merge_all-append sha256 ws vs (rows s)),
    λ h. keep' (keep h),
  )

  ingest-Pulled :
      (s : Store f kv) (key payload : List ℕ)
      → length key ≡ 20
      → Pulled s (ingest f kv sha256 s key payload).0
  unfolding merge_all
  ingest-Pulled s key payload wide =
      elim (ingest-Merges f kv sha256 entries is_kv key payload wide s) [
        | inl failed ↦
            ([], failed.1.rows, SameRows-InLockstep f kv sha256 entries is_kv s _ failed.1)
        | inr done ↦ (record { key = key; payload = payload } ∷ [], done.1, done.2)
      ]

  module _ (client : Client) where
    -- A run that is out of fuel says nothing.
    abbrev StreamedTo : Store f kv → Option (Store f kv × Result SyncStats) → Type 0
    StreamedTo s none = Unit
    StreamedTo s (some out) = Pulled s out.0

    StreamedTo-trans :
        (s t : Store f kv) (o : Option (Store f kv × Result SyncStats))
        → Pulled s t
        → StreamedTo t o
        → StreamedTo s o
    StreamedTo-trans s t none first rest = tt
    StreamedTo-trans s t (some out) first rest = Pulled-trans s t out.0 first rest

    onward :
        (fuel : ℕ) (s t : Store f kv) (stream : client.Stream)
        → Pulled s t
        → ((stats : SyncStats)
            → StreamedTo t (ingest_stream f kv sha256 client fuel t stats stream))
        → (stats : SyncStats) → StreamedTo s (ingest_stream f kv sha256 client fuel t stats stream)
    onward fuel s t stream first rest stats =
        StreamedTo-trans s t (ingest_stream f kv sha256 client fuel t stats stream) first
          (rest stats)

    ingest_stream-StreamedTo :
        (fuel : ℕ) (s : Store f kv) (stream : client.Stream) (stats : SyncStats)
        → StreamedTo s (ingest_stream f kv sha256 client fuel s stats stream)
    unfolding ingest_stream
    ingest_stream-StreamedTo zero s stream stats = tt
    ingest_stream-StreamedTo (suc fuel) s stream stats =
        let call = client.message stream in
        elim (Option-cases call.1) [
          | inl failed ↦ rw (failed, ingest_stream) (Pulled-refl s)
          | inr (none, over) ↦ rw (over, ingest_stream) (Pulled-refl s)
          | inr (some row, got) ↦ elim (Bool-cases (length row.key == 20)) [
            | inr malformed ↦ rw (got, malformed, ingest_stream) (Pulled-refl s)
            | inl wide ↦
                let step = ingest f kv sha256 s row.key row.payload in
                let here : Pulled s step.0 =
                  ingest-Pulled s row.key row.payload ((==_iff (length row.key) 20).0 wide) in
                elim (Result-cases step.1) [
                  | inl (changed, good) ↦
                      rw (got, wide, good, ingest_stream)
                        (onward fuel s step.0 call.0 here
                          (ingest_stream-StreamedTo fuel step.0 call.0) _)
                  | inr (inl failed) ↦ rw (got, wide, failed, ingest_stream) here
                  | inr (inr failed) ↦ rw (got, wide, failed, ingest_stream) here
                ]
          ]
        ]

    abbrev Outcome : Type 0
    Outcome = Store f kv × client.State × Result SyncStats

    -- So too of a pull.
    abbrev PulledTo : Store f kv → Option Outcome → Type 0
    PulledTo s none = Unit
    PulledTo s (some out) = Pulled s out.0

    PulledTo-trans :
        (s t : Store f kv) (o : Option Outcome) → Pulled s t → PulledTo t o → PulledTo s o
    PulledTo-trans s t none first rest = tt
    PulledTo-trans s t (some out) first rest = Pulled-trans s t out.0 first rest

    pull_leaf-PulledTo :
        (fuel : ℕ) (s : Store f kv) (peer : client.State) (stats : SyncStats) (node : Node)
        → PulledTo s (pull_leaf f kv sha256 client fuel s peer stats node)
    unfolding pull_leaf
    pull_leaf-PulledTo fuel s peer stats node =
        let range = leaf_key_range node.epoch node.prefix node.depth in
        let call = client.fetch peer range.start_key range.end_key in
        let begun = record stats { leaves_fetched = stats.leaves_fetched + 1 } in
        elim (Option-cases call.1) [
          | inl failed ↦ rw (failed, pull_leaf) (Pulled-refl s)
          | inr (stream, good) ↦
              let streamed = ingest_stream-StreamedTo fuel s stream begun in
              elim (Option-cases (ingest_stream f kv sha256 client fuel s begun stream)) [
                | inl short ↦ rw (good, short, pull_leaf) tt
                | inr (out, done) ↦ rw (good, done, pull_leaf) (subst (StreamedTo s) done streamed)
              ]
        ]

    pull_loop-Pulled :
        (fuel to : ℕ) (s : Store f kv) (peer : client.State) (stats : SyncStats) (work : List Node)
        → PulledTo s (pull_loop f kv sha256 client fuel to s peer stats work)
    unfolding pull_loop
    pull_loop-Pulled zero to s peer stats work = tt
    pull_loop-Pulled (suc fuel) to s peer stats [] = Pulled-refl s
    pull_loop-Pulled (suc fuel) to s peer stats (node ∷ work) =
        elim (Bool-cases (node.depth == to)) [
          | inl leaf ↦ elim (Option-cases (pull_leaf f kv sha256 client fuel s peer stats node)) [
            | inl short ↦ rw (leaf, short, pull_loop) tt
            | inr (round, done) ↦
                let here : Pulled s round.0 =
                  subst (PulledTo s) done (pull_leaf-PulledTo fuel s peer stats node) in
                elim (Result-cases round.2) [
                  | inl (stats', good) ↦
                      rw (leaf, done, good, pull_loop)
                        (PulledTo-trans s round.0
                          (pull_loop f kv sha256 client fuel to round.0 round.1 stats' work) here
                          (pull_loop-Pulled fuel to round.0 round.1 stats' work))
                  | inr (inl failed) ↦ rw (leaf, done, failed, pull_loop) here
                  | inr (inr failed) ↦ rw (leaf, done, failed, pull_loop) here
                ]
          ]
          | inr inner ↦
              let round = pull_inner f kv sha256 client s peer node work in
              elim (Result-cases round.1) [
                | inl (work', good) ↦
                    rw (inner, good, pull_loop) (pull_loop-Pulled fuel to s round.0 stats work')
                | inr (inl failed) ↦ rw (inner, failed, pull_loop) (Pulled-refl s)
                | inr (inr failed) ↦ rw (inner, failed, pull_loop) (Pulled-refl s)
              ]
        ]

    sync_once-PulledTo :
        (fuel : ℕ) (s : Store f kv) (peer : client.State)
        → PulledTo s (sync_once f kv sha256 client fuel s peer)
    unfolding sync_once
    sync_once-PulledTo fuel s peer =
        let call = client.roots peer in
        elim (Option-cases call.1) [
          | inl failed ↦ rw (failed, sync_once) (Pulled-refl s)
          | inr (remote, good) ↦
              elim (Bool-cases
                (ltb remote.leaf_depth_bits 3 || not (remote.leaf_depth_bits % 3 == 0))) [
                  | inl bad ↦ rw (good, bad, sync_once) (Pulled-refl s)
                  | inr valid ↦ elim (Result-cases (push_roots f kv sha256 s remote.roots [])) [
                    | inr (inl failed) ↦ rw (good, valid, failed, sync_once) (Pulled-refl s)
                    | inr (inr failed) ↦ rw (good, valid, failed, sync_once) (Pulled-refl s)
                    | inl (work, pushed) ↦
                        rw (good, valid, pushed, sync_once)
                          (pull_loop-Pulled fuel (min remote.leaf_depth_bits merkle_leaf_depth_bits)
                            s call.0
                            (record { leaves_fetched = 0; rows_received = 0; rows_applied = 0 })
                            work)
                  ]
                ]
        ]

    -- Over a key-value tree whose transactions happen whole or not at all, whatever the peer
    -- answers, and wherever the pull ends, it has done nothing to the rows but merge some into
    -- them, and the forest is in step with the rows if it was.
    pub sync_once-Pulled :
        (fuel : ℕ) (s : Store f kv) (peer : client.State)
        (out : Store f kv × client.State × Result SyncStats)
        → sync_once f kv sha256 client fuel s peer ≡ some out
        → Pulled s out.0
    sync_once-Pulled fuel s peer out h = subst (PulledTo s) h (sync_once-PulledTo fuel s peer)
