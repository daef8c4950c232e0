-- ===== src/Sync/Pull/Ends.antt =====
-- About `sync_once` of src/sync.rs: the end of the pull.
use interstellar_db.Base.{
  ℕ, zero, suc, ◌+◌, ◌*◌, ◌%◌, ◌/◌, ◌≡◌, ◌≢◌, refl, sym, ap, ◌∙◌, arith, List, [], ◌∷◌, ◌++◌, not,
  Bool-cases, Option-cases, some, ltb, ◌==◌, ==_iff, ==_ne, min, inl, inr, subst, ◌||◌,
}
use interstellar_db.Base.Result.{Result, ok, err, panic, Result-cases}
use interstellar_db.Float.{F64}
use interstellar_db.Store.{Store, merkle_leaf_depth_bits}
use interstellar_db.Store.KeyValue.{Kv}
use interstellar_db.Sync.Pull.{
  Client, SyncStats, Node, push_roots, pull_leaf, pull_inner, pull_loop, sync_once,
}
use interstellar_db.Sync.Pull.Queue.{
  AtDepth, Pushed, AtDepth-append, append_nil, append_assoc, push_roots-Pushed, pull_inner-Pushed,
}
use interstellar_db.Sync.Pull.Streams.{
  EndsSoon, raise, pull_leaf-suc, pull_loop-suc, ingest_stream-ends,
}
use interstellar_db.Merkle.Tree.{leaf_key_range}

module _ (f : F64) (kv : Kv) (sha256 : List ℕ → List ℕ) where
  -- Each stream that the peer opens fails or is over after some rows.
  abbrev pub StreamsEnd : Client → Type 0
  StreamsEnd client =
      (peer : client.State) (start end : List ℕ) (rows : client.Stream)
      → (client.fetch peer start end).1 ≡ some rows
      → EndsSoon client rows

  module _ (client : Client) (finite : StreamsEnd client) (descend_to : ℕ) where
    -- Some fuel is enough.
    abbrev Ends : Store f kv → client.State → SyncStats → List Node → Type 0
    Ends store peer stats work =
        (fuel : ℕ) × (out : Store f kv × client.State × Result SyncStats) × (pull_loop f kv sha256
            client fuel descend_to store peer stats work
          ≡ some out)

    pull_leaf-ends :
        (store : Store f kv) (peer : client.State) (stats : SyncStats) (node : Node)
        → (fuel : ℕ) × (round : Store f kv × client.State × Result SyncStats) × (pull_leaf f kv
              sha256 client fuel store peer stats node
            ≡ some round)
    unfolding pull_leaf
    pull_leaf-ends store peer stats node =
        let range = leaf_key_range node.epoch node.prefix node.depth in
        let call = client.fetch peer range.start_key range.end_key in
        elim (Option-cases call.1) [
          | inl failed ↦ (0, (store, call.0, err), rw (failed, pull_leaf) refl)
          | inr (rows, good) ↦
              let (fuel, out, ends) =
                ingest_stream-ends f kv sha256 client store
                  (record stats { leaves_fetched = stats.leaves_fetched + 1 }) rows
                  (finite peer range.start_key range.end_key rows good) in
              (fuel, (out.0, call.0, out.1), rw (good, ends, pull_leaf) refl)
        ]

    -- The fuel of a leaf's round, and of the rest.
    leaf_fuel :
        (n m : ℕ) (store : Store f kv) (peer : client.State) (stats : SyncStats) (node : Node)
        (round : Store f kv × client.State × Result SyncStats)
        → pull_leaf f kv sha256 client n store peer stats node ≡ some round
        → pull_leaf f kv sha256 client (n + m) store peer stats node ≡ some round
    leaf_fuel n m store peer stats node round h =
        let at = λ (k : ℕ). pull_leaf f kv sha256 client k store peer stats node in
        subst (λ (k : ℕ). at k ≡ some round) (omega arith)
          (raise at round (λ k. pull_leaf-suc f kv sha256 client k store peer stats node round) m n
            h)

    -- A leaf at the head of the queue.
    leaf_round :
        (store : Store f kv) (peer : client.State) (stats : SyncStats) (node : Node)
        (work : List Node)
        → node.depth ≡ descend_to
        → ((next : Store f kv) (peer' : client.State) (stats' : SyncStats)
            → Ends next peer' stats' work)
        → Ends store peer stats (node ∷ work)
    unfolding pull_loop
    leaf_round store peer stats node work at rest =
        let (n, round, done) = pull_leaf-ends store peer stats node in
        let leaf = (==_iff node.depth descend_to).1 at in
        elim (Result-cases round.2) [
          | inl (stats', good) ↦
              let (m, out, ends) = rest round.0 round.1 stats' in
              let go =
                λ (k : ℕ). pull_loop f kv sha256 client k descend_to round.0 round.1 stats' work in
              let more =
                raise go out
                  (λ k.
                    pull_loop-suc f kv sha256 client k descend_to round.0 round.1 stats' work out)
                  n m ends in
              (
                suc (n + m),
                out,
                rw (leaf, leaf_fuel n m store peer stats node round done, good, pull_loop) more,
              )
          | inr (inl failed) ↦
              (suc n, (round.0, round.1, err), rw (leaf, done, failed, pull_loop) refl)
          | inr (inr failed) ↦
              (suc n, (round.0, round.1, panic), rw (leaf, done, failed, pull_loop) refl)
        ]

    -- An inner node at the head: its children go behind the queue.
    inner_round :
        (store : Store f kv) (peer : client.State) (stats : SyncStats) (node : Node)
        (work : List Node)
        → node.depth ≢ descend_to
        → ((peer' : client.State) (more : List Node)
            → AtDepth (node.depth + 3) more
            → Ends store peer' stats (work ++ more))
        → Ends store peer stats (node ∷ work)
    unfolding pull_loop
    inner_round store peer stats node work off rest =
        let round = pull_inner f kv sha256 client store peer node work in
        let inner = ==_ne node.depth descend_to off in
        elim (Result-cases round.1) [
          | inl (work', good) ↦
              let (more, level, e) =
                subst (Pushed (node.depth + 3) work) good
                  (pull_inner-Pushed f kv sha256 client store peer node work) in
              let (fuel, out, ends) = rest round.0 more level in
              (
                suc fuel,
                out,
                rw (inner, good, pull_loop)
                    (ap (pull_loop f kv sha256 client fuel descend_to store round.0 stats) e
                      ∙ ends),
              )
          | inr (inl failed) ↦ (1, (store, round.0, err), rw (inner, failed, pull_loop) refl)
          | inr (inr failed) ↦ (1, (store, round.0, panic), rw (inner, failed, pull_loop) refl)
        ]

    -- A queue of leaves.
    drain :
        (work : List Node) (store : Store f kv) (peer : client.State) (stats : SyncStats)
        → AtDepth descend_to work
        → Ends store peer stats work
    unfolding pull_loop
    drain [] store peer stats at = (1, (store, peer, ok stats), refl)
    drain (node ∷ work) store peer stats at =
        leaf_round store peer stats node work at.0
          (λ next peer' stats'. drain work next peer' stats' at.1)

    -- One level: the queue is the rest of it, and what the level has pushed.
    level :
        (d : ℕ)
        → d ≢ descend_to
        → ((work : List Node) (store : Store f kv) (peer : client.State) (stats : SyncStats)
            → AtDepth (d + 3) work
            → Ends store peer stats work)
        → (now next : List Node) (store : Store f kv) (peer : client.State) (stats : SyncStats)
        → AtDepth d now
        → AtDepth (d + 3) next
        → Ends store peer stats (now ++ next)
    level d off below [] next store peer stats at at' = below next store peer stats at'
    level d off below (node ∷ now) next store peer stats at at' =
        inner_round store peer stats node (now ++ next)
          (subst (λ (n : ℕ). n ≢ descend_to) (sym at.0) off)
          (λ peer' more deeper. subst (Ends store peer' stats) (sym (append_assoc now next more)) (
            level d off below now (next ++ more) store peer' stats at.1 (
              AtDepth-append (d + 3) next more at'
                (subst (λ (n : ℕ). AtDepth (n + 3) more) at.0 deeper))))

    levels :
        (k d : ℕ)
        → d + 3 * k ≡ descend_to
        → (work : List Node) (store : Store f kv) (peer : client.State) (stats : SyncStats)
        → AtDepth d work
        → Ends store peer stats work
    levels zero d e work store peer stats at =
        drain work store peer stats (subst (λ (n : ℕ). AtDepth n work) (omega (arith, e)) at)
    levels (suc k) d e work store peer stats at =
        subst (Ends store peer stats) (sym (append_nil work)) (
          level d (λ h. omega (arith, e, h)) (levels k (d + 3) (omega (arith, e))) work [] store
            peer stats at tt)

  -- Against a peer whose row streams each fail or are over after some rows, some fuel is enough
  -- for the pull to end, from every store and whatever else the peer answers.
  pub sync_once-ends :
      (client : Client)
      → StreamsEnd client
      → (store : Store f kv) (peer : client.State)
      → (fuel : ℕ) × (out : Store f kv × client.State × Result SyncStats) × (sync_once f kv sha256
            client fuel store peer
          ≡ some out)
  unfolding sync_once
  sync_once-ends client finite store peer =
      let call = client.roots peer in
      elim (Option-cases call.1) [
        | inl failed ↦ (0, (store, call.0, err), rw (failed, sync_once) refl)
        | inr (remote, good) ↦
            elim (Bool-cases
              (ltb remote.leaf_depth_bits 3 || not (remote.leaf_depth_bits % 3 == 0))) [
                | inl bad ↦ (0, (store, call.0, err), rw (good, bad, sync_once) refl)
                | inr valid ↦ elim (Result-cases (push_roots f kv sha256 store remote.roots [])) [
                  | inr (inl failed) ↦
                      (0, (store, call.0, err), rw (good, valid, failed, sync_once) refl)
                  | inr (inr failed) ↦
                      (0, (store, call.0, panic), rw (good, valid, failed, sync_once) refl)
                  | inl (work, pushed) ↦
                      let to : ℕ = min remote.leaf_depth_bits merkle_leaf_depth_bits in
                      let (more, at, e) =
                        subst (Pushed 0 []) pushed
                          (push_roots-Pushed f kv sha256 store remote.roots []) in
                      let (fuel, out, ends) =
                        levels client finite to (to / 3) 0 (ground (arith, valid)) work store call.0
                          (record { leaves_fetched = 0; rows_received = 0; rows_applied = 0 })
                          (subst (AtDepth 0) (sym e) at) in
                      (fuel, out, rw (good, valid, pushed, sync_once) ends)
                ]
              ]
      ]
