-- ===== src/Sync/Pull/Streams.antt =====
-- About `sync_once` of src/sync.rs: streams that end, and the fuel.
use interstellar_db.Base.{
  ℕ, zero, suc, ◌+◌, ◌≡◌, refl, arith, List, [], ◌∷◌, Bool-cases, Option, Option-cases, none, some,
  ◌==◌, if◌then◌else◌, inl, inr, length, subst,
}
use interstellar_db.Base.Result.{Result, ok, err, panic, Result-cases}
use interstellar_db.Float.{F64}
use interstellar_db.Merkle.Forest.Items.{Row}
use interstellar_db.Merkle.Tree.{leaf_key_range}
use interstellar_db.Store.{Store}
use interstellar_db.Store.Ingest.{ingest}
use interstellar_db.Store.KeyValue.{Kv}
use interstellar_db.Sync.Pull.{
  Client, SyncStats, Node, ingest_stream, pull_leaf, pull_inner, pull_loop,
}

-- A stream that fails or is over after some rows.
pub data EndsSoon (client : Client) : client.Stream → Type 0 where
  broken : {rows : client.Stream} → (client.message rows).1 ≡ none → EndsSoon client rows
  over : {rows : client.Stream} → (client.message rows).1 ≡ some none → EndsSoon client rows
  onward :
      {rows : client.Stream} (row : Row)
      → (client.message rows).1 ≡ some (some row)
      → EndsSoon client (client.message rows).0
      → EndsSoon client rows

-- What holds from each fuel to the next holds for all that is more.
pub raise :
    {A : Type 0} (g : ℕ → Option A) (out : A)
    → ((n : ℕ) → g n ≡ some out → g (suc n) ≡ some out)
    → (k n : ℕ) → g n ≡ some out
    → g (k + n) ≡ some out
raise g out step zero n h = subst (λ (k : ℕ). g k ≡ some out) (omega arith) h
raise g out step (suc k) n h =
    subst (λ (j : ℕ). g j ≡ some out) (omega arith) (step (k + n) (raise g out step k n h))

module _ (f : F64) (kv : Kv) (sha256 : List ℕ → List ℕ) (client : Client) where
  pub ingest_stream-suc :
      (fuel : ℕ) (store : Store f kv) (stats : SyncStats) (rows : client.Stream)
      (out : Store f kv × Result SyncStats)
      → ingest_stream f kv sha256 client fuel store stats rows ≡ some out
      → ingest_stream f kv sha256 client (suc fuel) store stats rows ≡ some out
  unfolding ingest_stream
  ingest_stream-suc zero store stats rows out = λ bad. absurd (ground (arith, bad))
  ingest_stream-suc (suc fuel) store stats rows out =
      let call = client.message rows in
      elim (Option-cases call.1) [
        | inl failed ↦ rw (failed, ingest_stream) (λ h. h)
        | inr (none, over_now) ↦ rw (over_now, ingest_stream) (λ h. h)
        | inr (some row, got) ↦ elim (Bool-cases (length row.key == 20)) [
          | inr malformed ↦ rw (got, malformed, ingest_stream) (λ h. h)
          | inl wide ↦
              let step = ingest f kv sha256 store row.key row.payload in
              elim (Result-cases step.1) [
                | inl (changed, good) ↦
                    rw (got, wide, good, ingest_stream) (ingest_stream-suc fuel step.0 _ call.0 out)
                | inr (inl failed) ↦ rw (got, wide, failed, ingest_stream) (λ h. h)
                | inr (inr failed) ↦ rw (got, wide, failed, ingest_stream) (λ h. h)
              ]
        ]
      ]

  pub pull_leaf-suc :
      (fuel : ℕ) (store : Store f kv) (peer : client.State) (stats : SyncStats) (node : Node)
      (out : Store f kv × client.State × Result SyncStats)
      → pull_leaf f kv sha256 client fuel store peer stats node ≡ some out
      → pull_leaf f kv sha256 client (suc fuel) store peer stats node ≡ some out
  unfolding pull_leaf
  pull_leaf-suc fuel store peer stats node out =
      let range = leaf_key_range node.epoch node.prefix node.depth in
      let call = client.fetch peer range.start_key range.end_key in
      let begun = record stats { leaves_fetched = stats.leaves_fetched + 1 } in
      elim (Option-cases call.1) [
        | inl failed ↦ rw (failed, pull_leaf) (λ h. h)
        | inr (rows, good) ↦
            elim (Option-cases (ingest_stream f kv sha256 client fuel store begun rows)) [
              | inl short ↦ rw (good, short, pull_leaf) (λ bad. absurd (ground (arith, bad)))
              | inr (end, done) ↦
                  rw (good, done, ingest_stream-suc fuel store begun rows end done, pull_leaf)
                    (λ h. h)
            ]
      ]

  pub pull_loop-suc :
      (fuel to : ℕ) (store : Store f kv) (peer : client.State) (stats : SyncStats)
      (work : List Node) (out : Store f kv × client.State × Result SyncStats)
      → pull_loop f kv sha256 client fuel to store peer stats work ≡ some out
      → pull_loop f kv sha256 client (suc fuel) to store peer stats work ≡ some out
  unfolding pull_loop
  pull_loop-suc zero to store peer stats work out = λ bad. absurd (ground (arith, bad))
  pull_loop-suc (suc fuel) to store peer stats [] out = λ h. h
  pull_loop-suc (suc fuel) to store peer stats (node ∷ work) out =
      elim (Bool-cases (node.depth == to)) [
        | inl leaf ↦ elim (Option-cases (pull_leaf f kv sha256 client fuel store peer stats node)) [
          | inl short ↦ rw (leaf, short, pull_loop) (λ bad. absurd (ground (arith, bad)))
          | inr (round, done) ↦
              let again = pull_leaf-suc fuel store peer stats node round done in
              elim (Result-cases round.2) [
                | inl (stats', good) ↦
                    rw (leaf, done, again, good, pull_loop)
                      (pull_loop-suc fuel to round.0 round.1 stats' work out)
                | inr (inl failed) ↦ rw (leaf, done, again, failed, pull_loop) (λ h. h)
                | inr (inr failed) ↦ rw (leaf, done, again, failed, pull_loop) (λ h. h)
              ]
        ]
        | inr inner ↦
            let round = pull_inner f kv sha256 client store peer node work in
            elim (Result-cases round.1) [
              | inl (work', good) ↦
                  rw (inner, good, pull_loop) (pull_loop-suc fuel to store round.0 stats work' out)
              | inr (inl failed) ↦ rw (inner, failed, pull_loop) (λ h. h)
              | inr (inr failed) ↦ rw (inner, failed, pull_loop) (λ h. h)
            ]
      ]

  -- Some fuel takes a stream that ends to its end.
  pub ingest_stream-ends :
      (store : Store f kv) (stats : SyncStats) (rows : client.Stream)
      → EndsSoon client rows
      → (fuel : ℕ) × (out : Store f kv × Result SyncStats) × (ingest_stream f kv sha256 client fuel
            store stats rows
          ≡ some out)
  unfolding ingest_stream
  ingest_stream-ends store stats rows (broken failed) =
      (1, (store, err), rw (failed, ingest_stream) refl)
  ingest_stream-ends store stats rows (over done) =
      (1, (store, ok stats), rw (done, ingest_stream) refl)
  ingest_stream-ends store stats rows (onward row got more) =
      elim (Bool-cases (length row.key == 20)) [
        | inr malformed ↦ (1, (store, err), rw (got, malformed, ingest_stream) refl)
        | inl wide ↦
            let step = ingest f kv sha256 store row.key row.payload in
            elim (Result-cases step.1) [
              | inl (changed, good) ↦
                  let received = record stats { rows_received = stats.rows_received + 1 } in
                  let counted =
                    if changed
                    then record received { rows_applied = stats.rows_applied + 1 }
                    else received in
                  let (fuel, out, ends) =
                    ingest_stream-ends step.0 counted (client.message rows).0 more in
                  (suc fuel, out, rw (got, wide, good, ingest_stream) ends)
              | inr (inl failed) ↦ (1, (step.0, err), rw (got, wide, failed, ingest_stream) refl)
              | inr (inr failed) ↦ (1, (step.0, panic), rw (got, wide, failed, ingest_stream) refl)
            ]
      ]
