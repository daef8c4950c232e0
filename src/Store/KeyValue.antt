-- ===== src/Store/KeyValue.antt =====
-- The SurrealKV tree, as a parameter: its operations, and what its documentation says of them.
use interstellar_db.Base.{ℕ, ◌≡◌, List, [], ◌∷◌, Bool, true, false, Option, some}
use interstellar_db.Merkle.Forest.Items.{Row}
use interstellar_db.Store.Entries.{find, put, erase, between, IsAscending}

pub data Write : Type 0 where
  set : List ℕ → List ℕ → Write
  delete : List ℕ → Write

-- `none` and `false` are errors. A transaction that writes is begun, filled and committed in one step,
-- since the program shares none; it may fail at any of the three. `get` begins its own transaction.
pub record Kv : Type 1 where
  pub Tree : Type 0
  pub commit : Tree → List Write → Tree × Bool
  pub get : Tree → List ℕ → Option (Option (List ℕ))
  -- Whether a read-only transaction begins.
  pub begin_read : Tree → Bool
  -- The rows of a range, its end excluded, as a read-only transaction iterates over them.
  pub range : Tree → List ℕ → List ℕ → Option (List Row)

-- What a transaction does to the entries.
unfoldable pub write : List Write → List Row → List Row
write [] rs = rs
write (set k v ∷ ws) rs = write ws (put k v rs)
write (delete k ∷ ws) rs = write ws (erase k rs)

-- A transaction happens whole or not at all; a read sees what is committed.
pub record IsKv (kv : Kv) (entries : kv.Tree → List Row) : Type 0 where
  pub commit-true :
      (t : kv.Tree) (ws : List Write)
      → (kv.commit t ws).1 ≡ true
      → entries (kv.commit t ws).0 ≡ write ws (entries t)
  pub commit-false :
      (t : kv.Tree) (ws : List Write)
      → (kv.commit t ws).1 ≡ false
      → entries (kv.commit t ws).0 ≡ entries t
  pub get-some :
      (t : kv.Tree) (k : List ℕ) (o : Option (List ℕ))
      → kv.get t k ≡ some o
      → o ≡ find k (entries t)
  pub range-some :
      (t : kv.Tree) (lo hi : List ℕ) (rs : List Row)
      → kv.range t lo hi ≡ some rs
      → rs ≡ between lo hi (entries t)
  pub entries-IsAscending : (t : kv.Tree) → IsAscending (entries t)
