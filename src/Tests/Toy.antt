-- ===== src/Tests/Toy.antt =====
-- A key-value tree for examples: ascending entries, and no call fails. A store and a peer over it.
use interstellar_db.Base.{◌*◌, refl, sym, List, [], ◌∷◌, true, some, arith}
use interstellar_db.Indexer.{HybridSpatioTemporalIndexer, IsValid}
use interstellar_db.Merkle.Forest.Items.{Row}
use interstellar_db.Merkle.Forest.Shape.{IsWellFormed, new-IsWellFormed}
use interstellar_db.Store.{Store}
use interstellar_db.Store.Entries.{find, put, erase, between, IsAscending}
use interstellar_db.Store.Entries.Order.{put-IsAscending, erase-IsAscending}
use interstellar_db.Store.KeyValue.{Kv, IsKv, Write, set, delete, write}
use interstellar_db.Tests.Fixed.{fixed, unit}
use interstellar_db.Tests.MerkleExamples.{fresh, fresh_made}

pub write-IsAscending :
    (ws : List Write) (rs : List Row) → IsAscending rs → IsAscending (write ws rs)
unfolding write
write-IsAscending [] rs up = up
write-IsAscending (set k v ∷ ws) rs up =
    write-IsAscending ws (put k v rs) (put-IsAscending k v rs up)
write-IsAscending (delete k ∷ ws) rs up =
    write-IsAscending ws (erase k rs) (erase-IsAscending k rs up)

abbrev pub Sorted : Type 0
Sorted = (rs : List Row) × IsAscending rs

abbrev pub toy_kv : Kv
toy_kv = record {
  Tree = Sorted;
  commit = λ t ws. ((write ws t.0, write-IsAscending ws t.0 t.1), true);
  get = λ t k. some (find k t.0);
  begin_read = λ t. true;
  range = λ t lo hi. some (between lo hi t.0);
}

abbrev pub toy_entries : Sorted → List Row
toy_entries t = t.0

pub toy-IsKv : IsKv toy_kv toy_entries
toy-IsKv = record {
  commit-true = λ t ws h. refl;
  commit-false = λ t ws h. absurd (ground (arith, h));
  get-some = λ t k o h. sym (ground (arith, h));
  range-some = λ t lo hi rs h. sym (ground (arith, h));
  entries-IsAscending = λ t. t.1;
}

abbrev pub indexer : HybridSpatioTemporalIndexer fixed
indexer = record { max_range = 1000 * unit; epoch_duration = 3600 }

pub indexer-IsValid : IsValid fixed indexer
indexer-IsValid = record {
  range_pos = refl;
  range_finite = refl;
  double_finite = refl;
  duration_pos = omega arith;
  duration_u32 = omega arith;
}

abbrev pub empty : Store fixed toy_kv
empty = record {
  indexer = indexer;
  tree = ([], tt);
  merkle = fresh;
  seal = record { sealed = []; inflight = [] };
  receivers = 1;
  sent = [];
}

pub fresh-IsWellFormed : IsWellFormed fresh
fresh-IsWellFormed = new-IsWellFormed 15 fresh fresh_made
