-- ===== src/Tests/SyncExamples.antt =====
-- Runs of the queries, of the synchronisation and of the hub, and their theorems applied to them.
use interstellar_db.Base.{
  ℕ, ◌*◌, ◌≡◌, inl, refl, List, [], ◌∷◌, ◌++◌, Bool, true, false, Option, none, some, arith, Member,
}
use interstellar_db.Base.Result.{Result, ok, err, panic}
use interstellar_db.Base.Bytes.{to_be_bytes, from_be_bytes}
use interstellar_db.Indexer.Coordinate.{normalize_coordinate, denormalize_coordinate}
use interstellar_db.Indexer.Morton.{encode_3d_morton, decode_3d_morton}
use interstellar_db.Indexer.Key.{
  key_bytes, epoch_field, spatial_field, nano_field, epoch_bucket, nano_offset, spatial_code,
  generate_key, decode_key,
}
use interstellar_db.Indexer.Key.Order.{length-key_bytes}
use interstellar_db.Indexer.Ranges.Box.{InBox}
use interstellar_db.Indexer.Ranges.Query.{IsWindow}
use interstellar_db.Merkle.Forest.Items.{Row}
use interstellar_db.Hub.{Mpsc, Subscription, dispatch}
use interstellar_db.Hub.Delivery.{Dispatched, dispatch-Dispatched}
use interstellar_db.Store.{Store, ObservationEvent}
use interstellar_db.Store.Entries.{between}
use interstellar_db.Store.Query.{Observation, observation, in_sphere, is_hit, query_window}
use interstellar_db.Store.Query.Finds.{IsHitOf, IsAnswer, query_window-finds, query_window_sound}
use interstellar_db.Store.Query.Sorted.{IsChronological, query_window-IsChronological}
use interstellar_db.Sync.{RowStream, roots, children, fetch}
use interstellar_db.Sync.Pull.{Client, SyncStats, sync_once}
use interstellar_db.Sync.Pull.Ends.{sync_once-ends}
use interstellar_db.Sync.Pull.Streams.{EndsSoon, over, broken, onward}
use interstellar_db.Sync.Pull.Keeps.{Pulled, sync_once-Pulled}
use interstellar_db.Tests.Fixed.{fixed, unit, fixed-IsIeee}
use interstellar_db.Tests.MerkleExamples.{toy_hash, fresh}
use interstellar_db.Tests.StoreExamples.{stored}
use interstellar_db.Tests.Toy.{toy_kv, toy_entries, toy-IsKv, indexer, indexer-IsValid, empty}

-- A peer that answers as a store does.
abbrev pub ok_or_none : {A : Type 0} → Result A → Option A
ok_or_none (ok a) = some a
ok_or_none err = none
ok_or_none panic = none

abbrev pub next_message : RowStream → RowStream × Option (Option Row)
next_message [] = ([], some none)
next_message (none ∷ rows) = (rows, none)
next_message (some row ∷ rows) = (rows, some (some row))

abbrev pub honest : Store fixed toy_kv → Client
honest peer = record {
  State = Unit;
  Stream = RowStream;
  roots = λ st. (tt, some (roots fixed toy_kv peer));
  children = λ st e d p. (tt, ok_or_none (children fixed toy_kv peer e d p));
  fetch = λ st lo hi. (tt, ok_or_none (fetch fixed toy_kv peer lo hi));
  message = next_message;
}

-- Its streams are lists.
list_ends : (peer : Store fixed toy_kv) (rows : RowStream) → EndsSoon (honest peer) rows
list_ends peer [] = over refl
list_ends peer (none ∷ rows) = broken refl
list_ends peer (some row ∷ rows) = onward row refl (list_ends peer rows)

sync_once-ends_example :
    (fuel : ℕ) × (out : Store fixed toy_kv × Unit × Result SyncStats) × (sync_once fixed toy_kv
        toy_hash
        (honest stored)
        fuel
        empty
        tt
      ≡ some out)
sync_once-ends_example =
    sync_once-ends fixed toy_kv toy_hash (honest stored) (λ st lo hi rows h. list_ends stored rows)
      empty tt

abbrev pulled :
    (fuel : ℕ) × (out : Store fixed toy_kv × Unit × Result SyncStats) × (sync_once fixed toy_kv
        toy_hash
        (honest stored)
        fuel
        empty
        tt
      ≡ some out)
pulled =
    sync_once-ends fixed toy_kv toy_hash (honest stored) (λ st lo hi rows h. list_ends stored rows)
      empty tt

sync_once-Pulled_example : Pulled fixed toy_kv toy_hash toy_entries toy-IsKv empty pulled.1.0
sync_once-Pulled_example =
    sync_once-Pulled fixed toy_kv toy_hash toy_entries toy-IsKv (honest stored) pulled.0 empty tt
      pulled.1 pulled.2

inside :
    InBox fixed indexer
      (100 * unit)
      (100 * unit)
      (100 * unit)
      (30 * unit)
      (110 * unit)
      (95 * unit)
      (100 * unit)
inside = record { x_lo = refl; x_hi = refl; y_lo = refl; y_hi = refl; z_lo = refl; z_hi = refl }

window : IsWindow fixed indexer 3700 7500
window = record { order = omega arith; end_u32 = omega arith }

abbrev seen_key : List ℕ
seen_key = generate_key fixed indexer (110 * unit) (95 * unit) (100 * unit) 4000 7

abbrev first_row : Row
first_row = record { key = seen_key; payload = 1 ∷ 2 ∷ [] }

abbrev holding : Store fixed toy_kv
holding = record {
  indexer = indexer;
  tree = (first_row ∷ [], (tt, tt));
  merkle = fresh;
  seal = record { sealed = []; inflight = [] };
  receivers = 0;
  sent = [];
}

abbrev first_seen : Observation fixed
first_seen = observation fixed toy_kv holding first_row

first_hit :
    is_hit fixed toy_kv (100 * unit) (100 * unit) (100 * unit) (900 * unit) 3700 7500 first_seen
    ≡ true
unfolding is_hit decode_key epoch_field from_be_bytes generate_key key_bytes to_be_bytes
    epoch_bucket nano_field nano_offset in_sphere denormalize_coordinate decode_3d_morton
    spatial_field spatial_code encode_3d_morton normalize_coordinate
first_hit = refl

first_found :
    IsHitOf fixed toy_kv toy_entries toy-IsKv holding
      (100 * unit)
      (100 * unit)
      (100 * unit)
      (30 * unit)
      3700
      7500
      first_seen
      first_row
unfolding generate_key
first_found = record {
  stored = inl refl;
  wide = length-key_bytes _ _ _;
  hit = first_hit;
  same = refl;
}

query_window-finds_example :
    (found : List (Observation fixed)) × (query_window fixed toy_kv holding
        (100 * unit)
        (100 * unit)
        (100 * unit)
        (30 * unit)
        3700
        7500
      ≡ ok found)
    × Member first_seen found
query_window-finds_example =
    query_window-finds fixed toy_kv toy_entries toy-IsKv holding (100 * unit) (100 * unit)
      (100 * unit) (30 * unit) 3700 7500 fixed-IsIeee indexer-IsValid window (110 * unit)
      (95 * unit) (100 * unit) inside 4000 7 (omega arith) (omega arith) (inl (omega arith)) refl
      (λ lo hi. (between lo hi holding.tree.0, refl)) first_seen first_row refl first_found

abbrev answer :
    (found : List (Observation fixed)) × (query_window fixed toy_kv holding
        (100 * unit)
        (100 * unit)
        (100 * unit)
        (30 * unit)
        3700
        7500
      ≡ ok found)
    × Member first_seen found
answer =
    query_window-finds fixed toy_kv toy_entries toy-IsKv holding (100 * unit) (100 * unit)
      (100 * unit) (30 * unit) 3700 7500 fixed-IsIeee indexer-IsValid window (110 * unit)
      (95 * unit) (100 * unit) inside 4000 7 (omega arith) (omega arith) (inl (omega arith)) refl
      (λ lo hi. (between lo hi holding.tree.0, refl)) first_seen first_row refl first_found

query_window_sound_example :
    (r : Row) × IsAnswer fixed toy_kv toy_entries toy-IsKv holding
      (100 * unit)
      (100 * unit)
      (100 * unit)
      (30 * unit)
      3700
      7500
      first_seen
      r
query_window_sound_example =
    query_window_sound fixed toy_kv toy_entries toy-IsKv holding (100 * unit) (100 * unit)
      (100 * unit) (30 * unit) 3700 7500 answer.0 first_seen answer.1 answer.2

query_window-IsChronological_example : IsChronological fixed answer.0
query_window-IsChronological_example =
    query_window-IsChronological fixed toy_kv holding (100 * unit) (100 * unit) (100 * unit)
      (30 * unit) 3700 7500 answer.0 answer.1

-- A channel that never blocks: whether it is closed, and what is in it.
abbrev toy_mpsc : Mpsc fixed
toy_mpsc = record {
  Sender = Bool × List (ObservationEvent fixed);
  channel = λ n. (false, []);
  is_closed = λ tx. tx.0;
  try_send = λ tx e. (tx.0, tx.1 ++ e ∷ []);
}

abbrev near : Bool → Subscription fixed toy_mpsc
near gone = record {
  center_x = 100 * unit;
  center_y = 100 * unit;
  center_z = 100 * unit;
  r2 = 900 * unit;
  max_age_secs = 60;
  tx = (gone, []);
}

abbrev sighting : ObservationEvent fixed
sighting = record {
  key = seen_key;
  x = 110 * unit;
  y = 95 * unit;
  z = 100 * unit;
  timestamp_secs = 4000;
  timestamp_nanos = 7;
  payload = 1 ∷ 2 ∷ [];
}

-- One that takes what is at most five seconds old.
abbrev recent : Subscription fixed toy_mpsc
recent = record (near false) { max_age_secs = 5 }

dispatch-Dispatched_example :
    Dispatched fixed toy_mpsc 4010 sighting
      (near true ∷ near false ∷ recent ∷ [])
      (dispatch fixed toy_mpsc 4010 sighting (near true ∷ near false ∷ recent ∷ []))
dispatch-Dispatched_example =
    dispatch-Dispatched fixed toy_mpsc (λ tx e open_now. open_now) 4010 sighting
      (near true ∷ near false ∷ recent ∷ [])
