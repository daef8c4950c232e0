-- ===== src/Tests/StoreExamples.antt =====
-- Runs of the store, and its theorems applied to them.
use interstellar_db.Base.{
  ℕ, ◌*◌, ◌^◌, ◌<◌, ◌≡◌, ◌↔◌, inl, inr, refl, sym, ap, ◌∙◌, List, [], ◌∷◌, none, some, arith,
  Member, bit_xor, All,
}
use interstellar_db.Base.Result.{ok, map_ok}
use interstellar_db.Base.Bytes.{to_be_bytes, from_be_bytes}
use interstellar_db.Base.BTreeMap.{keys, alter}
use interstellar_db.Base.ByteOrder.{bytes_eq, bytes_eq_self}
use interstellar_db.Base.BTreeSet
use interstellar_db.Indexer.Key.{
  key_bytes, generate_key, epoch_field, epoch_bucket, spatial_code, nano_offset,
}
use interstellar_db.Indexer.Key.Order.{InWidth, length-key_bytes}
use interstellar_db.Merkle.Forest.{node_hash, epochs, insert, add_item}
use interstellar_db.Merkle.Forest.Items.{Row, set_hash, set_hash-nil, share, empty-node_hash}
use interstellar_db.Merkle.Tree.{item_digest, split_key, toggle, toggle_levels, xor_entry}
use interstellar_db.Store.{
  Store, begin_write_epochs, begin_loop, begin_write_epoch, mark, end_write_epochs, publish,
}
use interstellar_db.Store.KeyValue.{write}
use interstellar_db.Store.Entries.{find, put, data_rows}
use interstellar_db.Store.Ingest.{Record, ingest, store, store_batch, commit_marked, record_row}
use interstellar_db.Store.Lockstep.Ingest.{InLockstep, Merges, rows_of, ingest-Merges}
use interstellar_db.Store.Lockstep.Writes.{
  row_of, store-InLockstep, store_batch-InLockstep, store-drift,
}
use interstellar_db.Store.Merge.{merge_all}
use interstellar_db.Store.Merge.Converge.{IsCollisionFree, merge_all-converge}
use interstellar_db.Store.Open.{unsealed_scan_ranges}
use interstellar_db.Store.Open.Ranges.{AnyScans, unsealed_scan_ranges-AnyScans_iff}
use interstellar_db.Merkle.Seal.{
  serialize_epoch, seal_entries, sort_by_prefix, nonzero_entries, sort_in,
}
use interstellar_db.Merkle.Tree
use interstellar_db.Indexer.Morton.{encode_3d_morton}
use interstellar_db.Indexer.Coordinate.{normalize_coordinate}
use interstellar_db.Base.BTreeMap
use interstellar_db.Store.{unmark_all, unmark_inflight, mark_inflight}
use interstellar_db.Store.Sealing.{
  seal_settled_epochs, seal_loop, seal_epoch, is_busy, settled, add_sealed, drop_sealed,
}
use interstellar_db.Store.Sealing.Matches.{IsSealed, SealsOn, seal_settled_epochs-SealsOn}
use interstellar_db.Store.Sealing.Writers.{ingest-IsSealed, store-IsSealed}
use interstellar_db.Tests.Fixed.{fixed, unit}
use interstellar_db.Tests.MerkleExamples.{toy_hash, fresh}
use interstellar_db.Tests.Toy.{toy_kv, toy_entries, toy-IsKv, empty, fresh-IsWellFormed}

abbrev key_a : List ℕ
key_a = key_bytes 7 (2 ^ 62) 5

abbrev pub Lockstep : Store fixed toy_kv → Type 0
Lockstep = InLockstep fixed toy_kv toy_hash toy_entries toy-IsKv

pub empty-Lockstep : Lockstep empty
unfolding find data_rows
empty-Lockstep = record {
  leaf = refl;
  shape = fresh-IsWellFormed;
  hashes =
      λ e d p l. empty-node_hash fresh e d p l refl ∙ sym (ap some (set_hash-nil toy_hash e d p));
  planted = λ k v at. absurd (ground (arith, at));
}

ingest-Merges_example :
    Merges fixed toy_kv toy_hash toy_entries toy-IsKv key_a
      (1 ∷ [])
      (length-key_bytes 7 (2 ^ 62) 5)
      empty
      (ingest fixed toy_kv toy_hash empty key_a (1 ∷ []))
ingest-Merges_example =
    ingest-Merges fixed toy_kv toy_hash toy_entries toy-IsKv key_a (1 ∷ [])
      (length-key_bytes 7 (2 ^ 62) 5) empty

abbrev pub first_record : Record fixed
first_record = record {
  x = 110 * unit;
  y = 95 * unit;
  z = 100 * unit;
  secs = 4000;
  nanos = 7;
  payload = 1 ∷ 2 ∷ [];
}

abbrev second_record : Record fixed
second_record = record { x = 0; y = 0; z = 0; secs = 9000; nanos = 0; payload = [] }

first_new :
    find (row_of toy_hash fixed toy_kv toy_entries toy-IsKv empty first_record).key [] ≡ none
unfolding find
first_new = refl

store-InLockstep_example : Lockstep (store fixed toy_kv toy_hash empty first_record).0
unfolding data_rows
store-InLockstep_example =
    store-InLockstep toy_hash fixed toy_kv toy_entries toy-IsKv empty first_record empty-Lockstep
      first_new

second_new :
    find (row_of toy_hash fixed toy_kv toy_entries toy-IsKv empty second_record).key (
      put
        (row_of toy_hash fixed toy_kv toy_entries toy-IsKv empty first_record).key
        (1 ∷ 2 ∷ [])
        [])
    ≡ none
unfolding find put bytes_eq record_row generate_key key_bytes to_be_bytes epoch_bucket
second_new = refl

abbrev pub stored : Store fixed toy_kv
stored = (store fixed toy_kv toy_hash empty first_record).0

pub stored-Lockstep : Lockstep stored
unfolding data_rows
stored-Lockstep =
    store-InLockstep toy_hash fixed toy_kv toy_entries toy-IsKv empty first_record empty-Lockstep
      first_new

abbrev pub first_key : List ℕ
first_key = (row_of toy_hash fixed toy_kv toy_entries toy-IsKv stored first_record).key

pub stored_rows :
    rows_of fixed toy_kv toy_hash toy_entries toy-IsKv stored
    ≡ record { key = first_key; payload = 1 ∷ 2 ∷ [] } ∷ []
unfolding data_rows store commit_marked begin_write_epochs begin_loop begin_write_epoch mark
    end_write_epochs publish write put BTreeSet.contains record_row generate_key key_bytes
    to_be_bytes
stored_rows = refl

-- The record again: its key holds the payload.
present :
    find first_key (rows_of fixed toy_kv toy_hash toy_entries toy-IsKv stored) ≡ some (1 ∷ 2 ∷ [])
unfolding find
present = rw stored_rows (rw (bytes_eq_self first_key) refl)

lands : (store fixed toy_kv toy_hash stored first_record).1 ≡ ok first_key
unfolding store commit_marked begin_write_epochs begin_loop begin_write_epoch mark end_write_epochs
    publish write put BTreeSet.contains record_row generate_key key_bytes to_be_bytes map_ok
lands = refl

store-drift_example :
    node_hash (store fixed toy_kv toy_hash stored first_record).0.merkle 1 0 0
    ≡ some (
        bit_xor
          (set_hash toy_hash 1 0 0 (
            rows_of fixed toy_kv toy_hash toy_entries toy-IsKv
              (store fixed toy_kv toy_hash stored first_record).0))
          (share toy_hash 1 0 0 (record { key = first_key; payload = 1 ∷ 2 ∷ [] })))
store-drift_example =
    store-drift toy_hash fixed toy_kv toy_entries toy-IsKv stored first_record (1 ∷ 2 ∷ []) 1 0 0
      stored-Lockstep present lands (record { within = omega arith; multiple = refl })

store_batch-InLockstep_example :
    Lockstep (store_batch fixed toy_kv toy_hash empty (first_record ∷ second_record ∷ [])).0
unfolding data_rows record_row
store_batch-InLockstep_example =
    store_batch-InLockstep toy_hash fixed toy_kv toy_entries toy-IsKv empty
      (first_record ∷ second_record ∷ []) empty-Lockstep (first_new, (second_new, tt))

empty-IsSealed : IsSealed fixed toy_kv toy_entries toy-IsKv empty
unfolding BTreeSet.contains find
empty-IsSealed = record {
  ascending = tt;
  matches = λ e h. absurd (ground (arith, h));
  unrecorded = λ e small out. refl;
}

stored-IsSealed : IsSealed fixed toy_kv toy_entries toy-IsKv stored
stored-IsSealed =
    store-IsSealed fixed toy_kv toy_hash toy_entries toy-IsKv empty empty-IsSealed first_record

stored_epochs : epochs stored.merkle ≡ 1 ∷ []
unfolding epochs keys store commit_marked begin_write_epochs begin_loop begin_write_epoch
    BTreeSet.contains end_write_epochs publish mark insert alter split_key epoch_field from_be_bytes
    record_row generate_key to_be_bytes epoch_bucket key_bytes
stored_epochs = refl

stored-u32 : All (λ e. e < 2 ^ 32) (epochs stored.merkle)
stored-u32 = rw stored_epochs (omega arith, tt)

seal_settled_epochs-SealsOn_example :
    SealsOn fixed toy_kv toy_entries toy-IsKv stored
      (seal_settled_epochs fixed toy_kv stored 100_000 3600).0
seal_settled_epochs-SealsOn_example =
    seal_settled_epochs-SealsOn fixed toy_kv toy_entries toy-IsKv stored 100_000 3600 stored-u32
      stored-Lockstep.shape stored-IsSealed

abbrev sealed : Store fixed toy_kv
sealed = (seal_settled_epochs fixed toy_kv stored 100_000 3600).0

-- The sealer has sealed the one epoch.
sealed_one : sealed.seal.sealed ≡ 1 ∷ []
unfolding seal_settled_epochs seal_loop seal_epoch is_busy settled add_sealed drop_sealed
    serialize_epoch store commit_marked begin_write_epochs begin_loop begin_write_epoch
    BTreeSet.contains BTreeSet.insert end_write_epochs unmark_all unmark_inflight mark_inflight
    publish mark insert alter split_key epoch_field from_be_bytes record_row generate_key
    to_be_bytes epoch_bucket key_bytes epochs keys BTreeMap.get add_item toggle toggle_levels
    Tree.new seal_entries sort_by_prefix nonzero_entries xor_entry item_digest spatial_code
    encode_3d_morton normalize_coordinate nano_offset sort_in BTreeMap.remove
sealed_one = refl

sealed-IsSealed : IsSealed fixed toy_kv toy_entries toy-IsKv sealed
sealed-IsSealed =
    (seal_settled_epochs-SealsOn fixed toy_kv toy_entries toy-IsKv stored 100_000 3600 stored-u32
      stored-Lockstep.shape stored-IsSealed).matches

store-IsSealed_example :
    IsSealed fixed toy_kv toy_entries toy-IsKv (store fixed toy_kv toy_hash sealed first_record).0
store-IsSealed_example =
    store-IsSealed fixed toy_kv toy_hash toy_entries toy-IsKv sealed sealed-IsSealed first_record

ingest-IsSealed_example :
    IsSealed fixed toy_kv toy_entries toy-IsKv
      (ingest fixed toy_kv toy_hash sealed key_a (1 ∷ [])).0
ingest-IsSealed_example =
    ingest-IsSealed fixed toy_kv toy_hash toy_entries toy-IsKv key_a (1 ∷ [])
      (length-key_bytes 7 (2 ^ 62) 5) sealed sealed-IsSealed

unsealed_scan_ranges-AnyScans_iff_example :
    (ranges : List (List ℕ × List ℕ)) × (unsealed_scan_ranges (3 ∷ 7 ∷ []) ≡ some ranges)
    × ((e m t : ℕ) (w : InWidth e m t) → AnyScans e m t w ranges ↔ ¬ Member e (3 ∷ 7 ∷ []))
unsealed_scan_ranges-AnyScans_iff_example =
    unsealed_scan_ranges-AnyScans_iff (3 ∷ 7 ∷ []) ((omega arith, tt), (tt, tt))
      (omega arith, (omega arith, tt))

-- Two payloads for one key, under the identity as a hash.
abbrev same_bytes : List ℕ → List ℕ
same_bytes bytes = bytes

abbrev one : Row
one = record { key = []; payload = 1 ∷ [] }

abbrev two : Row
two = record { key = []; payload = 2 ∷ [] }

swapped : (r : Row) → Member r (one ∷ two ∷ []) ↔ Member r (two ∷ one ∷ [])
swapped r = (
  λ m. elim m [ inl e ↦ inr (inl e) | inr (inl e) ↦ inl e | inr (inr n) ↦ inr (inr n) ],
  λ m. elim m [ inl e ↦ inr (inl e) | inr (inl e) ↦ inl e | inr (inr n) ↦ inr (inr n) ],
)

digests : (item_digest same_bytes [] (1 ∷ []) ≡ 1) × (item_digest same_bytes [] (2 ∷ []) ≡ 2)
unfolding item_digest from_be_bytes
digests = (refl, refl)

abbrev digest_of : Row → ℕ
digest_of r = item_digest same_bytes r.key r.payload

one_or_two : IsCollisionFree same_bytes (two ∷ one ∷ [])
one_or_two r s (inl a) (inl b) key same = ap (λ (u : Row). u.payload) (a ∙ sym b)
one_or_two r s (inr (inl a)) (inr (inl b)) key same = ap (λ (u : Row). u.payload) (a ∙ sym b)
one_or_two r s (inl a) (inr (inl b)) key same =
    absurd (omega (arith, same, ap digest_of a, ap digest_of b, digests))
one_or_two r s (inr (inl a)) (inl b) key same =
    absurd (omega (arith, same, ap digest_of a, ap digest_of b, digests))
one_or_two r s (inr (inr m)) n key same = absurd m
one_or_two r s (inl a) (inr (inr n)) key same = absurd n
one_or_two r s (inr (inl a)) (inr (inr n)) key same = absurd n

merge_all-converge_example :
    merge_all same_bytes (one ∷ two ∷ []) [] ≡ merge_all same_bytes (two ∷ one ∷ []) []
merge_all-converge_example =
    merge_all-converge same_bytes (one ∷ two ∷ []) (two ∷ one ∷ []) [] [] tt tt swapped one_or_two
