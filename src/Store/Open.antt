-- ===== src/Store/Open.antt =====
-- src/store.rs: `unsealed_scan_ranges` and `open`. The tree is a parameter of `open`; `none` is an
-- error of its builder.
pub mod Ranges
use interstellar_db.Base.{
  ℕ, ◌+◌, List, [], ◌∷◌, ◌++◌, Bool, true, false, Option, none, some, ltb, ◌==◌, length, replicate,
  if◌then◌else◌,
}
use interstellar_db.Base.BTreeSet
use interstellar_db.Base.Bytes.{to_be_bytes, from_be_bytes, slice}
use interstellar_db.Base.Result.{Result, ok, err, panic}
use interstellar_db.Base.Word.{u32_max}
use interstellar_db.Float.{F64}
use interstellar_db.Indexer
use interstellar_db.Merkle.Forest.{MerkleForest, insert}
use interstellar_db.Merkle.Forest
use interstellar_db.Merkle.Forest.Items.{Row, insert_all}
use interstellar_db.Merkle.Seal.{LoadResult, loaded, load_sealed_epoch}
use interstellar_db.Store.{Store, merkle_leaf_depth_bits, seal_key_prefix}
use interstellar_db.Store.KeyValue.{Kv}
use interstellar_db.Store.Entries.{data_rows}

unfoldable pub epoch_start : ℕ → List ℕ
epoch_start e = to_be_bytes 4 e ++ replicate 16 0

-- `e.checked_add(1)` of a u32.
unfoldable pub checked_next : ℕ → Option ℕ
checked_next e = if e == u32_max then none else some (e + 1)

-- The loop over the sealed epochs and the tail range, from the cursor on.
unfoldable pub scan_ranges_from : Option ℕ → List ℕ → Option (List (List ℕ × List ℕ))
scan_ranges_from none [] = some []
scan_ranges_from (some start) [] = some ((epoch_start start, replicate 21 255) ∷ [])
scan_ranges_from none (e ∷ sealed) = none
scan_ranges_from (some start) (e ∷ sealed) = elim (checked_next e) [
  | none ↦ some (if ltb start e then (epoch_start start, epoch_start e) ∷ [] else [])
  | some next ↦ elim (scan_ranges_from (some next) sealed) [
    | none ↦ none
    | some rest ↦ some (if ltb start e then (epoch_start start, epoch_start e) ∷ rest else rest)
  ]
]

-- `none` would be the panic of `expect`.
unfoldable pub unsealed_scan_ranges : List ℕ → Option (List (List ℕ × List ℕ))
unsealed_scan_ranges sealed = scan_ranges_from (some 0) sealed

-- `*b"m!"` with 1 added to its last byte.
abbrev pub seal_end : List ℕ
seal_end = 109 ∷ 34 ∷ []

-- The loop over the seal records.
unfoldable pub load_seals : List Row → MerkleForest → List ℕ → MerkleForest × List ℕ
load_seals [] forest sealed = (forest, sealed)
load_seals (r ∷ rows) forest sealed =
    let skipped = load_seals rows forest sealed in
    if length r.key == 6
    then (let epoch = from_be_bytes (slice 2 6 r.key) in
        elim (load_sealed_epoch forest epoch r.payload) [
          | loaded next ↦ load_seals rows next (BTreeSet.insert epoch sealed)
          | other ↦ skipped
        ])
    else skipped

module _ (f : F64) (kv : Kv) (sha256 : List ℕ → List ℕ) where
  -- The loop over the ranges that are not sealed.
  unfoldable pub scan_unsealed :
      kv.Tree → List (List ℕ × List ℕ) → MerkleForest → Option MerkleForest
  scan_unsealed tree [] forest = some forest
  scan_unsealed tree ((start, end) ∷ ranges) forest = elim (kv.range tree start end) [
    | none ↦ none
    | some rows ↦ scan_unsealed tree ranges (insert_all sha256 forest (data_rows rows))
  ]

  unfoldable pub rebuild : kv.Tree → MerkleForest → Result (MerkleForest × List ℕ)
  rebuild tree forest =
      if kv.begin_read tree
      then elim (kv.range tree seal_key_prefix seal_end) [
        | none ↦ err
        | some records ↦
            let (with_seals, sealed) = load_seals records forest [] in
            elim (unsealed_scan_ranges sealed) [
              | none ↦ panic
              | some ranges ↦ elim (scan_unsealed tree ranges with_seals) [
                | none ↦ err
                | some full ↦ ok (full, sealed)
              ]
            ]
      ]
      else err

  unfoldable pub open_tree : kv.Tree → f.Value → ℕ → Result (Store f kv)
  open_tree tree max_range epoch_duration = elim (Forest.new merkle_leaf_depth_bits) [
    | none ↦ panic
    | some empty ↦ elim (rebuild tree empty) [
      | err ↦ err
      | panic ↦ panic
      | ok (forest, sealed) ↦ elim (Indexer.new f max_range epoch_duration) [
        | none ↦ panic
        | some indexer ↦ ok (record {
          indexer = indexer;
          tree = tree;
          merkle = forest;
          seal = record { sealed = sealed; inflight = [] };
          receivers = 0;
          sent = [];
        })
      ]
    ]
  ]

  unfoldable pub open_store : Option kv.Tree → f.Value → ℕ → Result (Store f kv)
  open_store none max_range epoch_duration = err
  open_store (some tree) max_range epoch_duration = open_tree tree max_range epoch_duration
