-- ===== src/Merkle/Seal/Record.antt =====
-- Loading reads the entries of a seal record back.
use interstellar_db.Base.{
  ℕ, zero, suc, ◌+◌, ◌-◌, ◌*◌, ◌^◌, ◌<◌, ◌≡◌, refl, sym, ap, ap₂, ◌∙◌, arith, List, [], ◌∷◌, ◌++◌,
  none, true, false, ◌==◌, ==_self, ltb, length, length-append, get_elem?, take, drop, take-append,
  drop-append, All,
}
use interstellar_db.Base.BTreeMap.{get, alter}
use interstellar_db.Base.Bytes.{
  to_be_bytes, from_be_bytes, from_be_bytes-to_be_bytes, length-to_be_bytes,
}
use interstellar_db.Base.Word.{u32}
use interstellar_db.Merkle.Tree.{EpochTree, toggle}
use interstellar_db.Merkle.Tree
use interstellar_db.Merkle.Forest.{MerkleForest}
use interstellar_db.Merkle.Seal.{
  entry_bytes, seal_record, loaded, load_entries, load_checked, load_sealed_epoch,
}
use interstellar_db.Merkle.Seal.Fold.{toggle_all}
use mathlib.Core.Option
use native.Mathlib.Nat.{mod-eq_of_lt}

-- The entries fit their fields.
abbrev pub FitFields : List (ℕ × ℕ) → Type 0
FitFields es = All (λ (e : ℕ × ℕ). (e.0 < 2 ^ 64) × (e.1 < 2 ^ 128)) es

length-entry_bytes : (es : List (ℕ × ℕ)) → length (entry_bytes es) ≡ length es * 24
unfolding entry_bytes
length-entry_bytes [] = refl
length-entry_bytes ((p, h) ∷ es) = omega (
  arith,
  length-append (to_be_bytes 8 p) (to_be_bytes 16 h ++ entry_bytes es),
  length-append (to_be_bytes 16 h) (entry_bytes es),
  length-to_be_bytes 8 p,
  length-to_be_bytes 16 h,
  length-entry_bytes es,
)

drop-nil : {A : Type 0} (n : ℕ) → drop {A = A} n [] ≡ []
drop-nil zero = refl
drop-nil (suc n) = refl

drop-drop : {A : Type 0} (n m : ℕ) (xs : List A) → drop (n + m) xs ≡ drop m (drop n xs)
drop-drop zero m xs = ap (λ (k : ℕ). drop k xs) (omega arith)
drop-drop (suc n) m [] = drop-nil (suc n + m) ∙ sym (drop-nil m)
drop-drop (suc n) m (x ∷ xs) =
    let place : suc n + m ≡ suc (n + m) = omega arith in
    ap (λ (k : ℕ). drop k (x ∷ xs)) place ∙ drop-drop n m xs

-- A field that stands at an offset is read back.
read_field :
    (w off hi n : ℕ) (bytes rest : List ℕ)
    → hi - off ≡ w
    → n < 256 ^ w
    → drop off bytes ≡ to_be_bytes w n ++ rest
    → from_be_bytes (take (hi - off) (drop off bytes)) ≡ n
read_field w off hi n bytes rest width fits at =
    ap₂ (λ (k : ℕ) l. from_be_bytes (take k l)) width at
    ∙ ap from_be_bytes (take-append w (to_be_bytes w n) rest (length-to_be_bytes w n))
    ∙ from_be_bytes-to_be_bytes w n fits

behind_field :
    (w off n : ℕ) (bytes rest : List ℕ)
    → drop off bytes ≡ to_be_bytes w n ++ rest
    → drop (off + w) bytes ≡ rest
behind_field w off n bytes rest at =
    drop-drop off w bytes
    ∙ ap (drop w) at
    ∙ drop-append w (to_be_bytes w n) rest (length-to_be_bytes w n)

load_entries-toggle_all :
    (bytes : List ℕ) (es : List (ℕ × ℕ)) (i : ℕ) (tree : EpochTree)
    → FitFields es
    → drop (14 + i * 24) bytes ≡ entry_bytes es
    → load_entries bytes (length es) i tree ≡ toggle_all es tree
unfolding load_entries toggle_all entry_bytes
load_entries-toggle_all bytes [] i tree fit at = refl
load_entries-toggle_all bytes ((p, h) ∷ es) i tree fit at =
    let off : ℕ = 14 + i * 24 in
    let next : 14 + (i + 1) * 24 ≡ off + 8 + 16 = omega arith in
    let prefix = read_field 8 off (off + 8) p bytes _ (omega arith) (omega (arith, fit.0.0)) at in
    let at_hash = behind_field 8 off p bytes _ at in
    let hash =
      read_field 16 (off + 8) (off + 24) h bytes _ (omega arith) (omega (arith, fit.0.1)) at_hash in
    let at_next = ap (λ (k : ℕ). drop k bytes) next ∙ behind_field 16 (off + 8) h bytes _ at_hash in
    ap₂ (λ (q g : ℕ). load_entries bytes (length es) (i + 1) (toggle tree q g)) prefix hash
    ∙ load_entries-toggle_all bytes es (i + 1) (toggle tree p h) fit.1 at_next

module _ (leaf count : ℕ) (es : List (ℕ × ℕ)) (small : leaf < 256) (counted : count < 2 ^ 64)
    (few : length es < 2 ^ 32) where
  abbrev sealed : List ℕ
  sealed = seal_record leaf count es

  tail_lem :
      drop 2 sealed ≡ to_be_bytes 8 count ++ (to_be_bytes 4 (u32 (length es)) ++ entry_bytes es)
  unfolding seal_record
  tail_lem = refl

  at_number : drop 10 sealed ≡ to_be_bytes 4 (u32 (length es)) ++ entry_bytes es
  at_number = behind_field 8 2 count sealed _ tail_lem

  at_entries : drop 14 sealed ≡ entry_bytes es
  at_entries = behind_field 4 10 (u32 (length es)) sealed _ at_number

  number : u32 (length es) ≡ length es
  number = mod-eq_of_lt few

  length-seal_record : length sealed ≡ 14 + length es * 24
  unfolding seal_record
  length-seal_record = omega (
    arith,
    length-append (to_be_bytes 8 count) (to_be_bytes 4 (u32 (length es)) ++ entry_bytes es),
    length-append (to_be_bytes 4 (u32 (length es))) (entry_bytes es),
    length-to_be_bytes 8 count,
    length-to_be_bytes 4 (u32 (length es)),
    length-entry_bytes es,
  )

  module _ (fit : FitFields es) where
    -- Loading a record that matches the forest's depth puts the tree of its entries in.
    pub load_checked-seal_record :
        (f : MerkleForest) (epoch : ℕ)
        → load_checked f epoch sealed
          ≡ loaded (record f {
            trees =
                alter epoch
                  (λ old. record (toggle_all es (Tree.new f.leaf_depth_bits)) { count = count })
                  f.trees;
          })
    unfolding load_checked
    load_checked-seal_record f epoch =
        let counts = read_field 8 2 10 count sealed _ refl (omega (arith, counted)) tail_lem in
        let n =
          read_field 4 10 14 (u32 (length es)) sealed _ refl (omega arith) at_number ∙ number in
        let fits : (length sealed == 14 + length es * 24) ≡ true =
          ap (λ (k : ℕ). k == 14 + length es * 24) length-seal_record
          ∙ ==_self (14 + length es * 24) in
        rw (n, counts, fits)
          (ap
            (λ (t : EpochTree).
              loaded (record f { trees = alter epoch (λ old. record t { count = count }) f.trees }))
            (load_entries-toggle_all sealed es 0 (Tree.new f.leaf_depth_bits) fit at_entries))

    long_enough : ltb (length sealed) 14 ≡ false
    long_enough = ap (λ (k : ℕ). ltb k 14) length-seal_record ∙ ground arith

    version : (Option.get_or (get_elem? sealed 0) 0 == 1) ≡ true
    unfolding seal_record
    version = refl

    depth_byte : (Option.get_or (get_elem? sealed 1) 0 == leaf) ≡ true
    unfolding seal_record
    depth_byte = ap (λ (k : ℕ). k == leaf) (mod-eq_of_lt small) ∙ ==_self leaf

    pub load_sealed_epoch-seal_record :
        (f : MerkleForest) (epoch : ℕ)
        → f.leaf_depth_bits ≡ leaf
        → get epoch f.trees ≡ none
        → load_sealed_epoch f epoch sealed ≡ load_checked f epoch sealed
    unfolding load_sealed_epoch load_checked
    load_sealed_epoch-seal_record f epoch same absent =
        let depth : (Option.get_or (get_elem? sealed 1) 0 == f.leaf_depth_bits) ≡ true =
          ap (λ (k : ℕ). Option.get_or (get_elem? sealed 1) 0 == k) same ∙ depth_byte in
        rw (load_sealed_epoch, absent, long_enough, version, depth) refl
