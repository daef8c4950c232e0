-- ===== src/Store/Sealing/Matches.antt =====
-- About `seal_settled_epochs` of src/store.rs: the set of sealed epochs, and the seal records on disk.
use interstellar_db.Base.{
  ℕ, ◌^◌, ◌-◌, ◌/◌, ◌<◌, ◌≡◌, ◌≢◌, ◌⊎◌, refl, sym, ap, ◌∙◌, arith, List, [], ◌∷◌, ◌++◌, true, false,
  Bool-cases, Option-cases, none, some, inl, inr, length, drop, ℕ_discrete, subst, if◌then◌else◌,
  All,
}
use interstellar_db.Base.BTreeSet
use interstellar_db.Base.ByteOrder.{bytes_eq, bytes_eq_self}
use interstellar_db.Base.Bytes.{from_be_bytes, length-to_be_bytes, from_be_bytes-to_be_bytes}
use interstellar_db.Base.Result.{Result-cases}
use interstellar_db.Float.{F64}
use interstellar_db.Merkle.Forest.{MerkleForest, epochs}
use interstellar_db.Merkle.Forest.Shape.{IsWellFormed}
use interstellar_db.Merkle.Seal.RoundTrip.{get_elem?-some}
use interstellar_db.Base.BTreeMap.{get}
use interstellar_db.Merkle.Forest.Items.{Row}
use interstellar_db.Merkle.Seal.{serialize_epoch}
use interstellar_db.Store.{Store, seal_key}
use interstellar_db.Store.Entries.{find, data_rows}
use interstellar_db.Store.Entries.Laws.{find-put, unequal, data_rows-put_other}
use interstellar_db.Store.KeyValue.{Kv, IsKv, set, write}
use interstellar_db.Store.Sealing.{
  settled, is_busy, add_sealed, drop_sealed, seal_epoch, seal_loop, seal_settled_epochs,
}

pub seal_key_inj : (a b : ℕ) → a < 2 ^ 32 → b < 2 ^ 32 → seal_key a ≡ seal_key b → a ≡ b
unfolding seal_key
seal_key_inj a b ha hb e =
    sym (from_be_bytes-to_be_bytes 4 a ha)
    ∙ ap (λ (k : List ℕ). from_be_bytes (drop 2 k)) e
    ∙ from_be_bytes-to_be_bytes 4 b hb

pub length-seal_key : (e : ℕ) → length (seal_key e) ≡ 6
unfolding seal_key
length-seal_key e = ground (arith, length-to_be_bytes 4 e)

module _ (f : F64) (kv : Kv) (entries : kv.Tree → List Row) (is_kv : IsKv kv entries) where
  -- The record of an epoch is on disk, and says what the epoch's tree is.
  pub record HasRecord (s : Store f kv) (e : ℕ) : Type 0 where
    pub epoch_u32 : e < 2 ^ 32
    pub bytes : List ℕ
    pub stored : find (seal_key e) (entries s.tree) ≡ some bytes
    pub current : serialize_epoch s.merkle e ≡ some (some bytes)

  -- Each sealed epoch has its record on disk, and no other epoch has one.
  pub record IsSealed (s : Store f kv) : Type 0 where
    pub ascending : BTreeSet.IsAscending s.seal.sealed
    pub matches : (e : ℕ) → BTreeSet.contains e s.seal.sealed ≡ true → HasRecord s e
    pub unrecorded :
        (e : ℕ)
        → e < 2 ^ 32
        → BTreeSet.contains e s.seal.sealed ≡ false
        → find (seal_key e) (entries s.tree) ≡ none

  -- A commit of one record that lands, and what it leaves of the others.
  stored_after :
      (s : Store f kv) (epoch : ℕ) (bytes : List ℕ) (j : List ℕ)
      → (kv.commit s.tree (set (seal_key epoch) bytes ∷ [])).1 ≡ true
      → find j (entries (kv.commit s.tree (set (seal_key epoch) bytes ∷ [])).0)
        ≡ (if bytes_eq j (seal_key epoch) then some bytes else find j (entries s.tree))
  unfolding write
  stored_after s epoch bytes j landed =
      ap (find j) (is_kv.commit-true s.tree _ landed)
      ∙ find-put j (seal_key epoch) bytes (entries s.tree)

  -- After `insert` and `remove` of one epoch, a set holds what it held.
  dropped :
      (e epoch : ℕ) (xs : List ℕ)
      → BTreeSet.IsAscending xs
      → BTreeSet.contains e (BTreeSet.remove epoch (BTreeSet.insert epoch xs)) ≡ true
      → BTreeSet.contains e xs ≡ true
  dropped e epoch xs up h = ground (
    arith,
    h,
    BTreeSet.contains-remove e epoch (BTreeSet.insert epoch xs)
        (BTreeSet.insert-IsAscending epoch xs up),
    BTreeSet.contains-insert e epoch xs,
  )

  undropped :
      (e epoch : ℕ) (xs : List ℕ)
      → BTreeSet.IsAscending xs
      → BTreeSet.contains epoch xs ≡ false
      → BTreeSet.contains e (BTreeSet.remove epoch (BTreeSet.insert epoch xs)) ≡ false
      → BTreeSet.contains e xs ≡ false
  undropped e epoch xs up free = elim (ℕ_discrete e epoch) [
    | yes same ↦ λ h. ap (λ (n : ℕ). BTreeSet.contains n xs) same ∙ free
    | no other ↦ λ h. ground (
      arith,
      h,
      other,
      BTreeSet.contains-remove e epoch (BTreeSet.insert epoch xs)
          (BTreeSet.insert-IsAscending epoch xs up),
      BTreeSet.contains-insert e epoch xs,
    )
  ]

  IsSealed-new :
      (s : Store f kv) (epoch : ℕ) (bytes : List ℕ)
      → epoch < 2 ^ 32
      → IsSealed s
      → serialize_epoch s.merkle epoch ≡ some (some bytes)
      → (kv.commit s.tree (set (seal_key epoch) bytes ∷ [])).1 ≡ true
      → IsSealed (record (add_sealed f kv s epoch) {
        tree = (kv.commit s.tree (set (seal_key epoch) bytes ∷ [])).0;
      })
  unfolding add_sealed
  IsSealed-new s epoch bytes fits h now landed = record {
    ascending = BTreeSet.insert-IsAscending epoch s.seal.sealed h.ascending;
    matches = λ e. elim (ℕ_discrete e epoch) [
      | yes same ↦ λ _. record {
        epoch_u32 = subst (λ (n : ℕ). n < 2 ^ 32) (sym same) fits;
        bytes = bytes;
        stored =
            stored_after s epoch bytes (seal_key e) landed
            ∙ rw
                (ap (λ (n : ℕ). bytes_eq (seal_key n) (seal_key epoch)) same
                  ∙ bytes_eq_self (seal_key epoch))
                refl;
        current = ap (serialize_epoch s.merkle) same ∙ now;
      }
      | no other ↦ λ inside.
          let old : HasRecord s e =
            h.matches e
              (ground (arith, inside, other, BTreeSet.contains-insert e epoch s.seal.sealed)) in
          record {
            epoch_u32 = old.epoch_u32;
            bytes = old.bytes;
            stored =
                stored_after s epoch bytes (seal_key e) landed
                ∙ rw
                    (unequal (seal_key e) (seal_key epoch)
                      (λ k. other (seal_key_inj e epoch old.epoch_u32 fits k)))
                    old.stored;
            current = old.current;
          }
    ];
    unrecorded = λ e small out.
        let added = BTreeSet.contains-insert e epoch s.seal.sealed in
        let other : e ≢ epoch = λ same. ground (arith, out, added, same) in
        stored_after s epoch bytes (seal_key e) landed
        ∙ rw
            (unequal (seal_key e) (seal_key epoch) (λ k. other (seal_key_inj e epoch small fits k)))
            (h.unrecorded e small (ground (arith, out, added, other)));
  }

  -- Nothing on disk changed, and the set is as it was.
  IsSealed-back :
      (s : Store f kv) (epoch : ℕ) (tree : kv.Tree)
      → entries tree ≡ entries s.tree
      → BTreeSet.contains epoch s.seal.sealed ≡ false
      → IsSealed s
      → IsSealed (record (drop_sealed f kv (add_sealed f kv s epoch) epoch) { tree = tree })
  unfolding add_sealed drop_sealed
  IsSealed-back s epoch tree same free h = record {
    ascending =
        BTreeSet.remove-IsAscending epoch (BTreeSet.insert epoch s.seal.sealed)
          (BTreeSet.insert-IsAscending epoch s.seal.sealed h.ascending);
    matches = λ e inside.
        let old : HasRecord s e = h.matches e (dropped e epoch s.seal.sealed h.ascending inside) in
        record {
          epoch_u32 = old.epoch_u32;
          bytes = old.bytes;
          stored = ap (find (seal_key e)) same ∙ old.stored;
          current = old.current;
        };
    unrecorded = λ e small out.
        ap (find (seal_key e)) same
        ∙ h.unrecorded e small (undropped e epoch s.seal.sealed h.ascending free out);
  }

  not_sealed :
      (s : Store f kv) (epoch : ℕ)
      → is_busy epoch s.seal ≡ false
      → BTreeSet.contains epoch s.seal.sealed ≡ false
  unfolding is_busy
  not_sealed s epoch h = ground (arith, h)

  pub serialize_epoch-some :
      (m : MerkleForest) (e : ℕ)
      → IsWellFormed m
      → (serialize_epoch m e ≡ some none)
        ⊎ ((bytes : List ℕ) × (serialize_epoch m e ≡ some (some bytes)))
  serialize_epoch-some m e shape = elim (Option-cases (serialize_epoch m e)) [
    | inl panics ↦ absurd (no_panic panics)
    | inr (none, found) ↦ inl found
    | inr (some bytes, found) ↦ inr (bytes, found)
  ]
    where
      no_panic : serialize_epoch m e ≢ none
      no_panic =
          unfold serialize_epoch in
          elim (Option-cases (get e m.trees)) [
            | inl absent ↦ rw (absent, serialize_epoch) (λ h. ground (arith, h))
            | inr (t, found) ↦
                let inside : m.leaf_depth_bits / 3 - 1 < length t.levels =
                  omega (arith, shape.levels e t found, shape.depth) in
                rw
                  (
                    found,
                    get_elem?-some t.levels (m.leaf_depth_bits / 3 - 1) inside,
                    serialize_epoch,
                  )
                  (λ h. ground (arith, h))
          ]

  -- What a round of the sealer keeps.
  pub record SealsOn (s t : Store f kv) : Type 0 where
    pub merkle : t.merkle ≡ s.merkle
    pub rows : data_rows (entries t.tree) ≡ data_rows (entries s.tree)
    pub matches : IsSealed t

  record_rows :
      (s : Store f kv) (epoch : ℕ) (bytes : List ℕ)
      → data_rows (entries (kv.commit s.tree (set (seal_key epoch) bytes ∷ [])).0)
        ≡ data_rows (entries s.tree)
  unfolding write
  record_rows s epoch bytes =
      elim (Bool-cases (kv.commit s.tree (set (seal_key epoch) bytes ∷ [])).1) [
        | inl landed ↦
            ap data_rows (is_kv.commit-true s.tree _ landed)
            ∙ data_rows-put_other (seal_key epoch) bytes (entries s.tree)
                (λ h. omega (arith, h, length-seal_key epoch))
        | inr failed ↦ ap data_rows (is_kv.commit-false s.tree _ failed)
      ]

  seal_epoch-SealsOn :
      (s : Store f kv) (epoch : ℕ)
      → epoch < 2 ^ 32
      → IsWellFormed s.merkle
      → IsSealed s
      → SealsOn s (seal_epoch f kv s epoch).0
  unfolding seal_epoch add_sealed drop_sealed
  seal_epoch-SealsOn s epoch fits shape h = elim (Bool-cases (is_busy epoch s.seal)) [
    | inl busy ↦ rw (busy, seal_epoch) (record { merkle = refl; rows = refl; matches = h })
    | inr free ↦ elim (serialize_epoch-some s.merkle epoch shape) [
      | inl now ↦
          rw (free, now, seal_epoch)
            (record {
              merkle = refl;
              rows = refl;
              matches = IsSealed-back s epoch s.tree refl (not_sealed s epoch free) h;
            })
      | inr (bytes, now) ↦
          elim (Bool-cases (kv.commit s.tree (set (seal_key epoch) bytes ∷ [])).1) [
            | inl landed ↦
                rw (free, now, landed, seal_epoch)
                  (record {
                    merkle = refl;
                    rows = record_rows s epoch bytes;
                    matches = IsSealed-new s epoch bytes fits h now landed;
                  })
            | inr failed ↦
                rw (free, now, failed, seal_epoch)
                  (record {
                    merkle = refl;
                    rows = record_rows s epoch bytes;
                    matches =
                        IsSealed-back s epoch (kv.commit s.tree (set (seal_key epoch) bytes ∷ [])).0
                          (is_kv.commit-false s.tree _ failed) (not_sealed s epoch free) h;
                  })
          ]
    ]
  ]

  seal_loop-SealsOn :
      (es : List ℕ) (s : Store f kv) (newly : List ℕ)
      → All (λ e. e < 2 ^ 32) es
      → IsWellFormed s.merkle
      → IsSealed s
      → SealsOn s (seal_loop f kv s newly es).0
  unfolding seal_loop
  seal_loop-SealsOn [] s newly fits shape h = record { merkle = refl; rows = refl; matches = h }
  seal_loop-SealsOn (e ∷ es) s newly fits shape h =
      let next = (seal_epoch f kv s e).0 in
      let step : SealsOn s next = seal_epoch-SealsOn s e fits.0 shape h in
      elim (Result-cases (seal_epoch f kv s e).1) [
        | inl (now, good) ↦
            let more = if now then newly ++ e ∷ [] else newly in
            let rest =
              seal_loop-SealsOn es next more fits.1 (subst IsWellFormed (sym step.merkle) shape)
                step.matches in
            rw (good, seal_loop)
              (record {
                merkle = rest.merkle ∙ step.merkle;
                rows = rest.rows ∙ step.rows;
                matches = rest.matches;
              })
        | inr (inl failed) ↦ rw (failed, seal_loop) step
        | inr (inr failed) ↦ rw (failed, seal_loop) step
      ]

  All-settled : (P : ℕ → Type 0) (cutoff : ℕ) (es : List ℕ) → All P es → All P (settled cutoff es)
  unfolding settled
  All-settled P cutoff [] h = tt
  All-settled P cutoff (e ∷ es) h = ground (arith, h.0, All-settled P cutoff es h.1)

  -- Over a key-value tree whose transactions happen whole or not at all, for a well-formed forest
  -- whose epochs are below 2^32, `seal_settled_epochs` keeps the forest and the rows, and keeps
  -- the sealed epochs a set in which each has its record on disk, and the record is what its tree
  -- serializes to, and no u32 epoch outside the set has a record on disk, also where a commit
  -- fails.
  pub seal_settled_epochs-SealsOn :
      (s : Store f kv) (now_secs grace_secs : ℕ)
      → All (λ e. e < 2 ^ 32) (epochs s.merkle)
      → IsWellFormed s.merkle
      → IsSealed s
      → SealsOn s (seal_settled_epochs f kv s now_secs grace_secs).0
  unfolding seal_settled_epochs
  seal_settled_epochs-SealsOn s now_secs grace_secs fits shape h =
      seal_loop-SealsOn _ s [] (All-settled (λ e. e < 2 ^ 32) _ (epochs s.merkle) fits) shape h
