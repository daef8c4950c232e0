-- ===== src/Store/Sealing/Unseal.antt =====
-- About src/store.rs: `begin_write_epochs` and the seal records on disk.
use interstellar_db.Base.{
  ℕ, ◌≡◌, ◌≢◌, refl, sym, ap, ◌∙◌, arith, List, [], ◌∷◌, ◌++◌, true, false, Bool-cases, inl, inr,
  subst, All, ℕ_discrete,
}
use interstellar_db.Base.BTreeSet
use interstellar_db.Base.Result.{Result, ok, Result-cases}
use interstellar_db.Float.{F64}
use interstellar_db.Merkle.Forest.Items.{Row}
use interstellar_db.Merkle.Seal.{serialize_epoch}
use interstellar_db.Store.{Store, seal_key, mark, begin_write_epoch, begin_loop, end_write_epochs}
use interstellar_db.Store.Entries.{find, erase}
use interstellar_db.Store.Entries.Order.{find-erase_other, find-erase_own}
use interstellar_db.Store.KeyValue.{Kv, IsKv, delete, write}
use interstellar_db.Store.Sealing.Matches.{HasRecord, IsSealed, seal_key_inj}

module _ (f : F64) (kv : Kv) (entries : kv.Tree → List Row) (is_kv : IsKv kv entries) where
  -- An epoch that no seal record stands for.
  abbrev pub Unsealed : Store f kv → ℕ → Type 0
  Unsealed s e = BTreeSet.contains e s.seal.sealed ≡ false

  -- A step after which fewer epochs are sealed, each as before.
  pub record Unseals (s t : Store f kv) : Type 0 where
    pub merkle : t.merkle ≡ s.merkle
    pub fewer : (e : ℕ) → Unsealed s e → Unsealed t e
    pub matches : IsSealed f kv entries is_kv t

  -- Where the set is the same, and of each sealed epoch the record and the tree.
  pub IsSealed-of_same :
      (s t : Store f kv)
      → t.seal.sealed ≡ s.seal.sealed
      → ((e : ℕ) → find (seal_key e) (entries t.tree) ≡ find (seal_key e) (entries s.tree))
      → ((e : ℕ)
          → BTreeSet.contains e s.seal.sealed ≡ true
          → serialize_epoch t.merkle e ≡ serialize_epoch s.merkle e)
      → IsSealed f kv entries is_kv s
      → IsSealed f kv entries is_kv t
  IsSealed-of_same s t same disk forest h = record {
    ascending = subst BTreeSet.IsAscending (sym same) h.ascending;
    matches = λ e inside.
        let present : BTreeSet.contains e s.seal.sealed ≡ true =
          ap (BTreeSet.contains e) (sym same) ∙ inside in
        let old : HasRecord f kv entries is_kv s e = h.matches e present in
        record {
          epoch_u32 = old.epoch_u32;
          bytes = old.bytes;
          stored = disk e ∙ old.stored;
          current = forest e present ∙ old.current;
        };
    unrecorded =
        λ e small out. disk e ∙ h.unrecorded e small (ap (BTreeSet.contains e) (sym same) ∙ out);
  }

  unseal_one :
      (s : Store f kv) (e : ℕ)
      → IsSealed f kv entries is_kv s
      → BTreeSet.contains e s.seal.sealed ≡ true
      → (kv.commit s.tree (delete (seal_key e) ∷ [])).1 ≡ true
      → (inflight : List (ℕ × ℕ))
      → IsSealed f kv entries is_kv (record s {
        tree = (kv.commit s.tree (delete (seal_key e) ∷ [])).0;
        seal = record { sealed = BTreeSet.remove e s.seal.sealed; inflight = inflight };
      })
  unfolding write
  unseal_one s e h present landed inflight = record {
    ascending = BTreeSet.remove-IsAscending e s.seal.sealed h.ascending;
    matches = λ j inside.
        let removed = BTreeSet.contains-remove j e s.seal.sealed h.ascending in
        let other : j ≢ e = λ same. ground (arith, inside, removed, same) in
        let old : HasRecord f kv entries is_kv s j =
          h.matches j (ground (arith, inside, removed, other)) in
        record {
          epoch_u32 = old.epoch_u32;
          bytes = old.bytes;
          stored =
              ap (find (seal_key j)) (is_kv.commit-true s.tree _ landed)
              ∙ find-erase_other (seal_key j) (seal_key e) (entries s.tree)
                  (λ k. other (seal_key_inj j e old.epoch_u32 (h.matches e present).epoch_u32 k))
              ∙ old.stored;
          current = old.current;
        };
    unrecorded = λ j small out.
        let removed = BTreeSet.contains-remove j e s.seal.sealed h.ascending in
        ap (find (seal_key j)) (is_kv.commit-true s.tree _ landed) ∙ elim (ℕ_discrete j e) [
          | yes same ↦
              ap (λ (n : ℕ). find (seal_key n) (erase (seal_key e) (entries s.tree))) same
              ∙ find-erase_own (seal_key e) (entries s.tree) (is_kv.entries-IsAscending s.tree)
          | no other ↦
              find-erase_other (seal_key j) (seal_key e) (entries s.tree)
                (λ k. other (seal_key_inj j e small (h.matches e present).epoch_u32 k))
              ∙ h.unrecorded j small (ground (arith, out, removed, other))
        ];
  }

  begin_write_epoch-Unseals :
      (s : Store f kv) (e : ℕ)
      → IsSealed f kv entries is_kv s
      → Unseals s (begin_write_epoch f kv s e).0
        × ((begin_write_epoch f kv s e).1 ≡ ok tt → Unsealed (begin_write_epoch f kv s e).0 e)
  unfolding begin_write_epoch mark
  begin_write_epoch-Unseals s e h = elim (Bool-cases (BTreeSet.contains e s.seal.sealed)) [
    | inl sealed ↦ elim (Bool-cases (kv.commit s.tree (delete (seal_key e) ∷ [])).1) [
      | inl landed ↦
          rw (sealed, landed, begin_write_epoch)
            (
              record {
                merkle = refl;
                fewer = λ j off.
                    ground (arith, off, BTreeSet.contains-remove j e s.seal.sealed h.ascending);
                matches = unseal_one s e h sealed landed _;
              },
              λ _. ground (arith, BTreeSet.contains-remove e e s.seal.sealed h.ascending),
            )
      | inr failed ↦
          rw (sealed, failed, begin_write_epoch)
            (
              record {
                merkle = refl;
                fewer = λ j off. off;
                matches =
                    IsSealed-of_same s _ refl
                      (λ j. ap (find (seal_key j)) (is_kv.commit-false s.tree _ failed))
                      (λ j _. refl) h;
              },
              λ bad. absurd (ground (arith, bad)),
            )
    ]
    | inr open_epoch ↦
        rw (open_epoch, begin_write_epoch)
          (
            record {
              merkle = refl;
              fewer = λ j off. off;
              matches = IsSealed-of_same s _ refl (λ j. refl) (λ j _. refl) h;
            },
            λ _. open_epoch,
          )
  ]

  Unseals-trans : (s t u : Store f kv) → Unseals s t → Unseals t u → Unseals s u
  Unseals-trans s t u a b = record {
    merkle = b.merkle ∙ a.merkle;
    fewer = λ e off. b.fewer e (a.fewer e off);
    matches = b.matches;
  }

  end_write_epochs-Unseals :
      (s t : Store f kv) (es : List ℕ) → Unseals s t → Unseals s (end_write_epochs f kv t es)
  unfolding end_write_epochs
  end_write_epochs-Unseals s t es a = record {
    merkle = a.merkle;
    fewer = a.fewer;
    matches = IsSealed-of_same t _ refl (λ j. refl) (λ j _. refl) a.matches;
  }

  -- How the marking of epochs ends.
  pub record Begun (s : Store f kv) (es : List ℕ) (p : Store f kv × Result (Unit {0}))
      : Type 0 where
    pub steps : Unseals s p.0
    pub unsealed : p.1 ≡ ok tt → All (Unsealed p.0) es

  pub begin_loop-Begun :
      (es : List ℕ) (s : Store f kv) (marked : List ℕ)
      → IsSealed f kv entries is_kv s
      → Begun s es (begin_loop f kv s marked es)
  unfolding begin_loop
  begin_loop-Begun [] s marked h = record {
    steps = record { merkle = refl; fewer = λ e off. off; matches = h };
    unsealed = λ _. tt;
  }
  begin_loop-Begun (e ∷ es) s marked h =
      let next = (begin_write_epoch f kv s e).0 in
      let step = begin_write_epoch-Unseals s e h in
      elim (Result-cases (begin_write_epoch f kv s e).1) [
        | inl (u, good) ↦
            let rest = begin_loop-Begun es next (marked ++ e ∷ []) step.0.matches in
            rw (good, begin_loop)
              (record {
                steps = Unseals-trans s next _ step.0 rest.steps;
                unsealed = λ done. (rest.steps.fewer e (step.1 good), rest.unsealed done);
              })
        | inr (inl failed) ↦
            rw (failed, begin_loop)
              (record {
                steps = end_write_epochs-Unseals s next marked step.0;
                unsealed = λ bad. absurd (ground (arith, bad));
              })
        | inr (inr failed) ↦
            rw (failed, begin_loop)
              (record { steps = step.0; unsealed = λ bad. absurd (ground (arith, bad)) })
      ]
