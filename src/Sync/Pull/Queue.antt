-- ===== src/Sync/Pull/Queue.antt =====
-- About `sync_once` of src/sync.rs: what the work queue holds.
use interstellar_db.Base.{
  ℕ, ◌+◌, ◌≡◌, refl, ap, ◌∙◌, List, [], ◌∷◌, ◌++◌, Bool-cases, Option-cases, ◌==◌, All, inl, inr,
  subst,
}
use interstellar_db.Base.Result.{Result, ok, err, panic, Result-cases}
use interstellar_db.Float.{F64}
use interstellar_db.Store.{Store}
use interstellar_db.Store.KeyValue.{Kv}
use interstellar_db.Store.Query.{node_hash}
use interstellar_db.Sync.{EpochRoot, ChildHash, hash_from_bytes}
use interstellar_db.Sync.Pull.{Client, Node, push_divergent, push_roots, push_children, pull_inner}

-- The nodes of one level.
abbrev pub AtDepth : ℕ → List Node → Type 0
AtDepth d = All (λ n. n.depth ≡ d)

pub AtDepth-append :
    (d : ℕ) (xs bs : List Node) → AtDepth d xs → AtDepth d bs → AtDepth d (xs ++ bs)
AtDepth-append d [] bs h k = k
AtDepth-append d (x ∷ xs) bs h k = (h.0, AtDepth-append d xs bs h.1 k)

-- How a call that pushes nodes ends: with nodes of the level behind the queue, or not at all.
abbrev pub Pushed : ℕ → List Node → Result (List Node) → Type 0
Pushed d work (ok next) = (more : List Node) × AtDepth d more × (next ≡ work ++ more)
Pushed d work err = Unit
Pushed d work panic = Unit

pub append_nil : (xs : List Node) → xs ≡ xs ++ []
append_nil [] = refl
append_nil (x ∷ xs) = ap (λ (ys : List Node). x ∷ ys) (append_nil xs)

pub append_assoc : (xs ys zs : List Node) → (xs ++ ys) ++ zs ≡ xs ++ (ys ++ zs)
append_assoc [] ys zs = refl
append_assoc (x ∷ xs) ys zs = ap (λ (ts : List Node). x ∷ ts) (append_assoc xs ys zs)

module _ (f : F64) (kv : Kv) (sha256 : List ℕ → List ℕ) where
  push_divergent-Pushed :
      (store : Store f kv) (hash : List ℕ) (node : Node) (work : List Node)
      → Pushed node.depth work (push_divergent f kv sha256 store hash node work)
  unfolding push_divergent
  push_divergent-Pushed store hash node work = elim (Option-cases (hash_from_bytes hash)) [
    | inl bad ↦ rw (bad, push_divergent) tt
    | inr (theirs, good) ↦ elim (Bool-cases (theirs == 0)) [
      | inl nothing ↦ rw (good, nothing, push_divergent) ([], tt, append_nil work)
      | inr something ↦
          elim (Option-cases (node_hash f kv store node.epoch node.depth node.prefix)) [
            | inl failed ↦ rw (good, something, failed, push_divergent) tt
            | inr (ours, found) ↦ elim (Bool-cases (theirs == ours)) [
              | inl same ↦
                  rw (good, something, found, same, push_divergent) ([], tt, append_nil work)
              | inr other ↦
                  rw (good, something, found, other, push_divergent) (node ∷ [], (refl, tt), refl)
            ]
          ]
    ]
  ]

  Pushed-then :
      (d : ℕ) (work next : List Node) (r : Result (List Node))
      → (more : List Node) × AtDepth d more × (next ≡ work ++ more)
      → Pushed d next r
      → Pushed d work r
  Pushed-then d work next err a b = tt
  Pushed-then d work next panic a b = tt
  Pushed-then d work next (ok last) (more, at, e) (more', at', e') = (
    more ++ more',
    AtDepth-append d more more' at at',
    e' ∙ ap (λ (xs : List Node). xs ++ more') e ∙ append_assoc work more more',
  )

  push_children-Pushed :
      (store : Store f kv) (epoch d : ℕ) (children : List ChildHash) (work : List Node)
      → Pushed d work (push_children f kv sha256 store epoch d children work)
  unfolding push_children
  push_children-Pushed store epoch d [] work = ([], tt, append_nil work)
  push_children-Pushed store epoch d (child ∷ children) work =
      let node : Node = record { epoch = epoch; depth = d; prefix = child.prefix } in
      let first = push_divergent-Pushed store child.hash node work in
      elim (Result-cases (push_divergent f kv sha256 store child.hash node work)) [
        | inl (next, good) ↦
            rw (good, push_children)
              (Pushed-then d work next (push_children f kv sha256 store epoch d children next)
                (subst (Pushed d work) good first)
                (push_children-Pushed store epoch d children next))
        | inr (inl failed) ↦ rw (failed, push_children) tt
        | inr (inr failed) ↦ rw (failed, push_children) tt
      ]

  pub push_roots-Pushed :
      (store : Store f kv) (roots : List EpochRoot) (work : List Node)
      → Pushed 0 work (push_roots f kv sha256 store roots work)
  unfolding push_roots
  push_roots-Pushed store [] work = ([], tt, append_nil work)
  push_roots-Pushed store (root ∷ roots) work =
      let node : Node = record { epoch = root.epoch; depth = 0; prefix = 0 } in
      let first = push_divergent-Pushed store root.hash node work in
      elim (Result-cases (push_divergent f kv sha256 store root.hash node work)) [
        | inl (next, good) ↦
            rw (good, push_roots)
              (Pushed-then 0 work next (push_roots f kv sha256 store roots next)
                (subst (Pushed 0 work) good first) (push_roots-Pushed store roots next))
        | inr (inl failed) ↦ rw (failed, push_roots) tt
        | inr (inr failed) ↦ rw (failed, push_roots) tt
      ]

  pub pull_inner-Pushed :
      (client : Client) (store : Store f kv) (peer : client.State) (node : Node) (work : List Node)
      → Pushed (node.depth + 3) work (pull_inner f kv sha256 client store peer node work).1
  unfolding pull_inner
  pull_inner-Pushed client store peer node work =
      let call = client.children peer node.epoch node.depth node.prefix in
      elim (Option-cases call.1) [
        | inl failed ↦ rw (failed, pull_inner) tt
        | inr (children, good) ↦
            rw (good, pull_inner)
              (push_children-Pushed store node.epoch (node.depth + 3) children work)
      ]
