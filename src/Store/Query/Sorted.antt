-- ===== src/Store/Query/Sorted.antt =====
-- About `collect` of src/store.rs: the order of what it gives.
use interstellar_db.Base.{
  ℕ, ◌≡◌, ◌<◌, ◌≤◌, ◌⊎◌, arith, List, [], ◌∷◌, ◌++◌, true, false, Bool-cases, Option-cases, inl,
  inr, All, subst,
}
use interstellar_db.Base.Result.{ok, ok_inj}
use interstellar_db.Float.{F64}
use interstellar_db.Indexer.Coordinate.{calculate_optimal_depth}
use interstellar_db.Indexer.Ranges.{KeyRange, get_boundary_protected_ranges_time_window}
use interstellar_db.Store.{Store}
use interstellar_db.Store.KeyValue.{Kv}
use interstellar_db.Store.Query.{
  Observation, no_later, sort_in, sort_by_time, hits, end_excl, collect_loop, collect, query_window,
}

module _ (f : F64) where
  -- An earlier second, or the same second and no later nanosecond.
  abbrev pub IsNoLater : Observation f → Observation f → Type 0
  IsNoLater a b =
      (a.timestamp_secs < b.timestamp_secs)
      ⊎ ((a.timestamp_secs ≡ b.timestamp_secs) × (a.timestamp_nanos ≤ b.timestamp_nanos))

  -- Each observation is no later than all behind it.
  abbrev pub IsChronological : List (Observation f) → Type 0
  IsChronological [] = Unit
  IsChronological (a ∷ rest) = All (IsNoLater a) rest × IsChronological rest

  no_later-true : (a b : Observation f) → no_later f a b ≡ true → IsNoLater a b
  unfolding no_later
  no_later-true a b h = ground (arith, h)

  no_later-false : (a b : Observation f) → no_later f a b ≡ false → IsNoLater b a
  unfolding no_later
  no_later-false a b h = ground (arith, h)

  IsNoLater-trans : (a b c : Observation f) → IsNoLater a b → IsNoLater b c → IsNoLater a c
  IsNoLater-trans a b c h k = ground (arith, h, k)

  All-later :
      (a b : Observation f) (xs : List (Observation f))
      → IsNoLater a b
      → All (IsNoLater b) xs
      → All (IsNoLater a) xs
  All-later a b [] h all = tt
  All-later a b (c ∷ xs) h all = (IsNoLater-trans a b c h all.0, All-later a b xs h all.1)

  All-sort_in :
      (a b : Observation f) (xs : List (Observation f))
      → IsNoLater a b
      → All (IsNoLater a) xs
      → All (IsNoLater a) (sort_in f b xs)
  unfolding sort_in
  All-sort_in a b [] h all = (h, tt)
  All-sort_in a b (c ∷ xs) h all = elim (Bool-cases (no_later f b c)) [
    | inl first ↦ rw first (h, all)
    | inr later ↦ rw later (all.0, All-sort_in a b xs h all.1)
  ]

  sort_in-IsChronological :
      (a : Observation f) (xs : List (Observation f))
      → IsChronological xs
      → IsChronological (sort_in f a xs)
  unfolding sort_in
  sort_in-IsChronological a [] up = (tt, tt)
  sort_in-IsChronological a (b ∷ xs) up = elim (Bool-cases (no_later f a b)) [
    | inl first ↦
        let here = no_later-true a b first in rw first ((here, All-later a b xs here up.0), up)
    | inr later ↦
        rw later
          (All-sort_in b a xs (no_later-false a b later) up.0, sort_in-IsChronological a xs up.1)
  ]

  sort_by_time-IsChronological : (xs : List (Observation f)) → IsChronological (sort_by_time f xs)
  unfolding sort_by_time
  sort_by_time-IsChronological [] = tt
  sort_by_time-IsChronological (a ∷ xs) =
      sort_in-IsChronological a (sort_by_time f xs) (sort_by_time-IsChronological xs)

  module _ (kv : Kv) (s : Store f kv) (cx cy cz : f.Value) where
    collect_loop-IsChronological :
        (r2 : f.Value) (start_secs end_secs : ℕ) (ranges : List KeyRange)
        (found out : List (Observation f))
        → collect_loop f kv s cx cy cz r2 start_secs end_secs found ranges ≡ ok out
        → IsChronological out
    unfolding collect_loop
    collect_loop-IsChronological r2 start_secs end_secs [] found out = λ h.
        subst IsChronological (ok_inj (sort_by_time f found) out h)
          (sort_by_time-IsChronological found)
    collect_loop-IsChronological r2 start_secs end_secs (range ∷ ranges) found out =
        elim (Option-cases (kv.range s.tree range.start_key (end_excl range.end_key))) [
          | inl failed ↦ rw (failed, collect_loop) (λ bad. absurd (ground (arith, bad)))
          | inr (rows, got) ↦
              rw (got, collect_loop)
                (collect_loop-IsChronological r2 start_secs end_secs ranges
                  (found ++ hits f kv s cx cy cz r2 start_secs end_secs rows) out)
        ]

    -- In what a query gives, each observation has an earlier second than each behind it, or the
    -- same second and no later nanosecond.
    pub query_window-IsChronological :
        (radius : f.Value) (start_secs end_secs : ℕ) (found : List (Observation f))
        → query_window f kv s cx cy cz radius start_secs end_secs ≡ ok found
        → IsChronological found
    unfolding query_window collect
    query_window-IsChronological radius start_secs end_secs found =
        elim (Option-cases (
          get_boundary_protected_ranges_time_window f s.indexer cx cy cz radius start_secs end_secs
            (calculate_optimal_depth f s.indexer radius))) [
              | inl failed ↦ rw (failed, query_window) (λ bad. absurd (ground (arith, bad)))
              | inr (ranges, planned) ↦ elim (Bool-cases (kv.begin_read s.tree)) [
                | inr closed ↦
                    rw (planned, closed, query_window, collect)
                      (λ bad. absurd (ground (arith, bad)))
                | inl begun ↦
                    rw (planned, begun, query_window, collect)
                      (collect_loop-IsChronological (f.mul radius radius) start_secs end_secs ranges
                        [] found)
              ]
            ]
