-- ===== src/Store/Query/Finds.antt =====
-- About `query_window` of src/store.rs: what it finds.
use interstellar_db.Base.{
  ℕ, ◌<◌, ◌≤◌, ◌≡◌, ◌⊎◌, refl, sym, ◌∙◌, arith, List, [], Option-cases, some, none, ◌∷◌, ◌++◌,
  Member, inl, inr, subst, true, length, Bool-cases,
}
use interstellar_db.Base.Result.{ok}
use interstellar_db.Float.{F64, IsIeee}
use interstellar_db.Indexer.{IsValid}
use interstellar_db.Indexer.Coordinate.{calculate_optimal_depth}
use interstellar_db.Indexer.Coordinate.Bounds.{calculate_optimal_depth-IsDepth}
use interstellar_db.Indexer.Key.{nanos_per_sec, decode_key, generate_key}
use interstellar_db.Indexer.Ranges.{KeyRange, get_boundary_protected_ranges_time_window}
use interstellar_db.Indexer.Ranges.Box.{InBox}
use interstellar_db.Indexer.Ranges.Query.{IsWindow, time_window-covers}
use interstellar_db.Indexer.Ranges.Window.{AnyCovers}
use interstellar_db.Merkle.Forest.Items.{Row}
use interstellar_db.Store.{Store}
use interstellar_db.Store.KeyValue.{Kv, IsKv}
use interstellar_db.Store.Query.{
  Observation, observation, is_hit, in_sphere, hits, end_excl, sort_by_time, collect_loop, collect,
  query_window,
}
use interstellar_db.Store.Query.Exact.{IsFound, collect_loop-Member_iff}

module _ (f : F64) (kv : Kv) (entries : kv.Tree → List Row) (is_kv : IsKv kv entries)
    (s : Store f kv) (cx cy cz radius : f.Value) (start_secs end_secs : ℕ) where
  abbrev r2 : f.Value
  r2 = f.mul radius radius

  -- What the query gives: a stored row of 20 bytes that passes the filters, as an observation.
  abbrev pub IsHitOf : Observation f → Row → Type 0
  IsHitOf = IsFound f kv s cx cy cz r2 start_secs end_secs (entries s.tree)

  -- What the query gives, written out: a stored row of 20 bytes with the key's fields, of a time
  -- in the window, ends included, and a point no farther from the center than the radius.
  pub record IsAnswer (o : Observation f) (r : Row) : Type 0 where
    pub stored : Member r (entries s.tree)
    pub wide : length r.key ≡ 20
    pub key : o.key ≡ r.key
    pub payload : o.payload ≡ r.payload
    pub x : o.x ≡ (decode_key f s.indexer r.key).x
    pub y : o.y ≡ (decode_key f s.indexer r.key).y
    pub z : o.z ≡ (decode_key f s.indexer r.key).z
    pub secs : o.timestamp_secs ≡ (decode_key f s.indexer r.key).secs
    pub nanos : o.timestamp_nanos ≡ (decode_key f s.indexer r.key).nanos
    pub from_start : start_secs ≤ o.timestamp_secs
    pub to_end : o.timestamp_secs ≤ end_secs
    pub near :
        f.leb
          (f.add
            (f.add (f.mul (f.sub o.x cx) (f.sub o.x cx)) (f.mul (f.sub o.y cy) (f.sub o.y cy)))
            (f.mul (f.sub o.z cz) (f.sub o.z cz)))
          (f.mul radius radius)
        ≡ true

  -- What the two filters test.
  is_hit-inv :
      (o : Observation f)
      → is_hit f kv cx cy cz r2 start_secs end_secs o ≡ true
      → (start_secs ≤ o.timestamp_secs)
        × (o.timestamp_secs ≤ end_secs)
        × (in_sphere f cx cy cz r2 o.x o.y o.z ≡ true)
  unfolding is_hit
  is_hit-inv o h = (ground (arith, h), ground (arith, h), ground (arith, h))

  IsAnswer-observation :
      (r : Row)
      → Member r (entries s.tree)
      → length r.key ≡ 20
      → is_hit f kv cx cy cz r2 start_secs end_secs (observation f kv s r) ≡ true
      → IsAnswer (observation f kv s r) r
  unfolding in_sphere
  IsAnswer-observation r stored wide h =
      let (from, to, near) = is_hit-inv (observation f kv s r) h in
      record {
        stored = stored;
        wide = wide;
        key = refl;
        payload = refl;
        x = refl;
        y = refl;
        z = refl;
        secs = refl;
        nanos = refl;
        from_start = from;
        to_end = to;
        near = near;
      }

  IsHitOf-IsAnswer : (o : Observation f) (r : Row) → IsHitOf o r → IsAnswer o r
  IsHitOf-IsAnswer o r g =
      subst (λ (q : Observation f). IsAnswer q r) (sym g.same)
        (IsAnswer-observation r g.stored g.wide g.hit)

  query_window-collect :
      (ranges : List KeyRange)
      → get_boundary_protected_ranges_time_window f s.indexer cx cy cz radius start_secs end_secs
          (calculate_optimal_depth f s.indexer radius)
        ≡ some ranges
      → query_window f kv s cx cy cz radius start_secs end_secs
        ≡ collect f kv s ranges cx cy cz radius start_secs end_secs
  unfolding query_window
  query_window-collect ranges planned = rw (planned, query_window) refl

  -- A scan that returns has begun its transaction.
  collect-loop :
      (ranges : List KeyRange) (found : List (Observation f))
      → collect f kv s ranges cx cy cz radius start_secs end_secs ≡ ok found
      → collect_loop f kv s cx cy cz r2 start_secs end_secs [] ranges ≡ ok found
  unfolding collect
  collect-loop ranges found = elim (Bool-cases (kv.begin_read s.tree)) [
    | inl begun ↦ rw (begun, collect) (λ h. h)
    | inr closed ↦ rw (closed, collect) (λ bad. absurd (ground (arith, bad)))
  ]

  loop-collect :
      (ranges : List KeyRange) (found : List (Observation f))
      → kv.begin_read s.tree ≡ true
      → collect_loop f kv s cx cy cz r2 start_secs end_secs [] ranges ≡ ok found
      → collect f kv s ranges cx cy cz radius start_secs end_secs ≡ ok found
  unfolding collect
  loop-collect ranges found begun h = rw (begun, collect) h

  -- Over a key-value tree that reads what is committed, whatever a query gives has the key and the
  -- payload of a stored row with a key of 20 bytes, and the point and the time that the key
  -- decodes to; its second is from the start of the window to its end, both included, and the sum
  -- of the squares of its distances from the center on the three axes, as the floats compute it,
  -- is at most the square of the radius.
  pub query_window_sound :
      (found : List (Observation f)) (o : Observation f)
      → query_window f kv s cx cy cz radius start_secs end_secs ≡ ok found
      → Member o found
      → (r : Row) × IsAnswer o r
  query_window_sound found o h m =
      elim (Option-cases (
        get_boundary_protected_ranges_time_window f s.indexer cx cy cz radius start_secs end_secs
          (calculate_optimal_depth f s.indexer radius))) [
            | inl failed ↦ absurd (no_plan failed h)
            | inr (ranges, planned) ↦
                elim ((collect_loop-Member_iff f kv s cx cy cz r2 start_secs end_secs entries is_kv
                    o ranges [] found
                    (collect-loop ranges found (sym (query_window-collect ranges planned) ∙ h))).0
                  m) [ inl nothing ↦ absurd nothing | inr (r, a, g) ↦ (r, IsHitOf-IsAnswer o r g) ]
          ]
    where
      no_plan :
          get_boundary_protected_ranges_time_window f s.indexer cx cy cz radius start_secs end_secs
              (calculate_optimal_depth f s.indexer radius)
            ≡ none
          → query_window f kv s cx cy cz radius start_secs end_secs ≡ ok found
          → ⊥
      no_plan failed = unfold query_window in rw (failed, query_window) (λ bad. ground (arith, bad))

  collect_loop-ok :
      ((lo hi : List ℕ) → (rows : List Row) × (kv.range s.tree lo hi ≡ some rows))
      → (ranges : List KeyRange) (found : List (Observation f))
      → (out : List (Observation f)) × (collect_loop f kv s cx cy cz r2 start_secs end_secs found
            ranges
          ≡ ok out)
  unfolding collect_loop
  collect_loop-ok reads [] found = (sort_by_time f found, refl)
  collect_loop-ok reads (range ∷ ranges) found =
      let (rows, got) = reads range.start_key (end_excl range.end_key) in
      let (out, rest) =
        collect_loop-ok reads ranges (found ++ hits f kv s cx cy cz r2 start_secs end_secs rows) in
      (out, rw (got, collect_loop) rest)

  module _ (ieee : IsIeee f) (valid : IsValid f s.indexer)
      (window : IsWindow f s.indexer start_secs end_secs) (x y z : f.Value)
      (inside : InBox f s.indexer cx cy cz radius x y z) (secs nanos : ℕ)
      (in_second : nanos < nanos_per_sec) (from : start_secs ≤ secs)
      (to : (secs < end_secs) ⊎ ((secs ≡ end_secs) × (nanos ≡ 0))) where
    -- For a range that is positive and whose double is finite, over floats that keep the order
    -- laws of IEEE 754, a store whose reads do not fail, and a window whose end lies in the first
    -- 2^32 epochs: the query returns, and what it gives has each stored observation whose
    -- coordinates are within the radius of the center on each axis and whose time is from the
    -- start of the window up to the first nanosecond of its last second, if its decoded point and
    -- time pass the two filters.
    pub query_window-finds :
        kv.begin_read s.tree ≡ true
        → ((lo hi : List ℕ) → (rows : List Row) × (kv.range s.tree lo hi ≡ some rows))
        → (o : Observation f) (r : Row) → r.key ≡ generate_key f s.indexer x y z secs nanos
        → IsHitOf o r
        → (found : List (Observation f)) × (query_window f kv s cx cy cz radius start_secs end_secs
            ≡ ok found)
          × Member o found
    query_window-finds begun reads o r key hit =
        let (ranges, planned, covered) =
          time_window-covers f ieee s.indexer valid cx cy cz radius x y z inside start_secs end_secs
            window (calculate_optimal_depth f s.indexer radius)
            (calculate_optimal_depth-IsDepth f s.indexer radius) secs nanos in_second from to in
        let (found, done) = collect_loop-ok reads ranges [] in
        (
          found,
          query_window-collect ranges planned ∙ loop-collect ranges found begun done,
          (collect_loop-Member_iff f kv s cx cy cz r2 start_secs end_secs entries is_kv o ranges []
                found done).1
              (inr (r, subst (AnyCovers ranges) (sym key) covered, hit)),
        )
