-- ===== src/Store/Query/Exact.antt =====
-- About `collect` of src/store.rs: the rows of the ranges, and the filters.
use interstellar_db.Base.{
  ℕ, ◌≡◌, ◌↔◌, ◌⊎◌, refl, sym, ap, ◌∙◌, arith, List, [], ◌∷◌, ◌++◌, Bool, true, ◌&&◌, Bool-cases,
  Option-cases, some, Member, Member-append_left, Member-append_right, Member-append_inv, inl, inr,
  length, ◌==◌, ==_iff, subst,
}
use interstellar_db.Base.Result.{ok, ok_inj}
use interstellar_db.Float.{F64}
use interstellar_db.Indexer.Ranges.{KeyRange}
use interstellar_db.Indexer.Ranges.Covers.{Covers}
use interstellar_db.Indexer.Ranges.Window.{AnyCovers}
use interstellar_db.Merkle.Forest.Items.{Row}
use interstellar_db.Store.{Store}
use interstellar_db.Store.KeyValue.{Kv, IsKv}
use interstellar_db.Store.Query.{
  Observation, end_excl, no_later, sort_in, sort_by_time, observation, is_hit, hits, collect_loop,
}
use interstellar_db.Store.Query.Rows.{Member-if, between-Member_iff}

module _ (f : F64) (kv : Kv) (s : Store f kv) (cx cy cz r2 : f.Value)
    (start_secs end_secs : ℕ) where
  abbrev passes : Observation f → Bool
  passes = is_hit f kv cx cy cz r2 start_secs end_secs

  -- A row of 20 bytes that passes the filters, with its observation.
  pub record IsFound (rs : List Row) (o : Observation f) (r : Row) : Type 0 where
    pub stored : Member r rs
    pub wide : length r.key ≡ 20
    pub hit : passes (observation f kv s r) ≡ true
    pub same : o ≡ observation f kv s r

  hits-Member_iff :
      (rs : List Row) (o : Observation f)
      → Member o (hits f kv s cx cy cz r2 start_secs end_secs rs) ↔ (r : Row) × IsFound rs o r
  unfolding hits
  hits-Member_iff [] o = (λ m. absurd m, λ (r, g). g.stored)
  hits-Member_iff (t ∷ rs) o =
      let rest = hits-Member_iff rs o in
      let seen = observation f kv s t in
      let step =
        Member-if (length t.key == 20 && passes seen) seen o
          (hits f kv s cx cy cz r2 start_secs end_secs rs) in
      (
        λ m. elim (step.0 m) [
          | inl (e, h) ↦ (
            t,
            record {
              stored = inl refl;
              wide = (==_iff (length t.key) 20).0 (ground (arith, h));
              hit = ground (arith, h);
              same = e;
            },
          )
          | inr n ↦
              let (r, g) = rest.0 n in
              (r, record { stored = inr g.stored; wide = g.wide; hit = g.hit; same = g.same })
        ],
        λ (r, g). elim g.stored [
          | inl e ↦ step.1 (
              inl (
                g.same ∙ ap (observation f kv s) e,
                subst (λ (u : Row). (length u.key == 20 && passes (observation f kv s u)) ≡ true) e
                    (rw ((==_iff (length r.key) 20).1 g.wide, g.hit) refl),
              ))
          | inr n ↦
              step.1
                (inr (rest.1 (r, record { stored = n; wide = g.wide; hit = g.hit; same = g.same })))
        ],
      )

  sort_in-Member_iff :
      (o a : Observation f) (xs : List (Observation f))
      → Member o (sort_in f a xs) ↔ ((o ≡ a) ⊎ Member o xs)
  unfolding sort_in
  sort_in-Member_iff o a [] = (λ m. m, λ m. m)
  sort_in-Member_iff o a (b ∷ xs) =
      let rest = sort_in-Member_iff o a xs in
      elim (Bool-cases (no_later f a b)) [
        | inl first ↦ rw first (λ m. m, λ m. m)
        | inr later ↦ rw later (
          λ m. elim m [
            | inl e ↦ inr (inl e)
            | inr n ↦ elim (rest.0 n) [ inl e ↦ inl e | inr k ↦ inr (inr k) ]
          ],
          λ m. elim m [
            | inl e ↦ inr (rest.1 (inl e))
            | inr (inl e) ↦ inl e
            | inr (inr k) ↦ inr (rest.1 (inr k))
          ],
        )
      ]

  sort_by_time-Member_iff :
      (o : Observation f) (xs : List (Observation f)) → Member o (sort_by_time f xs) ↔ Member o xs
  unfolding sort_by_time
  sort_by_time-Member_iff o [] = (λ m. m, λ m. m)
  sort_by_time-Member_iff o (a ∷ xs) =
      let step = sort_in-Member_iff o a (sort_by_time f xs) in
      let rest = sort_by_time-Member_iff o xs in
      (
        λ m. elim (step.0 m) [ inl e ↦ inl e | inr n ↦ inr (rest.0 n) ],
        λ m. step.1 (elim m [ inl e ↦ inl e | inr n ↦ inr (rest.1 n) ]),
      )

  module _ (entries : kv.Tree → List Row) (is_kv : IsKv kv entries) (o : Observation f) where
    -- A stored row in one of the ranges that passes the filters.
    abbrev pub InRanges : List KeyRange → Type 0
    InRanges ranges = (r : Row) × AnyCovers ranges r.key × IsFound (entries s.tree) o r

    from_range :
        (range : KeyRange) (ranges : List KeyRange) (rows : List Row)
        → kv.range s.tree range.start_key (end_excl range.end_key) ≡ some rows
        → (r : Row) → IsFound rows o r
        → InRanges (range ∷ ranges)
    from_range range ranges rows got r g =
        let at =
          (between-Member_iff r range (entries s.tree)).0
            (subst (Member r) (is_kv.range-some s.tree _ _ rows got) g.stored) in
        (
          r,
          record { range = range; planned = inl refl; covers = at.1 },
          record { stored = at.0; wide = g.wide; hit = g.hit; same = g.same },
        )

    to_range :
        (range : KeyRange) (rows : List Row) (r : Row)
        → kv.range s.tree range.start_key (end_excl range.end_key) ≡ some rows
        → Covers range r.key
        → IsFound (entries s.tree) o r
        → IsFound rows o r
    to_range range rows r got c g = record {
      stored =
          subst (Member r) (sym (is_kv.range-some s.tree _ _ rows got))
            ((between-Member_iff r range (entries s.tree)).1 (g.stored, c));
      wide = g.wide;
      hit = g.hit;
      same = g.same;
    }

    one_more :
        (range : KeyRange) (ranges : List KeyRange) (rows : List Row) (found : List (Observation f))
        → kv.range s.tree range.start_key (end_excl range.end_key) ≡ some rows
        → (Member o (found ++ hits f kv s cx cy cz r2 start_secs end_secs rows) ⊎ InRanges ranges)
          ↔ (Member o found ⊎ InRanges (range ∷ ranges))
    one_more range ranges rows found got = (into, back)
      where
        new : List (Observation f)
        new = hits f kv s cx cy cz r2 start_secs end_secs rows

        into :
            Member o (found ++ hits f kv s cx cy cz r2 start_secs end_secs rows) ⊎ InRanges ranges
            → Member o found ⊎ InRanges (range ∷ ranges)
        into (inl m) =
            elim (Member-append_inv o found (hits f kv s cx cy cz r2 start_secs end_secs rows) m) [
              | inl old ↦ inl old
              | inr hit ↦
                  let (r, g) = (hits-Member_iff rows o).0 hit in
                  inr (from_range range ranges rows got r g)
            ]
        into (inr (r, a, g)) =
            inr (r, record { range = a.range; planned = inr a.planned; covers = a.covers }, g)

        split :
            (r : Row) (a : AnyCovers (range ∷ ranges) r.key)
            → IsFound (entries s.tree) o r
            → (a.range ≡ range) ⊎ Member a.range ranges
            → Member o (found ++ hits f kv s cx cy cz r2 start_secs end_secs rows) ⊎ InRanges ranges
        split r a g (inl e) = inl (
            Member-append_right o found (hits f kv s cx cy cz r2 start_secs end_secs rows) (
              (hits-Member_iff rows o).1 (
                r,
                to_range range rows r got (subst (λ (x : KeyRange). Covers x r.key) e a.covers) g,
              )))
        split r a g (inr n) = inr (r, record { range = a.range; planned = n; covers = a.covers }, g)

        back :
            Member o found ⊎ InRanges (range ∷ ranges)
            → Member o (found ++ hits f kv s cx cy cz r2 start_secs end_secs rows) ⊎ InRanges ranges
        back (inl m) =
            inl (Member-append_left o found (hits f kv s cx cy cz r2 start_secs end_secs rows) m)
        back (inr (r, a, g)) = split r a g a.planned

    pub collect_loop-Member_iff :
        (ranges : List KeyRange) (found out : List (Observation f))
        → collect_loop f kv s cx cy cz r2 start_secs end_secs found ranges ≡ ok out
        → Member o out ↔ (Member o found ⊎ InRanges ranges)
    unfolding collect_loop
    collect_loop-Member_iff [] found out = λ h.
        let e : sort_by_time f found ≡ out = ok_inj (sort_by_time f found) out h in
        let sorted = sort_by_time-Member_iff o found in
        (
          λ m. inl (sorted.0 (subst (Member o) (sym e) m)),
          λ m. elim m [
            | inl old ↦ subst (Member o) e (sorted.1 old)
            | inr (r, a, g) ↦ absurd a.planned
          ],
        )
    collect_loop-Member_iff (range ∷ ranges) found out =
        elim (Option-cases (kv.range s.tree range.start_key (end_excl range.end_key))) [
          | inl failed ↦ rw (failed, collect_loop) (λ bad. absurd (ground (arith, bad)))
          | inr (rows, got) ↦
              rw (got, collect_loop)
                (λ h.
                  let rest =
                    collect_loop-Member_iff ranges
                      (found ++ hits f kv s cx cy cz r2 start_secs end_secs rows) out h in
                  let step = one_more range ranges rows found got in
                  (λ m. step.0 (rest.0 m), λ m. rest.1 (step.1 m)))
        ]
