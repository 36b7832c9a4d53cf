-- ===== src/Discovery/Search/Loops.antt =====
-- The loops of the binary searches, with the invariant that the rank lies in the range searched.
use ifrit.Prelude.{
  ◌>>=◌, ℕ, zero, suc, ◌+◌, ◌-◌, ◌/◌, ◌≤◌, ◌<◌, ◌%◌, ◌≢◌, Ordering, ◌≡◌, refl, ap, inl, inr, Option,
  some, List, ◌∷◌, ◌++◌, arith, Bytes, length, get_elem?, take, drop, leb, Bool-cases, leb→le,
}
use native.Mathlib.Nat.{mod-eq_of_lt}
use native.Mathlib.Numerals.{add-one}
use ifrit.Discovery.Types.{RingId, compare_id}
use ifrit.Discovery.Search.{
  at, failed, id_not_found, succ, prev, place, insert_loop, search_loop, around, neighbours_loop,
}
use ifrit.Discovery.Search.Rank.{IsSorted, rank, get_elem?-some, probe_Tells}

-- The list with the new entry at its rank.
abbrev pub placed : List RingId → RingId → List RingId × ℕ
placed s new = (take (rank new.hash s) s ++ new ∷ drop (rank new.hash s) s, rank new.hash s)

-- The middle of a range of two entries or more lies inside it.
abbrev middle : ℕ → ℕ → ℕ
middle cur end = (cur + end - 1) / 2

module _ (s : List RingId) (sorted : IsSorted s) where
  place-rank :
      (h : Bytes) (cur end : ℕ) (e : RingId)
      → get_elem? s cur ≡ some e
      → end ≤ cur + 1
      → cur ≤ rank h s
      → rank h s ≤ end
      → place e h cur ≡ rank h s
  place-rank h cur end e q a b c = ground (arith, probe_Tells h s cur e sorted q)

  pub insert_loop_lem :
      (new : RingId) (fuel cur end : ℕ)
      → end - cur < fuel
      → cur < length s
      → end ≤ length s
      → cur ≤ rank new.hash s
      → rank new.hash s ≤ end
      → insert_loop fuel s new cur end ≡ some (placed s new)
  unfolding insert_loop
  insert_loop_lem new zero cur end f a b c d = absurd (omega arith)
  insert_loop_lem new (suc fuel) cur end f a b c d = elim (Bool-cases (leb end (cur + 1))) [
    | inl stop ↦
        let (e, q) = get_elem?-some s cur a in
        rw (stop, q)
          (ap (λ (i : ℕ). some (take i s ++ new ∷ drop i s, i))
            (place-rank new.hash cur end e q (leb→le _ _ stop) c d))
    | inr more ↦
        let (e, q) = get_elem?-some s (middle cur end) (ground arith) in
        rw (more, q)
          (ground (
            arith,
            probe_Tells new.hash s (middle cur end) e sorted q,
            insert_loop_lem new fuel (middle cur end + 1) end,
            insert_loop_lem new fuel cur (middle cur end),
          ))
  ]

  -- An entry with the hash is the one at the rank.
  pub equal-rank :
      (h : Bytes) (i : ℕ) (e : RingId)
      → get_elem? s i ≡ some e
      → compare_id e h ≡ Ordering.eq
      → i ≡ rank h s
  equal-rank h i e q k = ground (arith, probe_Tells h s i e sorted q)

  pub search_loop_hit :
      (h : Bytes) (e : RingId) (fuel cur end : ℕ)
      → get_elem? s (rank h s) ≡ some e
      → compare_id e h ≡ Ordering.eq
      → end - cur < fuel
      → end ≤ length s
      → cur ≤ rank h s
      → rank h s < end
      → search_loop fuel s h cur end ≡ some (at (rank h s))
  unfolding search_loop
  search_loop_hit h e zero cur end q k f b c d = absurd (omega arith)
  search_loop_hit h e (suc fuel) cur end q k f b c d = elim (Bool-cases (leb end (cur + 1))) [
    | inl stop ↦ let here : cur ≡ rank h s = ground arith in rw (stop, here, q) (ground arith)
    | inr more ↦
        let (m, p) = get_elem?-some s (middle cur end) (ground arith) in
        rw (more, p)
          (ground (
            arith,
            probe_Tells h s (middle cur end) m sorted p,
            search_loop_hit h e fuel (middle cur end + 1) end q k,
            search_loop_hit h e fuel cur (middle cur end) q k,
          ))
  ]

  pub search_loop_miss :
      (h : Bytes) (fuel cur end : ℕ)
      → ((i : ℕ) (e : RingId) → get_elem? s i ≡ some e → compare_id e h ≢ Ordering.eq)
      → end - cur < fuel
      → cur < length s
      → end ≤ length s
      → search_loop fuel s h cur end ≡ some (failed id_not_found)
  unfolding search_loop
  search_loop_miss h zero cur end no_hit f a b = absurd (omega arith)
  search_loop_miss h (suc fuel) cur end no_hit f a b = elim (Bool-cases (leb end (cur + 1))) [
    | inl stop ↦
        let (e, q) = get_elem?-some s cur a in rw (stop, q) (ground (arith, no_hit cur e q))
    | inr more ↦
        let (m, p) = get_elem?-some s (middle cur end) (ground arith) in
        rw (more, p)
          (ground (
            arith,
            no_hit (middle cur end) m p,
            search_loop_miss h fuel (middle cur end + 1) end no_hit,
            search_loop_miss h fuel cur (middle cur end) no_hit,
          ))
  ]

  pub neighbours_loop_hit :
      (h : Bytes) (e : RingId) (fuel cur end : ℕ)
      → get_elem? s (rank h s) ≡ some e
      → compare_id e h ≡ Ordering.eq
      → end - cur < fuel
      → end ≤ length s
      → cur ≤ rank h s
      → rank h s < end
      → neighbours_loop fuel s h cur end (length s) ≡ around s (rank h s) (length s)
  unfolding neighbours_loop
  neighbours_loop_hit h e zero cur end q k f b c d = absurd (omega arith)
  neighbours_loop_hit h e (suc fuel) cur end q k f b c d = elim (Bool-cases (leb end (cur + 1))) [
    | inl stop ↦ let here : cur ≡ rank h s = ground arith in rw (stop, here, q) (ground arith)
    | inr more ↦
        let (m, p) = get_elem?-some s (middle cur end) (ground arith) in
        rw (more, p)
          (ground (
            arith,
            probe_Tells h s (middle cur end) m sorted p,
            neighbours_loop_hit h e fuel (middle cur end + 1) end q k,
            neighbours_loop_hit h e fuel cur (middle cur end) q k,
          ))
  ]

-- The entries on both sides of the gap before index `r`.
abbrev pub gap : List RingId → ℕ → Option (RingId × RingId)
gap s r = do
  successor ← get_elem? s (r % length s)
  predecessor ← prev s r (length s)
  some (successor, predecessor)

module _ (s : List RingId) (sorted : IsSorted s) where
  pub succ_lem : (i : ℕ) → 0 < length s → succ s i (length s) ≡ get_elem? s ((i + 1) % length s)
  unfolding succ
  succ_lem i h = ground arith

  pub prev-suc : (i : ℕ) → i < length s → prev s (suc i) (length s) ≡ get_elem? s i
  unfolding prev
  prev-suc i h = ground (arith, mod-eq_of_lt h)

  last_lt :
      (r cur : ℕ) (e : RingId)
      → r ≡ suc cur
      → get_elem? s cur ≡ some e
      → cur < length s
      → (do successor ← succ s cur (length s); some (successor, e)) ≡ gap s r
  last_lt r cur e here q a = rw (here, prev-suc cur a, q, succ_lem cur (omega arith), add-one) refl

  last_gt :
      (r cur : ℕ) (e : RingId)
      → r ≡ cur
      → get_elem? s cur ≡ some e
      → cur < length s
      → (do predecessor ← prev s cur (length s); some (e, predecessor)) ≡ gap s r
  last_gt r cur e here q a = rw (here, mod-eq_of_lt a, q) refl

  -- The last comparison of the loop, when the hash is not in the list.
  last :
      (h : Bytes) (cur end : ℕ) (e : RingId)
      → get_elem? s cur ≡ some e
      → ((i : ℕ) (e : RingId) → get_elem? s i ≡ some e → compare_id e h ≢ Ordering.eq)
      → cur < length s
      → end ≤ length s
      → cur ≤ rank h s
      → rank h s ≤ end
      → end ≤ cur + 1
      → (elim (compare_id e h) [
        | Ordering.lt ↦ (do successor ← succ s cur (length s); some (successor, e))
        | Ordering.gt ↦ (do predecessor ← prev s cur (length s); some (e, predecessor))
        | Ordering.eq ↦ around s cur (length s)
      ])
        ≡ gap s (rank h s)
  unfolding succ prev
  last h cur end e q no_hit a b c d g = ground (
    arith,
    no_hit cur e q,
    probe_Tells h s cur e sorted q,
    last_lt (rank h s) cur e,
    last_gt (rank h s) cur e,
  )

  pub neighbours_loop_miss :
      (h : Bytes) (fuel cur end : ℕ)
      → ((i : ℕ) (e : RingId) → get_elem? s i ≡ some e → compare_id e h ≢ Ordering.eq)
      → end - cur < fuel
      → cur < length s
      → end ≤ length s
      → cur ≤ rank h s
      → rank h s ≤ end
      → neighbours_loop fuel s h cur end (length s) ≡ gap s (rank h s)
  unfolding neighbours_loop
  neighbours_loop_miss h zero cur end no_hit f a b c d = absurd (omega arith)
  neighbours_loop_miss h (suc fuel) cur end no_hit f a b c d =
      elim (Bool-cases (leb end (cur + 1))) [
        | inl stop ↦
            let (e, q) = get_elem?-some s cur a in
            rw (stop, q) (last h cur end e q no_hit a b c d (leb→le _ _ stop))
        | inr more ↦
            let (m, p) = get_elem?-some s (middle cur end) (ground arith) in
            rw (more, p)
              (ground (
                arith,
                no_hit (middle cur end) m p,
                probe_Tells h s (middle cur end) m sorted p,
                neighbours_loop_miss h fuel (middle cur end + 1) end no_hit,
                neighbours_loop_miss h fuel cur (middle cur end) no_hit,
              ))
      ]
