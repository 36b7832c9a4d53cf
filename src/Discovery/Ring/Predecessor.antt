-- ===== src/Discovery/Ring/Predecessor.antt =====
-- `isBetween` and `isPrev` of core/discovery/ring.go: whom a ring accepts as the accuser of a peer.
use ifrit.Prelude.{
  ℕ, ◌-◌, ◌%◌, ◌≤◌, ◌<◌, Ordering, ◌≡◌, refl, sym, ap, ◌∙◌, subst, inl, inr, true, none, some, List,
  arith, Bytes, length, get_elem?, if◌then◌else◌, ◌==◌, Bool-cases, Option-cases, bytes_eq,
}
use ifrit.Prelude.GoMap.{lookup}
use native.Mathlib.Nat.{mod-eq_of_lt, mod-lt}
use native.Mathlib.Decide.{ℕ_discrete}
use ifrit.Bytes.{bytes_compare, bytes_compare_refl, bytes_compare-gt, bytes_compare-lt, bytes_equal}
use ifrit.Discovery.Types.{PeerRef, RingId, hash_id, equal_id, compare_id}
use ifrit.Discovery.Search
use ifrit.Discovery.Search.{at}
use ifrit.Discovery.Search.Rank.{
  IsAbsent, IsSorted, rank, rank-le, rank_below, rank_above, get_elem?-some, get_elem?_bound,
}
use ifrit.Discovery.Search.Loops.{gap, equal-rank}
use ifrit.Discovery.Search.Correct.{search_hit, neighbours_miss, index_lt}
use ifrit.Discovery.Ring.{
  Ring, is_between, is_prev, predecessor, hash_in, prev_of_live, prev_at_idx,
}
use ifrit.Discovery.Ring.Invariant.{RingInv, IsCollisionFree, fresh}

-- Where the predecessor of the gap before index `r` stands.
abbrev pub before : List RingId → ℕ → ℕ
before s r = if r == 0 then length s - 1 else r - 1

prev-before :
    (s : List RingId) (r : ℕ)
    → 0 < length s
    → r ≤ length s
    → Search.prev s r (length s) ≡ get_elem? s (before s r)
unfolding Search.prev
prev-before s r h k = ground (arith, mod-eq_of_lt {n = r - 1} {m = length s})

module _ (s : List RingId) (h : Bytes) (sorted : IsSorted s) (absent : IsAbsent h s) where
  -- An entry of the list lies between the predecessor of a hash outside the list and that hash
  -- exactly when it is that predecessor.
  between_gap :
      (i : ℕ) (e q : RingId)
      → get_elem? s i ≡ some e
      → get_elem? s (before s (rank h s)) ≡ some q
      → is_between q.hash h e.hash ≡ equal_id q e.hash
  unfolding is_between equal_id bytes_equal compare_id
  between_gap i e q p k = elim (ℕ_discrete i (before s (rank h s))) [
    | yes here ↦
        let one : some e ≡ some q = sym p ∙ subst (λ j. get_elem? s j ≡ some q) (sym here) k in
        let same : q ≡ e = cc in
        ground (arith, ap (λ (x : RingId). x.hash) same, bytes_compare_refl e.hash)
    | no other ↦
        let j = before s (rank h s) in
        ground (
          arith,
          index_lt s i j e q sorted p k,
          index_lt s j i q e sorted k p,
          rank_below h s i e p,
          rank_above h s i e sorted p,
          rank_below h s j q k,
          rank_above h s j q sorted k,
          absent i e p,
          absent j q k,
          bytes_compare-lt e.hash q.hash,
          bytes_compare-gt e.hash h,
          bytes_compare-lt e.hash h,
          get_elem?_bound s i e p,
          get_elem?_bound s j q k,
          rank-le h s,
        )
  ]

module _ (sha256 : Bytes → Bytes) (free : IsCollisionFree sha256) (r : Ring)
    (inv : RingInv sha256 r) (p to_check : PeerRef) (t q : RingId)
    (live : lookup to_check.id r.peer_to_ring ≡ some t)
    (place : get_elem? r.succ_list
        (before r.succ_list (rank (hash_id sha256 r.ring_num p.id) r.succ_list))
      ≡ some q) where
  some_entry : 0 < length r.succ_list
  some_entry = omega (arith, get_elem?_bound r.succ_list r.self_idx r.self_id inv.own)

  -- The accused is in the ring.
  prev_of_entry :
      (i : ℕ) (e : RingId)
      → lookup p.id r.peer_to_ring ≡ some e
      → get_elem? r.succ_list i ≡ some e
      → Search.prev r.succ_list i r.length ≡ some q
  unfolding compare_id
  prev_of_entry i e found here =
      let s = r.succ_list in
      let (hashed, mapped) = inv.listed i e here in
      let (same, j, other) = inv.known p.id e found in
      let hash : e.hash ≡ hash_id sha256 r.ring_num p.id =
        hashed ∙ ap (hash_id sha256 r.ring_num) same in
      let at : i ≡ rank e.hash s =
        equal-rank s inv.sorted e.hash i e here (bytes_compare_refl e.hash) in
      let bound = get_elem?_bound s i e here in
      rw inv.counted (prev-before s i some_entry (omega (arith, bound)) ∙ rw (at, hash) place)

  -- The accused is in the ring and is not the own peer.
  found_at :
      (e : RingId)
      → lookup p.id r.peer_to_ring ≡ some e
      → (i : ℕ) × (Search.search r.succ_list e.hash r.length ≡ some (at i))
        × (Search.prev r.succ_list i r.length ≡ some q)
  found_at e found =
      let (same, i, here) = inv.known p.id e found in
      (i, rw inv.counted (search_hit r.succ_list i e inv.sorted here), prev_of_entry i e found here)

  gap_of_dead :
      lookup p.id r.peer_to_ring ≡ none
      → (e : RingId) × (Search.find_succ_and_prev r.succ_list
            (hash_id sha256 r.ring_num p.id)
            r.length
          ≡ some (e, q))
  gap_of_dead dead =
      let s = r.succ_list in
      let h = hash_id sha256 r.ring_num p.id in
      let bound = rank-le h s in
      let at : Search.prev s (rank h s) (length s) ≡ some q =
        prev-before s (rank h s) some_entry bound ∙ place in
      let (e, next) = get_elem?-some s (rank h s % length s) (mod-lt (rank h s) some_entry) in
      let both : gap s (rank h s) ≡ some (e, q) = rw (next, at) refl in
      (
        e,
        rw inv.counted
            (neighbours_miss s h inv.sorted some_entry (fresh sha256 r p inv free dead) ∙ both),
      )

  dead_case :
      lookup p.id r.peer_to_ring ≡ none
      → is_between q.hash (hash_id sha256 r.ring_num p.id) t.hash ≡ equal_id q t.hash
  dead_case dead =
      let s = r.succ_list in
      let h = hash_id sha256 r.ring_num p.id in
      let (same, i, here) = inv.known to_check.id t live in
      between_gap s h inv.sorted (fresh sha256 r p inv free dead) i t q here place

  -- The accused is the own peer.
  own_prev :
      (e : RingId)
      → lookup p.id r.peer_to_ring ≡ some e
      → equal_id e r.self_id.hash ≡ true
      → Search.prev r.succ_list r.self_idx r.length ≡ some q
  unfolding equal_id bytes_equal compare_id
  own_prev e found own =
      let s = r.succ_list in
      let (same, i, here) = inv.known p.id e found in
      let equal : bytes_compare e.hash r.self_id.hash ≡ Ordering.eq = ground arith in
      let at : i ≡ r.self_idx =
        equal-rank s inv.sorted r.self_id.hash i e here equal
        ∙ sym (
            equal-rank s inv.sorted r.self_id.hash r.self_idx r.self_id inv.own
              (bytes_compare_refl r.self_id.hash)) in
      subst (λ j. Search.prev s j r.length ≡ some q) at (prev_of_entry i e found here)

  is_prev_dead :
      lookup p.id r.peer_to_ring ≡ none → is_prev sha256 r p to_check ≡ some (equal_id q t.hash)
  unfolding is_prev hash_in
  is_prev_dead dead = rw (is_prev, dead, (gap_of_dead dead).1, hash_in, live, dead_case dead) refl

  is_prev_entry :
      (e : RingId)
      → lookup p.id r.peer_to_ring ≡ some e
      → is_prev sha256 r p to_check ≡ some (equal_id q t.hash)
  unfolding is_prev prev_of_live predecessor prev_at_idx
  is_prev_entry e found = elim (Bool-cases (equal_id e r.self_id.hash)) [
    | inl own ↦ rw (is_prev, found, live, prev_of_live, own, own_prev e found own) refl
    | inr other ↦
        let (i, hit, before) = found_at e found in
        rw (is_prev, found, live, prev_of_live, other, hit, before) refl
  ]

  -- On a ring with the invariant, and when no two byte strings have the same hash: let the peer to
  -- check be in the ring, as the entry `t`, and let `q` be the entry before the rank of the hash
  -- of `p`, round the circle. Whether `p` is in the ring (as the own peer or another one) or not,
  -- `isPrev` does not panic, and says whether `t` has the hash of `q`.
  pub is_prev_live : is_prev sha256 r p to_check ≡ some (equal_id q t.hash)
  is_prev_live = elim (Option-cases (lookup p.id r.peer_to_ring)) [
    | inl dead ↦ is_prev_dead dead
    | inr (e, found) ↦ is_prev_entry e found
  ]
