-- ===== src/Discovery/Ring/Neighbours.antt =====
-- `neighbours` and `isPrev` of core/discovery/ring.go: they never panic, and the neighbours of a
-- peer that has not joined are those that it has once it joins.
use ifrit.Prelude.{
  ℕ, ◌+◌, ◌-◌, ◌%◌, ◌≤◌, ◌<◌, ◌≡◌, refl, sym, ◌∙◌, subst, inl, inr, Bool, none, some, List, arith,
  Bytes, length, get_elem?, bytes_eq, if◌then◌else◌, ◌==◌, leb, ◌>>=◌, Bool-cases, Option-cases,
}
use ifrit.Prelude.GoMap.{lookup}
use native.Mathlib.Nat.{mod-eq_of_lt, mod-lt, mod_self}
use native.Mathlib.Numerals.{add-one}
use ifrit.Discovery.Types.{PeerRef, RingId, hash_id, equal_id}
use ifrit.Discovery.Search
use ifrit.Discovery.Search.{at}
use ifrit.Discovery.Search.Rank.{rank, rank-le, get_elem?-some, get_elem?_bound}
use ifrit.Discovery.Search.Loops.{gap}
use ifrit.Discovery.Search.Correct.{search_hit, neighbours_hit, neighbours_miss}
use ifrit.Discovery.Ring.Lists.{put, put_before, put_after}
use ifrit.Discovery.Ring.{
  Ring, ring_id, is_between, is_prev, prev_of_live, predecessor, prev_at_idx, succ_at_idx, hash_in,
  neighbours,
}
use ifrit.Discovery.Ring.Invariant.{RingInv, IsCollisionFree, added, fresh, succ-some, prev-some}

module _ (s : List RingId) (at : ℕ) (new : RingId) (some_entry : 0 < length s)
    (top : at ≤ length s) where
  succ-put : Search.succ (put at new s) at (length s + 1) ≡ get_elem? s (at % length s)
  unfolding Search.succ
  succ-put = ground (
    arith,
    mod-eq_of_lt {n = at + 1} {m = length s + 1},
    mod-eq_of_lt {n = at} {m = length s},
    mod_self (length s + 1),
    mod_self (length s),
    put_after at at new s,
    put_before at 0 new s,
    add-one at,
  )

  prev-put : Search.prev (put at new s) at (length s + 1) ≡ Search.prev s at (length s)
  unfolding Search.prev
  prev-put = ground (
    arith,
    mod-eq_of_lt {n = at - 1} {m = length s + 1},
    mod-eq_of_lt {n = at - 1} {m = length s},
    put_after at (length s - 1) new s,
    put_before at (at - 1) new s,
    add-one (length s - 1),
  )

module _ (sha256 : Bytes → Bytes) (r : Ring) (inv : RingInv sha256 r) where
  pub some_entry : 0 < length r.succ_list
  some_entry = omega (arith, get_elem?_bound r.succ_list r.self_idx r.self_id inv.own)

  -- The only entry of a ring of one is the own one.
  single :
      (i : ℕ) → r.length ≤ 1 → i < length r.succ_list → get_elem? r.succ_list i ≡ some r.self_id
  single i one low =
      let bound = get_elem?_bound r.succ_list r.self_idx r.self_id inv.own in
      subst (λ j. get_elem? r.succ_list j ≡ some r.self_id) (omega (arith, bound, inv.counted))
        inv.own

  single_gap : (idx : ℕ) → r.length ≤ 1 → gap r.succ_list idx ≡ some (r.self_id, r.self_id)
  unfolding Search.prev
  single_gap idx one =
      let s = r.succ_list in
      let up = single (idx % length s) one (mod-lt idx some_entry) in
      let j = if idx == 0 then length s - 1 else (idx - 1) % length s in
      let low : j < length s = ground (arith, mod-lt (idx - 1) some_entry) in
      let down : Search.prev s idx (length s) ≡ some r.self_id = ground (arith, single j one low) in
      rw (up, down) refl

  -- The neighbours at the rank of a new entry, once it is there.
  after :
      (p : PeerRef)
      → let idx = rank (hash_id sha256 r.ring_num p.id) r.succ_list in
        (do
          succ ← succ_at_idx (added sha256 r p) idx
          prev ← prev_at_idx (added sha256 r p) idx
          some (succ, prev))
        ≡ gap r.succ_list idx
  unfolding succ_at_idx prev_at_idx ring_id
  after p =
      let s = r.succ_list in
      let new : RingId = record { p = p; hash = hash_id sha256 r.ring_num p.id } in
      let idx = rank new.hash s in
      let top = rank-le new.hash s in
      let up : Search.succ (put idx new s) idx (r.length + 1) ≡ get_elem? s (idx % length s) =
        rw inv.counted (succ-put s idx new some_entry top) in
      let down : Search.prev (put idx new s) idx (r.length + 1) ≡ Search.prev s idx (length s) =
        rw inv.counted (prev-put s idx new some_entry top) in
      rw (up, down) refl

  -- On a ring with the invariant, and when no two byte strings have the same hash, `neighbours` of
  -- a peer that the ring does not know returns the successor and the predecessor that the entry of
  -- the peer has in the ring after `add`.
  pub neighbours-added :
      (p : PeerRef)
      → IsCollisionFree sha256
      → lookup p.id r.peer_to_ring ≡ none
      → let idx = rank (hash_id sha256 r.ring_num p.id) r.succ_list in
        neighbours sha256 r p.id ≡ (do
          succ ← succ_at_idx (added sha256 r p) idx
          prev ← prev_at_idx (added sha256 r p) idx
          some (succ, prev))
  unfolding neighbours hash_in
  neighbours-added p free unknown = elim (Bool-cases (leb r.length 1)) [
    | inl one ↦
        let idx = rank (hash_id sha256 r.ring_num p.id) r.succ_list in
        rw (neighbours, one) (sym (after p ∙ single_gap idx (ground arith)))
    | inr more ↦
        let h = hash_id sha256 r.ring_num p.id in
        let around : Search.find_succ_and_prev r.succ_list h r.length
            ≡ gap r.succ_list (rank h r.succ_list) =
          rw inv.counted (
            neighbours_miss r.succ_list h inv.sorted some_entry
              (fresh sha256 r p inv free unknown)) in
        rw (neighbours, more, hash_in, unknown) (around ∙ sym (after p))
  ]

  pub found :
      (p : PeerRef) (e : RingId)
      → lookup p.id r.peer_to_ring ≡ some e
      → (a b : RingId) × (Search.find_succ_and_prev r.succ_list e.hash r.length ≡ some (a, b))
  found p e known =
      let s = r.succ_list in
      let (same, i, here) = inv.known p.id e known in
      let (a, up) = succ-some s some_entry i in
      let (b, down) = prev-some s some_entry i in
      let around : Search.around s i (length s) ≡ some (a, b) = rw (up, down) refl in
      (a, b, rw inv.counted (neighbours_hit s i e inv.sorted here ∙ around))

  pub unfound :
      (p : PeerRef)
      → IsCollisionFree sha256
      → lookup p.id r.peer_to_ring ≡ none
      → let h = hash_id sha256 r.ring_num p.id in
        (a b : RingId) × (Search.find_succ_and_prev r.succ_list h r.length ≡ some (a, b))
  unfound p free unknown =
      let s = r.succ_list in
      let h = hash_id sha256 r.ring_num p.id in
      let (a, up) = get_elem?-some s (rank h s % length s) (mod-lt (rank h s) some_entry) in
      let (b, down) = prev-some s some_entry (rank h s) in
      let both : gap s (rank h s) ≡ some (a, b) = rw (up, down) refl in
      (
        a,
        b,
        rw inv.counted
            (neighbours_miss s h inv.sorted some_entry (fresh sha256 r p inv free unknown) ∙ both),
      )

  pub own_predecessor : (q : RingId) × (predecessor r ≡ some q)
  unfolding predecessor
  own_predecessor =
      let (q, h) = prev-some r.succ_list some_entry r.self_idx in (q, rw inv.counted h)

  live_total :
      (p : PeerRef) (e t : RingId)
      → lookup p.id r.peer_to_ring ≡ some e
      → (b : Bool) × (prev_of_live sha256 r e t ≡ some b)
  unfolding prev_of_live prev_at_idx
  live_total p e t known = elim (Bool-cases (equal_id e r.self_id.hash)) [
    | inl own ↦ let (q, h) = own_predecessor in (equal_id q t.hash, rw (prev_of_live, own, h) refl)
    | inr other ↦
        let (same, i, here) = inv.known p.id e known in
        let hit : Search.search r.succ_list e.hash r.length ≡ some (at i) =
          rw inv.counted (search_hit r.succ_list i e inv.sorted here) in
        let (q, h) = prev-some r.succ_list some_entry i in
        let down : Search.prev r.succ_list i r.length ≡ some q = rw inv.counted h in
        (equal_id q t.hash, rw (prev_of_live, other, hit, down) refl)
  ]

  dead_accuser_total :
      (p to_check : PeerRef) (e : RingId)
      → lookup p.id r.peer_to_ring ≡ some e
      → lookup to_check.id r.peer_to_ring ≡ none
      → (b : Bool) × (is_prev sha256 r p to_check ≡ some b)
  unfolding is_prev
  dead_accuser_total p to_check e known dead = elim (Bool-cases (equal_id e r.self_id.hash)) [
    | inl own ↦
        let (q, h) = own_predecessor in
        (
          is_between q.hash e.hash (hash_id sha256 r.ring_num to_check.id),
          rw (is_prev, known, dead, own, h) refl,
        )
    | inr other ↦
        let (a, b, h) = found p e known in
        (
          is_between b.hash e.hash (hash_id sha256 r.ring_num to_check.id),
          rw (is_prev, known, dead, other, h) refl,
        )
  ]

  -- On a ring with the invariant, and when no two byte strings have the same hash, `isPrev` never
  -- panics, whether the two peers are in the ring or not.
  pub is_prev_total :
      (p to_check : PeerRef)
      → IsCollisionFree sha256
      → (b : Bool) × (is_prev sha256 r p to_check ≡ some b)
  unfolding is_prev
  is_prev_total p to_check free = elim (Option-cases (lookup p.id r.peer_to_ring)) [
    | inl unknown ↦
        let (a, b, h) = unfound p free unknown in
        (
          is_between b.hash (hash_id sha256 r.ring_num p.id) (hash_in sha256 r to_check.id),
          rw (is_prev, unknown, h) refl,
        )
    | inr (e, known) ↦ elim (Option-cases (lookup to_check.id r.peer_to_ring)) [
      | inl dead ↦ dead_accuser_total p to_check e known dead
      | inr (t, live) ↦ let (b, h) = live_total p e t known in (b, rw (is_prev, known, live) h)
    ]
  ]
