-- ===== src/Discovery/Ring/Invariant.antt =====
-- What holds of a ring between two operations, and that `new_ring`, `add` and `remove` keep it.
use ifrit.Prelude.{
  ℕ, ◌+◌, ◌-◌, ◌%◌, ◌^◌, ◌<◌, ◌≡◌, refl, sym, ◌∙◌, subst, inl, inr, none, some, List, ◌++◌, arith,
  Bytes, length, get_elem?, if◌then◌else◌, ◌==◌, ◌=?◌, =?_iff, bytes_eq, Bool-cases,
}
use ifrit.Prelude.GoMap
use ifrit.Prelude.GoMap.{lookup, has-lookup, lookup-insert, lookup-delete}
use native.Mathlib.Nat.{mod-lt}
use native.Mathlib.Numerals.{add-one}
use mathlib.Core.List.{append_cancel_right}
use ifrit.Bytes.{itoa, bytes_compare-eq}
use ifrit.Discovery.Types.{PeerRef, RingId, hash_id, compare_id}
use ifrit.Discovery.Search
use ifrit.Discovery.Search.{at}
use ifrit.Discovery.Search.Rank.{IsAbsent, IsSorted, rank, rank-le, get_elem?-some, get_elem?_bound}
use ifrit.Discovery.Search.Correct.{insert-placed}
use ifrit.Discovery.Peer.{Heap}
use ifrit.Discovery.Ring.{Ring, ring_id, lost, drop_accusation, with_list, add, add_new}
use ifrit.Discovery.Ring.Lists.{
  put, put_cases, put_keeps, length-put, put_before, put_at, put_after, put_cases, put_keeps,
  put-IsSorted,
}

-- No two byte strings have the same hash.
abbrev pub IsCollisionFree : (Bytes → Bytes) → Type 0
IsCollisionFree sha256 = (a b : Bytes) → sha256 a ≡ sha256 b → a ≡ b

-- The list is sorted and counted, the own entry is at the own index, and the map and the list hold
-- the same entries, each with the hash of its id.
pub record RingInv (sha256 : Bytes → Bytes) (r : Ring) : Type 0 where
  pub counted : r.length ≡ length r.succ_list
  pub small : r.length < 2 ^ 32
  pub sorted : IsSorted r.succ_list
  pub own : get_elem? r.succ_list r.self_idx ≡ some r.self_id
  pub listed :
      (i : ℕ) (e : RingId)
      → get_elem? r.succ_list i ≡ some e
      → (e.hash ≡ hash_id sha256 r.ring_num e.p.id) × (lookup e.p.id r.peer_to_ring ≡ some e)
  pub known :
      (id : Bytes) (e : RingId)
      → lookup id r.peer_to_ring ≡ some e
      → (e.p.id ≡ id) × (i : ℕ) × (get_elem? r.succ_list i ≡ some e)

pub hash_id_injective :
    (sha256 : Bytes → Bytes) (n : ℕ) (a b : Bytes)
    → IsCollisionFree sha256
    → hash_id sha256 n a ≡ hash_id sha256 n b
    → a ≡ b
unfolding hash_id
hash_id_injective sha256 n a b free q = append_cancel_right a b (itoa n) (free _ _ q)

module _ (s : List RingId) (some_entry : 0 < length s) where
  pub succ-some : (i : ℕ) → (e : RingId) × (Search.succ s i (length s) ≡ some e)
  unfolding Search.succ
  succ-some i =
      let (e, q) = get_elem?-some s ((i + 1) % length s) (mod-lt (i + 1) some_entry) in
      (e, ground arith)

  pub prev-some : (i : ℕ) → (e : RingId) × (Search.prev s i (length s) ≡ some e)
  unfolding Search.prev
  prev-some i =
      let at = if i == 0 then length s - 1 else (i - 1) % length s in
      let (e, q) = get_elem?-some s at (ground (arith, mod-lt (i - 1) some_entry)) in
      (e, ground arith)

module _ (sha256 : Bytes → Bytes) (r : Ring) (p : PeerRef) where
  -- The ring with `p` at the rank of its hash.
  abbrev pub added : Ring
  added =
      let new = ring_id sha256 r.ring_num p in
      record (with_list r (put (rank new.hash r.succ_list) new r.succ_list)
        (rank new.hash r.succ_list)) { peer_to_ring = GoMap.insert p.id new r.peer_to_ring }

  module _ (inv : RingInv sha256 r) (free : IsCollisionFree sha256)
      (unknown : lookup p.id r.peer_to_ring ≡ none) where
    -- The hash of a peer that the ring does not know is new.
    pub fresh : IsAbsent (hash_id sha256 r.ring_num p.id) r.succ_list
    unfolding compare_id
    fresh i e q k =
        let (hashed, here) = inv.listed i e q in
        let same : e.p.id ≡ p.id =
          hash_id_injective sha256 r.ring_num e.p.id p.id free
            (sym hashed ∙ bytes_compare-eq _ _ k) in
        cc (subst (λ id. lookup id r.peer_to_ring ≡ some e) same here)

  module _ (inv : RingInv sha256 r) (room : r.length + 1 < 2 ^ 32) where
    added-own : get_elem? added.succ_list added.self_idx ≡ some added.self_id
    added-own =
        let new = ring_id sha256 r.ring_num p in
        ground (
          arith,
          rank-le new.hash r.succ_list,
          get_elem?_bound r.succ_list r.self_idx r.self_id,
          put_after (rank new.hash r.succ_list) r.self_idx new r.succ_list,
          put_before (rank new.hash r.succ_list) r.self_idx new r.succ_list,
          add-one r.self_idx,
        )

    module _ (free : IsCollisionFree sha256) (unknown : lookup p.id r.peer_to_ring ≡ none) where
      listed_new :
          (i : ℕ) (e : RingId)
          → get_elem? added.succ_list i ≡ some e
          → (e.hash ≡ hash_id sha256 r.ring_num e.p.id)
            × (lookup e.p.id added.peer_to_ring ≡ some e)
      unfolding ring_id
      listed_new i e q =
          let new = ring_id sha256 r.ring_num p in
          elim (put_cases (rank new.hash r.succ_list) r.succ_list new i e
            (rank-le new.hash r.succ_list) q) [
              | inl same ↦
                  rw same (
                    refl,
                    rw (lookup-insert p.id p.id new r.peer_to_ring, (=?_iff p.id p.id).1 refl),
                  )
              | inr (j, old) ↦
                  let (hashed, here) = inv.listed j e old in
                  (
                    hashed,
                    ground
                        (arith, =?_iff p.id e.p.id, lookup-insert p.id e.p.id new r.peer_to_ring),
                  )
            ]

      known_new :
          (id : Bytes) (e : RingId)
          → lookup id added.peer_to_ring ≡ some e
          → (e.p.id ≡ id) × (i : ℕ) × (get_elem? added.succ_list i ≡ some e)
      unfolding ring_id
      known_new id e q =
          let new = ring_id sha256 r.ring_num p in
          let at = rank new.hash r.succ_list in
          let top = rank-le new.hash r.succ_list in
          let found = sym (lookup-insert p.id id new r.peer_to_ring) ∙ q in
          elim (Bool-cases (p.id =? id)) [
            | inl same ↦
                let e' : some new ≡ some e =
                  subst (λ b. (if b then some new else lookup id r.peer_to_ring) ≡ some e) same
                    found in
                (ground (arith, =?_iff p.id id), at, put_at at new r.succ_list top ∙ e')
            | inr other ↦
                let found' : lookup id r.peer_to_ring ≡ some e =
                  subst (λ b. (if b then some new else lookup id r.peer_to_ring) ≡ some e) other
                    found in
                let (same, j, old) = inv.known id e found' in
                let (i, kept) = put_keeps at r.succ_list new j e top old in (same, i, kept)
          ]

      -- The ring with the new peer.
      pub RingInv-added : RingInv sha256 added
      unfolding ring_id
      RingInv-added =
          let new = ring_id sha256 r.ring_num p in
          let at = rank new.hash r.succ_list in
          record {
            counted = omega (arith, length-put at new r.succ_list, inv.counted);
            small = room;
            sorted = put-IsSorted new r.succ_list inv.sorted (fresh inv free unknown);
            own = added-own;
            listed = listed_new;
            known = known_new;
          }

      -- On a ring with the invariant, with room below 2 ^ 32 entries, and when no two byte strings
      -- have the same hash, `add` of a peer that the ring does not know does not panic, and gives
      -- the ring `added`: the entry of the peer stands at the rank of its hash, and the length,
      -- the own index and the map follow.
      pub add-added :
          (heap : Heap)
          → (heap' : Heap) × (old : List Bytes) × (add sha256 r p heap ≡ some (added, heap', old))
      unfolding add add_new
      add-added heap =
          let s = r.succ_list in
          let new = ring_id sha256 r.ring_num p in
          let at = rank new.hash s in
          let t = put at new s in
          let some_entry : 0 < length s =
            omega (arith, get_elem?_bound s r.self_idx r.self_id inv.own) in
          let more : length t ≡ r.length + 1 = omega (arith, length-put at new s, inv.counted) in
          let some_new : 0 < length t = omega (arith, more) in
          let (e1, q1) = succ-some s some_entry r.self_idx in
          let (e2, q2) = prev-some s some_entry r.self_idx in
          let (e3, q3) = succ-some t some_new added.self_idx in
          let (e4, q4) = prev-some t some_new added.self_idx in
          let (e5, q5) = succ-some t some_new at in
          let (e6, q6) = prev-some t some_new at in
          let r1 : Search.succ s r.self_idx r.length ≡ some e1 = rw inv.counted q1 in
          let r2 : Search.prev s r.self_idx r.length ≡ some e2 = rw inv.counted q2 in
          let put_in : Search.insert s new r.length ≡ some (t, at) =
            rw inv.counted (insert-placed s new inv.sorted) in
          let r3 : Search.succ t added.self_idx (r.length + 1) ≡ some e3 = rw (← more) q3 in
          let r4 : Search.prev t added.self_idx (r.length + 1) ≡ some e4 = rw (← more) q4 in
          let r5 : Search.succ t at (r.length + 1) ≡ some e5 = rw (← more) q5 in
          let r6 : Search.prev t at (r.length + 1) ≡ some e6 = rw (← more) q6 in
          (
            drop_accusation r.ring_num e5.p e6.p heap,
            lost e3 e1 ++ lost e4 e2,
            rw (has-lookup p.id r.peer_to_ring, unknown, r1, r2, put_in, r3, r4, added-own, r5, r6)
                refl,
          )
