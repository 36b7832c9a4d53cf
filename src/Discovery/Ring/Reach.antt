-- ===== src/Discovery/Ring/Reach.antt =====
-- core/discovery/ring.go: what `add` and `remove` do on every branch, and the rings that they
-- reach.
use ifrit.Prelude.{
  ℕ, zero, suc, ◌+◌, ◌^◌, ◌<◌, ◌≡◌, refl, sym, ap, ◌∙◌, subst, ◌≢◌, inl, inr, none, some, List, [],
  ◌∷◌, arith, Bytes, get_elem?, ◌=?◌, =?_iff, bytes_eq, if◌then◌else◌, Bool-cases, Option-cases,
}
use ifrit.Prelude.GoMap
use ifrit.Prelude.GoMap.{lookup, has-lookup, lookup-insert}
use ifrit.Discovery.Types.{PeerRef, RingId, hash_id}
use native.Mathlib.Nat.{mod-eq_of_lt}
use ifrit.Discovery.Search
use ifrit.Discovery.Search.{at}
use ifrit.Discovery.Search.Rank.{get_elem?_bound}
use ifrit.Discovery.Search.Correct.{search_hit}
use ifrit.Discovery.Peer.{Heap}
use ifrit.Discovery.Ring.{Ring, ring_id, new_ring, add, remove}
use ifrit.Discovery.Ring.Invariant.{RingInv, IsCollisionFree, added, add-added, RingInv-added}
use ifrit.Discovery.Ring.Removal.{removed, remove-removed, RingInv-removed}

module _ (sha256 : Bytes → Bytes) where
  -- The ring that `newRing` makes has the invariant.
  pub new_ring-RingInv : (n : ℕ) (self : PeerRef) → RingInv sha256 (new_ring sha256 n self)
  unfolding new_ring ring_id lookup
  new_ring-RingInv n self = record {
    counted = refl;
    small = omega arith;
    sorted = (tt, tt);
    own = refl;
    listed = listed;
    known = known;
  }
    where
      own_id : RingId
      own_id = record { p = self; hash = hash_id sha256 n self.id }

      listed :
          (i : ℕ) (e : RingId)
          → get_elem? (own_id ∷ []) i ≡ some e
          → (e.hash ≡ hash_id sha256 n e.p.id)
            × (lookup e.p.id (GoMap.insert self.id own_id []) ≡ some e)
      listed zero e q =
          let same : own_id ≡ e = cc in
          subst
            (λ (x : RingId).
              (x.hash ≡ hash_id sha256 n x.p.id)
              × (lookup x.p.id (GoMap.insert self.id own_id []) ≡ some x))
            same
            (
              refl,
              rw (lookup-insert self.id self.id own_id [], (=?_iff self.id self.id).1 refl) refl,
            )
      listed (suc i) e q = ground arith

      known :
          (id : Bytes) (e : RingId)
          → lookup id (GoMap.insert self.id own_id []) ≡ some e
          → (e.p.id ≡ id) × (i : ℕ) × (get_elem? (own_id ∷ []) i ≡ some e)
      known id e q =
          let found : (if self.id =? id then some own_id else none) ≡ some e =
            sym (lookup-insert self.id id own_id []) ∙ q in
          elim (Bool-cases (self.id =? id)) [
            | inl mine ↦
                let one : some own_id ≡ some e =
                  subst (λ b. (if b then some own_id else none) ≡ some e) mine found in
                let same : own_id ≡ e = cc in
                (ap (λ (x : RingId). x.p.id) (sym same) ∙ (=?_iff self.id id).0 mine, 0, one)
            | inr other ↦ absurd (ground (arith, other))
          ]

  module _ (r : Ring) (p : PeerRef) (inv : RingInv sha256 r) where
    -- On a ring with the invariant, with room below 2 ^ 32 entries, and when no two byte strings
    -- have the same hash, `add` of any peer, known or not, does not panic, and the ring that it
    -- leaves has the invariant.
    pub add-RingInv :
        (heap : Heap)
        → IsCollisionFree sha256
        → r.length + 1 < 2 ^ 32
        → (r' : Ring) × (heap' : Heap) × (old : List Bytes) × (add sha256 r p heap
            ≡ some (r', heap', old))
          × RingInv sha256 r'
    unfolding add
    add-RingInv heap free room = elim (Option-cases (lookup p.id r.peer_to_ring)) [
      | inl unknown ↦
          let (heap', old, q) = add-added sha256 r p inv room free unknown heap in
          (added sha256 r p, heap', old, q, RingInv-added sha256 r p inv room free unknown)
      | inr (e, found) ↦ (r, heap, [], rw (has-lookup p.id r.peer_to_ring, found) refl, inv)
    ]

    pub remove_own : p.id ≡ r.self_id.p.id → remove r p ≡ some r
    unfolding remove
    remove_own own =
        let (hashed, mine) = inv.listed r.self_idx r.self_id inv.own in
        let found : lookup p.id r.peer_to_ring ≡ some r.self_id =
          subst (λ id. lookup id r.peer_to_ring ≡ some r.self_id) (sym own) mine in
        let hit : Search.search r.succ_list r.self_id.hash r.length ≡ some (at r.self_idx) =
          rw inv.counted (search_hit r.succ_list r.self_idx r.self_id inv.sorted inv.own) in
        ground (
          arith,
          found,
          hit,
          get_elem?_bound r.succ_list r.self_idx r.self_id inv.own,
          inv.counted,
          inv.small,
          mod-eq_of_lt {n = r.self_idx} {m = 2 ^ 32},
        )

    -- On a ring with the invariant, `remove` of any peer, unknown, own or other, does not panic,
    -- and the ring that it leaves has the invariant.
    pub remove-RingInv : (r' : Ring) × (remove r p ≡ some r') × RingInv sha256 r'
    unfolding remove
    remove-RingInv = elim (Option-cases (lookup p.id r.peer_to_ring)) [
      | inl unknown ↦ (r, rw (remove, unknown) refl, inv)
      | inr (e, found) ↦ elim (Bool-cases (p.id =? r.self_id.p.id)) [
        | inl own ↦ (r, remove_own ((=?_iff p.id r.self_id.p.id).0 own), inv)
        | inr other ↦
            let (same, i, here) = inv.known p.id e found in
            let apart : p.id ≢ r.self_id.p.id = λ q. ground (arith, =?_iff p.id r.self_id.p.id) in
            (
              removed sha256 r p i e,
              remove-removed sha256 r p i e inv apart found here,
              RingInv-removed sha256 r p i e inv apart found here,
            )
      ]
    ]

  -- The rings that `newRing`, `add` and `remove` make, with fewer than 2 ^ 32 peers.
  pub data Reached : Ring → Type 0 where
    start : (n : ℕ) (self : PeerRef) → Reached (new_ring sha256 n self)
    joined :
        (r r' : Ring) (p : PeerRef) (heap heap' : Heap) (old : List Bytes)
        → Reached r
        → r.length + 1 < 2 ^ 32
        → add sha256 r p heap ≡ some (r', heap', old)
        → Reached r'
    left : (r r' : Ring) (p : PeerRef) → Reached r → remove r p ≡ some r' → Reached r'

  -- When no two byte strings have the same hash, every ring that is reached from `newRing` by `add`
  -- and `remove` of any peers in any order, where each `add` leaves fewer than 2 ^ 32 peers, has
  -- the invariant: sorted, counted, the own entry at the own index, map and list in agreement.
  pub Reached-RingInv : (r : Ring) → IsCollisionFree sha256 → Reached r → RingInv sha256 r
  Reached-RingInv r free (start n self) = new_ring-RingInv n self
  Reached-RingInv _ free (joined r r' p heap heap' old before room q) =
      let (x, y, z, q', inv) = add-RingInv r p (Reached-RingInv r free before) heap free room in
      let same : some (x, y, z) ≡ some (r', heap', old) = sym q' ∙ q in
      let ring : x ≡ r' = cc in subst (RingInv sha256) ring inv
  Reached-RingInv _ free (left r r' p before q) =
      let (x, q', inv) = remove-RingInv r p (Reached-RingInv r free before) in
      let same : some x ≡ some r' = sym q' ∙ q in
      let ring : x ≡ r' = cc in subst (RingInv sha256) ring inv
