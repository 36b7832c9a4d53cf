-- ===== src/Discovery/Ring/Members.antt =====
-- core/discovery/ring.go: which peers a ring knows after `add` and `remove`.
use ifrit.Prelude.{
  ◌≤◌, ◌+◌, ◌^◌, ◌<◌, ◌≡◌, refl, ◌∙◌, ◌≢◌, inl, inr, Bool, true, not, ◌&&◌, ◌||◌, some, List, [],
  arith, Bytes, ◌=?◌, =?_iff, bytes_eq, Bool-cases, Option-cases,
}
use ifrit.Prelude.GoMap
use ifrit.Prelude.GoMap.{lookup, has-lookup, has-insert, has-delete, has_same}
use ifrit.Discovery.Types.{PeerRef}
use ifrit.Discovery.Peer.{Heap}
use ifrit.Discovery.Ring.{Ring, ring_id, add, remove}
use ifrit.Discovery.Ring.Invariant.{RingInv, IsCollisionFree, added, add-added, RingInv-added}
use ifrit.Discovery.Ring.Removal.{removed, remove-removed, RingInv-removed}
use ifrit.Discovery.Ring.Reach.{remove_own}

-- The ring keeps its number and its own entry.
abbrev pub SameRing : Ring → Ring → Type 0
SameRing r r' = (r'.ring_num ≡ r.ring_num) × (r'.self_id ≡ r.self_id)

abbrev pub knows : Bytes → Ring → Bool
knows id r = GoMap.has id r.peer_to_ring

-- The own peer is known.
pub knows_self :
    (sha256 : Bytes → Bytes) (r : Ring) → RingInv sha256 r → knows r.self_id.p.id r ≡ true
knows_self sha256 r inv =
    let (hashed, mine) = inv.listed r.self_idx r.self_id inv.own in
    rw (has-lookup r.self_id.p.id r.peer_to_ring, mine) refl

module _ (sha256 : Bytes → Bytes) (r : Ring) (p : PeerRef) (inv : RingInv sha256 r) where
  pub add-knows :
      (heap : Heap)
      → IsCollisionFree sha256
      → r.length + 1 < 2 ^ 32
      → (r' : Ring) × (heap' : Heap) × (old : List Bytes) × (add sha256 r p heap
          ≡ some (r', heap', old))
        × RingInv sha256 r'
        × SameRing r r'
        × (r'.length ≤ r.length + 1)
        × ((id : Bytes) → knows id r' ≡ (p.id =? id) || knows id r)
  unfolding add ring_id
  add-knows heap free room = elim (Option-cases (lookup p.id r.peer_to_ring)) [
    | inl unknown ↦
        let (heap', old, q) = add-added sha256 r p inv room free unknown heap in
        (
          added sha256 r p,
          heap',
          old,
          q,
          RingInv-added sha256 r p inv room free unknown,
          (refl, refl),
          omega arith,
          λ id. has-insert p.id id (ring_id sha256 r.ring_num p) r.peer_to_ring,
        )
    | inr (e, found) ↦ (
      r,
      heap,
      [],
      rw (has-lookup p.id r.peer_to_ring, found) refl,
      inv,
      (refl, refl),
      omega arith,
      λ id. ground (arith, has_same p.id id r.peer_to_ring, has-lookup p.id r.peer_to_ring),
    )
  ]

  pub remove-knows :
      (r' : Ring) × (remove r p ≡ some r')
      × RingInv sha256 r'
      × SameRing r r'
      × ((id : Bytes)
          → knows id r' ≡ (not ((p.id =? id) && not (p.id =? r.self_id.p.id)) && knows id r))
  unfolding remove
  remove-knows = elim (Option-cases (lookup p.id r.peer_to_ring)) [
    | inl unknown ↦ (
      r,
      rw (remove, unknown) refl,
      inv,
      (refl, refl),
      λ id. ground (arith, has_same p.id id r.peer_to_ring, has-lookup p.id r.peer_to_ring),
    )
    | inr (e, found) ↦ elim (Bool-cases (p.id =? r.self_id.p.id)) [
      | inl own ↦ (
        r,
        remove_own sha256 r p inv ((=?_iff p.id r.self_id.p.id).0 own),
        inv,
        (refl, refl),
        λ id. ground arith,
      )
      | inr other ↦
          let (same, i, here) = inv.known p.id e found in
          let apart : p.id ≢ r.self_id.p.id = λ q. ground (arith, =?_iff p.id r.self_id.p.id) in
          (
            removed sha256 r p i e,
            remove-removed sha256 r p i e inv apart found here,
            RingInv-removed sha256 r p i e inv apart found here,
            (refl, refl),
            λ id. has-delete p.id id r.peer_to_ring ∙ ground arith,
          )
    ]
  ]
