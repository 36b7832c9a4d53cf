-- ===== src/Tests/Orders.antt =====
-- The peers 1 and 3 join the node 2 in both orders.
use ifrit.Prelude.{
  true, [], ◌∷◌, List, length, ◌+◌, ◌≡◌, refl, sym, ap, ◌∙◌, subst, ◌||◌, Option, none, some, Bytes,
  bytes_eq, nat_eq, bytes_beq, ◌=?◌, arith,
}
use ifrit.Prelude.GoMap
use ifrit.Prelude.GoMap.{lookup}
use ifrit.Bytes.{bytes_compare}
use ifrit.Discovery.Types.{PeerRef, RingId, compare_id, hash_id}
use ifrit.Discovery.Peer.{ring_accusation}
use ifrit.Discovery.Ring.{Ring, successor, predecessor, new_ring}
use ifrit.Discovery.Ring
use ifrit.Discovery.Search
use ifrit.Discovery.Rings
use ifrit.Discovery.Rings.Agree.{Room, create_rings-Room}
use ifrit.Discovery.View.{View, add_live, is_alive}
use ifrit.Discovery.View.Live.{LiveInv, add_live-LiveInv}
use ifrit.Discovery.View.Overlay.{same_neighbours}
use ifrit.Core.Visualizer.{Viz, State, InSync, no_states, update_state, update_state_settles}
use ifrit.Tests.{plain, peer_of}
use ifrit.Tests.Live.{no_collision, view1, live1, rings1, made1}

abbrev or_else : View → Option View → View
or_else v none = v
or_else v (some w) = w

-- `p` joins, and `q` after it.
abbrev both : PeerRef → PeerRef → View
both p q = let one = or_else view1 (add_live plain view1 p) in or_else one (add_live plain one q)

both_alive :
    (p q : PeerRef)
    → LiveInv plain (both p q)
      × ((id : Bytes)
          → is_alive (both p q) id ≡ ((q.id =? id) || ((p.id =? id) || is_alive view1 id)))
both_alive p q =
    let room : Room (0 + 1 + 1) view1.rings.ring_map =
      create_rings-Room plain (peer_of 2) 1 2 rings1 made1 (omega arith) in
    let (v, e, inv, room1, self, known, alive) =
      add_live-LiveInv plain view1 live1 1 p no_collision room in
    let (w, e', inv', room2, self', known', alive') =
      add_live-LiveInv plain v inv 0 q no_collision room1 in
    let same : both p q ≡ w =
      ap (λ x. or_else (or_else view1 x) (add_live plain (or_else view1 x) q)) e
      ∙ ap (or_else v) e' in
    (
      subst (LiveInv plain) (sym same) inv',
      λ id. ap (λ x. is_alive x id) same ∙ alive' id ∙ ap (λ b. (q.id =? id) || b) (alive id),
    )

abbrev ring_of : Option Ring → Ring
ring_of none = new_ring plain 1 (peer_of 2)
ring_of (some r) = r

abbrev ring_in : View → Ring
ring_in v = ring_of (lookup 1 v.rings.ring_map)

ring_13 :
    lookup 1 (both (peer_of 1) (peer_of 3)).rings.ring_map
    ≡ some (ring_in (both (peer_of 1) (peer_of 3)))
unfolding add_live Rings.add GoMap.has bytes_beq Ring.add new_ring Search.insert Search.succ
    Search.prev GoMap.insert Ring.drop_accusation lookup compare_id bytes_compare hash_id
    ring_accusation
ring_13 = refl

ring_31 :
    lookup 1 (both (peer_of 3) (peer_of 1)).rings.ring_map
    ≡ some (ring_in (both (peer_of 3) (peer_of 1)))
unfolding add_live Rings.add GoMap.has bytes_beq Ring.add new_ring Search.insert Search.succ
    Search.prev GoMap.insert Ring.drop_accusation lookup compare_id bytes_compare hash_id
    ring_accusation
ring_31 = refl

own_id : (both (peer_of 1) (peer_of 3)).self.id ≡ (both (peer_of 3) (peer_of 1)).self.id
unfolding add_live Rings.add GoMap.has bytes_beq Ring.add new_ring Search.insert Search.succ
    Search.prev GoMap.insert Ring.drop_accusation lookup compare_id bytes_compare hash_id
    ring_accusation
own_id = refl

same_alive :
    (id : Bytes)
    → is_alive (both (peer_of 1) (peer_of 3)) id ≡ is_alive (both (peer_of 3) (peer_of 1)) id
same_alive id =
    (both_alive (peer_of 1) (peer_of 3)).1 id
    ∙ ground arith
    ∙ sym ((both_alive (peer_of 3) (peer_of 1)).1 id)

same_neighbours_example :
    (a b a' b' : RingId) × (successor (ring_in (both (peer_of 1) (peer_of 3))) ≡ some a)
    × (predecessor (ring_in (both (peer_of 1) (peer_of 3))) ≡ some b)
    × (successor (ring_in (both (peer_of 3) (peer_of 1))) ≡ some a')
    × (predecessor (ring_in (both (peer_of 3) (peer_of 1))) ≡ some b')
    × (a.p.id ≡ a'.p.id)
    × (b.p.id ≡ b'.p.id)
same_neighbours_example =
    same_neighbours plain (both (peer_of 1) (peer_of 3)) (both (peer_of 3) (peer_of 1)) 1
      (ring_in (both (peer_of 1) (peer_of 3))) (ring_in (both (peer_of 3) (peer_of 1))) no_collision
      (both_alive (peer_of 1) (peer_of 3)).0 (both_alive (peer_of 3) (peer_of 1)).0 own_id
      same_alive ring_13 ring_31

abbrev viz : Viz
viz = record { http_addr = 5 ∷ []; trusted = true }

update_state_settles_example :
    (kept : List State) × (sent : List State) × (update_state viz
        (both (peer_of 1) (peer_of 3))
        1
        (no_states 1)
      ≡ some (kept, sent))
    × InSync (both (peer_of 1) (peer_of 3)) 1 kept
    × (length kept ≡ length (no_states 1))
    × (update_state viz (both (peer_of 1) (peer_of 3)) 1 kept ≡ some (kept, []))
update_state_settles_example =
    update_state_settles plain viz (both (peer_of 1) (peer_of 3)) 1 (no_states 1)
      (both_alive (peer_of 1) (peer_of 3)).0
