-- ===== src/Tests/Rings.antt =====
-- core/discovery/ring.go and search.go on a ring of two peers.
use ifrit.Prelude.{
  ℕ, zero, suc, ◌+◌, ◌≡◌, refl, none, some, List, [], ◌∷◌, Bytes, arith, get_elem?, ◌<◌, ◌^◌,
  bytes_eq, bytes_beq,
}
use ifrit.Prelude.GoMap
use ifrit.Prelude.GoMap.{lookup}
use ifrit.Bytes.{bytes_compare, bytes_compare-eq, itoa}
use ifrit.Discovery.Types.{RingId, hash_id, equal_id, compare_id}
use ifrit.Discovery.Search.Rank.{IsAbsent, rank}
use ifrit.Discovery.Peer.{Heap}
use ifrit.Discovery.Ring.{Ring, ring_id, new_ring, add, remove, is_prev}
use ifrit.Discovery.Ring.Invariant.{RingInv, IsCollisionFree, added, add-added, RingInv-added}
use ifrit.Discovery.Ring.Predecessor.{before, is_prev_live}
use ifrit.Discovery.Ring.Reach.{
  Reached, start, joined, Reached-RingInv, new_ring-RingInv, add-RingInv, remove-RingInv,
}
use ifrit.Tests.{plain, peer_of, empty_heap}

free : IsCollisionFree plain
free a b h = h

abbrev ring1 : Ring
ring1 = new_ring plain 1 (peer_of 2)

inv1 : RingInv plain ring1
inv1 = new_ring-RingInv plain 1 (peer_of 2)

unknown1 : lookup (1 ∷ []) ring1.peer_to_ring ≡ none
unfolding new_ring lookup GoMap.insert bytes_beq
unknown1 = refl

room1 : ring1.length + 1 < 2 ^ 32
unfolding new_ring
room1 = omega arith

abbrev ring2 : Ring
ring2 = added plain ring1 (peer_of 1)

inv2 : RingInv plain ring2
inv2 = RingInv-added plain ring1 (peer_of 1) inv1 room1 free unknown1

abbrev entry : ℕ → RingId
entry n = ring_id plain 1 (peer_of n)

list2 : ring2.succ_list ≡ entry 1 ∷ entry 2 ∷ []
unfolding new_ring ring_id rank compare_id hash_id bytes_compare itoa
list2 = refl

absent3 : IsAbsent (hash_id plain 1 (3 ∷ [])) (entry 1 ∷ entry 2 ∷ [])
unfolding ring_id hash_id bytes_compare itoa compare_id
absent3 zero e q k = ground (arith, bytes_compare-eq e.hash (3 ∷ 49 ∷ []))
absent3 (suc zero) e q k = ground (arith, bytes_compare-eq e.hash (3 ∷ 49 ∷ []))
absent3 (suc (suc i)) e q k = ground arith

known2 : lookup (1 ∷ []) ring2.peer_to_ring ≡ some (entry 1)
unfolding new_ring lookup GoMap.insert bytes_beq
known2 = refl

place2 :
    get_elem? ring2.succ_list
      (before ring2.succ_list (rank (hash_id plain 1 (2 ∷ [])) ring2.succ_list))
    ≡ some (entry 1)
unfolding new_ring ring_id rank compare_id hash_id bytes_compare itoa
place2 = refl

reached2 : Reached plain ring2
reached2 =
    let (heap', old, q) = add-added plain ring1 (peer_of 1) inv1 room1 free unknown1 empty_heap in
    joined ring1 ring2 (peer_of 1) empty_heap heap' old (start 1 (peer_of 2)) room1 q

Reached-RingInv_example : RingInv plain ring2
Reached-RingInv_example = Reached-RingInv plain ring2 free reached2

add-RingInv_example :
    (r' : Ring) × (heap' : Heap) × (old : List Bytes) × (add plain ring1 (peer_of 1) empty_heap
      ≡ some (r', heap', old))
    × RingInv plain r'
add-RingInv_example = add-RingInv plain ring1 (peer_of 1) inv1 empty_heap free room1

remove-RingInv_example : (r' : Ring) × (remove ring2 (peer_of 1) ≡ some r') × RingInv plain r'
remove-RingInv_example = remove-RingInv plain ring2 (peer_of 1) inv2

is_prev_live_example :
    is_prev plain ring2 (peer_of 2) (peer_of 1) ≡ some (equal_id (entry 1) (entry 1).hash)
unfolding new_ring
is_prev_live_example =
    is_prev_live plain free ring2 inv2 (peer_of 2) (peer_of 1) (entry 1) (entry 1) known2 place2
