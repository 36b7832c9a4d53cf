-- ===== src/Core/Safety/Room.antt =====
-- The rings have room for one peer more while fewer than 2 ^ 32 - 2 peers are known.
use ifrit.Prelude.{
  ℕ, suc, ◌+◌, ◌^◌, ◌<◌, ◌≤◌, ◌≡◌, refl, Bool, true, some, List, [], ◌∷◌, Bytes, bytes_eq, =?_iff,
  length, get_elem?, arith,
}
use ifrit.Prelude.GoMap.{has, delete, has-delete, has-lookup}
use ifrit.Bytes.{bytes_compare_refl}
use ifrit.Discovery.Types.{PeerRef, RingId, hash_id}
use ifrit.Discovery.Search.Rank.{IsSorted}
use ifrit.Discovery.Search.Correct.{index_lt}
use ifrit.Discovery.Ring.{Ring}
use ifrit.Discovery.Rings.Agree.{Agrees, AllAgree, Room}
use ifrit.Discovery.View.{View, exists, is_alive}
use ifrit.Core.Safety.Invariant.{ViewInv}

delete_le : (k : Bytes) (m : List (Bytes × PeerRef)) → length (delete k m) ≤ length m
unfolding delete
delete_le k [] = omega arith
delete_le k ((j, w) ∷ m) = ground (arith, delete_le k m)

-- `delete` takes an entry out.
length-delete :
    (k : Bytes) (m : List (Bytes × PeerRef)) → has k m ≡ true → length (delete k m) + 1 ≤ length m
unfolding has delete
length-delete k [] h = ground arith
length-delete k ((j, w) ∷ m) h = ground (arith, delete_le k m, length-delete k m)

-- A sorted list whose hashes are those of the ids is no longer than a map that has all the ids.
pub length-sorted :
    (f : Bytes → Bytes) (s : List RingId) (m : List (Bytes × PeerRef))
    → IsSorted s
    → ((i : ℕ) (e : RingId) → get_elem? s i ≡ some e → (e.hash ≡ f e.p.id) × (has e.p.id m ≡ true))
    → length s ≤ length m
length-sorted f [] m sorted all = omega arith
length-sorted f (x ∷ xs) m sorted all =
    let (hashed, there) = all 0 x refl in
    let rest : length xs ≤ length (delete x.p.id m) =
      length-sorted f xs (delete x.p.id m) sorted.1 λ i e q.
        let (hashed_e, there_e) = all (suc i) e q in
        let above = index_lt (x ∷ xs) 0 (suc i) x e sorted refl q (omega arith) in
        (
          hashed_e,
          ground
              (arith, has-delete x.p.id e.p.id m, =?_iff x.p.id e.p.id, bytes_compare_refl x.hash),
        ) in
    omega (arith, rest, length-delete x.p.id m there)

module _ (sha256 : Bytes → Bytes) (self : PeerRef) (m : List (Bytes × PeerRef))
    (members : Bytes → Bool) (known : (id : Bytes) → members id ≡ true → has id m ≡ true) where
  length-ring : (n : ℕ) (r : Ring) → Agrees sha256 self.id members n r → r.length ≤ suc (length m)
  unfolding has
  length-ring n r a = rw a.inv.counted (
      length-sorted (hash_id sha256 r.ring_num) r.succ_list ((self.id, self) ∷ m) a.inv.sorted
        λ i e q.
          let (hashed, here) = a.inv.listed i e q in
          (hashed, ground (arith, has-lookup e.p.id r.peer_to_ring, a.same e.p.id, known e.p.id)))

  Room-known :
      (k : ℕ) (l : List (ℕ × Ring))
      → suc (length m) + k < 2 ^ 32
      → AllAgree sha256 self.id members l
      → Room k l
  Room-known k [] few a = tt
  Room-known k ((n, r) ∷ rest) few a =
      (omega (arith, length-ring n r a.0), Room-known k rest few a.1)

-- On a view with the invariant that knows few peers every ring has room for `k` peers more.
pub ViewInv-Room :
    (sha256 : Bytes → Bytes) (k : ℕ) (v : View)
    → ViewInv sha256 v
    → suc (length v.view_map) + k < 2 ^ 32
    → Room k v.rings.ring_map
unfolding is_alive exists
ViewInv-Room sha256 k v inv few =
    Room-known sha256 v.self v.view_map (λ id. has id v.live_map) inv.known k v.rings.ring_map few
      inv.live.agree
