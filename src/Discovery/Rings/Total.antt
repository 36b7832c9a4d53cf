-- ===== src/Discovery/Rings/Total.antt =====
-- core/discovery/ring.go: the questions to the rings of a view never panic.
use ifrit.Prelude.{
  =?_iff, subst, ℕ, ◌≡◌, refl, Bool, true, false, ◌||◌, Option, none, some, List, [], ◌∷◌, ◌++◌,
  inl, inr, Bytes, bytes_eq, nat_eq, ◌=?◌, leb, Bool-cases, Option-cases, if◌then◌else◌, arith,
}
use ifrit.Prelude.GoMap.{lookup}
use ifrit.Discovery.Types.{PeerRef, RingId}
use ifrit.Discovery.Ring.{Ring, successor, between_neighbours, neighbours, hash_in, is_between}
use ifrit.Discovery.Ring.Invariant.{RingInv, IsCollisionFree, succ-some}
use ifrit.Discovery.Ring.Neighbours.{found, unfound, own_predecessor, some_entry, is_prev_total}
use ifrit.Discovery.Rings.{
  Rings, is_predecessor, should_loop, should_be_my_neighbour, find_loop, find_neighbours, meet,
  my_ring_neighbours, my_ring_successor, my_ring_predecessor, unless_self,
}
use ifrit.Discovery.Rings.Agree.{Agrees, AllAgree}

module _ (sha256 : Bytes → Bytes) (r : Ring) (inv : RingInv sha256 r) where
  pub own_successor : (q : RingId) × (successor r ≡ some q)
  unfolding successor
  own_successor =
      let (q, h) = succ-some r.succ_list (some_entry sha256 r inv) r.self_idx in
      (q, rw inv.counted h)

  between_neighbours_total : (id : Bytes) → (b : Bool) × (between_neighbours sha256 r id ≡ some b)
  unfolding between_neighbours
  between_neighbours_total id = elim (Bool-cases (leb r.length 1)) [
    | inl alone ↦ (true, rw (between_neighbours, alone) refl)
    | inr more ↦
        let (next, up) = own_successor in
        let (q, down) = own_predecessor sha256 r inv in
        (
          is_between r.self_id.hash next.hash (hash_in sha256 r id)
              || is_between q.hash r.self_id.hash (hash_in sha256 r id),
          rw (between_neighbours, more, up, down) refl,
        )
  ]

  neighbours_total :
      (id : Bytes)
      → IsCollisionFree sha256
      → (a b : RingId) × (neighbours sha256 r id ≡ some (a, b))
  unfolding neighbours hash_in
  neighbours_total id free = elim (Bool-cases (leb r.length 1)) [
    | inl alone ↦ (r.self_id, r.self_id, rw (neighbours, alone) refl)
    | inr more ↦
        let p = record r.self_id.p { id = id } in
        elim (Option-cases (lookup id r.peer_to_ring)) [
          | inl unknown ↦
              let (a, b, q) = unfound sha256 r inv p free unknown in
              (a, b, rw (neighbours, more, hash_in, unknown) q)
          | inr (e, known) ↦
              let (a, b, q) = found sha256 r inv p e known in
              (a, b, rw (neighbours, more, hash_in, known) q)
        ]
  ]

module _ (sha256 : Bytes → Bytes) (self : Bytes) (members : Bytes → Bool) where
  -- A ring of the map stands under its number and agrees with the others.
  pub Agrees-lookup :
      (k : ℕ) (l : List (ℕ × Ring)) (r : Ring)
      → AllAgree sha256 self members l
      → lookup k l ≡ some r
      → Agrees sha256 self members k r
  unfolding lookup
  Agrees-lookup k [] r all h = ground arith
  Agrees-lookup k ((n, x) ∷ rest) r all h = elim (Bool-cases (n =? k)) [
    | inl here ↦
        let same : x ≡ r = ground arith in
        subst (λ (e : ℕ × Ring). Agrees sha256 self members e.0 e.1)
          (λ i. ((=?_iff n k).0 here i, same i)) all.0
    | inr there ↦ Agrees-lookup k rest r all.1 (ground arith)
  ]

  RingInv-lookup :
      (k : ℕ) (l : List (ℕ × Ring)) (r : Ring)
      → AllAgree sha256 self members l
      → lookup k l ≡ some r
      → RingInv sha256 r
  RingInv-lookup k l r all h = (Agrees-lookup k l r all h).inv

  should_loop_total :
      (l : List (ℕ × Ring)) (id : Bytes)
      → AllAgree sha256 self members l
      → (b : Bool) × (should_loop sha256 l id ≡ some b)
  unfolding should_loop
  should_loop_total [] id all = (false, refl)
  should_loop_total ((n, r) ∷ rest) id all =
      let (b, q) = between_neighbours_total sha256 r all.0.inv id in
      let (c, others) = should_loop_total rest id all.1 in
      (if b then true else c, rw (q, others) (ground arith))

  find_loop_total :
      (l : List (ℕ × Ring)) (id : Bytes) (seen : List PeerRef)
      → IsCollisionFree sha256
      → AllAgree sha256 self members l
      → (found : List PeerRef) × (find_loop sha256 l id seen ≡ some found)
  unfolding find_loop
  find_loop_total [] id seen free all = (seen, refl)
  find_loop_total ((n, r) ∷ rest) id seen free all =
      let (a, b, q) = neighbours_total sha256 r all.0.inv id free in
      let (found, more) = find_loop_total rest id (meet b.p true (meet a.p true seen)) free all.1 in
      (found, rw q more)

  module _ (rs : Rings) (all : AllAgree sha256 self members rs.ring_map) where
    -- For any id.
    pub should_be_my_neighbour_total :
        (id : Bytes) → (b : Bool) × (should_be_my_neighbour sha256 rs id ≡ some b)
    unfolding should_be_my_neighbour
    should_be_my_neighbour_total id = should_loop_total rs.ring_map id all

    pub find_neighbours_total :
        (id : Bytes)
        → IsCollisionFree sha256
        → (found : List PeerRef) × (find_neighbours sha256 rs id ≡ some found)
    unfolding find_neighbours
    find_neighbours_total id free = find_loop_total rs.ring_map id [] free all

    -- For any two peers and any ring number.
    pub is_predecessor_total :
        (id to_check : PeerRef) (ring_num : ℕ)
        → IsCollisionFree sha256
        → (b : Bool) × (is_predecessor sha256 rs id to_check ring_num ≡ some b)
    unfolding is_predecessor
    is_predecessor_total id to_check ring_num free =
        elim (Option-cases (lookup ring_num rs.ring_map)) [
          | inl e ↦ (false, rw (is_predecessor, e) refl)
          | inr (r, e) ↦
              let (b, q) =
                is_prev_total sha256 r (RingInv-lookup ring_num rs.ring_map r all e) id to_check
                  free in
              (b, rw (is_predecessor, e) q)
        ]

    pub my_ring_successor_total :
        (ring_num : ℕ) → (p : Option PeerRef) × (my_ring_successor rs ring_num ≡ some p)
    unfolding my_ring_successor
    my_ring_successor_total ring_num = elim (Option-cases (lookup ring_num rs.ring_map)) [
      | inl e ↦ (none, rw (my_ring_successor, e) refl)
      | inr (r, e) ↦
          let (q, h) = own_successor sha256 r (RingInv-lookup ring_num rs.ring_map r all e) in
          (unless_self q.p rs.self, rw (my_ring_successor, e, h) refl)
    ]

    pub my_ring_predecessor_total :
        (ring_num : ℕ) → (p : Option PeerRef) × (my_ring_predecessor rs ring_num ≡ some p)
    unfolding my_ring_predecessor
    my_ring_predecessor_total ring_num = elim (Option-cases (lookup ring_num rs.ring_map)) [
      | inl e ↦ (none, rw (my_ring_predecessor, e) refl)
      | inr (r, e) ↦
          let (q, h) = own_predecessor sha256 r (RingInv-lookup ring_num rs.ring_map r all e) in
          (unless_self q.p rs.self, rw (my_ring_predecessor, e, h) refl)
    ]

    pub my_ring_neighbours_total :
        (ring_num : ℕ) → (l : List PeerRef) × (my_ring_neighbours rs ring_num ≡ some l)
    unfolding my_ring_neighbours
    my_ring_neighbours_total ring_num = elim (Option-cases (lookup ring_num rs.ring_map)) [
      | inl e ↦ ([], rw (my_ring_neighbours, e) refl)
      | inr (r, e) ↦
          let inv = RingInv-lookup ring_num rs.ring_map r all e in
          let (a, up) = own_successor sha256 r inv in
          let (b, down) = own_predecessor sha256 r inv in
          (
            (if a.p.id =? rs.self.id then [] else a.p ∷ [])
                ++ (if (b.p.id =? a.p.id) || (b.p.id =? rs.self.id) then [] else b.p ∷ []),
            rw (my_ring_neighbours, e, up, down) refl,
          )
    ]
