-- ===== src/Discovery/Rings.antt =====
-- core/discovery/ring.go, the rings of one view. Go's order over a map is not specified; here it is
-- the order of the list. `none` is a panic.
pub mod Notes
pub mod Agree
pub mod Total
use ifrit.Prelude.{
  ℕ, zero, suc, ◌+◌, Bool, true, false, not, ◌||◌, Option, none, some, List, [], ◌∷◌, ◌++◌, ◌⊎◌,
  inl, inr, Bytes, bytes_eq, nat_eq, ◌==◌, ◌=?◌, if◌then◌else◌, ◌>>=◌,
}
use ifrit.Prelude.GoMap
use ifrit.Discovery.Types.{PeerRef}
use ifrit.Discovery.Peer.{Heap}
use ifrit.Discovery.Ring.{Ring}
use ifrit.Discovery.Ring

pub record Rings : Type 0 where
  pub ring_map : List (ℕ × Ring)
  pub num_rings : ℕ
  pub self : PeerRef

pub data RingsError : Type 0 where
  no_self no_rings : RingsError

-- The loop over the rings of `rings.remove`.
remove_from : List (ℕ × Ring) → PeerRef → Option (List (ℕ × Ring))
remove_from [] p = some []
remove_from ((n, r) ∷ rest) p = do
  r' ← Ring.remove r p
  rest' ← remove_from rest p
  some ((n, r') ∷ rest')

unfoldable pub remove : Rings → PeerRef → Option Rings
unfolding remove_from
remove rs p = do m ← remove_from rs.ring_map p; some (record rs { ring_map = m })

-- `if _, ok := exists[p.Id]; !ok { ... }`, with a further test in `allMyNeighbours`.
abbrev pub has_id : Bytes → List PeerRef → Bool
has_id id [] = false
has_id id (q ∷ qs) = (q.id =? id) || has_id id qs

abbrev meet : PeerRef → Bool → List PeerRef → List PeerRef
meet p wanted seen = if has_id p.id seen || not wanted then seen else seen ++ (p ∷ [])

all_my_loop : List (ℕ × Ring) → PeerRef → List PeerRef → Option (List PeerRef)
all_my_loop [] self seen = some seen
all_my_loop ((n, r) ∷ rest) self seen = do
  succ ← Ring.successor r
  prev ← Ring.predecessor r
  let seen1 = meet succ.p (not (succ.p.id =? self.id)) seen
  all_my_loop rest self (meet prev.p (not (prev.p.id =? self.id)) seen1)

unfoldable pub all_my_neighbours : Rings → Option (List PeerRef)
unfolding all_my_loop
all_my_neighbours rs = all_my_loop rs.ring_map rs.self []

-- The gossip partners on one ring: none for a ring number out of range.
unfoldable pub my_ring_neighbours : Rings → ℕ → Option (List PeerRef)
my_ring_neighbours rs ring_num = elim (GoMap.lookup ring_num rs.ring_map) [
  | none ↦ some []
  | some r ↦ (do
    succ ← Ring.successor r
    prev ← Ring.predecessor r
    let first = if succ.p.id =? rs.self.id then [] else succ.p ∷ []
    let second = if (prev.p.id =? succ.p.id) || (prev.p.id =? rs.self.id) then [] else prev.p ∷ []
    some (first ++ second))
]

-- The inner `none` is nil.
abbrev unless_self : PeerRef → PeerRef → Option PeerRef
unless_self p self = if p.id =? self.id then none else some p

unfoldable pub my_ring_successor : Rings → ℕ → Option (Option PeerRef)
my_ring_successor rs ring_num = elim (GoMap.lookup ring_num rs.ring_map) [
  | none ↦ some none
  | some r ↦ (do succ ← Ring.successor r; some (unless_self succ.p rs.self))
]

unfoldable pub my_ring_predecessor : Rings → ℕ → Option (Option PeerRef)
my_ring_predecessor rs ring_num = elim (GoMap.lookup ring_num rs.ring_map) [
  | none ↦ some none
  | some r ↦ (do prev ← Ring.predecessor r; some (unless_self prev.p rs.self))
]

module _ (sha256 : Bytes → Bytes) where
  -- for i = first; i < first + n; i++
  make_rings : ℕ → ℕ → PeerRef → List (ℕ × Ring)
  make_rings zero i self = []
  make_rings (suc n) i self = (i, Ring.new_ring sha256 i self) ∷ make_rings n (i + 1) self

  unfoldable pub create_rings : Option PeerRef → ℕ → Rings ⊎ RingsError
  unfolding make_rings
  create_rings none num_rings = inr no_self
  create_rings (some self) num_rings =
      if self.id =? []
      then inr no_self
      else (if num_rings == 0
          then inr no_rings
          else inl (record {
            ring_map = make_rings num_rings 1 self;
            num_rings = num_rings;
            self = self;
          }))

  add_to : List (ℕ × Ring) → PeerRef → Heap → Option (List (ℕ × Ring) × Heap × List Bytes)
  add_to [] p heap = some ([], heap, [])
  add_to ((n, r) ∷ rest) p heap = do
    (r', heap1, old) ← Ring.add sha256 r p heap
    (rest', heap2, olds) ← add_to rest p heap1
    some ((n, r') ∷ rest', heap2, old ++ olds)

  unfoldable pub add : Rings → PeerRef → Heap → Option (Rings × Heap × List Bytes)
  unfolding add_to
  add rs p heap = do
    (m, heap', old) ← add_to rs.ring_map p heap
    some (record rs { ring_map = m }, heap', old)

  unfoldable pub is_predecessor : Rings → PeerRef → PeerRef → ℕ → Option Bool
  is_predecessor rs id to_check ring_num = elim (GoMap.lookup ring_num rs.ring_map) [
    | none ↦ some false
    | some r ↦ Ring.is_prev sha256 r id to_check
  ]

  pub find_loop : List (ℕ × Ring) → Bytes → List PeerRef → Option (List PeerRef)
  find_loop [] id seen = some seen
  find_loop ((n, r) ∷ rest) id seen = do
    (succ, prev) ← Ring.neighbours sha256 r id
    find_loop rest id (meet prev.p true (meet succ.p true seen))

  unfoldable pub find_neighbours : Rings → Bytes → Option (List PeerRef)
  unfolding find_loop
  find_neighbours rs id = find_loop rs.ring_map id []

  pub should_loop : List (ℕ × Ring) → Bytes → Option Bool
  should_loop [] id = some false
  should_loop ((n, r) ∷ rest) id =
      let others = should_loop rest id in
      (do yes_here ← Ring.between_neighbours sha256 r id; if yes_here then some true else others)

  unfoldable pub should_be_my_neighbour : Rings → Bytes → Option Bool
  unfolding should_loop
  should_be_my_neighbour rs id = should_loop rs.ring_map id
