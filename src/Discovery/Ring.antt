-- ===== src/Discovery/Ring.antt =====
-- core/discovery/ring.go, one ring: the peers sorted by the hash of their id, as a circle.
-- `none` is a panic. `crypto/sha256` is the argument `sha256`.
pub mod Lists
pub mod Invariant
pub mod Removal
pub mod Predecessor
pub mod Reach
pub mod Members
pub mod Same
pub mod Neighbours
pub mod Notes
use ifrit.Prelude.{
  ℕ, ◌+◌, ◌-◌, ◌%◌, ◌^◌, Ordering, Bool, true, false, not, ◌&&◌, ◌||◌, Option, none, some, List, [],
  ◌∷◌, ◌++◌, Bytes, bytes_eq, get_elem?, take, drop, ◌==◌, ltb, leb, if◌then◌else◌, ◌>>=◌,
}
use ifrit.Prelude.GoMap
use ifrit.Bytes.{bytes_compare}
use ifrit.Discovery.Types.{PeerRef, RingId, u32, hash_id, equal_id}
use ifrit.Discovery.Search.{at, failed}
use ifrit.Discovery.Search
use ifrit.Discovery.Accusation.{Accusation}
use ifrit.Discovery.Accusation
use ifrit.Discovery.Peer.{Heap, store, ring_accusation, remove_ring_accusation}

pub record Ring : Type 0 where
  pub ring_num : ℕ
  pub peer_to_ring : List (Bytes × RingId)
  pub succ_list : List RingId
  pub length : ℕ
  pub self_idx : ℕ
  pub self_id : RingId

abbrev is_lt : Ordering → Bool
is_lt Ordering.lt = true
is_lt Ordering.eq = false
is_lt Ordering.gt = false

abbrev is_gt : Ordering → Bool
is_gt Ordering.lt = false
is_gt Ordering.eq = false
is_gt Ordering.gt = true

abbrev is_eq : Ordering → Bool
is_eq Ordering.lt = false
is_eq Ordering.eq = true
is_eq Ordering.gt = false

-- `isBetween` reads nothing but the hashes.
unfoldable pub is_between : Bytes → Bytes → Bytes → Bool
is_between start end new =
    let start_new = bytes_compare start new in
    let end_new = bytes_compare end new in
    if is_eq end_new || is_eq start_new then true else elim (bytes_compare start end) [
      | Ordering.lt ↦ is_lt start_new && is_gt end_new
      | Ordering.gt ↦ (is_gt start_new && is_gt end_new) || (is_lt start_new && is_lt end_new)
      | Ordering.eq ↦ true
    ]

unfoldable pub successor : Ring → Option RingId
successor r = Search.succ r.succ_list r.self_idx r.length

unfoldable pub predecessor : Ring → Option RingId
predecessor r = Search.prev r.succ_list r.self_idx r.length

unfoldable pub succ_at_idx : Ring → ℕ → Option RingId
succ_at_idx r idx = Search.succ r.succ_list idx r.length

unfoldable pub prev_at_idx : Ring → ℕ → Option RingId
prev_at_idx r idx = Search.prev r.succ_list idx r.length

-- A neighbour's address, unless the neighbour stayed.
abbrev pub lost : RingId → RingId → List Bytes
lost new old = if equal_id new old.hash then [] else old.p.addr ∷ []

-- An accusation of `succ` by `prev` ends when a peer comes between them.
unfoldable pub drop_accusation : ℕ → PeerRef → PeerRef → Heap → Heap
drop_accusation ring_num succ prev heap = elim (ring_accusation (heap succ.id) ring_num) [
  | none ↦ heap
  | some acc ↦
      if Accusation.is_accuser acc prev.id
      then store succ.id (remove_ring_accusation (heap succ.id) ring_num) heap
      else heap
]

-- The list, the length and the own index after `insert` has put `id` at `idx`.
abbrev pub with_list : Ring → List RingId → ℕ → Ring
with_list r list idx = record r {
  succ_list = list;
  length = r.length + 1;
  self_idx = if leb (u32 idx) r.self_idx then u32 (r.self_idx + 1) else r.self_idx;
}

module _ (sha256 : Bytes → Bytes) where
  unfoldable pub ring_id : ℕ → PeerRef → RingId
  ring_id ring_num p = record { p = p; hash = hash_id sha256 ring_num p.id }

  unfoldable pub new_ring : ℕ → PeerRef → Ring
  unfolding ring_id
  new_ring ring_num self = record {
    ring_num = ring_num;
    peer_to_ring = GoMap.insert self.id (ring_id ring_num self) [];
    succ_list = ring_id ring_num self ∷ [];
    length = 1;
    self_idx = 0;
    self_id = ring_id ring_num self;
  }

  -- A peer that the ring does not know.
  add_new : Ring → PeerRef → Heap → Option (Ring × Heap × List Bytes)
  unfolding ring_id successor predecessor succ_at_idx prev_at_idx drop_accusation
  add_new r p heap = do
    old_succ ← successor r
    old_prev ← predecessor r
    (list, idx) ← Search.insert r.succ_list (ring_id r.ring_num p) r.length
    let r1 = with_list r list idx
    new_succ ← successor r1
    new_prev ← predecessor r1
    here ← get_elem? r1.succ_list r1.self_idx
    let r2 = record r1 { peer_to_ring = GoMap.insert p.id (ring_id r.ring_num p) r.peer_to_ring }
    succ ← succ_at_idx r2 idx
    prev ← prev_at_idx r2 idx
    some (
      r2,
      drop_accusation r.ring_num succ.p prev.p heap,
      lost new_succ old_succ ++ lost new_prev old_prev,
    )

  -- The ring, the heap and the addresses of the neighbours that are no longer such.
  unfoldable pub add : Ring → PeerRef → Heap → Option (Ring × Heap × List Bytes)
  unfolding add_new
  add r p heap = if GoMap.has p.id r.peer_to_ring then some (r, heap, []) else add_new r p heap

-- The removal of the entry at `idx`, the own index being `self_idx`.
abbrev pub cut : Ring → PeerRef → ℕ → ℕ → Option Ring
cut r p idx self_idx = do
  let list = take idx r.succ_list ++ drop (idx + 1) r.succ_list
  here ← get_elem? list self_idx
  some (record r {
    succ_list = list;
    length = r.length - 1;
    self_idx = self_idx;
    peer_to_ring = GoMap.delete p.id r.peer_to_ring;
  })

abbrev remove_at : Ring → PeerRef → ℕ → Option Ring
remove_at r p idx =
    if ltb (u32 idx) r.self_idx
    then cut r p idx (r.self_idx - 1)
    else (if u32 idx == r.self_idx then some r else cut r p idx r.self_idx)

unfoldable pub remove : Ring → PeerRef → Option Ring
remove r p = elim (GoMap.lookup p.id r.peer_to_ring) [
  | none ↦ some r
  | some r_id ↦
      if r.length == 0 then some r else elim (Search.search r.succ_list r_id.hash r.length) [
        | none ↦ none
        | some (failed e) ↦ some r
        | some (at idx) ↦ remove_at r p idx
      ]
]

module _ (sha256 : Bytes → Bytes) where
  -- The hash of an id: the one stored in the ring, or one computed for the search.
  unfoldable pub hash_in : Ring → Bytes → Bytes
  hash_in r id = elim (GoMap.lookup id r.peer_to_ring) [
    | none ↦ hash_id sha256 r.ring_num id
    | some r_id ↦ r_id.hash
  ]

  -- Both peers are in the ring.
  prev_of_live : Ring → RingId → RingId → Option Bool
  prev_of_live r r_id to_check_id =
      if equal_id r_id r.self_id.hash
      then (do q ← predecessor r; some (equal_id q to_check_id.hash))
      else elim (Search.search r.succ_list r_id.hash r.length) [
        | none ↦ none
        | some (failed e) ↦ some false
        | some (at i) ↦ (do q ← prev_at_idx r i; some (equal_id q to_check_id.hash))
      ]

  -- Whether `toCheck` is, or would be, the predecessor of `p`.
  unfoldable pub is_prev : Ring → PeerRef → PeerRef → Option Bool
  unfolding prev_of_live predecessor prev_at_idx hash_in
  is_prev r p to_check = elim (GoMap.lookup p.id r.peer_to_ring) [
    | some r_id ↦ elim (GoMap.lookup to_check.id r.peer_to_ring) [
      | some to_check_id ↦ prev_of_live r r_id to_check_id
      | none ↦
          let accuser_id = hash_id sha256 r.ring_num to_check.id in
          if equal_id r_id r.self_id.hash
          then (do q ← predecessor r; some (is_between q.hash r_id.hash accuser_id))
          else (do
            (next, q) ← Search.find_succ_and_prev r.succ_list r_id.hash r.length
            some (is_between q.hash r_id.hash accuser_id))
    ]
    | none ↦
        let acc_id = hash_id sha256 r.ring_num p.id in
        let accuser_id = hash_in r to_check.id in
        (do
          (next, q) ← Search.find_succ_and_prev r.succ_list acc_id r.length
          some (is_between q.hash acc_id accuser_id))
  ]

  unfoldable pub between_neighbours : Ring → Bytes → Option Bool
  unfolding hash_in successor predecessor
  between_neighbours r other = if leb r.length 1 then some true else (do
    next ← successor r
    q ← predecessor r
    some (
        is_between r.self_id.hash next.hash (hash_in r other)
        || is_between q.hash r.self_id.hash (hash_in r other)))

  -- The successor and the predecessor that a peer with this id has, or would have.
  unfoldable pub neighbours : Ring → Bytes → Option (RingId × RingId)
  unfolding hash_in
  neighbours r id =
      if leb r.length 1
      then some (r.self_id, r.self_id)
      else Search.find_succ_and_prev r.succ_list (hash_in r id) r.length
