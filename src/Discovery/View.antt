-- ===== src/Discovery/View.antt =====
-- core/discovery/view.go: the view, with the heap of the peers' mutable state. The locks make each
-- method one step. `none` is a panic.
pub mod RingTurn
pub mod Timers
pub mod Mask
pub mod Deactivate
pub mod Rebuttal
pub mod Live
pub mod Overlay
pub mod New
use ifrit.Prelude.{
  ℕ, zero, suc, ◌+◌, ◌-◌, ◌/◌, ◌%◌, ◌^◌, Bool, true, false, not, ◌&&◌, ◌||◌, Option, none, some,
  List, [], ◌∷◌, ◌++◌, ◌⊎◌, inl, inr, Bytes, map, bytes_eq, ◌==◌, ltb, leb, ◌=?◌, if◌then◌else◌,
  ◌>>=◌,
}
use ifrit.Prelude.GoMap
use ifrit.Bits.{set_bit, clear_bit, has_bit, ones_count32}
use ifrit.Discovery.Types.{Certificate, PeerRef, u32}
use ifrit.Discovery.Note.{Note, PbNote, Signature}
use ifrit.Discovery.Note
use ifrit.Discovery.Peer.{PeerState, PeerError, Heap, store, new_peer}
use ifrit.Discovery.Rings.{Rings, RingsError}
use ifrit.Discovery.Rings

-- Times are in the clock's units, as `dead_timeout` is.
pub record Timeout : Type 0 where
  pub observer : PeerRef
  pub time_stamp : ℕ
  pub last_note : Note
  pub accused : PeerRef

-- `closed` are the addresses given to `CloseConn`, latest first.
pub record View : Type 0 where
  pub view_map : List (Bytes × PeerRef)
  pub live_map : List (Bytes × PeerRef)
  pub timeout_map : List (Bytes × Timeout)
  pub rings : Rings
  pub curr_gossip_ring : ℕ
  pub curr_monitor_ring : ℕ
  pub max_byz : ℕ
  pub deactivated_rings : ℕ
  pub removal_timeout : ℕ
  pub self : PeerRef
  pub heap : Heap
  pub closed : List Bytes

pub data ViewError : Type 0 where
  peer_already_exists too_many_deactivated already_deactivated zero_deactivate : ViewError
  non_existing_ring no_note accused_is_nil obs_is_nil wrong_note sign_note : ViewError
  of_peer : PeerError → ViewError
  of_rings : RingsError → ViewError

abbrev pub values {ℓ} : {A : Type ℓ} → List (Bytes × A) → List A
values = map (λ e. e.1)

-- Method `Peer`: nil is `none`.
unfoldable pub peer : View → Bytes → Option PeerRef
peer v id = GoMap.lookup id v.view_map

unfoldable pub full : View → List PeerRef
full v = values v.view_map

unfoldable pub exists : View → Bytes → Bool
exists v id = GoMap.has id v.view_map

unfoldable pub live : View → List PeerRef
live v = values v.live_map

unfoldable pub live_peer : View → Bytes → Option PeerRef
live_peer v id = GoMap.lookup id v.live_map

unfoldable pub is_alive : View → Bytes → Bool
is_alive v id = GoMap.has id v.live_map

unfoldable pub add_full : View → Bytes → Option Certificate → View × Option ViewError
add_full v id cert =
    if GoMap.has id v.view_map
    then (v, some peer_already_exists)
    else elim (new_peer cert v.rings.num_rings) [
      | inr e ↦ (v, some (of_peer e))
      | inl (p, st) ↦ (
        record v { view_map = GoMap.insert p.id p v.view_map; heap = store p.id st v.heap },
        none,
      )
    ]

unfoldable pub my_neighbours : View → Option (List PeerRef)
my_neighbours v = Rings.all_my_neighbours v.rings

abbrev pub next_ring : ℕ → ℕ → ℕ
next_ring curr num_rings =
    let next = u32 (curr + 1) % u32 (num_rings + 1) in if next == 0 then 1 else next

unfoldable pub increment_gossip_ring : View → View
increment_gossip_ring v = record v {
  curr_gossip_ring = next_ring v.curr_gossip_ring v.rings.num_rings;
}

unfoldable pub increment_monitor_ring : View → View
increment_monitor_ring v = record v {
  curr_monitor_ring = next_ring v.curr_monitor_ring v.rings.num_rings;
}

-- The deferred increment runs after the neighbours are read.
unfoldable pub gossip_partners : View → Option (List PeerRef × View)
unfolding increment_gossip_ring
gossip_partners v = do
  l ← Rings.my_ring_neighbours v.rings v.curr_gossip_ring
  some (l, increment_gossip_ring v)

unfoldable pub monitor_target : View → Option (Option PeerRef × ℕ × View)
unfolding increment_monitor_ring
monitor_target v = do
  p ← Rings.my_ring_successor v.rings v.curr_monitor_ring
  some (p, v.curr_monitor_ring, increment_monitor_ring v)

unfoldable pub my_ring_neighbours : View → ℕ → Option (Option PeerRef × Option PeerRef)
my_ring_neighbours v ring_num = do
  succ ← Rings.my_ring_successor v.rings ring_num
  prev ← Rings.my_ring_predecessor v.rings ring_num
  some (succ, prev)

-- Each address of the list goes to `CloseConn`, in turn.
abbrev close_all : List Bytes → List Bytes → List Bytes
close_all [] closed = closed
close_all (a ∷ rest) closed = close_all rest (a ∷ closed)

unfoldable pub remove_live : View → Bytes → Option View
remove_live v id = elim (GoMap.lookup id v.live_map) [
  | none ↦ some v
  | some p ↦ (do
    rings ← Rings.remove v.rings p
    some (record v {
      rings = rings;
      live_map = GoMap.delete p.id v.live_map;
      closed = p.addr ∷ v.closed;
    }))
]

-- `now` is `time.Now()`.
unfoldable pub start_timer :
    ℕ → View → Option PeerRef → Option Note → Option PeerRef → View × Option ViewError
start_timer now v none n observer = (v, some accused_is_nil)
start_timer now v (some accused) none observer = (v, some no_note)
start_timer now v (some accused) (some n) none = (v, some obs_is_nil)
start_timer now v (some accused) (some n) (some observer) =
    let set = λ (stamp : ℕ). record v {
      timeout_map =
          GoMap.insert accused.id
            (record { observer = observer; time_stamp = stamp; last_note = n; accused = accused })
            v.timeout_map;
    } in
    if not (n.id =? accused.id)
    then (v, some wrong_note)
    else elim (GoMap.lookup accused.id v.timeout_map) [
      | none ↦ (set now, none)
      | some t ↦ if ltb t.last_note.epoch n.epoch then (set t.time_stamp, none) else (v, none)
    ]

unfoldable pub has_timer : View → Bytes → Bool
has_timer v id = GoMap.has id v.timeout_map

unfoldable pub delete_timeout : View → Bytes → View
delete_timeout v id = record v { timeout_map = GoMap.delete id v.timeout_map }

-- The loop runs over the timeouts that stood in the map when it began.
unfoldable pub check_loop : ℕ → List Timeout → View → Option View
check_loop now [] v = some v
check_loop now (t ∷ rest) v = do
  v' ←
      (if ltb v.removal_timeout (now - t.time_stamp)
        then (do w ← remove_live v t.accused.id; some (delete_timeout w t.accused.id))
        else some v)
  check_loop now rest v'

unfoldable pub check_timeouts : ℕ → View → Option View
unfolding check_loop remove_live delete_timeout
check_timeouts now v = check_loop now (values v.timeout_map) v

-- `int(numRings) - active` may be negative, where it exceeds no bound.
unfoldable pub valid_mask : ℕ → ℕ → ℕ → Option ViewError
valid_mask mask num_rings max_byz =
    if ltb max_byz (num_rings - ones_count32 mask) then some too_many_deactivated else none

abbrev accepted : Option ViewError → Bool
accepted none = true
accepted (some e) = false

unfoldable pub view_valid_mask : View → ℕ → Bool
unfolding valid_mask
view_valid_mask v mask = accepted (valid_mask mask v.rings.num_rings v.max_byz)

-- for idx = first; idx < first + n; idx++: the first inactive ring but `ring_idx`, or the end.
pub first_inactive : ℕ → ℕ → ℕ → ℕ → ℕ
first_inactive zero idx ring_idx mask = idx
first_inactive (suc n) idx ring_idx mask =
    let rest = first_inactive n (idx + 1) ring_idx mask in
    if not (idx == ring_idx) && not (has_bit mask idx) then idx else rest

-- `ringNumber - 1` and `numRings - 1` wrap at 0. The mask is the own note's.
unfoldable pub deactivate_ring : View → ℕ → ℕ → View × (ℕ ⊎ ViewError)
unfolding first_inactive
deactivate_ring v mask ring_number =
    let ring_idx = u32 (ring_number + 2 ^ 32 - 1) in
    let max_idx = u32 (v.rings.num_rings + 2 ^ 32 - 1) in
    if v.max_byz == 0
    then (v, inr zero_deactivate)
    else (if ltb max_idx ring_idx
        then (v, inr non_existing_ring)
        else (if not (has_bit mask ring_idx)
            then (v, inr already_deactivated)
            else (if v.deactivated_rings == v.max_byz
                then (
                  v,
                  inl (
                      clear_bit (set_bit mask (first_inactive (max_idx + 1) 0 ring_idx mask))
                        ring_idx),
                )
                else (
                  record v { deactivated_rings = u32 (v.deactivated_rings + 1) },
                  inl (clear_bit mask ring_idx),
                ))))

-- `proto.Marshal` of a note, the signer and `crypto/sha256` are not modelled: they are arguments.
module _ (marshal : PbNote → Option Bytes) (sign : Bytes → Option (Bytes × Bytes)) where
  -- The signed note, or `none` for an error: then the note stays unsigned.
  unfoldable pub signed : Note → Option Note
  signed n = do
    b ← marshal (record { epoch = n.epoch; id = n.id; mask = n.mask; signature = none })
    (r, s) ← sign b
    some (record n { signature = some (record { r = some r; s = some s }) })

  abbrev set_own_note : View → Note → View
  set_own_note v n = record v {
    heap = store v.self.id (record (v.heap v.self.id) { note = some n }) v.heap;
  }

  unfoldable pub sign_local_note : View → Note → View × Option ViewError
  unfolding signed
  sign_local_note v n = elim (signed n) [
    | none ↦ (v, some sign_note)
    | some n' ↦ (set_own_note v n', none)
  ]

  abbrev pub or_mask : ℕ ⊎ ViewError → ℕ → ℕ
  or_mask (inl mask) old = mask
  or_mask (inr e) old = old

  abbrev or_unsigned : Option Note → Note → Note
  or_unsigned none n = n
  or_unsigned (some n') n = n'

  -- `none` is the dereference of an own note that is nil.
  unfoldable pub should_rebuttal : View → ℕ → ℕ → Option (View × Bool)
  unfolding signed deactivate_ring
  should_rebuttal v epoch ring_num = do
    own ← (v.heap v.self.id).note
    if not (Note.equal own epoch)
        then some (v, false)
        else (let (v', outcome) = deactivate_ring v own.mask ring_num in
            let new : Note = record {
              epoch = (own.epoch + 1) % 2 ^ 64;
              mask = or_mask outcome own.mask;
              id = v.self.id;
              signature = none;
            } in
            some (set_own_note v' (or_unsigned (signed new) new), true))

  -- for i = first; i < first + n; i++ { mask = setBit(mask, i) }
  pub set_bits : ℕ → ℕ → ℕ → ℕ
  set_bits zero i mask = mask
  set_bits (suc n) i mask = set_bits n (i + 1) (set_bit mask i)

  -- `dead_timeout` is the configured removal timeout; `float64(numRings)/2 - 1`, cut to an integer
  -- and not below 0, is `(numRings - 2) / 2`.
  unfoldable pub new_view : (Bytes → Bytes) → ℕ → ℕ → Option Certificate → View ⊎ ViewError
  unfolding sign_local_note set_bits
  new_view sha256 dead_timeout num_rings cert = elim (new_peer cert num_rings) [
    | inr e ↦ inr (of_peer e)
    | inl (self, st) ↦ elim (Rings.create_rings sha256 (some self) num_rings) [
      | inr e ↦ inr (of_rings e)
      | inl rings ↦
          let v : View = record {
            view_map = [];
            live_map = [];
            timeout_map = [];
            rings = rings;
            curr_gossip_ring = 1;
            curr_monitor_ring = 1;
            max_byz = (num_rings - 2) / 2;
            deactivated_rings = 0;
            removal_timeout = dead_timeout;
            self = self;
            heap = λ _. st;
            closed = [];
          } in
          let local : Note = record {
            epoch = 1;
            mask = set_bits num_rings 0 0;
            id = self.id;
            signature = none;
          } in
          let (v', e) = sign_local_note v local in elim e [ none ↦ inl v' | some x ↦ inr x ]
    ]
  ]

module _ (sha256 : Bytes → Bytes) where
  unfoldable pub add_live : View → PeerRef → Option View
  add_live v p = if GoMap.has p.id v.live_map then some v else (do
    (rings, heap, old) ← Rings.add sha256 v.rings p v.heap
    some (record v {
      live_map = GoMap.insert p.id p v.live_map;
      rings = rings;
      heap = heap;
      closed = close_all old v.closed;
    }))

  unfoldable pub should_be_neighbour : View → Bytes → Option Bool
  should_be_neighbour v id = Rings.should_be_my_neighbour sha256 v.rings id

  unfoldable pub find_neighbours : View → Bytes → Option (List PeerRef)
  find_neighbours v id = Rings.find_neighbours sha256 v.rings id

  unfoldable pub valid_accuser : View → PeerRef → PeerRef → ℕ → Option Bool
  valid_accuser v accused accuser ring_num =
      Rings.is_predecessor sha256 v.rings accused accuser ring_num
