-- ===== src/Tests/Live.antt =====
-- core/discovery/view.go on a view with one ring.
use ifrit.Prelude.{
  true, ◌+◌, ◌≡◌, refl, Bool, not, ◌&&◌, ◌||◌, Option, none, some, [], ◌∷◌, ◌⊎◌, inl, inr, Bytes,
  bytes_eq, bytes_beq, ◌=?◌, if◌then◌else◌, arith, ◌>>=◌,
}
use ifrit.Prelude.GoMap
use ifrit.Prelude.GoMap.{lookup}
use ifrit.Discovery.Types.{hash_id}
use ifrit.Discovery.Note.{Note, PbNote}
use ifrit.Discovery.Peer.{new_peer}
use ifrit.Discovery.View.{Timeout, ViewError, sign_local_note, signed}
use ifrit.Discovery.Ring.{Ring, new_ring, is_prev, neighbours, succ_at_idx, prev_at_idx}
use ifrit.Discovery.Ring.Invariant.{RingInv, IsCollisionFree, added}
use ifrit.Discovery.Ring.Reach.{new_ring-RingInv}
use ifrit.Discovery.Ring.Neighbours.{neighbours-added, is_prev_total}
use ifrit.Discovery.Search.Rank.{rank}
use ifrit.Discovery.Rings.{Rings, create_rings}
use ifrit.Discovery.Rings.Agree.{Room, create_rings_agree, create_rings-Room}
use ifrit.Discovery.View.{View, add_live, remove_live, check_timeouts, is_alive, new_view, values}
use ifrit.Discovery.View.Live.{
  LiveInv, add_live-LiveInv, remove_live-LiveInv, check_timeouts-LiveInv, any_expired,
}
use ifrit.Discovery.View.Mask.{MaskInv}
use ifrit.Discovery.View.New.{new_view-LiveInv}
use ifrit.Tests.{plain, peer_of, certificate, empty_heap}

pub no_collision : IsCollisionFree plain
no_collision a b h = h

abbrev ring1 : Ring
ring1 = new_ring plain 1 (peer_of 2)

inv1 : RingInv plain ring1
inv1 = new_ring-RingInv plain 1 (peer_of 2)

abbrev pub rings1 : Rings
rings1 = record { ring_map = (1, ring1) ∷ []; num_rings = 1; self = peer_of 2 }

pub made1 : create_rings plain (some (peer_of 2)) 1 ≡ inl rings1
unfolding create_rings bytes_beq
made1 = refl

abbrev pub view1 : View
view1 = record {
  view_map = [];
  live_map = [];
  timeout_map = [];
  rings = rings1;
  curr_gossip_ring = 1;
  curr_monitor_ring = 1;
  max_byz = 1;
  deactivated_rings = 0;
  removal_timeout = 60;
  self = peer_of 2;
  heap = empty_heap;
  closed = [];
}

pub live1 : LiveInv plain view1
unfolding lookup GoMap.has
live1 = record {
  agree = (create_rings_agree plain (peer_of 2) 1 rings1 made1).2;
  own = refl;
  keyed = λ id p h. ground arith;
}

pub room1 : Room (0 + 1) view1.rings.ring_map
room1 = create_rings-Room plain (peer_of 2) 1 1 rings1 made1 (omega arith)

add_live-LiveInv_example :
    (v' : View) × (add_live plain view1 (peer_of 1) ≡ some v')
    × LiveInv plain v'
    × Room 0 v'.rings.ring_map
    × (v'.self ≡ view1.self)
    × (v'.view_map ≡ view1.view_map)
    × ((id : Bytes) → is_alive v' id ≡ (((peer_of 1).id =? id) || is_alive view1 id))
add_live-LiveInv_example = add_live-LiveInv plain view1 live1 0 (peer_of 1) no_collision room1

-- The view in which peer 1 is alive.
abbrev view2 : View
view2 = (add_live-LiveInv plain view1 live1 0 (peer_of 1) no_collision room1).0

live2 : LiveInv plain view2
live2 = (add_live-LiveInv plain view1 live1 0 (peer_of 1) no_collision room1).2

remove_live-LiveInv_example :
    (v' : View) × (remove_live view2 (1 ∷ []) ≡ some v')
    × LiveInv plain v'
    × (v'.timeout_map ≡ view2.timeout_map)
    × (v'.removal_timeout ≡ view2.removal_timeout)
    × ((j : Bytes) → is_alive v' j ≡ (not ((1 ∷ []) =? j) && is_alive view2 j))
remove_live-LiveInv_example = remove_live-LiveInv plain view2 live2 (1 ∷ [])

-- The timer of peer 1 is from time 3, and runs out before 100.
abbrev timer1 : Timeout
timer1 = record {
  observer = peer_of 2;
  time_stamp = 3;
  last_note = record { epoch = 1; mask = 1; id = 1 ∷ []; signature = none };
  accused = peer_of 1;
}

abbrev view_timed : View
view_timed = record view2 { timeout_map = (1 ∷ [], timer1) ∷ []; removal_timeout = 60 }

live_timed : LiveInv plain view_timed
live_timed = record { agree = live2.agree; own = live2.own; keyed = live2.keyed }

runs_out :
    any_expired 100 view_timed.removal_timeout (values view_timed.timeout_map) (1 ∷ []) ≡ true
unfolding bytes_beq
runs_out = refl

check_timeouts-LiveInv_example :
    (v' : View) × (check_timeouts 100 view_timed ≡ some v')
    × LiveInv plain v'
    × ((id : Bytes)
        → is_alive v' id ≡ (
            not (any_expired 100 view_timed.removal_timeout (values view_timed.timeout_map) id)
            && is_alive view_timed id))
    × ((id : Bytes)
        → lookup id v'.timeout_map ≡ (
            if any_expired 100 view_timed.removal_timeout (values view_timed.timeout_map) id
            then none
            else lookup id view_timed.timeout_map))
check_timeouts-LiveInv_example = check_timeouts-LiveInv plain 100 view_timed live_timed

unknown1 : lookup (1 ∷ []) ring1.peer_to_ring ≡ none
unfolding new_ring lookup GoMap.insert bytes_beq
unknown1 = refl

neighbours-added_example : neighbours plain ring1 (1 ∷ []) ≡ (do
  succ ←
      succ_at_idx
        (added plain ring1 (peer_of 1))
        (rank (hash_id plain ring1.ring_num (1 ∷ [])) ring1.succ_list)
  prev ←
      prev_at_idx
        (added plain ring1 (peer_of 1))
        (rank (hash_id plain ring1.ring_num (1 ∷ [])) ring1.succ_list)
  some (succ, prev))
neighbours-added_example = neighbours-added plain ring1 inv1 (peer_of 1) no_collision unknown1

is_prev_total_example : (b : Bool) × (is_prev plain ring1 (peer_of 1) (peer_of 2) ≡ some b)
is_prev_total_example = is_prev_total plain ring1 inv1 (peer_of 1) (peer_of 2) no_collision

abbrev marshal : PbNote → Option Bytes
marshal n = some n.id

abbrev sign : Bytes → Option (Bytes × Bytes)
sign b = some (b, b)

abbrev made_view : View ⊎ ViewError → View
made_view (inl v) = v
made_view (inr e) = view1

abbrev view3 : View
view3 = made_view (new_view marshal sign plain 60 3 (some (certificate (2 ∷ []))))

made3 : new_view marshal sign plain 60 3 (some (certificate (2 ∷ []))) ≡ inl view3
unfolding new_view new_peer create_rings bytes_beq sign_local_note signed
made3 = refl

new_view-LiveInv_example :
    LiveInv plain view3
    × ((own : Note) × ((view3.heap view3.self.id).note ≡ some own)
        × (own.epoch ≡ 1)
        × MaskInv view3 own.mask)
new_view-LiveInv_example =
    new_view-LiveInv marshal sign plain 60 3 (some (certificate (2 ∷ []))) view3 (omega arith) made3
