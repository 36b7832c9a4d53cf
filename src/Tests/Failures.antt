-- ===== src/Tests/Failures.antt =====
-- The peer 1 joins the node 2, on one ring, and answers no ping.
use ifrit.Prelude.{
  bytes_eq, ◌+◌, ◌-◌, ◌^◌, ◌<◌, ◌≤◌, ◌≡◌, refl, true, false, Option, none, some, [], ◌∷◌, bytes_beq,
  subst, arith, ap, sym,
}
use ifrit.Prelude.GoMap
use ifrit.Prelude.GoMap.{lookup}
use ifrit.Discovery.Note.{Note}
use ifrit.Bytes.{bytes_compare}
use ifrit.Discovery.Types.{compare_id, hash_id}
use ifrit.Discovery.Peer.{is_accused, ring_accusation}
use ifrit.Discovery.Ring
use ifrit.Discovery.Search
use ifrit.Discovery.Rings
use ifrit.Discovery.View.{View, Timeout, add_live, is_alive, has_timer, check_timeouts}
use ifrit.Discovery.View.Live.{LiveInv, add_live-LiveInv}
use ifrit.Core.Detector.{monitor_one}
use ifrit.Core.Detector.Dead.{Accusable, monitor_one_dead}
use ifrit.Tests.{plain, peer_of}
use ifrit.Tests.Live.{no_collision, view1, live1, room1}
use ifrit.Tests.Nodes.{services, noted, sign_of}

abbrev alone : View
alone = record view1 { heap = λ id. noted }

alone-LiveInv : LiveInv plain alone
alone-LiveInv = record { agree = live1.agree; own = live1.own; keyed = live1.keyed }

abbrev or_alone : Option View → View
or_alone none = alone
or_alone (some v) = v

abbrev joined : View
joined = or_alone (add_live plain alone (peer_of 1))

joined-LiveInv : LiveInv plain joined
joined-LiveInv =
    let (v, q, inv, room, own, known, alive) =
      add_live-LiveInv plain alone alone-LiveInv 0 (peer_of 1) no_collision room1 in
    subst (LiveInv plain) (sym (ap or_alone q)) inv

abbrev note1 : Note
note1 = record { epoch = 5; mask = 1; id = 1 ∷ []; signature = some sign_of }

accusable :
    Accusable services joined (peer_of 1) note1 (5 ∷ 1 ∷ 1 ∷ []) (5 ∷ 1 ∷ 1 ∷ []) (5 ∷ 1 ∷ 1 ∷ [])
unfolding add_live Rings.add GoMap.has bytes_beq Ring.add Ring.new_ring Search.insert Search.succ
    Search.prev GoMap.insert Ring.drop_accusation Rings.my_ring_successor is_alive has_timer lookup
    compare_id bytes_compare hash_id ring_accusation
accusable = record {
  target = refl;
  alive = refl;
  untimed = refl;
  noted = refl;
  own_note = refl;
  free_ring = refl;
  marshalled = refl;
  signable = refl;
}

pings :
    (1 ≤ (joined.heap (1 ∷ [])).n_ping + 1)
    × ((joined.heap (1 ∷ [])).n_ping + 1 < 2 ^ 32)
    × (joined.removal_timeout < 200 - 100)
unfolding add_live Rings.add GoMap.has bytes_beq Ring.add Ring.new_ring Search.insert Search.succ
    Search.prev GoMap.insert Ring.drop_accusation Rings.my_ring_successor is_alive has_timer lookup
    compare_id bytes_compare hash_id ring_accusation
pings = (omega arith, omega arith, omega arith)

monitor_one_dead_example :
    (w : View) × (t : Timeout) × (u : View) × (monitor_one services 1 100 joined none ≡ some w)
    × (is_accused (w.heap (1 ∷ [])) ≡ true)
    × (is_alive w (1 ∷ []) ≡ true)
    × (lookup (1 ∷ []) w.timeout_map ≡ some t)
    × (t.time_stamp ≡ 100)
    × (check_timeouts 200 w ≡ some u)
    × (is_alive u (1 ∷ []) ≡ false)
monitor_one_dead_example =
    monitor_one_dead services 1 100 200 joined (peer_of 1) note1 (5 ∷ 1 ∷ 1 ∷ []) (5 ∷ 1 ∷ 1 ∷ [])
      (5 ∷ 1 ∷ 1 ∷ []) joined-LiveInv accusable pings.0 pings.1 pings.2
