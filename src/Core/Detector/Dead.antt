-- ===== src/Core/Detector/Dead.antt =====
-- A peer that answers no ping: Monitor of core/protocol.go accuses it, and checkTimeouts of
-- core/discovery/view.go takes it from the live peers.
use ifrit.Prelude.{
  ℕ, ◌+◌, ◌-◌, ◌^◌, ◌<◌, ◌≤◌, ◌≡◌, refl, ◌∙◌, true, false, Option, none, some, List, [], ◌∷◌, arith,
  Bytes, bytes_eq, nat_eq, ◌=?◌, =?_iff, leb,
}
use ifrit.Prelude.GoMap.{lookup, insert, has-lookup, lookup-insert}
use ifrit.Discovery.Types.{PeerRef}
use ifrit.Discovery.Note.{Note}
use ifrit.Discovery.Accusation.{Accusation}
use ifrit.Discovery.Peer.{PeerState, create_accusation, increment_ping, is_accused, any_present}
use ifrit.Discovery.Rings
use ifrit.Discovery.View.{
  View, Timeout, monitor_target, increment_monitor_ring, start_timer, has_timer, is_alive,
  check_timeouts, values,
}
use ifrit.Discovery.View.Live.{LiveInv, any_expired, expired, check_timeouts-LiveInv}
use ifrit.Core.Node.{Services}
use ifrit.Core.Notes.{write}
use ifrit.Core.Detector.{probe, accuse, monitor_one}
use ifrit.Core.Lifecycle.Startup.{LiveInv-same}

any_expired-insert :
    (now limit : ℕ) (t : Timeout) (m : List (Bytes × Timeout))
    → expired now limit t ≡ true
    → any_expired now limit (values (insert t.accused.id t m)) t.accused.id ≡ true
unfolding insert
any_expired-insert now limit t [] h = ground (arith, =?_iff t.accused.id t.accused.id)
any_expired-insert now limit t ((j, s) ∷ m) h =
    ground (arith, =?_iff t.accused.id t.accused.id, any_expired-insert now limit t m h)

any_present-insert :
    (k : ℕ) (a : Accusation) (m : List (ℕ × Option Accusation))
    → any_present (insert k (some a) m) ≡ true
unfolding any_present insert
any_present-insert k a [] = refl
any_present-insert k a ((j, none) ∷ m) = ground (arith, any_present-insert k a m)
any_present-insert k a ((j, some b) ∷ m) = ground arith

-- The peer is alive without a timer, has a note, and no accusation on the ring; an accusation of it
-- can be marshalled and signed.
pub record Accusable (sv : Services) (v : View) (p : PeerRef) (note : Note) (b x y : Bytes)
    : Type 0 where
  pub target : Rings.my_ring_successor v.rings v.curr_monitor_ring ≡ some (some p)
  pub alive : is_alive v p.id ≡ true
  pub untimed : has_timer v p.id ≡ false
  pub noted : (v.heap p.id).note ≡ some note
  pub own_note : note.id ≡ p.id
  pub free_ring : lookup v.curr_monitor_ring (v.heap p.id).accusations ≡ some none
  pub marshalled :
      sv.marshal_accusation (record {
        epoch = note.epoch;
        accuser = v.self.id;
        accused = note.id;
        ring_num = v.curr_monitor_ring;
        signature = none;
      })
      ≡ some b
  pub signable : sv.sign b ≡ some (x, y)

module _ (sv : Services) (max now : ℕ) (v : View) (p : PeerRef) (note : Note) (b x y : Bytes) where
  abbrev accusation : Accusation
  accusation = record {
    ring_num = v.curr_monitor_ring;
    epoch = note.epoch;
    accuser = v.self.id;
    accused = note.id;
    signature = some (record { r = some x; s = some y });
  }

  abbrev counted : PeerState
  counted = increment_ping (v.heap p.id)

  abbrev accused_state : PeerState
  accused_state = record counted {
    accusations = insert v.curr_monitor_ring (some accusation) counted.accusations;
  }

  abbrev timer : Timeout
  timer = record { observer = v.self; time_stamp = now; last_note = note; accused = p }

  -- The view after the round.
  abbrev timed : View
  timed = record (write (write (increment_monitor_ring v) p counted) p accused_state) {
    timeout_map = insert p.id timer v.timeout_map;
  }

  probe_dead :
      max ≤ (v.heap p.id).n_ping + 1
      → (v.heap p.id).n_ping + 1 < 2 ^ 32
      → leb max counted.n_ping ≡ true
  unfolding increment_ping
  probe_dead enough fits = ground arith

  accused_by :
      Accusable sv v p note b x y
      → create_accusation sv.marshal_accusation sv.sign counted note v.self v.curr_monitor_ring
        ≡ (accused_state, none)
  unfolding create_accusation increment_ping
  accused_by can = ground (arith, can.free_ring, can.marshalled, can.signable)

  accuse-timed :
      Accusable sv v p note b x y
      → let w = write (increment_monitor_ring v) p counted in
        accuse sv now w p v.curr_monitor_ring ≡ some timed
  unfolding accuse increment_monitor_ring increment_ping has_timer is_alive start_timer
  accuse-timed can =
      let here : (p.id =? p.id) ≡ true = (=?_iff p.id p.id).1 refl in
      let right : (note.id =? p.id) ≡ true = (=?_iff note.id p.id).1 can.own_note in
      let fresh : lookup p.id v.timeout_map ≡ none =
        ground (arith, has-lookup p.id v.timeout_map, can.untimed) in
      ground (arith, here, right, fresh, accused_by can, can.noted, can.untimed, can.alive)

  monitor_one-timed :
      Accusable sv v p note b x y
      → max ≤ (v.heap p.id).n_ping + 1
      → (v.heap p.id).n_ping + 1 < 2 ^ 32
      → monitor_one sv max now v none ≡ some timed
  unfolding monitor_one monitor_target probe
  monitor_one-timed can enough fits =
      let shot : monitor_one sv max now v none
          ≡ accuse sv now (write (increment_monitor_ring v) p counted) p v.curr_monitor_ring =
        ground (arith, can.target, probe_dead enough fits) in
      shot ∙ accuse-timed can

  timed-LiveInv : LiveInv sv.sha256 v → LiveInv sv.sha256 timed
  unfolding increment_monitor_ring
  timed-LiveInv inv =
      LiveInv-same sv.sha256 v timed (record { self = refl; rings = refl; live_map = refl }) inv

-- When the next target of `Monitor` is alive without a timer, has a note of its own id and no
-- accusation on the ring, and can be accused, then the round with the ping that reaches the limit
-- without an answer does not panic, and afterwards the peer is accused and still alive, with a timer
-- from that moment on; and `checkTimeouts` of that view, when more than the removal timeout has
-- passed, does not panic and takes the peer from the live peers.
pub monitor_one_dead :
    (sv : Services) (max now later : ℕ) (v : View) (p : PeerRef) (note : Note) (b x y : Bytes)
    → LiveInv sv.sha256 v
    → Accusable sv v p note b x y
    → max ≤ (v.heap p.id).n_ping + 1
    → (v.heap p.id).n_ping + 1 < 2 ^ 32
    → v.removal_timeout < later - now
    → (w : View) × (t : Timeout) × (u : View) × (monitor_one sv max now v none ≡ some w)
      × (is_accused (w.heap p.id) ≡ true)
      × (is_alive w p.id ≡ true)
      × (lookup p.id w.timeout_map ≡ some t)
      × (t.time_stamp ≡ now)
      × (check_timeouts later w ≡ some u)
      × (is_alive u p.id ≡ false)
unfolding is_accused is_alive increment_monitor_ring
monitor_one_dead sv max now later v p note b x y inv can enough fits late =
    let t = timer sv max now v p note b x y in
    let w = timed sv max now v p note b x y in
    let (u, q, inv_u, live, timers) =
      check_timeouts-LiveInv sv.sha256 later w (timed-LiveInv sv max now v p note b x y inv) in
    let ran_out : any_expired later w.removal_timeout (values w.timeout_map) p.id ≡ true =
      any_expired-insert later v.removal_timeout t v.timeout_map (ground arith) in
    (
      w,
      t,
      u,
      monitor_one-timed sv max now v p note b x y can enough fits,
      rw ((=?_iff p.id p.id).1 refl) (any_present-insert v.curr_monitor_ring _ _),
      can.alive,
      ground (arith, lookup-insert p.id p.id t v.timeout_map, =?_iff p.id p.id),
      refl,
      q,
      live p.id ∙ rw ran_out refl,
    )
