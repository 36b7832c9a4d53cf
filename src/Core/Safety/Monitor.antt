-- ===== src/Core/Safety/Monitor.antt =====
-- core/protocol.go and core/discovery/view.go: the rounds of Monitor and checkTimeouts never panic.
use ifrit.Prelude.{
  ◌⊎◌, ℕ, ◌≡◌, refl, sym, ap, ◌∙◌, subst, not, ◌&&◌, Option, none, some, List, [], ◌∷◌, inl, inr,
  Bytes, bytes_eq, Bool-cases, Option-cases, arith, if◌then◌else◌, ltb, ◌-◌,
}
use ifrit.Prelude.GoMap
use ifrit.Discovery.Types.{PeerRef}
use ifrit.Discovery.Note.{Note}
use ifrit.Discovery.Peer.{PeerState, create_accusation, increment_ping, reset_ping}
use ifrit.Discovery.Peer.Signed.{NoteSigned, AllSigned, create_accusation-Signed}
use ifrit.Discovery.Rings.Total.{my_ring_successor_total}
use ifrit.Discovery.View.{
  View, Timeout, monitor_target, increment_monitor_ring, start_timer, has_timer, is_alive,
  check_loop, check_timeouts, values, delete_timeout,
}
use ifrit.Core.Node.{Services, Node, Pong}
use ifrit.Core.Notes.{write}
use ifrit.Core.Detector.{probe, accuse, monitor_one, monitor_loop, monitor}
use ifrit.Core.Safety.Invariant.{ViewInv, Next, Next-same, Next-trans, epoch_of}
use ifrit.Core.Safety.Live.{Next-rest, Next-write, remove_live-Next}
use ifrit.Core.Safety.Notes.{Safe}
use ifrit.Core.Safety.Evaluation.{start_timer-Next}

module _ (sha256 : Bytes → Bytes) (now : ℕ) where
  check_loop-Next :
      (l : List Timeout) (v : View) → ViewInv sha256 v → Safe sha256 v (check_loop now l v)
  unfolding check_loop delete_timeout
  check_loop-Next [] v inv = (v, refl, Next-same sha256 v inv)
  check_loop-Next (t ∷ rest) v inv =
      elim (Bool-cases (ltb v.removal_timeout (now - t.time_stamp))) [
        | inr early ↦
            let (v', q, next) = check_loop-Next rest v inv in (v', rw (check_loop, early) q, next)
        | inl late ↦
            let (w, q, first) = remove_live-Next sha256 v inv t.accused.id in
            let u = delete_timeout w t.accused.id in
            let second : Next sha256 0 w u =
              Next-rest sha256 w first.inv u (record { self = refl; rings = refl; live_map = refl })
                refl refl in
            let (v', q1, third) = check_loop-Next rest u second.inv in
            let early : Next sha256 0 v u = Next-trans sha256 0 0 v w u first second in
            (v', rw (check_loop, late, q) q1, Next-trans sha256 0 0 v u v' early third)
      ]

  -- `checkTimeouts`.
  pub check_timeouts-Next : (v : View) → ViewInv sha256 v → Safe sha256 v (check_timeouts now v)
  unfolding check_timeouts
  check_timeouts-Next v inv = check_loop-Next (values v.timeout_map) v inv

probe_rest :
    (sv : Services) (max : ℕ) (dest : PeerRef) (st : PeerState) (answer : Option Pong)
    → ((probe sv max dest st answer).0.note ≡ st.note)
      × ((probe sv max dest st answer).0.accusations ≡ st.accusations)
unfolding probe increment_ping reset_ping
probe_rest sv max dest st none = (refl, refl)
probe_rest sv max dest st (some pong) = ground arith

module _ (sv : Services) (max now : ℕ) where
  monitor_target-Next :
      (v : View)
      → ViewInv sv.sha256 v
      → (p : Option PeerRef) × (v' : View) × (monitor_target v ≡ some (p, v.curr_monitor_ring, v'))
        × Next sv.sha256 0 v v'
  unfolding monitor_target increment_monitor_ring
  monitor_target-Next v inv =
      let (p, q) =
        my_ring_successor_total sv.sha256 v.self.id (λ id. GoMap.has id v.live_map) v.rings
          inv.live.agree v.curr_monitor_ring in
      let v' = increment_monitor_ring v in
      (
        p,
        v',
        rw (monitor_target, q) refl,
        Next-rest sv.sha256 v inv v' (record { self = refl; rings = refl; live_map = refl }) refl
            refl,
      )

  -- The view with the accusation of a peer, and with its timer when it needs one.
  abbrev accused_view : View → PeerRef → Note → ℕ → View
  accused_view v p note ring_num =
      write v p
        (create_accusation sv.marshal_accusation sv.sign (v.heap p.id) note v.self ring_num).0

  abbrev timed_view : View → PeerRef → Note → View
  timed_view w p note =
      if not (has_timer w p.id) && is_alive w p.id
      then (start_timer now w (some p) (some note) (some w.self)).0
      else w

  accuse_cases :
      (v : View) (p : PeerRef) (ring_num : ℕ) (note : Note)
      → (v.heap p.id).note ≡ some note
      → let w = accused_view v p note ring_num in
        (accuse sv now v p ring_num ≡ some w)
        ⊎ (accuse sv now v p ring_num ≡ some (timed_view w p note))
  unfolding accuse
  accuse_cases v p ring_num note e = ground arith

  accused_view-Next :
      (v : View) (p : PeerRef) (note : Note) (ring_num : ℕ)
      → ViewInv sv.sha256 v
      → Next sv.sha256 0 v (accused_view v p note ring_num)
  accused_view-Next v p note ring_num inv =
      let st =
        (create_accusation sv.marshal_accusation sv.sign (v.heap p.id) note v.self ring_num).0 in
      let (ok, same) =
        create_accusation-Signed sv.marshal_accusation sv.sign (v.heap p.id) note v.self ring_num
          (inv.signed p.id) in
      Next-write sv.sha256 v inv p st ok (λ h e. h (sym same ∙ e))
        (λ h. omega (arith, ap epoch_of same))

  timed_view-Next :
      (w : View) (p : PeerRef) (note : Note)
      → ViewInv sv.sha256 w
      → Next sv.sha256 0 w (timed_view w p note)
  timed_view-Next w p note inv = elim (Bool-cases (not (has_timer w p.id) && is_alive w p.id)) [
    | inl needed ↦
        rw needed (start_timer-Next sv.sha256 now w (some p) (some note) (some w.self) inv)
    | inr stays ↦ rw stays (Next-same sv.sha256 w inv)
  ]

  accuse-Next :
      (v : View) (p : PeerRef) (ring_num : ℕ)
      → ViewInv sv.sha256 v
      → Safe sv.sha256 v (accuse sv now v p ring_num)
  unfolding accuse
  accuse-Next v p ring_num inv = elim (Option-cases (v.heap p.id).note) [
    | inl e ↦
        let (v', q, next) = remove_live-Next sv.sha256 v inv p.id in (v', rw (accuse, e) q, next)
    | inr (note, e) ↦
        let w = accused_view v p note ring_num in
        let u = timed_view w p note in
        let first = accused_view-Next v p note ring_num inv in
        elim (accuse_cases v p ring_num note e) [
          | inl q ↦ (w, q, first)
          | inr q ↦
              (u, q, Next-trans sv.sha256 0 0 v w u first (timed_view-Next w p note first.inv))
        ]
  ]

  -- A dead peer is accused.
  monitored :
      (v v1 : View) (p : PeerRef) (answer : Option Pong)
      → monitor_target v ≡ some (some p, v.curr_monitor_ring, v1)
      → let w = write v1 p (probe sv max p (v1.heap p.id) answer).0 in
        (monitor_one sv max now v answer ≡ accuse sv now w p v.curr_monitor_ring)
        ⊎ (monitor_one sv max now v answer ≡ some w)
  unfolding monitor_one
  monitored v v1 p answer q = ground arith

  monitor_one-Next :
      (v : View) (answer : Option Pong)
      → ViewInv sv.sha256 v
      → Safe sv.sha256 v (monitor_one sv max now v answer)
  unfolding monitor_one
  monitor_one-Next v answer inv =
      let (target, v1, q, first) = monitor_target-Next v inv in
      elim (Option-cases target) [
        | inl e ↦ (v1, rw (monitor_one, q, e) refl, first)
        | inr (p, e) ↦
            let probed = probe sv max p (v1.heap p.id) answer in
            let (note, accs) = probe_rest sv max p (v1.heap p.id) answer in
            let ok = first.inv.signed p.id in
            let w = write v1 p probed.0 in
            let second : Next sv.sha256 0 v1 w =
              Next-write sv.sha256 v1 first.inv p probed.0
                (subst NoteSigned (sym note) ok.0, subst AllSigned (sym accs) ok.1)
                (λ h e1. h (sym note ∙ e1)) (λ h. omega (arith, ap epoch_of note)) in
            let both : Next sv.sha256 0 v w = Next-trans sv.sha256 0 0 v v1 w first second in
            let (u, q1, third) = accuse-Next w p v.curr_monitor_ring both.inv in
            elim (monitored v v1 p answer (q ∙ ap (λ x. some (x, v.curr_monitor_ring, v1)) e)) [
              | inl q2 ↦ (u, q2 ∙ q1, Next-trans sv.sha256 0 0 v w u both third)
              | inr q2 ↦ (w, q2, both)
            ]
      ]

  monitor_loop-Next :
      (v : View) (answers : List (Option Pong))
      → ViewInv sv.sha256 v
      → Safe sv.sha256 v (monitor_loop sv max now v answers)
  unfolding monitor_loop
  monitor_loop-Next v [] inv = (v, refl, Next-same sv.sha256 v inv)
  monitor_loop-Next v (answer ∷ rest) inv =
      let (v1, q1, first) = monitor_one-Next v answer inv in
      let (v2, q2, second) = monitor_loop-Next v1 rest first.inv in
      (v2, rw q1 q2, Next-trans sv.sha256 0 0 v v1 v2 first second)

-- A round of `Monitor`, with any answers to the pings.
pub monitor-Next :
    (sv : Services) (now : ℕ) (n : Node) (answers : List (Option Pong))
    → ViewInv sv.sha256 n.view
    → (n' : Node) × (monitor sv now n answers ≡ some n') × Next sv.sha256 0 n.view n'.view
unfolding monitor
monitor-Next sv now n answers inv =
    let (v, q, next) = monitor_loop-Next sv n.max_failed_pings now n.view answers inv in
    (record n { view = v }, rw (monitor, q) refl, next)
