-- ===== src/Core/Detector.antt =====
-- core/failure_detector.go, and `Monitor` of core/protocol.go. `none` is a panic.
pub mod Probe
pub mod Dead
use ifrit.Prelude.{
  ℕ, Bool, true, false, not, ◌&&◌, Option, none, some, List, [], ◌∷◌, Bytes, leb, if◌then◌else◌,
  ◌>>=◌,
}
use ifrit.Discovery.Types.{PeerRef}
use ifrit.Discovery.Note.{Note, Signature}
use ifrit.Discovery.Peer.{PeerState, PeerError, acc_already_exists}
use ifrit.Discovery.Peer
use ifrit.Discovery.View.{View}
use ifrit.Discovery.View
use ifrit.Core.Node.{Services, Node, Pong}
use ifrit.Core.Notes.{write}

pub data ProbeError : Type 0 where
  dead ping_failed marshal_failed invalid_pong_signature : ProbeError

module _ (sv : Services) where
  -- The check of the pong, which clears the signature before it reads it.
  unfoldable pub check_pong : PeerRef → PeerState → Pong → PeerState × Option ProbeError
  check_pong dest st pong =
      let cleared : Pong = record pong { signature = none } in
      elim (sv.marshal_pong cleared) [
        | none ↦ (st, some marshal_failed)
        | some bytes ↦ elim cleared.signature [
          | none ↦ (st, some invalid_pong_signature)
          | some sign ↦
              if sv.verify bytes sign.r sign.s dest.public_key
              then (Peer.reset_ping st, none)
              else (st, some invalid_pong_signature)
        ]
      ]

  -- `answer` is what `Ping` returns: a pong, or `none` for an error.
  unfoldable pub probe : ℕ → PeerRef → PeerState → Option Pong → PeerState × Option ProbeError
  unfolding check_pong
  probe max_failed_pings dest st none =
      let st' = Peer.increment_ping st in
      (st', if leb max_failed_pings st'.n_ping then some dead else some ping_failed)
  probe max_failed_pings dest st (some pong) = check_pong dest st pong

  -- A note is needed to accuse; a dead peer that never sent one leaves the live view.
  unfoldable pub accuse : ℕ → View → PeerRef → ℕ → Option View
  accuse now v p ring_num = elim (v.heap p.id).note [
    | none ↦ View.remove_live v p.id
    | some note ↦
        let (st, e) =
          Peer.create_accusation sv.marshal_accusation sv.sign (v.heap p.id) note v.self ring_num in
        let v' = write v p st in
        let timed =
          if not (View.has_timer v' p.id) && View.is_alive v' p.id
          then (View.start_timer now v' (some p) (some note) (some v.self)).0
          else v' in
        some (elim e [ none ↦ timed | some acc_already_exists ↦ timed | some _ ↦ v' ])
  ]

  -- One round of the loop.
  unfoldable pub monitor_one : ℕ → ℕ → View → Option Pong → Option View
  unfolding accuse
  monitor_one max_failed_pings now v answer = do
    (target, ring_num, v1) ← View.monitor_target v
    elim target [
      | none ↦ some v1
      | some p ↦
          let (st, e) = probe max_failed_pings p (v1.heap p.id) answer in
          let v2 = write v1 p st in elim e [ some dead ↦ accuse now v2 p ring_num | _ ↦ some v2 ]
    ]

  -- `answers` has an entry for each of the `pingsPerInterval` rounds.
  unfoldable pub monitor_loop : ℕ → ℕ → View → List (Option Pong) → Option View
  monitor_loop max_failed_pings now v [] = some v
  monitor_loop max_failed_pings now v (answer ∷ rest) = do
    v' ← monitor_one max_failed_pings now v answer
    monitor_loop max_failed_pings now v' rest

  unfoldable pub monitor : ℕ → Node → List (Option Pong) → Option Node
  unfolding monitor_loop
  monitor now n answers = do
    v ← monitor_loop n.max_failed_pings now n.view answers
    some (record n { view = v })
