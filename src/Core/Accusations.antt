-- ===== src/Core/Accusations.antt =====
-- core/handlers.go: `evalAccusation`, with `Rebuttal` of core/protocol.go. `none` is a panic.
pub mod Outcome
use ifrit.Prelude.{
  ℕ, Bool, true, false, not, ◌&&◌, Option, none, some, List, [], ◌∷◌, Bytes, bytes_eq, ◌=?◌,
  if◌then◌else◌, ◌>>=◌,
}
use ifrit.Discovery.Types.{PeerRef}
use ifrit.Discovery.Note.{Note, PbNote, Signature}
use ifrit.Discovery.Note
use ifrit.Discovery.Accusation.{Accusation, PbAccusation}
use ifrit.Discovery.Accusation
use ifrit.Discovery.Peer.{PeerState, PeerError}
use ifrit.Discovery.Peer
use ifrit.Discovery.View.{View}
use ifrit.Discovery.View
use ifrit.Core.Node.{
  Services, Node, NodeError, PbState, acc_already_exists, disabled_ring, invalid_accuser,
  invalid_signature, invalid_self_accusation, invalid_epoch, marshal_failed, add_refused,
}
use ifrit.Core.Notes.{write}

abbrev pub send_all : PbState → List PeerRef → List (Bytes × PbState) → List (Bytes × PbState)
send_all msg [] sent = sent
send_all msg (p ∷ rest) sent = send_all msg rest ((p.addr, msg) ∷ sent)

-- The own note goes to the gossip partners; the replies are not read.
unfoldable pub rebuttal : Node → Option Node
rebuttal n = do
  (neighbours, v) ← View.gossip_partners n.view
  own ← (v.heap v.self.id).note
  note ← Note.to_pb_msg own
  let msg : PbState = record { existing_hosts = none; own_note = some note; external_gossip = none }
  some (record n { view = v; sent = send_all msg neighbours n.sent })

-- `if exists := HasTimer(p.Id); !exists && live { StartTimer(...) }`
abbrev pub ensure_timer : ℕ → View → PeerRef → PeerRef → View
ensure_timer now v p observer =
    if not (View.has_timer v p.id) && View.is_alive v p.id
    then (View.start_timer now v (some p) (v.heap p.id).note (some observer)).0
    else v

abbrev pub same_accusation : Option Accusation → Bytes → Bytes → ℕ → ℕ → Bool
same_accusation none accused accuser ring_num epoch = false
same_accusation (some a) accused accuser ring_num epoch =
    Accusation.equal a accused accuser ring_num epoch

module _ (sv : Services) (now : ℕ) where
  -- An accusation of this node.
  unfoldable pub about_self :
      Node → PbAccusation → Signature → Bytes → PeerRef → Option (Node × Option NodeError)
  about_self n a sign bytes accuser = do
    prev ← View.valid_accuser sv.sha256 n.view n.view.self accuser a.ring_num
    if not prev
        then some (n, some invalid_accuser)
        else (if not (sv.verify bytes sign.r sign.s accuser.public_key)
            then some (n, some invalid_signature)
            else (do
              (v, rebut) ← View.should_rebuttal sv.marshal_note sv.sign n.view a.epoch a.ring_num
              if rebut
                  then (do n' ← rebuttal (record n { view = v }); some (n', none))
                  else some (record n { view = v }, some invalid_self_accusation)))

  unfoldable pub add_to_peer :
      View → PbAccusation → Signature → PeerRef → PeerRef → View × Option NodeError
  add_to_peer v a sign accuser p =
      let (st, e) =
        Peer.add_accusation (v.heap p.id) p.id accuser.id a.epoch a.ring_num sign.r sign.s in
      elim e [
        | some x ↦ (write v p st, some add_refused)
        | none ↦ (ensure_timer now (write v p st) p accuser, none)
      ]

  -- An accusation of another peer, whose note has the epoch of the accusation.
  unfoldable pub about_peer :
      View
      → PbAccusation
      → Signature
      → Bytes
      → PeerRef
      → PeerRef
      → Note
      → Option (View × Option NodeError)
  unfolding add_to_peer
  about_peer v a sign bytes accuser p note =
      if Note.is_ring_disabled note a.ring_num v.rings.num_rings
      then some (v, some disabled_ring)
      else (do
        valid ← View.valid_accuser sv.sha256 v p accuser a.ring_num
        if not valid
            then some (v, some invalid_accuser)
            else (if not (sv.verify bytes sign.r sign.s accuser.public_key)
                then some (v, some invalid_signature)
                else some (add_to_peer v a sign accuser p)))

  abbrev pub with_view : Node → Option (View × Option NodeError) → Option (Node × Option NodeError)
  with_view n none = none
  with_view n (some (v, e)) = some (record n { view = v }, e)

  unfoldable pub other_peer :
      Node → PbAccusation → Signature → Bytes → PeerRef → PeerRef → Option (Node × Option NodeError)
  unfolding about_peer
  other_peer n a sign bytes accuser p =
      if same_accusation (Peer.ring_accusation (n.view.heap p.id) a.ring_num) p.id accuser.id
        a.ring_num a.epoch
      then some (record n { view = ensure_timer now n.view p accuser }, some acc_already_exists)
      else elim (n.view.heap p.id).note [
        | none ↦ some (n, some invalid_epoch)
        | some note ↦
            if Note.equal note a.epoch
            then with_view n (about_peer n.view a sign bytes accuser p note)
            else some (n, some invalid_epoch)
      ]

  unfoldable pub eval_accusation :
      Node → PbAccusation → PeerRef → PeerRef → Option (Node × Option NodeError)
  unfolding about_self other_peer
  eval_accusation n a accuser p = elim a.signature [
    | none ↦ some (n, some invalid_signature)
    | some sign ↦ elim (sv.marshal_accusation (record a { signature = none })) [
      | none ↦ some (n, some marshal_failed)
      | some bytes ↦
          if n.view.self.id =? p.id
          then about_self n a sign bytes accuser
          else other_peer n a sign bytes accuser p
    ]
  ]
