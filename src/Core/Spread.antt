-- ===== src/Core/Spread.antt =====
-- core/handlers.go: the gossip handler `Spread`, and the gossip round of core/protocol.go.
-- `none` is a panic.
use ifrit.Prelude.{
  ℕ, Option, none, some, List, [], ◌∷◌, ◌++◌, ◌⊎◌, inl, inr, Bytes, if◌then◌else◌, ◌>>=◌,
}
use ifrit.Discovery.Types.{Certificate, PeerRef}
use ifrit.Discovery.Note.{Note, PbNote}
use ifrit.Discovery.Note
use ifrit.Discovery.Peer
use ifrit.Discovery.View.{View}
use ifrit.Discovery.View
use ifrit.Core.Node.{Services, Node, NodeError, PbState, StateResponse, no_cert, not_my_neighbour}
use ifrit.Core.Notes.{eval_note, eval_certificate}
use ifrit.Core.Merge.{
  merge_views, merge_notes, merge_accusations, merge_certificates, note_msg, collect_gossip_content,
}

abbrev pub empty_reply : StateResponse
empty_reply = record { certificates = []; notes = []; accusations = []; external_gossip = none }

abbrev pub Reply : Type 0
Reply = Option (Node × (StateResponse ⊎ NodeError))

module _ (sv : Services) where
  -- The handler's error is logged, and its answer sent.
  abbrev pub answer : Option (Bytes → Option Bytes) → Option Bytes → Option Bytes
  answer none ext = none
  answer (some handler) none = none
  answer (some handler) (some ext) = handler ext

  -- The sender is, or would be, a neighbour.
  unfoldable pub spread_neighbour : Node → Certificate → PbState → Reply
  spread_neighbour n cert args =
      let (v, e) = eval_certificate sv n.ca_certificate n.view (some cert) in
      elim e [
        | some x ↦ some (record n { view = v }, inr x)
        | none ↦ (do
          (v1, e1) ← eval_note sv v args.own_note
          reply ← (elim args.existing_hosts [
            | none ↦ some empty_reply
            | some hosts ↦ merge_views v1 hosts empty_reply
          ])
          some (
            record n { view = v1 },
            inl (record reply { external_gossip = answer n.gossip_handler args.external_gossip }),
          ))
      ]

  -- The sender is a peer of the view, and no neighbour: an accused one is told of its accusations.
  unfoldable pub spread_observed : Node → PeerRef → PbState → Reply
  spread_observed n p args = do
    (v, e) ← eval_note sv n.view args.own_note
    if Peer.is_accused (n.view.heap p.id)
        then (do
          accs ← Peer.accusation_msgs (Peer.all_accusations (v.heap p.id))
          some (record n { view = v }, inl (record empty_reply { accusations = accs })))
        else some (record n { view = v }, inr not_my_neighbour)

  -- The certificates and the notes of the peers that a new peer will have as neighbours.
  unfoldable pub introduce : List PeerRef → View → StateResponse → Option StateResponse
  introduce [] v reply = some reply
  introduce (p ∷ rest) v reply = do
    notes ← note_msg (v.heap p.id).note
    introduce rest v (record reply {
      certificates = reply.certificates ++ (p.cert.raw ∷ []);
      notes = reply.notes ++ notes;
    })

  unfoldable pub spread_new : Node → Certificate → PbState → Reply
  unfolding introduce
  spread_new n cert args =
      let (v, e) = eval_certificate sv n.ca_certificate n.view (some cert) in
      elim e [
        | some x ↦ some (record n { view = v }, inr x)
        | none ↦ (do
          (v1, e1) ← eval_note sv v args.own_note
          own ← (v1.heap v1.self.id).note
          m ← Note.to_pb_msg own
          neighbours ← View.find_neighbours sv.sha256 v1 cert.subject_key_id
          reply ←
              introduce neighbours v1
                (record empty_reply { certificates = n.certificate.raw ∷ []; notes = m ∷ [] })
          some (record n { view = v1 }, inl reply))
      ]

  -- `peer_cert` is the certificate of the TLS connection, which `validateCtx` reads.
  unfoldable pub spread : Node → Option Certificate → PbState → Reply
  unfolding spread_neighbour spread_observed spread_new
  spread n none args = some (n, inr no_cert)
  spread n (some cert) args = do
    neighbours ← View.should_be_neighbour sv.sha256 n.view cert.subject_key_id
    if neighbours
        then spread_neighbour n cert args
        else elim (View.peer n.view cert.subject_key_id) [
          | some p ↦ spread_observed n p args
          | none ↦ spread_new n cert args
        ]

  -- The replies of the partners, in turn; an error of the transport is `none`.
  unfoldable pub gossip_loop : ℕ → Node → List (Option StateResponse) → Option Node
  gossip_loop now n [] = some n
  gossip_loop now n (none ∷ rest) = gossip_loop now n rest
  gossip_loop now n (some reply ∷ rest) = do
    let n1 = merge_certificates sv n reply.certificates
    v2 ← merge_notes sv n1.view reply.notes
    n3 ← merge_accusations sv now (record n1 { view = v2 }) reply.accusations
    gossip_loop now n3 rest

  abbrev pub sends : PbState → List PeerRef → List (Bytes × PbState) → List (Bytes × PbState)
  sends msg [] sent = sent
  sends msg (p ∷ rest) sent = sends msg rest ((p.addr, msg) ∷ sent)

  -- `replies` has an entry for each partner.
  unfoldable pub gossip : ℕ → Node → List (Option StateResponse) → Option Node
  unfolding gossip_loop
  gossip now n replies = do
    msg ← collect_gossip_content sv n
    (neighbours, v) ← View.gossip_partners n.view
    gossip_loop now (record n { view = v; sent = sends msg neighbours n.sent }) replies
