-- ===== src/Tests/Runs.antt =====
-- A node that starts without an authority and handles events.
use ifrit.Prelude.{
  not, ◌&&◌, false, ◌+◌, ◌^◌, ◌<◌, ◌≤◌, ◌≡◌, refl, none, some, [], ◌∷◌, inl, Bytes, bytes_beq,
  length, arith, true, bytes_eq, ◌=?◌,
}
use ifrit.Prelude.GoMap.{lookup, insert, has}
use ifrit.Core.Notes.{eval_certificate}
use ifrit.Core.Merge.{merge_views}
use ifrit.Core.Merge.Learned.{acceptable}
use ifrit.Core.Spread.{empty_reply, gossip_loop}
use ifrit.Core.Run.Taught.{gossip_teaches}
use ifrit.Core.Safety.Certificates.{eval_certificate-Next}
use ifrit.Discovery.Types.{PeerRef}
use ifrit.Discovery.Note.{Note}
use ifrit.Discovery.Peer.{PeerState, new_peer, create_accusation}
use ifrit.Discovery.Peer.Slots.{Slots, made, creates, Handled-Slots}
use ifrit.Discovery.Rings.{create_rings}
use ifrit.Discovery.View.{View, new_view, sign_local_note, signed, exists, peer, add_full}
use ifrit.Core.Node.{Node, PbState, StateResponse}
use ifrit.Core.Lifecycle.{CertManager, new_node, contact, node_of, per_interval}
use ifrit.Core.Run.{spreads, step, Reachable, begun}
use ifrit.Core.Run.Total.{known_epoch, Reachable-ViewInv, step_total}
use ifrit.Core.Safety.Invariant.{ViewInv}
use ifrit.Core.Safety.Accusations.{CanSign}
use ifrit.Tests.{plain, peer_of, certificate}
use ifrit.Tests.Live.{no_collision}
use ifrit.Tests.Start.{services, manager, node_config, view3, contact1}

can_sign : CanSign services
can_sign = record { marshals = λ n e. cc; signs = λ b e. cc }

abbrev own_authority : CertManager
own_authority = record manager { ca_certificate = none }

abbrev first_node : Node
first_node = node_of own_authority node_config view3

started :
    new_node services own_authority node_config
    ≡ some (inl (first_node, per_interval 5 view3.rings.num_rings))
unfolding new_node contact new_view new_peer create_rings bytes_beq sign_local_note signed
started = refl

reachable : Reachable services first_node
reachable =
    begun own_authority node_config first_node (per_interval 5 view3.rings.num_rings) (omega arith)
      (omega arith) started

Reachable-ViewInv_example : ViewInv plain first_node.view
Reachable-ViewInv_example = Reachable-ViewInv services first_node no_collision can_sign reachable

abbrev greeting : PbState
greeting = record { existing_hosts = some []; own_note = none; external_gossip = some (7 ∷ []) }

few_known : length first_node.view.view_map + 1 + 2 < 2 ^ 32
unfolding new_view new_peer create_rings bytes_beq sign_local_note signed node_of
few_known = omega arith

-- A stranger with a certificate calls `Spread`.
step_total_example :
    (n' : Node) × (step services first_node (spreads (some contact1) greeting) ≡ some n')
    × Reachable services n'
    × (n'.view.self ≡ first_node.view.self)
    × (length n'.view.view_map ≤ length first_node.view.view_map + 1)
    × ((id : Bytes)
        → ((exists first_node.view id && not (exists n'.view id)) ≡ false)
          × (known_epoch first_node.view id ≤ known_epoch n'.view id))
step_total_example =
    step_total services first_node (spreads (some contact1) greeting) no_collision can_sign
      reachable few_known

abbrev three_slots : PeerState
three_slots = record {
  note = none;
  accusations = (1, none) ∷ (2, none) ∷ (3, none) ∷ [];
  n_ping = 0;
}

abbrev peer_made : PeerRef
peer_made = record (peer_of 1) { addr = 7 ∷ []; ping_addr = 8 ∷ []; public_key = 9 ∷ [] }

made_peer : new_peer (some (certificate (1 ∷ []))) 3 ≡ inl (peer_made, three_slots)
unfolding new_peer
made_peer = refl

abbrev note1 : Note
note1 = record { epoch = 5; mask = 7; id = 1 ∷ []; signature = none }

Handled-Slots_example :
    Slots 3 1
      (create_accusation services.marshal_accusation services.sign three_slots note1
        (peer_of 2)
        2).0.accusations
Handled-Slots_example =
    Handled-Slots services.marshal_accusation services.sign 3
      (create_accusation services.marshal_accusation services.sign three_slots note1 (peer_of 2)
        2).0
      (creates three_slots note1 (peer_of 2) 2
        (made (some (certificate (1 ∷ []))) peer_made three_slots made_peer))

-- The node knows the stranger, and answers another one that does not.
abbrev peer1 : PeerRef
peer1 = record {
  id = contact1.subject_key_id;
  addr = 7 ∷ [];
  ping_addr = 8 ∷ [];
  http_addr = [];
  cert = contact1;
  public_key = 9 ∷ [];
}

abbrev teacher : View
teacher = (eval_certificate services none first_node.view (some contact1)).0

known_peer : peer teacher contact1.subject_key_id ≡ some peer1
unfolding new_view new_peer create_rings bytes_beq sign_local_note signed node_of eval_certificate
    add_full peer lookup exists insert has
known_peer = refl

room_for_both : length first_node.view.view_map + length teacher.view_map + 2 < 2 ^ 32
unfolding new_view new_peer create_rings bytes_beq sign_local_note signed node_of eval_certificate
    add_full exists insert has
room_for_both = omega arith

stranger : (first_node.view.self.id =? contact1.subject_key_id) ≡ false
unfolding new_view new_peer create_rings bytes_beq sign_local_note signed node_of
stranger = refl

taken : acceptable services none first_node.view.rings.num_rings contact1 ≡ true
unfolding new_view new_peer create_rings bytes_beq sign_local_note signed node_of
taken = refl

gossip_teaches_example :
    (reply : StateResponse) × (n' : Node) × (merge_views teacher [] empty_reply ≡ some reply)
    × (gossip_loop services 3 first_node (some reply ∷ []) ≡ some n')
    × (exists n'.view contact1.subject_key_id ≡ true)
unfolding lookup
gossip_teaches_example =
    gossip_teaches services 3 first_node teacher [] peer1 contact1 no_collision can_sign
      Reachable-ViewInv_example
      (eval_certificate-Next plain first_node.view Reachable-ViewInv_example services none
        (some contact1)).inv
      room_for_both known_peer refl refl stranger taken
