-- ===== src/Tests/Nodes.antt =====
-- core/handlers.go and core/failure_detector.go: the own peer is 2, the other one 1, on one ring.
use ifrit.Prelude.{
  get_or, get_elem?, ℕ, ◌≡◌, ◌≢◌, refl, true, false, Option, none, some, [], ◌∷◌, Bytes, bytes_eq,
  bytes_beq, ◌=?◌, List,
}
use ifrit.Prelude.GoMap
use ifrit.Bits.{ones_count32, has_bit}
use ifrit.Discovery.Search
use ifrit.Discovery.Note
use ifrit.Discovery.Peer
use ifrit.Discovery.Ring
use ifrit.Discovery.Rings
use ifrit.Discovery.View
use ifrit.Prelude.GoMap.{lookup}
use ifrit.Bytes.{bytes_compare, bytes_equal}
use ifrit.Discovery.Types.{PeerRef, RingId, equal_id, compare_id}
use ifrit.Discovery.Note.{Note, PbNote, Signature}
use ifrit.Discovery.Accusation.{PbAccusation}
use ifrit.Discovery.Peer.{PeerState, Heap, store}
use ifrit.Discovery.Ring.{Ring, ring_id}
use ifrit.Discovery.View.{View}
use ifrit.Core.Node.{Services, Node, StateResponse, NodeError, Pong, invalid_signature}
use ifrit.Core.Merge.{merge_views}
use ifrit.Core.Merge.Stale.{AllTold, AllCovered, AllSent, told_msgs, merge_views_stale}
use ifrit.Core.Spread.{empty_reply}
use ifrit.Core.Notes.{eval_note}
use ifrit.Core.Notes.Revived.{Revived, eval_note-Revived}
use ifrit.Core.Notes.Stored.{Notes, eval_note-Notes}
use ifrit.Core.Notes.Outcome.{Passes, eval_note-Passes, eval_note_error}
use ifrit.Core.Accusations.{eval_accusation}
use ifrit.Core.Accusations.Outcome.{Stands, eval_accusation-Stands}
use ifrit.Core.Detector.{dead, probe}
use ifrit.Comm.Udp.{
  UdpNet, Turn, pauses, exits, receives, answer, buffer, serve, pong_of, ping, Reply, serve-Reply,
  serve_answers,
}
use ifrit.Core.Detector.Probe.{probe_never_succeeds}
use ifrit.Tests.{plain, peer_of, blank, certificate}

abbrev pub services : Services
services = record {
  sha256 = plain;
  marshal_note = λ n. some (n.epoch ∷ n.mask ∷ n.id);
  marshal_accusation = λ a. some (a.epoch ∷ a.ring_num ∷ a.accused);
  marshal_pong = λ p. some p.nonce;
  sign = λ b. some (b, b);
  verify = λ b r s key. true;
  parse_certificate = λ b. some (certificate b);
  check_signature_from = λ child parent. true;
  to_valid_utf8 = plain;
}

abbrev pub sign_of : Signature
sign_of = record { r = some (1 ∷ []); s = some (2 ∷ []) }

abbrev entry : ℕ → RingId
entry n = record { p = peer_of n; hash = n ∷ 49 ∷ [] }

abbrev ring : Ring
ring = record {
  ring_num = 1;
  peer_to_ring = (1 ∷ [], entry 1) ∷ (2 ∷ [], entry 2) ∷ [];
  succ_list = entry 1 ∷ entry 2 ∷ [];
  length = 2;
  self_idx = 1;
  self_id = entry 2;
}

abbrev pub noted : PeerState
noted = record blank {
  note = some (record { epoch = 5; mask = 1; id = 1 ∷ []; signature = some sign_of });
}

abbrev view : View
view = record {
  view_map = (1 ∷ [], peer_of 1) ∷ [];
  live_map = (1 ∷ [], peer_of 1) ∷ [];
  timeout_map = [];
  rings = record { ring_map = (1, ring) ∷ []; num_rings = 1; self = peer_of 2 };
  curr_gossip_ring = 1;
  curr_monitor_ring = 1;
  max_byz = 0;
  deactivated_rings = 0;
  removal_timeout = 60;
  self = peer_of 2;
  heap = λ _. noted;
  closed = [];
}

abbrev node : Node
node = record {
  view = view;
  certificate = certificate (2 ∷ []);
  ca_certificate = none;
  gossip_handler = none;
  external_gossip = none;
  max_failed_pings = 3;
  sent = [];
}

abbrev newer : PbNote
newer = record { epoch = 6; id = 1 ∷ []; mask = 1; signature = some sign_of }

abbrev unsigned : PbNote
unsigned = record { epoch = 6; id = 1 ∷ []; mask = 1; signature = none }

abbrev pub accusation : PbAccusation
accusation = record {
  epoch = 5;
  accuser = 2 ∷ [];
  accused = 1 ∷ [];
  ring_num = 1;
  signature = some sign_of;
}

abbrev view_of : Option (View × Option NodeError) → View
view_of none = view
view_of (some (v, e)) = v

abbrev node_of : Option (Node × Option NodeError) → Node
node_of none = node
node_of (some (n, e)) = n

note_taken :
    eval_note services view (some newer)
    ≡ some (view_of (eval_note services view (some newer)), none)
unfolding eval_note View.peer lookup bytes_beq Note.is_more_recent View.view_valid_mask ones_count32
    Peer.all_accusations View.is_alive GoMap.has
note_taken = refl

eval_note-Passes_example :
    (p : PeerRef) × (sign : Signature) × (bytes : Bytes) × Passes services view newer p sign bytes
eval_note-Passes_example =
    eval_note-Passes services view (view_of (eval_note services view (some newer))) newer note_taken

note_refused : eval_note services view (some unsigned) ≡ some (view, some invalid_signature)
unfolding eval_note
note_refused = refl

eval_note_error_example : view ≡ view
eval_note_error_example =
    eval_note_error services view view (some unsigned) invalid_signature note_refused

accusation_taken :
    eval_accusation services 100 node accusation (peer_of 2) (peer_of 1)
    ≡ some (node_of (eval_accusation services 100 node accusation (peer_of 2) (peer_of 1)), none)
unfolding eval_accusation bytes_beq Peer.ring_accusation lookup Note.equal Note.is_ring_disabled
    has_bit View.valid_accuser Rings.is_predecessor Ring.is_prev equal_id bytes_equal bytes_compare
    Search.search compare_id Search.prev Peer.add_accusation
accusation_taken = refl

others : (node.view.self.id =? (peer_of 1).id) ≡ false
unfolding bytes_beq
others = refl

eval_accusation-Stands_example :
    (note : Note) × (sign : Signature) × (bytes : Bytes) × Stands services view accusation
      (peer_of 2)
      (peer_of 1)
      note
      sign
      bytes
eval_accusation-Stands_example =
    eval_accusation-Stands services 100 node
      (node_of (eval_accusation services 100 node accusation (peer_of 2) (peer_of 1))) accusation
      (peer_of 2) (peer_of 1) others accusation_taken

abbrev pong : Pong
pong = record { nonce = 4 ∷ []; signature = some sign_of }

probe_never_succeeds_example :
    ((probe services 3 (peer_of 1) noted (some pong)).1 ≢ none)
    × ((probe services 3 (peer_of 1) noted (some pong)).1 ≢ some dead)
    × ((probe services 3 (peer_of 1) noted (some pong)).0 ≡ noted)
probe_never_succeeds_example = probe_never_succeeds services 3 (peer_of 1) noted pong

-- The node stores the notes of epoch 5 of the peers 1 and 3, and has a note of its own. The sender
-- names peer 1 with epoch 4, and peer 3 with epoch 9.
abbrev note_of : ℕ → PeerState
note_of n = record noted {
  note = some (record { epoch = 5; mask = 1; id = n ∷ []; signature = some sign_of });
}

abbrev peers13 : View
peers13 = record view {
  view_map = (1 ∷ [], peer_of 1) ∷ (3 ∷ [], peer_of 3) ∷ [];
  heap = λ id. note_of (get_or id 0 0);
}

abbrev given : List (Bytes × ℕ)
given = (1 ∷ [], 4) ∷ (3 ∷ [], 9) ∷ []

abbrev message : ℕ → PbNote
message n = record { epoch = 5; id = n ∷ []; mask = 1; signature = some sign_of }

abbrev older_only : StateResponse
older_only = record empty_reply { notes = message 3 ∷ message 2 ∷ [] }

-- The older note of peer 3 and the own one are sent, the newer one of peer 1 is not.
merged : merge_views peers13 given empty_reply ≡ some older_only
unfolding merge_views View.full lookup bytes_beq Note.is_more_recent Peer.all_accusations
    Peer.accusation_msgs Note.to_pb_msg
merged = refl

merge_views_stale_example :
    AllTold peers13 given older_only.notes
    × AllCovered peers13 given (View.full peers13) older_only.notes
    × AllSent (told_msgs given (peer_of 2).id (peers13.heap (peer_of 2).id).note) older_only.notes
merge_views_stale_example = merge_views_stale peers13 given empty_reply older_only merged refl

known : View.peer view newer.id ≡ some (peer_of 1)
unfolding View.peer lookup bytes_beq
known = refl

eval_note-Notes_example :
    Notes view (view_of (eval_note services view (some newer))) (peer_of 1) newer sign_of
eval_note-Notes_example =
    eval_note-Notes services view (view_of (eval_note services view (some newer))) (peer_of 1) newer
      sign_of known refl note_taken

not_accused :
    Peer.is_accused ((view_of (eval_note services view (some newer))).heap (1 ∷ [])) ≡ false
unfolding eval_note View.peer lookup bytes_beq Note.is_more_recent View.view_valid_mask ones_count32
    Peer.all_accusations View.is_alive GoMap.has Peer.is_accused Peer.add_note
not_accused = refl

eval_note-Revived_example :
    Revived view (peer_of 1) (view_of (eval_note services view (some newer)))
eval_note-Revived_example =
    eval_note-Revived services view (view_of (eval_note services view (some newer))) (peer_of 1)
      newer sign_of known refl note_taken not_accused

-- A server that pauses, answers one of two datagrams, as the other is not read, and stops.
abbrev turns : List Turn
turns = pauses ∷ receives none ∷ receives (some (6 ∷ [], 4 ∷ [])) ∷ exits ∷ []

serve-Reply_example : Reply services turns [] (4 ∷ [])
unfolding serve
serve-Reply_example = serve-Reply services turns 0 [] (4 ∷ []) refl

replied : Reply services turns [] (4 ∷ [])
replied = record {
  before = 2;
  content = 6 ∷ [];
  r = 6 ∷ [];
  s = 6 ∷ [];
  received = refl;
  running = refl;
  signed = refl;
  marshalled = refl;
}

serve_answers_example : (i : ℕ) × (get_elem? (serve services turns) i ≡ some ([], 4 ∷ []))
serve_answers_example = serve_answers services turns [] (4 ∷ []) replied

-- The network of this server.
abbrev net : UdpNet
net = record {
  resolve = λ addr. some addr;
  dial = λ addr. true;
  marshal_ping = λ nonce. some nonce;
  unmarshal_pong = λ b. some (pong_of (6 ∷ []) (6 ∷ []));
  exchange = λ addr content. answer services (buffer content);
}

pinged : ping net (8 ∷ []) (6 ∷ []) ≡ some (pong_of (6 ∷ []) (6 ∷ []))
unfolding ping answer
pinged = refl
