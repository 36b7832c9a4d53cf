-- ===== src/Tests/Start.antt =====
-- The start of a node, the connections, the ports and the worm.
use ifrit.Prelude.{
  Option, ◌<◌, not, ◌&&◌, false, Bytes, false, ◌=?◌, ℕ, ◌+◌, ◌<◌, ◌≤◌, ◌/◌, ◌≡◌, refl, true, none,
  some, [], ◌∷◌, ◌⊎◌, inl, inr, Bytes, bytes_eq, bytes_beq, length, ltb, ◌==◌, if◌then◌else◌, arith,
  replicate,
}
use ifrit.Discovery.Types.{Certificate, u32}
use ifrit.Discovery.Peer.{new_peer}
use ifrit.Discovery.Rings.{create_rings}
use ifrit.Discovery.View.{View, ViewError, new_view, sign_local_note, signed, exists, is_alive}
use ifrit.Discovery.View.Live.{LiveInv}
use ifrit.Prelude.GoMap.{has, insert}
use ifrit.Discovery.View.{add_full}
use ifrit.Core.Notes.{eval_certificate}
use ifrit.Core.Notes.Certificates.{eval_certificate_taken}
use ifrit.Core.Node.{Services, Node}
use ifrit.Core.Detector.{dead, ping_failed, probe}
use ifrit.Core.Detector.Probe.{unanswered, unanswered_dead}
use ifrit.Core.Lifecycle.{NodeConfig, CertManager, new_node}
use ifrit.Core.Lifecycle.Startup.{new_node-LiveInv}
use ifrit.Comm.Connections.{GrpcClient, new_client, dial, close_conn, start, dials, closes}
use ifrit.Comm.Connections.Open.{OpenInv, Used-OpenInv}
use ifrit.NetUtil.{Host, get_listener}
use ifrit.NetUtil.Free.{FirstFree, Asked, get_listener_first}
use ifrit.Worm.{Worm, Cmp, cmp_states}
use ifrit.Worm.Compare.{comparisons, last_value, errors_of, cmp_states-comparisons}
use ifrit.Tests.{plain, peer_of, blank, certificate}
use ifrit.Tests.Live.{no_collision}

abbrev pub services : Services
services = record {
  sha256 = plain;
  marshal_note = λ n. some n.id;
  marshal_accusation = λ a. some a.accused;
  marshal_pong = λ p. some p.nonce;
  sign = λ b. some (b, b);
  verify = λ b r s key. true;
  parse_certificate = λ b. some (certificate b);
  check_signature_from = λ child parent. true;
  to_valid_utf8 = plain;
}

abbrev pub manager : CertManager
manager = record {
  num_rings = 3;
  certificate = certificate (2 ∷ []);
  ca_certificate = some (certificate (9 ∷ []));
  contact_list = certificate (replicate 32 1) ∷ certificate (2 ∷ []) ∷ [];
}

abbrev pub node_config : NodeConfig
node_config = record { dead_timeout = 60; pings_per_interval = 5; ping_limit = 3 }

abbrev pub made_view : View ⊎ ViewError → View → View
made_view (inl v) w = v
made_view (inr e) w = w

abbrev pub nothing : View
nothing = record {
  view_map = [];
  live_map = [];
  timeout_map = [];
  rings = record { ring_map = []; num_rings = 0; self = peer_of 2 };
  curr_gossip_ring = 1;
  curr_monitor_ring = 1;
  max_byz = 1;
  deactivated_rings = 0;
  removal_timeout = 60;
  self = peer_of 2;
  heap = λ id. blank;
  closed = [];
}

abbrev pub view3 : View
view3 =
    made_view
      (new_view services.marshal_note services.sign plain 60 3 (some (certificate (2 ∷ []))))
      nothing

pub made3 :
    new_view services.marshal_note services.sign plain 60 3 (some (certificate (2 ∷ [])))
    ≡ inl view3
unfolding new_view new_peer create_rings bytes_beq sign_local_note signed
made3 = refl

new_node-LiveInv_example :
    (n : Node) × (pings : ℕ) × (new_node services manager node_config ≡ some (inl (n, pings)))
    × LiveInv plain n.view
    × (1 ≤ pings)
    × (pings ≤ 3)
    × ((id : Bytes) → (exists n.view id && not (is_alive n.view id)) ≡ false)
new_node-LiveInv_example =
    new_node-LiveInv services manager node_config view3 no_collision (omega arith) (omega arith)
      made3

abbrev pub contact1 : Certificate
contact1 = certificate (replicate 32 1)

unknown1 : exists view3 (replicate 32 1) ≡ false
unfolding new_view new_peer create_rings bytes_beq sign_local_note signed exists has
unknown1 = refl

known1 :
    exists
      (eval_certificate services (some (certificate (9 ∷ []))) view3 (some contact1)).0
      (replicate 32 1)
    ≡ true
unfolding new_view new_peer create_rings bytes_beq sign_local_note signed exists has insert add_full
    eval_certificate
known1 = refl

eval_certificate_taken_example :
    (replicate 32 1 ≡ contact1.subject_key_id)
    × (length {A = ℕ} (replicate 32 1) ≡ 32)
    × ((view3.self.id =? replicate 32 1) ≡ false)
    × (services.check_signature_from contact1 (certificate (9 ∷ [])) ≡ true)
eval_certificate_taken_example =
    eval_certificate_taken services (some (certificate (9 ∷ []))) view3 contact1 (replicate 32 1)
      unknown1 known1

-- Two addresses are dialed, one of them is closed.
abbrev no_connections : GrpcClient
no_connections = record { all_connections = []; next = 0; closed = [] }

fresh_client : new_client true ≡ some no_connections
unfolding new_client
fresh_client = refl

abbrev one_left : GrpcClient
one_left = close_conn (dial (dial no_connections (1 ∷ []) true).0 (2 ∷ []) true).0 (1 ∷ [])

Used-OpenInv_example : OpenInv one_left
Used-OpenInv_example = Used-OpenInv one_left (
    closes (dial (dial no_connections (1 ∷ []) true).0 (2 ∷ []) true).0 (1 ∷ []) (
      dials (dial no_connections (1 ∷ []) true).0 (2 ∷ []) true
        (dials no_connections (1 ∷ []) true (start no_connections fresh_client))))

unanswered_dead_example :
    (probe services 3 (peer_of 1) (unanswered services 3 (peer_of 1) 2 blank) none).1
    ≡ (if 2 + 1 == 3 then some dead else some ping_failed)
unanswered_dead_example =
    unanswered_dead services 3 2 (peer_of 1) blank refl (omega arith) (omega arith) (omega arith)

abbrev pub host : Host
host = record {
  name = some (1 ∷ []);
  lookup_host = λ name. some ((2 ∷ []) ∷ []);
  lookup_ip = λ name. some ((2 ∷ []) ∷ []);
  full_addr = λ addr port. port ∷ addr;
}

abbrev above80 : ℕ → Option ℕ
above80 p = if p == 0 then some 49152 else (if ltb 80 p then some p else none)

second : FirstFree above80 80 1 81
second = record { free = refl; taken = below }
  where
    below : (i : ℕ) → i < 1 → above80 (80 + i) ≡ none
    below i h = ground arith

asked80 : Asked above80
asked80 asked port h q = ground arith

-- The first free port is the next one, and the address names the port that was given.
get_listener_first_example :
    (get_listener host above80 [] 80 ≡ some (some 81, 80 ∷ 2 ∷ [], none))
    × ((80 + 1 ≡ 0) ⊎ (81 ≡ 80 + 1))
get_listener_first_example =
    get_listener_first host above80 [] 80 1 81 (1 ∷ []) (2 ∷ []) [] refl refl (omega arith) asked80
      second

abbrev by_length : Cmp
by_length s s2 = (length s, true)

abbrev worm2 : Worm
worm2 = record {
  host_map = [];
  state_map = (1 ∷ [], some (7 ∷ 8 ∷ [])) ∷ (2 ∷ [], some (7 ∷ [])) ∷ [];
  max_block = 0;
  total_state_errors = 0;
}

cmp_states-comparisons_example : cmp_states by_length worm2 ≡ record worm2 {
  total_state_errors =
      u32 (0 + u32 (errors_of by_length (comparisons worm2.state_map worm2.state_map) / 2));
  max_block =
      let last = last_value by_length 0 (comparisons worm2.state_map worm2.state_map) in
      if ltb 0 last then last else 0;
}
cmp_states-comparisons_example = cmp_states-comparisons by_length worm2 (omega arith)
