-- ===== src/Core/Lifecycle.antt =====
-- core/node.go: the start, the stop and the messages of a node. `none` is a panic. The visualizer
-- is off.
pub mod Contacts
pub mod Startup
pub mod Stop
use ifrit.Prelude.{
  ℕ, Bool, true, false, Option, none, some, List, [], ◌∷◌, ◌++◌, ◌⊎◌, inl, inr, map, Bytes,
  bytes_eq, ltb, ◌==◌, ◌=?◌, length, if◌then◌else◌, ◌>>=◌,
}
use ifrit.Discovery.Types.{Certificate, PeerRef}
use ifrit.Discovery.View.{View, ViewError, new_view}
use ifrit.Discovery.View
use ifrit.Core.Node.{Services, Node, PbState, StateResponse}
use ifrit.Core.Notes.{eval_certificate}
use ifrit.Core.Merge.{collect_gossip_content, merge_notes, merge_certificates, merge_accusations}

-- The keys that NewNode reads from the configuration, which holds no negative number.
pub record NodeConfig : Type 0 where
  pub dead_timeout : ℕ
  pub pings_per_interval : ℕ
  pub ping_limit : ℕ

-- What NewNode asks of the certificate manager.
pub record CertManager : Type 0 where
  pub num_rings : ℕ
  pub certificate : Certificate
  pub ca_certificate : Option Certificate
  pub contact_list : List Certificate

unfoldable pub per_interval : ℕ → ℕ → ℕ
per_interval num rings = if num == 0 then 1 else (if ltb rings num then rings else num)

-- The loop over the contacts; an error is logged only.
unfoldable pub add_contacts : Services → Option Certificate → View → List Certificate → View
add_contacts sv ca v [] = v
add_contacts sv ca v (c ∷ rest) =
    add_contacts sv ca
      (if v.self.id =? c.subject_key_id then v else (eval_certificate sv ca v (some c)).0) rest

-- The loop over the known peers.
unfoldable pub add_all_live : (Bytes → Bytes) → View → List PeerRef → Option View
add_all_live sha256 v [] = some v
add_all_live sha256 v (p ∷ rest) = do v' ← View.add_live sha256 v p; add_all_live sha256 v' rest

-- The initial contacts, when there is an authority.
unfoldable pub contact : Services → Option Certificate → View → List Certificate → Option View
contact sv none v contacts = some v
contact sv (some ca) v contacts =
    let known = add_contacts sv (some ca) v contacts in
    add_all_live sv.sha256 known (View.full known)

unfoldable pub node_of : CertManager → NodeConfig → View → Node
node_of cm config v = record {
  view = v;
  certificate = cm.certificate;
  ca_certificate = cm.ca_certificate;
  gossip_handler = none;
  external_gossip = none;
  max_failed_pings = config.ping_limit;
  sent = [];
}

-- The node, and the number of pings for each interval.
unfoldable pub new_node : Services → CertManager → NodeConfig → Option ((Node × ℕ) ⊎ ViewError)
new_node sv cm config =
    elim (new_view sv.marshal_note sv.sign sv.sha256 config.dead_timeout cm.num_rings
      (some cm.certificate)) [
        | inr e ↦ some (inr e)
        | inl v ↦ (do
          v' ← contact sv cm.ca_certificate v cm.contact_list
          some (
              inl (node_of cm config v', per_interval config.pings_per_interval v.rings.num_rings)))
      ]

-- The replies of the entry addresses, in turn; an error of the transport is `none`.
unfoldable pub contact_hosts : Services → ℕ → Node → List (Option StateResponse) → Option Node
contact_hosts sv now n [] = some n
contact_hosts sv now n (none ∷ rest) = contact_hosts sv now n rest
contact_hosts sv now n (some reply ∷ rest) = do
  let n1 = merge_certificates sv n reply.certificates
  v2 ← merge_notes sv n1.view reply.notes
  n3 ← merge_accusations sv now (record n1 { view = v2 }) reply.accusations
  contact_hosts sv now n3 rest

abbrev pub send_state : PbState → List Bytes → List (Bytes × PbState) → List (Bytes × PbState)
send_state msg [] sent = sent
send_state msg (addr ∷ rest) sent = send_state msg rest ((addr, msg) ∷ sent)

-- Start, without the loops that it starts: a reply for each of the entry addresses.
unfoldable pub start : Services → ℕ → Node → List Bytes → List (Option StateResponse) → Option Node
start sv now n entry_addrs replies = do
  msg ← collect_gossip_content sv n
  elim n.ca_certificate [
    | some ca ↦ some n
    | none ↦ contact_hosts sv now (record n { sent = send_state msg entry_addrs n.sent }) replies
  ]

unfoldable pub verify : Services → Node → Bytes → Bytes → Bytes → Bytes → Bool
verify sv n r s content id = elim (View.peer n.view id) [
  | none ↦ false
  | some p ↦ sv.verify content (some r) (some s) p.public_key
]

-- The result is `none` for an id that no known peer has.
unfoldable pub id_to_addr : Node → Bytes → Option Bytes
id_to_addr n id = elim (View.peer n.view id) [ none ↦ none | some p ↦ some p.addr ]

unfoldable pub live_members : Node → List Bytes
live_members n = map (λ p. p.addr) (View.live n.view)

-- `Message`, with the text of its error.
pub record Message : Type 0 where
  pub content : Bytes
  pub error : Option Bytes

-- What is sent on the channel, first one first; `reply` is the content and the error of the answer,
-- or `none` for an error of the transport, after which the getters read a nil reply.
unfoldable pub send_msg : Option (Bytes × Bytes) → List (Option Message)
send_msg none = none ∷ some (record { content = []; error = none }) ∷ []
send_msg (some (content, error)) =
    some (record { content = content; error = if length error == 0 then none else some error }) ∷ []

-- The messages to several destinations share the channel.
unfoldable pub send_messages : (Bytes → Option (Bytes × Bytes)) → List Bytes → List (Option Message)
send_messages send [] = []
send_messages send (addr ∷ dest) = send_msg (send addr) ++ send_messages send dest
