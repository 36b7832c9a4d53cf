-- ===== src/Client.antt =====
-- client.go: a client of the network is made from sockets, a crypto unit and a node. `none` is a
-- panic. The key store, the sockets and the configuration are arguments.
pub mod Starts
use ifrit.Prelude.{
  ℕ, zero, suc, Bool, true, false, Option, none, some, List, [], ◌∷◌, ◌⊎◌, inl, inr, Bytes, length,
  ◌==◌, if◌then◌else◌, ◌>>=◌,
}
use ifrit.Discovery.View.{ViewError}
use ifrit.Core.Node.{Services, Node}
use ifrit.Core.Lifecycle.{NodeConfig, CertManager, new_node, id_to_addr, live_members, verify}
use ifrit.Comm.CryptoUnit.{CryptoUnit, CryptoUnitConfig, CryptoServices, CryptoError, new_cu}
use ifrit.Comm.CryptoUnit.Files.{Disk, load_cu}
use ifrit.NetUtil.{Host, NetError, get_listener, listen_udp}

pub record Client : Type 0 where
  pub node : Node

pub record Config : Type 0 where
  pub new : Bool
  pub tcp_port : ℕ
  pub udp_port : ℕ
  pub hostname : Bytes
  pub crypto_unit_path : Bytes

pub data ClientError : Type 0 where
  no_data no_config no_config_file no_comm no_peer : ClientError
  of_net : NetError → ClientError
  of_crypto : CryptoError → ClientError
  of_view : ViewError → ClientError

-- What the client runs on. `comm_ok` is whether `NewComm` returns no error; the signatures of the
-- node are those of its crypto unit.
pub record Platform : Type 0 where
  pub config_read : Bool
  pub host : Host
  pub udp_resolves : Bool
  pub udp_listens : Option ℕ
  pub listens : ℕ → Option ℕ
  pub crypto : CryptoServices
  pub disk : Disk
  pub comm_ok : CryptoUnit → Bool
  pub services : CryptoUnit → Services
  pub ca_addr : Bytes
  pub node_config : NodeConfig

-- The certificate manager of a node is its crypto unit.
unfoldable pub cert_manager : CryptoUnit → CertManager
cert_manager cu = record {
  num_rings = cu.num_rings;
  certificate = cu.self;
  ca_certificate = cu.ca;
  contact_list = cu.known_certs;
}

-- A new crypto unit, or the stored one.
unfoldable pub crypto_unit : Platform → Config → List Bytes → Option (CryptoUnit ⊎ CryptoError)
crypto_unit pf config identity =
    if config.new
    then new_cu pf.crypto (
        some (record {
          identity = identity;
          ca_addr = pf.ca_addr;
          dns_names = config.hostname ∷ [];
          path = config.crypto_unit_path;
        }))
    else load_cu pf.disk config.crypto_unit_path identity pf.ca_addr

-- From the crypto unit on.
unfoldable pub client_of : Platform → CryptoUnit → Option (Client ⊎ ClientError)
client_of pf cu =
    if pf.comm_ok cu
    then (do
      made ← new_node (pf.services cu) (cert_manager cu) pf.node_config
      some (elim made [ inr e ↦ inr (of_view e) | inl (n, pings) ↦ inl (record { node = n }) ]))
    else some (inr no_comm)

-- From the addresses of the sockets on.
unfoldable pub with_sockets : Platform → Config → Bytes → Bytes → Option (Client ⊎ ClientError)
with_sockets pf config tcp_addr udp_addr = do
  found ← crypto_unit pf config (tcp_addr ∷ udp_addr ∷ [])
  elim found [ inr e ↦ some (inr (of_crypto e)) | inl cu ↦ client_of pf cu ]

unfoldable pub new_client : Platform → Option Config → Option (Client ⊎ ClientError)
new_client pf none = some (inr no_config)
new_client pf (some config) =
    if pf.config_read
    then (do
      (udp, udp_addr, e) ←
          listen_udp pf.host pf.udp_resolves pf.udp_listens config.hostname config.udp_port
      elim e [
        | some err ↦ some (inr (of_net err))
        | none ↦ (do
          (l, tcp_addr, e2) ← get_listener pf.host pf.listens config.hostname config.tcp_port
          elim e2 [
            | some err ↦ some (inr (of_net err))
            | none ↦ with_sockets pf config tcp_addr udp_addr
          ])
      ])
    else some (inr no_config_file)

-- The address that the message goes to.
unfoldable pub send_to_id : Client → Bytes → Bytes ⊎ ClientError
send_to_id c dest_id = elim (id_to_addr c.node dest_id) [
  | none ↦ inr no_peer
  | some addr ↦ inl addr
]

unfoldable pub members : Client → List Bytes
members c = live_members c.node

unfoldable pub verify_signature : Services → Client → Bytes → Bytes → Bytes → Bytes → Bool
verify_signature sv c r s content id = verify sv c.node r s content id

unfoldable pub set_gossip_content : Client → Bytes → Client × Option ClientError
set_gossip_content c content =
    if length content == 0
    then (c, some no_data)
    else (record { node = record c.node { external_gossip = some content } }, none)
