-- ===== src/Core/Node.antt =====
-- core/node.go and core/handlers.go: the state of a node, the code that it calls and that is not in
-- the repository, and the messages of protobuf/gossip.proto.
use ifrit.Prelude.{ℕ, Bool, Option, List, Bytes}
use ifrit.Discovery.Types.{Certificate}
use ifrit.Discovery.Note.{PbNote, Signature}
use ifrit.Discovery.Accusation.{PbAccusation}
use ifrit.Discovery.View.{View}

-- `pb.State`, with `existing_hosts` nil or a map, and `pb.StateResponse`.
pub record PbState : Type 0 where
  pub existing_hosts : Option (List (Bytes × ℕ))
  pub own_note : Option PbNote
  pub external_gossip : Option Bytes

pub record StateResponse : Type 0 where
  pub certificates : List Bytes
  pub notes : List PbNote
  pub accusations : List PbAccusation
  pub external_gossip : Option Bytes

pub record Pong : Type 0 where
  pub nonce : Bytes
  pub signature : Option Signature

-- What the standard library, the protobuf runtime and the crypto unit do. An error is `none`.
pub record Services : Type 0 where
  pub sha256 : Bytes → Bytes
  pub marshal_note : PbNote → Option Bytes
  pub marshal_accusation : PbAccusation → Option Bytes
  pub marshal_pong : Pong → Option Bytes
  pub sign : Bytes → Option (Bytes × Bytes)
  pub verify : Bytes → Option Bytes → Option Bytes → Bytes → Bool
  pub parse_certificate : Bytes → Option Certificate
  -- `child.CheckSignatureFrom(parent)` returns no error.
  pub check_signature_from : Certificate → Certificate → Bool
  pub to_valid_utf8 : Bytes → Bytes

-- `sent` are the states given to `comm.Gossip` with their addresses, latest first.
pub record Node : Type 0 where
  pub view : View
  pub certificate : Certificate
  pub ca_certificate : Option Certificate
  pub gossip_handler : Option (Bytes → Option Bytes)
  pub external_gossip : Option Bytes
  pub max_failed_pings : ℕ
  pub sent : List (Bytes × PbState)

pub data NodeError : Type 0 where
  not_my_neighbour acc_already_exists disabled_ring invalid_accuser invalid_signature : NodeError
  invalid_self_accusation invalid_epoch invalid_mask old_note no_peer : NodeError
  nil_cert self_cert no_cert invalid_id cert_signature marshal_failed add_refused : NodeError
