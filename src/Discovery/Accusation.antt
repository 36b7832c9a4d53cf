-- ===== src/Discovery/Accusation.antt =====
-- core/discovery/accusation.go: accusations, and their wire form `pb.Accusation`.
use ifrit.Prelude.{ℕ, Bool, ◌&&◌, Option, none, some, Bytes, ◌==◌, ltb, ◌=?◌, bytes_eq}
use ifrit.Discovery.Note.{Signature}

pub record Accusation : Type 0 where
  pub ring_num : ℕ
  pub epoch : ℕ
  pub accuser : Bytes
  pub accused : Bytes
  pub signature : Option Signature

-- The message of protobuf/gossip.proto.
pub record PbAccusation : Type 0 where
  pub epoch : ℕ
  pub accuser : Bytes
  pub accused : Bytes
  pub ring_num : ℕ
  pub signature : Option Signature

unfoldable pub equal : Accusation → Bytes → Bytes → ℕ → ℕ → Bool
equal a accused accuser ring_num epoch =
    (a.accused =? accused)
    && ((a.accuser =? accuser) && ((a.ring_num == ring_num) && (a.epoch == epoch)))

unfoldable pub is_more_recent : Accusation → ℕ → Bool
is_more_recent a other = ltb a.epoch other

unfoldable pub is_accuser : Accusation → Bytes → Bool
is_accuser a id = a.accuser =? id

-- `none` is the nil dereference of an accusation that has no signature.
unfoldable pub to_pb_msg : Accusation → Option PbAccusation
to_pb_msg a = elim a.signature [
  | none ↦ none
  | some sign ↦ some (record {
    epoch = a.epoch;
    accuser = a.accuser;
    accused = a.accused;
    ring_num = a.ring_num;
    signature = some sign;
  })
]
