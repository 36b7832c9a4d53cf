-- ===== src/Discovery/Note.antt =====
-- core/discovery/note.go: notes, and their wire form `pb.Note`.
use ifrit.Prelude.{
  ℕ, ◌-◌, Bool, false, not, ◌||◌, Option, none, some, Bytes, ◌==◌, ltb, if◌then◌else◌,
}
use ifrit.Bits.{has_bit}

-- A nil slice is `none`.
pub record Signature : Type 0 where
  pub r : Option Bytes
  pub s : Option Bytes

-- The embedded `*signature` may be nil.
pub record Note : Type 0 where
  pub epoch : ℕ
  pub mask : ℕ
  pub id : Bytes
  pub signature : Option Signature

-- The message of protobuf/gossip.proto.
pub record PbNote : Type 0 where
  pub epoch : ℕ
  pub id : Bytes
  pub mask : ℕ
  pub signature : Option Signature

-- `int(ringNum) - 1` is below 0 at ring 0; `numRings` is never 0.
unfoldable pub is_ring_disabled : Note → ℕ → ℕ → Bool
is_ring_disabled n ring_num num_rings =
    if ltb num_rings ring_num || ring_num == 0 then false else not (has_bit n.mask (ring_num - 1))

unfoldable pub equal : Note → ℕ → Bool
equal n epoch = n.epoch == epoch

unfoldable pub is_more_recent : Note → ℕ → Bool
is_more_recent n other = ltb n.epoch other

-- `none` is the nil dereference of a note that has no signature.
unfoldable pub to_pb_msg : Note → Option PbNote
to_pb_msg n = elim n.signature [
  | none ↦ none
  | some sign ↦ some (record { epoch = n.epoch; id = n.id; mask = n.mask; signature = some sign })
]
