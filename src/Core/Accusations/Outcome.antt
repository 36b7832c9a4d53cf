-- ===== src/Core/Accusations/Outcome.antt =====
-- What `evalAccusation` asks of an accusation before it takes it.
use ifrit.Prelude.{
  ℕ, ◌≡◌, arith, true, false, none, some, Bytes, Option-cases, inl, inr, ◌=?◌, bytes_eq,
}
use ifrit.Discovery.Types.{PeerRef}
use ifrit.Discovery.Note.{Note, Signature}
use ifrit.Discovery.Note
use ifrit.Discovery.Accusation.{PbAccusation}
use ifrit.Discovery.View.{View}
use ifrit.Discovery.View
use ifrit.Core.Node.{Services, Node}
use ifrit.Core.Accusations.{eval_accusation}

-- What an accusation of another peer has to pass.
pub record Stands (sv : Services) (v : View) (a : PbAccusation) (accuser p : PeerRef) (note : Note)
    (sign : Signature) (bytes : Bytes) : Type 0 where
  pub signed : a.signature ≡ some sign
  pub noted : (v.heap p.id).note ≡ some note
  pub same_epoch : Note.equal note a.epoch ≡ true
  pub ring_on : Note.is_ring_disabled note a.ring_num v.rings.num_rings ≡ false
  pub by_predecessor : View.valid_accuser sv.sha256 v p accuser a.ring_num ≡ some true
  pub marshalled : sv.marshal_accusation (record a { signature = none }) ≡ some bytes
  pub verified : sv.verify bytes sign.r sign.s accuser.public_key ≡ true

-- An accusation of a peer other than this node that `evalAccusation` takes without an error stands
-- on the epoch of the note that is stored for the accused, on a ring that this note leaves active,
-- by a peer that `ValidAccuser` accepts on that ring, and has a signature of the accuser over its
-- content.
pub eval_accusation-Stands :
    (sv : Services) (now : ℕ) (n n' : Node) (a : PbAccusation) (accuser p : PeerRef)
    → (n.view.self.id =? p.id) ≡ false
    → eval_accusation sv now n a accuser p ≡ some (n', none)
    → (note : Note) × (sign : Signature) × (bytes : Bytes) × Stands sv n.view a accuser p note sign
        bytes
unfolding eval_accusation
eval_accusation-Stands sv now n n' a accuser p other h = elim (Option-cases a.signature) [
  | inl e ↦ absurd (ground arith)
  | inr (sign, e1) ↦ elim (Option-cases (sv.marshal_accusation (record a { signature = none }))) [
    | inl e ↦ absurd (ground arith)
    | inr (bytes, e2) ↦ elim (Option-cases (n.view.heap p.id).note) [
      | inl e ↦ absurd (ground arith)
      | inr (note, e3) ↦
          elim (Option-cases (View.valid_accuser sv.sha256 n.view p accuser a.ring_num)) [
            | inl e ↦ absurd (ground arith)
            | inr (valid, e4) ↦ (
              note,
              sign,
              bytes,
              record {
                signed = e1;
                noted = e3;
                same_epoch = ground arith;
                ring_on = ground arith;
                by_predecessor = ground arith;
                marshalled = e2;
                verified = ground arith;
              },
            )
          ]
    ]
  ]
]
