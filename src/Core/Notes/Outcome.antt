-- ===== src/Core/Notes/Outcome.antt =====
-- What `evalNote` does, on each of its branches.
use ifrit.Prelude.{◌≡◌, arith, true, Option, none, some, Bytes, Option-cases, inl, inr}
use ifrit.Discovery.Types.{PeerRef}
use ifrit.Discovery.Note.{PbNote, Signature}
use ifrit.Discovery.View.{View}
use ifrit.Discovery.View
use ifrit.Core.Node.{Services, NodeError}
use ifrit.Core.Notes.{eval_note, is_newer}

-- When `evalNote` reports an error, whichever it is, it leaves the view, with all its peers, as it
-- was.
pub eval_note_error :
    (sv : Services) (v v' : View) (new : Option PbNote) (e : NodeError)
    → eval_note sv v new ≡ some (v', some e)
    → v' ≡ v
unfolding eval_note
eval_note_error sv v v' none e h = ground arith
eval_note_error sv v v' (some new) e h = ground arith

-- What a note has to pass.
pub record Passes (sv : Services) (v : View) (new : PbNote) (p : PeerRef) (sign : Signature)
    (bytes : Bytes) : Type 0 where
  pub signed : new.signature ≡ some sign
  pub found : View.peer v new.id ≡ some p
  pub newer : is_newer (v.heap p.id).note new.epoch ≡ true
  pub mask_ok : View.view_valid_mask v new.mask ≡ true
  pub marshalled : sv.marshal_note (record new { signature = none }) ≡ some bytes
  pub verified : sv.verify bytes sign.r sign.s p.public_key ≡ true

-- A note that `evalNote` takes without an error is of a known peer, newer than the note stored for
-- it, has a mask that the view accepts, and a signature of that peer over its content.
pub eval_note-Passes :
    (sv : Services) (v v' : View) (new : PbNote)
    → eval_note sv v (some new) ≡ some (v', none)
    → (p : PeerRef) × (sign : Signature) × (bytes : Bytes) × Passes sv v new p sign bytes
unfolding eval_note
eval_note-Passes sv v v' new h = elim (Option-cases new.signature) [
  | inl e ↦ absurd (ground arith)
  | inr (sign, e1) ↦ elim (Option-cases (View.peer v new.id)) [
    | inl e ↦ absurd (ground arith)
    | inr (p, e2) ↦ elim (Option-cases (sv.marshal_note (record new { signature = none }))) [
      | inl e ↦ absurd (ground arith)
      | inr (bytes, e3) ↦ (
        p,
        sign,
        bytes,
        record {
          signed = e1;
          found = e2;
          newer = ground arith;
          mask_ok = ground arith;
          marshalled = e3;
          verified = ground arith;
        },
      )
    ]
  ]
]
