-- ===== src/Core/Notes.antt =====
-- core/handlers.go: `evalCertificate` and `evalNote`. `none` is a panic.
pub mod Certificates
pub mod Outcome
pub mod Stored
pub mod Revived
use ifrit.Prelude.{
  ℕ, Bool, true, false, not, ◌&&◌, ◌||◌, Option, none, some, List, [], ◌∷◌, Bytes, length, bytes_eq,
  ◌==◌, ◌=?◌, if◌then◌else◌, ◌>>=◌,
}
use ifrit.Discovery.Types.{Certificate, PeerRef}
use ifrit.Discovery.Note.{Note, PbNote, Signature}
use ifrit.Discovery.Note
use ifrit.Discovery.Accusation.{Accusation}
use ifrit.Discovery.Accusation
use ifrit.Discovery.Peer.{PeerState, Heap, store}
use ifrit.Discovery.Peer
use ifrit.Discovery.View.{View}
use ifrit.Discovery.View
use ifrit.Core.Node.{
  Services, Node, NodeError, nil_cert, self_cert, invalid_id, cert_signature, invalid_signature,
  no_peer, old_note, invalid_mask, marshal_failed,
}

-- Writes the state of one peer.
abbrev pub write : View → PeerRef → PeerState → View
write v p st = record v { heap = store p.id st v.heap }

-- The loop that removes the accusations that a newer note invalidates.
abbrev pub rebut_all : ℕ → List Accusation → PeerState → PeerState
rebut_all epoch [] st = st
rebut_all epoch (a ∷ rest) st =
    rebut_all epoch rest
      (if Accusation.is_more_recent a epoch then Peer.remove_accusation st a else st)

abbrev pub is_newer : Option Note → ℕ → Bool
is_newer none epoch = true
is_newer (some note) epoch = Note.is_more_recent note epoch

module _ (sv : Services) where
  -- With a CA its certificate has to have signed this one, and otherwise the certificate itself.
  unfoldable pub eval_certificate :
      Option Certificate → View → Option Certificate → View × Option NodeError
  eval_certificate ca v none = (v, some nil_cert)
  eval_certificate ca v (some cert) =
      let parent : Certificate = elim ca [ none ↦ cert | some c ↦ c ] in
      if v.self.id =? cert.subject_key_id
      then (v, some self_cert)
      else (if not (length cert.subject_key_id == 32)
          then (v, some invalid_id)
          else (if not (sv.check_signature_from cert parent)
              then (v, some cert_signature)
              else (if View.exists v cert.subject_key_id
                  then (v, none)
                  else ((View.add_full v cert.subject_key_id (some cert)).0, none))))

  unfoldable pub revive : View → PeerRef → Option View
  revive v p = if View.is_alive v p.id then some v else View.add_live sv.sha256 v p

  -- The note of a peer that is not accused.
  unfoldable pub accept_note : View → PeerRef → ℕ → ℕ → Signature → Option View
  unfolding revive
  accept_note v p mask epoch sign =
      revive (write v p (Peer.add_note p (v.heap p.id) mask epoch sign.r sign.s)) p

  -- The note of an accused peer: it comes back when no accusation is left.
  unfoldable pub rebuttal_note : View → PeerRef → List Accusation → ℕ → ℕ → Signature → Option View
  unfolding revive
  rebuttal_note v p accusations mask epoch sign =
      let st = rebut_all epoch accusations (v.heap p.id) in
      let st1 = Peer.add_note p st mask epoch sign.r sign.s in
      let v1 = write v p (Peer.reset_ping st1) in
      if Peer.is_accused st1
      then some (write v p st1)
      else revive (if View.has_timer v1 p.id then View.delete_timeout v1 p.id else v1) p

  -- `bytes` is the note without its signature.
  unfoldable pub take_note :
      View → PeerRef → PbNote → Signature → Bytes → Option (View × Option NodeError)
  unfolding accept_note rebuttal_note
  take_note v p new sign bytes =
      if not (sv.verify bytes sign.r sign.s p.public_key)
      then some (v, some invalid_signature)
      else elim (Peer.all_accusations (v.heap p.id)) [
        | [] ↦ (do v' ← accept_note v p new.mask new.epoch sign; some (v', none))
        | a ∷ rest ↦ (do v' ← rebuttal_note v p (a ∷ rest) new.mask new.epoch sign; some (v', none))
      ]

  unfoldable pub eval_from : View → PeerRef → PbNote → Signature → Option (View × Option NodeError)
  unfolding take_note
  eval_from v p new sign =
      if not (is_newer (v.heap p.id).note new.epoch)
      then some (v, some old_note)
      else (if not (View.view_valid_mask v new.mask)
          then some (v, some invalid_mask)
          else elim (sv.marshal_note (record new { signature = none })) [
            | none ↦ some (v, some marshal_failed)
            | some bytes ↦ take_note v p new sign bytes
          ])

  -- The argument is nil where a message carries no note.
  unfoldable pub eval_note : View → Option PbNote → Option (View × Option NodeError)
  unfolding eval_from
  eval_note v none = some (v, some invalid_signature)
  eval_note v (some new) = elim new.signature [
    | none ↦ some (v, some invalid_signature)
    | some sign ↦ elim (View.peer v new.id) [
      | none ↦ some (v, some no_peer)
      | some p ↦ eval_from v p new sign
    ]
  ]
