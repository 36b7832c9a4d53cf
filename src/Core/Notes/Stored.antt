-- ===== src/Core/Notes/Stored.antt =====
-- Which notes stand in the view after `evalNote`.
use ifrit.Prelude.{
  ℕ, ◌≡◌, refl, ap, ◌∙◌, subst, true, Option, none, some, List, [], ◌∷◌, arith, Bytes, bytes_eq,
  ◌=?◌, if◌then◌else◌, Bool-cases, Option-cases, if-true, if-false, inl, inr,
}
use ifrit.Prelude.GoMap
use ifrit.Discovery.Types.{PeerRef}
use ifrit.Discovery.Note.{Signature, Note, PbNote}
use ifrit.Discovery.Accusation.{Accusation}
use ifrit.Discovery.Peer.{
  PeerState, add_note, remove_accusation, remove_ring_accusation, reset_ping, all_accusations,
  is_accused,
}
use ifrit.Discovery.Ring.Notes.{SameNotes}
use ifrit.Discovery.Rings.Notes.{Rings_add-SameNotes}
use ifrit.Discovery.Rings
use ifrit.Discovery.View.{View, add_live, delete_timeout, is_alive, has_timer}
use ifrit.Discovery.View
use ifrit.Core.Node.{Services}
use ifrit.Core.Notes.{
  rebut_all, is_newer, write, revive, accept_note, rebuttal_note, take_note, eval_from, eval_note,
}

pub add_live-SameNotes :
    (sha256 : Bytes → Bytes) (v v' : View) (p : PeerRef)
    → add_live sha256 v p ≡ some v'
    → SameNotes v.heap v'.heap
unfolding add_live
add_live-SameNotes sha256 v v' p h id = elim (Bool-cases (GoMap.has p.id v.live_map)) [
  | inl here ↦ ground arith
  | inr new ↦ elim (Option-cases (Rings.add sha256 v.rings p v.heap)) [
    | inl e ↦ absurd (ground arith)
    | inr ((rs', heap', old), e) ↦
        ground (arith, Rings_add-SameNotes sha256 p v.rings rs' v.heap heap' old e id)
  ]
]

revive-SameNotes :
    (sv : Services) (v v' : View) (p : PeerRef) → revive sv v p ≡ some v' → SameNotes v.heap v'.heap
unfolding revive
revive-SameNotes sv v v' p h id = elim (Bool-cases (is_alive v p.id)) [
  | inl live ↦ ground (arith, if-true (some v) (add_live sv.sha256 v p) live h)
  | inr away ↦
      add_live-SameNotes sv.sha256 v v' p (if-false (some v) (add_live sv.sha256 v p) away h) id
]

pub rebut_all_note :
    (epoch : ℕ) (l : List Accusation) (st : PeerState) → (rebut_all epoch l st).note ≡ st.note
unfolding remove_accusation remove_ring_accusation
rebut_all_note epoch [] st = refl
rebut_all_note epoch (a ∷ rest) st = rebut_all_note epoch rest _ ∙ ground arith

-- The note that a message gives a peer.
abbrev pub note_of : PeerRef → PbNote → Signature → Note
note_of p new sign = record { epoch = new.epoch; mask = new.mask; id = p.id; signature = some sign }

pub add_note_newer :
    (p : PeerRef) (st : PeerState) (new : PbNote) (sign : Signature)
    → is_newer st.note new.epoch ≡ true
    → (add_note p st new.mask new.epoch sign.r sign.s).note ≡ some (note_of p new sign)
unfolding add_note
add_note_newer p st new sign newer = ground arith

-- Each peer keeps its note, but `p` has the one of the message.
abbrev pub Notes : View → View → PeerRef → PbNote → Signature → Type 0
Notes v v' p new sign =
    (id : Bytes)
    → (v'.heap id).note ≡ (if p.id =? id then some (note_of p new sign) else (v.heap id).note)

written :
    (v : View) (p : PeerRef) (st : PeerState) (new : PbNote) (sign : Signature)
    → st.note ≡ some (note_of p new sign)
    → Notes v (write v p st) p new sign
written v p st new sign h id = ground arith

revived :
    (sv : Services) (v w v' : View) (p : PeerRef) (new : PbNote) (sign : Signature)
    → Notes v w p new sign
    → revive sv w p ≡ some v'
    → Notes v v' p new sign
revived sv v w v' p new sign n h id = revive-SameNotes sv w v' p h id ∙ n id

abbrev or_view : View → Option View → View
or_view v none = v
or_view v (some v') = v'

without_timer :
    (v w : View) (p : PeerRef) (new : PbNote) (sign : Signature)
    → Notes v w p new sign
    → Notes v (if has_timer w p.id then delete_timeout w p.id else w) p new sign
unfolding delete_timeout
without_timer v w p new sign n id = elim (Bool-cases (has_timer w p.id)) [
  | inl on ↦ rw on (n id)
  | inr off ↦ rw off (n id)
]

accept_note-Notes :
    (sv : Services) (v v' : View) (p : PeerRef) (new : PbNote) (sign : Signature)
    → is_newer (v.heap p.id).note new.epoch ≡ true
    → accept_note sv v p new.mask new.epoch sign ≡ some v'
    → Notes v v' p new sign
unfolding accept_note
accept_note-Notes sv v v' p new sign newer h =
    let st = add_note p (v.heap p.id) new.mask new.epoch sign.r sign.s in
    revived sv v (write v p st) v' p new sign
      (written v p st new sign (add_note_newer p (v.heap p.id) new sign newer)) h

rebuttal_note-Notes :
    (sv : Services) (v v' : View) (p : PeerRef) (l : List Accusation) (new : PbNote)
    (sign : Signature)
    → is_newer (v.heap p.id).note new.epoch ≡ true
    → rebuttal_note sv v p l new.mask new.epoch sign ≡ some v'
    → Notes v v' p new sign
unfolding rebuttal_note reset_ping
rebuttal_note-Notes sv v v' p l new sign newer h =
    let st = rebut_all new.epoch l (v.heap p.id) in
    let st1 = add_note p st new.mask new.epoch sign.r sign.s in
    let noted : st1.note ≡ some (note_of p new sign) =
      add_note_newer p st new sign (rw (rebut_all_note new.epoch l (v.heap p.id)) newer) in
    let v1 = write v p (reset_ping st1) in
    let w = if has_timer v1 p.id then delete_timeout v1 p.id else v1 in
    elim (Bool-cases (is_accused st1)) [
      | inl accused ↦
          subst (λ x. Notes v x p new sign)
            (ap (or_view v) (if-true (some (write v p st1)) (revive sv w p) accused h))
            (written v p st1 new sign noted)
      | inr cleared ↦
          revived sv v w v' p new sign
            (without_timer v v1 p new sign (written v p (reset_ping st1) new sign noted))
            (if-false (some (write v p st1)) (revive sv w p) cleared h)
    ]

take_note-Notes :
    (sv : Services) (v v' : View) (p : PeerRef) (new : PbNote) (sign : Signature) (bytes : Bytes)
    → is_newer (v.heap p.id).note new.epoch ≡ true
    → take_note sv v p new sign bytes ≡ some (v', none)
    → Notes v v' p new sign
unfolding take_note
take_note-Notes sv v v' p new sign bytes newer h = go (all_accusations (v.heap p.id)) refl
  where
    go : (l : List Accusation) → all_accusations (v.heap p.id) ≡ l → Notes v v' p new sign
    go [] e = elim (Option-cases (accept_note sv v p new.mask new.epoch sign)) [
      | inl n ↦ absurd (ground arith)
      | inr (w, q) ↦
          let same : some w ≡ some v' = ground arith in
          accept_note-Notes sv v v' p new sign newer (q ∙ same)
    ]
    go (a ∷ rest) e =
        elim (Option-cases (rebuttal_note sv v p (a ∷ rest) new.mask new.epoch sign)) [
          | inl n ↦ absurd (ground arith)
          | inr (w, q) ↦
              let same : some w ≡ some v' = ground arith in
              rebuttal_note-Notes sv v v' p (a ∷ rest) new sign newer (q ∙ same)
        ]

-- When `evalNote` takes a note of the peer `p` without an error, then `p`, accused or not, has that
-- note, with its epoch, its mask and its signature, and every other peer has the note that it had.
pub eval_note-Notes :
    (sv : Services) (v v' : View) (p : PeerRef) (new : PbNote) (sign : Signature)
    → View.peer v new.id ≡ some p
    → new.signature ≡ some sign
    → eval_note sv v (some new) ≡ some (v', none)
    → Notes v v' p new sign
unfolding eval_note eval_from
eval_note-Notes sv v v' p new sign found signed h =
    elim (Option-cases (sv.marshal_note (record new { signature = none }))) [
      | inl e ↦ absurd (ground arith)
      | inr (bytes, e) ↦
          let newer : is_newer (v.heap p.id).note new.epoch ≡ true = ground arith in
          let taken : take_note sv v p new sign bytes ≡ some (v', none) = ground arith in
          take_note-Notes sv v v' p new sign bytes newer taken
    ]
