-- ===== src/Core/Safety/Notes.antt =====
-- core/handlers.go: evalNote and mergeNotes never panic and keep the invariant of a node.
use ifrit.Prelude.{
  ℕ, ◌+◌, ◌^◌, ◌<◌, ◌≡◌, refl, ap, ◌∙◌, true, Option, none, some, List, [], ◌∷◌, inl, inr, Bytes,
  bytes_eq, ◌=?◌, length, Bool-cases, Option-cases, arith, if◌then◌else◌,
}
use ifrit.Prelude.GoMap.{has-lookup}
use ifrit.Discovery.Types.{PeerRef}
use ifrit.Discovery.Note.{Note, PbNote, Signature}
use ifrit.Discovery.Note
use ifrit.Discovery.Accusation.{Accusation}
use ifrit.Discovery.Accusation
use ifrit.Discovery.Peer.{
  PeerState, add_note, reset_ping, remove_accusation, all_accusations, is_accused,
}
use ifrit.Discovery.Peer.Signed.{StateSigned, remove_ring_accusation-Signed, add_note-Signed}
use ifrit.Discovery.Ring.Invariant.{IsCollisionFree}
use ifrit.Discovery.View.{View, exists, is_alive, add_live, has_timer, delete_timeout}
use ifrit.Discovery.View
use ifrit.Core.Node.{
  Services, NodeError, invalid_signature, old_note, invalid_mask, marshal_failed, no_peer,
}
use ifrit.Core.Notes.{
  write, rebut_all, is_newer, revive, accept_note, rebuttal_note, take_note, eval_from, eval_note,
}
use ifrit.Core.Notes.Stored.{rebut_all_note, add_note_newer, note_of}
use ifrit.Core.Merge.{merge_notes}
use ifrit.Core.Safety.Invariant.{ViewInv, Next, Next-same, Next-trans, lookup-AllOwn}
use ifrit.Core.Safety.Live.{add_live-Next, Next-rest, Next-write}

rebut_all-Signed :
    (epoch : ℕ) (l : List Accusation) (st : PeerState)
    → StateSigned st
    → StateSigned (rebut_all epoch l st)
unfolding remove_accusation
rebut_all-Signed epoch [] st ok = ok
rebut_all-Signed epoch (a ∷ rest) st ok =
    rebut_all-Signed epoch rest
      (if Accusation.is_more_recent a epoch then remove_accusation st a else st)
      (ground (arith, remove_ring_accusation-Signed st ok a.ring_num))

-- A known peer stands in the map under its own id.
pub exists-peer :
    (sha256 : Bytes → Bytes) (v : View) (id : Bytes) (p : PeerRef)
    → ViewInv sha256 v
    → View.peer v id ≡ some p
    → exists v p.id ≡ true
unfolding View.peer exists
exists-peer sha256 v id p inv found =
    ground (arith, lookup-AllOwn v.view_map id p inv.keyed found, has-lookup id v.view_map)

-- What an operation on notes gives: a view, and perhaps an error.
abbrev pub Safe : (Bytes → Bytes) → View → Option View → Type 0
Safe sha256 v result = (v' : View) × (result ≡ some v') × Next sha256 0 v v'

module _ (sv : Services) (free : IsCollisionFree sv.sha256) where
  revive-Next :
      (v : View) (p : PeerRef)
      → ViewInv sv.sha256 v
      → length v.view_map + 2 < 2 ^ 32
      → exists v p.id ≡ true
      → Safe sv.sha256 v (revive sv v p)
  unfolding revive
  revive-Next v p inv few known = elim (Bool-cases (is_alive v p.id)) [
    | inl live ↦ (v, rw (revive, live) refl, Next-same sv.sha256 v inv)
    | inr away ↦
        let (v', q, next) = add_live-Next sv.sha256 v inv p free few known in
        (v', rw (revive, away) q, next)
  ]

  -- `revive` after a change that leaves the known peers.
  revive_after :
      (v w : View) (p : PeerRef)
      → Next sv.sha256 0 v w
      → w.view_map ≡ v.view_map
      → length v.view_map + 2 < 2 ^ 32
      → exists v p.id ≡ true
      → Safe sv.sha256 v (revive sv w p)
  unfolding exists
  revive_after v w p first same few known =
      let (v', q, next) =
        revive-Next w p first.inv (omega (arith, ap length same)) (rw same known) in
      (v', q, Next-trans sv.sha256 0 0 v w v' first next)

  module _ (v : View) (p : PeerRef) (new : PbNote) (sign : Signature) (inv : ViewInv sv.sha256 v)
      (few : length v.view_map + 2 < 2 ^ 32) (known : exists v p.id ≡ true)
      (newer : is_newer (v.heap p.id).note new.epoch ≡ true) where
    -- A write of the new note.
    noted :
        (st : PeerState)
        → StateSigned st
        → st.note ≡ some (note_of p new sign)
        → Next sv.sha256 0 v (write v p st)
    unfolding Note.is_more_recent
    noted st signed same = Next-write sv.sha256 v inv p st signed (λ h e. cc) λ h. ground arith

    accept_note-Next : Safe sv.sha256 v (accept_note sv v p new.mask new.epoch sign)
    unfolding accept_note
    accept_note-Next =
        let st = add_note p (v.heap p.id) new.mask new.epoch sign.r sign.s in
        revive_after v (write v p st) p
          (noted st
            (add_note-Signed (v.heap p.id) (inv.signed p.id) p new.mask new.epoch sign.r sign.s)
            (add_note_newer p (v.heap p.id) new sign newer))
          refl few known

    rebuttal_note-Next :
        (l : List Accusation) → Safe sv.sha256 v (rebuttal_note sv v p l new.mask new.epoch sign)
    unfolding rebuttal_note reset_ping delete_timeout
    rebuttal_note-Next l =
        let st = rebut_all new.epoch l (v.heap p.id) in
        let st1 = add_note p st new.mask new.epoch sign.r sign.s in
        let signed : StateSigned st1 =
          add_note-Signed st (rebut_all-Signed new.epoch l (v.heap p.id) (inv.signed p.id)) p
            new.mask new.epoch sign.r sign.s in
        let same : st1.note ≡ some (note_of p new sign) =
          add_note_newer p st new sign (rw (rebut_all_note new.epoch l (v.heap p.id)) newer) in
        elim (Bool-cases (is_accused st1)) [
          | inl accused ↦ (write v p st1, rw (rebuttal_note, accused) refl, noted st1 signed same)
          | inr cleared ↦
              let v1 = write v p (reset_ping st1) in
              let first : Next sv.sha256 0 v v1 = noted (reset_ping st1) signed same in
              elim (Bool-cases (has_timer v1 p.id)) [
                | inl on ↦
                    let w = delete_timeout v1 p.id in
                    let second : Next sv.sha256 0 v1 w =
                      Next-rest sv.sha256 v1 first.inv w
                        (record { self = refl; rings = refl; live_map = refl }) refl refl in
                    let (v', q, next) =
                      revive_after v w p (Next-trans sv.sha256 0 0 v v1 w first second) refl few
                        known in
                    (v', rw (rebuttal_note, cleared, on) q, next)
                | inr off ↦
                    let (v', q, next) = revive_after v v1 p first refl few known in
                    (v', rw (rebuttal_note, cleared, off) q, next)
              ]
        ]

  abbrev SafeNote : View → Option (View × Option NodeError) → Type 0
  SafeNote v result =
      (v' : View) × (e : Option NodeError) × (result ≡ some (v', e)) × Next sv.sha256 0 v v'

  take_note-Next :
      (v : View) (p : PeerRef) (new : PbNote) (sign : Signature) (bytes : Bytes)
      → ViewInv sv.sha256 v
      → length v.view_map + 2 < 2 ^ 32
      → exists v p.id ≡ true
      → is_newer (v.heap p.id).note new.epoch ≡ true
      → SafeNote v (take_note sv v p new sign bytes)
  unfolding take_note
  take_note-Next v p new sign bytes inv few known newer =
      elim (Bool-cases (sv.verify bytes sign.r sign.s p.public_key)) [
        | inr bad ↦ (v, some invalid_signature, rw (take_note, bad) refl, Next-same sv.sha256 v inv)
        | inl good ↦ go good (all_accusations (v.heap p.id)) refl
      ]
    where
      go :
          sv.verify bytes sign.r sign.s p.public_key ≡ true
          → (l : List Accusation) → all_accusations (v.heap p.id) ≡ l
          → SafeNote v (take_note sv v p new sign bytes)
      go good [] e =
          let (v', q, next) = accept_note-Next v p new sign inv few known newer in
          (v', none, rw (take_note, good, e, q) refl, next)
      go good (a ∷ rest) e =
          let (v', q, next) = rebuttal_note-Next v p new sign inv few known newer (a ∷ rest) in
          (v', none, rw (take_note, good, e, q) refl, next)

  eval_from-Next :
      (v : View) (p : PeerRef) (new : PbNote) (sign : Signature)
      → ViewInv sv.sha256 v
      → length v.view_map + 2 < 2 ^ 32
      → exists v p.id ≡ true
      → SafeNote v (eval_from sv v p new sign)
  unfolding eval_from
  eval_from-Next v p new sign inv few known =
      elim (Bool-cases (is_newer (v.heap p.id).note new.epoch)) [
        | inr old ↦ (v, some old_note, rw (eval_from, old) refl, Next-same sv.sha256 v inv)
        | inl newer ↦ elim (Bool-cases (View.view_valid_mask v new.mask)) [
          | inr bad ↦
              (v, some invalid_mask, rw (eval_from, newer, bad) refl, Next-same sv.sha256 v inv)
          | inl good ↦ elim (Option-cases (sv.marshal_note (record new { signature = none }))) [
            | inl e ↦ (
              v,
              some marshal_failed,
              rw (eval_from, newer, good, e) refl,
              Next-same sv.sha256 v inv,
            )
            | inr (bytes, e) ↦
                let (v', x, q, next) = take_note-Next v p new sign bytes inv few known newer in
                (v', x, rw (eval_from, newer, good, e) q, next)
          ]
        ]
      ]

  opened :
      (v : View) (p : PeerRef) (new : PbNote) (sign : Signature)
      → new.signature ≡ some sign
      → View.peer v new.id ≡ some p
      → eval_note sv v (some new) ≡ eval_from sv v p new sign
  unfolding eval_note
  opened v p new sign e e1 = ground arith

  -- `evalNote` of any message does not panic.
  pub eval_note-Next :
      (v : View) (new : Option PbNote)
      → ViewInv sv.sha256 v
      → length v.view_map + 2 < 2 ^ 32
      → SafeNote v (eval_note sv v new)
  unfolding eval_note
  eval_note-Next v none inv few = (v, some invalid_signature, refl, Next-same sv.sha256 v inv)
  eval_note-Next v (some new) inv few = elim (Option-cases new.signature) [
    | inl e ↦ (v, some invalid_signature, rw (eval_note, e) refl, Next-same sv.sha256 v inv)
    | inr (sign, e) ↦ elim (Option-cases (View.peer v new.id)) [
      | inl e1 ↦ (v, some no_peer, rw (eval_note, e, e1) refl, Next-same sv.sha256 v inv)
      | inr (p, e1) ↦
          let (v', x, q, next) =
            eval_from-Next v p new sign inv few (exists-peer sv.sha256 v new.id p inv e1) in
          (v', x, opened v p new sign e e1 ∙ q, next)
    ]
  ]

  -- `mergeNotes` of any messages does not panic.
  pub merge_notes-Next :
      (v : View) (l : List PbNote)
      → ViewInv sv.sha256 v
      → length v.view_map + 2 < 2 ^ 32
      → Safe sv.sha256 v (merge_notes sv v l)
  unfolding merge_notes
  merge_notes-Next v [] inv few = (v, refl, Next-same sv.sha256 v inv)
  merge_notes-Next v (new ∷ rest) inv few = elim (Bool-cases (v.self.id =? new.id)) [
    | inl own ↦
        let (v', q, next) = merge_notes-Next v rest inv few in (v', rw (merge_notes, own) q, next)
    | inr other ↦
        let (v1, e, q1, first) = eval_note-Next v (some new) inv few in
        let (v2, q2, second) = merge_notes-Next v1 rest first.inv (omega (arith, first.few)) in
        (v2, rw (merge_notes, other, q1) q2, Next-trans sv.sha256 0 0 v v1 v2 first second)
  ]
