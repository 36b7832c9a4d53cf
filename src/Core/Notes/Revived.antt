-- ===== src/Core/Notes/Revived.antt =====
-- Which peers are alive after `evalNote` of core/handlers.go, and which timers are gone.
use ifrit.Prelude.{
  Bool, ◌&&◌, ℕ, ◌≡◌, refl, ap, ◌∙◌, true, false, Option, none, some, List, [], ◌∷◌, inl, inr,
  arith, Bytes, bytes_eq, =?_iff, if◌then◌else◌, Bool-cases, Option-cases, if-true, if-false,
}
use ifrit.Prelude.GoMap
use ifrit.Prelude.GoMap.{lookup, has-lookup, has-insert, has-delete}
use ifrit.Discovery.Types.{PeerRef}
use ifrit.Discovery.Note.{PbNote, Signature}
use ifrit.Discovery.Accusation.{Accusation}
use ifrit.Discovery.Peer.{
  PeerState, add_note, all_accusations, is_accused, reset_ping, any_present, present,
}
use ifrit.Discovery.Rings
use ifrit.Discovery.View.{View, add_live, is_alive, has_timer, delete_timeout}
use ifrit.Discovery.View
use ifrit.Core.Node.{Services}
use ifrit.Core.Notes.{
  write, rebut_all, revive, accept_note, rebuttal_note, take_note, eval_from, eval_note,
}

-- The peer is alive, and the timers are the same.
abbrev pub Alive : View → PeerRef → View → Type 0
Alive v p v' = (is_alive v' p.id ≡ true) × (v'.timeout_map ≡ v.timeout_map)

revive-Alive : (sv : Services) (v v' : View) (p : PeerRef) → revive sv v p ≡ some v' → Alive v p v'
unfolding revive add_live is_alive
revive-Alive sv v v' p h = elim (Bool-cases (GoMap.has p.id v.live_map)) [
  | inl here ↦ let same : v ≡ v' = ground arith in (ground arith, ground arith)
  | inr away ↦ elim (Option-cases (Rings.add sv.sha256 v.rings p v.heap)) [
    | inl e ↦ absurd (ground arith)
    | inr ((rs, heap, old), e) ↦
        (ground (arith, has-insert p.id p.id p v.live_map, =?_iff p.id p.id), ground arith)
  ]
]

accused_now : (st : PeerState) → all_accusations st ≡ [] → is_accused st ≡ false
unfolding all_accusations present is_accused any_present
accused_now st h = go st.accusations h
  where
    go : (m : List (ℕ × Option Accusation)) → present m ≡ [] → any_present m ≡ false
    go [] q = refl
    go ((k, none) ∷ m) q = go m q
    go ((k, some a) ∷ m) q = ground arith

-- The peer is alive, and has no timer when it was accused.
abbrev pub Revived : View → PeerRef → View → Type 0
Revived v p v' =
    (is_alive v' p.id ≡ true) × ((is_accused (v.heap p.id) && has_timer v' p.id) ≡ false)

none_left : (a b : Bool) → b ≡ false → (a && b) ≡ false
none_left a b h = ground arith

no_timer :
    (v : View) (p : PeerRef)
    → has_timer (if has_timer v p.id then delete_timeout v p.id else v) p.id ≡ false
unfolding has_timer delete_timeout
no_timer v p = elim (Bool-cases (GoMap.has p.id v.timeout_map)) [
  | inl on ↦ rw on (ground (arith, has-delete p.id p.id v.timeout_map, =?_iff p.id p.id))
  | inr off ↦ rw off off
]

module _ (sv : Services) (v v' : View) (p : PeerRef) (new : PbNote) (sign : Signature) where
  rebuttal_note-Revived :
      (l : List Accusation)
      → rebuttal_note sv v p l new.mask new.epoch sign ≡ some v'
      → is_accused (v'.heap p.id) ≡ false
      → Revived v p v'
  unfolding rebuttal_note has_timer
  rebuttal_note-Revived l h clear =
      let st = rebut_all new.epoch l (v.heap p.id) in
      let st1 = add_note p st new.mask new.epoch sign.r sign.s in
      let v1 = write v p (reset_ping st1) in
      let w = if has_timer v1 p.id then delete_timeout v1 p.id else v1 in
      elim (Bool-cases (is_accused st1)) [
        | inl accused ↦
            let same : some (write v p st1) ≡ some v' =
              if-true (some (write v p st1)) (revive sv w p) accused h in
            absurd (ground (arith, same, =?_iff p.id p.id))
        | inr cleared ↦
            let (alive, timers) =
              revive-Alive sv w v' p (if-false (some (write v p st1)) (revive sv w p) cleared h) in
            (
              alive,
              none_left (is_accused (v.heap p.id)) (has_timer v' p.id)
                  (ap (GoMap.has p.id) timers ∙ no_timer v1 p),
            )
      ]

  take_note-Revived :
      (bytes : Bytes)
      → take_note sv v p new sign bytes ≡ some (v', none)
      → is_accused (v'.heap p.id) ≡ false
      → Revived v p v'
  unfolding take_note accept_note
  take_note-Revived bytes h clear = go (all_accusations (v.heap p.id)) refl
    where
      go : (l : List Accusation) → all_accusations (v.heap p.id) ≡ l → Revived v p v'
      go [] e = elim (Option-cases (accept_note sv v p new.mask new.epoch sign)) [
        | inl n ↦ absurd (ground arith)
        | inr (w, q) ↦
            let same : some w ≡ some v' = ground arith in
            let st = add_note p (v.heap p.id) new.mask new.epoch sign.r sign.s in
            (
              (revive-Alive sv (write v p st) v' p (q ∙ same)).0,
              rw (accused_now (v.heap p.id) e) refl,
            )
      ]
      go (a ∷ rest) e =
          elim (Option-cases (rebuttal_note sv v p (a ∷ rest) new.mask new.epoch sign)) [
            | inl n ↦ absurd (ground arith)
            | inr (w, q) ↦
                let same : some w ≡ some v' = ground arith in
                rebuttal_note-Revived (a ∷ rest) (q ∙ same) clear
          ]

-- When `evalNote` takes a note of the peer `p` without an error, and `p` is not accused afterwards,
-- then `p` is alive, whether it was before or not; and when it was accused before, it has no timer
-- any more.
pub eval_note-Revived :
    (sv : Services) (v v' : View) (p : PeerRef) (new : PbNote) (sign : Signature)
    → View.peer v new.id ≡ some p
    → new.signature ≡ some sign
    → eval_note sv v (some new) ≡ some (v', none)
    → is_accused (v'.heap p.id) ≡ false
    → Revived v p v'
unfolding eval_note eval_from
eval_note-Revived sv v v' p new sign found signed h clear =
    elim (Option-cases (sv.marshal_note (record new { signature = none }))) [
      | inl e ↦ absurd (ground arith)
      | inr (bytes, e) ↦
          let taken : take_note sv v p new sign bytes ≡ some (v', none) = ground arith in
          take_note-Revived sv v v' p new sign bytes taken clear
    ]
