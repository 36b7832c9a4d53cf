-- ===== src/Core/Safety/Evaluation.antt =====
-- core/handlers.go: evalAccusation and mergeAccusations never panic and keep the invariant of a node.
use ifrit.Prelude.{
  ℕ, ◌≡◌, refl, sym, ap, ◌∙◌, not, ◌&&◌, Option, none, some, List, [], ◌∷◌, inl, inr, Bytes,
  bytes_eq, ◌=?◌, Bool-cases, Option-cases, arith, if◌then◌else◌,
}
use ifrit.Discovery.Types.{PeerRef}
use ifrit.Discovery.Note.{Note, PbNote, Signature}
use ifrit.Discovery.Note
use ifrit.Discovery.Accusation.{PbAccusation}
use ifrit.Discovery.Peer.{PeerState, add_accusation, ring_accusation}
use ifrit.Discovery.Peer.Signed.{add_accusation-Signed}
use ifrit.Discovery.Ring.Invariant.{IsCollisionFree}
use ifrit.Discovery.View.{View, is_alive, has_timer, start_timer}
use ifrit.Core.Node.{
  Services, Node, NodeError, acc_already_exists, disabled_ring, invalid_accuser, invalid_signature,
  invalid_self_accusation, invalid_epoch, marshal_failed,
}
use ifrit.Core.Notes.{write}
use ifrit.Core.Accusations.{
  ensure_timer, same_accusation, about_self, add_to_peer, about_peer, other_peer, eval_accusation,
}
use ifrit.Core.Merge.{merge_accusation, merge_accusations, who, has_note}
use ifrit.Core.Lifecycle.Contacts.{SameLive}
use ifrit.Core.Safety.Invariant.{ViewInv, Next, Next-same, Next-trans, epoch_of}
use ifrit.Core.Safety.Live.{Next-rest, Next-write}
use ifrit.Core.Safety.Accusations.{
  CanSign, valid_accuser_total, should_rebuttal-Next, rebuttal-Next, SafeNode,
}

-- StartTimer writes the timers only.
pub start_timer_rest :
    (now : ℕ) (v : View) (p : Option PeerRef) (n : Option Note) (o : Option PeerRef)
    → let w = (start_timer now v p n o).0 in
      SameLive v w × (w.view_map ≡ v.view_map) × (w.heap ≡ v.heap)
unfolding start_timer
start_timer_rest now v none n o =
    (record { self = refl; rings = refl; live_map = refl }, refl, refl)
start_timer_rest now v (some p) none o =
    (record { self = refl; rings = refl; live_map = refl }, refl, refl)
start_timer_rest now v (some p) (some n) none =
    (record { self = refl; rings = refl; live_map = refl }, refl, refl)
start_timer_rest now v (some p) (some n) (some o) = ground arith

add_accusation_note :
    (st : PeerState) (accused accuser : Bytes) (epoch ring_num : ℕ) (r s : Option Bytes)
    → (add_accusation st accused accuser epoch ring_num r s).0.note ≡ st.note
unfolding add_accusation
add_accusation_note st accused accuser epoch ring_num r s = ground arith

module _ (sha256 : Bytes → Bytes) where
  pub start_timer-Next :
      (now : ℕ) (v : View) (p : Option PeerRef) (n : Option Note) (o : Option PeerRef)
      → ViewInv sha256 v
      → Next sha256 0 v (start_timer now v p n o).0
  start_timer-Next now v p n o inv =
      let (rest, known, heap) = start_timer_rest now v p n o in
      Next-rest sha256 v inv (start_timer now v p n o).0 rest known heap

  ensure_timer-Next :
      (now : ℕ) (v : View) (p o : PeerRef)
      → ViewInv sha256 v
      → Next sha256 0 v (ensure_timer now v p o)
  ensure_timer-Next now v p o inv = elim (Bool-cases (not (has_timer v p.id) && is_alive v p.id)) [
    | inl fresh ↦ rw fresh (start_timer-Next now v (some p) (v.heap p.id).note (some o) inv)
    | inr stay ↦ rw stay (Next-same sha256 v inv)
  ]

module _ (sv : Services) (free : IsCollisionFree sv.sha256) (can : CanSign sv) (now : ℕ) where
  about_self-Next :
      (n : Node) (a : PbAccusation) (sign : Signature) (bytes : Bytes) (accuser : PeerRef)
      → ViewInv sv.sha256 n.view
      → SafeNode sv free can n (about_self sv now n a sign bytes accuser)
  unfolding about_self
  about_self-Next n a sign bytes accuser inv =
      let (prev, q) = valid_accuser_total sv free can n.view n.view.self accuser a.ring_num inv in
      elim (Bool-cases prev) [
        | inr refused ↦ (
          n,
          some invalid_accuser,
          rw (about_self, q, refused) refl,
          Next-same sv.sha256 n.view inv,
        )
        | inl valid_here ↦ elim (Bool-cases (sv.verify bytes sign.r sign.s accuser.public_key)) [
          | inr bad ↦ (
            n,
            some invalid_signature,
            rw (about_self, q, valid_here, bad) refl,
            Next-same sv.sha256 n.view inv,
          )
          | inl good ↦
              let (v, rebut, q1, first) =
                should_rebuttal-Next sv free can n.view a.epoch a.ring_num inv in
              elim (Bool-cases rebut) [
                | inr off ↦ (
                  record n { view = v },
                  some invalid_self_accusation,
                  rw (about_self, q, valid_here, good, q1, off) refl,
                  first,
                )
                | inl on ↦
                    let (n', q2, second) =
                      rebuttal-Next sv free can (record n { view = v }) first.inv in
                    (
                      n',
                      none,
                      rw (about_self, q, valid_here, good, q1, on, q2) refl,
                      Next-trans sv.sha256 0 0 n.view v n'.view first second,
                    )
              ]
        ]
      ]

  add_to_peer-Next :
      (v : View) (a : PbAccusation) (sign : Signature) (accuser p : PeerRef)
      → ViewInv sv.sha256 v
      → Next sv.sha256 0 v (add_to_peer sv now v a sign accuser p).0
  unfolding add_to_peer
  add_to_peer-Next v a sign accuser p inv =
      let result = add_accusation (v.heap p.id) p.id accuser.id a.epoch a.ring_num sign.r sign.s in
      let same =
        add_accusation_note (v.heap p.id) p.id accuser.id a.epoch a.ring_num sign.r sign.s in
      let first : Next sv.sha256 0 v (write v p result.0) =
        Next-write sv.sha256 v inv p result.0
          (add_accusation-Signed (v.heap p.id) (inv.signed p.id) p.id accuser.id a.epoch a.ring_num
            sign.r sign.s)
          (λ h e. h (sym same ∙ e)) (λ h. omega (arith, ap epoch_of same)) in
      elim (Option-cases result.1) [
        | inr (x, e) ↦ rw (add_to_peer, e) first
        | inl e ↦
            let w = write v p result.0 in
            let second = ensure_timer-Next sv.sha256 now w p accuser first.inv in
            rw (add_to_peer, e)
              (Next-trans sv.sha256 0 0 v w (ensure_timer now w p accuser) first second)
      ]

  abbrev SafeNote : View → Option (View × Option NodeError) → Type 0
  SafeNote v result =
      (v' : View) × (e : Option NodeError) × (result ≡ some (v', e)) × Next sv.sha256 0 v v'

  about_peer-Next :
      (v : View) (a : PbAccusation) (sign : Signature) (bytes : Bytes) (accuser p : PeerRef)
      (note : Note)
      → ViewInv sv.sha256 v
      → SafeNote v (about_peer sv now v a sign bytes accuser p note)
  unfolding about_peer
  about_peer-Next v a sign bytes accuser p note inv =
      elim (Bool-cases (Note.is_ring_disabled note a.ring_num v.rings.num_rings)) [
        | inl off ↦ (v, some disabled_ring, rw (about_peer, off) refl, Next-same sv.sha256 v inv)
        | inr on ↦
            let (valid, q) = valid_accuser_total sv free can v p accuser a.ring_num inv in
            elim (Bool-cases valid) [
              | inr refused ↦ (
                v,
                some invalid_accuser,
                rw (about_peer, on, q, refused) refl,
                Next-same sv.sha256 v inv,
              )
              | inl valid_here ↦
                  elim (Bool-cases (sv.verify bytes sign.r sign.s accuser.public_key)) [
                    | inr bad ↦ (
                      v,
                      some invalid_signature,
                      rw (about_peer, on, q, valid_here, bad) refl,
                      Next-same sv.sha256 v inv,
                    )
                    | inl good ↦
                        let result = add_to_peer sv now v a sign accuser p in
                        (
                          result.0,
                          result.1,
                          rw (about_peer, on, q, valid_here, good) refl,
                          add_to_peer-Next v a sign accuser p inv,
                        )
                  ]
            ]
      ]

  other_peer-Next :
      (n : Node) (a : PbAccusation) (sign : Signature) (bytes : Bytes) (accuser p : PeerRef)
      → ViewInv sv.sha256 n.view
      → SafeNode sv free can n (other_peer sv now n a sign bytes accuser p)
  unfolding other_peer
  other_peer-Next n a sign bytes accuser p inv =
      let stored = ring_accusation (n.view.heap p.id) a.ring_num in
      elim (Bool-cases (same_accusation stored p.id accuser.id a.ring_num a.epoch)) [
        | inl again ↦ (
          record n { view = ensure_timer now n.view p accuser },
          some acc_already_exists,
          rw (other_peer, again) refl,
          ensure_timer-Next sv.sha256 now n.view p accuser inv,
        )
        | inr new ↦ elim (Option-cases (n.view.heap p.id).note) [
          | inl e ↦
              (n, some invalid_epoch, rw (other_peer, new, e) refl, Next-same sv.sha256 n.view inv)
          | inr (note, e) ↦ elim (Bool-cases (Note.equal note a.epoch)) [
            | inr other ↦ (
              n,
              some invalid_epoch,
              rw (other_peer, new, e, other) refl,
              Next-same sv.sha256 n.view inv,
            )
            | inl same ↦
                let (v, x, q, next) = about_peer-Next n.view a sign bytes accuser p note inv in
                (record n { view = v }, x, rw (other_peer, new, e, same, q) refl, next)
          ]
        ]
      ]

  opened :
      (n : Node) (a : PbAccusation) (sign : Signature) (bytes : Bytes) (accuser p : PeerRef)
      → a.signature ≡ some sign
      → sv.marshal_accusation (record a { signature = none }) ≡ some bytes
      → eval_accusation sv now n a accuser p ≡ (
          if n.view.self.id =? p.id
          then about_self sv now n a sign bytes accuser
          else other_peer sv now n a sign bytes accuser p)
  unfolding eval_accusation
  opened n a sign bytes accuser p signed marshalled = ground arith

  -- `evalAccusation` of any accusation does not panic.
  pub eval_accusation-Next :
      (n : Node) (a : PbAccusation) (accuser p : PeerRef)
      → ViewInv sv.sha256 n.view
      → SafeNode sv free can n (eval_accusation sv now n a accuser p)
  unfolding eval_accusation
  eval_accusation-Next n a accuser p inv = elim (Option-cases a.signature) [
    | inl e ↦ (n, some invalid_signature, ground arith, Next-same sv.sha256 n.view inv)
    | inr (sign, e) ↦ elim (Option-cases (sv.marshal_accusation (record a { signature = none }))) [
      | inl e1 ↦ (n, some marshal_failed, ground arith, Next-same sv.sha256 n.view inv)
      | inr (bytes, e1) ↦ elim (Bool-cases (n.view.self.id =? p.id)) [
        | inl own ↦
            let (n', x, q, next) = about_self-Next n a sign bytes accuser inv in
            (n', x, opened n a sign bytes accuser p e e1 ∙ rw own q, next)
        | inr other ↦
            let (n', x, q, next) = other_peer-Next n a sign bytes accuser p inv in
            (n', x, opened n a sign bytes accuser p e e1 ∙ rw other q, next)
      ]
    ]
  ]

  merge_accusation-Next :
      (n : Node) (acc : PbAccusation)
      → ViewInv sv.sha256 n.view
      → (n' : Node) × (merge_accusation sv now n acc ≡ some n') × Next sv.sha256 0 n.view n'.view
  unfolding merge_accusation
  merge_accusation-Next n acc inv = elim (Option-cases (who sv now n.view acc.accuser)) [
    | inl e ↦ (n, rw (merge_accusation, e) refl, Next-same sv.sha256 n.view inv)
    | inr (accuser, e) ↦ elim (Option-cases (who sv now n.view acc.accused)) [
      | inl e1 ↦ (n, rw (merge_accusation, e, e1) refl, Next-same sv.sha256 n.view inv)
      | inr (accused, e1) ↦
          elim (Bool-cases
            (not (n.view.self.id =? acc.accused) && not (has_note sv now n.view accused))) [
              | inl silent ↦
                  (n, rw (merge_accusation, e, e1, silent) refl, Next-same sv.sha256 n.view inv)
              | inr heard ↦
                  let (n', x, q, next) = eval_accusation-Next n acc accuser accused inv in
                  (n', rw (merge_accusation, e, e1, heard, q) refl, next)
            ]
    ]
  ]

  -- `mergeAccusations` of any messages does not panic.
  pub merge_accusations-Next :
      (n : Node) (l : List PbAccusation)
      → ViewInv sv.sha256 n.view
      → (n' : Node) × (merge_accusations sv now n l ≡ some n') × Next sv.sha256 0 n.view n'.view
  unfolding merge_accusations
  merge_accusations-Next n [] inv = (n, refl, Next-same sv.sha256 n.view inv)
  merge_accusations-Next n (acc ∷ rest) inv =
      let (n1, q1, first) = merge_accusation-Next n acc inv in
      let (n2, q2, second) = merge_accusations-Next n1 rest first.inv in
      (n2, rw (q1, q2) refl, Next-trans sv.sha256 0 0 n.view n1.view n2.view first second)
