-- ===== src/Core/Safety/Accusations.antt =====
-- core/handlers.go: evalAccusation and mergeAccusations never panic and keep the invariant of a node,
-- with Rebuttal of core/protocol.go.
use ifrit.Prelude.{
  ℕ, ◌+◌, ◌%◌, ◌^◌, ◌≡◌, ◌≢◌, refl, subst, Bool, true, false, Option, none, some, List, inl, inr,
  Bytes, bytes_eq, Bool-cases, Option-cases, arith,
}
use ifrit.Prelude.GoMap
use ifrit.Discovery.Types.{PeerRef}
use ifrit.Discovery.Note.{Note, PbNote, Signature}
use ifrit.Discovery.Note
use ifrit.Discovery.Peer.Signed.{NoteSigned, to_pb_msg-some}
use ifrit.Discovery.Ring.Invariant.{IsCollisionFree}
use ifrit.Discovery.Rings.Total.{is_predecessor_total, my_ring_neighbours_total}
use ifrit.Discovery.View.{
  View, valid_accuser, deactivate_ring, should_rebuttal, signed, gossip_partners,
  increment_gossip_ring, or_mask,
}
use ifrit.Core.Node.{Services, Node, NodeError, PbState}
use ifrit.Core.Notes.{write}
use ifrit.Core.Accusations.{send_all, rebuttal}
use ifrit.Core.Lifecycle.Contacts.{SameLive}
use ifrit.Core.Safety.Invariant.{ViewInv, Next, Next-same, Next-trans}
use ifrit.Core.Safety.Live.{Next-rest, Next-write}

-- Notes can be marshalled and signed.
pub record CanSign (sv : Services) : Type 0 where
  pub marshals : (n : PbNote) → sv.marshal_note n ≢ none
  pub signs : (b : Bytes) → sv.sign b ≢ none

-- Only the count of the disabled rings may change.
deactivate_ring_rest :
    (v : View) (mask k : ℕ)
    → let w = (deactivate_ring v mask k).0 in
      SameLive v w × (w.view_map ≡ v.view_map) × (w.heap ≡ v.heap)
unfolding deactivate_ring
deactivate_ring_rest v mask k = ground arith

signed-some :
    (sv : Services) (n : Note)
    → CanSign sv
    → (n' : Note) × (signed sv.marshal_note sv.sign n ≡ some n') × NoteSigned (some n')
unfolding signed
signed-some sv n can =
    let msg : PbNote = record { epoch = n.epoch; id = n.id; mask = n.mask; signature = none } in
    elim (Option-cases (sv.marshal_note msg)) [
      | inl e ↦ absurd (can.marshals msg e)
      | inr (b, e) ↦ elim (Option-cases (sv.sign b)) [
        | inl e1 ↦ absurd (can.signs b e1)
        | inr ((r, s), e1) ↦ (
          record n { signature = some (record { r = some r; s = some s }) },
          rw (signed, e, e1) refl,
          λ h. cc,
        )
      ]
    ]

module _ (sv : Services) (free : IsCollisionFree sv.sha256) (can : CanSign sv) where
  pub valid_accuser_total :
      (v : View) (accused accuser : PeerRef) (ring_num : ℕ)
      → ViewInv sv.sha256 v
      → (b : Bool) × (valid_accuser sv.sha256 v accused accuser ring_num ≡ some b)
  unfolding valid_accuser
  valid_accuser_total v accused accuser ring_num inv =
      is_predecessor_total sv.sha256 v.self.id (λ id. GoMap.has id v.live_map) v.rings
        inv.live.agree accused accuser ring_num free

  own_note : (v : View) → ViewInv sv.sha256 v → (own : Note) × ((v.heap v.self.id).note ≡ some own)
  own_note v inv = elim (Option-cases (v.heap v.self.id).note) [
    | inl e ↦ absurd (inv.own e)
    | inr x ↦ x
  ]

  pub own_msg :
      (v : View)
      → ViewInv sv.sha256 v
      → (own : Note) × (m : PbNote) × ((v.heap v.self.id).note ≡ some own)
        × (Note.to_pb_msg own ≡ some m)
  own_msg v inv =
      let (own, e) = own_note v inv in
      let ok : NoteSigned (some own) = subst NoteSigned e (inv.signed v.self.id).0 in
      let (m, q) = to_pb_msg-some own ok in (own, m, e, q)

  pub gossip_partners-Next :
      (v : View)
      → ViewInv sv.sha256 v
      → (l : List PeerRef) × (v' : View) × (gossip_partners v ≡ some (l, v'))
        × Next sv.sha256 0 v v'
  unfolding gossip_partners increment_gossip_ring
  gossip_partners-Next v inv =
      let (l, q) =
        my_ring_neighbours_total sv.sha256 v.self.id (λ id. GoMap.has id v.live_map) v.rings
          inv.live.agree v.curr_gossip_ring in
      let v' = increment_gossip_ring v in
      (
        l,
        v',
        rw (gossip_partners, q) refl,
        Next-rest sv.sha256 v inv v' (record { self = refl; rings = refl; live_map = refl }) refl
            refl,
      )

  abbrev SafeView : View → Option (View × Bool) → Type 0
  SafeView v result = (v' : View) × (b : Bool) × (result ≡ some (v', b)) × Next sv.sha256 0 v v'

  pub should_rebuttal-Next :
      (v : View) (epoch ring_num : ℕ)
      → ViewInv sv.sha256 v
      → SafeView v (should_rebuttal sv.marshal_note sv.sign v epoch ring_num)
  unfolding should_rebuttal
  should_rebuttal-Next v epoch ring_num inv =
      let (own, e) = own_note v inv in
      elim (Bool-cases (Note.equal own epoch)) [
        | inr other ↦ (v, false, rw (should_rebuttal, e, other) refl, Next-same sv.sha256 v inv)
        | inl same ↦
            let (rest, known, heap) = deactivate_ring_rest v own.mask ring_num in
            let w = (deactivate_ring v own.mask ring_num).0 in
            let first : Next sv.sha256 0 v w = Next-rest sv.sha256 v inv w rest known heap in
            let plain : Note = record {
              epoch = (own.epoch + 1) % 2 ^ 64;
              mask =
                  or_mask sv.marshal_note sv.sign (deactivate_ring v own.mask ring_num).1 own.mask;
              id = v.self.id;
              signature = none;
            } in
            let (new, q, ok) = signed-some sv plain can in
            let st = record (w.heap w.self.id) { note = some new } in
            let second : Next sv.sha256 0 w (write w w.self st) =
              Next-write sv.sha256 w first.inv w.self st (ok, (first.inv.signed w.self.id).1)
                (λ h e1. cc) (λ h. cc) in
            (
              write w w.self st,
              true,
              rw (should_rebuttal, e, same, q) refl,
              Next-trans sv.sha256 0 0 v w (write w w.self st) first second,
            )
      ]

  -- What an operation on accusations gives: a node, and perhaps an error.
  abbrev pub SafeNode : Node → Option (Node × Option NodeError) → Type 0
  SafeNode n result =
      (n' : Node) × (e : Option NodeError) × (result ≡ some (n', e))
      × Next sv.sha256 0 n.view n'.view

  pub rebuttal-Next :
      (n : Node)
      → ViewInv sv.sha256 n.view
      → (n' : Node) × (rebuttal n ≡ some n') × Next sv.sha256 0 n.view n'.view
  unfolding rebuttal
  rebuttal-Next n inv =
      let (l, v, q, next) = gossip_partners-Next n.view inv in
      let (own, m, e, q1) = own_msg v next.inv in
      let msg : PbState = record {
        existing_hosts = none;
        own_note = some m;
        external_gossip = none;
      } in
      (record n { view = v; sent = send_all msg l n.sent }, rw (rebuttal, q, e, q1) refl, next)
