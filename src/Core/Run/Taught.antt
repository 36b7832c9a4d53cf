-- ===== src/Core/Run/Taught.antt =====
-- core/handlers.go and core/protocol.go: a peer that one node knows becomes known to a node that
-- it answers.
use ifrit.Prelude.{
  ℕ, ◌+◌, ◌^◌, ◌<◌, ◌≡◌, refl, true, false, none, some, List, [], ◌∷◌, Bytes, bytes_eq, ◌=?◌,
  length, arith,
}
use ifrit.Prelude.GoMap.{lookup}
use ifrit.Discovery.Types.{Certificate, PeerRef}
use ifrit.Discovery.Ring.Invariant.{IsCollisionFree}
use ifrit.Discovery.View.{View, exists, peer}
use ifrit.Core.Node.{Services, Node, StateResponse}
use ifrit.Core.Merge.{merge_views, merge_certificates}
use ifrit.Core.Merge.Learned.{acceptable, merge_certificates-exists}
use ifrit.Core.Merge.Told.{merge_views-adds, merge_views-few}
use ifrit.Core.Spread.{gossip_loop, empty_reply}
use ifrit.Core.Safety.Invariant.{ViewInv}
use ifrit.Core.Safety.Accusations.{CanSign}
use ifrit.Core.Safety.Replies.{merge_views-some}
use ifrit.Core.Safety.Rounds.{reply-Next}

-- A node with a view `v` that is asked with the list `given`, which lacks its peer `p`, has an
-- answer, and a node that handles this answer in a round of gossip knows the peer afterwards, when
-- the certificate that is parsed from the bytes of the peer is one that it takes: not its own, with
-- an id of 32 bytes, signed by its authority, or by its own key when there is none, and with the
-- fields that newPeer wants. The views of both nodes have their invariants, the hash has no
-- collisions, notes and accusations can be marshalled and signed, and the ids known to both fit the
-- limit of a ring.
pub gossip_teaches :
    (sv : Services) (now : ℕ) (n : Node) (v : View) (given : List (Bytes × ℕ)) (p : PeerRef)
    (c : Certificate)
    → IsCollisionFree sv.sha256
    → CanSign sv
    → ViewInv sv.sha256 n.view
    → ViewInv sv.sha256 v
    → length n.view.view_map + length v.view_map + 2 < 2 ^ 32
    → peer v p.id ≡ some p
    → lookup p.id given ≡ none
    → sv.parse_certificate p.cert.raw ≡ some c
    → (n.view.self.id =? c.subject_key_id) ≡ false
    → acceptable sv n.ca_certificate n.view.rings.num_rings c ≡ true
    → (reply : StateResponse) × (n' : Node) × (merge_views v given empty_reply ≡ some reply)
      × (gossip_loop sv now n (some reply ∷ []) ≡ some n')
      × (exists n'.view c.subject_key_id ≡ true)
unfolding gossip_loop
gossip_teaches sv now n v given p c free can inv inv_v few at new parsed other ok =
    let (reply, q) = merge_views-some sv free can v given empty_reply inv_v in
    let told = merge_views-adds v given empty_reply reply p q at new in
    let little = merge_views-few v given empty_reply reply q in
    let n1 = merge_certificates sv n reply.certificates in
    let (v2, n3, q2, q3, next, later) =
      reply-Next sv free can now n reply inv (omega (arith, little)) in
    let known =
      merge_certificates-exists sv n reply.certificates p.cert.raw c told parsed other ok in
    (reply, n3, q, rw (q2, q3) refl, later.kept c.subject_key_id known)
