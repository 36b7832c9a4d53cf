-- ===== src/Core/Safety/Rounds.antt =====
-- core/protocol.go and core/node.go: the rounds of Gossip and the entry addresses of Start never panic.
use ifrit.Prelude.{
  ℕ, ◌+◌, ◌^◌, ◌<◌, ◌≡◌, refl, ◌∙◌, Option, none, some, List, [], ◌∷◌, inl, inr, Bytes, bytes_eq,
  length, Option-cases, arith,
}
use ifrit.Discovery.Ring.Invariant.{IsCollisionFree}
use ifrit.Discovery.View.{View}
use ifrit.Core.Node.{Services, Node, StateResponse, PbState}
use ifrit.Core.Merge.{collect_gossip_content, merge_certificates, merge_notes, merge_accusations}
use ifrit.Core.Spread.{gossip, gossip_loop, sends}
use ifrit.Core.Run.{certificates_in}
use ifrit.Core.Lifecycle.{contact_hosts, start, send_state}
use ifrit.Core.Safety.Invariant.{ViewInv, Next, Next-same, Next-trans, Next-more}
use ifrit.Core.Safety.Notes.{merge_notes-Next}
use ifrit.Core.Safety.Certificates.{merge_certificates-Next}
use ifrit.Core.Safety.Accusations.{CanSign, gossip_partners-Next}
use ifrit.Core.Safety.Evaluation.{merge_accusations-Next}
use ifrit.Core.Safety.Replies.{collect_gossip_content-some}

abbrev pub SafeRound : Services → ℕ → Node → Option Node → Type 0
SafeRound sv c n result = (n' : Node) × (result ≡ some n') × Next sv.sha256 c n.view n'.view

module _ (sv : Services) (free : IsCollisionFree sv.sha256) (can : CanSign sv) (now : ℕ) where
  -- What a node does with one reply.
  pub reply-Next :
      (n : Node) (reply : StateResponse)
      → ViewInv sv.sha256 n.view
      → length n.view.view_map + length reply.certificates + 2 < 2 ^ 32
      → let n1 = merge_certificates sv n reply.certificates in
        (v2 : View) × (n3 : Node) × (merge_notes sv n1.view reply.notes ≡ some v2)
        × (merge_accusations sv now (record n1 { view = v2 }) reply.accusations ≡ some n3)
        × Next sv.sha256 (length reply.certificates) n.view n3.view
        × Next sv.sha256 0 n1.view n3.view
  reply-Next n reply inv few =
      let c = length reply.certificates in
      let n1 = merge_certificates sv n reply.certificates in
      let first = merge_certificates-Next sv n reply.certificates inv in
      let (v2, q2, second) =
        merge_notes-Next sv free n1.view reply.notes first.inv (omega (arith, first.few)) in
      let (n3, q3, third) =
        merge_accusations-Next sv free can now (record n1 { view = v2 }) reply.accusations
          second.inv in
      let early : Next sv.sha256 (c + 0) n.view v2 =
        Next-trans sv.sha256 c 0 n.view n1.view v2 first second in
      (
        v2,
        n3,
        q2,
        q3,
        Next-more sv.sha256 (c + 0 + 0) c n.view n3.view (omega arith)
            (Next-trans sv.sha256 (c + 0) 0 n.view v2 n3.view early third),
        Next-trans sv.sha256 0 0 n1.view v2 n3.view second third,
      )

  gossip_loop-Next :
      (n : Node) (l : List (Option StateResponse))
      → ViewInv sv.sha256 n.view
      → length n.view.view_map + certificates_in l + 2 < 2 ^ 32
      → SafeRound sv (certificates_in l) n (gossip_loop sv now n l)
  unfolding gossip_loop
  gossip_loop-Next n [] inv few = (n, refl, Next-same sv.sha256 n.view inv)
  gossip_loop-Next n (none ∷ rest) inv few = gossip_loop-Next n rest inv few
  gossip_loop-Next n (some reply ∷ rest) inv few =
      let c = length reply.certificates in
      let (v2, n3, q2, q3, first, later) = reply-Next n reply inv (omega arith) in
      let (n4, q4, second) = gossip_loop-Next n3 rest first.inv (omega (arith, first.few)) in
      (
        n4,
        rw (q2, q3) q4,
        Next-trans sv.sha256 c (certificates_in rest) n.view n3.view n4.view first second,
      )

  -- A round of `Gossip`, with any replies.
  pub gossip-Next :
      (n : Node) (l : List (Option StateResponse))
      → ViewInv sv.sha256 n.view
      → length n.view.view_map + certificates_in l + 2 < 2 ^ 32
      → SafeRound sv (certificates_in l) n (gossip sv now n l)
  unfolding gossip
  gossip-Next n l inv few =
      let (msg, q) = collect_gossip_content-some sv free can n inv in
      let (partners, v, q1, first) = gossip_partners-Next sv free can n.view inv in
      let n1 = record n { view = v; sent = sends sv msg partners n.sent } in
      let (n2, q2, second) = gossip_loop-Next n1 l first.inv (omega (arith, first.few)) in
      (
        n2,
        rw (gossip, q, q1) q2,
        Next-more sv.sha256 (0 + certificates_in l) (certificates_in l) n.view n2.view (omega arith)
            (Next-trans sv.sha256 0 (certificates_in l) n.view v n2.view first second),
      )

  contact_hosts-Next :
      (n : Node) (l : List (Option StateResponse))
      → ViewInv sv.sha256 n.view
      → length n.view.view_map + certificates_in l + 2 < 2 ^ 32
      → SafeRound sv (certificates_in l) n (contact_hosts sv now n l)
  unfolding contact_hosts
  contact_hosts-Next n [] inv few = (n, refl, Next-same sv.sha256 n.view inv)
  contact_hosts-Next n (none ∷ rest) inv few = contact_hosts-Next n rest inv few
  contact_hosts-Next n (some reply ∷ rest) inv few =
      let c = length reply.certificates in
      let (v2, n3, q2, q3, first, later) = reply-Next n reply inv (omega arith) in
      let (n4, q4, second) = contact_hosts-Next n3 rest first.inv (omega (arith, first.few)) in
      (
        n4,
        rw (q2, q3) q4,
        Next-trans sv.sha256 c (certificates_in rest) n.view n3.view n4.view first second,
      )

  opened :
      (n : Node) (addrs : List Bytes) (l : List (Option StateResponse)) (msg : PbState)
      → n.ca_certificate ≡ none
      → collect_gossip_content sv n ≡ some msg
      → start sv now n addrs l
        ≡ contact_hosts sv now (record n { sent = send_state msg addrs n.sent }) l
  unfolding start
  opened n addrs l msg e q = ground arith

  -- `Start`, with any replies of the entry addresses.
  pub start-Next :
      (n : Node) (addrs : List Bytes) (l : List (Option StateResponse))
      → ViewInv sv.sha256 n.view
      → length n.view.view_map + certificates_in l + 2 < 2 ^ 32
      → SafeRound sv (certificates_in l) n (start sv now n addrs l)
  unfolding start
  start-Next n addrs l inv few =
      let (msg, q) = collect_gossip_content-some sv free can n inv in
      elim (Option-cases n.ca_certificate) [
        | inr (ca, e) ↦ (
          n,
          ground (arith, q),
          Next-more sv.sha256 0 (certificates_in l) n.view n.view (omega arith)
              (Next-same sv.sha256 n.view inv),
        )
        | inl e ↦
            let n1 = record n { sent = send_state msg addrs n.sent } in
            let (n2, q2, next) = contact_hosts-Next n1 l inv few in
            (n2, opened n addrs l msg e q ∙ q2, next)
      ]
