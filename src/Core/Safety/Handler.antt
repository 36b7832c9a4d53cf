-- ===== src/Core/Safety/Handler.antt =====
-- core/handlers.go: Spread never panics, whoever calls it with whatever message.
use ifrit.Prelude.{
  ℕ, ◌+◌, ◌^◌, ◌<◌, ◌≡◌, refl, Option, none, some, List, [], ◌∷◌, ◌⊎◌, inl, inr, Bytes, bytes_eq,
  length, Bool-cases, Option-cases, arith,
}
use ifrit.Prelude.GoMap
use ifrit.Discovery.Types.{Certificate, PeerRef}
use ifrit.Discovery.Peer.{all_accusations, is_accused}
use ifrit.Discovery.Peer.Signed.{accusation_msgs-some}
use ifrit.Discovery.Ring.Invariant.{IsCollisionFree}
use ifrit.Discovery.Rings.Total.{should_be_my_neighbour_total, find_neighbours_total}
use ifrit.Discovery.View.{View, peer, should_be_neighbour, find_neighbours}
use ifrit.Core.Node.{Services, Node, NodeError, PbState, StateResponse, no_cert, not_my_neighbour}
use ifrit.Core.Notes.{eval_certificate}
use ifrit.Core.Merge.{merge_views}
use ifrit.Core.Spread.{
  empty_reply, Reply, answer, spread_neighbour, spread_observed, spread_new, spread,
}
use ifrit.Core.Safety.Invariant.{ViewInv, Next, Next-trans, Next-more}
use ifrit.Core.Safety.Notes.{eval_note-Next}
use ifrit.Core.Safety.Certificates.{eval_certificate-Next, stay}
use ifrit.Core.Safety.Accusations.{CanSign, own_msg}
use ifrit.Core.Safety.Replies.{Answers, merge_views-some, introduce-some}

module _ (sv : Services) (free : IsCollisionFree sv.sha256) (can : CanSign sv) where
  -- A node and an answer, with at most one more peer known.
  abbrev pub SafeReply : Node → Reply → Type 0
  SafeReply n reply =
      (n' : Node) × (r : StateResponse ⊎ NodeError) × (reply ≡ some (n', r))
      × Next sv.sha256 1 n.view n'.view

  given_hosts :
      (v : View) (hosts : Option (List (Bytes × ℕ)))
      → ViewInv sv.sha256 v
      → Answers
          (elim hosts [ none ↦ some empty_reply | some given ↦ merge_views v given empty_reply ])
  given_hosts v none inv = (empty_reply, refl)
  given_hosts v (some given) inv = merge_views-some sv free can v given empty_reply inv

  module _ (n : Node) (cert : Certificate) (args : PbState) (inv : ViewInv sv.sha256 n.view)
      (few : length n.view.view_map + 3 < 2 ^ 32) where
    spread_neighbour-Next : SafeReply n (spread_neighbour sv n cert args)
    unfolding spread_neighbour
    spread_neighbour-Next =
        let seen = eval_certificate sv n.ca_certificate n.view (some cert) in
        let first : Next sv.sha256 1 n.view seen.0 =
          eval_certificate-Next sv.sha256 n.view inv sv n.ca_certificate (some cert) in
        elim (Option-cases seen.1) [
          | inr (x, e) ↦ (record n { view = seen.0 }, inr x, rw (spread_neighbour, e) refl, first)
          | inl e ↦
              let (v1, e1, q, second) =
                eval_note-Next sv free seen.0 args.own_note first.inv (omega (arith, first.few)) in
              let (reply, q1) = given_hosts v1 args.existing_hosts second.inv in
              (
                record n { view = v1 },
                inl (record reply {
                  external_gossip = answer sv n.gossip_handler args.external_gossip;
                }),
                rw (spread_neighbour, e, q, q1) refl,
                Next-trans sv.sha256 1 0 n.view seen.0 v1 first second,
              )
        ]

    spread_observed-Next : (p : PeerRef) → SafeReply n (spread_observed sv n p args)
    unfolding spread_observed all_accusations
    spread_observed-Next p =
        let (v, e, q, next) = eval_note-Next sv free n.view args.own_note inv (omega arith) in
        let more = Next-more sv.sha256 0 1 n.view v (omega arith) next in
        let (accs, q1) = accusation_msgs-some (v.heap p.id).accusations (next.inv.signed p.id).1 in
        elim (Bool-cases (is_accused (n.view.heap p.id))) [
          | inl accused ↦ (
            record n { view = v },
            inl (record empty_reply { accusations = accs }),
            rw (spread_observed, q, accused, q1) refl,
            more,
          )
          | inr free_of_any ↦ (
            record n { view = v },
            inr not_my_neighbour,
            rw (spread_observed, q, free_of_any) refl,
            more,
          )
        ]

    spread_new-Next : SafeReply n (spread_new sv n cert args)
    unfolding spread_new find_neighbours
    spread_new-Next =
        let seen = eval_certificate sv n.ca_certificate n.view (some cert) in
        let first : Next sv.sha256 1 n.view seen.0 =
          eval_certificate-Next sv.sha256 n.view inv sv n.ca_certificate (some cert) in
        elim (Option-cases seen.1) [
          | inr (x, e) ↦ (record n { view = seen.0 }, inr x, rw (spread_new, e) refl, first)
          | inl e ↦
              let (v1, e1, q, second) =
                eval_note-Next sv free seen.0 args.own_note first.inv (omega (arith, first.few)) in
              let (own, m, noted, q1) = own_msg sv free can v1 second.inv in
              let (l, q2) =
                find_neighbours_total sv.sha256 v1.self.id (λ id. GoMap.has id v1.live_map) v1.rings
                  second.inv.live.agree cert.subject_key_id free in
              let (reply, q3) =
                introduce-some l v1 sv
                  (record empty_reply { certificates = n.certificate.raw ∷ []; notes = m ∷ [] })
                  second.inv.signed in
              (
                record n { view = v1 },
                inl reply,
                rw (spread_new, e, q, noted, q1, q2, q3) refl,
                Next-trans sv.sha256 1 0 n.view seen.0 v1 first second,
              )
        ]

  -- `Spread`, for any caller and any message.
  pub spread-Next :
      (n : Node) (cert : Option Certificate) (args : PbState)
      → ViewInv sv.sha256 n.view
      → length n.view.view_map + 3 < 2 ^ 32
      → SafeReply n (spread sv n cert args)
  unfolding spread should_be_neighbour
  spread-Next n none args inv few = (n, inr no_cert, refl, stay sv.sha256 n.view inv 1)
  spread-Next n (some cert) args inv few =
      let (near, q) =
        should_be_my_neighbour_total sv.sha256 n.view.self.id (λ id. GoMap.has id n.view.live_map)
          n.view.rings inv.live.agree cert.subject_key_id in
      elim (Bool-cases near) [
        | inl in_reach ↦
            let (n', r, q1, next) = spread_neighbour-Next n cert args inv few in
            (n', r, rw (spread, q, in_reach) q1, next)
        | inr far ↦ elim (Option-cases (peer n.view cert.subject_key_id)) [
          | inl e ↦
              let (n', r, q1, next) = spread_new-Next n cert args inv few in
              (n', r, rw (spread, q, far, e) q1, next)
          | inr (p, e) ↦
              let (n', r, q1, next) = spread_observed-Next n cert args inv few p in
              (n', r, rw (spread, q, far, e) q1, next)
        ]
      ]
