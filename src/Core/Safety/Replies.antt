-- ===== src/Core/Safety/Replies.antt =====
-- core/handlers.go: what a node sends to others can be made without a panic.
use ifrit.Prelude.{
  ℕ, ◌≡◌, refl, Option, none, some, List, [], ◌∷◌, ◌++◌, inl, inr, Bytes, bytes_eq, Bool-cases,
  Option-cases,
}
use ifrit.Prelude.GoMap
use ifrit.Discovery.Types.{PeerRef}
use ifrit.Discovery.Note.{Note, PbNote}
use ifrit.Discovery.Note
use ifrit.Discovery.Peer.{PeerState, all_accusations}
use ifrit.Discovery.Peer.Signed.{
  StateSigned, HeapSigned, NoteSigned, to_pb_msg-some, accusation_msgs-some,
}
use ifrit.Discovery.Ring.Invariant.{IsCollisionFree}
use ifrit.Discovery.View.{View, full}
use ifrit.Core.Node.{Services, Node, PbState, StateResponse}
use ifrit.Core.Merge.{
  note_msg, newer_note_msg, merge_peer, merge_peers, merge_views, own_newer, state, hosts,
  collect_gossip_content,
}
use ifrit.Core.Spread.{introduce}
use ifrit.Core.Safety.Invariant.{ViewInv}
use ifrit.Core.Safety.Accusations.{CanSign, own_msg}

note_msg-some : (n : Option Note) → NoteSigned n → (l : List PbNote) × (note_msg n ≡ some l)
note_msg-some none ok = ([], refl)
note_msg-some (some n) ok = let (m, q) = to_pb_msg-some n ok in (m ∷ [], rw q refl)

newer_note_msg-some :
    (n : Option Note) (epoch : ℕ)
    → NoteSigned n
    → (l : List PbNote) × (newer_note_msg n epoch ≡ some l)
newer_note_msg-some none epoch ok = ([], refl)
newer_note_msg-some (some n) epoch ok = elim (Bool-cases (Note.is_more_recent n epoch)) [
  | inl newer ↦ let (l, q) = note_msg-some (some n) ok in (l, rw newer q)
  | inr older ↦ ([], rw older refl)
]

abbrev pub Answers : Option StateResponse → Type 0
Answers result = (reply : StateResponse) × (result ≡ some reply)

merge_peer-some :
    (given : List (Bytes × ℕ)) (p : PeerRef) (st : PeerState) (reply : StateResponse)
    → StateSigned st
    → Answers (merge_peer given p st reply)
unfolding merge_peer all_accusations
merge_peer-some given p st reply ok =
    let (accs, q) = accusation_msgs-some st.accusations ok.1 in
    elim (Option-cases (GoMap.lookup p.id given)) [
      | inl e ↦
          let (notes, q1) = note_msg-some st.note ok.0 in
          (
            record reply {
              certificates = reply.certificates ++ (p.cert.raw ∷ []);
              notes = reply.notes ++ notes;
              accusations = reply.accusations ++ accs;
            },
            rw (merge_peer, e, q1, q) refl,
          )
      | inr (epoch, e) ↦
          let (notes, q1) = newer_note_msg-some st.note epoch ok.0 in
          (
            record reply {
              certificates = reply.certificates ++ [];
              notes = reply.notes ++ notes;
              accusations = reply.accusations ++ accs;
            },
            rw (merge_peer, e, q1, q) refl,
          )
    ]

merge_peers-some :
    (l : List PeerRef) (v : View) (given : List (Bytes × ℕ)) (reply : StateResponse)
    → HeapSigned v.heap
    → Answers (merge_peers l v given reply)
unfolding merge_peers
merge_peers-some [] v given reply ok = (reply, refl)
merge_peers-some (p ∷ rest) v given reply ok =
    let (reply1, q1) = merge_peer-some given p (v.heap p.id) reply (ok p.id) in
    let (reply2, q2) = merge_peers-some rest v given reply1 ok in (reply2, rw q1 q2)

pub introduce-some :
    (l : List PeerRef) (v : View) (sv : Services) (reply : StateResponse)
    → HeapSigned v.heap
    → Answers (introduce sv l v reply)
unfolding introduce
introduce-some [] v sv reply ok = (reply, refl)
introduce-some (p ∷ rest) v sv reply ok =
    let (notes, q) = note_msg-some (v.heap p.id).note (ok p.id).0 in
    let (reply', q1) =
      introduce-some rest v sv
        (record reply {
          certificates = reply.certificates ++ (p.cert.raw ∷ []);
          notes = reply.notes ++ notes;
        })
        ok in
    (reply', rw q q1)

module _ (sv : Services) (free : IsCollisionFree sv.sha256) (can : CanSign sv) where
  pub merge_views-some :
      (v : View) (given : List (Bytes × ℕ)) (reply : StateResponse)
      → ViewInv sv.sha256 v
      → Answers (merge_views v given reply)
  unfolding merge_views
  merge_views-some v given reply inv =
      let (reply1, q1) = merge_peers-some (full v) v given reply inv.signed in
      let (own, m, e, q2) = own_msg sv free can v inv in
      elim (Bool-cases (own_newer own (GoMap.lookup v.self.id given))) [
        | inl newer ↦ (
          record reply1 { notes = reply1.notes ++ (m ∷ []) },
          rw (merge_views, q1, e, newer, q2) refl,
        )
        | inr older ↦ (reply1, rw (merge_views, q1, e, older) refl)
      ]

  -- The state that a node sends to its partners.
  pub collect_gossip_content-some :
      (n : Node)
      → ViewInv sv.sha256 n.view
      → (msg : PbState) × (collect_gossip_content sv n ≡ some msg)
  unfolding collect_gossip_content state
  collect_gossip_content-some n inv =
      let (own, m, e, q) = own_msg sv free can n.view inv in
      (
        record {
          existing_hosts = some (hosts sv (full n.view) n.view []);
          own_note = some m;
          external_gossip = n.external_gossip;
        },
        rw (collect_gossip_content, state, e, q) refl,
      )
