-- ===== src/Core/Merge/Stale.antt =====
-- `mergeViews` of core/handlers.go: which notes the reply to a gossip message carries.
use mathlib.Core.List.{append-nil}
use ifrit.Prelude.{
  ℕ, ◌≡◌, refl, sym, subst, Bool, true, Option, none, some, List, [], ◌∷◌, ◌++◌, Bytes, bytes_eq,
  Option-cases, Bool-cases, get_elem?, zero, suc, if◌then◌else◌, ltb, arith, inl, inr, >>=-eq-some,
}
use ifrit.Prelude.GoMap.{lookup}
use ifrit.Discovery.Types.{PeerRef}
use ifrit.Discovery.Note.{Note, PbNote}
use ifrit.Discovery.Note
use ifrit.Discovery.Peer.{PeerState}
use ifrit.Discovery.View.{View, full}
use ifrit.Core.Node.{StateResponse}
use ifrit.Core.Merge.{merge_peer, merge_peers, merge_views}

-- The sender of the message does not name the peer, or names it with a later epoch than that of the
-- note.
abbrev pub stale : List (Bytes × ℕ) → Bytes → Note → Bool
stale given id n = elim (lookup id given) [ none ↦ true | some epoch ↦ ltb n.epoch epoch ]

-- The message is the stored note of a peer, for which this holds.
pub record Told (v : View) (given : List (Bytes × ℕ)) (m : PbNote) : Type 0 where
  pub id : Bytes
  pub note : Note
  pub stored : (v.heap id).note ≡ some note
  pub message : Note.to_pb_msg note ≡ some m
  pub late : stale given id note ≡ true

abbrev pub AllTold : View → List (Bytes × ℕ) → List PbNote → Type 0
AllTold v given [] = Unit {0}
AllTold v given (m ∷ l) = Told v given m × AllTold v given l

AllTold-append :
    (v : View) (given : List (Bytes × ℕ)) (l k : List PbNote)
    → AllTold v given l
    → AllTold v given k
    → AllTold v given (l ++ k)
AllTold-append v given [] k a b = b
AllTold-append v given (m ∷ l) k (one, a) b = (one, AllTold-append v given l k a b)

-- The messages of a note that is sent.
pub told_msgs : List (Bytes × ℕ) → Bytes → Option Note → List PbNote
told_msgs given id none = []
told_msgs given id (some n) =
    if stale given id n then elim (Note.to_pb_msg n) [ none ↦ [] | some m ↦ m ∷ [] ] else []

told_msgs-AllTold :
    (v : View) (given : List (Bytes × ℕ)) (id : Bytes)
    → AllTold v given (told_msgs given id (v.heap id).note)
unfolding told_msgs
told_msgs-AllTold v given id = elim (Option-cases (v.heap id).note) [
  | inl e ↦ rw e tt
  | inr (n, e) ↦ elim (Bool-cases (stale given id n)) [
    | inl late ↦ elim (Option-cases (Note.to_pb_msg n)) [
      | inl q ↦ rw (e, late, q) tt
      | inr (m, q) ↦
          rw (e, late, q) (record { id = id; note = n; stored = e; message = q; late = late }, tt)
    ]
    | inr early ↦ rw (e, early) tt
  ]
]

-- The message is in the list.
abbrev pub Sent : PbNote → List PbNote → Type 0
Sent m l = (i : ℕ) × (get_elem? l i ≡ some m)

abbrev pub AllSent : List PbNote → List PbNote → Type 0
AllSent [] l = Unit {0}
AllSent (m ∷ msgs) l = Sent m l × AllSent msgs l

-- Each of these peers has its note sent, if that is one for which `stale` holds.
abbrev pub AllCovered : View → List (Bytes × ℕ) → List PeerRef → List PbNote → Type 0
AllCovered v given [] l = Unit {0}
AllCovered v given (p ∷ peers) l =
    AllSent (told_msgs given p.id (v.heap p.id).note) l × AllCovered v given peers l

Sent-left : (m : PbNote) (l k : List PbNote) → Sent m l → Sent m (l ++ k)
Sent-left m [] k (i, h) = absurd (ground arith)
Sent-left m (x ∷ l) k (zero, h) = (0, h)
Sent-left m (x ∷ l) k (suc i, h) = let (j, q) = Sent-left m l k (i, h) in (suc j, q)

Sent-right : (m : PbNote) (l k : List PbNote) → Sent m k → Sent m (l ++ k)
Sent-right m [] k h = h
Sent-right m (x ∷ l) k h = let (j, q) = Sent-right m l k h in (suc j, q)

merge_peer-notes :
    (given : List (Bytes × ℕ)) (p : PeerRef) (st : PeerState) (reply reply' : StateResponse)
    → merge_peer given p st reply ≡ some reply'
    → reply'.notes ≡ reply.notes ++ told_msgs given p.id st.note
unfolding merge_peer told_msgs Note.is_more_recent
merge_peer-notes given p st reply reply' h = elim (Option-cases (lookup p.id given)) [
  | inl e ↦ ground (arith, h, e)
  | inr (epoch, e) ↦ ground (arith, h, e)
]

AllSent-more :
    (msgs l k : List PbNote)
    → ((m : PbNote) → Sent m l → Sent m k)
    → AllSent msgs l
    → AllSent msgs k
AllSent-more [] l k f h = tt
AllSent-more (m ∷ msgs) l k f (one, h) = (f m one, AllSent-more msgs l k f h)

AllSent-self : (l : List PbNote) → AllSent l l
AllSent-self [] = tt
AllSent-self (m ∷ l) =
    ((0, refl), AllSent-more l l (m ∷ l) (λ x sent. (suc sent.0, sent.1)) (AllSent-self l))

AllSent-right : (l msgs : List PbNote) → AllSent msgs (l ++ msgs)
AllSent-right l msgs =
    AllSent-more msgs msgs (l ++ msgs) (λ m sent. Sent-right m l msgs sent) (AllSent-self msgs)

AllCovered-more :
    (v : View) (given : List (Bytes × ℕ)) (peers : List PeerRef) (l k : List PbNote)
    → ((m : PbNote) → Sent m l → Sent m k)
    → AllCovered v given peers l
    → AllCovered v given peers k
AllCovered-more v given [] l k f h = tt
AllCovered-more v given (p ∷ peers) l k f (one, h) = (
  AllSent-more (told_msgs given p.id (v.heap p.id).note) l k f one,
  AllCovered-more v given peers l k f h,
)

module _ (v : View) (given : List (Bytes × ℕ)) where
  merge_peers-AllTold :
      (l : List PeerRef) (reply reply' : StateResponse)
      → merge_peers l v given reply ≡ some reply'
      → AllTold v given reply.notes
      → AllTold v given reply'.notes
  unfolding merge_peers
  merge_peers-AllTold [] reply reply' h told =
      let same : reply ≡ reply' = ground arith in
      subst (λ (r : StateResponse). AllTold v given r.notes) same told
  merge_peers-AllTold (p ∷ rest) reply reply' h told =
      let st = v.heap p.id in
      let (reply1, q, h1) = >>=-eq-some (merge_peer given p st reply) _ h in
      merge_peers-AllTold rest reply1 reply' h1 (
        subst (AllTold v given) (sym (merge_peer-notes given p st reply reply1 q)) (
          AllTold-append v given reply.notes (told_msgs given p.id st.note) told
            (told_msgs-AllTold v given p.id)))

  merge_peers-Sent :
      (l : List PeerRef) (reply reply' : StateResponse) (m : PbNote)
      → merge_peers l v given reply ≡ some reply'
      → Sent m reply.notes
      → Sent m reply'.notes
  unfolding merge_peers
  merge_peers-Sent [] reply reply' m h sent =
      let same : reply ≡ reply' = ground arith in
      subst (λ (r : StateResponse). Sent m r.notes) same sent
  merge_peers-Sent (p ∷ rest) reply reply' m h sent =
      let st = v.heap p.id in
      let (reply1, q, h1) = >>=-eq-some (merge_peer given p st reply) _ h in
      merge_peers-Sent rest reply1 reply' m h1 (
        subst (Sent m) (sym (merge_peer-notes given p st reply reply1 q))
          (Sent-left m reply.notes (told_msgs given p.id st.note) sent))

  merge_peers-AllCovered :
      (l : List PeerRef) (reply reply' : StateResponse)
      → merge_peers l v given reply ≡ some reply'
      → AllCovered v given l reply'.notes
  unfolding merge_peers
  merge_peers-AllCovered [] reply reply' h = tt
  merge_peers-AllCovered (p ∷ rest) reply reply' h =
      let st = v.heap p.id in
      let msgs = told_msgs given p.id st.note in
      let (reply1, q, h1) = >>=-eq-some (merge_peer given p st reply) _ h in
      let first : AllSent msgs reply1.notes =
        subst (AllSent msgs) (sym (merge_peer-notes given p st reply reply1 q))
          (AllSent-right reply.notes msgs) in
      (
        AllSent-more msgs reply1.notes reply'.notes
            (λ m sent. merge_peers-Sent rest reply1 reply' m h1 sent) first,
        merge_peers-AllCovered rest reply1 reply' h1,
      )

-- What `merge_views` does after the peers: the own note, when the sender lacks it or names a
-- later epoch.
merge_views-notes :
    (v : View) (given : List (Bytes × ℕ)) (reply reply' : StateResponse)
    → merge_views v given reply ≡ some reply'
    → (reply1 : StateResponse) × (merge_peers (full v) v given reply ≡ some reply1)
      × (reply'.notes ≡ reply1.notes ++ told_msgs given v.self.id (v.heap v.self.id).note)
unfolding merge_views told_msgs Note.is_more_recent
merge_views-notes v given reply reply' h =
    let (reply1, q, h1) = >>=-eq-some (merge_peers (full v) v given reply) _ h in
    (
      reply1,
      q,
      elim (Option-cases (lookup v.self.id given)) [
        | inl e ↦ ground (arith, h1, e, append-nil reply1.notes)
        | inr (epoch, e) ↦ ground (arith, h1, e, append-nil reply1.notes)
      ],
    )

-- When mergeViews does not panic, every note that it adds to a reply without notes is the stored note
-- of a peer that the sender of the message does not name, or names with a later epoch, and all such
-- notes of the peers of the view and of the node itself are in the reply: a peer that is named with an
-- earlier epoch than that of its stored note does not count among them.
pub merge_views_stale :
    (v : View) (given : List (Bytes × ℕ)) (reply reply' : StateResponse)
    → merge_views v given reply ≡ some reply'
    → reply.notes ≡ []
    → AllTold v given reply'.notes
      × AllCovered v given (full v) reply'.notes
      × AllSent (told_msgs given v.self.id (v.heap v.self.id).note) reply'.notes
merge_views_stale v given reply reply' h empty =
    let (reply1, q, notes) = merge_views-notes v given reply reply' h in
    let own = told_msgs given v.self.id (v.heap v.self.id).note in
    let none_yet : AllTold v given reply.notes = subst (AllTold v given) (sym empty) tt in
    (
      subst (AllTold v given) (sym notes) (
          AllTold-append v given reply1.notes own
            (merge_peers-AllTold v given (full v) reply reply1 q none_yet)
            (told_msgs-AllTold v given v.self.id)),
      subst (AllCovered v given (full v)) (sym notes) (
          AllCovered-more v given (full v) reply1.notes (reply1.notes ++ own)
            (λ m sent. Sent-left m reply1.notes own sent)
            (merge_peers-AllCovered v given (full v) reply reply1 q)),
      subst (AllSent own) (sym notes) (AllSent-right reply1.notes own),
    )
