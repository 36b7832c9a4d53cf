-- ===== src/Core/Merge/Told.antt =====
-- core/handlers.go: which certificates the reply of mergeViews carries.
use ifrit.Prelude.{
  length-append, ◌≤◌, ◌+◌, ℕ, zero, suc, ◌≡◌, refl, ap, ◌∙◌, subst, Bool, true, false, ◌||◌, Option,
  none, some, List, [], ◌∷◌, ◌++◌, inl, inr, Bytes, bytes_eq, ◌=?◌, =?_iff, Bool-cases,
  Option-cases, arith, get_elem?, length, >>=-eq-some,
}
use ifrit.Prelude.GoMap.{lookup}
use ifrit.Discovery.Types.{PeerRef}
use ifrit.Discovery.Peer.{PeerState}
use ifrit.Discovery.View.{View, peer, full, values}
use ifrit.Core.Node.{StateResponse}
use ifrit.Core.Merge.{merge_peer, merge_peers, merge_views}

-- One of the byte strings is this one.
abbrev pub member : Bytes → List Bytes → Bool
member raw [] = false
member raw (x ∷ l) = (x =? raw) || member raw l

member-append :
    (raw : Bytes) (l m : List Bytes) → member raw (l ++ m) ≡ (member raw l || member raw m)
member-append raw [] m = refl
member-append raw (x ∷ l) m = ground (arith, member-append raw l m)

value_at :
    (id : Bytes) (m : List (Bytes × PeerRef)) (p : PeerRef)
    → lookup id m ≡ some p
    → (i : ℕ) × (get_elem? (values m) i ≡ some p)
unfolding lookup
value_at id [] p h = ground arith
value_at id ((j, q) ∷ m) p h = elim (Bool-cases (j =? id)) [
  | inl here ↦ (0, ground arith)
  | inr there ↦ let (i, at) = value_at id m p (ground arith) in (suc i, at)
]

-- What `merge_peer` does to the certificates.
merge_peer-certificates :
    (given : List (Bytes × ℕ)) (p : PeerRef) (st : PeerState) (reply reply' : StateResponse)
    → merge_peer given p st reply ≡ some reply'
    → reply'.certificates
      ≡ reply.certificates
        ++ (elim (lookup p.id given) [ none ↦ p.cert.raw ∷ [] | some epoch ↦ [] ])
unfolding merge_peer
merge_peer-certificates given p st reply reply' h = elim (Option-cases (lookup p.id given)) [
  | inl e ↦ ground (arith, h, e)
  | inr (epoch, e) ↦ ground (arith, h, e)
]

-- A certificate of the reply stays in it.
merge_peer-stays :
    (given : List (Bytes × ℕ)) (p : PeerRef) (st : PeerState) (reply reply' : StateResponse)
    (raw : Bytes)
    → merge_peer given p st reply ≡ some reply'
    → member raw reply.certificates ≡ true
    → member raw reply'.certificates ≡ true
merge_peer-stays given p st reply reply' raw h there =
    let certs : List Bytes = elim (lookup p.id given) [
      | none ↦ p.cert.raw ∷ []
      | some epoch ↦ []
    ] in
    ap (member raw) (merge_peer-certificates given p st reply reply' h)
    ∙ ground (arith, there, member-append raw reply.certificates certs)

-- That of a peer that was not given is added.
merge_peer-adds :
    (given : List (Bytes × ℕ)) (p : PeerRef) (st : PeerState) (reply reply' : StateResponse)
    → merge_peer given p st reply ≡ some reply'
    → lookup p.id given ≡ none
    → member p.cert.raw reply'.certificates ≡ true
merge_peer-adds given p st reply reply' h new =
    ap (member p.cert.raw) (merge_peer-certificates given p st reply reply' h)
    ∙ rw new (
        member-append p.cert.raw reply.certificates (p.cert.raw ∷ [])
        ∙ ground (arith, =?_iff p.cert.raw p.cert.raw))

merge_peers-stays :
    (l : List PeerRef) (v : View) (given : List (Bytes × ℕ)) (reply reply' : StateResponse)
    (raw : Bytes)
    → merge_peers l v given reply ≡ some reply'
    → member raw reply.certificates ≡ true
    → member raw reply'.certificates ≡ true
unfolding merge_peers
merge_peers-stays [] v given reply reply' raw h there = ground arith
merge_peers-stays (p ∷ rest) v given reply reply' raw h there =
    let (reply1, q, h1) = >>=-eq-some (merge_peer given p (v.heap p.id) reply) _ h in
    merge_peers-stays rest v given reply1 reply' raw h1
      (merge_peer-stays given p (v.heap p.id) reply reply1 raw q there)

merge_peers-adds :
    (l : List PeerRef) (v : View) (given : List (Bytes × ℕ)) (reply reply' : StateResponse)
    (p : PeerRef) (i : ℕ)
    → merge_peers l v given reply ≡ some reply'
    → get_elem? l i ≡ some p
    → lookup p.id given ≡ none
    → member p.cert.raw reply'.certificates ≡ true
unfolding merge_peers
merge_peers-adds [] v given reply reply' p i h at new = absurd (ground arith)
merge_peers-adds (x ∷ rest) v given reply reply' p zero h at new =
    let (reply1, q, h1) = >>=-eq-some (merge_peer given x (v.heap x.id) reply) _ h in
    let same : x ≡ p = ground arith in
    let id_given : PeerRef → Option ℕ = λ y. lookup y.id given in
    subst (λ y. member y.cert.raw reply'.certificates ≡ true) same
      (merge_peers-stays rest v given reply1 reply' x.cert.raw h1
        (merge_peer-adds given x (v.heap x.id) reply reply1 q (ap id_given same ∙ new)))
merge_peers-adds (x ∷ rest) v given reply reply' p (suc i) h at new =
    let (reply1, q, h1) = >>=-eq-some (merge_peer given x (v.heap x.id) reply) _ h in
    merge_peers-adds rest v given reply1 reply' p i h1 at new

-- The reply has the certificate of every peer of the view that the other side did not name.
pub merge_views-adds :
    (v : View) (given : List (Bytes × ℕ)) (reply reply' : StateResponse) (p : PeerRef)
    → merge_views v given reply ≡ some reply'
    → peer v p.id ≡ some p
    → lookup p.id given ≡ none
    → member p.cert.raw reply'.certificates ≡ true
unfolding merge_views full peer
merge_views-adds v given reply reply' p h at new =
    let (i, here) = value_at p.id v.view_map p at in
    let (reply1, q, h1) = >>=-eq-some (merge_peers (full v) v given reply) _ h in
    let told = merge_peers-adds (full v) v given reply reply1 p i q here new in
    let same : reply'.certificates ≡ reply1.certificates = ground (arith, h1) in
    ap (member p.cert.raw) same ∙ told

merge_peers-few :
    (l : List PeerRef) (v : View) (given : List (Bytes × ℕ)) (reply reply' : StateResponse)
    → merge_peers l v given reply ≡ some reply'
    → length reply'.certificates ≤ length reply.certificates + length l
unfolding merge_peers
merge_peers-few [] v given reply reply' h =
    let same : reply ≡ reply' = ground arith in
    let same_length : length reply.certificates ≡ length reply'.certificates =
      ap (λ (r : StateResponse). length r.certificates) same in
    omega arith
merge_peers-few (p ∷ rest) v given reply reply' h =
    let (reply1, q, h1) = >>=-eq-some (merge_peer given p (v.heap p.id) reply) _ h in
    let certs : List Bytes = elim (lookup p.id given) [
      | none ↦ p.cert.raw ∷ []
      | some epoch ↦ []
    ] in
    let one : length reply1.certificates ≤ length reply.certificates + 1 = ground (
      arith,
      ap length (merge_peer-certificates given p (v.heap p.id) reply reply1 q),
      length-append reply.certificates certs,
      Option-cases (lookup p.id given),
    ) in
    omega (arith, merge_peers-few rest v given reply1 reply' h1)

values_length : (m : List (Bytes × PeerRef)) → length (values m) ≡ length m
values_length [] = refl
values_length (x ∷ m) = ground (arith, values_length m)

-- The reply adds at most one certificate for each peer of the view.
pub merge_views-few :
    (v : View) (given : List (Bytes × ℕ)) (reply reply' : StateResponse)
    → merge_views v given reply ≡ some reply'
    → length reply'.certificates ≤ length reply.certificates + length v.view_map
unfolding merge_views full
merge_views-few v given reply reply' h =
    let (reply1, q, h1) = >>=-eq-some (merge_peers (full v) v given reply) _ h in
    let same : reply'.certificates ≡ reply1.certificates = ground (arith, h1) in
    omega (
      arith,
      ap length same,
      values_length v.view_map,
      merge_peers-few (full v) v given reply reply1 q,
    )
