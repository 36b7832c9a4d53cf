-- ===== src/Core/Safety/Begin.antt =====
-- core/node.go: the node that NewNode makes has the invariant.
use ifrit.Prelude.{
  ℕ, ◌+◌, ◌^◌, ◌<◌, ◌≤◌, ◌≡◌, refl, sym, ap, subst, true, Option, none, some, List, [], ◌∷◌, ◌⊎◌,
  inl, inr, Bytes, bytes_eq, ◌=?◌, =?_iff, length, Option-cases, arith, if◌then◌else◌,
}
use ifrit.Prelude.GoMap.{has}
use ifrit.Discovery.Types.{Certificate, PeerRef}
use ifrit.Discovery.Note.{PbNote}
use ifrit.Discovery.Peer.{PeerResult, new_peer}
use ifrit.Discovery.Peer.Signed.{StateSigned, HeapSigned, new_peer-Signed}
use ifrit.Discovery.Ring.Invariant.{IsCollisionFree}
use ifrit.Discovery.Rings.{Rings, RingsError, create_rings}
use ifrit.Discovery.View.{
  View, ViewError, new_view, sign_local_note, signed, exists, is_alive, full, values, set_bits,
}
use ifrit.Discovery.View.New.{new_view-LiveInv, new_view-lists}
use ifrit.Core.Node.{Services, Node}
use ifrit.Core.Notes.{eval_certificate}
use ifrit.Core.Lifecycle.{
  NodeConfig, CertManager, add_contacts, add_all_live, contact, node_of, new_node,
}
use ifrit.Core.Safety.Invariant.{ViewInv, AllOwn, Next, Next-same, Next-trans, Next-more}
use ifrit.Core.Safety.Live.{add_live-Next}
use ifrit.Core.Safety.Notes.{Safe}
use ifrit.Core.Safety.Certificates.{eval_certificate-Next, stay}

module _ (marshal : PbNote → Option Bytes) (sign : Bytes → Option (Bytes × Bytes))
    (sha256 : Bytes → Bytes) (dead_timeout n : ℕ) (cert : Option Certificate) (v : View) where
  -- The own note of a view that `NewView` returns is signed, and there is no other.
  new_view-HeapSigned : new_view marshal sign sha256 dead_timeout n cert ≡ inl v → HeapSigned v.heap
  unfolding new_view sign_local_note signed
  new_view-HeapSigned h id = of_peer (new_peer cert n) refl
    where
      of_peer : (x : PeerResult) → new_peer cert n ≡ x → StateSigned (v.heap id)
      of_peer (inr e) q = absurd (ground arith)
      of_peer (inl (self, st)) q = of_rings (create_rings sha256 (some self) n) refl
        where
          of_rings :
              (y : Rings ⊎ RingsError)
              → create_rings sha256 (some self) n ≡ y
              → StateSigned (v.heap id)
          of_rings (inr e) r = absurd (ground arith)
          of_rings (inl rings) r =
              let msg : PbNote = record {
                epoch = 1;
                id = self.id;
                mask = set_bits marshal sign n 0 0;
                signature = none;
              } in
              elim (Option-cases (marshal msg)) [
                | inl e ↦ absurd (ground arith)
                | inr (b, e) ↦ elim (Option-cases (sign b)) [
                  | inl e2 ↦ absurd (ground arith)
                  | inr ((x, y), e2) ↦ ground (arith, r, e, e2, q, new_peer-Signed cert n self st q)
                ]
              ]

-- Nobody is known, or alive.
empty-ViewInv :
    (sv : Services) (dead_timeout n : ℕ) (cert : Option Certificate) (v : View)
    → n ≤ 32
    → new_view sv.marshal_note sv.sign sv.sha256 dead_timeout n cert ≡ inl v
    → ViewInv sv.sha256 v
unfolding exists is_alive has
empty-ViewInv sv dead_timeout n cert v few made =
    let (inv, (own, noted, first, mask)) =
      new_view-LiveInv sv.marshal_note sv.sign sv.sha256 dead_timeout n cert v few made in
    let (nobody, no_one) =
      new_view-lists sv.marshal_note sv.sign sv.sha256 dead_timeout n cert v made in
    record {
      live = inv;
      keyed = subst AllOwn (sym no_one) tt;
      known = λ id h. ground (arith, nobody);
      stranger = ground (arith, no_one);
      own = λ e. cc;
      signed = new_view-HeapSigned sv.marshal_note sv.sign sv.sha256 dead_timeout n cert v made;
    }

module _ (sv : Services) (free : IsCollisionFree sv.sha256) where
  add_contacts-Next :
      (ca : Option Certificate) (v : View) (l : List Certificate)
      → ViewInv sv.sha256 v
      → Next sv.sha256 (length l) v (add_contacts sv ca v l)
  unfolding add_contacts
  add_contacts-Next ca v [] inv = Next-same sv.sha256 v inv
  add_contacts-Next ca v (c ∷ rest) inv =
      let v1 = if v.self.id =? c.subject_key_id then v else (eval_certificate sv ca v (some c)).0 in
      let one : Next sv.sha256 1 v v1 =
        ground
          (arith, stay sv.sha256 v inv 1, eval_certificate-Next sv.sha256 v inv sv ca (some c)) in
      let all = add_contacts sv ca v1 rest in
      Next-more sv.sha256 (1 + length rest) (length (c ∷ rest)) v all (omega arith)
        (Next-trans sv.sha256 1 (length rest) v v1 all one (add_contacts-Next ca v1 rest one.inv))

  -- All peers of the list are known.
  abbrev AllKnown : View → List PeerRef → Type 0
  AllKnown v [] = Unit {0}
  AllKnown v (p ∷ rest) = (exists v p.id ≡ true) × AllKnown v rest

  AllKnown-kept :
      (v v' : View) (l : List PeerRef)
      → ((id : Bytes) → exists v id ≡ true → exists v' id ≡ true)
      → AllKnown v l
      → AllKnown v' l
  AllKnown-kept v v' [] kept all = tt
  AllKnown-kept v v' (p ∷ rest) kept all = (kept p.id all.0, AllKnown-kept v v' rest kept all.1)

  add_all_live-Next :
      (v : View) (l : List PeerRef)
      → ViewInv sv.sha256 v
      → length v.view_map + 2 < 2 ^ 32
      → AllKnown v l
      → Safe sv.sha256 v (add_all_live sv.sha256 v l)
  unfolding add_all_live
  add_all_live-Next v [] inv few all = (v, refl, Next-same sv.sha256 v inv)
  add_all_live-Next v (p ∷ rest) inv few all =
      let (v1, q1, first) = add_live-Next sv.sha256 v inv p free few all.0 in
      let (v2, q2, second) =
        add_all_live-Next v1 rest first.inv (omega (arith, first.few))
          (AllKnown-kept v v1 rest first.kept all.1) in
      (v2, rw q1 q2, Next-trans sv.sha256 0 0 v v1 v2 first second)

  full-AllKnown :
      (m : List (Bytes × PeerRef))
      → AllOwn m
      → (v : View) → ((id : Bytes) → has id m ≡ true → exists v id ≡ true)
      → AllKnown v (values m)
  unfolding has
  full-AllKnown [] all v known = tt
  full-AllKnown ((j, p) ∷ m) all v known = (
    known p.id (ground (arith, all.0, =?_iff j p.id)),
    full-AllKnown m all.1 v λ id h. known id (ground arith),
  )

  contact-Next :
      (ca : Option Certificate) (v : View) (contacts : List Certificate)
      → ViewInv sv.sha256 v
      → length v.view_map + length contacts + 2 < 2 ^ 32
      → (v' : View) × (contact sv ca v contacts ≡ some v') × Next sv.sha256 (length contacts) v v'
  unfolding contact full exists
  contact-Next none v contacts inv few = (v, refl, stay sv.sha256 v inv (length contacts))
  contact-Next (some ca) v contacts inv few =
      let known = add_contacts sv (some ca) v contacts in
      let first = add_contacts-Next (some ca) v contacts inv in
      let (v', q, second) =
        add_all_live-Next known (full known) first.inv (omega (arith, first.few))
          (full-AllKnown known.view_map first.inv.keyed known (λ id h. h)) in
      let c = length contacts in
      (
        v',
        q,
        Next-more sv.sha256 (c + 0) c v v' (omega arith)
            (Next-trans sv.sha256 c 0 v known v' first second),
      )

  -- A node that `NewNode` makes.
  pub new_node-ViewInv :
      (cm : CertManager) (config : NodeConfig) (n : Node) (pings : ℕ)
      → cm.num_rings ≤ 32
      → length cm.contact_list + 2 < 2 ^ 32
      → new_node sv cm config ≡ some (inl (n, pings))
      → ViewInv sv.sha256 n.view
  unfolding new_node node_of
  new_node-ViewInv cm config n pings few fits h =
      go
        (new_view sv.marshal_note sv.sign sv.sha256 config.dead_timeout cm.num_rings
          (some cm.certificate))
        refl
    where
      go :
          (x : View ⊎ ViewError)
          → new_view sv.marshal_note sv.sign sv.sha256 config.dead_timeout cm.num_rings
              (some cm.certificate)
            ≡ x
          → ViewInv sv.sha256 n.view
      go (inr e) q = absurd (ground arith)
      go (inl v) q =
          let start =
            empty-ViewInv sv config.dead_timeout cm.num_rings (some cm.certificate) v few q in
          let (nobody, no_one) =
            new_view-lists sv.marshal_note sv.sign sv.sha256 config.dead_timeout cm.num_rings
              (some cm.certificate) v q in
          let (v', q1, next) =
            contact-Next cm.ca_certificate v cm.contact_list start
              (omega (arith, ap length no_one)) in
          let same : v' ≡ n.view = ground (arith, q1) in subst (ViewInv sv.sha256) same next.inv
