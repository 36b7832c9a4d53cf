-- ===== src/Core/Safety/Certificates.antt =====
-- core/handlers.go: evalCertificate and mergeCertificates keep the invariant of a node.
use ifrit.Prelude.{
  ℕ, ◌+◌, ◌≡◌, refl, ap, ◌∙◌, false, Option, none, some, List, [], ◌∷◌, inl, inr, Bytes, bytes_eq,
  ◌=?◌, =?_iff, length, Option-cases, arith,
}
use ifrit.Prelude.GoMap.{insert, has-insert}
use ifrit.Discovery.Types.{Certificate, PeerRef}
use ifrit.Discovery.Peer.{PeerState, PeerResult, new_peer, store}
use ifrit.Discovery.Peer.Signed.{StateSigned, new_peer-Signed, store-HeapSigned}
use ifrit.Discovery.View.{View, exists, is_alive, add_full}
use ifrit.Core.Node.{Services, Node}
use ifrit.Core.Notes.{eval_certificate}
use ifrit.Core.Notes.Certificates.{new_peer_id}
use ifrit.Core.Merge.{merge_certificate, merge_certificates}
use ifrit.Core.Lifecycle.Contacts.{joins}
use ifrit.Core.Lifecycle.Startup.{LiveInv-same}
use ifrit.Core.Safety.Invariant.{
  ViewInv-Keyed, insert-AllOwn, ViewInv, Next, Next-same, Next-trans, Next-more,
}

module _ (sha256 : Bytes → Bytes) (v : View) (inv : ViewInv sha256 v) where
  -- Nothing changes.
  pub stay : (c : ℕ) → Next sha256 c v v
  stay c = record {
    inv = inv;
    self = refl;
    few = omega arith;
    kept = λ id h. h;
    epochs = λ id h. omega arith;
  }

  -- A peer that is not known, and not the own one, becomes known.
  joined-Next :
      (p : PeerRef) (st : PeerState)
      → exists v p.id ≡ false
      → (v.self.id =? p.id) ≡ false
      → StateSigned st
      → Next sha256 1 v
          (record v { view_map = insert p.id p v.view_map; heap = store p.id st v.heap })
  unfolding exists is_alive
  joined-Next p st new other signed =
      let grown = joins v p st (ViewInv-Keyed sha256 v inv) in
      let apart : (p.id =? v.self.id) ≡ false =
        ground (arith, =?_iff p.id v.self.id, =?_iff v.self.id p.id) in
      record {
        inv = record {
          live = LiveInv-same sha256 v _ grown.same inv.live;
          keyed = insert-AllOwn p v.view_map inv.keyed;
          known = λ id h. ground (arith, inv.known id h, has-insert p.id id p v.view_map);
          stranger = ground (arith, inv.stranger, has-insert p.id v.self.id p v.view_map);
          own = rw apart inv.own;
          signed = store-HeapSigned p.id st v.heap signed inv.signed;
        };
        self = refl;
        few = omega (arith, grown.few);
        kept = λ id h. ground (arith, has-insert p.id id p v.view_map);
        epochs = λ id h.
            let there : (p.id =? id) ≡ false = ground (arith, =?_iff p.id id) in
            rw there (omega arith);
      }

  add_full-Next :
      (c : Certificate)
      → (v.self.id =? c.subject_key_id) ≡ false
      → exists v c.subject_key_id ≡ false
      → Next sha256 1 v (add_full v c.subject_key_id (some c)).0
  unfolding add_full exists
  add_full-Next c other new = go (new_peer (some c) v.rings.num_rings) refl
    where
      go :
          (x : PeerResult)
          → new_peer (some c) v.rings.num_rings ≡ x
          → Next sha256 1 v (add_full v c.subject_key_id (some c)).0
      go (inr e) q = rw (add_full, new, q) (stay 1)
      go (inl (p, st)) q =
          let own = new_peer_id c v.rings.num_rings p st q in
          rw (add_full, new, q)
            (joined-Next p st (ap (exists v) own ∙ new) (ap (λ i. v.self.id =? i) own ∙ other)
              (new_peer-Signed (some c) v.rings.num_rings p st q))

  -- `evalCertificate` of any certificate.
  pub eval_certificate-Next :
      (sv : Services) (ca : Option Certificate) (c : Option Certificate)
      → Next sha256 1 v (eval_certificate sv ca v c).0
  unfolding eval_certificate
  eval_certificate-Next sv ca none = stay 1
  eval_certificate-Next sv ca (some c) = ground (arith, stay 1, add_full-Next c)

module _ (sv : Services) where
  merge_certificate-Next :
      (n : Node) (raw : Bytes)
      → ViewInv sv.sha256 n.view
      → Next sv.sha256 1 n.view (merge_certificate sv n raw).view
  unfolding merge_certificate
  merge_certificate-Next n raw inv = elim (Option-cases (sv.parse_certificate raw)) [
    | inl bad ↦ rw (merge_certificate, bad) (stay sv.sha256 n.view inv 1)
    | inr (c, good) ↦ ground (
      arith,
      stay sv.sha256 n.view inv 1,
      eval_certificate-Next sv.sha256 n.view inv sv n.ca_certificate (some c),
    )
  ]

  -- `mergeCertificates` of any byte strings.
  pub merge_certificates-Next :
      (n : Node) (l : List Bytes)
      → ViewInv sv.sha256 n.view
      → Next sv.sha256 (length l) n.view (merge_certificates sv n l).view
  unfolding merge_certificates
  merge_certificates-Next n [] inv = Next-same sv.sha256 n.view inv
  merge_certificates-Next n (raw ∷ rest) inv =
      let n1 = merge_certificate sv n raw in
      let one = merge_certificate-Next n raw inv in
      let all = merge_certificates sv n1 rest in
      Next-more sv.sha256 (1 + length rest) (length (raw ∷ rest)) n.view all.view (omega arith) (
        Next-trans sv.sha256 1 (length rest) n.view n1.view all.view one
          (merge_certificates-Next n1 rest one.inv))
