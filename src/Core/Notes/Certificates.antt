-- ===== src/Core/Notes/Certificates.antt =====
-- Which certificates evalCertificate of core/handlers.go takes.
use ifrit.Prelude.{
  ℕ, ◌≡◌, refl, ap, ◌∙◌, true, false, Option, none, some, Bytes, bytes_eq, ◌=?◌, =?_iff, length,
  ◌==◌, ==_iff, arith, inl, inr,
}
use ifrit.Prelude.GoMap.{has-insert}
use ifrit.Discovery.Types.{Certificate, PeerRef}
use ifrit.Discovery.Peer.{new_peer, PeerState, PeerResult}
use ifrit.Discovery.View.{View, add_full, exists}
use ifrit.Core.Node.{Services}
use ifrit.Core.Notes.{eval_certificate}

pub new_peer_id :
    (c : Certificate) (n : ℕ) (p : PeerRef) (st : PeerState)
    → new_peer (some c) n ≡ inl (p, st)
    → p.id ≡ c.subject_key_id
unfolding new_peer
new_peer_id c n p st h = ground arith

-- The only new peer is that of the certificate.
exists-add_full :
    (v : View) (c : Certificate) (id : Bytes)
    → exists v id ≡ false
    → exists (add_full v c.subject_key_id (some c)).0 id ≡ true
    → id ≡ c.subject_key_id
unfolding add_full exists
exists-add_full v c id new h = go (new_peer (some c) v.rings.num_rings) refl
  where
    go : (x : PeerResult) → new_peer (some c) v.rings.num_rings ≡ x → id ≡ c.subject_key_id
    go (inr e) q = absurd (ground (arith, q))
    go (inl (p, st)) q = ground (
      arith,
      q,
      new_peer_id c v.rings.num_rings p st q,
      has-insert p.id id p v.view_map,
      =?_iff p.id id,
    )

passed :
    (sv : Services) (ca : Option Certificate) (v : View) (cert : Certificate) (id : Bytes)
    → exists v id ≡ false
    → exists (eval_certificate sv ca v (some cert)).0 id ≡ true
    → ((v.self.id =? cert.subject_key_id) ≡ false)
      × ((length cert.subject_key_id == 32) ≡ true)
      × (sv.check_signature_from cert (elim ca [ none ↦ cert | some c ↦ c ]) ≡ true)
      × (exists (add_full v cert.subject_key_id (some cert)).0 id ≡ true)
unfolding eval_certificate
passed sv ca v cert id new h = ground arith

-- A peer that a certificate makes known has the id of that certificate, of 32 bytes, is not the
-- node itself, and the certificate has a signature of the authority, or of its own key when there
-- is no authority.
pub eval_certificate_taken :
    (sv : Services) (ca : Option Certificate) (v : View) (cert : Certificate) (id : Bytes)
    → exists v id ≡ false
    → exists (eval_certificate sv ca v (some cert)).0 id ≡ true
    → (id ≡ cert.subject_key_id)
      × (length id ≡ 32)
      × ((v.self.id =? id) ≡ false)
      × (sv.check_signature_from cert (elim ca [ none ↦ cert | some c ↦ c ]) ≡ true)
eval_certificate_taken sv ca v cert id new h =
    let (other, long, signed, added) = passed sv ca v cert id new h in
    let own : id ≡ cert.subject_key_id = exists-add_full v cert id new added in
    (
      own,
      ap length own ∙ (==_iff (length cert.subject_key_id) 32).0 long,
      ap (λ i. v.self.id =? i) own ∙ other,
      signed,
    )
