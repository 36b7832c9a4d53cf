-- ===== src/Core/Merge/Learned.antt =====
-- core/handlers.go: the peers of the certificates that mergeCertificates takes are known.
use ifrit.Prelude.{
  ◌&&◌, ℕ, ◌≡◌, refl, ap, ◌∙◌, Bool, true, false, Option, none, some, List, [], ◌∷◌, inl, inr,
  Bytes, bytes_eq, ◌=?◌, =?_iff, Bool-cases, Option-cases, arith, length, ◌==◌,
}
use ifrit.Prelude.GoMap.{has-insert}
use ifrit.Discovery.Types.{Certificate, PeerRef}
use ifrit.Discovery.Peer.{PeerState, PeerResult, new_peer}
use ifrit.Discovery.View.{View, exists, add_full}
use ifrit.Core.Node.{Services, Node}
use ifrit.Core.Notes.{eval_certificate}
use ifrit.Core.Notes.Certificates.{new_peer_id}
use ifrit.Core.Merge.{merge_certificate, merge_certificates}
use ifrit.Core.Merge.Told.{member}

module _ (sv : Services) where
  -- The certificate is one that `evalCertificate` takes from anyone.
  abbrev pub acceptable : Option Certificate → ℕ → Certificate → Bool
  acceptable ca rings c =
      (length c.subject_key_id == 32)
      && sv.check_signature_from c (elim ca [ none ↦ c | some a ↦ a ])
      && elim (new_peer (some c) rings) [ inl made ↦ true | inr e ↦ false ]

  made_exists :
      (v : View) (c : Certificate) (p : PeerRef) (st : PeerState)
      → exists v c.subject_key_id ≡ false
      → new_peer (some c) v.rings.num_rings ≡ inl (p, st)
      → exists (add_full v c.subject_key_id (some c)).0 c.subject_key_id ≡ true
  unfolding add_full exists
  made_exists v c p st new q =
      let own = new_peer_id c v.rings.num_rings p st q in
      rw (add_full, new, q)
        (has-insert p.id c.subject_key_id p v.view_map
          ∙ ground (arith, own, =?_iff p.id c.subject_key_id))

  eval_certificate-exists :
      (ca : Option Certificate) (v : View) (c : Certificate)
      → (v.self.id =? c.subject_key_id) ≡ false
      → acceptable ca v.rings.num_rings c ≡ true
      → exists (eval_certificate sv ca v (some c)).0 c.subject_key_id ≡ true
  unfolding eval_certificate
  eval_certificate-exists ca v c other ok = go (new_peer (some c) v.rings.num_rings) refl
    where
      go :
          (x : PeerResult)
          → new_peer (some c) v.rings.num_rings ≡ x
          → exists (eval_certificate sv ca v (some c)).0 c.subject_key_id ≡ true
      go (inr e) q = absurd (ground (arith, ok, q))
      go (inl (p, st)) q = elim (Bool-cases (exists v c.subject_key_id)) [
        | inl e ↦ ground (arith, other, ok, e)
        | inr e ↦ ground (arith, other, ok, e, made_exists v c p st e q)
      ]

  -- What a certificate leaves as it is.
  add_full-rest :
      (v : View) (c : Certificate) (id : Bytes)
      → let w = (add_full v c.subject_key_id (some c)).0 in
        (w.self ≡ v.self) × (w.rings ≡ v.rings) × (exists v id ≡ true → exists w id ≡ true)
  unfolding add_full exists
  add_full-rest v c id = go (new_peer (some c) v.rings.num_rings) refl
    where
      go :
          (x : PeerResult)
          → new_peer (some c) v.rings.num_rings ≡ x
          → let w = (add_full v c.subject_key_id (some c)).0 in
            (w.self ≡ v.self) × (w.rings ≡ v.rings) × (exists v id ≡ true → exists w id ≡ true)
      go (inr e) q = rw (add_full, q) (ground arith, ground arith, λ h. ground (arith, h))
      go (inl (p, st)) q = (
        ground (arith, q),
        ground (arith, q),
        λ h. ground (arith, h, q, has-insert p.id id p v.view_map),
      )

  merge_certificate-rest :
      (n : Node) (raw : Bytes) (id : Bytes)
      → let m = merge_certificate sv n raw in
        (m.ca_certificate ≡ n.ca_certificate)
        × (m.view.self ≡ n.view.self)
        × (m.view.rings ≡ n.view.rings)
        × (exists n.view id ≡ true → exists m.view id ≡ true)
  unfolding merge_certificate eval_certificate
  merge_certificate-rest n raw id = elim (Option-cases (sv.parse_certificate raw)) [
    | inl bad ↦ rw (merge_certificate, bad) (refl, refl, refl, λ h. h)
    | inr (c, good) ↦
        let (self, rings, kept) = add_full-rest n.view c id in
        (
          ground (arith, good),
          ground (arith, good, self),
          ground (arith, good, rings),
          λ h. ground (arith, good, h, kept h),
        )
  ]

  merge_certificate-exists :
      (n : Node) (raw : Bytes) (c : Certificate)
      → sv.parse_certificate raw ≡ some c
      → (n.view.self.id =? c.subject_key_id) ≡ false
      → acceptable n.ca_certificate n.view.rings.num_rings c ≡ true
      → exists (merge_certificate sv n raw).view c.subject_key_id ≡ true
  unfolding merge_certificate
  merge_certificate-exists n raw c parsed other ok =
      ground (arith, parsed, other, eval_certificate-exists n.ca_certificate n.view c other ok)

  merge_certificates-keeps :
      (n : Node) (l : List Bytes) (id : Bytes)
      → exists n.view id ≡ true
      → exists (merge_certificates sv n l).view id ≡ true
  unfolding merge_certificates
  merge_certificates-keeps n [] id h = h
  merge_certificates-keeps n (raw ∷ l) id h =
      let (ca, self, rings, kept) = merge_certificate-rest n raw id in
      merge_certificates-keeps (merge_certificate sv n raw) l id (kept h)

  -- After `mergeCertificates` the peer of each acceptable certificate of the list is known.
  pub merge_certificates-exists :
      (n : Node) (l : List Bytes) (raw : Bytes) (c : Certificate)
      → member raw l ≡ true
      → sv.parse_certificate raw ≡ some c
      → (n.view.self.id =? c.subject_key_id) ≡ false
      → acceptable n.ca_certificate n.view.rings.num_rings c ≡ true
      → exists (merge_certificates sv n l).view c.subject_key_id ≡ true
  unfolding merge_certificates
  merge_certificates-exists n [] raw c h parsed other ok = absurd (ground arith)
  merge_certificates-exists n (x ∷ l) raw c h parsed other ok = elim (Bool-cases (x =? raw)) [
    | inl here ↦
        let same : x ≡ raw = (=?_iff x raw).0 here in
        merge_certificates-keeps (merge_certificate sv n x) l c.subject_key_id
          (merge_certificate-exists n x c (ap sv.parse_certificate same ∙ parsed) other ok)
    | inr there ↦
        let m = merge_certificate sv n x in
        let (ca, self, rings, kept) = merge_certificate-rest n x c.subject_key_id in
        merge_certificates-exists m l raw c (ground (arith, h, there)) parsed
          (ap (λ (y : PeerRef). y.id =? c.subject_key_id) self ∙ other) (rw (ca, rings) ok)
  ]
