-- ===== src/Discovery/View/New.antt =====
-- `NewView` of core/discovery/view.go: the view that a node starts with.
use ifrit.Prelude.{
  ◌^◌, ℕ, zero, suc, ◌+◌, ◌≤◌, ◌<◌, ◌≡◌, refl, sym, ap, ◌∙◌, subst, inl, inr, ◌⊎◌, false, Option,
  none, some, List, [], arith, Bytes, =?_iff, bytes_eq, Option-cases,
}
use native.Mathlib.Decide.{ℕ_discrete}
use ifrit.Prelude.GoMap
use ifrit.Bits.{set_bit, ones_below}
use ifrit.Bits.Laws.{bit, set_bit_self, set_bit_ne}
use ifrit.Bits.Count.{ones_below_full}
use ifrit.Discovery.Types.{PeerRef, Certificate}
use ifrit.Discovery.Note.{Note, PbNote}
use ifrit.Discovery.Peer.{PeerResult, new_peer}
use ifrit.Discovery.Rings.{Rings, RingsError, create_rings}
use ifrit.Discovery.Rings.Agree.{Room, create_rings-Room, AllAgree, create_rings_agree}
use ifrit.Discovery.View.{View, new_view, sign_local_note, signed, set_bits}
use ifrit.Discovery.View.Live.{LiveInv}
use ifrit.Discovery.View.Mask.{MaskInv}

zero_bit : (i : ℕ) → bit 0 i ≡ 0
unfolding bit
zero_bit zero = refl
zero_bit (suc i) = zero_bit i

module _ (marshal : PbNote → Option Bytes) (sign : Bytes → Option (Bytes × Bytes)) where
  set_bits_out :
      (n i mask j : ℕ)
      → i + n ≤ 32
      → j < 32
      → (j < i) ⊎ (i + n ≤ j)
      → bit (set_bits marshal sign n i mask) j ≡ bit mask j
  unfolding set_bits
  set_bits_out zero i mask j h low o = refl
  set_bits_out (suc n) i mask j h low o =
      set_bits_out n (i + 1) (set_bit mask i) j (omega arith) low (ground arith)
      ∙ set_bit_ne mask i (omega arith) j (ground arith)

  set_bits_in :
      (n i mask j : ℕ) → i + n ≤ 32 → i ≤ j → j < i + n → bit (set_bits marshal sign n i mask) j ≡ 1
  unfolding set_bits
  set_bits_in zero i mask j h a b = absurd (omega arith)
  set_bits_in (suc n) i mask j h a b = elim (ℕ_discrete j i) [
    | yes here ↦
        set_bits_out n (i + 1) (set_bit mask i) j (omega arith) (omega arith) (inl (omega arith))
        ∙ subst (λ k. bit (set_bit mask i) k ≡ 1) (sym here) (set_bit_self mask i (omega arith))
    | no later ↦ set_bits_in n (i + 1) (set_bit mask i) j (omega arith) (omega arith) (omega arith)
  ]

LiveInv-empty :
    (sha256 : Bytes → Bytes) (v : View) (self : PeerRef) (rings : Rings)
    → v.self ≡ self
    → v.rings ≡ rings
    → v.live_map ≡ []
    → rings.self ≡ self
    → AllAgree sha256 self.id (λ id. false) rings.ring_map
    → LiveInv sha256 v
unfolding GoMap.has GoMap.lookup
LiveInv-empty sha256 v self rings own same empty mine a = record {
  agree =
      subst
        (λ (t : PeerRef × Rings × List (Bytes × PeerRef)).
          AllAgree sha256 t.0.id (λ id. GoMap.has id t.2) t.1.ring_map)
        (sym (ap₃ own same empty)) a;
  own = ap (λ (x : Rings). x.self) same ∙ mine ∙ sym own;
  keyed = λ id p h. ground arith;
}
  where
    ap₃ :
        v.self ≡ self
        → v.rings ≡ rings
        → v.live_map ≡ []
        → ◌≡◌ {A = PeerRef × Rings × List (Bytes × PeerRef)}
            (v.self, v.rings, v.live_map)
            (self, rings, [])
    ap₃ p q r = λ i. (p i, q i, r i)

module _ (marshal : PbNote → Option Bytes) (sign : Bytes → Option (Bytes × Bytes))
    (sha256 : Bytes → Bytes) (dead_timeout n : ℕ) (cert : Option Certificate) (v : View) where
  abbrev full_mask : ℕ
  full_mask = set_bits marshal sign n 0 0

  -- What a view that `NewView` returns is made of.
  Made : PeerRef → Rings → Note → Type 0
  Made self rings own =
      (create_rings sha256 (some self) n ≡ inl rings)
      × (v.self ≡ self)
      × (v.rings ≡ rings)
      × (v.live_map ≡ [])
      × (v.deactivated_rings ≡ 0)
      × ((v.heap v.self.id).note ≡ some own)
      × (own.epoch ≡ 1)
      × (own.mask ≡ full_mask)
      × (v.view_map ≡ [])

  made :
      new_view marshal sign sha256 dead_timeout n cert ≡ inl v
      → (self : PeerRef) × (rings : Rings) × (own : Note) × Made self rings own
  unfolding new_view Made sign_local_note signed
  made h = of_peer (new_peer cert n) refl
    where
      of_peer :
          (x : PeerResult)
          → new_peer cert n ≡ x
          → (self : PeerRef) × (rings : Rings) × (own : Note) × Made self rings own
      of_peer (inr e) q = absurd (ground arith)
      of_peer (inl (self, st)) q = of_rings (create_rings sha256 (some self) n) refl
        where
          of_rings :
              (y : Rings ⊎ RingsError)
              → create_rings sha256 (some self) n ≡ y
              → (self : PeerRef) × (rings : Rings) × (own : Note) × Made self rings own
          of_rings (inr e) r = absurd (ground arith)
          of_rings (inl rings) r =
              let msg : PbNote = record {
                epoch = 1;
                id = self.id;
                mask = full_mask;
                signature = none;
              } in
              elim (Option-cases (marshal msg)) [
                | inl e ↦ absurd (ground arith)
                | inr (b, e) ↦ elim (Option-cases (sign b)) [
                  | inl e2 ↦ absurd (ground arith)
                  | inr ((x, y), e2) ↦ (
                    self,
                    rings,
                    record {
                      epoch = 1;
                      mask = full_mask;
                      id = self.id;
                      signature = some (record { r = some x; s = some y });
                    },
                    ground (arith, r, e, e2, =?_iff self.id self.id),
                  )
                ]
              ]

  some_ring :
      (self : PeerRef) (rings : Rings) → create_rings sha256 (some self) n ≡ inl rings → 0 < n
  unfolding create_rings
  some_ring self rings h = ground arith

  -- A view that `NewView` returns for at most 32 rings has the invariant of the live peers and the
  -- rings, and its own note, of epoch 1, has the invariant of the mask.
  pub new_view-LiveInv :
      n ≤ 32
      → new_view marshal sign sha256 dead_timeout n cert ≡ inl v
      → LiveInv sha256 v
        × ((own : Note) × ((v.heap v.self.id).note ≡ some own)
            × (own.epoch ≡ 1)
            × MaskInv v own.mask)
  unfolding Made
  new_view-LiveInv few h =
      let (self, rings, own, (q, own_self, own_rings, empty, none_off, noted, first, mask, known)) =
        made h in
      let (rings_self, num, agree) = create_rings_agree sha256 self n rings q in
      let count : v.rings.num_rings ≡ n = ap (λ (x : Rings). x.num_rings) own_rings ∙ num in
      let pos = some_ring self rings q in
      let all : ones_below n full_mask ≡ n =
        ones_below_full n full_mask
          (λ i k. set_bits_in marshal sign n 0 0 i (omega arith) (omega arith) (omega arith)) in
      let full : MaskInv v full_mask = record {
        fits = omega arith;
        some_ring = omega arith;
        within = λ i a b.
            set_bits_out marshal sign n 0 0 i (omega arith) b (inr (omega arith)) ∙ zero_bit i;
        counted = rw count (omega (arith, all, none_off));
        bounded = omega arith;
      } in
      (
        LiveInv-empty sha256 v self rings own_self own_rings empty rings_self agree,
        (own, noted, first, subst (MaskInv v) (sym mask) full),
      )

  -- A new view knows no peer, and its rings have room for all but one of the peers that fit.
  pub new_view-Room :
      (k : ℕ)
      → new_view marshal sign sha256 dead_timeout n cert ≡ inl v
      → k + 1 < 2 ^ 32
      → Room k v.rings.ring_map × (v.view_map ≡ []) × (v.rings.num_rings ≡ n) × (0 < n)
  unfolding Made
  new_view-Room k h few =
      let (self, rings, own, (q, own_self, own_rings, empty, none_off, noted, first, mask, known)) =
        made h in
      let (rings_self, num, agree) = create_rings_agree sha256 self n rings q in
      (
        subst (λ (x : Rings). Room k x.ring_map) (sym own_rings)
            (create_rings-Room sha256 self n k rings q few),
        known,
        ap (λ (x : Rings). x.num_rings) own_rings ∙ num,
        some_ring self rings q,
      )

  -- It knows nobody, and holds nobody for alive.
  pub new_view-lists :
      new_view marshal sign sha256 dead_timeout n cert ≡ inl v
      → (v.live_map ≡ []) × (v.view_map ≡ [])
  unfolding Made
  new_view-lists h =
      let (self, rings, own, (q, own_self, own_rings, empty, none_off, noted, first, mask, known)) =
        made h in
      (empty, known)
