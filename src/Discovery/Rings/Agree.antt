-- ===== src/Discovery/Rings/Agree.antt =====
-- core/discovery/ring.go: all rings of a view know the same peers, through `createRings`, `add` and
-- `remove` of the rings.
use ifrit.Prelude.{
  ◌≤◌, ℕ, zero, suc, ◌+◌, ◌^◌, ◌<◌, ◌≡◌, refl, ap, ◌∙◌, subst, inl, Bool, false, not, ◌&&◌, ◌||◌,
  some, List, [], ◌∷◌, ◌++◌, arith, Bytes, ◌=?◌, =?_iff, bytes_eq,
}
use ifrit.Prelude.GoMap
use ifrit.Discovery.Types.{PeerRef, RingId}
use ifrit.Discovery.Peer.{Heap}
use ifrit.Discovery.Ring
use ifrit.Discovery.Ring.{Ring, ring_id, new_ring}
use ifrit.Discovery.Ring.Invariant.{RingInv, IsCollisionFree}
use ifrit.Discovery.Ring.Members.{knows, add-knows, remove-knows}
use ifrit.Discovery.Ring.Reach.{new_ring-RingInv}
use ifrit.Discovery.Rings.{Rings, add_to, add, remove_from, remove, make_rings, create_rings}

-- A ring under its number, with the invariant, with the own peer `self`, that knows `self` and the
-- peers of `members`, and no others.
pub record Agrees (sha256 : Bytes → Bytes) (self : Bytes) (members : Bytes → Bool) (n : ℕ)
    (r : Ring) : Type 0 where
  pub numbered : r.ring_num ≡ n
  pub inv : RingInv sha256 r
  pub mine : r.self_id.p.id ≡ self
  pub same : (id : Bytes) → knows id r ≡ ((self =? id) || members id)

abbrev pub AllAgree : (Bytes → Bytes) → Bytes → (Bytes → Bool) → List (ℕ × Ring) → Type 0
AllAgree sha256 self members [] = Unit {0}
AllAgree sha256 self members ((n, r) ∷ rest) =
    Agrees sha256 self members n r × AllAgree sha256 self members rest

-- Every ring has room for k more peers.
abbrev pub Room : ℕ → List (ℕ × Ring) → Type 0
Room k [] = Unit {0}
Room k ((n, r) ∷ rest) = (r.length + k < 2 ^ 32) × Room k rest

pub Room-fewer : (k : ℕ) (l : List (ℕ × Ring)) → Room (k + 1) l → Room k l
Room-fewer k [] room = tt
Room-fewer k ((n, r) ∷ rest) room = (omega (arith, room.0), Room-fewer k rest room.1)

module _ (sha256 : Bytes → Bytes) (self : Bytes) (members : Bytes → Bool) (p : PeerRef) where
  abbrev pub with_peer : Bytes → Bool
  with_peer id = (p.id =? id) || members id

  abbrev pub without_peer : Bytes → Bool
  without_peer id = not (p.id =? id) && members id

  add_one :
      (n : ℕ) (r : Ring) (heap : Heap)
      → IsCollisionFree sha256
      → r.length + 1 < 2 ^ 32
      → Agrees sha256 self members n r
      → (r' : Ring) × (heap' : Heap) × (old : List Bytes) × (Ring.add sha256 r p heap
          ≡ some (r', heap', old))
        × Agrees sha256 self with_peer n r'
        × (r'.length ≤ r.length + 1)
  add_one n r heap free room a =
      let (r', heap', old, q, inv, (num, own), more, k) =
        add-knows sha256 r p a.inv heap free room in
      (
        r',
        heap',
        old,
        q,
        record {
          numbered = num ∙ a.numbered;
          inv = inv;
          mine = ap (λ (e : RingId). e.p.id) own ∙ a.mine;
          same = λ id. k id ∙ ground (arith, a.same id);
        },
        more,
      )

  remove_one :
      (n : ℕ) (r : Ring)
      → Agrees sha256 self members n r
      → (r' : Ring) × (Ring.remove r p ≡ some r') × Agrees sha256 self without_peer n r'
  remove_one n r a =
      let (r', q, inv, (num, own), k) = remove-knows sha256 r p a.inv in
      let own_key : (p.id =? r.self_id.p.id) ≡ (p.id =? self) = ap (λ i. p.id =? i) a.mine in
      (
        r',
        q,
        record {
          numbered = num ∙ a.numbered;
          inv = inv;
          mine = ap (λ (e : RingId). e.p.id) own ∙ a.mine;
          same = λ id.
              k id
              ∙ ground
                  (arith, own_key, a.same id, =?_iff p.id id, =?_iff p.id self, =?_iff self id);
        },
      )

  add_all :
      (k : ℕ) (l : List (ℕ × Ring)) (heap : Heap)
      → IsCollisionFree sha256
      → Room (k + 1) l
      → AllAgree sha256 self members l
      → (l' : List (ℕ × Ring)) × (heap' : Heap) × (old : List Bytes) × (add_to sha256 l p heap
          ≡ some (l', heap', old))
        × AllAgree sha256 self with_peer l'
        × Room k l'
  unfolding add_to
  add_all k [] heap free room a = ([], heap, [], refl, tt, tt)
  add_all k ((n, r) ∷ rest) heap free room a =
      let (r', heap1, old, q, a1, more) = add_one n r heap free (omega (arith, room.0)) a.0 in
      let (rest', heap2, olds, q2, a2, room') = add_all k rest heap1 free room.1 a.1 in
      (
        (n, r') ∷ rest',
        heap2,
        old ++ olds,
        rw (q, q2) refl,
        (a1, a2),
        (omega (arith, room.0, more), room'),
      )

  remove_all :
      (l : List (ℕ × Ring))
      → AllAgree sha256 self members l
      → (l' : List (ℕ × Ring)) × (remove_from l p ≡ some l') × AllAgree sha256 self without_peer l'
  unfolding remove_from
  remove_all [] a = ([], refl, tt)
  remove_all ((n, r) ∷ rest) a =
      let (r', q, a1) = remove_one n r a.0 in
      let (rest', q2, a2) = remove_all rest a.1 in ((n, r') ∷ rest', rw (q, q2) refl, (a1, a2))

  -- `add` of the rings adds the peer on every ring, and does not panic.
  pub Rings_add_agrees :
      (k : ℕ) (rs : Rings) (heap : Heap)
      → IsCollisionFree sha256
      → Room (k + 1) rs.ring_map
      → AllAgree sha256 self members rs.ring_map
      → (rs' : Rings) × (heap' : Heap) × (old : List Bytes) × (add sha256 rs p heap
          ≡ some (rs', heap', old))
        × (rs'.self ≡ rs.self)
        × (rs'.num_rings ≡ rs.num_rings)
        × AllAgree sha256 self with_peer rs'.ring_map
        × Room k rs'.ring_map
  unfolding add
  Rings_add_agrees k rs heap free room a =
      let (l', heap', old, q, a', room') = add_all k rs.ring_map heap free room a in
      (record rs { ring_map = l' }, heap', old, rw q refl, refl, refl, a', room')

  pub Rings_remove_agrees :
      (rs : Rings)
      → AllAgree sha256 self members rs.ring_map
      → (rs' : Rings) × (remove rs p ≡ some rs')
        × (rs'.self ≡ rs.self)
        × (rs'.num_rings ≡ rs.num_rings)
        × AllAgree sha256 self without_peer rs'.ring_map
  unfolding remove
  Rings_remove_agrees rs a =
      let (l', q, a') = remove_all rs.ring_map a in
      (record rs { ring_map = l' }, rw q refl, refl, refl, a')

module _ (sha256 : Bytes → Bytes) (self : PeerRef) where
  new-Agrees : (i : ℕ) → Agrees sha256 self.id (λ id. false) i (new_ring sha256 i self)
  unfolding new_ring ring_id GoMap.insert GoMap.has
  new-Agrees i = record {
    numbered = refl;
    inv = new_ring-RingInv sha256 i self;
    mine = refl;
    same = λ id. ground arith;
  }

  make_rings_agree : (n i : ℕ) → AllAgree sha256 self.id (λ id. false) (make_rings sha256 n i self)
  unfolding make_rings
  make_rings_agree zero i = tt
  make_rings_agree (suc n) i = (new-Agrees i, make_rings_agree n (i + 1))

  -- The rings that `createRings` makes know the own peer alone.
  pub create_rings_agree :
      (num_rings : ℕ) (rs : Rings)
      → create_rings sha256 (some self) num_rings ≡ inl rs
      → (rs.self ≡ self)
        × (rs.num_rings ≡ num_rings)
        × AllAgree sha256 self.id (λ id. false) rs.ring_map
  unfolding create_rings
  create_rings_agree num_rings rs h =
      let made : Rings = record {
        ring_map = make_rings sha256 num_rings 1 self;
        num_rings = num_rings;
        self = self;
      } in
      let same : made ≡ rs = ground arith in
      subst
        (λ (x : Rings).
          (x.self ≡ self)
          × (x.num_rings ≡ num_rings)
          × AllAgree sha256 self.id (λ id. false) x.ring_map)
        same (refl, refl, make_rings_agree num_rings 1)

  make_rings-Room : (k n i : ℕ) → k + 1 < 2 ^ 32 → Room k (make_rings sha256 n i self)
  unfolding make_rings new_ring
  make_rings-Room k zero i h = tt
  make_rings-Room k (suc n) i h = (omega arith, make_rings-Room k n (i + 1) h)

  -- They have room for all but one of the peers that fit on a ring.
  pub create_rings-Room :
      (num_rings k : ℕ) (rs : Rings)
      → create_rings sha256 (some self) num_rings ≡ inl rs
      → k + 1 < 2 ^ 32
      → Room k rs.ring_map
  unfolding create_rings
  create_rings-Room num_rings k rs h few =
      let made : Rings = record {
        ring_map = make_rings sha256 num_rings 1 self;
        num_rings = num_rings;
        self = self;
      } in
      let same : made ≡ rs = ground arith in
      subst (λ (x : Rings). Room k x.ring_map) same (make_rings-Room k num_rings 1 few)
