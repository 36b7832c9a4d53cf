-- ===== src/Discovery/View/Overlay.antt =====
-- core/discovery/view.go: the neighbours of a node depend on nothing but the live peers.
use ifrit.Prelude.{
  ℕ, zero, suc, ◌+◌, ◌-◌, ◌%◌, ◌≡◌, refl, sym, ap, ◌∙◌, ◌||◌, some, List, [], ◌∷◌, Bytes, bytes_eq,
  nat_eq, ◌=?◌, get_elem?, arith, if◌then◌else◌, ◌==◌,
}
use ifrit.Prelude.GoMap
use ifrit.Prelude.GoMap.{lookup}
use ifrit.Bytes.{bytes_compare_refl}
use ifrit.Discovery.Types.{RingId, compare_id, hash_id}
use ifrit.Discovery.Search
use ifrit.Discovery.Search.Rank.{rank}
use ifrit.Discovery.Search.Loops.{equal-rank}
use ifrit.Discovery.Ring.{Ring, successor, predecessor}
use ifrit.Discovery.Ring.Invariant.{RingInv, IsCollisionFree, hash_id_injective}
use ifrit.Discovery.Ring.Members.{knows}
use ifrit.Discovery.Ring.Neighbours.{own_predecessor}
use ifrit.Discovery.Ring.Same.{hashes, hashes_of_knows}
use ifrit.Discovery.Rings.Total.{Agrees-lookup, own_successor}
use ifrit.Discovery.View.{View, is_alive}
use ifrit.Discovery.View.Live.{LiveInv}

-- Lists with the same hashes have entries with the same hash at the same place.
get_elem?-hashes :
    (s t : List RingId) (i : ℕ) (e f : RingId)
    → hashes s ≡ hashes t
    → get_elem? s i ≡ some e
    → get_elem? t i ≡ some f
    → e.hash ≡ f.hash
get_elem?-hashes [] t i e f h p q = ground arith
get_elem?-hashes (x ∷ s) [] i e f h p q = ground arith
get_elem?-hashes (x ∷ s) (y ∷ t) zero e f h p q = ground arith
get_elem?-hashes (x ∷ s) (y ∷ t) (suc i) e f h p q = get_elem?-hashes s t i e f (ground arith) p q

rank-hashes : (s t : List RingId) (h : Bytes) → hashes s ≡ hashes t → rank h s ≡ rank h t
unfolding rank compare_id
rank-hashes [] [] h q = refl
rank-hashes [] (y ∷ t) h q = ground arith
rank-hashes (x ∷ s) [] h q = ground arith
rank-hashes (x ∷ s) (y ∷ t) h q = ground (arith, rank-hashes s t h)

-- The own entry stands at the rank of its hash.
own_rank :
    (sha256 : Bytes → Bytes) (r : Ring)
    → RingInv sha256 r
    → r.self_idx ≡ rank r.self_id.hash r.succ_list
unfolding compare_id
own_rank sha256 r inv =
    equal-rank r.succ_list inv.sorted r.self_id.hash r.self_idx r.self_id inv.own
      (bytes_compare_refl r.self_id.hash)

module _ (sha256 : Bytes → Bytes) (r t : Ring) (inv : RingInv sha256 r) (inv' : RingInv sha256 t)
    (free : IsCollisionFree sha256) (num : r.ring_num ≡ t.ring_num)
    (own : r.self_id.p.id ≡ t.self_id.p.id) (same : (id : Bytes) → knows id r ≡ knows id t) where
  -- Entries at the same place have the same id.
  id_at :
      (i : ℕ) (e f : RingId)
      → get_elem? r.succ_list i ≡ some e
      → get_elem? t.succ_list i ≡ some f
      → e.p.id ≡ f.p.id
  id_at i e f p q =
      let (equal, count) = hashes_of_knows sha256 r t inv inv' num same in
      let hash : e.hash ≡ f.hash = get_elem?-hashes r.succ_list t.succ_list i e f equal p q in
      hash_id_injective sha256 r.ring_num e.p.id f.p.id free (
        sym (inv.listed i e p).0
        ∙ hash
        ∙ (inv'.listed i f q).0
        ∙ ap (λ n. hash_id sha256 n f.p.id) (sym num))

  same_place : r.self_idx ≡ t.self_idx
  same_place =
      let (equal, count) = hashes_of_knows sha256 r t inv inv' num same in
      let hash : r.self_id.hash ≡ t.self_id.hash =
        (inv.listed r.self_idx r.self_id inv.own).0
        ∙ ap (hash_id sha256 r.ring_num) own
        ∙ ap (λ n. hash_id sha256 n t.self_id.p.id) num
        ∙ sym (inv'.listed t.self_idx t.self_id inv'.own).0 in
      own_rank sha256 r inv
      ∙ ap (λ h. rank h r.succ_list) hash
      ∙ rank-hashes r.succ_list t.succ_list t.self_id.hash equal
      ∙ sym (own_rank sha256 t inv')

  same_successor : (a b : RingId) → successor r ≡ some a → successor t ≡ some b → a.p.id ≡ b.p.id
  unfolding successor Search.succ
  same_successor a b p q =
      let count = (hashes_of_knows sha256 r t inv inv' num same).1 in
      id_at ((r.self_idx + 1) % r.length) a b (ground arith) (ground (arith, same_place, count))

  same_predecessor :
      (a b : RingId) → predecessor r ≡ some a → predecessor t ≡ some b → a.p.id ≡ b.p.id
  unfolding predecessor Search.prev
  same_predecessor a b p q =
      let count = (hashes_of_knows sha256 r t inv inv' num same).1 in
      id_at (if r.self_idx == 0 then r.length - 1 else (r.self_idx - 1) % r.length) a b
        (ground arith) (ground (arith, same_place, count))

-- Two views with the invariant, of the same own peer, in which the same peers are alive have, on the
-- rings with the same number, a successor and a predecessor with the same ids, when no two byte
-- strings have the same hash: in whatever order the peers came and went.
pub same_neighbours :
    (sha256 : Bytes → Bytes) (v w : View) (k : ℕ) (r t : Ring)
    → IsCollisionFree sha256
    → LiveInv sha256 v
    → LiveInv sha256 w
    → v.self.id ≡ w.self.id
    → ((id : Bytes) → is_alive v id ≡ is_alive w id)
    → lookup k v.rings.ring_map ≡ some r
    → lookup k w.rings.ring_map ≡ some t
    → (a b a' b' : RingId) × (successor r ≡ some a)
      × (predecessor r ≡ some b)
      × (successor t ≡ some a')
      × (predecessor t ≡ some b')
      × (a.p.id ≡ a'.p.id)
      × (b.p.id ≡ b'.p.id)
unfolding is_alive
same_neighbours sha256 v w k r t free inv inv' own alive h h' =
    let one =
      Agrees-lookup sha256 v.self.id (λ id. GoMap.has id v.live_map) k v.rings.ring_map r inv.agree
        h in
    let two =
      Agrees-lookup sha256 w.self.id (λ id. GoMap.has id w.live_map) k w.rings.ring_map t inv'.agree
        h' in
    let num : r.ring_num ≡ t.ring_num = one.numbered ∙ sym two.numbered in
    let mine : r.self_id.p.id ≡ t.self_id.p.id = one.mine ∙ own ∙ sym two.mine in
    let same : (id : Bytes) → knows id r ≡ knows id t = λ id.
      one.same id
      ∙ ap (λ s. (s =? id) || GoMap.has id v.live_map) own
      ∙ ap (λ b. (w.self.id =? id) || b) (alive id)
      ∙ sym (two.same id) in
    let (a, up) = own_successor sha256 r one.inv in
    let (b, down) = own_predecessor sha256 r one.inv in
    let (a', up') = own_successor sha256 t two.inv in
    let (b', down') = own_predecessor sha256 t two.inv in
    (
      a,
      b,
      a',
      b',
      up,
      down,
      up',
      down',
      same_successor sha256 r t one.inv two.inv free num mine same a a' up up',
      same_predecessor sha256 r t one.inv two.inv free num mine same b b' down down',
    )
