-- ===== src/Discovery/Ring/Same.antt =====
-- core/discovery/ring.go: a ring is determined by the peers that it knows.
use ifrit.Prelude.{
  ℕ, zero, suc, Ordering, ◌≡◌, refl, sym, ap, ◌∙◌, subst, ◌≢◌, true, Option, none, some, List, [],
  ◌∷◌, map, arith, Bytes, length, get_elem?, bytes_eq, length-map,
}
use ifrit.Prelude.GoMap.{lookup, has-lookup}
use ifrit.Bytes.{bytes_compare, bytes_compare_refl, bytes_compare_trans}
use ifrit.Discovery.Types.{RingId, hash_id}
use ifrit.Discovery.Search.Rank.{IsSorted, AllAbove, AllAbove-get}
use ifrit.Discovery.Ring.{Ring}
use ifrit.Discovery.Ring.Invariant.{RingInv}
use ifrit.Discovery.Ring.Members.{knows}

abbrev pub hashes : List RingId → List Bytes
hashes = map (λ (e : RingId). e.hash)

-- Each hash of the first list stands in the second.
Covers : List RingId → List RingId → Type 0
Covers s t =
    (i : ℕ) (e : RingId)
    → get_elem? s i ≡ some e
    → (j : ℕ) × (f : RingId) × (get_elem? t j ≡ some f) × (f.hash ≡ e.hash)

not_lt : (a b : Bytes) → a ≡ b → bytes_compare a b ≢ Ordering.lt
not_lt a b q h = ground (arith, bytes_compare_refl a, ap (λ (x : Bytes). bytes_compare a x) q)

module _ (x y : RingId) (xs ys : List RingId) (s : AllAbove x.hash xs) (t : AllAbove y.hash ys)
    (there : Covers (x ∷ xs) (y ∷ ys)) (back : Covers (y ∷ ys) (x ∷ xs)) where
  same_head : x.hash ≡ y.hash
  unfolding Covers
  same_head = from_there (there 0 x refl) (back 0 y refl)
    where
      from_there :
          (j : ℕ) × (f : RingId) × (get_elem? (y ∷ ys) j ≡ some f) × (f.hash ≡ x.hash)
          → (k : ℕ) × (g : RingId) × (get_elem? (x ∷ xs) k ≡ some g) × (g.hash ≡ y.hash)
          → x.hash ≡ y.hash
      from_there (zero, f, q, h) back0 = ground arith
      from_there (suc j, f, q, h) (zero, g, r, k) = ground arith
      from_there (suc j, f, q, h) (suc i, g, r, k) =
          let up : bytes_compare y.hash x.hash ≡ Ordering.lt =
            subst (λ b. bytes_compare y.hash b ≡ Ordering.lt) h (AllAbove-get y.hash ys j f t q) in
          let down : bytes_compare x.hash y.hash ≡ Ordering.lt =
            subst (λ b. bytes_compare x.hash b ≡ Ordering.lt) k (AllAbove-get x.hash xs i g s r) in
          absurd (not_lt x.hash x.hash refl (bytes_compare_trans x.hash y.hash x.hash down up))

  Covers-tail : x.hash ≡ y.hash → Covers xs ys
  unfolding Covers
  Covers-tail same i e q = step (there (suc i) e q)
    where
      step :
          (j : ℕ) × (f : RingId) × (get_elem? (y ∷ ys) j ≡ some f) × (f.hash ≡ e.hash)
          → (j : ℕ) × (f : RingId) × (get_elem? ys j ≡ some f) × (f.hash ≡ e.hash)
      step (suc j, f, r, h) = (j, f, r, h)
      step (zero, f, r, h) =
          let eq : x.hash ≡ e.hash = ground arith in
          absurd (not_lt x.hash e.hash eq (AllAbove-get x.hash xs i e s q))

same_hashes :
    (s t : List RingId) → IsSorted s → IsSorted t → Covers s t → Covers t s → hashes s ≡ hashes t
unfolding Covers
same_hashes [] [] o p c d = refl
same_hashes [] (y ∷ ys) o p c d = let (j, f, q, h) = d 0 y refl in ground arith
same_hashes (x ∷ xs) [] o p c d = let (j, f, q, h) = c 0 x refl in ground arith
same_hashes (x ∷ xs) (y ∷ ys) o p c d =
    let head = same_head x y xs ys o.0 p.0 c d in
    let tail : hashes xs ≡ hashes ys =
      same_hashes xs ys o.1 p.1 (Covers-tail x y xs ys o.0 p.0 c d head)
        (Covers-tail y x ys xs p.0 o.0 d c (sym head)) in
    ground (arith, head, tail)

module _ (sha256 : Bytes → Bytes) (r r' : Ring) (inv : RingInv sha256 r) (inv' : RingInv sha256 r')
    (num : r.ring_num ≡ r'.ring_num) (same : (id : Bytes) → knows id r ≡ knows id r') where
  covers : Covers r.succ_list r'.succ_list
  unfolding Covers
  covers i e q =
      let (hashed, mapped) = inv.listed i e q in
      let known : knows e.p.id r' ≡ true =
        sym (same e.p.id) ∙ rw (has-lookup e.p.id r.peer_to_ring, mapped) refl in
      found (lookup e.p.id r'.peer_to_ring) refl known hashed
    where
      found :
          (o : Option RingId)
          → lookup e.p.id r'.peer_to_ring ≡ o
          → knows e.p.id r' ≡ true
          → e.hash ≡ hash_id sha256 r.ring_num e.p.id
          → (j : ℕ) × (f : RingId) × (get_elem? r'.succ_list j ≡ some f) × (f.hash ≡ e.hash)
      found none o k h = absurd (ground (arith, has-lookup e.p.id r'.peer_to_ring))
      found (some f) o k h =
          let (own, j, at) = inv'.known e.p.id f o in
          let (hashed, mapped) = inv'.listed j f at in
          (
            j,
            f,
            at,
            hashed
                ∙ ap (hash_id sha256 r'.ring_num) own
                ∙ ap (λ n. hash_id sha256 n e.p.id) (sym num)
                ∙ sym h,
          )

-- Two rings with the invariant and with the same number, of one node or of two, that know the same
-- ids have the same hashes in the same order, and the same length: neither the order in which peers
-- joined and left nor the node that keeps the ring has an influence.
pub hashes_of_knows :
    (sha256 : Bytes → Bytes) (r r' : Ring)
    → RingInv sha256 r
    → RingInv sha256 r'
    → r.ring_num ≡ r'.ring_num
    → ((id : Bytes) → knows id r ≡ knows id r')
    → (hashes r.succ_list ≡ hashes r'.succ_list) × (r.length ≡ r'.length)
hashes_of_knows sha256 r r' inv inv' num same =
    let equal : hashes r.succ_list ≡ hashes r'.succ_list =
      same_hashes r.succ_list r'.succ_list inv.sorted inv'.sorted
        (covers sha256 r r' inv inv' num same)
        (covers sha256 r' r inv' inv (sym num) (λ id. sym (same id))) in
    (
      equal,
      inv.counted
          ∙ sym (length-map r.succ_list (λ (e : RingId). e.hash))
          ∙ ap length equal
          ∙ length-map r'.succ_list (λ (e : RingId). e.hash)
          ∙ sym inv'.counted,
    )
