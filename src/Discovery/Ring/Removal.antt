-- ===== src/Discovery/Ring/Removal.antt =====
-- `remove` takes one peer out of the ring, never the own one.
use ifrit.Prelude.{
  ℕ, suc, ◌+◌, ◌-◌, ◌≡◌, sym, ap, ◌∙◌, subst, ◌≢◌, inl, inr, false, none, some, arith, Bytes,
  get_elem?, if◌then◌else◌, ◌=?◌, =?_iff, bytes_eq, ltb, Bool-cases,
}
use ifrit.Prelude.GoMap
use ifrit.Prelude.GoMap.{lookup, lookup-delete}
use native.Mathlib.Numerals.{add-one}
use ifrit.Discovery.Types.{PeerRef, RingId, hash_id}
use ifrit.Discovery.Search
use ifrit.Discovery.Search.{at}
use ifrit.Discovery.Search.Rank.{get_elem?_bound}
use ifrit.Discovery.Search.Correct.{search_hit, one_index}
use ifrit.Discovery.Ring.{Ring, remove}
use ifrit.Discovery.Ring.Lists.{
  cut_at, cut_cases, cut_keeps, length-cut_at, cut_before, cut_after, cut-IsSorted,
}
use ifrit.Discovery.Ring.Invariant.{RingInv}

none-some {ℓ} : {A : Type ℓ} {a : A} → none ≡ some a → ⊥
none-some h = cc

module _ (sha256 : Bytes → Bytes) (r : Ring) (p : PeerRef) (i : ℕ) (e : RingId) where
  -- The ring without the entry at `i`.
  abbrev pub removed : Ring
  removed = record r {
    succ_list = cut_at i r.succ_list;
    length = r.length - 1;
    self_idx = if ltb i r.self_idx then r.self_idx - 1 else r.self_idx;
    peer_to_ring = GoMap.delete p.id r.peer_to_ring;
  }

  module _ (inv : RingInv sha256 r) (other : p.id ≢ r.self_id.p.id)
      (found : lookup p.id r.peer_to_ring ≡ some e) (here : get_elem? r.succ_list i ≡ some e) where
    same_id : e.p.id ≡ p.id
    same_id = (inv.known p.id e found).0

    -- The removed entry is not the own one.
    elsewhere : i ≢ r.self_idx
    elsewhere at_self =
        let mine : some e ≡ some r.self_id =
          sym here ∙ subst (λ j. get_elem? r.succ_list j ≡ some r.self_id) (sym at_self) inv.own in
        let same : e ≡ r.self_id = cc in other (sym same_id ∙ ap (λ (x : RingId). x.p.id) same)

    removed-own : get_elem? removed.succ_list removed.self_idx ≡ some removed.self_id
    removed-own = elim (Bool-cases (ltb i r.self_idx)) [
      | inl below ↦ rw below (
          cut_after i (r.self_idx - 1) r.succ_list (ground arith)
          ∙ subst (λ j. get_elem? r.succ_list j ≡ some r.self_id) (ground arith) inv.own)
      | inr above ↦
          rw above (cut_before i r.self_idx r.succ_list (ground (arith, elsewhere)) ∙ inv.own)
    ]

    -- Another index holds a peer with another id.
    kept :
        (x : RingId) (j : ℕ)
        → get_elem? r.succ_list j ≡ some x
        → lookup x.p.id r.peer_to_ring ≡ some x
        → j ≢ i
        → (if p.id =? x.p.id then none else lookup x.p.id r.peer_to_ring) ≡ some x
    kept x j old there away = elim (Bool-cases (p.id =? x.p.id)) [
      | inl same ↦
          let one : some x ≡ some e =
            sym there
            ∙ subst (λ id. lookup id r.peer_to_ring ≡ some e) ((=?_iff p.id x.p.id).0 same) found in
          let x_eq_e : x ≡ e = cc in
          absurd (away (one_index r.succ_list j i e inv.sorted (old ∙ one) here))
      | inr apart ↦ rw apart there
    ]

    known_elsewhere :
        (id : Bytes) (x : RingId) (j : ℕ)
        → (p.id =? id) ≡ false
        → x.p.id ≡ id
        → get_elem? r.succ_list j ≡ some x
        → j ≢ i
    known_elsewhere id x j apart same there at_i =
        let one : some x ≡ some e =
          sym there ∙ subst (λ k. get_elem? r.succ_list k ≡ some e) (sym at_i) here in
        let x_eq_e : x ≡ e = cc in
        let ids : p.id ≡ id = sym same_id ∙ ap (λ (y : RingId). y.p.id) (sym x_eq_e) ∙ same in
        cc ((=?_iff p.id id).1 ids)

    listed_left :
        (k : ℕ) (x : RingId)
        → get_elem? removed.succ_list k ≡ some x
        → (x.hash ≡ hash_id sha256 r.ring_num x.p.id)
          × (lookup x.p.id removed.peer_to_ring ≡ some x)
    listed_left k x q =
        let (j, away, old) = cut_cases i r.succ_list k x q in
        let (hashed, there) = inv.listed j x old in
        (hashed, rw (lookup-delete p.id x.p.id r.peer_to_ring) (kept x j old there away))

    known_left :
        (id : Bytes) (x : RingId)
        → lookup id removed.peer_to_ring ≡ some x
        → (x.p.id ≡ id) × (k : ℕ) × (get_elem? removed.succ_list k ≡ some x)
    known_left id x q =
        let found' = sym (lookup-delete p.id id r.peer_to_ring) ∙ q in
        elim (Bool-cases (p.id =? id)) [
          | inl gone ↦ absurd (
              none-some
                (subst (λ b. (if b then none else lookup id r.peer_to_ring) ≡ some x) gone found'))
          | inr stays ↦
              let old =
                subst (λ b. (if b then none else lookup id r.peer_to_ring) ≡ some x) stays found' in
              let (same, j, there) = inv.known id x old in
              let (k, left) =
                cut_keeps i r.succ_list j x (known_elsewhere id x j stays same there) there in
              (same, k, left)
        ]

    -- The ring without the peer.
    pub RingInv-removed : RingInv sha256 removed
    RingInv-removed = record {
      counted =
          omega (
            arith,
            inv.counted,
            length-cut_at i r.succ_list (get_elem?_bound r.succ_list i e here),
          );
      small = omega (arith, inv.small);
      sorted = cut-IsSorted i r.succ_list inv.sorted;
      own = removed-own;
      listed = listed_left;
      known = known_left;
    }

    -- On a ring with the invariant, `remove` of a peer whose id is not the own one and whose
    -- entry, which the map has, stands at `i`, does not panic, and gives the ring `removed`: the
    -- list without its entry `i`, with the length, the own index and the map to match.
    pub remove-removed : remove r p ≡ some removed
    unfolding remove
    remove-removed =
        let plus : suc i ≡ i + 1 = omega arith in
        let hit : Search.search r.succ_list e.hash r.length ≡ some (at i) =
          rw inv.counted (search_hit r.succ_list i e inv.sorted here) in
        ground (
          arith,
          found,
          hit,
          get_elem?_bound r.succ_list i e here,
          elsewhere,
          removed-own,
          inv.counted,
          inv.small,
          add-one i,
        )
