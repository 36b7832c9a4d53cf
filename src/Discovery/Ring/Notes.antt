-- ===== src/Discovery/Ring/Notes.antt =====
-- `add` of core/discovery/ring.go writes accusations, and no notes.
use ifrit.Prelude.{
  ℕ, ◌≡◌, refl, ap, ◌∙◌, subst, Option, none, some, List, [], Bytes, bytes_eq, >>=-eq-some, if-true,
  if-false, Bool-cases, ◌=?◌, =?_iff, inl, inr, arith, get_elem?,
}
use ifrit.Prelude.GoMap
use ifrit.Discovery.Types.{PeerRef}
use ifrit.Discovery.Search
use ifrit.Discovery.Peer.{PeerState, Heap, store, remove_ring_accusation}
use ifrit.Discovery.Ring.{
  Ring, drop_accusation, add, add_new, successor, predecessor, succ_at_idx, prev_at_idx, with_list,
  ring_id,
}

-- Every peer keeps its note.
abbrev pub SameNotes : Heap → Heap → Type 0
SameNotes heap heap' = (id : Bytes) → (heap' id).note ≡ (heap id).note

remove_ring_accusation_note :
    (st : PeerState) (n : ℕ) → (remove_ring_accusation st n).note ≡ st.note
unfolding remove_ring_accusation
remove_ring_accusation_note st n = ground arith

store-SameNotes :
    (id : Bytes) (st : PeerState) (heap : Heap)
    → st.note ≡ (heap id).note
    → SameNotes heap (store id st heap)
store-SameNotes id st heap same j = elim (Bool-cases (id =? j)) [
  | inl here ↦ rw here (same ∙ ap (λ (i : Bytes). (heap i).note) ((=?_iff id j).0 here))
  | inr there ↦ rw there refl
]

pub drop_accusation-SameNotes :
    (n : ℕ) (succ prev : PeerRef) (heap : Heap) → SameNotes heap (drop_accusation n succ prev heap)
unfolding drop_accusation
drop_accusation-SameNotes n succ prev heap id = ground (
  arith,
  store-SameNotes succ.id (remove_ring_accusation (heap succ.id) n) heap
      (remove_ring_accusation_note (heap succ.id) n) id,
)

abbrev heap_of : Heap → Option (Ring × Heap × List Bytes) → Heap
heap_of heap none = heap
heap_of heap (some (r, heap', old)) = heap'

-- What `drop_accusation` keeps.
abbrev pub IsKept : (Heap → Type 0) → Type 0
IsKept P =
    (n : ℕ) (succ prev : PeerRef) (heap : Heap) → P heap → P (drop_accusation n succ prev heap)

-- `add` keeps of the heap what `drop_accusation` keeps.
module _ (P : Heap → Type 0) (keeps : IsKept P) (sha256 : Bytes → Bytes) (r r' : Ring) (p : PeerRef)
    (heap heap' : Heap) (old : List Bytes) where
  add_new-keeps : add_new sha256 r p heap ≡ some (r', heap', old) → P heap → P heap'
  unfolding add_new
  add_new-keeps h before =
      let (a1, q1, h1) = >>=-eq-some (successor r) _ h in
      let (a2, q2, h2) = >>=-eq-some (predecessor r) _ h1 in
      let ((list, idx), q3, h3) =
        >>=-eq-some (Search.insert r.succ_list (ring_id sha256 r.ring_num p) r.length) _ h2 in
      let r1 = with_list r list idx in
      let r2 = record r1 {
        peer_to_ring = GoMap.insert p.id (ring_id sha256 r.ring_num p) r.peer_to_ring;
      } in
      let (a4, q4, h4) = >>=-eq-some (successor r1) _ h3 in
      let (a5, q5, h5) = >>=-eq-some (predecessor r1) _ h4 in
      let (a6, q6, h6) = >>=-eq-some (get_elem? r1.succ_list r1.self_idx) _ h5 in
      let (succ, q7, h7) = >>=-eq-some (succ_at_idx r2 idx) _ h6 in
      let (prev, q8, h8) = >>=-eq-some (prev_at_idx r2 idx) _ h7 in
      let same : drop_accusation r.ring_num succ.p prev.p heap ≡ heap' = ap (heap_of heap) h8 in
      subst P same (keeps r.ring_num succ.p prev.p heap before)

  pub add-keeps : add sha256 r p heap ≡ some (r', heap', old) → P heap → P heap'
  unfolding add
  add-keeps h before = elim (Bool-cases (GoMap.has p.id r.peer_to_ring)) [
    | inl here ↦
        let known = if-true (some (r, heap, [])) (add_new sha256 r p heap) here h in
        let same : heap ≡ heap' = cc in subst P same before
    | inr new ↦ add_new-keeps (if-false (some (r, heap, [])) (add_new sha256 r p heap) new h) before
  ]
