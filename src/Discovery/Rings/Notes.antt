-- ===== src/Discovery/Rings/Notes.antt =====
-- `rings.add` of core/discovery/ring.go writes accusations, and no notes.
use ifrit.Prelude.{ℕ, ◌≡◌, refl, ◌∙◌, subst, some, List, [], ◌∷◌, Bytes, >>=-eq-some}
use ifrit.Discovery.Types.{PeerRef}
use ifrit.Discovery.Peer.{Heap}
use ifrit.Discovery.Ring.{Ring}
use ifrit.Discovery.Ring.Notes.{SameNotes, IsKept, add-keeps, drop_accusation-SameNotes}
use ifrit.Discovery.Rings.{Rings, add_to, add}

module _ (P : Heap → Type 0) (keeps : IsKept P) (sha256 : Bytes → Bytes) (p : PeerRef) where
  add_to-keeps :
      (l l' : List (ℕ × Ring)) (heap heap' : Heap) (old : List Bytes)
      → add_to sha256 l p heap ≡ some (l', heap', old)
      → P heap
      → P heap'
  unfolding add_to
  add_to-keeps [] l' heap heap' old h before = let same : heap ≡ heap' = cc in subst P same before
  add_to-keeps ((n, r) ∷ rest) l' heap heap' old h before =
      let ((r1, heap1, old1), q1, h1) = >>=-eq-some _ _ h in
      let ((rest2, heap2, old2), q2, h2) = >>=-eq-some _ _ h1 in
      let same : heap2 ≡ heap' = cc in
      subst P same (
        add_to-keeps rest rest2 heap1 heap2 old2 q2
          (add-keeps P keeps sha256 r r1 p heap heap1 old1 q1 before))

  -- `rings.add` keeps of the heap what the single write keeps.
  pub Rings_add-keeps :
      (rs rs' : Rings) (heap heap' : Heap) (old : List Bytes)
      → add sha256 rs p heap ≡ some (rs', heap', old)
      → P heap
      → P heap'
  unfolding add
  Rings_add-keeps rs rs' heap heap' old h before =
      let ((m, heap1, old1), q1, h1) = >>=-eq-some _ _ h in
      let same : heap1 ≡ heap' = cc in
      subst P same (add_to-keeps rs.ring_map m heap heap1 old1 q1 before)

pub Rings_add-SameNotes :
    (sha256 : Bytes → Bytes) (p : PeerRef) (rs rs' : Rings) (heap heap' : Heap) (old : List Bytes)
    → add sha256 rs p heap ≡ some (rs', heap', old)
    → SameNotes heap heap'
Rings_add-SameNotes sha256 p rs rs' heap heap' old h =
    Rings_add-keeps (SameNotes heap)
      (λ n succ prev mid same id. drop_accusation-SameNotes n succ prev mid id ∙ same id) sha256 p
      rs rs' heap heap' old h (λ id. refl)
