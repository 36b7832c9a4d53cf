-- ===== src/Discovery/Peer/Signed.antt =====
-- core/discovery/peer.go: the notes and the accusations of a peer keep their signatures, which
-- `ToPbMsg` dereferences.
use ifrit.Prelude.{
  ℕ, zero, suc, ◌+◌, ◌≡◌, ◌≢◌, refl, Bool-cases, inl, inr, Option, none, some, List, [], ◌∷◌, Bytes,
  arith, nat_eq, bytes_eq, ◌=?◌, Option-cases,
}
use ifrit.Prelude.GoMap.{insert}
use ifrit.Discovery.Types.{PeerRef, Certificate}
use ifrit.Discovery.Note.{Note, Signature, PbNote}
use ifrit.Discovery.Note
use ifrit.Discovery.Accusation.{Accusation, PbAccusation}
use ifrit.Discovery.Accusation
use ifrit.Discovery.Peer.{
  PeerState, Heap, new_peer, store, no_accusations, create_accusation, add_accusation,
  remove_ring_accusation, add_note, present, accusation_msgs,
}

abbrev pub NoteSigned : Option Note → Type 0
NoteSigned none = Unit {0}
NoteSigned (some n) = n.signature ≢ none

abbrev pub AllSigned : List (ℕ × Option Accusation) → Type 0
AllSigned [] = Unit {0}
AllSigned ((k, none) ∷ m) = AllSigned m
AllSigned ((k, some a) ∷ m) = (a.signature ≢ none) × AllSigned m

-- The note of the peer, when there is one, and all its accusations have a signature.
abbrev pub StateSigned : PeerState → Type 0
StateSigned st = NoteSigned st.note × AllSigned st.accusations

abbrev pub HeapSigned : Heap → Type 0
HeapSigned heap = (id : Bytes) → StateSigned (heap id)

AllSigned-no_accusations : (n i : ℕ) → AllSigned (no_accusations n i)
unfolding no_accusations
AllSigned-no_accusations zero i = tt
AllSigned-no_accusations (suc n) i = AllSigned-no_accusations n (i + 1)

-- A new peer has no note and no accusation.
pub new_peer-Signed :
    (cert : Option Certificate) (n : ℕ) (p : PeerRef) (st : PeerState)
    → new_peer cert n ≡ inl (p, st)
    → StateSigned st
unfolding new_peer
new_peer-Signed none n p st h = ground arith
new_peer-Signed (some c) n p st h = ground (arith, AllSigned-no_accusations n 1)

insert-AllSigned :
    (k : ℕ) (a : Option Accusation) (m : List (ℕ × Option Accusation))
    → AllSigned ((k, a) ∷ [])
    → AllSigned m
    → AllSigned (insert k a m)
unfolding insert
insert-AllSigned k a [] new old = new
insert-AllSigned k none ((j, none) ∷ m) new old = ground (arith, insert-AllSigned k none m)
insert-AllSigned k none ((j, some b) ∷ m) new old = ground (arith, insert-AllSigned k none m)
insert-AllSigned k (some a) ((j, none) ∷ m) new old = ground (arith, insert-AllSigned k (some a) m)
insert-AllSigned k (some a) ((j, some b) ∷ m) new old =
    ground (arith, insert-AllSigned k (some a) m)

pub store-HeapSigned :
    (id : Bytes) (st : PeerState) (heap : Heap)
    → StateSigned st
    → HeapSigned heap
    → HeapSigned (store id st heap)
store-HeapSigned id st heap new old j = elim (Bool-cases (id =? j)) [
  | inl here ↦ rw here new
  | inr there ↦ rw there (old j)
]

module _ (st : PeerState) (ok : StateSigned st) where
  pub remove_ring_accusation-Signed : (n : ℕ) → StateSigned (remove_ring_accusation st n)
  unfolding remove_ring_accusation
  remove_ring_accusation-Signed n = ground (arith, insert-AllSigned n none st.accusations tt ok.1)

  pub add_note-Signed :
      (p : PeerRef) (mask epoch : ℕ) (r s : Option Bytes)
      → StateSigned (add_note p st mask epoch r s)
  unfolding add_note
  add_note-Signed p mask epoch r s = ground arith

  pub add_accusation-Signed :
      (accused accuser : Bytes) (epoch ring_num : ℕ) (r s : Option Bytes)
      → StateSigned (add_accusation st accused accuser epoch ring_num r s).0
  unfolding add_accusation
  add_accusation-Signed accused accuser epoch ring_num r s =
      let new : Accusation = record {
        ring_num = ring_num;
        epoch = epoch;
        accuser = accuser;
        accused = accused;
        signature = some (record { r = r; s = s });
      } in
      ground (arith, insert-AllSigned ring_num (some new) st.accusations)

-- The accusation that `CreateAccusation` makes.
abbrev issued : Note → PeerRef → ℕ → Bytes → Bytes → Accusation
issued accused self ring_num r s = record {
  ring_num = ring_num;
  epoch = accused.epoch;
  accuser = self.id;
  accused = accused.id;
  signature = some (record { r = some r; s = some s });
}

abbrev unsigned : Note → PeerRef → ℕ → PbAccusation
unsigned accused self ring_num = record {
  epoch = accused.epoch;
  accuser = self.id;
  accused = accused.id;
  ring_num = ring_num;
  signature = none;
}

issued-AllSigned :
    (accused : Note) (self : PeerRef) (ring_num : ℕ) (m : List (ℕ × Option Accusation))
    → AllSigned m
    → (r s : Bytes) → AllSigned (insert ring_num (some (issued accused self ring_num r s)) m)
issued-AllSigned accused self ring_num m ok r s =
    insert-AllSigned ring_num (some (issued accused self ring_num r s)) m ((λ e. cc), tt) ok

module _ (marshal : PbAccusation → Option Bytes) (sign : Bytes → Option (Bytes × Bytes)) where
  pub create_accusation-Signed :
      (st : PeerState) (accused : Note) (self : PeerRef) (ring_num : ℕ)
      → StateSigned st
      → StateSigned (create_accusation marshal sign st accused self ring_num).0
        × ((create_accusation marshal sign st accused self ring_num).0.note ≡ st.note)
  unfolding create_accusation
  create_accusation-Signed st accused self ring_num ok = (
    elim (Option-cases (marshal (unsigned accused self ring_num))) [
      | inl e ↦ ground arith
      | inr (b, e) ↦ elim (Option-cases (sign b)) [
        | inl e1 ↦ ground arith
        | inr ((r, s), e1) ↦
            ground (arith, issued-AllSigned accused self ring_num st.accusations ok.1 r s)
      ]
    ],
    ground arith,
  )

-- A signed note has a message.
pub to_pb_msg-some : (n : Note) → NoteSigned (some n) → (m : PbNote) × (Note.to_pb_msg n ≡ some m)
unfolding Note.to_pb_msg
to_pb_msg-some n ok = elim (Option-cases n.signature) [
  | inl e ↦ absurd (ok e)
  | inr (s, e) ↦ (
    record { epoch = n.epoch; id = n.id; mask = n.mask; signature = some s },
    rw (Note.to_pb_msg, e) refl,
  )
]

-- The accusations of a peer have messages.
pub accusation_msgs-some :
    (m : List (ℕ × Option Accusation))
    → AllSigned m
    → (l : List PbAccusation) × (accusation_msgs (present m) ≡ some l)
unfolding accusation_msgs present Accusation.to_pb_msg
accusation_msgs-some [] ok = ([], refl)
accusation_msgs-some ((k, none) ∷ m) ok = accusation_msgs-some m ok
accusation_msgs-some ((k, some a) ∷ m) ok = elim (Option-cases a.signature) [
  | inl e ↦ absurd (ok.0 e)
  | inr (s, e) ↦
      let (l, q) = accusation_msgs-some m ok.1 in
      (
        record {
          epoch = a.epoch;
          accuser = a.accuser;
          accused = a.accused;
          ring_num = a.ring_num;
          signature = some s;
        }
            ∷ l,
        rw (accusation_msgs, e, q) refl,
      )
]
