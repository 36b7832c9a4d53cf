-- ===== src/Discovery/Peer/Slots.antt =====
-- core/discovery/peer.go: the map of the accusations has a slot for each ring, whatever happens.
use ifrit.Prelude.{
  ℕ, zero, suc, ◌+◌, ◌≡◌, refl, Option, none, some, List, [], ◌∷◌, inl, inr, Bytes, arith, nat_eq,
  bytes_eq, ◌=?◌, =?_iff, Bool-cases, Option-cases,
}
use ifrit.Prelude.GoMap.{insert, lookup}
use ifrit.Discovery.Types.{PeerRef, Certificate}
use ifrit.Discovery.Note.{Note}
use ifrit.Discovery.Accusation.{Accusation, PbAccusation}
use ifrit.Discovery.Peer.{
  PeerState, new_peer, no_accusations, create_accusation, add_accusation, remove_ring_accusation,
  remove_accusation, clear_accusations, clear, add_note, increment_ping, reset_ping,
}

-- An accusation stands under the number of its ring.
abbrev InSlot : ℕ → Option Accusation → Type 0
InSlot k none = Unit {0}
InSlot k (some a) = a.ring_num ≡ k

-- The keys are i, i + 1, ..., n of them, in this order.
abbrev pub Slots : ℕ → ℕ → List (ℕ × Option Accusation) → Type 0
Slots zero i [] = Unit {0}
Slots zero i (e ∷ m) = ⊥
Slots (suc n) i [] = ⊥
Slots (suc n) i ((k, a) ∷ m) = (k ≡ i) × InSlot k a × Slots n (i + 1) m

no_accusations-Slots : (n i : ℕ) → Slots n i (no_accusations n i)
unfolding no_accusations
no_accusations-Slots zero i = tt
no_accusations-Slots (suc n) i = (refl, tt, no_accusations-Slots n (i + 1))

insert-Slots :
    (n i k : ℕ) (a old : Option Accusation) (m : List (ℕ × Option Accusation))
    → Slots n i m
    → lookup k m ≡ some old
    → InSlot k a
    → Slots n i (insert k a m)
unfolding insert lookup
insert-Slots zero i k a old [] slots found own = ground arith
insert-Slots zero i k a old (e ∷ m) slots found own = absurd slots
insert-Slots (suc n) i k a old [] slots found own = absurd slots
insert-Slots (suc n) i k a old ((j, b) ∷ m) (here, right, rest) found own =
    elim (Bool-cases (j =? k)) [
      | inl same ↦ rw same (ground (arith, =?_iff j k), own, rest)
      | inr other ↦ rw other (here, right, insert-Slots n (i + 1) k a old m rest (ground arith) own)
    ]

clear-Slots : (n i : ℕ) (m : List (ℕ × Option Accusation)) → Slots n i m → Slots n i (clear m)
clear-Slots zero i [] slots = tt
clear-Slots zero i (e ∷ m) slots = absurd slots
clear-Slots (suc n) i [] slots = absurd slots
clear-Slots (suc n) i ((k, a) ∷ m) (here, right, rest) = (here, tt, clear-Slots n (i + 1) m rest)

-- The states that a peer of `n` rings can have.
pub data Handled (marshal : PbAccusation → Option Bytes) (sign : Bytes → Option (Bytes × Bytes))
    (n : ℕ) : PeerState → Type 0 where
  made :
      (cert : Option Certificate) (p : PeerRef) (st : PeerState)
      → new_peer cert n ≡ inl (p, st)
      → Handled marshal sign n st
  creates :
      (st : PeerState) (accused : Note) (self : PeerRef) (ring_num : ℕ)
      → Handled marshal sign n st
      → Handled marshal sign n (create_accusation marshal sign st accused self ring_num).0
  adds :
      (st : PeerState) (accused accuser : Bytes) (epoch ring_num : ℕ) (r s : Option Bytes)
      → Handled marshal sign n st
      → Handled marshal sign n (add_accusation st accused accuser epoch ring_num r s).0
  removes :
      (st : PeerState) (a : Accusation)
      → Handled marshal sign n st
      → Handled marshal sign n (remove_accusation st a)
  removes_ring :
      (st : PeerState) (ring_num : ℕ)
      → Handled marshal sign n st
      → Handled marshal sign n (remove_ring_accusation st ring_num)
  clears :
      (st : PeerState) → Handled marshal sign n st → Handled marshal sign n (clear_accusations st)
  notes :
      (st : PeerState) (p : PeerRef) (mask epoch : ℕ) (r s : Option Bytes)
      → Handled marshal sign n st
      → Handled marshal sign n (add_note p st mask epoch r s)
  pings : (st : PeerState) → Handled marshal sign n st → Handled marshal sign n (increment_ping st)
  resets : (st : PeerState) → Handled marshal sign n st → Handled marshal sign n (reset_ping st)

module _ (marshal : PbAccusation → Option Bytes) (sign : Bytes → Option (Bytes × Bytes))
    (n : ℕ) where
  create_accusation-Slots :
      (st : PeerState) (accused : Note) (self : PeerRef) (k : ℕ)
      → Slots n 1 st.accusations
      → Slots n 1 (create_accusation marshal sign st accused self k).0.accusations
  unfolding create_accusation
  create_accusation-Slots st accused self k slots = elim (Option-cases (lookup k st.accusations)) [
    | inl e ↦ ground arith
    | inr (old, e) ↦
        let msg : PbAccusation = record {
          epoch = accused.epoch;
          accuser = self.id;
          accused = accused.id;
          ring_num = k;
          signature = none;
        } in
        elim (Option-cases (marshal msg)) [
          | inl e1 ↦ ground arith
          | inr (b, e1) ↦ elim (Option-cases (sign b)) [
            | inl e2 ↦ ground arith
            | inr ((r, s), e2) ↦
                let new : Accusation = record {
                  ring_num = k;
                  epoch = accused.epoch;
                  accuser = self.id;
                  accused = accused.id;
                  signature = some (record { r = some r; s = some s });
                } in
                ground (arith, insert-Slots n 1 k (some new) old st.accusations slots e refl)
          ]
        ]
  ]

  remove_ring_accusation-Slots :
      (st : PeerState) (k : ℕ)
      → Slots n 1 st.accusations
      → Slots n 1 (remove_ring_accusation st k).accusations
  unfolding remove_ring_accusation
  remove_ring_accusation-Slots st k slots = elim (Option-cases (lookup k st.accusations)) [
    | inl e ↦ ground arith
    | inr (old, e) ↦ ground (arith, insert-Slots n 1 k none old st.accusations slots e tt)
  ]

  add_accusation-Slots :
      (st : PeerState) (accused accuser : Bytes) (epoch k : ℕ) (r s : Option Bytes)
      → Slots n 1 st.accusations
      → Slots n 1 (add_accusation st accused accuser epoch k r s).0.accusations
  unfolding add_accusation
  add_accusation-Slots st accused accuser epoch k r s slots =
      let new : Accusation = record {
        ring_num = k;
        epoch = epoch;
        accuser = accuser;
        accused = accused;
        signature = some (record { r = r; s = s });
      } in
      elim (Option-cases (lookup k st.accusations)) [
        | inl e ↦ ground arith
        | inr (old, e) ↦
            ground (arith, insert-Slots n 1 k (some new) old st.accusations slots e refl)
      ]

  -- Whatever operations a peer of `n` rings sees, its map of accusations has the keys 1 to `n`, each
  -- once, with nil or an accusation of that ring.
  pub Handled-Slots : (st : PeerState) → Handled marshal sign n st → Slots n 1 st.accusations
  unfolding new_peer remove_accusation clear_accusations add_note increment_ping reset_ping
  Handled-Slots st (made none p st1 h) = ground arith
  Handled-Slots st (made (some cert) p st1 h) = ground (arith, no_accusations-Slots n 1)
  Handled-Slots st (creates st0 accused self k h) =
      create_accusation-Slots st0 accused self k (Handled-Slots st0 h)
  Handled-Slots st (adds st0 accused accuser epoch k r s h) =
      add_accusation-Slots st0 accused accuser epoch k r s (Handled-Slots st0 h)
  Handled-Slots st (removes st0 a h) =
      remove_ring_accusation-Slots st0 a.ring_num (Handled-Slots st0 h)
  Handled-Slots st (removes_ring st0 k h) = remove_ring_accusation-Slots st0 k (Handled-Slots st0 h)
  Handled-Slots st (clears st0 h) = clear-Slots n 1 st0.accusations (Handled-Slots st0 h)
  Handled-Slots st (notes st0 p mask epoch r s h) = ground (arith, Handled-Slots st0 h)
  Handled-Slots st (pings st0 h) = Handled-Slots st0 h
  Handled-Slots st (resets st0 h) = Handled-Slots st0 h
