-- ===== src/Core/Safety/Live.antt =====
-- core/discovery/view.go: AddLive, RemoveLive and the writes to a peer keep the invariant of a node.
use ifrit.Prelude.{
  ◌⊎◌, ◌+◌, ◌^◌, ◌<◌, ◌≤◌, ◌≡◌, ◌≢◌, refl, sym, ap, ◌∙◌, subst, true, false, none, some, inl, inr,
  Bytes, bytes_eq, ◌=?◌, =?_iff, length, Bool-cases, Option-cases, arith, >>=-eq-some, if-false,
}
use ifrit.Prelude.GoMap
use ifrit.Prelude.GoMap.{lookup, has-lookup}
use ifrit.Discovery.Types.{PeerRef}
use ifrit.Discovery.Peer.{PeerState, Heap, store, remove_ring_accusation}
use ifrit.Discovery.Peer.Signed.{
  StateSigned, HeapSigned, store-HeapSigned, remove_ring_accusation-Signed,
}
use ifrit.Discovery.Ring.{drop_accusation}
use ifrit.Discovery.Ring.Invariant.{IsCollisionFree}
use ifrit.Discovery.Ring.Notes.{IsKept}
use ifrit.Discovery.Rings.Notes.{Rings_add-keeps}
use ifrit.Discovery.Rings
use ifrit.Discovery.View.{View, exists, is_alive, add_live, remove_live}
use ifrit.Discovery.View.Live.{add_live-LiveInv, remove_live-LiveInv}
use ifrit.Core.Notes.{write}
use ifrit.Core.Notes.Stored.{add_live-SameNotes}
use ifrit.Core.Lifecycle.Contacts.{SameLive}
use ifrit.Core.Lifecycle.Startup.{LiveInv-same}
use ifrit.Core.Safety.Invariant.{ViewInv, Next, epoch_of}
use ifrit.Core.Safety.Room.{ViewInv-Room}

drop_accusation-HeapSigned : IsKept HeapSigned
unfolding drop_accusation
drop_accusation-HeapSigned n succ prev heap ok id = ground (
  arith,
  ok id,
  store-HeapSigned succ.id (remove_ring_accusation (heap succ.id) n) heap
      (remove_ring_accusation-Signed (heap succ.id) (ok succ.id) n) ok id,
)

add_live-HeapSigned :
    (sha256 : Bytes → Bytes) (v v' : View) (p : PeerRef)
    → add_live sha256 v p ≡ some v'
    → HeapSigned v.heap
    → HeapSigned v'.heap
unfolding add_live
add_live-HeapSigned sha256 v v' p h ok = elim (Bool-cases (GoMap.has p.id v.live_map)) [
  | inl here ↦ let same : v ≡ v' = ground arith in subst (λ (x : View). HeapSigned x.heap) same ok
  | inr new ↦
      let ((rs', heap', old), q, h') =
        >>=-eq-some (Rings.add sha256 v.rings p v.heap) _ (if-false (some v) _ new h) in
      let same : heap' ≡ v'.heap = ground arith in
      subst HeapSigned same (
        Rings_add-keeps HeapSigned drop_accusation-HeapSigned sha256 p v.rings rs' v.heap heap' old
          q ok)
]

module _ (sha256 : Bytes → Bytes) (v : View) (inv : ViewInv sha256 v) where
  -- `AddLive` of a known peer does not panic.
  pub add_live-Next :
      (p : PeerRef)
      → IsCollisionFree sha256
      → length v.view_map + 2 < 2 ^ 32
      → exists v p.id ≡ true
      → (v' : View) × (add_live sha256 v p ≡ some v') × Next sha256 0 v v'
  unfolding exists
  add_live-Next p free few known =
      let (v', q, live, room, self, same, alive) =
        add_live-LiveInv sha256 v inv.live 0 p free (ViewInv-Room sha256 1 v inv (omega arith)) in
      let notes = add_live-SameNotes sha256 v v' p q in
      (
        v',
        q,
        record {
          inv = record {
            live = live;
            keyed = rw same inv.keyed;
            known = λ id h. rw same (ground (arith, alive id, inv.known id, =?_iff p.id id));
            stranger = rw (same, self) inv.stranger;
            own = rw self (λ e. inv.own (sym (notes v.self.id) ∙ e));
            signed = add_live-HeapSigned sha256 v v' p q inv.signed;
          };
          self = self;
          few = omega (arith, ap length same);
          kept = λ id h. rw same h;
          epochs = λ id h. omega (arith, ap epoch_of (notes id));
        },
      )

  remove_live_keeps :
      (id : Bytes) (v' : View)
      → remove_live v id ≡ some v'
      → (v'.heap ≡ v.heap) × (v'.view_map ≡ v.view_map) × (v'.self ≡ v.self)
  unfolding remove_live
  remove_live_keeps id v' h = elim (Option-cases (lookup id v.live_map)) [
    | inl dead ↦ let same : v ≡ v' = ground arith in (ground arith, ground arith, ground arith)
    | inr (p, found) ↦ elim (Option-cases (Rings.remove v.rings p)) [
      | inl e ↦ absurd (ground arith)
      | inr (rs, e) ↦ (ground arith, ground arith, ground arith)
    ]
  ]

  -- `RemoveLive` does not panic.
  pub remove_live-Next :
      (id : Bytes) → (v' : View) × (remove_live v id ≡ some v') × Next sha256 0 v v'
  unfolding exists
  remove_live-Next id =
      let (v', q, live, timers, limit, alive) = remove_live-LiveInv sha256 v inv.live id in
      let (heap, known, self) = remove_live_keeps id v' q in
      (
        v',
        q,
        record {
          inv = record {
            live = live;
            keyed = rw known inv.keyed;
            known = λ j h. rw known (ground (arith, alive j, inv.known j));
            stranger = rw (known, self) inv.stranger;
            own = rw (heap, self) inv.own;
            signed = rw heap inv.signed;
          };
          self = self;
          few = omega (arith, ap length known);
          kept = λ j h. rw known h;
          epochs = λ j h. omega (arith, ap (λ (m : Heap). epoch_of (m j).note) heap);
        },
      )

  -- What leaves the rings, the live and the known peers, and writes the heap as it may.
  pub Next-heap :
      (v' : View)
      → SameLive v v'
      → v'.view_map ≡ v.view_map
      → HeapSigned v'.heap
      → (v'.heap v.self.id).note ≢ none
      → ((id : Bytes) → exists v id ≡ true → epoch_of (v.heap id).note ≤ epoch_of (v'.heap id).note)
      → Next sha256 0 v v'
  unfolding exists is_alive
  Next-heap v' same known signed own epochs = record {
    inv = record {
      live = LiveInv-same sha256 v v' same inv.live;
      keyed = rw known inv.keyed;
      known = rw (known, same.live_map) inv.known;
      stranger = rw (known, same.self) inv.stranger;
      own = rw same.self own;
      signed = signed;
    };
    self = same.self;
    few = omega (arith, ap length known);
    kept = λ id h. rw known h;
    epochs = epochs;
  }

  -- What leaves the heap too.
  pub Next-rest :
      (v' : View) → SameLive v v' → v'.view_map ≡ v.view_map → v'.heap ≡ v.heap → Next sha256 0 v v'
  Next-rest v' same known heap =
      Next-heap v' same known (rw heap inv.signed) (rw heap inv.own)
        (λ id h. omega (arith, ap (λ (m : Heap). epoch_of (m id).note) heap))

  -- A write to a peer.
  pub Next-write :
      (p : PeerRef) (st : PeerState)
      → StateSigned st
      → ((v.heap p.id).note ≢ none → st.note ≢ none)
      → (exists v p.id ≡ true → epoch_of (v.heap p.id).note ≤ epoch_of st.note)
      → Next sha256 0 v (write v p st)
  Next-write p st signed own epoch =
      Next-heap (write v p st) (record { self = refl; rings = refl; live_map = refl }) refl
        (store-HeapSigned p.id st v.heap signed inv.signed)
        (written_own (Bool-cases (p.id =? v.self.id)))
        λ id h. written id h (Bool-cases (p.id =? id))
    where
      written_own :
          (p.id =? v.self.id) ≡ true ⊎ (p.id =? v.self.id) ≡ false
          → (store p.id st v.heap v.self.id).note ≢ none
      written_own (inl here) = rw here (own (rw ((=?_iff p.id v.self.id).0 here) inv.own))
      written_own (inr there) = rw there inv.own

      written :
          (id : Bytes)
          → exists v id ≡ true
          → (p.id =? id) ≡ true ⊎ (p.id =? id) ≡ false
          → epoch_of (v.heap id).note ≤ epoch_of (store p.id st v.heap id).note
      written id h (inl here) = ground (arith, =?_iff p.id id)
      written id h (inr there) = rw there (omega arith)
