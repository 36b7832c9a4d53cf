-- ===== src/Core/Lifecycle/Contacts.antt =====
-- The contacts that NewNode in core/node.go takes into the view.
use ifrit.Prelude.{
  suc, ◌+◌, ◌≤◌, false, Option, some, List, [], ◌∷◌, inl, inr, Bytes, bytes_eq, ◌=?◌, =?_iff,
  length, if◌then◌else◌, ◌≡◌, refl, ◌∙◌, arith, Bool-cases,
}
use ifrit.Prelude.GoMap.{lookup, has, insert, lookup-insert}
use ifrit.Discovery.Types.{Certificate, PeerRef}
use ifrit.Discovery.Peer.{new_peer, PeerState, PeerResult, store}
use ifrit.Discovery.View.{View, add_full}
use ifrit.Core.Node.{Services}
use ifrit.Core.Notes.{eval_certificate}
use ifrit.Core.Lifecycle.{add_contacts}

-- The rings and the live peers are the same.
pub record SameLive (v v' : View) : Type 0 where
  pub self : v'.self ≡ v.self
  pub rings : v'.rings ≡ v.rings
  pub live_map : v'.live_map ≡ v.live_map

-- Every known peer stands under its own id.
unfoldable pub Keyed : View → Type 0
Keyed v = (id : Bytes) (p : PeerRef) → lookup id v.view_map ≡ some p → p.id ≡ id

-- The new view knows at most one peer more.
pub record Grown (v v' : View) : Type 0 where
  pub same : SameLive v v'
  pub keyed : Keyed v'
  pub few : length v'.view_map ≤ suc (length v.view_map)

length-insert :
    (id : Bytes) (p : PeerRef) (m : List (Bytes × PeerRef))
    → length (insert id p m) ≤ suc (length m)
unfolding insert
length-insert id p [] = omega arith
length-insert id p ((j, q) ∷ m) = ground (arith, length-insert id p m)

stays : (v : View) → Keyed v → Grown v v
stays v keyed = record {
  same = record { self = refl; rings = refl; live_map = refl };
  keyed = keyed;
  few = omega arith;
}

pub joins :
    (v : View) (p : PeerRef) (st : PeerState)
    → Keyed v
    → Grown v (record v { view_map = insert p.id p v.view_map; heap = store p.id st v.heap })
unfolding Keyed
joins v p st keyed = record {
  same = record { self = refl; rings = refl; live_map = refl };
  keyed = λ id q h. ground (arith, lookup-insert p.id id p v.view_map, =?_iff p.id id, keyed id q);
  few = length-insert p.id p v.view_map;
}

pub add_full-Grown :
    (v : View) (id : Bytes) (c : Option Certificate) → Keyed v → Grown v (add_full v id c).0
unfolding add_full
add_full-Grown v id c keyed = elim (Bool-cases (has id v.view_map)) [
  | inl known ↦ rw (add_full, known) (stays v keyed)
  | inr new ↦ made new (new_peer c v.rings.num_rings) refl
]
  where
    made :
        has id v.view_map ≡ false
        → (x : PeerResult) → new_peer c v.rings.num_rings ≡ x
        → Grown v (add_full v id c).0
    made new (inr e) q = rw (add_full, new, q) (stays v keyed)
    made new (inl (p, st)) q = rw (add_full, new, q) (joins v p st keyed)

eval_certificate-Grown :
    (sv : Services) (ca : Option Certificate) (v : View) (c : Certificate)
    → Keyed v
    → Grown v (eval_certificate sv ca v (some c)).0
unfolding eval_certificate
eval_certificate-Grown sv ca v c keyed =
    ground (arith, stays v keyed, add_full-Grown v c.subject_key_id (some c) keyed)

-- A loop over the contacts leaves the rings and the live peers.
pub add_contacts-Grown :
    (sv : Services) (ca : Option Certificate) (v : View) (contacts : List Certificate)
    → Keyed v
    → SameLive v (add_contacts sv ca v contacts)
      × Keyed (add_contacts sv ca v contacts)
      × (length (add_contacts sv ca v contacts).view_map ≤ length v.view_map + length contacts)
unfolding add_contacts
add_contacts-Grown sv ca v [] keyed =
    (record { self = refl; rings = refl; live_map = refl }, keyed, omega arith)
add_contacts-Grown sv ca v (c ∷ rest) keyed =
    let v1 = (if v.self.id =? c.subject_key_id then v else (eval_certificate sv ca v (some c)).0) in
    let one : Grown v v1 = ground (arith, stays v keyed, eval_certificate-Grown sv ca v c keyed) in
    let (same, keyed', few) = add_contacts-Grown sv ca v1 rest one.keyed in
    (
      record {
        self = same.self ∙ one.same.self;
        rings = same.rings ∙ one.same.rings;
        live_map = same.live_map ∙ one.same.live_map;
      },
      keyed',
      omega (arith, few, one.few),
    )
