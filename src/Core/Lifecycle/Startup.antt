-- ===== src/Core/Lifecycle/Startup.antt =====
-- NewNode in core/node.go: which peers a new node knows and holds for alive.
use ifrit.Prelude.{
  not, ◌&&◌, ℕ, ◌+◌, ◌^◌, ◌<◌, ◌≤◌, Bool, true, false, ◌||◌, Option, none, some, List, [], ◌∷◌, inl,
  inr, Bytes, bytes_eq, ◌=?◌, =?_iff, length, length-map, ◌≡◌, refl, ap, ◌∙◌, subst, arith,
  Option-cases,
}
use ifrit.Prelude.GoMap.{lookup, has, has-lookup}
use ifrit.Discovery.Types.{Certificate, PeerRef}
use ifrit.Discovery.Ring.{Ring}
use ifrit.Discovery.Ring.Invariant.{IsCollisionFree}
use ifrit.Discovery.Rings.Agree.{Room}
use ifrit.Discovery.View.{View, new_view, exists, is_alive, full, values}
use ifrit.Discovery.View.Live.{LiveInv, add_live-LiveInv}
use ifrit.Discovery.View.New.{new_view-LiveInv, new_view-Room}
use ifrit.Core.Node.{Services, Node}
use ifrit.Core.Lifecycle.{
  NodeConfig, CertManager, per_interval, add_contacts, add_all_live, contact, node_of, new_node,
}
use ifrit.Core.Lifecycle.Contacts.{SameLive, Keyed, add_contacts-Grown}

-- A view that is the same there has the invariant too.
pub LiveInv-same :
    (sha256 : Bytes → Bytes) (v v' : View) → SameLive v v' → LiveInv sha256 v → LiveInv sha256 v'
LiveInv-same sha256 v v' same inv = record {
  agree = rw (same.self, same.rings, same.live_map) inv.agree;
  own = rw (same.self, same.rings) inv.own;
  keyed = rw same.live_map inv.keyed;
}

-- One of the peers has this id.
unfoldable among : Bytes → List PeerRef → Bool
among id [] = false
among id (p ∷ l) = (p.id =? id) || among id l

among-values :
    (id : Bytes) (p : PeerRef) (m : List (Bytes × PeerRef))
    → lookup id m ≡ some p
    → p.id ≡ id
    → among id (values m) ≡ true
unfolding lookup among
among-values id p [] h own = ground arith
among-values id p ((j, q) ∷ m) h own =
    ground (arith, among-values id p m, =?_iff j id, =?_iff q.id id)

add_all_live-LiveInv :
    (sha256 : Bytes → Bytes) (v : View) (l : List PeerRef)
    → IsCollisionFree sha256
    → LiveInv sha256 v
    → Room (length l) v.rings.ring_map
    → (v' : View) × (add_all_live sha256 v l ≡ some v')
      × LiveInv sha256 v'
      × (v'.view_map ≡ v.view_map)
      × ((id : Bytes) → is_alive v' id ≡ (among id l || is_alive v id))
unfolding add_all_live among
add_all_live-LiveInv sha256 v [] free inv room = (v, refl, inv, refl, λ id. refl)
add_all_live-LiveInv sha256 v (p ∷ rest) free inv room =
    let (v1, q, inv1, room1, own, known, alive) =
      add_live-LiveInv sha256 v inv (length rest) p free
        (subst (λ k. Room k v.rings.ring_map) (omega arith) room) in
    let (v2, q2, inv2, known2, alive2) = add_all_live-LiveInv sha256 v1 rest free inv1 room1 in
    (v2, rw (q, q2) refl, inv2, known2 ∙ known, λ id. alive2 id ∙ ground (arith, alive id))

Room-least : (k j : ℕ) (l : List (ℕ × Ring)) → k ≤ j → Room j l → Room k l
Room-least k j [] h room = tt
Room-least k j ((n, r) ∷ rest) h room = (omega (arith, room.0), Room-least k j rest h room.1)

Room-of :
    (v known : View) (n : ℕ)
    → SameLive v known
    → length known.view_map ≤ length v.view_map + n
    → Room (length v.view_map + n) v.rings.ring_map
    → Room (length (full known)) known.rings.ring_map
unfolding full
Room-of v known n same few room = rw same.rings (
    Room-least (length (full known)) (length v.view_map + n) v.rings.ring_map
      (omega (arith, few, length-map known.view_map (λ e. e.1))) room)

listed :
    (known v' : View) (id : Bytes)
    → Keyed known
    → v'.view_map ≡ known.view_map
    → exists v' id ≡ true
    → among id (full known) ≡ true
unfolding exists full Keyed
listed known v' id keyed same h =
    let there : has id known.view_map ≡ true = subst (λ m. has id m ≡ true) same h in
    elim (Option-cases (lookup id known.view_map)) [
      | inl none_there ↦ absurd (ground (arith, has-lookup id known.view_map))
      | inr (p, found) ↦ among-values id p known.view_map found (keyed id p found)
    ]

-- With an authority, the contacts are known, and whoever is known is alive.
contact-LiveInv :
    (sv : Services) (ca : Certificate) (v : View) (contacts : List Certificate)
    → IsCollisionFree sv.sha256
    → LiveInv sv.sha256 v
    → Keyed v
    → Room (length v.view_map + length contacts) v.rings.ring_map
    → (v' : View) × (contact sv (some ca) v contacts ≡ some v')
      × LiveInv sv.sha256 v'
      × ((id : Bytes) → exists v' id ≡ true → is_alive v' id ≡ true)
unfolding contact full exists
contact-LiveInv sv ca v contacts free inv keyed room =
    let known = add_contacts sv (some ca) v contacts in
    let (same, keyed', few) = add_contacts-Grown sv (some ca) v contacts keyed in
    let (v', q, inv', same_known, alive) =
      add_all_live-LiveInv sv.sha256 known (full known) free
        (LiveInv-same sv.sha256 v known same inv)
        (Room-of v known (length contacts) same few room) in
    (
      v',
      q,
      inv',
      λ id h. alive id ∙ ap (λ b. b || is_alive known id) (listed known v' id keyed' same_known h),
    )

all_live : (a b : Bool) → (a ≡ true → b ≡ true) → (a && not b) ≡ false
all_live a b h = ground (arith, h)

contacted :
    (sv : Services) (ca : Option Certificate) (v : View) (contacts : List Certificate)
    → IsCollisionFree sv.sha256
    → LiveInv sv.sha256 v
    → v.view_map ≡ []
    → Room (length contacts) v.rings.ring_map
    → (v' : View) × (contact sv ca v contacts ≡ some v')
      × LiveInv sv.sha256 v'
      × ((id : Bytes) → (exists v' id && not (is_alive v' id)) ≡ false)
unfolding contact Keyed lookup exists has
contacted sv none v contacts free inv empty room =
    let nobody : (id : Bytes) → has id v.view_map ≡ false = λ id. ap (has id) empty in
    (v, refl, inv, λ id. ground (arith, nobody id))
contacted sv (some ca) v contacts free inv empty room =
    let (v', q, inv', live) =
      contact-LiveInv sv ca v contacts free inv (λ id p h. ground (arith, empty))
        (Room-least (length v.view_map + length contacts) (length contacts) v.rings.ring_map
          (omega (arith, ap length empty)) room) in
    (v', q, inv', λ id. all_live (exists v' id) (is_alive v' id) (live id))

-- When NewView returns a view, for at most 32 rings, no two byte strings have the same hash and the
-- contacts fit on a ring beside the node, NewNode does not panic and returns a node whose view has
-- the invariant of the live peers and holds every peer that the node knows for alive, and from one
-- ping for each interval to one for each ring.
pub new_node-LiveInv :
    (sv : Services) (cm : CertManager) (config : NodeConfig) (v : View)
    → IsCollisionFree sv.sha256
    → cm.num_rings ≤ 32
    → length cm.contact_list + 1 < 2 ^ 32
    → new_view sv.marshal_note sv.sign sv.sha256 config.dead_timeout cm.num_rings
        (some cm.certificate)
      ≡ inl v
    → (n : Node) × (pings : ℕ) × (new_node sv cm config ≡ some (inl (n, pings)))
      × LiveInv sv.sha256 n.view
      × (1 ≤ pings)
      × (pings ≤ cm.num_rings)
      × ((id : Bytes) → (exists n.view id && not (is_alive n.view id)) ≡ false)
unfolding new_node per_interval node_of
new_node-LiveInv sv cm config v free few fits made =
    let (inv, own) =
      new_view-LiveInv sv.marshal_note sv.sign sv.sha256 config.dead_timeout cm.num_rings
        (some cm.certificate) v few made in
    let (room, empty, count, positive) =
      new_view-Room sv.marshal_note sv.sign sv.sha256 config.dead_timeout cm.num_rings
        (some cm.certificate) v (length cm.contact_list) made fits in
    let (v', q, inv', live) =
      contacted sv cm.ca_certificate v cm.contact_list free inv empty room in
    (
      node_of cm config v',
      per_interval config.pings_per_interval v.rings.num_rings,
      rw (new_node, made, q) refl,
      inv',
      ground (arith, count, positive),
      ground (arith, count, positive),
      live,
    )
