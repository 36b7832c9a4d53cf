-- ===== src/Discovery/View/Live.antt =====
-- core/discovery/view.go: the live peers and the rings say the same, through `NewView`, `AddLive`,
-- `RemoveLive` and `checkTimeouts`.
use ifrit.Prelude.{
  ℕ, ◌+◌, ◌-◌, ◌≡◌, refl, sym, ap, ◌∙◌, subst, inl, inr, Bool, false, not, ◌&&◌, ◌||◌, none, some,
  List, [], ◌∷◌, arith, Bytes, ◌=?◌, =?_iff, bytes_eq, if◌then◌else◌, Bool-cases, Option-cases, ltb,
}
use mathlib.Core.Path.{fun_ext}
use ifrit.Prelude.GoMap
use ifrit.Prelude.GoMap.{
  lookup, has-lookup, lookup-insert, lookup-delete, has-insert, has-delete, has_same,
}
use ifrit.Discovery.Types.{PeerRef}
use ifrit.Discovery.Ring.{Ring}
use ifrit.Discovery.Ring.Invariant.{IsCollisionFree}
use ifrit.Discovery.Rings.Agree.{AllAgree, Room, Room-fewer, Rings_add_agrees, Rings_remove_agrees}
use ifrit.Discovery.View.{
  View, Timeout, delete_timeout, check_loop, check_timeouts, values, add_live, remove_live,
  is_alive, close_all,
}

-- Every ring has the ring invariant and knows the own peer and the live peers, and no others; a
-- live peer stands under its own id.
pub record LiveInv (sha256 : Bytes → Bytes) (v : View) : Type 0 where
  pub agree : AllAgree sha256 v.self.id (λ id. GoMap.has id v.live_map) v.rings.ring_map
  pub own : v.rings.self ≡ v.self
  pub keyed : (id : Bytes) (p : PeerRef) → lookup id v.live_map ≡ some p → p.id ≡ id

-- The predicate on members may be replaced by an equal one.
pub AllAgree-members :
    (sha256 : Bytes → Bytes) (self : Bytes) (f g : Bytes → Bool) (l : List (ℕ × Ring))
    → ((id : Bytes) → f id ≡ g id)
    → AllAgree sha256 self f l
    → AllAgree sha256 self g l
AllAgree-members sha256 self f g l h a = subst (λ m. AllAgree sha256 self m l) (fun_ext h) a

module _ (sha256 : Bytes → Bytes) (v : View) (inv : LiveInv sha256 v) where
  -- On a view with the invariant and with room for `k + 1` more peers on every ring, and when no
  -- two byte strings have the same hash, `AddLive` of any peer does not panic and keeps the
  -- invariant, the own peer and the known peers, and leaves room for `k`; afterwards that peer is
  -- alive, and any other peer is alive exactly when it was.
  pub add_live-LiveInv :
      (k : ℕ) (p : PeerRef)
      → IsCollisionFree sha256
      → Room (k + 1) v.rings.ring_map
      → (v' : View) × (add_live sha256 v p ≡ some v')
        × LiveInv sha256 v'
        × Room k v'.rings.ring_map
        × (v'.self ≡ v.self)
        × (v'.view_map ≡ v.view_map)
        × ((id : Bytes) → is_alive v' id ≡ ((p.id =? id) || is_alive v id))
  unfolding add_live is_alive
  add_live-LiveInv k p free room = elim (Bool-cases (GoMap.has p.id v.live_map)) [
    | inl here ↦ (
      v,
      rw (add_live, here) refl,
      inv,
      Room-fewer k v.rings.ring_map room,
      refl,
      refl,
      λ id. ground (arith, has_same p.id id v.live_map),
    )
    | inr new ↦
        let (rs, heap, old, q, own, num, agree, room') =
          Rings_add_agrees sha256 v.self.id (λ id. GoMap.has id v.live_map) p k v.rings v.heap free
            room inv.agree in
        (
          record v {
            live_map = GoMap.insert p.id p v.live_map;
            rings = rs;
            heap = heap;
            closed = close_all old v.closed;
          },
          rw (add_live, new, q) refl,
          record {
            agree =
                AllAgree-members sha256 v.self.id _ _ rs.ring_map
                  (λ id. sym (has-insert p.id id p v.live_map)) agree;
            own = own ∙ inv.own;
            keyed = λ id x h.
                ground (arith, lookup-insert p.id id p v.live_map, =?_iff p.id id, inv.keyed id x);
          },
          room',
          refl,
          refl,
          λ id. has-insert p.id id p v.live_map,
        )
  ]

  -- On a view with the invariant, `RemoveLive` of any id does not panic and keeps the invariant;
  -- afterwards that id is not alive, and any other id is alive exactly when it was.
  pub remove_live-LiveInv :
      (id : Bytes)
      → (v' : View) × (remove_live v id ≡ some v')
        × LiveInv sha256 v'
        × (v'.timeout_map ≡ v.timeout_map)
        × (v'.removal_timeout ≡ v.removal_timeout)
        × ((j : Bytes) → is_alive v' j ≡ (not (id =? j) && is_alive v j))
  unfolding remove_live is_alive
  remove_live-LiveInv id = elim (Option-cases (lookup id v.live_map)) [
    | inl dead ↦ (
      v,
      rw (remove_live, dead) refl,
      inv,
      refl,
      refl,
      λ j. ground (arith, has_same id j v.live_map, has-lookup id v.live_map),
    )
    | inr (p, found) ↦
        let (rs, q, own, num, agree) =
          Rings_remove_agrees sha256 v.self.id (λ id. GoMap.has id v.live_map) p v.rings
            inv.agree in
        let key : p.id ≡ id = inv.keyed id p found in
        (
          record v {
            rings = rs;
            live_map = GoMap.delete p.id v.live_map;
            closed = p.addr ∷ v.closed;
          },
          rw (remove_live, found, q) refl,
          record {
            agree =
                AllAgree-members sha256 v.self.id _ _ rs.ring_map
                  (λ j. sym (has-delete p.id j v.live_map)) agree;
            own = own ∙ inv.own;
            keyed = λ j x h. ground (arith, lookup-delete p.id j v.live_map, inv.keyed j x);
          },
          refl,
          refl,
          λ j. has-delete p.id j v.live_map ∙ ap (λ k. not (k =? j) && GoMap.has j v.live_map) key,
        )
  ]

-- The entry ran out.
abbrev pub expired : ℕ → ℕ → Timeout → Bool
expired now limit t = ltb limit (now - t.time_stamp)

-- Some entry for the peer ran out.
abbrev pub any_expired : ℕ → ℕ → List Timeout → Bytes → Bool
any_expired now limit [] id = false
any_expired now limit (t ∷ rest) id =
    (expired now limit t && (t.accused.id =? id)) || any_expired now limit rest id

module _ (sha256 : Bytes → Bytes) (now : ℕ) where
  check_loop-LiveInv :
      (l : List Timeout) (v : View)
      → LiveInv sha256 v
      → (v' : View) × (check_loop now l v ≡ some v')
        × LiveInv sha256 v'
        × ((id : Bytes)
            → is_alive v' id ≡ (not (any_expired now v.removal_timeout l id) && is_alive v id))
        × ((id : Bytes)
            → lookup id v'.timeout_map
              ≡ (if any_expired now v.removal_timeout l id then none else lookup id v.timeout_map))
  unfolding check_loop is_alive delete_timeout
  check_loop-LiveInv [] v inv = (v, refl, inv, λ id. refl, λ id. refl)
  check_loop-LiveInv (t ∷ rest) v inv = elim (Bool-cases (expired now v.removal_timeout t)) [
    | inr stays ↦
        let (v', q, inv', live, timers) = check_loop-LiveInv rest v inv in
        (
          v',
          rw (check_loop, stays) q,
          inv',
          λ id. live id ∙ ground arith,
          λ id. timers id ∙ ground arith,
        )
    | inl out ↦
        let (w, gone, inv_w, timers_w, limit_w, live_w) =
          remove_live-LiveInv sha256 v inv t.accused.id in
        let u = delete_timeout w t.accused.id in
        let inv_u : LiveInv sha256 u = record {
          agree = inv_w.agree;
          own = inv_w.own;
          keyed = inv_w.keyed;
        } in
        let (v', q, inv', live, timers) = check_loop-LiveInv rest u inv_u in
        let same = λ (id : Bytes). ap (λ k. any_expired now k rest id) limit_w in
        (
          v',
          rw (check_loop, out, gone) q,
          inv',
          λ id. live id ∙ ground (arith, same id, live_w id),
          λ id.
              timers id
              ∙ ground (
                arith,
                same id,
                lookup-delete t.accused.id id w.timeout_map,
                ap (λ m. lookup id m) timers_w,
              ),
        )
  ]

-- On a view with the invariant `checkTimeouts` does not panic and keeps the invariant. Afterwards
-- no peer is alive that had a timer which ran out, any other peer is alive exactly when it was, and
-- exactly the timers of the peers with a timer that ran out are gone.
pub check_timeouts-LiveInv :
    (sha256 : Bytes → Bytes) (now : ℕ) (v : View)
    → LiveInv sha256 v
    → let l = values v.timeout_map in
      (v' : View) × (check_timeouts now v ≡ some v')
      × LiveInv sha256 v'
      × ((id : Bytes)
          → is_alive v' id ≡ (not (any_expired now v.removal_timeout l id) && is_alive v id))
      × ((id : Bytes)
          → lookup id v'.timeout_map
            ≡ (if any_expired now v.removal_timeout l id then none else lookup id v.timeout_map))
unfolding check_timeouts
check_timeouts-LiveInv sha256 now v inv = check_loop-LiveInv sha256 now (values v.timeout_map) v inv
