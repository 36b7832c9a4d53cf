-- ===== src/Core/Visualizer.antt =====
-- core/viz.go: the states of the rings that go to the visualizer. `none` is a panic; HTTP and the
-- JSON encoder are left out, so that a request is the state that it carries.
use ifrit.Prelude.{
  ℕ, zero, suc, ◌+◌, ◌≡◌, refl, ap, Bool, true, false, ◌&&◌, Option, none, some, List, [], ◌∷◌,
  ◌++◌, inl, inr, Bytes, bytes_eq, ◌=?◌, =?_iff, ◌↔◌, if◌then◌else◌, Bool-cases, arith, replicate,
  ◌>>=◌, length,
}
use ifrit.Prelude.GoMap
use ifrit.Bytes.{itoa}
use ifrit.Discovery.Types.{PeerRef}
use ifrit.Discovery.Rings.Total.{my_ring_successor_total, my_ring_predecessor_total}
use ifrit.Discovery.View.{View, my_ring_neighbours}
use ifrit.Discovery.View.Live.{LiveInv}

pub record State : Type 0 where
  pub id : Bytes
  pub next : Bytes
  pub prev : Bytes
  pub http_addr : Bytes
  pub trusted : Bool

pub record Viz : Type 0 where
  pub http_addr : Bytes
  pub trusted : Bool

-- The neighbours alone are compared.
unfoldable pub equal : State → State → Bool
equal s other = (s.next =? other.next) && (s.prev =? other.prev)

-- `fmt.Sprintf("%s|%d", addr, ring)`.
unfoldable pub name : Bytes → ℕ → Bytes
name addr ring_id = addr ++ (124 ∷ itoa ring_id)

abbrev pub name_of : Option PeerRef → ℕ → Bytes
name_of none ring_id = []
name_of (some p) ring_id = name p.addr ring_id

unfoldable pub new_state : Viz → View → ℕ → Option State
new_state z v ring_id = do
  (succ, prev) ← my_ring_neighbours v ring_id
  some (record {
    id = name v.self.addr ring_id;
    next = name_of succ ring_id;
    prev = name_of prev ring_id;
    http_addr = z.http_addr;
    trusted = z.trusted;
  })

-- What `updateState` starts with.
unfoldable pub no_states : ℕ → List State
no_states rings =
    replicate rings (record { id = []; next = []; prev = []; http_addr = []; trusted = false })

-- One turn of the loop of `updateState`, from ring `i` on: the states that are kept, and those that
-- are sent, in turn.
unfoldable pub update_state : Viz → View → ℕ → List State → Option (List State × List State)
update_state z v i [] = some ([], [])
update_state z v i (old ∷ rest) = do
  s ← new_state z v i
  (kept, sent) ← update_state z v (i + 1) rest
  if equal old s then some (old ∷ kept, sent) else some (s ∷ kept, s ∷ sent)

-- for i = first; i < first + n; i++
unfoldable pub add_to_viz : Viz → View → ℕ → ℕ → Option (List State)
add_to_viz z v i zero = some []
add_to_viz z v i (suc n) = do s ← new_state z v i; rest ← add_to_viz z v (i + 1) n; some (s ∷ rest)

-- The state with these neighbours.
abbrev state_with : Viz → View → ℕ → Option PeerRef → Option PeerRef → State
state_with z v i succ prev = record {
  id = name v.self.addr i;
  next = name_of succ i;
  prev = name_of prev i;
  http_addr = z.http_addr;
  trusted = z.trusted;
}

equal_iff : (s t : State) → (equal s t ≡ true) ↔ ((s.next ≡ t.next) × (s.prev ≡ t.prev))
unfolding equal
equal_iff s t = (
  λ h. (ground (arith, h, =?_iff s.next t.next), ground (arith, h, =?_iff s.prev t.prev)),
  λ h. ground (arith, h, =?_iff s.next t.next, =?_iff s.prev t.prev),
)

equal_self : (s : State) → equal s s ≡ true
equal_self s = (equal_iff s s).1 (refl, refl)

module _ (sha256 : Bytes → Bytes) (z : Viz) (v : View) (inv : LiveInv sha256 v) where
  new_state-names :
      (i : ℕ)
      → (succ prev : Option PeerRef) × (my_ring_neighbours v i ≡ some (succ, prev))
        × (new_state z v i ≡ some (state_with z v i succ prev))
  unfolding new_state my_ring_neighbours
  new_state-names i =
      let known : Bytes → Bool = λ id. GoMap.has id v.live_map in
      let (succ, q) = my_ring_successor_total sha256 v.self.id known v.rings inv.agree i in
      let (prev, q1) = my_ring_predecessor_total sha256 v.self.id known v.rings inv.agree i in
      (
        succ,
        prev,
        rw (my_ring_neighbours, q, q1) refl,
        rw (new_state, my_ring_neighbours, q, q1) refl,
      )

-- The states, one for each ring from `i` on, name the neighbours that the ring has now.
abbrev pub InSync : View → ℕ → List State → Type 0
InSync v i [] = Unit {0}
InSync v i (o ∷ rest) =
    ((succ prev : Option PeerRef) × (my_ring_neighbours v i ≡ some (succ, prev))
      × (o.next ≡ name_of succ i)
      × (o.prev ≡ name_of prev i))
    × InSync v (i + 1) rest

-- On a view with the invariant a turn of `updateState` does not panic, and the states that it keeps,
-- one for each ring, name the successor and the predecessor of now; the next turn with the same view
-- sends nothing and keeps the same states.
pub update_state_settles :
    (sha256 : Bytes → Bytes) (z : Viz) (v : View) (i : ℕ) (old : List State)
    → LiveInv sha256 v
    → (kept : List State) × (sent : List State) × (update_state z v i old ≡ some (kept, sent))
      × InSync v i kept
      × (length kept ≡ length old)
      × (update_state z v i kept ≡ some (kept, []))
unfolding update_state
update_state_settles sha256 z v i [] inv = ([], [], refl, tt, refl, refl)
update_state_settles sha256 z v i (o ∷ rest) inv =
    let (succ, prev, near, q) = new_state-names sha256 z v inv i in
    let s = state_with z v i succ prev in
    let (kept, sent, q1, sync, count, q2) = update_state_settles sha256 z v (i + 1) rest inv in
    elim (Bool-cases (equal o s)) [
      | inl same ↦
          let (next, before) = (equal_iff o s).0 same in
          (
            o ∷ kept,
            sent,
            rw (q, q1, same) refl,
            ((succ, prev, near, next, before), sync),
            ap suc count,
            rw (q, q2, same) refl,
          )
      | inr moved ↦ (
        s ∷ kept,
        s ∷ sent,
        rw (q, q1, moved) refl,
        ((succ, prev, near, refl, refl), sync),
        ap suc count,
        rw (q, q2, equal_self s) refl,
      )
    ]
