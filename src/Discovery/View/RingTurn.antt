-- ===== src/Discovery/View/RingTurn.antt =====
-- The gossip ring and the monitor ring of core/discovery/view.go go round all rings.
use ifrit.Prelude.{
  ℕ, zero, suc, ◌+◌, ◌-◌, ◌%◌, ◌^◌, ◌≤◌, ◌<◌, ◌≡◌, refl, arith, if◌then◌else◌, ◌==◌, inl, inr,
  Bool-cases, sym, ap, ◌∙◌,
}
use native.Mathlib.Nat.{mod-eq_of_lt, mod_self, add-mod_left}
use ifrit.Discovery.View.{View, next_ring, increment_gossip_ring, increment_monitor_ring}

next_ring_lem :
    (curr n : ℕ)
    → n < 2 ^ 32 - 1
    → 1 ≤ curr
    → curr ≤ n
    → next_ring curr n ≡ (if curr == n then 1 else curr + 1)
next_ring_lem curr n b c d =
    ground (arith, mod_self (n + 1), mod-eq_of_lt {n = curr + 1} {m = n + 1})

next_ring_round :
    (k curr n : ℕ)
    → n < 2 ^ 32 - 1
    → 1 ≤ curr
    → curr ≤ n
    → (next_ring curr n - 1 + k) % n ≡ (curr - 1 + suc k) % n
next_ring_round k curr n b c d = elim (Bool-cases (curr == n)) [
  | inl last ↦
      let sum : curr - 1 + suc k ≡ n + k = ground arith in
      let start : next_ring curr n - 1 + k ≡ k = ground (arith, next_ring_lem curr n b c d) in
      rw (sum, start) (sym (add-mod_left n k))
  | inr inner ↦
      let step : next_ring curr n - 1 + k ≡ curr - 1 + suc k =
        ground (arith, next_ring_lem curr n b c d) in
      rw step refl
]

-- `k` rounds, each with both increments.
abbrev pub rounds : ℕ → View → View
rounds zero v = v
rounds (suc k) v = rounds k (increment_monitor_ring (increment_gossip_ring v))

-- A ring number between 1 and the number of rings.
abbrev pub IsRing : ℕ → View → Type 0
IsRing curr v = (1 ≤ curr) × (curr ≤ v.rings.num_rings)

next_ring-IsRing :
    (curr n : ℕ)
    → n < 2 ^ 32 - 1
    → 1 ≤ curr
    → curr ≤ n
    → (1 ≤ next_ring curr n) × (next_ring curr n ≤ n)
next_ring-IsRing curr n b c d = ground (arith, next_ring_lem curr n b c d)

-- With fewer than 2 ^ 32 - 1 rings, both ring numbers, once between 1 and the number of rings, are
-- there after any number of rounds, `k` steps further round the circle of all rings.
pub rounds_turn :
    (k : ℕ) (v : View)
    → v.rings.num_rings < 2 ^ 32 - 1
    → IsRing v.curr_gossip_ring v
    → IsRing v.curr_monitor_ring v
    → ((rounds k v).curr_gossip_ring ≡ (v.curr_gossip_ring - 1 + k) % v.rings.num_rings + 1)
      × ((rounds k v).curr_monitor_ring ≡ (v.curr_monitor_ring - 1 + k) % v.rings.num_rings + 1)
unfolding increment_gossip_ring increment_monitor_ring
rounds_turn zero v b g m = (
  ground (arith, mod-eq_of_lt {n = v.curr_gossip_ring - 1 + 0} {m = v.rings.num_rings}),
  ground (arith, mod-eq_of_lt {n = v.curr_monitor_ring - 1 + 0} {m = v.rings.num_rings}),
)
rounds_turn (suc k) v b g m =
    let n = v.rings.num_rings in
    let later =
      rounds_turn k (increment_monitor_ring (increment_gossip_ring v)) b
        (next_ring-IsRing v.curr_gossip_ring n b g.0 g.1)
        (next_ring-IsRing v.curr_monitor_ring n b m.0 m.1) in
    (
      later.0 ∙ ap (λ (x : ℕ). x + 1) (next_ring_round k v.curr_gossip_ring n b g.0 g.1),
      later.1 ∙ ap (λ (x : ℕ). x + 1) (next_ring_round k v.curr_monitor_ring n b m.0 m.1),
    )
