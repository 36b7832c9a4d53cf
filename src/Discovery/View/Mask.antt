-- ===== src/Discovery/View/Mask.antt =====
-- The mask of the own note and the rings that it disables, of core/discovery/view.go.
use ifrit.Prelude.{
  ℕ, zero, suc, ◌+◌, ◌≤◌, ◌<◌, ◌≡◌, ◌≢◌, sym, ◌∙◌, arith, false, not, ◌&&◌, ◌⊎◌, inl, inr, ◌==◌,
  Bool-cases, subst,
}
use native.Mathlib.Decide.{ℕ_discrete}
use ifrit.Bits.{set_bit, clear_bit, has_bit, ones_below}
use ifrit.Bits.Laws.{bit, bit-le-one, set_bit_self, set_bit_ne, clear_bit_self, clear_bit_ne}
use ifrit.Bits.Count.{has_bit_iff, ones_below_more, ones_below_full}
use ifrit.Discovery.Types.{u32}
use ifrit.Discovery.View.{View, first_inactive}

-- The rings fit the mask, which has no bit beyond them, and `deactivatedRings` counts the disabled
-- rings, of which there are at most `maxByz`.
pub record MaskInv (v : View) (mask : ℕ) : Type 0 where
  pub fits : v.rings.num_rings ≤ 32
  pub some_ring : 0 < v.rings.num_rings
  pub within : (i : ℕ) → v.rings.num_rings ≤ i → i < 32 → bit mask i ≡ 0
  pub counted : ones_below v.rings.num_rings mask + v.deactivated_rings ≡ v.rings.num_rings
  pub bounded : v.deactivated_rings ≤ v.max_byz

-- What the search for an inactive ring from `s` on, over `n` rings, returns.
FirstInactive : ℕ → ℕ → ℕ → ℕ → ℕ → Type 0
FirstInactive n s ring_idx mask idx =
    ((idx < s + n) × (idx ≢ ring_idx) × (bit mask idx ≡ 0))
    ⊎ ((i : ℕ) → s ≤ i → i < s + n → i ≢ ring_idx → bit mask i ≡ 1)

inactive_extend :
    (n s ring_idx mask idx : ℕ)
    → (s ≢ ring_idx → bit mask s ≡ 1)
    → FirstInactive n (s + 1) ring_idx mask idx
    → FirstInactive (suc n) s ring_idx mask idx
unfolding FirstInactive
inactive_extend n s ring_idx mask idx first (inl (a, b, c)) = inl (omega arith, b, c)
inactive_extend n s ring_idx mask idx first (inr all) = inr (λ i a b d. elim (ℕ_discrete i s) [
  | yes here ↦ subst (λ k. bit mask k ≡ 1) (sym here) (first (λ e. d (here ∙ e)))
  | no past ↦ all i (omega arith) (omega arith) d
])

skipped :
    (s ring_idx mask : ℕ)
    → (not (s == ring_idx) && not (has_bit mask s)) ≡ false
    → s < 32
    → s ≢ ring_idx
    → bit mask s ≡ 1
skipped s ring_idx mask h low d = ground (arith, has_bit_iff mask s low)

first_inactive_lem :
    (n s ring_idx mask : ℕ)
    → s + n ≤ 32
    → FirstInactive n s ring_idx mask (first_inactive n s ring_idx mask)
unfolding first_inactive FirstInactive
first_inactive_lem zero s ring_idx mask h = inr (λ i a b d. absurd (omega arith))
first_inactive_lem (suc n) s ring_idx mask h =
    elim (Bool-cases (not (s == ring_idx) && not (has_bit mask s))) [
      | inl found ↦
          rw found
            (inl (omega arith, ground arith, ground (arith, has_bit_iff mask s, bit-le-one mask s)))
      | inr next ↦ rw next (
          inactive_extend n s ring_idx mask (first_inactive n (s + 1) ring_idx mask)
            (skipped s ring_idx mask next (omega arith))
            (first_inactive_lem n (s + 1) ring_idx mask (omega arith)))
    ]

module _ (v : View) (mask j : ℕ) (inv : MaskInv v mask) (known : j < v.rings.num_rings)
    (active : bit mask j ≡ 1) where
  -- One more ring is disabled.
  pub clear-MaskInv :
      v.deactivated_rings ≢ v.max_byz
      → MaskInv (record v { deactivated_rings = u32 (v.deactivated_rings + 1) }) (clear_bit mask j)
  clear-MaskInv more = record {
    fits = inv.fits;
    some_ring = inv.some_ring;
    within = λ i a b. clear_bit_ne mask j low i b (omega arith) ∙ inv.within i a b;
    counted = omega (arith, inv.counted, inv.fits, fewer);
    bounded = omega (arith, inv.bounded, inv.counted, inv.fits);
  }
    where
      low : j < 32
      low = omega (arith, inv.fits)

      fewer :
          ones_below v.rings.num_rings mask ≡ ones_below v.rings.num_rings (clear_bit mask j) + 1
      fewer =
          ones_below_more v.rings.num_rings j mask (clear_bit mask j) known active
            (clear_bit_self mask j low)
            (λ i h d. sym (clear_bit_ne mask j low i (omega (arith, inv.fits)) d))

  -- Another disabled ring becomes active in exchange.
  pub swap-MaskInv :
      (idx : ℕ)
      → idx < v.rings.num_rings
      → idx ≢ j
      → bit mask idx ≡ 0
      → MaskInv v (clear_bit (set_bit mask idx) j)
  swap-MaskInv idx h apart off = record {
    fits = inv.fits;
    some_ring = inv.some_ring;
    within = λ i a b.
        clear_bit_ne (set_bit mask idx) j low i b (omega arith)
        ∙ set_bit_ne mask idx low_idx i (omega arith)
        ∙ inv.within i a b;
    counted = omega (arith, inv.counted, more, fewer);
    bounded = inv.bounded;
  }
    where
      low : j < 32
      low = omega (arith, inv.fits)

      low_idx : idx < 32
      low_idx = omega (arith, inv.fits)

      more : ones_below v.rings.num_rings (set_bit mask idx) ≡ ones_below v.rings.num_rings mask + 1
      more =
          ones_below_more v.rings.num_rings idx (set_bit mask idx) mask h
            (set_bit_self mask idx low_idx) off (λ i k d. set_bit_ne mask idx low_idx i d)

      fewer :
          ones_below v.rings.num_rings (set_bit mask idx)
          ≡ ones_below v.rings.num_rings (clear_bit (set_bit mask idx) j) + 1
      fewer =
          ones_below_more v.rings.num_rings j (set_bit mask idx) (clear_bit (set_bit mask idx) j)
            known (set_bit_ne mask idx low_idx j (λ e. apart (sym e)) ∙ active)
            (clear_bit_self (set_bit mask idx) j low)
            (λ i k d. sym (clear_bit_ne (set_bit mask idx) j low i (omega (arith, inv.fits)) d))

  -- Where some ring is disabled, the search finds one.
  pub some_inactive :
      0 < v.deactivated_rings
      → let idx = first_inactive v.rings.num_rings 0 j mask in
        (idx < v.rings.num_rings) × (idx ≢ j) × (bit mask idx ≡ 0)
  unfolding FirstInactive
  some_inactive some_off =
      elim (first_inactive_lem v.rings.num_rings 0 j mask (omega (arith, inv.fits))) [
        | inl (a, b, c) ↦ (omega arith, b, c)
        | inr all ↦
            absurd
              (omega (arith, inv.counted, ones_below_full v.rings.num_rings mask (all_active all)))
      ]
    where
      all_active :
          ((i : ℕ) → 0 ≤ i → i < 0 + v.rings.num_rings → i ≢ j → bit mask i ≡ 1)
          → (i : ℕ) → i < v.rings.num_rings
          → bit mask i ≡ 1
      all_active all i h = elim (ℕ_discrete i j) [
        | yes here ↦ subst (λ k. bit mask k ≡ 1) (sym here) active
        | no other ↦ all i (omega arith) (omega arith) other
      ]
