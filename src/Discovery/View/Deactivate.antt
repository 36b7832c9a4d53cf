-- ===== src/Discovery/View/Deactivate.antt =====
-- `deactivateRing` and `validMask` of core/discovery/view.go.
use ifrit.Prelude.{
  ℕ, zero, suc, ◌+◌, ◌-◌, ◌*◌, ◌/◌, ◌^◌, ◌≤◌, ◌<◌, ◌≡◌, ◌≢◌, refl, ap, arith, true, false, none,
  inl, inr, ltb, ◌==◌, Bool-cases,
}
use ifrit.Bits.{set_bit, clear_bit, has_bit, ones_count32}
use ifrit.Bits.Laws.{bit, clear_bit_self}
use ifrit.Bits.Count.{has_bit_iff, ones_below_above}
use native.Mathlib.Nat.{pow-suc}
use ifrit.Discovery.Note.{Note, is_ring_disabled}
use ifrit.Discovery.Types.{u32}
use ifrit.Discovery.View.{View, deactivate_ring, first_inactive, valid_mask}
use ifrit.Discovery.View.Mask.{MaskInv, clear-MaskInv, swap-MaskInv, some_inactive}

module _ (v : View) (mask : ℕ) (inv : MaskInv v mask) where
  -- `validMask` accepts a mask that has the invariant with the view.
  pub valid_mask-MaskInv : valid_mask mask v.rings.num_rings v.max_byz ≡ none
  unfolding valid_mask ones_count32
  valid_mask-MaskInv = ground (
    arith,
    inv.counted,
    inv.bounded,
    ones_below_above v.rings.num_rings 32 mask inv.fits inv.within,
  )

  -- With the invariant, on a ring of the view that the mask leaves active, and with `maxByz` not
  -- 0, `deactivateRing` returns a mask on which that ring is disabled; the mask and the new view
  -- have the invariant, so that at most `maxByz` rings are disabled.
  pub deactivate_ring-MaskInv :
      (ring_number : ℕ)
      → 1 ≤ ring_number
      → ring_number ≤ v.rings.num_rings
      → has_bit mask (ring_number - 1) ≡ true
      → v.max_byz ≢ 0
      → (mask' : ℕ) × ((deactivate_ring v mask ring_number).1 ≡ inl mask')
        × MaskInv (deactivate_ring v mask ring_number).0 mask'
        × (has_bit mask' (ring_number - 1) ≡ false)
  unfolding deactivate_ring
  deactivate_ring-MaskInv r a b on byz =
      let j = r - 1 in
      let low : j < 32 = omega (arith, inv.fits) in
      let idx_eq : u32 (r + 2 ^ 32 - 1) ≡ j = omega (arith, inv.fits) in
      let max_eq : u32 (v.rings.num_rings + 2 ^ 32 - 1) ≡ v.rings.num_rings - 1 =
        omega (arith, inv.fits, inv.some_ring) in
      let top_eq : v.rings.num_rings - 1 + 1 ≡ v.rings.num_rings = omega (arith, inv.some_ring) in
      let active : bit mask j ≡ 1 = ground (arith, has_bit_iff mask j low) in
      let known : j < v.rings.num_rings = omega arith in
      let no_zero : (v.max_byz == 0) ≡ false = ground arith in
      let in_range : ltb (v.rings.num_rings - 1) j ≡ false = ground arith in
      elim (Bool-cases (v.deactivated_rings == v.max_byz)) [
        | inl full ↦
            let idx = first_inactive v.rings.num_rings 0 j mask in
            let (h, apart, off) =
              some_inactive v mask j inv known active (ground (arith, inv.bounded)) in
            let m = clear_bit (set_bit mask idx) j in
            (
              m,
              rw (idx_eq, max_eq, top_eq, no_zero, in_range, on, full) refl,
              rw (idx_eq, max_eq, top_eq, no_zero, in_range, on, full)
                  (swap-MaskInv v mask j inv known active idx h apart off),
              ground (arith, has_bit_iff m j low, clear_bit_self (set_bit mask idx) j low),
            )
        | inr room ↦
            let m = clear_bit mask j in
            (
              m,
              rw (idx_eq, max_eq, no_zero, in_range, on, room) refl,
              rw (idx_eq, max_eq, no_zero, in_range, on, room)
                  (clear-MaskInv v mask j inv known active (ground arith)),
              ground (arith, has_bit_iff m j low, clear_bit_self mask j low),
            )
      ]

bit-shifted : (w m i : ℕ) → i < w → bit (m * 2 ^ w) i ≡ 0
unfolding bit
bit-shifted zero m i h = absurd (omega arith)
bit-shifted (suc w) m zero h = omega (arith, ap (λ (t : ℕ). m * t) (pow-suc 2 w))
bit-shifted (suc w) m (suc i) h = rw (double w m) (bit-shifted w m i (omega arith))
  where
    double : (w m : ℕ) → m * 2 ^ suc w / 2 ≡ m * 2 ^ w
    double w m = omega (arith, ap (λ (t : ℕ). m * t) (pow-suc 2 w))

-- The mask whose ones stand above the first 16 bits.
abbrev pub high_mask : ℕ
high_mask = 0xffff * 2 ^ 16

-- With at most 16 rings, `validMask` accepts a mask that disables any ring of them, so every ring,
-- whatever `maxByz` is: it counts the ones of the mask beyond the last ring too.
pub valid_mask_all_disabled :
    (n max_byz r : ℕ) (note : Note)
    → n ≤ 16
    → note.mask ≡ high_mask
    → 1 ≤ r
    → r ≤ n
    → (valid_mask note.mask n max_byz ≡ none) × (is_ring_disabled note r n ≡ true)
unfolding valid_mask is_ring_disabled
valid_mask_all_disabled n max_byz r note h e a b = (
  rw e (ground (arith, sixteen)),
  rw e (ground (arith, has_bit_iff high_mask (r - 1) (omega arith), bit-shifted 16 0xffff (r - 1))),
)
  where
    sixteen : ones_count32 high_mask ≡ 16
    sixteen = unfold ones_count32 in refl
