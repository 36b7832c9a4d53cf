-- ===== src/Discovery/View/Rebuttal.antt =====
-- `ShouldRebuttal` of core/discovery/view.go: the own note after an accusation.
use ifrit.Prelude.{
  ℕ, ◌+◌, ◌-◌, ◌%◌, ◌^◌, ◌≤◌, ◌<◌, ◌≡◌, refl, sym, subst, arith, true, false, Option, some, none,
  Bytes, bytes_eq, =?_iff, ◌⊎◌, inl, inr, ltb, ◌==◌, Bool-cases,
}
use ifrit.Discovery.Types.{u32}
use ifrit.Discovery.Note.{Note, PbNote, equal}
use ifrit.Discovery.View.{
  View, ViewError, deactivate_ring, signed, should_rebuttal, or_unsigned, set_own_note,
}
use ifrit.Bits.{has_bit}
use ifrit.Discovery.View.Mask.{MaskInv}
use ifrit.Discovery.View.Deactivate.{deactivate_ring-MaskInv}

-- The mask that the new note gets.
abbrev mask_or : ℕ ⊎ ViewError → ℕ → ℕ
mask_or (inl m) mask = m
mask_or (inr e) mask = mask

abbrev pub mask_after : View → ℕ → ℕ → ℕ
mask_after v mask ring_num = mask_or (deactivate_ring v mask ring_num).1 mask

module _ (v : View) (mask : ℕ) (inv : MaskInv v mask) (r : ℕ) where
  kept :
      ((deactivate_ring v mask r).0 ≡ v)
      → (mask_after v mask r ≡ mask)
      → MaskInv (deactivate_ring v mask r).0 (mask_after v mask r)
  kept same old =
      subst (λ w. MaskInv w (mask_after v mask r)) (sym same) (subst (MaskInv v) (sym old) inv)

  changed :
      (m : ℕ)
      → (deactivate_ring v mask r).1 ≡ inl m
      → MaskInv (deactivate_ring v mask r).0 m
      → MaskInv (deactivate_ring v mask r).0 (mask_after v mask r)
  changed m q new = subst (λ o. MaskInv (deactivate_ring v mask r).0 (mask_or o mask)) (sym q) new

  range :
      r < 2 ^ 32
      → ltb (u32 (v.rings.num_rings + 2 ^ 32 - 1)) (u32 (r + 2 ^ 32 - 1)) ≡ false
      → (1 ≤ r) × (r ≤ v.rings.num_rings) × (u32 (r + 2 ^ 32 - 1) ≡ r - 1)
  range small h = ground (arith, inv.fits, inv.some_ring)

  deactivated : r < 2 ^ 32 → MaskInv (deactivate_ring v mask r).0 (mask_after v mask r)
  unfolding deactivate_ring
  deactivated small = elim (Bool-cases (v.max_byz == 0)) [
    | inl zero_byz ↦ kept (ground arith) (ground arith)
    | inr some_byz ↦
        elim (Bool-cases (ltb (u32 (v.rings.num_rings + 2 ^ 32 - 1)) (u32 (r + 2 ^ 32 - 1)))) [
          | inl out ↦ kept (ground arith) (ground arith)
          | inr within ↦ elim (Bool-cases (has_bit mask (u32 (r + 2 ^ 32 - 1)))) [
            | inr off ↦ kept (ground arith) (ground arith)
            | inl on ↦
                (let (a, b, idx) = range small within in
                  let active : has_bit mask (r - 1) ≡ true =
                    subst (λ i. has_bit mask i ≡ true) idx on in
                  let (m, q, new, off) =
                    deactivate_ring-MaskInv v mask inv r a b active (ground arith) in
                  changed m q new)
          ]
        ]
  ]

module _ (marshal : PbNote → Option Bytes) (sign : Bytes → Option (Bytes × Bytes)) where
  stored-MaskInv :
      (w : View) (n : Note) (mask : ℕ)
      → MaskInv w mask
      → MaskInv (set_own_note marshal sign w n) mask
  stored-MaskInv w n mask inv = record {
    fits = inv.fits;
    some_ring = inv.some_ring;
    within = inv.within;
    counted = inv.counted;
    bounded = inv.bounded;
  }

  -- Signing changes the signature only.
  signed_rest :
      (n : Note)
      → ((or_unsigned marshal sign (signed marshal sign n) n).epoch ≡ n.epoch)
        × ((or_unsigned marshal sign (signed marshal sign n) n).mask ≡ n.mask)
  unfolding signed
  signed_rest n = ground arith

-- With the invariant between the own note's mask and the view, and for a ring number of 32 bits,
-- `ShouldRebuttal` of an accusation with the epoch of the own note rebuts it with a new own note of
-- the next epoch, wrapped at 64 bits, and the invariant holds between the new mask and the new
-- view, whether a ring could be disabled or not and whether signing failed or not.
pub should_rebuttal-MaskInv :
    (marshal : PbNote → Option Bytes) (sign : Bytes → Option (Bytes × Bytes)) (v : View)
    (own : Note) (epoch r : ℕ)
    → (v.heap v.self.id).note ≡ some own
    → equal own epoch ≡ true
    → MaskInv v own.mask
    → r < 2 ^ 32
    → (v' : View) × (new : Note) × (should_rebuttal marshal sign v epoch r ≡ some (v', true))
      × ((v'.heap v'.self.id).note ≡ some new)
      × (new.epoch ≡ (own.epoch + 1) % 2 ^ 64)
      × MaskInv v' new.mask
unfolding should_rebuttal
should_rebuttal-MaskInv marshal sign v own epoch r noted same inv small =
    let w = (deactivate_ring v own.mask r).0 in
    let plain : Note = record {
      epoch = (own.epoch + 1) % 2 ^ 64;
      mask = mask_after v own.mask r;
      id = v.self.id;
      signature = none;
    } in
    let new = or_unsigned marshal sign (signed marshal sign plain) plain in
    let rest = signed_rest marshal sign plain in
    (
      set_own_note marshal sign w new,
      new,
      rw (should_rebuttal, noted, same) refl,
      rw ((=?_iff w.self.id w.self.id).1 refl) refl,
      rest.0,
      subst (MaskInv (set_own_note marshal sign w new)) (sym rest.1) (
          stored-MaskInv marshal sign w new (mask_after v own.mask r)
            (deactivated v own.mask inv r small)),
    )
