-- ===== src/Tests/Views.antt =====
-- core/discovery/view.go on a view of four rings.
use ifrit.Prelude.{
  ◌^◌, ℕ, zero, suc, ◌+◌, ◌%◌, ◌≤◌, ◌<◌, ◌≡◌, refl, true, none, some, [], ◌∷◌, bytes_eq, ◌=?◌,
  if◌then◌else◌, arith,
}
use ifrit.Prelude.GoMap.{lookup}
use ifrit.Discovery.Note.{Note, is_ring_disabled, equal}
use ifrit.Discovery.View.{View, start_timer, valid_mask, should_rebuttal}
use ifrit.Bits.{ones_below}
use ifrit.Bits.Laws.{bit}
use ifrit.Discovery.View.Rebuttal.{should_rebuttal-MaskInv}
use ifrit.Discovery.View.Timers.{timer_after, lookup-start_timer}
use ifrit.Discovery.View.Mask.{MaskInv}
use ifrit.Discovery.View.Deactivate.{high_mask, valid_mask_all_disabled}
use ifrit.Tests.{peer_of, empty_heap, blank}

abbrev view4 : View
view4 = record {
  view_map = [];
  live_map = [];
  timeout_map = [];
  rings = record { ring_map = []; num_rings = 4; self = peer_of 2 };
  curr_gossip_ring = 1;
  curr_monitor_ring = 2;
  max_byz = 1;
  deactivated_rings = 0;
  removal_timeout = 60;
  self = peer_of 2;
  heap = empty_heap;
  closed = [];
}

abbrev note_of : ℕ → ℕ → Note
note_of n mask = record { epoch = 1; mask = mask; id = n ∷ []; signature = none }

no_bit : (i : ℕ) → bit 0 i ≡ 0
unfolding bit
no_bit zero = refl
no_bit (suc i) = no_bit i

within4 : (i : ℕ) → 4 ≤ i → i < 32 → bit 15 i ≡ 0
unfolding bit
within4 zero a b = absurd (omega arith)
within4 (suc zero) a b = absurd (omega arith)
within4 (suc (suc zero)) a b = absurd (omega arith)
within4 (suc (suc (suc zero))) a b = absurd (omega arith)
within4 (suc (suc (suc (suc i)))) a b = no_bit i

mask4 : MaskInv view4 15
unfolding ones_below bit
mask4 = record {
  fits = omega arith;
  some_ring = omega arith;
  within = within4;
  counted = refl;
  bounded = omega arith;
}

valid_mask_all_disabled_example :
    (valid_mask high_mask 10 4 ≡ none) × (is_ring_disabled (note_of 1 high_mask) 3 10 ≡ true)
valid_mask_all_disabled_example =
    valid_mask_all_disabled 10 4 3 (note_of 1 high_mask) (omega arith) refl (omega arith)
      (omega arith)

lookup-start_timer_example :
    lookup
      (1 ∷ [])
      (start_timer 100 view4
        (some (peer_of 1))
        (some (note_of 1 15))
        (some (peer_of 2))).0.timeout_map
    ≡ (if (peer_of 1).id =? (peer_of 1).id
        then some (
            timer_after 100
              (peer_of 1)
              (note_of 1 15)
              (peer_of 2)
              (lookup (1 ∷ []) view4.timeout_map))
        else lookup (1 ∷ []) view4.timeout_map)
lookup-start_timer_example =
    lookup-start_timer 100 view4 (peer_of 1) (note_of 1 15) (peer_of 2) (1 ∷ []) refl

abbrev own4 : View
own4 = record view4 { heap = λ _. record blank { note = some (note_of 2 15) } }

mask_own : MaskInv own4 15
mask_own = record {
  fits = mask4.fits;
  some_ring = mask4.some_ring;
  within = mask4.within;
  counted = mask4.counted;
  bounded = mask4.bounded;
}

equal1 : equal (note_of 2 15) 1 ≡ true
unfolding equal
equal1 = refl

should_rebuttal-MaskInv_example :
    (v' : View) × (new : Note) × (should_rebuttal (λ n. some n.id) (λ b. some (b, b)) own4 1 2
      ≡ some (v', true))
    × ((v'.heap v'.self.id).note ≡ some new)
    × (new.epoch ≡ (1 + 1) % 2 ^ 64)
    × MaskInv v' new.mask
should_rebuttal-MaskInv_example =
    should_rebuttal-MaskInv (λ n. some n.id) (λ b. some (b, b)) own4 (note_of 2 15) 1 2 refl equal1
      mask_own (omega arith)
