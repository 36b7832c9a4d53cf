-- ===== src/Core/Safety/Invariant.antt =====
-- What holds of the view of a node between two operations, and what an operation may change.
use ifrit.Prelude.{
  ℕ, ◌+◌, ◌≤◌, ◌≡◌, ◌≢◌, refl, ◌∙◌, true, false, Option, none, some, List, [], ◌∷◌, Bytes, bytes_eq,
  =?_iff, length, arith,
}
use ifrit.Prelude.GoMap.{lookup, insert}
use ifrit.Discovery.Types.{PeerRef}
use ifrit.Discovery.Note.{Note}
use ifrit.Discovery.Peer.Signed.{HeapSigned}
use ifrit.Discovery.View.{View, exists, is_alive}
use ifrit.Discovery.View.Live.{LiveInv}
use ifrit.Core.Lifecycle.Contacts.{Keyed}

-- Every entry of the map stands under the id of its peer.
abbrev pub AllOwn : List (Bytes × PeerRef) → Type 0
AllOwn [] = Unit {0}
AllOwn ((id, p) ∷ m) = (p.id ≡ id) × AllOwn m

pub lookup-AllOwn :
    (m : List (Bytes × PeerRef)) (id : Bytes) (p : PeerRef)
    → AllOwn m
    → lookup id m ≡ some p
    → p.id ≡ id
unfolding lookup
lookup-AllOwn [] id p all h = ground arith
lookup-AllOwn ((j, q) ∷ m) id p all h = ground (arith, =?_iff j id, lookup-AllOwn m id p all.1)

pub insert-AllOwn : (p : PeerRef) (m : List (Bytes × PeerRef)) → AllOwn m → AllOwn (insert p.id p m)
unfolding insert
insert-AllOwn p [] all = (refl, tt)
insert-AllOwn p ((j, q) ∷ m) all = ground (arith, insert-AllOwn p m all.1)

-- The live peers agree with the rings and are known; the known peers stand under their own ids, and
-- the own peer is not among them; the own note is there, and all notes and accusations are signed.
pub record ViewInv (sha256 : Bytes → Bytes) (v : View) : Type 0 where
  pub live : LiveInv sha256 v
  pub keyed : AllOwn v.view_map
  pub known : (id : Bytes) → is_alive v id ≡ true → exists v id ≡ true
  pub stranger : exists v v.self.id ≡ false
  pub own : (v.heap v.self.id).note ≢ none
  pub signed : HeapSigned v.heap

abbrev pub epoch_of : Option Note → ℕ
epoch_of none = 0
epoch_of (some n) = n.epoch

-- The invariant holds afterwards, the own peer is the same, at most `c` more peers are known, and the
-- known peers stay known, none with an older note than before.
pub record Next (sha256 : Bytes → Bytes) (c : ℕ) (v v' : View) : Type 0 where
  pub inv : ViewInv sha256 v'
  pub self : v'.self ≡ v.self
  pub few : length v'.view_map ≤ length v.view_map + c
  pub kept : (id : Bytes) → exists v id ≡ true → exists v' id ≡ true
  pub epochs :
      (id : Bytes) → exists v id ≡ true → epoch_of (v.heap id).note ≤ epoch_of (v'.heap id).note

module _ (sha256 : Bytes → Bytes) where
  pub Next-same : (v : View) → ViewInv sha256 v → Next sha256 0 v v
  Next-same v inv = record {
    inv = inv;
    self = refl;
    few = omega arith;
    kept = λ id h. h;
    epochs = λ id h. omega arith;
  }

  pub Next-trans :
      (c d : ℕ) (a b e : View) → Next sha256 c a b → Next sha256 d b e → Next sha256 (c + d) a e
  Next-trans c d a b e first second = record {
    inv = second.inv;
    self = second.self ∙ first.self;
    few = omega (arith, first.few, second.few);
    kept = λ id h. second.kept id (first.kept id h);
    epochs = λ id h. omega (arith, first.epochs id h, second.epochs id (first.kept id h));
  }

  pub Next-more : (c d : ℕ) (v v' : View) → c ≤ d → Next sha256 c v v' → Next sha256 d v v'
  Next-more c d v v' h next = record {
    inv = next.inv;
    self = next.self;
    few = omega (arith, next.few);
    kept = next.kept;
    epochs = next.epochs;
  }

pub ViewInv-Keyed : (sha256 : Bytes → Bytes) (v : View) → ViewInv sha256 v → Keyed v
unfolding Keyed
ViewInv-Keyed sha256 v inv id p h = lookup-AllOwn v.view_map id p inv.keyed h
