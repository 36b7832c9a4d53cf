-- ===== src/Cauth/Boot.antt =====
-- addKnownCert and getTrustedNodes of cauth/cauth.go: the certificates of the boot nodes.
use ifrit.Prelude.{
  ℕ, zero, suc, ◌+◌, ◌^◌, ◌<◌, ◌≤◌, Bool, true, false, Option, none, some, List, [], ◌∷◌, ◌++◌, map,
  Bytes, length, take, set, replicate, ltb, leb, if◌then◌else◌, ◌>>=◌, ◌≡◌, refl, ap, sym, ◌∙◌,
  arith, length-append, Bool-cases, inl, inr,
}
use ifrit.Discovery.Types.{Certificate, u32}
use ifrit.Cauth.{Group, group_of}

-- The result is `none` for a write out of range.
unfoldable pub add_known_cert : Group → Certificate → Option (Group × Bool)
add_known_cert g new =
    let curr = u32 (g.curr_boot_nodes + 1) in
    if ltb g.curr_boot_nodes g.boot_nodes
    then (if ltb g.curr_boot_nodes (length g.known_certs)
        then some (
          record g {
            known_certs = set g.known_certs g.curr_boot_nodes (some new);
            curr_boot_nodes = curr;
          },
          leb curr g.boot_nodes,
        )
        else none)
    else some (record g { curr_boot_nodes = curr }, leb curr g.boot_nodes)

-- `make` of n slots, and `copy` into them.
unfoldable pub copied : ℕ → List (Option Certificate) → List (Option Certificate)
copied zero l = []
copied (suc n) [] = none ∷ copied n []
copied (suc n) (c ∷ l) = c ∷ copied n l

-- The loop that reads `c.Raw`, a panic on nil.
unfoldable pub raws : List (Option Certificate) → Option (List Bytes)
raws [] = some []
raws (none ∷ l) = none
raws (some c ∷ l) = do rest ← raws l; some (c.raw ∷ rest)

unfoldable pub get_trusted_nodes : Group → Option (List Bytes)
get_trusted_nodes g =
    if leb g.boot_nodes g.curr_boot_nodes
    then raws (copied g.boot_nodes g.known_certs)
    else (if leb g.curr_boot_nodes (length g.known_certs)
        then raws (copied g.curr_boot_nodes (take g.curr_boot_nodes g.known_certs))
        else none)

-- The slots that hold a list of certificates.
unfoldable pub slots : ℕ → List Certificate → List (Option Certificate)
slots zero cs = []
slots (suc n) [] = none ∷ slots n []
slots (suc n) (c ∷ cs) = some c ∷ slots n cs

length-slots : (n : ℕ) (cs : List Certificate) → length (slots n cs) ≡ n
unfolding slots
length-slots zero cs = refl
length-slots (suc n) [] = ap suc (length-slots n [])
length-slots (suc n) (c ∷ cs) = ap suc (length-slots n cs)

slots_empty : (n : ℕ) → replicate n none ≡ slots n []
unfolding slots
slots_empty zero = refl
slots_empty (suc n) = ap (λ l. none ∷ l) (slots_empty n)

set-slots :
    (n : ℕ) (cs : List Certificate) (c : Certificate)
    → set (slots n cs) (length cs) (some c) ≡ slots n (cs ++ (c ∷ []))
unfolding slots
set-slots zero cs c = refl
set-slots (suc n) [] c = refl
set-slots (suc n) (d ∷ cs) c = ap (λ l. some d ∷ l) (set-slots n cs c)

slots_full :
    (n : ℕ) (cs : List Certificate) (c : Certificate)
    → n ≤ length cs
    → slots n (cs ++ (c ∷ [])) ≡ slots n cs
unfolding slots
slots_full zero cs c h = refl
slots_full (suc n) [] c h = absurd (omega (arith, h))
slots_full (suc n) (d ∷ cs) c h = ap (λ l. some d ∷ l) (slots_full n cs c (omega (arith, h)))

copied-take : (n : ℕ) (l : List (Option Certificate)) → copied n (take n l) ≡ copied n l
unfolding copied
copied-take zero l = refl
copied-take (suc n) [] = refl
copied-take (suc n) (c ∷ l) = ap (λ r. c ∷ r) (copied-take n l)

raws-slots :
    (k n : ℕ) (cs : List Certificate)
    → k ≤ n
    → k ≤ length cs
    → raws (copied k (slots n cs)) ≡ some (map (λ c. c.raw) (take k cs))
unfolding raws copied slots
raws-slots zero n cs h g = refl
raws-slots (suc k) zero cs h g = absurd (omega (arith, h))
raws-slots (suc k) (suc n) [] h g = absurd (omega (arith, g))
raws-slots (suc k) (suc n) (c ∷ cs) h g =
    rw (raws-slots k n cs (omega (arith, h)) (omega (arith, g))) refl

take_all : (n : ℕ) (cs : List Certificate) → length cs ≤ n → take (length cs) cs ≡ take n cs
take_all zero [] h = refl
take_all (suc n) [] h = refl
take_all zero (c ∷ cs) h = absurd (omega (arith, h))
take_all (suc n) (c ∷ cs) h = ap (λ l. c ∷ l) (take_all n cs (omega (arith, h)))

-- The group has issued these certificates, the first one first.
pub record Issued (g : Group) (cs : List Certificate) : Type 0 where
  pub known : g.known_certs ≡ slots g.boot_nodes cs
  pub count : g.curr_boot_nodes ≡ length cs

pub group_of-Issued : (cert : Certificate) (b n : ℕ) → Issued (group_of cert b n) []
unfolding group_of
group_of-Issued cert b n = record { known = slots_empty b; count = refl }

length-known_certs :
    (g : Group) (cs : List Certificate) → Issued g cs → length g.known_certs ≡ g.boot_nodes
length-known_certs g cs inv = ap length inv.known ∙ length-slots g.boot_nodes cs

in_range :
    (g : Group) (cs : List Certificate)
    → Issued g cs
    → ltb g.curr_boot_nodes g.boot_nodes ≡ true
    → ltb g.curr_boot_nodes (length g.known_certs) ≡ true
in_range g cs inv b = ground (arith, length-known_certs g cs inv)

short :
    (g : Group) (cs : List Certificate)
    → Issued g cs
    → leb g.boot_nodes g.curr_boot_nodes ≡ false
    → leb g.curr_boot_nodes (length g.known_certs) ≡ true
short g cs inv b = ground (arith, length-known_certs g cs inv)

next_curr :
    (g : Group) (cs : List Certificate)
    → Issued g cs
    → length cs + 1 < 2 ^ 32
    → u32 (g.curr_boot_nodes + 1) ≡ length cs + 1
next_curr g cs inv h = omega (arith, inv.count, h)

next_count :
    (g : Group) (cs : List Certificate) (c : Certificate)
    → Issued g cs
    → length cs + 1 < 2 ^ 32
    → u32 (g.curr_boot_nodes + 1) ≡ length (cs ++ (c ∷ []))
next_count g cs c inv h = omega (arith, next_curr g cs inv h, length-append cs (c ∷ []))

-- A group that has issued fewer certificates than fit in 32 bits takes one more: it is known to be
-- a boot node exactly when it is among the first ones, as many as there are boot nodes, and nothing
-- else of the group changes.
pub add_known_cert-Issued :
    (g : Group) (cs : List Certificate) (c : Certificate)
    → Issued g cs
    → length cs + 1 < 2 ^ 32
    → (g' : Group) × (add_known_cert g c ≡ some (g', leb (length cs + 1) g.boot_nodes))
      × Issued g' (cs ++ (c ∷ []))
      × (g'.boot_nodes ≡ g.boot_nodes)
      × (g'.group_cert ≡ g.group_cert)
      × (g'.existing_ids ≡ g.existing_ids)
      × (g'.num_rings ≡ g.num_rings)
unfolding add_known_cert
add_known_cert-Issued g cs c inv h = elim (Bool-cases (ltb g.curr_boot_nodes g.boot_nodes)) [
  | inl b ↦ (
    record g {
      known_certs = set g.known_certs g.curr_boot_nodes (some c);
      curr_boot_nodes = u32 (g.curr_boot_nodes + 1);
    },
    rw (b, in_range g cs inv b, next_curr g cs inv h) refl,
    record {
      known = rw (inv.known, inv.count) (set-slots g.boot_nodes cs c);
      count = next_count g cs c inv h;
    },
    refl,
    refl,
    refl,
    refl,
  )
  | inr b ↦ (
    record g { curr_boot_nodes = u32 (g.curr_boot_nodes + 1) },
    rw (b, next_curr g cs inv h) refl,
    record {
      known = inv.known ∙ sym (slots_full g.boot_nodes cs c (ground (arith, inv.count)));
      count = next_count g cs c inv h;
    },
    refl,
    refl,
    refl,
    refl,
  )
]

-- The boot nodes that are handed out are the first certificates that were issued, as many as there
-- are boot nodes.
pub get_trusted_nodes-Issued :
    (g : Group) (cs : List Certificate)
    → Issued g cs
    → get_trusted_nodes g ≡ some (map (λ c. c.raw) (take g.boot_nodes cs))
unfolding get_trusted_nodes
get_trusted_nodes-Issued g cs inv = elim (Bool-cases (leb g.boot_nodes g.curr_boot_nodes)) [
  | inl b ↦
      rw (b, inv.known)
        (raws-slots g.boot_nodes g.boot_nodes cs (omega arith) (ground (arith, inv.count)))
  | inr b ↦
      rw
        (
          b,
          short g cs inv b,
          inv.known,
          inv.count,
          copied-take (length cs) (slots g.boot_nodes cs),
          raws-slots (length cs) g.boot_nodes cs (ground (arith, inv.count)) (omega arith),
          take_all g.boot_nodes cs (ground (arith, inv.count)),
        )
        refl
]
