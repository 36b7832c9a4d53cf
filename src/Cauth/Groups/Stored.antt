-- ===== src/Cauth/Groups/Stored.antt =====
-- LoadCa of cauth/cauth.go on the files that SaveCertificate writes.
use mathlib.Core.List.{Perm}
use mathlib.Core.List.Perm
use ifrit.Prelude.{ℕ, Bool, true, false, Option, none, some, List, [], Bytes, bytes_eq}
use ifrit.LittleEndian.{uint32}
use ifrit.Discovery.Types.{Certificate}
use ifrit.Cauth.{Group, PemFile, holds, malformed, unreadable, no_block, first_ring_value, group_of}
use ifrit.Cauth.Groups.Written.{matching}

-- The number of rings of a certificate, with the one that is given for a certificate without.
rings_in : ℕ → Certificate → Option ℕ
rings_in num_rings cert = elim (first_ring_value cert.extensions) [
  | none ↦ some num_rings
  | some value ↦ uint32 value
]

-- The group that LoadCa makes of a file, when it makes one.
loads : ℕ → PemFile Certificate → Bool
loads num_rings (holds cert) = elim (rings_in num_rings cert) [ none ↦ false | some k ↦ true ]
loads num_rings unreadable = false
loads num_rings no_block = false
loads num_rings malformed = false

module _ (boot_nodes num_rings : ℕ) (spare : Group) where
  made : PemFile Certificate → Group
  made (holds cert) = elim (rings_in num_rings cert) [
    | none ↦ spare
    | some k ↦ group_of cert boot_nodes k
  ]
  made unreadable = spare
  made no_block = spare
  made malformed = spare

abbrev no_group : Group
no_group =
    group_of
      (record { raw = []; locality = []; subject_key_id = []; public_key = none; extensions = [] })
      0 0

-- What package path/filepath says of the names that match a pattern: each of them is given once.
abbrev pub Globs : (Bytes → Bool) → (List Bytes → List Bytes) → Type 0
Globs is_match glob = (l : List Bytes) → Perm (glob l) (matching is_match l)
